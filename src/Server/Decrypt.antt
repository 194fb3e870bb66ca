-- ===== src/Server/Decrypt.antt =====
-- `Group.decrypt_with` of server/document.py, and `_decrypt_groups` and `decrypt_document` of
-- server/core.py. The groups are decrypted one after the other; the thread pool hands the results,
-- or the first exception, back in that order.
mod Kept
pub mod Denied
use pabel.Base.{ℕ, suc, Bool, true, false, not, Option, none, some, List, [], ◌∷◌, map}
use pabel.Base.{Text, codes, nat_beq, ltb, length, get_elem?, set, replicate, if◌then◌else◌}
use pabel.Base.Exec.{Result, ok, err}
use pabel.Json.{Json, Items, Fields, null, bool, num, str, arr, obj, nil, cons, end, field}
use pabel.Server.{Services, Failure, value_error, other_error, foreign}
use pabel.Server.Abe.{decrypt_bytes}
use pabel.Server.Document.{Group, Section, Payload, gated, ungated, load_abe}

infixl 10 ◌>>=◌
abbrev pub ◌>>=◌ : {A B : Type 0} → Result Failure A → (A → Result Failure B) → Result Failure B
ok a >>= f = f a
err e >>= f = err e

-- what `zip` takes from a value
abbrev list_of_items : Items → List Json
list_of_items nil = []
list_of_items (cons v vs) = v ∷ list_of_items vs

abbrev keys_of : Fields → List Json
keys_of end = []
keys_of (field k v fs) = str k ∷ keys_of fs

-- None is no result; a text gives its characters and a dict its keys
abbrev pub texts_of : Json → Result Failure (Option (List Json))
texts_of null = ok none
texts_of (arr vs) = ok (some (list_of_items vs))
texts_of (str s) = ok (some (map (λ c. str (c ∷ [])) s))
texts_of (obj fs) = ok (some (keys_of fs))
texts_of (bool b) = err (other_error (foreign (codes "not iterable")))
texts_of (num t) = err (other_error (foreign (codes "not iterable")))

abbrev loaded : Option Json → Result Failure Json
loaded none = err (value_error (foreign (codes "not JSON")))
loaded (some v) = ok v

-- the positions of a group's sections, from position `i` on
unfoldable pub positions : ℕ → ℕ → List Section → List ℕ
positions k i [] = []
positions k i (s ∷ ss) =
    let rest = positions k (suc i) ss in if nat_beq s.group k then i ∷ rest else rest

-- `for s, text in zip(g.sections, result): s.text = text`
unfoldable pub give : List ℕ → List Json → List Json → List Json
give [] ts texts = texts
give (p ∷ ps) [] texts = texts
give (p ∷ ps) (t ∷ ts) texts = give ps ts (set texts p t)

module _ (S : Services) where
  abbrev loads_of : Json → Result Failure Json
  loads_of (str t) = loaded (S.loads t)
  loads_of v = err (other_error (foreign (codes "the JSON object must be str")))

  -- the JSON array of a group with several sections, or the one text
  unfoldable pub unpack : ℕ → Json → Result Failure (Option (List Json))
  unpack n payload = if ltb 1 n then loads_of payload >>= texts_of else ok (some (payload ∷ []))

  abbrev unpack_text : ℕ → Option Text → Result Failure (Option (List Json))
  unpack_text n none = ok none
  unpack_text n (some t) = unpack n (str t)

  -- `none` when the key is not entitled; a null payload is taken for a missing ciphertext
  unfoldable pub decrypt_with : Text → ℕ → Payload → Result Failure (Option (List Json))
  unfolding unpack
  decrypt_with key_bytes n (gated ciphertext) = unpack_text n (decrypt_bytes S key_bytes ciphertext)
  decrypt_with key_bytes n (ungated null) = err (other_error (foreign (codes "no ciphertext")))
  decrypt_with key_bytes n (ungated payload) = unpack n payload

  unfoldable pub decrypt_each :
      Text → ℕ → List Section → List Group → Result Failure (List (Option (List Json)))
  unfolding decrypt_with
  decrypt_each key_bytes k sections [] = ok []
  decrypt_each key_bytes k sections (g ∷ gs) = do
    r ← decrypt_with key_bytes (length (positions k 0 sections)) g.payload
    rs ← decrypt_each key_bytes (suc k) sections gs
    ok (r ∷ rs)

  unfoldable pub give_all : ℕ → List Section → List (Option (List Json)) → List Json → List Json
  unfolding give positions
  give_all k sections [] texts = texts
  give_all k sections (none ∷ rs) texts = give_all (suc k) sections rs texts
  give_all k sections (some ts ∷ rs) texts =
      give_all (suc k) sections rs (give (positions k 0 sections) ts texts)

  -- the texts of the sections; null is None
  unfoldable pub decrypt_groups : Text → List Section → List Group → Result Failure (List Json)
  unfolding decrypt_each give_all
  decrypt_groups key_bytes sections groups = do
    results ← decrypt_each key_bytes 0 sections groups
    ok (give_all 0 sections results (replicate (length sections) null))

-- one entry of the answer
pub record SectionView : Type 0 where
  pub name : Text
  pub policy : Json
  pub accessible : Bool
  pub text : Json

abbrev is_null : Json → Bool
is_null null = true
is_null (bool b) = false
is_null (num t) = false
is_null (str t) = false
is_null (arr vs) = false
is_null (obj fs) = false

abbrev pub policy_of : Option Group → Json
policy_of none = null
policy_of (some g) = g.policy

unfoldable pub view_of : List Group → Section → Json → SectionView
view_of groups s text = record {
  name = s.name;
  policy = policy_of (get_elem? groups s.group);
  accessible = not (is_null text);
  text = if is_null text then str (codes "[ACCESS DENIED]") else text;
}

unfoldable pub views : List Group → List Section → List Json → List SectionView
unfolding view_of
views groups [] texts = []
views groups (s ∷ ss) [] = view_of groups s null ∷ views groups ss []
views groups (s ∷ ss) (t ∷ ts) = view_of groups s t ∷ views groups ss ts

module _ (S : Services) where
  unfoldable pub decrypt_document : Text → Text → Result Failure (List SectionView)
  unfolding decrypt_groups views load_abe
  decrypt_document content key_bytes = do
    (sections, groups) ← load_abe S content
    texts ← decrypt_groups S key_bytes sections groups
    ok (views groups sections texts)
