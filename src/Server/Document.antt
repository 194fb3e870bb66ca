-- ===== src/Server/Document.antt =====
-- server/document.py: the shape of an .abe document. A failure of `load_abe` is always the
-- ValueError that the tools report, so the parts give `none`.
pub mod Bounds
use pabel.Base.{ℕ, zero, suc, ◌+◌, ◌-◌, ◌*◌, Bool, true, false, ◌&&◌, Option, none, some}
use pabel.Base.{List, [], ◌∷◌, ◌++◌}
use pabel.Base.{Text, codes, nat_beq, ltb, leb, length, strip_left, text_eq}
use pabel.Base.{if◌then◌else◌}
use pabel.Base.Exec.{Result, ok, err}
use pabel.Json.{Json, Items, Fields, null, bool, num, str, arr, obj, nil, cons, end, find}
use pabel.Failure.{decimal}
use pabel.Server.{Services, Failure, value_error, malformed_document}

-- A payload in the clear may be any value.
pub data Payload : Type 0 where
  gated : Text → Payload
  ungated : Json → Payload

pub record Group : Type 0 where
  pub policy : Json
  pub payload : Payload

-- a section, with the position of its group
pub record Section : Type 0 where
  pub name : Text
  pub group : ℕ

infixl 10 ◌>>=◌
abbrev ◌>>=◌ : {A B : Type 0} → Option A → (A → Option B) → Option B
none >>= f = none
some a >>= f = f a

-- What a `for` runs over; a text or dict that is not empty gives texts, which no entry may be.
abbrev iterated : Json → Option Items
iterated (arr vs) = some vs
iterated (obj end) = some nil
iterated (str []) = some nil
iterated v = none

abbrev fields_of : Json → Option Fields
fields_of (obj fs) = some fs
fields_of v = none

digits_of : ℕ → Text → Option ℕ
digits_of acc [] = some acc
digits_of acc (c ∷ s) =
    let rest = digits_of (10 * acc + (c - b'0')) s in
    if leb b'0' c && leb c b'9' then rest else none

-- An index: whether it counts from the end, and its size. True and False are 1 and 0.
unfoldable pub index_of : Json → Option (Bool × ℕ)
unfolding digits_of
index_of (bool true) = some (false, 1)
index_of (bool false) = some (false, 0)
index_of (num []) = none
index_of (num (c ∷ s)) =
    if nat_beq c b'-'
    then digits_of 0 s >>= (λ n. some (true, n))
    else digits_of 0 (c ∷ s) >>= (λ n. some (false, n))
index_of v = none

-- `xs[i]`, with Python's negative indices; the position that it means
unfoldable pub position_in : ℕ → Bool × ℕ → Option ℕ
position_in len (false, n) = if ltb n len then some n else none
position_in len (true, zero) = if ltb 0 len then some 0 else none
position_in len (true, suc n) = if ltb n len then some (len - suc n) else none

-- `entry.get("policy")`
abbrev or_null : Option Json → Json
or_null none = null
or_null (some v) = v

module _ (S : Services) where
  abbrev gated_by : Json → Json → Option Group
  gated_by policy (str b64) =
      S.b64decode b64 >>= (λ bytes. some (record { policy = policy; payload = gated bytes }))
  gated_by policy v = none

  abbrev from_payloads : Json → Option Json → Option Json → Option Group
  from_payloads policy (some c) p = gated_by policy c
  from_payloads policy none (some p) = some (record { policy = policy; payload = ungated p })
  from_payloads policy none none = none

  -- `_group`
  unfoldable pub group : Json → Option Group
  unfolding find
  group entry = do
    fs ← fields_of entry
    from_payloads (or_null (find (codes "policy") fs)) (find (codes "ciphertext") fs)
        (find (codes "plaintext") fs)

  unfoldable pub load_groups : Items → Option (List Group)
  unfolding group
  load_groups nil = some []
  load_groups (cons v vs) = do g ← group v; gs ← load_groups vs; some (g ∷ gs)

  unfoldable pub load_sections : ℕ → ℕ → Items → Option (List Section)
  unfolding find index_of position_in decimal
  load_sections len i nil = some []
  load_sections len i (cons v vs) = do
    fs ← fields_of v
    index ← find (codes "group") fs
    at ← index_of index
    k ← position_in len at
    rest ← load_sections len (suc i) vs
    some (record { name = codes "section " ++ decimal i; group = k } ∷ rest)

  abbrev is_format : Option Json → Bool
  is_format (some (str s)) = text_eq s (codes "abe-doc")
  is_format v = false

  abbrev when : Bool → Option (Unit {0})
  when true = some tt
  when false = none

  unfoldable pub load_doc : Json → Option (List Section × List Group)
  unfolding load_groups load_sections find
  load_doc doc = do
    fs ← fields_of doc
    _ ← when (is_format (find (codes "format") fs))
    gs ← find (codes "groups") fs
    entries ← iterated gs
    groups ← load_groups entries
    ss ← find (codes "sections") fs
    section_entries ← iterated ss
    sections ← load_sections (length groups) 1 section_entries
    some (sections, groups)

  abbrev or_malformed :
      Option (List Section × List Group) → Result Failure (List Section × List Group)
  or_malformed none = err (value_error malformed_document)
  or_malformed (some d) = ok d

  unfoldable pub load_abe : Text → Result Failure (List Section × List Group)
  unfolding load_doc strip_left
  load_abe content =
      or_malformed (S.loads (strip_left (λ c. nat_beq c 0xfeff) content) >>= load_doc)
