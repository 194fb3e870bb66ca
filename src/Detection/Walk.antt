-- ===== src/Detection/Walk.antt =====
-- `find_relayable_file` of connector/src/pabel_connector/core/detection.py: the paths that a tool
-- input may mean, and the first of them that is a file.
use pabel.Base.{ℕ, zero, suc, ◌-◌, Bool, ◌||◌, not, Option, none, some, List, [], ◌∷◌, ◌++◌, map}
use pabel.Base.{
  Text, nat_beq, length, take, keep, first, partition, strip, strip_left, strip_right,
  if◌then◌else◌,
}
use pabel.Platform.{Platform, is_space}
use pabel.Json.{Json, Items, Fields, null, bool, num, str, arr, obj, nil, cons, end, field}
use pabel.Detection.Pattern.{encrypted_file, extension_at}

-- `re.finditer`: after a match the search goes on behind it.
unfoldable pub find_all : (Text → Option (Text × ℕ)) → ℕ → Text → List Text
find_all match skip [] = []
find_all match (suc skip) (c ∷ s) = find_all match skip s
find_all match zero (c ∷ s) = elim (match (c ∷ s)) [
  | none ↦ find_all match zero s
  | some (m, n) ↦ m ∷ find_all match (n - 1) s
]

-- `"([^"]*)"|'([^']*)'`: the group, and the length of the whole match
abbrev segment_to : ℕ → Text → Option (Text × ℕ)
segment_to quote s = elim (partition quote s) [
  | none ↦ none
  | some (inside, _) ↦ some (inside, suc (suc (length inside)))
]

abbrev match_quoted : Text → Option (Text × ℕ)
match_quoted [] = none
match_quoted (c ∷ s) =
    if nat_beq c 34 then segment_to 34 s else if nat_beq c 39 then segment_to 39 s else none

unfoldable pub quoted_segments : Text → List Text
unfolding find_all partition
quoted_segments s = find_all match_quoted 0 s

abbrev is_quote : ℕ → Bool
is_quote c = nat_beq c 34 || (nat_beq c 39 || nat_beq c 96)

module _ (P : Platform) where
  -- `[^\s]` less the quotes
  abbrev in_file_name : ℕ → Bool
  in_file_name c = not (is_space P c || is_quote c)

  -- What `ENCRYPTED_FILE` matches from here on: the longest, since its first part is greedy.
  unfoldable pub match_encrypted : Text → Option Text
  match_encrypted [] = none
  match_encrypted (c ∷ s) =
      let longer = match_encrypted s in
      let here : Option Text =
        if extension_at P none (c ∷ s) then some (take 4 (c ∷ s)) else none in
      elim (if in_file_name c then longer else none) [ some m ↦ some (c ∷ m) | none ↦ here ]

  abbrev with_length : Option Text → Option (Text × ℕ)
  with_length none = none
  with_length (some m) = some (m, length m)

  unfoldable pub encrypted_matches : Text → List Text
  unfolding find_all match_encrypted
  encrypted_matches s = find_all (λ t. with_length (match_encrypted t)) 0 s

  -- The texts that `walk` hands to `consider` for one string value, in order.
  unfoldable pub considered : Text → List Text
  unfolding quoted_segments encrypted_matches encrypted_file strip_left strip_right
  considered s =
      (if encrypted_file P s then s ∷ [] else [])
      ++ (keep (encrypted_file P) (quoted_segments s) ++ map (strip is_quote) (encrypted_matches s))

  unfoldable mutual
    pub walk : Json → List Text
    walk (str s) = considered s
    walk (obj fs) = walk_fields fs
    walk (arr vs) = walk_items vs
    walk null = []
    walk (bool b) = []
    walk (num t) = []

    pub walk_items : Items → List Text
    walk_items nil = []
    walk_items (cons v vs) = walk v ++ walk_items vs

    pub walk_fields : Fields → List Text
    walk_fields end = []
    walk_fields (field k v fs) = walk v ++ walk_fields fs

  unfoldable pub find_relayable_file : Json → Option Text
  unfolding walk considered
  find_relayable_file tool_input = first (keep P.is_file (walk tool_input))
