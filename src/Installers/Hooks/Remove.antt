-- ===== src/Installers/Hooks/Remove.antt =====
-- What `remove_matching_commands` leaves, against `_command_present`.
use pabel.Base.{
  ◌≡◌, refl, ap, ◌∙◌, Bool, true, false, ◌||◌, Option, none, some, List, [], ◌∷◌, arith, inl, inr,
  Bool-cases,
}
use pabel.Base.{Text, codes, text_eq, text_eq_iff, text_eq_instance, contains, any}
use pabel.Base.Exec.{ok}
use pabel.Json.{Json, Items, Fields, null, bool, num, str, arr, obj, nil, cons, end, field, find}
use pabel.Installers.Hooks.{
  is_hook, names_command, is_listed, lists_command, without, without_items, without_fields,
  remove_matching_commands, removes, removes_items, removes_fields, command_present,
  present_in_items, present_in_fields,
}

-- a value that compares with commands as another does
abbrev SameCommand : Option Json → Option Json → Type 0
SameCommand o p = (c : Text) → names_command c o ≡ names_command c p

command_without : (cs : List Text) (v : Json) → SameCommand (some (without cs v)) (some v)
unfolding without
command_without cs null c = refl
command_without cs (bool b) c = refl
command_without cs (num t) c = refl
command_without cs (str s) c = refl
command_without cs (arr vs) c = refl
command_without cs (obj fs) c = refl

find-without :
    (cs : List Text) (k : Text) (fs : Fields)
    → SameCommand (find k (without_fields cs fs)) (find k fs)
unfolding find without
find-without cs k end c = refl
find-without cs k (field j v fs) c = elim (Bool-cases (text_eq j k)) [
  | inl hit ↦ rw hit (command_without cs v c)
  | inr miss ↦ rw miss (find-without cs k fs c)
]

is_hook-without : (cs : List Text) (c : Text) (v : Json) → is_hook c (without cs v) ≡ is_hook c v
unfolding is_hook without
is_hook-without cs c null = refl
is_hook-without cs c (bool b) = refl
is_hook-without cs c (num t) = refl
is_hook-without cs c (str s) = refl
is_hook-without cs c (arr vs) = refl
is_hook-without cs c (obj fs) = find-without cs (codes "command") fs c

names_command-lists :
    (cs : List Text) (c : Text) (o : Option Json)
    → contains c cs ≡ true
    → names_command c o ≡ true
    → lists_command cs o ≡ true
names_command-lists cs c none m h = cc
names_command-lists cs c (some null) m h = cc
names_command-lists cs c (some (bool b)) m h = cc
names_command-lists cs c (some (num t)) m h = cc
names_command-lists cs c (some (str s)) m h = let e = (text_eq_iff s c).0 h in rw e m
names_command-lists cs c (some (arr vs)) m h = cc
names_command-lists cs c (some (obj fs)) m h = cc

is_hook-is_listed :
    (cs : List Text) (c : Text) (v : Json)
    → contains c cs ≡ true
    → is_listed cs v ≡ false
    → is_hook c v ≡ false
unfolding is_hook is_listed
is_hook-is_listed cs c null m h = refl
is_hook-is_listed cs c (bool b) m h = refl
is_hook-is_listed cs c (num t) m h = refl
is_hook-is_listed cs c (str s) m h = refl
is_hook-is_listed cs c (arr vs) m h = refl
is_hook-is_listed cs c (obj fs) m h =
    ground (arith, names_command-lists cs c (find (codes "command") fs) m)

mutual
  unfolding without command_present

  present-without :
      (cs : List Text) (c : Text) (v : Json)
      → contains c cs ≡ true
      → command_present c (without cs v) ≡ false
  present-without cs c null m = refl
  present-without cs c (bool b) m = refl
  present-without cs c (num t) m = refl
  present-without cs c (str s) m = refl
  present-without cs c (arr vs) m = present-without_items cs c vs m
  present-without cs c (obj fs) m = present-without_fields cs c fs m

  present-without_items :
      (cs : List Text) (c : Text) (vs : Items)
      → contains c cs ≡ true
      → present_in_items c (without_items cs vs) ≡ false
  present-without_items cs c nil m = refl
  present-without_items cs c (cons v vs) m = elim (Bool-cases (is_listed cs v)) [
    | inl hit ↦ rw hit (present-without_items cs c vs m)
    | inr miss ↦ rw (
      miss,
      is_hook-without cs c v,
      is_hook-is_listed cs c v m miss,
      present-without cs c v m,
      present-without_items cs c vs m,
    )
  ]

  present-without_fields :
      (cs : List Text) (c : Text) (fs : Fields)
      → contains c cs ≡ true
      → present_in_fields c (without_fields cs fs) ≡ false
  present-without_fields cs c end m = refl
  present-without_fields cs c (field k v fs) m =
      rw (present-without cs c v m, present-without_fields cs c fs m)

mutual
  unfolding without removes

  without_same : (cs : List Text) (v : Json) → removes cs v ≡ false → without cs v ≡ v
  without_same cs null h = refl
  without_same cs (bool b) h = refl
  without_same cs (num t) h = refl
  without_same cs (str s) h = refl
  without_same cs (arr vs) h = ap arr (without_items_same cs vs h)
  without_same cs (obj fs) h = ap obj (without_fields_same cs fs h)

  without_items_same :
      (cs : List Text) (vs : Items) → removes_items cs vs ≡ false → without_items cs vs ≡ vs
  without_items_same cs nil h = refl
  without_items_same cs (cons v vs) h = ground (arith, without_same cs v, without_items_same cs vs)

  without_fields_same :
      (cs : List Text) (fs : Fields) → removes_fields cs fs ≡ false → without_fields cs fs ≡ fs
  without_fields_same cs end h = refl
  without_fields_same cs (field k v fs) h =
      ground (arith, without_same cs v, without_fields_same cs fs)

-- `any` over the commands, joined
any_or : (cs : List Text) (p q : Text → Bool) → any (λ c. p c || q c) cs ≡ (any p cs || any q cs)
any_or [] p q = refl
any_or (c ∷ cs) p q = ground (arith, any_or cs p q)

any-false : (cs : List Text) → any (λ (c : Text). false) cs ≡ false
any-false [] = refl
any-false (c ∷ cs) = any-false cs

any_names :
    (cs : List Text) (o : Option Json) → any (λ c. names_command c o) cs ≡ lists_command cs o
any_names cs none = any-false cs
any_names cs (some null) = any-false cs
any_names cs (some (bool b)) = any-false cs
any_names cs (some (num t)) = any-false cs
any_names [] (some (str s)) = refl
any_names (c ∷ cs) (some (str s)) =
    ground (arith, text_eq_iff s c, text_eq_iff c s, any_names cs (some (str s)))
any_names cs (some (arr vs)) = any-false cs
any_names cs (some (obj fs)) = any-false cs

any_hook : (cs : List Text) (v : Json) → any (λ c. is_hook c v) cs ≡ is_listed cs v
unfolding is_hook is_listed
any_hook cs null = any-false cs
any_hook cs (bool b) = any-false cs
any_hook cs (num t) = any-false cs
any_hook cs (str s) = any-false cs
any_hook cs (arr vs) = any-false cs
any_hook cs (obj fs) = any_names cs (find (codes "command") fs)

mutual
  unfolding removes command_present

  any_present : (cs : List Text) (v : Json) → any (λ c. command_present c v) cs ≡ removes cs v
  any_present cs null = any-false cs
  any_present cs (bool b) = any-false cs
  any_present cs (num t) = any-false cs
  any_present cs (str s) = any-false cs
  any_present cs (arr vs) = any_present_items cs vs
  any_present cs (obj fs) = any_present_fields cs fs

  any_present_items :
      (cs : List Text) (vs : Items) → any (λ c. present_in_items c vs) cs ≡ removes_items cs vs
  any_present_items cs nil = any-false cs
  any_present_items cs (cons v vs) =
      any_or cs (λ c. is_hook c v || command_present c v) (λ c. present_in_items c vs)
      ∙ ground (
        arith,
        any_or cs (λ c. is_hook c v) (λ c. command_present c v),
        any_hook cs v,
        any_present cs v,
        any_present_items cs vs,
      )

  any_present_fields :
      (cs : List Text) (fs : Fields) → any (λ c. present_in_fields c fs) cs ≡ removes_fields cs fs
  any_present_fields cs end = any-false cs
  any_present_fields cs (field k v fs) =
      any_or cs (λ c. command_present c v) (λ c. present_in_fields c fs)
      ∙ ground (arith, any_present cs v, any_present_fields cs fs)

-- After a removal that does not raise, no entry of any of the commands is present, at any depth.
pub remove_matching_commands_complete :
    (cs : List Text) (v left : Json) (removed : Bool) (c : Text)
    → remove_matching_commands cs v ≡ ok (left, removed)
    → contains c cs ≡ true
    → command_present c left ≡ false
unfolding remove_matching_commands
remove_matching_commands_complete cs v left removed c h m = ground (arith, present-without cs c v)

-- The flag of a removal that does not raise says whether any of the commands was present.
remove_matching_commands-flag :
    (cs : List Text) (v left : Json) (removed : Bool)
    → remove_matching_commands cs v ≡ ok (left, removed)
    → removed ≡ any (λ c. command_present c v) cs
unfolding remove_matching_commands
remove_matching_commands-flag cs v left removed h = ground (arith, any_present cs v)

-- A removal that reports nothing leaves the configuration as it was.
pub remove_matching_commands-unchanged :
    (cs : List Text) (v left : Json) → remove_matching_commands cs v ≡ ok (left, false) → left ≡ v
unfolding remove_matching_commands
remove_matching_commands-unchanged cs v left h = ground (arith, without_same cs v)
