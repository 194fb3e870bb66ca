-- ===== src/Json/Update.antt =====
-- Updates of the entries of a JSON object.
use pabel.Base.{◌≡◌, false, some, arith}
use pabel.Base.{Text, text_eq, text_eq_iff, text_eq_refl}
use pabel.Json.{Json, Fields, end, field, find, with_field}

pub find-with_field : (k : Text) (v : Json) (fs : Fields) → find k (with_field k v fs) ≡ some v
unfolding find with_field
find-with_field k v end = ground (arith, text_eq_refl k)
find-with_field k v (field j w fs) = ground (arith, find-with_field k v fs)

pub find-with_field_ne :
    (j k : Text) (v : Json) (fs : Fields)
    → text_eq j k ≡ false
    → find k (with_field j v fs) ≡ find k fs
unfolding find with_field
find-with_field_ne j k v end h = ground arith
find-with_field_ne j k v (field i w fs) h =
    ground (arith, text_eq_iff i j, text_eq_iff i k, text_eq_iff j k, find-with_field_ne j k v fs)

pub with_field-with_field :
    (k : Text) (v w : Json) (fs : Fields) → with_field k v (with_field k w fs) ≡ with_field k v fs
unfolding with_field
with_field-with_field k v w end = ground (arith, text_eq_refl k)
with_field-with_field k v w (field j u fs) = ground (arith, with_field-with_field k v w fs)

-- writing what an entry already holds
pub with_field_same :
    (k : Text) (v : Json) (fs : Fields) → find k fs ≡ some v → with_field k v fs ≡ fs
unfolding find with_field
with_field_same k v end h = ground arith
with_field_same k v (field j w fs) h = ground (arith, with_field_same k v fs)
