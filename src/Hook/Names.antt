-- ===== src/Hook/Names.antt =====
-- The names in the registry.
use pabel.Base.{◌≡◌, refl, List, [], ◌∷◌, some, arith, All}
use pabel.Base.{Text, before, text_eq_iff}
use pabel.Hook.{Adapter, adapters, adapter_of, agent_id_of}

abbrev IsNamed : Text × Adapter → Type 0
IsNamed r = r.1.name ≡ r.0

adapter_of-name :
    (key : Text) (rs : List (Text × Adapter)) (a : Adapter)
    → All IsNamed rs
    → adapter_of key rs ≡ some a
    → a.name ≡ key
unfolding adapter_of
adapter_of-name key [] a m h = cc
adapter_of-name key ((k, x) ∷ rs) a m h =
    ground (arith, m.0, text_eq_iff k key, adapter_of-name key rs a m.1)

adapters-IsNamed : All IsNamed adapters
unfolding adapters
adapters-IsNamed =
    (refl, (refl, (refl, (refl, (refl, (refl, (refl, (refl, (refl, (refl, (refl, tt)))))))))))

-- The agent whose credential the hook uses is the part before the colon of the key it was started
-- with, for every key of the registry.
adapter_of-agent_id :
    (key : Text) (a : Adapter) → adapter_of key adapters ≡ some a → agent_id_of a ≡ before b':' key
unfolding agent_id_of
adapter_of-agent_id key a h = rw (adapter_of-name key adapters a adapters-IsNamed h) refl
