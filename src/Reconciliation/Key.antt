-- ===== src/Reconciliation/Key.antt =====
-- types.NamespacedName, the key of the maps of internal/reconciliation.
use kubeseer.Prelude.{String, ◌≡◌, ◌↔◌, refl, Bool, true, ◌&&◌, str_eq, eq_iff, arith}
use kubeseer.Prelude.Assoc.{Keyed}

pub record NamespacedName : Type 0 where
  pub namespace : String
  pub name : String

abbrev pub key_eq : NamespacedName → NamespacedName → Bool
key_eq a b = str_eq a.namespace b.namespace && str_eq a.name b.name

pub key_eq_iff : (a b : NamespacedName) → (key_eq a b ≡ true) ↔ (a ≡ b)
key_eq_iff a b = ground (arith, eq_iff a.namespace b.namespace, eq_iff a.name b.name)

-- The test of the instance is shut, so that proofs see one test for each pair of keys.
unfoldable pub key_beq : NamespacedName → NamespacedName → Bool
key_beq a b = key_eq a b

pub key_beq_iff : (a b : NamespacedName) → (key_beq a b ≡ true) ↔ (a ≡ b)
unfolding key_beq
key_beq_iff a b = key_eq_iff a b

instance abbrev pub key_instance : Keyed NamespacedName
key_instance = record { same = key_beq; same_iff = key_beq_iff }

pub key_beq_refl : (k : NamespacedName) → key_beq k k ≡ true
key_beq_refl k = (key_beq_iff k k).1 refl
