-- ===== src/AccessPolicy/Permits.antt =====
-- What an installation policy permits, said of the policy as it is written, and the evaluator against
-- it.
use kubeseer.Prelude.{
  String, eq_iff, ◌≡◌, ◌↔◌, ◌⊎◌, refl, true, false, List, [], ◌∷◌, ◌++◌, ◌||◌, arith,
}
use kubeseer.AccessPolicy.Policy.{ResourceRule, ResourceKey}
use kubeseer.AccessPolicy.Compile.{kind_keys, group_keys, rule_keys}
use kubeseer.AccessPolicy.Evaluate.{contains, contains_key}

abbrev pub Some : {A : Type 0} → (A → Type 0) → List A → Type 0
Some P [] = ⊥
Some P (x ∷ xs) = P x ⊎ Some P xs

-- The value stands in the list.
abbrev pub In : String → List String → Type 0
In value values = Some (λ v. v ≡ value) values

pub contains_iff : (values : List String) (v : String) → (contains values v ≡ true) ↔ In v values
unfolding contains
contains_iff [] v = (λ h. cc, λ h. absurd h)
contains_iff (x ∷ xs) v = ground (arith, eq_iff x v, contains_iff xs v)

pub contains-false_iff :
    (values : List String) (v : String) → (contains values v ≡ false) ↔ ¬ In v values
contains-false_iff values v = ground (arith, contains_iff values v)

-- A rule names both the group and the Kind.
abbrev pub Names : String → String → ResourceRule → Type 0
Names group kind rule = In group rule.api_groups × In kind rule.kinds

contains_key-append :
    (xs ys : List ResourceKey) (g k : String)
    → contains_key (xs ++ ys) g k ≡ (contains_key xs g k || contains_key ys g k)
unfolding contains_key
contains_key-append [] ys g k = refl
contains_key-append (x ∷ xs) ys g k = ground (arith, contains_key-append xs ys g k)

kind_keys_iff :
    (group : String) (kinds : List String) (g k : String)
    → (contains_key (kind_keys group kinds) g k ≡ true) ↔ ((group ≡ g) × In k kinds)
unfolding kind_keys contains_key
kind_keys_iff group [] g k = (λ h. cc, λ h. absurd h.1)
kind_keys_iff group (x ∷ xs) g k =
    ground (arith, eq_iff group g, eq_iff x k, kind_keys_iff group xs g k)

group_keys_iff :
    (groups kinds : List String) (g k : String)
    → (contains_key (group_keys groups kinds) g k ≡ true) ↔ (In g groups × In k kinds)
unfolding group_keys contains_key
group_keys_iff [] kinds g k = (λ h. cc, λ h. absurd h.0)
group_keys_iff (x ∷ xs) kinds g k =
    rw (contains_key-append (kind_keys x kinds) (group_keys xs kinds) g k)
      (ground (arith, kind_keys_iff x kinds g k, group_keys_iff xs kinds g k))

pub rule_keys_iff :
    (rules : List ResourceRule) (g k : String)
    → (contains_key (rule_keys rules) g k ≡ true) ↔ Some (Names g k) rules
unfolding rule_keys contains_key
rule_keys_iff [] g k = (λ h. cc, λ h. absurd h)
rule_keys_iff (r ∷ rs) g k =
    rw (contains_key-append (group_keys r.api_groups r.kinds) (rule_keys rs) g k)
      (ground (arith, group_keys_iff r.api_groups r.kinds g k, rule_keys_iff rs g k))
