-- ===== src/Limits/Accountant/Batch.antt =====
-- Adding a batch of values, as internal/aggregation/evaluator.go does.
use kubeseer.Prelude.{
  ℕ, ◌+◌, ◌≤◌, String, ◌≡◌, ◌↔◌, refl, sym, ◌∙◌, ap, ◌≢◌, Option-cases, inl, inr, Option, none,
  some, List, [], ◌∷◌, arith, All,
}
use kubeseer.Prelude.Int.{ℤ, pos, max_int64}
use kubeseer.Limits.Accountant.{
  Accountant, add_bytes, add, ResultsError, add_projected, account_results,
}

abbrev pub accountant : ℕ → ℕ → String → Accountant
accountant c u d = record { ceiling = pos c; used = pos u; dimension = d }

module _ (c : ℕ) (d : String) (range : c ≤ max_int64) where
  grant :
      (u n : ℕ)
      → u + n ≤ c
      → add_bytes (some (accountant c u d)) (pos n) ≡ (some (accountant c (u + n) d), none)
  unfolding add_bytes
  grant u n h = ground arith

  deny :
      (u n : ℕ)
      → u ≤ c
      → n ≤ max_int64
      → (add_bytes (some (accountant c u d)) (pos n)).1 ≡ none
      → u + n ≤ c
  unfolding add_bytes
  deny u n h k e = ground arith

module _ {R V : Type 0} (project : R → Option V) (canonical_size : V → Option ℤ)
    (size : V → ℕ) where
  -- The encoding of `v` succeeds, with a length that a Go `int` holds.
  pub record IsMeasured (v : V) : Type 0 where
    pub measured : canonical_size v ≡ some (pos (size v))
    pub in_range : size v ≤ max_int64

  -- Where the result is projected at all, its projection is measured.
  abbrev pub IsMeasurable : R → Type 0
  IsMeasurable r = (v : V) → project r ≡ some v → IsMeasured v

  abbrev pub IsProjected : R → Type 0
  IsProjected r = project r ≢ none

  abbrev size_or_zero : Option V → ℕ
  size_or_zero none = 0
  size_or_zero (some v) = size v

  abbrev pub total : List R → ℕ
  total [] = 0
  total (r ∷ rs) = size_or_zero (project r) + total rs

  module _ (c : ℕ) (d : String) (range : c ≤ max_int64) where
    abbrev loop : ℕ → List R → Option Accountant × Option ResultsError
    loop u rs = account_results project canonical_size (some (accountant c u d)) rs

    account_results_fits :
        (u : ℕ) (rs : List R)
        → All IsMeasurable rs
        → All IsProjected rs × (u + total rs ≤ c)
        → loop u rs ≡ (some (accountant c (u + total rs) d), none)
    unfolding account_results add_projected add
    account_results_fits u [] k (p, h) = ground arith
    account_results_fits u (r ∷ rs) k (p, h) = elim (Option-cases (project r)) [
      | inl e ↦ absurd (p.0 e)
      | inr (v, e) ↦
          let m = (k.0 v e).measured in
          let w : u + size v + total rs ≤ c = omega (arith, rw e at h) in
          ground (
            arith,
            e,
            m,
            grant c d range u (size v) (omega (arith, w)),
            account_results_fits (u + size v) rs k.1 (p.1, w),
          )
    ]

    added :
        (u : ℕ) (r : R) (v : V)
        → project r ≡ some v
        → IsMeasured v
        → u + size v ≤ c
        → add_projected project canonical_size (some (accountant c u d)) (project r)
          ≡ (some (accountant c (u + size v) d), none)
    unfolding add_projected add
    added u r v n m w = ground (arith, n, m.measured, grant c d range u (size v) w)

    account_results-step :
        (a b : Accountant) (r : R) (rs : List R)
        → add_projected project canonical_size (some a) (project r) ≡ (some b, none)
        → account_results project canonical_size (some a) (r ∷ rs)
          ≡ account_results project canonical_size (some b) rs
    unfolding account_results
    account_results-step a b r rs h =
        let stops = ap (λ (x : Option Accountant × Option ResultsError). x.1) h in
        let left = ap (λ (x : Option Accountant × Option ResultsError). x.0) h in
        rw (stops, left, account_results) refl

    account_results-none :
        (u : ℕ) (rs : List R)
        → All IsMeasurable rs
        → u ≤ c
        → (loop u rs).1 ≡ none
        → All IsProjected rs × (u + total rs ≤ c)
    unfolding account_results add_projected add
    account_results-none u [] k h e = (tt, omega (arith, h))
    account_results-none u (r ∷ rs) k h e = elim (Option-cases (project r)) [
      | inl n ↦ absurd (ground (arith, rw (n, account_results) at e))
      | inr (v, n) ↦
          let m = (k.0 v n).measured in
          elim (Option-cases (add_bytes (some (accountant c u d)) (pos (size v))).1) [
            | inr (x, y) ↦ absurd (ground (arith, rw (n, m, y, account_results) at e))
            | inl y ↦
                let w = deny c d range u (size v) h (k.0 v n).in_range y in
                let (p, q) = account_results-none (u + size v) rs k.1 w (
                  ap (λ (x : Option Accountant × Option ResultsError). x.1)
                    (sym (
                      account_results-step (accountant c u d) (accountant c (u + size v) d) r rs
                        (added u r v n (k.0 v n) w)))
                  ∙ e) in
                ((λ z. ground (arith, n, z), p), rw n (omega (arith, q)))
          ]
    ]

  -- From `u` bytes in use of at most the ceiling, and where the projections that there are have an
  -- encoding, the loop ends with no error and all sizes committed exactly where every result is projected
  -- and the sizes fit below the ceiling together.
  pub account_results_exact :
      (c : ℕ) (d : String) (u : ℕ) (rs : List R)
      → c ≤ max_int64
      → All IsMeasurable rs
      → u ≤ c
      → (All IsProjected rs × (u + total rs ≤ c)) ↔ (
          account_results project canonical_size (some (accountant c u d)) rs
          ≡ (some (accountant c (u + total rs) d), none))
  account_results_exact c d u rs range k h = (
    account_results_fits c d range u rs k,
    λ e.
        account_results-none c d range u rs k h
          (ap (λ (r : Option Accountant × Option ResultsError). r.1) e),
  )
