-- ===== src/Selection/Execution/Restarts.antt =====
-- The items of a page in `listTarget` of internal/selection/executor.go leave the mark of a restart alone.
use kubeseer.Prelude.{
  ℕ, str_eq, ◌≡◌, sym, ap, ◌∙◌, Option, Bool, true, false, ◌||◌, List, [], ◌∷◌, length, Bool-cases,
  Option-cases, inl, inr,
}
use kubeseer.Prelude.Int.{pos, leb_ℤ}
use kubeseer.Prelude.Result.{ok, Result-cases, err≢ok, ok_injective}
use kubeseer.AccessPolicy.Evaluate.{contains}
use kubeseer.Extraction.Json.{Fields}
use kubeseer.Limits.Accountant.{Accountant}
use kubeseer.Selection.Contracts.{SelectionPlan}
use kubeseer.Selection.Executor.{Item, Executor, Progress, keep, granted, take_item, take_items}

module _ (canonical_size : Fields → Option ℕ) (e : Executor) (p : SelectionPlan) where
  keep-restarted :
      (item : Item) (k : ℕ) (s t : Progress) (g : Option Accountant × Bool)
      → keep canonical_size e p item k s g ≡ ok t
      → t.restarted ≡ s.restarted
  unfolding keep
  keep-restarted item k s t (b, false) q = absurd (err≢ok q)
  keep-restarted item k s t (b, true) q = ap (λ r. r.restarted) (sym (ok_injective q))

  take_item-restarted :
      (item : Item) (s t : Progress)
      → take_item canonical_size e p item s ≡ ok t
      → t.restarted ≡ s.restarted
  unfolding take_item
  take_item-restarted item s t q = elim (Bool-cases (str_eq item.name "" || str_eq item.uid "")) [
    | inl a ↦ absurd (err≢ok (rw a at q))
    | inr a ↦ elim (Bool-cases (contains s.budget.seen item.uid)) [
      | inl b ↦ ap (λ r. r.restarted) (sym (ok_injective (rw (a, b) at q)))
      | inr b ↦ elim (Bool-cases (leb_ℤ e.max_resources (pos (length s.budget.seen)))) [
        | inl c ↦ absurd (err≢ok (rw (a, b, c) at q))
        | inr c ↦ elim (Option-cases (canonical_size item.object)) [
          | inl z ↦ absurd (err≢ok (rw (a, b, c, z) at q))
          | inr (k, z) ↦
              keep-restarted item k s t (granted canonical_size e p s.budget.bytes k)
                (rw (a, b, c, z) at q)
        ]
      ]
    ]
  ]

  pub take_items-restarted :
      (items : List Item) (s t : Progress)
      → take_items canonical_size e p items s ≡ ok t
      → t.restarted ≡ s.restarted
  unfolding take_items
  take_items-restarted [] s t q = ap (λ r. r.restarted) (sym (ok_injective q))
  take_items-restarted (item ∷ items) s t q =
      elim (Result-cases (take_item canonical_size e p item s)) [
        | inr (x, a) ↦ absurd (err≢ok (rw a at q))
        | inl (r, a) ↦ take_items-restarted items r t (rw a at q) ∙ take_item-restarted item s r a
      ]
