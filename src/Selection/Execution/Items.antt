-- ===== src/Selection/Execution/Items.antt =====
-- The items of a page and a restart in `listTarget` of internal/selection/executor.go keep the budget's
-- account.
use mathlib.Core.Path.{subst}
use kubeseer.Prelude.{
  ℕ, ◌+◌, ◌≤◌, String, str_eq, ◌≡◌, refl, sym, ap, ◌∙◌, Option, some, Bool, true, false, ◌||◌, List,
  [], ◌∷◌, ◌++◌, length, arith, if◌then◌else◌, Bool-cases, Option-cases, inl, inr,
}
use kubeseer.Prelude.Int.{pos, ◌≤ℤ◌, leb_ℤ, max_int64}
use kubeseer.Prelude.Result.{ok, Result-cases, err≢ok, ok_injective}
use kubeseer.AccessPolicy.Evaluate.{contains}
use kubeseer.Extraction.Json.{Fields}
use kubeseer.Limits.Accountant.{Accountant, add_bytes}
use kubeseer.Selection.Contracts.{SelectionPlan}
use kubeseer.Selection.Executor.{
  Item, Executor, Progress, restart, keep, granted, take_item, take_items,
}
use kubeseer.Selection.Execution.Budget.{
  total, uids, account, budget_of, IsGrown, AreMeasured, with_item, with_item-IsGrown,
  take_back-accepted,
}

module _ (canonical_size : Fields → Option ℕ) (e : Executor) (p : SelectionPlan)
    (m : AreMeasured canonical_size e p) (c64 : e.max_input_bytes ≤ℤ pos max_int64) (d : String)
    (us : List String) (n : ℕ) where
  abbrev pub Grown : Progress → Type 0
  Grown s = IsGrown canonical_size e p d us n s

  granted-account :
      (u k : ℕ)
      → pos u ≤ℤ e.max_input_bytes
      → k ≤ max_int64
      → granted canonical_size e p (some (account e.max_input_bytes d u)) k ≡ (
          if leb_ℤ (pos (u + k)) e.max_input_bytes
          then (some (account e.max_input_bytes d (u + k)), true)
          else (some (account e.max_input_bytes d u), false))
  unfolding granted add_bytes
  granted-account u k w h = ground (arith, c64)

  keep-granted :
      (item : Item) (k : ℕ) (s : Progress) (g : Option Accountant × Bool) (b : Option Accountant)
      → g ≡ (b, true)
      → keep canonical_size e p item k s g
        ≡ ok (with_item canonical_size e p m c64 d us n item k s b)
  unfolding keep
  keep-granted item k s g b h = rw h refl

  keep-refused :
      (item : Item) (k : ℕ) (s t : Progress) (g : Option Accountant × Bool) (b : Option Accountant)
      → g ≡ (b, false)
      → keep canonical_size e p item k s g ≡ ok t
      → ⊥
  unfolding keep
  keep-refused item k s t g b h q = ground (arith, h, q)

  keep-Grown :
      (item : Item) (k : ℕ) (s t : Progress)
      → Grown s
      → contains s.budget.seen item.uid ≡ false
      → leb_ℤ e.max_resources (pos (length s.budget.seen)) ≡ false
      → canonical_size item.object ≡ some k
      → keep canonical_size e p item k s (granted canonical_size e p s.budget.bytes k) ≡ ok t
      → Grown t
  keep-Grown item k s t g h l z q =
      let u = total s.accepted + n in
      let bytes : s.budget.bytes ≡ some (account e.max_input_bytes d u) =
        ap (λ b. b.bytes) g.budget in
      let seen : s.budget.seen ≡ us ++ uids s.accepted = ap (λ b. b.seen) g.budget in
      let exact = granted-account u k g.bytes (m item.object k z) in
      elim (Bool-cases (leb_ℤ (pos (u + k)) e.max_input_bytes)) [
        | inr w ↦ absurd (
            keep-refused item k s t (granted canonical_size e p s.budget.bytes k)
              (some (account e.max_input_bytes d u)) (rw (bytes, exact, w) refl) q)
        | inl w ↦
            subst Grown
              (ok_injective (
                sym (
                  keep-granted item k s (granted canonical_size e p s.budget.bytes k)
                    (some (account e.max_input_bytes d (u + k))) (rw (bytes, exact, w) refl))
                ∙ q))
              (with_item-IsGrown canonical_size e p m c64 d us n item k s g
                (subst (λ v. contains v item.uid ≡ false) seen h)
                (subst (λ v. leb_ℤ e.max_resources (pos (length v)) ≡ false) seen l) z
                (ground (arith, w)))
      ]

  take_item-Grown :
      (item : Item) (s t : Progress)
      → Grown s
      → take_item canonical_size e p item s ≡ ok t
      → Grown t
  unfolding take_item
  take_item-Grown item s t g q = elim (Bool-cases (str_eq item.name "" || str_eq item.uid "")) [
    | inl a ↦ absurd (err≢ok (rw a at q))
    | inr a ↦ elim (Bool-cases (contains s.budget.seen item.uid)) [
      | inl b ↦ subst Grown (ok_injective (rw (a, b) at q)) g
      | inr b ↦ elim (Bool-cases (leb_ℤ e.max_resources (pos (length s.budget.seen)))) [
        | inl c ↦ absurd (err≢ok (rw (a, b, c) at q))
        | inr c ↦ elim (Option-cases (canonical_size item.object)) [
          | inl z ↦ absurd (err≢ok (rw (a, b, c, z) at q))
          | inr (k, z) ↦ keep-Grown item k s t g b c z (rw (a, b, c, z) at q)
        ]
      ]
    ]
  ]

  pub take_items-Grown :
      (items : List Item) (s t : Progress)
      → Grown s
      → take_items canonical_size e p items s ≡ ok t
      → Grown t
  unfolding take_items
  take_items-Grown [] s t g q = subst Grown (ok_injective q) g
  take_items-Grown (item ∷ items) s t g q =
      elim (Result-cases (take_item canonical_size e p item s)) [
        | inr (x, a) ↦ absurd (err≢ok (rw a at q))
        | inl (r, a) ↦ take_items-Grown items r t (take_item-Grown item s r g a) (rw a at q)
      ]

  -- A restart gives back just the budget with which the target began.
  pub restart-budget :
      (s : Progress) → Grown s → (restart s).budget ≡ budget_of e.max_input_bytes d us n
  unfolding restart
  restart-budget s g = rw g.budget (
      take_back-accepted e.max_input_bytes d us n s.accepted g.distinct
        (omega (arith, g.bytes, c64)))

  -- The account reads the items, what is accepted and the budget.
  pub Grown-same :
      (s t : Progress)
      → Grown s
      → t.items ≡ s.items
      → t.accepted ≡ s.accepted
      → t.budget ≡ s.budget
      → Grown t
  Grown-same s t g i a b = record {
    budget = rw (a, b) g.budget;
    distinct = rw a g.distinct;
    bytes = rw a g.bytes;
    count = rw a g.count;
    item_uids = rw (i, a) g.item_uids;
    item_sizes = rw (i, a) g.item_sizes;
  }
