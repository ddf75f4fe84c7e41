-- ===== src/Selection/Execution/Outcome.antt =====
-- What `Execute` of internal/selection/executor.go returns keeps within the limits.
use mathlib.Core.Path.{subst}
use mathlib.Core.List.{append-nil}
use kubeseer.Prelude.{
  ℕ, ◌+◌, String, ◌≡◌, refl, sym, Option, some, List, [], ◌∷◌, ◌++◌, map, length, arith,
}
use kubeseer.Prelude.Int.{pos, ◌≤ℤ◌, max_int64}
use kubeseer.Extraction.Json.{Fields}
use kubeseer.Selection.Contracts.{SelectionError, SelectionPlan, AuthorizedRead}
use kubeseer.Selection.Texts.{DistinctTexts}
use kubeseer.Selection.Executor.{SelectedResource, Executor, SelectedInput, Progress}
use kubeseer.Selection.Execution.{
  Round, Run, waiting, stopped, finished, start, list_target, list_targets, Collected,
}
use kubeseer.Selection.Execution.Budget.{
  total, uids, budget_of, IsGrown, AreMeasured, total-nil, total-append, map-append,
}
use kubeseer.Selection.Execution.Turns.{RunGrown, list_target-Grown}

abbrev pub uid_of : SelectedResource → String
uid_of r = r.provenance.uid

pub finished_injective :
    {A : Type 0} {a b : A} {q r : List Round}
    → ◌≡◌ {A = Run A} (finished a q) (finished b r)
    → a ≡ b
finished_injective h = cc

pub waiting≢finished :
    {A : Type 0} {s : Progress} {a : A} {r : List Round}
    → ◌≡◌ {A = Run A} (waiting s) (finished a r)
    → ⊥
waiting≢finished h = cc

pub stopped≢finished :
    {A : Type 0} {x : SelectionError} {a : A} {q r : List Round}
    → ◌≡◌ {A = Run A} (stopped x q) (finished a r)
    → ⊥
stopped≢finished h = cc

module _ (canonical_size : Fields → Option ℕ) (e : Executor) (p : SelectionPlan)
    (m : AreMeasured canonical_size e p) (c64 : e.max_input_bytes ≤ℤ pos max_int64)
    (d : String) where
  -- What the loop over the reads has collected, with what was accepted for it.
  pub record IsCollected (c : Collected) : Type 0 where
    pub inputs : List SelectedInput
    pub budget : c.1 ≡ budget_of e.max_input_bytes d (uids inputs) (total inputs)
    pub distinct : DistinctTexts (uids inputs)
    pub bytes : pos (total inputs) ≤ℤ e.max_input_bytes
    pub count : pos (length (uids inputs)) ≤ℤ e.max_resources
    pub item_uids : map uid_of c.0 ≡ uids inputs
    pub item_sizes : map (λ r. canonical_size r.object) c.0 ≡ map (λ i. some i.size) inputs

  base-IsGrown :
      (c : Collected) (g : IsCollected c)
      → IsGrown canonical_size e p d
          (uids g.inputs)
          (total g.inputs)
          (start (budget_of e.max_input_bytes d (uids g.inputs) (total g.inputs)))
  base-IsGrown c g =
      let zero : 0 + total g.inputs ≡ total g.inputs = omega arith in
      let nil = append-nil (uids g.inputs) in
      record {
        budget = rw (nil, total-nil, zero) refl;
        distinct = rw nil g.distinct;
        bytes = rw (total-nil, zero) g.bytes;
        count = rw nil g.count;
        item_uids = refl;
        item_sizes = refl;
      }

  more-IsCollected :
      (c : Collected) (g : IsCollected c) (s : Progress)
      → IsGrown canonical_size e p d (uids g.inputs) (total g.inputs) s
      → IsCollected (c.0 ++ s.items, s.budget)
  more-IsCollected c g s h =
      let us = map-append (λ (i : SelectedInput). i.uid) g.inputs s.accepted in
      let sum : total (g.inputs ++ s.accepted) ≡ total s.accepted + total g.inputs =
        omega (arith, total-append g.inputs s.accepted) in
      record {
        inputs = g.inputs ++ s.accepted;
        budget = rw (us, sum) h.budget;
        distinct = rw us h.distinct;
        bytes = rw sum h.bytes;
        count = rw us h.count;
        item_uids = rw (map-append uid_of c.0 s.items, us, g.item_uids, h.item_uids) refl;
        item_sizes =
            rw
              (
                map-append (λ r. canonical_size r.object) c.0 s.items,
                map-append (λ (i : SelectedInput). some i.size) g.inputs s.accepted,
                g.item_sizes,
                h.item_sizes,
              )
              refl;
      }

  pub list_targets-IsCollected :
      (reads : List (Option AuthorizedRead)) (c c' : Collected) (rounds rest : List Round)
      → IsCollected c
      → list_targets canonical_size e p reads c rounds ≡ finished c' rest
      → IsCollected c'
  unfolding list_targets
  list_targets-IsCollected [] c c' rounds rest g q = subst IsCollected (finished_injective q) g
  list_targets-IsCollected (read ∷ reads) c c' rounds rest g q =
      let base = base-IsGrown c g in
      go (list_target canonical_size e p read (start c.1) rounds)
        (list_target-Grown canonical_size e p m c64 d (uids g.inputs) (total g.inputs) base read
          (start c.1) rounds
          (subst (λ b. IsGrown canonical_size e p d (uids g.inputs) (total g.inputs) (start b))
            (sym g.budget) base))
        q
        (λ s left h k.
          list_targets-IsCollected reads (c.0 ++ s.items, s.budget) c' left rest
            (more-IsCollected c g s h) k)
    where
      go :
          (r : Run Progress)
          → RunGrown canonical_size e p m c64 d
              (uids g.inputs)
              (total g.inputs)
              (base-IsGrown c g)
              r
          → (elim r as (λ _. Run Collected) [
            | waiting s ↦ waiting s
            | stopped x left ↦ stopped x left
            | finished s left ↦
                list_targets canonical_size e p reads (c.0 ++ s.items, s.budget) left
          ])
            ≡ finished c' rest
          → ((s : Progress) (left : List Round)
              → IsGrown canonical_size e p d (uids g.inputs) (total g.inputs) s
              → list_targets canonical_size e p reads (c.0 ++ s.items, s.budget) left
                ≡ finished c' rest
              → IsCollected c')
          → IsCollected c'
      go (waiting s) h k next = absurd (waiting≢finished k)
      go (stopped x left) h k next = absurd (stopped≢finished k)
      go (finished s left) h k next = next s left h k
