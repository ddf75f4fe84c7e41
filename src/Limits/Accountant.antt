-- ===== src/Limits/Accountant.antt =====
-- internal/limits/profile.go: the byte accountant. A method has the receiver as an argument, `none`
-- where it is nil, and returns the receiver's new state beside its error.
pub mod Laws
pub mod Batch
use kubeseer.Prelude.{
  String, str_append, Option, none, some, Bool, true, false, List, [], ◌∷◌, ◌||◌, if◌then◌else◌,
}
use kubeseer.Prelude.Int.{ℤ, pos, leb_ℤ, ltb_ℤ, ◌+ℤ◌, ◌-ℤ◌, wrap64, max_int64}
use kubeseer.Prelude.Result.{Result, ok, err}
use kubeseer.Limits.Profile.{InvalidConfigurationError}
use kubeseer.Limits.Resolve.{invalid}

pub data AccountError : Type 0 where
  nil_accountant limit_exceeded accounting_overflow not_measurable : AccountError

pub record Accountant : Type 0 where
  pub ceiling : ℤ
  pub used : ℤ
  pub dimension : String

unfoldable pub new_accountant : ℤ → String → Result InvalidConfigurationError Accountant
new_accountant ceiling dimension =
    if leb_ℤ ceiling (pos 0)
    then err (invalid (str_append "accountant." dimension) ceiling)
    else ok (record { ceiling = ceiling; used = pos 0; dimension = dimension })

unfoldable pub would_exceed_bytes : Option Accountant → ℤ → Bool × Option AccountError
would_exceed_bytes none size = (false, some nil_accountant)
would_exceed_bytes (some a) size =
    if ltb_ℤ size (pos 0) || ltb_ℤ (wrap64 (pos max_int64 -ℤ size)) a.used
    then (true, some accounting_overflow)
    else (ltb_ℤ a.ceiling (wrap64 (a.used +ℤ size)), none)

commit : Accountant → ℤ → Bool × Option AccountError → Option Accountant × Option AccountError
commit a size (exceeds, some e) = (some a, some e)
commit a size (exceeds, none) =
    if exceeds
    then (some a, some limit_exceeded)
    else (some (record a { used = wrap64 (a.used +ℤ size) }), none)

unfoldable pub add_bytes : Option Accountant → ℤ → Option Accountant × Option AccountError
unfolding would_exceed_bytes commit
add_bytes none size = (none, some nil_accountant)
add_bytes (some a) size = commit a size (would_exceed_bytes (some a) size)

unfoldable pub release_bytes : Option Accountant → ℤ → Option Accountant × Option AccountError
release_bytes none size = (none, some nil_accountant)
release_bytes (some a) size =
    if ltb_ℤ size (pos 0) || ltb_ℤ a.used size
    then (some a, some accounting_overflow)
    else (some (record a { used = wrap64 (a.used -ℤ size) }), none)

-- `canonical_size` stands for `CanonicalSize`, the length of the JSON encoding of a value of any
-- type; it is `none` where the encoding fails.
module _ {V : Type 0} (canonical_size : V → Option ℤ) where
  unfoldable pub would_exceed : Option Accountant → V → Bool × Option AccountError
  would_exceed a value = elim (canonical_size value) [
    | none ↦ (false, some not_measurable)
    | some size ↦ would_exceed_bytes a size
  ]

  unfoldable pub add : Option Accountant → V → Option Accountant × Option AccountError
  add a value = elim (canonical_size value) [
    | none ↦ (a, some not_measurable)
    | some size ↦ add_bytes a size
  ]

-- Why the accounting of results stops.
pub data ResultsError : Type 0 where
  not_projected : ResultsError
  not_accounted : AccountError → ResultsError

-- `project` stands for `projectAggregate` of internal/aggregation/result.go, and is `none` where that
-- returns an error.
module _ {R V : Type 0} (project : R → Option V) (canonical_size : V → Option ℤ) where
  unfoldable pub add_projected :
      Option Accountant → Option V → Option Accountant × Option ResultsError
  unfolding add
  add_projected a none = (a, some not_projected)
  add_projected a (some v) = elim (add canonical_size a v).1 [
    | some e ↦ ((add canonical_size a v).0, some (not_accounted e))
    | none ↦ ((add canonical_size a v).0, none)
  ]

  -- The loop that projects and accounts the results in order and stops at the first error; with no
  -- accountant there is no limit, and nothing is projected.
  unfoldable pub account_results :
      Option Accountant → List R → Option Accountant × Option ResultsError
  unfolding add_projected
  account_results a [] = (a, none)
  account_results none (r ∷ rs) = (none, none)
  account_results (some a) (r ∷ rs) = elim (add_projected (some a) (project r)).1 [
    | some e ↦ ((add_projected (some a) (project r)).0, some e)
    | none ↦ account_results (add_projected (some a) (project r)).0 rs
  ]
