-- ===== src/Limits/Accountant/Laws.antt =====
-- The accountant of internal/limits/profile.go over the integers, and under sequences of calls.
use kubeseer.Prelude.{
  String, ◌≡◌, refl, Option, none, some, List, [], ◌∷◌, ◌||◌, arith, All, if◌then◌else◌,
}
use kubeseer.Prelude.Int.{ℤ, pos, ◌≤ℤ◌, ◌+ℤ◌, ◌-ℤ◌, ltb_ℤ, max_int64}
use kubeseer.Prelude.Result.{ok}
use kubeseer.Limits.Accountant.{
  limit_exceeded, accounting_overflow, Accountant, new_accountant, add_bytes, release_bytes,
}

-- 0 < ceiling ≤ MaxInt64 and 0 ≤ used ≤ ceiling.
pub record IsBounded (a : Accountant) : Type 0 where
  pub ceiling_positive : pos 1 ≤ℤ a.ceiling
  pub ceiling_int64 : a.ceiling ≤ℤ pos max_int64
  pub used_nonneg : pos 0 ≤ℤ a.used
  pub used_within : a.used ≤ℤ a.ceiling

abbrev pub IsInt64 : ℤ → Type 0
IsInt64 n = n ≤ℤ pos max_int64

pub new_accountant-IsBounded :
    (c : ℤ) (d : String) {a : Accountant} → IsInt64 c → new_accountant c d ≡ ok a → IsBounded a
unfolding new_accountant
new_accountant-IsBounded c d h e = ground arith

-- With 0 < ceiling ≤ MaxInt64 and 0 ≤ used ≤ ceiling, a count of type int64 is granted exactly where it is
-- not negative and the sum, over the integers and with no wrap-around, keeps within the ceiling; the
-- error tells a refused sum from a count that would overflow.
pub add_bytes_exact :
    (a : Accountant) (n : ℤ)
    → IsBounded a
    → IsInt64 n
    → add_bytes (some a) n ≡ (
        if ltb_ℤ n (pos 0) || ltb_ℤ (pos max_int64) (a.used +ℤ n)
        then (some a, some accounting_overflow)
        else if ltb_ℤ a.ceiling (a.used +ℤ n)
        then (some a, some limit_exceeded)
        else (some (record a { used = a.used +ℤ n }), none))
unfolding add_bytes
add_bytes_exact a n h k = ground arith

pub release_bytes_exact :
    (a : Accountant) (n : ℤ)
    → IsBounded a
    → release_bytes (some a) n ≡ (
        if ltb_ℤ n (pos 0) || ltb_ℤ a.used n
        then (some a, some accounting_overflow)
        else (some (record a { used = a.used -ℤ n }), none))
unfolding release_bytes
release_bytes_exact a n h = ground arith

-- An int64 count that an accountant within its bounds grants, and that is then released, leaves the
-- accountant as it was before.
pub release-add_bytes :
    (a b : Accountant) (n : ℤ)
    → IsBounded a
    → IsInt64 n
    → add_bytes (some a) n ≡ (some b, none)
    → release_bytes (some b) n ≡ (some a, none)
unfolding release_bytes add_bytes
release-add_bytes a b n h k e = ground arith

pub data Call : Type 0 where
  add_call : ℤ → Call
  release_call : ℤ → Call

abbrev argument : Call → ℤ
argument (add_call n) = n
argument (release_call n) = n

pub call : Option Accountant → Call → Option Accountant
call a (add_call n) = (add_bytes a n).0
call a (release_call n) = (release_bytes a n).0

pub calls : Option Accountant → List Call → Option Accountant
calls a [] = a
calls a (c ∷ cs) = calls (call a c) cs

abbrev AreBounded : Option Accountant → Type 0
AreBounded none = ⊥
AreBounded (some a) = IsBounded a

call-IsBounded :
    (o : Option Accountant) (c : Call) → IsInt64 (argument c) → AreBounded o → AreBounded (call o c)
unfolding call add_bytes release_bytes
call-IsBounded none c k h = absurd h
call-IsBounded (some a) (add_call n) k h = ground arith
call-IsBounded (some a) (release_call n) k h = ground arith

calls-AreBounded :
    (o : Option Accountant) (cs : List Call)
    → All (λ c. IsInt64 (argument c)) cs
    → AreBounded o
    → AreBounded (calls o cs)
unfolding calls
calls-AreBounded o [] k h = h
calls-AreBounded o (c ∷ cs) k h = calls-AreBounded (call o c) cs k.1 (call-IsBounded o c k.0 h)

-- Whatever the calls with int64 arguments, failed ones included, an accountant within its bounds is there
-- after them, and its bytes in use lie between 0 and the ceiling.
pub calls-IsBounded :
    (a : Accountant) (cs : List Call)
    → All (λ c. IsInt64 (argument c)) cs
    → IsBounded a
    → (b : Accountant) × (calls (some a) cs ≡ some b) × IsBounded b
calls-IsBounded a cs k h = go (calls (some a) cs) refl (calls-AreBounded (some a) cs k h)
  where
    go :
        (o : Option Accountant)
        → calls (some a) cs ≡ o
        → AreBounded o
        → (b : Accountant) × (calls (some a) cs ≡ some b) × IsBounded b
    go none e h = absurd h
    go (some b) e h = (b, e, h)
