-- ===== src/AccessPolicy/Loaded.antt =====
-- What a snapshot of internal/accesspolicy/loader.go allows, as against the policy that was read.
use kubeseer.Prelude.{
  String, ◌≡◌, ◌↔◌, refl, sym, ◌∙◌, Option, none, some, Bool, true, false, arith, Bool-cases, inl,
  inr,
}
use kubeseer.Prelude.Result.{Result, ok, err}
use kubeseer.AccessPolicy.Policy.{
  NameTests, PolicyReason, policy_missing, policy_invalid, policy_unavailable, FacetAccessPolicy,
  PolicyError, CompiledPolicy, PolicyIdentity, Request,
}
use kubeseer.AccessPolicy.Compile.{compile, compiled}
use kubeseer.AccessPolicy.Evaluate.{
  Snapshot, new_snapshot, deny_all_snapshot, new_snapshot_with_identity, evaluate,
}
use kubeseer.AccessPolicy.Wellformed.{IsWellformed, compile_iff}
use kubeseer.AccessPolicy.Decisions.{Permits, compile-evaluate}
use kubeseer.AccessPolicy.Load.{
  SourceReply, got, not_found, get_failed, passes, load_compiled, load_with_validation, identity_of,
  policy_error_text,
}

module _ (tests : NameTests) (validate : Option (FacetAccessPolicy → Bool)) (r : Request) where
  denied :
      (reason : PolicyReason) (message : String) (identity : Option PolicyIdentity)
      → (evaluate tests (deny_all_snapshot reason message identity) r).allowed ≡ false
  unfolding evaluate deny_all_snapshot
  denied reason message identity = ground arith

  identity-evaluate :
      (c : CompiledPolicy) (identity : PolicyIdentity)
      → (evaluate tests (new_snapshot_with_identity (some c) identity) r).allowed
        ≡ (evaluate tests (new_snapshot (some c)) r).allowed
  unfolding evaluate new_snapshot_with_identity new_snapshot
  identity-evaluate c identity = refl

  -- The policy that was read passes the validation, is well formed and permits the request.
  pub record Lets (p : FacetAccessPolicy) : Type 0 where
    pub passed : passes validate p ≡ true
    pub formed : IsWellformed tests p
    pub permitted : Permits tests p r

  -- A policy was read that lets the request through.
  pub data LoadedLets : Option SourceReply → Type 0 where
    by_policy : (p : FacetAccessPolicy) → Lets p → LoadedLets (some (got (some p)))

  abbrev Grants : Snapshot → Type 0
  Grants s = (evaluate tests s r).allowed ≡ true

  refused :
      (reason : PolicyReason) (message : String) (identity : Option PolicyIdentity)
      → ¬ Grants (deny_all_snapshot reason message identity)
  refused reason message identity h = ground (arith, h, denied reason message identity)

  compiled-Grants :
      (p : FacetAccessPolicy) (result : Result PolicyError CompiledPolicy)
      → compile tests (some p) ≡ result
      → Grants (load_compiled p result)
      → IsWellformed tests p × Permits tests p r
  unfolding load_compiled
  compiled-Grants p (err e) q h =
      absurd (refused policy_invalid (policy_error_text e) (some (identity_of p)) h)
  compiled-Grants p (ok c) q h = (
    ((compile_iff tests p c).0 q).0,
    (compile-evaluate tests p c r q).0 (sym (identity-evaluate c (identity_of p)) ∙ h),
  )

  loaded-Grants :
      (source : Option SourceReply)
      → Grants (load_with_validation tests source validate)
      → LoadedLets source
  unfolding load_with_validation
  loaded-Grants none h =
      absurd (refused policy_unavailable "policy is unavailable; observation denied" none h)
  loaded-Grants (some not_found) h =
      absurd (refused policy_missing "policy is missing; observation denied" none h)
  loaded-Grants (some get_failed) h =
      absurd (refused policy_unavailable "policy is unavailable; observation denied" none h)
  loaded-Grants (some (got none)) h =
      absurd (refused policy_invalid "policy is invalid; observation denied" none h)
  loaded-Grants (some (got (some p))) h = elim (Bool-cases (passes validate p)) [
    | inr a ↦ absurd (
        refused policy_invalid "policy is invalid; observation denied" (some (identity_of p))
          (rw a at h))
    | inl a ↦
        let (f, g) = compiled-Grants p (compile tests (some p)) refl (rw a at h) in
        by_policy p (record { passed = a; formed = f; permitted = g })
  ]

  LoadedLets-Grants :
      (source : Option SourceReply)
      → LoadedLets source
      → Grants (load_with_validation tests source validate)
  unfolding load_with_validation load_compiled
  LoadedLets-Grants none x = elim x [ ]
  LoadedLets-Grants (some not_found) x = elim x [ ]
  LoadedLets-Grants (some get_failed) x = elim x [ ]
  LoadedLets-Grants (some (got none)) x = elim x [ ]
  LoadedLets-Grants (some (got (some p))) (by_policy _ l) =
      let q = (compile_iff tests p (compiled p)).1 (l.formed, refl) in
      rw (l.passed, q)
        (identity-evaluate (compiled p) (identity_of p)
          ∙ (compile-evaluate tests p (compiled p) r q).1 l.permitted)

  -- A freshly loaded snapshot allows a request exactly where the source returned a policy that passes the
  -- validation, is well formed and permits the request as it is written; without a source, on a failed
  -- or empty read and for an invalid policy it allows nothing.
  pub load_with_validation-allowed_iff :
      (source : Option SourceReply)
      → ((evaluate tests (load_with_validation tests source validate) r).allowed ≡ true)
        ↔ LoadedLets source
  load_with_validation-allowed_iff source = (loaded-Grants source, LoadedLets-Grants source)
