-- ===== src/Lib.antt =====
-- KubeFacet, a Kubernetes controller that observes resources: a Facet object names its sources, the
-- controller reads them as far as the installation's access policy allows, extracts fields by paths,
-- combines them and publishes the outcome in the object's status. This library models the parts of it
-- that decide: what is permitted, what is still fresh, what fits the limits, and how a path is read.
--
-- Limits (internal/limits/profile.go, and accountAggregateResults of
-- internal/aggregation/evaluator.go). Limits/Profile has the configuration types, Limits/Defaults the
-- constants and DefaultProfile, Limits/Resolve the function Resolve with its helpers and Valid,
-- Limits/Accountant the Accountant and its methods. Limits/Settings and Limits/Within describe
-- independently what Resolve has to do: the ordered list of settings, each with its bound, and the
-- range of the profile. Machine integers are ℤ; each sum and difference in the code is wrapped to 64
-- bits. A nil Accountant is `none`. CanonicalSize, which encodes a value by encoding/json, is a
-- parameter, and so is, in the accounting loop of the aggregation, projectAggregate of
-- internal/aggregation/result.go, which is not modelled. The getters and the texts of errors are left out.
--
-- Reconciliation (internal/reconciliation/tracker.go, Lease of contracts.go, Subject of
-- internal/authorization/contracts.go). Reconciliation/TrackedState has the state of FreshnessTracker,
-- with its map as an association list and the contexts of Acquire as numbers; Reconciliation/Tracker has
-- one function for each method. Each method holds the tracker's mutex, so concurrent use is a sequence
-- of these steps, which Reconciliation/Tracker/Invariant has as the type Event. The epoch is a uint64,
-- so `next_epoch` wraps. `State`, which copies a state for tests, and `executionGate` are left out, and
-- so are the nil receivers, which change nothing.
--
-- AccessPolicy (internal/accesspolicy/compiler.go, evaluator.go, contracts.go and
-- api/v1alpha1/facet_access_policy_types.go). AccessPolicy/Validate is Validate, AccessPolicy/Compile is
-- Compile, AccessPolicy/Evaluate has the snapshots and Evaluate. AccessPolicy/Wellformed and
-- AccessPolicy/Decisions say of the policy as it is written when it is well formed and what it permits.
-- The DNS-1123 tests of k8s.io/apimachinery are the parameter NameTests. Go maps to the empty struct are
-- lists. AccessPolicy/Load is LoadWithValidation of loader.go, where what the source returns is a parameter.
--
-- Extraction (internal/extraction/parser.go). Extraction/Syntax has the tests on bytes,
-- Extraction/Parser the parser's rounds, Extraction/Path parsePath. A text is a list of bytes, and the
-- parser's position stands beside what follows it. The loop takes the length of the body as fuel, which
-- is enough since each round takes a byte; `none` is fuel that ran out, which does not happen.
-- Extraction/Grammar has the path language as tokens and their text. The evaluator
-- (internal/extraction/evaluator.go) is Extraction/Evaluator over the values of Extraction/Json: a Go map
-- is an association list of fields, a context the number of calls of Err after which it has ended, and
-- Extraction/Selection says value by value what a path selects. The provenance of outcomes is left out.
--
-- Reconciliation/Trigger (internal/reconciliation/trigger.go). The state has the fields of TriggerSource
-- and where its goroutines stand, and there is one function for each critical section;
-- Reconciliation/Trigger/Steps is the relation of their interleavings. The second lock of
-- RequestEnqueueAll is a step of its own, and a caller in between is counted in `starters`. The wake
-- channel has room for one signal and is a Boolean; the work queue is the record of its Add calls, and
-- what it does with them is outside, as are the route registry that Start starts and the lister.
--
-- Authorization (internal/authorization/contracts.go and enforcer.go). Authorization/Contracts has the
-- records, outcomes and capabilities with their tests, Authorization/Enforcer the function
-- EvaluateBatch. A defensive copy is the value itself; the recorder that a capability carries, the
-- getters and the texts of errors are left out.
--
-- Selection (internal/selection/contracts.go, planner.go, binder.go, executor.go and batch.go).
-- Selection/Planner is Plan, Selection/Binder is BindCapabilities; the selectors of apimachinery and the
-- discovery resolver are parameters. Selection/Executor has the budget and what a page's items do to it,
-- Selection/Execution the loop of listTarget, Selection/Batch Execute and SelectBatch. What is outside in
-- one turn of the loop (the lister's reply, the context, the verifier) is a Round, and a run is a
-- function of the sequence of rounds: with too few of them it is `waiting`, and Execution/Permit says
-- which replies end it. A turn gives the calls of `List` that it makes beside its outcome, and
-- Execution/Calls is about them. A read that BindCapabilities has not set is `none`. The evidence of forbidden
-- reads, the page observer, the options of the executor and DynamicResourceLister are left out.
--
-- Discovery (internal/discovery/resolver.go). Discovery/Cache has the resolver's cache, one function for
-- what each method does under the mutex, and Discovery/Events their sequences. A pointer to a
-- refreshState is the number of its allocation; the clock's reading is an argument. Discovery/History
-- says which refreshes a history has begun and what they have delivered. Resolve and the calls
-- of the discovery client, the waiting on another's refresh, ResolveBatch and the options are left out.
--
-- Facet (api/v1alpha1/facet_types.go) and Admission (internal/admission/budgets.go, contracts.go and, for
-- access policies, semantic.go, validator.go and webhook.go). Facet is the specification of a Facet,
-- Admission/Limits and Admission/Budgets the limits and the checks that count, Admission/Contracts the
-- issues and classes, Admission/Policies the way of an access policy through the webhook. The size of the
-- JSON encoding is a parameter. The semantic and the dynamic validation of Facets are left out.
--
-- The parts meet in the reconciliation pipeline: it takes a lease from the tracker, plans each source,
-- evaluates the policy snapshot for its targets, binds and executes the plan, runs extraction within the
-- limits, and publishes only while the lease is current. The pipeline itself, the routes, the calls of
-- the API server, the resolution by the discovery client, operators, aggregation, typed output and the
-- status conditions are not modelled here.
--
-- Prelude has what the parts share: tests on numbers, lists, maps, integers, results, texts and sorting.
-- Examples holds the runs at concrete inputs.
pub mod Prelude
pub mod Limits
pub mod Reconciliation
pub mod AccessPolicy
pub mod Authorization
pub mod Facet
pub mod Admission
pub mod Discovery
pub mod Selection
pub mod Extraction
mod Examples
