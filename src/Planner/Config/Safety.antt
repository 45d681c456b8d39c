-- ===== src/Planner/Config/Safety.antt =====
-- When the routing of the server may be changed.
use temporal_worker_controll.Base.{
  ℕ, ◌≤◌, ℤ, ltb, Option, none, some, List, [], ◌∷◌, length, is_nil, all, Bool, true, not, ◌&&◌,
  ◌||◌, is_none, is_some, ok, ◌≡◌, ◌≢◌, ◌⊎◌, inl, inr, refl, arith, Bool-cases, All,
}
use temporal_worker_controll.Api.Types.{
  VersionStatus, GateWorkflowConfig, DefaultVersionUpdateStrategy, manual, all_at_once, progressive,
  RolloutStrategy, WorkflowExecution, completed, TargetWorkerDeploymentVersion,
  TemporalWorkerDeploymentStatus, is_manual, is_not_registered, not_registered, is_completed,
}
use temporal_worker_controll.Server.Types.{TemporalWorkerState}
use temporal_worker_controll.Planner.Types.{VersionConfig}
use temporal_worker_controll.Planner.Config.{gate_passed, is_ready, get_version_config_diff}

-- The gate let the version through: it has task queues, no fewer test workflows than these, and all
-- of them completed.
abbrev pub HasPassed : TargetWorkerDeploymentVersion → Type 0
HasPassed target =
    (target.task_queues ≢ [])
    × (length target.task_queues ≤ length target.test_workflows)
    × All (λ wf. wf.status ≡ completed) target.test_workflows

abbrev pub IsReady : RolloutStrategy → TargetWorkerDeploymentVersion → Type 0
IsReady strategy target =
    (strategy.strategy ≢ manual)
    × (is_some target.healthy_since ≡ true)
    × (target.status ≢ not_registered)
    × ((strategy.gate ≡ none) ⊎ HasPassed target)

all_completed :
    (wfs : List WorkflowExecution)
    → all (λ wf. is_completed wf.status) wfs ≡ true
    → All (λ wf. wf.status ≡ completed) wfs
all_completed [] h = tt
all_completed (wf ∷ wfs) h = (ground arith, all_completed wfs (ground arith))

and-true : (a b : Bool) → (a && b) ≡ true → (a ≡ true) × (b ≡ true)
and-true a b h = ground arith

not_nil : {A : Type 0} (xs : List A) → not (is_nil xs) ≡ true → xs ≢ []
not_nil [] h e = absurd (cc)
not_nil (x ∷ xs) h e = absurd (cc)

gate_passed_sound :
    (target : TargetWorkerDeploymentVersion) → gate_passed target ≡ true → HasPassed target
unfolding gate_passed
gate_passed_sound target h =
    let done = all (λ wf. is_completed wf.status) target.test_workflows in
    let enough = not (ltb (length target.test_workflows) (length target.task_queues)) in
    let (rest, good) = and-true (not (is_nil target.task_queues) && enough) done h in
    let (queues, many) = and-true (not (is_nil target.task_queues)) enough rest in
    (
      not_nil target.task_queues queues,
      enough_lem (length target.test_workflows) (length target.task_queues) many,
      all_completed target.test_workflows good,
    )
  where
    enough_lem : (m n : ℕ) → not (ltb m n) ≡ true → n ≤ m
    enough_lem m n h = ground arith

not_manual : (kind : DefaultVersionUpdateStrategy) → not (is_manual kind) ≡ true → kind ≢ manual
not_manual manual h e = absurd (cc)
not_manual all_at_once h e = absurd (cc)
not_manual progressive h e = absurd (cc)

live_lem :
    (since : Option ℤ) (status : VersionStatus)
    → not (is_none since || is_not_registered status) ≡ true
    → (is_some since ≡ true) × (status ≢ not_registered)
live_lem since status h = (ground arith, λ e. ground arith)

is_ready_sound :
    (strategy : RolloutStrategy) (target : TargetWorkerDeploymentVersion)
    → is_ready strategy target ≡ true
    → IsReady strategy target
unfolding is_ready
is_ready_sound strategy target h =
    let alive = not (is_none target.healthy_since || is_not_registered target.status) in
    let gate = is_none strategy.gate || gate_passed target in
    let (rest, through) = and-true (not (is_manual strategy.strategy) && alive) gate h in
    let (auto, live) = and-true (not (is_manual strategy.strategy)) alive rest in
    let (healthy, registered) = live_lem target.healthy_since target.status live in
    (not_manual strategy.strategy auto, healthy, registered, gate_lem strategy.gate through)
  where
    gate_lem :
        (g : Option GateWorkflowConfig)
        → (is_none g || gate_passed target) ≡ true
        → (g ≡ none) ⊎ HasPassed target
    gate_lem none h = inl refl
    gate_lem (some g) h = inr (gate_passed_sound target h)

-- The routing of the server is changed only for a target version that is healthy and registered,
-- under a strategy that is not manual, and, if there is a gate, only after every test workflow has
-- completed, with at least one task queue and as many test workflows as task queues.
pub get_version_config_diff-IsReady :
    (now : ℤ) (status : TemporalWorkerDeploymentStatus)
    (temporal_state : Option TemporalWorkerState) (strategy : RolloutStrategy) {c : VersionConfig}
    → get_version_config_diff now status temporal_state strategy ≡ ok (some c)
    → IsReady strategy status.target_version
unfolding get_version_config_diff
get_version_config_diff-IsReady now status temporal_state strategy h =
    elim (Bool-cases (is_ready strategy status.target_version)) [
      | inl ready ↦ is_ready_sound strategy status.target_version ready
      | inr early ↦ absurd (cc (rw early at h))
    ]
