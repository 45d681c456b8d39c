-- ===== src/Planner/Gate/Workflows.antt =====
-- Which gate workflows are started.
use mathlib.Core.Path.{subst}
use temporal_worker_controll.Base.{
  Text, codes, ◌==◌, text_eq_iff, Option, none, some, some-eq-some, List, [], ◌∷◌, ◌++◌, Bool,
  false, ◌||◌, Elem, ◌≡◌, ◌≢◌, ◌↔◌, inl, inr, refl, sym, ◌∙◌, ap, arith, Bool-cases, Option-cases,
}
use temporal_worker_controll.Api.Types.{
  TaskQueue, WorkflowExecution, GateWorkflowConfig, RolloutStrategy, VersionStatus, not_registered,
  CurrentWorkerDeploymentVersion, TemporalWorkerDeploymentStatus, is_not_registered,
}
use temporal_worker_controll.Server.Types.{get_test_workflow_id}
use temporal_worker_controll.Planner.Types.{WorkflowConfig}
use temporal_worker_controll.Planner.Scale.{is_current_target}
use temporal_worker_controll.Planner.Gate.{
  has_workflow, missing_workflows, gate_workflow, get_test_workflows,
}

-- None of the workflows is of the task queue.
abbrev pub IsUncovered : List WorkflowExecution → Text → Type 0
IsUncovered wfs q = (x : WorkflowExecution) → Elem x wfs → x.task_queue ≢ q

-- The target is registered and not the current version.
abbrev pub IsCandidate : TemporalWorkerDeploymentStatus → Type 0
IsCandidate status =
    ((v : CurrentWorkerDeploymentVersion)
      → status.current_version ≡ some v
      → v.build_id ≢ status.target_version.build_id)
    × (status.target_version.status ≢ not_registered)

-- The workflow of a gate for a task queue, field by field.
abbrev pub workflow_for : GateWorkflowConfig → Text → Text → Text → Bool → Text → WorkflowConfig
workflow_for gate name build_id input is_secret q = record {
  workflow_type = gate.workflow_type;
  workflow_id = codes "test-" ++ (name ++ (codes ":" ++ (build_id ++ (codes "-" ++ q))));
  build_id = build_id;
  task_queue = q;
  gate_input = input;
  is_input_secret = is_secret;
}

-- The workflow is the gate's for one of the target's task queues that has none.
abbrev pub IsForQueue :
    TemporalWorkerDeploymentStatus
    → GateWorkflowConfig
    → Text
    → Text
    → Bool
    → WorkflowConfig
    → Type 0
IsForQueue status gate name input is_secret wf =
    (tq : TaskQueue) × Elem tq status.target_version.task_queues
    × IsUncovered status.target_version.test_workflows tq.name
    × (wf ≡ workflow_for gate name status.target_version.build_id input is_secret tq.name)

abbrev pub IsAskedFor :
    TemporalWorkerDeploymentStatus → RolloutStrategy → Text → Text → Bool → WorkflowConfig → Type 0
IsAskedFor status strategy name input is_secret wf =
    (gate : GateWorkflowConfig) × (strategy.gate ≡ some gate)
    × IsCandidate status
    × IsForQueue status gate name input is_secret wf

has_workflow_iff :
    (wfs : List WorkflowExecution) (q : Text) → (has_workflow wfs q ≡ false) ↔ IsUncovered wfs q
unfolding has_workflow
has_workflow_iff [] q = ((λ h x m. absurd m), (λ h. refl))
has_workflow_iff (w ∷ wfs) q =
    let (f, g) = has_workflow_iff wfs q in
    elim (Bool-cases (w.task_queue == q)) [
      | inl same ↦ (
        (λ h. absurd (cc (rw same at h))),
        (λ h. absurd (h w (inl refl) ((text_eq_iff w.task_queue q).0 same))),
      )
      | inr other ↦ (
        (λ h x m. elim m [
          | inl e ↦ λ p. absurd (
              ground
                (arith, text_eq_iff w.task_queue q, ap (λ (y : WorkflowExecution). y.task_queue) e))
          | inr later ↦ f (rw other at h) x later
        ]),
        (λ h. rw other (g (λ x m. h x (inr m)))),
      )
    ]

missing_workflows_iff :
    (config : Text → WorkflowConfig) (wfs : List WorkflowExecution) (tqs : List TaskQueue)
    (wf : WorkflowConfig)
    → Elem wf (missing_workflows config wfs tqs)
      ↔ ((tq : TaskQueue) × Elem tq tqs × IsUncovered wfs tq.name × (wf ≡ config tq.name))
unfolding missing_workflows
missing_workflows_iff config wfs [] wf = ((λ m. absurd m), (λ found. absurd (found.1)))
missing_workflows_iff config wfs (t ∷ tqs) wf =
    let (f, g) = missing_workflows_iff config wfs tqs wf in
    let covers = has_workflow_iff wfs t.name in
    elim (Bool-cases (has_workflow wfs t.name)) [
      | inl old ↦ rw old (
        (λ m. let (tq, inside, free, e) = f m in (tq, inr inside, free, e)),
        (λ found.
            let (tq, at, free, e) = found in
            elim at [
              | inl same ↦
                  let h = covers.1 (subst (λ (x : TaskQueue). IsUncovered wfs x.name) same free) in
                  absurd (cc (old, h))
              | inr inside ↦ g (tq, inside, free, e)
            ]),
      )
      | inr new ↦ rw new (
        (λ m. elim m [
          | inl e ↦ (t, inl refl, covers.0 new, e)
          | inr later ↦ let (tq, inside, free, e) = f later in (tq, inr inside, free, e)
        ]),
        (λ found.
            let (tq, at, free, e) = found in
            elim at [
              | inl same ↦ inl (e ∙ ap (λ (x : TaskQueue). config x.name) same)
              | inr inside ↦ inr (g (tq, inside, free, e))
            ]),
      )
    ]

is_not_registered_iff :
    (status : VersionStatus) → (is_not_registered status ≡ false) ↔ (status ≢ not_registered)
is_not_registered_iff VersionStatus.not_registered = ((λ h. absurd (cc)), (λ h. absurd (h refl)))
is_not_registered_iff _ = ((λ h e. absurd (cc)), (λ h. refl))

is_current_target_iff :
    (current : Option CurrentWorkerDeploymentVersion) (target : Text)
    → (is_current_target current target ≡ false)
      ↔ ((v : CurrentWorkerDeploymentVersion) → current ≡ some v → v.build_id ≢ target)
is_current_target_iff none target = ((λ h v e. absurd (cc)), (λ h. refl))
is_current_target_iff (some c) target = (
  (λ h v e p. absurd (
      ground (
        arith,
        text_eq_iff c.build_id target,
        ap (λ (x : CurrentWorkerDeploymentVersion). x.build_id) (some-eq-some e),
      ))),
  (λ h. elim (Bool-cases (c.build_id == target)) [
    | inl same ↦ absurd (h c refl ((text_eq_iff c.build_id target).0 same))
    | inr other ↦ other
  ]),
)

IsCandidate-iff :
    (status : TemporalWorkerDeploymentStatus)
    → ((is_current_target status.current_version status.target_version.build_id
          || is_not_registered status.target_version.status)
        ≡ false)
      ↔ IsCandidate status
IsCandidate-iff status =
    let current = is_current_target_iff status.current_version status.target_version.build_id in
    let registered = is_not_registered_iff status.target_version.status in
    (
      (λ h. (current.0 (ground arith), registered.0 (ground arith))),
      (λ h. ground (arith, current.1 h.0, registered.1 h.1)),
    )

get_test_workflows_of_gate :
    (status : TemporalWorkerDeploymentStatus) (strategy : RolloutStrategy) (name input : Text)
    (is_secret : Bool) (wf : WorkflowConfig) (gate : GateWorkflowConfig)
    → strategy.gate ≡ some gate
    → Elem wf (get_test_workflows status strategy name input is_secret)
      ↔ (IsCandidate status × IsForQueue status gate name input is_secret wf)
unfolding get_test_workflows gate_workflow get_test_workflow_id
get_test_workflows_of_gate status strategy name input is_secret wf gate here =
    let candidate = IsCandidate-iff status in
    let missing =
      missing_workflows_iff (gate_workflow gate name status.target_version.build_id input is_secret)
        status.target_version.test_workflows status.target_version.task_queues wf in
    elim (Bool-cases (
      is_current_target status.current_version status.target_version.build_id
      || is_not_registered status.target_version.status)) [
        | inl shut ↦ (
          (λ m. absurd (rw (get_test_workflows, here, shut) at m)),
          (λ found. absurd (cc (shut, candidate.1 found.0))),
        )
        | inr open_gate ↦ (
          (λ m. (candidate.0 open_gate, missing.0 (rw (get_test_workflows, here, open_gate) at m))),
          (λ found. rw (get_test_workflows, here, open_gate) (missing.1 found.1)),
        )
      ]

-- A gate workflow is asked for exactly if there is a gate, the target version is registered and not
-- the current version, and the workflow is the gate's for one of the target's task queues that no
-- test workflow of the target is of: with the gate's workflow type, the ID made of the deployment's
-- name, the target's build ID and the task queue, that build ID and task queue, and the gate's input
-- as it was resolved, with its mark of being a secret.
pub get_test_workflows_iff :
    (status : TemporalWorkerDeploymentStatus) (strategy : RolloutStrategy) (name input : Text)
    (is_secret : Bool) (wf : WorkflowConfig)
    → Elem wf (get_test_workflows status strategy name input is_secret)
      ↔ IsAskedFor status strategy name input is_secret wf
unfolding get_test_workflows
get_test_workflows_iff status strategy name input is_secret wf = elim (Option-cases strategy.gate) [
  | inl missing ↦ (
    (λ m. absurd (rw (get_test_workflows, missing) at m)),
    (λ found. let (gate, e, candidate, queue) = found in absurd (cc (missing, e))),
  )
  | inr (gate, here) ↦
      let of_gate = get_test_workflows_of_gate status strategy name input is_secret wf gate here in
      (
        (λ m. let (candidate, queue) = of_gate.0 m in (gate, here, candidate, queue)),
        (λ found.
            let (other, e, candidate, queue) = found in
            of_gate.1 (
              candidate,
              subst (λ (g : GateWorkflowConfig). IsForQueue status g name input is_secret wf)
                  (some-eq-some (sym e ∙ here)) queue,
            )),
      )
]
