-- ===== src/Server/TestWorkflows/Counts.antt =====
-- The task queues and the workflows that the loop over a version's task queues finds.
use mathlib.Core.Path.{subst}
use temporal_worker_controll.Base.{
  ◌+◌, ◌≤◌, length, length-append, all, all-append, List, [], ◌∷◌, ◌++◌, Bool, true, false, ok,
  ok-injective, Elem, ◌≡◌, refl, ap, sym, ◌⊎◌, inl, inr, arith, Bool-cases,
}
use temporal_worker_controll.Api.Types.{WorkflowExecution, TaskQueue, is_completed}
use temporal_worker_controll.Server.Types.{VersionInfo, get_test_workflow_id}
use temporal_worker_controll.Server.Client.{
  answer, Answer-cases, TaskQueueInfo, ExecutionStatus, ExecutionInfo, Server,
}
use temporal_worker_controll.Server.TestWorkflows.{
  map_workflow_status, is_workflow_queue, workflow_of, Found, test_workflows_loop,
}

abbrev pub all_completed : List WorkflowExecution → Bool
all_completed wfs = all (λ wf. is_completed wf.status) wfs

completed_status :
    (s : ExecutionStatus)
    → is_completed (map_workflow_status s) ≡ true
    → s ≡ ExecutionStatus.completed
unfolding map_workflow_status
completed_status ExecutionStatus.completed h = refl
completed_status ExecutionStatus.unspecified h = absurd (cc)
completed_status ExecutionStatus.running h = absurd (cc)
completed_status ExecutionStatus.failed h = absurd (cc)
completed_status ExecutionStatus.canceled h = absurd (cc)
completed_status ExecutionStatus.terminated h = absurd (cc)
completed_status ExecutionStatus.continued_as_new h = absurd (cc)
completed_status ExecutionStatus.timed_out h = absurd (cc)
completed_status ExecutionStatus.other h = absurd (cc)

module _ (server : Server) (info : VersionInfo) where
  -- The test workflow of a task queue with workflows has been found, and it has completed.
  abbrev pub IsTested : TaskQueueInfo → Type 0
  IsTested tq =
      (x : ExecutionInfo) × (server.describe_workflow_execution
          (get_test_workflow_id info.deployment_name info.build_id tq.name)
        ≡ answer x)
      × (x.status ≡ ExecutionStatus.completed)

  -- The three ways in which a round of the loop goes on or ends.
  abbrev Round :
      List TaskQueueInfo → TaskQueueInfo → List TaskQueue → List WorkflowExecution → Found → Type 0
  Round tqs tq queues results out =
      ((is_workflow_queue tq ≡ false) × (out ≡ test_workflows_loop server info tqs queues results))
      ⊎ (((x : ExecutionInfo) × (server.describe_workflow_execution
                (get_test_workflow_id info.deployment_name info.build_id tq.name)
              ≡ answer x)
            × (out
                ≡ test_workflows_loop server info tqs (queues ++ (record { name = tq.name } ∷ []))
                    (results ++ (workflow_of x ∷ []))))
          ⊎ ((out
                ≡ test_workflows_loop server info tqs (queues ++ (record { name = tq.name } ∷ []))
                    results)
              ⊎ ((results' : List WorkflowExecution) → out.1 ≡ ok results' → ⊥)))

  round_lem :
      (tqs : List TaskQueueInfo) (tq : TaskQueueInfo) (queues : List TaskQueue)
      (results : List WorkflowExecution)
      → Round tqs tq queues results (test_workflows_loop server info (tq ∷ tqs) queues results)
  unfolding test_workflows_loop
  round_lem tqs tq queues results = elim (Bool-cases (is_workflow_queue tq)) [
    | inr other ↦ inl (other, rw (test_workflows_loop, other))
    | inl workflow ↦
        elim (Answer-cases (
          server.describe_workflow_execution
            (get_test_workflow_id info.deployment_name info.build_id tq.name))) [
              | inl (x, found) ↦ inr (inl (x, found, rw (test_workflows_loop, workflow, found)))
              | inr rest ↦ elim rest [
                | inl missing ↦ inr (inr (inl (rw (test_workflows_loop, workflow, missing))))
                | inr failed ↦ inr (
                    inr (
                      inr (λ results'.
                        rw (test_workflows_loop, workflow, failed) (λ h. absurd (cc)))))
              ]
            ]
  ]

  -- What an `ok` run of the loop says, in terms of the task queues and the workflows it appends.
  pub record Gathers (tqs : List TaskQueueInfo) (queues queues' : List TaskQueue)
      (results results' : List WorkflowExecution) : Type 0 where
    pub no_more : length results' + length queues ≤ length results + length queues'
    pub kept : all_completed results' ≡ true → all_completed results ≡ true
    pub tested :
        length queues' + length results ≤ length results' + length queues
        → all_completed results' ≡ true
        → (tq : TaskQueueInfo) → Elem tq tqs
        → is_workflow_queue tq ≡ true
        → IsTested tq

  skipped :
      (tq : TaskQueueInfo) {tqs : List TaskQueueInfo} {queues queues' : List TaskQueue}
      {results results' : List WorkflowExecution}
      → is_workflow_queue tq ≡ false
      → Gathers tqs queues queues' results results'
      → Gathers (tq ∷ tqs) queues queues' results results'
  skipped tq other g = record {
    no_more = g.no_more;
    kept = g.kept;
    tested = λ enough done t at workflow. elim at [
      | inl same ↦ absurd (cc (ap is_workflow_queue same))
      | inr inside ↦ g.tested enough done t inside workflow
    ];
  }

  found_one :
      (tq : TaskQueueInfo) (x : ExecutionInfo) (t : TaskQueue) {tqs : List TaskQueueInfo}
      {queues queues' : List TaskQueue} {results results' : List WorkflowExecution}
      → server.describe_workflow_execution
          (get_test_workflow_id info.deployment_name info.build_id tq.name)
        ≡ answer x
      → Gathers tqs (queues ++ (t ∷ [])) queues' (results ++ (workflow_of x ∷ [])) results'
      → Gathers (tq ∷ tqs) queues queues' results results'
  found_one tq x t {tqs} {queues} {queues'} {results} {results'} found g = record {
    no_more = omega (arith, g.no_more, sizes);
    kept = λ done. (parts (g.kept done)).0;
    tested = λ enough done tq' at workflow. elim at [
      | inl same ↦
          subst IsTested (sym same) (x, found, completed_status x.status (parts (g.kept done)).1)
      | inr inside ↦ g.tested (omega (arith, enough, sizes)) done tq' inside workflow
    ];
  }
    where
      sizes :
          (length (queues ++ (t ∷ [])) ≡ length queues + 1)
          × (length (results ++ (workflow_of x ∷ [])) ≡ length results + 1)
      sizes = (length-append queues (t ∷ []), length-append results (workflow_of x ∷ []))

      parts :
          all_completed (results ++ (workflow_of x ∷ [])) ≡ true
          → (all_completed results ≡ true) × (is_completed (map_workflow_status x.status) ≡ true)
      parts h = ground (
        arith,
        all-append (λ (wf : WorkflowExecution). is_completed wf.status) results
            (workflow_of x ∷ []),
      )

  missing_one :
      (tq : TaskQueueInfo) (t : TaskQueue) {tqs : List TaskQueueInfo}
      {queues queues' : List TaskQueue} {results results' : List WorkflowExecution}
      → Gathers tqs (queues ++ (t ∷ [])) queues' results results'
      → Gathers (tq ∷ tqs) queues queues' results results'
  missing_one tq t {tqs} {queues} {queues'} {results} {results'} g = record {
    no_more = omega (arith, g.no_more, length-append queues (t ∷ []));
    kept = g.kept;
    tested = λ enough done tq' at workflow.
        absurd (omega (arith, enough, g.no_more, length-append queues (t ∷ [])));
  }

  pub loop-Gathers :
      (tqs : List TaskQueueInfo) (queues : List TaskQueue) (results : List WorkflowExecution)
      {results' : List WorkflowExecution}
      → (test_workflows_loop server info tqs queues results).1 ≡ ok results'
      → Gathers tqs queues (test_workflows_loop server info tqs queues results).0 results results'
  unfolding test_workflows_loop
  loop-Gathers [] queues results {results'} h = record {
    no_more = ground (arith, ok-injective h);
    kept = λ done. subst (λ wfs. all_completed wfs ≡ true) (sym (ok-injective h)) done;
    tested = λ enough done tq at workflow. absurd at;
  }
  loop-Gathers (tq ∷ tqs) queues results {results'} h = elim (round_lem tqs tq queues results) [
    | inl (other, same) ↦
        subst (λ out. Gathers (tq ∷ tqs) queues out.0 results results') (sym same)
          (skipped tq other
            (loop-Gathers tqs queues results (subst (λ out. out.1 ≡ ok results') same h)))
    | inr rest ↦ elim rest [
      | inl (x, found, same) ↦
          subst (λ out. Gathers (tq ∷ tqs) queues out.0 results results') (sym same)
            (found_one tq x t found (
              loop-Gathers tqs (queues ++ (t ∷ [])) (results ++ (workflow_of x ∷ []))
                (subst (λ out. out.1 ≡ ok results') same h)))
      | inr last ↦ elim last [
        | inl same ↦
            subst (λ out. Gathers (tq ∷ tqs) queues out.0 results results') (sym same)
              (missing_one tq t (
                loop-Gathers tqs (queues ++ (t ∷ [])) results
                  (subst (λ out. out.1 ≡ ok results') same h)))
        | inr failed ↦ absurd (failed results' h)
      ]
    ]
  ]
    where
      t : TaskQueue
      t = record { name = tq.name }
