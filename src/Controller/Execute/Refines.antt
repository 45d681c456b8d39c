-- ===== src/Controller/Execute/Refines.antt =====
-- The abstract side of `executePlan`: a list of commands, issued one by one until one is refused.
use temporal_worker_controll.Base.{
  ℕ, pos, to_int32, Text, Option, none, some, List, [], ◌∷◌, ◌++◌, map, Bool, true, false, Outcome,
  ok, err, panic, ◌≡◌, refl, sym, ap, ◌∙◌, Option-cases, inl, inr,
}
use temporal_worker_controll.Api.Cluster.{Deployment, ObjectReference}
use temporal_worker_controll.Planner.Types.{VersionConfig}
use temporal_worker_controll.Server.Deployment.{ignore_last_modifier_key}
use temporal_worker_controll.Controller.Commands.{
  Command, World, Action, pure, and_then, ◌>>◌, answer_of, command, for_each,
}
use temporal_worker_controll.Controller.Execute.{
  ControllerPlan, start_of, routing_command, metadata_command, create_if_set, scale_one,
  register_version, remove_key, execute_plan,
}

abbrev pub is_ok : {A : Type 0} → Outcome A → Bool
is_ok (ok a) = true
is_ok (err e) = false
is_ok panic = false

-- Whether all commands were accepted, and all that have been issued then.
unfoldable pub perform : World → List Command → List Command → Bool × List Command
perform world [] issued = (true, issued)
perform world (c ∷ cs) issued = elim (world issued c) [
  | none ↦ perform world cs (issued ++ (c ∷ []))
  | some e ↦ (false, issued ++ (c ∷ []))
]

module _ (world : World) where
  -- The action issues the commands of the list, in order, up to the first that is refused, and it
  -- returns without an error exactly if none is.
  pub record Implements (act : Action (Unit {0})) (cs : List Command) : Type 0 where
    pub same :
        (issued : List Command) → (is_ok (act issued).0, (act issued).1) ≡ perform world cs issued

  nothing : Implements (pure tt) []
  unfolding perform
  nothing = record { same = λ issued. refl }

  one : (c : Command) → Implements (command world c) (c ∷ [])
  unfolding perform
  one c = record { same = λ issued. by_answer issued (world issued c) refl }
    where
      by_answer :
          (issued : List Command) (a : Option Text)
          → world issued c ≡ a
          → (is_ok (answer_of (world issued c)), issued ++ (c ∷ [])) ≡ perform world (c ∷ []) issued
      by_answer issued none e = rw (perform, e)
      by_answer issued (some x) e = rw (perform, e)

  -- What is done after a first list: the second one, unless the first was stopped.
  abbrev go_on : List Command → Bool × List Command → Bool × List Command
  go_on ds (true, issued) = perform world ds issued
  go_on ds (false, issued) = (false, issued)

  perform-append :
      (cs ds : List Command) (issued : List Command)
      → perform world (cs ++ ds) issued ≡ go_on ds (perform world cs issued)
  unfolding perform
  perform-append [] ds issued = refl
  perform-append (c ∷ cs) ds issued = elim (Option-cases (world issued c)) [
    | inl accepted ↦ rw (perform, accepted) (perform-append cs ds (issued ++ (c ∷ [])))
    | inr (x, refused) ↦ rw (perform, refused)
  ]

  both :
      {act act' : Action (Unit {0})} {cs ds : List Command}
      → Implements act cs
      → Implements act' ds
      → Implements (act >> act') (cs ++ ds)
  both {act} {act'} {cs} {ds} p q = record {
    same = λ issued.
        by_result (act issued).0 (act issued).1
        ∙ (ap (go_on ds) (p.same issued) ∙ sym (perform-append cs ds issued));
  }
    where
      by_result :
          (r : Outcome (Unit {0})) (issued : List Command)
          → let out = and_then r (λ _. act') issued in
            (is_ok out.0, out.1) ≡ go_on ds (is_ok r, issued)
      by_result (ok tt) issued = q.same issued
      by_result (err e) issued = refl
      by_result panic issued = refl

  each :
      {A : Type 0} (act : A → Action (Unit {0})) (f : A → Command)
      → ((a : A) → Implements (act a) (f a ∷ []))
      → (xs : List A) → Implements (for_each act xs) (map f xs)
  unfolding for_each
  each act f h [] = nothing
  each act f h (x ∷ xs) = both (h x) (each act f h xs)

abbrev pub created : Option Deployment → List Command
created none = []
created (some d) = Command.create_deployment d ∷ []

abbrev pub scaled : ObjectReference × ℕ → Command
scaled (ref, replicas) = Command.scale_deployment ref (to_int32 (pos replicas))

abbrev pub registered : Text → Text → Text → Option VersionConfig → List Command
registered identity controller_version name none = []
registered identity controller_version name (some vcfg) =
    routing_command identity vcfg ∷ metadata_command identity controller_version name vcfg ∷ []

-- The commands of a plan: create, delete, scale, update, start the test workflows, change the routing,
-- and remove the key from the metadata.
unfoldable pub plan_commands : Text → Text → ControllerPlan → List Command
plan_commands identity controller_version p =
    created p.create_deployment
    ++ (map Command.delete_deployment p.delete_deployments
        ++ (map scaled p.scale_deployments
            ++ (map Command.update_deployment p.update_deployments
                ++ (map (λ wf. Command.start_workflow (start_of p.worker_deployment_name wf))
                      p.start_test_workflows
                    ++ (registered identity controller_version p.worker_deployment_name
                          p.update_version_config
                        ++ map
                            (λ b.
                              Command.remove_metadata p.worker_deployment_name b
                                (ignore_last_modifier_key ∷ []))
                            p.remove_ignore_last_modifier_builds)))))

module _ (world : World) (identity controller_version : Text) where
  create_if_set-Implements :
      (d : Option Deployment)
      → Implements world (create_if_set world identity controller_version d) (created d)
  unfolding create_if_set
  create_if_set-Implements none = nothing world
  create_if_set-Implements (some d) = one world (Command.create_deployment d)

  scale_one-Implements :
      (x : ObjectReference × ℕ)
      → Implements world (scale_one world identity controller_version x) (scaled x ∷ [])
  unfolding scale_one
  scale_one-Implements (ref, replicas) =
      one world (Command.scale_deployment ref (to_int32 (pos replicas)))

  register_version-Implements :
      (name : Text) (vcfg : Option VersionConfig)
      → Implements world
          (register_version world identity controller_version name vcfg)
          (registered identity controller_version name vcfg)
  unfolding register_version
  register_version-Implements name none = nothing world
  register_version-Implements name (some vcfg) =
      both world (one world (routing_command identity vcfg))
        (one world (metadata_command identity controller_version name vcfg))

  -- The execution of a plan issues the plan's list of commands, in that order, up to the first that is
  -- refused, whatever the cluster and the server answer and whatever was issued before; and it
  -- returns without an error exactly if none of them is refused.
  pub execute_plan-Implements :
      (p : ControllerPlan)
      → Implements world
          (execute_plan world identity controller_version p)
          (plan_commands identity controller_version p)
  unfolding execute_plan plan_commands remove_key
  execute_plan-Implements p = both world (create_if_set-Implements p.create_deployment) (
      both world
        (each world _ _ (λ d. one world (Command.delete_deployment d)) p.delete_deployments)
        (both world (each world _ _ scale_one-Implements p.scale_deployments) (
          both world
            (each world _ _ (λ d. one world (Command.update_deployment d)) p.update_deployments)
            (both world
              (each world _ _
                (λ wf. one world (Command.start_workflow (start_of p.worker_deployment_name wf)))
                p.start_test_workflows)
              (both world
                (register_version-Implements p.worker_deployment_name p.update_version_config)
                (each world _ _
                  (λ b. one world (
                    Command.remove_metadata p.worker_deployment_name b
                      (ignore_last_modifier_key ∷ [])))
                  p.remove_ignore_last_modifier_builds))))))
