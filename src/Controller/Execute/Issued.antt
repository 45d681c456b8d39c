-- ===== src/Controller/Execute/Issued.antt =====
-- Which commands an execution issues.
use mathlib.Core.Path.{subst}
use temporal_worker_controll.Base.{
  Text, Option, none, some, List, [], ◌∷◌, ◌++◌, map, Bool, Elem, Elem-append, ◌≡◌, ◌≢◌, ◌⊎◌, refl,
  inl, inr, sym, arith, Option-cases,
}
use temporal_worker_controll.Api.Cluster.{Deployment}
use temporal_worker_controll.Planner.Types.{VersionConfig}
use temporal_worker_controll.Server.Deployment.{ignore_last_modifier_key}
use temporal_worker_controll.Controller.Commands.{Command, World}
use temporal_worker_controll.Controller.Execute.{
  ControllerPlan, start_of, routing_command, metadata_command, execute_plan,
}
use temporal_worker_controll.Controller.Execute.Refines.{
  perform, created, scaled, registered, plan_commands, execute_plan-Implements,
}

Elem-map :
    {A : Type 0} (f : A → Command) (xs : List A) (c : Command)
    → Elem c (map f xs)
    → (x : A) × Elem x xs × (c ≡ f x)
Elem-map f [] c m = absurd m
Elem-map f (x ∷ xs) c (inl e) = (x, inl refl, e)
Elem-map f (x ∷ xs) c (inr m) = let (y, inside, e) = Elem-map f xs c m in (y, inr inside, e)

perform-issued :
    (world : World) (cs issued : List Command) (c : Command)
    → Elem c (perform world cs issued).1
    → Elem c issued ⊎ Elem c cs
unfolding perform
perform-issued world [] issued c m = inl m
perform-issued world (x ∷ cs) issued c m = elim (Option-cases (world issued x)) [
  | inl accepted ↦
      from_both (perform-issued world cs (issued ++ (x ∷ [])) c (rw (perform, accepted) at m))
  | inr (e, refused) ↦ from_both (inl (rw (perform, refused) at m))
]
  where
    from_one : Elem c (issued ++ (x ∷ [])) → Elem c issued ⊎ Elem c (x ∷ cs)
    from_one m' = elim (Elem-append c issued (x ∷ []) m') [
      | inl old ↦ inl old
      | inr new ↦ elim new [ inl e ↦ inr (inl e) | inr n ↦ absurd n ]
    ]

    from_both : Elem c (issued ++ (x ∷ [])) ⊎ Elem c cs → Elem c issued ⊎ Elem c (x ∷ cs)
    from_both (inl m') = from_one m'
    from_both (inr later) = inr (inr later)

routing_command-ne-delete :
    (identity : Text) (vcfg : VersionConfig) (d : Deployment)
    → Command.delete_deployment d ≢ routing_command identity vcfg
unfolding routing_command
routing_command-ne-delete identity vcfg d e = ground arith

registered-ne-delete :
    (identity controller_version name : Text) (vcfg : Option VersionConfig) (d : Deployment)
    → Elem (Command.delete_deployment d) (registered identity controller_version name vcfg)
    → ⊥
unfolding metadata_command
registered-ne-delete identity controller_version name none d m = m
registered-ne-delete identity controller_version name (some vcfg) d (inl e) =
    routing_command-ne-delete identity vcfg d e
registered-ne-delete identity controller_version name (some vcfg) d (inr (inl e)) = cc
registered-ne-delete identity controller_version name (some vcfg) d (inr (inr m)) = m

created-ne-delete :
    (o : Option Deployment) (d : Deployment) → Elem (Command.delete_deployment d) (created o) → ⊥
created-ne-delete none d m = m
created-ne-delete (some x) d (inl e) = cc
created-ne-delete (some x) d (inr m) = m

-- Commands of another kind delete nothing.
map-ne-delete :
    {A : Type 0} (f : A → Command) (xs : List A) (d : Deployment)
    → ((x : A) → Command.delete_deployment d ≢ f x)
    → Elem (Command.delete_deployment d) (map f xs)
    → ⊥
map-ne-delete f xs d other m =
    let (x, inside, e) = Elem-map f xs (Command.delete_deployment d) m in other x e

plan_commands-delete :
    (identity controller_version : Text) (p : ControllerPlan) (d : Deployment)
    → Elem (Command.delete_deployment d) (plan_commands identity controller_version p)
    → Elem d p.delete_deployments
unfolding plan_commands
plan_commands-delete identity controller_version p d m =
    elim (Elem-append c (created p.create_deployment) _ m) [
      | inl m0 ↦ absurd (created-ne-delete p.create_deployment d m0)
      | inr r0 ↦ elim (Elem-append c (map Command.delete_deployment p.delete_deployments) _ r0) [
        | inl m1 ↦
            let (x, inside, e) = Elem-map Command.delete_deployment p.delete_deployments c m1 in
            let same : d ≡ x = cc in
            subst (λ (y : Deployment). Elem y p.delete_deployments) (sym same) inside
        | inr r1 ↦ absurd (rest r1)
      ]
    ]
  where
    c : Command
    c = Command.delete_deployment d

    rest :
        Elem (Command.delete_deployment d) (
          map scaled p.scale_deployments
          ++ (map Command.update_deployment p.update_deployments
              ++ (map
                    (λ wf. Command.start_workflow (start_of p.worker_deployment_name wf))
                    p.start_test_workflows
                  ++ (registered identity controller_version p.worker_deployment_name
                        p.update_version_config
                      ++ map
                          (λ b.
                            Command.remove_metadata p.worker_deployment_name b
                              (ignore_last_modifier_key ∷ []))
                          p.remove_ignore_last_modifier_builds))))
        → ⊥
    rest r1 = elim (Elem-append c (map scaled p.scale_deployments) _ r1) [
      | inl m2 ↦ map-ne-delete scaled p.scale_deployments d (λ x e. cc) m2
      | inr r2 ↦ elim (Elem-append c (map Command.update_deployment p.update_deployments) _ r2) [
        | inl m3 ↦ map-ne-delete Command.update_deployment p.update_deployments d (λ x e. cc) m3
        | inr r3 ↦
            elim (Elem-append c
              (map (λ wf. Command.start_workflow (start_of p.worker_deployment_name wf))
                p.start_test_workflows)
              _ r3) [
                | inl m4 ↦ map-ne-delete _ p.start_test_workflows d (λ x e. cc) m4
                | inr r4 ↦
                    elim (Elem-append c
                      (registered identity controller_version p.worker_deployment_name
                        p.update_version_config)
                      _ r4) [
                        | inl m5 ↦
                            registered-ne-delete identity controller_version
                              p.worker_deployment_name p.update_version_config d m5
                        | inr m6 ↦
                            map-ne-delete _ p.remove_ignore_last_modifier_builds d (λ x e. cc) m6
                      ]
              ]
      ]
    ]

-- What an execution deletes is in its plan, or was asked for before.
pub execute_plan-delete :
    (world : World) (identity controller_version : Text) (p : ControllerPlan)
    (issued : List Command) (d : Deployment)
    → Elem (Command.delete_deployment d) (execute_plan world identity controller_version p issued).1
    → Elem (Command.delete_deployment d) issued ⊎ Elem d p.delete_deployments
execute_plan-delete world identity controller_version p issued d m =
    elim (perform-issued world (plan_commands identity controller_version p) issued
      (Command.delete_deployment d)
      (subst (λ (x : Bool × List Command). Elem (Command.delete_deployment d) x.1)
        ((execute_plan-Implements world identity controller_version p).same issued) m)) [
          | inl old ↦ inl old
          | inr new ↦ inr (plan_commands-delete identity controller_version p d new)
        ]
