-- ===== src/Controller/Execute/Accepted.antt =====
-- The execution of a plan when every command is accepted.
use mathlib.Core.List.{append-nil, append_assoc}
use temporal_worker_controll.Base.{
  Text, none, List, [], ◌∷◌, ◌++◌, Bool, true, Outcome, ok, err, panic, ◌≡◌, sym, ap, ◌∙◌,
}
use temporal_worker_controll.Controller.Commands.{Command, World}
use temporal_worker_controll.Controller.Execute.{ControllerPlan, execute_plan}
use temporal_worker_controll.Controller.Execute.Refines.{
  is_ok, perform, plan_commands, execute_plan-Implements,
}

perform-accepted :
    (world : World) (cs issued : List Command)
    → ((before : List Command) (c : Command) → world before c ≡ none)
    → perform world cs issued ≡ (true, issued ++ cs)
unfolding perform
perform-accepted world [] issued accepts =
    ap (λ (cs : List Command). (true, cs)) (sym (append-nil issued))
perform-accepted world (c ∷ cs) issued accepts =
    rw (perform, accepts issued c)
      (perform-accepted world cs (issued ++ (c ∷ [])) accepts
        ∙ ap (λ (x : List Command). (true, x)) (append_assoc issued (c ∷ []) cs))

completed_lem :
    (out : Outcome (Unit {0}) × List Command) (issued : List Command)
    → ◌≡◌ {A = Bool × List Command} (is_ok out.0, out.1) (true, issued)
    → out ≡ (ok tt, issued)
completed_lem (ok tt, cs) issued h = ap (λ (x : Bool × List Command). (ok tt, x.1)) h
completed_lem (err e, cs) issued h = absurd (cc)
completed_lem (panic, cs) issued h = absurd (cc)

-- A plan is executed to its end.
pub execute_plan_accepted :
    (world : World)
    → ((before : List Command) (c : Command) → world before c ≡ none)
    → (identity version : Text) → (p : ControllerPlan) (issued : List Command)
    → execute_plan world identity version p issued
      ≡ (ok tt, issued ++ plan_commands identity version p)
execute_plan_accepted world accepts identity version p issued =
    completed_lem (execute_plan world identity version p issued) _ (
      (execute_plan-Implements world identity version p).same issued
      ∙ perform-accepted world (plan_commands identity version p) issued accepts)
