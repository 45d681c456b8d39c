-- ===== src/Tests/Webhooks.antt =====
-- Defaults and validation.
use temporal_worker_controll.Base.{◌*◌, pos, none, [], ◌∷◌, refl, ◌≡◌, ◌↔◌}
use temporal_worker_controll.Api.Webhook.{
  pause_too_short, validate_step, validate_steps, validate_progressive, validate_gate,
  validate_rollout_strategy,
}
use temporal_worker_controll.Api.Webhook.Admission.{
  worker_deployment, other_object, default_object, validate_create, validate_update, IsAdmissible,
  admission_iff,
}
use temporal_worker_controll.Api.Webhook.Rollout.{IsValidStrategy, validate_rollout_strategy_iff}
use temporal_worker_controll.Api.Types.{RolloutStrategy}
use temporal_worker_controll.Tests.Data.{sample_worker, sample_strategy}

validate_rollout_strategy_iff_example :
    (validate_rollout_strategy sample_strategy ≡ []) ↔ IsValidStrategy sample_strategy
validate_rollout_strategy_iff_example = validate_rollout_strategy_iff sample_strategy

admission_iff_example :
    ((validate_create (worker_deployment sample_worker) ≡ none)
      ↔ IsAdmissible (worker_deployment sample_worker))
    × ((validate_update other_object (worker_deployment sample_worker) ≡ none)
        ↔ IsAdmissible (worker_deployment sample_worker))
    × ((validate_create (default_object (worker_deployment sample_worker)).1 ≡ none)
        ↔ IsAdmissible (worker_deployment sample_worker))
admission_iff_example = admission_iff other_object (worker_deployment sample_worker)

-- The canary strategy of docs/configuration.md, which ends in a step without a pause, is refused.
abbrev documented_canary : RolloutStrategy
documented_canary = record sample_strategy {
  steps =
      (record { ramp_percentage = pos 1; pause_duration = pos (1800 * 1000000000) })
      ∷ (record { ramp_percentage = pos 100; pause_duration = pos 0 })
      ∷ [];
}

documented_canary_refused : validate_rollout_strategy documented_canary ≡ pause_too_short 1 ∷ []
unfolding validate_step validate_steps validate_progressive validate_gate validate_rollout_strategy
documented_canary_refused = refl
