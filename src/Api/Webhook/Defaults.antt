-- ===== src/Api/Webhook/Defaults.antt =====
-- What `Default` guarantees.
use temporal_worker_controll.Base.{ℤ, Option, none, some, ◌≡◌, arith}
use temporal_worker_controll.Api.Types.{TemporalWorkerDeploymentSpec}
use temporal_worker_controll.Api.Webhook.{
  default_spec, default_scaledown_delay, default_delete_delay,
}

-- After `Default` both sunset delays are set, a delay that was set is kept, an unset one has its
-- default of one hour and one day, and every other field is unchanged; defaulting again changes
-- nothing.
pub default_spec_lem :
    (s : TemporalWorkerDeploymentSpec)
    → let d = default_spec s in
      (d.sunset_strategy.scaledown_delay
        ≡ elim s.sunset_strategy.scaledown_delay as (λ _. Option ℤ) [
          | none ↦ some default_scaledown_delay
          | some x ↦ some x
        ])
      × (d.sunset_strategy.delete_delay ≡ elim s.sunset_strategy.delete_delay as (λ _. Option ℤ) [
        | none ↦ some default_delete_delay
        | some x ↦ some x
      ])
      × (record d { sunset_strategy = s.sunset_strategy } ≡ s)
      × (default_spec d ≡ d)
unfolding default_spec
default_spec_lem s = ground arith
