-- ===== src/Tests/Deployments.antt =====
-- Deletion, scaling and creation of deployments.
use temporal_worker_controll.Base.{
  ℤ, pos, lookup, to_int64, to_uint32, ◌+ℤ◌, ◌-ℤ◌, ◌==◌, ◌<ℤ◌, none, some, [], ◌∷◌, true, ok, panic,
  length, ◌≡◌, ◌≢◌, ◌↔◌, ◌⊎◌, inl, refl, arith,
}
use temporal_worker_controll.Api.Cluster.{Deployment}
use temporal_worker_controll.K8s.State.{managed, build_id_label, get_deployment_state}
use temporal_worker_controll.K8s.State.Index.{IsIndexed, get_deployment_state-IsIndexed}
use temporal_worker_controll.Mapper.{
  map_to_status, map_all_deprecated, map_deprecated, base_version, map_target_with_ramp, map_target,
}
use temporal_worker_controll.Mapper.Versions.{map_to_status-delete}
use temporal_worker_controll.Planner.Types.{since}
use temporal_worker_controll.Planner.Delete.{
  has_no_replicas, drained_can_go, delete_by_status, delete_managed, should_delete, delete_loop,
  get_delete_deployments,
}
use temporal_worker_controll.Planner.Delete.Safety.{IsDeletable, get_delete_deployments_sound}
use temporal_worker_controll.Planner.Delete.Panics.{get_delete_deployments_panics}
use temporal_worker_controll.Planner.Scale.{
  get_scale_deployments, scale_deprecated, scale_managed, scale_by_status, scale_target,
  scale_current,
}
use temporal_worker_controll.Planner.Scale.Table.{IsRested, get_scale_deployments_sound}
use temporal_worker_controll.Planner.Create.{should_create_deployment}
use temporal_worker_controll.Planner.Create.Limit.{ineligible, should_create_deployment_iff}
use temporal_worker_controll.Tests.Data.{
  id_a, id_b, id_c, deployment_with, sample_cluster, sample_ref, server_with, sample_spec,
  status_with, drained_version,
}

abbrev long_after : ℤ
long_after = pos 1000

deletes_drained :
    get_delete_deployments long_after sample_cluster (status_with (some (pos 0))) sample_spec true
    ≡ ok (id_c ∷ [])
unfolding get_delete_deployments delete_loop should_delete delete_managed delete_by_status
    drained_can_go has_no_replicas managed since lookup ◌==◌ ◌+ℤ◌ ◌-ℤ◌ to_int64
deletes_drained = refl

get_delete_deployments_sound_example :
    IsDeletable long_after sample_cluster sample_spec.sunset_strategy id_b true
      (drained_version (some (pos 0)) ∷ [])
      id_c
get_delete_deployments_sound_example =
    get_delete_deployments_sound long_after sample_cluster (status_with (some (pos 0))) sample_spec
      true deletes_drained id_c (inl refl)

get_delete_deployments_panics_example :
    get_delete_deployments long_after sample_cluster (status_with none) sample_spec true ≡ panic
get_delete_deployments_panics_example =
    get_delete_deployments_panics long_after sample_cluster (status_with none) sample_spec true
      (drained_version none) (inl refl) (refl, refl, unfold managed lookup ◌==◌ in refl)

mapped_deletes :
    get_delete_deployments long_after sample_cluster
      (map_to_status sample_cluster (server_with (some (pos 0))) id_b)
      sample_spec
      true
    ≡ ok (id_c ∷ [])
unfolding get_delete_deployments delete_loop should_delete delete_managed delete_by_status
    drained_can_go has_no_replicas managed since lookup ◌==◌ ◌+ℤ◌ ◌-ℤ◌ to_int64 map_to_status
    map_all_deprecated map_deprecated base_version map_target_with_ramp map_target
mapped_deletes = refl

map_to_status-delete_example : (id_c ≢ id_a) × (id_c ≢ id_b) × (id_c ≢ [])
map_to_status-delete_example =
    map_to_status-delete sample_cluster sample_cluster (server_with (some (pos 0))) id_b long_after
      sample_spec true mapped_deletes id_c (inl refl)

scales_target :
    get_scale_deployments long_after sample_cluster (status_with (some (pos 0))) sample_spec
    ≡ ok ((sample_ref, 3) ∷ [])
unfolding get_scale_deployments scale_deprecated scale_managed scale_by_status scale_target
    scale_current managed since lookup ◌==◌ ◌-ℤ◌ to_uint32
scales_target = refl

get_scale_deployments_sound_example :
    ((replicas : ℤ) × (sample_spec.replicas ≡ some replicas) × (3 ≡ to_uint32 replicas))
    ⊎ IsRested long_after sample_spec.sunset_strategy id_b
        (drained_version (some (pos 0)) ∷ [])
        (sample_ref, 3)
get_scale_deployments_sound_example =
    get_scale_deployments_sound long_after sample_cluster (status_with (some (pos 0))) sample_spec
      scales_target (sample_ref, 3) (inl refl)

should_create_deployment_iff_example :
    (should_create_deployment (status_with none) (pos 75) ≡ true) ↔ (
      ((status_with none).target_version.deployment ≡ none)
      × (pos (length (ineligible (status_with none).deprecated_versions)) <ℤ pos 75))
should_create_deployment_iff_example =
    should_create_deployment_iff (status_with none) (pos 75) (omega arith)

abbrev labelled : Deployment
labelled = record (deployment_with (some (pos 1))) { labels = some ((build_id_label, id_a) ∷ []) }

get_deployment_state-IsIndexed_example :
    IsIndexed (labelled ∷ []) (get_deployment_state (labelled ∷ [])) id_a
get_deployment_state-IsIndexed_example = get_deployment_state-IsIndexed (labelled ∷ []) id_a
