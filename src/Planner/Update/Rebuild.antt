-- ===== src/Planner/Update/Rebuild.antt =====
-- A deployment as the controller makes it, read by the code that updates it in place.
use temporal_worker_controll.Base.{
  Text, pos, lookup, insert, lookup-insert_self, none, [], length, All, ◌≤◌, ◌≡◌, refl, arith, ok,
}
use temporal_worker_controll.Api.Types.{
  TypeMeta, ObjectMeta, TemporalConnectionSpec, TemporalWorkerDeploymentSpec,
}
use temporal_worker_controll.K8s.State.{build_id_label}
use temporal_worker_controll.K8s.Names.{Libraries, truncate_string, clean_string_for_dns}
use temporal_worker_controll.K8s.Names.BuildId.{length-truncate_string}
use temporal_worker_controll.K8s.Pods.{
  twd_name_label, selector_labels, new_deployment_with_owner_ref,
}
use temporal_worker_controll.Planner.Update.{
  text_or_empty, update_deployment_with_pod_template_spec, connection_update, template_update,
}
use temporal_worker_controll.Planner.Update.Changes.{settled_of_annotations}
use temporal_worker_controll.Planner.Update.Named.{IsUnset, modifications_named}

build_id_of_selector :
    (lib : Libraries) (name build_id : Text)
    → length build_id ≤ 63
    → text_or_empty (lookup build_id_label (selector_labels lib name build_id)) ≡ build_id
unfolding selector_labels
build_id_of_selector lib name build_id short = rw (
  lookup-insert_self build_id_label (truncate_string build_id (pos 63))
      (insert twd_name_label (truncate_string (clean_string_for_dns name) (pos 63)) []),
  (length-truncate_string build_id 63 (omega arith)).1 short,
)

-- A deployment that the controller has made from a spec, a connection and a build ID of at most 63
-- characters stays the same, in all its fields, when it is rebuilt in place from the same spec and
-- connection: the build ID and the deployment's name are read back from the labels and from the
-- environment of the pods. It is assumed that no container of the user's template sets the variable
-- `TEMPORAL_DEPLOYMENT_NAME` itself; its value would be taken for the deployment's name.
pub rebuild_of_new_deployment :
    (lib : Libraries) (type_meta : TypeMeta) (object_meta : ObjectMeta)
    (spec : TemporalWorkerDeploymentSpec) (name build_id : Text)
    (connection : TemporalConnectionSpec)
    → All IsUnset spec.template.spec.containers
    → length build_id ≤ 63
    → let made =
        new_deployment_with_owner_ref lib type_meta object_meta spec name build_id connection in
      update_deployment_with_pod_template_spec lib made spec connection ≡ made
unfolding new_deployment_with_owner_ref update_deployment_with_pod_template_spec
rebuild_of_new_deployment lib type_meta object_meta spec name build_id connection unset short = rw (
  build_id_of_selector lib object_meta.name build_id short,
  modifications_named spec.template.spec connection spec.worker_options.temporal_namespace name
      build_id unset,
)

-- A deployment that the controller has just made asks for no update, by the spec and the connection
-- that it was made from: neither its connection nor its pod template counts as changed.
pub new_deployment_settled :
    (lib : Libraries) (type_meta : TypeMeta) (object_meta : ObjectMeta)
    (spec : TemporalWorkerDeploymentSpec) (name build_id : Text)
    (connection : TemporalConnectionSpec)
    → let made =
        new_deployment_with_owner_ref lib type_meta object_meta spec name build_id connection in
      (connection_update lib connection made ≡ ok none)
      × (template_update lib spec connection made ≡ none)
unfolding new_deployment_with_owner_ref
new_deployment_settled lib type_meta object_meta spec name build_id connection =
    settled_of_annotations lib spec connection
      (new_deployment_with_owner_ref lib type_meta object_meta spec name build_id connection) refl
