-- ===== src/K8s/State/Index.antt =====
-- The maps of `GetDeploymentState` and the objects that the cluster has listed.
use mathlib.Core.Path.{subst}
use temporal_worker_controll.Base.{
  ltb_ℤ, Text, ◌==◌, text_eq_iff, lookup, insert, lookup-insert, entries, Option, none, some, List,
  [], ◌∷◌, ◌++◌, Elem, some-eq-some, ◌⊎◌, inl, inr, ◌≡◌, refl, sym, ap, ◌∙◌, Bool-cases,
}
use temporal_worker_controll.Api.Cluster.{Deployment, ObjectReference}
use temporal_worker_controll.K8s.State.{
  build_id_label, DeploymentState, no_deployments, new_object_ref, insert_by_time, sort_by_time,
  track, track_all, get_deployment_state,
}

abbrev pub ref_of : Option Deployment → Option ObjectReference
ref_of none = none
ref_of (some d) = some (new_object_ref d)

-- Under a build ID stand a listed object with that label and a reference to this object, or neither.
pub record IsIndexed (items : List Deployment) (state : DeploymentState) (b : Text) : Type 0 where
  pub referenced : lookup b state.deployment_refs ≡ ref_of (lookup b state.deployments)
  pub listed :
      (d : Deployment)
      → lookup b state.deployments ≡ some d
      → Elem d items × (lookup build_id_label (entries d.labels) ≡ some b)

insert_by_time-Elem :
    (x d : Deployment) (ds : List Deployment) → Elem x (insert_by_time d ds) → (x ≡ d) ⊎ Elem x ds
unfolding insert_by_time
insert_by_time-Elem x d [] h = h
insert_by_time-Elem x d (e ∷ ds) h =
    elim (Bool-cases (ltb_ℤ e.creation_timestamp d.creation_timestamp)) [
      | inl later ↦ past (λ inside. insert_by_time-Elem x d ds inside) (rw later at h)
      | inr not_later ↦ rw not_later at h
    ]
  where
    past :
        (Elem x (insert_by_time d ds) → (x ≡ d) ⊎ Elem x ds)
        → (x ≡ e) ⊎ Elem x (insert_by_time d ds)
        → (x ≡ d) ⊎ ((x ≡ e) ⊎ Elem x ds)
    past rest (inl same) = inr (inl same)
    past rest (inr inside) = elim (rest inside) [ inl same ↦ inl same | inr left ↦ inr (inr left) ]

sort_by_time-Elem : (x : Deployment) (ds : List Deployment) → Elem x (sort_by_time ds) → Elem x ds
unfolding sort_by_time
sort_by_time-Elem x [] h = h
sort_by_time-Elem x (d ∷ ds) h = elim (insert_by_time-Elem x d (sort_by_time ds) h) [
  | inl same ↦ inl same
  | inr inside ↦ inr (sort_by_time-Elem x ds inside)
]

labelled-IsIndexed :
    (items by_time : List Deployment) (state : DeploymentState) (d : Deployment) (c : Text)
    → Elem d items
    → lookup build_id_label (entries d.labels) ≡ some c
    → ((b : Text) → IsIndexed items state b)
    → (b : Text)
    → IsIndexed items
        (record {
          deployments = insert c d state.deployments;
          deployments_by_time = by_time;
          deployment_refs = insert c (new_object_ref d) state.deployment_refs;
        })
        b
labelled-IsIndexed items by_time state d c inside label all b = elim (Bool-cases (b == c)) [
  | inl same ↦ record {
    referenced = rw (
      lookup-insert c b d state.deployments,
      lookup-insert c b (new_object_ref d) state.deployment_refs,
      same,
    );
    listed = λ x h.
        let e : some d ≡ some x = rw (lookup-insert c b d state.deployments, same) at h in
        subst (λ y. Elem y items × (lookup build_id_label (entries y.labels) ≡ some b))
          (some-eq-some e) (inside, label ∙ ap some (sym ((text_eq_iff b c).0 same)));
  }
  | inr other ↦ record {
    referenced =
        rw
          (
            lookup-insert c b d state.deployments,
            lookup-insert c b (new_object_ref d) state.deployment_refs,
            other,
          )
          (all b).referenced;
    listed = λ x h. (all b).listed x (rw (lookup-insert c b d state.deployments, other) at h);
  }
]

track-IsIndexed :
    (items : List Deployment) (state : DeploymentState) (d : Deployment)
    → Elem d items
    → ((b : Text) → IsIndexed items state b)
    → (b : Text) → IsIndexed items (track state d) b
unfolding track
track-IsIndexed items state d inside all b =
    by_label (lookup build_id_label (entries d.labels)) refl
  where
    by_label :
        (o : Option Text)
        → lookup build_id_label (entries d.labels) ≡ o
        → IsIndexed items
            (elim o as (λ _. DeploymentState) [
              | none ↦ state
              | some build_id ↦ record {
                deployments = insert build_id d state.deployments;
                deployments_by_time = state.deployments_by_time ++ (d ∷ []);
                deployment_refs = insert build_id (new_object_ref d) state.deployment_refs;
              }
            ])
            b
    by_label none e = all b
    by_label (some c) e =
        labelled-IsIndexed items (state.deployments_by_time ++ (d ∷ [])) state d c inside e all b

track_all-IsIndexed :
    (items : List Deployment) (state : DeploymentState) (ds : List Deployment)
    → ((d : Deployment) → Elem d ds → Elem d items)
    → ((b : Text) → IsIndexed items state b)
    → (b : Text) → IsIndexed items (track_all state ds) b
unfolding track_all
track_all-IsIndexed items state [] inside all = all
track_all-IsIndexed items state (d ∷ ds) inside all =
    track_all-IsIndexed items (track state d) ds (λ x h. inside x (inr h))
      (track-IsIndexed items state d (inside d (inl refl)) all)

nothing-IsIndexed : (items : List Deployment) (b : Text) → IsIndexed items no_deployments b
unfolding lookup
nothing-IsIndexed items b = record { referenced = refl; listed = λ d h. absurd (cc) }

-- In the state that is read from the listed objects, an object that stands under a build ID is one of
-- those listed and carries this build ID in its label; and the reference under a build ID is the
-- reference to the object under it, so that both are there or neither is.
pub get_deployment_state-IsIndexed :
    (items : List Deployment) (b : Text) → IsIndexed items (get_deployment_state items) b
unfolding get_deployment_state
get_deployment_state-IsIndexed items =
    track_all-IsIndexed items no_deployments (sort_by_time items)
      (λ x h. sort_by_time-Elem x items h) (nothing-IsIndexed items)
