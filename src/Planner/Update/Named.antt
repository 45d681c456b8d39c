-- ===== src/Planner/Update/Named.antt =====
-- The name of the worker deployment, read back from the pods that the controller has set up.
use temporal_worker_controll.Base.{
  Text, inl, inr, codes, ◌==◌, is_empty, List, [], ◌∷◌, ◌++◌, map, Bool, true, false, any, is_nil,
  All, ◌≡◌, refl, ◌∙◌, ap, sym, arith, Bool-cases, Option-cases,
}
use temporal_worker_controll.Api.Cluster.{EnvVar, Container, PodSpec}
use temporal_worker_controll.Api.Types.{TemporalConnectionSpec}
use temporal_worker_controll.K8s.Pods.{
  controller_env, tls_env, add_env, add_tls, secret_env_var, add_credentials,
  apply_controller_pod_spec_modifications,
}
use temporal_worker_controll.Planner.Update.{env_deployment_name, find_deployment_name}

-- The user's container leaves the deployment's name to the controller.
unfoldable pub IsUnset : Container → Type 0
IsUnset c = any (λ e. e.name == codes "TEMPORAL_DEPLOYMENT_NAME") c.env ≡ false

-- The name that the deployment's pods read, in one container.
abbrev pub IsNamed : Text → Container → Type 0
IsNamed w c = env_deployment_name c.env ≡ w

All-map :
    (P Q : Container → Type 0) (f : Container → Container)
    → ((c : Container) → P c → Q (f c))
    → (cs : List Container) → All P cs
    → All Q (map f cs)
All-map P Q f step [] h = h
All-map P Q f step (c ∷ cs) (p, h) = (step c p, All-map P Q f step cs h)

-- A name that is set is not changed by variables that come later.
env_deployment_name-append :
    (es more : List EnvVar)
    → any (λ e. e.name == codes "TEMPORAL_DEPLOYMENT_NAME") es ≡ true
    → env_deployment_name (es ++ more) ≡ env_deployment_name es
unfolding env_deployment_name
env_deployment_name-append [] more h = absurd (ground arith)
env_deployment_name-append (e ∷ es) more h =
    elim (Bool-cases (e.name == codes "TEMPORAL_DEPLOYMENT_NAME")) [
      | inl own ↦ rw own
      | inr other ↦ rw other (env_deployment_name-append es more (rw other at h))
    ]

abbrev sets_name : List EnvVar → Bool
sets_name es = any (λ e. e.name == codes "TEMPORAL_DEPLOYMENT_NAME") es

module _ (connection : TemporalConnectionSpec) (temporal_namespace name build_id : Text) where
  controller_env_names :
      (es : List EnvVar)
      → sets_name es ≡ false
      → let all = es ++ controller_env connection temporal_namespace name build_id in
        (env_deployment_name all ≡ name) × (sets_name all ≡ true)
  unfolding env_deployment_name ◌==◌
  controller_env_names [] h = (refl, refl)
  controller_env_names (e ∷ es) h = elim (Bool-cases (e.name == codes "TEMPORAL_DEPLOYMENT_NAME")) [
    | inl own ↦ absurd (ground (arith, rw own at h))
    | inr other ↦ rw other (controller_env_names es (rw other at h))
  ]

  -- The variables that carry the credentials come after the name.
  credentials_after :
      (more : List EnvVar) (c : Container)
      → IsUnset c
      → IsNamed name
          (add_env more (add_env (controller_env connection temporal_namespace name build_id) c))
  unfolding IsUnset
  credentials_after more c h =
      let (named, set) = controller_env_names c.env h in
      env_deployment_name-append
        (c.env ++ controller_env connection temporal_namespace name build_id) more set
      ∙ named

  controlled_containers-IsNamed :
      (p : PodSpec)
      → All IsUnset p.containers
      → let made =
          apply_controller_pod_spec_modifications p connection temporal_namespace name build_id in
        All (IsNamed name) made.containers
  unfolding apply_controller_pod_spec_modifications add_credentials IsUnset
  controlled_containers-IsNamed p h =
      let vars = controller_env connection temporal_namespace name build_id in
      elim (Option-cases connection.mutual_tls_secret_ref) [
        | inr (secret, tls) ↦
            rw tls (twice add_tls p.containers (λ c unset. credentials_after tls_env c unset) h)
        | inl no_tls ↦ elim (Option-cases connection.api_key_secret_ref) [
          | inr (ref, key) ↦
              rw (no_tls, key)
                (twice (add_env (secret_env_var (codes "TEMPORAL_API_KEY") ref ∷ [])) p.containers
                  (λ c unset.
                    credentials_after (secret_env_var (codes "TEMPORAL_API_KEY") ref ∷ []) c unset)
                  h)
          | inl no_key ↦
              rw (no_tls, no_key)
                (All-map IsUnset (IsNamed name) (add_env vars)
                  (λ c unset. (controller_env_names c.env unset).0) p.containers h)
        ]
      ]
    where
      twice :
          (f : Container → Container) (cs : List Container)
          → ((c : Container)
              → IsUnset c
              → IsNamed name
                  (f (add_env (controller_env connection temporal_namespace name build_id) c)))
          → All IsUnset cs
          → All (IsNamed name) (
              map f (map (add_env (controller_env connection temporal_namespace name build_id)) cs))
      twice f [] step h = h
      twice f (c ∷ cs) step (unset, h) = (step c unset, twice f cs step h)

find_deployment_name_lem :
    (name : Text) (c : Container) (cs : List Container)
    → All (IsNamed name) (c ∷ cs)
    → find_deployment_name (c ∷ cs) ≡ name
unfolding find_deployment_name
find_deployment_name_lem name c cs (named, h) = elim (Bool-cases (is_empty name)) [
  | inl empty ↦ rw (named, empty) (unnamed cs h (emptiness name empty))
  | inr full ↦ rw (named, full)
]
  where
    emptiness : (t : Text) → is_empty t ≡ true → t ≡ []
    emptiness [] h = refl
    emptiness (x ∷ t) h = absurd (cc)

    unnamed :
        (ds : List Container) → All (IsNamed name) ds → name ≡ [] → find_deployment_name ds ≡ name
    unnamed [] h e = sym e
    unnamed (d ∷ ds) (p, h) e = rw (p, e) (unnamed ds h e ∙ e)

find_deployment_name_cases :
    (name : Text) (cs : List Container)
    → All (IsNamed name) cs
    → is_nil cs ≡ false
    → find_deployment_name cs ≡ name
find_deployment_name_cases name [] h full = absurd (cc)
find_deployment_name_cases name (c ∷ cs) h full = find_deployment_name_lem name c cs h

modifications_full :
    (p : PodSpec) (connection : TemporalConnectionSpec) (ns name build_id : Text)
    → is_nil p.containers ≡ false
    → let made = apply_controller_pod_spec_modifications p connection ns name build_id in
      is_nil made.containers ≡ false
unfolding apply_controller_pod_spec_modifications add_credentials
modifications_full p connection ns name build_id h =
    elim (Option-cases connection.mutual_tls_secret_ref) [
      | inr (secret, tls) ↦ rw tls (mapped (map (add_env vars) p.containers) add_tls some_left)
      | inl no_tls ↦ elim (Option-cases connection.api_key_secret_ref) [
        | inr (ref, key) ↦
            rw (no_tls, key)
              (mapped (map (add_env vars) p.containers)
                (add_env (secret_env_var (codes "TEMPORAL_API_KEY") ref ∷ [])) some_left)
        | inl no_key ↦ rw (no_tls, no_key) some_left
      ]
    ]
  where
    vars : List EnvVar
    vars = controller_env connection ns name build_id

    mapped :
        (cs : List Container) (f : Container → Container)
        → is_nil cs ≡ false
        → is_nil (map f cs) ≡ false
    mapped [] f h = h
    mapped (c ∷ cs) f h = refl

    some_left : is_nil (map (add_env vars) p.containers) ≡ false
    some_left = mapped p.containers (add_env vars) h

-- Pods without containers look the same under every name.
pub modifications_named :
    (p : PodSpec) (connection : TemporalConnectionSpec) (ns name build_id : Text)
    → All IsUnset p.containers
    → let made = apply_controller_pod_spec_modifications p connection ns name build_id in
      apply_controller_pod_spec_modifications p connection ns
        (find_deployment_name made.containers)
        build_id
      ≡ made
unfolding apply_controller_pod_spec_modifications add_credentials
modifications_named p connection ns name build_id h = by_containers p.containers refl
  where
    by_containers :
        (cs : List Container)
        → p.containers ≡ cs
        → let made = apply_controller_pod_spec_modifications p connection ns name build_id in
          apply_controller_pod_spec_modifications p connection ns
            (find_deployment_name made.containers)
            build_id
          ≡ made
    by_containers [] e = rw e
    by_containers (c ∷ cs) e =
        let made = apply_controller_pod_spec_modifications p connection ns name build_id in
        ap (λ x. apply_controller_pod_spec_modifications p connection ns x build_id)
          (find_deployment_name_cases name made.containers
            (controlled_containers-IsNamed connection ns name build_id p h)
            (modifications_full p connection ns name build_id (rw e)))
