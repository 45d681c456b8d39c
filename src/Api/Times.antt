-- ===== src/Api/Times.antt =====
-- Statuses that agree in all but their times. The API server keeps `metav1.Time` to the second, so the
-- status that it gives back after an update has the times cut off, or misses one that is zero.
-- Statuses with the same deprecated versions are compared here too.
use mathlib.Core.Path.{subst}
use temporal_worker_controll.Base.{
  Text, ℤ, pos, Option, none, some, List, [], ◌∷◌, map, is_some, Elem, ◌≡◌, inl, inr, refl, ap, ◌∙◌,
}
use temporal_worker_controll.Api.Types.{
  BaseWorkerDeploymentVersion, CurrentWorkerDeploymentVersion, TargetWorkerDeploymentVersion,
  DeprecatedWorkerDeploymentVersion, TemporalWorkerDeploymentStatus,
}

abbrev retime : (ℤ → ℤ) → Option ℤ → Option ℤ
retime f none = none
retime f (some t) = some (f t)

module _ (f : ℤ → ℤ) where
  abbrev retimed_base : BaseWorkerDeploymentVersion → BaseWorkerDeploymentVersion
  retimed_base v = record v { healthy_since = retime f v.healthy_since }

  abbrev retimed_current :
      Option CurrentWorkerDeploymentVersion → Option CurrentWorkerDeploymentVersion
  retimed_current none = none
  retimed_current (some v) = some (record { base = retimed_base v.base })

  abbrev retimed_target : TargetWorkerDeploymentVersion → TargetWorkerDeploymentVersion
  retimed_target v = record v {
    base = retimed_base v.base;
    ramping_since = retime f v.ramping_since;
    ramp_last_modified_at = retime f v.ramp_last_modified_at;
  }

  abbrev retimed_deprecated : DeprecatedWorkerDeploymentVersion → DeprecatedWorkerDeploymentVersion
  retimed_deprecated v = record v {
    base = retimed_base v.base;
    drained_since = retime f v.drained_since;
  }

  -- The status with every time changed.
  abbrev pub retimed : TemporalWorkerDeploymentStatus → TemporalWorkerDeploymentStatus
  retimed s = record s {
    target_version = retimed_target s.target_version;
    current_version = retimed_current s.current_version;
    deprecated_versions = map retimed_deprecated s.deprecated_versions;
  }

abbrev forget : ℤ → ℤ
forget t = pos 0

abbrev pub timeless_deprecated :
    DeprecatedWorkerDeploymentVersion → DeprecatedWorkerDeploymentVersion
timeless_deprecated v = retimed_deprecated forget v

abbrev pub timeless : TemporalWorkerDeploymentStatus → TemporalWorkerDeploymentStatus
timeless s = retimed forget s

-- The two statuses are equal, but for the values of the times that they have.
abbrev pub IsSameButTimes : TemporalWorkerDeploymentStatus → TemporalWorkerDeploymentStatus → Type 0
IsSameButTimes s t = timeless s ≡ timeless t

pub is_some-forget : (t : Option ℤ) → is_some (retime forget t) ≡ is_some t
is_some-forget none = refl
is_some-forget (some t) = refl

-- The build IDs of the deprecated versions, in order.
abbrev pub build_ids : List DeprecatedWorkerDeploymentVersion → List Text
build_ids vs = map (λ (v : DeprecatedWorkerDeploymentVersion). v.build_id) vs

-- The deprecated versions of the two statuses have the same build IDs.
abbrev pub HasSameVersions :
    TemporalWorkerDeploymentStatus → TemporalWorkerDeploymentStatus → Type 0
HasSameVersions s t = build_ids s.deprecated_versions ≡ build_ids t.deprecated_versions

Elem-build_ids :
    (vs : List DeprecatedWorkerDeploymentVersion) (v : DeprecatedWorkerDeploymentVersion)
    → Elem v vs
    → Elem v.build_id (build_ids vs)
Elem-build_ids [] v m = m
Elem-build_ids (u ∷ vs) v (inl e) =
    inl (ap (λ (x : DeprecatedWorkerDeploymentVersion). x.build_id) e)
Elem-build_ids (u ∷ vs) v (inr m) = inr (Elem-build_ids vs v m)

build_ids-Elem :
    (vs : List DeprecatedWorkerDeploymentVersion) (b : Text)
    → Elem b (build_ids vs)
    → (u : DeprecatedWorkerDeploymentVersion) × Elem u vs × (b ≡ u.build_id)
build_ids-Elem [] b m = absurd m
build_ids-Elem (u ∷ vs) b (inl e) = (u, inl refl, e)
build_ids-Elem (u ∷ vs) b (inr m) = let (x, inside, e) = build_ids-Elem vs b m in (x, inr inside, e)

-- Each deprecated version of the one has a counterpart in the other, of the same build ID.
pub HasSameVersions-deprecated :
    (s t : TemporalWorkerDeploymentStatus)
    → HasSameVersions s t
    → (v : DeprecatedWorkerDeploymentVersion) → Elem v s.deprecated_versions
    → (u : DeprecatedWorkerDeploymentVersion) × Elem u t.deprecated_versions
      × (v.build_id ≡ u.build_id)
HasSameVersions-deprecated s t same v m =
    build_ids-Elem t.deprecated_versions v.build_id
      (subst (λ ids. Elem v.build_id ids) same (Elem-build_ids s.deprecated_versions v m))

module _ (f : ℤ → ℤ) where
  forget-retime : (t : Option ℤ) → retime forget (retime f t) ≡ retime forget t
  forget-retime none = refl
  forget-retime (some t) = refl

  retimed_base_lem :
      (v : BaseWorkerDeploymentVersion)
      → retimed_base forget (retimed_base f v) ≡ retimed_base forget v
  retimed_base_lem v =
      ap (λ (t : Option ℤ). record v { healthy_since = t }) (forget-retime v.healthy_since)

  abbrev current_of : BaseWorkerDeploymentVersion → CurrentWorkerDeploymentVersion
  current_of b = record { base = b }

  retimed_current_lem :
      (v : Option CurrentWorkerDeploymentVersion)
      → retimed_current forget (retimed_current f v) ≡ retimed_current forget v
  retimed_current_lem none = refl
  retimed_current_lem (some v) =
      ap (λ (b : BaseWorkerDeploymentVersion). some (current_of b)) (retimed_base_lem v.base)

  retimed_target_lem :
      (v : TargetWorkerDeploymentVersion)
      → retimed_target forget (retimed_target f v) ≡ retimed_target forget v
  retimed_target_lem v =
      ap
        (λ (b : BaseWorkerDeploymentVersion). record v {
          base = b;
          ramping_since = retime forget (retime f v.ramping_since);
          ramp_last_modified_at = retime forget (retime f v.ramp_last_modified_at);
        })
        (retimed_base_lem v.base)
      ∙ (ap
            (λ (t : Option ℤ). record v {
              base = retimed_base forget v.base;
              ramping_since = t;
              ramp_last_modified_at = retime forget (retime f v.ramp_last_modified_at);
            })
            (forget-retime v.ramping_since)
          ∙ ap
              (λ (t : Option ℤ). record v {
                base = retimed_base forget v.base;
                ramping_since = retime forget v.ramping_since;
                ramp_last_modified_at = t;
              })
              (forget-retime v.ramp_last_modified_at))

  retimed_deprecated_lem :
      (v : DeprecatedWorkerDeploymentVersion)
      → retimed_deprecated forget (retimed_deprecated f v) ≡ retimed_deprecated forget v
  retimed_deprecated_lem v =
      ap
        (λ (b : BaseWorkerDeploymentVersion). record v {
          base = b;
          drained_since = retime forget (retime f v.drained_since);
        })
        (retimed_base_lem v.base)
      ∙ ap (λ (t : Option ℤ). record v { base = retimed_base forget v.base; drained_since = t })
          (forget-retime v.drained_since)

  retimed_all_lem :
      (vs : List DeprecatedWorkerDeploymentVersion)
      → map (retimed_deprecated forget) (map (retimed_deprecated f) vs)
        ≡ map (retimed_deprecated forget) vs
  retimed_all_lem [] = refl
  retimed_all_lem (v ∷ vs) = rw (retimed_deprecated_lem v, retimed_all_lem vs)

  -- In particular a status whose times have been cut off.
  pub retimed-IsSameButTimes : (s : TemporalWorkerDeploymentStatus) → IsSameButTimes (retimed f s) s
  retimed-IsSameButTimes s =
      ap
        (λ (t : TargetWorkerDeploymentVersion). record s {
          target_version = t;
          current_version = retimed_current forget (retimed_current f s.current_version);
          deprecated_versions =
              map (retimed_deprecated forget) (map (retimed_deprecated f) s.deprecated_versions);
        })
        (retimed_target_lem s.target_version)
      ∙ (ap
            (λ (v : Option CurrentWorkerDeploymentVersion). record s {
              target_version = retimed_target forget s.target_version;
              current_version = v;
              deprecated_versions =
                  map (retimed_deprecated forget)
                    (map (retimed_deprecated f) s.deprecated_versions);
            })
            (retimed_current_lem s.current_version)
          ∙ ap
              (λ (vs : List DeprecatedWorkerDeploymentVersion). record s {
                target_version = retimed_target forget s.target_version;
                current_version = retimed_current forget s.current_version;
                deprecated_versions = vs;
              })
              (retimed_all_lem s.deprecated_versions))

  build_ids_retimed :
      (vs : List DeprecatedWorkerDeploymentVersion)
      → build_ids (map (retimed_deprecated f) vs) ≡ build_ids vs
  build_ids_retimed [] = refl
  build_ids_retimed (v ∷ vs) = ap (λ ids. v.build_id ∷ ids) (build_ids_retimed vs)

  pub retimed-HasSameVersions :
      (s : TemporalWorkerDeploymentStatus) → HasSameVersions (retimed f s) s
  retimed-HasSameVersions s = build_ids_retimed s.deprecated_versions
