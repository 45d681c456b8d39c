-- ===== src/Planner/Update/Kept.antt =====
-- What each step of `getUpdateDeployments` keeps of the objects that it does not look at.
use mathlib.Core.Path.{subst}
use temporal_worker_controll.Base.{
  Text, ◌==◌, text_eq_iff, StringMap, lookup, insert, lookup-insert, lookup-insert_self, Option,
  none, some, List, [], ◌∷◌, ◌++◌, true, Outcome, ok, ◌>>=◌, bind-eq-ok, ok-injective, ◌≡◌, ◌⊎◌,
  inl, inr, refl, sym, ◌∙◌, arith, Bool-cases, some-eq-some,
}
use temporal_worker_controll.Api.Cluster.{Deployment}
use temporal_worker_controll.Api.Types.{TemporalConnectionSpec, TemporalWorkerDeploymentSpec}
use temporal_worker_controll.K8s.Names.{Libraries}
use temporal_worker_controll.Planner.Update.{
  connection_update, template_update, Updates, record_update, is_updated, check_connection,
  check_template,
}
use temporal_worker_controll.Planner.Update.Changes.{
  IsConnected, IsUpToDate, connection_update_lem, template_update_lem, IsUpToDate-kept,
}

module _ (lib : Libraries) (spec : TemporalWorkerDeploymentSpec)
    (connection : TemporalConnectionSpec) where
  -- The object under a build ID, if there is one, asks for no change.
  abbrev pub AllConnected : Text → StringMap Deployment → Type 0
  AllConnected b ds = (d : Deployment) → lookup b ds ≡ some d → IsConnected lib connection d

  abbrev pub AllUpToDate : Text → StringMap Deployment → Type 0
  AllUpToDate b ds = (d : Deployment) → lookup b ds ≡ some d → IsUpToDate lib spec connection d

  -- What is written under one build ID keeps a property of the objects under all others.
  insert_keeps :
      (P : Deployment → Type 0) (b c : Text) (new : Deployment) (ds : StringMap Deployment)
      → (c ≡ b → P new)
      → ((d : Deployment) → lookup c ds ≡ some d → P d)
      → (d : Deployment) → lookup c (insert b new ds) ≡ some d
      → P d
  insert_keeps P b c new ds good old d h = elim (Bool-cases (c == b)) [
    | inl same ↦
        let h' : some new ≡ some d = rw (lookup-insert b c new ds, same) at h in
        subst P (some-eq-some h') (good ((text_eq_iff c b).0 same))
    | inr other ↦ old d (rw (lookup-insert b c new ds, other) at h)
  ]

  -- Under an updated build ID the object asks the connection for nothing more.
  abbrev pub UpdatedConnected : Updates → Type 0
  UpdatedConnected u = (c : Text) → is_updated c u.1 ≡ true → AllConnected c u.0

  -- What a step from `u` to `u'` keeps.
  abbrev pub Keeps : Updates → Updates → Type 0
  Keeps u u' =
      ((c : Text) → AllConnected c u.0 → AllConnected c u'.0)
      × ((c : Text) → AllUpToDate c u.0 → AllUpToDate c u'.0)
      × UpdatedConnected u'

  is_updated-append :
      (c b : Text) (bs : List Text)
      → is_updated c (bs ++ (b ∷ [])) ≡ true
      → (is_updated c bs ≡ true) ⊎ (b ≡ c)
  unfolding is_updated
  is_updated-append c b [] h = inr ((text_eq_iff b c).0 (ground arith))
  is_updated-append c b (x ∷ bs) h = elim (Bool-cases (x == c)) [
    | inl same ↦ inl (rw same)
    | inr other ↦ rw other (is_updated-append c b bs (rw other at h))
  ]

  pub record_update-Keeps :
      (b : Text) (d d' : Deployment) (u : Updates)
      → UpdatedConnected u
      → lookup b u.0 ≡ some d
      → IsConnected lib connection d'
      → (IsUpToDate lib spec connection d → IsUpToDate lib spec connection d')
      → Keeps u (record_update b (some d') u) × AllConnected b (record_update b (some d') u).0
  record_update-Keeps b d d' u inv here connected fits =
      let connected_all = λ (c : Text) (old : AllConnected c u.0).
        insert_keeps (IsConnected lib connection) b c d' u.0 (λ _. connected) old in
      (
        (
          connected_all,
          λ c old.
              insert_keeps (IsUpToDate lib spec connection) b c d' u.0
                (λ same. fits (old d (rw same here))) old,
          λ c h. elim (is_updated-append c b u.1 h) [
            | inl before ↦ connected_all c (inv c before)
            | inr same ↦ fresh c same
          ],
        ),
        fresh b refl,
      )
    where
      fresh : (c : Text) → b ≡ c → AllConnected c (insert b d' u.0)
      fresh c same x h =
          subst (IsConnected lib connection)
            (some-eq-some (
              sym (lookup-insert_self b d' u.0)
              ∙ (subst (λ y. lookup y (insert b d' u.0) ≡ some x) (sym same) h)))
            connected

  pub unchanged-Keeps : (u : Updates) → UpdatedConnected u → Keeps u u
  unchanged-Keeps u inv = ((λ c h. h), (λ c h. h), inv)

  change-Keeps :
      (b : Text) (d : Deployment) (u : Updates) (change : Option Deployment)
      → UpdatedConnected u
      → lookup b u.0 ≡ some d
      → connection_update lib connection d ≡ ok change
      → Keeps u (record_update b change u) × AllConnected b (record_update b change u).0
  change-Keeps b d u none inv here h = (
    unchanged-Keeps u inv,
    λ x e. subst (IsConnected lib connection) (some-eq-some (sym here ∙ e)) h,
  )
  change-Keeps b d u (some d') inv here h =
      let (connected, same) = connection_update_lem lib connection d h in
      record_update-Keeps b d d' u inv here connected
        (IsUpToDate-kept lib spec connection d d' same)

  pub check_connection-Keeps :
      (b : Text) (u : Updates) {u' : Updates}
      → UpdatedConnected u
      → check_connection lib connection b u ≡ ok u'
      → Keeps u u' × AllConnected b u'.0
  unfolding check_connection
  check_connection-Keeps b u {u'} inv h = elim (Bool-cases (is_updated b u.1)) [
    | inl before ↦
        subst (λ x. Keeps u x × AllConnected b x.0) (ok-injective (rw before at h))
          (unchanged-Keeps u inv, inv b before)
    | inr first ↦ looked_up (lookup b u.0) refl (rw first at h)
  ]
    where
      looked_up :
          (o : Option Deployment)
          → lookup b u.0 ≡ o
          → elim o as (λ _. Outcome Updates) [
            | none ↦ ok u
            | some d ↦
                connection_update lib connection d >>= λ change. ok (record_update b change u)
          ]
            ≡ ok u'
          → Keeps u u' × AllConnected b u'.0
      looked_up none missing h =
          subst (λ x. Keeps u x × AllConnected b x.0) (ok-injective h)
            (unchanged-Keeps u inv, λ x e. absurd (cc))
      looked_up (some d) here h =
          let (change, p, q) = bind-eq-ok (connection_update lib connection d) _ h in
          subst (λ x. Keeps u x × AllConnected b x.0) (ok-injective q)
            (change-Keeps b d u change inv here p)

  pub check_template-Keeps :
      (b : Text) (u : Updates)
      → UpdatedConnected u
      → Keeps u (check_template lib spec connection b u)
        × AllUpToDate b (check_template lib spec connection b u).0
  unfolding check_template
  check_template-Keeps b u inv = looked_up (lookup b u.0) refl
    where
      rebuilt :
          (d : Deployment) (change : Option Deployment)
          → lookup b u.0 ≡ some d
          → template_update lib spec connection d ≡ change
          → Keeps u (record_update b change u) × AllUpToDate b (record_update b change u).0
      rebuilt d none here h = (
        unchanged-Keeps u inv,
        λ x e. subst (IsUpToDate lib spec connection) (some-eq-some (sym here ∙ e)) h,
      )
      rebuilt d (some d') here h =
          let (connected, fits) = template_update_lem lib spec connection d h in
          (
            (record_update-Keeps b d d' u inv here connected (λ _. fits)).0,
            λ x e.
                subst (IsUpToDate lib spec connection)
                  (some-eq-some (sym (lookup-insert_self b d' u.0) ∙ e)) fits,
          )

      looked_up :
          (o : Option Deployment)
          → lookup b u.0 ≡ o
          → let u' = elim o as (λ _. Updates) [
            | none ↦ u
            | some d ↦ record_update b (template_update lib spec connection d) u
          ] in
            Keeps u u' × AllUpToDate b u'.0
      looked_up none missing = (unchanged-Keeps u inv, λ x e. absurd (cc))
      looked_up (some d) here = rebuilt d (template_update lib spec connection d) here refl
