-- ===== src/Api/Webhook/Admission.antt =====
-- The handlers that the webhook registers: `Default`, `ValidateCreate`, `ValidateUpdate` and
-- `ValidateDelete`. None of them gives a warning.
use temporal_worker_controll.Base.{
  Text, Option, none, some, List, [], ◌∷◌, length, is_nil, true, if◌then◌else◌, ◌≤◌, ◌≡◌, ◌↔◌, inl,
  inr, refl, sym, ◌∙◌, Bool-cases,
}
use temporal_worker_controll.Api.Types.{TemporalWorkerDeployment}
use temporal_worker_controll.Api.Webhook.{FieldError, default_spec, validate_for_update_or_create}
use temporal_worker_controll.Api.Webhook.Rollout.{
  IsValidStrategy, validate_for_update_or_create_iff,
}

-- A `runtime.Object`, by its dynamic type.
pub data RuntimeObject : Type 0 where
  worker_deployment : TemporalWorkerDeployment → RuntimeObject
  other_object : RuntimeObject

-- `NewBadRequest` and `NewInvalid`, the latter with the object's name.
pub data AdmissionError : Type 0 where
  bad_request : AdmissionError
  invalid : Text → List FieldError → AdmissionError

-- `Default`: the error, if any, and the object after it.
unfoldable pub default_object : RuntimeObject → Option AdmissionError × RuntimeObject
default_object (worker_deployment w) =
    (none, worker_deployment (record w { spec = default_spec w.spec }))
default_object other_object = (some bad_request, other_object)

-- `validateForUpdateOrCreate` with its `newInvalidErr`
unfoldable pub validate_new : TemporalWorkerDeployment → Option AdmissionError
validate_new w =
    let errors = validate_for_update_or_create w in
    if is_nil errors then none else some (invalid w.object_meta.name errors)

-- The method `validateForUpdateOrCreate`
unfoldable pub validate_object : RuntimeObject → Option AdmissionError
validate_object (worker_deployment w) = validate_new w
validate_object other_object = some bad_request

unfoldable pub validate_create : RuntimeObject → Option AdmissionError
validate_create new = validate_object new

unfoldable pub validate_update : RuntimeObject → RuntimeObject → Option AdmissionError
validate_update old new = validate_object new

unfoldable pub validate_delete : RuntimeObject → Option AdmissionError
validate_delete obj = none

-- What the webhook asks of an object.
abbrev pub IsAdmissible : RuntimeObject → Type 0
IsAdmissible (worker_deployment w) =
    (length w.object_meta.name ≤ 63) × IsValidStrategy w.spec.rollout_strategy
IsAdmissible other_object = ⊥

is_nil_lem : {A : Type 0} (xs : List A) → is_nil xs ≡ true → xs ≡ []
is_nil_lem [] h = refl
is_nil_lem (x ∷ xs) h = absurd (cc)

validate_new_iff :
    (w : TemporalWorkerDeployment)
    → (validate_new w ≡ none) ↔ (validate_for_update_or_create w ≡ [])
unfolding validate_new
validate_new_iff w = elim (Bool-cases (is_nil (validate_for_update_or_create w))) [
  | inl empty ↦ ((λ h. is_nil_lem (validate_for_update_or_create w) empty), (λ h. rw empty))
  | inr full ↦ ((λ h. absurd (cc (rw full at h))), (λ h. absurd (cc)))
]

validate_create_iff : (obj : RuntimeObject) → (validate_create obj ≡ none) ↔ IsAdmissible obj
unfolding validate_create validate_object
validate_create_iff (worker_deployment w) =
    let first = validate_new_iff w in
    let second = validate_for_update_or_create_iff w in
    ((λ h. second.0 (first.0 h)), (λ h. first.1 (second.1 h)))
validate_create_iff other_object = ((λ h. absurd (cc)), (λ h. absurd h))

validate_create-default_object :
    (obj : RuntimeObject) → validate_create (default_object obj).1 ≡ validate_create obj
unfolding validate_create validate_object validate_new validate_for_update_or_create default_object
    default_spec
validate_create-default_object (worker_deployment w) = refl
validate_create-default_object other_object = refl

-- An object is accepted, when it is created and when it takes the place of an old one, exactly if it is
-- a worker deployment whose name has at most 63 bytes and whose rollout strategy is valid; and it is
-- accepted after its defaults have been filled in under that same condition on the object before. What
-- the old object is does not matter. The condition on the strategy is the webhook's own: each step of a
-- progressive strategy pauses for 30 seconds at least, and no percentage has an upper bound.
pub admission_iff :
    (old obj : RuntimeObject)
    → ((validate_create obj ≡ none) ↔ IsAdmissible obj)
      × ((validate_update old obj ≡ none) ↔ IsAdmissible obj)
      × ((validate_create (default_object obj).1 ≡ none) ↔ IsAdmissible obj)
unfolding validate_update validate_create
admission_iff old obj =
    let (accepted, wanted) = validate_create_iff obj in
    let same = validate_create-default_object obj in
    (
      (accepted, wanted),
      (accepted, wanted),
      ((λ h. accepted (sym same ∙ h)), (λ h. same ∙ wanted h)),
    )
