-- ===== src/Api/Webhook/Rollout.antt =====
-- What `validateRolloutStrategy` admits.
use temporal_worker_controll.Base.{
  if◌then◌else◌, ◌≤◌, ℕ, ◌+◌, ℤ, pos, ◌≤ℤ◌, ◌<ℤ◌, Option, none, some, List, [], ◌∷◌, ◌++◌, Bool,
  true, false, ◌≡◌, ◌≢◌, ◌↔◌, ◌⊎◌, refl, arith, is_some, length,
}
use temporal_worker_controll.Api.Types.{
  RolloutStrategy, RolloutStep, GateWorkflowConfig, GateInputSource, TemporalWorkerDeployment,
  is_progressive,
}
use temporal_worker_controll.Api.Webhook.{
  validate_step, validate_steps, validate_progressive, validate_input_from, validate_gate,
  validate_rollout_strategy, validate_for_update_or_create,
}

-- Every pause is 30s or longer and the percentages rise strictly, from above `last`.
abbrev pub IsRising : ℤ → List RolloutStep → Type 0
IsRising last [] = Unit
IsRising last (s ∷ steps) =
    (pos 30000000000 ≤ℤ s.pause_duration)
    × (last <ℤ s.ramp_percentage)
    × IsRising s.ramp_percentage steps

-- Exactly one of the two references is set.
abbrev pub IsOneSource : GateInputSource → Type 0
IsOneSource source =
    ((is_some source.config_map_key_ref ≡ true) × (is_some source.secret_key_ref ≡ false))
    ⊎ ((is_some source.config_map_key_ref ≡ false) × (is_some source.secret_key_ref ≡ true))

abbrev pub IsValidSource : Option GateInputSource → Type 0
IsValidSource none = Unit
IsValidSource (some source) = IsOneSource source

abbrev pub IsValidGate : Option GateWorkflowConfig → Type 0
IsValidGate none = Unit
IsValidGate (some gate) =
    ((gate.input ≡ none) ⊎ (gate.input_from ≡ none)) × IsValidSource gate.input_from

abbrev pub IsValidStrategy : RolloutStrategy → Type 0
IsValidStrategy s =
    (is_progressive s.strategy ≡ true → (s.steps ≢ []) × IsRising (pos 0) s.steps)
    × IsValidGate s.gate

append-eq-nil {ℓ} : {A : Type ℓ} (xs ys : List A) → (xs ++ ys ≡ []) ↔ ((xs ≡ []) × (ys ≡ []))
append-eq-nil [] ys = (λ e. (refl, e), λ p. p.1)
append-eq-nil (x ∷ xs) ys = (λ e. cc, λ p. absurd (cc (p.0)))

validate_steps_sound :
    (i : ℕ) (last : ℤ) (steps : List RolloutStep)
    → validate_steps i last steps ≡ []
    → IsRising last steps
unfolding validate_steps validate_step
validate_steps_sound i last [] h = tt
validate_steps_sound i last (s ∷ steps) h =
    ground (arith, validate_steps_sound (i + 1) s.ramp_percentage steps)

validate_steps_complete :
    (i : ℕ) (last : ℤ) (steps : List RolloutStep)
    → IsRising last steps
    → validate_steps i last steps ≡ []
unfolding validate_steps validate_step
validate_steps_complete i last [] h = refl
validate_steps_complete i last (s ∷ steps) h =
    ground (arith, validate_steps_complete (i + 1) s.ramp_percentage steps)

validate_progressive_iff :
    (steps : List RolloutStep)
    → (validate_progressive steps ≡ []) ↔ ((steps ≢ []) × IsRising (pos 0) steps)
unfolding validate_progressive
validate_progressive_iff [] = (λ e. absurd (cc), λ p. absurd (p.0 refl))
validate_progressive_iff (s ∷ steps) = (
  λ e. ((λ c. cc), validate_steps_sound 0 (pos 0) (s ∷ steps) e),
  λ p. validate_steps_complete 0 (pos 0) (s ∷ steps) p.1,
)

validate_gate_sound : (g : Option GateWorkflowConfig) → validate_gate g ≡ [] → IsValidGate g
unfolding validate_gate validate_input_from
validate_gate_sound none e = tt
validate_gate_sound (some g) e = ground arith

validate_gate_complete : (g : Option GateWorkflowConfig) → IsValidGate g → validate_gate g ≡ []
unfolding validate_gate validate_input_from
validate_gate_complete none h = refl
validate_gate_complete (some g) h = ground arith

validate_if_progressive_iff :
    (b : Bool) (steps : List RolloutStep)
    → ((if b then validate_progressive steps else []) ≡ [])
      ↔ (b ≡ true → (steps ≢ []) × IsRising (pos 0) steps)
validate_if_progressive_iff true steps =
    (λ e _. (validate_progressive_iff steps).0 e, λ h. (validate_progressive_iff steps).1 (h refl))
validate_if_progressive_iff false steps = (λ e h. absurd (cc), λ h. refl)

-- A strategy passes validation exactly when, if it is progressive, it has steps, every pause is at
-- least 30s and the percentages rise strictly from above 0, and its gate has at most one of `input`
-- and `inputFrom` and, in the latter, exactly one reference. The percentages have no upper bound here.
pub validate_rollout_strategy_iff :
    (s : RolloutStrategy) → (validate_rollout_strategy s ≡ []) ↔ IsValidStrategy s
unfolding validate_rollout_strategy
validate_rollout_strategy_iff s =
    let parts =
      append-eq-nil (if is_progressive s.strategy then validate_progressive s.steps else [])
        (validate_gate s.gate) in
    let steps = validate_if_progressive_iff (is_progressive s.strategy) s.steps in
    (
      λ e. (steps.0 (parts.0 e).0, validate_gate_sound s.gate (parts.0 e).1),
      λ v. parts.1 (steps.1 v.0, validate_gate_complete s.gate v.1),
    )

-- The whole check of an object: it is admitted exactly when its name has at most 63 bytes and its
-- rollout strategy is valid.
pub validate_for_update_or_create_iff :
    (new : TemporalWorkerDeployment)
    → (validate_for_update_or_create new ≡ [])
      ↔ ((length new.object_meta.name ≤ 63) × IsValidStrategy new.spec.rollout_strategy)
unfolding validate_for_update_or_create
validate_for_update_or_create_iff new = (
  λ e. (ground arith, (validate_rollout_strategy_iff new.spec.rollout_strategy).0 (ground arith)),
  λ v. ground (arith, (validate_rollout_strategy_iff new.spec.rollout_strategy).1 v.1),
)
