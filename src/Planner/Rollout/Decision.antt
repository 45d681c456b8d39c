-- ===== src/Planner/Rollout/Decision.antt =====
-- What a call of `handleProgressiveRollout` may decide.
use temporal_worker_controll.Base.{
  ℕ, ◌+◌, ◌-◌, ◌≤◌, ℤ, ltb_ℤ, eqb_ℤ, eqb_ℤ_iff, ◌+ℤ◌, Float32, to_float32, Option, none, some, List,
  [], ◌∷◌, true, false, length, get_elem?, get_elem?-lt, lt-length_of_get_elem?, ◌≡◌, refl, arith,
  ltb, ok, Bool-cases, inl, inr, ap,
}
use temporal_worker_controll.Api.Types.{RolloutStep}
use temporal_worker_controll.Planner.Types.{VersionConfig}
use temporal_worker_controll.Planner.Rollout.{
  get_current_step_index, next_step, continue_rollout, at_step, handle_progressive_rollout,
  with_ramp,
}
use temporal_worker_controll.Planner.Rollout.Steps.{get_current_step_index-lt}

next_step_total :
    (steps : List RolloutStep) (i : ℕ) (vcfg : VersionConfig)
    → (r : Option VersionConfig) × (next_step steps i vcfg ≡ ok r)
unfolding next_step
next_step_total steps i vcfg = elim (Bool-cases (ltb i (length steps - 1))) [
  | inl more ↦
      let (s, e) = get_elem?-lt steps (i + 1) (ground arith) in
      (some (with_ramp vcfg s), rw (more, e))
  | inr last ↦ (some (record vcfg { set_current = true }), rw last)
]

at_step_total :
    (steps : List RolloutStep) (i : ℕ) (now : ℤ) (modified : Option ℤ) (target : Option Float32)
    (vcfg : VersionConfig) (s : RolloutStep)
    → (r : Option VersionConfig) × (at_step steps i now modified target vcfg s ≡ ok r)
unfolding at_step continue_rollout
at_step_total steps i now modified none vcfg s = (some (with_ramp vcfg s), refl)
at_step_total steps i now none (some target) vcfg s =
    elim (Bool-cases (eqb_ℤ target (to_float32 s.ramp_percentage))) [
      | inl same ↦ (none, rw same)
      | inr off ↦ (some (with_ramp vcfg s), rw off)
    ]
at_step_total steps i now (some t) (some target) vcfg s =
    elim (Bool-cases (eqb_ℤ target (to_float32 s.ramp_percentage))) [
      | inl same ↦ elim (Bool-cases (ltb_ℤ (t +ℤ s.pause_duration) now)) [
        | inl over ↦ let (r, e) = next_step_total steps i vcfg in (r, rw (same, over) e)
        | inr wait ↦ (none, rw (same, wait))
      ]
      | inr off ↦ (some (with_ramp vcfg s), rw off)
    ]

-- The step at the current index, which is there.
pub current_step :
    (s : RolloutStep) (steps : List RolloutStep) (target : Option Float32)
    → (c : RolloutStep) × (get_elem? (s ∷ steps) (get_current_step_index (s ∷ steps) target)
        ≡ some c)
current_step s steps target =
    get_elem?-lt (s ∷ steps) (get_current_step_index (s ∷ steps) target)
      (get_current_step_index-lt s steps target)

-- For every list of steps, clock, ramp and time of the last change the function returns: neither
-- `steps[i]` nor `steps[i+1]` is out of range.
pub handle_progressive_rollout_total :
    (steps : List RolloutStep) (now : ℤ) (modified : Option ℤ) (target : Option Float32)
    (vcfg : VersionConfig)
    → (r : Option VersionConfig) × (handle_progressive_rollout steps now modified target vcfg
        ≡ ok r)
unfolding handle_progressive_rollout
handle_progressive_rollout_total [] now modified target vcfg = (none, refl)
handle_progressive_rollout_total (s ∷ steps) now modified target vcfg =
    let (c, e) = current_step s steps target in
    let (r, p) =
      at_step_total (s ∷ steps) (get_current_step_index (s ∷ steps) target) now modified target vcfg
        c in
    (r, rw e p)

-- The pause of a step is over at `now`.
abbrev pub IsPauseOver : RolloutStep → Option ℤ → ℤ → Type 0
IsPauseOver s modified now =
    (t : ℤ) × (modified ≡ some t) × (ltb_ℤ (t +ℤ s.pause_duration) now ≡ true)

next_step_set_current :
    (steps : List RolloutStep) (i : ℕ) (vcfg : VersionConfig) {c : VersionConfig}
    → vcfg.set_current ≡ false
    → next_step steps i vcfg ≡ ok (some c)
    → c.set_current ≡ true
    → length steps - 1 ≤ i
unfolding next_step
next_step_set_current steps i vcfg fresh e set = elim (Bool-cases (ltb i (length steps - 1))) [
  | inl more ↦ let (s, p) = get_elem?-lt steps (i + 1) (ground arith) in absurd (ground arith)
  | inr last ↦ ground arith
]

at_step_set_current :
    (steps : List RolloutStep) (i : ℕ) (now : ℤ) (modified : Option ℤ) (target : Option Float32)
    (vcfg : VersionConfig) (s : RolloutStep) {c : VersionConfig}
    → vcfg.set_current ≡ false
    → at_step steps i now modified target vcfg s ≡ ok (some c)
    → c.set_current ≡ true
    → (target ≡ some (to_float32 s.ramp_percentage))
      × IsPauseOver s modified now
      × (length steps - 1 ≤ i)
unfolding at_step continue_rollout
at_step_set_current steps i now modified none vcfg s fresh e set = absurd (ground arith)
at_step_set_current steps i now none (some target) vcfg s fresh e set =
    elim (Bool-cases (eqb_ℤ target (to_float32 s.ramp_percentage))) [
      | inl same ↦ absurd (ground arith)
      | inr off ↦ absurd (ground arith)
    ]
at_step_set_current steps i now (some t) (some target) vcfg s fresh e set =
    elim (Bool-cases (eqb_ℤ target (to_float32 s.ramp_percentage))) [
      | inl same ↦ elim (Bool-cases (ltb_ℤ (t +ℤ s.pause_duration) now)) [
        | inl over ↦ (
          ap some ((eqb_ℤ_iff target (to_float32 s.ramp_percentage)).0 same),
          (t, refl, over),
          next_step_set_current steps i vcfg fresh (rw (same, over) at e) set,
        )
        | inr wait ↦ absurd (ground arith)
      ]
      | inr off ↦ absurd (ground arith)
    ]

-- A progressive rollout makes the target version current only when the ramp stands exactly at the
-- percentage of the last step and the pause of that step has passed since the ramp was changed.
pub set_current_only_after_last_step :
    (steps : List RolloutStep) (now : ℤ) (modified : Option ℤ) (target : Option Float32)
    (vcfg : VersionConfig) {c : VersionConfig}
    → vcfg.set_current ≡ false
    → handle_progressive_rollout steps now modified target vcfg ≡ ok (some c)
    → c.set_current ≡ true
    → (s : RolloutStep) × (get_elem? steps (length steps - 1) ≡ some s)
      × (target ≡ some (to_float32 s.ramp_percentage))
      × IsPauseOver s modified now
unfolding handle_progressive_rollout
set_current_only_after_last_step [] now modified target vcfg fresh e set = absurd (ground arith)
set_current_only_after_last_step (s ∷ steps) now modified target vcfg fresh e set =
    let (l, p) = current_step s steps target in
    let i = get_current_step_index (s ∷ steps) target in
    let facts =
      at_step_set_current (s ∷ steps) i now modified target vcfg l fresh (rw p at e) set in
    let here : i ≡ length (s ∷ steps) - 1 =
      omega (arith, facts.2, lt-length_of_get_elem? (s ∷ steps) i p) in
    (l, rw (← here) p, facts.0, facts.1)
