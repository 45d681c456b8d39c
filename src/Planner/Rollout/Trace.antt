-- ===== src/Planner/Rollout/Trace.antt =====
-- A progressive rollout from its first ramp to the current version: each round applies what
-- `handleProgressiveRollout` returns, as the server does, and waits out the pause.
use native.Mathlib.Numerals.{add-one}
use temporal_worker_controll.Base.{
  ℕ, zero, suc, ◌+◌, ◌-◌, ◌≤◌, ℤ, pos, ltb_ℤ, ◌+ℤ◌, ◌≤ℤ◌, ◌<ℤ◌, Float32, to_float32, to_float32-lt,
  to_int32, to_int32_in_range, Option, none, some, List, [], ◌∷◌, map, Bool, true, false, length,
  get_elem?, drop, drop-cons, drop-length_le, lt-length_of_get_elem?, get_elem?-none, ◌≡◌, refl,
  arith, ok, err, panic, inl, inr, ltb, Option-cases, eqb_ℤ_iff,
}
use temporal_worker_controll.Api.Types.{RolloutStep}
use temporal_worker_controll.Api.Webhook.Rollout.{IsRising}
use temporal_worker_controll.Planner.Types.{VersionConfig}
use temporal_worker_controll.Planner.Rollout.{
  get_current_step_index, next_step, continue_rollout, at_step, handle_progressive_rollout,
}
use temporal_worker_controll.Planner.Rollout.Steps.{reached, get_current_step_index_lem}

-- Every pause that begins at 0 is over at `now`, and the percentages are at most 100.
abbrev pub IsLongWait : ℤ → List RolloutStep → Type 0
IsLongWait now [] = Unit
IsLongWait now (s ∷ steps) =
    (ltb_ℤ (pos 0 +ℤ s.pause_duration) now ≡ true)
    × (s.ramp_percentage ≤ℤ pos 100)
    × IsLongWait now steps

-- The percentages that are set, and whether the target version became current. A round that
-- decides nothing ends the trace.
unfoldable pub rollout_trace :
    ℕ → List RolloutStep → ℤ → VersionConfig → Option Float32 → List ℤ × Bool
rollout_trace zero steps now vcfg target = ([], false)
rollout_trace (suc fuel) steps now vcfg target =
    elim (handle_progressive_rollout steps now (some (pos 0)) target vcfg) [
      | ok (some c) ↦ elim c.set_current [
        | true ↦ ([], true)
        | false ↦
            let (ramps, done) =
              rollout_trace fuel steps now vcfg (some (to_float32 c.ramp_percentage)) in
            (c.ramp_percentage ∷ ramps, done)
      ]
      | ok none ↦ ([], false)
      | err e ↦ ([], false)
      | panic ↦ ([], false)
    ]

ramp-gt_of_IsRising :
    (last : ℤ) (steps : List RolloutStep) (i : ℕ) {s : RolloutStep}
    → IsRising last steps
    → get_elem? steps i ≡ some s
    → last <ℤ s.ramp_percentage
ramp-gt_of_IsRising last [] i h e = absurd (cc)
ramp-gt_of_IsRising last (x ∷ steps) zero h e = ground arith
ramp-gt_of_IsRising last (x ∷ steps) (suc i) h e =
    omega (arith, ramp-gt_of_IsRising x.ramp_percentage steps i h.2 e, h.1)

-- With the ramp at the percentage of step `i`, just the steps up to `i` are reached.
pub reached_of_IsRising :
    (last : ℤ) (steps : List RolloutStep) (i : ℕ) {s : RolloutStep}
    → IsRising last steps
    → get_elem? steps i ≡ some s
    → reached (to_float32 s.ramp_percentage) steps ≡ suc i
reached_of_IsRising last [] i h e = absurd (cc)
reached_of_IsRising last (x ∷ []) zero h e =
    ground (arith, to_float32-lt x.ramp_percentage x.ramp_percentage)
reached_of_IsRising last (x ∷ y ∷ steps) zero h e = ground (
  arith,
  to_float32-lt x.ramp_percentage x.ramp_percentage,
  to_float32-lt x.ramp_percentage y.ramp_percentage,
)
reached_of_IsRising last (x ∷ steps) (suc i) {s} h e = ground (
  arith,
  reached_of_IsRising x.ramp_percentage steps i h.2 e,
  to_float32-lt s.ramp_percentage x.ramp_percentage,
  ramp-gt_of_IsRising x.ramp_percentage steps i h.2 e,
)

IsLongWait-at :
    (now : ℤ) (steps : List RolloutStep) (i : ℕ) {s : RolloutStep}
    → IsLongWait now steps
    → get_elem? steps i ≡ some s
    → (ltb_ℤ (pos 0 +ℤ s.pause_duration) now ≡ true) × (s.ramp_percentage ≤ℤ pos 100)
IsLongWait-at now [] i h e = absurd (cc)
IsLongWait-at now (x ∷ steps) zero h e = ground arith
IsLongWait-at now (x ∷ steps) (suc i) h e = IsLongWait-at now steps i h.2 e

module _ (s : RolloutStep) (steps : List RolloutStep) (now : ℤ) (vcfg : VersionConfig)
    (rising : IsRising (pos 0) (s ∷ steps)) (long : IsLongWait now (s ∷ steps)) where
  abbrev all_steps : List RolloutStep
  all_steps = s ∷ steps

  -- With the ramp at step `i` and its pause over, the next step is taken.
  round_lem :
      (i : ℕ) {c : RolloutStep}
      → get_elem? all_steps i ≡ some c
      → handle_progressive_rollout all_steps now
          (some (pos 0))
          (some (to_float32 c.ramp_percentage))
          vcfg
        ≡ next_step all_steps i vcfg
  unfolding handle_progressive_rollout at_step continue_rollout
  round_lem i {c} e =
      let index : get_current_step_index all_steps (some (to_float32 c.ramp_percentage)) ≡ i =
        omega (
          arith,
          (get_current_step_index_lem all_steps (to_float32 c.ramp_percentage)).0,
          reached_of_IsRising (pos 0) all_steps i rising e,
        ) in
      rw (
        index,
        e,
        (eqb_ℤ_iff (to_float32 c.ramp_percentage) (to_float32 c.ramp_percentage)).1 refl,
        (IsLongWait-at now all_steps i long e).0,
      )

  ramp_fits :
      (i : ℕ) {c : RolloutStep}
      → get_elem? all_steps i ≡ some c
      → to_int32 c.ramp_percentage ≡ c.ramp_percentage
  ramp_fits i {c} e =
      to_int32_in_range c.ramp_percentage
        (omega (arith, ramp-gt_of_IsRising (pos 0) all_steps i rising e))
        (omega (arith, (IsLongWait-at now all_steps i long e).1))

  round_next :
      (i : ℕ) {c n : RolloutStep}
      → get_elem? all_steps i ≡ some c
      → get_elem? all_steps (suc i) ≡ some n
      → handle_progressive_rollout all_steps now
          (some (pos 0))
          (some (to_float32 c.ramp_percentage))
          vcfg
        ≡ ok (some (record vcfg { ramp_percentage = n.ramp_percentage }))
  unfolding next_step
  round_next i {c} {n} e p =
      let more : ltb i (length all_steps - 1) ≡ true =
        ground (arith, lt-length_of_get_elem? all_steps (suc i) p) in
      rw (round_lem i e, more, add-one, p, ramp_fits (suc i) p)

  round_last :
      (i : ℕ) {c : RolloutStep}
      → get_elem? all_steps i ≡ some c
      → length all_steps ≤ suc i
      → handle_progressive_rollout all_steps now
          (some (pos 0))
          (some (to_float32 c.ramp_percentage))
          vcfg
        ≡ ok (some (record vcfg { set_current = true }))
  unfolding next_step
  round_last i e h =
      let last : ltb i (length all_steps - 1) ≡ false = ground arith in rw (round_lem i e, last)

  round_first :
      handle_progressive_rollout all_steps now (some (pos 0)) none vcfg
      ≡ ok (some (record vcfg { ramp_percentage = s.ramp_percentage }))
  unfolding handle_progressive_rollout at_step get_current_step_index
  round_first = rw (ramp_fits 0 refl)

  trace_ramp :
      (fuel : ℕ) (target : Option Float32) {c : VersionConfig}
      → handle_progressive_rollout all_steps now (some (pos 0)) target vcfg ≡ ok (some c)
      → c.set_current ≡ false
      → rollout_trace (suc fuel) all_steps now vcfg target ≡ (
        c.ramp_percentage
            ∷ (rollout_trace fuel all_steps now vcfg (some (to_float32 c.ramp_percentage))).0,
        (rollout_trace fuel all_steps now vcfg (some (to_float32 c.ramp_percentage))).1,
      )
  unfolding rollout_trace
  trace_ramp fuel target e fresh = rw (rollout_trace, e, fresh)

  trace_done :
      (fuel : ℕ) (target : Option Float32) {c : VersionConfig}
      → handle_progressive_rollout all_steps now (some (pos 0)) target vcfg ≡ ok (some c)
      → c.set_current ≡ true
      → rollout_trace (suc fuel) all_steps now vcfg target ≡ ([], true)
  unfolding rollout_trace
  trace_done fuel target e set = rw (rollout_trace, e, set)

  trace_from :
      (fuel i : ℕ) {c : RolloutStep}
      → vcfg.set_current ≡ false
      → get_elem? all_steps i ≡ some c
      → length all_steps ≤ fuel + i
      → rollout_trace fuel all_steps now vcfg (some (to_float32 c.ramp_percentage))
        ≡ (map (λ x. x.ramp_percentage) (drop (suc i) all_steps), true)
  trace_from zero i {c} fresh e enough =
      absurd (omega (arith, lt-length_of_get_elem? all_steps i e))
  trace_from (suc fuel) i {c} fresh e enough = elim (Option-cases (get_elem? all_steps (suc i))) [
    | inr (n, p) ↦
        rw (trace_ramp fuel (some (to_float32 c.ramp_percentage)) (round_next i e p) fresh)
          (rw (trace_from fuel (suc i) fresh p (omega arith), drop-cons all_steps (suc i) p))
    | inl end ↦
        let short : length all_steps ≤ suc i = get_elem?-none all_steps (suc i) end in
        rw (
          trace_done fuel (some (to_float32 c.ramp_percentage)) (round_last i e short) refl,
          drop-length_le all_steps (suc i) short,
        )
  ]

  -- A valid progressive rollout, whose percentages are at most 100 and whose pauses are all over
  -- at each round, sets the ramp to each step's percentage in order, skips none, and then makes the
  -- target version current, in one round more than it has steps.
  pub rollout_trace_completes :
      vcfg.set_current ≡ false
      → rollout_trace (suc (suc (length steps))) (s ∷ steps) now vcfg none
        ≡ (map (λ x. x.ramp_percentage) (s ∷ steps), true)
  rollout_trace_completes fresh =
      rw (trace_ramp (suc (length steps)) none round_first fresh)
        (rw (trace_from (suc (length steps)) 0 {c = s} fresh refl (omega arith)))
