-- ===== src/K8s/Names/Labels.antt =====
-- The shape of names cleaned for labels and for the names of objects.
use temporal_worker_controll.Base.{
  ℕ, ◌≤◌, Text, [], ◌∷◌, Bool, true, false, not, ◌&&◌, length, is_nil, All, if◌then◌else◌, ◌≡◌, inl,
  inr, refl, arith, Bool-cases,
}
use temporal_worker_controll.K8s.Names.{
  is_separator, is_dns, is_build_id, replace_runs, clean_string_for_dns, trim_left, trim_right,
  clean_build_id,
}

-- Every byte is in the class.
abbrev pub IsOver : (ℕ → Bool) → Text → Type 0
IsOver keep s = All (λ c. keep c ≡ true) s

replace_runs-IsOver :
    (keep : ℕ → Bool) (in_run : Bool) (s : Text)
    → keep b'-' ≡ true
    → IsOver keep (replace_runs keep in_run s)
unfolding replace_runs
replace_runs-IsOver keep in_run [] dash = tt
replace_runs-IsOver keep in_run (c ∷ s) dash = elim (Bool-cases (keep c)) [
  | inl good ↦ rw good (good, replace_runs-IsOver keep false s dash)
  | inr bad ↦ rw bad (outside in_run (replace_runs-IsOver keep true s dash))
]
  where
    outside :
        (b : Bool)
        → IsOver keep (replace_runs keep true s)
        → IsOver keep (if b then replace_runs keep true s else b'-' ∷ replace_runs keep true s)
    outside true ih = ih
    outside false ih = (dash, ih)

-- A text over the class is kept as it is.
replace_runs-fixed :
    (keep : ℕ → Bool) (in_run : Bool) (s : Text) → IsOver keep s → replace_runs keep in_run s ≡ s
unfolding replace_runs
replace_runs-fixed keep in_run [] h = refl
replace_runs-fixed keep in_run (c ∷ s) h = rw (h.0, replace_runs-fixed keep false s h.1)

length-replace_runs :
    (keep : ℕ → Bool) (in_run : Bool) (s : Text) → length (replace_runs keep in_run s) ≤ length s
unfolding replace_runs
length-replace_runs keep in_run [] = omega arith
length-replace_runs keep in_run (c ∷ s) = ground (arith, length-replace_runs keep (not (keep c)) s)

-- The text is empty, or its first byte is no separator; likewise its last.
abbrev pub StartsWell : Text → Type 0
StartsWell [] = Unit
StartsWell (c ∷ s) = is_separator c ≡ false

abbrev pub EndsWell : Text → Type 0
EndsWell [] = Unit
EndsWell (c ∷ []) = is_separator c ≡ false
EndsWell (c ∷ d ∷ s) = EndsWell (d ∷ s)

trim_left-StartsWell : (s : Text) → StartsWell (trim_left s)
unfolding trim_left
trim_left-StartsWell [] = tt
trim_left-StartsWell (c ∷ s) = elim (Bool-cases (is_separator c)) [
  | inl sep ↦ rw sep (trim_left-StartsWell s)
  | inr good ↦ rw good good
]

trim_left-IsOver : (keep : ℕ → Bool) (s : Text) → IsOver keep s → IsOver keep (trim_left s)
unfolding trim_left
trim_left-IsOver keep [] h = tt
trim_left-IsOver keep (c ∷ s) h = elim (Bool-cases (is_separator c)) [
  | inl sep ↦ rw sep (trim_left-IsOver keep s h.1)
  | inr good ↦ rw good h
]

trim_right-IsOver : (keep : ℕ → Bool) (s : Text) → IsOver keep s → IsOver keep (trim_right s)
unfolding trim_right
trim_right-IsOver keep [] h = tt
trim_right-IsOver keep (c ∷ s) h = elim (Bool-cases (is_nil (trim_right s) && is_separator c)) [
  | inl gone ↦ rw gone tt
  | inr kept ↦ rw kept (h.0, trim_right-IsOver keep s h.1)
]

trim_right-StartsWell : (s : Text) → StartsWell s → StartsWell (trim_right s)
unfolding trim_right
trim_right-StartsWell [] h = tt
trim_right-StartsWell (c ∷ s) h = elim (Bool-cases (is_nil (trim_right s) && is_separator c)) [
  | inl gone ↦ rw gone tt
  | inr kept ↦ rw kept h
]

EndsWell-cons :
    (c : ℕ) (r : Text) → (is_nil r && is_separator c) ≡ false → EndsWell r → EndsWell (c ∷ r)
EndsWell-cons c [] h e = h
EndsWell-cons c (d ∷ r) h e = e

trim_right-EndsWell : (s : Text) → EndsWell (trim_right s)
unfolding trim_right
trim_right-EndsWell [] = tt
trim_right-EndsWell (c ∷ s) = elim (Bool-cases (is_nil (trim_right s) && is_separator c)) [
  | inl gone ↦ rw gone tt
  | inr kept ↦ rw kept (EndsWell-cons c (trim_right s) kept (trim_right-EndsWell s))
]

trim_left-fixed : (s : Text) → StartsWell s → trim_left s ≡ s
unfolding trim_left
trim_left-fixed [] h = refl
trim_left-fixed (c ∷ s) h = rw h

trim_right-fixed : (s : Text) → EndsWell s → trim_right s ≡ s
unfolding trim_right
trim_right-fixed [] h = refl
trim_right-fixed (c ∷ []) h = rw h
trim_right-fixed (c ∷ d ∷ s) h = rw (trim_right-fixed (d ∷ s) h, trim_right)

length-trim_left : (s : Text) → length (trim_left s) ≤ length s
unfolding trim_left
length-trim_left [] = omega arith
length-trim_left (c ∷ s) = ground (arith, length-trim_left s)

length-trim_right : (s : Text) → length (trim_right s) ≤ length s
unfolding trim_right
length-trim_right [] = omega arith
length-trim_right (c ∷ s) = ground (arith, length-trim_right s)

-- What Kubernetes asks of a label value, its length apart: letters, digits and `-._` only, and the
-- first and the last byte, if there is one, a letter or a digit.
abbrev pub IsLabelValue : Text → Type 0
IsLabelValue s = IsOver is_build_id s × StartsWell s × EndsWell s

-- A cleaned build ID is a label value.
pub clean_build_id-IsLabelValue : (s : Text) → IsLabelValue (clean_build_id s)
unfolding clean_build_id
clean_build_id-IsLabelValue s =
    let r = replace_runs is_build_id false s in
    (
      trim_right-IsOver is_build_id (trim_left r) (
          trim_left-IsOver is_build_id r
            (replace_runs-IsOver is_build_id false s (unfold is_build_id in refl))),
      trim_right-StartsWell (trim_left r) (trim_left-StartsWell r),
      trim_right-EndsWell (trim_left r),
    )

-- What is a label value already is not changed.
pub clean_build_id-fixed : (s : Text) → IsLabelValue s → clean_build_id s ≡ s
unfolding clean_build_id
clean_build_id-fixed s h =
    rw (replace_runs-fixed is_build_id false s h.0, trim_left-fixed s h.1) (trim_right-fixed s h.2)

pub length-clean_build_id : (s : Text) → length (clean_build_id s) ≤ length s
unfolding clean_build_id
length-clean_build_id s = omega (
  arith,
  length-trim_right (trim_left (replace_runs is_build_id false s)),
  length-trim_left (replace_runs is_build_id false s),
  length-replace_runs is_build_id false s,
)

-- Cleaning yields a label value that is no longer than the text; a label value is kept, so that
-- cleaning twice is cleaning once.
pub clean_build_id_lem :
    (s : Text)
    → IsLabelValue (clean_build_id s)
      × (length (clean_build_id s) ≤ length s)
      × (IsLabelValue s → clean_build_id s ≡ s)
      × (clean_build_id (clean_build_id s) ≡ clean_build_id s)
clean_build_id_lem s = (
  clean_build_id-IsLabelValue s,
  length-clean_build_id s,
  clean_build_id-fixed s,
  clean_build_id-fixed (clean_build_id s) (clean_build_id-IsLabelValue s),
)

-- A name that is cleaned for DNS has letters, digits and dashes only, is no longer than the text,
-- and is not changed by cleaning it again.
pub clean_string_for_dns_lem :
    (s : Text)
    → IsOver is_dns (clean_string_for_dns s)
      × (length (clean_string_for_dns s) ≤ length s)
      × (clean_string_for_dns (clean_string_for_dns s) ≡ clean_string_for_dns s)
unfolding clean_string_for_dns
clean_string_for_dns_lem s =
    let over = replace_runs-IsOver is_dns false s (unfold is_dns in refl) in
    (
      over,
      length-replace_runs is_dns false s,
      replace_runs-fixed is_dns false (replace_runs is_dns false s) over,
    )
