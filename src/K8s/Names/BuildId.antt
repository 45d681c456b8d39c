-- ===== src/K8s/Names/BuildId.antt =====
-- The length and the shape of a build ID.
use Prim.Native.Nat.{◌/◌, ◌%◌}
use temporal_worker_controll.Base.{
  ℕ, zero, suc, ◌+◌, ◌≤◌, ◌<◌, ℤ, pos, ◌-ℤ◌, ltb, Text, codes, is_empty, Option, none, List, [],
  ◌∷◌, ◌++◌, Bool, true, false, not, ◌&&◌, length, take, if◌then◌else◌, ◌≡◌, ◌≢◌, refl, arith,
  Bool-cases, inl, inr,
}
use temporal_worker_controll.Api.Cluster.{PodTemplateSpec, Container}
use temporal_worker_controll.Api.Types.{TemporalWorkerDeployment}
use temporal_worker_controll.K8s.Names.{
  Libraries, truncate_string, clean_build_id, decimal, compute_hash, compute_image_prefix,
  image_build_id, generated_build_id, compute_build_id, reference_text,
}
use temporal_worker_controll.K8s.Names.Labels.{
  IsLabelValue, clean_build_id-fixed, length-clean_build_id,
}

length-append {ℓ} : {A : Type ℓ} (xs ys : List A) → length (xs ++ ys) ≡ length xs + length ys
length-append [] ys = omega arith
length-append (x ∷ xs) ys = omega (arith, length-append xs ys)

length-take-le {ℓ} : {A : Type ℓ} (n : ℕ) (xs : List A) → length (take n xs) ≤ n
length-take-le zero xs = omega arith
length-take-le (suc n) [] = omega arith
length-take-le (suc n) (x ∷ xs) = omega (arith, length-take-le n xs)

length-decimal : (w n : ℕ) → length (decimal w n) ≡ w
unfolding decimal
length-decimal zero n = refl
length-decimal (suc w) n =
    omega
      (arith, length-append (decimal w (n / 10)) ((b'0' + n % 10) ∷ []), length-decimal w (n / 10))

-- A positive limit is kept to, and a text within it is not changed.
pub length-truncate_string :
    (s : Text) (n : ℕ)
    → 0 < n
    → (length (truncate_string s (pos n)) ≤ n) × (length s ≤ n → truncate_string s (pos n) ≡ s)
unfolding truncate_string
length-truncate_string s n h = elim (Bool-cases (ltb n (length s))) [
  | inl long ↦ (ground (arith, length-take-le n s), λ short. absurd (ground arith))
  | inr short ↦ (ground arith, λ _. ground arith)
]

module _ (lib : Libraries)
    (encode_keeps_length : (s : Text) → length (lib.safe_encode_string s) ≡ length s) where
  length-compute_hash :
      (template : PodTemplateSpec) (c : Option ℤ) (short : Bool)
      → length (compute_hash lib template c short) ≡ (if short then 4 else 10)
  unfolding compute_hash
  length-compute_hash template c short = rw (encode_keeps_length, length-decimal)

  length-image_build_id :
      (template : PodTemplateSpec) (img : Text) → length (image_build_id lib template img) ≤ 63
  unfolding image_build_id compute_image_prefix ◌-ℤ◌
  length-image_build_id template img =
      let hash = compute_hash lib template none true in
      let size : length hash ≡ 4 = length-compute_hash template none true in
      rw size (
        omega (
          arith,
          size,
          length-clean_build_id (
              truncate_string (reference_text lib img (lib.parse_reference img)) (pos 58)
              ++ (codes "-" ++ hash)),
          length-append
              (truncate_string (reference_text lib img (lib.parse_reference img)) (pos 58))
              (codes "-" ++ hash),
          (length-truncate_string (reference_text lib img (lib.parse_reference img)) 58
              (omega arith)).0,
        ))

  length-generated_build_id :
      (template : PodTemplateSpec) (cs : List Container)
      → length (generated_build_id lib template cs) ≤ 63
  unfolding generated_build_id
  length-generated_build_id template [] = omega (arith, length-compute_hash template none false)
  length-generated_build_id template (c ∷ cs) = elim (Bool-cases (is_empty c.image)) [
    | inl bare ↦ rw bare (omega (arith, length-compute_hash template none false))
    | inr named ↦ rw named (length-image_build_id template c.image)
  ]

  -- A build ID has at most 63 bytes, whatever the override, the image and the template are,
  -- provided that `SafeEncodeString` keeps the length of a text.
  pub length-compute_build_id :
      (w : TemporalWorkerDeployment) → length (compute_build_id lib w) ≤ 63
  unfolding compute_build_id
  length-compute_build_id w =
      let override = w.spec.worker_options.unsafe_custom_build_id in
      elim (Bool-cases (not (is_empty override) && not (is_empty (clean_build_id override)))) [
        | inl own ↦ rw own (length-truncate_string (clean_build_id override) 63 (omega arith)).0
        | inr none_set ↦
            rw none_set (length-generated_build_id w.spec.template w.spec.template.spec.containers)
      ]

-- An override that is not empty, has at most 63 bytes and is a label value, as the schema of the
-- resource asks, is the build ID itself.
pub compute_build_id_override :
    (lib : Libraries) (w : TemporalWorkerDeployment)
    → w.spec.worker_options.unsafe_custom_build_id ≢ []
    → length w.spec.worker_options.unsafe_custom_build_id ≤ 63
    → IsLabelValue w.spec.worker_options.unsafe_custom_build_id
    → compute_build_id lib w ≡ w.spec.worker_options.unsafe_custom_build_id
unfolding compute_build_id
compute_build_id_override lib w set short label =
    let override = w.spec.worker_options.unsafe_custom_build_id in
    let full = not_empty override set in
    rw (clean_build_id-fixed override label, full)
      ((length-truncate_string override 63 (omega arith)).1 short)
  where
    not_empty : (s : Text) → s ≢ [] → is_empty s ≡ false
    not_empty [] h = absurd (h refl)
    not_empty (c ∷ s) h = refl
