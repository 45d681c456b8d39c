-- ===== src/K8s/Names.antt =====
-- The names: `CleanStringForDNS`, `cleanBuildID`, `TruncateString`, `ComputeBuildID` and
-- internal/controller/k8s.io/utils/utils.go. A byte that is not ASCII is in no kept class, so the
-- regular expressions act on bytes as they do on runes.
pub mod Labels
pub mod BuildId
use Prim.Native.Nat.{◌/◌}
use temporal_worker_controll.Base.{
  ℕ, zero, suc, ◌+◌, ◌-◌, ◌*◌, ◌%◌, ◌^◌, ltb, leb, eqb, ℤ, pos, ltb_ℤ, to_uint32, ◌-ℤ◌, Text, codes,
  is_empty, Option, none, some, List, [], ◌∷◌, ◌++◌, Bool, true, false, not, ◌&&◌, ◌||◌, length,
  is_nil, take, if◌then◌else◌,
}
use temporal_worker_controll.Api.Cluster.{PodTemplateSpec, Container}
use temporal_worker_controll.Api.Types.{TemporalWorkerDeployment}

abbrev pub is_alphanumeric : ℕ → Bool
is_alphanumeric c =
    (leb b'a' c && leb c b'z') || (leb b'A' c && leb c b'Z') || (leb b'0' c && leb c b'9')

-- One of `-._`.
abbrev pub is_separator : ℕ → Bool
is_separator c = eqb c b'-' || eqb c b'.' || eqb c b'_'

-- `[a-zA-Z0-9-]`
unfoldable pub is_dns : ℕ → Bool
is_dns c = is_alphanumeric c || eqb c b'-'

-- `[a-zA-Z0-9-._]`
unfoldable pub is_build_id : ℕ → Bool
is_build_id c = is_alphanumeric c || is_separator c

-- `ReplaceAllString(s, "-")` of the runs of bytes outside a class. `in_run` says that the byte
-- before was outside too.
unfoldable pub replace_runs : (ℕ → Bool) → Bool → Text → Text
replace_runs keep in_run [] = []
replace_runs keep in_run (c ∷ s) =
    let rest = replace_runs keep (not (keep c)) s in
    if keep c then c ∷ rest else if in_run then rest else b'-' ∷ rest

unfoldable pub clean_string_for_dns : Text → Text
clean_string_for_dns s = replace_runs is_dns false s

-- `strings.Trim(s, "-._")`
unfoldable pub trim_left : Text → Text
trim_left [] = []
trim_left (c ∷ s) = let rest = trim_left s in if is_separator c then rest else c ∷ s

unfoldable pub trim_right : Text → Text
trim_right [] = []
trim_right (c ∷ s) =
    let rest = trim_right s in if is_nil rest && is_separator c then [] else c ∷ rest

unfoldable pub clean_build_id : Text → Text
clean_build_id s = trim_right (trim_left (replace_runs is_build_id false s))

-- `TruncateString`, for an `n` that may be negative.
unfoldable pub truncate_string : Text → ℤ → Text
truncate_string s (pos n) = if ltb n (length s) && ltb 0 n then take n s else s
truncate_string s n = s

unfoldable pub compute_versioned_deployment_name : Text → Text → Text
compute_versioned_deployment_name base_name build_id =
    clean_string_for_dns (base_name ++ (codes "-" ++ build_id))

unfoldable pub compute_worker_deployment_name : TemporalWorkerDeployment → Text
compute_worker_deployment_name w = w.object_meta.namespace ++ (codes "/" ++ w.object_meta.name)

-- What an image reference parses to, by the case of the `switch` that it meets; `unparsed` is an
-- error or another type.
pub data Reference : Type 0 where
  unparsed : Reference
  tagged digested named : Text → Reference

-- The libraries that the names rest on: spew, FNV-1a, SHA-256 in hexadecimal, `SafeEncodeString`
-- of the Kubernetes machinery, and the image references of distribution.
pub record Libraries : Type 0 where
  pub dump : PodTemplateSpec → Text
  pub fnv32a : Text → ℕ
  pub sha256_hex : Text → Text
  pub safe_encode_string : Text → Text
  pub parse_reference : Text → Reference

-- `%0wd` of a number below 10^w.
unfoldable pub decimal : ℕ → ℕ → Text
decimal zero n = []
decimal (suc w) n = decimal w (n / 10) ++ ((b'0' + n % 10) ∷ [])

-- `binary.LittleEndian.PutUint32` into eight zero bytes.
unfoldable pub collision_bytes : ℤ → Text
collision_bytes c =
    let n = to_uint32 c in
    n % 256 ∷ n / 256 % 256 ∷ n / 65536 % 256 ∷ n / 16777216 % 256 ∷ 0 ∷ 0 ∷ 0 ∷ 0 ∷ []

module _ (lib : Libraries) where
  -- `ComputeHash`
  unfoldable pub compute_hash : PodTemplateSpec → Option ℤ → Bool → Text
  compute_hash template collision_count short =
      let written =
        lib.dump template
        ++ elim collision_count as (λ _. Text) [ none ↦ [] | some c ↦ collision_bytes c ] in
      lib.safe_encode_string (decimal (if short then 4 else 10) (lib.fnv32a written % 10000))

  abbrev pub reference_text : Text → Reference → Text
  reference_text s Reference.unparsed = s
  reference_text s (Reference.tagged t) = t
  reference_text s (Reference.digested d) = d
  reference_text s (Reference.named p) = p

  unfoldable pub compute_image_prefix : Text → ℤ → Text
  compute_image_prefix s max_len =
      truncate_string (reference_text s (lib.parse_reference s)) max_len

  unfoldable pub image_build_id : PodTemplateSpec → Text → Text
  image_build_id template img =
      let suffix = codes "-" ++ compute_hash template none true in
      clean_build_id (compute_image_prefix img (pos 63 -ℤ pos (length suffix)) ++ suffix)

  -- The build ID that is made from the pod template.
  unfoldable pub generated_build_id : PodTemplateSpec → List Container → Text
  generated_build_id template [] = compute_hash template none false
  generated_build_id template (c ∷ cs) =
      if is_empty c.image then compute_hash template none false else image_build_id template c.image

  -- `ComputeBuildID`: the override, if one is set and it is not empty after cleaning.
  unfoldable pub compute_build_id : TemporalWorkerDeployment → Text
  compute_build_id w =
      let cleaned = clean_build_id w.spec.worker_options.unsafe_custom_build_id in
      if not (is_empty w.spec.worker_options.unsafe_custom_build_id) && not (is_empty cleaned)
      then truncate_string cleaned (pos 63)
      else generated_build_id w.spec.template w.spec.template.spec.containers
