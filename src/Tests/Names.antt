-- ===== src/Tests/Names.antt =====
-- Names and build IDs.
use temporal_worker_controll.Base.{◌≤◌, Text, codes, length, ◌≡◌, refl, arith}
use temporal_worker_controll.K8s.Names.{
  is_dns, is_build_id, clean_string_for_dns, clean_build_id, compute_build_id, replace_runs,
  trim_left, trim_right,
}
use temporal_worker_controll.K8s.Names.Labels.{
  IsOver, IsLabelValue, clean_build_id_lem, clean_string_for_dns_lem,
}
use temporal_worker_controll.K8s.Names.BuildId.{length-compute_build_id, compute_build_id_override}
use temporal_worker_controll.Tests.Data.{sample_libraries, sample_worker}

abbrev messy : Text
messy = codes "-feat/x y!."

cleaned : clean_build_id messy ≡ codes "feat-x-y"
unfolding clean_build_id replace_runs trim_left trim_right is_build_id
cleaned = refl

clean_build_id_lem_example :
    IsLabelValue (clean_build_id messy)
    × (length (clean_build_id messy) ≤ length messy)
    × (IsLabelValue messy → clean_build_id messy ≡ messy)
    × (clean_build_id (clean_build_id messy) ≡ clean_build_id messy)
clean_build_id_lem_example = clean_build_id_lem messy

clean_string_for_dns_lem_example :
    IsOver is_dns (clean_string_for_dns messy)
    × (length (clean_string_for_dns messy) ≤ length messy)
    × (clean_string_for_dns (clean_string_for_dns messy) ≡ clean_string_for_dns messy)
clean_string_for_dns_lem_example = clean_string_for_dns_lem messy

length-compute_build_id_example : length (compute_build_id sample_libraries sample_worker) ≤ 63
length-compute_build_id_example = length-compute_build_id sample_libraries (λ s. refl) sample_worker

override_label : IsLabelValue (codes "v1.2")
unfolding is_build_id
override_label = ((refl, (refl, (refl, (refl, tt)))), refl, refl)

compute_build_id_override_example : compute_build_id sample_libraries sample_worker ≡ codes "v1.2"
compute_build_id_override_example =
    compute_build_id_override sample_libraries sample_worker (λ e. cc) (omega arith) override_label
