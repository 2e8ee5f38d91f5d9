-- ===== src/Discovery/PairTests.antt =====
-- The two datacenters of a vCenter, sorted by insertion.
use mathlib.Core.List.{Perm}
use cloud_provider_vsphere.Common.{◌≡◌, refl, List, [], ◌∷◌, map, concat, codes, ok}
use cloud_provider_vsphere.Common.Sorts.{sorted, sorted-Perm}
use cloud_provider_vsphere.Connections.{ConnectionManager}
use cloud_provider_vsphere.Discovery.{visit_datacenter, plan}
use cloud_provider_vsphere.Discovery.Tests.{discovering, dc_a, dc_b, site, one_vc}
use cloud_provider_vsphere.Discovery.Pairs.{
  ListDiscoveryInfo, pair_before, pair_at, unsorted_pairs, list_all_vc_and_dc_pairs, plan_jobs,
  job_of, list_all_vc_and_dc_pairs-plan,
}

abbrev both : List ListDiscoveryInfo
both = pair_at (codes "vc1") dc_a ∷ pair_at (codes "vc1") dc_b ∷ []

unfoldable end_cm : ConnectionManager
unfolding discovering list_all_vc_and_dc_pairs unsorted_pairs
end_cm = (list_all_vc_and_dc_pairs site (λ less l. sorted less l) 0 one_vc).1

both-listed : list_all_vc_and_dc_pairs site (λ less l. sorted less l) 0 one_vc ≡ (ok both, end_cm)
unfolding discovering list_all_vc_and_dc_pairs unsorted_pairs end_cm
both-listed = refl

list_all_vc_and_dc_pairs-plan_example :
    Perm
      (map job_of both)
      (concat (map plan_jobs (plan site visit_datacenter 0 one_vc.instances one_vc)))
list_all_vc_and_dc_pairs-plan_example =
    list_all_vc_and_dc_pairs-plan site (λ less l. sorted less l) 0 one_vc end_cm both
      (sorted-Perm pair_before) both-listed
