-- ===== src/Zones/Looking.antt =====
-- The searches of pkg/common/connectionmanager/zones.go: which vCenter and datacenter hold a zone. A
-- lookup uses the connection that the producer leaves to the vCenter, which it visits before it
-- sends a job for it.
use cloud_provider_vsphere.Common.{
  ℕ, ◌+◌, ◌*◌, length, Bool, true, false, ◌&&◌, ◌||◌, Option, some, List, [], ◌∷◌, map, Text,
  is_empty, equal_fold, Map, no_zone_region_found, must_have_at_least_one_vcdc,
  multi_vc_requires_zones, unsupported_configuration, Outcome, ok, err, panic, ltb, if◌then◌else◌,
}
use cloud_provider_vsphere.Inventory.{Datacenter, get_all_datacenter, get_number_of_datacenters}
use cloud_provider_vsphere.Connections.{Instance, ConnectionManager, connect_attempts}
use cloud_provider_vsphere.Discovery.{Site, plan, manager_after}
use cloud_provider_vsphere.Search.{
  Probe, hit, missing, skipped, Visit, batch, fault, Actor, start, run, result,
}
use cloud_provider_vsphere.Zones.{Moref, ZoneApi, Labels, no_labels, lookup_zone_by_moref}

pub record ZoneDiscoveryInfo : Type 0 where
  pub vc_server : Text
  pub datacenter : Datacenter

pub record ZoneSearch : Type 0 where
  pub vc : Text
  pub datacenter : Datacenter
  pub mo : Moref

-- What the search looks for: the names of the categories, and the zone and region.
pub record Looking : Type 0 where
  pub zone_label : Text
  pub region_label : Text
  pub zone : Text
  pub region : Text

abbrev pub is_partial : Looking → Bool
is_partial q =
    is_empty q.zone_label || is_empty q.region_label || is_empty q.zone || is_empty q.region

abbrev pub searches : Text → Datacenter → List Moref → List ZoneSearch
searches vc dc mos = map (λ mo. record { vc = vc; datacenter = dc; mo = mo }) mos

abbrev pub cluster_jobs : Text → Datacenter → Outcome (List Moref) → Visit ZoneSearch
cluster_jobs vc dc (ok mos) = batch (searches vc dc mos)
cluster_jobs vc dc (err e) = fault e
cluster_jobs vc dc panic = batch []

-- An error of the list of hosts is only logged.
abbrev pub host_jobs : Text → Datacenter → Outcome (List Moref) → Visit ZoneSearch
host_jobs vc dc (ok mos) = batch (searches vc dc mos)
host_jobs vc dc (err e) = batch []
host_jobs vc dc panic = batch []

abbrev pub matches : Looking → Labels → Bool
matches q l = equal_fold l.zone q.zone && equal_fold l.region q.region

abbrev pub zone_hit : ZoneSearch → Probe ZoneDiscoveryInfo
zone_hit j = hit (record { vc_server = j.vc; datacenter = j.datacenter })

-- The body of the loop over clusters.
abbrev pub cluster_probed : Looking → ZoneSearch → Outcome Labels → Probe ZoneDiscoveryInfo
cluster_probed q j (ok l) = if matches q l then zone_hit j else missing
cluster_probed q j (err e) = skipped
cluster_probed q j panic = skipped

-- The body of the loop over hosts: it goes on if there is no error, and reads the nil map if there
-- is one.
abbrev pub host_probed : Looking → ZoneSearch → Outcome Labels → Probe ZoneDiscoveryInfo
host_probed q j (ok l) = skipped
host_probed q j (err e) = if matches q no_labels then zone_hit j else missing
host_probed q j panic = skipped

module _ (site : Site) (api : ZoneApi) (t : ℕ) (q : Looking) where
  unfoldable pub probe_cluster : ConnectionManager → ZoneSearch → Probe ZoneDiscoveryInfo
  probe_cluster cm j =
      cluster_probed q j
        (lookup_zone_by_moref api q.zone_label q.region_label cm j.datacenter j.mo true)

  unfoldable pub probe_host : ConnectionManager → ZoneSearch → Probe ZoneDiscoveryInfo
  probe_host cm j =
      host_probed q j
        (lookup_zone_by_moref api q.zone_label q.region_label cm j.datacenter j.mo false)

  abbrev pub visit_clusters : Text → Datacenter → Visit ZoneSearch
  visit_clusters vc dc = cluster_jobs vc dc (api.clusters dc)

  abbrev pub visit_hosts : Text → Datacenter → Visit ZoneSearch
  visit_hosts vc dc = host_jobs vc dc (api.hosts dc)

  -- `getDIFromMultiVCorDCNonVM`
  unfoldable pub get_di_from_multi_vc_or_dc_non_vm :
      List Actor → ConnectionManager → Outcome (Option ZoneDiscoveryInfo)
  get_di_from_multi_vc_or_dc_non_vm schedule cm =
      if is_partial q
      then err multi_vc_requires_zones
      else result no_zone_region_found (
          run (probe_cluster (manager_after site t cm.instances cm)) schedule
            (start (plan site visit_clusters t cm.instances cm)))

  -- `getDIFromMultiVCorDCVM`
  unfoldable pub get_di_from_multi_vc_or_dc_vm :
      List Actor → ConnectionManager → Outcome (Option ZoneDiscoveryInfo)
  get_di_from_multi_vc_or_dc_vm schedule cm =
      if is_partial q
      then err multi_vc_requires_zones
      else result no_zone_region_found (
          run (probe_host (manager_after site t cm.instances cm)) schedule
            (start (plan site visit_hosts t cm.instances cm)))

-- The schedules of the two searches.
pub record Schedules : Type 0 where
  pub clusters : List Actor
  pub hosts : List Actor

module _ (site : Site) (api : ZoneApi) (q : Looking) (s : Schedules) where
  abbrev pub or_hosts :
      ℕ
      → ConnectionManager
      → Outcome (Option ZoneDiscoveryInfo)
      → Outcome (Option ZoneDiscoveryInfo)
  or_hosts t cm (ok z) = ok z
  or_hosts t cm (err e) =
      get_di_from_multi_vc_or_dc_vm site api (t + 6 * length cm.instances) q s.hosts
        (manager_after site t cm.instances cm)
  or_hosts t cm panic = panic

  -- `getDIFromMultiVCorDC`
  unfoldable pub get_di_from_multi_vc_or_dc :
      ℕ → ConnectionManager → Outcome (Option ZoneDiscoveryInfo)
  get_di_from_multi_vc_or_dc t cm =
      if is_partial q
      then err multi_vc_requires_zones
      else or_hosts t cm (get_di_from_multi_vc_or_dc_non_vm site api t q s.clusters cm)

  abbrev pub first_datacenter :
      Text → Outcome (List Datacenter) → Outcome (Option ZoneDiscoveryInfo)
  first_datacenter vc (ok []) = panic
  first_datacenter vc (ok (dc ∷ dcs)) = ok (some (record { vc_server = vc; datacenter = dc }))
  first_datacenter vc (err e) = err e
  first_datacenter vc panic = panic

  abbrev pub on_number :
      ℕ → Text → ConnectionManager → Outcome ℕ → Outcome (Option ZoneDiscoveryInfo)
  on_number t vc cm (ok n) =
      if ltb 1 n
      then get_di_from_multi_vc_or_dc t cm
      else first_datacenter vc (get_all_datacenter site.api vc)
  on_number t vc cm (err e) = err e
  on_number t vc cm panic = panic

  -- `getDIFromSingleVC`, which drops the error of the attempts to connect.
  unfoldable pub get_di_from_single_vc :
      ℕ → Map Instance → ConnectionManager → Outcome (Option ZoneDiscoveryInfo)
  get_di_from_single_vc t ((vc, i) ∷ []) cm =
      on_number (t + 6) vc (connect_attempts site.vim site.world t vc cm).1
        (get_number_of_datacenters site.api vc)
  get_di_from_single_vc t m cm = err unsupported_configuration

  abbrev pub by_number : ℕ → Map Instance → ConnectionManager → Outcome (Option ZoneDiscoveryInfo)
  by_number t [] cm = err must_have_at_least_one_vcdc
  by_number t (i ∷ []) cm = get_di_from_single_vc t (i ∷ []) cm
  by_number t (i ∷ j ∷ rest) cm = get_di_from_multi_vc_or_dc t cm

  -- `WhichVCandDCByZone`, for a schedule of each of its searches.
  unfoldable pub which_vc_and_dc_by_zone :
      ℕ → ConnectionManager → Outcome (Option ZoneDiscoveryInfo)
  which_vc_and_dc_by_zone t cm = by_number t cm.instances cm
