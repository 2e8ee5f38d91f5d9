-- ===== src/Zones/Clusters.antt =====
-- What the searches over clusters and over hosts return.
use cloud_provider_vsphere.Common.{
  ◌+◌, ◌*◌, length, ℕ, ◌≡◌, refl, sym, subst, ◌≢◌, true, false, Option, some, List, [], ◌∷◌, Text,
  ◌==◌, is_empty, to_lower, equal_fold, no_zone_region_found, Outcome, ok, err, panic, All, here,
  there, Member, arith,
}
use cloud_provider_vsphere.Inventory.{Datacenter}
use cloud_provider_vsphere.Connections.{Instance, ConnectionManager}
use cloud_provider_vsphere.Search.{hit, Actor}
use cloud_provider_vsphere.Search.Invariant.{AllVisit, result_sound}
use cloud_provider_vsphere.Discovery.{Site, list_datacenters, plan, manager_after}
use cloud_provider_vsphere.Discovery.Machines.{plan-All}
use cloud_provider_vsphere.Zones.{Moref, ZoneApi, Labels, no_labels, lookup_zone_by_moref}
use cloud_provider_vsphere.Zones.Looking.{
  ZoneDiscoveryInfo, ZoneSearch, Looking, is_partial, searches, cluster_jobs, host_jobs, matches,
  cluster_probed, host_probed, probe_cluster, probe_host, visit_clusters, visit_hosts,
  get_di_from_multi_vc_or_dc_non_vm, get_di_from_multi_vc_or_dc_vm, Schedules, or_hosts,
  get_di_from_multi_vc_or_dc,
}

searches-All :
    (Q : ZoneSearch → Type 0) (vc : Text) (dc : Datacenter) (mos : List Moref)
    → ((mo : Moref) → Member mo mos → Q (record { vc = vc; datacenter = dc; mo = mo }))
    → All Q (searches vc dc mos)
searches-All Q vc dc [] f = tt
searches-All Q vc dc (mo ∷ mos) f =
    (f mo (here refl), searches-All Q vc dc mos (λ m k. f m (there k)))

equal_fold-empty : (s : Text) → is_empty s ≡ false → equal_fold [] s ≡ false
unfolding equal_fold to_lower ◌==◌
equal_fold-empty [] h = absurd (ground arith)
equal_fold-empty (c ∷ s) h = refl

not-matches-no_labels : (q : Looking) → is_partial q ≡ false → matches q no_labels ≡ false
not-matches-no_labels q h =
    let zone_asked : is_empty q.zone ≡ false = ground arith in
    ground (arith, equal_fold-empty q.zone zone_asked)

host_probed-ne-hit :
    (q : Looking) (j : ZoneSearch) (o : Outcome Labels) (r : ZoneDiscoveryInfo)
    → is_partial q ≡ false
    → host_probed q j o ≢ hit r
host_probed-ne-hit q j (ok l) r n h = absurd (ground arith)
host_probed-ne-hit q j (err e) r n h = absurd (ground (arith, not-matches-no_labels q n))
host_probed-ne-hit q j panic r n h = absurd (ground arith)

-- The object is a cluster that the API lists for the datacenter.
abbrev pub IsClusterOf : ZoneApi → Datacenter → Moref → Type 0
IsClusterOf api dc mo = (mos : List Moref) × (api.clusters dc ≡ ok mos) × Member mo mos

-- What a cluster of the datacenter says of its zone.
pub record IsInZone (api : ZoneApi) (q : Looking) (cm : ConnectionManager) (r : ZoneDiscoveryInfo)
    : Type 0 where
  pub mo : Moref
  pub labels : Labels
  pub is_cluster : IsClusterOf api r.datacenter mo
  pub found :
      lookup_zone_by_moref api q.zone_label q.region_label cm r.datacenter mo true ≡ ok labels
  pub matching : matches q labels ≡ true

cluster_probed-hit :
    (api : ZoneApi) (q : Looking) (cm : ConnectionManager) (j : ZoneSearch) (o : Outcome Labels)
    (r : ZoneDiscoveryInfo)
    → IsClusterOf api j.datacenter j.mo
    → lookup_zone_by_moref api q.zone_label q.region_label cm j.datacenter j.mo true ≡ o
    → cluster_probed q j o ≡ hit r
    → (r.vc_server ≡ j.vc) × (r.datacenter ≡ j.datacenter) × IsInZone api q cm r
cluster_probed-hit api q cm j (ok l) r c f h =
    let same : record { vc_server = j.vc; datacenter = j.datacenter } ≡ r = ground arith in
    subst (λ r'. (r'.vc_server ≡ j.vc) × (r'.datacenter ≡ j.datacenter) × IsInZone api q cm r') same
      (
        refl,
        refl,
        record { mo = j.mo; labels = l; is_cluster = c; found = f; matching = ground arith },
      )
cluster_probed-hit api q cm j (err e) r c f h = absurd (ground arith)
cluster_probed-hit api q cm j panic r c f h = absurd (ground arith)

-- The vCenter is one of the configuration, and the datacenter one of those listed for it.
abbrev pub IsListed : Site → ConnectionManager → Text → Datacenter → Type 0
IsListed site cm vc dc =
    (i : Instance) × Member (vc, i) cm.instances
    × Member dc (list_datacenters site.api vc i.datacenters).1

module _ (site : Site) (api : ZoneApi) (q : Looking) where
  -- A job of the search over clusters.
  abbrev pub IsClusterJob : ConnectionManager → ZoneSearch → Type 0
  IsClusterJob cm j = IsListed site cm j.vc j.datacenter × IsClusterOf api j.datacenter j.mo

  clusters-All :
      (cm : ConnectionManager) (vc : Text) (dc : Datacenter) (o : Outcome (List Moref))
      → api.clusters dc ≡ o
      → IsListed site cm vc dc
      → AllVisit (IsClusterJob cm) (cluster_jobs vc dc o)
  clusters-All cm vc dc (ok mos) e p = searches-All _ vc dc mos (λ mo m. (p, (mos, e, m)))
  clusters-All cm vc dc (err e) f p = tt
  clusters-All cm vc dc panic e p = tt

  hosts-All :
      (vc : Text) (dc : Datacenter) (o : Outcome (List Moref))
      → AllVisit (λ j. Unit {0}) (host_jobs vc dc o)
  hosts-All vc dc (ok mos) = searches-All _ vc dc mos (λ mo m. tt)
  hosts-All vc dc (err e) = tt
  hosts-All vc dc panic = tt

  -- The search over hosts never finds a zone, whatever the inventory holds, for every interleaving:
  -- the test of the error of the lookup is the wrong way round.
  pub get_di_from_multi_vc_or_dc_vm-ne-ok :
      (t : ℕ) (schedule : List Actor) (cm : ConnectionManager) (o : Option ZoneDiscoveryInfo)
      → get_di_from_multi_vc_or_dc_vm site api t q schedule cm ≢ ok o
  unfolding get_di_from_multi_vc_or_dc_vm probe_host
  get_di_from_multi_vc_or_dc_vm-ne-ok t schedule cm o h =
      let asked : is_partial q ≡ false = ground arith in
      let (r, e, j, u, hits) =
        result_sound (probe_host site api t q (manager_after site t cm.instances cm))
          (λ j. Unit {0}) (plan site (visit_hosts site api t q) t cm.instances cm) schedule
          no_zone_region_found o
          (plan-All site (visit_hosts site api t q) (λ j. Unit {0}) t cm.instances cm
            (λ vc i m dc k. hosts-All vc dc (api.hosts dc)))
          (ground arith) in
      not_hit (manager_after site t cm.instances cm) j r asked hits
    where
      not_hit :
          (cm' : ConnectionManager) (j : ZoneSearch) (r : ZoneDiscoveryInfo)
          → is_partial q ≡ false
          → probe_host site api t q cm' j ≢ hit r
      not_hit cm' j r asked hits = host_probed-ne-hit q j _ r asked hits

  cluster_search_sound :
      (t : ℕ) (schedule : List Actor) (cm : ConnectionManager) (o : Option ZoneDiscoveryInfo)
      → get_di_from_multi_vc_or_dc_non_vm site api t q schedule cm ≡ ok o
      → (r : ZoneDiscoveryInfo) × (o ≡ some r)
        × IsInZone api q (manager_after site t cm.instances cm) r
        × IsListed site cm r.vc_server r.datacenter
  unfolding get_di_from_multi_vc_or_dc_non_vm probe_cluster
  cluster_search_sound t schedule cm o h =
      let (r, e, j, (place, cluster), hits) =
        result_sound (probe_cluster site api t q (manager_after site t cm.instances cm))
          (IsClusterJob cm) (plan site (visit_clusters site api t q) t cm.instances cm) schedule
          no_zone_region_found o
          (plan-All site (visit_clusters site api t q) _ t cm.instances cm
            (λ vc i m dc k. clusters-All cm vc dc (api.clusters dc) refl (i, m, k)))
          (ground arith) in
      let (same_vc, same_dc, zone) =
        hit_zone (manager_after site t cm.instances cm) j r cluster hits in
      (
        r,
        e,
        zone,
        subst (λ vc. IsListed site cm vc r.datacenter) (sym same_vc)
            (subst (λ dc. IsListed site cm j.vc dc) (sym same_dc) place),
      )
    where
      hit_zone :
          (cm' : ConnectionManager) (j : ZoneSearch) (r : ZoneDiscoveryInfo)
          → IsClusterOf api j.datacenter j.mo
          → probe_cluster site api t q cm' j ≡ hit r
          → (r.vc_server ≡ j.vc) × (r.datacenter ≡ j.datacenter) × IsInZone api q cm' r
      hit_zone cm' j r c hits = cluster_probed-hit api q cm' j _ r c refl hits

  module _ (s : Schedules) where
    or_hosts-ok :
        (t : ℕ) (cm : ConnectionManager) (o : Option ZoneDiscoveryInfo)
        (c : Outcome (Option ZoneDiscoveryInfo))
        → or_hosts site api q s t cm c ≡ ok o
        → c ≡ ok o
    or_hosts-ok t cm o (ok z) h = h
    or_hosts-ok t cm o (err e) h = absurd (
        get_di_from_multi_vc_or_dc_vm-ne-ok (t + 6 * length cm.instances) s.hosts
          (manager_after site t cm.instances cm) o h)
    or_hosts-ok t cm o panic h = absurd (ground arith)

    -- A vCenter and datacenter that the search over several of them returns hold the zone, for every
    -- interleaving: a lookup of a cluster that the API lists for that datacenter, with its
    -- ancestors, gives labels that are those looked for up to case; the vCenter is one of the configuration, and the datacenter
    -- one of those listed for it.
    pub get_di_from_multi_vc_or_dc_sound :
        (t : ℕ) (cm : ConnectionManager) (o : Option ZoneDiscoveryInfo)
        → get_di_from_multi_vc_or_dc site api q s t cm ≡ ok o
        → (r : ZoneDiscoveryInfo) × (o ≡ some r)
          × IsInZone api q (manager_after site t cm.instances cm) r
          × IsListed site cm r.vc_server r.datacenter
    unfolding get_di_from_multi_vc_or_dc
    get_di_from_multi_vc_or_dc_sound t cm o h =
        cluster_search_sound t s.clusters cm o (or_hosts-ok t cm o _ (ground arith))
