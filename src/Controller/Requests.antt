-- ===== src/Controller/Requests.antt =====
-- CreateVolume with the lookup of zones of `Zones`.
use cloud_provider_vsphere.Common.{
  ℕ, ◌+◌, ◌≡◌, refl, sym, ◌∙◌, Text, codes, Map, Option, none, some, List, [], ◌∷◌, Outcome, ok,
  err, panic, arith,
}
use cloud_provider_vsphere.Inventory.{Datacenter}
use cloud_provider_vsphere.Connections.{Instance, ConnectionManager}
use cloud_provider_vsphere.Discovery.{Site}
use cloud_provider_vsphere.Zones.{ZoneApi, Labels}
use cloud_provider_vsphere.Zones.Looking.{ZoneDiscoveryInfo, Schedules, which_vc_and_dc_by_zone}
use cloud_provider_vsphere.Zones.Single.{which_vc_and_dc_by_zone_single}
use cloud_provider_vsphere.Disks.Store.{Store}
use cloud_provider_vsphere.Volumes.{Volume}
use cloud_provider_vsphere.Controller.{
  done, Accessibility, CreateVolumeRequest, value_at, parameter, next_topology, first_topology,
  by_topology, located, place, create_volume,
}
use cloud_provider_vsphere.Controller.Created.{IsVolumeOf, create_volume-IsVolumeOf}

-- The lookup that CreateVolume calls for a topology, for the schedules of each call. The labels are
-- those of the configuration.
unfoldable pub find_zone :
    Site
    → ZoneApi
    → Labels
    → (ℕ → Schedules)
    → ℕ
    → ConnectionManager
    → ℕ
    → Text
    → Text
    → Outcome (Option ZoneDiscoveryInfo)
unfolding which_vc_and_dc_by_zone
find_zone site api labels schedules t cm call zone region =
    which_vc_and_dc_by_zone site api
      (record {
        zone_label = labels.zone;
        region_label = labels.region;
        zone = zone;
        region = region;
      })
      (schedules call) t cm

module _ (find : ℕ → Text → Text → Outcome (Option ZoneDiscoveryInfo)) (z : ZoneDiscoveryInfo) where
  -- Some call of the lookup returned the zone.
  abbrev pub WasLookedUp : Type 0
  WasLookedUp = (k : ℕ) × (zone : Text) × (region : Text) × (find k zone region ≡ ok (some z))

  next-WasLookedUp :
      (k : ℕ) (zone region : Text) (o : Outcome (Option ZoneDiscoveryInfo))
      (further : Outcome (Option ZoneDiscoveryInfo) → Outcome (Option ZoneDiscoveryInfo))
      → find k zone region ≡ o
      → ((e : Outcome (Option ZoneDiscoveryInfo))
          → ¬ (e ≡ ok (some z))
          → further e ≡ ok (some z)
          → WasLookedUp)
      → next_topology find o further ≡ ok (some z)
      → WasLookedUp
  next-WasLookedUp k zone region (ok q) further e f h = (k, zone, region, e ∙ h)
  next-WasLookedUp k zone region (err x) further e f h = f (err x) (λ p. absurd (ground arith)) h
  next-WasLookedUp k zone region panic further e f h = absurd (ground arith)

  first_topology-WasLookedUp :
      (k : ℕ) (topologies : List (Map Text)) (so_far : Outcome (Option ZoneDiscoveryInfo))
      → ¬ (so_far ≡ ok (some z))
      → first_topology find k topologies so_far ≡ ok (some z)
      → WasLookedUp
  unfolding first_topology
  first_topology-WasLookedUp k [] so_far n h = absurd (n h)
  first_topology-WasLookedUp k (segments ∷ rest) so_far n h =
      next-WasLookedUp k (value_at segments (codes "failure-domain.beta.kubernetes.io/zone"))
        (value_at segments (codes "failure-domain.beta.kubernetes.io/region"))
        (find k (value_at segments (codes "failure-domain.beta.kubernetes.io/zone"))
          (value_at segments (codes "failure-domain.beta.kubernetes.io/region")))
        (λ last. first_topology find (k + 1) rest last) refl
        (first_topology-WasLookedUp (k + 1) rest) h

  place-WasLookedUp : (req : CreateVolumeRequest) → place find req ≡ ok (some z) → WasLookedUp
  unfolding place
  place-WasLookedUp req h = at_request req.accessibility h
    where
      without_list : ¬ (◌≡◌ {A = Outcome (Option ZoneDiscoveryInfo)} (ok none) (ok (some z)))
      without_list p = absurd (ground arith)

      by_lists :
          (requisite preferred : Option (List (Map Text)))
          → by_topology find req requisite preferred ≡ ok (some z)
          → WasLookedUp
      by_lists (some requisites) preferred h =
          first_topology-WasLookedUp 0 requisites (ok none) without_list h
      by_lists none (some preferred) h =
          first_topology-WasLookedUp 0 preferred (ok none) without_list h
      by_lists none none h = (0, parameter req (codes "zone"), parameter req (codes "region"), h)

      at_request : (a : Option Accessibility) → located find req a ≡ ok (some z) → WasLookedUp
      at_request none h = (0, parameter req (codes "zone"), parameter req (codes "region"), h)
      at_request (some a) h = by_lists a.requisite a.preferred h

module _ {S : Type 0} (store : Store S) (round : ℕ → ℕ → ℕ) (site : Site) (api : ZoneApi)
    (labels : Labels) (schedules : ℕ → Schedules) (t : ℕ) (cm : ConnectionManager) where
  -- The lookup of a service.
  abbrev pub find_of : ℕ → Text → Text → Outcome (Option ZoneDiscoveryInfo)
  find_of = find_zone site api labels schedules t cm

  -- With one vCenter that has one datacenter, a volume that CreateVolume answers with is in that
  -- datacenter, whatever topology the request asks for: the disk of the response is found there by
  -- its name, and was there with the size asked for or was created there.
  pub create_volume-single :
      (req : CreateVolumeRequest) (vc : Text) (i : Instance) (dc : Datacenter) (s s' : S)
      (v : Volume)
      → cm.instances ≡ (vc, i) ∷ []
      → site.api.datacenter_list vc ≡ ok (dc ∷ [])
      → create_volume store round find_of req s ≡ (done v, s')
      → (r : IsVolumeOf store round find_of req v s s') × (r.zone
          ≡ record { vc_server = vc; datacenter = dc })
  unfolding find_zone
  create_volume-single req vc i dc s s' v one only h =
      let r = create_volume-IsVolumeOf store round find_of req s s' v h in
      let (k, zone, region, e) = place-WasLookedUp find_of r.zone req r.located in
      let here_it_is =
        which_vc_and_dc_by_zone_single site api
          (record {
            zone_label = labels.zone;
            region_label = labels.region;
            zone = zone;
            region = region;
          })
          (schedules k) t cm vc i dc one only in
      let same : ok (some r.zone) ≡ ok (some (record { vc_server = vc; datacenter = dc })) =
        sym e ∙ here_it_is in
      (r, ground arith)
