-- ===== src/Zones/Single.antt =====
-- Which search `WhichVCandDCByZone` runs for how many vCenters, and what it refuses.
use cloud_provider_vsphere.Common.{
  ℕ, ◌+◌, ◌≡◌, ap, ◌∙◌, true, some, [], ◌∷◌, Text, Map, multi_vc_requires_zones, ok, err, ◌>>=◌,
  length, if◌then◌else◌, ◌<◌, arith,
}
use cloud_provider_vsphere.Inventory.{Datacenter, get_all_datacenter, get_number_of_datacenters}
use cloud_provider_vsphere.Connections.{Instance, ConnectionManager, connect_attempts}
use cloud_provider_vsphere.Discovery.{Site}
use cloud_provider_vsphere.Zones.{ZoneApi}
use cloud_provider_vsphere.Zones.Looking.{
  Looking, is_partial, Schedules, get_di_from_multi_vc_or_dc, or_hosts,
  get_di_from_multi_vc_or_dc_non_vm, first_datacenter, on_number, get_di_from_single_vc, by_number,
  which_vc_and_dc_by_zone,
}

module _ (site : Site) (api : ZoneApi) (q : Looking) (s : Schedules) (t : ℕ)
    (cm : ConnectionManager) where
  -- With one vCenter that lists one datacenter, that datacenter is returned, whatever zone is looked
  -- for, and whether or not the attempts to connect succeed.
  pub which_vc_and_dc_by_zone_single :
      (vc : Text) (i : Instance) (dc : Datacenter)
      → cm.instances ≡ (vc, i) ∷ []
      → site.api.datacenter_list vc ≡ ok (dc ∷ [])
      → which_vc_and_dc_by_zone site api q s t cm
        ≡ ok (some (record { vc_server = vc; datacenter = dc }))
  unfolding which_vc_and_dc_by_zone get_di_from_single_vc get_all_datacenter
      get_number_of_datacenters
  which_vc_and_dc_by_zone_single vc i dc e one =
      ap (λ m. by_number site api q s t m cm) e
      ∙ ap
          (λ o.
            on_number site api q s (t + 6) vc (connect_attempts site.vim site.world t vc cm).1
              (o >>= λ dcs. ok (length dcs)))
          one
      ∙ ap (first_datacenter site api q s vc) one

  refused_multi :
      (m : Map Instance)
      → 1 < length m
      → is_partial q ≡ true
      → by_number site api q s t m cm ≡ err multi_vc_requires_zones
  unfolding get_di_from_multi_vc_or_dc
  refused_multi [] n p = absurd (omega arith)
  refused_multi (i ∷ []) n p = absurd (omega arith)
  refused_multi (i ∷ j ∷ rest) n p =
      ap
        (λ b.
          if b
          then err multi_vc_requires_zones
          else or_hosts site api q s t cm
              (get_di_from_multi_vc_or_dc_non_vm site api t q s.clusters cm))
        p

  -- With several vCenters the call is refused if a label or a value to look for is missing.
  pub which_vc_and_dc_by_zone_refused :
      1 < length cm.instances
      → is_partial q ≡ true
      → which_vc_and_dc_by_zone site api q s t cm ≡ err multi_vc_requires_zones
  unfolding which_vc_and_dc_by_zone
  which_vc_and_dc_by_zone_refused n p = refused_multi cm.instances n p
