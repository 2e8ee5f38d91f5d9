-- ===== src/Controller/RequestTests.antt =====
-- A volume is created in the only datacenter of the only vCenter.
use cloud_provider_vsphere.Common.{ℕ, ◌≡◌, refl, none, [], ◌∷◌, codes, lookup, ok}
use cloud_provider_vsphere.Inventory.{get_all_datacenter, get_number_of_datacenters}
use cloud_provider_vsphere.Discovery.{Site}
use cloud_provider_vsphere.Discovery.Tests.{discovering, dc_b, site, one_vc}
use cloud_provider_vsphere.Zones.Tests.{tags_api, labels_b}
use cloud_provider_vsphere.Zones.Looking.{Schedules, get_di_from_single_vc, which_vc_and_dc_by_zone}
use cloud_provider_vsphere.Disks.Samples.{looking_up}
use cloud_provider_vsphere.Controller.{
  done, lacks_parameter, first_topology, place, volume_size_mb, named_disk, new_disk, create_volume,
}
use cloud_provider_vsphere.Controller.Created.{IsVolumeOf}
use cloud_provider_vsphere.Controller.Requests.{find_zone, find_of, create_volume-single}
use cloud_provider_vsphere.Controller.Tests.{one_disk, round_up, request, volume, filled}

abbrev single : Site
single = record site { api = record (site.api) { datacenter_list = λ vc. ok (dc_b ∷ []) } }

abbrev no_steps : ℕ → Schedules
no_steps call = record { clusters = []; hosts = [] }

single-created :
    create_volume one_disk round_up
      (find_of one_disk round_up single tags_api labels_b no_steps 0 one_vc)
      request
      none
    ≡ (done volume, filled)
unfolding looking_up discovering find_zone which_vc_and_dc_by_zone get_di_from_single_vc
    get_all_datacenter get_number_of_datacenters create_volume named_disk new_disk volume_size_mb
    lacks_parameter place first_topology lookup round_up
single-created = refl

create_volume-single_example :
    (r : IsVolumeOf one_disk round_up
      (find_of one_disk round_up single tags_api labels_b no_steps 0 one_vc)
      request
      volume
      none
      filled)
    × (r.zone ≡ record { vc_server = codes "vc1"; datacenter = dc_b })
create_volume-single_example =
    create_volume-single one_disk round_up single tags_api labels_b no_steps 0 one_vc request
      (codes "vc1") _ dc_b none filled volume refl refl single-created
