-- ===== src/Controller/PublishTests.antt =====
-- A volume that is published to a node and unpublished.
use cloud_provider_vsphere.Common.{◌≡◌, refl, some, List, [], ◌∷◌, ◌++◌, Text, codes, Map, ok}
use cloud_provider_vsphere.Inventory.{get_vm_by_dns_name}
use cloud_provider_vsphere.Discovery.{Site}
use cloud_provider_vsphere.Discovery.Tests.{discovering, site, one_vc, rounds}
use cloud_provider_vsphere.Disks.Search.{which_vc_and_dc_by_fcd_id}
use cloud_provider_vsphere.Disks.Samples.{looking_up, Disks}
use cloud_provider_vsphere.Machines.{Device}
use cloud_provider_vsphere.Machines.Tests.{attaching, hosts, two_devices, disk_with}
use cloud_provider_vsphere.Controller.{done}
use cloud_provider_vsphere.Controller.Publishing.{
  controller_publish_volume, controller_unpublish_volume, WasPublished,
  controller_publish_volume_sound,
}

abbrev pool_disk : Disks
pool_disk =
    (
      codes "ds-2",
      record {
        id = codes "y";
        name = codes "n";
        capacity_in_mb = 1024;
        file_path = some (codes "[slow] y.vmdk");
      },
    )
    ∷ []

abbrev node_site : Site
node_site = record site { api = record (site.api) { find_by_dns_name = λ dc name. ok (some 7) } }

abbrev context : Map Text
context =
    (codes "type", codes "First Class Disk")
    ∷ (codes "vcenter", codes "vc1")
    ∷ (codes "datacenter", codes "b")
    ∷ (codes "name", codes "n")
    ∷ (codes "parent_type", codes "Datastore")
    ∷ (codes "parent_name", codes "slow")
    ∷ (codes "page83data", codes "6000c29a")
    ∷ []

abbrev with_y : List Device
with_y = two_devices ++ disk_with (codes "[slow] y.vmdk") 1000 1 ∷ []

y-published :
    controller_publish_volume
      (hosts pool_disk)
      node_site
      0
      one_vc
      rounds
      (codes "y")
      (codes "n1")
      two_devices
    ≡ (done context, with_y)
unfolding attaching looking_up discovering which_vc_and_dc_by_fcd_id controller_publish_volume
    get_vm_by_dns_name
y-published = refl

controller_publish_volume_sound_example :
    WasPublished
      (hosts pool_disk)
      node_site
      0
      one_vc
      rounds
      (codes "y")
      (codes "n1")
      two_devices
      with_y
      context
controller_publish_volume_sound_example =
    controller_publish_volume_sound (hosts pool_disk) node_site 0 one_vc rounds (codes "y")
      (codes "n1") two_devices with_y context y-published

y-unpublished :
    controller_unpublish_volume
      (hosts pool_disk)
      node_site
      0
      one_vc
      rounds
      (codes "y")
      (codes "n1")
      with_y
    ≡ (done tt, two_devices)
unfolding attaching looking_up discovering which_vc_and_dc_by_fcd_id controller_unpublish_volume
    get_vm_by_dns_name
y-unpublished = refl
