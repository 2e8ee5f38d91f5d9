-- ===== src/Machines/Tests.antt =====
-- A machine with one SCSI controller, to which a disk is attached.
use cloud_provider_vsphere.Common.{
  ℕ, ◌&&◌, ◌+◌, ◌≡◌, refl, true, false, none, some, List, [], ◌∷◌, ◌++◌, Text, codes, ◌==◌,
  to_lower, split, strip_prefix, has_suffix, foreign, ok, err, arith,
}
use cloud_provider_vsphere.Disks.Datacenters.{get_datastore_by_name}
use cloud_provider_vsphere.Disks.Samples.{Disks, vslm}
use cloud_provider_vsphere.Discovery.Tests.{dc_b}
use cloud_provider_vsphere.Machines.{
  Device, VolumeOptions, get_scsi_controllers_of_type, get_scsi_controllers,
  get_available_scsi_controller, get_next_unit_number, match_virtual_disk_and_vol_path,
  device_by_path, check_controller_supported, disk_format_valid_type, check_disk_format_supported,
  verify_volume_options, format_virtual_disk_uuid,
}
use cloud_provider_vsphere.Machines.Units.{IsLeastFree, get_next_unit_number_lem}
use cloud_provider_vsphere.Machines.Paths.{base, remove_storage_cluster_or_folder_name}
use cloud_provider_vsphere.Machines.Attach.{
  Hosts, get_virtual_disk_page83_data, get_datastore_by_path, get_virtual_device_by_path,
  is_disk_attached, delete_controller, create_and_attach_scsi_controller, create_disk_spec,
  detach_disk,
}
use cloud_provider_vsphere.Machines.Marks.{
  NodeVolumeMap, verify_volume_paths_for_vm, verify_volume_paths_for_vm_devices,
}
use cloud_provider_vsphere.Machines.SameMarks.{
  mark_of, marked_if, is_among, has_disk, verify_volume_paths_for_vm_devices-mark_of,
}
use cloud_provider_vsphere.Machines.Attached.{attach_disk, attach_disk-again}

unfoldable pub attaching : Unit {0}
unfolding get_scsi_controllers_of_type get_scsi_controllers get_available_scsi_controller
    get_next_unit_number match_virtual_disk_and_vol_path device_by_path check_controller_supported
    disk_format_valid_type check_disk_format_supported verify_volume_options
    format_virtual_disk_uuid base remove_storage_cluster_or_folder_name get_virtual_disk_page83_data
    get_datastore_by_path get_virtual_device_by_path is_disk_attached delete_controller
    create_and_attach_scsi_controller create_disk_spec detach_disk attach_disk get_datastore_by_name
    ◌==◌ to_lower split strip_prefix has_suffix
attaching = tt

abbrev controller : Device
controller = record {
  type_name = codes "ParaVirtualSCSIController";
  type = codes "pvscsi";
  key = 1000;
  controller_key = 100;
  unit_number = none;
  file_name = none;
  controlled = some (2000 ∷ []);
}

abbrev pub disk_with : Text → ℕ → ℕ → Device
disk_with file controller_key unit = record {
  type_name = codes "VirtualDisk";
  type = codes "disk";
  key = 2000 + unit;
  controller_key = controller_key;
  unit_number = some unit;
  file_name = some file;
  controlled = none;
}

abbrev pub two_devices : List Device
two_devices = controller ∷ disk_with (codes "[fast] os.vmdk") 1000 0 ∷ []

abbrev pub hosts : Disks → Hosts (List Device)
hosts disks = record {
  device = λ vm s. ok s;
  reconfigure =
      λ vm spec s. (ok 1, s ++ disk_with spec.path spec.controller.key spec.unit_number ∷ []);
  wait = λ task s. (ok tt, s);
  create_scsi_controller = λ devices type. err (foreign []);
  add_device = λ vm d s. (ok tt, s ++ d ∷ []);
  remove_device = λ vm d s. (ok tt, two_devices);
  select_by_type = λ d devices. d ∷ [];
  query_virtual_disk_uuid = λ dc path s. ok (codes "60 00-C2 9A");
  profile_id_by_name = λ name s. err (foreign []);
  datastore_path = λ path. some (codes "fast");
  inventory = λ s. vslm true disks;
}

abbrev pub options : VolumeOptions
options = record {
  capacity_kb = 0;
  disk_format = [];
  storage_policy_name = [];
  storage_policy_id = [];
  scsi_controller_type = codes "pvscsi";
}

unit-one : get_next_unit_number two_devices 1000 ≡ ok 1
unfolding attaching
unit-one = refl

get_next_unit_number_lem_example : IsLeastFree 1000 two_devices (ok 1)
get_next_unit_number_lem_example =
    get_next_unit_number_lem 1000 two_devices (ok 1) unit-one (λ e. absurd (ground arith))

abbrev three_devices : List Device
three_devices = two_devices ++ disk_with (codes "[fast] d/x.vmdk") 1000 1 ∷ []

path-kept :
    remove_storage_cluster_or_folder_name (codes "[pool/fast] d/x.vmdk")
    ≡ ok (codes "[fast] d/x.vmdk")
unfolding attaching
path-kept = refl

x-attached :
    attach_disk (hosts []) dc_b 7 (codes "[pool/fast] d/x.vmdk") options two_devices
    ≡ (ok (codes "6000c29a"), three_devices)
unfolding attaching
x-attached = refl

x-is_attached : is_disk_attached (hosts []) dc_b 7 (codes "[fast] d/x.vmdk") three_devices ≡ ok true
unfolding attaching
x-is_attached = refl

attach_disk-again_example :
    attach_disk (hosts []) dc_b 7 (codes "[pool/fast] d/x.vmdk") options three_devices
    ≡ (ok (codes "6000c29a"), three_devices)
attach_disk-again_example =
    attach_disk-again (hosts []) dc_b 7 (codes "[pool/fast] d/x.vmdk") (codes "[fast] d/x.vmdk")
      options (codes "6000c29a") two_devices three_devices path-kept x-attached x-is_attached

detached : detach_disk (hosts []) dc_b 7 (codes "[fast] d/x") three_devices ≡ (ok tt, two_devices)
unfolding attaching
detached = refl

abbrev asked : List Text
asked = codes "[fast] os.vmdk" ∷ codes "[fast] y.vmdk" ∷ []

abbrev unmarked : NodeVolumeMap
unmarked = (codes "n", (codes "[fast] os.vmdk", false) ∷ (codes "[fast] y.vmdk", false) ∷ []) ∷ []

verify_volume_paths_for_vm_devices-mark_of_example :
    (mark_of
        (verify_volume_paths_for_vm_devices two_devices asked (codes "n") unmarked)
        (codes "n")
        (codes "[fast] os.vmdk")
      ≡ mark_of
          (verify_volume_paths_for_vm two_devices asked (codes "n") unmarked)
          (codes "n")
          (codes "[fast] os.vmdk"))
    × (mark_of
          (verify_volume_paths_for_vm two_devices asked (codes "n") unmarked)
          (codes "n")
          (codes "[fast] os.vmdk")
        ≡ marked_if
            ((codes "n" == codes "n")
              && (is_among (codes "[fast] os.vmdk") asked
                  && has_disk two_devices (codes "[fast] os.vmdk")))
            (mark_of unmarked (codes "n") (codes "[fast] os.vmdk")))
verify_volume_paths_for_vm_devices-mark_of_example =
    verify_volume_paths_for_vm_devices-mark_of two_devices asked (codes "n") unmarked (codes "n")
      (codes "[fast] os.vmdk")
