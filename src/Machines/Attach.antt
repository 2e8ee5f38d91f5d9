-- ===== src/Machines/Attach.antt =====
-- pkg/common/vclib/virtualmachine.go: attaching and detaching a disk. The state of the vCenter is
-- a parameter, and so is what govmomi does with it.
use cloud_provider_vsphere.Common.{
  ℕ, zero, suc, Bool, true, false, not, ◌&&◌, leb, length, Option, none, some, List, [], ◌∷◌, ◌++◌,
  Text, codes, is_empty, ◌==◌, has_suffix, foreign, Outcome, ok, err, panic, ◌>>=◌, if◌then◌else◌,
}
use cloud_provider_vsphere.Inventory.{Datacenter, VirtualMachine}
use cloud_provider_vsphere.Disks.{Reference, DatastoreInfo, Vslm}
use cloud_provider_vsphere.Disks.Datacenters.{get_datastore_by_name}
use cloud_provider_vsphere.Machines.{
  Device, scsi_controller_limit, get_scsi_controllers_of_type, get_scsi_controllers,
  get_available_scsi_controller, get_next_unit_number, device_by_path, disk_format_valid_type,
  VolumeOptions, format_virtual_disk_uuid,
}
use cloud_provider_vsphere.Machines.Paths.{remove_storage_cluster_or_folder_name}

-- The provisioning of a disk, if the code sets it.
pub data Provisioning : Type 0 where
  as_is thin eager_scrub not_thin : Provisioning

-- The specification of a disk: what CreateDisk of govmomi makes, and what the code sets.
pub record DiskSpec : Type 0 where
  pub controller : Device
  pub datastore : Reference
  pub path : Text
  pub unit_number : ℕ
  pub capacity_in_kb : Option ℕ
  pub provisioning : Provisioning
  -- the identifier of the storage policy, if it is not empty
  pub profile : Text

-- The specification, and the controller that was created for it.
abbrev pub Created : Type 0
Created = DiskSpec × Option Device

pub record Hosts (S : Type 0) : Type 1 where
  pub device : VirtualMachine → S → Outcome (List Device)
  -- Reconfigure, and the wait for its task
  pub reconfigure : VirtualMachine → DiskSpec → S → Outcome ℕ × S
  pub wait : ℕ → S → Outcome (Unit {0}) × S
  pub create_scsi_controller : List Device → Text → Outcome Device
  pub add_device : VirtualMachine → Device → S → Outcome (Unit {0}) × S
  -- RemoveDevice, which keeps the files
  pub remove_device : VirtualMachine → Device → S → Outcome (Unit {0}) × S
  -- VirtualDeviceList.SelectByType
  pub select_by_type : Device → List Device → List Device
  pub query_virtual_disk_uuid : Datacenter → Text → S → Outcome Text
  pub profile_id_by_name : Text → S → Outcome Text
  -- object.DatastorePath: the name of the datastore of a path
  pub datastore_path : Text → Option Text
  pub inventory : S → Vslm

-- filepath.Ext(path) == ".vmdk", which holds exactly if the path ends so.
abbrev pub with_extension : Text → Text
with_extension path =
    if not (is_empty path) && not (has_suffix path (codes ".vmdk"))
    then path ++ codes ".vmdk"
    else path

abbrev pub last_device : Device → List Device → Device
last_device d [] = d
last_device d (e ∷ es) = last_device e es

abbrev pub provisioning_of : Text → Provisioning
provisioning_of format =
    if is_empty format
    then as_is
    else (if disk_format_valid_type format == codes "thin"
        then thin
        else (if disk_format_valid_type format == codes "eagerZeroedThick"
            then eager_scrub
            else not_thin))

abbrev pub capacity_of : ℕ → Option ℕ
capacity_of zero = none
capacity_of (suc n) = some (suc n)

module _ {S : Type 0} (hosts : Hosts S) (dc : Datacenter) where
  -- `GetVirtualDiskPage83Data`
  unfoldable pub get_virtual_disk_page83_data : Text → S → Outcome Text
  unfolding has_suffix format_virtual_disk_uuid
  get_virtual_disk_page83_data path s = do
    uuid ← hosts.query_virtual_disk_uuid dc (with_extension path) s
    ok (format_virtual_disk_uuid uuid)

  -- `GetDatastoreByPath`
  abbrev pub datastore_named : Option Text → S → Outcome DatastoreInfo
  datastore_named none s = err (foreign (codes "Failed to parse vmDiskPath"))
  datastore_named (some name) s = get_datastore_by_name (hosts.inventory s) dc name

  unfoldable pub get_datastore_by_path : Text → S → Outcome DatastoreInfo
  get_datastore_by_path path s = datastore_named (hosts.datastore_path path) s

  module _ (vm : VirtualMachine) where
    -- `getVirtualDeviceByPath` and `IsDiskAttached`
    unfoldable pub get_virtual_device_by_path : Text → S → Outcome (Option Device)
    unfolding device_by_path
    get_virtual_device_by_path path s = do
      devices ← hosts.device vm s
      ok (device_by_path devices path)

    unfoldable pub is_disk_attached : Text → S → Outcome Bool
    unfolding get_virtual_device_by_path
    is_disk_attached path s = do
      device ← get_virtual_device_by_path path s
      ok (elim device [ none ↦ false | some d ↦ true ])

    -- `deleteController`, whose callers drop its result
    abbrev pub delete_last : List Device → S → S
    delete_last [] s = s
    delete_last (d ∷ ds) s = (hosts.remove_device vm (last_device d ds) s).1

    unfoldable pub delete_controller : Device → List Device → S → S
    delete_controller c devices s = delete_last (hosts.select_by_type c devices) s

    -- `createAndAttachSCSIController`
    abbrev pub on_added : Device → List Device → Outcome (Unit {0}) × S → Outcome Device × S
    on_added c devices (ok u, s) = (ok c, s)
    on_added c devices (err e, s) = (err e, delete_controller c devices s)
    on_added c devices (panic, s) = (panic, s)

    abbrev pub on_new_controller : List Device → Outcome Device → S → Outcome Device × S
    on_new_controller devices (ok c) s = on_added c devices (hosts.add_device vm c s)
    on_new_controller devices (err e) s = (err e, s)
    on_new_controller devices panic s = (panic, s)

    abbrev pub within_limit : Text → Outcome (List Device) → S → Outcome Device × S
    within_limit type (ok devices) s =
        if leb scsi_controller_limit (length (get_scsi_controllers devices))
        then (err (foreign (codes "SCSI Controller Limit has been reached")), s)
        else on_new_controller devices (hosts.create_scsi_controller devices type) s
    within_limit type (err e) s = (err e, s)
    within_limit type panic s = (panic, s)

    unfoldable pub create_and_attach_scsi_controller : Text → S → Outcome Device × S
    unfolding get_scsi_controllers delete_controller
    create_and_attach_scsi_controller type s = within_limit type (hosts.device vm s) s

    abbrev pub spec_on :
        List Device → Text → Reference → VolumeOptions → Option Device → Device → Outcome Created
    spec_on devices path ds options created c = do
      unit ← get_next_unit_number devices c.key
      ok (
        record {
          controller = c;
          datastore = ds;
          path = path;
          unit_number = unit;
          capacity_in_kb = capacity_of options.capacity_kb;
          provisioning = provisioning_of options.disk_format;
          profile = [];
        },
        created,
      )

    abbrev pub on_available :
        List Device
        → List Device
        → Text
        → Reference
        → VolumeOptions
        → Device
        → Option Device
        → S
        → Outcome Created × S
    on_available devices now path ds options created (some c) s =
        (spec_on devices path ds options (some created) c, s)
    on_available devices now path ds options created none s = (
      err (foreign (codes "Cannot find SCSI controller of type")),
      delete_controller created now s,
    )

    abbrev pub look_again :
        List Device
        → Text
        → Reference
        → VolumeOptions
        → Device
        → Outcome (List Device)
        → S
        → Outcome Created × S
    look_again devices path ds options created (ok now) s =
        on_available devices now path ds options created
          (get_available_scsi_controller
            (get_scsi_controllers_of_type now options.scsi_controller_type))
          s
    look_again devices path ds options created (err e) s = (err e, s)
    look_again devices path ds options created panic s = (panic, s)

    abbrev pub with_new :
        List Device → Text → Reference → VolumeOptions → Outcome Device × S → Outcome Created × S
    with_new devices path ds options (ok created, s) =
        look_again devices path ds options created (hosts.device vm s) s
    with_new devices path ds options (err e, s) = (err e, s)
    with_new devices path ds options (panic, s) = (panic, s)

    abbrev pub on_controller :
        List Device → Text → Reference → VolumeOptions → Option Device → S → Outcome Created × S
    on_controller devices path ds options (some c) s = (spec_on devices path ds options none c, s)
    on_controller devices path ds options none s =
        with_new devices path ds options
          (create_and_attach_scsi_controller options.scsi_controller_type s)

    abbrev pub on_devices :
        Text → Reference → VolumeOptions → Outcome (List Device) → S → Outcome Created × S
    on_devices path ds options (ok devices) s =
        on_controller devices path ds options
          (get_available_scsi_controller
            (get_scsi_controllers_of_type devices options.scsi_controller_type))
          s
    on_devices path ds options (err e) s = (err e, s)
    on_devices path ds options panic s = (panic, s)

    -- `CreateDiskSpec`
    unfoldable pub create_disk_spec : Text → Reference → VolumeOptions → S → Outcome Created × S
    unfolding create_and_attach_scsi_controller get_available_scsi_controller
        get_scsi_controllers_of_type get_next_unit_number disk_format_valid_type delete_controller
    create_disk_spec path ds options s = on_devices path ds options (hosts.device vm s) s

    -- `DetachDisk`
    abbrev pub detach_found : Outcome (Option Device) → S → Outcome (Unit {0}) × S
    detach_found (ok none) s = (ok tt, s)
    detach_found (ok (some d)) s = hosts.remove_device vm d s
    detach_found (err e) s = (err e, s)
    detach_found panic s = (panic, s)

    abbrev pub detach_at : Outcome Text → S → Outcome (Unit {0}) × S
    detach_at (ok path) s = detach_found (get_virtual_device_by_path path s) s
    detach_at (err e) s = (err e, s)
    detach_at panic s = (panic, s)

    unfoldable pub detach_disk : Text → S → Outcome (Unit {0}) × S
    unfolding get_virtual_device_by_path remove_storage_cluster_or_folder_name
    detach_disk path s = detach_at (remove_storage_cluster_or_folder_name path) s
