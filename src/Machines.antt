-- ===== src/Machines.antt =====
-- pkg/common/vclib: the devices of a virtual machine, as virtualmachine.go, utils.go and
-- volumeoptions.go read them. The lists of devices come from govmomi.
pub mod Slots
pub mod Units
pub mod Paths
pub mod Attach
pub mod Attached
pub mod Marks
pub mod SameMarks
pub mod Tests
use cloud_provider_vsphere.Common.{
  ℕ, zero, suc, Bool, true, false, not, ◌&&◌, ◌||◌, nat_eq, ltb, leb, length, set, replicate,
  Option, none, some, List, [], ◌∷◌, ◌++◌, Text, codes, is_empty, ◌==◌, has_suffix, to_lower, Map,
  lookup, Error, foreign, Outcome, ok, err, panic, ◌>>=◌, if◌then◌else◌,
}

-- A device: what object.VirtualDeviceList tells of it, and the parts that the code reads.
pub record Device : Type 0 where
  -- TypeName and Type of the list
  pub type_name : Text
  pub type : Text
  pub key : ℕ
  pub controller_key : ℕ
  -- UnitNumber, which may be nil, and which a vCenter does not make negative
  pub unit_number : Option ℕ
  -- the file of a flat backing
  pub file_name : Option Text
  -- the keys of the devices of a controller
  pub controlled : Option (List ℕ)

abbrev pub scsi_controller_limit : ℕ
scsi_controller_limit = 4

abbrev pub scsi_controller_device_limit : ℕ
scsi_controller_device_limit = 15

abbrev pub scsi_device_slots : ℕ
scsi_device_slots = 16

abbrev pub scsi_reserved_slot : ℕ
scsi_reserved_slot = 7

abbrev pub is_controller : Device → Bool
is_controller d = elim d.controlled [ none ↦ false | some keys ↦ true ]

-- `getSCSIControllersOfType` and `getSCSIControllers`
unfoldable pub get_scsi_controllers_of_type : List Device → Text → List Device
get_scsi_controllers_of_type [] scsi_type = []
get_scsi_controllers_of_type (d ∷ ds) scsi_type =
    let rest = get_scsi_controllers_of_type ds scsi_type in
    if (d.type == scsi_type) && is_controller d then d ∷ rest else rest

abbrev pub is_scsi_type : Text → Bool
is_scsi_type t =
    (t == codes "scsi")
    || (t == to_lower (codes "lsiLogic"))
    || (t == to_lower (codes "busLogic"))
    || (t == codes "pvscsi")
    || (t == to_lower (codes "lsiLogic-sas"))

unfoldable pub get_scsi_controllers : List Device → List Device
unfolding to_lower
get_scsi_controllers [] = []
get_scsi_controllers (d ∷ ds) =
    let rest = get_scsi_controllers ds in
    if is_scsi_type d.type && is_controller d then d ∷ rest else rest

-- The number of devices of a controller.
abbrev pub device_count : Device → ℕ
device_count d = elim d.controlled [ none ↦ 0 | some keys ↦ length keys ]

-- `getAvailableSCSIController`
unfoldable pub get_available_scsi_controller : List Device → Option Device
get_available_scsi_controller [] = none
get_available_scsi_controller (c ∷ cs) =
    if ltb (device_count c) scsi_controller_device_limit
    then some c
    else get_available_scsi_controller cs

-- A write to the array of the units that are taken: a unit outside it panics.
abbrev pub take_unit : Option ℕ → List Bool → Outcome (List Bool)
take_unit none taken = ok taken
take_unit (some u) taken = if ltb u (length taken) then ok (set taken u true) else panic

abbrev pub take_of : ℕ → Device → List Bool → Outcome (List Bool)
take_of key d taken =
    if nat_eq d.controller_key key then take_unit d.unit_number taken else ok taken

abbrev pub take_all : ℕ → List Device → List Bool → Outcome (List Bool)
take_all key [] taken = ok taken
take_all key (d ∷ ds) taken = take_of key d taken >>= (λ t. take_all key ds t)

abbrev pub next_index : Option ℕ → Option ℕ
next_index none = none
next_index (some n) = some (suc n)

-- The first unit that is not taken.
abbrev pub first_free : List Bool → Option ℕ
first_free [] = none
first_free (b ∷ bs) = if b then next_index (first_free bs) else some 0

abbrev pub unit_or_full : Option ℕ → Outcome ℕ
unit_or_full (some n) = ok n
unit_or_full none = err (foreign (codes "SCSI Controller does not have any available slots"))

abbrev pub no_units : List Bool
no_units = set (replicate scsi_device_slots false) scsi_reserved_slot true

-- `getNextUnitNumber`, for the key of the controller.
unfoldable pub get_next_unit_number : List Device → ℕ → Outcome ℕ
get_next_unit_number devices key =
    take_all key devices no_units >>= (λ taken. unit_or_full (first_free taken))

-- strings.TrimSuffix
abbrev pub trim_suffix : Text → Text → Text
trim_suffix [] suffix = []
trim_suffix (c ∷ s) suffix =
    let rest = trim_suffix s suffix in if (c ∷ s) == suffix then [] else c ∷ rest

-- `matchVirtualDiskAndVolPath`
unfoldable pub match_virtual_disk_and_vol_path : Text → Text → Bool
unfolding ◌==◌
match_virtual_disk_and_vol_path disk_path vol_path =
    trim_suffix disk_path (codes ".vmdk") == trim_suffix vol_path (codes ".vmdk")

abbrev pub has_file : Text → Option Text → Bool
has_file path none = false
has_file path (some name) = match_virtual_disk_and_vol_path name path

-- The loop of `getVirtualDeviceByPath`
unfoldable pub device_by_path : List Device → Text → Option Device
unfolding match_virtual_disk_and_vol_path
device_by_path [] path = none
device_by_path (d ∷ ds) path =
    if (d.type_name == codes "VirtualDisk") && has_file path d.file_name
    then some d
    else device_by_path ds path

-- `CheckControllerSupported`, `CheckDiskFormatSupported` and `VerifyVolumeOptions`
unfoldable pub check_controller_supported : Text → Bool
check_controller_supported ctrl_type =
    (ctrl_type == codes "lsiLogic")
    || (ctrl_type == codes "lsiLogic-sas")
    || (ctrl_type == codes "pvscsi")

unfoldable pub disk_format_valid_type : Text → Text
disk_format_valid_type format =
    if format == codes "thin"
    then codes "thin"
    else (if format == codes "eagerzeroedthick"
        then codes "eagerZeroedThick"
        else (if format == codes "zeroedthick" then codes "preallocated" else []))

unfoldable pub check_disk_format_supported : Text → Bool
unfolding disk_format_valid_type
check_disk_format_supported format = not (is_empty (disk_format_valid_type format))

pub record VolumeOptions : Type 0 where
  pub capacity_kb : ℕ
  pub disk_format : Text
  pub storage_policy_name : Text
  pub storage_policy_id : Text
  pub scsi_controller_type : Text

unfoldable pub verify_volume_options : VolumeOptions → Bool
unfolding check_controller_supported check_disk_format_supported
verify_volume_options o =
    (is_empty o.scsi_controller_type || check_controller_supported o.scsi_controller_type)
    && ((o.disk_format == codes "thin") || check_disk_format_supported o.disk_format)

-- strings.Replace of a byte by nothing.
abbrev pub without_byte : ℕ → Text → Text
without_byte b [] = []
without_byte b (c ∷ s) = let rest = without_byte b s in if nat_eq c b then rest else c ∷ rest

-- `formatVirtualDiskUUID`
unfoldable pub format_virtual_disk_uuid : Text → Text
unfolding to_lower
format_virtual_disk_uuid uuid = to_lower (without_byte b'-' (without_byte b' ' uuid))
