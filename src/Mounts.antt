-- ===== src/Mounts.antt =====
-- pkg/csi/service/node.go: the helpers of the node service. The operating system and gofsutil are
-- not under src/: a value of `System` gives their answers in a state, of a type that is a
-- parameter, and what their calls change.
pub mod Stage
pub mod Publish
pub mod Staged
pub mod Options
pub mod Identified
pub mod Table
pub mod Published
mod Tests
use cloud_provider_vsphere.Common.{
  Bool, true, false, ◌&&◌, ◌||◌, Option, none, some, List, [], ◌∷◌, ◌++◌, Text, codes, is_empty,
  ◌==◌, Map, lookup, if◌then◌else◌,
}

-- The status codes of an answer.
pub data Code : Type 0 where
  invalid_argument failed_precondition internal not_found already_exists : Code

pub data Answer {ℓ} (A : Type ℓ) : Type ℓ where
  answered : A → Answer A
  refused : Code → Answer A

infixl 5 ◌>>=◌
abbrev pub ◌>>=◌ {ℓ κ} : {A : Type ℓ} {B : Type κ} → Answer A → (A → Answer B) → Answer B
answered a >>= f = f a
refused c >>= f = refused c

-- What os.Stat tells of a path.
pub data Stat : Type 0 where
  missing unreadable : Stat
  found : Bool → Bool → Stat

-- gofsutil.Info
pub record Mount : Type 0 where
  pub device : Text
  pub path : Text
  pub source : Text
  pub opts : List Text

pub record System (S : Type 0) : Type 0 where
  -- the name that os.Lstat tells, filepath.EvalSymlinks, os.Stat
  pub lstat : Text → S → Option Text
  pub eval_symlinks : Text → S → Option Text
  pub stat : Text → S → Stat
  -- the names in /dev/disk/by-id
  pub read_dir : S → Option (List Text)
  pub get_mounts : S → Option (List Mount)
  pub get_dev_mounts : Text → S → Option (List Mount)
  -- gofsutil.Mount and FormatAndMount of a device at a target, BindMount and Unmount
  pub mount : Text → Text → Text → List Text → S → Option (Unit {0}) × S
  pub format_and_mount : Text → Text → Text → List Text → S → Option (Unit {0}) × S
  pub bind_mount : Text → Text → List Text → S → Option (Unit {0}) × S
  pub unmount : Text → S → Option (Unit {0}) × S
  -- os.Mkdir and os.Remove
  pub mkdir : Text → S → Option (Unit {0}) × S
  pub remove : Text → S → Option (Unit {0}) × S

pub record Device : Type 0 where
  pub full_path : Text
  pub name : Text
  pub real_dev : Text

-- The volume of a capability of the kind that is mounted.
pub record MountVolume : Type 0 where
  pub fs_type : Text
  pub mount_flags : List Text

pub data AccessMode : Type 0 where
  single_node_reader_only multi_node_reader_only other_mode : AccessMode

abbrev pub is_reader_only : AccessMode → Bool
is_reader_only single_node_reader_only = true
is_reader_only multi_node_reader_only = true
is_reader_only other_mode = false

-- An error of a call gives a code.
abbrev pub or_code {ℓ} : {A : Type ℓ} → Code → Option A → Answer A
or_code c none = refused c
or_code c (some a) = answered a

-- `getDiskID`, for the API of the service.
abbrev pub page83_of : Option Text → Answer Text
page83_of none = refused invalid_argument
page83_of (some id) = answered id

unfoldable pub get_disk_id : Text → Text → Map Text → Answer Text
unfolding lookup
get_disk_id api vol_id pub_ctx =
    if is_empty vol_id
    then refused invalid_argument
    else (if api == codes "FCD"
        then page83_of (lookup (codes "page83data") pub_ctx)
        else answered vol_id)

-- `contains`
unfoldable pub contains : List Text → Text → Bool
contains [] item = false
contains (x ∷ xs) item = (x == item) || contains xs item

abbrev pub block_prefix : Text
block_prefix = codes "wwn-0x"

-- `ensureMountVol`
unfoldable pub ensure_mount_vol : Option MountVolume → Answer MountVolume
ensure_mount_vol none = refused invalid_argument
ensure_mount_vol (some v) = answered v

abbrev pub mode_text : Bool → Text
mode_text ro = if ro then codes "ro" else codes "rw"

module _ {S : Type 0} (system : System S) where
  -- `getDevice`
  abbrev pub device_at : Text → Text → Text → Stat → Option Device
  device_at path name real (found is_dir is_device) =
      if is_device then some (record { full_path = path; name = name; real_dev = real }) else none
  device_at path name real _ = none

  abbrev pub device_named : Text → Option Text → Option Text → S → Option Device
  device_named path (some name) (some real) s = device_at path name real (system.stat real s)
  device_named path _ _ s = none

  unfoldable pub get_device : Text → S → Option Device
  get_device path s = device_named path (system.lstat path s) (system.eval_symlinks path s) s

  -- `getDiskPath` and `verifyVolumeAttached`
  abbrev pub path_of : Text → List Text → Answer Text
  path_of id names =
      if contains names (block_prefix ++ id)
      then answered (codes "/dev/disk/by-id/" ++ block_prefix ++ id)
      else refused not_found

  unfoldable pub verify_volume_attached : Text → S → Answer Text
  unfolding contains
  verify_volume_attached disk_id s = do
    names ← or_code internal (system.read_dir s)
    path_of disk_id names

  -- `verifyTargetDir`
  abbrev pub dir_of : Stat → Answer (Unit {0})
  dir_of missing = refused failed_precondition
  dir_of unreadable = refused internal
  dir_of (found is_dir is_device) = if is_dir then answered tt else refused failed_precondition

  unfoldable pub verify_target_dir : Text → S → Answer (Unit {0})
  verify_target_dir target s =
      if is_empty target then refused invalid_argument else dir_of (system.stat target s)

  -- `mkdir`, which fails with `none`
  abbrev pub made : Text → Stat → S → Option (Unit {0}) × S
  made path missing s = system.mkdir path s
  made path unreadable s = (none, s)
  made path (found is_dir is_device) s = (if is_dir then some tt else none, s)

  unfoldable pub make_dir : Text → S → Option (Unit {0}) × S
  make_dir path s = made path (system.stat path s) s

  -- `getDevMounts`
  abbrev pub mounts_of : Device → List Mount → List Mount
  mounts_of dev [] = []
  mounts_of dev (m ∷ ms) =
      let rest = mounts_of dev ms in
      if (m.device == dev.real_dev)
        || ((m.device == codes "devtmpfs") && (m.source == dev.real_dev))
      then m ∷ rest
      else rest

  abbrev pub mounts_read : Device → Option (List Mount) → Option (List Mount)
  mounts_read dev none = none
  mounts_read dev (some ms) = some (mounts_of dev ms)

  unfoldable pub get_dev_mounts : Device → S → Option (List Mount)
  get_dev_mounts dev s = mounts_read dev (system.get_mounts s)

  -- `getDevFromMount`: an error, no device, or a device.
  abbrev pub dev_read : Option Device → Answer (Option Device)
  dev_read none = refused internal
  dev_read (some d) = answered (some d)

  abbrev pub mounted_at : Text → List Mount → S → Answer (Option Device)
  mounted_at target [] s = answered none
  mounted_at target (m ∷ ms) s =
      if m.path == target then dev_read (get_device m.device s) else mounted_at target ms s

  unfoldable pub get_dev_from_mount : Text → S → Answer (Option Device)
  unfolding get_device
  get_dev_from_mount target s = do
    ms ← or_code internal (system.get_mounts s)
    mounted_at target ms s
