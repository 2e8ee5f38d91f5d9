-- ===== src/Mounts/Stage.antt =====
-- pkg/csi/service/node.go: NodeStageVolume and NodeUnstageVolume.
use cloud_provider_vsphere.Common.{
  ltb, length, Bool, true, false, Option, none, some, List, [], ◌∷◌, ◌++◌, Text, codes, is_empty,
  ◌==◌, Map, if◌then◌else◌,
}
use cloud_provider_vsphere.Mounts.{
  internal, already_exists, Answer, answered, refused, ◌>>=◌, Mount, System, Device, MountVolume,
  AccessMode, is_reader_only, or_code, get_disk_id, contains, ensure_mount_vol, mode_text,
  get_device, verify_volume_attached, verify_target_dir, get_dev_from_mount,
}

pub record StageRequest : Type 0 where
  pub volume_id : Text
  pub publish_context : Map Text
  pub staging_target : Text
  pub capability : Option MountVolume
  pub access_mode : AccessMode

-- What is known before the mount table is looked at.
pub record Ready : Type 0 where
  pub dev : Device
  pub volume : MountVolume
  pub mounts : List Mount

abbrev pub fs_or_default : Text → Text
fs_or_default fs = if is_empty fs then codes "ext4" else fs

-- A device that is mounted has to be mounted at the target, with the mode.
unfoldable pub staged_as : Text → Bool → List Mount → Answer (Unit {0})
unfolding contains
staged_as target ro [] = refused internal
staged_as target ro (m ∷ ms) =
    if m.path == target
    then (if contains m.opts (mode_text ro) then answered tt else refused already_exists)
    else staged_as target ro ms

module _ {S : Type 0} (system : System S) (api : Text) where
  unfoldable pub identify : StageRequest → S → Answer (Device × MountVolume)
  unfolding get_disk_id verify_volume_attached get_device verify_target_dir ensure_mount_vol
  identify req s = do
    id ← get_disk_id api req.volume_id req.publish_context
    path ← verify_volume_attached system id s
    dev ← or_code internal (get_device system path s)
    u ← verify_target_dir system req.staging_target s
    volume ← ensure_mount_vol req.capability
    answered (dev, volume)

  abbrev pub with_mounts : Device → MountVolume → Option (List Mount) → Answer Ready
  with_mounts dev volume none = refused internal
  with_mounts dev volume (some ms) = answered (record { dev = dev; volume = volume; mounts = ms })

  abbrev pub looked_up : Answer (Device × MountVolume) → S → Answer Ready
  looked_up (refused c) s = refused c
  looked_up (answered (dev, volume)) s =
      with_mounts dev volume (system.get_dev_mounts dev.real_dev s)

  unfoldable pub prepare : StageRequest → S → Answer Ready
  unfolding identify
  prepare req s = looked_up (identify req s) s

  abbrev pub on_mounted : Option (Unit {0}) × S → Answer (Unit {0}) × S
  on_mounted (none, s) = (refused internal, s)
  on_mounted (some u, s) = (answered tt, s)

  -- A device is not formatted for a reader.
  unfoldable pub mount_device : Device → Text → Text → List Text → Bool → S → Option (Unit {0}) × S
  mount_device dev target fs flags true s =
      system.mount dev.full_path target fs (flags ++ codes "ro" ∷ []) s
  mount_device dev target fs flags false s = system.format_and_mount dev.full_path target fs flags s

  abbrev pub stage_on : StageRequest → Device → MountVolume → List Mount → S → Answer (Unit {0}) × S
  stage_on req dev volume [] s = on_mounted (
      mount_device dev req.staging_target (fs_or_default volume.fs_type) volume.mount_flags
        (is_reader_only req.access_mode) s)
  stage_on req dev volume (m ∷ ms) s =
      (staged_as req.staging_target (is_reader_only req.access_mode) (m ∷ ms), s)

  abbrev pub stage_ready : StageRequest → Answer Ready → S → Answer (Unit {0}) × S
  stage_ready req (refused c) s = (refused c, s)
  stage_ready req (answered r) s = stage_on req r.dev r.volume r.mounts s

  -- `NodeStageVolume`
  unfoldable pub node_stage_volume : StageRequest → S → Answer (Unit {0}) × S
  unfolding prepare mount_device staged_as
  node_stage_volume req s = stage_ready req (prepare req s) s

  -- `NodeUnstageVolume`
  abbrev pub unstage_mounts : Text → Option (List Mount) → S → Answer (Unit {0}) × S
  unstage_mounts target none s = (refused internal, s)
  unstage_mounts target (some ms) s =
      if ltb 1 (length ms) then (refused internal, s) else on_mounted (system.unmount target s)

  abbrev pub unstage_dev : Text → Answer (Option Device) → S → Answer (Unit {0}) × S
  unstage_dev target (refused c) s = (refused c, s)
  unstage_dev target (answered none) s = (answered tt, s)
  unstage_dev target (answered (some dev)) s =
      unstage_mounts target (system.get_dev_mounts dev.real_dev s) s

  abbrev pub unstage_dir : Text → Answer (Unit {0}) → S → Answer (Unit {0}) × S
  unstage_dir target (refused c) s = (refused c, s)
  unstage_dir target (answered u) s = unstage_dev target (get_dev_from_mount system target s) s

  unfoldable pub node_unstage_volume : Text → S → Answer (Unit {0}) × S
  unfolding verify_target_dir get_dev_from_mount
  node_unstage_volume target s = unstage_dir target (verify_target_dir system target s) s
