-- ===== src/Mounts/Publish.antt =====
-- pkg/csi/service/node.go: NodePublishVolume and NodeUnpublishVolume.
use cloud_provider_vsphere.Common.{
  Bool, ◌&&◌, ◌||◌, Option, none, some, List, [], ◌∷◌, ◌++◌, Text, codes, ◌==◌, Map, if◌then◌else◌,
}
use cloud_provider_vsphere.Mounts.{
  internal, failed_precondition, already_exists, Answer, answered, refused, ◌>>=◌, Stat, missing,
  unreadable, found, Mount, System, Device, MountVolume, or_code, get_disk_id, contains,
  ensure_mount_vol, mode_text, get_device, verify_volume_attached, verify_target_dir, make_dir,
  get_dev_mounts, get_dev_from_mount,
}
use cloud_provider_vsphere.Mounts.Stage.{on_mounted}

pub record PublishRequest : Type 0 where
  pub volume_id : Text
  pub publish_context : Map Text
  pub target : Text
  pub staging_target : Text
  pub capability : Option MountVolume
  pub readonly : Bool

-- The first mount at the target, and whether it has the mode.
abbrev pub published_as : Text → Bool → List Mount → Option (Answer (Unit {0}))
published_as target ro [] = none
published_as target ro (m ∷ ms) =
    if m.path == target
    then some (if contains m.opts (mode_text ro) then answered tt else refused already_exists)
    else published_as target ro ms

abbrev pub with_mode : Bool → List Text → List Text
with_mode ro flags = if ro then flags ++ codes "ro" ∷ [] else flags

module _ {S : Type 0} (system : System S) (api : Text) where
  abbrev pub bind_to : PublishRequest → MountVolume → S → Answer (Unit {0}) × S
  bind_to req volume s = on_mounted system api (
      system.bind_mount req.staging_target req.target (with_mode req.readonly volume.mount_flags) s)

  abbrev pub or_bind :
      PublishRequest → MountVolume → Option (Answer (Unit {0})) → S → Answer (Unit {0}) × S
  or_bind req volume (some a) s = (a, s)
  or_bind req volume none s = bind_to req volume s

  -- The device has to be staged; if it has more mounts, it may be published already.
  abbrev pub publish_mounts : PublishRequest → MountVolume → List Mount → S → Answer (Unit {0}) × S
  publish_mounts req volume [] s = (refused failed_precondition, s)
  publish_mounts req volume (m ∷ []) s = bind_to req volume s
  publish_mounts req volume (m ∷ n ∷ ms) s =
      or_bind req volume (published_as req.target req.readonly (m ∷ n ∷ ms)) s

  -- What is read after the target was made.
  unfoldable pub staged : PublishRequest → Text → S → Answer (MountVolume × List Mount)
  unfolding verify_target_dir ensure_mount_vol get_device get_dev_mounts
  staged req path s = do
    u ← verify_target_dir system req.staging_target s
    volume ← ensure_mount_vol req.capability
    dev ← or_code internal (get_device system path s)
    mounts ← or_code internal (get_dev_mounts system dev s)
    answered (volume, mounts)

  abbrev pub publish_staged :
      PublishRequest → Answer (MountVolume × List Mount) → S → Answer (Unit {0}) × S
  publish_staged req (refused c) s = (refused c, s)
  publish_staged req (answered (volume, mounts)) s = publish_mounts req volume mounts s

  abbrev pub on_made : PublishRequest → Text → Option (Unit {0}) × S → Answer (Unit {0}) × S
  on_made req path (none, s) = (refused internal, s)
  on_made req path (some u, s) = publish_staged req (staged req path s) s

  abbrev pub publish_at : PublishRequest → Answer Text → S → Answer (Unit {0}) × S
  publish_at req (refused c) s = (refused c, s)
  publish_at req (answered path) s = on_made req path (make_dir system req.target s)

  unfoldable pub attached_path : PublishRequest → S → Answer Text
  unfolding get_disk_id verify_volume_attached
  attached_path req s = do
    id ← get_disk_id api req.volume_id req.publish_context
    verify_volume_attached system id s

  -- `NodePublishVolume`
  unfoldable pub node_publish_volume : PublishRequest → S → Answer (Unit {0}) × S
  unfolding attached_path make_dir staged contains
  node_publish_volume req s = publish_at req (attached_path req s) s

  -- The loop of `NodeUnpublishVolume`: a mount of the device at the target is unmounted, and the
  -- directory is removed.
  abbrev pub on_removed :
      Option (Unit {0}) × S → (S → Answer (Unit {0}) × S) → Answer (Unit {0}) × S
  on_removed (none, s) further = (refused internal, s)
  on_removed (some u, s) further = further s

  abbrev pub is_mount_of : Device → Text → Mount → Bool
  is_mount_of dev target m =
      ((m.source == dev.real_dev) || (m.device == dev.real_dev)) && (m.path == target)

  unfoldable pub unmount_all : Device → Text → List Mount → S → Answer (Unit {0}) × S
  unmount_all dev target [] s = (answered tt, s)
  unmount_all dev target (m ∷ ms) s =
      let further = λ (s' : S). unmount_all dev target ms s' in
      if is_mount_of dev target m
      then on_removed (system.unmount target s) (λ s'. on_removed (system.remove target s') further)
      else further s

  abbrev pub unpublish_mounts : Device → Text → Option (List Mount) → S → Answer (Unit {0}) × S
  unpublish_mounts dev target none s = (refused internal, s)
  unpublish_mounts dev target (some ms) s = unmount_all dev target ms s

  abbrev pub unpublish_dev : Text → Answer (Option Device) → S → Answer (Unit {0}) × S
  unpublish_dev target (refused c) s = (refused c, s)
  unpublish_dev target (answered none) s = (answered tt, s)
  unpublish_dev target (answered (some dev)) s = unpublish_mounts dev target (system.get_mounts s) s

  abbrev pub unpublish_stat : Text → Stat → S → Answer (Unit {0}) × S
  unpublish_stat target missing s = (answered tt, s)
  unpublish_stat target unreadable s = (refused internal, s)
  unpublish_stat target (found is_dir is_device) s =
      unpublish_dev target (get_dev_from_mount system target s) s

  -- `NodeUnpublishVolume`
  unfoldable pub node_unpublish_volume : Text → S → Answer (Unit {0}) × S
  unfolding get_dev_from_mount unmount_all
  node_unpublish_volume target s = unpublish_stat target (system.stat target s) s
