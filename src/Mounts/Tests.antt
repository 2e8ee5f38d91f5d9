-- ===== src/Mounts/Tests.antt =====
-- A node with one disk, whose mount table is the state.
use cloud_provider_vsphere.Common.{
  ◌≡◌, refl, true, false, some, List, [], ◌∷◌, Text, codes, ◌==◌, lookup, Map, if◌then◌else◌,
}
use cloud_provider_vsphere.Mounts.{
  answered, refused, failed_precondition, found, Mount, System, MountVolume, other_mode,
  get_disk_id, contains, ensure_mount_vol, get_device, verify_volume_attached, verify_target_dir,
  make_dir, get_dev_mounts, get_dev_from_mount,
}
use cloud_provider_vsphere.Mounts.Stage.{
  StageRequest, staged_as, identify, prepare, mount_device, node_stage_volume, node_unstage_volume,
}
use cloud_provider_vsphere.Mounts.Publish.{
  PublishRequest, staged, attached_path, unmount_all, node_publish_volume, node_unpublish_volume,
}
use cloud_provider_vsphere.Mounts.Published.{IsPublished, node_publish_volume-IsPublished}

abbrev Table : Type 0
Table = List Mount

abbrev mount_with : Text → List Text → Mount
mount_with target opts = record {
  device = codes "/dev/sdb";
  path = target;
  source = codes "/dev/sdb";
  opts = opts;
}

abbrev without : Text → Table → Table
without target [] = []
without target (m ∷ ms) = if m.path == target then ms else m ∷ without target ms

-- The options in the table: the mode is first.
unfoldable with_mode_of : List Text → List Text
unfolding contains ◌==◌
with_mode_of opts = (if contains opts (codes "ro") then codes "ro" else codes "rw") ∷ opts

mounting : Unit {0}
unfolding with_mode_of get_disk_id contains ensure_mount_vol get_device verify_volume_attached
    verify_target_dir make_dir get_dev_mounts get_dev_from_mount staged_as identify prepare
    mount_device node_stage_volume node_unstage_volume staged attached_path unmount_all
    node_publish_volume node_unpublish_volume lookup ◌==◌
mounting = tt

abbrev node : System Table
node = record {
  lstat = λ path s. some (codes "disk");
  eval_symlinks = λ path s. some (codes "/dev/sdb");
  stat = λ path s. found true true;
  read_dir = λ s. some (codes "wwn-0x60" ∷ []);
  get_mounts = λ s. some s;
  get_dev_mounts = λ real s. some s;
  mount = λ full target fs opts s. (some tt, mount_with target (with_mode_of opts) ∷ s);
  format_and_mount = λ full target fs opts s. (some tt, mount_with target (with_mode_of opts) ∷ s);
  bind_mount = λ source target opts s. (some tt, mount_with target (codes "rw" ∷ opts) ∷ s);
  unmount = λ target s. (some tt, without target s);
  mkdir = λ path s. (some tt, s);
  remove = λ path s. (some tt, s);
}

abbrev context : Map Text
context = (codes "page83data", codes "60") ∷ []

abbrev volume : MountVolume
volume = record { fs_type = []; mount_flags = [] }

abbrev stage_request : StageRequest
stage_request = record {
  volume_id = codes "v";
  publish_context = context;
  staging_target = codes "/s";
  capability = some volume;
  access_mode = other_mode;
}

abbrev staged_table : Table
staged_table = mount_with (codes "/s") (codes "rw" ∷ []) ∷ []

abbrev publish_request : PublishRequest
publish_request = record {
  volume_id = codes "v";
  publish_context = context;
  target = codes "/t";
  staging_target = codes "/s";
  capability = some volume;
  readonly = false;
}

abbrev published_table : Table
published_table = mount_with (codes "/t") (codes "rw" ∷ []) ∷ staged_table

v-published :
    node_publish_volume node (codes "FCD") publish_request staged_table
    ≡ (answered tt, published_table)
unfolding mounting
v-published = refl

node_publish_volume-IsPublished_example :
    IsPublished node (codes "FCD") publish_request staged_table published_table
node_publish_volume-IsPublished_example =
    node_publish_volume-IsPublished node (codes "FCD") publish_request staged_table published_table
      v-published

-- A volume that is not staged cannot be published.
not-staged :
    node_publish_volume node (codes "FCD") publish_request [] ≡ (refused failed_precondition, [])
unfolding mounting
not-staged = refl

v-unpublished :
    node_unpublish_volume node (codes "FCD") (codes "/t") published_table
    ≡ (answered tt, staged_table)
unfolding mounting
v-unpublished = refl

v-unstaged : node_unstage_volume node (codes "FCD") (codes "/s") staged_table ≡ (answered tt, [])
unfolding mounting
v-unstaged = refl
