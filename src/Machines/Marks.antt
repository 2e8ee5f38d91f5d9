-- ===== src/Machines/Marks.antt =====
-- pkg/common/vclib: which volumes are attached to a node, as verifyVolumePathsForVM of datacenter.go
-- and VerifyVolumePathsForVMDevices of utils.go mark them in a map of maps.
use cloud_provider_vsphere.Common.{
  Bool, true, false, Option, none, some, List, [], ◌∷◌, Text, codes, ◌==◌, Map, lookup, insert,
  if◌then◌else◌,
}
use cloud_provider_vsphere.Machines.{Device}

-- For each node, whether each volume is attached.
abbrev pub NodeVolumeMap : Type 0
NodeVolumeMap = Map (Map Bool)

abbrev pub marks_or_new : Option (Map Bool) → Map Bool
marks_or_new none = []
marks_or_new (some m) = m

-- `setNodeVolumeMap`
unfoldable pub set_node_volume_map : NodeVolumeMap → Text → Text → Bool → NodeVolumeMap
unfolding lookup insert
set_node_volume_map m path node check =
    insert node (insert path check (marks_or_new (lookup node m))) m

-- The file of a virtual disk with a flat backing.
abbrev pub disk_file : Device → Option Text
disk_file d = if d.type_name == codes "VirtualDisk" then d.file_name else none

-- `verifyVolumePathsForVM`: for each path a loop over the devices.
abbrev pub mark_same : Text → Text → Option Text → NodeVolumeMap → NodeVolumeMap
mark_same path node none m = m
mark_same path node (some file) m = if file == path then set_node_volume_map m path node true else m

unfoldable pub mark_path : List Device → Text → Text → NodeVolumeMap → NodeVolumeMap
unfolding set_node_volume_map
mark_path [] path node m = m
mark_path (d ∷ ds) path node m = mark_path ds path node (mark_same path node (disk_file d) m)

unfoldable pub verify_volume_paths_for_vm :
    List Device → List Text → Text → NodeVolumeMap → NodeVolumeMap
unfolding mark_path
verify_volume_paths_for_vm devices [] node m = m
verify_volume_paths_for_vm devices (path ∷ paths) node m =
    verify_volume_paths_for_vm devices paths node (mark_path devices path node m)

-- `VerifyVolumePathsForVMDevices`: the paths as a set, and one loop over the devices.
unfoldable pub vol_paths_map : List Text → Map Bool → Map Bool
unfolding insert
vol_paths_map [] set = set
vol_paths_map (path ∷ paths) set = vol_paths_map paths (insert path true set)

abbrev pub is_true : Option Bool → Bool
is_true none = false
is_true (some b) = b

abbrev pub mark_wanted : Map Bool → Text → Option Text → NodeVolumeMap → NodeVolumeMap
mark_wanted set node none m = m
mark_wanted set node (some file) m =
    if is_true (lookup file set) then set_node_volume_map m file node true else m

unfoldable pub mark_devices : List Device → Map Bool → Text → NodeVolumeMap → NodeVolumeMap
unfolding set_node_volume_map lookup
mark_devices [] set node m = m
mark_devices (d ∷ ds) set node m = mark_devices ds set node (mark_wanted set node (disk_file d) m)

unfoldable pub verify_volume_paths_for_vm_devices :
    List Device → List Text → Text → NodeVolumeMap → NodeVolumeMap
unfolding mark_devices vol_paths_map
verify_volume_paths_for_vm_devices devices paths node m =
    mark_devices devices (vol_paths_map paths []) node m
