-- ===== src/Controller/Listing.antt =====
-- getAllFCDs of pkg/csi/service/fcd/vsphere_helper.go: the disks of all vCenters that can be
-- connected to, sorted, which ListVolumes of controller.go pages. sort.Slice and the order in which
-- the map of instances is ranged over are parameters.
use cloud_provider_vsphere.Common.{
  text_less, ℕ, ◌+◌, Bool, Option, none, some, List, [], ◌∷◌, ◌++◌, Text, Map, Outcome, ok, err,
  panic, ◌>>=◌,
}
use cloud_provider_vsphere.Inventory.{Datacenter, get_all_datacenter}
use cloud_provider_vsphere.Connections.{Instance, ConnectionManager, connect_attempts}
use cloud_provider_vsphere.Discovery.{Site}
use cloud_provider_vsphere.Disks.{FirstClassDiskInfo, StoragePodInfo, Vslm}
use cloud_provider_vsphere.Disks.Datacenters.{get_all_first_class_disks}
use cloud_provider_vsphere.Volumes.{FirstClassDisk}

-- The function that getAllFCDs sorts by.
abbrev pub id_before : FirstClassDiskInfo → FirstClassDiskInfo → Bool
id_before a b = text_less b.disk.object.id a.disk.object.id

-- sort.Slice, for the disks.
abbrev pub SortSlice : Type 0
SortSlice =
    (FirstClassDiskInfo → FirstClassDiskInfo → Bool)
    → List FirstClassDiskInfo
    → List FirstClassDiskInfo

abbrev pub pod_name : Option StoragePodInfo → Text
pod_name none = []
pod_name (some p) = p.name

-- What ListVolumes reads of a disk. For a disk of a cluster without its cluster it would dereference
-- nil; GetAllFirstClassDisks sets both or neither.
abbrev pub listed_disk : FirstClassDiskInfo → FirstClassDisk
listed_disk d = record {
  id = d.disk.object.id;
  name = d.disk.object.name;
  capacity_in_mb = d.disk.object.capacity_in_mb;
  host = d.disk.datacenter.host;
  datacenter = d.disk.datacenter.name;
  parent_type = d.disk.parent_type;
  storage_pod = pod_name d.storage_pod_info;
  datastore = d.datastore_info.info.name;
}

-- The loop over the datacenters: one whose disks cannot be listed is left out.
abbrev pub with_subset :
    Outcome (List FirstClassDiskInfo)
    → Outcome (List FirstClassDiskInfo)
    → Outcome (List FirstClassDiskInfo)
with_subset (ok subset) further = further >>= (λ disks. ok (subset ++ disks))
with_subset (err e) further = further
with_subset panic further = panic

abbrev pub datacenters_disks : Vslm → List Datacenter → Outcome (List FirstClassDiskInfo)
datacenters_disks vslm [] = ok []
datacenters_disks vslm (dc ∷ dcs) =
    with_subset (get_all_first_class_disks vslm dc) (datacenters_disks vslm dcs)

abbrev pub listed_datacenters : Vslm → Outcome (List Datacenter) → Outcome (List FirstClassDiskInfo)
listed_datacenters vslm (ok dcs) = datacenters_disks vslm dcs
listed_datacenters vslm (err e) = ok []
listed_datacenters vslm panic = panic

module _ (site : Site) (vslm : Vslm) where
  -- An error is logged, and never the result.
  abbrev pub instance_disks : Text → Outcome (Unit {0}) → Outcome (List FirstClassDiskInfo)
  instance_disks vc (ok u) = listed_datacenters vslm (get_all_datacenter site.api vc)
  instance_disks vc (err e) = ok []
  instance_disks vc panic = panic

  abbrev pub with_instance :
      Outcome (List FirstClassDiskInfo)
      → ConnectionManager
      → Outcome (List FirstClassDiskInfo) × ConnectionManager
      → Outcome (List FirstClassDiskInfo) × ConnectionManager
  with_instance (ok subset) cm further = (further.0 >>= (λ disks. ok (subset ++ disks)), further.1)
  with_instance (err e) cm further = (err e, cm)
  with_instance panic cm further = (panic, cm)

  -- The loop over the vCenters. The instance is one of the map, so ConnectByInstance does for it what
  -- Connect does; the attempts take six ticks at most.
  unfoldable pub unsorted_fcds :
      ℕ → Map Instance → ConnectionManager → Outcome (List FirstClassDiskInfo) × ConnectionManager
  unfolding connect_attempts get_all_first_class_disks get_all_datacenter
  unsorted_fcds t [] cm = (ok [], cm)
  unsorted_fcds t ((vc, i) ∷ rest) cm =
      let (o, cm') = connect_attempts site.vim site.world t vc cm in
      with_instance (instance_disks vc o) cm' (unsorted_fcds (t + 6) rest cm')

  -- `getAllFCDs`
  unfoldable pub get_all_fcds :
      SortSlice → ℕ → ConnectionManager → Outcome (List FirstClassDiskInfo) × ConnectionManager
  unfolding unsorted_fcds
  get_all_fcds sort t cm =
      let (o, cm') = unsorted_fcds t cm.instances cm in
      (o >>= (λ disks. ok (sort id_before disks)), cm')
