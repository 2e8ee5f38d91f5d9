-- ===== src/Disks.antt =====
-- pkg/common/vclib: fcd.go, datastore.go and storagepod.go, the first class disks of a datastore and
-- of a cluster of datastores. The object manager of vslm, the property collector and the children
-- of a cluster are not under src/: a value of `Vslm` gives their answers.
pub mod Pods
pub mod Lookup
pub mod Owner
pub mod Found
pub mod Store
pub mod Creation
pub mod All
pub mod Search
pub mod Samples
mod Tests
pub mod Datacenters
use cloud_provider_vsphere.Common.{
  ℕ, Option, none, some, Bool, true, false, not, ◌&&◌, List, [], ◌∷◌, ◌++◌, map, Text, ◌==◌, Map,
  no_disk_id_found, Outcome, ok, err, panic, ◌>>=◌, if◌then◌else◌,
}
use cloud_provider_vsphere.Inventory.{Datacenter}

-- A managed object reference, which is unique on its vCenter.
abbrev pub Reference : Type 0
Reference = Text

pub data ParentType : Type 0 where
  type_datastore_cluster type_datastore : ParentType

pub data FindFcd : Type 0 where
  find_fcd_by_id find_fcd_by_name : FindFcd

pub record Datastore : Type 0 where
  pub datacenter : Datacenter
  pub reference : Reference

-- What `types.DatastoreInfo` tells of a datastore.
pub record Info : Type 0 where
  pub name : Text
  pub url : Text

pub record DatastoreInfo : Type 0 where
  pub datastore : Datastore
  pub info : Info

pub record StoragePod : Type 0 where
  pub datacenter : Datacenter
  pub reference : Reference
  pub datastores : List Datastore

pub record StoragePodInfo : Type 0 where
  pub storage_pod : StoragePod
  pub name : Text
  pub datastore_infos : List DatastoreInfo

-- What `types.VStorageObject` tells of a disk.
pub record VStorageObject : Type 0 where
  pub id : Text
  pub name : Text
  pub capacity_in_mb : ℕ
  -- the path of the backing, if that is a file
  pub file_path : Option Text

pub record Disk : Type 0 where
  pub datacenter : Datacenter
  pub object : VStorageObject
  pub parent_type : ParentType
  pub datastore : Datastore
  pub storage_pod : Option StoragePod

pub record FirstClassDiskInfo : Type 0 where
  pub disk : Disk
  pub datastore_info : DatastoreInfo
  pub storage_pod_info : Option StoragePodInfo

pub record Vslm : Type 0 where
  -- ObjectManager.List and Retrieve
  pub list : Datacenter → Reference → Outcome (List Text)
  pub retrieve : Datacenter → Reference → Text → Outcome VStorageObject
  -- StoragePod.Children
  pub children : Datacenter → Reference → Outcome (List Reference)
  -- finder.DatastoreList and DatastoreClusterList with "*", Datastore and DatastoreCluster
  pub datastore_list : Datacenter → Outcome (List Reference)
  pub datastore_cluster_list : Datacenter → Outcome (List Reference)
  pub datastore : Datacenter → Text → Outcome Reference
  pub datastore_cluster : Datacenter → Text → Outcome Reference
  -- finder.DefaultComputeResource and ComputeResource, and ResourcePool of what they find
  pub default_compute_resource : Datacenter → Outcome Reference
  pub compute_resource : Datacenter → Text → Outcome Reference
  pub resource_pool : Datacenter → Reference → Outcome Reference
  -- the property collector, for datastores and for clusters, whose property is the name
  pub retrieve_infos : Datacenter → List Reference → Outcome (List (Reference × Info))
  pub retrieve_info : Datacenter → Reference → Outcome Info
  pub retrieve_pods : Datacenter → List Reference → Outcome (List (Reference × Text))
  pub retrieve_pod : Datacenter → Reference → Outcome (Reference × Text)
  -- the order in which a map is ranged over
  pub range_datastores : Map DatastoreInfo → List DatastoreInfo
  pub range_pods : Map StoragePodInfo → List StoragePodInfo

-- The test of a disk against what is looked for.
abbrev pub has_key : FindFcd → Text → VStorageObject → Bool
has_key find_fcd_by_name disk_id o = o.name == disk_id
has_key find_fcd_by_id disk_id o = o.id == disk_id

-- The next step of a loop that returns at the first success or error.
abbrev pub or_next {ℓ} : {A : Type ℓ} → Outcome (Option A) → Outcome (Option A) → Outcome (Option A)
or_next (ok none) next = next
or_next (ok (some a)) next = ok (some a)
or_next (err e) next = err e
or_next panic next = panic

abbrev pub or_no_disk {ℓ} : {A : Type ℓ} → Option A → Outcome A
or_no_disk none = err no_disk_id_found
or_no_disk (some a) = ok a

module _ {ℓ} {A : Type ℓ} (api : Vslm) (dc : Datacenter) (ds : Reference)
    (wrap : VStorageObject → A) where
  -- The loop that retrieves the disks of a list of identifiers.
  abbrev pub retrieve_all : List Text → Outcome (List A)
  retrieve_all [] = ok []
  retrieve_all (id ∷ ids) = do
    o ← api.retrieve dc ds id
    rest ← retrieve_all ids
    ok (wrap o ∷ rest)

  -- The loop that retrieves disks up to the first that is looked for.
  abbrev pub retrieve_first : (VStorageObject → Bool) → List Text → Outcome (Option A)
  retrieve_first wanted [] = ok none
  retrieve_first wanted (id ∷ ids) =
      or_next (api.retrieve dc ds id >>= (λ o. ok (if wanted o then some (wrap o) else none)))
        (retrieve_first wanted ids)

  abbrev pub list_in : Outcome (List A)
  list_in = api.list dc ds >>= (λ oids. retrieve_all oids)

  abbrev pub first_in : (VStorageObject → Bool) → Outcome (Option A)
  first_in wanted = api.list dc ds >>= (λ oids. retrieve_first wanted oids)

-- The loops over the children of a cluster.
module _ {ℓ} {A C : Type ℓ} where
  abbrev pub list_children : (C → Outcome (List A)) → List C → Outcome (List A)
  list_children f [] = ok []
  list_children f (c ∷ cs) = do disks ← f c; rest ← list_children f cs; ok (disks ++ rest)

  abbrev pub first_child : (C → Outcome (Option A)) → List C → Outcome (Option A)
  first_child f [] = ok none
  first_child f (c ∷ cs) = or_next (f c) (first_child f cs)

-- A disk of a datastore, and one of a child of a cluster.
abbrev pub disk_of : Datastore → VStorageObject → Disk
disk_of ds o = record {
  datacenter = ds.datacenter;
  object = o;
  parent_type = type_datastore;
  datastore = ds;
  storage_pod = none;
}

abbrev pub disk_info_of : DatastoreInfo → VStorageObject → FirstClassDiskInfo
disk_info_of di o = record {
  disk = disk_of di.datastore o;
  datastore_info = di;
  storage_pod_info = none;
}

abbrev pub pod_disk_of : StoragePod → Datastore → VStorageObject → Disk
pod_disk_of sp child o = record {
  datacenter = sp.datacenter;
  object = o;
  parent_type = type_datastore_cluster;
  datastore = child;
  storage_pod = some sp;
}

abbrev pub pod_disk_info_of : StoragePodInfo → DatastoreInfo → VStorageObject → FirstClassDiskInfo
pod_disk_info_of spi child o = record {
  disk = pod_disk_of spi.storage_pod child.datastore o;
  datastore_info = child;
  storage_pod_info = some spi;
}

module _ (api : Vslm) where
  -- `ListFirstClassDisks` and `GetFirstClassDisk` of a Datastore
  unfoldable pub list_first_class_disks : Datastore → Outcome (List Disk)
  list_first_class_disks ds = list_in api ds.datacenter ds.reference (disk_of ds)

  unfoldable pub get_first_class_disk : Datastore → Text → FindFcd → Outcome Disk
  get_first_class_disk ds disk_id find_by =
      first_in api ds.datacenter ds.reference (disk_of ds) (has_key find_by disk_id) >>= or_no_disk

  -- `ListFirstClassDiskInfos` and `GetFirstClassDiskInfo` of a DatastoreInfo
  unfoldable pub list_first_class_disk_infos : DatastoreInfo → Outcome (List FirstClassDiskInfo)
  list_first_class_disk_infos di =
      list_in api di.datastore.datacenter di.datastore.reference (disk_info_of di)

  unfoldable pub get_first_class_disk_info :
      DatastoreInfo → Text → FindFcd → Outcome FirstClassDiskInfo
  get_first_class_disk_info di disk_id find_by =
      first_in api di.datastore.datacenter di.datastore.reference (disk_info_of di)
        (has_key find_by disk_id)
      >>= or_no_disk
