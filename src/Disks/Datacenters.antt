-- ===== src/Disks/Datacenters.antt =====
-- pkg/common/vclib/datacenter.go: the datastores, the clusters and the first class disks of a
-- datacenter, and ExistsInList of utils.go. Creating and deleting a disk change the state of the
-- vCenter, which is explicit, of a type that is a parameter.
use cloud_provider_vsphere.Common.{
  Bool, true, false, not, ◌||◌, List, [], ◌∷◌, ◌++◌, map, Text, is_empty, ◌==◌, equal_fold, Map,
  insert, Option, none, some, Error, no_disk_id_found, no_datastore_clusters_found, Outcome, ok,
  err, panic, ◌>>=◌, if◌then◌else◌,
}
use cloud_provider_vsphere.Inventory.{Datacenter}
use cloud_provider_vsphere.Disks.{
  Reference, ParentType, type_datastore, type_datastore_cluster, FindFcd, find_fcd_by_id, Info,
  DatastoreInfo, StoragePodInfo, FirstClassDiskInfo, Vslm, list_first_class_disk_infos,
  get_first_class_disk_info,
}
use cloud_provider_vsphere.Disks.Pods.{
  datastore_info_at, populate_child_datastore_infos, list_first_class_disks_info,
  pod_first_class_disk_info,
}

-- `ExistsInList`
unfoldable pub exists_in_list : Text → List Text → Bool → Bool
exists_in_list needle [] case_sensitive = false
exists_in_list needle (straw ∷ haystack) case_sensitive =
    (if case_sensitive then straw == needle else equal_fold straw needle)
    || exists_in_list needle haystack case_sensitive

-- The loop over the clusters in `GetAllFirstClassDisks`: the names of the datastores visited, and
-- the disks. A cluster that fails is skipped.
abbrev pub pod_listed :
    StoragePodInfo
    → List Text × List FirstClassDiskInfo
    → Outcome (Unit {0})
    → Outcome (List FirstClassDiskInfo)
    → List Text × List FirstClassDiskInfo
pod_listed pod (visited, disks) (ok u) (ok more) =
    (visited ++ map (λ d. d.info.name) pod.datastore_infos, disks ++ more)
pod_listed pod (visited, disks) (ok u) _ =
    (visited ++ map (λ d. d.info.name) pod.datastore_infos, disks)
pod_listed pod so_far _ _ = so_far

-- The loop over the datastores: one whose name was visited, or that fails, is skipped.
abbrev pub or_skipped : {A : Type 0} → Outcome (List A) → List A
or_skipped (ok xs) = xs
or_skipped (err e) = []
or_skipped panic = []

-- The test of `GetAllFirstClassDisks`, which is made twice.
abbrev pub is_no_clusters : Option Error → Bool
is_no_clusters (some no_datastore_clusters_found) = true
is_no_clusters e = false

abbrev pub no_disks : Option Error → Outcome (List FirstClassDiskInfo)
no_disks none = ok []
no_disks (some e) = err e

-- `DoesFirstClassDiskExist`: a datastore that fails is passed over.
abbrev pub found_or :
    Outcome FirstClassDiskInfo → Outcome FirstClassDiskInfo → Outcome FirstClassDiskInfo
found_or (ok d) next = ok d
found_or (err e) next = next
found_or panic next = panic

module _ (api : Vslm) (dc : Datacenter) where
  -- The map of the datastores, by their URL.
  abbrev pub datastores_by_url : List (Reference × Info) → Map DatastoreInfo → Map DatastoreInfo
  datastores_by_url [] m = m
  datastores_by_url ((r, i) ∷ rest) m =
      datastores_by_url rest (insert i.url (datastore_info_at dc (r, i)) m)

  -- `GetAllDatastores` and `GetDatastoreByName`
  unfoldable pub get_all_datastores : Outcome (Map DatastoreInfo)
  get_all_datastores = do
    refs ← api.datastore_list dc
    infos ← api.retrieve_infos dc refs
    ok (datastores_by_url infos [])

  unfoldable pub get_datastore_by_name : Text → Outcome DatastoreInfo
  get_datastore_by_name name = do
    r ← api.datastore dc name
    i ← api.retrieve_info dc r
    ok (datastore_info_at dc (r, i))

  -- `GetResourcePool`
  unfoldable pub get_resource_pool : Text → Outcome Reference
  get_resource_pool compute_path = do
    r ←
        (if is_empty compute_path
          then api.default_compute_resource dc
          else api.compute_resource dc compute_path)
    api.resource_pool dc r

  -- A cluster whose children are not known yet.
  abbrev pub pod_at : Reference × Text → StoragePodInfo
  pod_at (r, name) = record {
    storage_pod = record { datacenter = dc; reference = r; datastores = [] };
    name = name;
    datastore_infos = [];
  }

  -- A failure to read the children is logged only.
  abbrev pub with_children : Bool → StoragePodInfo → StoragePodInfo
  with_children true spi = (populate_child_datastore_infos api spi false).1
  with_children false spi = spi

  abbrev pub pods_by_name : Bool → List (Reference × Text) → Map StoragePodInfo → Map StoragePodInfo
  pods_by_name child [] m = m
  pods_by_name child ((r, name) ∷ rest) m =
      pods_by_name child rest (insert name (with_children child (pod_at (r, name))) m)

  -- `GetAllDatastoreClusters`: every failure of the finder is taken for the absence of clusters.
  abbrev pub clusters_found : Bool → Outcome (List Reference) → Outcome (Map StoragePodInfo)
  clusters_found child (ok refs) = do
    pods ← api.retrieve_pods dc refs
    ok (pods_by_name child pods [])
  clusters_found child (err e) = err no_datastore_clusters_found
  clusters_found child panic = panic

  unfoldable pub get_all_datastore_clusters : Bool → Outcome (Map StoragePodInfo)
  get_all_datastore_clusters child = clusters_found child (api.datastore_cluster_list dc)

  unfoldable pub get_datastore_cluster_by_name : Text → Outcome StoragePodInfo
  get_datastore_cluster_by_name name = do
    r ← api.datastore_cluster dc name
    p ← api.retrieve_pod dc r
    ok (pod_at p)

  -- `GetFirstClassDisk` of a Datacenter
  unfoldable pub find_first_class_disk :
      Text → ParentType → Text → FindFcd → Outcome FirstClassDiskInfo
  find_first_class_disk datastore_name type_datastore_cluster disk_id by = do
    pod ← get_datastore_cluster_by_name datastore_name
    (pod_first_class_disk_info api pod disk_id by).0
  find_first_class_disk datastore_name type_datastore disk_id by = do
    datastore ← get_datastore_by_name datastore_name
    get_first_class_disk_info api datastore disk_id by

  abbrev pub disks_of_pods :
      List StoragePodInfo
      → List Text × List FirstClassDiskInfo
      → List Text × List FirstClassDiskInfo
  disks_of_pods [] so_far = so_far
  disks_of_pods (pod ∷ pods) so_far =
      let (o, filled) = populate_child_datastore_infos api pod false in
      disks_of_pods pods (pod_listed filled so_far o (list_first_class_disks_info api filled).0)

  unfoldable pub disks_of_datastores :
      List DatastoreInfo → List Text → List FirstClassDiskInfo → List FirstClassDiskInfo
  disks_of_datastores [] visited disks = disks
  disks_of_datastores (d ∷ ds) visited disks =
      let seen = disks_of_datastores ds visited disks in
      let more =
        disks_of_datastores ds (visited ++ (d.info.name ∷ []))
          (disks ++ or_skipped (list_first_class_disk_infos api d)) in
      if exists_in_list d.info.name visited false then seen else more

  abbrev pub disks_with : Option Error → Map StoragePodInfo → Outcome (List FirstClassDiskInfo)
  disks_with failure pods =
      if not (is_no_clusters failure)
      then no_disks failure
      else (get_all_datastores >>= (λ m.
          (let so_far =
              if not (is_no_clusters failure)
              then disks_of_pods (api.range_pods pods) ([], [])
              else ([], []) in
            ok (disks_of_datastores (api.range_datastores m) so_far.0 so_far.1))))

  abbrev pub after_clusters : Outcome (Map StoragePodInfo) → Outcome (List FirstClassDiskInfo)
  after_clusters (ok pods) = disks_with none pods
  after_clusters (err e) = disks_with (some e) []
  after_clusters panic = panic

  -- `GetAllFirstClassDisks`
  unfoldable pub get_all_first_class_disks : Outcome (List FirstClassDiskInfo)
  unfolding get_all_datastore_clusters get_all_datastores disks_of_datastores
  get_all_first_class_disks = after_clusters (get_all_datastore_clusters true)

  abbrev pub first_existing : Text → List DatastoreInfo → Outcome FirstClassDiskInfo
  first_existing fcd_id [] = err no_disk_id_found
  first_existing fcd_id (d ∷ ds) =
      found_or (get_first_class_disk_info api d fcd_id find_fcd_by_id) (first_existing fcd_id ds)

  unfoldable pub does_first_class_disk_exist : Text → Outcome FirstClassDiskInfo
  unfolding get_all_datastores
  does_first_class_disk_exist fcd_id = do
    m ← get_all_datastores
    first_existing fcd_id (api.range_datastores m)
