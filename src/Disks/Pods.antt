-- ===== src/Disks/Pods.antt =====
-- pkg/common/vclib/storagepod.go: clusters of datastores. The children are read once, and kept in
-- the cluster: an operation returns the cluster as it leaves it.
use cloud_provider_vsphere.Common.{
  Bool, true, false, not, ◌&&◌, List, [], ◌∷◌, map, Text, ◌==◌, Option, Outcome, ok, err, panic,
  ◌>>=◌, if◌then◌else◌,
}
use cloud_provider_vsphere.Inventory.{Datacenter}
use cloud_provider_vsphere.Disks.{
  Reference, FindFcd, Datastore, Info, DatastoreInfo, StoragePod, StoragePodInfo, Disk,
  FirstClassDiskInfo, Vslm, has_key, or_no_disk, list_in, first_in, list_children, first_child,
  pod_disk_of, pod_disk_info_of,
}

abbrev pub is_nil {ℓ} : {A : Type ℓ} → List A → Bool
is_nil [] = true
is_nil (x ∷ xs) = false

abbrev pub datastore_at : Datacenter → Reference → Datastore
datastore_at dc r = record { datacenter = dc; reference = r }

abbrev pub datastore_info_at : Datacenter → Reference × Info → DatastoreInfo
datastore_info_at dc (r, i) = record { datastore = datastore_at dc r; info = i }

abbrev pub with_datastores : StoragePod → List Datastore → StoragePod
with_datastores sp children = record {
  datacenter = sp.datacenter;
  reference = sp.reference;
  datastores = children;
}

abbrev pub with_pod : StoragePodInfo → StoragePod → StoragePodInfo
with_pod spi sp = record {
  storage_pod = sp;
  name = spi.name;
  datastore_infos = spi.datastore_infos;
}

abbrev pub with_infos : StoragePodInfo → List DatastoreInfo → StoragePodInfo
with_infos spi infos = record {
  storage_pod = spi.storage_pod;
  name = spi.name;
  datastore_infos = infos;
}

module _ (api : Vslm) where
  -- `PopulateChildDatastores`: a cluster whose children are known is left as it is.
  abbrev pub children_read : StoragePod → Outcome (List Reference) → Outcome (Unit {0}) × StoragePod
  children_read sp (ok refs) = (ok tt, with_datastores sp (map (datastore_at sp.datacenter) refs))
  children_read sp (err e) = (err e, sp)
  children_read sp panic = (panic, sp)

  unfoldable pub populate_child_datastores : StoragePod → Bool → Outcome (Unit {0}) × StoragePod
  populate_child_datastores sp refresh =
      if not (is_nil sp.datastores) && not refresh
      then (ok tt, sp)
      else children_read sp (api.children sp.datacenter sp.reference)

  -- `PopulateChildDatastoreInfos`: the datastores are kept even if their properties are not read.
  abbrev pub infos_read :
      StoragePodInfo → Outcome (List (Reference × Info)) → Outcome (Unit {0}) × StoragePodInfo
  infos_read spi (ok infos) =
      (ok tt, with_infos spi (map (datastore_info_at spi.storage_pod.datacenter) infos))
  infos_read spi (err e) = (err e, spi)
  infos_read spi panic = (panic, spi)

  abbrev pub after_children :
      StoragePodInfo → Outcome (Unit {0}) × StoragePod → Outcome (Unit {0}) × StoragePodInfo
  after_children spi (ok u, sp) =
      infos_read (with_pod spi sp)
        (api.retrieve_infos sp.datacenter (map (λ d. d.reference) sp.datastores))
  after_children spi (err e, sp) = (err e, with_pod spi sp)
  after_children spi (panic, sp) = (panic, with_pod spi sp)

  unfoldable pub populate_child_datastore_infos :
      StoragePodInfo → Bool → Outcome (Unit {0}) × StoragePodInfo
  unfolding populate_child_datastores
  populate_child_datastore_infos spi refresh =
      if not (is_nil spi.datastore_infos) && not refresh
      then (ok tt, spi)
      else after_children spi (populate_child_datastores spi.storage_pod false)

  -- What an operation does once the children are known.
  abbrev pub then_infos {ℓ} :
      {A : Type ℓ}
      → Outcome (Unit {0}) × StoragePodInfo
      → (StoragePodInfo → Outcome A)
      → Outcome A × StoragePodInfo
  then_infos (o, spi) f = (o >>= (λ u. f spi), spi)

  abbrev pub then_datastores {ℓ} :
      {A : Type ℓ}
      → Outcome (Unit {0}) × StoragePod
      → (StoragePod → Outcome A)
      → Outcome A × StoragePod
  then_datastores (o, sp) f = (o >>= (λ u. f sp), sp)

  -- The disks of the children, the first that is looked for, and the datastore that has it.
  abbrev pub infos_in : StoragePodInfo → Outcome (List FirstClassDiskInfo)
  infos_in spi =
      list_children
        (λ (child : DatastoreInfo).
          list_in api spi.storage_pod.datacenter child.datastore.reference
            (pod_disk_info_of spi child))
        spi.datastore_infos

  abbrev pub info_in : StoragePodInfo → Text → FindFcd → Outcome (Option FirstClassDiskInfo)
  info_in spi disk_id find_by =
      first_child
        (λ (child : DatastoreInfo).
          first_in api spi.storage_pod.datacenter child.datastore.reference
            (pod_disk_info_of spi child) (has_key find_by disk_id))
        spi.datastore_infos

  abbrev pub owner_in : StoragePodInfo → Text → Outcome (Option DatastoreInfo)
  owner_in spi disk_id =
      first_child
        (λ (child : DatastoreInfo).
          first_in api spi.storage_pod.datacenter child.datastore.reference (λ o. child)
            (λ o. o.id == disk_id))
        spi.datastore_infos

  -- `ListFirstClassDisksInfo`, `GetFirstClassDiskInfo` and `GetDatastoreThatOwnsFCD`
  unfoldable pub list_first_class_disks_info :
      StoragePodInfo → Outcome (List FirstClassDiskInfo) × StoragePodInfo
  unfolding populate_child_datastore_infos
  list_first_class_disks_info spi = then_infos (populate_child_datastore_infos spi false) infos_in

  unfoldable pub pod_first_class_disk_info :
      StoragePodInfo → Text → FindFcd → Outcome FirstClassDiskInfo × StoragePodInfo
  unfolding populate_child_datastore_infos
  pod_first_class_disk_info spi disk_id find_by =
      then_infos (populate_child_datastore_infos spi false)
        (λ filled. info_in filled disk_id find_by >>= or_no_disk)

  unfoldable pub get_datastore_that_owns_fcd :
      StoragePodInfo → Text → Outcome DatastoreInfo × StoragePodInfo
  unfolding populate_child_datastore_infos
  get_datastore_that_owns_fcd spi disk_id =
      then_infos (populate_child_datastore_infos spi false)
        (λ filled. owner_in filled disk_id >>= or_no_disk)

  -- `ListFirstClassDisks` and `GetFirstClassDisk` of a StoragePod
  unfoldable pub pod_first_class_disks : StoragePod → Outcome (List Disk) × StoragePod
  unfolding populate_child_datastores
  pod_first_class_disks sp = then_datastores (populate_child_datastores sp false) (λ filled.
      list_children
        (λ (child : Datastore).
          list_in api filled.datacenter child.reference (pod_disk_of filled child))
        filled.datastores)

  unfoldable pub pod_first_class_disk : StoragePod → Text → FindFcd → Outcome Disk × StoragePod
  unfolding populate_child_datastores
  pod_first_class_disk sp disk_id find_by =
      then_datastores (populate_child_datastores sp false) (λ filled.
        first_child
          (λ (child : Datastore).
            first_in api filled.datacenter child.reference (pod_disk_of filled child)
              (has_key find_by disk_id))
          filled.datastores
        >>= or_no_disk)
