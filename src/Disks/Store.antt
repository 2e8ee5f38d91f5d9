-- ===== src/Disks/Store.antt =====
-- pkg/common/vclib/datacenter.go, CreateFirstClassDisk and DeleteFirstClassDisk: the changes of the
-- disks of a vCenter, whose state is a parameter.
use cloud_provider_vsphere.Common.{◌≡◌, refl, ap, ◌∙◌, ℕ, [], Text, Outcome, ok, err, panic, ◌>>=◌}
use cloud_provider_vsphere.Inventory.{Datacenter}
use cloud_provider_vsphere.Disks.{
  Reference, ParentType, type_datastore, type_datastore_cluster, find_fcd_by_id, StoragePodInfo,
  FirstClassDiskInfo, Vslm,
}
use cloud_provider_vsphere.Disks.Pods.{get_datastore_that_owns_fcd, pod_first_class_disk_info}
use cloud_provider_vsphere.Disks.Owner.{get_datastore_that_owns_fcd_lem}
use cloud_provider_vsphere.Disks.Datacenters.{
  get_datastore_by_name, get_datastore_cluster_by_name, get_resource_pool, find_first_class_disk,
}

-- What a disk is created with: its backing is thin, and on a datastore or a cluster.
pub record VslmCreateSpec : Type 0 where
  pub name : Text
  pub capacity_in_mb : ℕ
  pub datastore : Reference

abbrev pub Task : Type 0
Task = ℕ

-- The object manager, on the states of the vCenters.
pub record Store (S : Type 0) : Type 1 where
  pub view : S → Vslm
  -- PlaceDisk fills in the specification.
  pub place_disk : Datacenter → VslmCreateSpec → Reference → S → Outcome VslmCreateSpec
  pub create_disk : Datacenter → VslmCreateSpec → S → Outcome Task × S
  pub delete : Datacenter → Reference → Text → S → Outcome Task × S
  -- Task.Wait
  pub wait : Task → S → Outcome (Unit {0}) × S

module _ {S : Type 0} (store : Store S) (dc : Datacenter) where
  abbrev pub then_wait : Outcome Task × S → Outcome (Unit {0}) × S
  then_wait (ok task, s) = store.wait task s
  then_wait (err e, s) = (err e, s)
  then_wait (panic, s) = (panic, s)

  abbrev pub create_spec : Text → ParentType → Text → ℕ → S → Outcome VslmCreateSpec
  create_spec datastore_name type_datastore_cluster disk_name size s = do
    pod ← get_datastore_cluster_by_name (store.view s) dc datastore_name
    pool ← get_resource_pool (store.view s) dc []
    store.place_disk dc
        (record { name = disk_name; capacity_in_mb = size; datastore = pod.storage_pod.reference })
        pool s
  create_spec datastore_name type_datastore disk_name size s = do
    d ← get_datastore_by_name (store.view s) dc datastore_name
    ok (record { name = disk_name; capacity_in_mb = size; datastore = d.datastore.reference })

  abbrev pub created : Outcome VslmCreateSpec → S → Outcome (Unit {0}) × S
  created (ok spec) s = then_wait (store.create_disk dc spec s)
  created (err e) s = (err e, s)
  created panic s = (panic, s)

  unfoldable pub create_first_class_disk : Text → ParentType → Text → ℕ → S → Outcome (Unit {0}) × S
  create_first_class_disk datastore_name datastore_type disk_name size s =
      created (create_spec datastore_name datastore_type disk_name size s) s

  -- The datastore that a disk is deleted from.
  abbrev pub holder : Text → ParentType → Text → S → Outcome Reference
  holder datastore_name type_datastore_cluster disk_id s = do
    pod ← get_datastore_cluster_by_name (store.view s) dc datastore_name
    d ← (get_datastore_that_owns_fcd (store.view s) pod disk_id).0
    ok d.datastore.reference
  holder datastore_name type_datastore disk_id s = do
    d ← get_datastore_by_name (store.view s) dc datastore_name
    ok d.datastore.reference

  abbrev pub deleted : Text → Outcome Reference → S → Outcome (Unit {0}) × S
  deleted disk_id (ok r) s = then_wait (store.delete dc r disk_id s)
  deleted disk_id (err e) s = (err e, s)
  deleted disk_id panic s = (panic, s)

  unfoldable pub delete_first_class_disk : Text → ParentType → Text → S → Outcome (Unit {0}) × S
  delete_first_class_disk datastore_name datastore_type disk_id s =
      deleted disk_id (holder datastore_name datastore_type disk_id s) s

  -- Where the disk is, as the lookup tells.
  abbrev pub place_of : FirstClassDiskInfo → Outcome Reference
  place_of d = ok d.datastore_info.datastore.reference

  -- A disk of a cluster is deleted from the datastore in which the lookup by identifier finds it. If
  -- the lookup fails, nothing is deleted, the state is as before, and its error is returned.
  pub delete_first_class_disk_where_found :
      (datastore_name disk_id : Text) (s : S)
      → delete_first_class_disk datastore_name type_datastore_cluster disk_id s
        ≡ deleted disk_id
            (find_first_class_disk
                (store.view s)
                dc
                datastore_name
                type_datastore_cluster
                disk_id
                find_fcd_by_id
              >>= place_of)
            s
  unfolding delete_first_class_disk find_first_class_disk
  delete_first_class_disk_where_found datastore_name disk_id s =
      ap (λ o. deleted disk_id o s)
        (named (get_datastore_cluster_by_name (store.view s) dc datastore_name))
    where
      looked :
          (o : Outcome FirstClassDiskInfo)
          → (o >>= (λ d. ok d.datastore_info) >>= (λ d. ok d.datastore.reference))
            ≡ (o >>= place_of)
      looked (ok d) = refl
      looked (err e) = refl
      looked panic = refl

      named :
          (o : Outcome StoragePodInfo)
          → (o >>= (λ pod.
              (get_datastore_that_owns_fcd (store.view s) pod disk_id).0
              >>= (λ d. ok d.datastore.reference)))
            ≡ (o
                >>= (λ pod. (pod_first_class_disk_info (store.view s) pod disk_id find_fcd_by_id).0)
                >>= place_of)
      named (ok pod) =
          ap (λ o. o >>= (λ d. ok d.datastore.reference))
            (get_datastore_that_owns_fcd_lem (store.view s) pod disk_id)
          ∙ looked (pod_first_class_disk_info (store.view s) pod disk_id find_fcd_by_id).0
      named (err e) = refl
      named panic = refl
