-- ===== src/Disks/Creation.antt =====
-- What CreateFirstClassDisk of pkg/common/vclib/datacenter.go asks of the object manager.
use cloud_provider_vsphere.Common.{
  ℕ, ◌≡◌, refl, ap, [], Text, Outcome, ok, err, panic, ◌>>=◌, arith,
}
use cloud_provider_vsphere.Inventory.{Datacenter}
use cloud_provider_vsphere.Disks.{
  Reference, ParentType, type_datastore, type_datastore_cluster, DatastoreInfo, StoragePodInfo,
}
use cloud_provider_vsphere.Disks.Datacenters.{
  get_datastore_by_name, get_datastore_cluster_by_name, get_resource_pool,
}
use cloud_provider_vsphere.Disks.Store.{
  VslmCreateSpec, Task, Store, then_wait, created, create_first_class_disk,
}

module _ {S : Type 0} (store : Store S) (dc : Datacenter) (parent : Text) where
  -- The specification that a disk is created with: that asked for on a datastore, and what the
  -- placement makes of that asked for on a cluster.
  abbrev pub WasPlaced : ParentType → VslmCreateSpec → VslmCreateSpec → S → Type 0
  WasPlaced type_datastore asked spec s =
      (d : DatastoreInfo) × (get_datastore_by_name (store.view s) dc parent ≡ ok d)
      × (asked.datastore ≡ d.datastore.reference)
      × (spec ≡ asked)
  WasPlaced type_datastore_cluster asked spec s =
      (pod : StoragePodInfo) × (pool : Reference) × (get_datastore_cluster_by_name (store.view s) dc
          parent
        ≡ ok pod)
      × (get_resource_pool (store.view s) dc [] ≡ ok pool)
      × (asked.datastore ≡ pod.storage_pod.reference)
      × (store.place_disk dc asked pool s ≡ ok spec)

  -- The object manager has created a disk, asked for with a name and a size.
  pub record WasCreated (type : ParentType) (name : Text) (size : ℕ) (s s' : S) : Type 0 where
    pub asked : VslmCreateSpec
    pub spec : VslmCreateSpec
    pub task : Task
    pub sent : S
    pub has_name : asked.name ≡ name
    pub has_size : asked.capacity_in_mb ≡ size
    pub placed : WasPlaced type asked spec s
    pub started : store.create_disk dc spec s ≡ (ok task, sent)
    pub ended : store.wait task sent ≡ (ok tt, s')

  module _ (name : Text) (size : ℕ) (s s' : S) where
    asked_on : Reference → VslmCreateSpec
    asked_on r = record { name = name; capacity_in_mb = size; datastore = r }

    waited-WasCreated :
        (type : ParentType) (r : Reference) (spec : VslmCreateSpec) (o : Outcome Task × S)
        → WasPlaced type (asked_on r) spec s
        → store.create_disk dc spec s ≡ o
        → then_wait store dc o ≡ (ok tt, s')
        → WasCreated type name size s s'
    unfolding asked_on
    waited-WasCreated type r spec (ok task, sent) p e h = record {
      asked = asked_on r;
      spec = spec;
      task = task;
      sent = sent;
      has_name = refl;
      has_size = refl;
      placed = p;
      started = e;
      ended = h;
    }
    waited-WasCreated type r spec (err e, sent) p f h = absurd (ground (arith, ap (λ q. q.0) h))
    waited-WasCreated type r spec (panic, sent) p e h = absurd (ground (arith, ap (λ q. q.0) h))

    placed-WasCreated :
        (pod : StoragePodInfo) (pool : Reference) (o : Outcome VslmCreateSpec)
        → get_datastore_cluster_by_name (store.view s) dc parent ≡ ok pod
        → get_resource_pool (store.view s) dc [] ≡ ok pool
        → store.place_disk dc (asked_on pod.storage_pod.reference) pool s ≡ o
        → created store dc o s ≡ (ok tt, s')
        → WasCreated type_datastore_cluster name size s s'
    unfolding asked_on
    placed-WasCreated pod pool (ok spec) p r e h =
        waited-WasCreated type_datastore_cluster pod.storage_pod.reference spec
          (store.create_disk dc spec s) (pod, pool, p, r, refl, e) refl h
    placed-WasCreated pod pool (err e) p r f h = absurd (ground (arith, ap (λ q. q.0) h))
    placed-WasCreated pod pool panic p r e h = absurd (ground (arith, ap (λ q. q.0) h))

    -- A success of CreateFirstClassDisk has created a disk with the name and the size.
    pub create_first_class_disk-WasCreated :
        (type : ParentType)
        → create_first_class_disk store dc parent type name size s ≡ (ok tt, s')
        → WasCreated type name size s s'
    unfolding create_first_class_disk asked_on
    create_first_class_disk-WasCreated type_datastore h =
        on_datastore (get_datastore_by_name (store.view s) dc parent) refl h
      where
        on_datastore :
            (o : Outcome DatastoreInfo)
            → get_datastore_by_name (store.view s) dc parent ≡ o
            → created store dc (o >>= (λ d. ok (asked_on d.datastore.reference))) s ≡ (ok tt, s')
            → WasCreated type_datastore name size s s'
        on_datastore (ok d) e k =
            waited-WasCreated type_datastore d.datastore.reference (asked_on d.datastore.reference)
              (store.create_disk dc (asked_on d.datastore.reference) s) (d, e, refl, refl) refl k
        on_datastore (err e) f k = absurd (ground (arith, ap (λ q. q.0) k))
        on_datastore panic e k = absurd (ground (arith, ap (λ q. q.0) k))
    create_first_class_disk-WasCreated type_datastore_cluster h =
        on_pod (get_datastore_cluster_by_name (store.view s) dc parent) refl h
      where
        on_pool :
            (pod : StoragePodInfo) (o : Outcome Reference)
            → get_datastore_cluster_by_name (store.view s) dc parent ≡ ok pod
            → get_resource_pool (store.view s) dc [] ≡ o
            → created store dc
                (o >>= (λ pool. store.place_disk dc (asked_on pod.storage_pod.reference) pool s))
                s
              ≡ (ok tt, s')
            → WasCreated type_datastore_cluster name size s s'
        on_pool pod (ok pool) p e k =
            placed-WasCreated pod pool
              (store.place_disk dc (asked_on pod.storage_pod.reference) pool s) p e refl k
        on_pool pod (err e) p f k = absurd (ground (arith, ap (λ q. q.0) k))
        on_pool pod panic p e k = absurd (ground (arith, ap (λ q. q.0) k))

        on_pod :
            (o : Outcome StoragePodInfo)
            → get_datastore_cluster_by_name (store.view s) dc parent ≡ o
            → created store dc
                (o >>= (λ pod.
                  get_resource_pool (store.view s) dc []
                  >>= (λ pool. store.place_disk dc (asked_on pod.storage_pod.reference) pool s)))
                s
              ≡ (ok tt, s')
            → WasCreated type_datastore_cluster name size s s'
        on_pod (ok pod) e k = on_pool pod (get_resource_pool (store.view s) dc []) e refl k
        on_pod (err e) f k = absurd (ground (arith, ap (λ q. q.0) k))
        on_pod panic e k = absurd (ground (arith, ap (λ q. q.0) k))
