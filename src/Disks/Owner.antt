-- ===== src/Disks/Owner.antt =====
-- The datastore of a cluster that owns a disk, against the lookup of the disk.
use cloud_provider_vsphere.Common.{
  ◌≡◌, refl, ap, ap₂, ◌∙◌, Bool, true, false, Option, none, some, List, [], ◌∷◌, Text, ◌==◌,
  Outcome, ok, err, panic, ◌>>=◌, if◌then◌else◌,
}
use cloud_provider_vsphere.Inventory.{Datacenter}
use cloud_provider_vsphere.Disks.{
  Reference, find_fcd_by_id, DatastoreInfo, StoragePodInfo, VStorageObject, FirstClassDiskInfo,
  Vslm, has_key, or_next, or_no_disk, retrieve_first, first_in, first_child, pod_disk_info_of,
}
use cloud_provider_vsphere.Disks.Pods.{
  then_infos, info_in, owner_in, populate_child_datastore_infos, pod_first_class_disk_info,
  get_datastore_that_owns_fcd,
}

module _ {ℓ} {A B : Type ℓ} (f : A → B) where
  -- The result of a lookup, seen through a function.
  abbrev through : Option A → Option B
  through none = none
  through (some a) = some (f a)

  abbrev seen : Outcome (Option A) → Outcome (Option B)
  seen (ok o) = ok (through o)
  seen (err e) = err e
  seen panic = panic

  seen-or_next :
      (o : Outcome (Option A)) (rest : Outcome (Option A))
      → or_next (seen o) (seen rest) ≡ seen (or_next o rest)
  seen-or_next (ok none) rest = refl
  seen-or_next (ok (some a)) rest = refl
  seen-or_next (err e) rest = refl
  seen-or_next panic rest = refl

  seen-or_no_disk :
      (o : Outcome (Option A)) → (seen o >>= or_no_disk) ≡ (o >>= or_no_disk >>= (λ a. ok (f a)))
  seen-or_no_disk (ok none) = refl
  seen-or_no_disk (ok (some a)) = refl
  seen-or_no_disk (err e) = refl
  seen-or_no_disk panic = refl

  module _ (api : Vslm) (dc : Datacenter) (ds : Reference) (wrap : VStorageObject → A)
      (wanted : VStorageObject → Bool) where
    seen-test :
        (o : Outcome VStorageObject)
        → (o >>= (λ v. ok (if wanted v then some (f (wrap v)) else none)))
          ≡ seen (o >>= (λ v. ok (if wanted v then some (wrap v) else none)))
    seen-test (ok v) = choose (wanted v)
      where
        choose :
            (b : Bool)
            → ok (if b then some (f (wrap v)) else none)
              ≡ seen (ok (if b then some (wrap v) else none))
        choose true = refl
        choose false = refl
    seen-test (err e) = refl
    seen-test panic = refl

    seen-retrieve_first :
        (ids : List Text)
        → retrieve_first api dc ds (λ v. f (wrap v)) wanted ids
          ≡ seen (retrieve_first api dc ds wrap wanted ids)
    seen-retrieve_first [] = refl
    seen-retrieve_first (id ∷ ids) =
        ap₂ or_next (seen-test (api.retrieve dc ds id)) (seen-retrieve_first ids)
        ∙ seen-or_next
            (api.retrieve dc ds id >>= (λ v. ok (if wanted v then some (wrap v) else none)))
            (retrieve_first api dc ds wrap wanted ids)

    seen-first_in :
        first_in api dc ds (λ v. f (wrap v)) wanted ≡ seen (first_in api dc ds wrap wanted)
    seen-first_in = listed (api.list dc ds)
      where
        listed :
            (o : Outcome (List Text))
            → (o >>= (λ ids. retrieve_first api dc ds (λ v. f (wrap v)) wanted ids))
              ≡ seen (o >>= (λ ids. retrieve_first api dc ds wrap wanted ids))
        listed (ok ids) = seen-retrieve_first ids
        listed (err e) = refl
        listed panic = refl

  seen-first_child :
      {C : Type ℓ} (g : C → Outcome (Option B)) (h : C → Outcome (Option A))
      → ((c : C) → g c ≡ seen (h c))
      → (cs : List C) → first_child g cs ≡ seen (first_child h cs)
  seen-first_child g h each [] = refl
  seen-first_child g h each (c ∷ cs) =
      ap₂ or_next (each c) (seen-first_child g h each cs) ∙ seen-or_next (h c) (first_child h cs)

module _ (api : Vslm) where
  -- The datastore that owns a disk of a cluster is that of the disk that the lookup by identifier
  -- returns, and the one fails exactly when the other does, with the same error.
  pub get_datastore_that_owns_fcd_lem :
      (spi : StoragePodInfo) (disk_id : Text)
      → (get_datastore_that_owns_fcd api spi disk_id).0 ≡ (
          (pod_first_class_disk_info api spi disk_id find_fcd_by_id).0
          >>= (λ d. ok d.datastore_info))
  unfolding get_datastore_that_owns_fcd pod_first_class_disk_info
  get_datastore_that_owns_fcd_lem spi disk_id =
      filled (populate_child_datastore_infos api spi false)
    where
      filled :
          (r : Outcome (Unit {0}) × StoragePodInfo)
          → (then_infos api r (λ pod. owner_in api pod disk_id >>= or_no_disk)).0 ≡ (
              (then_infos api r (λ pod. info_in api pod disk_id find_fcd_by_id >>= or_no_disk)).0
              >>= (λ d. ok d.datastore_info))
      filled (ok u, pod) =
          ap (λ o. o >>= or_no_disk)
            (seen-first_child (λ (d : FirstClassDiskInfo). d.datastore_info)
              (λ (child : DatastoreInfo).
                first_in api pod.storage_pod.datacenter child.datastore.reference (λ o. child)
                  (λ o. o.id == disk_id))
              (λ (child : DatastoreInfo).
                first_in api pod.storage_pod.datacenter child.datastore.reference
                  (pod_disk_info_of pod child) (has_key find_fcd_by_id disk_id))
              (λ child.
                seen-first_in (λ (d : FirstClassDiskInfo). d.datastore_info) api
                  pod.storage_pod.datacenter child.datastore.reference (pod_disk_info_of pod child)
                  (has_key find_fcd_by_id disk_id))
              pod.datastore_infos)
          ∙ seen-or_no_disk (λ (d : FirstClassDiskInfo). d.datastore_info)
              (info_in api pod disk_id find_fcd_by_id)
      filled (err e, pod) = refl
      filled (panic, pod) = refl
