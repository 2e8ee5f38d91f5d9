-- ===== src/Disks/Lookup.antt =====
-- Looking up a disk, against the list of all disks.
use cloud_provider_vsphere.Common.{
  ◌≡◌, refl, sym, ap, ◌∙◌, Bool, true, false, Option, none, some, List, [], ◌∷◌, ◌++◌, Text,
  Outcome, ok, err, panic, ◌>>=◌, if◌then◌else◌, arith,
}
use cloud_provider_vsphere.Inventory.{Datacenter}
use cloud_provider_vsphere.Disks.{
  Reference, FindFcd, DatastoreInfo, StoragePodInfo, VStorageObject, FirstClassDiskInfo, Vslm,
  has_key, or_next, or_no_disk, retrieve_all, retrieve_first, list_in, first_in, list_children,
  first_child, disk_info_of, pod_disk_info_of, list_first_class_disk_infos,
  get_first_class_disk_info,
}
use cloud_provider_vsphere.Disks.Pods.{
  then_infos, infos_in, info_in, populate_child_datastore_infos, list_first_class_disks_info,
  pod_first_class_disk_info,
}

-- The first element that passes a test.
abbrev pub first_such {ℓ} : {A : Type ℓ} → (A → Bool) → List A → Option A
first_such p [] = none
first_such p (x ∷ xs) = if p x then some x else first_such p xs

-- The test of a disk with its information.
abbrev pub info_has_key : FindFcd → Text → FirstClassDiskInfo → Bool
info_has_key by disk_id d = has_key by disk_id d.disk.object

module _ {ℓ} {A : Type ℓ} (p : A → Bool) where
  next-found :
      (x : A) (xs : List A) (b : Bool)
      → p x ≡ b
      → (next : Outcome (Option A)) → next ≡ ok (first_such p xs)
      → or_next (ok (if b then some x else none)) next ≡ ok (first_such p (x ∷ xs))
  next-found x xs true e next h = ap (λ c. ok (if c then some x else first_such p xs)) (sym e)
  next-found x xs false e next h = h ∙ ap (λ c. ok (if c then some x else first_such p xs)) (sym e)

  next-append :
      (xs ys : List A) (next : Outcome (Option A))
      → next ≡ ok (first_such p ys)
      → or_next (ok (first_such p xs)) next ≡ ok (first_such p (xs ++ ys))
  next-append [] ys next h = h
  next-append (x ∷ xs) ys next h = choose (p x) (next-append xs ys next h)
    where
      choose :
          (b : Bool)
          → or_next (ok (first_such p xs)) next ≡ ok (first_such p (xs ++ ys))
          → or_next (ok (if b then some x else first_such p xs)) next
            ≡ ok (if b then some x else first_such p (xs ++ ys))
      choose true induction = refl
      choose false induction = induction

  module _ (api : Vslm) (dc : Datacenter) (ds : Reference) (wrap : VStorageObject → A)
      (wanted : VStorageObject → Bool) where
    first-retrieved :
        ((o : VStorageObject) → p (wrap o) ≡ wanted o)
        → (o : Outcome VStorageObject) (rest : Outcome (List A)) (next : Outcome (Option A))
        → ((disks : List A) → rest ≡ ok disks → next ≡ ok (first_such p disks))
        → (disks : List A) → (o >>= (λ v. rest >>= (λ vs. ok (wrap v ∷ vs)))) ≡ ok disks
        → or_next (o >>= (λ v. ok (if wanted v then some (wrap v) else none))) next
          ≡ ok (first_such p disks)
    first-retrieved same (ok v) (ok vs) next ih disks h =
        let e : wrap v ∷ vs ≡ disks = ground arith in
        next-found (wrap v) vs (wanted v) (same v) next (ih vs refl)
        ∙ ap (λ l. ok (first_such p l)) e
    first-retrieved same (ok v) (err x) next ih disks h = absurd (ground arith)
    first-retrieved same (ok v) panic next ih disks h = absurd (ground arith)
    first-retrieved same (err x) rest next ih disks h = absurd (ground arith)
    first-retrieved same panic rest next ih disks h = absurd (ground arith)

    retrieve_first-all :
        ((o : VStorageObject) → p (wrap o) ≡ wanted o)
        → (ids : List Text) (disks : List A) → retrieve_all api dc ds wrap ids ≡ ok disks
        → retrieve_first api dc ds wrap wanted ids ≡ ok (first_such p disks)
    retrieve_first-all same [] disks h =
        let e : [] ≡ disks = ground arith in ap (λ l. ok (first_such p l)) e
    retrieve_first-all same (id ∷ ids) disks h =
        first-retrieved same (api.retrieve dc ds id) (retrieve_all api dc ds wrap ids)
          (retrieve_first api dc ds wrap wanted ids) (retrieve_first-all same ids) disks h

    -- The first disk of a datastore that is looked for is the first such of its list.
    pub first_in-list_in :
        ((o : VStorageObject) → p (wrap o) ≡ wanted o)
        → (disks : List A) → list_in api dc ds wrap ≡ ok disks
        → first_in api dc ds wrap wanted ≡ ok (first_such p disks)
    first_in-list_in same disks h = listed (api.list dc ds) h
      where
        listed :
            (o : Outcome (List Text))
            → (o >>= (λ ids. retrieve_all api dc ds wrap ids)) ≡ ok disks
            → (o >>= (λ ids. retrieve_first api dc ds wrap wanted ids)) ≡ ok (first_such p disks)
        listed (ok ids) h = retrieve_first-all same ids disks h
        listed (err e) h = absurd (ground arith)
        listed panic h = absurd (ground arith)

  module _ {C : Type ℓ} (list_of : C → Outcome (List A)) (first_of : C → Outcome (Option A)) where
    first-listed :
        (o : Outcome (List A)) (rest : Outcome (List A)) (first next : Outcome (Option A))
        → ((disks : List A) → o ≡ ok disks → first ≡ ok (first_such p disks))
        → ((disks : List A) → rest ≡ ok disks → next ≡ ok (first_such p disks))
        → (disks : List A) → (o >>= (λ xs. rest >>= (λ ys. ok (xs ++ ys)))) ≡ ok disks
        → or_next first next ≡ ok (first_such p disks)
    first-listed (ok xs) (ok ys) first next front back disks h =
        let e : xs ++ ys ≡ disks = ground arith in
        ap (λ o. or_next o next) (front xs refl)
        ∙ next-append xs ys next (back ys refl)
        ∙ ap (λ l. ok (first_such p l)) e
    first-listed (ok xs) (err x) first next front back disks h = absurd (ground arith)
    first-listed (ok xs) panic first next front back disks h = absurd (ground arith)
    first-listed (err x) rest first next front back disks h = absurd (ground arith)
    first-listed panic rest first next front back disks h = absurd (ground arith)

    pub first_child-list_children :
        ((c : C) (disks : List A) → list_of c ≡ ok disks → first_of c ≡ ok (first_such p disks))
        → (cs : List C) (disks : List A) → list_children list_of cs ≡ ok disks
        → first_child first_of cs ≡ ok (first_such p disks)
    first_child-list_children each [] disks h =
        let e : [] ≡ disks = ground arith in ap (λ l. ok (first_such p l)) e
    first_child-list_children each (c ∷ cs) disks h =
        first-listed (list_of c) (list_children list_of cs) (first_of c) (first_child first_of cs)
          (each c) (first_child-list_children each cs) disks h

module _ (api : Vslm) where
  -- If the disks of a datastore can be listed, the lookup by name or by identifier returns the first
  -- disk of that list that has the name or the identifier, and ErrNoDiskIDFound if none has.
  pub get_first_class_disk_info-list :
      (di : DatastoreInfo) (disk_id : Text) (by : FindFcd) (disks : List FirstClassDiskInfo)
      → list_first_class_disk_infos api di ≡ ok disks
      → get_first_class_disk_info api di disk_id by
        ≡ or_no_disk (first_such (info_has_key by disk_id) disks)
  unfolding list_first_class_disk_infos get_first_class_disk_info
  get_first_class_disk_info-list di disk_id by disks h =
      ap (λ o. o >>= or_no_disk)
        (first_in-list_in (info_has_key by disk_id) api di.datastore.datacenter
          di.datastore.reference (disk_info_of di) (has_key by disk_id) (λ o. refl) disks h)

  -- The same for a cluster: if the disks of its datastores can be listed, the lookup returns the
  -- first disk of that list that has the name or the identifier, and ErrNoDiskIDFound if none has.
  pub pod_first_class_disk_info-list :
      (spi : StoragePodInfo) (disk_id : Text) (by : FindFcd) (disks : List FirstClassDiskInfo)
      → (list_first_class_disks_info api spi).0 ≡ ok disks
      → (pod_first_class_disk_info api spi disk_id by).0
        ≡ or_no_disk (first_such (info_has_key by disk_id) disks)
  unfolding list_first_class_disks_info pod_first_class_disk_info
  pod_first_class_disk_info-list spi disk_id by disks h =
      filled (populate_child_datastore_infos api spi false) h
    where
      filled :
          (r : Outcome (Unit {0}) × StoragePodInfo)
          → (then_infos api r (infos_in api)).0 ≡ ok disks
          → (then_infos api r (λ pod. info_in api pod disk_id by >>= or_no_disk)).0
            ≡ or_no_disk (first_such (info_has_key by disk_id) disks)
      filled (ok u, pod) h =
          ap (λ o. o >>= or_no_disk)
            (first_child-list_children (info_has_key by disk_id)
              (λ (child : DatastoreInfo).
                list_in api pod.storage_pod.datacenter child.datastore.reference
                  (pod_disk_info_of pod child))
              (λ (child : DatastoreInfo).
                first_in api pod.storage_pod.datacenter child.datastore.reference
                  (pod_disk_info_of pod child) (has_key by disk_id))
              (λ child.
                first_in-list_in (info_has_key by disk_id) api pod.storage_pod.datacenter
                  child.datastore.reference (pod_disk_info_of pod child) (has_key by disk_id)
                  (λ o. refl))
              pod.datastore_infos disks h)
      filled (err e, pod) h = absurd (ground arith)
      filled (panic, pod) h = absurd (ground arith)
