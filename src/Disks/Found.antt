-- ===== src/Disks/Found.antt =====
-- What a lookup that succeeds says of the disk, and what one that fails says of the datacenter.
use cloud_provider_vsphere.Common.{
  ◌≡◌, refl, sym, ap, subst, ◌∙◌, inl, inr, Bool, Bool-cases, true, Option, none, some, List, [],
  ◌∷◌, Text, ==_sound, Outcome, ok, err, panic, ◌>>=◌, Member, here, there, if◌then◌else◌, arith,
}
use cloud_provider_vsphere.Inventory.{Datacenter}
use cloud_provider_vsphere.Disks.{
  Reference, find_fcd_by_id, type_datastore, DatastoreInfo, VStorageObject, FirstClassDiskInfo,
  Vslm, has_key, or_next, or_no_disk, retrieve_first, first_in, disk_info_of,
  get_first_class_disk_info,
}

-- The object manager lists an identifier on a datastore, and retrieves an object for it.
pub record IsStored (api : Vslm) (dc : Datacenter) (ds : Reference) (o : VStorageObject)
    : Type 0 where
  pub ids : List Text
  pub id : Text
  pub listed : api.list dc ds ≡ ok ids
  pub is_listed : Member id ids
  pub retrieved : api.retrieve dc ds id ≡ ok o

module _ {ℓ} {A : Type ℓ} (api : Vslm) (dc : Datacenter) (ds : Reference)
    (wrap : VStorageObject → A) (wanted : VStorageObject → Bool) where
  -- An object that was retrieved for an identifier of a list, and is wanted.
  abbrev pub FromList : List Text → A → Type ℓ
  FromList ids a =
      (o : VStorageObject) × (id : Text) × Member id ids
      × (api.retrieve dc ds id ≡ ok o)
      × (wanted o ≡ true)
      × (wrap o ≡ a)

  later : (id : Text) (ids : List Text) (a : A) → FromList ids a → FromList (id ∷ ids) a
  later id ids a (o, i, m, e, w, s) = (o, i, there m, e, w, s)

  first-from :
      (id : Text) (ids : List Text) (o : Outcome VStorageObject) (next : Outcome (Option A))
      → api.retrieve dc ds id ≡ o
      → ((a : A) → next ≡ ok (some a) → FromList ids a)
      → (a : A)
      → or_next (o >>= (λ v. ok (if wanted v then some (wrap v) else none))) next ≡ ok (some a)
      → FromList (id ∷ ids) a
  first-from id ids (err x) next e f a h = absurd (ground arith)
  first-from id ids panic next e f a h = absurd (ground arith)
  first-from id ids (ok v) next e f a h = elim (Bool-cases (wanted v)) [
    | inl wants ↦
        let now : ok (some (wrap v)) ≡ ok (some a) =
          sym (ap (λ b. or_next (ok (if b then some (wrap v) else none)) next) wants) ∙ h in
        let same : wrap v ≡ a = ground arith in (v, id, here refl, e, wants, same)
    | inr other ↦
        later id ids a
          (f a (sym (ap (λ b. or_next (ok (if b then some (wrap v) else none)) next) other) ∙ h))
  ]

  retrieve_first-from :
      (ids : List Text) (a : A)
      → retrieve_first api dc ds wrap wanted ids ≡ ok (some a)
      → FromList ids a
  retrieve_first-from [] a h = absurd (ground arith)
  retrieve_first-from (id ∷ ids) a h =
      first-from id ids (api.retrieve dc ds id) (retrieve_first api dc ds wrap wanted ids) refl
        (retrieve_first-from ids) a h

  -- A disk that the lookup on a datastore returns is stored there, and is wanted.
  pub first_in_sound :
      (a : A)
      → first_in api dc ds wrap wanted ≡ ok (some a)
      → (o : VStorageObject) × IsStored api dc ds o × (wanted o ≡ true) × (wrap o ≡ a)
  first_in_sound a h = listed (api.list dc ds) refl h
    where
      listed :
          (o : Outcome (List Text))
          → api.list dc ds ≡ o
          → (o >>= (λ ids. retrieve_first api dc ds wrap wanted ids)) ≡ ok (some a)
          → (v : VStorageObject) × IsStored api dc ds v × (wanted v ≡ true) × (wrap v ≡ a)
      listed (ok ids) e h =
          let (v, id, m, r, wants, same) = retrieve_first-from ids a h in
          (v, record { ids = ids; id = id; listed = e; is_listed = m; retrieved = r }, wants, same)
      listed (err x) e h = absurd (ground arith)
      listed panic e h = absurd (ground arith)

pub or_no_disk-some {ℓ} :
    {A : Type ℓ} (o : Outcome (Option A)) (a : A) → (o >>= or_no_disk) ≡ ok a → o ≡ ok (some a)
or_no_disk-some (ok none) a h = absurd (ground arith)
or_no_disk-some (ok (some b)) a h = let e : b ≡ a = ground arith in ap (λ c. ok (some c)) e
or_no_disk-some (err e) a h = absurd (ground arith)
or_no_disk-some panic a h = absurd (ground arith)

module _ (api : Vslm) where
  -- The disk of a datastore with an identifier.
  pub record IsDiskOf (di : DatastoreInfo) (disk_id : Text) (d : FirstClassDiskInfo) : Type 0 where
    pub stored : IsStored api di.datastore.datacenter di.datastore.reference d.disk.object
    pub id : d.disk.object.id ≡ disk_id
    pub here_is : d.datastore_info ≡ di
    pub parent : d.disk.parent_type ≡ type_datastore

  pub get_first_class_disk_info_sound :
      (di : DatastoreInfo) (disk_id : Text) (d : FirstClassDiskInfo)
      → get_first_class_disk_info api di disk_id find_fcd_by_id ≡ ok d
      → IsDiskOf di disk_id d
  unfolding get_first_class_disk_info
  get_first_class_disk_info_sound di disk_id d h =
      let (o, s, wants, same) =
        first_in_sound api di.datastore.datacenter di.datastore.reference (disk_info_of di)
          (has_key find_fcd_by_id disk_id) d (or_no_disk-some _ d h) in
      subst (IsDiskOf di disk_id) same
        (record { stored = s; id = ==_sound o.id disk_id wants; here_is = refl; parent = refl })
