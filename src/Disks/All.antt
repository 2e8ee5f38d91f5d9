-- ===== src/Disks/All.antt =====
-- The disks of a datacenter, as GetAllFirstClassDisks lists them, and what DoesFirstClassDiskExist
-- says of them.
use cloud_provider_vsphere.Common.{
  ◌≡◌, ◌≢◌, refl, sym, ap, ◌∙◌, inl, inr, true, false, List, [], ◌∷◌, ◌++◌, append-nil,
  append_assoc, Any-cons, not-Any-nil, map, concat, Text, Error, no_disk_id_found,
  no_datastore_clusters_found, Outcome, ok, err, panic, ◌>>=◌, Member, here, there, Map,
  if◌then◌else◌, arith,
}
use cloud_provider_vsphere.Inventory.{Datacenter}
use cloud_provider_vsphere.Disks.{
  find_fcd_by_id, DatastoreInfo, StoragePodInfo, FirstClassDiskInfo, Vslm,
  list_first_class_disk_infos, get_first_class_disk_info,
}
use cloud_provider_vsphere.Disks.Datacenters.{
  exists_in_list, get_all_datastores, get_all_datastore_clusters, or_skipped, disks_of_datastores,
  after_clusters, get_all_first_class_disks, found_or, first_existing, does_first_class_disk_exist,
}
use cloud_provider_vsphere.Disks.Found.{IsDiskOf, get_first_class_disk_info_sound}

-- No name is, up to case, among those before it.
abbrev pub Distinct : List Text → List DatastoreInfo → Type 0
Distinct visited [] = Unit {0}
Distinct visited (d ∷ ds) =
    (exists_in_list d.info.name visited false ≡ false) × Distinct (visited ++ (d.info.name ∷ [])) ds

module _ (api : Vslm) (dc : Datacenter) where
  -- What a datastore has, if it can be listed.
  abbrev pub disks_on : DatastoreInfo → List FirstClassDiskInfo
  disks_on d = or_skipped (list_first_class_disk_infos api d)

  disks_of_datastores-concat :
      (ds : List DatastoreInfo) (visited : List Text) (disks : List FirstClassDiskInfo)
      → Distinct visited ds
      → disks_of_datastores api dc ds visited disks ≡ disks ++ concat (map disks_on ds)
  unfolding disks_of_datastores
  disks_of_datastores-concat [] visited disks h = sym (append-nil disks)
  disks_of_datastores-concat (d ∷ ds) visited disks (new, h) =
      ap
        (λ b.
          if b
          then disks_of_datastores api dc ds visited disks
          else disks_of_datastores api dc ds (visited ++ (d.info.name ∷ [])) (disks ++ disks_on d))
        new
      ∙ disks_of_datastores-concat ds (visited ++ (d.info.name ∷ [])) (disks ++ disks_on d) h
      ∙ append_assoc disks (disks_on d) (concat (map disks_on ds))

  -- In a datacenter without clusters whose datastores have names that differ in more than case, the
  -- disks listed are those of every datastore that can be listed, each once, in the order of the
  -- datastores.
  pub get_all_first_class_disks_lem :
      (m : Map DatastoreInfo)
      → get_all_datastore_clusters api dc true ≡ err no_datastore_clusters_found
      → get_all_datastores api dc ≡ ok m
      → Distinct [] (api.range_datastores m)
      → get_all_first_class_disks api dc ≡ ok (concat (map disks_on (api.range_datastores m)))
  unfolding get_all_first_class_disks
  get_all_first_class_disks_lem m none_there e h =
      ap (after_clusters api dc) none_there
      ∙ ap (λ o. o >>= (λ n. ok (disks_of_datastores api dc (api.range_datastores n) [] []))) e
      ∙ ap ok (disks_of_datastores-concat (api.range_datastores m) [] [] h)

  -- In a datacenter whose clusters can be listed, no disk is listed and no error returned, whatever
  -- disks there are.
  pub get_all_first_class_disks_clusters :
      (pods : Map StoragePodInfo)
      → get_all_datastore_clusters api dc true ≡ ok pods
      → get_all_first_class_disks api dc ≡ ok []
  unfolding get_all_first_class_disks
  get_all_first_class_disks_clusters pods e = ap (after_clusters api dc) e

  -- A disk of one of the datastores.
  abbrev pub Exists : Text → List DatastoreInfo → FirstClassDiskInfo → Type 0
  Exists fcd_id ds d = (di : DatastoreInfo) × Member di ds × IsDiskOf api di fcd_id d

  Exists-first :
      (di : DatastoreInfo) (ds : List DatastoreInfo) (fcd_id : Text) (d : FirstClassDiskInfo)
      (o next : Outcome FirstClassDiskInfo)
      → get_first_class_disk_info api di fcd_id find_fcd_by_id ≡ o
      → (next ≡ ok d → Exists fcd_id ds d)
      → found_or o next ≡ ok d
      → Exists fcd_id (di ∷ ds) d
  Exists-first di ds fcd_id d (ok x) next e f h =
      let same : x ≡ d = ground arith in
      (di, here refl, get_first_class_disk_info_sound api di fcd_id d (e ∙ ap ok same))
  Exists-first di ds fcd_id d (err x) next e f h = let (di', m, i) = f h in (di', there m, i)
  Exists-first di ds fcd_id d panic next e f h = absurd (ground arith)

  first_existing_sound :
      (ds : List DatastoreInfo) (fcd_id : Text) (d : FirstClassDiskInfo)
      → first_existing api dc fcd_id ds ≡ ok d
      → Exists fcd_id ds d
  first_existing_sound [] fcd_id d h = absurd (ground arith)
  first_existing_sound (di ∷ ds) fcd_id d h =
      Exists-first di ds fcd_id d (get_first_class_disk_info api di fcd_id find_fcd_by_id)
        (first_existing api dc fcd_id ds) refl (first_existing_sound ds fcd_id d) h

  -- A disk that DoesFirstClassDiskExist returns has the identifier, and is stored on one of the
  -- datastores of the datacenter, which is the one returned with it.
  pub does_first_class_disk_exist_sound :
      (m : Map DatastoreInfo) (fcd_id : Text) (d : FirstClassDiskInfo)
      → get_all_datastores api dc ≡ ok m
      → does_first_class_disk_exist api dc fcd_id ≡ ok d
      → Exists fcd_id (api.range_datastores m) d
  unfolding does_first_class_disk_exist
  does_first_class_disk_exist_sound m fcd_id d e h =
      first_existing_sound (api.range_datastores m) fcd_id d
        (sym (ap (λ o. o >>= (λ n. first_existing api dc fcd_id (api.range_datastores n))) e) ∙ h)

  -- No disk with the identifier is found, although another datastore may fail.
  abbrev pub Absent : Text → List DatastoreInfo → Type 0
  Absent fcd_id ds =
      (di : DatastoreInfo) (d : FirstClassDiskInfo)
      → Member di ds
      → get_first_class_disk_info api di fcd_id find_fcd_by_id ≢ ok d

  Absent-first :
      (di : DatastoreInfo) (ds : List DatastoreInfo) (fcd_id : Text) (x : Error)
      (o next : Outcome FirstClassDiskInfo)
      → get_first_class_disk_info api di fcd_id find_fcd_by_id ≡ o
      → (next ≡ err x → (x ≡ no_disk_id_found) × Absent fcd_id ds)
      → found_or o next ≡ err x
      → (x ≡ no_disk_id_found) × Absent fcd_id (di ∷ ds)
  Absent-first di ds fcd_id x (ok y) next e f h = absurd (ground arith)
  Absent-first di ds fcd_id x panic next e f h = absurd (ground arith)
  Absent-first di ds fcd_id x (err y) next e f h = (
    (f h).0,
    λ di' d m. elim (Any-cons m) [
      | inl same ↦ λ k.
          (let both : get_first_class_disk_info api di fcd_id find_fcd_by_id ≡ ok d =
              ap (λ z. get_first_class_disk_info api z fcd_id find_fcd_by_id) same ∙ k in
            cc (both, e))
      | inr other ↦ (f h).1 di' d other
    ],
  )

  first_existing-Absent :
      (ds : List DatastoreInfo) (fcd_id : Text) (x : Error)
      → first_existing api dc fcd_id ds ≡ err x
      → (x ≡ no_disk_id_found) × Absent fcd_id ds
  first_existing-Absent [] fcd_id x h = (ground arith, λ di d m. absurd (not-Any-nil m))
  first_existing-Absent (di ∷ ds) fcd_id x h =
      Absent-first di ds fcd_id x (get_first_class_disk_info api di fcd_id find_fcd_by_id)
        (first_existing api dc fcd_id ds) refl (first_existing-Absent ds fcd_id x) h

  -- If the datastores can be listed, an error of DoesFirstClassDiskExist is ErrNoDiskIDFound, and the
  -- disk can be looked up on none of them.
  pub does_first_class_disk_exist-Absent :
      (m : Map DatastoreInfo) (fcd_id : Text) (x : Error)
      → get_all_datastores api dc ≡ ok m
      → does_first_class_disk_exist api dc fcd_id ≡ err x
      → (x ≡ no_disk_id_found) × Absent fcd_id (api.range_datastores m)
  unfolding does_first_class_disk_exist
  does_first_class_disk_exist-Absent m fcd_id x e h =
      first_existing-Absent (api.range_datastores m) fcd_id x
        (sym (ap (λ o. o >>= (λ n. first_existing api dc fcd_id (api.range_datastores n))) e) ∙ h)
