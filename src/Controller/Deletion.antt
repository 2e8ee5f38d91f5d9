-- ===== src/Controller/Deletion.antt =====
-- pkg/csi/service/fcd/controller.go, DeleteVolume: it looks for the disk in all vCenters with
-- `Disks.Search`, and deletes it from the datastore found.
use cloud_provider_vsphere.Common.{
  ℕ, ◌≡◌, refl, sym, ap, subst, ◌∙◌, ◌⊎◌, inl, inr, Bool, true, false, Option, none, some, List,
  Text, is_empty, Map, Error, no_disk_id_found, Outcome, ok, err, panic, ◌>>=◌, deref,
  if◌then◌else◌, arith,
}
use cloud_provider_vsphere.Inventory.{Datacenter}
use cloud_provider_vsphere.Connections.{ConnectionManager}
use cloud_provider_vsphere.Search.{Actor}
use cloud_provider_vsphere.Discovery.{Site}
use cloud_provider_vsphere.Discovery.Machines.{IsPlace}
use cloud_provider_vsphere.Disks.{
  ParentType, type_datastore, type_datastore_cluster, DatastoreInfo, FirstClassDiskInfo, Vslm,
}
use cloud_provider_vsphere.Disks.Datacenters.{
  get_all_datastores, first_existing, does_first_class_disk_exist,
}
use cloud_provider_vsphere.Disks.All.{does_first_class_disk_exist_sound}
use cloud_provider_vsphere.Disks.Store.{Store, delete_first_class_disk}
use cloud_provider_vsphere.Disks.Search.{
  FcdDiscoveryInfo, IsFcd, which_vc_and_dc_by_fcd_id, which_vc_and_dc_by_fcd_id_sound,
}
use cloud_provider_vsphere.Controller.{Reply, done, refused, crashed, internal}

-- The name of the parent of a disk.
abbrev pub parent_name_of : FirstClassDiskInfo → ParentType → Outcome Text
parent_name_of d type_datastore = ok d.datastore_info.info.name
parent_name_of d type_datastore_cluster = do pod ← deref d.storage_pod_info; ok pod.name

module _ {S : Type 0} (store : Store S) where
  abbrev pub on_deleted : Outcome (Unit {0}) × S → Reply (Unit {0}) × S
  on_deleted (ok u, s) = (done tt, s)
  on_deleted (err e, s) = (refused internal, s)
  on_deleted (panic, s) = (crashed, s)

  abbrev pub delete_from : Datacenter → ParentType → Text → Outcome Text → S → Reply (Unit {0}) × S
  delete_from dc type volume_id (ok name) s =
      on_deleted (delete_first_class_disk store dc name type volume_id s)
  delete_from dc type volume_id (err e) s = (crashed, s)
  delete_from dc type volume_id panic s = (crashed, s)

  -- A disk that is not found is taken to be deleted.
  abbrev pub on_located : Text → Outcome (Option FcdDiscoveryInfo) → S → Reply (Unit {0}) × S
  on_located volume_id (ok (some r)) s =
      delete_from r.datacenter r.fcd_info.disk.parent_type volume_id
        (parent_name_of r.fcd_info r.fcd_info.disk.parent_type) s
  on_located volume_id (ok none) s = (crashed, s)
  on_located volume_id (err no_disk_id_found) s = (done tt, s)
  on_located volume_id (err e) s = (refused internal, s)
  on_located volume_id panic s = (crashed, s)

  module _ (site : Site) (t : ℕ) (cm : ConnectionManager) (schedule : List Actor) where
    -- `DeleteVolume`, for a schedule of its search.
    unfoldable pub delete_volume : Text → S → Reply (Unit {0}) × S
    unfolding delete_first_class_disk which_vc_and_dc_by_fcd_id
    delete_volume volume_id s =
        if is_empty volume_id
        then (refused internal, s)
        else on_located volume_id
            (which_vc_and_dc_by_fcd_id site (store.view s) t cm schedule volume_id) s

module _ (vslm : Vslm) (dc : Datacenter) (fcd_id : Text) (d : FirstClassDiskInfo) where
  -- A disk that DoesFirstClassDiskExist returns is told to be on a datastore, never in a cluster.
  pub exists-parent :
      does_first_class_disk_exist vslm dc fcd_id ≡ ok d → d.disk.parent_type ≡ type_datastore
  unfolding does_first_class_disk_exist
  exists-parent h = listed (get_all_datastores vslm dc) refl h
    where
      listed :
          (o : Outcome (Map DatastoreInfo))
          → get_all_datastores vslm dc ≡ o
          → (o >>= (λ m. first_existing vslm dc fcd_id (vslm.range_datastores m))) ≡ ok d
          → d.disk.parent_type ≡ type_datastore
      listed (ok m) e k = (does_first_class_disk_exist_sound vslm dc m fcd_id d e h).2.parent
      listed (err x) e k = absurd (ground arith)
      listed panic e k = absurd (ground arith)

module _ {S : Type 0} (store : Store S) (site : Site) (t : ℕ) (cm : ConnectionManager)
    (schedule : List Actor) (volume_id : Text) where
  -- A disk was deleted from the datastore where the search found it.
  pub record WasDeleted (s s' : S) : Type 0 where
    pub found : FcdDiscoveryInfo
    pub is_there : IsFcd (store.view s) volume_id found
    pub place : IsPlace site cm (record { vc = found.vc_server; datacenter = found.datacenter })
    pub deleted :
        delete_first_class_disk store found.datacenter found.fcd_info.datastore_info.info.name
          type_datastore volume_id s
        ≡ (ok tt, s')

  ends :
      (s s' : S) (o : Outcome (Unit {0}) × S) → on_deleted store o ≡ (done tt, s') → o ≡ (ok tt, s')
  ends s s' (ok tt, s₁) h = ap (λ p. (ok tt, p.1)) h
  ends s s' (err e, s₁) h = absurd (ground (arith, ap (λ p. p.0) h))
  ends s s' (panic, s₁) h = absurd (ground (arith, ap (λ p. p.0) h))

  refused-ends :
      (s s' : S) (e : Error)
      → on_located store volume_id (err e) s ≡ (done tt, s')
      → (e ≡ no_disk_id_found) × (s' ≡ s)
  refused-ends s s' no_disk_id_found h = (refl, sym (ap (λ p. p.1) h))
  refused-ends s s' e h = absurd (ground (arith, ap (λ p. p.0) h))

  -- A call of DeleteVolume that succeeds has either found the disk nowhere, and changed nothing, or
  -- deleted it from the datastore in which the search found it, in a datacenter of the configuration;
  -- also a disk of a cluster is deleted as one of its datastore. This holds for every interleaving of
  -- the goroutines of the search.
  pub delete_volume_sound :
      (s s' : S)
      → delete_volume store site t cm schedule volume_id s ≡ (done tt, s')
      → ((which_vc_and_dc_by_fcd_id site (store.view s) t cm schedule volume_id
            ≡ err no_disk_id_found)
          × (s' ≡ s))
        ⊎ WasDeleted s s'
  unfolding delete_volume
  delete_volume_sound s s' h = guarded (is_empty volume_id) h
    where
      on_search :
          (o : Outcome (Option FcdDiscoveryInfo))
          → which_vc_and_dc_by_fcd_id site (store.view s) t cm schedule volume_id ≡ o
          → on_located store volume_id o s ≡ (done tt, s')
          → ((which_vc_and_dc_by_fcd_id site (store.view s) t cm schedule volume_id
                ≡ err no_disk_id_found)
              × (s' ≡ s))
            ⊎ WasDeleted s s'
      on_search (ok none) w h = absurd (ground (arith, ap (λ p. p.0) h))
      on_search panic w h = absurd (ground (arith, ap (λ p. p.0) h))
      on_search (err e) w h =
          let (absent, same) = refused-ends s s' e h in inl (w ∙ ap err absent, same)
      on_search (ok (some r)) w h =
          let (r', same, there_it_is, p) =
            which_vc_and_dc_by_fcd_id_sound site (store.view s) t cm schedule volume_id (some r)
              w in
          let one : r' ≡ r = ground arith in
          let fcd = subst (IsFcd (store.view s) volume_id) one there_it_is in
          let parent = exists-parent (store.view s) r.datacenter volume_id r.fcd_info fcd in
          inr (record {
            found = r;
            is_there = fcd;
            place =
                subst
                  (λ x. IsPlace site cm (record { vc = x.vc_server; datacenter = x.datacenter }))
                  one p;
            deleted = ends s s' _ (
                sym (
                  ap
                    (λ type.
                      delete_from store r.datacenter type volume_id (parent_name_of r.fcd_info type)
                        s)
                    parent)
                ∙ h);
          })

      guarded :
          (b : Bool)
          → ◌≡◌ {A = Reply (Unit {0}) × S}
              (if b
                then (refused internal, s)
                else on_located store volume_id
                    (which_vc_and_dc_by_fcd_id site (store.view s) t cm schedule volume_id)
                    s)
              (done tt, s')
          → ((which_vc_and_dc_by_fcd_id site (store.view s) t cm schedule volume_id
                ≡ err no_disk_id_found)
              × (s' ≡ s))
            ⊎ WasDeleted s s'
      guarded true h = absurd (ground (arith, ap (λ p. p.0) h))
      guarded false h =
          on_search (which_vc_and_dc_by_fcd_id site (store.view s) t cm schedule volume_id) refl h
