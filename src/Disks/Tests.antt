-- ===== src/Disks/Tests.antt =====
-- Lookups, listings and the deletion of the sample disks.
use cloud_provider_vsphere.Common.{
  inl, ◌≡◌, refl, true, false, Bool, some, [], ◌∷◌, map, concat, codes, ◌==◌, Map, no_disk_id_found,
  no_datastore_clusters_found, foreign, ok, err, ◌>>=◌, if◌then◌else◌, here, there,
}
use cloud_provider_vsphere.Discovery.Machines.{IsPlace}
use cloud_provider_vsphere.Discovery.Tests.{discovering, dc_b, site, one_vc, rounds}
use cloud_provider_vsphere.Search.{is_finished}
use cloud_provider_vsphere.Discovery.Reached.{IsReached}
use cloud_provider_vsphere.Disks.{
  or_no_disk, type_datastore_cluster, find_fcd_by_id, DatastoreInfo, StoragePodInfo,
  FirstClassDiskInfo, Vslm, pod_disk_info_of, list_first_class_disk_infos,
}
use cloud_provider_vsphere.Disks.Pods.{
  datastore_at, list_first_class_disks_info, pod_first_class_disk_info, get_datastore_that_owns_fcd,
}
use cloud_provider_vsphere.Disks.Lookup.{first_such, info_has_key, pod_first_class_disk_info-list}
use cloud_provider_vsphere.Disks.Owner.{get_datastore_that_owns_fcd_lem}
use cloud_provider_vsphere.Disks.Datacenters.{
  exists_in_list, get_all_datastores, get_all_datastore_clusters, find_first_class_disk,
  get_all_first_class_disks, does_first_class_disk_exist, pod_at,
}
use cloud_provider_vsphere.Disks.Store.{
  deleted, place_of, create_first_class_disk, delete_first_class_disk,
  delete_first_class_disk_where_found,
}
use cloud_provider_vsphere.Disks.All.{disks_on, get_all_first_class_disks_lem}
use cloud_provider_vsphere.Disks.Search.{
  FcdDiscoveryInfo, IsFcd, fcd_search, which_vc_and_dc_by_fcd_id, which_vc_and_dc_by_fcd_id_sound,
  which_vc_and_dc_by_fcd_id_complete,
}
use cloud_provider_vsphere.Disks.Samples.{
  looking_up, ids_on, object_on, info_of, values, vslm, store, object, two_disks, fast, slow,
  disk_x, disk_y,
}

fast-listed : list_first_class_disk_infos (vslm true two_disks) fast ≡ ok (disk_x ∷ [])
unfolding looking_up
fast-listed = refl

abbrev pool : StoragePodInfo
pool = pod_at (vslm true two_disks) dc_b (codes "pod-1", codes "pool")

abbrev pool_filled : StoragePodInfo
pool_filled = record {
  storage_pod = record {
    datacenter = dc_b;
    reference = codes "pod-1";
    datastores = datastore_at dc_b (codes "ds-2") ∷ [];
  };
  name = codes "pool";
  datastore_infos = slow ∷ [];
}

abbrev pool_y : FirstClassDiskInfo
pool_y = pod_disk_info_of pool_filled slow (object (codes "y"))

pool-listed : (list_first_class_disks_info (vslm true two_disks) pool).0 ≡ ok (pool_y ∷ [])
unfolding looking_up
pool-listed = refl

get_datastore_that_owns_fcd_lem_example :
    (get_datastore_that_owns_fcd (vslm true two_disks) pool (codes "y")).0 ≡ (
      (pod_first_class_disk_info (vslm true two_disks) pool (codes "y") find_fcd_by_id).0
      >>= (λ d. ok d.datastore_info))
get_datastore_that_owns_fcd_lem_example =
    get_datastore_that_owns_fcd_lem (vslm true two_disks) pool (codes "y")

-- A disk of a cluster is placed, created and deleted.
placed :
    create_first_class_disk store dc_b (codes "pool") type_datastore_cluster (codes "n") 5 [] ≡ (
      ok tt,
      (
        codes "ds-2",
        record {
          id = codes "new";
          name = codes "n";
          capacity_in_mb = 5;
          file_path = some (codes "p");
        },
      )
          ∷ [],
    )
unfolding looking_up
placed = refl

delete_first_class_disk_where_found_example :
    delete_first_class_disk store dc_b (codes "pool") type_datastore_cluster (codes "y") two_disks
    ≡ deleted store dc_b
        (codes "y")
        (find_first_class_disk
            (vslm true two_disks)
            dc_b
            (codes "pool")
            type_datastore_cluster
            (codes "y")
            find_fcd_by_id
          >>= place_of store dc_b)
        two_disks
delete_first_class_disk_where_found_example =
    delete_first_class_disk_where_found store dc_b (codes "pool") (codes "y") two_disks

abbrev both : Map DatastoreInfo
both = (codes "u1", fast) ∷ (codes "u2", slow) ∷ []

no-clusters :
    get_all_datastore_clusters (vslm false two_disks) dc_b true ≡ err no_datastore_clusters_found
unfolding looking_up
no-clusters = refl

both-listed : (b : Bool) → get_all_datastores (vslm b two_disks) dc_b ≡ ok both
unfolding looking_up
both-listed b = refl

names-differ : exists_in_list (codes "slow") (codes "fast" ∷ []) false ≡ false
unfolding looking_up
names-differ = refl

get_all_first_class_disks_lem_example :
    get_all_first_class_disks (vslm false two_disks) dc_b
    ≡ ok (concat (map (disks_on (vslm false two_disks) dc_b) (fast ∷ slow ∷ [])))
unfolding looking_up
get_all_first_class_disks_lem_example =
    get_all_first_class_disks_lem (vslm false two_disks) dc_b both no-clusters (both-listed false)
      (refl, (names-differ, tt))

clusters-listed :
    get_all_datastore_clusters (vslm true two_disks) dc_b true
    ≡ ok ((codes "pool", pool_filled) ∷ [])
unfolding looking_up
clusters-listed = refl

y-exists : does_first_class_disk_exist (vslm true two_disks) dc_b (codes "y") ≡ ok disk_y
unfolding looking_up
y-exists = refl

z-missing :
    does_first_class_disk_exist (vslm true two_disks) dc_b (codes "z") ≡ err no_disk_id_found
unfolding looking_up
z-missing = refl

abbrev y_info : FcdDiscoveryInfo
y_info = record { datacenter = dc_b; fcd_info = disk_y; vc_server = codes "vc1" }

abbrev only_b : Vslm
only_b = record {
  list = λ dc r. if dc.name == codes "b" then ok (ids_on r two_disks) else err (foreign []);
  retrieve = λ dc r id. object_on r id two_disks;
  children = λ dc r. ok [];
  datastore_list = λ dc. ok (codes "ds-1" ∷ codes "ds-2" ∷ []);
  datastore_cluster_list = λ dc. err (foreign []);
  datastore = λ dc name. err (foreign []);
  datastore_cluster = λ dc name. err (foreign []);
  default_compute_resource = λ dc. err (foreign []);
  compute_resource = λ dc path. err (foreign []);
  resource_pool = λ dc r. err (foreign []);
  retrieve_infos = λ dc refs. ok (map (λ r. (r, info_of r)) refs);
  retrieve_info = λ dc r. ok (info_of r);
  retrieve_pods = λ dc refs. ok [];
  retrieve_pod = λ dc r. err (foreign []);
  range_datastores = values;
  range_pods = values;
}

y-found : which_vc_and_dc_by_fcd_id site only_b 0 one_vc rounds (codes "y") ≡ ok (some y_info)
unfolding looking_up discovering which_vc_and_dc_by_fcd_id
y-found = refl

which_vc_and_dc_by_fcd_id_sound_example :
    (r : FcdDiscoveryInfo) × (some y_info ≡ some r)
    × IsFcd only_b (codes "y") r
    × IsPlace site one_vc (record { vc = r.vc_server; datacenter = r.datacenter })
which_vc_and_dc_by_fcd_id_sound_example =
    which_vc_and_dc_by_fcd_id_sound site only_b 0 one_vc rounds (codes "y") (some y_info) y-found

b-IsReached : IsReached site 0 one_vc.instances one_vc (codes "vc1") dc_b
unfolding discovering
b-IsReached = inl (refl, refl, there (here refl))

y-exists-b : does_first_class_disk_exist only_b dc_b (codes "y") ≡ ok disk_y
unfolding looking_up
y-exists-b = refl

search_ended : is_finished (fcd_search site only_b 0 one_vc rounds (codes "y")) ≡ true
unfolding looking_up discovering fcd_search
search_ended = refl

which_vc_and_dc_by_fcd_id_complete_example :
    (r : FcdDiscoveryInfo) × (which_vc_and_dc_by_fcd_id site only_b 0 one_vc rounds (codes "y")
      ≡ ok (some r))
    × IsFcd only_b (codes "y") r
    × IsPlace site one_vc (record { vc = r.vc_server; datacenter = r.datacenter })
which_vc_and_dc_by_fcd_id_complete_example =
    which_vc_and_dc_by_fcd_id_complete site only_b 0 one_vc rounds (codes "y") (codes "vc1") dc_b
      disk_y refl b-IsReached y-exists-b search_ended

pod_first_class_disk_info-list_example :
    (pod_first_class_disk_info (vslm true two_disks) pool (codes "y") find_fcd_by_id).0
    ≡ or_no_disk (first_such (info_has_key find_fcd_by_id (codes "y")) (pool_y ∷ []))
pod_first_class_disk_info-list_example =
    pod_first_class_disk_info-list (vslm true two_disks) pool (codes "y") find_fcd_by_id
      (pool_y ∷ []) pool-listed
