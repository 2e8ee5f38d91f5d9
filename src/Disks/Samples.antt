-- ===== src/Disks/Samples.antt =====
-- The disks that the examples run on: a datacenter with a datastore of its own and a cluster of one
-- datastore, with a disk on each.
use cloud_provider_vsphere.Common.{
  true, Bool, ◌&&◌, some, List, [], ◌∷◌, map, Text, codes, ◌==◌, equal_fold, to_lower, Map, insert,
  foreign, Outcome, ok, err, if◌then◌else◌,
}
use cloud_provider_vsphere.Discovery.Tests.{dc_b}
use cloud_provider_vsphere.Disks.{
  Reference, Info, DatastoreInfo, VStorageObject, FirstClassDiskInfo, Vslm, disk_info_of,
  list_first_class_disk_infos, get_first_class_disk_info,
}
use cloud_provider_vsphere.Disks.Pods.{
  datastore_info_at, populate_child_datastores, populate_child_datastore_infos,
  list_first_class_disks_info, pod_first_class_disk_info, get_datastore_that_owns_fcd,
}
use cloud_provider_vsphere.Disks.Datacenters.{
  exists_in_list, get_all_datastores, get_datastore_by_name, get_all_datastore_clusters,
  get_datastore_cluster_by_name, get_resource_pool, find_first_class_disk, disks_of_datastores,
  get_all_first_class_disks, does_first_class_disk_exist,
}
use cloud_provider_vsphere.Disks.Store.{Store, create_first_class_disk, delete_first_class_disk}

unfoldable pub looking_up : Unit {0}
unfolding list_first_class_disk_infos get_first_class_disk_info populate_child_datastores
    populate_child_datastore_infos list_first_class_disks_info pod_first_class_disk_info
    get_datastore_that_owns_fcd exists_in_list get_all_datastores get_datastore_by_name
    get_resource_pool get_all_datastore_clusters get_datastore_cluster_by_name find_first_class_disk
    disks_of_datastores get_all_first_class_disks does_first_class_disk_exist
    create_first_class_disk delete_first_class_disk insert ◌==◌ equal_fold to_lower
looking_up = tt

-- The disks of a vCenter, each with its datastore.
abbrev pub Disks : Type 0
Disks = List (Reference × VStorageObject)

abbrev pub ids_on : Reference → Disks → List Text
ids_on r [] = []
ids_on r ((s, o) ∷ rest) = if r == s then o.id ∷ ids_on r rest else ids_on r rest

abbrev pub object_on : Reference → Text → Disks → Outcome VStorageObject
object_on r id [] = err (foreign (codes "not found"))
object_on r id ((s, o) ∷ rest) = if (r == s) && (id == o.id) then ok o else object_on r id rest

abbrev without : Reference → Text → Disks → Disks
without r id [] = []
without r id ((s, o) ∷ rest) = if (r == s) && (id == o.id) then rest else (s, o) ∷ without r id rest

abbrev pub info_of : Reference → Info
info_of r =
    if r == codes "ds-1"
    then record { name = codes "fast"; url = codes "u1" }
    else record { name = codes "slow"; url = codes "u2" }

abbrev pub values : {V : Type 0} → Map V → List V
values m = map (λ e. e.1) m

-- With clusters or without.
abbrev pub vslm : Bool → Disks → Vslm
vslm clusters disks = record {
  list = λ dc r. ok (ids_on r disks);
  retrieve = λ dc r id. object_on r id disks;
  children = λ dc r. ok (codes "ds-2" ∷ []);
  datastore_list = λ dc. ok (codes "ds-1" ∷ codes "ds-2" ∷ []);
  datastore_cluster_list =
      λ dc. if clusters then ok (codes "pod-1" ∷ []) else err (foreign (codes "not found"));
  datastore = λ dc name. if name == codes "fast" then ok (codes "ds-1") else ok (codes "ds-2");
  datastore_cluster = λ dc name. ok (codes "pod-1");
  default_compute_resource = λ dc. ok (codes "cr-1");
  compute_resource = λ dc path. ok (codes "cr-1");
  resource_pool = λ dc r. ok (codes "rp-1");
  retrieve_infos = λ dc refs. ok (map (λ r. (r, info_of r)) refs);
  retrieve_info = λ dc r. ok (info_of r);
  retrieve_pods = λ dc refs. ok (map (λ r. (r, codes "pool")) refs);
  retrieve_pod = λ dc r. ok (r, codes "pool");
  range_datastores = values;
  range_pods = values;
}

abbrev pub store : Store Disks
store = record {
  view = vslm true;
  place_disk = λ dc spec pool s.
      ok (record {
        name = spec.name;
        capacity_in_mb = spec.capacity_in_mb;
        datastore = codes "ds-2";
      });
  create_disk = λ dc spec s. (
    ok 1,
    (
      spec.datastore,
      record {
        id = codes "new";
        name = spec.name;
        capacity_in_mb = spec.capacity_in_mb;
        file_path = some (codes "p");
      },
    )
        ∷ s,
  );
  delete = λ dc r id s. (ok 1, without r id s);
  wait = λ task s. (ok tt, s);
}

abbrev pub object : Text → VStorageObject
object id = record { id = id; name = id; capacity_in_mb = 1024; file_path = some id }

abbrev pub two_disks : Disks
two_disks = (codes "ds-1", object (codes "x")) ∷ (codes "ds-2", object (codes "y")) ∷ []

abbrev pub fast : DatastoreInfo
fast = datastore_info_at dc_b (codes "ds-1", info_of (codes "ds-1"))

abbrev pub slow : DatastoreInfo
slow = datastore_info_at dc_b (codes "ds-2", info_of (codes "ds-2"))

abbrev pub disk_x : FirstClassDiskInfo
disk_x = disk_info_of fast (object (codes "x"))

abbrev pub disk_y : FirstClassDiskInfo
disk_y = disk_info_of slow (object (codes "y"))
