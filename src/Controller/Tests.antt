-- ===== src/Controller/Tests.antt =====
-- A vCenter with room for one disk, and requests for a volume.
use cloud_provider_vsphere.Common.{
  ◌*◌, ℕ, zero, suc, ◌+◌, ◌/◌, ◌≡◌, refl, ◌⊎◌, none, some, Option, List, [], ◌∷◌, Text, codes,
  lookup, no_disk_id_found, Outcome, ok, err, arith,
}
use native.Mathlib.Nat.{div-add-mod', mod-lt}
use cloud_provider_vsphere.Zones.Looking.{ZoneDiscoveryInfo}
use cloud_provider_vsphere.Discovery.Tests.{discovering, dc_b, site, one_vc, rounds}
use cloud_provider_vsphere.Disks.{VStorageObject, Vslm}
use cloud_provider_vsphere.Disks.Store.{Store}
use cloud_provider_vsphere.Disks.Search.{which_vc_and_dc_by_fcd_id}
use cloud_provider_vsphere.Disks.Samples.{looking_up, store, two_disks, Disks, object, values}
use cloud_provider_vsphere.Volumes.{Volume}
use cloud_provider_vsphere.Controller.{
  done, crashed, CreateVolumeRequest, lacks_parameter, first_topology, place, volume_size_mb,
  named_disk, new_disk, create_volume,
}
use cloud_provider_vsphere.Controller.Created.{IsNew, IsVolumeOf, create_volume-IsVolumeOf}
use cloud_provider_vsphere.Controller.Repeated.{
  IsRounding, Holds, AnswersAgain, create_volume-again, create_volume-capacity,
}
use cloud_provider_vsphere.Controller.Deletion.{delete_volume, WasDeleted, delete_volume_sound}

-- The disk, if there is one.
abbrev pub One : Type 0
One = Option VStorageObject

abbrev ids_of : One → List Text
ids_of none = []
ids_of (some o) = o.id ∷ []

abbrev held : One → Outcome VStorageObject
held none = err no_disk_id_found
held (some o) = ok o

abbrev view_of : One → Vslm
view_of s = record {
  list = λ dc r. ok (ids_of s);
  retrieve = λ dc r id. held s;
  children = λ dc r. ok (codes "ds-1" ∷ []);
  datastore_list = λ dc. ok (codes "ds-1" ∷ []);
  datastore_cluster_list = λ dc. ok (codes "pod-1" ∷ []);
  datastore = λ dc name. ok (codes "ds-1");
  datastore_cluster = λ dc name. ok (codes "pod-1");
  default_compute_resource = λ dc. ok (codes "cr-1");
  compute_resource = λ dc path. ok (codes "cr-1");
  resource_pool = λ dc r. ok (codes "rp-1");
  retrieve_infos = λ dc refs. ok ((codes "ds-1", record { name = codes "fast"; url = [] }) ∷ []);
  retrieve_info = λ dc r. ok (record { name = codes "fast"; url = [] });
  retrieve_pods = λ dc refs. ok [];
  retrieve_pod = λ dc r. ok (r, codes "pool");
  range_datastores = values;
  range_pods = values;
}

abbrev pub one_disk : Store One
one_disk = record {
  view = view_of;
  place_disk = λ dc spec pool s. ok spec;
  create_disk = λ dc spec s. (
    ok 1,
    some (record {
      id = codes "new";
      name = spec.name;
      capacity_in_mb = spec.capacity_in_mb;
      file_path = none;
    }),
  );
  delete = λ dc r id s. (ok 1, none);
  wait = λ task s. (ok tt, s);
}

abbrev new_object : Text → ℕ → VStorageObject
new_object name mb = record { id = codes "new"; name = name; capacity_in_mb = mb; file_path = none }

-- The least number of units.
unfoldable pub round_up : ℕ → ℕ → ℕ
round_up size zero = 0
round_up size (suc unit) = (size + unit) / suc unit

round_up-IsRounding : IsRounding round_up
unfolding round_up
round_up-IsRounding size zero h = absurd (omega arith)
round_up-IsRounding size (suc unit) h =
    let e = div-add-mod' (size + unit) (suc unit) in
    let l = mod-lt (size + unit) {m = suc unit} (omega arith) in
    (omega (arith, e, l), omega (arith, e, l))

abbrev pub request : CreateVolumeRequest
request = record {
  parameters =
      some ((codes "parent_type", codes "Datastore") ∷ (codes "parent_name", codes "fast") ∷ []);
  name = codes "n";
  required_bytes = some 1073741825;
  accessibility = none;
}

abbrev zone : ZoneDiscoveryInfo
zone = record { vc_server = codes "vc1"; datacenter = dc_b }

abbrev pub volume : Volume
volume = record {
  volume_id = codes "new";
  capacity_bytes = 2147483648;
  volume_context =
      (codes "type", codes "First Class Disk")
      ∷ (codes "vcenter", codes "vc1")
      ∷ (codes "datacenter", codes "b")
      ∷ (codes "name", codes "n")
      ∷ (codes "parent_type", codes "Datastore")
      ∷ (codes "parent_name", codes "fast")
      ∷ [];
}

abbrev find_b : ℕ → Text → Text → Outcome (Option ZoneDiscoveryInfo)
find_b k zone_name region = ok (some zone)

abbrev pub filled : One
filled = some (new_object (codes "n") 2048)

volume-created : create_volume one_disk round_up find_b request none ≡ (done volume, filled)
unfolding looking_up create_volume named_disk new_disk volume_size_mb lacks_parameter place
    first_topology lookup round_up
volume-created = refl

create_volume-IsVolumeOf_example : IsVolumeOf one_disk round_up find_b request volume none filled
create_volume-IsVolumeOf_example =
    create_volume-IsVolumeOf one_disk round_up find_b request none filled volume volume-created

create_volume-again_example : AnswersAgain one_disk round_up find_b request volume none filled
create_volume-again_example =
    create_volume-again one_disk round_up find_b request none filled volume volume-created

create_volume-capacity_example :
    ((filled ≡ none) × Holds 1073741825 2147483648)
    ⊎ ((z : ZoneDiscoveryInfo) × (w : IsNew one_disk round_up find_b request z none filled) × Holds
          1073741825
          (w.asked.capacity_in_mb * 1048576))
create_volume-capacity_example =
    create_volume-capacity one_disk round_up find_b request round_up-IsRounding (omega arith) none
      filled volume volume-created

-- An empty list of topologies that is not nil leaves the information nil, which is dereferenced.
empty_topology-panics :
    create_volume one_disk round_up find_b
      (record request { accessibility = some (record { requisite = some []; preferred = none }) })
      none
    ≡ (crashed, none)
unfolding looking_up create_volume named_disk new_disk volume_size_mb lacks_parameter place
    first_topology lookup round_up
empty_topology-panics = refl

abbrev one_left : Disks
one_left = (codes "ds-1", object (codes "x")) ∷ []

y-deleted : delete_volume store site 0 one_vc rounds (codes "y") two_disks ≡ (done tt, one_left)
unfolding looking_up discovering which_vc_and_dc_by_fcd_id delete_volume
y-deleted = refl

delete_volume_sound_example :
    ((which_vc_and_dc_by_fcd_id site (store.view two_disks) 0 one_vc rounds (codes "y")
        ≡ err no_disk_id_found)
      × (one_left ≡ two_disks))
    ⊎ WasDeleted store site 0 one_vc rounds (codes "y") two_disks one_left
delete_volume_sound_example =
    delete_volume_sound store site 0 one_vc rounds (codes "y") two_disks one_left y-deleted
