-- ===== src/Controller.antt =====
-- pkg/csi/service/fcd/controller.go: CreateVolume. The disks of the vCenters are the state of a
-- `Store`; the lookup of a zone is a parameter here, which `Controller.Requests` fills with that of
-- `Zones`. RoundUpSize of the volume helpers of Kubernetes is a parameter.
pub mod Created
pub mod Repeated
pub mod Deletion
pub mod Requests
pub mod Publishing
pub mod Versions
mod Tests
mod PublishTests
mod RequestTests
pub mod Listing
pub mod Listed
mod ListingTests
mod VersionTests
use cloud_provider_vsphere.Common.{
  ℕ, ◌+◌, ◌*◌, ◌%◌, ◌^◌, Bool, true, false, ◌||◌, nat_eq, Option, none, some, List, [], ◌∷◌, ◌++◌,
  Text, codes, is_empty, ◌==◌, Map, lookup, Error, Outcome, ok, err, panic, ◌>>=◌, deref,
  if◌then◌else◌,
}
use cloud_provider_vsphere.Inventory.{Datacenter}
use cloud_provider_vsphere.Zones.Looking.{ZoneDiscoveryInfo}
use cloud_provider_vsphere.Disks.{
  ParentType, type_datastore, type_datastore_cluster, find_fcd_by_name, FirstClassDiskInfo,
}
use cloud_provider_vsphere.Disks.Datacenters.{find_first_class_disk}
use cloud_provider_vsphere.Disks.Store.{Store, create_first_class_disk}
use cloud_provider_vsphere.Volumes.{Volume}

-- How a call ends: with a response, with a status or an error of its own, or with a panic.
pub data Status : Type 0 where
  internal already_exists : Status
  plain : Error → Status

pub data Reply (A : Type 0) : Type 0 where
  done : A → Reply A
  refused : Status → Reply A
  crashed : Reply A

-- The topologies of a request, which may be nil.
pub record Accessibility : Type 0 where
  pub requisite : Option (List (Map Text))
  pub preferred : Option (List (Map Text))

pub record CreateVolumeRequest : Type 0 where
  pub parameters : Option (Map Text)
  pub name : Text
  -- RequiredBytes of the capacity range, which CSI forbids to be negative
  pub required_bytes : Option ℕ
  pub accessibility : Option Accessibility

abbrev pub gb_in_bytes : ℕ
gb_in_bytes = 1073741824

abbrev pub default_gb_disk_size : ℕ
default_gb_disk_size = 10

abbrev pub or_empty {ℓ} : {V : Type ℓ} → Option (Map V) → Map V
or_empty none = []
or_empty (some m) = m

abbrev pub text_of : Option Text → Text
text_of none = []
text_of (some t) = t

-- The value of a key, and the empty text if there is none.
abbrev pub value_at : Map Text → Text → Text
value_at m key = text_of (lookup key m)

abbrev pub is_nil_map : Option (Map Text) → Bool
is_nil_map none = true
is_nil_map (some m) = false

abbrev pub parameter : CreateVolumeRequest → Text → Text
parameter req key = value_at (or_empty req.parameters) key

-- A parameter that is required is missing.
unfoldable pub lacks_parameter : CreateVolumeRequest → Bool
unfolding lookup
lacks_parameter req =
    is_nil_map req.parameters
    || is_empty req.name
    || is_empty (parameter req (codes "parent_type"))
    || is_empty (parameter req (codes "parent_name"))

abbrev pub bytes_or_default : Option ℕ → ℕ
bytes_or_default none = default_gb_disk_size * gb_in_bytes
bytes_or_default (some n) = if nat_eq n 0 then default_gb_disk_size * gb_in_bytes else n

abbrev pub datastore_type_of : Text → ParentType
datastore_type_of vol_type =
    if vol_type == codes "Datastore" then type_datastore else type_datastore_cluster

abbrev pub datastore_type : CreateVolumeRequest → ParentType
datastore_type req = datastore_type_of (parameter req (codes "parent_type"))

-- The attributes of a disk; a disk of a cluster without its cluster is a nil dereference.
abbrev pub parent_of : FirstClassDiskInfo → ParentType → Outcome (Map Text)
parent_of d type_datastore_cluster = do
  pod ← deref d.storage_pod_info
  ok (
      (codes "parent_type", codes "DatastoreCluster")
      ∷ (codes "parent_name", pod.name)
      ∷ (codes "owning_datastore", d.datastore_info.info.name)
      ∷ [])
parent_of d type_datastore = ok (
    (codes "parent_type", codes "Datastore")
    ∷ (codes "parent_name", d.datastore_info.info.name)
    ∷ [])

abbrev pub attributes_of : Text → Datacenter → FirstClassDiskInfo → Outcome (Map Text)
attributes_of vc dc d = do
  parent ← parent_of d d.disk.parent_type
  ok (
      (codes "type", codes "First Class Disk")
      ∷ (codes "vcenter", vc)
      ∷ (codes "datacenter", dc.name)
      ∷ (codes "name", d.disk.object.name)
      ∷ parent)

abbrev pub reply_with : FirstClassDiskInfo → Outcome (Map Text) → Reply Volume
reply_with d (ok attributes) = done (record {
  volume_id = d.disk.object.id;
  capacity_bytes = (d.disk.object.capacity_in_mb * 1048576) % (2 ^ 64);
  volume_context = attributes;
})
reply_with d (err e) = refused (plain e)
reply_with d panic = crashed

abbrev pub volume_reply : ZoneDiscoveryInfo → FirstClassDiskInfo → Reply Volume
volume_reply z d = reply_with d (attributes_of z.vc_server z.datacenter d)

-- The loops over topologies: they end at the first that is found, or with the last error.
module _ (find_zone : ℕ → Text → Text → Outcome (Option ZoneDiscoveryInfo)) where
  abbrev pub next_topology :
      Outcome (Option ZoneDiscoveryInfo)
      → (Outcome (Option ZoneDiscoveryInfo) → Outcome (Option ZoneDiscoveryInfo))
      → Outcome (Option ZoneDiscoveryInfo)
  next_topology (ok z) further = ok z
  next_topology (err e) further = further (err e)
  next_topology panic further = panic

  unfoldable pub first_topology :
      ℕ → List (Map Text) → Outcome (Option ZoneDiscoveryInfo) → Outcome (Option ZoneDiscoveryInfo)
  unfolding lookup
  first_topology k [] so_far = so_far
  first_topology k (segments ∷ rest) so_far =
      next_topology
        (find_zone k (value_at segments (codes "failure-domain.beta.kubernetes.io/zone"))
          (value_at segments (codes "failure-domain.beta.kubernetes.io/region")))
        (λ last. first_topology (k + 1) rest last)

  abbrev pub legacy : CreateVolumeRequest → Outcome (Option ZoneDiscoveryInfo)
  legacy req = find_zone 0 (parameter req (codes "zone")) (parameter req (codes "region"))

  -- Without a topology that is found, the information is nil, and so is the error.
  abbrev pub by_topology :
      CreateVolumeRequest
      → Option (List (Map Text))
      → Option (List (Map Text))
      → Outcome (Option ZoneDiscoveryInfo)
  by_topology req (some requisites) preferred = first_topology 0 requisites (ok none)
  by_topology req none (some preferred) = first_topology 0 preferred (ok none)
  by_topology req none none = legacy req

  abbrev pub located :
      CreateVolumeRequest → Option Accessibility → Outcome (Option ZoneDiscoveryInfo)
  located req none = legacy req
  located req (some a) = by_topology req a.requisite a.preferred

  unfoldable pub place : CreateVolumeRequest → Outcome (Option ZoneDiscoveryInfo)
  unfolding first_topology lookup
  place req = located req req.accessibility

module _ {S : Type 0} (store : Store S) (round_up_size : ℕ → ℕ → ℕ) where
  unfoldable pub volume_size_mb : CreateVolumeRequest → ℕ
  volume_size_mb req = round_up_size (bytes_or_default req.required_bytes) gb_in_bytes * 1024

  module _ (req : CreateVolumeRequest) where
    -- The disk with the name of the volume.
    unfoldable pub named_disk : ZoneDiscoveryInfo → S → Outcome FirstClassDiskInfo
    unfolding find_first_class_disk lookup
    named_disk z s =
        find_first_class_disk (store.view s) z.datacenter (parameter req (codes "parent_name"))
          (datastore_type req) req.name find_fcd_by_name

    unfoldable pub new_disk : ZoneDiscoveryInfo → S → Outcome (Unit {0}) × S
    unfolding create_first_class_disk volume_size_mb lookup
    new_disk z s =
        create_first_class_disk store z.datacenter (parameter req (codes "parent_name"))
          (datastore_type req) req.name (volume_size_mb req) s

    abbrev pub found_again : ZoneDiscoveryInfo → Outcome FirstClassDiskInfo → S → Reply Volume × S
    found_again z (ok d) s = (volume_reply z d, s)
    found_again z (err e) s = (refused internal, s)
    found_again z panic s = (crashed, s)

    abbrev pub on_created : ZoneDiscoveryInfo → Outcome (Unit {0}) × S → Reply Volume × S
    on_created z (ok u, s) = found_again z (named_disk z s) s
    on_created z (err e, s) = (refused internal, s)
    on_created z (panic, s) = (crashed, s)

    abbrev pub on_named : ZoneDiscoveryInfo → Outcome FirstClassDiskInfo → S → Reply Volume × S
    on_named z (ok d) s =
        if nat_eq d.disk.object.capacity_in_mb (volume_size_mb req)
        then (volume_reply z d, s)
        else (refused already_exists, s)
    on_named z (err e) s = on_created z (new_disk z s)
    on_named z panic s = (crashed, s)

    abbrev pub on_place : Outcome (Option ZoneDiscoveryInfo) → S → Reply Volume × S
    on_place (ok (some z)) s = on_named z (named_disk z s) s
    on_place (ok none) s = (crashed, s)
    on_place (err e) s = (refused internal, s)
    on_place panic s = (crashed, s)

  module _ (find_zone : ℕ → Text → Text → Outcome (Option ZoneDiscoveryInfo)) where
    -- `CreateVolume`
    unfoldable pub create_volume : CreateVolumeRequest → S → Reply Volume × S
    unfolding lacks_parameter place named_disk new_disk volume_size_mb
    create_volume req s =
        if lacks_parameter req then (refused internal, s) else on_place req (place find_zone req) s
