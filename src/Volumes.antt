-- ===== src/Volumes.antt =====
-- pkg/csi/service/fcd/controller.go, ListVolumes: the pages of the list of first class disks. The
-- disks are what getAllFCDs returns, which Controller.Listing has; strconv.Atoi and Itoa are parameters. MaxEntries is not
-- negative, as the interface of CSI demands.
pub mod Paging
pub mod Bounds
mod Tests
use cloud_provider_vsphere.Common.{
  ℕ, zero, suc, ◌+◌, ◌-◌, ◌*◌, ◌%◌, ◌^◌, Bool, true, false, not, ◌&&◌, ltb, leb, nat_eq, Option,
  none, some, List, [], ◌∷◌, ◌++◌, map, length, take, drop, Text, codes, is_empty, Map, Error,
  foreign, Outcome, ok, err, panic, if◌then◌else◌,
}
use cloud_provider_vsphere.Zones.{remove_port_from_host}
use cloud_provider_vsphere.Disks.{ParentType, type_datastore_cluster, type_datastore}

pub record FirstClassDisk : Type 0 where
  pub id : Text
  pub name : Text
  pub capacity_in_mb : ℕ
  pub host : Text
  pub datacenter : Text
  pub parent_type : ParentType
  pub storage_pod : Text
  pub datastore : Text

pub record Volume : Type 0 where
  pub volume_id : Text
  pub capacity_bytes : ℕ
  pub volume_context : Map Text

pub record Page : Type 0 where
  pub entries : List Volume
  pub next_token : Text

-- The result of Atoi: a number, or a negative one.
pub data Parsed : Type 0 where
  natural : ℕ → Parsed
  negative : Parsed

pub record Digits : Type 0 where
  pub atoi : Text → Option Parsed
  pub itoa : ℕ → Text

abbrev pub parent_attributes : FirstClassDisk → ParentType → Map Text
parent_attributes d type_datastore_cluster =
    (codes "parent_type", codes "DatastoreCluster")
    ∷ (codes "parent_name", d.storage_pod)
    ∷ (codes "owning_datastore", d.datastore)
    ∷ []
parent_attributes d type_datastore =
    (codes "parent_type", codes "Datastore") ∷ (codes "parent_name", d.datastore) ∷ []

abbrev pub volume_context_of : FirstClassDisk → Map Text
volume_context_of d =
    (codes "type", codes "First Class Disk")
    ∷ (codes "vcenter", remove_port_from_host d.host)
    ∷ (codes "datacenter", d.datacenter)
    ∷ (codes "name", d.name)
    ∷ parent_attributes d d.parent_type

-- The capacity is a number of 64 bits, in two's complement.
unfoldable pub volume_of : FirstClassDisk → Volume
unfolding remove_port_from_host
volume_of d = record {
  volume_id = d.id;
  capacity_bytes = (d.capacity_in_mb * 1048576) % (2 ^ 64);
  volume_context = volume_context_of d;
}

module _ (digits : Digits) (disks : List FirstClassDisk) (max_entries : ℕ) where
  -- The first disk of the page.
  abbrev pub on_token : Option Parsed → Outcome Parsed
  on_token none = err (foreign (codes "Invalid starting token"))
  on_token (some p) = ok p

  abbrev pub start_of : Text → Outcome Parsed
  start_of token = if is_empty token then ok (natural 0) else on_token (digits.atoi token)

  -- The last disk of the page, or a number behind the list.
  abbrev pub stop_of : ℕ → ℕ
  stop_of start =
      if not (nat_eq max_entries 0) && ltb max_entries (length disks)
      then start + max_entries - 1
      else length disks

  abbrev pub subset : ℕ → ℕ → List FirstClassDisk
  subset start stop =
      if leb (length disks) stop
      then drop start disks
      else take (stop + 1 - start) (drop start disks)

  unfoldable pub page : ℕ → Outcome Page
  unfolding volume_of
  page start =
      if ltb (length disks) start
      then err (foreign (codes "Invalid start token"))
      else ok (record {
        entries = map volume_of (subset start (stop_of start));
        next_token =
            if ltb (stop_of start) (length disks) then digits.itoa (stop_of start + 1) else [];
      })

  -- A slice with a negative bound panics.
  abbrev pub page_at : Outcome Parsed → Outcome Page
  page_at (ok (natural start)) = page start
  page_at (ok negative) = panic
  page_at (err e) = err e
  page_at panic = panic

  -- `ListVolumes`, for the token of the request.
  unfoldable pub list_volumes : Text → Outcome Page
  unfolding page
  list_volumes token = page_at (start_of token)

  -- A caller that follows the tokens, with the number of requests that it may make.
  abbrev pub and_pages : Outcome Page → (Text → Option (List Volume)) → Option (List Volume)
  and_pages (ok p) follow =
      if is_empty p.next_token
      then some p.entries
      else (elim (follow p.next_token) [ none ↦ none | some rest ↦ some (p.entries ++ rest) ])
  and_pages (err e) follow = none
  and_pages panic follow = none

  unfoldable pub follow_tokens : ℕ → Text → Option (List Volume)
  unfolding list_volumes
  follow_tokens zero token = none
  follow_tokens (suc k) token = and_pages (list_volumes token) (λ t. follow_tokens k t)
