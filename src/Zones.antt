-- ===== src/Zones.antt =====
-- pkg/common/connectionmanager/zones.go, LookupZoneByMoref: which zone and region an object of the
-- inventory is in, by the tags of the object and of its ancestors. The tag service and the finders
-- of govmomi are not under src/: a value of `ZoneApi` gives their answers.
pub mod Tags
pub mod Looking
pub mod Clusters
pub mod Single
pub mod Tests
use cloud_provider_vsphere.Common.{
  ℕ, ◌+◌, ◌*◌, length, zero, suc, Bool, true, false, not, ◌&&◌, ◌||◌, Option, none, some, List, [],
  ◌∷◌, ◌++◌, map, Text, codes, ◌==◌, is_empty, equal_fold, before, lookup, Map, Error,
  no_zone_region_found, connection_not_found, must_have_at_least_one_vcdc, multi_vc_requires_zones,
  unsupported_configuration, foreign, Outcome, ok, err, panic, ◌>>=◌, ltb, if◌then◌else◌,
}
use cloud_provider_vsphere.Inventory.{Datacenter, get_all_datacenter, get_number_of_datacenters}
use cloud_provider_vsphere.Connections.{Connection, Instance, ConnectionManager, connect_attempts}

-- A managed object, known by a number.
abbrev pub Moref : Type 0
Moref = ℕ

pub record Tag : Type 0 where
  pub name : Text
  pub category_id : Text

pub record ZoneApi : Type 0 where
  -- ClusterComputeResourceList with "*", and HostSystemList with "*/*"
  pub clusters : Datacenter → Outcome (List Moref)
  pub hosts : Datacenter → Outcome (List Moref)
  -- Login of a client of the tag service
  pub login : Connection → Outcome (Unit {0})
  -- mo.Ancestors: the object last
  pub ancestors : Datacenter → Moref → Outcome (List Moref)
  -- RetrieveOne of the summary of a host: its managed entity
  pub host_entity : Datacenter → Moref → Outcome Moref
  pub list_attached_tags : Moref → Outcome (List Text)
  pub get_tag : Text → Outcome Tag
  -- GetCategory: the name
  pub get_category : Text → Outcome Text

-- The map with the keys "Zone" and "Region"; a missing key reads as the empty text.
pub record Labels : Type 0 where
  pub zone : Text
  pub region : Text

abbrev pub no_labels : Labels
no_labels = record { zone = []; region = [] }

-- What the walk over the tags is at: both labels are set and it stops, or it goes on, or it failed.
pub data Walk : Type 0 where
  complete : Labels → Walk
  partial : Labels → Walk
  stopped : Error → Walk
  crashed : Walk

-- The host of a URL without its port.
unfoldable pub remove_port_from_host : Text → Text
unfolding before
remove_port_from_host host = before host (codes ":")

module _ (api : ZoneApi) where
  -- The name of the category of a tag, and the name of the tag.
  unfoldable pub read_tag : Text → Outcome (Text × Text)
  read_tag value = do
    tag ← api.get_tag value
    category ← api.get_category tag.category_id
    ok (category, tag.name)

  -- The names of the categories of zones and of regions.
  module _ (zone_label region_label : Text) where
    unfoldable pub set_label : Text × Text → Labels → Labels
    set_label (category, name) l =
        if category == zone_label
        then record l { zone = name }
        else if category == region_label
        then record l { region = name }
        else l

    abbrev pub is_complete : Labels → Bool
    is_complete l = not (is_empty l.zone) && not (is_empty l.region)

    -- After a tag: the walk ends, or goes on with `rest`.
    abbrev pub on_tag : Outcome (Text × Text) → (Text × Text → Walk) → Labels → Walk
    on_tag (err e) rest l = stopped e
    on_tag panic rest l = crashed
    on_tag (ok t) rest l = if is_complete (set_label t l) then complete (set_label t l) else rest t

    -- The loop over the tags of an object.
    unfoldable pub walk_tags : List Text → Labels → Walk
    unfolding set_label read_tag
    walk_tags [] l = partial l
    walk_tags (value ∷ values) l = on_tag (read_tag value) (λ t. walk_tags values (set_label t l)) l

    abbrev pub walk_object : Outcome (List Text) → Labels → Walk
    walk_object (err e) l = stopped e
    walk_object panic l = crashed
    walk_object (ok values) l = walk_tags values l

    abbrev pub on_object : Walk → (Labels → Walk) → Walk
    on_object (partial l) rest = rest l
    on_object (complete l) rest = complete l
    on_object (stopped e) rest = stopped e
    on_object crashed rest = crashed

    -- The loop over the objects, from the object to its farthest ancestor.
    unfoldable pub walk_objects : List Moref → Labels → Walk
    unfolding walk_tags
    walk_objects [] l = partial l
    walk_objects (obj ∷ objects) l =
        on_object (walk_object (api.list_attached_tags obj) l) (λ l'. walk_objects objects l')

    -- What is returned; the errors name the label, and not the object.
    abbrev pub check_labels : Labels → Outcome Labels
    check_labels l =
        if is_empty l.region && not (is_empty region_label)
        then err (foreign (codes "vSphere region category " ++ region_label))
        else if is_empty l.zone && not (is_empty zone_label)
        then err (foreign (codes "vSphere zone category " ++ zone_label))
        else ok l

    abbrev pub end_walk : Walk → Outcome Labels
    end_walk (complete l) = ok l
    end_walk (partial l) = check_labels l
    end_walk (stopped e) = err e
    end_walk crashed = panic

    abbrev pub reverse_onto : List Moref → List Moref → List Moref
    reverse_onto [] acc = acc
    reverse_onto (o ∷ os) acc = reverse_onto os (o ∷ acc)

    -- The objects to search, the nearest first.
    unfoldable pub objects_of : Datacenter → Moref → Bool → Outcome (List Moref)
    objects_of dc mo check_ancestors =
        if check_ancestors
        then (do objects ← api.ancestors dc mo; ok (reverse_onto objects []))
        else (do entity ← api.host_entity dc mo; ok (entity ∷ []))

    abbrev pub with_tags_client : Option Instance → Outcome (List Moref) → Outcome Labels
    with_tags_client none objects = err connection_not_found
    with_tags_client (some i) objects = do
      u ← api.login i.conn
      os ← objects
      end_walk (walk_objects os no_labels)

    -- `LookupZoneByMoref`
    unfoldable pub lookup_zone_by_moref :
        ConnectionManager → Datacenter → Moref → Bool → Outcome Labels
    unfolding remove_port_from_host
    lookup_zone_by_moref cm dc mo check_ancestors =
        with_tags_client (lookup (remove_port_from_host dc.host) cm.instances)
          (objects_of dc mo check_ancestors)
