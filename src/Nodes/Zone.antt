-- ===== src/Nodes/Zone.antt =====
-- pkg/cloudprovider/vsphere/zones.go: the zone of a node is that of the host that its machine runs
-- on. The calls for the host are parameters.
use cloud_provider_vsphere.Common.{
  ◌≡◌, refl, true, Option, none, some, Text, lookup, vm_not_found, Outcome, ok, err, panic, ◌>>=◌,
  List, arith,
}
use cloud_provider_vsphere.Inventory.{VirtualMachine}
use cloud_provider_vsphere.Connections.{ConnectionManager}
use cloud_provider_vsphere.Zones.{Moref, ZoneApi, Labels, objects_of, lookup_zone_by_moref}
use cloud_provider_vsphere.Zones.Tags.{IsZoneOf, lookup_zone_by_moref_sound}
use cloud_provider_vsphere.Uuid.{get_uuid_from_provider_id}
use cloud_provider_vsphere.Nodes.{NodeInfo, NodeManager}

pub record HostApi : Type 0 where
  -- os.Hostname
  pub hostname : Outcome Text
  -- HostSystem of a machine
  pub host_system : VirtualMachine → Outcome Moref
  -- Properties of a host, of which the code only logs the name
  pub host_summary : Moref → Outcome (Unit {0})

-- The names of the categories of zones and of regions, with what answers the calls.
pub record NodeZones : Type 0 where
  pub zone : Text
  pub region : Text
  pub hosts : HostApi
  pub api : ZoneApi
  pub manager : ConnectionManager

module _ (z : NodeZones) where
  abbrev pub zone_of_host : NodeInfo → Outcome Moref → Outcome Labels
  zone_of_host n host = do
    h ← host
    u ← z.hosts.host_summary h
    lookup_zone_by_moref z.api z.zone z.region z.manager n.datacenter h true

  abbrev pub zone_of_node : Option NodeInfo → Outcome Labels
  zone_of_node none = err vm_not_found
  zone_of_node (some n) = zone_of_host n (z.hosts.host_system n.vm)

  -- `GetZone`, `GetZoneByNodeName` and `GetZoneByProviderID`
  unfoldable pub get_zone : NodeManager → Outcome Labels
  get_zone nm = do name ← z.hosts.hostname; zone_of_node (lookup name nm.node_name_map)

  unfoldable pub get_zone_by_node_name : Text → NodeManager → Outcome Labels
  get_zone_by_node_name name nm = zone_of_node (lookup name nm.node_name_map)

  unfoldable pub get_zone_by_provider_id : Text → NodeManager → Outcome Labels
  get_zone_by_provider_id provider_id nm =
      zone_of_node (lookup (get_uuid_from_provider_id provider_id) nm.node_uuid_map)

  -- The zone is what the tags of the host of the machine and of its ancestors say.
  pub record IsZoneOfNode (n : NodeInfo) (l : Labels) : Type 0 where
    pub host : Moref
    pub runs_on : z.hosts.host_system n.vm ≡ ok host
    pub objects : List Moref
    pub searched : objects_of z.api z.zone z.region n.datacenter host true ≡ ok objects
    pub tagged : IsZoneOf z.api z.zone z.region objects l

  host-IsZoneOfNode :
      (n : NodeInfo) (o : Outcome Moref) (l : Labels)
      → z.hosts.host_system n.vm ≡ o
      → zone_of_host n o ≡ ok l
      → IsZoneOfNode n l
  host-IsZoneOfNode n (err e) l h e' = absurd (ground arith)
  host-IsZoneOfNode n panic l h e' = absurd (ground arith)
  host-IsZoneOfNode n (ok host) l h e' = summarized (z.hosts.host_summary host) e'
    where
      summarized :
          (u : Outcome (Unit {0}))
          → (u >>= λ v. lookup_zone_by_moref z.api z.zone z.region z.manager n.datacenter host true)
            ≡ ok l
          → IsZoneOfNode n l
      summarized (err e) k = absurd (ground arith)
      summarized panic k = absurd (ground arith)
      summarized (ok v) k =
          let (objects, searched, tagged) =
            lookup_zone_by_moref_sound z.api z.zone z.region z.manager n.datacenter host true l k in
          record {
            host = host;
            runs_on = h;
            objects = objects;
            searched = searched;
            tagged = tagged;
          }

  node-IsZoneOfNode :
      (o : Option NodeInfo) (l : Labels)
      → zone_of_node o ≡ ok l
      → (n : NodeInfo) × (o ≡ some n) × IsZoneOfNode n l
  node-IsZoneOfNode none l e = absurd (ground arith)
  node-IsZoneOfNode (some n) l e =
      (n, refl, host-IsZoneOfNode n (z.hosts.host_system n.vm) l refl e)

  -- The zone that is returned for a provider identifier is that of a node that was discovered under
  -- the UUID in it: its labels are the names of tags that the host of the machine, or an ancestor of
  -- the host, carries in the categories of zones and regions.
  pub get_zone_by_provider_id_sound :
      (provider_id : Text) (nm : NodeManager) (l : Labels)
      → get_zone_by_provider_id provider_id nm ≡ ok l
      → (n : NodeInfo) × (lookup (get_uuid_from_provider_id provider_id) nm.node_uuid_map ≡ some n)
        × IsZoneOfNode n l
  unfolding get_zone_by_provider_id
  get_zone_by_provider_id_sound provider_id nm l e = node-IsZoneOfNode _ l e
