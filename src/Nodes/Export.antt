-- ===== src/Nodes/Export.antt =====
-- ExportNodes of pkg/cloudprovider/vsphere/nodemanager.go, and ListNodes of
-- pkg/cloudprovider/vsphere/server/server.go, which answers a request with it.
use cloud_provider_vsphere.Common.{
  not, ◌&&◌, Option, none, some, List, [], ◌∷◌, ◌++◌, Text, is_empty, lookup, Map,
  vcenter_not_found, Outcome, ok, err, panic, if◌then◌else◌,
}
use cloud_provider_vsphere.Nodes.{
  external_ip, host_name, NodeAddress, NodeInfo, DatacenterInfo, VCenterInfo, NodeManager,
  find_datacenter_info_in_vc_list,
}

-- A node of the protocol.
pub record PbNode : Type 0 where
  pub vcenter : Text
  pub datacenter : Text
  pub name : Text
  pub dnsnames : List Text
  pub addresses : List Text
  pub uuid : Text

abbrev pub sort_address : NodeAddress → List Text × List Text → List Text × List Text
sort_address a (dnsnames, addresses) = elim a.kind [
  | external_ip ↦ (dnsnames, addresses ++ a.address ∷ [])
  | host_name ↦ (dnsnames ++ a.address ∷ [], addresses)
  | _ ↦ (dnsnames, addresses)
]

unfoldable pub sort_addresses : List NodeAddress → List Text × List Text → List Text × List Text
sort_addresses [] sorted = sorted
sort_addresses (a ∷ rest) sorted = sort_addresses rest (sort_address a sorted)

unfoldable pub pb_node : NodeInfo → PbNode
unfolding sort_addresses
pb_node n =
    let (dnsnames, addresses) = sort_addresses n.node_addresses ([], []) in
    record {
      vcenter = n.vc_server;
      datacenter = n.datacenter.name;
      name = n.node_name;
      dnsnames = dnsnames;
      addresses = addresses;
      uuid = n.uuid;
    }

-- `datacenterToNodeList`
unfoldable pub datacenter_to_node_list : Map NodeInfo → List PbNode → List PbNode
unfolding pb_node
datacenter_to_node_list [] node_list = node_list
datacenter_to_node_list ((uuid, n) ∷ rest) node_list =
    datacenter_to_node_list rest (node_list ++ pb_node n ∷ [])

-- The loop over the datacenters of a vCenter, and the loop over all vCenters.
unfoldable pub export_vcenter : Map DatacenterInfo → List PbNode → List PbNode
unfolding datacenter_to_node_list
export_vcenter [] node_list = node_list
export_vcenter ((name, dc) ∷ rest) node_list =
    export_vcenter rest (datacenter_to_node_list dc.vm_list node_list)

unfoldable pub export_all : Map VCenterInfo → List PbNode → List PbNode
unfolding export_vcenter
export_all [] node_list = node_list
export_all ((address, vc) ∷ rest) node_list = export_all rest (export_vcenter vc.dc_list node_list)

abbrev pub export_datacenter :
    Outcome DatacenterInfo → List PbNode → Outcome (Unit {0}) × List PbNode
export_datacenter (ok dc) node_list = (ok tt, datacenter_to_node_list dc.vm_list node_list)
export_datacenter (err e) node_list = (err e, node_list)
export_datacenter panic node_list = (panic, node_list)

abbrev pub export_found : Option VCenterInfo → List PbNode → Outcome (Unit {0}) × List PbNode
export_found none node_list = (err vcenter_not_found, node_list)
export_found (some vc) node_list = (ok tt, export_vcenter vc.dc_list node_list)

-- `ExportNodes`
unfoldable pub export_nodes :
    Text → Text → NodeManager → List PbNode → Outcome (Unit {0}) × List PbNode
export_nodes vcenter datacenter nm node_list =
    if not (is_empty vcenter) && not (is_empty datacenter)
    then export_datacenter (find_datacenter_info_in_vc_list vcenter datacenter nm.vc_list) node_list
    else if not (is_empty vcenter)
    then export_found (lookup vcenter nm.vc_list) node_list
    else (ok tt, export_all nm.vc_list node_list)

-- `ListNodes`: the reply has the nodes and the error.
unfoldable pub list_nodes : Text → Text → NodeManager → Outcome (Unit {0}) × List PbNode
list_nodes vcenter datacenter nm =
    export_nodes vcenter (if is_empty vcenter && not (is_empty datacenter) then [] else datacenter)
      nm []
