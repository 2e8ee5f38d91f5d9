-- ===== src/Nodes.antt =====
-- pkg/cloudprovider/vsphere/types.go and nodemanager.go: the maps of the nodes that were discovered,
-- and the handlers for nodes that the cluster adds and removes. The search for a machine is a
-- parameter, which `Nodes.Finding` fills with the search of the connection manager; AddToNodeAddresses
-- of Kubernetes, net.ParseIP and the printing of numbers are parameters too.
pub mod GuestOs
pub mod Instances
pub mod Export
pub mod Tree
pub mod Keys
pub mod Answers
pub mod Listing
pub mod Finding
pub mod Zone
mod ZoneTests
mod Tests
use cloud_provider_vsphere.Common.{
  ℕ, ◌/◌, Bool, true, false, Option, none, some, List, [], ◌∷◌, ◌++◌, Text, codes, Map, lookup,
  insert, delete, Error, vcenter_not_found, datacenter_not_found, vm_not_found, Outcome, ok, err,
  panic, ◌>>=◌, if◌then◌else◌,
}
use cloud_provider_vsphere.Inventory.{Datacenter, VirtualMachine, Nic, Properties}
use cloud_provider_vsphere.Discovery.{FindVm, find_vm_by_uuid, find_vm_by_name, VmDiscoveryInfo}
use cloud_provider_vsphere.Uuid.{convert_k8s_uuid_to_normal}
use GuestOs.{guest_os_lookup}

pub data AddressType : Type 0 where
  external_ip internal_ip host_name : AddressType
  other_address : Text → AddressType

pub record NodeAddress : Type 0 where
  pub kind : AddressType
  pub address : Text

pub record NodeInfo : Type 0 where
  pub datacenter : Datacenter
  pub vm : VirtualMachine
  pub vc_server : Text
  pub uuid : Text
  pub node_name : Text
  pub node_type : Text
  pub node_addresses : List NodeAddress

pub record DatacenterInfo : Type 0 where
  pub name : Text
  pub vm_list : Map NodeInfo

pub record VCenterInfo : Type 0 where
  pub address : Text
  pub dc_list : Map DatacenterInfo

-- A node of the cluster.
pub record Node : Type 0 where
  pub name : Text
  pub system_uuid : Text

pub record NodeManager : Type 0 where
  pub node_name_map : Map NodeInfo
  pub node_uuid_map : Map NodeInfo
  pub vc_list : Map VCenterInfo
  pub node_reg_uuid_map : Map Node

abbrev pub new_node_manager : NodeManager
new_node_manager = record {
  node_name_map = [];
  node_uuid_map = [];
  vc_list = [];
  node_reg_uuid_map = [];
}

-- What the manager calls: the search for a machine, which is told how many searches the call made
-- before, the properties of a machine, whether a text is an IPv4 address, AddToNodeAddresses, and
-- the decimal digits of a number.
pub record Calls : Type 0 where
  pub which : ℕ → Text → FindVm → Outcome (Option VmDiscoveryInfo)
  pub properties : VirtualMachine → Outcome Properties
  pub is_ipv4 : Text → Bool
  pub add_to_node_addresses : List NodeAddress → List NodeAddress → List NodeAddress
  pub decimal : ℕ → Text

abbrev pub vc_or_new : Text → Option VCenterInfo → VCenterInfo
vc_or_new vcenter none = record { address = vcenter; dc_list = [] }
vc_or_new vcenter (some vc) = vc

abbrev pub dc_or_new : Text → Option DatacenterInfo → DatacenterInfo
dc_or_new datacenter none = record { name = datacenter; vm_list = [] }
dc_or_new datacenter (some dc) = dc

abbrev pub add_to_dc : NodeInfo → DatacenterInfo → DatacenterInfo
add_to_dc node dc = record dc { vm_list = insert node.uuid node dc.vm_list }

abbrev pub add_to_vc : Text → NodeInfo → VCenterInfo → VCenterInfo
add_to_vc datacenter node vc = record vc {
  dc_list =
      insert datacenter (add_to_dc node (dc_or_new datacenter (lookup datacenter vc.dc_list)))
        vc.dc_list;
}

-- `AddNodeInfoToVCList`
unfoldable pub add_node_info_to_vc_list : Text → Text → NodeInfo → Map VCenterInfo → Map VCenterInfo
add_node_info_to_vc_list vcenter datacenter node m =
    insert vcenter (add_to_vc datacenter node (vc_or_new vcenter (lookup vcenter m))) m

abbrev pub dc_in : Text → Option VCenterInfo → Outcome DatacenterInfo
dc_in datacenter none = err vcenter_not_found
dc_in datacenter (some vc) = elim (lookup datacenter vc.dc_list) [
  | none ↦ err datacenter_not_found
  | some dc ↦ ok dc
]

-- `FindDatacenterInfoInVCList`
unfoldable pub find_datacenter_info_in_vc_list :
    Text → Text → Map VCenterInfo → Outcome DatacenterInfo
find_datacenter_info_in_vc_list vcenter datacenter m = dc_in datacenter (lookup vcenter m)

abbrev pub node_in : Text → DatacenterInfo → Outcome NodeInfo
node_in uuid dc = elim (lookup uuid dc.vm_list) [ none ↦ err vm_not_found | some n ↦ ok n ]

-- `FindNodeInfoInVCList`
unfoldable pub find_node_info_in_vc_list : Text → Text → Text → Map VCenterInfo → Outcome NodeInfo
unfolding find_datacenter_info_in_vc_list
find_node_info_in_vc_list vcenter datacenter uuid m = do
  dc ← find_datacenter_info_in_vc_list vcenter datacenter m
  node_in uuid dc

-- `addNodeInfo`
unfoldable pub add_node_info : NodeInfo → NodeManager → NodeManager
add_node_info node nm = record nm {
  node_name_map = insert node.node_name node nm.node_name_map;
  node_uuid_map = insert node.uuid node nm.node_uuid_map;
  vc_list = add_node_info_to_vc_list node.vc_server node.datacenter.name node nm.vc_list;
}

-- `addNode` and `removeNode`
abbrev pub add_node : Text → Node → NodeManager → NodeManager
add_node uuid node nm = record nm { node_reg_uuid_map = insert uuid node nm.node_reg_uuid_map }

abbrev pub remove_node : Text → NodeManager → NodeManager
remove_node uuid nm = record nm { node_reg_uuid_map = delete uuid nm.node_reg_uuid_map }

abbrev pub name_of_os : Option Text → Text
name_of_os none = codes "unknown"
name_of_os (some os) = os

module _ (calls : Calls) where
  abbrev pub or_reversed :
      Text → Outcome (Option VmDiscoveryInfo) → Outcome (Option VmDiscoveryInfo)
  or_reversed node_id (ok d) = ok d
  or_reversed node_id panic = panic
  or_reversed node_id (err e) = do
    reverse_uuid ← convert_k8s_uuid_to_normal node_id
    calls.which 1 reverse_uuid find_vm_by_uuid

  -- `shakeOutNodeIDLookup`
  unfoldable pub shake_out_node_id_lookup : Text → FindVm → Outcome (Option VmDiscoveryInfo)
  shake_out_node_id_lookup node_id find_vm_by_name = calls.which 0 node_id find_vm_by_name
  shake_out_node_id_lookup node_id find_vm_by_uuid =
      or_reversed node_id (calls.which 0 node_id find_vm_by_uuid)

  abbrev pub addresses_of : Text → Text → List NodeAddress
  addresses_of ip host =
      record { kind = external_ip; address = ip }
      ∷ record { kind = internal_ip; address = ip }
      ∷ record { kind = host_name; address = host }
      ∷ []

  unfoldable pub add_ips : Text → List Text → List NodeAddress → List NodeAddress
  add_ips host [] addrs = addrs
  add_ips host (ip ∷ ips) addrs =
      add_ips host ips (
        if calls.is_ipv4 ip
        then calls.add_to_node_addresses addrs (addresses_of ip host)
        else addrs)

  unfoldable pub add_nets : Text → List Nic → List NodeAddress → List NodeAddress
  unfolding add_ips
  add_nets host [] addrs = addrs
  add_nets host (nic ∷ nics) addrs =
      add_nets host nics (if nic.is_vnic then add_ips host nic.ip_addresses addrs else addrs)

  unfoldable pub instance_type_of : Properties → Text
  unfolding guest_os_lookup
  instance_type_of p =
      codes "vsphere-vm.cpu-"
      ++ calls.decimal p.num_cpu
      ++ codes ".mem-"
      ++ calls.decimal (p.memory_size_mb / 1024)
      ++ codes "gb.os-"
      ++ name_of_os (lookup p.guest_id guest_os_lookup)

  abbrev pub node_info_of : VmDiscoveryInfo → Properties → NodeInfo
  node_info_of d p = record {
    datacenter = d.datacenter;
    vm = d.vm;
    vc_server = d.vc_server;
    uuid = d.uuid;
    node_name = d.node_name;
    node_type = instance_type_of p;
    node_addresses = add_nets p.host_name p.nets [];
  }

  abbrev pub with_properties :
      NodeManager → VmDiscoveryInfo → Outcome Properties → Outcome (Unit {0}) × NodeManager
  with_properties nm d (ok p) = (ok tt, add_node_info (node_info_of d p) nm)
  with_properties nm d (err e) = (err e, nm)
  with_properties nm d panic = (panic, nm)

  -- A nil answer without an error is dereferenced.
  abbrev pub on_found :
      NodeManager → Outcome (Option VmDiscoveryInfo) → Outcome (Unit {0}) × NodeManager
  on_found nm (ok none) = (panic, nm)
  on_found nm (ok (some d)) = with_properties nm d (calls.properties d.vm)
  on_found nm (err e) = (err e, nm)
  on_found nm panic = (panic, nm)

  -- `DiscoverNode`
  unfoldable pub discover_node : Text → FindVm → NodeManager → Outcome (Unit {0}) × NodeManager
  discover_node node_id by nm = on_found nm (shake_out_node_id_lookup node_id by)

  abbrev pub registered :
      Text → Node → Outcome (Unit {0}) × NodeManager → Outcome (Unit {0}) × NodeManager
  registered uuid node (panic, nm) = (panic, nm)
  registered uuid node (_, nm) = (ok tt, add_node uuid node nm)

  abbrev pub register_as : Node → NodeManager → Outcome Text → Outcome (Unit {0}) × NodeManager
  register_as node nm (ok uuid) = registered uuid node (discover_node uuid find_vm_by_uuid nm)
  register_as node nm (err e) = (err e, nm)
  register_as node nm panic = (panic, nm)

  -- `RegisterNode`, which drops the error of the discovery.
  unfoldable pub register_node : Node → NodeManager → Outcome (Unit {0}) × NodeManager
  register_node node nm = register_as node nm (convert_k8s_uuid_to_normal node.system_uuid)

abbrev pub unregister_as : NodeManager → Outcome Text → Outcome (Unit {0}) × NodeManager
unregister_as nm (ok uuid) = (ok tt, remove_node uuid nm)
unregister_as nm (err e) = (err e, nm)
unregister_as nm panic = (panic, nm)

-- `UnregisterNode`
unfoldable pub unregister_node : Node → NodeManager → Outcome (Unit {0}) × NodeManager
unregister_node node nm = unregister_as nm (convert_k8s_uuid_to_normal node.system_uuid)
