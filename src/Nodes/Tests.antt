-- ===== src/Nodes/Tests.antt =====
-- A node manager that discovers one machine.
use cloud_provider_vsphere.Common.{
  ℕ, arith, ap, ◌≡◌, ◌≢◌, refl, true, none, some, [], ◌∷◌, ◌++◌, Text, codes, ◌==◌, ==_ne,
  trim_prefix, strip_prefix, lookup, insert, Error, ok, err, panic,
}
use cloud_provider_vsphere.Discovery.{
  VmDiscoveryInfo, find_vm_by_uuid, find_vm_by_name, which_vc_and_dc_by_node_id,
}
use cloud_provider_vsphere.Discovery.Machines.{IsMachine, IsPlace}
use cloud_provider_vsphere.Discovery.Tests.{
  dc_b, node_props, site, one_vc, rounds, node_info, node_found,
}
use cloud_provider_vsphere.Uuid.{get_uuid_from_provider_id}
use cloud_provider_vsphere.Nodes.{
  NodeInfo, Node, NodeManager, new_node_manager, Calls, add_node_info_to_vc_list, add_node_info,
  find_datacenter_info_in_vc_list, find_node_info_in_vc_list, add_ips, add_nets, or_reversed,
  shake_out_node_id_lookup, discover_node,
}
use cloud_provider_vsphere.Nodes.Instances.{by_name, by_uid, node_addresses_by_provider_id}
use cloud_provider_vsphere.Nodes.Keys.{IsKeyed, new_node_manager-IsKeyed, discover_node-IsKeyed}
use cloud_provider_vsphere.Nodes.Answers.{
  Finds, node_addresses_by_provider_id-panic, discover_node-panic,
}
use cloud_provider_vsphere.Nodes.Finding.{Runs, calls_of, IsAskedBy, shake_out_node_id_lookup_sound}

discovered : Unit {0}
unfolding discover_node shake_out_node_id_lookup add_node_info add_node_info_to_vc_list lookup
    insert ◌==◌ by_name by_uid find_node_info_in_vc_list find_datacenter_info_in_vc_list
    get_uuid_from_provider_id trim_prefix strip_prefix add_nets add_ips
discovered = tt

abbrev calls : Calls
calls = record {
  which = λ k id by. ok (some node_info);
  properties = λ vm. ok node_props;
  is_ipv4 = λ ip. true;
  add_to_node_addresses = λ old new. old ++ new;
  decimal = λ n. [];
}

abbrev no_machine : Calls
no_machine = record calls { which = λ k id by. err Error.no_vm_found }

abbrev node_1 : NodeInfo
node_1 = record {
  datacenter = dc_b;
  vm = 7;
  vc_server = codes "vc1";
  uuid = codes "42aa";
  node_name = codes "node1";
  node_type = [];
  node_addresses = [];
}

abbrev one_node : NodeManager
one_node = record {
  node_name_map = (codes "node1", node_1) ∷ [];
  node_uuid_map = (codes "42aa", node_1) ∷ [];
  vc_list =
      (
        codes "vc1",
        record {
          address = codes "vc1";
          dc_list =
              (codes "b", record { name = codes "b"; vm_list = (codes "42aa", node_1) ∷ [] }) ∷ [];
        },
      )
      ∷ [];
  node_reg_uuid_map = [];
}

discover_node-IsKeyed_example :
    IsKeyed (discover_node calls (codes "node1") find_vm_by_name new_node_manager).1
discover_node-IsKeyed_example =
    discover_node-IsKeyed calls (codes "node1") find_vm_by_name new_node_manager
      new_node_manager-IsKeyed

abbrev cluster_node : Node
cluster_node = record {
  name = codes "node1";
  system_uuid = codes "56492e42-22ad-3911-6d72-59cc8f26bc90";
}

node_1-answer :
    by_name calls (λ n. n.uuid) (codes "node1") new_node_manager
    ≡ (ok (codes "42aa"), (discover_node calls (codes "node1") find_vm_by_name new_node_manager).1)
unfolding discovered
node_1-answer = refl

upper-missing :
    lookup (get_uuid_from_provider_id (codes "vsphere://42AA")) new_node_manager.node_uuid_map
    ≡ none
unfolding discovered
upper-missing = refl

upper-other : node_info.uuid ≢ get_uuid_from_provider_id (codes "vsphere://42AA")
unfolding discovered
upper-other = ==_ne (codes "42aa") (codes "42AA") refl

upper-found : Finds calls (get_uuid_from_provider_id (codes "vsphere://42AA")) node_info
upper-found = record { props = node_props; found = refl; read = refl }

node_addresses_by_provider_id-panic_example :
    (node_addresses_by_provider_id calls (codes "vsphere://42AA") new_node_manager).0 ≡ panic
node_addresses_by_provider_id-panic_example =
    node_addresses_by_provider_id-panic calls (codes "vsphere://42AA") new_node_manager node_info
      upper-missing upper-found upper-other

discover_node-panic_example :
    (discover_node no_machine (codes "42aa") find_vm_by_uuid new_node_manager).0 ≡ panic
discover_node-panic_example =
    discover_node-panic no_machine (codes "42aa") new_node_manager Error.no_vm_found refl
      (omega arith)

node_1-there :
    find_node_info_in_vc_list (codes "vc1") (codes "b") (codes "42aa") one_node.vc_list ≡ ok node_1
unfolding discovered
node_1-there = refl

abbrev runs : Runs
runs = record {
  site = site;
  time = λ k. 0;
  manager = λ k. one_vc;
  schedule = λ k. rounds;
  is_ipv4 = λ ip. true;
  add_to_node_addresses = λ old new. old ++ new;
  decimal = λ n. [];
}

node_looked_up :
    shake_out_node_id_lookup (calls_of runs) (codes "42AA") find_vm_by_uuid ≡ ok (some node_info)
unfolding shake_out_node_id_lookup
node_looked_up = or_first node_found
  where
    or_first :
        which_vc_and_dc_by_node_id site 0 one_vc rounds (codes "42AA") find_vm_by_uuid
          ≡ ok (some node_info)
        → shake_out_node_id_lookup (calls_of runs) (codes "42AA") find_vm_by_uuid
          ≡ ok (some node_info)
    or_first h = ap (or_reversed (calls_of runs) (codes "42AA")) h

shake_out_node_id_lookup_sound_example :
    (d : VmDiscoveryInfo) × (some node_info ≡ some d)
    × (id : Text) × IsAskedBy find_vm_by_uuid (codes "42AA") id
    × IsMachine site.api find_vm_by_uuid id d
    × (k : ℕ) × IsPlace site
        (runs.manager k)
        (record { vc = d.vc_server; datacenter = d.datacenter })
shake_out_node_id_lookup_sound_example =
    shake_out_node_id_lookup_sound runs (codes "42AA") find_vm_by_uuid (some node_info)
      node_looked_up
