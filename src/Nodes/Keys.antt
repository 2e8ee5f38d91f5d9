-- ===== src/Nodes/Keys.antt =====
-- The maps of the node manager hold every node under its own keys, whatever is discovered.
use cloud_provider_vsphere.Common.{
  ◌≡◌, refl, Option, none, some, [], Text, lookup, Outcome, ok, err, panic, All, All-insert,
  All-lookup, arith,
}
use cloud_provider_vsphere.Inventory.{Properties}
use cloud_provider_vsphere.Discovery.{FindVm, find_vm_by_uuid, VmDiscoveryInfo}
use cloud_provider_vsphere.Uuid.{convert_k8s_uuid_to_normal}
use cloud_provider_vsphere.Nodes.{
  NodeInfo, DatacenterInfo, VCenterInfo, Node, NodeManager, new_node_manager, Calls, vc_or_new,
  dc_or_new, add_to_dc, add_to_vc, add_node_info_to_vc_list, add_node_info, node_info_of,
  with_properties, on_found, shake_out_node_id_lookup, discover_node, registered, register_as,
  register_node,
}

abbrev pub IsVmEntry : Text → Text → Text × NodeInfo → Type 0
IsVmEntry vcenter datacenter (k, n) =
    (k ≡ n.uuid) × (n.vc_server ≡ vcenter) × (n.datacenter.name ≡ datacenter)

abbrev pub IsDcEntry : Text → Text × DatacenterInfo → Type 0
IsDcEntry vcenter (k, dc) = (dc.name ≡ k) × All (IsVmEntry vcenter k) dc.vm_list

abbrev pub IsVcEntry : Text × VCenterInfo → Type 0
IsVcEntry (k, vc) = (vc.address ≡ k) × All (IsDcEntry k) vc.dc_list

pub record IsKeyed (nm : NodeManager) : Type 0 where
  pub names : All (λ e. e.0 ≡ e.1.node_name) nm.node_name_map
  pub uuids : All (λ e. e.0 ≡ e.1.uuid) nm.node_uuid_map
  pub tree : All IsVcEntry nm.vc_list

-- An entry that is there, or that is made, is well formed.
dc-Keyed :
    (n : NodeInfo) (o : Option DatacenterInfo)
    → ((dc : DatacenterInfo) → o ≡ some dc → IsDcEntry n.vc_server (n.datacenter.name, dc))
    → IsDcEntry n.vc_server (n.datacenter.name, add_to_dc n (dc_or_new n.datacenter.name o))
dc-Keyed n none h =
    (refl, All-insert (IsVmEntry n.vc_server n.datacenter.name) n.uuid n [] tt (refl, refl, refl))
dc-Keyed n (some dc) h =
    let (name, vms) = h dc refl in
    (
      name,
      All-insert (IsVmEntry n.vc_server n.datacenter.name) n.uuid n dc.vm_list vms
          (refl, refl, refl),
    )

vc-Keyed :
    (n : NodeInfo) (o : Option VCenterInfo)
    → ((vc : VCenterInfo) → o ≡ some vc → IsVcEntry (n.vc_server, vc))
    → IsVcEntry (n.vc_server, add_to_vc n.datacenter.name n (vc_or_new n.vc_server o))
unfolding lookup
vc-Keyed n none h = (
  refl,
  All-insert (IsDcEntry n.vc_server) n.datacenter.name _ [] tt
      (dc-Keyed n none (λ dc e. absurd (ground arith))),
)
vc-Keyed n (some vc) h =
    let (address, dcs) = h vc refl in
    (
      address,
      All-insert (IsDcEntry n.vc_server) n.datacenter.name _ vc.dc_list dcs (
          dc-Keyed n (lookup n.datacenter.name vc.dc_list)
            (λ dc e. All-lookup (IsDcEntry n.vc_server) n.datacenter.name vc.dc_list dcs e)),
    )

add_node_info-IsKeyed :
    (n : NodeInfo) (nm : NodeManager) → IsKeyed nm → IsKeyed (add_node_info n nm)
unfolding add_node_info add_node_info_to_vc_list
add_node_info-IsKeyed n nm h = record {
  names = All-insert (λ e. e.0 ≡ e.1.node_name) n.node_name n nm.node_name_map h.names refl;
  uuids = All-insert (λ e. e.0 ≡ e.1.uuid) n.uuid n nm.node_uuid_map h.uuids refl;
  tree = All-insert IsVcEntry n.vc_server _ nm.vc_list h.tree (
      vc-Keyed n (lookup n.vc_server nm.vc_list)
        (λ vc e. All-lookup IsVcEntry n.vc_server nm.vc_list h.tree e));
}

module _ (calls : Calls) where
  properties-IsKeyed :
      (nm : NodeManager) (d : VmDiscoveryInfo) (o : Outcome Properties)
      → IsKeyed nm
      → IsKeyed (with_properties calls nm d o).1
  properties-IsKeyed nm d (ok p) h = add_node_info-IsKeyed (node_info_of calls d p) nm h
  properties-IsKeyed nm d (err e) h = h
  properties-IsKeyed nm d panic h = h

  found-IsKeyed :
      (nm : NodeManager) (o : Outcome (Option VmDiscoveryInfo))
      → IsKeyed nm
      → IsKeyed (on_found calls nm o).1
  found-IsKeyed nm (ok none) h = h
  found-IsKeyed nm (ok (some d)) h = properties-IsKeyed nm d (calls.properties d.vm) h
  found-IsKeyed nm (err e) h = h
  found-IsKeyed nm panic h = h

  -- Discovery keeps the maps well formed, however it ends: nodes stand under their name and under
  -- their UUID, and in the tree under their vCenter, their datacenter and their UUID.
  pub discover_node-IsKeyed :
      (node_id : Text) (by : FindVm) (nm : NodeManager)
      → IsKeyed nm
      → IsKeyed (discover_node calls node_id by nm).1
  unfolding discover_node
  discover_node-IsKeyed node_id by nm h =
      found-IsKeyed nm (shake_out_node_id_lookup calls node_id by) h

  registered-IsKeyed :
      (uuid : Text) (node : Node) (o : Outcome (Unit {0})) (nm : NodeManager)
      → IsKeyed nm
      → IsKeyed (registered calls uuid node (o, nm)).1
  registered-IsKeyed uuid node panic nm h = h
  registered-IsKeyed uuid node (ok u) nm h = record {
    names = h.names;
    uuids = h.uuids;
    tree = h.tree;
  }
  registered-IsKeyed uuid node (err e) nm h = record {
    names = h.names;
    uuids = h.uuids;
    tree = h.tree;
  }

  register-IsKeyed :
      (node : Node) (nm : NodeManager) (o : Outcome Text)
      → IsKeyed nm
      → IsKeyed (register_as calls node nm o).1
  register-IsKeyed node nm (ok uuid) h =
      registered-IsKeyed uuid node (discover_node calls uuid find_vm_by_uuid nm).0
        (discover_node calls uuid find_vm_by_uuid nm).1
        (discover_node-IsKeyed uuid find_vm_by_uuid nm h)
  register-IsKeyed node nm (err e) h = h
  register-IsKeyed node nm panic h = h

  -- The handler for a node that is added to the cluster keeps the maps well formed, however it ends.
  pub register_node-IsKeyed :
      (node : Node) (nm : NodeManager) → IsKeyed nm → IsKeyed (register_node calls node nm).1
  unfolding register_node
  register_node-IsKeyed node nm h =
      register-IsKeyed node nm (convert_k8s_uuid_to_normal node.system_uuid) h

-- The maps of a new manager are well formed.
pub new_node_manager-IsKeyed : IsKeyed new_node_manager
new_node_manager-IsKeyed = record { names = tt; uuids = tt; tree = tt }
