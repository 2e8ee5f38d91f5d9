-- ===== src/Nodes/Instances.antt =====
-- pkg/cloudprovider/vsphere/instances.go: the answers to Kubernetes about nodes. A node that was
-- discovered before is answered from the maps; any other is discovered first.
use cloud_provider_vsphere.Common.{
  Bool, true, false, Option, none, some, List, Text, lookup, node_not_found, Outcome, ok, err,
  panic,
}
use cloud_provider_vsphere.Discovery.{find_vm_by_uuid, find_vm_by_name}
use cloud_provider_vsphere.Uuid.{get_uuid_from_provider_id}
use cloud_provider_vsphere.Nodes.{NodeAddress, NodeInfo, NodeManager, Calls, discover_node}

-- `nodeNameMap[name].F`, which panics on a missing key.
abbrev pub field_or_panic : {A : Type 0} → (NodeInfo → A) → Option NodeInfo → Outcome A
field_or_panic f none = panic
field_or_panic f (some n) = ok (f n)

abbrev pub field_or_missed : {A : Type 0} → (NodeInfo → A) → Option NodeInfo → Outcome A
field_or_missed f none = err node_not_found
field_or_missed f (some n) = ok (f n)

module _ (calls : Calls) {A : Type 0} (f : NodeInfo → A) where
  abbrev pub named_after : Text → Outcome (Unit {0}) × NodeManager → Outcome A × NodeManager
  named_after name (ok u, nm) = (field_or_missed f (lookup name nm.node_name_map), nm)
  named_after name (err e, nm) = (err node_not_found, nm)
  named_after name (panic, nm) = (panic, nm)

  abbrev pub named : Text → NodeManager → Option NodeInfo → Outcome A × NodeManager
  named name nm (some n) = (ok (f n), nm)
  named name nm none = named_after name (discover_node calls name find_vm_by_name nm)

  -- The body that `NodeAddresses` and `InstanceID` share.
  unfoldable pub by_name : Text → NodeManager → Outcome A × NodeManager
  by_name name nm = named name nm (lookup name nm.node_name_map)

  abbrev pub identified_after : Text → Outcome (Unit {0}) × NodeManager → Outcome A × NodeManager
  identified_after uid (ok u, nm) = (field_or_panic f (lookup uid nm.node_uuid_map), nm)
  identified_after uid (err e, nm) = (err node_not_found, nm)
  identified_after uid (panic, nm) = (panic, nm)

  abbrev pub identified : Text → NodeManager → Option NodeInfo → Outcome A × NodeManager
  identified uid nm (some n) = (ok (f n), nm)
  identified uid nm none = identified_after uid (discover_node calls uid find_vm_by_uuid nm)

  -- The body of `NodeAddressesByProviderID`, after the prefix is cut off.
  unfoldable pub by_uid : Text → NodeManager → Outcome A × NodeManager
  by_uid uid nm = identified uid nm (lookup uid nm.node_uuid_map)

module _ (calls : Calls) where
  abbrev pub node_addresses : Text → NodeManager → Outcome (List NodeAddress) × NodeManager
  node_addresses name nm = by_name calls (λ n. n.node_addresses) name nm

  abbrev pub instance_id : Text → NodeManager → Outcome Text × NodeManager
  instance_id name nm = by_name calls (λ n. n.uuid) name nm

  abbrev pub external_id : Text → NodeManager → Outcome Text × NodeManager
  external_id name nm = instance_id name nm

  unfoldable pub node_addresses_by_provider_id :
      Text → NodeManager → Outcome (List NodeAddress) × NodeManager
  node_addresses_by_provider_id provider_id nm =
      by_uid calls (λ n. n.node_addresses) (get_uuid_from_provider_id provider_id) nm

  abbrev pub exists_after : Outcome (Unit {0}) × NodeManager → Outcome Bool × NodeManager
  exists_after (ok u, nm) = (ok true, nm)
  exists_after (err e, nm) = (ok false, nm)
  exists_after (panic, nm) = (panic, nm)

  abbrev pub exists : Text → NodeManager → Option NodeInfo → Outcome Bool × NodeManager
  exists uid nm (some n) = (ok true, nm)
  exists uid nm none = exists_after (discover_node calls uid find_vm_by_uuid nm)

  unfoldable pub instance_exists_by_provider_id : Text → NodeManager → Outcome Bool × NodeManager
  instance_exists_by_provider_id provider_id nm =
      let uid = get_uuid_from_provider_id provider_id in exists uid nm (lookup uid nm.node_uuid_map)

-- `InstanceType` and `InstanceTypeByProviderID`
unfoldable pub instance_type : Text → NodeManager → Outcome Text
instance_type name nm = field_or_panic (λ n. n.node_type) (lookup name nm.node_name_map)

unfoldable pub instance_type_by_provider_id : Text → NodeManager → Outcome Text
instance_type_by_provider_id provider_id nm =
    field_or_panic (λ n. n.node_type)
      (lookup (get_uuid_from_provider_id provider_id) nm.node_uuid_map)
