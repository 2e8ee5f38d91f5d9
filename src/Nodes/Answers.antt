-- ===== src/Nodes/Answers.antt =====
-- What the answers about nodes are when they are asked for again, and when they panic.
use cloud_provider_vsphere.Common.{
  ◌≡◌, ◌≢◌, refl, sym, ap, ◌∙◌, Option, none, some, Text, ==_iff, lookup, insert, lookup-insert,
  Error, Outcome, ok, err, panic, ◌>>=◌, length, ◌<◌, arith,
}
use cloud_provider_vsphere.Inventory.{Properties}
use cloud_provider_vsphere.Discovery.{find_vm_by_uuid, find_vm_by_name, VmDiscoveryInfo}
use cloud_provider_vsphere.Uuid.{get_uuid_from_provider_id}
use cloud_provider_vsphere.Uuid.Format.{convert_k8s_uuid_to_normal-panic_iff}
use cloud_provider_vsphere.Nodes.{
  NodeInfo, NodeManager, Calls, discover_node, shake_out_node_id_lookup, or_reversed, on_found,
  with_properties, node_info_of, add_node_info,
}
use cloud_provider_vsphere.Nodes.Instances.{
  field_or_panic, field_or_missed, named_after, named, by_name, identified_after, identified,
  by_uid, node_addresses_by_provider_id,
}

module _ (calls : Calls) {A : Type 0} (f : NodeInfo → A) where
  named-known :
      (name : Text) (nm : NodeManager) (o : Option NodeInfo) (a : A)
      → field_or_missed f o ≡ ok a
      → named calls f name nm o ≡ (ok a, nm)
  named-known name nm none a e = absurd (ground arith)
  named-known name nm (some n) a e = ap (λ r. (r, nm)) e

  named-ok :
      (name : Text) (nm : NodeManager) (o : Option NodeInfo) (a : A) (nm' : NodeManager)
      → lookup name nm.node_name_map ≡ o
      → named calls f name nm o ≡ (ok a, nm')
      → field_or_missed f (lookup name nm'.node_name_map) ≡ ok a
  named-ok name nm (some n) a nm' l e =
      ap (λ (r : Outcome A × NodeManager). field_or_missed f (lookup name r.1.node_name_map))
        (sym e)
      ∙ ap (field_or_missed f) l
      ∙ ap (λ (r : Outcome A × NodeManager). r.0) e
  named-ok name nm none a nm' l e = after (discover_node calls name find_vm_by_name nm) e
    where
      after :
          (r : Outcome (Unit {0}) × NodeManager)
          → named_after calls f name r ≡ (ok a, nm')
          → field_or_missed f (lookup name nm'.node_name_map) ≡ ok a
      after (ok u, k) h =
          ap (λ (r : Outcome A × NodeManager). field_or_missed f (lookup name r.1.node_name_map))
            (sym h)
          ∙ ap (λ (r : Outcome A × NodeManager). r.0) h
      after (err x, k) h = absurd (cc (ap (λ (r : Outcome A × NodeManager). r.0) h))
      after (panic, k) h = absurd (cc (ap (λ (r : Outcome A × NodeManager). r.0) h))

  -- An answer about a node name, its addresses or its identifier, that was given once is given again
  -- by the next call, from the maps, which it leaves as they are.
  pub by_name-again :
      (name : Text) (nm : NodeManager) (a : A) (nm' : NodeManager)
      → by_name calls f name nm ≡ (ok a, nm')
      → by_name calls f name nm' ≡ (ok a, nm')
  unfolding by_name
  by_name-again name nm a nm' e =
      named-known name nm' (lookup name nm'.node_name_map) a
        (named-ok name nm (lookup name nm.node_name_map) a nm' refl e)

-- What the API answers to a search for a UUID that leads to a machine.
pub record Finds (calls : Calls) (uid : Text) (d : VmDiscoveryInfo) : Type 0 where
  pub props : Properties
  pub found : calls.which 0 uid find_vm_by_uuid ≡ ok (some d)
  pub read : calls.properties d.vm ≡ ok props

discover_node-Finds :
    (calls : Calls) (uid : Text) (d : VmDiscoveryInfo) (nm : NodeManager)
    → (h : Finds calls uid d)
    → discover_node calls uid find_vm_by_uuid nm
      ≡ (ok tt, add_node_info (node_info_of calls d h.props) nm)
unfolding discover_node shake_out_node_id_lookup
discover_node-Finds calls uid d nm h =
    ap (λ o. on_found calls nm (or_reversed calls uid o)) h.found
    ∙ ap (with_properties calls nm d) h.read

module _ (calls : Calls) (provider_id : Text) (nm : NodeManager) where
  unknown-by_uid :
      (uid : Text) (d : VmDiscoveryInfo)
      → lookup uid nm.node_uuid_map ≡ none
      → Finds calls uid d
      → d.uuid ≢ uid
      → (by_uid calls (λ n. n.node_addresses) uid nm).0 ≡ panic
  unfolding by_uid add_node_info
  unknown-by_uid uid d l h n =
      let missing : lookup uid (insert d.uuid (node_info_of calls d h.props) nm.node_uuid_map)
          ≡ none =
        ground (
          arith,
          lookup-insert d.uuid uid (node_info_of calls d h.props) nm.node_uuid_map,
          ==_iff d.uuid uid,
        ) in
      ap (λ o. (identified calls (λ n. n.node_addresses) uid nm o).0) l
      ∙ ap (λ r. (identified_after calls (λ n. n.node_addresses) uid r).0)
          (discover_node-Finds calls uid d nm h)
      ∙ ap (field_or_panic (λ n. n.node_addresses)) missing

  -- If the machine of a provider identifier that is not in the maps is found, and its UUID is
  -- another text, in another case for example, the question for its addresses panics.
  pub node_addresses_by_provider_id-panic :
      (d : VmDiscoveryInfo)
      → lookup (get_uuid_from_provider_id provider_id) nm.node_uuid_map ≡ none
      → Finds calls (get_uuid_from_provider_id provider_id) d
      → d.uuid ≢ get_uuid_from_provider_id provider_id
      → (node_addresses_by_provider_id calls provider_id nm).0 ≡ panic
  unfolding node_addresses_by_provider_id
  node_addresses_by_provider_id-panic d l h n =
      unknown-by_uid (get_uuid_from_provider_id provider_id) d l h n

-- A search by UUID that fails for a text of fewer than 36 bytes panics: the text is reversed for a
-- second search, and is too short for that.
pub discover_node-panic :
    (calls : Calls) (node_id : Text) (nm : NodeManager) (e : Error)
    → calls.which 0 node_id find_vm_by_uuid ≡ err e
    → length node_id < 36
    → (discover_node calls node_id find_vm_by_uuid nm).0 ≡ panic
unfolding discover_node shake_out_node_id_lookup
discover_node-panic calls node_id nm e h l =
    ap (λ o. (on_found calls nm (or_reversed calls node_id o)).0) h
    ∙ ap (λ r. (on_found calls nm (r >>= λ u. calls.which 1 u find_vm_by_uuid)).0)
        ((convert_k8s_uuid_to_normal-panic_iff node_id).1 l)
