-- ===== src/Nodes/Tree.antt =====
-- Lookups in the tree of vCenters, datacenters and machines after a node was added.
use cloud_provider_vsphere.Common.{
  ◌≡◌, refl, sym, ap, ◌∙◌, Bool, true, false, ◌&&◌, [], Option, none, some, Text, ◌==◌, ==_iff, Map,
  lookup, lookup-insert, datacenter_not_found, vm_not_found, Outcome, ok, err, panic, ◌>>=◌,
  if◌then◌else◌,
}
use cloud_provider_vsphere.Nodes.{
  NodeInfo, DatacenterInfo, VCenterInfo, vc_or_new, dc_or_new, add_to_dc, add_to_vc,
  add_node_info_to_vc_list, dc_in, find_datacenter_info_in_vc_list, node_in,
  find_node_info_in_vc_list,
}

abbrev pub found : Outcome NodeInfo → Option NodeInfo
found (ok n) = some n
found (err e) = none
found panic = none

-- The node under the three keys.
abbrev node_at : Text → Option DatacenterInfo → Option NodeInfo
node_at u none = none
node_at u (some dc) = lookup u dc.vm_list

abbrev at_datacenter : Text → Text → Option VCenterInfo → Option NodeInfo
at_datacenter d u none = none
at_datacenter d u (some vc) = node_at u (lookup d vc.dc_list)

find-at :
    (v d u : Text) (m : Map VCenterInfo)
    → found (find_node_info_in_vc_list v d u m) ≡ at_datacenter d u (lookup v m)
unfolding find_node_info_in_vc_list find_datacenter_info_in_vc_list
find-at v d u m = vc (lookup v m)
  where
    node :
        (o : Option NodeInfo)
        → found (let r : Outcome NodeInfo = elim o [ none ↦ err vm_not_found | some n ↦ ok n ] in r)
          ≡ o
    node none = refl
    node (some n) = refl

    dc :
        (o : Option DatacenterInfo)
        → found (
            (let r : Outcome DatacenterInfo = elim o [
              | none ↦ err datacenter_not_found
              | some x ↦ ok x
            ] in
              r)
            >>= λ x. node_in u x)
          ≡ node_at u o
    dc none = refl
    dc (some x) = node (lookup u x.vm_list)

    vc : (o : Option VCenterInfo) → found (dc_in d o >>= λ x. node_in u x) ≡ at_datacenter d u o
    vc none = refl
    vc (some x) = dc (lookup d x.dc_list)

module _ (n : NodeInfo) (u : Text) where
  dc-added :
      (d : Text) (o : Option DatacenterInfo)
      → node_at u (some (add_to_dc n (dc_or_new d o)))
        ≡ (if n.uuid == u then some n else node_at u o)
  unfolding lookup
  dc-added d none = lookup-insert n.uuid u n []
  dc-added d (some dc) = lookup-insert n.uuid u n dc.vm_list

  choose-dc :
      (same : Bool) (d : Text) (o other : Option DatacenterInfo)
      → (same ≡ true → o ≡ other)
      → node_at u (if same then some (add_to_dc n (dc_or_new d o)) else other)
        ≡ (if same && n.uuid == u then some n else node_at u other)
  choose-dc true d o other e =
      dc-added d o ∙ ap (λ p. if n.uuid == u then some n else node_at u p) (e refl)
  choose-dc false d o other e = refl

  vc-added :
      (v d d' : Text) (o : Option VCenterInfo)
      → at_datacenter d' u (some (add_to_vc d n (vc_or_new v o)))
        ≡ (if d == d' && n.uuid == u then some n else at_datacenter d' u o)
  unfolding lookup
  vc-added v d d' none =
      ap (node_at u) (lookup-insert d d' _ []) ∙ choose-dc (d == d') d none none (λ e. refl)
  vc-added v d d' (some vc) =
      ap (node_at u) (lookup-insert d d' _ vc.dc_list)
      ∙ choose-dc (d == d') d (lookup d vc.dc_list) (lookup d' vc.dc_list)
          (λ e. ap (λ k. lookup k vc.dc_list) ((==_iff d d').0 e))

  choose-vc :
      (same : Bool) (v d d' : Text) (o other : Option VCenterInfo)
      → (same ≡ true → o ≡ other)
      → at_datacenter d' u (if same then some (add_to_vc d n (vc_or_new v o)) else other)
        ≡ (if same && d == d' && n.uuid == u then some n else at_datacenter d' u other)
  choose-vc true v d d' o other e =
      vc-added v d d' o
      ∙ ap (λ p. if d == d' && n.uuid == u then some n else at_datacenter d' u p) (e refl)
  choose-vc false v d d' o other e = refl

-- After a node was added to the tree, a lookup under its vCenter, datacenter and UUID finds it, and
-- a lookup under any other keys finds what it found before.
pub find_node_info_in_vc_list-add :
    (vcenter datacenter v d u : Text) (n : NodeInfo) (m : Map VCenterInfo)
    → found (find_node_info_in_vc_list v d u (add_node_info_to_vc_list vcenter datacenter n m)) ≡ (
        if vcenter == v && datacenter == d && n.uuid == u
        then some n
        else found (find_node_info_in_vc_list v d u m))
unfolding add_node_info_to_vc_list
find_node_info_in_vc_list-add vcenter datacenter v d u n m =
    find-at v d u (add_node_info_to_vc_list vcenter datacenter n m)
    ∙ ap (at_datacenter d u) (lookup-insert vcenter v _ m)
    ∙ choose-vc n u (vcenter == v) vcenter datacenter d (lookup vcenter m) (lookup v m)
        (λ e. ap (λ k. lookup k m) ((==_iff vcenter v).0 e))
    ∙ ap (λ o. if vcenter == v && datacenter == d && n.uuid == u then some n else o)
        (sym (find-at v d u m))
