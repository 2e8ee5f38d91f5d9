-- ===== src/Nodes/Listing.antt =====
-- Which nodes a request for the list of nodes is answered with.
use cloud_provider_vsphere.Common.{
  ◌≡◌, refl, sym, ap, subst, ◌∙◌, false, inl, inr, Bool-cases, Option, none, some, List, [], ◌∷◌,
  ◌++◌, Text, is_empty, ◌==◌, ==_sound, Map, lookup, Outcome, ok, err, ◌>>=◌, here, there, Member,
  Any-append_left, Any-append_right, datacenter_not_found, vm_not_found, arith,
}
use cloud_provider_vsphere.Nodes.{
  NodeInfo, DatacenterInfo, VCenterInfo, NodeManager, dc_in, find_datacenter_info_in_vc_list,
  node_in, find_node_info_in_vc_list,
}
use cloud_provider_vsphere.Nodes.Export.{
  PbNode, pb_node, datacenter_to_node_list, export_vcenter, export_all, export_datacenter,
  export_found, export_nodes, list_nodes,
}

lookup-Member : {V : Type 0} (k : Text) (m : Map V) (v : V) → lookup k m ≡ some v → Member (k, v) m
unfolding lookup
lookup-Member k [] v e = absurd (ground arith)
lookup-Member k ((j, w) ∷ m) v e = elim (Bool-cases (j == k)) [
  | inl same ↦ let value : w ≡ v = ground arith in here (λ i. (==_sound j k same i, value i))
  | inr other ↦ there (lookup-Member k m v (ground arith))
]

datacenter-keeps :
    (x : PbNode) (m : Map NodeInfo) (acc : List PbNode)
    → Member x acc
    → Member x (datacenter_to_node_list m acc)
unfolding datacenter_to_node_list
datacenter-keeps x [] acc h = h
datacenter-keeps x ((u, n) ∷ m) acc h =
    datacenter-keeps x m (acc ++ pb_node n ∷ []) (Any-append_left _ h)

datacenter-lists :
    (u : Text) (n : NodeInfo) (m : Map NodeInfo) (acc : List PbNode)
    → Member (u, n) m
    → Member (pb_node n) (datacenter_to_node_list m acc)
unfolding datacenter_to_node_list
datacenter-lists u n [] acc h = elim h [ ]
datacenter-lists u n ((k, x) ∷ m) acc (here e) =
    datacenter-keeps (pb_node n) m (acc ++ pb_node x ∷ [])
      (Any-append_right acc (here (ap (λ p. pb_node p.1) e)))
datacenter-lists u n ((k, x) ∷ m) acc (there h) = datacenter-lists u n m (acc ++ pb_node x ∷ []) h

vcenter-keeps :
    (x : PbNode) (m : Map DatacenterInfo) (acc : List PbNode)
    → Member x acc
    → Member x (export_vcenter m acc)
unfolding export_vcenter
vcenter-keeps x [] acc h = h
vcenter-keeps x ((d, dc) ∷ m) acc h =
    vcenter-keeps x m (datacenter_to_node_list dc.vm_list acc) (datacenter-keeps x dc.vm_list acc h)

vcenter-lists :
    (x : PbNode) (d : Text) (dc : DatacenterInfo) (m : Map DatacenterInfo) (acc : List PbNode)
    → ((acc' : List PbNode) → Member x (datacenter_to_node_list dc.vm_list acc'))
    → Member (d, dc) m
    → Member x (export_vcenter m acc)
unfolding export_vcenter
vcenter-lists x d dc [] acc f h = elim h [ ]
vcenter-lists x d dc ((k, c) ∷ m) acc f (here e) =
    vcenter-keeps x m (datacenter_to_node_list c.vm_list acc) (
      subst (λ (p : Text × DatacenterInfo). Member x (datacenter_to_node_list p.1.vm_list acc))
        (sym e) (f acc))
vcenter-lists x d dc ((k, c) ∷ m) acc f (there h) =
    vcenter-lists x d dc m (datacenter_to_node_list c.vm_list acc) f h

all-keeps :
    (x : PbNode) (m : Map VCenterInfo) (acc : List PbNode)
    → Member x acc
    → Member x (export_all m acc)
unfolding export_all
all-keeps x [] acc h = h
all-keeps x ((v, vc) ∷ m) acc h =
    all-keeps x m (export_vcenter vc.dc_list acc) (vcenter-keeps x vc.dc_list acc h)

all-lists :
    (x : PbNode) (v : Text) (vc : VCenterInfo) (m : Map VCenterInfo) (acc : List PbNode)
    → ((acc' : List PbNode) → Member x (export_vcenter vc.dc_list acc'))
    → Member (v, vc) m
    → Member x (export_all m acc)
unfolding export_all
all-lists x v vc [] acc f h = elim h [ ]
all-lists x v vc ((k, c) ∷ m) acc f (here e) =
    all-keeps x m (export_vcenter c.dc_list acc) (
      subst (λ (p : Text × VCenterInfo). Member x (export_vcenter p.1.dc_list acc)) (sym e) (f acc))
all-lists x v vc ((k, c) ∷ m) acc f (there h) =
    all-lists x v vc m (export_vcenter c.dc_list acc) f h

-- The way to a node that is found.
IsPath : Text → Text → Text → NodeInfo → Map VCenterInfo → Type 0
IsPath v d u n m =
    (vc : VCenterInfo) × (dc : DatacenterInfo) × (lookup v m ≡ some vc)
    × (lookup d vc.dc_list ≡ some dc)
    × (lookup u dc.vm_list ≡ some n)

find-IsPath :
    (v d u : Text) (n : NodeInfo) (m : Map VCenterInfo)
    → find_node_info_in_vc_list v d u m ≡ ok n
    → IsPath v d u n m
unfolding find_node_info_in_vc_list find_datacenter_info_in_vc_list IsPath
find-IsPath v d u n m h = vc (lookup v m) refl h
  where
    node :
        (o : Option NodeInfo)
        → ((let r : Outcome NodeInfo = elim o [ none ↦ err vm_not_found | some k ↦ ok k ] in r)
            ≡ ok n)
        → o ≡ some n
    node none e = absurd (ground arith)
    node (some k) e = ground arith

    dc :
        (vc : VCenterInfo) (l : lookup v m ≡ some vc) (o : Option DatacenterInfo)
        → lookup d vc.dc_list ≡ o
        → ((let r : Outcome DatacenterInfo = elim o [
          | none ↦ err datacenter_not_found
          | some x ↦ ok x
        ] in
              r)
            >>= λ x. node_in u x)
          ≡ ok n
        → (vc' : VCenterInfo) × (dc : DatacenterInfo) × (lookup v m ≡ some vc')
          × (lookup d vc'.dc_list ≡ some dc)
          × (lookup u dc.vm_list ≡ some n)
    dc vc l none k e = absurd (ground arith)
    dc vc l (some x) k e = (vc, x, l, k, node (lookup u x.vm_list) e)

    vc :
        (o : Option VCenterInfo)
        → lookup v m ≡ o
        → (dc_in d o >>= λ x. node_in u x) ≡ ok n
        → (vc' : VCenterInfo) × (dc : DatacenterInfo) × (lookup v m ≡ some vc')
          × (lookup d vc'.dc_list ≡ some dc)
          × (lookup u dc.vm_list ≡ some n)
    vc none l e = absurd (ground arith)
    vc (some x) l e = dc x l (lookup d x.dc_list) refl e

-- The request for a vCenter and a datacenter is answered without an error, and with the node.
abbrev pub Lists : Text → Text → NodeManager → NodeInfo → Type 0
Lists v d nm n = ((list_nodes v d nm).0 ≡ ok tt) × Member (pb_node n) (list_nodes v d nm).1

found-list :
    (v d : Text) (nm : NodeManager) (n : NodeInfo) (r : Outcome (Unit {0}) × List PbNode)
    → list_nodes v d nm ≡ r
    → r.0 ≡ ok tt
    → Member (pb_node n) r.1
    → Lists v d nm n
found-list v d nm n r e h m = (
  ap (λ (p : Outcome (Unit {0}) × List PbNode). p.0) e ∙ h,
  subst (λ (p : Outcome (Unit {0}) × List PbNode). Member (pb_node n) p.1) (sym e) m,
)

list_nodes-datacenter :
    (v d : Text) (nm : NodeManager) (dc : DatacenterInfo)
    → is_empty v ≡ false
    → is_empty d ≡ false
    → find_datacenter_info_in_vc_list v d nm.vc_list ≡ ok dc
    → list_nodes v d nm ≡ (ok tt, datacenter_to_node_list dc.vm_list [])
unfolding list_nodes export_nodes
list_nodes-datacenter [] d nm dc h k e = absurd (ground arith)
list_nodes-datacenter (c ∷ v) [] nm dc h k e = absurd (ground arith)
list_nodes-datacenter (c ∷ v) (c' ∷ d) nm dc h k e = ap (λ o. export_datacenter o []) e

list_nodes-vcenter :
    (v : Text) (nm : NodeManager) (vc : VCenterInfo)
    → is_empty v ≡ false
    → lookup v nm.vc_list ≡ some vc
    → list_nodes v [] nm ≡ (ok tt, export_vcenter vc.dc_list [])
unfolding list_nodes export_nodes
list_nodes-vcenter [] nm vc h e = absurd (ground arith)
list_nodes-vcenter (c ∷ v) nm vc h e = ap (λ o. export_found o []) e

list_nodes-all :
    (d : Text) (nm : NodeManager) → list_nodes [] d nm ≡ (ok tt, export_all nm.vc_list [])
unfolding list_nodes export_nodes
list_nodes-all [] nm = refl
list_nodes-all (c ∷ d) nm = refl

-- A node that the tree has under a vCenter and a datacenter is in the answer to a request for them,
-- to a request for the vCenter alone, and to a request without a vCenter, whatever datacenter it
-- names.
pub list_nodes-found :
    (v d u : Text) (n : NodeInfo) (nm : NodeManager)
    → is_empty v ≡ false
    → is_empty d ≡ false
    → find_node_info_in_vc_list v d u nm.vc_list ≡ ok n
    → Lists v d nm n × Lists v [] nm n × ((any : Text) → Lists [] any nm n)
unfolding find_datacenter_info_in_vc_list IsPath
list_nodes-found v d u n nm some_v some_d h =
    let (vc, dc, at_v, at_d, at_u) = find-IsPath v d u n nm.vc_list h in
    let in_dc : (acc : List PbNode) → Member (pb_node n) (datacenter_to_node_list dc.vm_list acc) =
      λ acc. datacenter-lists u n dc.vm_list acc (lookup-Member u dc.vm_list n at_u) in
    let in_vc : (acc : List PbNode) → Member (pb_node n) (export_vcenter vc.dc_list acc) = λ acc.
      vcenter-lists (pb_node n) d dc vc.dc_list acc in_dc (lookup-Member d vc.dc_list dc at_d) in
    let in_all : Member (pb_node n) (export_all nm.vc_list []) =
      all-lists (pb_node n) v vc nm.vc_list [] in_vc (lookup-Member v nm.vc_list vc at_v) in
    let located : find_datacenter_info_in_vc_list v d nm.vc_list ≡ ok dc =
      ap (dc_in d) at_v
      ∙ ap
          (λ (o : Option DatacenterInfo).
            (let r : Outcome DatacenterInfo = elim o [
              | none ↦ err datacenter_not_found
              | some x ↦ ok x
            ] in
              r))
          at_d in
    (
      found-list v d nm n (ok tt, datacenter_to_node_list dc.vm_list [])
          (list_nodes-datacenter v d nm dc some_v some_d located) refl (in_dc []),
      found-list v [] nm n (ok tt, export_vcenter vc.dc_list [])
          (list_nodes-vcenter v nm vc some_v at_v) refl (in_vc []),
      λ any.
          found-list [] any nm n (ok tt, export_all nm.vc_list []) (list_nodes-all any nm) refl
            in_all,
    )
