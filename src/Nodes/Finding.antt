-- ===== src/Nodes/Finding.antt =====
-- The search for machines that the node manager calls, filled with `WhichVCandDCByNodeID`, and what
-- is registered then.
use cloud_provider_vsphere.Common.{
  ℕ, ◌≡◌, refl, ◌∙◌, ◌⊎◌, inl, inr, Bool, Option, some, List, Text, to_lower, Outcome, ok, err,
  panic, ◌>>=◌, arith,
}
use cloud_provider_vsphere.Connections.{ConnectionManager}
use cloud_provider_vsphere.Search.{Actor}
use cloud_provider_vsphere.Discovery.{
  Site, FindVm, find_vm_by_uuid, find_vm_by_name, VmDiscoveryInfo, normal_id,
  which_vc_and_dc_by_node_id,
}
use cloud_provider_vsphere.Discovery.Machines.{IsMachine, IsPlace, which_vc_and_dc_by_node_id_sound}
use cloud_provider_vsphere.Uuid.{convert_k8s_uuid_to_normal}
use cloud_provider_vsphere.Nodes.{NodeAddress, Calls, or_reversed, shake_out_node_id_lookup}

-- The moments, managers and schedules of the searches that a call makes.
pub record Runs : Type 0 where
  pub site : Site
  pub time : ℕ → ℕ
  pub manager : ℕ → ConnectionManager
  pub schedule : ℕ → List Actor
  pub is_ipv4 : Text → Bool
  pub add_to_node_addresses : List NodeAddress → List NodeAddress → List NodeAddress
  pub decimal : ℕ → Text

abbrev pub calls_of : Runs → Calls
calls_of r = record {
  which =
      λ k id by. which_vc_and_dc_by_node_id r.site (r.time k) (r.manager k) (r.schedule k) id by;
  properties = r.site.api.properties;
  is_ipv4 = r.is_ipv4;
  add_to_node_addresses = r.add_to_node_addresses;
  decimal = r.decimal;
}

-- The identifier is the one asked for or, in a search by UUID, its other format.
abbrev pub IsAskedBy : FindVm → Text → Text → Type 0
IsAskedBy find_vm_by_name node_id id = id ≡ node_id
IsAskedBy find_vm_by_uuid node_id id =
    (id ≡ to_lower node_id)
    ⊎ ((u : Text) × (convert_k8s_uuid_to_normal node_id ≡ ok u) × (id ≡ to_lower u))

module _ (r : Runs) where
  IsFoundAs : FindVm → Text → Option VmDiscoveryInfo → Type 0
  IsFoundAs by node_id o =
      (d : VmDiscoveryInfo) × (o ≡ some d)
      × (id : Text) × IsAskedBy by node_id id
      × IsMachine r.site.api by id d
      × (k : ℕ) × IsPlace r.site (r.manager k)
          (record { vc = d.vc_server; datacenter = d.datacenter })

  which-Found :
      (k : ℕ) (by : FindVm) (node_id asked : Text) (o : Option VmDiscoveryInfo)
      → IsAskedBy by node_id (normal_id by asked)
      → (calls_of r).which k asked by ≡ ok o
      → IsFoundAs by node_id o
  unfolding IsFoundAs
  which-Found k by node_id asked o a h =
      let (d, e, machine, place) =
        which_vc_and_dc_by_node_id_sound r.site (r.time k) (r.manager k) (r.schedule k) asked by o
          h in
      (d, e, normal_id by asked, a, machine, k, place)

  second-Found :
      (node_id : Text) (q : Outcome Text) (o : Option VmDiscoveryInfo)
      → convert_k8s_uuid_to_normal node_id ≡ q
      → (q >>= λ u. (calls_of r).which 1 u find_vm_by_uuid) ≡ ok o
      → IsFoundAs find_vm_by_uuid node_id o
  second-Found node_id (ok u) o c h = which-Found 1 find_vm_by_uuid node_id u o (inr (u, c, refl)) h
  second-Found node_id (err e) o c h = absurd (ground arith)
  second-Found node_id panic o c h = absurd (ground arith)

  uuid-Found :
      (node_id : Text) (first : Outcome (Option VmDiscoveryInfo)) (o : Option VmDiscoveryInfo)
      → (calls_of r).which 0 node_id find_vm_by_uuid ≡ first
      → or_reversed (calls_of r) node_id first ≡ ok o
      → IsFoundAs find_vm_by_uuid node_id o
  uuid-Found node_id (ok d) o e h =
      which-Found 0 find_vm_by_uuid node_id node_id o (inl refl) (e ∙ h)
  uuid-Found node_id (err x) o e h =
      second-Found node_id (convert_k8s_uuid_to_normal node_id) o refl h
  uuid-Found node_id panic o e h = absurd (ground arith)

  -- A machine that the node manager finds for a name is found by that name, and one that it finds
  -- for a UUID is found by it or by its other format; for every interleaving of the searches its
  -- vCenter is one of the configuration, and its datacenter one of those listed for it.
  pub shake_out_node_id_lookup_sound :
      (node_id : Text) (by : FindVm) (o : Option VmDiscoveryInfo)
      → shake_out_node_id_lookup (calls_of r) node_id by ≡ ok o
      → (d : VmDiscoveryInfo) × (o ≡ some d)
        × (id : Text) × IsAskedBy by node_id id
        × IsMachine r.site.api by id d
        × (k : ℕ) × IsPlace r.site
            (r.manager k)
            (record { vc = d.vc_server; datacenter = d.datacenter })
  unfolding shake_out_node_id_lookup IsFoundAs
  shake_out_node_id_lookup_sound node_id find_vm_by_name o h =
      which-Found 0 find_vm_by_name node_id node_id o refl h
  shake_out_node_id_lookup_sound node_id find_vm_by_uuid o h =
      uuid-Found node_id ((calls_of r).which 0 node_id find_vm_by_uuid) o refl h
