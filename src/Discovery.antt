-- ===== src/Discovery.antt =====
-- pkg/common/connectionmanager/search.go and the loop over the vCenters that zones.go and list.go
-- repeat: which vCenter and datacenter hold a virtual machine. The source ranges over the map of
-- instances, connects to each vCenter, lists its datacenters and hands them to the workers of
-- `Search`. A call takes the answers of the API to be the same while it runs.
pub mod Machines
pub mod Reached
pub mod Pairs
mod PairTests
pub mod Tests
use cloud_provider_vsphere.Common.{
  ℕ, ◌+◌, Bool, true, false, Option, none, some, List, [], ◌∷◌, ◌++◌, map, Text, is_empty, to_lower,
  trim_space, split, Map, Error, no_vm_found, Outcome, ok, err, panic, if◌then◌else◌,
}
use cloud_provider_vsphere.Inventory.{
  Datacenter, VirtualMachine, Properties, Api, get_datacenter, get_all_datacenter,
  get_vm_by_dns_name, get_vm_by_uuid,
}
use cloud_provider_vsphere.Credentials.{World}
use cloud_provider_vsphere.Connections.{Instance, ConnectionManager, Vim, connect_attempts}
use cloud_provider_vsphere.Search.{
  Probe, hit, missing, failed, skipped, Visit, batch, Plan, Actor, start, run, result,
}

-- What a search is given: the two sides of the API, and the secrets.
pub record Site : Type 0 where
  pub vim : Vim
  pub world : World
  pub api : Api

-- A job of a search.
pub record Job : Type 0 where
  pub vc : Text
  pub datacenter : Datacenter

-- The errors on the way to the datacenters of a vCenter, and the datacenters.
abbrev pub Listing : Type 0
Listing = List Error × List Datacenter

abbrev pub add_named : Outcome Datacenter → Listing → Listing
add_named (ok dc) (es, dcs) = (es, dc ∷ dcs)
add_named (err e) (es, dcs) = (e ∷ es, dcs)
add_named panic l = l

-- The loop over the names in the configuration: they are trimmed, and empty ones are skipped.
unfoldable pub named_datacenters : Api → Text → List Text → Listing
named_datacenters api vc [] = ([], [])
named_datacenters api vc (name ∷ names) =
    let rest = named_datacenters api vc names in
    if is_empty (trim_space name)
    then rest
    else add_named (get_datacenter api vc (trim_space name)) rest

abbrev pub all_listed : Outcome (List Datacenter) → Listing
all_listed (ok dcs) = ([], dcs)
all_listed (err e) = (e ∷ [], [])
all_listed panic = ([], [])

-- The datacenters of a vCenter: all of them, or those that the configuration names.
unfoldable pub list_datacenters : Api → Text → Text → Listing
unfolding named_datacenters
list_datacenters api vc datacenters =
    if is_empty datacenters
    then all_listed (get_all_datacenter api vc)
    else named_datacenters api vc (split b',' datacenters)

module _ (site : Site) where
  -- The manager after all vCenters were visited.
  unfoldable pub manager_after : ℕ → Map Instance → ConnectionManager → ConnectionManager
  manager_after t [] cm = cm
  manager_after t ((vc, i) ∷ rest) cm =
      manager_after (t + 6) rest (connect_attempts site.vim site.world t vc cm).1

module _ {J : Type 0} (site : Site) (visit : Text → Datacenter → Visit J) where
  abbrev pub plan_of : Text → Listing → Plan J
  plan_of vc (es, dcs) = record { faults = es; visits = map (visit vc) dcs }

  abbrev pub plan_after : Text → Text → Outcome (Unit {0}) → Plan J
  plan_after vc datacenters (ok u) = plan_of vc (list_datacenters site.api vc datacenters)
  plan_after vc datacenters (err e) = record { faults = e ∷ []; visits = [] }
  plan_after vc datacenters panic = record { faults = []; visits = [] }

  -- The loop over the vCenters. The three attempts to connect take six ticks at most.
  unfoldable pub plan : ℕ → Map Instance → ConnectionManager → List (Plan J)
  plan t [] cm = []
  plan t ((vc, i) ∷ rest) cm =
      let (o, cm') = connect_attempts site.vim site.world t vc cm in
      plan_after vc i.datacenters o ∷ plan (t + 6) rest cm'

-- How a machine is looked for.
pub data FindVm : Type 0 where
  find_vm_by_uuid find_vm_by_name : FindVm

pub record VmDiscoveryInfo : Type 0 where
  pub datacenter : Datacenter
  pub vm : VirtualMachine
  pub vc_server : Text
  pub uuid : Text
  pub node_name : Text

abbrev pub get_vm : Api → FindVm → Datacenter → Text → Outcome VirtualMachine
get_vm api find_vm_by_uuid dc id = get_vm_by_uuid api dc id
get_vm api find_vm_by_name dc id = get_vm_by_dns_name api dc id

-- Errors other than the absence of the machine are kept.
abbrev pub vm_error : {R : Type 0} → Error → Probe R
vm_error no_vm_found = missing
vm_error e = failed e

abbrev pub vm_hit : Job → VirtualMachine → Outcome Properties → Probe VmDiscoveryInfo
vm_hit j vm (ok p) = hit (record {
  datacenter = j.datacenter;
  vm = vm;
  vc_server = j.vc;
  uuid = p.uuid;
  node_name = p.host_name;
})
vm_hit j vm _ = skipped

abbrev pub vm_probed : Api → Job → Outcome VirtualMachine → Probe VmDiscoveryInfo
vm_probed api j (ok vm) = vm_hit j vm (api.properties vm)
vm_probed api j (err e) = vm_error e
vm_probed api j panic = skipped

-- The body of a worker's loop.
unfoldable pub probe_vm : Api → FindVm → Text → Job → Probe VmDiscoveryInfo
probe_vm api by id j = vm_probed api j (get_vm api by j.datacenter id)

abbrev pub visit_datacenter : Text → Datacenter → Visit Job
visit_datacenter vc dc = batch (record { vc = vc; datacenter = dc } ∷ [])

abbrev pub normal_id : FindVm → Text → Text
normal_id find_vm_by_uuid id = to_lower id
normal_id find_vm_by_name id = id

-- `WhichVCandDCByNodeID`, for a schedule of its goroutines.
unfoldable pub which_vc_and_dc_by_node_id :
    Site → ℕ → ConnectionManager → List Actor → Text → FindVm → Outcome (Option VmDiscoveryInfo)
which_vc_and_dc_by_node_id site t cm schedule node_id by =
    if is_empty node_id
    then err no_vm_found
    else result no_vm_found (
        run (probe_vm site.api by (normal_id by node_id)) schedule
          (start (plan site visit_datacenter t cm.instances cm)))
