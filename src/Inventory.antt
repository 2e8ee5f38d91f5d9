-- ===== src/Inventory.antt =====
-- pkg/common/vclib/datacenter.go, as far as it looks up datacenters and virtual machines. The
-- vSphere inventory is not under src/: a value of `Api` gives the answers of the govmomi calls.
use cloud_provider_vsphere.Common.{
  ℕ, Bool, Option, none, some, List, Text, to_lower, trim_space, no_vm_found, Outcome, ok, err,
  length, ◌>>=◌,
}

-- A datacenter: the host of its client, which may have a port, and its name.
pub record Datacenter : Type 0 where
  pub host : Text
  pub name : Text

-- A virtual machine, known by a number.
abbrev pub VirtualMachine : Type 0
VirtualMachine = ℕ

pub record Nic : Type 0 where
  pub is_vnic : Bool
  pub ip_addresses : List Text

-- The properties of a machine that the code reads.
pub record Properties : Type 0 where
  pub host_name : Text
  pub uuid : Text
  pub nets : List Nic
  pub guest_id : Text
  pub num_cpu : ℕ
  pub memory_size_mb : ℕ

pub record Api : Type 0 where
  -- finder.DatacenterList of the vCenter, with "*"
  pub datacenter_list : Text → Outcome (List Datacenter)
  -- finder.Datacenter of the vCenter
  pub datacenter : Text → Text → Outcome Datacenter
  -- SearchIndex.FindByUuid and FindByDnsName
  pub find_by_uuid : Datacenter → Text → Outcome (Option VirtualMachine)
  pub find_by_dns_name : Datacenter → Text → Outcome (Option VirtualMachine)
  -- vm.Properties
  pub properties : VirtualMachine → Outcome Properties

-- `GetDatacenter` and `GetAllDatacenter`, for a connection to the vCenter.
unfoldable pub get_datacenter : Api → Text → Text → Outcome Datacenter
get_datacenter api vc path = api.datacenter vc path

unfoldable pub get_all_datacenter : Api → Text → Outcome (List Datacenter)
get_all_datacenter api vc = api.datacenter_list vc

-- `GetNumberOfDatacenters`
unfoldable pub get_number_of_datacenters : Api → Text → Outcome ℕ
get_number_of_datacenters api vc = do dcs ← api.datacenter_list vc; ok (length dcs)

abbrev pub or_no_vm : Option VirtualMachine → Outcome VirtualMachine
or_no_vm none = err no_vm_found
or_no_vm (some vm) = ok vm

unfoldable pub get_vm_by_dns_name : Api → Datacenter → Text → Outcome VirtualMachine
get_vm_by_dns_name api dc dns_name = do
  found ← api.find_by_dns_name dc (to_lower (trim_space dns_name))
  or_no_vm found

unfoldable pub get_vm_by_uuid : Api → Datacenter → Text → Outcome VirtualMachine
get_vm_by_uuid api dc vm_uuid = do
  found ← api.find_by_uuid dc (to_lower (trim_space vm_uuid))
  or_no_vm found
