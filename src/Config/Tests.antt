-- ===== src/Config/Tests.antt =====
-- A configuration with one vCenter.
use cloud_provider_vsphere.Common.{
  split, trim_prefix, ◌==◌, ◌≡◌, ◌≢◌, refl, true, false, none, some, [], ◌∷◌, codes, ◌==◌, lookup,
  insert, is_empty, if◌then◌else◌,
}
use cloud_provider_vsphere.Config.{
  Global, Config, fix_global, add_global_vcenter, check_vcenter, check_vcenters, validate_config,
}
use cloud_provider_vsphere.Config.Environment.{
  Environment, vcenter_from_env, global_from_env, vcenters_from_env, from_env,
}
use cloud_provider_vsphere.Config.Valid.{IsValid, validate_config-IsValid}
use cloud_provider_vsphere.Config.Ignored.{RefusesEmpty, AllIgnore, from_env-ignores}

abbrev global : Global
global = record {
  user = codes "ann";
  password = codes "s1";
  vcenter_ip = codes "vc1";
  vcenter_port = [];
  insecure_flag = false;
  datacenters = [];
  round_tripper_count = 0;
  ca_file = [];
  thumbprint = [];
  secret_name = [];
  secret_namespace = [];
  service_account = [];
  secrets_directory = [];
  api_disable = false;
  api_binding = [];
}

abbrev cfg : Config
cfg = record { global = global; virtual_center = []; zone = []; region = [] }

cfg-passes : (validate_config cfg).0 ≡ none
unfolding validate_config fix_global add_global_vcenter check_vcenters check_vcenter lookup insert
    split ◌==◌ trim_prefix
cfg-passes = refl

validate_config-IsValid_example :
    IsValid (validate_config cfg).1 × ((validate_config cfg).1.virtual_center ≢ [])
validate_config-IsValid_example = validate_config-IsValid cfg cfg-passes

abbrev env : Environment
env = record {
  environ = codes "VCENTER_A_INSECURE=1" ∷ codes "VSPHERE_VCENTER_A=vc1" ∷ [];
  getenv = λ name. [];
  parse_uint = λ s. if is_empty s then none else some 5;
  parse_bool = λ s. if s == codes "1" then some true else none;
  is_missing = λ dir. true;
}

env-RefusesEmpty : RefusesEmpty env
unfolding ◌==◌
env-RefusesEmpty = record { no_uint = refl; no_bool = refl }

env-passes : (from_env env cfg).0 ≡ none
unfolding from_env global_from_env vcenters_from_env vcenter_from_env validate_config fix_global
    add_global_vcenter check_vcenters check_vcenter lookup insert split ◌==◌ trim_prefix
env-passes = refl

from_env-ignores_example : AllIgnore env env-RefusesEmpty (from_env env cfg).1
from_env-ignores_example = from_env-ignores env env-RefusesEmpty cfg refl env-passes
