-- ===== src/Config.antt =====
-- pkg/common/config/types.go and config.go: validateConfig, which fills in defaults and refuses what
-- is not complete.
pub mod Environment
pub mod Valid
pub mod Ignored
mod Tests
use cloud_provider_vsphere.Common.{
  ℕ, Bool, true, false, not, ◌&&◌, ◌||◌, nat_eq, Option, none, some, List, [], ◌∷◌, Text, codes,
  is_empty, is_some, Map, lookup, insert, Error, username_missing, password_missing,
  invalid_vcenter_ip, missing_vcenter, if◌then◌else◌,
}

abbrev pub default_round_tripper_count : ℕ
default_round_tripper_count = 3

abbrev pub default_api_binding : Text
default_api_binding = codes ":43001"

abbrev pub default_k8s_service_account : Text
default_k8s_service_account = codes "cloud-controller-manager"

abbrev pub default_vcenter_port : Text
default_vcenter_port = codes "443"

abbrev pub default_secret_directory : Text
default_secret_directory = codes "/etc/cloud/secrets"

pub record Global : Type 0 where
  pub user : Text
  pub password : Text
  pub vcenter_ip : Text
  pub vcenter_port : Text
  pub insecure_flag : Bool
  pub datacenters : Text
  pub round_tripper_count : ℕ
  pub ca_file : Text
  pub thumbprint : Text
  pub secret_name : Text
  pub secret_namespace : Text
  pub service_account : Text
  pub secrets_directory : Text
  pub api_disable : Bool
  pub api_binding : Text

pub record VirtualCenterConfig : Type 0 where
  pub user : Text
  pub password : Text
  pub vcenter_port : Text
  pub insecure_flag : Bool
  pub datacenters : Text
  pub round_tripper_count : ℕ
  pub ca_file : Text
  pub thumbprint : Text

pub record Config : Type 0 where
  pub global : Global
  pub virtual_center : Map VirtualCenterConfig
  pub zone : Text
  pub region : Text

-- The second text if the first is empty, and so for numbers.
abbrev pub or_text : Text → Text → Text
or_text s d = if is_empty s then d else s

abbrev pub or_count : ℕ → ℕ → ℕ
or_count n d = if nat_eq n 0 then d else n

-- The default values of the global section.
unfoldable pub fix_global : Global → Global
fix_global g = record g {
  round_tripper_count = or_count g.round_tripper_count default_round_tripper_count;
  service_account = or_text g.service_account default_k8s_service_account;
  vcenter_port = or_text g.vcenter_port default_vcenter_port;
  api_binding = or_text g.api_binding default_api_binding;
}

abbrev pub is_secret_info_provided : Global → Bool
is_secret_info_provided g =
    not ((is_empty g.secret_name || is_empty g.secret_namespace) && is_empty g.secrets_directory)

-- The vCenter of the global section.
abbrev pub global_vcenter : Global → VirtualCenterConfig
global_vcenter g = record {
  user = g.user;
  password = g.password;
  vcenter_port = g.vcenter_port;
  insecure_flag = g.insecure_flag;
  datacenters = g.datacenters;
  round_tripper_count = g.round_tripper_count;
  ca_file = g.ca_file;
  thumbprint = g.thumbprint;
}

unfoldable pub add_global_vcenter : Global → Map VirtualCenterConfig → Map VirtualCenterConfig
add_global_vcenter g m =
    if not (is_secret_info_provided g)
      && not (is_empty g.vcenter_ip)
      && not (is_some (lookup g.vcenter_ip m))
    then insert g.vcenter_ip (global_vcenter g) m
    else m

abbrev pub fill_user : Global → VirtualCenterConfig → VirtualCenterConfig
fill_user g vc = record vc { user = or_text vc.user g.user }

abbrev pub fill_password : Global → VirtualCenterConfig → VirtualCenterConfig
fill_password g vc = record vc { password = or_text vc.password g.password }

abbrev pub fill_rest : Global → VirtualCenterConfig → VirtualCenterConfig
fill_rest g vc = record vc {
  vcenter_port = or_text vc.vcenter_port g.vcenter_port;
  datacenters = or_text vc.datacenters g.datacenters;
  round_tripper_count = or_count vc.round_tripper_count g.round_tripper_count;
  ca_file = or_text vc.ca_file g.ca_file;
  thumbprint = or_text vc.thumbprint g.thumbprint;
  insecure_flag = if vc.insecure_flag then true else g.insecure_flag;
}

-- User and password, which are needed if there is no information on secrets.
abbrev pub fill_login : Global → VirtualCenterConfig → Option Error × VirtualCenterConfig
fill_login g vc =
    if is_empty (fill_user g vc).user
    then (some username_missing, fill_user g vc)
    else if is_empty (fill_password g vc).password
    then (some password_missing, fill_password g (fill_user g vc))
    else (none, fill_password g (fill_user g vc))

abbrev pub then_rest :
    Global → Option Error × VirtualCenterConfig → Option Error × VirtualCenterConfig
then_rest g (some e, vc) = (some e, vc)
then_rest g (none, vc) = (none, fill_rest g vc)

-- The body of the loop over the vCenters.
unfoldable pub check_vcenter :
    Global → Text → VirtualCenterConfig → Option Error × VirtualCenterConfig
check_vcenter g server vc =
    if is_empty server
    then (some invalid_vcenter_ip, vc)
    else then_rest g (if is_secret_info_provided g then (none, vc) else fill_login g vc)

abbrev pub VCenters : Type 0
VCenters = Map VirtualCenterConfig

abbrev pub then_others :
    Text
    → VCenters
    → Option Error × VirtualCenterConfig
    → Option Error × VCenters
    → Option Error × VCenters
then_others server rest (some e, vc) others = (some e, (server, vc) ∷ rest)
then_others server rest (none, vc) (e, checked) = (e, (server, vc) ∷ checked)

-- The loop, which ends at the first error.
unfoldable pub check_vcenters : Global → VCenters → Option Error × VCenters
unfolding check_vcenter
check_vcenters g [] = (none, [])
check_vcenters g ((server, vc) ∷ rest) =
    let others = check_vcenters g rest in then_others server rest (check_vcenter g server vc) others

abbrev pub with_vcenters : Config → Option Error × VCenters → Option Error × Config
with_vcenters cfg (e, m) = (e, record cfg { virtual_center = m })

abbrev pub checked : Config → Global → VCenters → Option Error × Config
checked cfg g [] = (some missing_vcenter, record cfg { global = g; virtual_center = [] })
checked cfg g (entry ∷ rest) =
    with_vcenters (record cfg { global = g }) (check_vcenters g (entry ∷ rest))

-- `validateConfig`
unfoldable pub validate_config : Config → Option Error × Config
unfolding fix_global add_global_vcenter check_vcenters
validate_config cfg =
    checked cfg (fix_global cfg.global)
      (add_global_vcenter (fix_global cfg.global) cfg.virtual_center)
