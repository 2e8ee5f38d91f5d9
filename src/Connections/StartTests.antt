-- ===== src/Connections/StartTests.antt =====
-- A configuration with one vCenter that takes every password.
use cloud_provider_vsphere.Common.{
  ◌≡◌, ◌↔◌, refl, true, false, none, [], ◌∷◌, codes, lookup, insert, ◌==◌, Error, ok,
}
use cloud_provider_vsphere.Config.{Config}
use cloud_provider_vsphere.Credentials.{World, not_found}
use cloud_provider_vsphere.Connections.{
  Vim, ConnectionManager, connect, connect_by_instance, connect_vim,
}
use cloud_provider_vsphere.Connections.Start.{
  new_connection_manager, generate_instance_map, verify, verify_instances, AllConnect,
  verify-new_connection_manager,
}

abbrev open_vim : Vim
open_vim = record {
  parse_url = λ host port. none;
  set_root_cas = λ ca. none;
  new_client = λ t c. ok 5;
  is_pem = λ user. false;
  login = λ t client user password. none;
  login_by_token = λ t client user password. none;
  user_session = λ t client. ok true;
  is_invalid_login = λ e. false;
}

abbrev no_world : World
no_world = record {
  get_secret = λ ns name. not_found Error.no_vm_found;
  read_dir = λ dir. ok [];
  read_file = λ path. ok [];
}

abbrev config : Config
config = record {
  global = record {
    user = [];
    password = [];
    vcenter_ip = [];
    vcenter_port = [];
    insecure_flag = false;
    datacenters = [];
    round_tripper_count = 0;
    ca_file = [];
    thumbprint = [];
    secret_name = codes "creds";
    secret_namespace = codes "kube-system";
    service_account = [];
    secrets_directory = [];
    api_disable = false;
    api_binding = [];
  };
  virtual_center =
      (
        codes "vc1",
        record {
          user = codes "ann";
          password = codes "s1";
          vcenter_port = codes "443";
          insecure_flag = false;
          datacenters = [];
          round_tripper_count = 3;
          ca_file = [];
          thumbprint = [];
        },
      )
      ∷ [];
  zone = [];
  region = [];
}

unfoldable end_cm : ConnectionManager
unfolding verify verify_instances new_connection_manager generate_instance_map connect
    connect_by_instance connect_vim lookup insert ◌==◌
end_cm = (verify open_vim no_world 0 (new_connection_manager config true)).1

verify-new_connection_manager_example :
    (verify open_vim no_world 0 (new_connection_manager config true) ≡ (ok tt, end_cm))
    ↔ AllConnect open_vim no_world 0 config.virtual_center
        (new_connection_manager config true)
        end_cm
verify-new_connection_manager_example =
    verify-new_connection_manager open_vim no_world config true 0 end_cm

-- Verify succeeds here.
config-verified : verify open_vim no_world 0 (new_connection_manager config true) ≡ (ok tt, end_cm)
unfolding verify verify_instances new_connection_manager generate_instance_map connect
    connect_by_instance connect_vim lookup insert ◌==◌ end_cm
config-verified = refl
