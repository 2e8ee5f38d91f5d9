-- ===== src/Discovery/Tests.antt =====
-- A machine in the second of two datacenters.
use cloud_provider_vsphere.Common.{
  inl, ◌≡◌, refl, true, false, none, some, List, [], ◌∷◌, ◌++◌, codes, ◌==◌, lookup, insert, Error,
  ok, if◌then◌else◌, here, there, split, trim_space, trim_left, trim_right, to_lower, replicate,
}
use cloud_provider_vsphere.Inventory.{
  Datacenter, Properties, get_datacenter, get_vm_by_uuid, get_vm_by_dns_name,
}
use cloud_provider_vsphere.Credentials.{not_found}
use cloud_provider_vsphere.Connections.{
  ConnectionManager, connect_attempts, connect_retry, connect, connect_by_instance, connect_vim,
}
use cloud_provider_vsphere.Search.{
  Actor, producer, worker, start, run, step, work, produce, result, is_finished,
}
use cloud_provider_vsphere.Discovery.Reached.{IsReached}
use cloud_provider_vsphere.Discovery.{
  get_vm, Site, list_datacenters, plan, find_vm_by_uuid, VmDiscoveryInfo, probe_vm,
  which_vc_and_dc_by_node_id,
}
use cloud_provider_vsphere.Discovery.Machines.{
  IsMachine, IsPlace, which_vc_and_dc_by_node_id_sound, which_vc_and_dc_by_node_id_complete,
  end_state,
}

unfoldable pub discovering : Unit {0}
unfolding which_vc_and_dc_by_node_id plan connect_attempts connect_retry connect connect_by_instance
    connect_vim lookup insert ◌==◌ list_datacenters get_datacenter get_vm_by_uuid get_vm_by_dns_name
    probe_vm start run step work produce result split trim_space trim_left trim_right to_lower
discovering = tt

abbrev pub dc_a : Datacenter
dc_a = record { host = codes "vc1"; name = codes "a" }

abbrev pub dc_b : Datacenter
dc_b = record { host = codes "vc1"; name = codes "b" }

abbrev pub node_props : Properties
node_props = record {
  host_name = codes "node1";
  uuid = codes "42aa";
  nets = [];
  guest_id = [];
  num_cpu = 2;
  memory_size_mb = 2048;
}

abbrev pub site : Site
site = record {
  vim = record {
    parse_url = λ host port. none;
    set_root_cas = λ ca. none;
    new_client = λ t c. ok 5;
    is_pem = λ user. false;
    login = λ t client user password. none;
    login_by_token = λ t client user password. none;
    user_session = λ t client. ok true;
    is_invalid_login = λ e. false;
  };
  world = record {
    get_secret = λ ns name. not_found Error.no_vm_found;
    read_dir = λ dir. ok [];
    read_file = λ path. ok [];
  };
  api = record {
    datacenter_list = λ vc. ok [];
    datacenter = λ vc name. if name == codes "a" then ok dc_a else ok dc_b;
    find_by_uuid = λ dc uuid. if dc.name == codes "b" then ok (some 7) else ok none;
    find_by_dns_name = λ dc name. ok none;
    properties = λ vm. ok node_props;
  };
}

abbrev pub one_vc : ConnectionManager
one_vc = record {
  instances =
      (
        codes "vc1",
        record {
          conn = record {
            client = none;
            username = codes "ann";
            password = codes "s1";
            hostname = codes "vc1";
            port = codes "443";
            ca_cert = [];
            thumbprint = [];
            insecure = false;
            round_tripper_count = 0;
          };
          datacenters = codes "a, b";
        },
      )
      ∷ [];
  credential_manager = record {
    secret_name = [];
    secret_namespace = [];
    has_lister = false;
    secrets_directory = [];
    secrets_directory_parse = false;
    cache = record { virtual_center = []; secret = none; secret_file = none };
  };
}

abbrev pub rounds : List Actor
rounds =
    replicate 12 producer
    ++ worker 0
      ∷ worker 1
      ∷ worker 0
      ∷ worker 1
      ∷ worker 1
      ∷ worker 0
      ∷ worker 2
      ∷ worker 3
      ∷ worker 4
      ∷ worker 5
      ∷ worker 6
      ∷ worker 7
      ∷ []

abbrev pub node_info : VmDiscoveryInfo
node_info = record {
  datacenter = dc_b;
  vm = 7;
  vc_server = codes "vc1";
  uuid = codes "42aa";
  node_name = codes "node1";
}

pub node_found :
    which_vc_and_dc_by_node_id site 0 one_vc rounds (codes "42AA") find_vm_by_uuid
    ≡ ok (some node_info)
unfolding discovering
node_found = refl

which_vc_and_dc_by_node_id_sound_example :
    (r : VmDiscoveryInfo) × (some node_info ≡ some r)
    × IsMachine site.api find_vm_by_uuid (to_lower (codes "42AA")) r
    × IsPlace site one_vc (record { vc = r.vc_server; datacenter = r.datacenter })
which_vc_and_dc_by_node_id_sound_example =
    which_vc_and_dc_by_node_id_sound site 0 one_vc rounds (codes "42AA") find_vm_by_uuid
      (some node_info) node_found

b-IsReached : IsReached site 0 one_vc.instances one_vc (codes "vc1") dc_b
unfolding discovering
b-IsReached = inl (refl, refl, there (here refl))

b-found : get_vm site.api find_vm_by_uuid dc_b (to_lower (codes "42AA")) ≡ ok 7
unfolding discovering
b-found = refl

search_ended : is_finished (end_state site 0 one_vc rounds (codes "42AA") find_vm_by_uuid) ≡ true
unfolding discovering
search_ended = refl

which_vc_and_dc_by_node_id_complete_example :
    (r : VmDiscoveryInfo) × (which_vc_and_dc_by_node_id site 0 one_vc rounds
        (codes "42AA")
        find_vm_by_uuid
      ≡ ok (some r))
    × IsMachine site.api find_vm_by_uuid (to_lower (codes "42AA")) r
    × IsPlace site one_vc (record { vc = r.vc_server; datacenter = r.datacenter })
which_vc_and_dc_by_node_id_complete_example =
    which_vc_and_dc_by_node_id_complete site 0 one_vc rounds (codes "42AA") find_vm_by_uuid
      (codes "vc1") dc_b 7 node_props refl b-IsReached b-found refl search_ended
