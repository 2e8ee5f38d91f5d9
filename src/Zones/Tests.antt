-- ===== src/Zones/Tests.antt =====
-- A vCenter with two datacenters, each with a cluster; the second is in the zone.
use cloud_provider_vsphere.Common.{
  ◌≡◌, ◌≢◌, refl, true, false, none, some, List, [], ◌∷◌, ◌++◌, codes, ◌==◌, lookup, insert, Error,
  ok, err, if◌then◌else◌, split, trim_space, trim_left, trim_right, to_lower, replicate, before,
  has_prefix, strip_prefix, equal_fold, nat_eq,
}
use cloud_provider_vsphere.Inventory.{Datacenter, Api, get_datacenter}
use cloud_provider_vsphere.Credentials.{not_found}
use cloud_provider_vsphere.Connections.{
  Instance, ConnectionManager, connect_attempts, connect_retry, connect, connect_by_instance,
  connect_vim,
}
use cloud_provider_vsphere.Search.{Actor, producer, worker, start, run, step, work, produce, result}
use cloud_provider_vsphere.Discovery.{
  Site, list_datacenters, named_datacenters, plan, manager_after,
}
use cloud_provider_vsphere.Zones.{
  ZoneApi, Labels, lookup_zone_by_moref, objects_of, remove_port_from_host, walk_objects, walk_tags,
  set_label, read_tag,
}
use cloud_provider_vsphere.Zones.Looking.{
  ZoneDiscoveryInfo, Looking, Schedules, probe_cluster, probe_host,
  get_di_from_multi_vc_or_dc_non_vm, get_di_from_multi_vc_or_dc_vm, get_di_from_multi_vc_or_dc,
  get_di_from_single_vc, which_vc_and_dc_by_zone,
}
use cloud_provider_vsphere.Zones.Clusters.{
  IsInZone, IsListed, get_di_from_multi_vc_or_dc_vm-ne-ok, get_di_from_multi_vc_or_dc_sound,
}

zoning : Unit {0}
unfolding plan manager_after connect_attempts connect_retry connect connect_by_instance connect_vim
    lookup insert ◌==◌ list_datacenters named_datacenters get_datacenter start run step work produce
    result split trim_space trim_left trim_right to_lower before has_prefix strip_prefix equal_fold
    lookup_zone_by_moref objects_of remove_port_from_host walk_objects walk_tags set_label read_tag
    probe_cluster probe_host get_di_from_multi_vc_or_dc_non_vm get_di_from_multi_vc_or_dc_vm
    get_di_from_multi_vc_or_dc get_di_from_single_vc which_vc_and_dc_by_zone
zoning = tt

abbrev dc_a : Datacenter
dc_a = record { host = codes "v:1"; name = codes "a" }

abbrev pub dc_b : Datacenter
dc_b = record { host = codes "v:1"; name = codes "b" }

abbrev api_with : List Datacenter → Api
api_with dcs = record {
  datacenter_list = λ vc. ok dcs;
  datacenter = λ vc name. if name == codes "a" then ok dc_a else ok dc_b;
  find_by_uuid = λ dc uuid. ok none;
  find_by_dns_name = λ dc name. ok none;
  properties = λ vm. err Error.no_vm_found;
}

abbrev site_with : List Datacenter → Site
site_with dcs = record {
  vim = record {
    parse_url = λ host port. none;
    set_root_cas = λ ca. none;
    new_client = λ t c. ok 5;
    is_pem = λ user. false;
    login = λ t client user password. none;
    login_by_token = λ t client user password. none;
    user_session = λ t client. ok true;
    is_invalid_login = λ e. false;
  };
  world = record {
    get_secret = λ ns name. not_found Error.no_vm_found;
    read_dir = λ dir. ok [];
    read_file = λ path. ok [];
  };
  api = api_with dcs;
}

abbrev site : Site
site = site_with (dc_a ∷ dc_b ∷ [])

-- Cluster 1 has no tags, cluster 2 has the tags of the zone and the region.
abbrev pub tags_api : ZoneApi
tags_api = record {
  clusters = λ dc. ok ((if dc.name == codes "a" then 1 else 2) ∷ []);
  hosts = λ dc. ok (3 ∷ []);
  login = λ c. ok tt;
  ancestors = λ dc mo. ok (9 ∷ mo ∷ []);
  host_entity = λ dc mo. ok mo;
  list_attached_tags = λ mo. ok (if nat_eq mo 2 then codes "t" ∷ codes "u" ∷ [] else []);
  get_tag = λ v. ok (
      if v == codes "t"
      then record { name = codes "Z1"; category_id = codes "k" }
      else record { name = codes "R1"; category_id = codes "l" });
  get_category = λ c. ok c;
}

abbrev query : Looking
query = record {
  zone_label = codes "k";
  region_label = codes "l";
  zone = codes "z1";
  region = codes "r1";
}

abbrev instance_v : Instance
instance_v = record {
  conn = record {
    client = none;
    username = codes "ann";
    password = codes "s1";
    hostname = codes "v";
    port = codes "443";
    ca_cert = [];
    thumbprint = [];
    insecure = false;
    round_tripper_count = 0;
  };
  datacenters = codes "a,b";
}

abbrev pub one_vc : ConnectionManager
one_vc = record {
  instances = (codes "v", instance_v) ∷ [];
  credential_manager = record {
    secret_name = [];
    secret_namespace = [];
    has_lister = false;
    secrets_directory = [];
    secrets_directory_parse = false;
    cache = record { virtual_center = []; secret = none; secret_file = none };
  };
}

abbrev rounds : List Actor
rounds =
    replicate 12 producer
    ++ worker 0
      ∷ worker 1
      ∷ worker 0
      ∷ worker 1
      ∷ worker 1
      ∷ worker 0
      ∷ worker 2
      ∷ worker 3
      ∷ worker 4
      ∷ worker 5
      ∷ worker 6
      ∷ worker 7
      ∷ []

abbrev schedules : Schedules
schedules = record { clusters = rounds; hosts = rounds }

abbrev zone_b : ZoneDiscoveryInfo
zone_b = record { vc_server = codes "v"; datacenter = dc_b }

zone_found : get_di_from_multi_vc_or_dc site tags_api query schedules 0 one_vc ≡ ok (some zone_b)
unfolding zoning
zone_found = refl

get_di_from_multi_vc_or_dc_sound_example :
    (r : ZoneDiscoveryInfo) × (some zone_b ≡ some r)
    × IsInZone tags_api query (manager_after site 0 one_vc.instances one_vc) r
    × IsListed site one_vc r.vc_server r.datacenter
get_di_from_multi_vc_or_dc_sound_example =
    get_di_from_multi_vc_or_dc_sound site tags_api query schedules 0 one_vc (some zone_b) zone_found

get_di_from_multi_vc_or_dc_vm-ne-ok_example :
    get_di_from_multi_vc_or_dc_vm site tags_api 0 query rounds one_vc ≢ ok (some zone_b)
get_di_from_multi_vc_or_dc_vm-ne-ok_example =
    get_di_from_multi_vc_or_dc_vm-ne-ok site tags_api query 0 rounds one_vc (some zone_b)

abbrev pub labels_b : Labels
labels_b = record { zone = codes "Z1"; region = codes "R1" }

pub labels_found :
    lookup_zone_by_moref tags_api (codes "k") (codes "l") one_vc dc_b 2 true ≡ ok labels_b
unfolding zoning
labels_found = refl

abbrev two_vcs : ConnectionManager
two_vcs = record one_vc { instances = (codes "v", instance_v) ∷ (codes "w", instance_v) ∷ [] }

abbrev no_region : Looking
no_region = record query { region = [] }
