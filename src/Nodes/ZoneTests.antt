-- ===== src/Nodes/ZoneTests.antt =====
-- A node whose machine runs on a host with tags.
use cloud_provider_vsphere.Common.{◌≡◌, [], ◌∷◌, codes, ◌==◌, lookup, trim_prefix, strip_prefix, ok}
use cloud_provider_vsphere.Zones.Tests.{tags_api, labels_b, one_vc, dc_b, labels_found}
use cloud_provider_vsphere.Uuid.{get_uuid_from_provider_id}
use cloud_provider_vsphere.Nodes.{NodeInfo, NodeManager}
use cloud_provider_vsphere.Nodes.Zone.{NodeZones, get_zone_by_provider_id}

abbrev tagged_node : NodeInfo
tagged_node = record {
  datacenter = dc_b;
  vm = 7;
  vc_server = codes "v";
  uuid = codes "42aa";
  node_name = codes "node1";
  node_type = [];
  node_addresses = [];
}

abbrev tagged : NodeManager
tagged = record {
  node_name_map = (codes "node1", tagged_node) ∷ [];
  node_uuid_map = (codes "42aa", tagged_node) ∷ [];
  vc_list = [];
  node_reg_uuid_map = [];
}

abbrev node_zones : NodeZones
node_zones = record {
  zone = codes "k";
  region = codes "l";
  hosts = record {
    hostname = ok (codes "node1");
    host_system = λ vm. ok 2;
    host_summary = λ h. ok tt;
  };
  api = tags_api;
  manager = one_vc;
}

zone_answered : get_zone_by_provider_id node_zones (codes "vsphere://42aa") tagged ≡ ok labels_b
unfolding get_zone_by_provider_id get_uuid_from_provider_id trim_prefix strip_prefix lookup ◌==◌
zone_answered = labels_found
