-- ===== src/Credentials/Tests.antt =====
-- Two vCenters in one secret, and a broken secret.
use cloud_provider_vsphere.Common.{
  ◌≡◌, refl, true, false, none, [], ◌∷◌, Text, codes, Map, lookup, insert, to_lower, has_suffix,
  before, ◌==◌, ok, err, unknown_secret_key, All, Any, here, there,
}
use cloud_provider_vsphere.Credentials.{
  Credential, Secret, SecretManager, Listed, listed, World, field_of, parse_entries, check_complete,
  parse_config, parse_secret, cached, get_credential, update_credentials_map_k8s,
}
use cloud_provider_vsphere.Credentials.Parse.{IsComplete, IsUnknown, parse_config-IsComplete}
use cloud_provider_vsphere.Credentials.Lookup.{IsUser, IsPassword}
use cloud_provider_vsphere.Credentials.Cache.{get_credential-again}

running : Unit {0}
unfolding parse_config parse_entries check_complete field_of lookup insert ◌==◌ to_lower has_suffix
    before parse_secret get_credential update_credentials_map_k8s
running = tt

abbrev two_servers : Map Text
two_servers =
    (codes "VC1.username", codes "ann")
    ∷ (codes "vc1.password", codes "s1")
    ∷ (codes "10.0.0.1.username", codes "bob")
    ∷ (codes "10.0.0.1.password", codes "s2")
    ∷ []

abbrev both : Map Credential
both =
    (codes "vc1", record { user = codes "ann"; password = codes "s1" })
    ∷ (codes "10.0.0.1", record { user = codes "bob"; password = codes "s2" })
    ∷ []

two_servers_parse : parse_config two_servers [] ≡ (none, both)
unfolding running
two_servers_parse = refl

parse_config-IsComplete_example : All (λ entry. IsComplete entry.1) both
parse_config-IsComplete_example = parse_config-IsComplete two_servers [] both two_servers_parse

abbrev typo : Map Text
typo = (codes "vc1.username", codes "ann") ∷ (codes "vc1.passwd", codes "s1") ∷ []

typo-IsUnknown : Any IsUnknown typo
unfolding running
typo-IsUnknown = there (here refl)

bob_IsUser : IsUser (codes "10.0.0.1") (codes "10.0.0.1.username")
unfolding running
bob_IsUser = refl

bob_IsPassword : IsPassword (codes "10.0.0.1") (codes "10.0.0.1.password")
unfolding running
bob_IsPassword = refl

later_not_IsUser : ¬ IsUser (codes "10.0.0.1") (codes "10.0.0.1.password")
unfolding running
later_not_IsUser h = cc

abbrev manager : SecretManager
manager = record {
  secret_name = codes "creds";
  secret_namespace = codes "kube-system";
  has_lister = true;
  secrets_directory = [];
  secrets_directory_parse = false;
  cache = record { virtual_center = both; secret = none; secret_file = none };
}

abbrev answering : Listed → World
answering l = record {
  get_secret = λ ns name. l;
  read_dir = λ dir. ok [];
  read_file = λ path. ok [];
}

abbrev broken : Secret
broken = record { resource_version = codes "7"; entries = typo }

broken_fails :
    (get_credential (answering (listed broken)) manager (codes "vc1")).0 ≡ err unknown_secret_key
unfolding running
broken_fails = refl

get_credential-again_example :
    let m' = (get_credential (answering (listed broken)) manager (codes "vc1")).1 in
    get_credential (answering (listed broken)) m' (codes "vc1") ≡ (cached m' (codes "vc1"), m')
get_credential-again_example =
    get_credential-again (answering (listed broken)) manager (codes "vc1") (codes "vc1") broken refl
      refl refl
