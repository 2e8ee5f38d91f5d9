-- ===== src/Connections/Tests.antt =====
-- A vCenter whose password was changed.
use cloud_provider_vsphere.Common.{
  ◌≡◌, refl, true, false, none, some, [], ◌∷◌, Text, codes, ◌==◌, lookup, insert, Error, foreign,
  ok, err, is_some, if◌then◌else◌,
}
use cloud_provider_vsphere.Credentials.{
  Credential, SecretManager, World, not_found, get_credential, update_credentials_map_k8s,
}
use cloud_provider_vsphere.Connections.{
  Connection, Vim, Instance, ConnectionManager, connect_vim, connect_by_instance, connect,
  connect_retry, connect_attempts,
}
use cloud_provider_vsphere.Connections.Login.{connect_by_instance-client}

connecting : Unit {0}
unfolding connect_attempts connect_retry connect connect_by_instance connect_vim lookup insert ◌==◌
    get_credential update_credentials_map_k8s
connecting = tt

abbrev invalid_login : Error
invalid_login = foreign (codes "InvalidLogin")

abbrev no_route : Error
no_route = foreign (codes "no route to host")

-- A vCenter that takes the password "new" and no other.
abbrev strict : Vim
strict = record {
  parse_url = λ host port. if host == codes "bad" then some no_route else none;
  set_root_cas = λ ca. none;
  new_client = λ t c. ok 5;
  is_pem = λ user. false;
  login = λ t client user password. if password == codes "new" then none else some invalid_login;
  login_by_token = λ t client user password. none;
  user_session = λ t client. ok true;
  is_invalid_login = λ e. elim e [ foreign s ↦ s == codes "InvalidLogin" | _ ↦ false ];
}

abbrev world : World
world = record {
  get_secret = λ ns name. not_found no_route;
  read_dir = λ dir. ok [];
  read_file = λ path. ok [];
}

abbrev renewed : Credential
renewed = record { user = codes "ann"; password = codes "new" }

abbrev secrets : SecretManager
secrets = record {
  secret_name = codes "creds";
  secret_namespace = codes "kube-system";
  has_lister = true;
  secrets_directory = [];
  secrets_directory_parse = false;
  cache = record {
    virtual_center = (codes "vc1", renewed) ∷ [];
    secret = none;
    secret_file = none;
  };
}

abbrev connection : Text → Connection
connection host = record {
  client = none;
  username = codes "ann";
  password = codes "old";
  hostname = host;
  port = codes "443";
  ca_cert = [];
  thumbprint = [];
  insecure = false;
  round_tripper_count = 0;
}

abbrev instance_of : Text → Instance
instance_of host = record { conn = connection host; datacenters = [] }

abbrev two_vcs : ConnectionManager
two_vcs = record {
  instances =
      (codes "vc1", instance_of (codes "vc1")) ∷ (codes "bad", instance_of (codes "bad")) ∷ [];
  credential_manager = secrets;
}

old_password : (connect_vim strict 0 (connection (codes "vc1"))).0 ≡ err invalid_login
unfolding connecting
old_password = refl

bad_host : (connect_vim strict 0 (connection (codes "bad"))).0 ≡ err no_route
unfolding connecting
bad_host = refl

vc1_credential : get_credential world secrets (codes "vc1") ≡ (ok renewed, secrets)
unfolding connecting
vc1_credential = refl

new_password : (connect_by_instance strict world 0 secrets (connection (codes "vc1"))).error ≡ ok tt
unfolding connecting
new_password = refl

connect_by_instance-client_example :
    is_some (connect_by_instance strict world 0 secrets (connection (codes "vc1"))).conn.client
    ≡ true
connect_by_instance-client_example =
    connect_by_instance-client strict world 0 secrets (connection (codes "vc1")) new_password

not_invalid : strict.is_invalid_login no_route ≡ false
unfolding connecting
not_invalid = refl

is_invalid : strict.is_invalid_login invalid_login ≡ true
unfolding connecting
is_invalid = refl

attempts_succeed : (connect_attempts strict world 0 (codes "vc1") two_vcs).0 ≡ ok tt
unfolding connecting
attempts_succeed = refl

attempts_fail : (connect_attempts strict world 0 (codes "bad") two_vcs).0 ≡ err no_route
unfolding connecting
attempts_fail = refl
