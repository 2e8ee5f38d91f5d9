-- ===== src/Connections/Start.antt =====
-- pkg/common/connectionmanager/connectionmanager.go: NewConnectionManager, the map of instances that
-- it makes of the configuration, and Verify, with VerifyWithContext, which does the same.
use cloud_provider_vsphere.Common.{
  refl, ap, ◌∙◌, ◌↔◌, ℕ, ◌+◌, ◌≡◌, refl, Bool, true, false, none, [], ◌∷◌, map, Text, is_empty, not,
  Map, Outcome, ok, err, panic, if◌then◌else◌, arith,
}
use cloud_provider_vsphere.Config.{VirtualCenterConfig, Config}
use cloud_provider_vsphere.Credentials.{SecretManager, World}
use cloud_provider_vsphere.Connections.{Instance, ConnectionManager, Vim, connect}

abbrev pub instance_of : Text → VirtualCenterConfig → Instance
instance_of vc_server c = record {
  conn = record {
    client = none;
    username = c.user;
    password = c.password;
    hostname = vc_server;
    port = c.vcenter_port;
    ca_cert = c.ca_file;
    thumbprint = c.thumbprint;
    insecure = c.insecure_flag;
    round_tripper_count = c.round_tripper_count;
  };
  datacenters = c.datacenters;
}

-- `generateInstanceMap`
unfoldable pub generate_instance_map : Config → Map Instance
generate_instance_map cfg = map (λ e. (e.0, instance_of e.0 e.1)) cfg.virtual_center

abbrev pub empty_manager : SecretManager
empty_manager = record {
  secret_name = [];
  secret_namespace = [];
  has_lister = false;
  secrets_directory = [];
  secrets_directory_parse = false;
  cache = record { virtual_center = []; secret = none; secret_file = none };
}

-- The credential manager: secrets of Kubernetes if there is a lister, else those of a directory.
abbrev pub credential_manager_of : Config → Bool → SecretManager
credential_manager_of cfg has_lister =
    if has_lister
    then record empty_manager {
      secret_name = cfg.global.secret_name;
      secret_namespace = cfg.global.secret_namespace;
      has_lister = true;
    }
    else (if not (is_empty cfg.global.secrets_directory)
        then record empty_manager { secrets_directory = cfg.global.secrets_directory }
        else empty_manager)

-- `NewConnectionManager`
unfoldable pub new_connection_manager : Config → Bool → ConnectionManager
unfolding generate_instance_map
new_connection_manager cfg has_lister = record {
  instances = generate_instance_map cfg;
  credential_manager = credential_manager_of cfg has_lister;
}

module _ (v : Vim) (w : World) where
  abbrev pub on_verified :
      Outcome (Unit {0}) × ConnectionManager
      → Outcome (Unit {0}) × ConnectionManager
      → Outcome (Unit {0}) × ConnectionManager
  on_verified (ok u, cm) further = further
  on_verified (err e, cm) further = (err e, cm)
  on_verified (panic, cm) further = (panic, cm)

  -- The loop of `Verify` over the map. A call to connect takes two ticks at most.
  unfoldable pub verify_instances :
      ℕ → Map Instance → ConnectionManager → Outcome (Unit {0}) × ConnectionManager
  unfolding connect
  verify_instances t [] cm = (ok tt, cm)
  verify_instances t ((vc, i) ∷ rest) cm =
      let (o, cm') = connect v w t vc cm in on_verified (o, cm') (verify_instances (t + 2) rest cm')

  -- `Verify`
  unfoldable pub verify : ℕ → ConnectionManager → Outcome (Unit {0}) × ConnectionManager
  unfolding verify_instances
  verify t cm = verify_instances t cm.instances cm

  -- The calls to connect to the vCenters of a configuration succeed one after the other, each with
  -- the manager that the one before leaves.
  abbrev pub AllConnect :
      ℕ → Map VirtualCenterConfig → ConnectionManager → ConnectionManager → Type 0
  AllConnect t [] cm end_cm = cm ≡ end_cm
  AllConnect t ((vc, c) ∷ rest) cm end_cm =
      (next : ConnectionManager) × (connect v w t vc cm ≡ (ok tt, next))
      × AllConnect (t + 2) rest next end_cm

  abbrev pub instances_of : Map VirtualCenterConfig → Map Instance
  instances_of m = map (λ e. (e.0, instance_of e.0 e.1)) m

  on_verified-ok :
      (t : ℕ) (vc : Text) (c : VirtualCenterConfig) (rest : Map VirtualCenterConfig)
      (cm end_cm : ConnectionManager) (r : Outcome (Unit {0}) × ConnectionManager)
      → connect v w t vc cm ≡ r
      → (verify_instances (t + 2) (instances_of rest) r.1 ≡ (ok tt, end_cm)
          → AllConnect (t + 2) rest r.1 end_cm)
      → on_verified r (verify_instances (t + 2) (instances_of rest) r.1) ≡ (ok tt, end_cm)
      → AllConnect t ((vc, c) ∷ rest) cm end_cm
  on_verified-ok t vc c rest cm end_cm (ok u, next) e f h = (next, e, f h)
  on_verified-ok t vc c rest cm end_cm (err x, next) e f h =
      absurd (ground (arith, ap (λ p. p.0) h))
  on_verified-ok t vc c rest cm end_cm (panic, next) e f h =
      absurd (ground (arith, ap (λ p. p.0) h))

  verify_instances-AllConnect :
      (t : ℕ) (m : Map VirtualCenterConfig) (cm end_cm : ConnectionManager)
      → verify_instances t (instances_of m) cm ≡ (ok tt, end_cm)
      → AllConnect t m cm end_cm
  unfolding verify_instances
  verify_instances-AllConnect t [] cm end_cm h = ap (λ p. p.1) h
  verify_instances-AllConnect t ((vc, c) ∷ rest) cm end_cm h =
      on_verified-ok t vc c rest cm end_cm (connect v w t vc cm) refl
        (verify_instances-AllConnect (t + 2) rest (connect v w t vc cm).1 end_cm) h

  AllConnect-verify_instances :
      (t : ℕ) (m : Map VirtualCenterConfig) (cm end_cm : ConnectionManager)
      → AllConnect t m cm end_cm
      → verify_instances t (instances_of m) cm ≡ (ok tt, end_cm)
  unfolding verify_instances
  AllConnect-verify_instances t [] cm end_cm e = ap (λ x. (ok tt, x)) e
  AllConnect-verify_instances t ((vc, c) ∷ rest) cm end_cm (next, e, further) =
      ap (λ r. on_verified r (verify_instances (t + 2) (instances_of rest) r.1)) e
      ∙ AllConnect-verify_instances (t + 2) rest next end_cm further

  -- Verify of the manager that is made of a configuration succeeds if and only if the calls to connect
  -- to the vCenters of the configuration do, one after the other in the order of the map, each with
  -- the connections and credentials that the ones before left; the last manager is the one after it.
  pub verify-new_connection_manager :
      (cfg : Config) (has_lister : Bool) (t : ℕ) (end_cm : ConnectionManager)
      → (verify t (new_connection_manager cfg has_lister) ≡ (ok tt, end_cm))
        ↔ AllConnect t cfg.virtual_center (new_connection_manager cfg has_lister) end_cm
  unfolding verify new_connection_manager generate_instance_map
  verify-new_connection_manager cfg has_lister t end_cm = (
    verify_instances-AllConnect t cfg.virtual_center (new_connection_manager cfg has_lister) end_cm,
    AllConnect-verify_instances t cfg.virtual_center (new_connection_manager cfg has_lister) end_cm,
  )
