-- ===== src/Config/Environment.antt =====
-- FromEnv and getEnvKeyValue of pkg/common/config/config.go. The environment of the process, the
-- parsers of strconv and the test for a directory are parameters.
use cloud_provider_vsphere.Common.{
  ℕ, Bool, false, not, ◌&&◌, ◌||◌, Option, none, some, List, [], ◌∷◌, ◌++◌, Text, codes, is_empty,
  is_some, ◌==◌, has_prefix, trim_prefix, split, Map, lookup, insert, Error, if◌then◌else◌,
}
use cloud_provider_vsphere.Config.{
  default_round_tripper_count, default_secret_directory, Global, VirtualCenterConfig, Config,
  or_text, global_vcenter, validate_config,
}

pub record Environment : Type 0 where
  -- os.Environ: lines `key=value`
  pub environ : List Text
  -- os.Getenv, with the empty text for a variable that is not set
  pub getenv : Text → Text
  -- strconv.ParseUint and ParseBool
  pub parse_uint : Text → Option ℕ
  pub parse_bool : Text → Option Bool
  -- os.Stat says that the directory does not exist
  pub is_missing : Text → Bool

-- strings.Contains
unfoldable pub contains : Text → Text → Bool
unfolding has_prefix
contains [] part = is_empty part
contains (c ∷ s) part = has_prefix (c ∷ s) part || contains s part

abbrev pub pair_of : List Text → Option (Text × Text)
pair_of (key ∷ value ∷ []) = some (key, value)
pair_of _ = none

-- `getEnvKeyValue`
abbrev pub first_match :
    Text → Bool → Option (Text × Text) → Option (Text × Text) → Option (Text × Text)
first_match match partial none rest = rest
first_match match partial (some (key, value)) rest =
    if (partial && contains key match) || key == match then some (key, value) else rest

unfoldable pub get_env_key_value : List Text → Text → Bool → Option (Text × Text)
unfolding contains
get_env_key_value [] match partial = none
get_env_key_value (e ∷ environ) match partial =
    let rest = get_env_key_value environ match partial in
    first_match match partial (pair_of (split b'=' e)) rest

-- The value that was found, and the error as the absence of it.
abbrev pub value_or : Option (Text × Text) → Text → Text
value_or none d = d
value_or (some (key, value)) d = value

module _ (env : Environment) where
  abbrev pub env_text : Text → Text → Text
  env_text name old = or_text (env.getenv name) old

  abbrev pub env_count : Text → ℕ → ℕ
  env_count name old = elim (env.parse_uint (env.getenv name)) [
    | none ↦ old
    | some n ↦ if is_empty (env.getenv name) then old else n
  ]

  abbrev pub env_bool : Text → Bool → Bool
  env_bool name old = elim (env.parse_bool (env.getenv name)) [
    | none ↦ old
    | some b ↦ if is_empty (env.getenv name) then old else b
  ]

  -- The secrets directory: the default if none is named, and none if it does not exist.
  abbrev pub secrets_directory_of : Text → Text
  secrets_directory_of old =
      let named =
        or_text (env_text (codes "VSPHERE_SECRETS_DIRECTORY") old) default_secret_directory in
      if env.is_missing named then [] else named

  unfoldable pub global_from_env : Global → Global
  global_from_env g = record {
    user = env_text (codes "VSPHERE_USER") g.user;
    password = env_text (codes "VSPHERE_PASSWORD") g.password;
    vcenter_ip = env_text (codes "VSPHERE_VCENTER") g.vcenter_ip;
    vcenter_port = env_text (codes "VSPHERE_VCENTER_PORT") g.vcenter_port;
    insecure_flag = env_bool (codes "VSPHERE_INSECURE") g.insecure_flag;
    datacenters = env_text (codes "VSPHERE_DATACENTER") g.datacenters;
    round_tripper_count = env_count (codes "VSPHERE_ROUNDTRIP_COUNT") g.round_tripper_count;
    ca_file = env_text (codes "VSPHERE_CAFILE") g.ca_file;
    thumbprint = env_text (codes "VSPHERE_THUMBPRINT") g.thumbprint;
    secret_name = env_text (codes "VSPHERE_SECRET_NAME") g.secret_name;
    secret_namespace = env_text (codes "VSPHERE_SECRET_NAMESPACE") g.secret_namespace;
    service_account = env_text (codes "VSPHERE_SERVICE_ACCOUNT") g.service_account;
    secrets_directory = secrets_directory_of g.secrets_directory;
    api_disable = env_bool (codes "VSPHERE_API_DISABLE") g.api_disable;
    api_binding = env_text (codes "VSPHERE_API_BINDING") g.api_binding;
  }

  abbrev pub vcenter_variable : Text → Text → Option (Text × Text)
  vcenter_variable id suffix =
      get_env_key_value env.environ (codes "VCENTER_" ++ id ++ suffix) false

  -- The value is parsed if the lookup fails: it is the empty text then.
  abbrev pub insecure_of : Option (Text × Text) → Bool
  insecure_of (some p) = false
  insecure_of none = elim (env.parse_bool []) [ none ↦ false | some b ↦ b ]

  abbrev pub roundtrip_of : Option (Text × Text) → ℕ
  roundtrip_of (some p) = default_round_tripper_count
  roundtrip_of none = elim (env.parse_uint []) [ none ↦ default_round_tripper_count | some n ↦ n ]

  -- The vCenter that the variables with an identifier describe.
  unfoldable pub vcenter_from_env : Global → Text → VirtualCenterConfig
  unfolding get_env_key_value
  vcenter_from_env g id = record {
    user = value_or (vcenter_variable id (codes "_USERNAME")) g.user;
    password = value_or (vcenter_variable id (codes "_PASSWORD")) g.password;
    vcenter_port = value_or (vcenter_variable id (codes "_PORT")) g.vcenter_port;
    insecure_flag = insecure_of (vcenter_variable id (codes "_INSECURE"));
    datacenters = value_or (vcenter_variable id (codes "_DATACENTERS")) g.datacenters;
    round_tripper_count = roundtrip_of (vcenter_variable id (codes "_ROUNDTRIP"));
    ca_file = value_or (vcenter_variable id (codes "_CAFILE")) g.ca_file;
    thumbprint = value_or (vcenter_variable id (codes "_THUMBPRINT")) g.thumbprint;
  }

  abbrev pub add_variable :
      Global → Option (Text × Text) → Map VirtualCenterConfig → Map VirtualCenterConfig
  add_variable g none m = m
  add_variable g (some (key, value)) m =
      if has_prefix key (codes "VSPHERE_VCENTER_") && not (is_empty value)
      then insert value (vcenter_from_env g (trim_prefix key (codes "VSPHERE_VCENTER_"))) m
      else m

  -- The loop over the environment.
  unfoldable pub vcenters_from_env :
      Global → List Text → Map VirtualCenterConfig → Map VirtualCenterConfig
  unfolding vcenter_from_env
  vcenters_from_env g [] m = m
  vcenters_from_env g (e ∷ environ) m =
      vcenters_from_env g environ (add_variable g (pair_of (split b'=' e)) m)

  abbrev pub add_vcenter_ip : Global → Map VirtualCenterConfig → Map VirtualCenterConfig
  add_vcenter_ip g m =
      if not (is_empty g.vcenter_ip) && not (is_some (lookup g.vcenter_ip m))
      then insert g.vcenter_ip (global_vcenter g) m
      else m

  -- `FromEnv`, for a configuration that is not nil.
  unfoldable pub from_env : Config → Option Error × Config
  unfolding global_from_env vcenters_from_env
  from_env cfg =
      let g = global_from_env cfg.global in
      validate_config (record {
        global = g;
        virtual_center = add_vcenter_ip g (vcenters_from_env g env.environ cfg.virtual_center);
        zone = env_text (codes "VSPHERE_LABEL_ZONE") cfg.zone;
        region = env_text (codes "VSPHERE_LABEL_REGION") cfg.region;
      })
