-- ===== src/Credentials.antt =====
-- pkg/common/credentialmanager: the credentials of the vCenters, parsed from a Kubernetes secret or
-- from the files of a directory. Maps and the cache are mutated in the source also where an error
-- is returned, so each function returns its error and the new state. The lister of secrets and the
-- file system are not under src/: a value of `World` gives what they answer at a call.
pub mod Parse
mod Tests
pub mod Cache
pub mod Lookup
use cloud_provider_vsphere.Common.{
  Bool, true, false, ◌&&◌, ◌||◌, Option, none, some, List, [], ◌∷◌, ◌++◌, Text, codes, ◌==◌,
  is_empty, to_lower, has_suffix, before, Map, lookup, insert, Error, credentials_not_found,
  credential_missing, unknown_secret_key, Outcome, ok, err, panic, if◌then◌else◌,
}

pub record Credential : Type 0 where
  pub user : Text
  pub password : Text

pub record Secret : Type 0 where
  pub resource_version : Text
  pub entries : Map Text

-- A nil map of files is `none`.
pub record SecretCache : Type 0 where
  pub virtual_center : Map Credential
  pub secret : Option Secret
  pub secret_file : Option (Map Text)

pub record SecretManager : Type 0 where
  pub secret_name : Text
  pub secret_namespace : Text
  pub has_lister : Bool
  pub secrets_directory : Text
  pub secrets_directory_parse : Bool
  pub cache : SecretCache

pub record FileInfo : Type 0 where
  pub name : Text
  pub is_dir : Bool

-- The answer of a lister: a secret, a status error with the code 404, or another error.
pub data Listed : Type 0 where
  listed : Secret → Listed
  not_found : Error → Listed
  refused : Error → Listed

pub record World : Type 0 where
  pub get_secret : Text → Text → Listed
  pub read_dir : Text → Outcome (List FileInfo)
  pub read_file : Text → Outcome Text

abbrev pub no_credential : Credential
no_credential = record { user = []; password = [] }

abbrev pub or_new : Option Credential → Credential
or_new none = no_credential
or_new (some c) = c

-- `config[vcServer]`, made when it is missing.
abbrev pub credential_of : Text → Map Credential → Credential
credential_of server config = or_new (lookup server config)

abbrev pub set_password : Text → Text → Map Credential → Map Credential
set_password server v config =
    insert server (record { user = (credential_of server config).user; password = v }) config

abbrev pub set_user : Text → Text → Map Credential → Map Credential
set_user server v config =
    insert server (record { user = v; password = (credential_of server config).password }) config

-- What the name of an entry, in lower case, says that its value is.
pub data Field : Type 0 where
  password_of : Text → Field
  user_of : Text → Field
  unknown : Field

unfoldable pub field_of : Text → Field
unfolding has_suffix before to_lower
field_of name =
    let key = to_lower name in
    if has_suffix key (codes "password")
    then password_of (before key (codes ".password"))
    else if has_suffix key (codes "username")
    then user_of (before key (codes ".username"))
    else unknown

-- What an entry does to the map; `none` for an unknown key.
abbrev pub add_entry : Field → Text → Map Credential → Option (Map Credential)
add_entry (password_of server) v config = some (set_password server v config)
add_entry (user_of server) v config = some (set_user server v config)
add_entry unknown v config = none

-- The first loop of `parseConfig`.
unfoldable pub parse_entries : Map Text → Map Credential → Option Error × Map Credential
parse_entries [] config = (none, config)
parse_entries ((name, v) ∷ rest) config = elim (add_entry (field_of name) v config) [
  | none ↦ (some unknown_secret_key, config)
  | some config' ↦ parse_entries rest config'
]

-- Its second loop.
unfoldable pub check_complete : Map Credential → Option Error
check_complete [] = none
check_complete ((server, c) ∷ config) =
    if is_empty c.user || is_empty c.password
    then some credential_missing
    else check_complete config

abbrev pub check_after : Option Error × Map Credential → Option Error × Map Credential
check_after (some e, config) = (some e, config)
check_after (none, config) = (check_complete config, config)

unfoldable pub parse_config : Map Text → Map Credential → Option Error × Map Credential
parse_config [] config = (some credential_missing, config)
parse_config (entry ∷ rest) config = check_after (parse_entries (entry ∷ rest) config)

abbrev pub data_of : Option Secret → Option (Map Text) → Map Text
data_of (some s) files = s.entries
data_of none (some files) = files
data_of none none = []

-- `parseSecret`
unfoldable pub parse_secret : SecretCache → Option Error × SecretCache
parse_secret cache =
    let (e, config) = parse_config (data_of cache.secret cache.secret_file) cache.virtual_center in
    (e, record cache { virtual_center = config })

abbrev pub has_version : Option Secret → Text → Bool
has_version none v = false
has_version (some s) v = s.resource_version == v

-- The errors of `updateCredentialsMapK8s`, of which the caller lets the first kind pass.
pub data Update : Type 0 where
  updated : Update
  status_404 : Error → Update
  other_error : Error → Update

abbrev pub of_parse : Option Error → Update
of_parse none = updated
of_parse (some e) = other_error e

abbrev pub store_secret : Secret → SecretManager → Update × SecretManager
store_secret s m =
    let (e, cache) = parse_secret (record m.cache { secret = some s }) in
    (of_parse e, record m { cache = cache })

abbrev pub on_listed : Listed → SecretManager → Update × SecretManager
on_listed (not_found e) m = (status_404 e, m)
on_listed (refused e) m = (other_error e, m)
on_listed (listed s) m =
    if has_version m.cache.secret s.resource_version then (updated, m) else store_secret s m

unfoldable pub update_credentials_map_k8s : World → SecretManager → Update × SecretManager
update_credentials_map_k8s w m = on_listed (w.get_secret m.secret_namespace m.secret_name) m

-- The loop over the files: directories, and files that cannot be read, are skipped.
unfoldable pub read_files : World → Text → List FileInfo → Map Text → Map Text
read_files w dir [] entries = entries
read_files w dir (f ∷ files) entries = read_files w dir files (
    if f.is_dir then entries else (elim (w.read_file (dir ++ codes "/" ++ f.name)) [
      | ok contents ↦ insert f.name contents entries
      | err e ↦ entries
      | panic ↦ entries
    ]))

abbrev pub on_dir : World → Outcome (List FileInfo) → SecretManager → SecretManager
on_dir w (err e) m = record m { secrets_directory_parse = true }
on_dir w panic m = m
on_dir w (ok files) m =
    let entries = read_files w m.secrets_directory files [] in
    let (e, cache) = parse_secret (record m.cache { secret_file = some entries }) in
    record m { secrets_directory_parse = true; cache = cache }

-- The error that `updateCredentialsMapFile` returns is only logged by its caller.
unfoldable pub update_credentials_map_file : World → SecretManager → SecretManager
update_credentials_map_file w m =
    if m.secrets_directory_parse then m else on_dir w (w.read_dir m.secrets_directory) m

abbrev pub or_not_found : Option Credential → Outcome Credential
or_not_found none = err credentials_not_found
or_not_found (some c) = ok c

-- `GetCredential` of the cache, and what `GetCredential` of the manager makes of it.
abbrev pub cached : SecretManager → Text → Outcome Credential
cached m server = or_not_found (lookup server m.cache.virtual_center)

abbrev pub from_files : World → Text → SecretManager → Outcome Credential × SecretManager
from_files w server m =
    let m' = if is_empty m.secrets_directory then m else update_credentials_map_file w m in
    (cached m' server, m')

abbrev pub on_update : World → Text → Update × SecretManager → Outcome Credential × SecretManager
on_update w server (updated, m) = from_files w server m
on_update w server (status_404 e, m) = from_files w server m
on_update w server (other_error e, m) = (err e, m)

unfoldable pub get_credential : World → SecretManager → Text → Outcome Credential × SecretManager
get_credential w m server =
    if m.has_lister
    then on_update w server (update_credentials_map_k8s w m)
    else from_files w server m
