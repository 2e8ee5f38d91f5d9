-- ===== src/Connections.antt =====
-- pkg/common/vclib/connection.go and the connecting part of
-- pkg/common/connectionmanager/connectionmanager.go. What the vSphere API answers is not under
-- src/: a value of `Vim` gives it, and depends on the tick, the number of the call of `Connect` of
-- a connection. Locks are not modelled: a call runs as a whole.
pub mod Login
pub mod Start
mod Tests
mod StartTests
pub mod Retries
use cloud_provider_vsphere.Common.{
  ℕ, zero, suc, ◌+◌, Bool, true, false, ◌&&◌, ◌||◌, not, Option, none, some, List, [], ◌∷◌, Text,
  is_empty, Map, lookup, insert, Error, connection_not_found, Outcome, ok, err, panic, nat_eq,
  if◌then◌else◌,
}
use cloud_provider_vsphere.Credentials.{Credential, SecretManager, World, get_credential}

-- The number of connection attempts of the callers of `Connect`.
abbrev pub num_connection_attempts : ℕ
num_connection_attempts = 3

abbrev pub round_tripper_default_count : ℕ
round_tripper_default_count = 3

-- A govmomi client, known by a number.
abbrev pub VimClient : Type 0
VimClient = ℕ

pub record Connection : Type 0 where
  pub client : Option VimClient
  pub username : Text
  pub password : Text
  pub hostname : Text
  pub port : Text
  pub ca_cert : Text
  pub thumbprint : Text
  pub insecure : Bool
  pub round_tripper_count : ℕ

pub record Vim : Type 0 where
  -- soap.ParseURL of host and port
  pub parse_url : Text → Text → Option Error
  -- SetRootCAs
  pub set_root_cas : Text → Option Error
  -- vim25.NewClient
  pub new_client : ℕ → Connection → Outcome VimClient
  -- pem.Decode finds a block
  pub is_pem : Text → Bool
  -- SessionManager.Login
  pub login : ℕ → VimClient → Text → Text → Option Error
  -- the key pair, the STS client, the token and SessionManager.LoginByToken
  pub login_by_token : ℕ → VimClient → Text → Text → Option Error
  -- SessionManager.UserSession: whether there is one
  pub user_session : ℕ → VimClient → Outcome Bool
  -- IsInvalidCredentialsError of vclib/utils.go: is the error a soap fault of govmomi's type
  -- InvalidLogin?
  pub is_invalid_login : Error → Bool

-- A vCenter of the configuration with its connection; of its configuration the datacenters.
pub record Instance : Type 0 where
  pub conn : Connection
  pub datacenters : Text

pub record ConnectionManager : Type 0 where
  pub instances : Map Instance
  pub credential_manager : SecretManager

abbrev pub log_in : Vim → ℕ → Connection → VimClient → Option Error
log_in v t c client =
    if v.is_pem c.username
    then v.login_by_token t client c.username c.password
    else v.login t client c.username c.password

abbrev pub default_count : ℕ → ℕ
default_count n = if nat_eq n 0 then round_tripper_default_count else n

abbrev pub ca_error : Vim → Text → Option Error
ca_error v ca = if is_empty ca then none else v.set_root_cas ca

abbrev pub logged_in : Option Error → VimClient → Connection → Outcome VimClient × Connection
logged_in (some e) client c = (err e, c)
logged_in none client c =
    (ok client, record c { round_tripper_count = default_count c.round_tripper_count })

abbrev pub dialled : Vim → ℕ → Outcome VimClient → Connection → Outcome VimClient × Connection
dialled v t (err e) c = (err e, c)
dialled v t panic c = (panic, c)
dialled v t (ok client) c = logged_in (log_in v t c client) client c

abbrev pub after_ca : Vim → ℕ → Option Error → Connection → Outcome VimClient × Connection
after_ca v t (some e) c = (err e, c)
after_ca v t none c = dialled v t (v.new_client t c) c

abbrev pub after_url : Vim → ℕ → Option Error → Connection → Outcome VimClient × Connection
after_url v t (some e) c = (err e, c)
after_url v t none c = after_ca v t (ca_error v c.ca_cert) c

-- `NewClient`
unfoldable pub new_client : Vim → ℕ → Connection → Outcome VimClient × Connection
new_client v t c = after_url v t (v.parse_url c.hostname c.port) c

-- `connection.Client, err = connection.NewClient(ctx)`: after an error the client is nil.
abbrev pub assign : Outcome VimClient × Connection → Outcome (Unit {0}) × Connection
assign (ok client, c) = (ok tt, record c { client = some client })
assign (err e, c) = (err e, record c { client = none })
assign (panic, c) = (panic, c)

abbrev pub on_session : Vim → ℕ → Outcome Bool → Connection → Outcome (Unit {0}) × Connection
on_session v t (err e) c = (err e, c)
on_session v t panic c = (panic, c)
on_session v t (ok true) c = (ok tt, c)
on_session v t (ok false) c = assign (new_client v t c)

abbrev pub connect_client :
    Vim → ℕ → Option VimClient → Connection → Outcome (Unit {0}) × Connection
connect_client v t none c = assign (new_client v t c)
connect_client v t (some client) c = on_session v t (v.user_session t client) c

-- `Connect` of a connection.
unfoldable pub connect_vim : Vim → ℕ → Connection → Outcome (Unit {0}) × Connection
unfolding new_client
connect_vim v t c = connect_client v t c.client c

-- `UpdateCredentials`
abbrev pub update_credentials : Credential → Connection → Connection
update_credentials cred c = record c { username = cred.user; password = cred.password }

-- What a call returns: its error, the connection and the credential manager after it.
pub record Connected : Type 0 where
  pub error : Outcome (Unit {0})
  pub conn : Connection
  pub manager : SecretManager

abbrev pub with_manager : SecretManager → Outcome (Unit {0}) × Connection → Connected
with_manager m (o, c) = record { error = o; conn = c; manager = m }

abbrev pub on_credential : Vim → ℕ → Connection → Outcome Credential × SecretManager → Connected
on_credential v t c (ok cred, m) = with_manager m (connect_vim v t (update_credentials cred c))
on_credential v t c (err e, m) = record { error = err e; conn = c; manager = m }
on_credential v t c (panic, m) = record { error = panic; conn = c; manager = m }

abbrev pub on_connect :
    Vim → World → ℕ → SecretManager → Outcome (Unit {0}) × Connection → Connected
on_connect v w t m (ok u, c) = record { error = ok u; conn = c; manager = m }
on_connect v w t m (panic, c) = record { error = panic; conn = c; manager = m }
on_connect v w t m (err e, c) =
    if v.is_invalid_login e
    then on_credential v (t + 1) c (get_credential w m c.hostname)
    else record { error = err e; conn = c; manager = m }

-- `ConnectByInstance`, which takes two ticks. The credential manager is never nil here.
unfoldable pub connect_by_instance : Vim → World → ℕ → SecretManager → Connection → Connected
connect_by_instance v w t m c = on_connect v w t m (connect_vim v t c)

abbrev pub put_back :
    Text → Instance → ConnectionManager → Connected → Outcome (Unit {0}) × ConnectionManager
put_back vc i cm r = (
  r.error,
  record {
    instances = insert vc (record i { conn = r.conn }) cm.instances;
    credential_manager = r.manager;
  },
)

abbrev pub on_instance :
    Vim
    → World
    → ℕ
    → Text
    → Option Instance
    → ConnectionManager
    → Outcome (Unit {0}) × ConnectionManager
on_instance v w t vc none cm = (err connection_not_found, cm)
on_instance v w t vc (some i) cm =
    put_back vc i cm (connect_by_instance v w t cm.credential_manager i.conn)

-- `Connect`
unfoldable pub connect :
    Vim → World → ℕ → Text → ConnectionManager → Outcome (Unit {0}) × ConnectionManager
connect v w t vc cm = on_instance v w t vc (lookup vc cm.instances) cm

-- The loop `for i := 0; i < NumConnectionAttempts; i++` round `Connect`, with the attempts left.
unfoldable pub connect_retry :
    ℕ
    → Vim
    → World
    → ℕ
    → Text
    → Outcome (Unit {0})
    → ConnectionManager
    → Outcome (Unit {0}) × ConnectionManager
connect_retry zero v w t vc last cm = (last, cm)
connect_retry (suc n) v w t vc last cm =
    let (o, cm') = connect v w t vc cm in
    elim o [
      | ok u ↦ (ok u, cm')
      | panic ↦ (panic, cm')
      | err e ↦ connect_retry n v w (t + 2) vc (err e) cm'
    ]

-- The loop from its start.
unfoldable pub connect_attempts :
    Vim → World → ℕ → Text → ConnectionManager → Outcome (Unit {0}) × ConnectionManager
unfolding connect_retry
connect_attempts v w t vc cm = connect_retry num_connection_attempts v w t vc (ok tt) cm
