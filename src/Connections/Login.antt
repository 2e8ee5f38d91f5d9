-- ===== src/Connections/Login.antt =====
-- What a connection to one vCenter gives, and when its credentials change.
use cloud_provider_vsphere.Common.{
  ℕ, ◌+◌, ◌≡◌, refl, Bool, true, false, Option, none, some, Error, Outcome, ok, err, panic, is_some,
  if◌then◌else◌, if_ind, arith, ap, ◌∙◌, sym, subst,
}
use cloud_provider_vsphere.Credentials.{Credential, SecretManager, World, get_credential}
use cloud_provider_vsphere.Connections.{
  VimClient, Connection, Vim, Connected, new_client, assign, on_session, connect_client,
  connect_vim, update_credentials, with_manager, on_credential, on_connect, connect_by_instance,
}

-- What a call does not touch: the credentials and the address.
pub record Same (c c' : Connection) : Type 0 where
  pub username : c'.username ≡ c.username
  pub password : c'.password ≡ c.password
  pub hostname : c'.hostname ≡ c.hostname
  pub port : c'.port ≡ c.port

abbrev pub HasClient : Outcome (Unit {0}) × Connection → Type 0
HasClient (ok u, c) = is_some c.client ≡ true
HasClient (err e, c) = Unit
HasClient (panic, c) = Unit

assign-HasClient : (p : Outcome VimClient × Connection) → HasClient (assign p)
assign-HasClient (ok client, c) = refl
assign-HasClient (err e, c) = tt
assign-HasClient (panic, c) = tt

session-HasClient :
    (v : Vim) (t : ℕ) (o : Outcome Bool) (c : Connection)
    → is_some c.client ≡ true
    → HasClient (on_session v t o c)
session-HasClient v t (ok true) c h = h
session-HasClient v t (ok false) c h = assign-HasClient (new_client v t c)
session-HasClient v t (err e) c h = tt
session-HasClient v t panic c h = tt

client-HasClient :
    (v : Vim) (t : ℕ) (o : Option VimClient) (c : Connection)
    → c.client ≡ o
    → HasClient (connect_client v t o c)
client-HasClient v t none c e = assign-HasClient (new_client v t c)
client-HasClient v t (some x) c e = session-HasClient v t (v.user_session t x) c (ground arith)

-- After a connect without an error there is a client.
pub connect_vim-HasClient : (v : Vim) (t : ℕ) (c : Connection) → HasClient (connect_vim v t c)
unfolding connect_vim
connect_vim-HasClient v t c = client-HasClient v t c.client c refl

new_client-Same : (v : Vim) (t : ℕ) (c : Connection) → Same c (new_client v t c).1
unfolding new_client
new_client-Same v t c = ground arith

assign-Same :
    (c : Connection) (p : Outcome VimClient × Connection) → Same c p.1 → Same c (assign p).1
assign-Same c (ok client, c') h = ground arith
assign-Same c (err e, c') h = ground arith
assign-Same c (panic, c') h = h

session-Same : (v : Vim) (t : ℕ) (o : Outcome Bool) (c : Connection) → Same c (on_session v t o c).1
session-Same v t (ok true) c = ground arith
session-Same v t (ok false) c = assign-Same c (new_client v t c) (new_client-Same v t c)
session-Same v t (err e) c = ground arith
session-Same v t panic c = ground arith

client-Same :
    (v : Vim) (t : ℕ) (o : Option VimClient) (c : Connection) → Same c (connect_client v t o c).1
client-Same v t none c = assign-Same c (new_client v t c) (new_client-Same v t c)
client-Same v t (some x) c = session-Same v t (v.user_session t x) c

pub connect_vim-Same : (v : Vim) (t : ℕ) (c : Connection) → Same c (connect_vim v t c).1
unfolding connect_vim
connect_vim-Same v t c = client-Same v t c.client c

module _ (v : Vim) (w : World) (t : ℕ) (m : SecretManager) (c : Connection) where
  abbrev Good : Connected → Type 0
  Good r = r.error ≡ ok tt → is_some r.conn.client ≡ true

  with_manager-Good :
      (m' : SecretManager) (p : Outcome (Unit {0}) × Connection)
      → HasClient p
      → Good (with_manager m' p)
  with_manager-Good m' (ok u, c') h e = h
  with_manager-Good m' (err x, c') h e = absurd (ground arith)
  with_manager-Good m' (panic, c') h e = absurd (ground arith)

  credential-Good :
      (c' : Connection) (p : Outcome Credential × SecretManager)
      → Good (on_credential v (t + 1) c' p)
  credential-Good c' (ok cred, m') h =
      with_manager-Good m' (connect_vim v (t + 1) (update_credentials cred c'))
        (connect_vim-HasClient v (t + 1) (update_credentials cred c')) h
  credential-Good c' (err e, m') h = absurd (ground arith)
  credential-Good c' (panic, m') h = absurd (ground arith)

  connect-Good : (p : Outcome (Unit {0}) × Connection) → HasClient p → Good (on_connect v w t m p)
  connect-Good (ok u, c') h e = h
  connect-Good (panic, c') h e = absurd (ground arith)
  connect-Good (err x, c') h e =
      if_ind Good (v.is_invalid_login x) (λ _. credential-Good c' (get_credential w m c'.hostname))
        (λ _ e'. absurd (ground arith)) e

  -- A connection that is reported to stand has a client, also after new credentials were fetched.
  pub connect_by_instance-client :
      (connect_by_instance v w t m c).error ≡ ok tt
      → is_some (connect_by_instance v w t m c).conn.client ≡ true
  unfolding connect_by_instance
  connect_by_instance-client = connect-Good (connect_vim v t c) (connect_vim-HasClient v t c)

  login_again :
      (x : Error) (c' : Connection) (cred : Credential) (m' : SecretManager)
      → v.is_invalid_login x ≡ true
      → get_credential w m c'.hostname ≡ (ok cred, m')
      → on_connect v w t m (err x, c')
        ≡ with_manager m' (connect_vim v (t + 1) (update_credentials cred c'))
  login_again x c' cred m' y g =
      ap
        (λ b.
          if b
          then on_credential v (t + 1) c' (get_credential w m c'.hostname)
          else record { error = err x; conn = c'; manager = m })
        y
      ∙ ap (on_credential v (t + 1) c') g

  -- Unless the login itself was refused, neither the credentials nor the credential manager change,
  -- and the error is returned as it is.
  pub connect_by_instance-keeps :
      (e : Error)
      → (connect_vim v t c).0 ≡ err e
      → v.is_invalid_login e ≡ false
      → ((connect_by_instance v w t m c).error ≡ err e)
        × Same c (connect_by_instance v w t m c).conn
        × ((connect_by_instance v w t m c).manager ≡ m)
  unfolding connect_by_instance
  connect_by_instance-keeps e f n = go (connect_vim v t c) f (connect_vim-Same v t c)
    where
      go :
          (p : Outcome (Unit {0}) × Connection)
          → p.0 ≡ err e
          → Same c p.1
          → ((on_connect v w t m p).error ≡ err e)
            × Same c (on_connect v w t m p).conn
            × ((on_connect v w t m p).manager ≡ m)
      go (ok u, c') f' h = absurd (ground arith)
      go (panic, c') f' h = absurd (ground arith)
      go (err x, c') f' h = ground arith

  -- After a refused login the credentials of the secret manager for the host are used, and become
  -- those of the connection, whether or not the second login succeeds.
  pub connect_by_instance-refreshes :
      (e : Error) (cred : Credential) (m' : SecretManager)
      → (connect_vim v t c).0 ≡ err e
      → v.is_invalid_login e ≡ true
      → get_credential w m c.hostname ≡ (ok cred, m')
      → ((connect_by_instance v w t m c).conn.username ≡ cred.user)
        × ((connect_by_instance v w t m c).conn.password ≡ cred.password)
        × ((connect_by_instance v w t m c).manager ≡ m')
  unfolding connect_by_instance
  connect_by_instance-refreshes e cred m' f y g = go (connect_vim v t c) f (connect_vim-Same v t c)
    where
      fresh :
          (c' : Connection) (p : Outcome (Unit {0}) × Connection)
          → Same (update_credentials cred c') p.1
          → ((with_manager m' p).conn.username ≡ cred.user)
            × ((with_manager m' p).conn.password ≡ cred.password)
            × ((with_manager m' p).manager ≡ m')
      fresh c' (o, c'') h = (h.username, h.password, refl)

      go :
          (p : Outcome (Unit {0}) × Connection)
          → p.0 ≡ err e
          → Same c p.1
          → ((on_connect v w t m p).conn.username ≡ cred.user)
            × ((on_connect v w t m p).conn.password ≡ cred.password)
            × ((on_connect v w t m p).manager ≡ m')
      go (ok u, c') f' h = absurd (ground arith)
      go (panic, c') f' h = absurd (ground arith)
      go (err x, c') f' h =
          subst
            (λ r.
              (r.conn.username ≡ cred.user) × (r.conn.password ≡ cred.password) × (r.manager ≡ m'))
            (sym (login_again x c' cred m' (ground arith) (ap (get_credential w m) h.hostname ∙ g)))
            (fresh c' (connect_vim v (t + 1) (update_credentials cred c'))
              (connect_vim-Same v (t + 1) (update_credentials cred c')))
