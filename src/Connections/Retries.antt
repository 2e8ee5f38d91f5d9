-- ===== src/Connections/Retries.antt =====
-- The map of vCenters, and the loop of connection attempts.
use cloud_provider_vsphere.Common.{
  ℕ, zero, suc, ◌+◌, ◌≡◌, refl, ◌≢◌, true, Option, none, some, Text, ==_iff, ==_refl, lookup,
  lookup-insert, Error, connection_not_found, Outcome, ok, err, panic, is_some, arith, ap, ◌∙◌,
}
use cloud_provider_vsphere.Credentials.{World}
use cloud_provider_vsphere.Connections.{
  Instance, ConnectionManager, Vim, Connected, connect_by_instance, put_back, on_instance, connect,
  connect_retry, connect_attempts, num_connection_attempts,
}
use cloud_provider_vsphere.Connections.Login.{connect_by_instance-client}

-- The vCenter is known and has a client.
abbrev pub IsConnected : Text → ConnectionManager → Type 0
IsConnected vc cm =
    (i : Instance) × (lookup vc cm.instances ≡ some i) × (is_some i.conn.client ≡ true)

module _ (v : Vim) (w : World) where
  -- A vCenter that is not configured is refused, and nothing changes.
  pub connect-unknown :
      (t : ℕ) (vc : Text) (cm : ConnectionManager)
      → lookup vc cm.instances ≡ none
      → connect v w t vc cm ≡ (err connection_not_found, cm)
  unfolding connect
  connect-unknown t vc cm e = ap (λ o. on_instance v w t vc o cm) e

  put_back-IsConnected :
      (vc : Text) (i : Instance) (cm : ConnectionManager) (r : Connected)
      → (r.error ≡ ok tt → is_some r.conn.client ≡ true)
      → (put_back vc i cm r).0 ≡ ok tt
      → IsConnected vc (put_back vc i cm r).1
  put_back-IsConnected vc i cm r h e = (
    record i { conn = r.conn },
    ground (arith, lookup-insert vc vc (record i { conn = r.conn }) cm.instances, ==_refl vc),
    h e,
  )

  instance-IsConnected :
      (t : ℕ) (vc : Text) (o : Option Instance) (cm : ConnectionManager)
      → (on_instance v w t vc o cm).0 ≡ ok tt
      → IsConnected vc (on_instance v w t vc o cm).1
  instance-IsConnected t vc none cm e = absurd (ground arith)
  instance-IsConnected t vc (some i) cm e =
      put_back-IsConnected vc i cm (connect_by_instance v w t cm.credential_manager i.conn)
        (connect_by_instance-client v w t cm.credential_manager i.conn) e

  -- After a success the vCenter has a client.
  pub connect-IsConnected :
      (t : ℕ) (vc : Text) (cm : ConnectionManager)
      → (connect v w t vc cm).0 ≡ ok tt
      → IsConnected vc (connect v w t vc cm).1
  unfolding connect
  connect-IsConnected t vc cm = instance-IsConnected t vc (lookup vc cm.instances) cm

  instance_others :
      (t : ℕ) (vc other : Text) (o : Option Instance) (cm : ConnectionManager)
      → vc ≢ other
      → lookup other (on_instance v w t vc o cm).1.instances ≡ lookup other cm.instances
  instance_others t vc other none cm n = refl
  instance_others t vc other (some i) cm n =
      let r = connect_by_instance v w t cm.credential_manager i.conn in
      ground
        (arith, lookup-insert vc other (record i { conn = r.conn }) cm.instances, ==_iff vc other)

  -- The other vCenters are left as they are.
  pub connect-others :
      (t : ℕ) (vc other : Text) (cm : ConnectionManager)
      → vc ≢ other
      → lookup other (connect v w t vc cm).1.instances ≡ lookup other cm.instances
  unfolding connect
  connect-others t vc other cm n = instance_others t vc other (lookup vc cm.instances) cm n

  retry_IsConnected :
      (n t : ℕ) (vc : Text) (last : Outcome (Unit {0})) (cm : ConnectionManager)
      → (n ≡ zero → last ≡ ok tt → ⊥)
      → (connect_retry n v w t vc last cm).0 ≡ ok tt
      → IsConnected vc (connect_retry n v w t vc last cm).1
  unfolding connect_retry
  retry_IsConnected zero t vc last cm n e = absurd (n refl e)
  retry_IsConnected (suc k) t vc last cm n e =
      go (connect v w t vc cm).0 (connect v w t vc cm).1 (connect-IsConnected t vc cm)
        (λ x cm'. retry_IsConnected k (t + 2) vc (err x) cm' (λ z h. cc)) e
    where
      retry : (o : Outcome (Unit {0})) → ConnectionManager → Outcome (Unit {0}) × ConnectionManager
      retry o cm' = elim o [
        | ok u ↦ (ok u, cm')
        | panic ↦ (panic, cm')
        | err x ↦ connect_retry k v w (t + 2) vc (err x) cm'
      ]

      go :
          (o : Outcome (Unit {0})) (cm' : ConnectionManager)
          → (o ≡ ok tt → IsConnected vc cm')
          → ((x : Error) (cm'' : ConnectionManager)
              → (connect_retry k v w (t + 2) vc (err x) cm'').0 ≡ ok tt
              → IsConnected vc (connect_retry k v w (t + 2) vc (err x) cm'').1)
          → (retry o cm').0 ≡ ok tt
          → IsConnected vc (retry o cm').1
      go (ok u) cm' h ih e' = h refl
      go panic cm' h ih e' = absurd (ground arith)
      go (err x) cm' h ih e' = ih x cm' e'

  retry_others :
      (n t : ℕ) (vc other : Text) (last : Outcome (Unit {0})) (cm : ConnectionManager)
      → vc ≢ other
      → lookup other (connect_retry n v w t vc last cm).1.instances ≡ lookup other cm.instances
  unfolding connect_retry
  retry_others zero t vc other last cm n = refl
  retry_others (suc k) t vc other last cm n =
      go (connect v w t vc cm).0 (connect v w t vc cm).1
        (λ x cm'. retry_others k (t + 2) vc other (err x) cm' n)
      ∙ connect-others t vc other cm n
    where
      go :
          (o : Outcome (Unit {0})) (cm' : ConnectionManager)
          → ((x : Error) (cm'' : ConnectionManager)
              → lookup other (connect_retry k v w (t + 2) vc (err x) cm'').1.instances
                ≡ lookup other cm''.instances)
          → lookup other
              (let r : Outcome (Unit {0}) × ConnectionManager = elim o [
                | ok u ↦ (ok u, cm')
                | panic ↦ (panic, cm')
                | err x ↦ connect_retry k v w (t + 2) vc (err x) cm'
              ] in
                r).1.instances
            ≡ lookup other cm'.instances
      go (ok u) cm' ih = refl
      go panic cm' ih = refl
      go (err x) cm' ih = ih x cm'

  -- Attempts that end without an error leave the vCenter with a client.
  pub connect_attempts-IsConnected :
      (t : ℕ) (vc : Text) (cm : ConnectionManager)
      → (connect_attempts v w t vc cm).0 ≡ ok tt
      → IsConnected vc (connect_attempts v w t vc cm).1
  unfolding connect_attempts
  connect_attempts-IsConnected t vc cm e =
      retry_IsConnected num_connection_attempts t vc (ok tt) cm (λ z h. absurd (omega arith)) e

  -- However the attempts end, they leave the other vCenters as they are.
  pub connect_attempts-others :
      (t : ℕ) (vc other : Text) (cm : ConnectionManager)
      → vc ≢ other
      → lookup other (connect_attempts v w t vc cm).1.instances ≡ lookup other cm.instances
  unfolding connect_attempts
  connect_attempts-others t vc other cm n =
      retry_others num_connection_attempts t vc other (ok tt) cm n
