-- ===== src/Credentials/Lookup.antt =====
-- The last entry for a field of a vCenter decides that field.
use cloud_provider_vsphere.Common.{
  ◌≡◌, refl, ap, ◌∙◌, ◌≢◌, inl, inr, Option, none, some, [], ◌∷◌, ◌++◌, Text, ◌==◌, ==_iff, Map,
  insert, lookup-insert, Error, unknown_secret_key, All, Bool-cases, if◌then◌else◌, arith,
}
use cloud_provider_vsphere.Credentials.{
  Credential, Field, password_of, user_of, unknown, field_of, credential_of, add_entry,
  parse_entries, check_after, parse_config,
}

credential_of-insert :
    (k server : Text) (c : Credential) (config : Map Credential)
    → credential_of server (insert k c config)
      ≡ (if k == server then c else credential_of server config)
credential_of-insert k server c config = ground (arith, lookup-insert k server c config)

abbrev pub IsUser : Text → Text → Type 0
IsUser server name = field_of name ≡ user_of server

abbrev pub IsPassword : Text → Text → Type 0
IsPassword server name = field_of name ≡ password_of server

module _ (server : Text) where
  -- An entry for another field leaves the user name alone.
  add_entry-user :
      (f : Field) (v : Text) (config config' : Map Credential)
      → f ≢ user_of server
      → add_entry f v config ≡ some config'
      → (credential_of server config').user ≡ (credential_of server config).user
  add_entry-user (password_of s) v config config' n e = ground (
    arith,
    credential_of-insert s server (record { user = (credential_of s config).user; password = v })
        config,
    ==_iff s server,
  )
  add_entry-user (user_of s) v config config' n e = elim (Bool-cases (s == server)) [
    | inl same ↦ absurd (n (ap user_of ((==_iff s server).0 same)))
    | inr other ↦ ground (
      arith,
      credential_of-insert s server
          (record { user = v; password = (credential_of s config).password }) config,
    )
  ]
  add_entry-user unknown v config config' n e = absurd (ground arith)

  add_entry-password :
      (f : Field) (v : Text) (config config' : Map Credential)
      → f ≢ password_of server
      → add_entry f v config ≡ some config'
      → (credential_of server config').password ≡ (credential_of server config).password
  add_entry-password (user_of s) v config config' n e = ground (
    arith,
    credential_of-insert s server
        (record { user = v; password = (credential_of s config).password }) config,
    ==_iff s server,
  )
  add_entry-password (password_of s) v config config' n e = elim (Bool-cases (s == server)) [
    | inl same ↦ absurd (n (ap password_of ((==_iff s server).0 same)))
    | inr other ↦ ground (
      arith,
      credential_of-insert s server (record { user = (credential_of s config).user; password = v })
          config,
    )
  ]
  add_entry-password unknown v config config' n e = absurd (ground arith)

  parse_step :
      (o : Option (Map Credential)) (rest : Map Text) (config config' : Map Credential)
      → ◌≡◌ {A = Option Error × Map Credential}
          (elim o [ none ↦ (some unknown_secret_key, config) | some c ↦ parse_entries rest c ])
          (none, config')
      → (c : Map Credential) × (o ≡ some c) × (parse_entries rest c ≡ (none, config'))
  parse_step none rest config config' h = absurd (ground arith)
  parse_step (some c) rest config config' h = (c, refl, h)

  rest_user :
      (entries : Map Text) (config config' : Map Credential)
      → All (λ entry. ¬ IsUser server entry.0) entries
      → parse_entries entries config ≡ (none, config')
      → (credential_of server config').user ≡ (credential_of server config).user
  unfolding parse_entries
  rest_user [] config config' h e = ground arith
  rest_user ((name, v) ∷ rest) config config' h e =
      let (c, added, e') = parse_step (add_entry (field_of name) v config) rest config config' e in
      rest_user rest c config' h.1 e' ∙ add_entry-user (field_of name) v config c h.0 added

  rest_password :
      (entries : Map Text) (config config' : Map Credential)
      → All (λ entry. ¬ IsPassword server entry.0) entries
      → parse_entries entries config ≡ (none, config')
      → (credential_of server config').password ≡ (credential_of server config).password
  unfolding parse_entries
  rest_password [] config config' h e = ground arith
  rest_password ((name, v) ∷ rest) config config' h e =
      let (c, added, e') = parse_step (add_entry (field_of name) v config) rest config config' e in
      rest_password rest c config' h.1 e' ∙ add_entry-password (field_of name) v config c h.0 added

  set_part :
      (f : Field) (v : Text) (config c : Map Credential)
      → add_entry f v config ≡ some c
      → (f ≡ user_of server → (credential_of server c).user ≡ v)
        × (f ≡ password_of server → (credential_of server c).password ≡ v)
  set_part (password_of s) v config c e = (
    λ h. absurd (cc),
    λ h. ground (
      arith,
      credential_of-insert s server (record { user = (credential_of s config).user; password = v })
          config,
      ==_iff s server,
    ),
  )
  set_part (user_of s) v config c e = (
    λ h. ground (
      arith,
      credential_of-insert s server
          (record { user = v; password = (credential_of s config).password }) config,
      ==_iff s server,
    ),
    λ h. absurd (cc),
  )
  set_part unknown v config c e = absurd (ground arith)

  -- The entries before the one looked at do not matter.
  after_prefix :
      (front : Map Text) (name v : Text) (rest : Map Text) (config config' : Map Credential)
      → parse_entries (front ++ (name, v) ∷ rest) config ≡ (none, config')
      → (c : Map Credential) × (c' : Map Credential) × (add_entry (field_of name) v c ≡ some c')
        × (parse_entries rest c' ≡ (none, config'))
  unfolding parse_entries
  after_prefix [] name v rest config config' e =
      let (c', added, e') = parse_step (add_entry (field_of name) v config) rest config config' e in
      (config, c', added, e')
  after_prefix ((n, w) ∷ front) name v rest config config' e =
      let (c, added, e') =
        parse_step (add_entry (field_of n) w config) (front ++ (name, v) ∷ rest) config config' e in
      after_prefix front name v rest c config' e'

  parse_config-entries :
      (entries : Map Text) (config config' : Map Credential)
      → parse_config entries config ≡ (none, config')
      → parse_entries entries config ≡ (none, config')
  unfolding parse_config
  parse_config-entries [] config config' h = absurd (ground arith)
  parse_config-entries (entry ∷ rest) config config' h =
      checked (parse_entries (entry ∷ rest) config) h
    where
      checked :
          (p : Option Error × Map Credential)
          → check_after p ≡ (none, config')
          → p ≡ (none, config')
      checked (some e, c) h' = absurd (ground arith)
      checked (none, c) h' = ground arith

  -- After a success the user name of a vCenter is the value of the last entry for it.
  pub parse_config-user :
      (front : Map Text) (name v : Text) (rest : Map Text) (config config' : Map Credential)
      → IsUser server name
      → All (λ entry. ¬ IsUser server entry.0) rest
      → parse_config (front ++ (name, v) ∷ rest) config ≡ (none, config')
      → (credential_of server config').user ≡ v
  parse_config-user front name v rest config config' u h e =
      let (c, c', added, e') =
        after_prefix front name v rest config config' (parse_config-entries _ config config' e) in
      rest_user rest c' config' h e' ∙ (set_part (field_of name) v c c' added).0 u

  -- After a success the password of a vCenter is the value of the last entry for it.
  pub parse_config-password :
      (front : Map Text) (name v : Text) (rest : Map Text) (config config' : Map Credential)
      → IsPassword server name
      → All (λ entry. ¬ IsPassword server entry.0) rest
      → parse_config (front ++ (name, v) ∷ rest) config ≡ (none, config')
      → (credential_of server config').password ≡ v
  parse_config-password front name v rest config config' u h e =
      let (c, c', added, e') =
        after_prefix front name v rest config config' (parse_config-entries _ config config' e) in
      rest_password rest c' config' h e' ∙ (set_part (field_of name) v c c' added).1 u
