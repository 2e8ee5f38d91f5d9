-- ===== src/Credentials/Parse.antt =====
-- What a parsed secret gives.
use cloud_provider_vsphere.Common.{
  ◌≡◌, refl, ◌≢◌, ◌↔◌, false, Option, none, some, [], ◌∷◌, Text, is_empty, Map, Error,
  unknown_secret_key, All, Any, here, there, arith, not-Any-nil,
}
use cloud_provider_vsphere.Credentials.{
  Credential, Field, password_of, user_of, unknown, field_of, set_user, set_password, parse_entries,
  check_complete, check_after, add_entry, parse_config,
}

-- A user name and a password are there.
abbrev pub IsComplete : Credential → Type 0
IsComplete c = (is_empty c.user ≡ false) × (is_empty c.password ≡ false)

pub check_complete_iff :
    (config : Map Credential)
    → (check_complete config ≡ none) ↔ All (λ entry. IsComplete entry.1) config
unfolding check_complete
check_complete_iff [] = ground arith
check_complete_iff ((server, c) ∷ config) = ground (arith, check_complete_iff config)

after_none :
    (p : Option Error × Map Credential) (config : Map Credential)
    → check_after p ≡ (none, config)
    → (p ≡ (none, config)) × (check_complete config ≡ none)
after_none (some e, c) config h = absurd (ground arith)
after_none (none, c) config h = ground arith

-- After a success every vCenter of the map, those known before included, has a user name and a
-- password.
pub parse_config-IsComplete :
    (entries : Map Text) (config config' : Map Credential)
    → parse_config entries config ≡ (none, config')
    → All (λ entry. IsComplete entry.1) config'
unfolding parse_config
parse_config-IsComplete [] config config' h = absurd (ground arith)
parse_config-IsComplete (entry ∷ rest) config config' h =
    (check_complete_iff config').0 (after_none (parse_entries (entry ∷ rest) config) config' h).1

-- The error for an unknown key is that of the first loop alone.
check_complete-ne-unknown :
    (config : Map Credential) → check_complete config ≢ some unknown_secret_key
unfolding check_complete
check_complete-ne-unknown [] h = cc
check_complete-ne-unknown ((server, c) ∷ config) h =
    ground (arith, check_complete-ne-unknown config)

abbrev pub IsUnknown : Text × Text → Type 0
IsUnknown entry = field_of entry.0 ≡ unknown

abbrev parse_rest :
    Map Text → Map Credential → Option (Map Credential) → Option Error × Map Credential
parse_rest rest config none = (some unknown_secret_key, config)
parse_rest rest config (some config') = parse_entries rest config'

-- One round of the first loop.
parse_entries-cons :
    (name v : Text) (rest : Map Text) (config : Map Credential)
    → parse_entries ((name, v) ∷ rest) config
      ≡ parse_rest rest config (add_entry (field_of name) v config)
unfolding parse_entries
parse_entries-cons name v rest config = ground arith

rest-IsUnknown :
    (name v : Text) (rest : Map Text) (config : Map Credential) (f : Field)
    → field_of name ≡ f
    → ((c : Map Credential)
        → ((parse_entries rest c).0 ≡ some unknown_secret_key) ↔ Any IsUnknown rest)
    → ((parse_rest rest config (add_entry f v config)).0 ≡ some unknown_secret_key)
      ↔ Any IsUnknown ((name, v) ∷ rest)
rest-IsUnknown name v rest config f e ih = go f e
  where
    later : field_of name ≢ unknown → Any IsUnknown ((name, v) ∷ rest) → Any IsUnknown rest
    later n (here u) = absurd (n u)
    later n (there m) = m

    go :
        (g : Field)
        → field_of name ≡ g
        → ((parse_rest rest config (add_entry g v config)).0 ≡ some unknown_secret_key)
          ↔ Any IsUnknown ((name, v) ∷ rest)
    go (password_of server) u =
        let h = ih (set_password server v config) in
        (λ r. there (h.0 r), λ m. h.1 (later (λ n. cc) m))
    go (user_of server) u =
        let h = ih (set_user server v config) in (λ r. there (h.0 r), λ m. h.1 (later (λ n. cc) m))
    go unknown u = (λ _. here u, λ _. refl)

entries-IsUnknown :
    (entries : Map Text) (config : Map Credential)
    → ((parse_entries entries config).0 ≡ some unknown_secret_key) ↔ Any IsUnknown entries
unfolding parse_entries
entries-IsUnknown [] config = (λ h. cc, λ m. absurd (not-Any-nil m))
entries-IsUnknown ((name, v) ∷ rest) config =
    rw (parse_entries-cons name v rest config)
      (rest-IsUnknown name v rest config (field_of name) refl (entries-IsUnknown rest))

checked_unknown :
    (p : Option Error × Map Credential)
    → ((check_after p).0 ≡ some unknown_secret_key) ↔ (p.0 ≡ some unknown_secret_key)
checked_unknown (some e, c) = (λ h. h, λ h. h)
checked_unknown (none, c) = (λ h. absurd (check_complete-ne-unknown c h), λ h. cc)

-- The error for an unknown key is returned exactly when some entry has one.
pub parse_config-IsUnknown_iff :
    (entries : Map Text) (config : Map Credential)
    → ((parse_config entries config).0 ≡ some unknown_secret_key) ↔ Any IsUnknown entries
unfolding parse_config
parse_config-IsUnknown_iff [] config = (λ h. cc, λ m. absurd (not-Any-nil m))
parse_config-IsUnknown_iff (entry ∷ rest) config =
    let p = checked_unknown (parse_entries (entry ∷ rest) config) in
    let q = entries-IsUnknown (entry ∷ rest) config in (λ h. q.0 (p.0 h), λ m. p.1 (q.1 m))
