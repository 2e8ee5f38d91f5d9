-- ===== src/Credentials/Cache.antt =====
-- When the cache answers for a secret that is gone, unchanged or broken.
use cloud_provider_vsphere.Common.{
  ◌≡◌, refl, ap, sym, ◌∙◌, true, false, some, [], Text, ==_refl, Error, err, if◌then◌else◌, subst,
  Bool-cases, inl, inr,
}
use cloud_provider_vsphere.Credentials.{
  Secret, SecretManager, Listed, listed, not_found, refused, World, has_version, store_secret,
  on_listed, update_credentials_map_k8s, Update, updated, status_404, other_error, on_update,
  from_files, cached, get_credential, parse_secret, of_parse,
}

-- A secret that was deleted does not take away the credentials: without a secrets directory the
-- cache answers, and nothing changes.
pub get_credential-deleted :
    (w : World) (m : SecretManager) (server : Text) (e : Error)
    → m.has_lister ≡ true
    → m.secrets_directory ≡ []
    → w.get_secret m.secret_namespace m.secret_name ≡ not_found e
    → get_credential w m server ≡ (cached m server, m)
unfolding get_credential update_credentials_map_k8s
get_credential-deleted w m server e h d g = rw (h, g, d) refl

-- Any other error of the lister is returned, and nothing changes.
pub get_credential-refused :
    (w : World) (m : SecretManager) (server : Text) (e : Error)
    → m.has_lister ≡ true
    → w.get_secret m.secret_namespace m.secret_name ≡ refused e
    → get_credential w m server ≡ (err e, m)
unfolding get_credential update_credentials_map_k8s
get_credential-refused w m server e h g = rw (h, g) refl

-- A secret whose version is in the cache already is not parsed again.
same_version :
    (w : World) (m : SecretManager) (server : Text) (s : Secret)
    → m.has_lister ≡ true
    → m.secrets_directory ≡ []
    → w.get_secret m.secret_namespace m.secret_name ≡ listed s
    → has_version m.cache.secret s.resource_version ≡ true
    → get_credential w m server ≡ (cached m server, m)
unfolding get_credential update_credentials_map_k8s
same_version w m server s h d g v = rw (h, g, d, v) refl

-- The manager after a secret with another version was fetched, whether or not it could be parsed.
stored : Secret → SecretManager → SecretManager
stored s m = (store_secret s m).1

-- A call where the lister has a secret of another version.
newer_version :
    (w : World) (m : SecretManager) (server : Text) (s : Secret)
    → m.has_lister ≡ true
    → w.get_secret m.secret_namespace m.secret_name ≡ listed s
    → has_version m.cache.secret s.resource_version ≡ false
    → get_credential w m server ≡ on_update w server (store_secret s m)
unfolding get_credential update_credentials_map_k8s
newer_version w m server s h g v =
    ap (λ b. if b then on_update w server (on_listed (listed_now m) m) else from_files w server m) h
    ∙ ap (λ l. on_update w server (on_listed l m)) g
    ∙ ap (λ b. on_update w server (if b then (updated, m) else store_secret s m)) v
  where
    listed_now : SecretManager → Listed
    listed_now m' = w.get_secret m'.secret_namespace m'.secret_name

after_update :
    (w : World) (server : Text) (u : Update) (m : SecretManager)
    → m.secrets_directory ≡ []
    → (on_update w server (u, m)).1 ≡ m
after_update w server updated m e = rw e refl
after_update w server (status_404 x) m e = rw e refl
after_update w server (other_error x) m e = refl

stored_first :
    (w : World) (m : SecretManager) (server : Text) (s : Secret)
    → m.has_lister ≡ true
    → m.secrets_directory ≡ []
    → w.get_secret m.secret_namespace m.secret_name ≡ listed s
    → has_version m.cache.secret s.resource_version ≡ false
    → (get_credential w m server).1 ≡ stored s m
unfolding stored
stored_first w m server s h d g v =
    ap (λ p. p.1) (newer_version w m server s h g v)
    ∙ after_update w server (of_parse (parse_secret (record m.cache { secret = some s })).0)
        (stored s m) d

-- A secret is parsed once. If there is a lister and no secrets directory, which is what
-- NewConnectionManager makes of a lister: after a call that fetched the secret, and whatever that call returned, the next
-- call with the same secret returns what the cache holds, and changes nothing. So an error of the
-- parser is reported by the first call only.
pub get_credential-again :
    (w : World) (m : SecretManager) (server again : Text) (s : Secret)
    → m.has_lister ≡ true
    → m.secrets_directory ≡ []
    → w.get_secret m.secret_namespace m.secret_name ≡ listed s
    → let m' = (get_credential w m server).1 in get_credential w m' again ≡ (cached m' again, m')
unfolding parse_secret
get_credential-again w m server again s h d g =
    elim (Bool-cases (has_version m.cache.secret s.resource_version)) [
      | inl v ↦
          subst (λ m'. get_credential w m' again ≡ (cached m' again, m'))
            (sym (ap (λ p. p.1) (same_version w m server s h d g v)))
            (same_version w m again s h d g v)
      | inr v ↦
          subst (λ m'. get_credential w m' again ≡ (cached m' again, m'))
            (sym (stored_first w m server s h d g v))
            (unfold stored in
              same_version w (stored s m) again s h d g (==_refl s.resource_version))
    ]
