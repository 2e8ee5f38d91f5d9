-- ===== src/Controller/Versions.antt =====
-- The check of the versions of the vCenters: checkAPI of pkg/csi/service/fcd/vsphere_helper.go, the
-- loop at the end of Init of controller.go, and APIVersion of
-- pkg/common/connectionmanager/connectionmanager.go. The version that a client tells is a parameter.
use cloud_provider_vsphere.Common.{
  ℕ, ◌+◌, ◌≤◌, ◌<◌, ◌≡◌, refl, sym, ap, ◌∙◌, ◌⊎◌, inl, inr, Bool, Bool-cases, true, false, ◌&&◌,
  ltb, nat_eq, nat_eq_iff, Option, none, some, List, [], ◌∷◌, Text, codes, split, Map, lookup,
  foreign, connection_not_found, Outcome, ok, err, panic, ◌>>=◌, if◌then◌else◌, arith,
}
use cloud_provider_vsphere.Credentials.{World}
use cloud_provider_vsphere.Connections.{VimClient, Instance, ConnectionManager, Vim, connect}
use cloud_provider_vsphere.Volumes.{Parsed, natural, negative, Digits}

abbrev pub min_supported_major : ℕ
min_supported_major = 6

abbrev pub min_supported_minor : ℕ
min_supported_minor = 5

abbrev pub is_less : Parsed → ℕ → Bool
is_less (natural n) k = ltb n k
is_less negative k = true

abbrev pub is_equal : Parsed → ℕ → Bool
is_equal (natural n) k = nat_eq n k
is_equal negative k = false

abbrev pub unsupported : Outcome (Unit {0})
unsupported = err (foreign (codes "The minimum supported vCenter is 6.5"))

abbrev pub check_numbers : Parsed → Parsed → Outcome (Unit {0})
check_numbers major minor =
    if is_less major min_supported_major
    then unsupported
    else (if is_equal major min_supported_major && is_less minor min_supported_minor
        then unsupported
        else ok tt)

abbrev pub check_parsed : Option Parsed → Option Parsed → Outcome (Unit {0})
check_parsed none minor = err (foreign (codes "Invalid Major Version value invalid"))
check_parsed (some major) none = err (foreign (codes "Invalid Minor Version value invalid"))
check_parsed (some major) (some minor) = check_numbers major minor

abbrev pub check_items : Digits → List Text → Outcome (Unit {0})
check_items digits (major ∷ minor ∷ rest) = check_parsed (digits.atoi major) (digits.atoi minor)
check_items digits _ = err (foreign (codes "Invalid API Version format"))

-- `checkAPI`
unfoldable pub check_api : Digits → Text → Outcome (Unit {0})
unfolding split
check_api digits version = check_items digits (split b'.' version)

module _ (v : Vim) (w : World) (about : VimClient → Text) where
  abbrev pub client_version : Option VimClient → Outcome Text
  client_version none = err connection_not_found
  client_version (some c) = ok (about c)

  abbrev pub instance_version : Option Instance → Outcome Text
  instance_version none = err connection_not_found
  instance_version (some i) = client_version i.conn.client

  abbrev pub connected_version :
      Text → Outcome (Unit {0}) × ConnectionManager → Outcome Text × ConnectionManager
  connected_version vc (ok u, cm) = (instance_version (lookup vc cm.instances), cm)
  connected_version vc (err e, cm) = (err e, cm)
  connected_version vc (panic, cm) = (panic, cm)

  -- `APIVersion`
  unfoldable pub api_version : ℕ → Text → ConnectionManager → Outcome Text × ConnectionManager
  unfolding connect lookup
  api_version t vc cm = connected_version vc (connect v w t vc cm)

  -- The loop at the end of `Init`. A call to connect takes two ticks at most.
  abbrev pub on_checked :
      ConnectionManager
      → Outcome (Unit {0})
      → Outcome (Unit {0}) × ConnectionManager
      → Outcome (Unit {0}) × ConnectionManager
  on_checked cm (ok u) further = further
  on_checked cm (err e) further = (err e, cm)
  on_checked cm panic further = (panic, cm)

  unfoldable pub check_versions :
      Digits → ℕ → Map Instance → ConnectionManager → Outcome (Unit {0}) × ConnectionManager
  unfolding api_version check_api
  check_versions digits t [] cm = (ok tt, cm)
  check_versions digits t ((vc, i) ∷ rest) cm =
      let (o, cm') = api_version t vc cm in
      on_checked cm' (o >>= check_api digits) (check_versions digits (t + 2) rest cm')

-- The version is 6.5 or later: the first two numbers of it are read as such.
pub record IsSupported (digits : Digits) (version : Text) : Type 0 where
  pub major_text : Text
  pub minor_text : Text
  pub rest : List Text
  pub major : ℕ
  pub minor : Parsed
  pub items : split b'.' version ≡ major_text ∷ minor_text ∷ rest
  pub reads_major : digits.atoi major_text ≡ some (natural major)
  pub reads_minor : digits.atoi minor_text ≡ some minor
  pub is_late : (6 < major) ⊎ ((major ≡ 6) × ((m : ℕ) × (minor ≡ natural m) × (5 ≤ m)))

late-of :
    (major minor : Parsed)
    → check_numbers major minor ≡ ok tt
    → (n : ℕ) × (major ≡ natural n)
      × ((6 < n) ⊎ ((n ≡ 6) × ((m : ℕ) × (minor ≡ natural m) × (5 ≤ m))))
late-of negative minor h = absurd (ground arith)
late-of (natural n) negative h = (n, refl, inl (ground arith))
late-of (natural n) (natural m) h = (n, refl, by_major (Bool-cases (nat_eq n 6)))
  where
    by_major :
        (nat_eq n 6 ≡ true) ⊎ (nat_eq n 6 ≡ false)
        → (6 < n) ⊎ ((n ≡ 6) × ((k : ℕ) × (natural m ≡ natural k) × (5 ≤ k)))
    by_major (inl e) = inr ((nat_eq_iff n 6).0 e, (m, refl, ground arith))
    by_major (inr e) = inl (ground arith)

items-IsSupported :
    (digits : Digits) (version : Text) (l : List Text)
    → split b'.' version ≡ l
    → check_items digits l ≡ ok tt
    → IsSupported digits version
items-IsSupported digits version [] e h = absurd (ground arith)
items-IsSupported digits version (a ∷ []) e h = absurd (ground arith)
items-IsSupported digits version (a ∷ b ∷ rest) e h =
    parsed (digits.atoi a) (digits.atoi b) refl refl h
  where
    parsed :
        (major minor : Option Parsed)
        → digits.atoi a ≡ major
        → digits.atoi b ≡ minor
        → check_parsed major minor ≡ ok tt
        → IsSupported digits version
    parsed none minor p q h = absurd (ground arith)
    parsed (some major) none p q h = absurd (ground arith)
    parsed (some major) (some minor) p q h =
        let (n, is_n, late) = late-of major minor h in
        record {
          major_text = a;
          minor_text = b;
          rest = rest;
          major = n;
          minor = minor;
          items = e;
          reads_major = p ∙ ap some is_n;
          reads_minor = q;
          is_late = late;
        }

check_api-IsSupported :
    (digits : Digits) (version : Text)
    → check_api digits version ≡ ok tt
    → IsSupported digits version
unfolding check_api
check_api-IsSupported digits version h =
    items-IsSupported digits version (split b'.' version) refl h

module _ (v : Vim) (w : World) (about : VimClient → Text) (digits : Digits) where
  -- The vCenters are asked for their versions one after the other, each with the manager that the
  -- one before leaves, and every one tells a version that is supported.
  abbrev pub AllSupported : ℕ → Map Instance → ConnectionManager → ConnectionManager → Type 0
  AllSupported t [] cm end_cm = end_cm ≡ cm
  AllSupported t ((vc, i) ∷ rest) cm end_cm =
      (version : Text) × (next : ConnectionManager) × (api_version v w about t vc cm
        ≡ (ok version, next))
      × IsSupported digits version
      × AllSupported (t + 2) rest next end_cm

  on_checked-AllSupported :
      (t : ℕ) (vc version : Text) (i : Instance) (rest : Map Instance)
      (cm next end_cm : ConnectionManager) (o : Outcome (Unit {0}))
      → api_version v w about t vc cm ≡ (ok version, next)
      → check_api digits version ≡ o
      → (check_versions v w about digits (t + 2) rest next ≡ (ok tt, end_cm)
          → AllSupported (t + 2) rest next end_cm)
      → on_checked v w about next o (check_versions v w about digits (t + 2) rest next)
        ≡ (ok tt, end_cm)
      → AllSupported t ((vc, i) ∷ rest) cm end_cm
  on_checked-AllSupported t vc version i rest cm next end_cm (ok tt) a c f h =
      (version, next, a, check_api-IsSupported digits version c, f h)
  on_checked-AllSupported t vc version i rest cm next end_cm (err e) a c f h =
      absurd (ground (arith, ap (λ p. p.0) h))
  on_checked-AllSupported t vc version i rest cm next end_cm panic a c f h =
      absurd (ground (arith, ap (λ p. p.0) h))

  -- If the check of Init succeeds, every vCenter of the configuration has told a version in its turn,
  -- with the connections that the ones before left, and it is 6.5 or later.
  pub check_versions-AllSupported :
      (t : ℕ) (m : Map Instance) (cm end_cm : ConnectionManager)
      → check_versions v w about digits t m cm ≡ (ok tt, end_cm)
      → AllSupported t m cm end_cm
  unfolding check_versions
  check_versions-AllSupported t [] cm end_cm h = sym (ap (λ p. p.1) h)
  check_versions-AllSupported t ((vc, i) ∷ rest) cm end_cm h =
      asked (api_version v w about t vc cm) refl
        (λ next. check_versions-AllSupported (t + 2) rest next end_cm) h
    where
      asked :
          (r : Outcome Text × ConnectionManager)
          → api_version v w about t vc cm ≡ r
          → ((next : ConnectionManager)
              → check_versions v w about digits (t + 2) rest next ≡ (ok tt, end_cm)
              → AllSupported (t + 2) rest next end_cm)
          → on_checked v w about r.1
              (r.0 >>= check_api digits)
              (check_versions v w about digits (t + 2) rest r.1)
            ≡ (ok tt, end_cm)
          → AllSupported t ((vc, i) ∷ rest) cm end_cm
      asked (err e, next) a f h = absurd (ground (arith, ap (λ p. p.0) h))
      asked (panic, next) a f h = absurd (ground (arith, ap (λ p. p.0) h))
      asked (ok version, next) a f h =
          on_checked-AllSupported t vc version i rest cm next end_cm (check_api digits version) a
            refl (f next) h
