-- ===== src/Config/Valid.antt =====
-- What a configuration that was validated without an error has.
use cloud_provider_vsphere.Common.{
  true, ◌⊎◌, inl, inr, ℕ, ◌≡◌, ◌≢◌, refl, false, nat_eq, Option, none, some, [], ◌∷◌, Text,
  is_empty, Error, All, if_ind, if◌then◌else◌, arith,
}
use cloud_provider_vsphere.Config.{
  Global, VirtualCenterConfig, Config, fix_global, is_secret_info_provided, add_global_vcenter,
  fill_login, then_rest, check_vcenter, VCenters, then_others, check_vcenters, checked,
  validate_config,
}

-- A vCenter has a name, a port and a number of round trips and, if no information on secrets is
-- given, a user and a password.
pub record IsValidVCenter (g : Global) (e : Text × VirtualCenterConfig) : Type 0 where
  pub named : is_empty e.0 ≡ false
  pub port : is_empty e.1.vcenter_port ≡ false
  pub count : e.1.round_tripper_count ≢ 0
  pub login :
      (is_secret_info_provided g ≡ true)
      ⊎ ((is_empty e.1.user ≡ false) × (is_empty e.1.password ≡ false))

-- What the defaults of the global section give.
record IsFixed (g : Global) : Type 0 where
  port : is_empty g.vcenter_port ≡ false
  count : g.round_tripper_count ≢ 0

fix_global-IsFixed : (g : Global) → IsFixed (fix_global g)
unfolding fix_global
fix_global-IsFixed g = record {
  port = if_ind (λ s. is_empty s ≡ false) (is_empty g.vcenter_port) (λ e. refl) (λ e. e);
  count =
      if_ind (λ n. n ≢ 0) (nat_eq g.round_tripper_count 0) (λ e. (λ h. absurd (omega arith)))
        (λ e h. absurd (ground arith));
}

or_port : (s d : Text) → is_empty d ≡ false → is_empty (if is_empty s then d else s) ≡ false
or_port s d h = if_ind (λ t. is_empty t ≡ false) (is_empty s) (λ e. h) (λ e. e)

or_number : (n d : ℕ) → d ≢ 0 → (if nat_eq n 0 then d else n) ≢ 0
or_number n d h = if_ind (λ t. t ≢ 0) (nat_eq n 0) (λ e. h) (λ e z. absurd (ground arith))

module _ (g : Global) (fixed : IsFixed g) where
  HasLogin : VirtualCenterConfig → Type 0
  HasLogin vc =
      (is_secret_info_provided g ≡ true)
      ⊎ ((is_empty vc.user ≡ false) × (is_empty vc.password ≡ false))

  -- What the login part of the loop says when it passes.
  Passes : Option Error × VirtualCenterConfig → Type 0
  Passes (none, vc) = HasLogin vc
  Passes (some e, vc) = Unit

  login-Passes : (vc : VirtualCenterConfig) → Passes (fill_login g vc)
  unfolding Passes HasLogin
  login-Passes vc =
      if_ind Passes (is_empty (if is_empty vc.user then g.user else vc.user)) (λ e. tt)
        (λ u.
          if_ind Passes (is_empty (if is_empty vc.password then g.password else vc.password))
            (λ e. tt) (λ p. inr (u, p)))

  PassesAll : Text → Option Error × VirtualCenterConfig → Type 0
  PassesAll server (none, vc) = IsValidVCenter g (server, vc)
  PassesAll server (some e, vc) = Unit

  rest-PassesAll :
      (server : Text) (p : Option Error × VirtualCenterConfig)
      → is_empty server ≡ false
      → Passes p
      → PassesAll server (then_rest g p)
  unfolding PassesAll Passes HasLogin
  rest-PassesAll server (some e, vc) n h = tt
  rest-PassesAll server (none, vc) n h = record {
    named = n;
    port = or_port vc.vcenter_port g.vcenter_port fixed.port;
    count = or_number vc.round_tripper_count g.round_tripper_count fixed.count;
    login = h;
  }

  check_vcenter-PassesAll :
      (server : Text) (vc : VirtualCenterConfig) → PassesAll server (check_vcenter g server vc)
  unfolding check_vcenter PassesAll Passes HasLogin
  check_vcenter-PassesAll server vc =
      if_ind (PassesAll server) (is_empty server) (λ e. tt)
        (λ n.
          rest-PassesAll server _ n
            (if_ind Passes (is_secret_info_provided g) (λ s. inl s) (λ s. login-Passes vc)))

  ValidAll : Option Error × VCenters → Type 0
  ValidAll (none, m) = All (IsValidVCenter g) m
  ValidAll (some e, m) = Unit

  others-ValidAll :
      (server : Text) (rest : VCenters) (p : Option Error × VirtualCenterConfig)
      (others : Option Error × VCenters)
      → PassesAll server p
      → ValidAll others
      → ValidAll (then_others server rest p others)
  unfolding PassesAll ValidAll
  others-ValidAll server rest (some e, vc) others h k = tt
  others-ValidAll server rest (none, vc) (none, m) h k = (h, k)
  others-ValidAll server rest (none, vc) (some e, m) h k = tt

  check_vcenters-ValidAll : (m : VCenters) → ValidAll (check_vcenters g m)
  unfolding check_vcenters ValidAll
  check_vcenters-ValidAll [] = tt
  check_vcenters-ValidAll ((server, vc) ∷ rest) =
      others-ValidAll server rest (check_vcenter g server vc) (check_vcenters g rest)
        (check_vcenter-PassesAll server vc) (check_vcenters-ValidAll rest)

  valid-All : (p : Option Error × VCenters) → ValidAll p → p.0 ≡ none → All (IsValidVCenter g) p.1
  unfolding ValidAll
  valid-All (none, m) h e = h
  valid-All (some x, m) h e = absurd (ground arith)

abbrev pub IsValid : Config → Type 0
IsValid cfg = All (IsValidVCenter cfg.global) cfg.virtual_center

others-cons :
    (g : Global) (server : Text) (rest : VCenters) (p : Option Error × VirtualCenterConfig)
    (others : Option Error × VCenters)
    → (then_others server rest p others).1 ≢ []
others-cons g server rest (some e, vc) others h = absurd (ground arith)
others-cons g server rest (none, vc) (e, m) h = absurd (ground arith)

checked-IsValid :
    (cfg : Config) (g : Global) (m : VCenters)
    → IsFixed g
    → (checked cfg g m).0 ≡ none
    → IsValid (checked cfg g m).1 × ((checked cfg g m).1.virtual_center ≢ [])
unfolding check_vcenters
checked-IsValid cfg g [] f e = absurd (ground arith)
checked-IsValid cfg g ((server, vc) ∷ rest) f e = (
  valid-All g f (check_vcenters g ((server, vc) ∷ rest))
      (check_vcenters-ValidAll g f ((server, vc) ∷ rest)) e,
  others-cons g server rest (check_vcenter g server vc) (check_vcenters g rest),
)

-- A configuration that passes the validation has a vCenter, and every vCenter in it has a name, a
-- port and a number of round trips and, unless a secret or a secrets directory is named, a user and
-- a password.
pub validate_config-IsValid :
    (cfg : Config)
    → (validate_config cfg).0 ≡ none
    → IsValid (validate_config cfg).1 × ((validate_config cfg).1.virtual_center ≢ [])
unfolding validate_config
validate_config-IsValid cfg e =
    checked-IsValid cfg (fix_global cfg.global)
      (add_global_vcenter (fix_global cfg.global) cfg.virtual_center)
      (fix_global-IsFixed cfg.global) e
