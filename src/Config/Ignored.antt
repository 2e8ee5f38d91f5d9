-- ===== src/Config/Ignored.antt =====
-- What the environment does not reach in the configuration of a vCenter.
use cloud_provider_vsphere.Common.{
  ℕ, ◌≡◌, refl, sym, ap, subst, ◌⊎◌, inl, inr, Bool, true, false, not, ◌&&◌, Option, none, some,
  List, [], ◌∷◌, Text, codes, is_empty, is_some, has_prefix, trim_prefix, split, Error, lookup, All,
  All-insert, if_ind, if◌then◌else◌, arith,
}
use cloud_provider_vsphere.Config.{
  default_round_tripper_count, Global, VirtualCenterConfig, Config, or_count, fix_global,
  is_secret_info_provided, global_vcenter, add_global_vcenter, fill_user, fill_password, fill_rest,
  fill_login, then_rest, check_vcenter, VCenters, then_others, check_vcenters, checked,
  validate_config,
}
use cloud_provider_vsphere.Config.Environment.{
  Environment, pair_of, vcenter_variable, insecure_of, roundtrip_of, global_from_env,
  vcenter_from_env, add_variable, vcenters_from_env, add_vcenter_ip, from_env,
}

-- The parsers refuse the empty text, as strconv says.
pub record RefusesEmpty (env : Environment) : Type 0 where
  pub no_uint : env.parse_uint [] ≡ none
  pub no_bool : env.parse_bool [] ≡ none

module _ (env : Environment) (r : RefusesEmpty env) where
  insecure_of-false : (o : Option (Text × Text)) → insecure_of env o ≡ false
  insecure_of-false (some p) = refl
  insecure_of-false none =
      ap (λ (q : Option Bool). (let b : Bool = elim q [ none ↦ false | some b ↦ b ] in b)) r.no_bool

  roundtrip_of-default :
      (o : Option (Text × Text)) → roundtrip_of env o ≡ default_round_tripper_count
  roundtrip_of-default (some p) = refl
  roundtrip_of-default none =
      ap
        (λ (q : Option ℕ).
          (let n : ℕ = elim q [ none ↦ default_round_tripper_count | some n ↦ n ] in n))
        r.no_uint

  module _ (f : Global) where
    -- What the validation with a global section makes of the number of round trips.
    abbrev pub HasCount : ℕ → Type 0
    HasCount n = (n ≡ default_round_tripper_count) ⊎ (n ≡ f.round_tripper_count)

    -- A vCenter that has nothing but defaults and what the global section has.
    abbrev pub IsPlain : Text × VirtualCenterConfig → Type 0
    IsPlain e =
        ((e.1.insecure_flag ≡ false) ⊎ (e.1.insecure_flag ≡ f.insecure_flag))
        × HasCount (or_count e.1.round_tripper_count f.round_tripper_count)

    -- The same after the validation.
    abbrev pub Ignores : Text × VirtualCenterConfig → Type 0
    Ignores e = (e.1.insecure_flag ≡ f.insecure_flag) × HasCount e.1.round_tripper_count

    vcenter_from_env-IsPlain :
        (g : Global) (id server : Text) → IsPlain (server, vcenter_from_env env g id)
    unfolding vcenter_from_env
    vcenter_from_env-IsPlain g id server = (
      inl (insecure_of-false (vcenter_variable env id (codes "_INSECURE"))),
      inl (
          ap (λ n. or_count n f.round_tripper_count)
            (roundtrip_of-default (vcenter_variable env id (codes "_ROUNDTRIP")))),
    )

    add_variable-IsPlain :
        (g : Global) (v : Option (Text × Text)) (m : VCenters)
        → All IsPlain m
        → All IsPlain (add_variable env g v m)
    add_variable-IsPlain g none m h = h
    add_variable-IsPlain g (some (key, value)) m h =
        if_ind (All IsPlain) (has_prefix key (codes "VSPHERE_VCENTER_") && not (is_empty value))
          (λ e.
            All-insert IsPlain value _ m h
              (vcenter_from_env-IsPlain g (trim_prefix key (codes "VSPHERE_VCENTER_")) value))
          (λ e. h)

    vcenters_from_env-IsPlain :
        (g : Global) (environ : List Text) (m : VCenters)
        → All IsPlain m
        → All IsPlain (vcenters_from_env env g environ m)
    unfolding vcenters_from_env
    vcenters_from_env-IsPlain g [] m h = h
    vcenters_from_env-IsPlain g (e ∷ environ) m h =
        vcenters_from_env-IsPlain g environ (add_variable env g (pair_of (split b'=' e)) m)
          (add_variable-IsPlain g (pair_of (split b'=' e)) m h)

    rest-Ignores :
        (server : Text) (vc : VirtualCenterConfig)
        → IsPlain (server, vc)
        → Ignores (server, fill_rest f vc)
    rest-Ignores server vc (flag, count) = (filled vc.insecure_flag f.insecure_flag flag, count)
      where
        filled : (a b : Bool) → (a ≡ false) ⊎ (a ≡ b) → (if a then true else b) ≡ b
        filled a b (inl e) = rw e refl
        filled true b (inr e) = e
        filled false b (inr e) = refl

    -- What a step of the validation makes of a vCenter, if it passes.
    PlainIf : Text → Option Error × VirtualCenterConfig → Type 0
    PlainIf server (none, vc) = IsPlain (server, vc)
    PlainIf server (some e, vc) = Unit

    IgnoresIf : Text → Option Error × VirtualCenterConfig → Type 0
    IgnoresIf server (none, vc) = Ignores (server, vc)
    IgnoresIf server (some e, vc) = Unit

    login-PlainIf :
        (server : Text) (vc : VirtualCenterConfig)
        → IsPlain (server, vc)
        → PlainIf server (fill_login f vc)
    unfolding PlainIf
    login-PlainIf server vc h =
        if_ind (PlainIf server) (is_empty (fill_user f vc).user) (λ e. tt)
          (λ u. if_ind (PlainIf server) (is_empty (fill_password f vc).password) (λ e. tt) (λ p. h))

    then_rest-IgnoresIf :
        (server : Text) (p : Option Error × VirtualCenterConfig)
        → PlainIf server p
        → IgnoresIf server (then_rest f p)
    unfolding PlainIf IgnoresIf
    then_rest-IgnoresIf server (some e, vc) h = tt
    then_rest-IgnoresIf server (none, vc) h = rest-Ignores server vc h

    check_vcenter-IgnoresIf :
        (server : Text) (vc : VirtualCenterConfig)
        → IsPlain (server, vc)
        → IgnoresIf server (check_vcenter f server vc)
    unfolding check_vcenter PlainIf IgnoresIf
    check_vcenter-IgnoresIf server vc h =
        if_ind (IgnoresIf server) (is_empty server) (λ e. tt)
          (λ n. then_rest-IgnoresIf server _ (
            if_ind (PlainIf server) (is_secret_info_provided f) (λ s. h)
              (λ s. login-PlainIf server vc h)))

    others-Ignores :
        (server : Text) (rest : VCenters) (p : Option Error × VirtualCenterConfig)
        (others : Option Error × VCenters)
        → IgnoresIf server p
        → (others.0 ≡ none → All Ignores others.1)
        → (then_others server rest p others).0 ≡ none
        → All Ignores (then_others server rest p others).1
    unfolding IgnoresIf
    others-Ignores server rest (some e, vc) others h k n = absurd (ground arith)
    others-Ignores server rest (none, vc) (e, m) h k n = (h, k n)

    check_vcenters-Ignores :
        (m : VCenters)
        → All IsPlain m
        → (check_vcenters f m).0 ≡ none
        → All Ignores (check_vcenters f m).1
    unfolding check_vcenters
    check_vcenters-Ignores [] h n = tt
    check_vcenters-Ignores ((server, vc) ∷ rest) h n =
        others-Ignores server rest (check_vcenter f server vc) (check_vcenters f rest)
          (check_vcenter-IgnoresIf server vc h.0) (check_vcenters-Ignores rest h.1) n

  -- The vCenters of a configuration ignore what the environment says of them.
  abbrev pub AllIgnore : Config → Type 0
  AllIgnore cfg = All (Ignores cfg.global) cfg.virtual_center

  checked-AllIgnore :
      (cfg : Config) (f : Global) (m : VCenters)
      → All (IsPlain f) m
      → (checked cfg f m).0 ≡ none
      → AllIgnore (checked cfg f m).1
  checked-AllIgnore cfg f [] h n = absurd (ground arith)
  checked-AllIgnore cfg f (e ∷ rest) h n = check_vcenters-Ignores f (e ∷ rest) h n

  global_vcenter-IsPlain :
      (g : Global) (server : Text)
      → IsPlain (fix_global g) (server, global_vcenter g)
        × IsPlain (fix_global g) (server, global_vcenter (fix_global g))
  unfolding fix_global
  global_vcenter-IsPlain g server = (
    (inr refl, inr (counted g.round_tripper_count)),
    (inr refl, inr (counted_again (or_count g.round_tripper_count default_round_tripper_count))),
  )
    where
      counted :
          (n : ℕ)
          → or_count n (or_count n default_round_tripper_count)
            ≡ or_count n default_round_tripper_count
      counted n = ground arith

      counted_again : (n : ℕ) → or_count n n ≡ n
      counted_again n = ground arith

  validate_config-AllIgnore :
      (cfg : Config)
      → All (IsPlain (fix_global cfg.global)) cfg.virtual_center
      → (validate_config cfg).0 ≡ none
      → AllIgnore (validate_config cfg).1
  unfolding validate_config add_global_vcenter
  validate_config-AllIgnore cfg h n =
      let f = fix_global cfg.global in
      checked-AllIgnore cfg f (add_global_vcenter f cfg.virtual_center)
        (if_ind (All (IsPlain f))
          (not (is_secret_info_provided f)
            && not (is_empty f.vcenter_ip)
            && not (is_some (lookup f.vcenter_ip cfg.virtual_center)))
          (λ e.
            All-insert (IsPlain f) f.vcenter_ip (global_vcenter f) cfg.virtual_center h
              (global_vcenter-IsPlain cfg.global f.vcenter_ip).1)
          (λ e. h))
        n

  add_vcenter_ip-IsPlain :
      (g : Global) (m : VCenters)
      → All (IsPlain (fix_global g)) m
      → All (IsPlain (fix_global g)) (add_vcenter_ip env g m)
  add_vcenter_ip-IsPlain g m h =
      if_ind (All (IsPlain (fix_global g)))
        (not (is_empty g.vcenter_ip) && not (is_some (lookup g.vcenter_ip m)))
        (λ e.
          All-insert (IsPlain (fix_global g)) g.vcenter_ip (global_vcenter g) m h
            (global_vcenter-IsPlain g g.vcenter_ip).0)
        (λ e. h)

  -- Whatever the environment holds, the variables VCENTER_<id>_INSECURE and VCENTER_<id>_ROUNDTRIP
  -- are without effect: if FromEnv succeeds for a configuration without vCenters, every vCenter of
  -- the result is insecure if and only if the global section says so, and has the default number of
  -- round trips or that of the global section. The parsers of strconv refuse the empty text.
  pub from_env-ignores :
      (cfg : Config)
      → cfg.virtual_center ≡ []
      → (from_env env cfg).0 ≡ none
      → AllIgnore (from_env env cfg).1
  unfolding from_env
  from_env-ignores cfg none_yet n =
      let g = global_from_env env cfg.global in
      let start : All (IsPlain (fix_global g)) cfg.virtual_center =
        subst (All (IsPlain (fix_global g))) (sym none_yet) tt in
      validate_config-AllIgnore _
        (add_vcenter_ip-IsPlain g (vcenters_from_env env g env.environ cfg.virtual_center)
          (vcenters_from_env-IsPlain (fix_global g) g env.environ cfg.virtual_center start))
        n
