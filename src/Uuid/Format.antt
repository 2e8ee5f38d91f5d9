-- ===== src/Uuid/Format.antt =====
-- What the conversion of a UUID does to one of the usual shape, and to a text that is too short.
use cloud_provider_vsphere.Common.{
  ℕ, ◌+◌, ◌<◌, ◌≤◌, ◌≡◌, refl, sym, ap, subst, ◌∙◌, ◌↔◌, ◌≢◌, ◌⊎◌, inl, inr, ◌∷◌, ◌++◌, Option,
  none, some, Text, to_lower, to_lower_idem, trim_prefix, strip_prefix-append, slice, get_or,
  tabulate, tabulate-get_or, length, Outcome, ok, panic, deref, ◌>>=◌, take, drop, ◌-◌, arith,
}
use cloud_provider_vsphere.Uuid.{
  provider_prefix, get_uuid_from_provider_id, convert_k8s_uuid_to_normal,
}

-- The identifier that a provider identifier is made from is what is read back from it.
pub get_uuid_from_provider_id_lem :
    (id : Text) → get_uuid_from_provider_id (provider_prefix ++ id) ≡ id
unfolding get_uuid_from_provider_id trim_prefix
get_uuid_from_provider_id_lem id =
    ap
      (λ (o : Option Text).
        (let r : Text = elim o [ none ↦ provider_prefix ++ id | some r ↦ r ] in r))
      (strip_prefix-append provider_prefix id)

-- 36 bytes, with a dash after the eighth, the twelfth, the sixteenth and the twentieth digit.
pub record IsUuid (s : Text) : Type 0 where
  pub long : length s ≡ 36
  pub dash_8 : get_or s 8 0 ≡ b'-'
  pub dash_13 : get_or s 13 0 ≡ b'-'
  pub dash_18 : get_or s 18 0 ≡ b'-'
  pub dash_23 : get_or s 23 0 ≡ b'-'

-- The other format of the UUID with the bytes `f 0` to `f 35`.
abbrev reversed : (ℕ → ℕ) → Text
reversed f =
    f 6
    ∷ f 7
    ∷ f 4
    ∷ f 5
    ∷ f 2
    ∷ f 3
    ∷ f 0
    ∷ f 1
    ∷ b'-'
    ∷ f 11
    ∷ f 12
    ∷ f 9
    ∷ f 10
    ∷ b'-'
    ∷ f 16
    ∷ f 17
    ∷ f 14
    ∷ f 15
    ∷ b'-'
    ∷ f 19
    ∷ f 20
    ∷ f 21
    ∷ f 22
    ∷ b'-'
    ∷ tabulate 12 (λ i. f (24 + i))

abbrev dashed : (ℕ → ℕ) → ℕ → ℕ → ℕ → ℕ → Text
dashed f a b c d =
    f 0
    ∷ f 1
    ∷ f 2
    ∷ f 3
    ∷ f 4
    ∷ f 5
    ∷ f 6
    ∷ f 7
    ∷ a
    ∷ f 9
    ∷ f 10
    ∷ f 11
    ∷ f 12
    ∷ b
    ∷ f 14
    ∷ f 15
    ∷ f 16
    ∷ f 17
    ∷ c
    ∷ f 19
    ∷ f 20
    ∷ f 21
    ∷ f 22
    ∷ d
    ∷ tabulate 12 (λ i. f (24 + i))

convert-tabulate :
    (f : ℕ → ℕ) → convert_k8s_uuid_to_normal (tabulate 36 f) ≡ ok (to_lower (reversed f))
unfolding convert_k8s_uuid_to_normal
convert-tabulate f = refl

convert-reversed :
    (f : ℕ → ℕ)
    → convert_k8s_uuid_to_normal (to_lower (reversed f))
      ≡ ok (to_lower (to_lower (dashed f b'-' b'-' b'-' b'-')))
unfolding convert_k8s_uuid_to_normal to_lower
convert-reversed f = refl

dashed-tabulate : (f : ℕ → ℕ) → dashed f (f 8) (f 13) (f 18) (f 23) ≡ tabulate 36 f
dashed-tabulate f = refl

IsUuid-tabulate : (s : Text) → IsUuid s → tabulate 36 (λ i. get_or s i 0) ≡ s
IsUuid-tabulate s u = subst (λ n. tabulate n (λ i. get_or s i 0) ≡ s) u.long (tabulate-get_or s 0)

-- The conversion of a UUID succeeds, and a second conversion leads back to it, in lower case.
pub convert_k8s_uuid_to_normal-twice :
    (s : Text)
    → IsUuid s
    → (u : Text) × (convert_k8s_uuid_to_normal s ≡ ok u)
      × (convert_k8s_uuid_to_normal u ≡ ok (to_lower s))
convert_k8s_uuid_to_normal-twice s u =
    let f : ℕ → ℕ = λ i. get_or s i 0 in
    let spine : tabulate 36 f ≡ s = IsUuid-tabulate s u in
    let dashes : dashed f b'-' b'-' b'-' b'-' ≡ dashed f (f 8) (f 13) (f 18) (f 23) = sym (
      ap (λ a. dashed f a (f 13) (f 18) (f 23)) u.dash_8
      ∙ ap (λ b. dashed f b'-' b (f 18) (f 23)) u.dash_13
      ∙ ap (λ c. dashed f b'-' b'-' c (f 23)) u.dash_18
      ∙ ap (λ d. dashed f b'-' b'-' b'-' d) u.dash_23) in
    (
      to_lower (reversed f),
      sym (ap convert_k8s_uuid_to_normal spine) ∙ convert-tabulate f,
      convert-reversed f
          ∙ ap ok (to_lower_idem _)
          ∙ ap (λ t. ok (to_lower t)) (dashes ∙ dashed-tabulate f ∙ spine),
    )

le_or_lt : (a b : ℕ) → (a ≤ b) ⊎ (b < a)
le_or_lt a b = ground arith

module _ {A B : Type 0} where
  deref-panic :
      (o : Option A) (f : A → Outcome B) → ((a : A) → f a ≡ panic) → (deref o >>= f) ≡ panic
  deref-panic none f h = refl
  deref-panic (some a) f h = h a

  deref-none : (o : Option A) (f : A → Outcome B) → o ≡ none → (deref o >>= f) ≡ panic
  deref-none o f e = ap (λ p. deref p >>= f) e

  deref-ne-panic :
      {a : A} (o : Option A) (f : A → Outcome B)
      → o ≡ some a
      → f a ≢ panic
      → (deref o >>= f) ≢ panic
  deref-ne-panic o f e n h = n (sym (ap (λ p. deref p >>= f) e) ∙ h)

slice-none : (s : Text) (i j : ℕ) → length s < j → slice s i j ≡ none
slice-none s i j h = ground arith

slice-some :
    (s : Text) (i j : ℕ) → i ≤ j → j ≤ length s → slice s i j ≡ some (take (j - i) (drop i s))
slice-some s i j h k = ground arith

short-panic : (s : Text) → length s < 36 → convert_k8s_uuid_to_normal s ≡ panic
unfolding convert_k8s_uuid_to_normal
short-panic s h = deref-panic (slice s 6 8) _ (λ a. deref-panic (slice s 4 6) _ (λ b.
    deref-panic (slice s 2 4) _ (λ c. deref-panic (slice s 0 2) _ (λ d.
      deref-panic (slice s 11 13) _ (λ e. deref-panic (slice s 9 11) _ (λ f.
        deref-panic (slice s 16 18) _ (λ g. deref-panic (slice s 14 16) _ (λ k.
          deref-panic (slice s 19 23) _
            (λ i. deref-none (slice s 24 36) _ (slice-none s 24 36 h))))))))))

long-ne-panic : (s : Text) → 36 ≤ length s → convert_k8s_uuid_to_normal s ≢ panic
unfolding convert_k8s_uuid_to_normal
long-ne-panic s k =
    let at : (i j : ℕ) → i ≤ j → j ≤ 36 → slice s i j ≡ some (take (j - i) (drop i s)) =
      λ i j h l. slice-some s i j h (omega arith) in
    deref-ne-panic _ _ (at 6 8 (omega arith) (omega arith)) (
      deref-ne-panic _ _ (at 4 6 (omega arith) (omega arith)) (
        deref-ne-panic _ _ (at 2 4 (omega arith) (omega arith)) (
          deref-ne-panic _ _ (at 0 2 (omega arith) (omega arith)) (
            deref-ne-panic _ _ (at 11 13 (omega arith) (omega arith)) (
              deref-ne-panic _ _ (at 9 11 (omega arith) (omega arith)) (
                deref-ne-panic _ _ (at 16 18 (omega arith) (omega arith)) (
                  deref-ne-panic _ _ (at 14 16 (omega arith) (omega arith)) (
                    deref-ne-panic _ _ (at 19 23 (omega arith) (omega arith))
                      (deref-ne-panic _ _ (at 24 36 (omega arith) (omega arith)) (λ e. cc))))))))))

-- The conversion panics on a text of fewer than 36 bytes, and on no other.
pub convert_k8s_uuid_to_normal-panic_iff :
    (s : Text) → (convert_k8s_uuid_to_normal s ≡ panic) ↔ (length s < 36)
convert_k8s_uuid_to_normal-panic_iff s = (
  λ h. (elim (le_or_lt 36 (length s)) [ inl k ↦ absurd (long-ne-panic s k h) | inr l ↦ l ]),
  short-panic s,
)
