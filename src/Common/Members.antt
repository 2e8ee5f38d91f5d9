-- ===== src/Common/Members.antt =====
-- Membership in lists, with the position kept.
use Prim.Native.Nat.{ℕ, zero, suc}
use mathlib.Core.Path.{◌≡◌, refl, ap}
use mathlib.Core.Logic.{◌⊎◌, inl, inr}
use mathlib.Core.Option.{some}
use mathlib.Core.List.{List, [], ◌∷◌, ◌++◌}
use native.Mathlib.Omega.{arith}
use cloud_provider_vsphere.Common.Lists.{length, get_elem?, set, Any, here, there, All, Member}

module _ {ℓ κ} {A : Type ℓ} {P : A → Type κ} where
  pub not-Any-nil : ¬ Any P []
  not-Any-nil m = elim m [ ]

  pub Any-cons : {x : A} {xs : List A} → Any P (x ∷ xs) → P x ⊎ Any P xs
  Any-cons (here p) = inl p
  Any-cons (there m) = inr m

  pub Any-append_left : {xs : List A} (ys : List A) → Any P xs → Any P (xs ++ ys)
  Any-append_left ys (here p) = here p
  Any-append_left ys (there m) = there (Any-append_left ys m)

  pub Any-append_right : (xs : List A) {ys : List A} → Any P ys → Any P (xs ++ ys)
  Any-append_right [] m = m
  Any-append_right (x ∷ xs) m = there (Any-append_right xs m)

  pub All-Any {μ} : {Q : A → Type μ} (xs : List A) → All Q xs → Any P xs → (x : A) × P x × Q x
  All-Any [] h m = elim m [ ]
  All-Any (x ∷ xs) h (here p) = (x, p, h.0)
  All-Any (x ∷ xs) h (there m) = All-Any xs h.1 m

module _ {ℓ} {A : Type ℓ} where
  pub length-set : (xs : List A) (i : ℕ) (v : A) → length (set xs i v) ≡ length xs
  length-set [] i v = refl
  length-set (x ∷ xs) zero v = refl
  length-set (x ∷ xs) (suc i) v = ap suc (length-set xs i v)

  -- After a write, the value is there, and the others are where they were.
  pub Member-set_self :
      (xs : List A) (i : ℕ) {w : A} (v : A) → get_elem? xs i ≡ some w → Member v (set xs i v)
  Member-set_self [] i v e = absurd (ground arith)
  Member-set_self (x ∷ xs) zero v e = here refl
  Member-set_self (x ∷ xs) (suc i) v e = there (Member-set_self xs i v e)

  pub Member-set_other :
      {a : A} (xs : List A) (i : ℕ) {w : A} (v : A)
      → get_elem? xs i ≡ some w
      → Member a xs
      → (w ≡ a) ⊎ Member a (set xs i v)
  Member-set_other [] i v e m = elim m [ ]
  Member-set_other (x ∷ xs) zero v e (here p) = inl (ground arith)
  Member-set_other (x ∷ xs) zero v e (there m) = inr (there m)
  Member-set_other (x ∷ xs) (suc i) v e (here p) = inr (here p)
  Member-set_other (x ∷ xs) (suc i) v e (there m) = elim (Member-set_other xs i v e m) [
    | inl same ↦ inl same
    | inr kept ↦ inr (there kept)
  ]

  pub Member-of_set :
      {a : A} (xs : List A) (i : ℕ) (v : A) → Member a (set xs i v) → (v ≡ a) ⊎ Member a xs
  Member-of_set [] i v m = inr m
  Member-of_set (x ∷ xs) zero v (here p) = inl p
  Member-of_set (x ∷ xs) zero v (there m) = inr (there m)
  Member-of_set (x ∷ xs) (suc i) v (here p) = inr (here p)
  Member-of_set (x ∷ xs) (suc i) v (there m) = elim (Member-of_set xs i v m) [
    | inl same ↦ inl same
    | inr old ↦ inr (there old)
  ]
