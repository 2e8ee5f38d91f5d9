-- ===== src/Common/Sorts.antt =====
-- A sort by insertion, which the examples use for sort.Slice.
use mathlib.Core.List.Perm
use mathlib.Core.List.{List, [], ◌∷◌, Perm}
use mathlib.Core.Bool.{Bool, true, false}
use cloud_provider_vsphere.Common.Tests.{if◌then◌else◌}

abbrev pub put : {A : Type 0} → (A → A → Bool) → A → List A → List A
put less x [] = x ∷ []
put less x (y ∷ ys) = let rest = put less x ys in if less y x then y ∷ rest else x ∷ y ∷ ys

abbrev pub sorted : {A : Type 0} → (A → A → Bool) → List A → List A
sorted less [] = []
sorted less (x ∷ xs) = put less x (sorted less xs)

module _ {A : Type 0} (less : A → A → Bool) where
  placed-Perm :
      (x y : A) (ys : List A) (b : Bool)
      → Perm (put less x ys) (x ∷ ys)
      → Perm (if b then y ∷ put less x ys else x ∷ y ∷ ys) (x ∷ y ∷ ys)
  placed-Perm x y ys true p = Perm.trans (Perm.cons y p) (Perm.swap x y ys)
  placed-Perm x y ys false p = Perm.refl (x ∷ y ∷ ys)

  put-Perm : (x : A) (l : List A) → Perm (put less x l) (x ∷ l)
  put-Perm x [] = Perm.refl (x ∷ [])
  put-Perm x (y ∷ ys) = placed-Perm x y ys (less y x) (put-Perm x ys)

  pub sorted-Perm : (l : List A) → Perm (sorted less l) l
  sorted-Perm [] = Perm.nil
  sorted-Perm (x ∷ xs) = Perm.trans (put-Perm x (sorted less xs)) (Perm.cons x (sorted-Perm xs))
