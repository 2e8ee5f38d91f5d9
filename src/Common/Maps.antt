-- ===== src/Common/Maps.antt =====
-- Go maps with text keys as association lists: a map is ranged over in the order of its list, and
-- the theorems hold for every list.
use mathlib.Core.Path.{◌≡◌, refl, subst}
use mathlib.Core.Logic.{inl, inr}
use mathlib.Core.Option.{Option, none, some}
use mathlib.Core.List.{List, [], ◌∷◌}
use native.Mathlib.Omega.{arith}
use cloud_provider_vsphere.Common.Tests.{if◌then◌else◌, Bool-cases}
use cloud_provider_vsphere.Common.Lists.{All}
use cloud_provider_vsphere.Common.Texts.{Text, ◌==◌, ==_iff, ==_refl}

abbrev pub Map {ℓ} : Type ℓ → Type ℓ
Map V = List (Text × V)

module _ {ℓ} {V : Type ℓ} where
  -- `m[k]`, with `none` for an absent key.
  unfoldable pub lookup : Text → Map V → Option V
  lookup key [] = none
  lookup key ((here, v) ∷ rest) =
      let further = lookup key rest in if here == key then some v else further

  -- `m[k] = v`
  unfoldable pub insert : Text → V → Map V → Map V
  insert key v [] = (key, v) ∷ []
  insert key v ((here, old) ∷ rest) =
      let further = insert key v rest in
      if here == key then (key, v) ∷ rest else (here, old) ∷ further

  -- `delete(m, k)`
  unfoldable pub delete : Text → Map V → Map V
  delete k [] = []
  delete k ((j, v) ∷ m) = let rest = delete k m in if j == k then rest else (j, v) ∷ rest

  pub lookup-insert :
      (key asked : Text) (v : V) (m : Map V)
      → lookup asked (insert key v m) ≡ (if key == asked then some v else lookup asked m)
  unfolding lookup insert
  lookup-insert key asked v [] = refl
  lookup-insert key asked v ((here, old) ∷ rest) =
      let induction = lookup-insert key asked v rest in
      ground (arith, induction, ==_iff here asked, ==_iff key asked, ==_iff here key)

  pub lookup-insert_self : (k : Text) (v : V) (m : Map V) → lookup k (insert k v m) ≡ some v
  lookup-insert_self k v m = ground (arith, lookup-insert k k v m, ==_refl k)

  pub lookup-delete :
      (k j : Text) (m : Map V) → lookup j (delete k m) ≡ (if k == j then none else lookup j m)
  unfolding lookup delete
  lookup-delete k j [] = ground arith
  lookup-delete k j ((i, w) ∷ m) =
      ground (arith, ==_iff k j, ==_iff i k, ==_iff i j, lookup-delete k j m)

module _ {ℓ κ} {V : Type ℓ} (P : Text × V → Type κ) where
  pub All-insert : (k : Text) (v : V) (m : Map V) → All P m → P (k, v) → All P (insert k v m)
  unfolding insert
  All-insert k v [] h p = (p, tt)
  All-insert k v ((j, w) ∷ m) h p = elim (Bool-cases (j == k)) [
    | inl e ↦ rw e (p, h.1)
    | inr e ↦ rw e (h.0, All-insert k v m h.1 p)
  ]

  pub All-lookup : (k : Text) (m : Map V) {v : V} → All P m → lookup k m ≡ some v → P (k, v)
  unfolding lookup
  All-lookup k [] h e = absurd (ground arith)
  All-lookup k ((j, w) ∷ m) h e = elim (Bool-cases (j == k)) [
    | inl same ↦ subst P (ground (arith, ==_iff j k)) h.0
    | inr other ↦ All-lookup k m h.1 (ground arith)
  ]
