-- ===== src/Mounts/Options.antt =====
-- The options of a mount, and `contains` of pkg/csi/service/node.go.
use cloud_provider_vsphere.Common.{
  false, ◌||◌, codes, ◌==◌, Member, here, there, not-Any-nil, ◌≡◌, refl, ap, Bool, true, List, [],
  ◌∷◌, Text, ==_iff, arith,
}
use cloud_provider_vsphere.Mounts.{Answer, answered, contains, mode_text}

-- An answer of two values.
abbrev pub both : {A B : Type 0} → A → B → Answer (A × B)
both a b = answered (a, b)

pub contains_sound : (l : List Text) (x : Text) → contains l x ≡ true → Member x l
unfolding contains
contains_sound [] x h = absurd (ground arith)
contains_sound (y ∷ ys) x h = at_head (y == x) refl (contains_sound ys x) h
  where
    at_head :
        (b : Bool)
        → (y == x) ≡ b
        → (contains ys x ≡ true → Member x ys)
        → (b || contains ys x) ≡ true
        → Member x (y ∷ ys)
    at_head true e f k = here ((==_iff y x).0 e)
    at_head false e f k = there (f k)

pub contains-Member : (l : List Text) (x : Text) → Member x l → contains l x ≡ true
unfolding contains
contains-Member [] x m = absurd (not-Any-nil m)
contains-Member (y ∷ ys) x (here e) = ap (λ b. b || contains ys x) ((==_iff y x).1 e)
contains-Member (y ∷ ys) x (there m) = or-true (y == x) (contains ys x) (contains-Member ys x m)
  where
    or-true : (a b : Bool) → b ≡ true → (a || b) ≡ true
    or-true true b h = refl
    or-true false b h = h

-- The mode of a mount, as the table of mounts writes it.
abbrev pub mode_name : Bool → Text
mode_name true = codes "ro"
mode_name false = codes "rw"

pub mode_text-name : (ro : Bool) → mode_text ro ≡ mode_name ro
mode_text-name true = refl
mode_text-name false = refl
