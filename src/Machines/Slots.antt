-- ===== src/Machines/Slots.antt =====
-- Arrays of Booleans: what a write changes, and the first place that is false.
use cloud_provider_vsphere.Common.{
  ℕ, zero, suc, ◌<◌, ◌≡◌, ◌≢◌, refl, ap, subst, Bool, true, false, length, get_elem?, set,
  replicate, Option, none, some, List, [], ◌∷◌, arith,
}
use cloud_provider_vsphere.Machines.{next_index, first_free}

pub first_free-some :
    (taken : List Bool) (n : ℕ)
    → first_free taken ≡ some n
    → (get_elem? taken n ≡ some false) × ((k : ℕ) → k < n → get_elem? taken k ≡ some true)
first_free-some [] n h = absurd (ground arith)
first_free-some (false ∷ bs) n h =
    let e : zero ≡ n = ground arith in
    subst
      (λ m.
        (get_elem? (false ∷ bs) m ≡ some false)
        × ((k : ℕ) → k < m → get_elem? (false ∷ bs) k ≡ some true))
      e (refl, λ k l. absurd (omega arith))
first_free-some (true ∷ bs) n h = later (first_free bs) refl h (first_free-some bs)
  where
    before_suc :
        (m : ℕ)
        → ((k : ℕ) → k < m → get_elem? bs k ≡ some true)
        → (k : ℕ) → k < suc m
        → get_elem? (true ∷ bs) k ≡ some true
    before_suc m f zero l = refl
    before_suc m f (suc k) l = f k (omega arith)

    later :
        (o : Option ℕ)
        → first_free bs ≡ o
        → next_index o ≡ some n
        → ((m : ℕ)
            → first_free bs ≡ some m
            → (get_elem? bs m ≡ some false) × ((k : ℕ) → k < m → get_elem? bs k ≡ some true))
        → (get_elem? (true ∷ bs) n ≡ some false)
          × ((k : ℕ) → k < n → get_elem? (true ∷ bs) k ≡ some true)
    later none e h f = absurd (ground arith)
    later (some m) e h f =
        let same : suc m ≡ n = ground arith in
        let (free, full) = f m e in
        subst
          (λ i.
            (get_elem? (true ∷ bs) i ≡ some false)
            × ((k : ℕ) → k < i → get_elem? (true ∷ bs) k ≡ some true))
          same (free, before_suc m full)

pub first_free-none :
    (taken : List Bool) (k : ℕ)
    → first_free taken ≡ none
    → k < length taken
    → get_elem? taken k ≡ some true
first_free-none [] k h l = absurd (omega arith)
first_free-none (false ∷ bs) k h l = absurd (ground arith)
first_free-none (true ∷ bs) zero h l = refl
first_free-none (true ∷ bs) (suc k) h l =
    first_free-none bs k (next_index-none (first_free bs) h) (omega arith)
  where
    next_index-none : (o : Option ℕ) → next_index o ≡ none → o ≡ none
    next_index-none none h = refl
    next_index-none (some m) h = absurd (ground arith)

pub get_elem?-set_self :
    {A : Type 0} (xs : List A) (i : ℕ) (v : A) → i < length xs → get_elem? (set xs i v) i ≡ some v
get_elem?-set_self [] i v l = absurd (omega arith)
get_elem?-set_self (x ∷ xs) zero v l = refl
get_elem?-set_self (x ∷ xs) (suc i) v l = get_elem?-set_self xs i v (omega arith)

pub get_elem?-set_other :
    {A : Type 0} (xs : List A) (i k : ℕ) (v : A) → i ≢ k → get_elem? (set xs i v) k ≡ get_elem? xs k
get_elem?-set_other [] i k v n = refl
get_elem?-set_other (x ∷ xs) zero zero v n = absurd (n refl)
get_elem?-set_other (x ∷ xs) zero (suc k) v n = refl
get_elem?-set_other (x ∷ xs) (suc i) zero v n = refl
get_elem?-set_other (x ∷ xs) (suc i) (suc k) v n = get_elem?-set_other xs i k v (λ e. n (ap suc e))

pub get_elem?-replicate :
    {A : Type 0} (n k : ℕ) (v w : A) → get_elem? (replicate n v) k ≡ some w → (v ≡ w) × (k < n)
get_elem?-replicate zero k v w h = absurd (ground arith)
get_elem?-replicate (suc n) zero v w h = (ground arith, omega arith)
get_elem?-replicate (suc n) (suc k) v w h =
    let (e, l) = get_elem?-replicate n k v w h in (e, omega arith)
