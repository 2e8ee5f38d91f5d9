-- ===== src/Machines/Units.antt =====
-- The unit number that a new disk gets on its controller.
use cloud_provider_vsphere.Common.{
  ℕ, ◌<◌, ◌≡◌, ◌≢◌, ◌⊎◌, inl, inr, refl, sym, ap, subst, ◌∙◌, Bool, Bool-cases, true, false, nat_eq,
  nat_eq_iff, ltb, length, get_elem?, set, replicate, Any, here, there, Any-cons, not-Any-nil,
  length-set, Option, none, some, List, [], ◌∷◌, codes, foreign, Outcome, ok, err, panic, ◌>>=◌,
  Error, if◌then◌else◌, arith,
}
use cloud_provider_vsphere.Machines.{
  Device, scsi_device_slots, scsi_reserved_slot, take_unit, take_of, take_all, first_free,
  unit_or_full, no_units, get_next_unit_number,
}
use cloud_provider_vsphere.Machines.Slots.{
  first_free-some, first_free-none, get_elem?-set_self, get_elem?-set_other, get_elem?-replicate,
}

-- A device has the unit on the controller.
abbrev pub Holds : ℕ → ℕ → Device → Type 0
Holds key unit d = (d.controller_key ≡ key) × (d.unit_number ≡ some unit)

-- What is known of a unit after some devices were read.
abbrev Read : (ℕ → Type 0) → List Bool → List Bool → Type 0
Read Held before after =
    (length after ≡ length before)
    × ((k : ℕ) → get_elem? after k ≡ some false → (get_elem? before k ≡ some false) × (¬ Held k))
    × ((k : ℕ) → get_elem? after k ≡ some true → (get_elem? before k ≡ some true) ⊎ Held k)

Read-nothing :
    (t : List Bool) (Held : ℕ → Type 0)
    → ((k : ℕ) → ¬ Held k)
    → (t' : List Bool) → t ≡ t'
    → Read Held t t'
Read-nothing t Held f t' same = subst (Read Held t) same (refl, (λ k e. (e, f k)), (λ k e. inl e))

module _ (key : ℕ) where
  Read-set :
      (d : Device) (u : ℕ) (t : List Bool)
      → d.controller_key ≡ key
      → d.unit_number ≡ some u
      → u < length t
      → Read (λ k. Holds key k d) t (set t u true)
  Read-set d u t c e l = (length-set t u true, (λ k f. free k f), (λ k f. held k f))
    where
      free :
          (k : ℕ)
          → get_elem? (set t u true) k ≡ some false
          → (get_elem? t k ≡ some false) × (¬ Holds key k d)
      free k f = elim (Bool-cases (nat_eq u k)) [
        | inl same ↦
            let here_is : get_elem? (set t u true) k ≡ some true =
              subst (λ i. get_elem? (set t u true) i ≡ some true) ((nat_eq_iff u k).0 same)
                (get_elem?-set_self t u true l) in
            absurd (ground arith)
        | inr other ↦
            let apart : u ≢ k = λ x. (let y = (nat_eq_iff u k).1 x in absurd (ground arith)) in
            (
              sym (get_elem?-set_other t u k true apart) ∙ f,
              λ h. apart (let z : some u ≡ some k = sym e ∙ h.1 in ground arith),
            )
      ]

      held :
          (k : ℕ)
          → get_elem? (set t u true) k ≡ some true
          → (get_elem? t k ≡ some true) ⊎ Holds key k d
      held k f = elim (Bool-cases (nat_eq u k)) [
        | inl same ↦ inr (c, e ∙ ap some ((nat_eq_iff u k).0 same))
        | inr other ↦
            let apart : u ≢ k = λ x. (let y = (nat_eq_iff u k).1 x in absurd (ground arith)) in
            inl (sym (get_elem?-set_other t u k true apart) ∙ f)
      ]

  take_of-Read :
      (d : Device) (t t' : List Bool) → take_of key d t ≡ ok t' → Read (λ k. Holds key k d) t t'
  take_of-Read d t t' h = on_key (nat_eq d.controller_key key) refl h
    where
      on_unit :
          (o : Option ℕ)
          → d.unit_number ≡ o
          → d.controller_key ≡ key
          → take_unit o t ≡ ok t'
          → Read (λ k. Holds key k d) t t'
      on_unit none e c h =
          let same : t ≡ t' = ground arith in
          Read-nothing t (λ k. Holds key k d) (λ k x. absurd (cc (x.1, e))) t' same
      on_unit (some u) e c h = elim (Bool-cases (ltb u (length t))) [
        | inl inside ↦
            let same : set t u true ≡ t' = ground arith in
            subst (Read (λ k. Holds key k d) t) same (Read-set d u t c e (ground arith))
        | inr outside ↦ absurd (ground arith)
      ]

      on_key :
          (b : Bool)
          → nat_eq d.controller_key key ≡ b
          → (if b then take_unit d.unit_number t else ok t) ≡ ok t'
          → Read (λ k. Holds key k d) t t'
      on_key true e h = on_unit d.unit_number refl ((nat_eq_iff d.controller_key key).0 e) h
      on_key false e h =
          let same : t ≡ t' = ground arith in
          Read-nothing t (λ k. Holds key k d)
            (λ k x. (let y = (nat_eq_iff d.controller_key key).1 x.0 in absurd (ground arith))) t'
            same

  take_all-Read :
      (ds : List Device) (t t' : List Bool)
      → take_all key ds t ≡ ok t'
      → Read (λ k. Any (Holds key k) ds) t t'
  take_all-Read [] t t' h =
      let same : t ≡ t' = ground arith in
      Read-nothing t (λ k. Any (Holds key k) []) (λ k x. not-Any-nil x) t' same
  take_all-Read (d ∷ ds) t t' h = first (take_of key d t) refl h (take_all-Read ds)
    where
      first :
          (o : Outcome (List Bool))
          → take_of key d t ≡ o
          → (o >>= (λ u. take_all key ds u)) ≡ ok t'
          → ((u u' : List Bool) → take_all key ds u ≡ ok u' → Read (λ k. Any (Holds key k) ds) u u')
          → Read (λ k. Any (Holds key k) (d ∷ ds)) t t'
      first (err x) e h f = absurd (ground arith)
      first panic e h f = absurd (ground arith)
      first (ok u) e h f =
          let (n, free, held) = take_of-Read d t u e in
          let (n', free', held') = f u t' h in
          (
            n' ∙ n,
            (λ k x. (
              (free k (free' k x).0).0,
              λ m. elim (Any-cons m) [
                | inl p ↦ (free k (free' k x).0).1 p
                | inr later ↦ (free' k x).1 later
              ],
            )),
            (λ k x. elim (held' k x) [
              | inl before ↦ elim (held k before) [ inl older ↦ inl older | inr p ↦ inr (here p) ]
              | inr later ↦ inr (there later)
            ]),
          )

  -- No device has the unit, and it is not the reserved one.
  abbrev pub IsFree : List Device → ℕ → Type 0
  IsFree devices unit =
      (unit < scsi_device_slots) × (unit ≢ scsi_reserved_slot) × (¬ Any (Holds key unit) devices)

  -- It is reserved, or a device has it.
  abbrev pub IsTaken : List Device → ℕ → Type 0
  IsTaken devices unit = (unit ≡ scsi_reserved_slot) ⊎ Any (Holds key unit) devices

  start-free :
      (k : ℕ)
      → get_elem? no_units k ≡ some false
      → (k < scsi_device_slots) × (k ≢ scsi_reserved_slot)
  start-free k h = elim (Bool-cases (nat_eq 7 k)) [
    | inl same ↦ absurd (
        let e : get_elem? no_units k ≡ some true =
          subst (λ i. get_elem? no_units i ≡ some true) ((nat_eq_iff 7 k).0 same) refl in
        ground arith)
    | inr other ↦
        let apart : 7 ≢ k = λ x. (let y = (nat_eq_iff 7 k).1 x in absurd (ground arith)) in
        (
          (get_elem?-replicate 16 k false false
              (sym (get_elem?-set_other (replicate 16 false) 7 k true apart) ∙ h)).1,
          λ e. apart (sym e),
        )
  ]

  start-taken : (k : ℕ) → get_elem? no_units k ≡ some true → k ≡ scsi_reserved_slot
  start-taken k h = elim (Bool-cases (nat_eq 7 k)) [
    | inl same ↦ sym ((nat_eq_iff 7 k).0 same)
    | inr other ↦
        let apart : 7 ≢ k = λ x. (let y = (nat_eq_iff 7 k).1 x in absurd (ground arith)) in
        absurd (
          let e =
            (get_elem?-replicate 16 k false true
              (sym (get_elem?-set_other (replicate 16 false) 7 k true apart) ∙ h)).0 in
          ground arith)
  ]

  IsTaken-of :
      (devices : List Device) (t : List Bool)
      → Read (λ k. Any (Holds key k) devices) no_units t
      → (k : ℕ) → get_elem? t k ≡ some true
      → IsTaken devices k
  IsTaken-of devices t r k h = elim (r.2 k h) [
    | inl start ↦ inl (start-taken k start)
    | inr held ↦ inr held
  ]

  -- The least free unit, or an error if there is none.
  abbrev pub IsLeastFree : List Device → Outcome ℕ → Type 0
  IsLeastFree devices o =
      ((n : ℕ) × (o ≡ ok n) × IsFree devices n × ((k : ℕ) → k < n → IsTaken devices k))
      ⊎ ((e : Error) × (o ≡ err e) × ((k : ℕ) → k < scsi_device_slots → IsTaken devices k))

  take_of-ne-err : (d : Device) (t : List Bool) (x : Error) → take_of key d t ≢ err x
  take_of-ne-err d t x h = on_key (nat_eq d.controller_key key) d.unit_number h
    where
      on_key : (b : Bool) (u : Option ℕ) → (if b then take_unit u t else ok t) ≢ err x
      on_key true none e = absurd (ground arith)
      on_key true (some u) e = elim (Bool-cases (ltb u (length t))) [
        | inl inside ↦ absurd (ground arith)
        | inr outside ↦ absurd (ground arith)
      ]
      on_key false u e = absurd (ground arith)

  take_all-ne-err : (ds : List Device) (t : List Bool) (x : Error) → take_all key ds t ≢ err x
  take_all-ne-err [] t x h = absurd (ground arith)
  take_all-ne-err (d ∷ ds) t x h =
      first (take_of key d t) (take_of-ne-err d t) (take_all-ne-err ds) h
    where
      first :
          (o : Outcome (List Bool))
          → ((y : Error) → o ≢ err y)
          → ((u : List Bool) (y : Error) → take_all key ds u ≢ err y)
          → (o >>= (λ u. take_all key ds u)) ≢ err x
      first (ok u) f g h = g u x h
      first (err y) f g h = f y refl
      first panic f g h = absurd (ground arith)

  -- Unless it panics, getNextUnitNumber returns the least of the sixteen numbers that is neither
  -- reserved nor the unit of a device on the controller, or an error, and then there is none.
  pub get_next_unit_number_lem :
      (devices : List Device) (o : Outcome ℕ)
      → get_next_unit_number devices key ≡ o
      → o ≢ panic
      → IsLeastFree devices o
  unfolding get_next_unit_number
  get_next_unit_number_lem devices o h n = on_read (take_all key devices no_units) refl h n
    where
      chosen :
          (t : List Bool) (m : Option ℕ)
          → Read (λ k. Any (Holds key k) devices) no_units t
          → first_free t ≡ m
          → unit_or_full m ≡ o
          → IsLeastFree devices o
      chosen t (some n) r e h =
          let (free, full) = first_free-some t n e in
          let (slot, not_held) = r.1 n free in
          let (inside, not_reserved) = start-free n slot in
          inl
            (n, sym h, (inside, not_reserved, not_held), λ k l. IsTaken-of devices t r k (full k l))
      chosen t none r e h =
          let size : length t ≡ 16 = r.0 in
          inr (
            foreign (codes "SCSI Controller does not have any available slots"),
            sym h,
            λ k l. IsTaken-of devices t r k (first_free-none t k e (omega (arith, size, l))),
          )

      on_read :
          (q : Outcome (List Bool))
          → take_all key devices no_units ≡ q
          → (q >>= (λ taken. unit_or_full (first_free taken))) ≡ o
          → o ≢ panic
          → IsLeastFree devices o
      on_read (ok t) e h n = chosen t (first_free t) (take_all-Read devices no_units t e) refl h
      on_read panic e h n = absurd (n (sym h))
      on_read (err x) e h n = absurd (take_all-ne-err devices no_units x e)
