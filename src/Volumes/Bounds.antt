-- ===== src/Volumes/Bounds.antt =====
-- A page of ListVolumes has no more entries than the request allows.
use cloud_provider_vsphere.Common.{
  ℕ, zero, suc, ◌+◌, ◌-◌, ◌≤◌, ◌≡◌, ◌≢◌, refl, ap, inl, inr, Bool-cases, ltb, leb, List, [], ◌∷◌,
  map, length, take, drop, length-drop, Text, Outcome, ok, err, panic, arith,
}
use cloud_provider_vsphere.Volumes.{
  FirstClassDisk, Page, Parsed, natural, negative, Digits, volume_of, start_of, stop_of, subset,
  page, page_at, list_volumes,
}

length-map : {A B : Type 0} (f : A → B) (xs : List A) → length (map f xs) ≡ length xs
length-map f [] = refl
length-map f (x ∷ xs) = ap suc (length-map f xs)

length-take : {A : Type 0} (n : ℕ) (xs : List A) → length (take n xs) ≤ n
length-take zero xs = omega arith
length-take (suc n) [] = omega arith
length-take (suc n) (x ∷ xs) = omega (arith, length-take n xs)

module _ (digits : Digits) (disks : List FirstClassDisk) (max_entries : ℕ) where
  length-subset :
      (n : ℕ)
      → max_entries ≢ 0
      → length (subset digits disks max_entries n (stop_of digits disks max_entries n))
        ≤ max_entries
  length-subset n m = elim (Bool-cases (leb (length disks) (stop_of digits disks max_entries n))) [
    | inl last ↦
        let rest : length disks - n ≤ max_entries = ground arith in
        rw last (omega (arith, length-drop n disks))
    | inr more ↦
        let size : stop_of digits disks max_entries n + 1 - n ≤ max_entries = ground arith in
        rw more
          (omega (arith, length-take (stop_of digits disks max_entries n + 1 - n) (drop n disks)))
  ]

  page-bound :
      (n : ℕ) (p : Page)
      → max_entries ≢ 0
      → page digits disks max_entries n ≡ ok p
      → length p.entries ≤ max_entries
  unfolding page
  page-bound n p m e = elim (Bool-cases (ltb (length disks) n)) [
    | inl out ↦ absurd (ground arith)
    | inr inside ↦
        let entries : map volume_of
              (subset digits disks max_entries n (stop_of digits disks max_entries n))
            ≡ p.entries =
          ground arith in
        omega (
          arith,
          ap length entries,
          length-map volume_of
              (subset digits disks max_entries n (stop_of digits disks max_entries n)),
          length-subset n m,
        )
  ]

  -- A request for a number of entries that is not zero is answered with at most so many, whatever its
  -- token is.
  pub list_volumes-bound :
      (token : Text) (p : Page)
      → max_entries ≢ 0
      → list_volumes digits disks max_entries token ≡ ok p
      → length p.entries ≤ max_entries
  unfolding list_volumes
  list_volumes-bound token p m e = at_start (start_of digits disks max_entries token) e
    where
      at_start :
          (o : Outcome Parsed)
          → page_at digits disks max_entries o ≡ ok p
          → length p.entries ≤ max_entries
      at_start (ok (natural n)) h = page-bound n p m h
      at_start (ok negative) h = absurd (ground arith)
      at_start (err x) h = absurd (ground arith)
      at_start panic h = absurd (ground arith)
