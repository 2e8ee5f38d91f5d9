-- ===== src/Volumes/Paging.antt =====
-- A caller that follows the tokens of ListVolumes gets every disk once.
use mathlib.Core.List.{map-append}
use cloud_provider_vsphere.Common.{
  ℕ, zero, suc, ◌+◌, ◌-◌, ◌≤◌, ◌<◌, ◌≡◌, ◌≢◌, refl, sym, ap, ◌∙◌, inl, inr, true, false, Bool-cases,
  ltb, leb, Option, none, some, List, [], ◌∷◌, ◌++◌, map, length, take, drop, take-append-drop,
  Text, codes, foreign, is_empty, ok, err, if◌then◌else◌, arith,
}
use cloud_provider_vsphere.Volumes.{
  FirstClassDisk, Volume, Page, natural, Digits, volume_of, on_token, start_of, stop_of, subset,
  page, page_at, list_volumes, and_pages, follow_tokens,
}

-- The digits of a number are read back, and are not empty.
pub record AreDigits (digits : Digits) : Type 0 where
  pub read_back : (n : ℕ) → digits.atoi (digits.itoa n) ≡ some (natural n)
  pub not_empty : (n : ℕ) → is_empty (digits.itoa n) ≡ false

drop-drop : {A : Type 0} (a n : ℕ) (xs : List A) → drop a (drop n xs) ≡ drop (n + a) xs
drop-drop a zero xs = let e : a ≡ zero + a = omega arith in ap (λ k. drop k xs) e
drop-drop zero (suc n) [] = let e : suc n ≡ suc n + zero = omega arith in ap (λ k. drop k []) e
drop-drop (suc a) (suc n) [] =
    let e : suc (n + suc a) ≡ suc n + suc a = omega arith in ap (λ k. drop k []) e
drop-drop a (suc n) (x ∷ xs) =
    let e : suc (n + a) ≡ suc n + a = omega arith in drop-drop a n xs ∙ ap (λ k. drop k (x ∷ xs)) e

-- A page and what follows it.
pages-last :
    (digits : Digits) (disks : List FirstClassDisk) (m : ℕ) (p : Page)
    (f : Text → Option (List Volume))
    → is_empty p.next_token ≡ true
    → and_pages digits disks m (ok p) f ≡ some p.entries
pages-last digits disks m p f e =
    ap
      (λ b.
        if b
        then some p.entries
        else (elim (f p.next_token) [ none ↦ none | some rest ↦ some (p.entries ++ rest) ]))
      e

pages-next :
    (digits : Digits) (disks : List FirstClassDisk) (m : ℕ) (p : Page)
    (f : Text → Option (List Volume)) (rest : List Volume)
    → is_empty p.next_token ≡ false
    → f p.next_token ≡ some rest
    → and_pages digits disks m (ok p) f ≡ some (p.entries ++ rest)
pages-next digits disks m p f rest e h =
    ap
      (λ b.
        if b
        then some p.entries
        else (elim (f p.next_token) [ none ↦ none | some r ↦ some (p.entries ++ r) ]))
      e
    ∙ ap
        (λ (o : Option (List Volume)).
          (let q : Option (List Volume) = elim o [ none ↦ none | some r ↦ some (p.entries ++ r) ] in
            q))
        h

module _ (digits : Digits) (d : AreDigits digits) (disks : List FirstClassDisk)
    (max_entries : ℕ) where
  start-itoa : (n : ℕ) → start_of digits disks max_entries (digits.itoa n) ≡ ok (natural n)
  start-itoa n =
      ap
        (λ b.
          if b
          then ok (natural 0)
          else on_token digits disks max_entries (digits.atoi (digits.itoa n)))
        (d.not_empty n)
      ∙ ap (on_token digits disks max_entries) (d.read_back n)

  -- The page from a disk of the list.
  page_of : ℕ → ℕ → Page
  page_of start stop = record {
    entries = map volume_of (subset digits disks max_entries start stop);
    next_token = if ltb stop (length disks) then digits.itoa (stop + 1) else [];
  }

  page-in :
      (n : ℕ)
      → n ≤ length disks
      → page digits disks max_entries n ≡ ok (page_of n (stop_of digits disks max_entries n))
  unfolding page page_of
  page-in n h =
      ap
        (λ b.
          if b
          then err (foreign (codes "Invalid start token"))
          else ok (page_of n (stop_of digits disks max_entries n)))
        (in_list n h)
    where
      in_list : (n : ℕ) → n ≤ length disks → ltb (length disks) n ≡ false
      in_list n h = ground arith

  stop-after :
      (n : ℕ)
      → max_entries ≢ 0
      → ltb (stop_of digits disks max_entries n) (length disks) ≡ true
      → (n ≤ stop_of digits disks max_entries n)
        × (stop_of digits disks max_entries n < length disks)
  stop-after n m h = ground arith

  -- The disks of a page, and those after it.
  page-rest :
      (n stop : ℕ)
      → n ≤ stop
      → ltb stop (length disks) ≡ true
      → map volume_of (subset digits disks max_entries n stop)
          ++ map volume_of (drop (stop + 1) disks)
        ≡ map volume_of (drop n disks)
  page-rest n stop h k =
      let inner : leb (length disks) stop ≡ false = ground arith in
      let step : n + (stop + 1 - n) ≡ stop + 1 = omega arith in
      ap
        (λ b.
          map volume_of (if b then drop n disks else take (stop + 1 - n) (drop n disks))
          ++ map volume_of (drop (stop + 1) disks))
        inner
      ∙ ap (λ r. map volume_of (take (stop + 1 - n) (drop n disks)) ++ map volume_of r)
          (sym (drop-drop (stop + 1 - n) n disks ∙ ap (λ i. drop i disks) step))
      ∙ sym (
          map-append volume_of (take (stop + 1 - n) (drop n disks))
            (drop (stop + 1 - n) (drop n disks)))
      ∙ ap (map volume_of) (take-append-drop (stop + 1 - n) (drop n disks))

  follow-from :
      (k n : ℕ) (token : Text)
      → max_entries ≢ 0
      → n ≤ length disks
      → length disks - n < k
      → start_of digits disks max_entries token ≡ ok (natural n)
      → follow_tokens digits disks max_entries k token ≡ some (map volume_of (drop n disks))
  unfolding follow_tokens list_volumes page_of
  follow-from zero n token m h k e = absurd (omega arith)
  follow-from (suc k) n token m h l e =
      let stop = stop_of digits disks max_entries n in
      let f : Text → Option (List Volume) = λ t. follow_tokens digits disks max_entries k t in
      ap (λ o. and_pages digits disks max_entries o f)
        (ap (page_at digits disks max_entries) e ∙ page-in n h)
      ∙ (elim (Bool-cases (ltb stop (length disks))) [
        | inl more ↦
            let (after, before) = stop-after n m more in
            let next : (page_of n stop).next_token ≡ digits.itoa (stop + 1) =
              ap (λ b. if b then digits.itoa (stop + 1) else []) more in
            pages-next digits disks max_entries (page_of n stop) f
              (map volume_of (drop (stop + 1) disks)) (ap is_empty next ∙ d.not_empty (stop + 1))
              (ap f next
                ∙ follow-from k (stop + 1) (digits.itoa (stop + 1)) m (omega arith) (omega arith)
                    (start-itoa (stop + 1)))
            ∙ ap some (page-rest n stop after more)
        | inr last ↦
            let outside : leb (length disks) stop ≡ true = ground arith in
            pages-last digits disks max_entries (page_of n stop) f
              (ap (λ b. is_empty (if b then digits.itoa (stop + 1) else [])) last)
            ∙ ap
                (λ b.
                  some (
                    map volume_of (if b then drop n disks else take (stop + 1 - n) (drop n disks))))
                outside
      ])

  -- A caller that starts without a token and follows the tokens gets the volumes of all disks, each
  -- once and in order, if it asks for a number of entries that is not zero and may make two requests
  -- more than there are disks.
  pub follow_tokens-all :
      max_entries ≢ 0
      → follow_tokens digits disks max_entries (length disks + 2) [] ≡ some (map volume_of disks)
  follow_tokens-all m = follow-from (length disks + 2) 0 [] m (omega arith) (omega arith) refl
