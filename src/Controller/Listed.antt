-- ===== src/Controller/Listed.antt =====
-- The volumes that a caller of ListVolumes gets are the disks of the datacenters that can be reached.
use mathlib.Core.List.Perm
use mathlib.Core.List.{Perm, map-append, map-map}
use cloud_provider_vsphere.Common.{
  text_less, ℕ, ◌+◌, ◌≡◌, ◌≢◌, refl, sym, ap, subst, ◌∙◌, Bool, false, some, List, [], ◌∷◌, ◌++◌,
  map, length, concat, append_assoc, Text, Map, Outcome, ok, err, panic, ◌>>=◌, arith,
}
use cloud_provider_vsphere.Inventory.{Datacenter, get_all_datacenter}
use cloud_provider_vsphere.Connections.{Instance, ConnectionManager, connect_attempts}
use cloud_provider_vsphere.Discovery.{Site}
use cloud_provider_vsphere.Disks.{FirstClassDiskInfo, Vslm}
use cloud_provider_vsphere.Disks.Datacenters.{or_skipped, get_all_first_class_disks}
use cloud_provider_vsphere.Volumes.{Volume, Digits, volume_of, follow_tokens}
use cloud_provider_vsphere.Volumes.Paging.{AreDigits, follow_tokens-all}
use cloud_provider_vsphere.Controller.Listing.{
  id_before, SortSlice, listed_disk, with_subset, datacenters_disks, listed_datacenters,
  instance_disks, with_instance, unsorted_fcds, get_all_fcds,
}

-- No element stands right after one that it has to stand before.
abbrev pub InOrder : {A : Type 0} → (A → A → Bool) → List A → Type 0
InOrder less [] = Unit {0}
InOrder less (x ∷ []) = Unit {0}
InOrder less (x ∷ y ∷ rest) = (less y x ≡ false) × InOrder less (y ∷ rest)

-- What sort.Slice promises for the order of the disks.
pub record IsSort (sort : SortSlice) : Type 0 where
  pub permutes : (l : List FirstClassDiskInfo) → Perm (sort id_before l) l
  pub in_order : (l : List FirstClassDiskInfo) → InOrder id_before (sort id_before l)

concat-append : {A : Type 0} (xs ys : List (List A)) → concat (xs ++ ys) ≡ concat xs ++ concat ys
concat-append [] ys = refl
concat-append (x ∷ xs) ys =
    ap (x ++◌) (concat-append xs ys) ∙ sym (append_assoc x (concat xs) (concat ys))

-- The order of the volumes is that of the disks.
abbrev pub later_id : Volume → Volume → Bool
later_id a b = text_less b.volume_id a.volume_id

volumes-InOrder :
    (l : List FirstClassDiskInfo)
    → InOrder id_before l
    → InOrder later_id (map (λ d. volume_of (listed_disk d)) l)
unfolding volume_of
volumes-InOrder [] h = tt
volumes-InOrder (x ∷ []) h = tt
volumes-InOrder (x ∷ y ∷ rest) h = (h.0, volumes-InOrder (y ∷ rest) h.1)

module _ (vslm : Vslm) where
  -- The disks of a datacenter, none if they cannot be listed.
  abbrev pub disks_in : Datacenter → List FirstClassDiskInfo
  disks_in dc = or_skipped (get_all_first_class_disks vslm dc)

  subset-concat :
      (o further : Outcome (List FirstClassDiskInfo)) (rest disks : List FirstClassDiskInfo)
      → ((ds : List FirstClassDiskInfo) → further ≡ ok ds → ds ≡ rest)
      → with_subset o further ≡ ok disks
      → disks ≡ or_skipped o ++ rest
  subset-concat (ok s) (ok ds) rest disks f h =
      let same : s ++ ds ≡ disks = ground arith in sym same ∙ ap (s ++◌) (f ds refl)
  subset-concat (ok s) (err e) rest disks f h = absurd (ground arith)
  subset-concat (ok s) panic rest disks f h = absurd (ground arith)
  subset-concat (err e) further rest disks f h = f disks h
  subset-concat panic further rest disks f h = absurd (ground arith)

  datacenters_disks-concat :
      (dcs : List Datacenter) (disks : List FirstClassDiskInfo)
      → datacenters_disks vslm dcs ≡ ok disks
      → disks ≡ concat (map disks_in dcs)
  datacenters_disks-concat [] disks h = ground arith
  datacenters_disks-concat (dc ∷ dcs) disks h =
      subset-concat (get_all_first_class_disks vslm dc) (datacenters_disks vslm dcs)
        (concat (map disks_in dcs)) disks (datacenters_disks-concat dcs) h

module _ (site : Site) (vslm : Vslm) where
  -- The datacenters of a vCenter, none if it is not connected or cannot tell them.
  abbrev pub datacenters_of : Text → Outcome (Unit {0}) → List Datacenter
  datacenters_of vc (ok u) = or_skipped (get_all_datacenter site.api vc)
  datacenters_of vc (err e) = []
  datacenters_of vc panic = []

  -- The datacenters of the vCenters that getAllFCDs connects to.
  unfoldable pub reached_datacenters : ℕ → Map Instance → ConnectionManager → List Datacenter
  reached_datacenters t [] cm = []
  reached_datacenters t ((vc, i) ∷ rest) cm =
      let (o, cm') = connect_attempts site.vim site.world t vc cm in
      datacenters_of vc o ++ reached_datacenters (t + 6) rest cm'

  listed-concat :
      (o : Outcome (List Datacenter)) (disks : List FirstClassDiskInfo)
      → listed_datacenters vslm o ≡ ok disks
      → disks ≡ concat (map (disks_in vslm) (or_skipped o))
  listed-concat (ok dcs) disks h = datacenters_disks-concat vslm dcs disks h
  listed-concat (err e) disks h = ground arith
  listed-concat panic disks h = absurd (ground arith)

  instance_disks-concat :
      (vc : Text) (o : Outcome (Unit {0})) (disks : List FirstClassDiskInfo)
      → instance_disks site vslm vc o ≡ ok disks
      → disks ≡ concat (map (disks_in vslm) (datacenters_of vc o))
  instance_disks-concat vc (ok u) disks h = listed-concat (get_all_datacenter site.api vc) disks h
  instance_disks-concat vc (err e) disks h = ground arith
  instance_disks-concat vc panic disks h = absurd (ground arith)

  -- One vCenter before the others.
  next-concat :
      (s further : Outcome (List FirstClassDiskInfo)) (cm later : ConnectionManager)
      (here_dcs rest_dcs : List Datacenter) (disks : List FirstClassDiskInfo)
      → ((ds : List FirstClassDiskInfo) → s ≡ ok ds → ds ≡ concat (map (disks_in vslm) here_dcs))
      → ((ds : List FirstClassDiskInfo)
          → further ≡ ok ds
          → ds ≡ concat (map (disks_in vslm) rest_dcs))
      → (with_instance site vslm s cm (further, later)).0 ≡ ok disks
      → disks ≡ concat (map (disks_in vslm) (here_dcs ++ rest_dcs))
  next-concat (ok ds) (ok es) cm later a b disks f g h =
      let same : ds ++ es ≡ disks = ground arith in
      sym same
      ∙ ap (λ l. l ++ es) (f ds refl)
      ∙ ap (concat (map (disks_in vslm) a) ++◌) (g es refl)
      ∙ sym (concat-append (map (disks_in vslm) a) (map (disks_in vslm) b))
      ∙ ap concat (sym (map-append (disks_in vslm) a b))
  next-concat (ok ds) (err e) cm later a b disks f g h = absurd (ground arith)
  next-concat (ok ds) panic cm later a b disks f g h = absurd (ground arith)
  next-concat (err e) further cm later a b disks f g h = absurd (ground arith)
  next-concat panic further cm later a b disks f g h = absurd (ground arith)

  unsorted_fcds-concat :
      (t : ℕ) (m : Map Instance) (cm : ConnectionManager) (disks : List FirstClassDiskInfo)
      → (unsorted_fcds site vslm t m cm).0 ≡ ok disks
      → disks ≡ concat (map (disks_in vslm) (reached_datacenters t m cm))
  unfolding unsorted_fcds reached_datacenters
  unsorted_fcds-concat t [] cm disks h = ground arith
  unsorted_fcds-concat t ((vc, i) ∷ rest) cm disks h =
      let o = (connect_attempts site.vim site.world t vc cm).0 in
      let cm' = (connect_attempts site.vim site.world t vc cm).1 in
      next-concat (instance_disks site vslm vc o) (unsorted_fcds site vslm (t + 6) rest cm').0 cm'
        (unsorted_fcds site vslm (t + 6) rest cm').1 (datacenters_of vc o)
        (reached_datacenters (t + 6) rest cm') disks (instance_disks-concat vc o)
        (unsorted_fcds-concat (t + 6) rest cm') h

  -- The volumes of the disks of the datacenters that are reached.
  abbrev pub reached_volumes : ℕ → ConnectionManager → List Volume
  reached_volumes t cm =
      map (λ d. volume_of (listed_disk d))
        (concat (map (disks_in vslm) (reached_datacenters t cm.instances cm)))

  sorted-Perm :
      (sort : SortSlice) (t : ℕ) (cm : ConnectionManager) (disks : List FirstClassDiskInfo)
      (o : Outcome (List FirstClassDiskInfo))
      → IsSort sort
      → (unsorted_fcds site vslm t cm.instances cm).0 ≡ o
      → (o >>= (λ l. ok (sort id_before l))) ≡ ok disks
      → Perm (map (λ d. volume_of (listed_disk d)) disks) (reached_volumes t cm)
        × InOrder id_before disks
  sorted-Perm sort t cm disks (ok l) s u h =
      let same : sort id_before l ≡ disks = ground arith in
      let all : l ≡ concat (map (disks_in vslm) (reached_datacenters t cm.instances cm)) =
        unsorted_fcds-concat t cm.instances cm l u in
      (
        Perm.map (λ d. volume_of (listed_disk d))
            (subst
              (λ x. Perm x (concat (map (disks_in vslm) (reached_datacenters t cm.instances cm))))
              same (subst (Perm (sort id_before l)) all (s.permutes l))),
        subst (InOrder id_before) same (s.in_order l),
      )
  sorted-Perm sort t cm disks (err e) s u h = absurd (ground arith)
  sorted-Perm sort t cm disks panic s u h = absurd (ground arith)

  -- A caller that starts without a token and follows the tokens, while getAllFCDs returns the same
  -- disks, gets the volumes of the disks of all datacenters of all vCenters that can be connected to,
  -- each as often as it is listed, none of them left out, with their identifiers in descending order.
  -- A datacenter whose disks cannot be listed gives none. The caller asks for a number of entries that
  -- is not zero, and may make two requests more than there are disks.
  pub get_all_fcds-follow_tokens :
      (digits : Digits) (sort : SortSlice) (max_entries t : ℕ) (cm cm' : ConnectionManager)
      (disks : List FirstClassDiskInfo)
      → AreDigits digits
      → IsSort sort
      → max_entries ≢ 0
      → get_all_fcds site vslm sort t cm ≡ (ok disks, cm')
      → (volumes : List Volume) × (follow_tokens digits
            (map listed_disk disks)
            max_entries
            (length (map listed_disk disks) + 2)
            []
          ≡ some volumes)
        × Perm volumes (reached_volumes t cm)
        × InOrder later_id volumes
  unfolding get_all_fcds
  get_all_fcds-follow_tokens digits sort max_entries t cm cm' disks d s m h =
      let (all, ordered) =
        sorted-Perm sort t cm disks (unsorted_fcds site vslm t cm.instances cm).0 s refl
          (ap (λ p. p.0) h) in
      (
        map (λ x. volume_of (listed_disk x)) disks,
        follow_tokens-all digits d (map listed_disk disks) max_entries m
            ∙ ap some (map-map volume_of listed_disk disks),
        all,
        volumes-InOrder disks ordered,
      )
