-- ===== src/Controller/ListingTests.antt =====
-- A vCenter with one datacenter of two disks, whose list is sorted by insertion.
use mathlib.Core.List.{Perm}
use cloud_provider_vsphere.Common.Sorts.{put, sorted, sorted-Perm}
use cloud_provider_vsphere.Common.{
  text_less, ◌+◌, ◌≡◌, refl, Bool, true, false, none, some, List, [], ◌∷◌, map, length, Text, ok,
  if◌then◌else◌, arith,
}
use cloud_provider_vsphere.Inventory.{get_all_datacenter}
use cloud_provider_vsphere.Connections.{ConnectionManager}
use cloud_provider_vsphere.Discovery.{Site}
use cloud_provider_vsphere.Discovery.Tests.{discovering, dc_b, site, one_vc}
use cloud_provider_vsphere.Disks.{FirstClassDiskInfo}
use cloud_provider_vsphere.Disks.Samples.{looking_up, vslm, two_disks, disk_x, disk_y}
use cloud_provider_vsphere.Volumes.{Volume, natural, Digits, follow_tokens}
use cloud_provider_vsphere.Volumes.Paging.{AreDigits}
use cloud_provider_vsphere.Controller.Listing.{id_before, listed_disk, unsorted_fcds, get_all_fcds}
use cloud_provider_vsphere.Controller.Listed.{
  InOrder, IsSort, later_id, reached_volumes, get_all_fcds-follow_tokens,
}

text_less-not : (a b : Text) → text_less a b ≡ true → text_less b a ≡ false
text_less-not [] [] h = refl
text_less-not [] (y ∷ ys) h = refl
text_less-not (x ∷ xs) [] h = absurd (ground arith)
text_less-not (x ∷ xs) (y ∷ ys) h = let tail = text_less-not xs ys in ground arith

InOrder-tail :
    (y : FirstClassDiskInfo) (ys : List FirstClassDiskInfo)
    → InOrder id_before (y ∷ ys)
    → InOrder id_before ys
InOrder-tail y [] h = tt
InOrder-tail y (z ∷ zs) h = h.1

-- An element that stays behind the first one.
InOrder-behind :
    (x y : FirstClassDiskInfo) (ys : List FirstClassDiskInfo)
    → id_before x y ≡ false
    → InOrder id_before (y ∷ ys)
    → InOrder id_before (put id_before x ys)
    → InOrder id_before (y ∷ put id_before x ys)
InOrder-behind x y [] e h k = (e, tt)
InOrder-behind x y (z ∷ zs) e h k = split (id_before z x) k
  where
    split :
        (b : Bool)
        → InOrder id_before (if b then z ∷ put id_before x zs else x ∷ z ∷ zs)
        → InOrder id_before (y ∷ (if b then z ∷ put id_before x zs else x ∷ z ∷ zs))
    split true k' = (h.0, k')
    split false k' = (e, k')

put-InOrder :
    (x : FirstClassDiskInfo) (l : List FirstClassDiskInfo)
    → InOrder id_before l
    → InOrder id_before (put id_before x l)
put-InOrder x [] h = tt
put-InOrder x (y ∷ ys) h = placed (id_before y x) refl (λ e.
    InOrder-behind x y ys (text_less-not x.disk.object.id y.disk.object.id e) h
      (put-InOrder x ys (InOrder-tail y ys h)))
  where
    placed :
        (b : Bool)
        → id_before y x ≡ b
        → (id_before y x ≡ true → InOrder id_before (y ∷ put id_before x ys))
        → InOrder id_before (if b then y ∷ put id_before x ys else x ∷ y ∷ ys)
    placed true e f = f e
    placed false e f = (e, h)

sorted-InOrder : (l : List FirstClassDiskInfo) → InOrder id_before (sorted id_before l)
sorted-InOrder [] = tt
sorted-InOrder (x ∷ xs) = put-InOrder x (sorted id_before xs) (sorted-InOrder xs)

sorted-IsSort : IsSort (λ less l. sorted less l)
sorted-IsSort = record { permutes = sorted-Perm id_before; in_order = sorted-InOrder }

abbrev with_b : Site
with_b = record {
  vim = site.vim;
  world = site.world;
  api = record site.api { datacenter_list = λ vc. ok (dc_b ∷ []) };
}

abbrev one_code : Digits
one_code = record {
  atoi = λ t. elim t [ [] ↦ none | c ∷ rest ↦ some (natural c) ];
  itoa = λ n. n ∷ [];
}

one_code-AreDigits : AreDigits one_code
one_code-AreDigits = record { read_back = λ n. refl; not_empty = λ n. refl }

abbrev found : List FirstClassDiskInfo
found = disk_y ∷ disk_x ∷ []

unfoldable end_cm : ConnectionManager
unfolding discovering looking_up get_all_fcds unsorted_fcds get_all_datacenter
end_cm = (get_all_fcds with_b (vslm false two_disks) sorted 0 one_vc).1

both-found : get_all_fcds with_b (vslm false two_disks) sorted 0 one_vc ≡ (ok found, end_cm)
unfolding discovering looking_up get_all_fcds unsorted_fcds get_all_datacenter end_cm
both-found = refl

get_all_fcds-follow_tokens_example :
    (volumes : List Volume) × (follow_tokens one_code
        (map listed_disk found)
        1
        (length (map listed_disk found) + 2)
        []
      ≡ some volumes)
    × Perm volumes (reached_volumes with_b (vslm false two_disks) 0 one_vc)
    × InOrder later_id volumes
get_all_fcds-follow_tokens_example =
    get_all_fcds-follow_tokens with_b (vslm false two_disks) one_code sorted 1 0 one_vc end_cm found
      one_code-AreDigits sorted-IsSort (omega arith) both-found
