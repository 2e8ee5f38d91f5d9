-- ===== src/Volumes/Tests.antt =====
-- Three disks in pages of two.
use cloud_provider_vsphere.Common.{◌≡◌, refl, some, none, List, [], ◌∷◌, Text, codes, ok}
use cloud_provider_vsphere.Disks.{type_datastore}
use cloud_provider_vsphere.Volumes.{
  FirstClassDisk, Page, natural, Digits, volume_of, page, list_volumes,
}
use cloud_provider_vsphere.Volumes.Paging.{AreDigits}

-- Numbers written with one digit.
abbrev one_digit : Digits
one_digit = record {
  atoi = λ t. elim t [ [] ↦ none | c ∷ rest ↦ some (natural c) ];
  itoa = λ n. n ∷ [];
}

one_digit-AreDigits : AreDigits one_digit
one_digit-AreDigits = record { read_back = λ n. refl; not_empty = λ n. refl }

abbrev disk : Text → FirstClassDisk
disk id = record {
  id = id;
  name = id;
  capacity_in_mb = 1;
  host = codes "v";
  datacenter = codes "a";
  parent_type = type_datastore;
  storage_pod = [];
  datastore = codes "d";
}

abbrev disks : List FirstClassDisk
disks = disk (codes "x") ∷ disk (codes "y") ∷ disk (codes "z") ∷ []

abbrev first_page : Page
first_page = record {
  entries = volume_of (disk (codes "x")) ∷ volume_of (disk (codes "y")) ∷ [];
  next_token = 2 ∷ [];
}

first_page-listed : list_volumes one_digit disks 2 [] ≡ ok first_page
unfolding list_volumes page
first_page-listed = refl
