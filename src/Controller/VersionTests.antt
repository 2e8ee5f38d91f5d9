-- ===== src/Controller/VersionTests.antt =====
-- A vCenter of version 6.7, and one that is too old.
use cloud_provider_vsphere.Common.{
  ◌-◌, ◌≡◌, refl, none, some, [], ◌∷◌, Text, codes, split, lookup, ok,
}
use cloud_provider_vsphere.Connections.{VimClient, ConnectionManager, connect}
use cloud_provider_vsphere.Discovery.Tests.{discovering, site, one_vc}
use cloud_provider_vsphere.Volumes.{natural, Digits}
use cloud_provider_vsphere.Controller.Versions.{
  unsupported, check_api, api_version, check_versions, AllSupported, check_versions-AllSupported,
}

-- Numbers of one digit.
abbrev ascii_digit : Digits
ascii_digit = record {
  atoi = λ t. elim t [ [] ↦ none | c ∷ rest ↦ some (natural (c - 48)) ];
  itoa = λ n. n ∷ [];
}

abbrev told : VimClient → Text
told c = codes "6.7.1"

unfoldable end_cm : ConnectionManager
unfolding discovering check_versions api_version check_api connect lookup split
end_cm = (check_versions site.vim site.world told ascii_digit 0 one_vc.instances one_vc).1

one_vc-checked :
    check_versions site.vim site.world told ascii_digit 0 one_vc.instances one_vc ≡ (ok tt, end_cm)
unfolding discovering check_versions api_version check_api connect lookup split end_cm
one_vc-checked = refl

check_versions-AllSupported_example :
    AllSupported site.vim site.world told ascii_digit 0 one_vc.instances one_vc end_cm
check_versions-AllSupported_example =
    check_versions-AllSupported site.vim site.world told ascii_digit 0 one_vc.instances one_vc
      end_cm one_vc-checked

too_old : check_api ascii_digit (codes "6.0") ≡ unsupported
unfolding check_api split
too_old = refl
