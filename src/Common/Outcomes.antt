-- ===== src/Common/Outcomes.antt =====
-- The result of a Go function: a value, an error value, or a panic.
use mathlib.Core.Bool.{Bool, true, false}
use mathlib.Core.Option.{Option, none, some}
use cloud_provider_vsphere.Common.Texts.{Text}

-- The errors that the code declares, and `foreign` for those of other packages and of fmt.Errorf.
pub data Error : Type 0 where
  no_vm_found no_disk_id_found no_zone_region_found no_datastore_clusters_found : Error
  connection_not_found must_have_at_least_one_vcdc unsupported_configuration : Error
  multi_vc_requires_zones : Error
  vcenter_not_found datacenter_not_found vm_not_found node_not_found : Error
  credentials_not_found credential_missing unknown_secret_key : Error
  username_missing password_missing invalid_vcenter_ip missing_vcenter : Error
  foreign : Text → Error

pub data Outcome {ℓ} (A : Type ℓ) : Type ℓ where
  ok : A → Outcome A
  err : Error → Outcome A
  panic : Outcome A

infixl 5 ◌>>=◌
abbrev pub ◌>>=◌ {ℓ κ} : {A : Type ℓ} {B : Type κ} → Outcome A → (A → Outcome B) → Outcome B
ok a >>= f = f a
err e >>= f = err e
panic >>= f = panic

-- A dereference that panics on nil.
abbrev pub deref {ℓ} : {A : Type ℓ} → Option A → Outcome A
deref none = panic
deref (some a) = ok a

abbrev pub is_ok {ℓ} : {A : Type ℓ} → Outcome A → Bool
is_ok (ok _) = true
is_ok _ = false
