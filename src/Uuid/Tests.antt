-- ===== src/Uuid/Tests.antt =====
-- The UUID of the comment above ConvertK8sUUIDtoNormal.
use cloud_provider_vsphere.Common.{◌≡◌, refl, Text, codes, to_lower, ok}
use cloud_provider_vsphere.Uuid.{convert_k8s_uuid_to_normal}
use cloud_provider_vsphere.Uuid.Format.{IsUuid, convert_k8s_uuid_to_normal-twice}

abbrev k8s_id : Text
k8s_id = codes "56492e42-22ad-3911-6d72-59cc8f26bc90"

vmware_id : convert_k8s_uuid_to_normal k8s_id ≡ ok (codes "422e4956-ad22-1139-6d72-59cc8f26bc90")
unfolding convert_k8s_uuid_to_normal to_lower
vmware_id = refl

k8s_id-IsUuid : IsUuid k8s_id
k8s_id-IsUuid = record {
  long = refl;
  dash_8 = refl;
  dash_13 = refl;
  dash_18 = refl;
  dash_23 = refl;
}

convert_k8s_uuid_to_normal-twice_example :
    (u : Text) × (convert_k8s_uuid_to_normal k8s_id ≡ ok u)
    × (convert_k8s_uuid_to_normal u ≡ ok (to_lower k8s_id))
convert_k8s_uuid_to_normal-twice_example = convert_k8s_uuid_to_normal-twice k8s_id k8s_id-IsUuid
