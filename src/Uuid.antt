-- ===== src/Uuid.antt =====
-- pkg/cloudprovider/vsphere/util.go, and convertUUID of pkg/csi/service/node.go: the two formats of
-- a UUID.
pub mod Format
mod Tests
use cloud_provider_vsphere.Common.{
  ◌++◌, Text, codes, slice, to_lower, trim_prefix, Outcome, ok, ◌>>=◌, deref,
}

abbrev pub provider_prefix : Text
provider_prefix = codes "vsphere://"

-- `GetUUIDFromProviderID`
unfoldable pub get_uuid_from_provider_id : Text → Text
unfolding trim_prefix
get_uuid_from_provider_id provider_id = trim_prefix provider_id provider_prefix

-- `ConvertK8sUUIDtoNormal`; a slice out of bounds panics.
unfoldable pub convert_k8s_uuid_to_normal : Text → Outcome Text
unfolding to_lower
convert_k8s_uuid_to_normal s = do
  a ← deref (slice s 6 8)
  b ← deref (slice s 4 6)
  c ← deref (slice s 2 4)
  d ← deref (slice s 0 2)
  e ← deref (slice s 11 13)
  f ← deref (slice s 9 11)
  g ← deref (slice s 16 18)
  h ← deref (slice s 14 16)
  i ← deref (slice s 19 23)
  j ← deref (slice s 24 36)
  ok (
      to_lower (
        a
        ++ b
        ++ c
        ++ d
        ++ codes "-"
        ++ e
        ++ f
        ++ codes "-"
        ++ g
        ++ h
        ++ codes "-"
        ++ i
        ++ codes "-"
        ++ j))
