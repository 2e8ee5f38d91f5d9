-- ===== src/Mounts/Staged.antt =====
-- Staging a volume twice.
use cloud_provider_vsphere.Common.{
  false, ◌++◌, codes, Member, ◌≡◌, ap, Option, none, some, List, [], ◌∷◌, Text, arith,
}
use cloud_provider_vsphere.Mounts.{answered, Mount, System, MountVolume, is_reader_only}
use cloud_provider_vsphere.Mounts.Stage.{StageRequest, on_mounted}
use cloud_provider_vsphere.Mounts.Identified.{SameFiles}

module _ {S : Type 0} (system : System S) where
  -- The device is mounted once, at the target and with the mode.
  pub record IsMountedAt (real target mode : Text) (s : S) : Type 0 where
    pub only : Mount
    pub listed : system.get_dev_mounts real s ≡ some (only ∷ [])
    pub at_target : only.path ≡ target
    pub has_mode : Member mode only.opts

  -- What a call that mounts leaves if it succeeds: the device, which was not mounted, is in the mount
  -- table, for reading only if that is the last option and for writing if it is not among them, and the
  -- files under /dev and the target stay.
  abbrev pub MountsWith : (Text → Text → Text → List Text → S → Option (Unit {0}) × S) → Type 0
  MountsWith call =
      (path real target fs : Text) (flags : List Text) (s s' : S)
      → system.eval_symlinks path s ≡ some real
      → system.get_dev_mounts real s ≡ some []
      → call path target fs flags s ≡ (some tt, s')
      → SameFiles system s s'
        × ((options : List Text)
            → flags ≡ options ++ codes "ro" ∷ []
            → IsMountedAt real target (codes "ro") s')
        × (¬ Member (codes "ro") flags → IsMountedAt real target (codes "rw") s')

  -- Mount and FormatAndMount of gofsutil.
  pub record MountsDevices : Type 0 where
    pub mounts : MountsWith system.mount
    pub formats : MountsWith system.format_and_mount

module _ {S : Type 0} (system : System S) (api : Text) where
  pub mounted-ok :
      (r : Option (Unit {0}) × S) (s' : S)
      → on_mounted system api r ≡ (answered tt, s')
      → r ≡ (some tt, s')
  mounted-ok (some tt, s₁) s' h = ap (λ p. (some tt, p.1)) h
  mounted-ok (none, s₁) s' h = absurd (ground (arith, ap (λ p. p.0) h))

  -- A request that writes does not ask for a mount for reading only.
  abbrev pub AsksConsistently : StageRequest → Type 0
  AsksConsistently req =
      (volume : MountVolume)
      → req.capability ≡ some volume
      → is_reader_only req.access_mode ≡ false
      → ¬ Member (codes "ro") volume.mount_flags
