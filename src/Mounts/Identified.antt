-- ===== src/Mounts/Identified.antt =====
-- The device and the volume that NodeStageVolume of pkg/csi/service/node.go reads of a request.
use cloud_provider_vsphere.Common.{
  sym, false, ◌≡◌, refl, ap, ap₂, ◌∙◌, true, Option, none, some, Text, is_empty, if◌then◌else◌,
  arith,
}
use cloud_provider_vsphere.Mounts.{
  Stat, missing, unreadable, found, invalid_argument, internal, Answer, answered, refused, ◌>>=◌,
  System, Device, MountVolume, or_code, get_disk_id, ensure_mount_vol, device_named, device_at,
  get_device, verify_volume_attached, dir_of, path_of, verify_target_dir,
}
use cloud_provider_vsphere.Mounts.Stage.{StageRequest, identify}
use cloud_provider_vsphere.Mounts.Options.{both}

module _ {S : Type 0} (system : System S) where
  -- The devices and directories are the same in two states.
  pub record SameFiles (s s' : S) : Type 0 where
    pub lstat : (path : Text) → system.lstat path s' ≡ system.lstat path s
    pub eval_symlinks : (path : Text) → system.eval_symlinks path s' ≡ system.eval_symlinks path s
    pub stat : (path : Text) → system.stat path s' ≡ system.stat path s
    pub read_dir : system.read_dir s' ≡ system.read_dir s

module _ {S : Type 0} (system : System S) (api : Text) where
  module _ (s s' : S) (same : SameFiles system s s') where
    named-same :
        (path : Text) (name real : Option Text)
        → device_named system path name real s' ≡ device_named system path name real s
    named-same path none real = refl
    named-same path (some name) none = refl
    named-same path (some name) (some real) =
        ap (λ st. device_at system path name real st) (same.stat real)

    get_device-same : (path : Text) → get_device system path s' ≡ get_device system path s
    unfolding get_device
    get_device-same path =
        ap₂ (λ name real. device_named system path name real s') (same.lstat path)
          (same.eval_symlinks path)
        ∙ named-same path (system.lstat path s) (system.eval_symlinks path s)

    attached-same :
        (id : Text) → verify_volume_attached system id s' ≡ verify_volume_attached system id s
    unfolding verify_volume_attached
    attached-same id =
        ap (λ o. or_code internal o >>= (λ names. path_of system id names)) same.read_dir

    dir-same :
        (target : Text) → verify_target_dir system target s' ≡ verify_target_dir system target s
    unfolding verify_target_dir
    dir-same target =
        ap (λ st. if is_empty target then refused invalid_argument else dir_of system st)
          (same.stat target)

    pub identify-same :
        (req : StageRequest) → identify system api req s' ≡ identify system api req s
    unfolding identify
    identify-same req = with_id (get_disk_id api req.volume_id req.publish_context)
      where
        after : (path : Text) → Answer (Unit {0}) → Option Device → Answer (Device × MountVolume)
        after path dir dev = or_code internal dev >>= (λ d.
            dir >>= (λ u. ensure_mount_vol req.capability >>= (λ volume. answered (d, volume))))

        with_path :
            (o : Answer Text)
            → (o >>= (λ path.
                after path
                  (verify_target_dir system req.staging_target s')
                  (get_device system path s')))
              ≡ (o >>= (λ path.
                  after path
                    (verify_target_dir system req.staging_target s)
                    (get_device system path s)))
        with_path (refused c) = refl
        with_path (answered path) =
            ap₂ (λ dir dev. after path dir dev) (dir-same req.staging_target) (get_device-same path)

        with_id :
            (o : Answer Text)
            → (o >>= (λ id. verify_volume_attached system id s' >>= (λ path.
                after path
                  (verify_target_dir system req.staging_target s')
                  (get_device system path s'))))
              ≡ (o >>= (λ id. verify_volume_attached system id s >>= (λ path.
                  after path
                    (verify_target_dir system req.staging_target s)
                    (get_device system path s))))
        with_id (refused c) = refl
        with_id (answered id) =
            ap
              (λ o. o >>= (λ path.
                after path (verify_target_dir system req.staging_target s')
                  (get_device system path s')))
              (attached-same id)
            ∙ with_path (verify_volume_attached system id s)

  -- The device that getDevice returns is the one that the path leads to.
  device_at-real :
      (path name real : Text) (st : Stat) (dev : Device)
      → device_at system path name real st ≡ some dev
      → (dev.full_path ≡ path) × (dev.real_dev ≡ real)
  device_at-real path name real missing dev h = absurd (ground arith)
  device_at-real path name real unreadable dev h = absurd (ground arith)
  device_at-real path name real (found is_dir true) dev h =
      let same : record { full_path = path; name = name; real_dev = real } ≡ dev = ground arith in
      (ap (λ (d : Device). d.full_path) (sym same), ap (λ (d : Device). d.real_dev) (sym same))
  device_at-real path name real (found is_dir false) dev h = absurd (ground arith)

  device_named-real :
      (path : Text) (name real : Option Text) (s : S) (dev : Device)
      → system.eval_symlinks path s ≡ real
      → device_named system path name real s ≡ some dev
      → system.eval_symlinks dev.full_path s ≡ some dev.real_dev
  device_named-real path none real s dev e h = absurd (ground arith)
  device_named-real path (some name) none s dev e h = absurd (ground arith)
  device_named-real path (some name) (some real) s dev e h =
      let (at, is_real) = device_at-real path name real (system.stat real s) dev h in
      ap (λ x. system.eval_symlinks x s) at ∙ e ∙ ap some (sym is_real)

  -- What is known of a device and a volume that were identified.
  abbrev pub IsIdentified : StageRequest → S → Device → MountVolume → Type 0
  IsIdentified req s dev volume =
      (system.eval_symlinks dev.full_path s ≡ some dev.real_dev) × (req.capability ≡ some volume)

  pub identify-IsIdentified :
      (req : StageRequest) (s : S) (dev : Device) (volume : MountVolume)
      → identify system api req s ≡ answered (dev, volume)
      → IsIdentified req s dev volume
  unfolding identify ensure_mount_vol get_device
  identify-IsIdentified req s dev volume h =
      with_id (get_disk_id api req.volume_id req.publish_context) h
    where
      with_volume :
          (d : Device) (c : Option MountVolume)
          → (ensure_mount_vol c >>= (λ v. both d v)) ≡ answered (dev, volume)
          → (d ≡ dev) × (c ≡ some volume)
      with_volume d none k = absurd (ground arith)
      with_volume d (some v) k =
          let same : ◌≡◌ {A = Device × MountVolume} (d, v) (dev, volume) = ground arith in
          (ap (λ p. p.0) same, ap (λ p. some p.1) same)

      with_dir :
          (d : Device) (u : Answer (Unit {0}))
          → (u >>= (λ x. ensure_mount_vol req.capability >>= (λ v. both d v)))
            ≡ answered (dev, volume)
          → (d ≡ dev) × (req.capability ≡ some volume)
      with_dir d (refused c) k = absurd (ground arith)
      with_dir d (answered x) k = with_volume d req.capability k

      with_dev :
          (path : Text) (o : Option Device)
          → get_device system path s ≡ o
          → (or_code internal o >>= (λ d.
              verify_target_dir system req.staging_target s
              >>= (λ x. ensure_mount_vol req.capability >>= (λ v. both d v))))
            ≡ answered (dev, volume)
          → IsIdentified req s dev volume
      with_dev path none e k = absurd (ground arith)
      with_dev path (some d) e k =
          let (same, asked) = with_dir d (verify_target_dir system req.staging_target s) k in
          (
            device_named-real path (system.lstat path s) (system.eval_symlinks path s) s dev refl
                (e ∙ ap some same),
            asked,
          )

      with_path :
          (o : Answer Text)
          → (o >>= (λ path. or_code internal (get_device system path s) >>= (λ d.
              verify_target_dir system req.staging_target s
              >>= (λ x. ensure_mount_vol req.capability >>= (λ v. both d v)))))
            ≡ answered (dev, volume)
          → IsIdentified req s dev volume
      with_path (refused c) k = absurd (ground arith)
      with_path (answered path) k = with_dev path (get_device system path s) refl k

      with_id :
          (o : Answer Text)
          → (o >>= (λ id. verify_volume_attached system id s >>= (λ path.
              or_code internal (get_device system path s) >>= (λ d.
                verify_target_dir system req.staging_target s
                >>= (λ x. ensure_mount_vol req.capability >>= (λ v. both d v))))))
            ≡ answered (dev, volume)
          → IsIdentified req s dev volume
      with_id (refused c) k = absurd (ground arith)
      with_id (answered id) k = with_path (verify_volume_attached system id s) k
