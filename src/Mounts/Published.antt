-- ===== src/Mounts/Published.antt =====
-- What a volume that was published needs.
use cloud_provider_vsphere.Common.{
  ◌≡◌, ◌≢◌, refl, sym, ap, ◌∙◌, ◌⊎◌, inl, inr, Bool, true, false, Option, none, some, List, [], ◌∷◌,
  length, Text, All, if◌then◌else◌, arith,
}
use cloud_provider_vsphere.Mounts as Node
use cloud_provider_vsphere.Mounts.{
  internal, already_exists, Answer, answered, refused, ◌>>=◌, Stat, missing, unreadable, found,
  Mount, System, Device, MountVolume, or_code, contains, ensure_mount_vol, mode_text, get_device,
  verify_target_dir, make_dir, get_dev_mounts,
}
use cloud_provider_vsphere.Mounts.Staged.{mounted-ok}
use cloud_provider_vsphere.Mounts.Options.{both, mode_name}
use cloud_provider_vsphere.Mounts.Publish.{
  PublishRequest, published_as, with_mode, bind_to, or_bind, publish_mounts, staged, publish_staged,
  on_made, publish_at, attached_path, node_publish_volume,
}
use cloud_provider_vsphere.Mounts.Table.{
  IsFirstAt, published_as-IsFirstAt, published_as-none, HasOptions, with_mode-HasOptions,
}

module _ {S : Type 0} (system : System S) (api : Text) (req : PublishRequest) where
  -- The volume is mounted at the target: it was before, or the staging path is bound to it.
  abbrev pub IsAtTarget : MountVolume → List Mount → S → S → Type 0
  IsAtTarget volume mounts s s' =
      (IsFirstAt req.target (mode_name req.readonly) mounts × (s' ≡ s))
      ⊎ ((flags : List Text) × HasOptions req.readonly volume.mount_flags flags
          × (system.bind_mount req.staging_target req.target flags s ≡ (some tt, s'))
          × ((length mounts ≡ 1) ⊎ All (λ m. m.path ≢ req.target) mounts))

  -- The target is a directory that was there, or was made.
  abbrev pub WasMade : S → S → Type 0
  WasMade s made =
      ((is_device : Bool) × (system.stat req.target s ≡ found true is_device) × (made ≡ s))
      ⊎ ((system.stat req.target s ≡ missing) × (system.mkdir req.target s ≡ (some tt, made)))

  -- The volume is attached and staged, and was mounted at the target before or is bound there.
  pub record IsPublished (s s' : S) : Type 0 where
    pub path : Text
    pub made : S
    pub dev : Device
    pub volume : MountVolume
    pub mounts : List Mount
    pub attached : attached_path system api req s ≡ answered path
    pub has_target : WasMade s made
    pub is_device : get_device system path made ≡ some dev
    pub asked : req.capability ≡ some volume
    pub listed : get_dev_mounts system dev made ≡ some mounts
    pub mounted : mounts ≢ []
    pub at_target : IsAtTarget volume mounts made s'

  bind-IsAtTarget :
      (volume : MountVolume) (mounts : List Mount) (s s' : S)
      → (length mounts ≡ 1) ⊎ All (λ m. m.path ≢ req.target) mounts
      → bind_to system api req volume s ≡ (answered tt, s')
      → IsAtTarget volume mounts s s'
  bind-IsAtTarget volume mounts s s' n h = inr (
    with_mode req.readonly volume.mount_flags,
    with_mode-HasOptions req.readonly volume.mount_flags,
    mounted-ok system api _ s' h,
    n,
  )

  or_bind-ok :
      (volume : MountVolume) (mounts : List Mount) (s s' : S) (o : Option (Answer (Unit {0})))
      → published_as req.target req.readonly mounts ≡ o
      → or_bind system api req volume o s ≡ (answered tt, s')
      → IsAtTarget volume mounts s s'
  or_bind-ok volume mounts s s' (some a) e h = inl (
    published_as-IsFirstAt req.target req.readonly mounts (e ∙ ap (λ p. some p.0) h),
    sym (ap (λ p. p.1) h),
  )
  or_bind-ok volume mounts s s' none e h =
      bind-IsAtTarget volume mounts s s' (inr (published_as-none req.target req.readonly mounts e))
        h

  mounts-ok :
      (volume : MountVolume) (mounts : List Mount) (s s' : S)
      → publish_mounts system api req volume mounts s ≡ (answered tt, s')
      → (mounts ≢ []) × IsAtTarget volume mounts s s'
  mounts-ok volume [] s s' h = absurd (ground (arith, ap (λ p. p.0) h))
  mounts-ok volume (m ∷ []) s s' h =
      ((λ e. absurd (ground arith)), bind-IsAtTarget volume (m ∷ []) s s' (inl refl) h)
  mounts-ok volume (m ∷ n ∷ ms) s s' h = (
    (λ e. absurd (ground arith)),
    or_bind-ok volume (m ∷ n ∷ ms) s s' (published_as req.target req.readonly (m ∷ n ∷ ms)) refl h,
  )

  make_dir-WasMade : (s made : S) → make_dir system req.target s ≡ (some tt, made) → WasMade s made
  unfolding make_dir
  make_dir-WasMade s made h = on_stat (system.stat req.target s) refl h
    where
      dir :
          (is_dir is_device : Bool)
          → system.stat req.target s ≡ found is_dir is_device
          → ◌≡◌ {A = Option (Unit {0}) × S} (if is_dir then some tt else none, s) (some tt, made)
          → WasMade s made
      dir true is_device e k = inl (is_device, e, sym (ap (λ p. p.1) k))
      dir false is_device e k = absurd (ground (arith, ap (λ p. p.0) k))

      on_stat :
          (st : Stat)
          → system.stat req.target s ≡ st
          → Node.made system req.target st s ≡ (some tt, made)
          → WasMade s made
      on_stat missing e k = inr (e, k)
      on_stat unreadable e k = absurd (ground (arith, ap (λ p. p.0) k))
      on_stat (found is_dir is_device) e k = dir is_dir is_device e k

  -- What is read of a volume that is staged.
  abbrev pub WasRead : Text → MountVolume → List Mount → S → Type 0
  WasRead path volume mounts s =
      (dev : Device) × (get_device system path s ≡ some dev)
      × (req.capability ≡ some volume)
      × (get_dev_mounts system dev s ≡ some mounts)

  staged-WasRead :
      (path : Text) (volume : MountVolume) (mounts : List Mount) (s : S)
      → staged system api req path s ≡ answered (volume, mounts)
      → WasRead path volume mounts s
  unfolding staged ensure_mount_vol
  staged-WasRead path volume mounts s h = with_dir (verify_target_dir system req.staging_target s) h
    where
      with_table :
          (dev : Device) (v : MountVolume) (o : Option (List Mount))
          → (or_code internal o >>= (λ ms. both v ms)) ≡ answered (volume, mounts)
          → (v ≡ volume) × (o ≡ some mounts)
      with_table dev v none k = absurd (ground arith)
      with_table dev v (some ms) k =
          let same : ◌≡◌ {A = MountVolume × List Mount} (v, ms) (volume, mounts) = ground arith in
          (ap (λ p. p.0) same, ap (λ p. some p.1) same)

      with_dev :
          (v : MountVolume) (o : Option Device)
          → req.capability ≡ some v
          → get_device system path s ≡ o
          → (or_code internal o
              >>= (λ dev. or_code internal (get_dev_mounts system dev s) >>= (λ ms. both v ms)))
            ≡ answered (volume, mounts)
          → WasRead path volume mounts s
      with_dev v none c e k = absurd (ground arith)
      with_dev v (some dev) c e k =
          let (same, listed) = with_table dev v (get_dev_mounts system dev s) k in
          (dev, e, c ∙ ap some same, listed)

      with_volume :
          (c : Option MountVolume)
          → req.capability ≡ c
          → (ensure_mount_vol c >>= (λ v.
              or_code internal (get_device system path s)
              >>= (λ dev. or_code internal (get_dev_mounts system dev s) >>= (λ ms. both v ms))))
            ≡ answered (volume, mounts)
          → WasRead path volume mounts s
      with_volume none c k = absurd (ground arith)
      with_volume (some v) c k = with_dev v (get_device system path s) c refl k

      with_dir :
          (u : Answer (Unit {0}))
          → (u >>= (λ x. ensure_mount_vol req.capability >>= (λ v.
              or_code internal (get_device system path s)
              >>= (λ dev. or_code internal (get_dev_mounts system dev s) >>= (λ ms. both v ms)))))
            ≡ answered (volume, mounts)
          → WasRead path volume mounts s
      with_dir (refused c) k = absurd (ground arith)
      with_dir (answered x) k = with_volume req.capability refl k

  -- If NodePublishVolume succeeds, the disk is attached, the target is a directory that was there or
  -- was made, and the device was staged: it has a mount. Then either the first mount of the device at
  -- the target has the option "ro" or "rw" that the request asks for, and nothing was mounted, or the
  -- device has one mount or none at the target, and the staging path was bound to the target, with
  -- the options of the volume, and "ro" after them if and only if the request is for reading only.
  pub node_publish_volume-IsPublished :
      (s s' : S) → node_publish_volume system api req s ≡ (answered tt, s') → IsPublished s s'
  unfolding node_publish_volume
  node_publish_volume-IsPublished s s' h = at_path (attached_path system api req s) refl h
    where
      on_staged :
          (path : Text) (s₁ : S) (o : Answer (MountVolume × List Mount))
          → attached_path system api req s ≡ answered path
          → make_dir system req.target s ≡ (some tt, s₁)
          → staged system api req path s₁ ≡ o
          → publish_staged system api req o s₁ ≡ (answered tt, s')
          → IsPublished s s'
      on_staged path s₁ (refused c) a m g h = absurd (ground (arith, ap (λ p. p.0) h))
      on_staged path s₁ (answered (volume, mounts)) a m g h =
          let (some_mount, there_it_is) = mounts-ok volume mounts s₁ s' h in
          let (dev, is_device, asked, listed) = staged-WasRead path volume mounts s₁ g in
          record {
            path = path;
            made = s₁;
            dev = dev;
            volume = volume;
            mounts = mounts;
            attached = a;
            has_target = make_dir-WasMade s s₁ m;
            is_device = is_device;
            asked = asked;
            listed = listed;
            mounted = some_mount;
            at_target = there_it_is;
          }

      on_dir :
          (path : Text) (r : Option (Unit {0}) × S)
          → attached_path system api req s ≡ answered path
          → make_dir system req.target s ≡ r
          → on_made system api req path r ≡ (answered tt, s')
          → IsPublished s s'
      on_dir path (none, s₁) a m h = absurd (ground (arith, ap (λ p. p.0) h))
      on_dir path (some tt, s₁) a m h = on_staged path s₁ (staged system api req path s₁) a m refl h

      at_path :
          (o : Answer Text)
          → attached_path system api req s ≡ o
          → publish_at system api req o s ≡ (answered tt, s')
          → IsPublished s s'
      at_path (refused c) a h = absurd (ground (arith, ap (λ p. p.0) h))
      at_path (answered path) a h = on_dir path (make_dir system req.target s) a refl h
