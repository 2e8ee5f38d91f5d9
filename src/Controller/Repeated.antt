-- ===== src/Controller/Repeated.antt =====
-- What CreateVolume answers when it is repeated, and the capacity that it asks for.
use cloud_provider_vsphere.Common.{
  sym, ◌≢◌, ◌⊎◌, inl, inr, ℕ, ◌+◌, ◌*◌, ◌%◌, ◌^◌, ◌≤◌, ◌<◌, ◌≡◌, refl, ap, subst, ◌∙◌, Bool, true,
  false, nat_eq, nat_eq_iff, Option, Text, Map, Outcome, ok, err, panic, if◌then◌else◌, arith,
}
use cloud_provider_vsphere.Zones.Looking.{ZoneDiscoveryInfo}
use cloud_provider_vsphere.Disks.{FirstClassDiskInfo}
use cloud_provider_vsphere.Disks.Store.{Store}
use cloud_provider_vsphere.Volumes.{Volume}
use cloud_provider_vsphere.Controller.{
  done, refused, internal, already_exists, CreateVolumeRequest, gb_in_bytes, bytes_or_default,
  place, volume_size_mb, named_disk, reply_with, volume_reply, on_named, on_place, attributes_of,
  create_volume,
}
use cloud_provider_vsphere.Controller.Created.{
  IsNew, HasOrigin, IsVolumeOf, create_volume-IsVolumeOf,
}

-- The number of units that hold a size.
abbrev pub IsRounding : (ℕ → ℕ → ℕ) → Type 0
IsRounding round =
    (size unit : ℕ)
    → 0 < unit
    → (size ≤ round size unit * unit) × (round size unit * unit < size + unit)

-- The size holds the bytes, and is less than a gibibyte larger.
abbrev pub Holds : ℕ → ℕ → Type 0
Holds bytes size = (bytes ≤ size) × (size < bytes + gb_in_bytes)

module _ {S : Type 0} (store : Store S) (round : ℕ → ℕ → ℕ)
    (find_zone : ℕ → Text → Text → Outcome (Option ZoneDiscoveryInfo))
    (req : CreateVolumeRequest) where
  -- After a success, CreateVolume finds the disk again.
  create_volume-finds :
      (s s' : S) (v : Volume) (i : IsVolumeOf store round find_zone req v s s')
      → create_volume store round find_zone req s' ≡ (
          if nat_eq i.disk.disk.object.capacity_in_mb (volume_size_mb store round req)
          then (volume_reply i.zone i.disk, s')
          else (refused already_exists, s'))
  unfolding create_volume
  create_volume-finds s s' v i =
      ap
        (λ b.
          if b then (refused internal, s') else on_place store round req (place find_zone req) s')
        i.complete
      ∙ ap (λ o. on_place store round req o s') i.located
      ∙ ap (λ o. on_named store round req i.zone o s') i.named

  -- What a call answers that is repeated.
  abbrev pub AnswersAgain : Volume → S → S → Type 0
  AnswersAgain v s s' =
      (create_volume store round find_zone req s' ≡ (done v, s'))
      ⊎ ((create_volume store round find_zone req s' ≡ (refused already_exists, s'))
          × ((z : ZoneDiscoveryInfo) × (d : FirstClassDiskInfo) × IsNew store round find_zone req z
                s s'
              × (named_disk store round req z s' ≡ ok d)
              × (d.disk.object.capacity_in_mb ≢ volume_size_mb store round req)))

  AnswersAgain-origin :
      (s s' : S) (v : Volume) (i : IsVolumeOf store round find_zone req v s s') (b : Bool)
      → nat_eq i.disk.disk.object.capacity_in_mb (volume_size_mb store round req) ≡ b
      → HasOrigin store round find_zone req i.zone i.disk s s'
      → AnswersAgain v s s'
  AnswersAgain-origin s s' v i true e o = inl (
      create_volume-finds s s' v i
      ∙ ap (λ b. if b then (volume_reply i.zone i.disk, s') else (refused already_exists, s')) e
      ∙ ap (λ r. (r, s')) i.replied)
  AnswersAgain-origin s s' v i false e (inl (same, sized)) =
      absurd (ground (arith, (nat_eq_iff i.disk.disk.object.capacity_in_mb _).1 sized))
  AnswersAgain-origin s s' v i false e (inr (x, absent, new)) = inr (
    create_volume-finds s s' v i
        ∙ ap (λ b. if b then (volume_reply i.zone i.disk, s') else (refused already_exists, s')) e,
    (
      i.zone,
      i.disk,
      new,
      i.named,
      λ same. absurd (ground (arith, (nat_eq_iff i.disk.disk.object.capacity_in_mb _).1 same)),
    ),
  )

  -- A call that is repeated after a success, with the same answer of the lookup of the zone, changes
  -- nothing, and so creates no second disk. It gives the same response, unless the first call has
  -- created a disk with the name and the size of the request and the lookup by name then finds a disk
  -- of another size: then the volume is said to exist already.
  pub create_volume-again :
      (s s' : S) (v : Volume)
      → create_volume store round find_zone req s ≡ (done v, s')
      → AnswersAgain v s s'
  create_volume-again s s' v h =
      let i = create_volume-IsVolumeOf store round find_zone req s s' v h in
      AnswersAgain-origin s s' v i
        (nat_eq i.disk.disk.object.capacity_in_mb (volume_size_mb store round req)) refl i.origin

  capacity_of_reply :
      (d : FirstClassDiskInfo) (o : Outcome (Map Text)) (v : Volume)
      → reply_with d o ≡ done v
      → v.capacity_bytes ≡ (d.disk.object.capacity_in_mb * 1048576) % (2 ^ 64)
  capacity_of_reply d (ok attributes) v h = ground arith
  capacity_of_reply d (err e) v h = absurd (ground arith)
  capacity_of_reply d panic v h = absurd (ground arith)

  rounded-Holds :
      IsRounding round
      → bytes_or_default req.required_bytes ≤ 2 ^ 62
      → (mb : ℕ) → mb ≡ volume_size_mb store round req
      → Holds (bytes_or_default req.required_bytes) (mb * 1048576)
        × Holds (bytes_or_default req.required_bytes) ((mb * 1048576) % (2 ^ 64))
  unfolding volume_size_mb
  rounded-Holds rounds small mb e =
      within (round (bytes_or_default req.required_bytes) gb_in_bytes)
        (rounds (bytes_or_default req.required_bytes) gb_in_bytes (omega arith)) e
    where
      within :
          (r : ℕ)
          → Holds (bytes_or_default req.required_bytes) (r * gb_in_bytes)
          → mb ≡ r * 1024
          → Holds (bytes_or_default req.required_bytes) (mb * 1048576)
            × Holds (bytes_or_default req.required_bytes) ((mb * 1048576) % (2 ^ 64))
      within r (low, high) e = ((omega arith, omega arith), (omega arith, omega arith))

  -- The capacity is that asked for, or ten gibibytes if none is asked for, rounded up: not less, and
  -- less than a gibibyte more. That holds of the capacity that a successful call reports if nothing
  -- has changed, and else of the size in the specification of the disk that was created. The size
  -- asked for is at most 2^62, and the helper rounds up.
  pub create_volume-capacity :
      IsRounding round
      → bytes_or_default req.required_bytes ≤ 2 ^ 62
      → (s s' : S) (v : Volume) → create_volume store round find_zone req s ≡ (done v, s')
      → ((s' ≡ s) × Holds (bytes_or_default req.required_bytes) v.capacity_bytes)
        ⊎ ((z : ZoneDiscoveryInfo) × (w : IsNew store round find_zone req z s s') × Holds
              (bytes_or_default req.required_bytes)
              (w.asked.capacity_in_mb * 1048576))
  create_volume-capacity rounds small s s' v h =
      let i = create_volume-IsVolumeOf store round find_zone req s s' v h in by_origin i i.origin
    where
      by_origin :
          (i : IsVolumeOf store round find_zone req v s s')
          → HasOrigin store round find_zone req i.zone i.disk s s'
          → ((s' ≡ s) × Holds (bytes_or_default req.required_bytes) v.capacity_bytes)
            ⊎ ((z : ZoneDiscoveryInfo) × (w : IsNew store round find_zone req z s s') × Holds
                  (bytes_or_default req.required_bytes)
                  (w.asked.capacity_in_mb * 1048576))
      by_origin i (inl (same, sized)) = inl (
        same,
        subst (Holds (bytes_or_default req.required_bytes))
            (sym (
              capacity_of_reply i.disk (attributes_of i.zone.vc_server i.zone.datacenter i.disk) v
                i.replied))
            (rounded-Holds rounds small i.disk.disk.object.capacity_in_mb sized).1,
      )
      by_origin i (inr (x, absent, new)) =
          inr (i.zone, new, (rounded-Holds rounds small new.asked.capacity_in_mb new.has_size).0)
