-- ===== src/Controller/Created.antt =====
-- What CreateVolume leaves, and what it answers when it is repeated.
use cloud_provider_vsphere.Common.{
  sym, ◌⊎◌, inl, inr, codes, Error, ℕ, ◌≡◌, refl, ap, subst, Bool, true, false, nat_eq, nat_eq_iff,
  Option, none, some, Text, Outcome, ok, err, panic, if◌then◌else◌, arith,
}
use cloud_provider_vsphere.Zones.Looking.{ZoneDiscoveryInfo}
use cloud_provider_vsphere.Disks.{FirstClassDiskInfo}
use cloud_provider_vsphere.Disks.Store.{Store}
use cloud_provider_vsphere.Disks.Creation.{WasCreated, create_first_class_disk-WasCreated}
use cloud_provider_vsphere.Volumes.{Volume}
use cloud_provider_vsphere.Controller.{
  parameter, datastore_type, Reply, done, refused, internal, already_exists, CreateVolumeRequest,
  lacks_parameter, place, volume_size_mb, named_disk, new_disk, volume_reply, found_again,
  on_created, on_named, on_place, create_volume,
}

module _ {S : Type 0} (store : Store S) (round : ℕ → ℕ → ℕ)
    (find_zone : ℕ → Text → Text → Outcome (Option ZoneDiscoveryInfo))
    (req : CreateVolumeRequest) where
  -- A disk was created in the place, with the name and the size of the request.
  abbrev pub IsNew : ZoneDiscoveryInfo → S → S → Type 0
  IsNew z s s' =
      WasCreated store z.datacenter (parameter req (codes "parent_name")) (datastore_type req)
        req.name (volume_size_mb store round req) s s'

  -- The disk was there with the size of the request, or was not found and created.
  abbrev pub HasOrigin : ZoneDiscoveryInfo → FirstClassDiskInfo → S → S → Type 0
  HasOrigin z d s s' =
      ((s' ≡ s) × (d.disk.object.capacity_in_mb ≡ volume_size_mb store round req))
      ⊎ ((e : Error) × (named_disk store round req z s ≡ err e) × IsNew z s s')

  -- The disk of a volume, after a call.
  pub record IsVolumeOf (v : Volume) (s s' : S) : Type 0 where
    pub zone : ZoneDiscoveryInfo
    pub disk : FirstClassDiskInfo
    pub complete : lacks_parameter req ≡ false
    pub located : place find_zone req ≡ ok (some zone)
    pub named : named_disk store round req zone s' ≡ ok disk
    pub origin : HasOrigin zone disk s s'
    pub replied : volume_reply zone disk ≡ done v

  module _ (v : Volume) (s s' : S) (c : lacks_parameter req ≡ false) (z : ZoneDiscoveryInfo)
      (l : place find_zone req ≡ ok (some z)) where
    again-IsVolumeOf :
        (e : Error) (s₁ : S)
        → named_disk store round req z s ≡ err e
        → new_disk store round req z s ≡ (ok tt, s₁)
        → (o : Outcome FirstClassDiskInfo) → named_disk store round req z s₁ ≡ o
        → found_again store round req z o s₁ ≡ (done v, s')
        → IsVolumeOf v s s'
    unfolding new_disk
    again-IsVolumeOf e s₁ a n (ok d) f h =
        let same : s₁ ≡ s' = ap (λ p. p.1) h in
        record {
          zone = z;
          disk = d;
          complete = c;
          located = l;
          named = subst (λ x. named_disk store round req z x ≡ ok d) same f;
          origin = inr (
            e,
            a,
            subst (IsNew z s) same (
                create_first_class_disk-WasCreated store z.datacenter
                  (parameter req (codes "parent_name")) req.name (volume_size_mb store round req) s
                  s₁ (datastore_type req) n),
          );
          replied = ap (λ p. p.0) h;
        }
    again-IsVolumeOf e s₁ a n (err x) f h = absurd (ground (arith, ap (λ p. p.0) h))
    again-IsVolumeOf e s₁ a n panic f h = absurd (ground (arith, ap (λ p. p.0) h))

    created-IsVolumeOf :
        (e : Error) (r : Outcome (Unit {0}) × S)
        → named_disk store round req z s ≡ err e
        → new_disk store round req z s ≡ r
        → on_created store round req z r ≡ (done v, s')
        → IsVolumeOf v s s'
    created-IsVolumeOf e (ok tt, s₁) a n h =
        again-IsVolumeOf e s₁ a n (named_disk store round req z s₁) refl h
    created-IsVolumeOf e (err x, s₁) a n h = absurd (ground (arith, ap (λ p. p.0) h))
    created-IsVolumeOf e (panic, s₁) a n h = absurd (ground (arith, ap (λ p. p.0) h))

    there-IsVolumeOf :
        (d : FirstClassDiskInfo) (b : Bool)
        → named_disk store round req z s ≡ ok d
        → nat_eq d.disk.object.capacity_in_mb (volume_size_mb store round req) ≡ b
        → ◌≡◌ {A = Reply Volume × S}
            (if b then (volume_reply z d, s) else (refused already_exists, s))
            (done v, s')
        → IsVolumeOf v s s'
    there-IsVolumeOf d true n e k =
        let same : s ≡ s' = ap (λ p. p.1) k in
        record {
          zone = z;
          disk = d;
          complete = c;
          located = l;
          named = subst (λ x. named_disk store round req z x ≡ ok d) same n;
          origin = inl (
            sym same,
            (nat_eq_iff d.disk.object.capacity_in_mb (volume_size_mb store round req)).0 e,
          );
          replied = ap (λ p. p.0) k;
        }
    there-IsVolumeOf d false n e k = absurd (ground (arith, ap (λ p. p.0) k))

    named-IsVolumeOf :
        (o : Outcome FirstClassDiskInfo)
        → named_disk store round req z s ≡ o
        → on_named store round req z o s ≡ (done v, s')
        → IsVolumeOf v s s'
    named-IsVolumeOf (err e) n h = created-IsVolumeOf e (new_disk store round req z s) n refl h
    named-IsVolumeOf panic n h = absurd (ground (arith, ap (λ p. p.0) h))
    named-IsVolumeOf (ok d) n h =
        there-IsVolumeOf d (nat_eq d.disk.object.capacity_in_mb (volume_size_mb store round req)) n
          refl h

  -- A call that succeeds leaves a state in which the lookup by the name of the volume finds a disk in
  -- the place of the request, and the response tells of that disk. Either the disk was there with the
  -- size asked for, and nothing has changed, or the lookup failed and the object manager has created
  -- a disk with the name and the size of the request, on the datastore or in the cluster of the
  -- request.
  pub create_volume-IsVolumeOf :
      (s s' : S) (v : Volume)
      → create_volume store round find_zone req s ≡ (done v, s')
      → IsVolumeOf v s s'
  unfolding create_volume
  create_volume-IsVolumeOf s s' v h = guarded (lacks_parameter req) refl h
    where
      at_place :
          (o : Outcome (Option ZoneDiscoveryInfo))
          → lacks_parameter req ≡ false
          → place find_zone req ≡ o
          → on_place store round req o s ≡ (done v, s')
          → IsVolumeOf v s s'
      at_place (ok (some z)) c l h =
          named-IsVolumeOf v s s' c z l (named_disk store round req z s) refl h
      at_place (ok none) c l h = absurd (ground (arith, ap (λ p. p.0) h))
      at_place (err e) c l h = absurd (ground (arith, ap (λ p. p.0) h))
      at_place panic c l h = absurd (ground (arith, ap (λ p. p.0) h))

      guarded :
          (b : Bool)
          → lacks_parameter req ≡ b
          → (if b then (refused internal, s) else on_place store round req (place find_zone req) s)
            ≡ (done v, s')
          → IsVolumeOf v s s'
      guarded true c h = absurd (ground (arith, ap (λ p. p.0) h))
      guarded false c h = at_place (place find_zone req) c refl h
