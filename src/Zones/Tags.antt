-- ===== src/Zones/Tags.antt =====
-- What a lookup of the zone of an object returns.
use cloud_provider_vsphere.Common.{
  false, not, ◌&&◌, ◌≡◌, refl, subst, Bool, true, ◌⊎◌, inl, inr, List, [], ◌∷◌, Text, ◌==◌, ==_iff,
  Option, none, some, is_empty, Outcome, ok, err, panic, ◌>>=◌, here, there, Member, if_ind, arith,
}
use cloud_provider_vsphere.Inventory.{Datacenter}
use cloud_provider_vsphere.Connections.{Instance, ConnectionManager}
use cloud_provider_vsphere.Zones.{
  Moref, ZoneApi, Labels, no_labels, Walk, complete, partial, stopped, crashed, read_tag, set_label,
  is_complete, on_tag, walk_tags, walk_object, on_object, walk_objects, end_walk, objects_of,
  with_tags_client, lookup_zone_by_moref,
}

module _ (api : ZoneApi) (zone_label region_label : Text) where
  -- Some object of the list has a tag of the category with the name.
  abbrev pub IsTagged : List Moref → Text → Text → Type 0
  IsTagged objects category name =
      (o : Moref) × Member o objects
      × (values : List Text) × (api.list_attached_tags o ≡ ok values)
      × (v : Text) × Member v values
      × (read_tag api v ≡ ok (category, name))

  module _ (P : Text → Text → Type 0) where
    abbrev pub IsFrom : Labels → Type 0
    IsFrom l = ((l.zone ≡ []) ⊎ P zone_label l.zone) × ((l.region ≡ []) ⊎ P region_label l.region)

    abbrev WalkIsFrom : Walk → Type 0
    WalkIsFrom (complete l) = IsFrom l × (is_complete api zone_label region_label l ≡ true)
    WalkIsFrom (partial l) = IsFrom l
    WalkIsFrom (stopped e) = Unit
    WalkIsFrom crashed = Unit

    set_label-IsFrom :
        (t : Text × Text) (l : Labels)
        → P t.0 t.1
        → IsFrom l
        → IsFrom (set_label api zone_label region_label t l)
    unfolding set_label
    set_label-IsFrom (category, name) l p h =
        if_ind IsFrom (category == zone_label)
          (λ e. (inr (subst (λ c. P c name) ((==_iff category zone_label).0 e) p), h.1))
          (λ n.
            if_ind IsFrom (category == region_label)
              (λ e. (h.0, inr (subst (λ c. P c name) ((==_iff category region_label).0 e) p)))
              (λ m. h))

    tag-IsFrom :
        (o : Outcome (Text × Text)) (rest : Text × Text → Walk) (l : Labels)
        → ((t : Text × Text) → o ≡ ok t → P t.0 t.1)
        → ((t : Text × Text)
            → IsFrom (set_label api zone_label region_label t l)
            → WalkIsFrom (rest t))
        → IsFrom l
        → WalkIsFrom (on_tag api zone_label region_label o rest l)
    tag-IsFrom (err e) rest l p k h = tt
    tag-IsFrom panic rest l p k h = tt
    tag-IsFrom (ok t) rest l p k h =
        let good = set_label-IsFrom t l (p t refl) h in
        if_ind WalkIsFrom
          (is_complete api zone_label region_label (set_label api zone_label region_label t l))
          (λ e. (good, e)) (λ n. k t good)

    walk_tags-IsFrom :
        (values : List Text) (l : Labels)
        → ((v : Text) → Member v values → (t : Text × Text) → read_tag api v ≡ ok t → P t.0 t.1)
        → IsFrom l
        → WalkIsFrom (walk_tags api zone_label region_label values l)
    unfolding walk_tags
    walk_tags-IsFrom [] l p h = h
    walk_tags-IsFrom (v ∷ values) l p h =
        tag-IsFrom (read_tag api v) _ l (p v (here refl))
          (λ t good.
            walk_tags-IsFrom values (set_label api zone_label region_label t l)
              (λ w m. p w (there m)) good)
          h

    object-IsFrom :
        (w : Walk) (rest : Labels → Walk)
        → WalkIsFrom w
        → ((l : Labels) → IsFrom l → WalkIsFrom (rest l))
        → WalkIsFrom (on_object api zone_label region_label w rest)
    object-IsFrom (complete l) rest h k = h
    object-IsFrom (partial l) rest h k = k l h
    object-IsFrom (stopped e) rest h k = tt
    object-IsFrom crashed rest h k = tt

    attached-IsFrom :
        (o : Outcome (List Text)) (l : Labels)
        → ((values : List Text)
            → o ≡ ok values
            → (v : Text) → Member v values
            → (t : Text × Text) → read_tag api v ≡ ok t
            → P t.0 t.1)
        → IsFrom l
        → WalkIsFrom (walk_object api zone_label region_label o l)
    attached-IsFrom (err e) l p h = tt
    attached-IsFrom panic l p h = tt
    attached-IsFrom (ok values) l p h = walk_tags-IsFrom values l (p values refl) h

    walk_objects-IsFrom :
        (objects : List Moref) (l : Labels)
        → ((o : Moref)
            → Member o objects
            → (values : List Text) → api.list_attached_tags o ≡ ok values
            → (v : Text) → Member v values
            → (t : Text × Text) → read_tag api v ≡ ok t
            → P t.0 t.1)
        → IsFrom l
        → WalkIsFrom (walk_objects api zone_label region_label objects l)
    unfolding walk_objects
    walk_objects-IsFrom [] l p h = h
    walk_objects-IsFrom (o ∷ objects) l p h =
        object-IsFrom (walk_object api zone_label region_label (api.list_attached_tags o) l) _
          (attached-IsFrom (api.list_attached_tags o) l (p o (here refl)) h)
          (λ l' h'. walk_objects-IsFrom objects l' (λ o' m. p o' (there m)) h')

  -- The labels that are asked for are there, and each that is there is the name of a tag of an
  -- object of the list.
  pub record IsZoneOf (objects : List Moref) (l : Labels) : Type 0 where
    pub zone_there : (is_empty l.zone ≡ false) ⊎ (is_empty zone_label ≡ true)
    pub region_there : (is_empty l.region ≡ false) ⊎ (is_empty region_label ≡ true)
    pub tagged : IsFrom (IsTagged objects) l

  there_or_not :
      (s label : Text)
      → (is_empty s && not (is_empty label)) ≡ false
      → (is_empty s ≡ false) ⊎ (is_empty label ≡ true)
  there_or_not [] label h = inr (ground arith)
  there_or_not (c ∷ s) label h = inl refl

  end-IsZoneOf :
      (objects : List Moref) (w : Walk) (l : Labels)
      → WalkIsFrom (IsTagged objects) w
      → end_walk api zone_label region_label w ≡ ok l
      → IsZoneOf objects l
  end-IsZoneOf objects (complete k) l h e =
      let same : k ≡ l = ground arith in
      subst (IsZoneOf objects) same (record {
        zone_there = inl (ground (arith, h.1));
        region_there = inl (ground (arith, h.1));
        tagged = h.0;
      })
  end-IsZoneOf objects (partial k) l h e =
      let same : k ≡ l = ground arith in
      subst (IsZoneOf objects) same (record {
        zone_there = there_or_not k.zone zone_label (ground arith);
        region_there = there_or_not k.region region_label (ground arith);
        tagged = h;
      })
  end-IsZoneOf objects (stopped x) l h e = absurd (ground arith)
  end-IsZoneOf objects crashed l h e = absurd (ground arith)

  client-IsZoneOf :
      (o : Option Instance) (q : Outcome (List Moref)) (l : Labels)
      → with_tags_client api zone_label region_label o q ≡ ok l
      → (objects : List Moref) × (q ≡ ok objects) × IsZoneOf objects l
  client-IsZoneOf none q l e = absurd (ground arith)
  client-IsZoneOf (some i) q l e = logged (api.login i.conn) q e
    where
      logged :
          (u : Outcome (Unit {0})) (q : Outcome (List Moref))
          → (let r : Outcome Labels = (do
            v ← u
            os ← q
            end_walk api zone_label region_label
                (walk_objects api zone_label region_label os no_labels)) in
              r)
            ≡ ok l
          → (objects : List Moref) × (q ≡ ok objects) × IsZoneOf objects l
      logged (ok v) (ok os) h = (
        os,
        refl,
        end-IsZoneOf os (walk_objects api zone_label region_label os no_labels) l
            (walk_objects-IsFrom (IsTagged os) os no_labels
              (λ o m values a v n t r. (o, m, values, a, v, n, r)) (inl refl, inl refl))
            h,
      )
      logged (ok v) (err x) h = absurd (ground arith)
      logged (ok v) panic h = absurd (ground arith)
      logged (err x) q h = absurd (ground arith)
      logged panic q h = absurd (ground arith)

  -- A lookup that succeeds returns the zone if a category of zones is asked for, and the region if a
  -- category of regions is; what it returns is the name of a tag of that category, which is attached
  -- to the object or, if ancestors are searched, to one of them.
  pub lookup_zone_by_moref_sound :
      (cm : ConnectionManager) (dc : Datacenter) (mo : Moref) (check_ancestors : Bool) (l : Labels)
      → lookup_zone_by_moref api zone_label region_label cm dc mo check_ancestors ≡ ok l
      → (objects : List Moref) × (objects_of api zone_label region_label dc mo check_ancestors
          ≡ ok objects)
        × IsZoneOf objects l
  unfolding lookup_zone_by_moref
  lookup_zone_by_moref_sound cm dc mo check_ancestors l e = client-IsZoneOf _ _ l e
