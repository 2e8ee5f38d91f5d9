-- ===== src/Machines/Attached.antt =====
-- pkg/common/vclib/virtualmachine.go, AttachDisk: the whole of it, and what it returns.
use cloud_provider_vsphere.Common.{
  ℕ, ◌≡◌, refl, sym, ap, ◌∙◌, Bool, true, false, not, Option, none, some, List, [], Text, codes,
  is_empty, Error, foreign, Outcome, ok, err, panic, if◌then◌else◌, arith,
}
use cloud_provider_vsphere.Inventory.{Datacenter, VirtualMachine}
use cloud_provider_vsphere.Disks.{DatastoreInfo}
use cloud_provider_vsphere.Machines.{Device, VolumeOptions, check_controller_supported}
use cloud_provider_vsphere.Machines.Paths.{remove_storage_cluster_or_folder_name}
use cloud_provider_vsphere.Machines.Attach.{
  DiskSpec, Hosts, get_virtual_disk_page83_data, get_datastore_by_path, is_disk_attached,
  delete_controller, Created, create_disk_spec, detach_disk,
}

abbrev pub or_no_text : Outcome Text → Text
or_no_text (ok t) = t
or_no_text o = []

abbrev pub with_profile : DiskSpec → Text → DiskSpec
with_profile spec profile = record {
  controller = spec.controller;
  datastore = spec.datastore;
  path = spec.path;
  unit_number = spec.unit_number;
  capacity_in_kb = spec.capacity_in_kb;
  provisioning = spec.provisioning;
  profile = profile;
}

module _ {S : Type 0} (hosts : Hosts S) (dc : Datacenter) (vm : VirtualMachine) where
  -- A controller that was created for the disk is deleted again.
  abbrev pub undo_controller : Option Device → List Device → S → S
  undo_controller none devices s = s
  undo_controller (some c) devices s = delete_controller hosts dc vm c devices s

  -- The end of the call: the disk is attached, and its UUID is read.
  abbrev pub on_uuid : Text → Option Device → List Device → Outcome Text → S → Outcome Text × S
  on_uuid path new devices (ok uuid) s = (ok uuid, s)
  on_uuid path new devices (err e) s =
      (err e, undo_controller new devices (detach_disk hosts dc vm path s).1)
  on_uuid path new devices panic s = (panic, s)

  abbrev pub on_waited :
      Text → Option Device → List Device → Outcome (Unit {0}) × S → Outcome Text × S
  on_waited path new devices (ok u, s) =
      on_uuid path new devices (get_virtual_disk_page83_data hosts dc path s) s
  on_waited path new devices (err e, s) = (err e, undo_controller new devices s)
  on_waited path new devices (panic, s) = (panic, s)

  abbrev pub on_reconfigured : Text → Option Device → List Device → Outcome ℕ × S → Outcome Text × S
  on_reconfigured path new devices (ok task, s) = on_waited path new devices (hosts.wait task s)
  on_reconfigured path new devices (err e, s) = (err e, undo_controller new devices s)
  on_reconfigured path new devices (panic, s) = (panic, s)

  abbrev pub add_disk :
      Text → Text → DiskSpec → Option Device → Outcome (List Device) → S → Outcome Text × S
  add_disk path profile spec new (ok devices) s =
      on_reconfigured path new devices (hosts.reconfigure vm (with_profile spec profile) s)
  add_disk path profile spec new (err e) s = (err e, s)
  add_disk path profile spec new panic s = (panic, s)

  abbrev pub on_spec : Text → Text → Outcome Created × S → Outcome Text × S
  on_spec path profile (ok (spec, new), s) = add_disk path profile spec new (hosts.device vm s) s
  on_spec path profile (err e, s) = (err e, s)
  on_spec path profile (panic, s) = (panic, s)

  abbrev pub on_datastore :
      Text → Text → VolumeOptions → Outcome DatastoreInfo → S → Outcome Text × S
  on_datastore path profile options (ok d) s =
      on_spec path profile (create_disk_spec hosts dc vm path d.datastore.reference options s)
  on_datastore path profile options (err e) s = (err e, s)
  on_datastore path profile options panic s = (panic, s)

  -- The identifier of the storage policy.
  abbrev pub profile_of : VolumeOptions → S → Outcome Text
  profile_of options s =
      if is_empty options.storage_policy_name
      then ok options.storage_policy_id
      else hosts.profile_id_by_name options.storage_policy_name s

  abbrev pub on_profile : Text → Text → VolumeOptions → Outcome Text → S → Outcome Text × S
  on_profile given path options (ok profile) s =
      on_datastore path profile options (get_datastore_by_path hosts dc given s) s
  on_profile given path options (err e) s = (err e, s)
  on_profile given path options panic s = (panic, s)

  -- For a disk that is attached, an error of reading its UUID is dropped.
  abbrev pub on_attached : Text → Text → VolumeOptions → Outcome Bool → S → Outcome Text × S
  on_attached given path options (ok true) s =
      (ok (or_no_text (get_virtual_disk_page83_data hosts dc path s)), s)
  on_attached given path options (ok false) s =
      on_profile given path options (profile_of options s) s
  on_attached given path options (err e) s = (err e, s)
  on_attached given path options panic s = (panic, s)

  abbrev pub attach_at : Text → VolumeOptions → Outcome Text → S → Outcome Text × S
  attach_at given options (ok path) s =
      on_attached given path options (is_disk_attached hosts dc vm path s) s
  attach_at given options (err e) s = (err e, s)
  attach_at given options panic s = (panic, s)

  unfoldable pub attach_disk : Text → VolumeOptions → S → Outcome Text × S
  unfolding remove_storage_cluster_or_folder_name is_disk_attached create_disk_spec detach_disk
      get_datastore_by_path get_virtual_disk_page83_data delete_controller
      check_controller_supported
  attach_disk vm_disk_path options s =
      if not (check_controller_supported options.scsi_controller_type)
      then (err (foreign (codes "Not a valid SCSI Controller Type")), s)
      else attach_at vm_disk_path options (remove_storage_cluster_or_folder_name vm_disk_path) s

  module _ (given path : Text) (options : VolumeOptions) (uuid : Text) (s' : S) where
    -- What a success says of the UUID.
    Tells : Outcome Text × S → Type 0
    Tells r = r ≡ (ok uuid, s') → uuid ≡ or_no_text (get_virtual_disk_page83_data hosts dc path s')

    fails : (o : Outcome Text) (s : S) → ((t : Text) → ¬ (o ≡ ok t)) → Tells (o, s)
    unfolding Tells
    fails o s n h = absurd (n uuid (ap (λ p. p.0) h))

    errs : (e : Error) (s : S) → Tells (err e, s)
    errs e s = fails (err e) s (λ t h. absurd (ground arith))

    panics : (s : S) → Tells (panic, s)
    panics s = fails panic s (λ t h. absurd (ground arith))

    uuid-Tells :
        (new : Option Device) (devices : List Device) (o : Outcome Text) (s : S)
        → get_virtual_disk_page83_data hosts dc path s ≡ o
        → Tells (on_uuid path new devices o s)
    unfolding Tells
    uuid-Tells new devices (ok u) s e h =
        let same : u ≡ uuid = ground (arith, ap (λ p. p.0) h) in
        sym same
        ∙ ap or_no_text (sym e)
        ∙ ap (λ x. or_no_text (get_virtual_disk_page83_data hosts dc path x)) (ap (λ p. p.1) h)
    uuid-Tells new devices (err x) s e h = errs x _ h
    uuid-Tells new devices panic s e h = panics s h

    waited-Tells :
        (new : Option Device) (devices : List Device) (r : Outcome (Unit {0}) × S)
        → Tells (on_waited path new devices r)
    waited-Tells new devices (ok u, s) =
        uuid-Tells new devices (get_virtual_disk_page83_data hosts dc path s) s refl
    waited-Tells new devices (err e, s) = errs e _
    waited-Tells new devices (panic, s) = panics s

    reconfigured-Tells :
        (new : Option Device) (devices : List Device) (r : Outcome ℕ × S)
        → Tells (on_reconfigured path new devices r)
    reconfigured-Tells new devices (ok task, s) = waited-Tells new devices (hosts.wait task s)
    reconfigured-Tells new devices (err e, s) = errs e _
    reconfigured-Tells new devices (panic, s) = panics s

    disk-Tells :
        (profile : Text) (spec : DiskSpec) (new : Option Device) (o : Outcome (List Device)) (s : S)
        → Tells (add_disk path profile spec new o s)
    disk-Tells profile spec new (ok devices) s =
        reconfigured-Tells new devices (hosts.reconfigure vm (with_profile spec profile) s)
    disk-Tells profile spec new (err e) s = errs e s
    disk-Tells profile spec new panic s = panics s

    spec-Tells : (profile : Text) (r : Outcome Created × S) → Tells (on_spec path profile r)
    spec-Tells profile (ok (spec, new), s) = disk-Tells profile spec new (hosts.device vm s) s
    spec-Tells profile (err e, s) = errs e s
    spec-Tells profile (panic, s) = panics s

    datastore-Tells :
        (profile : Text) (o : Outcome DatastoreInfo) (s : S)
        → Tells (on_datastore path profile options o s)
    datastore-Tells profile (ok d) s =
        spec-Tells profile (create_disk_spec hosts dc vm path d.datastore.reference options s)
    datastore-Tells profile (err e) s = errs e s
    datastore-Tells profile panic s = panics s

    profile-Tells : (o : Outcome Text) (s : S) → Tells (on_profile given path options o s)
    profile-Tells (ok profile) s =
        datastore-Tells profile (get_datastore_by_path hosts dc given s) s
    profile-Tells (err e) s = errs e s
    profile-Tells panic s = panics s

    attached-Tells : (o : Outcome Bool) (s : S) → Tells (on_attached given path options o s)
    unfolding Tells
    attached-Tells (ok true) s h =
        let same : or_no_text (get_virtual_disk_page83_data hosts dc path s) ≡ uuid =
          ground (arith, ap (λ p. p.0) h) in
        sym same
        ∙ ap (λ x. or_no_text (get_virtual_disk_page83_data hosts dc path x)) (ap (λ p. p.1) h)
    attached-Tells (ok false) s h = profile-Tells (profile_of options s) s h
    attached-Tells (err e) s h = errs e s h
    attached-Tells panic s h = panics s h

  -- AttachDisk is idempotent: if the disk is attached in the state that a successful call leaves,
  -- a repeated call returns the same UUID and changes nothing.
  pub attach_disk-again :
      (given path : Text) (options : VolumeOptions) (uuid : Text) (s s' : S)
      → remove_storage_cluster_or_folder_name given ≡ ok path
      → attach_disk given options s ≡ (ok uuid, s')
      → is_disk_attached hosts dc vm path s' ≡ ok true
      → attach_disk given options s' ≡ (ok uuid, s')
  unfolding attach_disk Tells
  attach_disk-again given path options uuid s s' p h a =
      guarded (check_controller_supported options.scsi_controller_type) h
    where
      at_path :
          attach_at given options (ok path) s ≡ (ok uuid, s')
          → attach_at given options (ok path) s' ≡ (ok uuid, s')
      at_path h =
          ap (λ o. on_attached given path options o s') a
          ∙ ap (λ u. (ok u, s'))
              (sym (
                attached-Tells given path options uuid s' (is_disk_attached hosts dc vm path s) s
                  h))

      guarded :
          (b : Bool)
          → ◌≡◌ {A = Outcome Text × S}
              (if not b
                then (err (foreign (codes "Not a valid SCSI Controller Type")), s)
                else attach_at given options (remove_storage_cluster_or_folder_name given) s)
              (ok uuid, s')
          → ◌≡◌ {A = Outcome Text × S}
              (if not b
                then (err (foreign (codes "Not a valid SCSI Controller Type")), s')
                else attach_at given options (remove_storage_cluster_or_folder_name given) s')
              (ok uuid, s')
      guarded true h =
          ap (λ o. attach_at given options o s') p
          ∙ at_path (sym (ap (λ o. attach_at given options o s) p) ∙ h)
      guarded false h = absurd (ground (arith, ap (λ p. p.0) h))
