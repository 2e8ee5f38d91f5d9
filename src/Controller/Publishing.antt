-- ===== src/Controller/Publishing.antt =====
-- pkg/csi/service/fcd/controller.go, ControllerPublishVolume and ControllerUnpublishVolume: they
-- look for the disk with `Disks.Search` and for the machine with `Inventory`, and attach or detach
-- the disk with `Machines`.
use cloud_provider_vsphere.Common.{
  ℕ, ◌≡◌, refl, sym, ap, subst, ◌∙◌, Bool, true, false, ◌||◌, Option, none, some, List, [], ◌∷◌,
  ◌++◌, Text, codes, is_empty, Map, Outcome, ok, err, panic, ◌>>=◌, if◌then◌else◌, arith,
}
use cloud_provider_vsphere.Inventory.{VirtualMachine, get_vm_by_dns_name}
use cloud_provider_vsphere.Connections.{ConnectionManager}
use cloud_provider_vsphere.Search.{Actor}
use cloud_provider_vsphere.Discovery.{Site}
use cloud_provider_vsphere.Discovery.Machines.{IsPlace}
use cloud_provider_vsphere.Disks.{type_datastore}
use cloud_provider_vsphere.Disks.Search.{
  FcdDiscoveryInfo, IsFcd, which_vc_and_dc_by_fcd_id, which_vc_and_dc_by_fcd_id_sound,
}
use cloud_provider_vsphere.Machines.{VolumeOptions}
use cloud_provider_vsphere.Machines.Attach.{Hosts, detach_disk}
use cloud_provider_vsphere.Machines.Attached.{attach_disk}
use cloud_provider_vsphere.Controller.{
  Reply, done, refused, crashed, internal, plain, attributes_of, parent_of,
}
use cloud_provider_vsphere.Controller.Deletion.{exists-parent}

abbrev pub pvscsi_options : VolumeOptions
pvscsi_options = record {
  capacity_kb = 0;
  disk_format = [];
  storage_policy_name = [];
  storage_policy_id = [];
  scsi_controller_type = codes "pvscsi";
}

abbrev pub page83_entry : Text → Map Text
page83_entry uuid = (codes "page83data", uuid) ∷ []

module _ {S : Type 0} (hosts : Hosts S) (site : Site) (t : ℕ) (cm : ConnectionManager)
    (schedule : List Actor) where
  -- The context of a disk that was attached.
  abbrev pub context_of : FcdDiscoveryInfo → Text → Outcome (Map Text)
  context_of r uuid = do
    attributes ← attributes_of r.vc_server r.datacenter r.fcd_info
    ok (attributes ++ page83_entry uuid)

  abbrev pub replied : {A : Type 0} → Outcome A → S → Reply A × S
  replied (ok a) s = (done a, s)
  replied (err e) s = (refused (plain e), s)
  replied panic s = (crashed, s)

  abbrev pub on_attached : FcdDiscoveryInfo → Outcome Text × S → Reply (Map Text) × S
  on_attached r (ok uuid, s) = replied (context_of r uuid) s
  on_attached r (err e, s) = (refused (plain e), s)
  on_attached r (panic, s) = (crashed, s)

  abbrev pub attach_at : FcdDiscoveryInfo → VirtualMachine → Option Text → S → Reply (Map Text) × S
  attach_at r vm none s = (crashed, s)
  attach_at r vm (some path) s =
      on_attached r (attach_disk hosts r.datacenter vm path pvscsi_options s)

  abbrev pub publish_on : FcdDiscoveryInfo → Outcome VirtualMachine → S → Reply (Map Text) × S
  publish_on r (ok vm) s = attach_at r vm r.fcd_info.disk.object.file_path s
  publish_on r (err e) s = (refused (plain e), s)
  publish_on r panic s = (crashed, s)

  abbrev pub publish_found : Text → Outcome (Option FcdDiscoveryInfo) → S → Reply (Map Text) × S
  publish_found node_id (ok (some r)) s =
      publish_on r (get_vm_by_dns_name site.api r.datacenter node_id) s
  publish_found node_id (ok none) s = (crashed, s)
  publish_found node_id (err e) s = (refused internal, s)
  publish_found node_id panic s = (crashed, s)

  -- `ControllerPublishVolume`, for a schedule of its search: the context that it publishes.
  unfoldable pub controller_publish_volume : Text → Text → S → Reply (Map Text) × S
  unfolding attach_disk which_vc_and_dc_by_fcd_id get_vm_by_dns_name
  controller_publish_volume volume_id node_id s =
      if is_empty volume_id || is_empty node_id
      then (refused internal, s)
      else publish_found node_id
          (which_vc_and_dc_by_fcd_id site (hosts.inventory s) t cm schedule volume_id) s

  abbrev pub on_detached : Outcome (Unit {0}) × S → Reply (Unit {0}) × S
  on_detached (ok u, s) = (done tt, s)
  on_detached (err e, s) = (refused (plain e), s)
  on_detached (panic, s) = (crashed, s)

  abbrev pub detach_from :
      FcdDiscoveryInfo → VirtualMachine → Option Text → S → Reply (Unit {0}) × S
  detach_from r vm none s = (crashed, s)
  detach_from r vm (some path) s = on_detached (detach_disk hosts r.datacenter vm path s)

  abbrev pub unpublish_on : FcdDiscoveryInfo → Outcome VirtualMachine → S → Reply (Unit {0}) × S
  unpublish_on r (ok vm) s = detach_from r vm r.fcd_info.disk.object.file_path s
  unpublish_on r (err e) s = (refused (plain e), s)
  unpublish_on r panic s = (crashed, s)

  abbrev pub unpublish_found : Text → Outcome (Option FcdDiscoveryInfo) → S → Reply (Unit {0}) × S
  unpublish_found node_id (ok (some r)) s =
      unpublish_on r (get_vm_by_dns_name site.api r.datacenter node_id) s
  unpublish_found node_id (ok none) s = (crashed, s)
  unpublish_found node_id (err e) s = (refused internal, s)
  unpublish_found node_id panic s = (crashed, s)

  -- `ControllerUnpublishVolume`
  unfoldable pub controller_unpublish_volume : Text → Text → S → Reply (Unit {0}) × S
  unfolding detach_disk which_vc_and_dc_by_fcd_id get_vm_by_dns_name
  controller_unpublish_volume volume_id node_id s =
      if is_empty volume_id || is_empty node_id
      then (refused internal, s)
      else unpublish_found node_id
          (which_vc_and_dc_by_fcd_id site (hosts.inventory s) t cm schedule volume_id) s

  -- A disk was attached to the machine of a node.
  pub record WasPublished (volume_id node_id : Text) (s s' : S) (context : Map Text) : Type 0 where
    pub found : FcdDiscoveryInfo
    pub vm : VirtualMachine
    pub path : Text
    pub uuid : Text
    pub is_there : IsFcd (hosts.inventory s) volume_id found
    pub place : IsPlace site cm (record { vc = found.vc_server; datacenter = found.datacenter })
    pub is_node : get_vm_by_dns_name site.api found.datacenter node_id ≡ ok vm
    pub backing : found.fcd_info.disk.object.file_path ≡ some path
    pub attached : attach_disk hosts found.datacenter vm path pvscsi_options s ≡ (ok uuid, s')
    pub told :
        context
        ≡ (codes "type", codes "First Class Disk")
          ∷ (codes "vcenter", found.vc_server)
          ∷ (codes "datacenter", found.datacenter.name)
          ∷ (codes "name", found.fcd_info.disk.object.name)
          ∷ (codes "parent_type", codes "Datastore")
          ∷ (codes "parent_name", found.fcd_info.datastore_info.info.name)
          ∷ (codes "page83data", uuid)
          ∷ []

  module _ (volume_id node_id : Text) (s s' : S) (context : Map Text) (r : FcdDiscoveryInfo)
      (there_it_is : IsFcd (hosts.inventory s) volume_id r)
      (p : IsPlace site cm (record { vc = r.vc_server; datacenter = r.datacenter }))
      (parent : r.fcd_info.disk.parent_type ≡ type_datastore) where
    attached-WasPublished :
        (vm : VirtualMachine) (path : Text)
        → get_vm_by_dns_name site.api r.datacenter node_id ≡ ok vm
        → r.fcd_info.disk.object.file_path ≡ some path
        → (o : Outcome Text × S) → attach_disk hosts r.datacenter vm path pvscsi_options s ≡ o
        → on_attached r o ≡ (done context, s')
        → WasPublished volume_id node_id s s' context
    attached-WasPublished vm path v b (ok uuid, s₁) a h =
        let k =
          sym (
            ap
              (λ type.
                replied
                  ((parent_of r.fcd_info type >>= (λ parent. ok (
                      (codes "type", codes "First Class Disk")
                      ∷ (codes "vcenter", r.vc_server)
                      ∷ (codes "datacenter", r.datacenter.name)
                      ∷ (codes "name", r.fcd_info.disk.object.name)
                      ∷ parent)))
                    >>= (λ attributes. ok (attributes ++ page83_entry uuid)))
                  s₁)
              parent)
          ∙ h in
        record {
          found = r;
          vm = vm;
          path = path;
          uuid = uuid;
          is_there = there_it_is;
          place = p;
          is_node = v;
          backing = b;
          attached = a ∙ ap (λ q. (ok uuid, q.1)) k;
          told = sym (context-of-done (ap (λ q. q.0) k));
        }
      where
        context-of-done : {m : Map Text} → done m ≡ done context → m ≡ context
        context-of-done e = ground arith
    attached-WasPublished vm path v b (err e, s₁) a h = absurd (ground (arith, ap (λ q. q.0) h))
    attached-WasPublished vm path v b (panic, s₁) a h = absurd (ground (arith, ap (λ q. q.0) h))

    path-WasPublished :
        (vm : VirtualMachine) (o : Option Text)
        → get_vm_by_dns_name site.api r.datacenter node_id ≡ ok vm
        → r.fcd_info.disk.object.file_path ≡ o
        → attach_at r vm o s ≡ (done context, s')
        → WasPublished volume_id node_id s s' context
    path-WasPublished vm none v b h = absurd (ground (arith, ap (λ q. q.0) h))
    path-WasPublished vm (some path) v b h =
        attached-WasPublished vm path v b (attach_disk hosts r.datacenter vm path pvscsi_options s)
          refl h

    vm-WasPublished :
        (o : Outcome VirtualMachine)
        → get_vm_by_dns_name site.api r.datacenter node_id ≡ o
        → publish_on r o s ≡ (done context, s')
        → WasPublished volume_id node_id s s' context
    vm-WasPublished (ok vm) v h = path-WasPublished vm r.fcd_info.disk.object.file_path v refl h
    vm-WasPublished (err e) v h = absurd (ground (arith, ap (λ q. q.0) h))
    vm-WasPublished panic v h = absurd (ground (arith, ap (λ q. q.0) h))

  -- If ControllerPublishVolume succeeds, it has found the disk in a datacenter of the configuration,
  -- and has attached its file to the machine that the node's name finds in the same datacenter. The
  -- context that it returns names that vCenter, datacenter and disk, the UUID of the disk as it was
  -- attached, and as its parent the datastore, also for a disk of a cluster. This holds for every
  -- interleaving of the goroutines of the search.
  pub controller_publish_volume_sound :
      (volume_id node_id : Text) (s s' : S) (context : Map Text)
      → controller_publish_volume volume_id node_id s ≡ (done context, s')
      → WasPublished volume_id node_id s s' context
  unfolding controller_publish_volume
  controller_publish_volume_sound volume_id node_id s s' context h =
      guarded (is_empty volume_id || is_empty node_id) h
    where
      on_search :
          (o : Outcome (Option FcdDiscoveryInfo))
          → which_vc_and_dc_by_fcd_id site (hosts.inventory s) t cm schedule volume_id ≡ o
          → publish_found node_id o s ≡ (done context, s')
          → WasPublished volume_id node_id s s' context
      on_search (ok none) w h = absurd (ground (arith, ap (λ p. p.0) h))
      on_search panic w h = absurd (ground (arith, ap (λ p. p.0) h))
      on_search (err e) w h = absurd (ground (arith, ap (λ p. p.0) h))
      on_search (ok (some r)) w h =
          let (r', same, there_it_is, p) =
            which_vc_and_dc_by_fcd_id_sound site (hosts.inventory s) t cm schedule volume_id
              (some r) w in
          let one : r' ≡ r = ground arith in
          let fcd = subst (IsFcd (hosts.inventory s) volume_id) one there_it_is in
          vm-WasPublished volume_id node_id s s' context r fcd
            (subst (λ x. IsPlace site cm (record { vc = x.vc_server; datacenter = x.datacenter }))
              one p)
            (exists-parent (hosts.inventory s) r.datacenter volume_id r.fcd_info fcd)
            (get_vm_by_dns_name site.api r.datacenter node_id) refl h

      guarded :
          (b : Bool)
          → ◌≡◌ {A = Reply (Map Text) × S}
              (if b
                then (refused internal, s)
                else publish_found node_id
                    (which_vc_and_dc_by_fcd_id site (hosts.inventory s) t cm schedule volume_id)
                    s)
              (done context, s')
          → WasPublished volume_id node_id s s' context
      guarded true h = absurd (ground (arith, ap (λ p. p.0) h))
      guarded false h =
          on_search (which_vc_and_dc_by_fcd_id site (hosts.inventory s) t cm schedule volume_id)
            refl h
