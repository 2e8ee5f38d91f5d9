-- ===== src/Disks/Search.antt =====
-- pkg/common/connectionmanager/search.go, WhichVCandDCByFCDId: which vCenter and datacenter hold a
-- first class disk. The search is that of `Search`, and its probe is DoesFirstClassDiskExist.
use cloud_provider_vsphere.Common.{
  ℕ, ◌≡◌, ◌≢◌, refl, sym, ap, subst, ◌∙◌, true, false, Option, some, List, Text, is_empty, Error,
  no_disk_id_found, Outcome, ok, err, panic, if◌then◌else◌, arith,
}
use cloud_provider_vsphere.Inventory.{Datacenter}
use cloud_provider_vsphere.Connections.{ConnectionManager}
use cloud_provider_vsphere.Search.{
  Probe, hit, missing, failed, skipped, Actor, Plan, State, start, run, result, is_finished,
}
use cloud_provider_vsphere.Search.Invariant.{result_sound}
use cloud_provider_vsphere.Search.Correct.{Hit, search_complete, search_fails}
use cloud_provider_vsphere.Discovery.{Site, Job, plan, visit_datacenter}
use cloud_provider_vsphere.Discovery.Machines.{IsPlace, plan-All}
use cloud_provider_vsphere.Discovery.Reached.{IsReached, plan-IsReached}
use cloud_provider_vsphere.Disks.{FirstClassDiskInfo, Vslm}
use cloud_provider_vsphere.Disks.Datacenters.{does_first_class_disk_exist}

pub record FcdDiscoveryInfo : Type 0 where
  pub datacenter : Datacenter
  pub fcd_info : FirstClassDiskInfo
  pub vc_server : Text

-- Errors other than the absence of the disk are kept.
abbrev pub fcd_error : {R : Type 0} → Error → Probe R
fcd_error no_disk_id_found = missing
fcd_error e = failed e

abbrev pub fcd_probed : Job → Outcome FirstClassDiskInfo → Probe FcdDiscoveryInfo
fcd_probed j (ok fcd) = hit (record { datacenter = j.datacenter; fcd_info = fcd; vc_server = j.vc })
fcd_probed j (err e) = fcd_error e
fcd_probed j panic = skipped

-- The body of a worker's loop.
unfoldable pub probe_fcd : Vslm → Text → Job → Probe FcdDiscoveryInfo
probe_fcd vslm fcd_id j = fcd_probed j (does_first_class_disk_exist vslm j.datacenter fcd_id)

fcd_error-ne-hit : {R : Type 0} (e : Error) (r : R) → fcd_error e ≢ hit r
fcd_error-ne-hit e r h = ground arith

-- What was found for a job.
abbrev pub IsFcd : Vslm → Text → FcdDiscoveryInfo → Type 0
IsFcd vslm fcd_id r = does_first_class_disk_exist vslm r.datacenter fcd_id ≡ ok r.fcd_info

fcd_probed-hit :
    (vslm : Vslm) (fcd_id : Text) (j : Job) (o : Outcome FirstClassDiskInfo)
    → does_first_class_disk_exist vslm j.datacenter fcd_id ≡ o
    → (r : FcdDiscoveryInfo) → fcd_probed j o ≡ hit r
    → (r.vc_server ≡ j.vc) × (r.datacenter ≡ j.datacenter) × IsFcd vslm fcd_id r
fcd_probed-hit vslm fcd_id j (err e) f r h = absurd (fcd_error-ne-hit e r h)
fcd_probed-hit vslm fcd_id j panic f r h = absurd (ground arith)
fcd_probed-hit vslm fcd_id j (ok fcd) f r h =
    let same : record { datacenter = j.datacenter; fcd_info = fcd; vc_server = j.vc } ≡ r =
      ground arith in
    subst (λ r'. (r'.vc_server ≡ j.vc) × (r'.datacenter ≡ j.datacenter) × IsFcd vslm fcd_id r') same
      (refl, refl, f)

module _ (site : Site) (vslm : Vslm) (t : ℕ) (cm : ConnectionManager) (schedule : List Actor)
    (fcd_id : Text) where
  -- The plans of the search, and the state in which it ends.
  abbrev pub fcd_plans : List (Plan Job)
  fcd_plans = plan site visit_datacenter t cm.instances cm

  unfoldable pub fcd_search : State Job FcdDiscoveryInfo
  unfolding probe_fcd
  fcd_search = run (probe_fcd vslm fcd_id) schedule (start fcd_plans)

  -- `WhichVCandDCByFCDId`, for a schedule of its goroutines.
  unfoldable pub which_vc_and_dc_by_fcd_id : Outcome (Option FcdDiscoveryInfo)
  unfolding fcd_search
  which_vc_and_dc_by_fcd_id =
      if is_empty fcd_id then err no_disk_id_found else result no_disk_id_found fcd_search

  -- A disk that is returned is there, for every interleaving of the goroutines: DoesFirstClassDiskExist
  -- returns it in the datacenter returned, the vCenter is one of the configuration, and the datacenter
  -- one of those listed for it.
  pub which_vc_and_dc_by_fcd_id_sound :
      (o : Option FcdDiscoveryInfo)
      → which_vc_and_dc_by_fcd_id ≡ ok o
      → (r : FcdDiscoveryInfo) × (o ≡ some r)
        × IsFcd vslm fcd_id r
        × IsPlace site cm (record { vc = r.vc_server; datacenter = r.datacenter })
  unfolding which_vc_and_dc_by_fcd_id fcd_search probe_fcd
  which_vc_and_dc_by_fcd_id_sound o h =
      let (r, e, j, place, hits) =
        result_sound (probe_fcd vslm fcd_id) (IsPlace site cm) fcd_plans schedule no_disk_id_found o
          (plan-All site visit_datacenter (IsPlace site cm) t cm.instances cm
            (λ vc i m dc k. ((i, m, k), tt)))
          (ground arith) in
      let (same_vc, same_dc, found) =
        fcd_probed-hit vslm fcd_id j (does_first_class_disk_exist vslm j.datacenter fcd_id) refl r
          hits in
      (
        r,
        e,
        found,
        subst (IsPlace site cm) (λ k. record { vc = sym same_vc k; datacenter = sym same_dc k })
            place,
      )

  -- For every interleaving in which the goroutines have ended, and an identifier that is not empty: if
  -- a vCenter can be connected to in its turn and DoesFirstClassDiskExist finds the disk in one of its
  -- datacenters, the call returns a disk, however many other vCenters and datacenters fail. The disk that it returns exists in the
  -- datacenter returned, which is one of the configuration.
  pub which_vc_and_dc_by_fcd_id_complete :
      (vc : Text) (dc : Datacenter) (d : FirstClassDiskInfo)
      → is_empty fcd_id ≡ false
      → IsReached site t cm.instances cm vc dc
      → does_first_class_disk_exist vslm dc fcd_id ≡ ok d
      → is_finished fcd_search ≡ true
      → (r : FcdDiscoveryInfo) × (which_vc_and_dc_by_fcd_id ≡ ok (some r))
        × IsFcd vslm fcd_id r
        × IsPlace site cm (record { vc = r.vc_server; datacenter = r.datacenter })
  unfolding which_vc_and_dc_by_fcd_id fcd_search probe_fcd
  which_vc_and_dc_by_fcd_id_complete vc dc d n reached e f =
      let (r, j', h', found) =
        search_complete (probe_fcd vslm fcd_id) fcd_plans schedule no_disk_id_found
          (record { vc = vc; datacenter = dc })
          (record { datacenter = dc; fcd_info = d; vc_server = vc })
          (
            plan-IsReached site t cm.instances cm vc dc reached,
            ap (fcd_probed (record { vc = vc; datacenter = dc })) e,
          )
          f in
      let returned =
        ap (λ b. if b then err no_disk_id_found else result no_disk_id_found fcd_search) n
        ∙ found in
      let (r', same, exists, place) = which_vc_and_dc_by_fcd_id_sound (some r) returned in
      let one : r' ≡ r = ground arith in
      (
        r,
        returned,
        subst (IsFcd vslm fcd_id) one exists,
        subst (λ x. IsPlace site cm (record { vc = x.vc_server; datacenter = x.datacenter })) one
            place,
      )

  -- For every interleaving in which the goroutines have ended: if the call for an identifier that is
  -- not empty returns an error, the probe of no datacenter that was to be visited finds the disk.
  pub which_vc_and_dc_by_fcd_id_fails :
      (e : Error)
      → is_empty fcd_id ≡ false
      → is_finished fcd_search ≡ true
      → which_vc_and_dc_by_fcd_id ≡ err e
      → (j : Job) (r : FcdDiscoveryInfo) → ¬ Hit (probe_fcd vslm fcd_id) fcd_plans j r
  unfolding which_vc_and_dc_by_fcd_id fcd_search
  which_vc_and_dc_by_fcd_id_fails e n f h =
      search_fails (probe_fcd vslm fcd_id) fcd_plans schedule no_disk_id_found e f (
        sym (ap (λ b. if b then err no_disk_id_found else result no_disk_id_found fcd_search) n)
        ∙ h)
