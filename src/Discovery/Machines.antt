-- ===== src/Discovery/Machines.antt =====
-- Where a machine that a search returns is, and when a search finds none.
use cloud_provider_vsphere.Common.{
  ℕ, ◌+◌, ◌≡◌, refl, sym, ap, subst, ◌∙◌, ◌≢◌, true, false, Option, some, List, [], ◌∷◌, map, Text,
  is_empty, Map, Error, no_vm_found, Outcome, ok, err, panic, All, here, there, Member,
  if◌then◌else◌, arith,
}
use cloud_provider_vsphere.Inventory.{Datacenter, VirtualMachine, Properties, Api}
use cloud_provider_vsphere.Connections.{Instance, ConnectionManager, connect_attempts}
use cloud_provider_vsphere.Search.{hit, Actor, start, run, result, Plan, Visit, is_finished, State}
use cloud_provider_vsphere.Search.Invariant.{AllVisit, AllPlan, result_sound}
use cloud_provider_vsphere.Search.Correct.{search_complete}
use cloud_provider_vsphere.Discovery.Reached.{IsReached, plan-IsReached}
use cloud_provider_vsphere.Discovery.{
  Site, Job, list_datacenters, plan_after, plan, FindVm, VmDiscoveryInfo, get_vm, vm_error, vm_hit,
  vm_probed, probe_vm, visit_datacenter, normal_id, which_vc_and_dc_by_node_id,
}

-- What the API says of a machine that was found by an identifier.
pub record IsMachine (api : Api) (by : FindVm) (id : Text) (r : VmDiscoveryInfo) : Type 0 where
  pub props : Properties
  pub found : get_vm api by r.datacenter id ≡ ok r.vm
  pub read : api.properties r.vm ≡ ok props
  pub uuid : r.uuid ≡ props.uuid
  pub node_name : r.node_name ≡ props.host_name

vm_error-ne-hit : {R : Type 0} (e : Error) (r : R) → vm_error e ≢ hit r
vm_error-ne-hit e r h = ground arith

probed-hit :
    (api : Api) (by : FindVm) (id : Text) (j : Job) (o : Outcome VirtualMachine)
    → get_vm api by j.datacenter id ≡ o
    → (r : VmDiscoveryInfo) → vm_probed api j o ≡ hit r
    → (r.vc_server ≡ j.vc) × (r.datacenter ≡ j.datacenter) × IsMachine api by id r
probed-hit api by id j (err e) f r h = absurd (vm_error-ne-hit e r h)
probed-hit api by id j panic f r h = absurd (ground arith)
probed-hit api by id j (ok vm) f r h = read_properties (api.properties vm) refl h
  where
    read_properties :
        (q : Outcome Properties)
        → api.properties vm ≡ q
        → vm_hit j vm q ≡ hit r
        → (r.vc_server ≡ j.vc) × (r.datacenter ≡ j.datacenter) × IsMachine api by id r
    read_properties (ok p) e h' =
        let same : record {
          datacenter = j.datacenter;
          vm = vm;
          vc_server = j.vc;
          uuid = p.uuid;
          node_name = p.host_name;
        }
            ≡ r =
          ground arith in
        subst
          (λ r'. (r'.vc_server ≡ j.vc) × (r'.datacenter ≡ j.datacenter) × IsMachine api by id r')
          same
          (refl, refl, record { props = p; found = f; read = e; uuid = refl; node_name = refl })
    read_properties (err x) e h' = absurd (ground arith)
    read_properties panic e h' = absurd (ground arith)

pub probe_vm-hit :
    (api : Api) (by : FindVm) (id : Text) (j : Job) (r : VmDiscoveryInfo)
    → probe_vm api by id j ≡ hit r
    → (r.vc_server ≡ j.vc) × (r.datacenter ≡ j.datacenter) × IsMachine api by id r
unfolding probe_vm
probe_vm-hit api by id j r h = probed-hit api by id j (get_vm api by j.datacenter id) refl r h

-- Every job comes from a vCenter of the configuration, and from one of its datacenters.
module _ {J : Type 0} (site : Site) (visit : Text → Datacenter → Visit J) (Q : J → Type 0) where
  AllOf : Text → List Datacenter → Type 0
  AllOf vc dcs = (dc : Datacenter) → Member dc dcs → AllVisit Q (visit vc dc)

  visits-All :
      (vc : Text) (dcs : List Datacenter) → AllOf vc dcs → All (AllVisit Q) (map (visit vc) dcs)
  unfolding AllOf
  visits-All vc [] f = tt
  visits-All vc (dc ∷ dcs) f = (f dc (here refl), visits-All vc dcs (λ d m. f d (there m)))

  after-All :
      (vc datacenters : Text) (o : Outcome (Unit {0}))
      → AllOf vc (list_datacenters site.api vc datacenters).1
      → AllPlan Q (plan_after site visit vc datacenters o)
  after-All vc datacenters (ok u) f = visits-All vc (list_datacenters site.api vc datacenters).1 f
  after-All vc datacenters (err e) f = tt
  after-All vc datacenters panic f = tt

  pub plan-All :
      (t : ℕ) (m : Map Instance) (cm : ConnectionManager)
      → ((vc : Text) (i : Instance)
          → Member (vc, i) m
          → (dc : Datacenter) → Member dc (list_datacenters site.api vc i.datacenters).1
          → AllVisit Q (visit vc dc))
      → All (AllPlan Q) (plan site visit t m cm)
  unfolding plan AllOf
  plan-All t [] cm f = tt
  plan-All t ((vc, i) ∷ rest) cm f = (
    after-All vc i.datacenters (connect_attempts site.vim site.world t vc cm).0
        (f vc i (here refl)),
    plan-All (t + 6) rest (connect_attempts site.vim site.world t vc cm).1
        (λ k x m. f k x (there m)),
  )

-- The place of a job in the configuration.
abbrev pub IsPlace : Site → ConnectionManager → Job → Type 0
IsPlace site cm j =
    (i : Instance) × Member (j.vc, i) cm.instances
    × Member j.datacenter (list_datacenters site.api j.vc i.datacenters).1

module _ (site : Site) (t : ℕ) (cm : ConnectionManager) (schedule : List Actor) (id : Text)
    (by : FindVm) where
  -- A machine that is returned is there, for every interleaving of the goroutines: the API finds it
  -- by the identifier in the datacenter returned, its properties are those returned, the vCenter is
  -- one of the configuration, and the datacenter one of those listed for it.
  pub which_vc_and_dc_by_node_id_sound :
      (o : Option VmDiscoveryInfo)
      → which_vc_and_dc_by_node_id site t cm schedule id by ≡ ok o
      → (r : VmDiscoveryInfo) × (o ≡ some r)
        × IsMachine site.api by (normal_id by id) r
        × IsPlace site cm (record { vc = r.vc_server; datacenter = r.datacenter })
  unfolding which_vc_and_dc_by_node_id
  which_vc_and_dc_by_node_id_sound o h =
      let (r, e, j, place, hits) =
        result_sound (probe_vm site.api by (normal_id by id)) (IsPlace site cm)
          (plan site visit_datacenter t cm.instances cm) schedule no_vm_found o
          (plan-All site visit_datacenter (IsPlace site cm) t cm.instances cm
            (λ vc i m dc k. ((i, m, k), tt)))
          (ground arith) in
      let (same_vc, same_dc, machine) = probe_vm-hit site.api by (normal_id by id) j r hits in
      (
        r,
        e,
        machine,
        subst (IsPlace site cm) (λ k. record { vc = sym same_vc k; datacenter = sym same_dc k })
            place,
      )

  -- The search as it runs for the call.
  abbrev pub plans_of : List (Plan Job)
  plans_of = plan site visit_datacenter t cm.instances cm

  abbrev pub end_state : State Job VmDiscoveryInfo
  end_state = run (probe_vm site.api by (normal_id by id)) schedule (start plans_of)

  probe_vm-found :
      (vc : Text) (dc : Datacenter) (vm : VirtualMachine) (p : Properties)
      → get_vm site.api by dc (normal_id by id) ≡ ok vm
      → site.api.properties vm ≡ ok p
      → probe_vm site.api by (normal_id by id) (record { vc = vc; datacenter = dc })
        ≡ hit (record {
          datacenter = dc;
          vm = vm;
          vc_server = vc;
          uuid = p.uuid;
          node_name = p.host_name;
        })
  unfolding probe_vm
  probe_vm-found vc dc vm p e f =
      ap (vm_probed site.api (record { vc = vc; datacenter = dc })) e
      ∙ ap (vm_hit (record { vc = vc; datacenter = dc }) vm) f

  -- For every interleaving and an identifier that is not empty: if a vCenter can be connected to in
  -- its turn, the API finds the machine in one of its datacenters, the properties of the machine
  -- can be read, and the goroutines have ended, the call returns a machine, however many other
  -- vCenters and datacenters fail. The machine that it returns is found by the identifier in the
  -- datacenter returned, which is one of the configuration.
  pub which_vc_and_dc_by_node_id_complete :
      (vc : Text) (dc : Datacenter) (vm : VirtualMachine) (p : Properties)
      → is_empty id ≡ false
      → IsReached site t cm.instances cm vc dc
      → get_vm site.api by dc (normal_id by id) ≡ ok vm
      → site.api.properties vm ≡ ok p
      → is_finished end_state ≡ true
      → (r : VmDiscoveryInfo) × (which_vc_and_dc_by_node_id site t cm schedule id by ≡ ok (some r))
        × IsMachine site.api by (normal_id by id) r
        × IsPlace site cm (record { vc = r.vc_server; datacenter = r.datacenter })
  unfolding which_vc_and_dc_by_node_id
  which_vc_and_dc_by_node_id_complete vc dc vm p n reached e f done =
      let (r, j', h', found) =
        search_complete (probe_vm site.api by (normal_id by id)) plans_of schedule no_vm_found
          (record { vc = vc; datacenter = dc }) _
          (plan-IsReached site t cm.instances cm vc dc reached, probe_vm-found vc dc vm p e f)
          done in
      let returned =
        ap (λ b. if b then err no_vm_found else result no_vm_found end_state) n ∙ found in
      let (r', same, machine, place) = which_vc_and_dc_by_node_id_sound (some r) returned in
      let one : r' ≡ r = ground arith in
      (
        r,
        returned,
        subst (IsMachine site.api by (normal_id by id)) one machine,
        subst (λ x. IsPlace site cm (record { vc = x.vc_server; datacenter = x.datacenter })) one
            place,
      )

  -- An empty identifier is refused without a search.
  pub which_vc_and_dc_by_node_id_empty :
      id ≡ [] → which_vc_and_dc_by_node_id site t cm schedule id by ≡ err no_vm_found
  unfolding which_vc_and_dc_by_node_id
  which_vc_and_dc_by_node_id_empty e = rw e refl
