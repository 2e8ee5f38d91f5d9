-- ===== src/Discovery/Pairs.antt =====
-- pkg/common/connectionmanager/list.go, ListAllVCandDCPairs: the datacenters of all vCenters that can
-- be connected to. sort.Slice is a parameter. A call of the API that lists datacenters does not panic.
use mathlib.Core.List.Perm
use mathlib.Core.List.{Perm, map-append}
use cloud_provider_vsphere.Common.{
  ℕ, ◌+◌, ◌≡◌, refl, sym, ap, subst, ◌∙◌, Bool, ◌&&◌, List, [], ◌∷◌, ◌++◌, map, concat, Text, Map,
  Outcome, ok, err, panic, ◌>>=◌, text_less, arith,
}
use cloud_provider_vsphere.Inventory.{Datacenter}
use cloud_provider_vsphere.Connections.{Instance, ConnectionManager, connect_attempts}
use cloud_provider_vsphere.Search.{Visit, fault, batch, Plan}
use cloud_provider_vsphere.Discovery.{
  Site, Job, list_datacenters, visit_datacenter, plan_after, plan,
}

pub record ListDiscoveryInfo : Type 0 where
  pub vc_server : Text
  pub datacenter : Datacenter

-- The function that the pairs are sorted by.
abbrev pub pair_before : ListDiscoveryInfo → ListDiscoveryInfo → Bool
pair_before a b = text_less b.vc_server a.vc_server && text_less b.datacenter.name a.datacenter.name

-- sort.Slice, for the pairs.
abbrev pub SortPairs : Type 0
SortPairs =
    (ListDiscoveryInfo → ListDiscoveryInfo → Bool) → List ListDiscoveryInfo → List ListDiscoveryInfo

abbrev pub pair_at : Text → Datacenter → ListDiscoveryInfo
pair_at vc dc = record { vc_server = vc; datacenter = dc }

module _ (site : Site) where
  abbrev pub with_pairs :
      Text
      → Text
      → Outcome (Unit {0}) × ConnectionManager
      → Outcome (List ListDiscoveryInfo) × ConnectionManager
      → Outcome (List ListDiscoveryInfo) × ConnectionManager
  with_pairs vc datacenters (ok u, cm) further = (
    further.0
        >>= (λ pairs. ok (map (pair_at vc) (list_datacenters site.api vc datacenters).1 ++ pairs)),
    further.1,
  )
  with_pairs vc datacenters (err e, cm) further = further
  with_pairs vc datacenters (panic, cm) further = (panic, cm)

  -- The loop over the vCenters. The three attempts to connect take six ticks at most.
  unfoldable pub unsorted_pairs :
      ℕ → Map Instance → ConnectionManager → Outcome (List ListDiscoveryInfo) × ConnectionManager
  unfolding connect_attempts list_datacenters
  unsorted_pairs t [] cm = (ok [], cm)
  unsorted_pairs t ((vc, i) ∷ rest) cm =
      let (o, cm') = connect_attempts site.vim site.world t vc cm in
      with_pairs vc i.datacenters (o, cm') (unsorted_pairs (t + 6) rest cm')

  -- `ListAllVCandDCPairs`
  unfoldable pub list_all_vc_and_dc_pairs :
      SortPairs → ℕ → ConnectionManager → Outcome (List ListDiscoveryInfo) × ConnectionManager
  unfolding unsorted_pairs
  list_all_vc_and_dc_pairs sort t cm =
      let (o, cm') = unsorted_pairs t cm.instances cm in
      (o >>= (λ pairs. ok (sort pair_before pairs)), cm')

-- The jobs of a search.
abbrev pub visit_jobs : Visit Job → List Job
visit_jobs (fault e) = []
visit_jobs (batch js) = js

abbrev pub plan_jobs : Plan Job → List Job
plan_jobs p = concat (map visit_jobs p.visits)

abbrev pub job_of : ListDiscoveryInfo → Job
job_of p = record { vc = p.vc_server; datacenter = p.datacenter }

jobs-pairs :
    (vc : Text) (dcs : List Datacenter)
    → map job_of (map (pair_at vc) dcs) ≡ concat (map visit_jobs (map (visit_datacenter vc) dcs))
jobs-pairs vc [] = refl
jobs-pairs vc (dc ∷ dcs) = ap (record { vc = vc; datacenter = dc } ∷◌) (jobs-pairs vc dcs)

module _ (site : Site) where
  abbrev pub SamePlaces : Outcome (List ListDiscoveryInfo) → List (Plan Job) → Type 0
  SamePlaces o ps =
      (pairs : List ListDiscoveryInfo) → o ≡ ok pairs → map job_of pairs ≡ concat (map plan_jobs ps)

  with_pairs-SamePlaces :
      (vc datacenters : Text) (r : Outcome (Unit {0}) × ConnectionManager)
      (further : Outcome (List ListDiscoveryInfo) × ConnectionManager) (ps : List (Plan Job))
      → SamePlaces further.0 ps
      → SamePlaces
          (with_pairs site vc datacenters r further).0
          (plan_after site visit_datacenter vc datacenters r.0 ∷ ps)
  with_pairs-SamePlaces vc datacenters (ok u, cm) (ok rest, end_cm) ps f pairs h =
      let dcs = (list_datacenters site.api vc datacenters).1 in
      let same : map (pair_at vc) dcs ++ rest ≡ pairs = ground arith in
      sym (ap (map job_of) same)
      ∙ map-append job_of (map (pair_at vc) dcs) rest
      ∙ ap (λ l. l ++ map job_of rest) (jobs-pairs vc dcs)
      ∙ ap (concat (map visit_jobs (map (visit_datacenter vc) dcs)) ++◌) (f rest refl)
  with_pairs-SamePlaces vc datacenters (ok u, cm) (err e, end_cm) ps f pairs h =
      absurd (ground arith)
  with_pairs-SamePlaces vc datacenters (ok u, cm) (panic, end_cm) ps f pairs h =
      absurd (ground arith)
  with_pairs-SamePlaces vc datacenters (err e, cm) further ps f pairs h = f pairs h
  with_pairs-SamePlaces vc datacenters (panic, cm) further ps f pairs h = absurd (ground arith)

  unsorted_pairs-SamePlaces :
      (t : ℕ) (m : Map Instance) (cm : ConnectionManager)
      → SamePlaces (unsorted_pairs site t m cm).0 (plan site visit_datacenter t m cm)
  unfolding unsorted_pairs plan
  unsorted_pairs-SamePlaces t [] cm pairs h = ground arith
  unsorted_pairs-SamePlaces t ((vc, i) ∷ rest) cm pairs h =
      let r = connect_attempts site.vim site.world t vc cm in
      with_pairs-SamePlaces vc i.datacenters r (unsorted_pairs site (t + 6) rest r.1)
        (plan site visit_datacenter (t + 6) rest r.1) (unsorted_pairs-SamePlaces (t + 6) rest r.1)
        pairs h

  sorted-Perm :
      (sort : SortPairs) (o : Outcome (List ListDiscoveryInfo)) (ps : List (Plan Job))
      (pairs : List ListDiscoveryInfo)
      → ((l : List ListDiscoveryInfo) → Perm (sort pair_before l) l)
      → SamePlaces o ps
      → (o >>= (λ l. ok (sort pair_before l))) ≡ ok pairs
      → Perm (map job_of pairs) (concat (map plan_jobs ps))
  sorted-Perm sort (ok l) ps pairs s f h =
      let same : sort pair_before l ≡ pairs = ground arith in
      subst (Perm (map job_of pairs)) (f l refl)
        (Perm.map job_of (subst (λ x. Perm x l) same (s l)))
  sorted-Perm sort (err e) ps pairs s f h = absurd (ground arith)
  sorted-Perm sort panic ps pairs s f h = absurd (ground arith)

  -- The pairs that ListAllVCandDCPairs returns are, up to their order, the places where a search that
  -- starts at the same time with the same connections looks, each as often, if the sort permutes its
  -- list.
  pub list_all_vc_and_dc_pairs-plan :
      (sort : SortPairs) (t : ℕ) (cm cm' : ConnectionManager) (pairs : List ListDiscoveryInfo)
      → ((l : List ListDiscoveryInfo) → Perm (sort pair_before l) l)
      → list_all_vc_and_dc_pairs site sort t cm ≡ (ok pairs, cm')
      → Perm
          (map job_of pairs)
          (concat (map plan_jobs (plan site visit_datacenter t cm.instances cm)))
  unfolding list_all_vc_and_dc_pairs
  list_all_vc_and_dc_pairs-plan sort t cm cm' pairs s h =
      sorted-Perm sort (unsorted_pairs site t cm.instances cm).0
        (plan site visit_datacenter t cm.instances cm) pairs s
        (unsorted_pairs-SamePlaces t cm.instances cm) (ap (λ r. r.0) h)
