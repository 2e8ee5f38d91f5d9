-- ===== src/Discovery/Reached.antt =====
-- The datacenters at which a search over the vCenters arrives.
use cloud_provider_vsphere.Common.{
  ℕ, ◌+◌, ◌≡◌, sym, ap, subst, ◌⊎◌, inl, inr, List, [], ◌∷◌, map, Text, Map, Outcome, ok, err,
  panic, Any, here, there, not-Any-nil, Member, arith,
}
use cloud_provider_vsphere.Inventory.{Datacenter}
use cloud_provider_vsphere.Connections.{Instance, ConnectionManager, connect_attempts}
use cloud_provider_vsphere.Search.Complete.{InVisit, InPlan}
use cloud_provider_vsphere.Discovery.{Site, list_datacenters, visit_datacenter, plan_after, plan}

module _ (site : Site) where
  -- The attempts to connect to the vCenter succeed when its turn comes, with what the vCenters before
  -- it left, and the datacenter is one of those listed for it.
  abbrev pub IsReached : ℕ → Map Instance → ConnectionManager → Text → Datacenter → Type 0
  IsReached t [] cm at dc = ⊥
  IsReached t ((vc, i) ∷ rest) cm at dc =
      ((at ≡ vc)
        × ((connect_attempts site.vim site.world t vc cm).0 ≡ ok tt)
        × Member dc (list_datacenters site.api vc i.datacenters).1)
      ⊎ IsReached (t + 6) rest (connect_attempts site.vim site.world t vc cm).1 at dc

  visits-InVisit :
      (vc : Text) (dc : Datacenter) (dcs : List Datacenter)
      → Member dc dcs
      → Any (InVisit (record { vc = vc; datacenter = dc })) (map (visit_datacenter vc) dcs)
  visits-InVisit vc dc [] m = absurd (not-Any-nil m)
  visits-InVisit vc dc (d ∷ dcs) (here e) =
      here (here (ap (λ x. record { vc = vc; datacenter = x }) e))
  visits-InVisit vc dc (d ∷ dcs) (there m) = there (visits-InVisit vc dc dcs m)

  after-InPlan :
      (vc datacenters : Text) (dc : Datacenter) (o : Outcome (Unit {0}))
      → o ≡ ok tt
      → Member dc (list_datacenters site.api vc datacenters).1
      → InPlan
          (record { vc = vc; datacenter = dc })
          (plan_after site visit_datacenter vc datacenters o)
  after-InPlan vc datacenters dc (ok u) e m =
      visits-InVisit vc dc (list_datacenters site.api vc datacenters).1 m
  after-InPlan vc datacenters dc (err x) e m = absurd (ground arith)
  after-InPlan vc datacenters dc panic e m = absurd (ground arith)

  -- A search has a job for every datacenter that is reached.
  pub plan-IsReached :
      (t : ℕ) (m : Map Instance) (cm : ConnectionManager) (at : Text) (dc : Datacenter)
      → IsReached t m cm at dc
      → Any (InPlan (record { vc = at; datacenter = dc })) (plan site visit_datacenter t m cm)
  unfolding plan
  plan-IsReached t [] cm at dc r = absurd r
  plan-IsReached t ((vc, i) ∷ rest) cm at dc (inl (e, c, k)) = here (
      subst
        (λ x.
          InPlan (record { vc = x; datacenter = dc })
            (plan_after site visit_datacenter vc i.datacenters
              (connect_attempts site.vim site.world t vc cm).0))
        (sym e)
        (after-InPlan vc i.datacenters dc (connect_attempts site.vim site.world t vc cm).0 c k))
  plan-IsReached t ((vc, i) ∷ rest) cm at dc (inr r) =
      there (plan-IsReached (t + 6) rest (connect_attempts site.vim site.world t vc cm).1 at dc r)
