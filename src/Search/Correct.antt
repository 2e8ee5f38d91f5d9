-- ===== src/Search/Correct.antt =====
-- What a search that has ended returns.
use cloud_provider_vsphere.Common.{
  ◌<◌, ◌≡◌, refl, subst, inl, inr, true, some, List, [], ◌∷◌, Error, ok, err, All, length, arith,
  Member, Any, here, there, not-Any-nil,
}
use cloud_provider_vsphere.Search.{
  Probe, hit, Visit, fault, batch, Plan, Worker, probing, reporting, done, State, Actor, run, start,
  result, all_done, is_finished,
}
use cloud_provider_vsphere.Search.Invariant.{AllVisit, AllPlan, result_sound}
use cloud_provider_vsphere.Search.Complete.{
  InVisit, InPlan, InProducer, Covered, by_flag, by_report, in_queue, at_worker, at_producer,
  run-Covered,
}
use cloud_provider_vsphere.Search.Drained.{Drained, run-Drained, start-Drained}

module _ {J : Type 0} where
  all_done-Member :
      (ws : List (Worker J)) (w : Worker J) → all_done ws ≡ true → Member w ws → w ≡ done
  all_done-Member [] w h m = absurd (not-Any-nil m)
  all_done-Member (v ∷ ws) w h (here e) = ground arith
  all_done-Member (v ∷ ws) w h (there m) = all_done-Member ws w (ground arith) m

  all_done-ends : (ws : List (Worker J)) → all_done ws ≡ true → 0 < length ws → Member done ws
  all_done-ends [] h p = absurd (omega arith)
  all_done-ends (v ∷ ws) h p = here (ground arith)

  -- Every job of the plans is a job of the plans.
  members-InVisit : (v : Visit J) (Q : J → Type 0) → ((j : J) → InVisit j v → Q j) → AllVisit Q v
  members-InVisit (fault e) Q f = tt
  members-InVisit (batch js) Q f = go js (λ j m. f j m)
    where
      go : (js : List J) → ((j : J) → Member j js → Q j) → All Q js
      go [] g = tt
      go (j ∷ js) g = (g j (here refl), go js (λ k m. g k (there m)))

  members-visits :
      (vs : List (Visit J)) (Q : J → Type 0)
      → ((j : J) → Any (InVisit j) vs → Q j)
      → All (AllVisit Q) vs
  members-visits [] Q f = tt
  members-visits (v ∷ vs) Q f =
      (members-InVisit v Q (λ j m. f j (here m)), members-visits vs Q (λ j m. f j (there m)))

  members-plans :
      (ps : List (Plan J)) (Q : J → Type 0)
      → ((j : J) → Any (InPlan j) ps → Q j)
      → All (AllPlan Q) ps
  members-plans [] Q f = tt
  members-plans (p ∷ ps) Q f =
      (members-visits p.visits Q (λ j m. f j (here m)), members-plans ps Q (λ j m. f j (there m)))

-- The jobs of the plans for which the probe finds what is looked for.
abbrev pub Hit : {J R : Type 0} → (J → Probe R) → List (Plan J) → J → R → Type 0
Hit probe plans j r = Any (InPlan j) plans × (probe j ≡ hit r)

module _ {J R : Type 0} (probe : J → Probe R) where
  Covered-end :
      (s : State J R) (j : J) {r : R} (hits : probe j ≡ hit r)
      → is_finished s ≡ true
      → Drained probe s
      → Covered probe j hits s
      → s.found ≡ true
  Covered-end s j hits f d (by_flag e) = e
  Covered-end s j hits f d (by_report m) = absurd (cc (all_done-Member s.workers reporting f m))
  Covered-end s j hits f d (at_worker m) = absurd (cc (all_done-Member s.workers (probing j) f m))
  Covered-end s j hits f d (in_queue m) =
      elim (d.ended (all_done-ends s.workers f (omega (arith, d.size)))) [
        | inl e ↦ e
        | inr c ↦ absurd (not-Any-nil (subst (Member j) c.0 m))
      ]
  Covered-end s j hits f d (at_producer m) =
      elim (d.ended (all_done-ends s.workers f (omega (arith, d.size)))) [
        | inl e ↦ e
        | inr c ↦ absurd (subst (InProducer j) c.1 m)
      ]

  module _ (plans : List (Plan J)) (schedule : List Actor) (absent : Error) where
    start-found :
        (j : J) {r : R}
        → Any (InPlan j) plans
        → (hits : probe j ≡ hit r) → is_finished (run probe schedule (start plans)) ≡ true
        → (run probe schedule (start plans)).found ≡ true
    unfolding start
    start-found j m hits f =
        Covered-end _ j hits f
          (run-Drained probe schedule (start plans) (start-Drained probe plans))
          (run-Covered probe j hits schedule (start plans) (at_producer m))

    -- Whatever the interleaving: if the probe of some job of the plans is a hit, the search that
    -- has ended returns with success, and what it returns is the hit of a job of the plans.
    pub search_complete :
        (j : J) (r : R)
        → Hit probe plans j r
        → is_finished (run probe schedule (start plans)) ≡ true
        → (r' : R) × (j' : J) × Hit probe plans j' r'
          × (result absent (run probe schedule (start plans)) ≡ ok (some r'))
    unfolding result
    search_complete j r h f =
        let e = start-found j h.0 h.1 f in
        let s = run probe schedule (start plans) in
        let (r', e', j', m, p) =
          result_sound probe (λ k. Any (InPlan k) plans) plans schedule absent s.info
            (members-plans plans _ (λ k m. m)) (ground arith) in
        (r', j', (m, p), ground arith)

    -- If the search that has ended returns an error, no job of the plans is a hit.
    pub search_fails :
        (e : Error)
        → is_finished (run probe schedule (start plans)) ≡ true
        → result absent (run probe schedule (start plans)) ≡ err e
        → (j : J) (r : R) → ¬ Hit probe plans j r
    search_fails e f g j r h = let (r', j', h', o) = search_complete j r h f in cc (g, o)
