-- ===== src/Search/Progress.antt =====
-- The search cannot block: while a worker has not ended, an actor can step, and every step uses
-- up some of the work that is left.
use cloud_provider_vsphere.Common.{
  ℕ, zero, suc, ◌+◌, ◌*◌, ◌<◌, ◌≡◌, refl, Option, none, some, List, [], ◌∷◌, length, length-append,
  get_elem?, set, ltb, arith, if_ind, ap,
}
use cloud_provider_vsphere.Search.{
  Probe, hit, missing, failed, skipped, Visit, fault, batch, Plan, Producer, next_vc, in_vc,
  sending, closed, Worker, ready, probing, reporting, done, State, Actor, producer, worker, produce,
  work, step, conclude, take_job, queue_size, is_closed,
}

module _ {J : Type 0} where
  -- Steps left, at most: four for each job, and some for each place that the producer passes.
  abbrev pub visit_cost : Visit J → ℕ
  visit_cost (fault e) = 1
  visit_cost (batch js) = 2 + 4 * length js

  abbrev pub visits_cost : List (Visit J) → ℕ
  visits_cost [] = 0
  visits_cost (v ∷ vs) = visit_cost v + visits_cost vs

  abbrev pub plans_cost : List (Plan J) → ℕ
  plans_cost [] = 1
  plans_cost (p ∷ ps) = 2 + visits_cost p.visits + plans_cost ps

  abbrev pub producer_cost : Producer J → ℕ
  producer_cost (next_vc ps) = plans_cost ps
  producer_cost (in_vc vs ps) = 1 + visits_cost vs + plans_cost ps
  producer_cost (sending js vs ps) = 2 + 4 * length js + visits_cost vs + plans_cost ps
  producer_cost closed = 0

  abbrev pub worker_cost : Worker J → ℕ
  worker_cost ready = 2
  worker_cost (probing j) = 4
  worker_cost reporting = 1
  worker_cost done = 0

  abbrev pub workers_cost : List (Worker J) → ℕ
  workers_cost [] = 0
  workers_cost (w ∷ ws) = worker_cost w + workers_cost ws

  workers_cost-set :
      (ws : List (Worker J)) (i : ℕ) (v : Worker J) {w : Worker J}
      → get_elem? ws i ≡ some w
      → workers_cost (set ws i v) + worker_cost w ≡ workers_cost ws + worker_cost v
  workers_cost-set [] i v e = absurd (ground arith)
  workers_cost-set (x ∷ ws) zero v e = ground arith
  workers_cost-set (x ∷ ws) (suc i) v e = omega (arith, workers_cost-set ws i v e)

  plans_cost-pos : (ps : List (Plan J)) → 0 < plans_cost ps
  plans_cost-pos [] = omega arith
  plans_cost-pos (p ∷ ps) = omega arith

module _ {J R : Type 0} where
  -- The work that is left.
  abbrev pub cost : State J R → ℕ
  cost s = producer_cost s.producer + 3 * length s.queue + workers_cost s.workers

  abbrev pub Below : ℕ → Option (State J R) → Type 0
  Below n none = Unit
  Below n (some s) = cost s < n

  produce-Below : (p : Producer J) (s : State J R) → s.producer ≡ p → Below (cost s) (produce p s)
  unfolding produce
  produce-Below (next_vc []) s e = rw e (omega arith)
  produce-Below (next_vc (p ∷ ps)) s e =
      if_ind (Below (cost s)) s.found (λ _. rw e (omega (arith, plans_cost-pos ps)))
        (λ _. rw e (omega arith))
  produce-Below (in_vc [] ps) s e = rw e (omega arith)
  produce-Below (in_vc (fault x ∷ vs) ps) s e =
      if_ind (Below (cost s)) s.found (λ _. rw e (omega arith)) (λ _. rw e (omega arith))
  produce-Below (in_vc (batch js ∷ vs) ps) s e =
      if_ind (Below (cost s)) s.found (λ _. rw e (omega arith)) (λ _. rw e (omega arith))
  produce-Below (sending [] vs ps) s e = rw e (omega arith)
  produce-Below (sending (j ∷ js) vs ps) s e =
      if_ind (Below (cost s)) (ltb (length s.queue) queue_size)
        (λ _. rw e (omega (arith, length-append s.queue (j ∷ [])))) (λ _. tt)
  produce-Below closed s e = tt

  module _ (probe : J → Probe R) where
    conclude-Below :
        (i : ℕ) (j : J) (o : Probe R) (s : State J R)
        → get_elem? s.workers i ≡ some (probing j)
        → cost (conclude i o s) < cost s
    conclude-Below i j (hit r) s e = omega (arith, workers_cost-set s.workers i reporting e)
    conclude-Below i j missing s e = omega (arith, workers_cost-set s.workers i ready e)
    conclude-Below i j (failed x) s e = omega (arith, workers_cost-set s.workers i ready e)
    conclude-Below i j skipped s e = omega (arith, workers_cost-set s.workers i ready e)

    take_job-Below :
        (i : ℕ) (q : List J) (s : State J R)
        → s.queue ≡ q
        → get_elem? s.workers i ≡ some ready
        → Below (cost s) (take_job i q s)
    take_job-Below i [] s e at =
        if_ind (Below (cost s)) (is_closed s.producer)
          (λ _. omega (arith, workers_cost-set s.workers i done at)) (λ _. tt)
    take_job-Below i (x ∷ q) s e at =
        omega (arith, workers_cost-set s.workers i (probing x) at, ap length e)

    work-Below :
        (i : ℕ) (w : Worker J) (s : State J R)
        → get_elem? s.workers i ≡ some w
        → Below (cost s) (work probe i w s)
    unfolding work
    work-Below i ready s e = take_job-Below i s.queue s refl e
    work-Below i (probing j) s e = conclude-Below i j (probe j) s e
    work-Below i reporting s e = omega (arith, workers_cost-set s.workers i done e)
    work-Below i done s e = tt

    worker-Below :
        (i : ℕ) (s : State J R) (o : Option (Worker J))
        → get_elem? s.workers i ≡ o
        → Below (cost s) (elim o [ none ↦ none | some w ↦ work probe i w s ])
    worker-Below i s none e = tt
    worker-Below i s (some w) e = work-Below i w s e

    pub step-Below : (a : Actor) (s : State J R) → Below (cost s) (step probe a s)
    unfolding step
    step-Below producer s = produce-Below s.producer s refl
    step-Below (worker i) s = worker-Below i s (get_elem? s.workers i) refl
