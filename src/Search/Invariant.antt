-- ===== src/Search/Invariant.antt =====
-- What holds of a search at every moment, and what its result is worth.
use cloud_provider_vsphere.Common.{
  ℕ, ◌≡◌, refl, true, Option, none, some, List, [], ◌∷◌, ◌++◌, Error, ok, All, All-append, All-set,
  All-get_elem?, length, get_elem?, set, ltb, if_ind, sym, All-replicate, arith, is_some,
}
use cloud_provider_vsphere.Search.{
  Probe, hit, missing, failed, skipped, Visit, fault, batch, Plan, Producer, next_vc, in_vc,
  sending, closed, Worker, ready, probing, reporting, done, State, Actor, producer, worker, produce,
  work, step, advance, run, start, result, conclude, take_job, last_err, queue_size, pool_size,
  is_closed,
}

module _ {J : Type 0} (Q : J → Type 0) where
  abbrev pub AllVisit : Visit J → Type 0
  AllVisit (fault e) = Unit
  AllVisit (batch js) = All Q js

  -- `Q` holds of every job of a plan, or that the producer still has to send.
  abbrev pub AllPlan : Plan J → Type 0
  AllPlan p = All AllVisit p.visits

  abbrev pub AllProducer : Producer J → Type 0
  AllProducer (next_vc ps) = All AllPlan ps
  AllProducer (in_vc vs ps) = All AllVisit vs × All AllPlan ps
  AllProducer (sending js vs ps) = All Q js × All AllVisit vs × All AllPlan ps
  AllProducer closed = Unit

  abbrev pub AllWorker : Worker J → Type 0
  AllWorker (probing j) = Q j
  AllWorker _ = Unit

module _ {J R : Type 0} (probe : J → Probe R) (Q : J → Type 0) where
  -- The information written is that of a job with `Q` that was hit.
  abbrev pub Found : Option R → Type 0
  Found none = Unit
  Found (some r) = (j : J) × Q j × (probe j ≡ hit r)

  abbrev pub Reports : Option R → Worker J → Type 0
  Reports info reporting = is_some info ≡ true
  Reports info _ = Unit

  pub record Inv (s : State J R) : Type 0 where
    pub at_producer : AllProducer Q s.producer
    pub in_queue : All Q s.queue
    pub at_workers : All (AllWorker Q) s.workers
    pub info_found : Found s.info
    pub reports : All (Reports s.info) s.workers
    pub flagged : s.found ≡ true → is_some s.info ≡ true

  abbrev pub Holds : Option (State J R) → Type 0
  Holds none = Unit
  Holds (some s) = Inv s

  keep_producer :
      (s : State J R) (p : Producer J) (q : List J) (e : Option Error)
      → Inv s
      → AllProducer Q p
      → All Q q
      → Inv (record s { producer = p; queue = q; global_err = e })
  keep_producer s p q e v h k = record {
    at_producer = h;
    in_queue = k;
    at_workers = v.at_workers;
    info_found = v.info_found;
    reports = v.reports;
    flagged = v.flagged;
  }

  produce-Inv : (p : Producer J) (s : State J R) → AllProducer Q p → Inv s → Holds (produce p s)
  unfolding produce
  produce-Inv (next_vc []) s h v = keep_producer s closed s.queue s.global_err v tt v.in_queue
  produce-Inv (next_vc (p ∷ ps)) s h v =
      if_ind Holds s.found (λ _. keep_producer s closed s.queue s.global_err v tt v.in_queue)
        (λ _. keep_producer s _ s.queue (last_err s.global_err p.faults) v h v.in_queue)
  produce-Inv (in_vc [] ps) s h v = keep_producer s _ s.queue s.global_err v h.1 v.in_queue
  produce-Inv (in_vc (fault x ∷ vs) ps) s h v =
      if_ind Holds s.found (λ _. keep_producer s _ s.queue s.global_err v h.1 v.in_queue)
        (λ _. keep_producer s _ s.queue (some x) v (h.0.1, h.1) v.in_queue)
  produce-Inv (in_vc (batch js ∷ vs) ps) s h v =
      if_ind Holds s.found (λ _. keep_producer s _ s.queue s.global_err v h.1 v.in_queue)
        (λ _. keep_producer s _ s.queue s.global_err v (h.0.0, h.0.1, h.1) v.in_queue)
  produce-Inv (sending [] vs ps) s h v =
      keep_producer s _ s.queue s.global_err v (h.1, h.2) v.in_queue
  produce-Inv (sending (j ∷ js) vs ps) s h v =
      if_ind Holds (ltb (length s.queue) queue_size)
        (λ _.
          keep_producer s (sending js vs ps) (s.queue ++ j ∷ []) s.global_err v (h.0.1, h.1, h.2)
            (All-append Q s.queue (j ∷ []) v.in_queue (h.0.0, tt)))
        (λ _. tt)
  produce-Inv closed s h v = tt

  -- Once the information is written, it stays written.
  Reports-hit : (info : Option R) (r : R) (w : Worker J) → Reports info w → Reports (some r) w
  Reports-hit info r ready h = tt
  Reports-hit info r (probing j) h = tt
  Reports-hit info r reporting h = refl
  Reports-hit info r done h = tt

  Reports-hit-All :
      (info : Option R) (r : R) (ws : List (Worker J))
      → All (Reports info) ws
      → All (Reports (some r)) ws
  Reports-hit-All info r [] h = tt
  Reports-hit-All info r (w ∷ ws) h = (Reports-hit info r w h.0, Reports-hit-All info r ws h.1)

  -- A worker that goes on to `w` without touching the flag or the information.
  keep_worker :
      (s : State J R) (i : ℕ) (w : Worker J) (q : List J) (e : Option Error)
      → Inv s
      → AllWorker Q w
      → Reports s.info w
      → All Q q
      → Inv (record s { queue = q; workers = set s.workers i w; global_err = e })
  keep_worker s i w q e v h r k = record {
    at_producer = v.at_producer;
    in_queue = k;
    at_workers = All-set (AllWorker Q) s.workers i w v.at_workers h;
    info_found = v.info_found;
    reports = All-set (Reports s.info) s.workers i w v.reports r;
    flagged = v.flagged;
  }

  conclude-Inv :
      (i : ℕ) (o : Probe R) (j : J) (s : State J R)
      → probe j ≡ o
      → Q j
      → Inv s
      → Inv (conclude i o s)
  conclude-Inv i (hit r) j s e h v = record {
    at_producer = v.at_producer;
    in_queue = v.in_queue;
    at_workers = All-set (AllWorker Q) s.workers i reporting v.at_workers tt;
    info_found = (j, h, e);
    reports =
        All-set (Reports (some r)) s.workers i reporting (Reports-hit-All s.info r _ v.reports)
          refl;
    flagged = λ _. refl;
  }
  conclude-Inv i missing j s e h v = keep_worker s i ready s.queue s.global_err v tt tt v.in_queue
  conclude-Inv i (failed x) j s e h v = keep_worker s i ready s.queue (some x) v tt tt v.in_queue
  conclude-Inv i skipped j s e h v = keep_worker s i ready s.queue s.global_err v tt tt v.in_queue

  take_job-Inv : (i : ℕ) (q : List J) (s : State J R) → All Q q → Inv s → Holds (take_job i q s)
  take_job-Inv i [] s h v =
      if_ind Holds (is_closed s.producer)
        (λ _. keep_worker s i done s.queue s.global_err v tt tt v.in_queue) (λ _. tt)
  take_job-Inv i (j ∷ q) s h v = keep_worker s i (probing j) q s.global_err v h.0 tt h.1

  work-Inv :
      (i : ℕ) (w : Worker J) (s : State J R)
      → AllWorker Q w
      → Reports s.info w
      → Inv s
      → Holds (work probe i w s)
  unfolding work
  work-Inv i ready s h r v = take_job-Inv i s.queue s v.in_queue v
  work-Inv i (probing j) s h r v = conclude-Inv i (probe j) j s refl h v
  work-Inv i reporting s h r v = record {
    at_producer = v.at_producer;
    in_queue = v.in_queue;
    at_workers = All-set (AllWorker Q) s.workers i done v.at_workers tt;
    info_found = v.info_found;
    reports = All-set (Reports s.info) s.workers i done v.reports tt;
    flagged = λ _. r;
  }
  work-Inv i done s h r v = tt

  worker-Inv :
      (i : ℕ) (s : State J R)
      → Inv s
      → (o : Option (Worker J)) → get_elem? s.workers i ≡ o
      → Holds (elim o [ none ↦ none | some w ↦ work probe i w s ])
  worker-Inv i s v none e = tt
  worker-Inv i s v (some w) e =
      work-Inv i w s (All-get_elem? (AllWorker Q) s.workers i v.at_workers e)
        (All-get_elem? (Reports s.info) s.workers i v.reports e) v

  pub step-Inv : (a : Actor) (s : State J R) → Inv s → Holds (step probe a s)
  unfolding step
  step-Inv producer s v = produce-Inv s.producer s v.at_producer v
  step-Inv (worker i) s v = worker-Inv i s v (get_elem? s.workers i) refl

  advance-Inv : (o : Option (State J R)) (s : State J R) → Holds o → Inv s → Inv (advance o s)
  advance-Inv none s h v = v
  advance-Inv (some s') s h v = h

  pub run-Inv : (schedule : List Actor) (s : State J R) → Inv s → Inv (run probe schedule s)
  unfolding run
  run-Inv [] s v = v
  run-Inv (a ∷ rest) s v =
      run-Inv rest (advance (step probe a s) s) (advance-Inv (step probe a s) s (step-Inv a s v) v)

  pub start-Inv : (plans : List (Plan J)) → All (AllPlan Q) plans → Inv (start plans)
  unfolding start
  start-Inv plans h = record {
    at_producer = h;
    in_queue = tt;
    at_workers = All-replicate (AllWorker Q) pool_size ready tt;
    info_found = tt;
    reports = All-replicate (Reports none) pool_size ready tt;
    flagged = λ h'. absurd (ground arith);
  }

  sound_info :
      (info : Option R) (o : Option R)
      → info ≡ o
      → is_some info ≡ true
      → Found info
      → (r : R) × (o ≡ some r) × Found (some r)
  sound_info none o e h f = absurd (ground arith)
  sound_info (some r) o e h f = (r, sym e, f)

  -- Whatever the interleaving and at whatever moment the search is looked at: what it returns
  -- with success is there, and is what the probe of a job of the plans reported.
  pub result_sound :
      (plans : List (Plan J)) (schedule : List Actor) (absent : Error) (o : Option R)
      → All (AllPlan Q) plans
      → result absent (run probe schedule (start plans)) ≡ ok o
      → (r : R) × (o ≡ some r) × (j : J) × Q j × (probe j ≡ hit r)
  unfolding result
  result_sound plans schedule absent o h e =
      let s = run probe schedule (start plans) in
      let v = run-Inv schedule (start plans) (start-Inv plans h) in
      let (r, e', f) = sound_info s.info o (ground arith) (v.flagged (ground arith)) v.info_found in
      (r, e', f.0, f.1, f.2)
