-- ===== src/Search/Complete.antt =====
-- No job that would be hit is lost: while nothing is found, it is with the producer, in the
-- channel or with a worker.
use cloud_provider_vsphere.Common.{
  ℕ, ◌≡◌, refl, ap, subst, ◌≢◌, ◌⊎◌, inl, inr, true, Option, none, some, List, [], ◌∷◌, ◌++◌, Error,
  length, get_elem?, set, ltb, if_ind, Member, Any, here, there, not-Any-nil, Any-cons,
  Any-append_left, Any-append_right, Member-set_self, Member-set_other,
}
use cloud_provider_vsphere.Search.{
  Probe, hit, missing, failed, skipped, Visit, fault, batch, Plan, Producer, next_vc, in_vc,
  sending, closed, Worker, ready, probing, reporting, done, State, Actor, producer, worker, produce,
  work, step, advance, run, conclude, take_job, last_err, queue_size, is_closed,
}

module _ {J : Type 0} (j : J) where
  abbrev pub InVisit : Visit J → Type 0
  InVisit (fault e) = ⊥
  InVisit (batch js) = Member j js

  -- The job is one of the plan.
  abbrev pub InPlan : Plan J → Type 0
  InPlan p = Any InVisit p.visits

  abbrev pub InProducer : Producer J → Type 0
  InProducer (next_vc ps) = Any InPlan ps
  InProducer (in_vc vs ps) = Any InVisit vs ⊎ Any InPlan ps
  InProducer (sending js vs ps) = Member j js ⊎ (Any InVisit vs ⊎ Any InPlan ps)
  InProducer closed = ⊥

module _ {J R : Type 0} (probe : J → Probe R) (j : J) {r : R} (hits : probe j ≡ hit r) where
  pub data Covered (s : State J R) : Type 0 where
    by_flag : s.found ≡ true → Covered s
    by_report : Member reporting s.workers → Covered s
    in_queue : Member j s.queue → Covered s
    at_worker : Member (probing j) s.workers → Covered s
    at_producer : InProducer j s.producer → Covered s

  abbrev Keeps : Option (State J R) → Type 0
  Keeps none = Unit
  Keeps (some s) = Covered s

  -- A step of the producer to `p` and the channel `q`.
  keep_producer :
      (s : State J R) (p : Producer J) (q : List J) (e : Option Error)
      → Covered s
      → (Member j s.queue → Member j q)
      → (InProducer j s.producer → InProducer j p ⊎ Member j q)
      → Covered (record s { producer = p; queue = q; global_err = e })
  keep_producer s p q e (by_flag f) k h = by_flag f
  keep_producer s p q e (by_report m) k h = by_report m
  keep_producer s p q e (in_queue m) k h = in_queue (k m)
  keep_producer s p q e (at_worker m) k h = at_worker m
  keep_producer s p q e (at_producer m) k h = elim (h m) [
    | inl a ↦ at_producer a
    | inr b ↦ in_queue b
  ]

  -- The same where the channel is not touched.
  goes_on :
      (s : State J R) (p : Producer J) (e : Option Error) (from : Producer J)
      → s.producer ≡ from
      → Covered s
      → (InProducer j from → InProducer j p)
      → Covered (record s { producer = p; global_err = e })
  goes_on s p e from at c h =
      keep_producer s p s.queue e c (λ m. m) (λ m. inl (h (subst (InProducer j) at m)))

  split_batch :
      (js : List J) (vs : List (Visit J)) (ps : List (Plan J))
      → Any (InVisit j) (batch js ∷ vs) ⊎ Any (InPlan j) ps
      → InProducer j (sending js vs ps)
  split_batch js vs ps (inr m) = inr (inr m)
  split_batch js vs ps (inl (here m)) = inl m
  split_batch js vs ps (inl (there m)) = inr (inl m)

  skip_fault :
      (e : Error) (vs : List (Visit J)) (ps : List (Plan J))
      → Any (InVisit j) (fault e ∷ vs) ⊎ Any (InPlan j) ps
      → InProducer j (in_vc vs ps)
  skip_fault e vs ps (inr m) = inr m
  skip_fault e vs ps (inl (here m)) = absurd m
  skip_fault e vs ps (inl (there m)) = inl m

  skip_nil {κ} : {A B : Type κ} {P : A → Type κ} → Any P [] ⊎ B → B
  skip_nil (inl m) = absurd (not-Any-nil m)
  skip_nil (inr b) = b

  push_job :
      (x : J) (js q : List J) (vs : List (Visit J)) (ps : List (Plan J))
      → InProducer j (sending (x ∷ js) vs ps)
      → InProducer j (sending js vs ps) ⊎ Member j (q ++ x ∷ [])
  push_job x js q vs ps (inr m) = inl (inr m)
  push_job x js q vs ps (inl (here m)) = inr (Any-append_right q (here m))
  push_job x js q vs ps (inl (there m)) = inl (inl m)

  produce-Covered :
      (p : Producer J) (s : State J R) → s.producer ≡ p → Covered s → Keeps (produce p s)
  unfolding produce
  produce-Covered (next_vc []) s at c = goes_on s closed s.global_err _ at c not-Any-nil
  produce-Covered (next_vc (p ∷ ps)) s at c =
      if_ind Keeps s.found (λ f. by_flag f)
        (λ _. goes_on s _ (last_err s.global_err p.faults) _ at c Any-cons)
  produce-Covered (in_vc [] ps) s at c = goes_on s _ s.global_err _ at c skip_nil
  produce-Covered (in_vc (fault x ∷ vs) ps) s at c =
      if_ind Keeps s.found (λ f. by_flag f) (λ _. goes_on s _ (some x) _ at c (skip_fault x vs ps))
  produce-Covered (in_vc (batch js ∷ vs) ps) s at c =
      if_ind Keeps s.found (λ f. by_flag f)
        (λ _. goes_on s _ s.global_err _ at c (split_batch js vs ps))
  produce-Covered (sending [] vs ps) s at c = goes_on s _ s.global_err _ at c skip_nil
  produce-Covered (sending (x ∷ js) vs ps) s at c =
      if_ind Keeps (ltb (length s.queue) queue_size)
        (λ _.
          keep_producer s (sending js vs ps) (s.queue ++ x ∷ []) s.global_err c
            (Any-append_left (x ∷ []))
            (λ m. push_job x js s.queue vs ps (subst (InProducer j) at m)))
        (λ _. tt)
  produce-Covered closed s at c = tt

  -- A worker that goes on from `w` to `v`, where `w` neither reports nor probes the job.
  keep_worker :
      (s : State J R) (i : ℕ) (w v : Worker J) (q : List J) (e : Option Error) (o : Option R)
      → get_elem? s.workers i ≡ some w
      → w ≢ reporting
      → (w ≢ probing j)
      → (Member j s.queue → Member j q ⊎ (v ≡ probing j))
      → Covered s
      → Covered (record s { queue = q; workers = set s.workers i v; global_err = e; info = o })
  keep_worker s i w v q e o at nr np k (by_flag f) = by_flag f
  keep_worker s i w v q e o at nr np k (by_report m) = elim (Member-set_other s.workers i v at m) [
    | inl same ↦ absurd (nr same)
    | inr kept ↦ by_report kept
  ]
  keep_worker s i w v q e o at nr np k (in_queue m) = elim (k m) [
    | inl kept ↦ in_queue kept
    | inr taken ↦
        at_worker
          (subst (λ u. Member u (set s.workers i v)) taken (Member-set_self s.workers i v at))
  ]
  keep_worker s i w v q e o at nr np k (at_worker m) = elim (Member-set_other s.workers i v at m) [
    | inl same ↦ absurd (np same)
    | inr kept ↦ at_worker kept
  ]
  keep_worker s i w v q e o at nr np k (at_producer m) = at_producer m

  conclude-Covered :
      (i : ℕ) (x : J) (s : State J R) (o : Probe R)
      → probe x ≡ o
      → get_elem? s.workers i ≡ some (probing x)
      → Covered s
      → Covered (conclude i o s)
  conclude-Covered i x s (hit y) e at c = by_report (Member-set_self s.workers i reporting at)
  conclude-Covered i x s missing e at c =
      keep_worker s i _ ready s.queue s.global_err s.info at (cc) (λ h. cc) (λ m. inl m) c
  conclude-Covered i x s (failed y) e at c =
      keep_worker s i _ ready s.queue (some y) s.info at (cc) (λ h. cc) (λ m. inl m) c
  conclude-Covered i x s skipped e at c =
      keep_worker s i _ ready s.queue s.global_err s.info at (cc) (λ h. cc) (λ m. inl m) c

  take_queued :
      (x : J) (q : List J) (s : State J R)
      → s.queue ≡ x ∷ q
      → Member j s.queue
      → Member j q ⊎ (probing x ≡ probing j)
  take_queued x q s e m = elim (Any-cons (subst (Member j) e m)) [
    | inl same ↦ inr (ap probing same)
    | inr later ↦ inl later
  ]

  take_job-Covered :
      (i : ℕ) (q : List J) (s : State J R)
      → s.queue ≡ q
      → get_elem? s.workers i ≡ some ready
      → Covered s
      → Keeps (take_job i q s)
  take_job-Covered i [] s e at c =
      if_ind Keeps (is_closed s.producer)
        (λ _. keep_worker s i ready done s.queue s.global_err s.info at (cc) (cc) (λ m. inl m) c)
        (λ _. tt)
  take_job-Covered i (x ∷ q) s e at c =
      keep_worker s i ready (probing x) q s.global_err s.info at (cc) (cc) (take_queued x q s e) c

  work-Covered :
      (i : ℕ) (w : Worker J) (s : State J R)
      → get_elem? s.workers i ≡ some w
      → Covered s
      → Keeps (work probe i w s)
  unfolding work
  work-Covered i ready s at c = take_job-Covered i s.queue s refl at c
  work-Covered i (probing x) s at c = conclude-Covered i x s (probe x) refl at c
  work-Covered i reporting s at c = by_flag refl
  work-Covered i done s at c = tt

  worker-Covered :
      (i : ℕ) (s : State J R) (o : Option (Worker J))
      → get_elem? s.workers i ≡ o
      → Covered s
      → Keeps (elim o [ none ↦ none | some w ↦ work probe i w s ])
  worker-Covered i s none at c = tt
  worker-Covered i s (some w) at c = work-Covered i w s at c

  step-Covered : (a : Actor) (s : State J R) → Covered s → Keeps (step probe a s)
  unfolding step
  step-Covered producer s c = produce-Covered s.producer s refl c
  step-Covered (worker i) s c = worker-Covered i s (get_elem? s.workers i) refl c

  advance-Covered :
      (o : Option (State J R)) (s : State J R) → Keeps o → Covered s → Covered (advance o s)
  advance-Covered none s k c = c
  advance-Covered (some s') s k c = k

  pub run-Covered :
      (schedule : List Actor) (s : State J R) → Covered s → Covered (run probe schedule s)
  unfolding run
  run-Covered [] s c = c
  run-Covered (a ∷ rest) s c =
      run-Covered rest (advance (step probe a s) s)
        (advance-Covered (step probe a s) s (step-Covered a s c) c)
