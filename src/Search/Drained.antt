-- ===== src/Search/Drained.antt =====
-- A worker ends only after it has reported a hit, or on a channel that is closed and empty.
use cloud_provider_vsphere.Common.{
  ◌≡◌, refl, ◌∙◌, ◌≢◌, ◌⊎◌, inl, inr, true, Option, none, some, List, [], ◌∷◌, ◌++◌, Error, length,
  get_elem?, set, ltb, replicate, ℕ, zero, suc, if_ind, arith, Member, here, there, Member-of_set,
  length-set, not-Any-nil,
}
use cloud_provider_vsphere.Search.{
  Probe, hit, missing, failed, skipped, fault, batch, Plan, Producer, next_vc, in_vc, sending,
  closed, Worker, ready, probing, reporting, done, State, Actor, producer, worker, produce, work,
  step, advance, run, start, conclude, take_job, last_err, queue_size, pool_size, is_closed,
}

module _ {J R : Type 0} (probe : J → Probe R) where
  abbrev pub Closed : State J R → Type 0
  Closed s = (s.queue ≡ []) × (s.producer ≡ closed)

  pub record Drained (s : State J R) : Type 0 where
    pub ended : Member done s.workers → (s.found ≡ true) ⊎ Closed s
    pub size : length s.workers ≡ pool_size

  abbrev Keeps : Option (State J R) → Type 0
  Keeps none = Unit
  Keeps (some s) = Drained s

  -- The producer steps only while it has not closed the channel.
  goes_on :
      (s : State J R) (p : Producer J) (q : List J) (e : Option Error)
      → s.producer ≢ closed
      → Drained s
      → Drained (record s { producer = p; queue = q; global_err = e })
  goes_on s p q e open_ d = record {
    ended = λ m. elim (d.ended m) [ inl f ↦ inl f | inr c ↦ absurd (open_ c.1) ];
    size = d.size;
  }

  produce-Drained :
      (p : Producer J) (s : State J R) → s.producer ≡ p → Drained s → Keeps (produce p s)
  unfolding produce
  produce-Drained (next_vc []) s at d = goes_on s closed s.queue s.global_err (λ h. cc) d
  produce-Drained (next_vc (p ∷ ps)) s at d =
      if_ind Keeps s.found (λ _. goes_on s closed s.queue s.global_err (λ h. cc) d)
        (λ _. goes_on s _ s.queue (last_err s.global_err p.faults) (λ h. cc) d)
  produce-Drained (in_vc [] ps) s at d = goes_on s _ s.queue s.global_err (λ h. cc) d
  produce-Drained (in_vc (fault x ∷ vs) ps) s at d =
      if_ind Keeps s.found (λ _. goes_on s _ s.queue s.global_err (λ h. cc) d)
        (λ _. goes_on s _ s.queue (some x) (λ h. cc) d)
  produce-Drained (in_vc (batch js ∷ vs) ps) s at d =
      if_ind Keeps s.found (λ _. goes_on s _ s.queue s.global_err (λ h. cc) d)
        (λ _. goes_on s _ s.queue s.global_err (λ h. cc) d)
  produce-Drained (sending [] vs ps) s at d = goes_on s _ s.queue s.global_err (λ h. cc) d
  produce-Drained (sending (j ∷ js) vs ps) s at d =
      if_ind Keeps (ltb (length s.queue) queue_size)
        (λ _. goes_on s (sending js vs ps) (s.queue ++ j ∷ []) s.global_err (λ h. cc) d) (λ _. tt)
  produce-Drained closed s at d = tt

  -- A worker that goes on to `w`, which is no end.
  keep_worker :
      (s : State J R) (i : ℕ) (w : Worker J) (q : List J) (e : Option Error) (o : Option R)
      → w ≢ done
      → (s.queue ≡ [] → q ≡ [])
      → Drained s
      → Drained (record s { queue = q; workers = set s.workers i w; global_err = e; info = o })
  keep_worker s i w q e o alive k d = record {
    ended = λ m. elim (Member-of_set s.workers i w m) [
      | inl same ↦ absurd (alive same)
      | inr old ↦ elim (d.ended old) [ inl f ↦ inl f | inr c ↦ inr (k c.0, c.1) ]
    ];
    size = length-set s.workers i w ∙ d.size;
  }

  conclude-Drained : (i : ℕ) (o : Probe R) (s : State J R) → Drained s → Drained (conclude i o s)
  conclude-Drained i (hit r) s d =
      keep_worker s i reporting s.queue s.global_err (some r) (cc) (λ e. e) d
  conclude-Drained i missing s d = keep_worker s i ready s.queue s.global_err s.info (cc) (λ e. e) d
  conclude-Drained i (failed x) s d = keep_worker s i ready s.queue (some x) s.info (cc) (λ e. e) d
  conclude-Drained i skipped s d = keep_worker s i ready s.queue s.global_err s.info (cc) (λ e. e) d

  is_closed_lem : (p : Producer J) → is_closed p ≡ true → p ≡ closed
  is_closed_lem p h = ground arith

  take_job-Drained :
      (i : ℕ) (q : List J) (s : State J R) → s.queue ≡ q → Drained s → Keeps (take_job i q s)
  take_job-Drained i [] s e d =
      if_ind Keeps (is_closed s.producer)
        (λ c. record {
          ended = λ _. inr (e, is_closed_lem s.producer c);
          size = length-set s.workers i done ∙ d.size;
        })
        (λ _. tt)
  take_job-Drained i (x ∷ q) s e d =
      keep_worker s i (probing x) q s.global_err s.info (cc) (λ h. cc) d

  work-Drained : (i : ℕ) (w : Worker J) (s : State J R) → Drained s → Keeps (work probe i w s)
  unfolding work
  work-Drained i ready s d = take_job-Drained i s.queue s refl d
  work-Drained i (probing x) s d = conclude-Drained i (probe x) s d
  work-Drained i reporting s d = record {
    ended = λ _. inl refl;
    size = length-set s.workers i done ∙ d.size;
  }
  work-Drained i done s d = tt

  worker-Drained :
      (i : ℕ) (s : State J R) (o : Option (Worker J))
      → Drained s
      → Keeps (elim o [ none ↦ none | some w ↦ work probe i w s ])
  worker-Drained i s none d = tt
  worker-Drained i s (some w) d = work-Drained i w s d

  step-Drained : (a : Actor) (s : State J R) → Drained s → Keeps (step probe a s)
  unfolding step
  step-Drained producer s d = produce-Drained s.producer s refl d
  step-Drained (worker i) s d = worker-Drained i s (get_elem? s.workers i) d

  advance-Drained :
      (o : Option (State J R)) (s : State J R) → Keeps o → Drained s → Drained (advance o s)
  advance-Drained none s k d = d
  advance-Drained (some s') s k d = k

  pub run-Drained :
      (schedule : List Actor) (s : State J R) → Drained s → Drained (run probe schedule s)
  unfolding run
  run-Drained [] s d = d
  run-Drained (a ∷ rest) s d =
      run-Drained rest (advance (step probe a s) s)
        (advance-Drained (step probe a s) s (step-Drained a s d) d)

  pub start-Drained : (plans : List (Plan J)) → Drained (start plans)
  unfolding start
  start-Drained plans = record { ended = λ m. absurd (no_end pool_size m); size = refl }
    where
      no_end : (n : ℕ) → ¬ Member {A = Worker J} done (replicate n ready)
      no_end zero m = not-Any-nil m
      no_end (suc n) (here e) = cc
      no_end (suc n) (there m) = no_end n m
