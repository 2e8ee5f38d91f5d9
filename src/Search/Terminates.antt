-- ===== src/Search/Terminates.antt =====
-- A search ends: some actor can always step, and only so many steps can be made.
use cloud_provider_vsphere.Common.{
  ℕ, zero, suc, ◌+◌, ◌<◌, ◌≤◌, ◌≡◌, refl, inl, inr, true, false, Option, none, some, List, [], ◌∷◌,
  get_elem?, arith, if_ind, Bool-cases, subst, sym, ap, ◌∙◌, if◌then◌else◌,
}
use cloud_provider_vsphere.Search.{
  Probe, Plan, Producer, next_vc, in_vc, sending, closed, Worker, ready, probing, reporting, done,
  State, Actor, producer, worker, produce, work, step, advance, run, start, is_closed, all_done,
  is_done, is_finished, take_job, become,
}
use cloud_provider_vsphere.Search.Progress.{cost, Below, step-Below}

unfinished :
    {J : Type 0} (ws : List (Worker J))
    → all_done ws ≡ false
    → (i : ℕ) × (w : Worker J) × (get_elem? ws i ≡ some w) × (is_done w ≡ false)
unfinished [] h = absurd (ground arith)
unfinished (w ∷ ws) h = elim (Bool-cases (is_done w)) [
  | inl ended ↦ let (i, v, e, n) = unfinished ws (ground arith) in (suc i, v, e, n)
  | inr active ↦ (0, w, refl, active)
]

module _ {J R : Type 0} where
  abbrev pub Steps : Option (State J R) → Type 0
  Steps o = (s : State J R) × (o ≡ some s)

  -- The producer can step unless it has closed the channel, or the channel is full.
  produce-Steps :
      (p : Producer J) (s : State J R) → s.queue ≡ [] → is_closed p ≡ false → Steps (produce p s)
  unfolding produce
  produce-Steps (next_vc []) s q n = (_, refl)
  produce-Steps (next_vc (p ∷ ps)) s q n = if_ind Steps s.found (λ _. (_, refl)) (λ _. (_, refl))
  produce-Steps (in_vc [] ps) s q n = (_, refl)
  produce-Steps (in_vc (v ∷ vs) ps) s q n = if_ind Steps s.found (λ _. (_, refl)) (λ _. (_, refl))
  produce-Steps (sending [] vs ps) s q n = (_, refl)
  produce-Steps (sending (j ∷ js) vs ps) s q n = rw q (_, refl)
  produce-Steps closed s q n = absurd (ground arith)

  module _ (probe : J → Probe R) where
    abbrev CanStep : State J R → Type 0
    CanStep s = (a : Actor) × (s' : State J R) × (step probe a s ≡ some s')

    step-worker :
        (i : ℕ) (s : State J R) {w : Worker J}
        → get_elem? s.workers i ≡ some w
        → step probe (worker i) s ≡ work probe i w s
    unfolding step
    step-worker i s e = ap (λ o. elim o [ none ↦ none | some w ↦ work probe i w s ]) e

    worker-Steps :
        (i : ℕ) (w : Worker J) (s : State J R)
        → get_elem? s.workers i ≡ some w
        → Steps (work probe i w s)
        → CanStep s
    worker-Steps i w s e (s', h) = (worker i, s', step-worker i s e ∙ h)

    ready_steps :
        (i : ℕ) (s : State J R) (q : List J)
        → s.queue ≡ q
        → get_elem? s.workers i ≡ some ready
        → CanStep s
    unfolding step work
    ready_steps i s (x ∷ q) e at = (worker i, _, step-worker i s at ∙ ap (λ l. take_job i l s) e)
    ready_steps i s [] e at = elim (Bool-cases (is_closed s.producer)) [
      | inl shut ↦ (
        worker i,
        become i done s,
        step-worker i s at
            ∙ ap (λ l. take_job i l s) e
            ∙ ap (λ b. if b then some (become i done s) else none) shut,
      )
      | inr open_ ↦ let (s', h) = produce-Steps s.producer s e open_ in (producer, s', h)
    ]

    active_steps :
        (i : ℕ) (w : Worker J) (s : State J R)
        → get_elem? s.workers i ≡ some w
        → is_done w ≡ false
        → CanStep s
    unfolding work
    active_steps i ready s e n = ready_steps i s s.queue refl e
    active_steps i (probing j) s e n = worker-Steps i (probing j) s e (_, refl)
    active_steps i reporting s e n = worker-Steps i reporting s e (_, refl)
    active_steps i done s e n = absurd (ground arith)

    -- No deadlock: in every state in which a worker has not ended, some actor can step.
    pub never_blocked :
        (s : State J R)
        → is_finished s ≡ false
        → (a : Actor) × (s' : State J R) × (step probe a s ≡ some s')
    never_blocked s h = let (i, w, e, n) = unfinished s.workers h in active_steps i w s e n

    ends_within :
        (n : ℕ) (s : State J R)
        → cost s < n
        → (schedule : List Actor) × (is_finished (run probe schedule s) ≡ true)
    unfolding run
    ends_within zero s h = absurd (omega arith)
    ends_within (suc n) s h = elim (Bool-cases (is_finished s)) [
      | inl f ↦ ([], f)
      | inr f ↦
          let (a, s', e) = never_blocked s f in
          let below : cost s' < cost s = subst (Below (cost s)) e (step-Below probe a s) in
          let (schedule, end) = ends_within n s' (omega arith) in
          (
            a ∷ schedule,
            subst (λ o. is_finished (run probe schedule (advance o s)) ≡ true) (sym e) end,
          )
    ]

    -- The number of turns of a schedule in which an actor does step.
    unfoldable pub moves : List Actor → State J R → ℕ
    moves [] s = 0
    moves (a ∷ rest) s = elim (step probe a s) [
      | none ↦ moves rest s
      | some s' ↦ suc (moves rest s')
    ]

    -- From the start, some schedule takes the search to its end.
    pub search_ends :
        (plans : List (Plan J))
        → (schedule : List Actor) × (is_finished (run probe schedule (start plans)) ≡ true)
    search_ends plans = ends_within (suc (cost {R = R} (start plans))) (start plans) (omega arith)

    moves-step :
        (o : Option (State J R)) (n : ℕ) (rest : List Actor) (s : State J R)
        → ((s' : State J R) → moves rest s' + cost (run probe rest s') ≤ cost s')
        → Below (cost s) o
        → (elim o [ none ↦ moves rest s | some s' ↦ suc (moves rest s') ])
            + cost (run probe rest (advance o s))
          ≤ cost s
    moves-step none n rest s ih b = ih s
    moves-step (some s') n rest s ih b = omega (arith, ih s')

    -- Every schedule makes at most as many steps as the work that it uses up.
    pub moves-le-cost :
        (schedule : List Actor) (s : State J R)
        → moves schedule s + cost (run probe schedule s) ≤ cost s
    unfolding moves run
    moves-le-cost [] s = omega arith
    moves-le-cost (a ∷ rest) s =
        moves-step (step probe a s) 0 rest s (moves-le-cost rest) (step-Below probe a s)
