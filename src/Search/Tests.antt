-- ===== src/Search/Tests.antt =====
-- A search over two vCenters, one of which cannot be reached.
use cloud_provider_vsphere.Common.{
  ℕ, ◌≡◌, refl, ◌+◌, ◌≤◌, true, some, List, [], ◌∷◌, ◌++◌, Error, ok, err, no_vm_found, foreign,
  codes, nat_eq, if◌then◌else◌, here, there, replicate, arith,
}
use cloud_provider_vsphere.Search.{
  Probe, hit, missing, batch, Plan, Actor, producer, worker, State, start, run, step, work, produce,
  result, is_finished,
}
use cloud_provider_vsphere.Search.Invariant.{result_sound}
use cloud_provider_vsphere.Search.Correct.{Hit, search_complete}
use cloud_provider_vsphere.Search.Progress.{cost}
use cloud_provider_vsphere.Search.Terminates.{moves, moves-le-cost, never_blocked, search_ends}

searching : Unit {0}
unfolding start run step work produce result
searching = tt

abbrev probe_two : ℕ → Probe ℕ
probe_two n = if nat_eq n 2 then hit 20 else missing

abbrev down : Error
down = foreign (codes "connection refused")

abbrev two_plans : List (Plan ℕ)
two_plans =
    record { faults = down ∷ []; visits = [] }
    ∷ record { faults = []; visits = batch (1 ∷ []) ∷ batch (2 ∷ []) ∷ [] }
    ∷ []

-- Worker 0 takes the first job, worker 1 the second, and all are called once more.
abbrev rounds : List Actor
rounds =
    replicate 12 producer
    ++ worker 0
      ∷ worker 1
      ∷ worker 0
      ∷ worker 1
      ∷ worker 1
      ∷ worker 0
      ∷ worker 2
      ∷ worker 3
      ∷ worker 4
      ∷ worker 5
      ∷ worker 6
      ∷ worker 7
      ∷ []

rounds_finish : is_finished (run probe_two rounds (start two_plans)) ≡ true
unfolding searching
rounds_finish = refl

rounds_find : result no_vm_found (run probe_two rounds (start two_plans)) ≡ ok (some 20)
unfolding searching
rounds_find = refl

abbrev probe_none : ℕ → Probe ℕ
probe_none n = missing

rounds_fail : result no_vm_found (run probe_none rounds (start two_plans)) ≡ err down
unfolding searching
rounds_fail = refl

rounds_end : is_finished (run probe_none rounds (start two_plans)) ≡ true
unfolding searching
rounds_end = refl

result_sound_example : (r : ℕ) × (some 20 ≡ some r) × (j : ℕ) × (j ≤ 2) × (probe_two j ≡ hit r)
result_sound_example =
    result_sound probe_two (λ j. j ≤ 2) two_plans rounds no_vm_found (some 20) (omega arith)
      rounds_find

search_complete_example :
    (r : ℕ) × (j : ℕ) × Hit probe_two two_plans j r
    × (result no_vm_found (run probe_two rounds (start two_plans)) ≡ ok (some r))
search_complete_example =
    search_complete probe_two two_plans rounds no_vm_found 2 20
      (there (here (there (here (here refl)))), refl) rounds_finish

never_blocked_example :
    (a : Actor) × (s : State ℕ ℕ) × (step probe_two a (start two_plans) ≡ some s)
never_blocked_example = never_blocked probe_two (start two_plans) (unfold start in refl)

search_ends_example :
    (schedule : List Actor) × (is_finished (run probe_two schedule (start two_plans)) ≡ true)
search_ends_example = search_ends probe_two two_plans

moves-le-cost_example :
    moves probe_two rounds (start two_plans) + cost (run probe_two rounds (start two_plans))
    ≤ cost (start {R = ℕ} two_plans)
moves-le-cost_example = moves-le-cost probe_two rounds (start two_plans)
