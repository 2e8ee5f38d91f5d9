-- ===== src/Search.antt =====
-- The search that pkg/common/connectionmanager/search.go and zones.go run four times: a producer
-- walks the vCenters and puts jobs into a bounded channel, a pool of workers takes jobs from it
-- and probes them, and the caller waits for the workers. A job is a datacenter, a cluster or a
-- host with its vCenter; `probe` is what a worker learns about it.
-- Interleavings are schedules: lists of actors, of which each takes its next step or, when it is
-- blocked or has ended, none. A step is what runs between two accesses to shared variables; two
-- writes of the global error in a row are one step, as nobody reads it before the workers end.
pub mod Invariant
pub mod Complete
pub mod Drained
pub mod Correct
pub mod Progress
pub mod Terminates
mod Tests
use cloud_provider_vsphere.Common.{
  ℕ, Bool, true, false, ◌&&◌, Option, none, some, List, [], ◌∷◌, ◌++◌, Error, Outcome, ok, err, ltb,
  length, get_elem?, set, replicate, if◌then◌else◌,
}

-- The number of workers, and the capacity of the channel.
abbrev pub pool_size : ℕ
pool_size = 8

abbrev pub queue_size : ℕ
queue_size = 80

-- What a worker learns about a job: the object looked for, its absence, an error that is kept for
-- the caller, or one that is only logged.
pub data Probe (R : Type 0) : Type 0 where
  hit : R → Probe R
  missing : Probe R
  failed : Error → Probe R
  skipped : Probe R

-- One round of the loop over the datacenters of a vCenter, after its test of the flag: an error,
-- or jobs to send.
pub data Visit (J : Type 0) : Type 0 where
  fault : Error → Visit J
  batch : List J → Visit J

-- One round of the loop over the vCenters, after its test of the flag: the errors met on the way
-- to the list of datacenters, and the rounds over that list.
pub record Plan (J : Type 0) : Type 0 where
  pub faults : List Error
  pub visits : List (Visit J)

pub data Producer (J : Type 0) : Type 0 where
  next_vc : List (Plan J) → Producer J
  in_vc : List (Visit J) → List (Plan J) → Producer J
  sending : List J → List (Visit J) → List (Plan J) → Producer J
  closed : Producer J

pub data Worker (J : Type 0) : Type 0 where
  ready : Worker J
  probing : J → Worker J
  -- the information is written, the flag not yet
  reporting : Worker J
  done : Worker J

pub record State (J R : Type 0) : Type 0 where
  pub producer : Producer J
  pub queue : List J
  pub workers : List (Worker J)
  pub found : Bool
  pub global_err : Option Error
  pub info : Option R

pub data Actor : Type 0 where
  producer : Actor
  worker : ℕ → Actor

abbrev pub last_err : Option Error → List Error → Option Error
last_err e [] = e
last_err e (x ∷ xs) = last_err (some x) xs

abbrev pub is_closed : {J : Type 0} → Producer J → Bool
is_closed closed = true
is_closed _ = false

abbrev pub is_done : {J : Type 0} → Worker J → Bool
is_done done = true
is_done _ = false

abbrev pub all_done : {J : Type 0} → List (Worker J) → Bool
all_done [] = true
all_done (w ∷ ws) = is_done w && all_done ws

abbrev pub error_or : Option Error → Error → Error
error_or none absent = absent
error_or (some e) absent = e

module _ {J R : Type 0} where
  abbrev pub visit : Visit J → List (Visit J) → List (Plan J) → State J R → State J R
  visit (fault e) vs ps s = record s { producer = in_vc vs ps; global_err = some e }
  visit (batch js) vs ps s = record s { producer = sending js vs ps }

  -- The next step of the producer, which stands at the given place; `none` if it cannot step.
  unfoldable pub produce : Producer J → State J R → Option (State J R)
  produce (next_vc []) s = some (record s { producer = closed })
  produce (next_vc (p ∷ ps)) s =
      if s.found
      then some (record s { producer = closed })
      else some
          (record s { producer = in_vc p.visits ps; global_err = last_err s.global_err p.faults })
  produce (in_vc [] ps) s = some (record s { producer = next_vc ps })
  produce (in_vc (v ∷ vs) ps) s =
      if s.found then some (record s { producer = next_vc ps }) else some (visit v vs ps s)
  produce (sending [] vs ps) s = some (record s { producer = in_vc vs ps })
  produce (sending (j ∷ js) vs ps) s =
      if ltb (length s.queue) queue_size
      then some (record s { queue = s.queue ++ j ∷ []; producer = sending js vs ps })
      else none
  produce closed s = none

  abbrev pub become : ℕ → Worker J → State J R → State J R
  become i w s = record s { workers = set s.workers i w }

  -- What a worker does with the outcome of a probe.
  abbrev pub conclude : ℕ → Probe R → State J R → State J R
  conclude i (hit r) s = record s { info = some r; workers = set s.workers i reporting }
  conclude i missing s = become i ready s
  conclude i (failed e) s = record s { global_err = some e; workers = set s.workers i ready }
  conclude i skipped s = become i ready s

  abbrev pub take_job : ℕ → List J → State J R → Option (State J R)
  take_job i [] s = if is_closed s.producer then some (become i done s) else none
  take_job i (j ∷ q) s = some (record s { queue = q; workers = set s.workers i (probing j) })

  abbrev pub advance : Option (State J R) → State J R → State J R
  advance none s = s
  advance (some s') s = s'

  module _ (probe : J → Probe R) where
    -- The next step of worker `i`, which stands at the given place.
    unfoldable pub work : ℕ → Worker J → State J R → Option (State J R)
    work i ready s = take_job i s.queue s
    work i (probing j) s = some (conclude i (probe j) s)
    work i reporting s = some (record s { found = true; workers = set s.workers i done })
    work i done s = none

    unfoldable pub step : Actor → State J R → Option (State J R)
    step producer s = produce s.producer s
    step (worker i) s = elim (get_elem? s.workers i) [ none ↦ none | some w ↦ work i w s ]

    unfoldable pub run : List Actor → State J R → State J R
    run [] s = s
    run (a ∷ rest) s = run rest (advance (step a s) s)

  unfoldable pub start : List (Plan J) → State J R
  start plans = record {
    producer = next_vc plans;
    queue = [];
    workers = replicate pool_size ready;
    found = false;
    global_err = none;
    info = none;
  }

  abbrev pub is_finished : State J R → Bool
  is_finished s = all_done s.workers

  -- What is returned after `wg.Wait()`; the information is a pointer.
  unfoldable pub result : Error → State J R → Outcome (Option R)
  result absent s = if s.found then ok s.info else err (error_or s.global_err absent)
