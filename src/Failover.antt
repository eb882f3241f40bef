-- ===== src/Failover.antt =====
-- leaf/src/proxy/failover/tcp.rs: the order in which the outbounds of a failover group are tried, and
-- the health check that sets it. An outbound's `handle` within the timeout, and what a probe of an
-- outbound meets, are answers that the network gives.
pub mod Check
pub mod Attempts
mod Tests
use i_leaf.Prelude.{
  ℕ, zero, suc, ◌+◌, ◌-◌, ◌^◌, List, [], ◌∷◌, length, map, Bool, true, false, leb, if◌then◌else◌,
  Outcome, ok, err, panic,
}
use i_leaf.Prelude.Stream.{IoError, invalid_index, all_failed}

-- `schedule.push(i)` for the indices from `i`, `n` of them.
unfoldable pub indices_from : ℕ → ℕ → List ℕ
indices_from i zero = []
indices_from i (suc n) = i ∷ indices_from (suc i) n

-- The schedule of a new handler of `n` actors.
unfoldable pub new_schedule : ℕ → List ℕ
new_schedule n = indices_from 0 n

-- What the check of one actor meets: `answered` has the milliseconds.
pub data Probe : Type 0 where
  answered : ℕ → Probe
  read_failed write_failed timed_out handshake_failed : Probe

-- `Measure(index, duration)`.
pub record Measure : Type 0 where
  pub index : ℕ
  pub duration : ℕ

abbrev pub max_duration : ℕ
max_duration = 2 ^ 128 - 1

unfoldable pub duration_of : Probe → ℕ
duration_of (answered ms) = ms
duration_of read_failed = max_duration - 3
duration_of write_failed = max_duration - 2
duration_of timed_out = max_duration - 1
duration_of handshake_failed = max_duration

unfoldable pub measures_from : ℕ → List Probe → List Measure
measures_from i [] = []
measures_from i (p ∷ ps) = record { index = i; duration = duration_of p } ∷ measures_from (suc i) ps

-- `sort_by` is stable.
unfoldable pub insert_measure : Measure → List Measure → List Measure
insert_measure m [] = m ∷ []
insert_measure m (x ∷ xs) =
    let later = insert_measure m xs in if leb m.duration x.duration then m ∷ x ∷ xs else x ∷ later

unfoldable pub sort_measures : List Measure → List Measure
sort_measures [] = []
sort_measures (m ∷ ms) = insert_measure m (sort_measures ms)

-- `measures[0]` panics where there is no actor.
unfoldable pub reschedule : Bool → List Measure → Outcome IoError (List ℕ)
reschedule true ms = ok (map (λ (m : Measure). m.index) ms)
reschedule false [] = panic
reschedule false (m ∷ ms) = ok (m.index ∷ [])

-- One round of the health check: the new schedule.
unfoldable pub check : Bool → List Probe → Outcome IoError (List ℕ)
unfolding reschedule sort_measures measures_from
check failover probes = reschedule failover (sort_measures (measures_from 0 probes))

-- What `timeout(…, handle(…))` gives.
pub data Attempt (S : Type 0) : Type 0 where
  in_time : Outcome IoError S → Attempt S
  too_late : Attempt S

module _ {S : Type 0} (actors : ℕ) (attempt : ℕ → Attempt S) where
  -- The match on the result of one attempt, in front of the attempts that follow.
  unfoldable pub or_next : Attempt S → Outcome IoError S → Outcome IoError S
  or_next (in_time (ok v)) next = ok v
  or_next (in_time (err e)) next = next
  or_next (in_time panic) next = panic
  or_next too_late next = next

  -- `handle`, on the schedule.
  unfoldable pub handle : List ℕ → Outcome IoError S
  unfolding or_next
  handle [] = err all_failed
  handle (i ∷ schedule) =
      let next = handle schedule in
      if leb actors i then err invalid_index else or_next (attempt i) next
