-- ===== src/Failover/Check.antt =====
-- leaf/src/proxy/failover/tcp.rs: what a health check makes of the schedule.
use i_leaf.Prelude.{
  ℕ, zero, suc, ◌+◌, ◌<◌, ◌≤◌, ◌≡◌, refl, List, [], ◌∷◌, length, map, All, Bool, true, false, leb,
  leb→le, if◌then◌else◌, Bool-cases, inl, inr, ok, arith,
}
use i_leaf.Failover.{
  indices_from, new_schedule, Probe, Measure, duration_of, measures_from, insert_measure,
  sort_measures, reschedule, check,
}
use mathlib.Core.List.{Perm}
use mathlib.Core.List.Perm

-- Every measure is at most as long as all that follow it.
abbrev pub Sorted : List Measure → Type 0
Sorted [] = Unit {0}
Sorted (m ∷ ms) = All (λ (x : Measure). m.duration ≤ x.duration) ms × Sorted ms

insert_measure-Perm : (m : Measure) (ms : List Measure) → Perm (insert_measure m ms) (m ∷ ms)
unfolding insert_measure
insert_measure-Perm m [] = Perm.refl (m ∷ [])
insert_measure-Perm m (x ∷ xs) = elim (Bool-cases (leb m.duration x.duration)) [
  | inl h ↦ rw h (Perm.refl (m ∷ x ∷ xs))
  | inr h ↦ rw h (Perm.trans (Perm.cons x (insert_measure-Perm m xs)) (Perm.swap m x xs))
]

sort_measures-Perm : (ms : List Measure) → Perm (sort_measures ms) ms
unfolding sort_measures
sort_measures-Perm [] = Perm.refl []
sort_measures-Perm (m ∷ ms) =
    Perm.trans (insert_measure-Perm m (sort_measures ms)) (Perm.cons m (sort_measures-Perm ms))

abbrev AtLeast : ℕ → List Measure → Type 0
AtLeast k ms = All (λ (x : Measure). k ≤ x.duration) ms

AtLeast-mono : (j k : ℕ) (ms : List Measure) → j ≤ k → AtLeast k ms → AtLeast j ms
AtLeast-mono j k [] h a = tt
AtLeast-mono j k (x ∷ xs) h (p, a) = (omega arith, AtLeast-mono j k xs h a)

insert_measure-AtLeast :
    (k : ℕ) (m : Measure) (ms : List Measure)
    → k ≤ m.duration
    → AtLeast k ms
    → AtLeast k (insert_measure m ms)
unfolding insert_measure
insert_measure-AtLeast k m [] h a = (h, tt)
insert_measure-AtLeast k m (x ∷ xs) h (p, a) = elim (Bool-cases (leb m.duration x.duration)) [
  | inl e ↦ rw e (h, (p, a))
  | inr e ↦ rw e (p, insert_measure-AtLeast k m xs h a)
]

insert_measure-Sorted : (m : Measure) (ms : List Measure) → Sorted ms → Sorted (insert_measure m ms)
unfolding insert_measure
insert_measure-Sorted m [] s = (tt, tt)
insert_measure-Sorted m (x ∷ xs) (a, s) = elim (Bool-cases (leb m.duration x.duration)) [
  | inl e ↦
      let first = leb→le m.duration x.duration e in
      rw e ((first, AtLeast-mono m.duration x.duration xs first a), (a, s))
  | inr e ↦
      rw e (insert_measure-AtLeast x.duration m xs (ground arith) a, insert_measure-Sorted m xs s)
]

sort_measures-Sorted : (ms : List Measure) → Sorted (sort_measures ms)
unfolding sort_measures
sort_measures-Sorted [] = tt
sort_measures-Sorted (m ∷ ms) = insert_measure-Sorted m (sort_measures ms) (sort_measures-Sorted ms)

insert_measure-cons :
    (m : Measure) (ms : List Measure)
    → (x : Measure) × (xs : List Measure) × (insert_measure m ms ≡ x ∷ xs)
unfolding insert_measure
insert_measure-cons m [] = (m, [], refl)
insert_measure-cons m (y ∷ ys) = elim (Bool-cases (leb m.duration y.duration)) [
  | inl e ↦ (m, y ∷ ys, rw e refl)
  | inr e ↦ (y, insert_measure m ys, rw e refl)
]

reschedule_lem :
    (failover : Bool) (m : Measure) (ms : List Measure)
    → reschedule failover (m ∷ ms)
      ≡ ok (if failover then map (λ (x : Measure). x.index) (m ∷ ms) else m.index ∷ [])
unfolding reschedule
reschedule_lem true m ms = refl
reschedule_lem false m ms = refl

-- A health check of at least one actor puts the measures in ascending order of their durations,
-- without losing or repeating one; the new schedule is all their indices in this order with
-- failover, and the first one alone without.
check_lem :
    (failover : Bool) (p : Probe) (ps : List Probe)
    → (m : Measure) × (ms : List Measure) × Perm (m ∷ ms) (measures_from 0 (p ∷ ps))
      × Sorted (m ∷ ms)
      × (check failover (p ∷ ps)
          ≡ ok (if failover then map (λ (x : Measure). x.index) (m ∷ ms) else m.index ∷ []))
unfolding check measures_from sort_measures
check_lem failover p ps =
    let first : Measure = record { index = 0; duration = duration_of p } in
    let (m, ms, e) = insert_measure-cons first (sort_measures (measures_from 1 ps)) in
    (
      m,
      ms,
      rw e at (sort_measures-Perm (measures_from 0 (p ∷ ps))),
      rw e at (sort_measures-Sorted (measures_from 0 (p ∷ ps))),
      rw e (reschedule_lem failover m ms),
    )

-- The indices that a schedule may hold.
abbrev pub Below : ℕ → List ℕ → Type 0
Below n schedule = All (λ (i : ℕ). i < n) schedule

Below-indices : (i k n : ℕ) → i + k ≤ n → Below n (indices_from i k)
unfolding indices_from
Below-indices i zero n h = tt
Below-indices i (suc k) n h = (omega arith, Below-indices (suc i) k n (omega arith))

abbrev IndexBelow : ℕ → List Measure → Type 0
IndexBelow n ms = All (λ (m : Measure). m.index < n) ms

IndexBelow-measures :
    (i n : ℕ) (ps : List Probe) → i + length ps ≤ n → IndexBelow n (measures_from i ps)
unfolding measures_from
IndexBelow-measures i n [] h = tt
IndexBelow-measures i n (p ∷ ps) h = (omega arith, IndexBelow-measures (suc i) n ps (omega arith))

IndexBelow-insert :
    (n : ℕ) (m : Measure) (ms : List Measure)
    → m.index < n
    → IndexBelow n ms
    → IndexBelow n (insert_measure m ms)
unfolding insert_measure
IndexBelow-insert n m [] h a = (h, tt)
IndexBelow-insert n m (x ∷ xs) h (p, a) = elim (Bool-cases (leb m.duration x.duration)) [
  | inl e ↦ rw e (h, (p, a))
  | inr e ↦ rw e (p, IndexBelow-insert n m xs h a)
]

IndexBelow-sort : (n : ℕ) (ms : List Measure) → IndexBelow n ms → IndexBelow n (sort_measures ms)
unfolding sort_measures
IndexBelow-sort n [] a = tt
IndexBelow-sort n (m ∷ ms) (h, a) =
    IndexBelow-insert n m (sort_measures ms) h (IndexBelow-sort n ms a)

Below-map :
    (n : ℕ) (ms : List Measure) → IndexBelow n ms → Below n (map (λ (m : Measure). m.index) ms)
Below-map n [] a = tt
Below-map n (m ∷ ms) (h, a) = (h, Below-map n ms a)

Below-reschedule :
    (n : ℕ) (failover : Bool) (ms : List Measure) (schedule : List ℕ)
    → IndexBelow n ms
    → reschedule failover ms ≡ ok schedule
    → Below n schedule
unfolding reschedule
Below-reschedule n true ms schedule a h =
    let same : map (λ (m : Measure). m.index) ms ≡ schedule = cc in rw same at (Below-map n ms a)
Below-reschedule n false [] schedule a h = cc
Below-reschedule n false (m ∷ ms) schedule (p, a) h =
    let same : m.index ∷ [] ≡ schedule = cc in rw (← same) (p, tt)

-- The schedules that a handler of `n` actors goes through.
pub data Reached (n : ℕ) (failover : Bool) : List ℕ → Type 0 where
  starts : Reached n failover (new_schedule n)
  checked :
      (before schedule : List ℕ) (probes : List Probe)
      → Reached n failover before
      → length probes ≡ n
      → check failover probes ≡ ok schedule
      → Reached n failover schedule

-- Every schedule that a handler reaches, at its start and after any number of health checks, holds
-- indices of its actors only.
pub Reached-Below :
    (n : ℕ) (failover : Bool) (schedule : List ℕ) → Reached n failover schedule → Below n schedule
unfolding new_schedule check
Reached-Below n failover _ starts = Below-indices 0 n n (omega arith)
Reached-Below n failover _ (checked before schedule probes r l e) =
    Below-reschedule n failover (sort_measures (measures_from 0 probes)) schedule
      (IndexBelow-sort n (measures_from 0 probes) (IndexBelow-measures 0 n probes (omega arith))) e
