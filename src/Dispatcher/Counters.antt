-- ===== src/Dispatcher/Counters.antt =====
-- leaf/src/app/dispatcher.rs: the placeholders and the counter of one kind of TCP sessions, with any
-- interleaving of the tasks at their awaits. The channel of placeholders holds as many as its
-- capacity; a task takes one, counts itself, gives one back and counts itself off.
use i_leaf.Prelude.{
  ℕ, ◌+◌, ◌-◌, ◌%◌, ◌^◌, ◌<◌, ◌≤◌, ◌≡◌, refl, Bool, true, false, ltb, ◌==◌, if◌then◌else◌, Option,
  none, some, Outcome, ok, panic, arith,
}

-- The placeholders in the channel, and the counter.
pub record Shared : Type 0 where
  pub queue : ℕ
  pub num : ℕ

unfoldable pub no_sessions : Shared
no_sessions = record { queue = 0; num = 0 }

-- `send(true).await`; `none`: it waits for room.
unfoldable pub send : ℕ → Shared → Option Shared
send capacity s = if ltb s.queue capacity then some (record s { queue = s.queue + 1 }) else none

-- `+= 1` behind the send.
unfoldable pub count_on : Shared → Shared
count_on s = record s { num = (s.num + 1) % 2 ^ 32 }

-- `try_recv()`.
unfoldable pub try_recv : Shared → Bool × Shared
try_recv s = if s.queue == 0 then (false, s) else (true, record s { queue = s.queue - 1 })

-- `-= 1`; the subtraction is checked.
unfoldable pub count_off : Shared → Outcome (Unit {0}) Shared
count_off s = if s.num == 0 then panic else ok (record s { num = s.num - 1 })

-- How many tasks stand behind the send, behind the `+= 1`, and behind the `try_recv`.
pub record Tasks : Type 0 where
  pub sent : ℕ
  pub running : ℕ
  pub received : ℕ

abbrev pub all_tasks : Tasks → ℕ
all_tasks t = t.sent + t.running + t.received

pub data Step (capacity : ℕ) : Shared → Tasks → Shared → Tasks → Type 0 where
  sends :
      (s s' : Shared) (t : Tasks)
      → send capacity s ≡ some s'
      → all_tasks t + 1 < 2 ^ 32
      → Step capacity s t s' (record t { sent = t.sent + 1 })
  counts_on :
      (s : Shared) (t : Tasks)
      → 0 < t.sent
      → Step capacity s t (count_on s) (record t { sent = t.sent - 1; running = t.running + 1 })
  receives :
      (s : Shared) (t : Tasks)
      → 0 < t.running
      → (try_recv s).0 ≡ true
      → Step capacity s t
          (try_recv s).1
          (record t { running = t.running - 1; received = t.received + 1 })
  finds_none :
      (s : Shared) (t : Tasks)
      → 0 < t.running
      → (try_recv s).0 ≡ false
      → Step capacity s t (try_recv s).1 (record t { running = t.running - 1 })
  counts_off :
      (s s' : Shared) (t : Tasks)
      → 0 < t.received
      → count_off s ≡ ok s'
      → Step capacity s t s' (record t { received = t.received - 1 })

pub data Reached (capacity : ℕ) : Shared → Tasks → Type 0 where
  starts : Reached capacity no_sessions (record { sent = 0; running = 0; received = 0 })
  steps :
      {s s' : Shared} {t t' : Tasks}
      → Reached capacity s t
      → Step capacity s t s' t'
      → Reached capacity s' t'

pub record IsCounted (capacity : ℕ) (s : Shared) (t : Tasks) : Type 0 where
  pub held : s.queue ≡ t.sent + t.running
  pub counted : s.num ≡ t.running + t.received
  pub bounded : s.queue ≤ capacity
  pub few : all_tasks t < 2 ^ 32

Step-IsCounted :
    {capacity : ℕ} {s s' : Shared} {t t' : Tasks}
    → Step capacity s t s' t'
    → IsCounted capacity s t
    → IsCounted capacity s' t'
unfolding send count_on try_recv count_off
Step-IsCounted (sends s s' t e few) v = ground arith
Step-IsCounted (counts_on s t p) v = ground arith
Step-IsCounted (receives s t p e) v = ground arith
Step-IsCounted (finds_none s t p e) v = ground arith
Step-IsCounted (counts_off s s' t p e) v = ground arith

-- However the tasks interleave, the placeholders in the channel are those of the tasks that took one
-- and gave none back, the counter is the number of the tasks that counted themselves on and not
-- off, and no more tasks hold a placeholder than the channel has room for. The tasks that took
-- one and are not counted off are fewer than 2^32.
pub Reached-IsCounted :
    {capacity : ℕ} {s : Shared} {t : Tasks} → Reached capacity s t → IsCounted capacity s t
unfolding no_sessions
Reached-IsCounted starts = record {
  held = refl;
  counted = refl;
  bounded = omega arith;
  few = omega arith;
}
Reached-IsCounted (steps r st) = Step-IsCounted st (Reached-IsCounted r)

-- In whatever state the tasks come to, a task whose session is over finds a placeholder to take back
-- and can count itself off behind it: the counter does not go below 0.
pub count_off-try_recv :
    {capacity : ℕ} (s : Shared) (t : Tasks)
    → Reached capacity s t
    → 0 < t.running
    → (s' : Shared) × ((try_recv s).0 ≡ true)
      × (count_off (try_recv s).1 ≡ ok s')
      × (s'.queue + 1 ≡ s.queue)
      × (s'.num + 1 ≡ s.num)
unfolding try_recv count_off
count_off-try_recv s t r p =
    let v = Reached-IsCounted r in
    (
      record { queue = s.queue - 1; num = s.num - 1 },
      ground arith,
      ground arith,
      ground arith,
      ground arith,
    )
