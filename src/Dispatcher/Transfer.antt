-- ===== src/Dispatcher/Transfer.antt =====
-- leaf/src/app/dispatcher.rs: `Transfer`, the loop that copies one direction of a connection. The
-- reader is any stream that is polled; the writer is a transport that is polled for writing.
use i_leaf.Prelude.{
  ℕ, zero, suc, ◌+◌, ◌-◌, ◌%◌, ◌^◌, List, [], ◌∷◌, ◌++◌, length, take, drop, replicate, Bool, true,
  false, ◌&&◌, not, ltb, ◌==◌, if◌then◌else◌, Option, none, some, Outcome, ok, err, panic,
}
use i_leaf.Prelude.Stream.{IoError, write_zero}
use i_leaf.Prelude.Polls.{Event, Poll, pending, ready}
use i_leaf.Prelude.Drain.{Polled}
use i_leaf.Prelude.Writes.{WriteEvent, Sending, Sink, sink_of, push, poll_flush}

-- `Transfer`, without its writer.
pub record Transfer (S : Type 0) : Type 0 where
  pub reader : S
  pub read_done : Bool
  pub pos : ℕ
  pub cap : ℕ
  pub amt : ℕ
  pub buf : List ℕ

unfoldable pub transfer : {S : Type 0} → S → Transfer S
transfer reader = record {
  reader = reader;
  read_done = false;
  pos = 0;
  cap = 0;
  amt = 0;
  buf = replicate 2048 0;
}

-- `&buf[pos..cap]`.
abbrev pub slice : {S : Type 0} → Transfer S → List ℕ
slice m = drop m.pos (take m.cap m.buf)

-- How one round of the loop ends: the poll is not ready, the loop goes on, or the future is done.
pub data Round : Type 0 where
  waits again : Round
  done : Outcome IoError ℕ → Round

abbrev pub Copied : Type 0 → Type 0
Copied S = Round × Transfer S × List Event × Sink

-- The writer took the bytes up to `written`.
abbrev pub advanced_to : {S : Type 0} → ℕ → Transfer S → Transfer S
advanced_to written m = record m { pos = written; amt = (m.amt + (written - m.pos)) % 2 ^ 64 }

module _ {S : Type 0} where
  -- Behind the flush.
  unfoldable pub finished : Transfer S → List Event → Poll (Unit {0}) × Sink → Copied S
  finished m t (pending, k) = (waits, m, t, k)
  finished m t (ready (ok u), k) = (done (ok m.amt), m, t, k)
  finished m t (ready (err e), k) = (done (err e), m, t, k)
  finished m t (ready panic, k) = (done panic, m, t, k)

  -- The third part of a round.
  unfoldable pub finish : Transfer S → List Event → Sink → Copied S
  unfolding finished poll_flush
  finish m t k =
      if m.pos == m.cap && m.read_done then finished m t (poll_flush k) else (again, m, t, k)

  -- Behind the loop that writes the slice.
  unfoldable pub wrote :
      Transfer S → List Event → Poll (Unit {0}) × Sending × List WriteEvent → Copied S
  unfolding finish
  wrote m t (pending, s, a) = (waits, advanced_to s.written m, t, sink_of s a)
  wrote m t (ready (ok u), s, a) = finish (advanced_to s.written m) t (sink_of s a)
  wrote m t (ready (err e), s, a) = (done (err e), advanced_to s.written m, t, sink_of s a)
  wrote m t (ready panic, s, a) = (done panic, advanced_to s.written m, t, sink_of s a)

  -- The second part of a round.
  unfoldable pub write : Transfer S → List Event → Sink → Copied S
  unfolding wrote finish push
  write m t k =
      if ltb m.pos m.cap
      then wrote m t (
          push write_zero m.cap (record { written = m.pos; left = slice m; out = k.out }) k.answers)
      else finish m t k

  -- Behind the read.
  unfoldable pub read : Transfer S → Sink → Polled S → Copied S
  unfolding write
  read m k (pending, r, t) = (waits, record m { reader = r }, t, k)
  read m k (ready (err e), r, t) = (done (err e), record m { reader = r }, t, k)
  read m k (ready panic, r, t) = (done panic, record m { reader = r }, t, k)
  read m k (ready (ok []), r, t) = write (record m { reader = r; read_done = true }) t k
  read m k (ready (ok (b ∷ bs)), r, t) =
      write
        (record m {
          reader = r;
          pos = 0;
          cap = length (b ∷ bs);
          buf = (b ∷ bs) ++ drop (length (b ∷ bs)) m.buf;
        })
        t k

  module _ (poll_read : S → List Event → Polled S) where
    -- One round of the loop.
    unfoldable pub round : Transfer S → List Event → Sink → Copied S
    unfolding read write
    round m t k =
        if m.pos == m.cap && not m.read_done then read m k (poll_read m.reader t) else write m t k

    abbrev pub after :
        Round
        → Transfer S
        → List Event
        → Sink
        → Option (Outcome IoError ℕ × Sink)
        → Option (Outcome IoError ℕ × Sink)
    after (done result) m t k more = some (result, k)
    after waits m t k more = more
    after again m t k more = more

    -- The future as it is polled until it is done, on fuel: a poll that is not ready is followed by
    -- another, which begins at the top of the loop. `none`: out of fuel.
    unfoldable pub copy : ℕ → Transfer S → List Event → Sink → Option (Outcome IoError ℕ × Sink)
    copy zero m t k = none
    copy (suc n) m t k =
        let (r, m', t', k') = round m t k in let more = copy n m' t' k' in after r m' t' k' more
