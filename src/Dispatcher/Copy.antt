-- ===== src/Dispatcher/Copy.antt =====
-- leaf/src/app/dispatcher.rs: what one direction of a connection comes to, whatever stream it reads.
pub mod Rounds
use i_leaf.Prelude.{
  ℕ, zero, suc, ◌+◌, ◌-◌, ◌*◌, ◌%◌, ◌^◌, ◌<◌, ◌≤◌, ◌≡◌, refl, sym, ap, ◌∙◌, List, [], ◌∷◌, ◌++◌,
  length, take, drop, min, length-append, length-drop, length-take, drop-drop, drop-all,
  take-append_left, Bool, true, false, not, ◌&&◌, ltb, ◌==◌, Bool-cases, inl, inr, Option, none,
  some, Outcome, ok, err, panic, arith,
}
use i_leaf.Prelude.Stream.{IoError, write_zero}
use i_leaf.Prelude.Polls.{Event, Poll, pending, ready}
use i_leaf.Prelude.Drain.{Polled, Progress, closing, Streams}
use i_leaf.Prelude.Writes.{
  WriteEvent, IsOpen, Sending, Sink, push, Pushed, push_waits, push_ends, push-Pushed, Flushed,
  flush_waits, flush_ends, poll_flush-Flushed, poll_flush,
}
use i_leaf.Prelude.Kept.{Kept, push-Kept}
use i_leaf.Prelude.Drain
use i_leaf.Dispatcher.Transfer
use i_leaf.Dispatcher.Transfer.{
  Transfer, transfer, slice, advanced_to, Round, waits, again, done, Copied, finish, finished,
  wrote, write, read, round, after, copy,
}
use mathlib.Core.List.{append_assoc, append-nil}
use i_leaf.Dispatcher.Copy.Rounds.{
  total, Bounded, Left, Ready, Rounded, round-Rounded, round_waits, round_again, round_done,
}

module _ {S : Type 0} (poll_read : S → List Event → Polled S) (final : Outcome IoError (Unit {0}))
    (Inv : S → List Event → List ℕ → ℕ → Type 0)
    (step : (s : S) (t : List Event) (rest : List ℕ) (n : ℕ)
      → Inv s t rest n
      → Progress poll_read final Inv rest n (poll_read s t)) where
  after-Rounded :
      (fuel n : ℕ) (whole : List ℕ) (out : Copied S)
      → n < suc fuel
      → ((m : Transfer S) (t : List Event) (k : Sink) (i : ℕ)
          → i < fuel
          → Ready poll_read final Inv step m t k whole i
          → (k' : Sink) × (copy poll_read fuel m t k ≡ some (total final whole, k'))
            × (k'.out ≡ whole))
      → Rounded poll_read final Inv step whole n out
      → (k' : Sink) × (after poll_read out.0 out.1 out.2 out.3
            (copy poll_read fuel out.1 out.2 out.3)
          ≡ some (total final whole, k'))
        × (k'.out ≡ whole)
  after-Rounded fuel n whole _ h go (round_waits m t k i l ready_for) =
      go m t k i (omega arith) ready_for
  after-Rounded fuel n whole _ h go (round_again m t k i l ready_for) =
      go m t k i (omega arith) ready_for
  after-Rounded fuel n whole _ h go (round_done m t k result e r) =
      (k, ap (λ (v : Outcome IoError ℕ). some (v, k)) r, e)

  copy-Ready :
      (fuel n : ℕ) (m : Transfer S) (t : List Event) (k : Sink) (whole : List ℕ)
      → n < fuel
      → Ready poll_read final Inv step m t k whole n
      → (k' : Sink) × (copy poll_read fuel m t k ≡ some (total final whole, k')) × (k'.out ≡ whole)
  unfolding copy
  copy-Ready zero n m t k whole h i = absurd (omega arith)
  copy-Ready (suc fuel) n m t k whole h (bounds, left) =
      after-Rounded fuel n whole (round poll_read m t k) h
        (λ m' t' k' i l r. copy-Ready fuel i m' t' k' whole l r)
        (round-Rounded poll_read final Inv step m t k whole n m.read_done refl bounds left)

  copy-Inv :
      (fuel n : ℕ) (reader : S) (t : List Event) (rest : List ℕ) (answers : List WriteEvent)
      → Inv reader t rest n
      → IsOpen answers
      → 2 * n + length answers < fuel
      → (k : Sink) × (copy poll_read fuel
            (transfer reader)
            t
            (record { out = []; answers = answers })
          ≡ some (total final rest, k))
        × (k.out ≡ rest)
  unfolding transfer
  copy-Inv fuel n reader t rest answers inv o enough =
      copy-Ready fuel (2 * n + length answers) _ t (record { out = []; answers = answers }) rest
        enough ((omega arith, omega arith, o, omega arith), (rest, n, inv, refl, omega arith))

-- A stream that gives `rest` to any reader and then ends is copied whole: all of `rest` goes out
-- in order, and the copy ends with the count of the bytes, which is kept in 64 bits, or with the
-- error that ends the stream, where no write fails or takes no byte. No more rounds are needed
-- than twice the polls of the stream and the answers of the writer.
pub copy-Streams :
    {S : Type 0} (poll_read : S → List Event → Polled S) (final : Outcome IoError (Unit {0}))
    (fuel n : ℕ) (reader : S) (t : List Event) (rest : List ℕ) (answers : List WriteEvent)
    → Streams poll_read final reader t rest n
    → IsOpen answers
    → 2 * n + length answers < fuel
    → (k : Sink) × (copy poll_read fuel (transfer reader) t (record { out = []; answers = answers })
        ≡ some (total final rest, k))
      × (k.out ≡ rest)
copy-Streams poll_read final fuel n reader t rest answers w o enough =
    copy-Inv poll_read final w.Inv w.step fuel n reader t rest answers w.start o enough
