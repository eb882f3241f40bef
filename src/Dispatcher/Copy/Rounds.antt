-- ===== src/Dispatcher/Copy/Rounds.antt =====
-- leaf/src/app/dispatcher.rs: one round of the loop of `Transfer`, and what holds between two rounds.
use i_leaf.Prelude.{
  ℕ, suc, ◌+◌, ◌-◌, ◌*◌, ◌%◌, ◌^◌, ◌<◌, ◌≤◌, ◌≡◌, refl, sym, ap, ◌∙◌, List, [], ◌∷◌, ◌++◌, length,
  take, drop, min, length-append, length-drop, length-take, drop-drop, drop-all, take-append_left,
  Bool, true, false, not, ◌&&◌, ltb, ◌==◌, Bool-cases, inl, inr, Outcome, ok, err, panic, arith,
}
use i_leaf.Prelude.Stream.{IoError, write_zero}
use i_leaf.Prelude.Polls.{Event, Poll, ready}
use i_leaf.Prelude.Drain.{Polled, Progress, closing}
use i_leaf.Prelude.Writes.{
  WriteEvent, IsOpen, Sending, Sink, push, Pushed, push_waits, push_ends, push-Pushed, Flushed,
  flush_waits, flush_ends, poll_flush-Flushed, poll_flush,
}
use i_leaf.Prelude.Kept.{Kept, push-Kept}
use i_leaf.Prelude.Drain
use i_leaf.Dispatcher.Transfer.{
  Transfer, slice, advanced_to, waits, again, done, Copied, finish, finished, wrote, write, read,
  round,
}
use mathlib.Core.List.{append_assoc, append-nil}

-- How the copy of a stream ends that ends in this way behind these bytes.
abbrev pub total : Outcome IoError (Unit {0}) → List ℕ → Outcome IoError ℕ
total (ok u) whole = ok (length whole % 2 ^ 64)
total (err e) whole = err e
total panic whole = panic

module _ {S : Type 0} (poll_read : S → List Event → Polled S) (final : Outcome IoError (Unit {0}))
    (Inv : S → List Event → List ℕ → ℕ → Type 0)
    (step : (s : S) (t : List Event) (rest : List ℕ) (n : ℕ)
      → Inv s t rest n
      → Progress poll_read final Inv rest n (poll_read s t)) where
  abbrev pub Bounded : Transfer S → Sink → Type 0
  Bounded m k =
      (m.pos ≤ m.cap) × (m.cap ≤ length m.buf) × IsOpen k.answers × (m.amt ≡ length k.out % 2 ^ 64)

  -- Where the reader has not come to its end, and where it has.
  abbrev pub Left : Bool → Transfer S → List Event → Sink → List ℕ → ℕ → Type 0
  Left false m t k whole n =
      (rest : List ℕ) × (i : ℕ) × Inv m.reader t rest i
      × (k.out ++ (slice m ++ rest) ≡ whole)
      × (2 * i + length k.answers + min 1 (m.cap - m.pos) ≤ n)
  Left true m t k whole n =
      (final ≡ ok tt) × (m.pos ≡ m.cap) × (k.out ≡ whole) × (length k.answers ≤ n)

  abbrev pub Ready : Transfer S → List Event → Sink → List ℕ → ℕ → Type 0
  Ready m t k whole n = Bounded m k × Left m.read_done m t k whole n

  -- What one round comes to.
  pub data Rounded (whole : List ℕ) (n : ℕ) : Copied S → Type 0 where
    round_waits :
        (m : Transfer S) (t : List Event) (k : Sink) (i : ℕ)
        → i < n
        → Ready m t k whole i
        → Rounded whole n (waits, m, t, k)
    round_again :
        (m : Transfer S) (t : List Event) (k : Sink) (i : ℕ)
        → i < n
        → Ready m t k whole i
        → Rounded whole n (again, m, t, k)
    round_done :
        (m : Transfer S) (t : List Event) (k : Sink) (result : Outcome IoError ℕ)
        → k.out ≡ whole
        → result ≡ total final whole
        → Rounded whole n (done result, m, t, k)

  finish_goes_on :
      (m : Transfer S) (t : List Event) (k : Sink)
      → m.read_done ≡ false
      → finish m t k ≡ (again, m, t, k)
  unfolding finish
  finish_goes_on m t k h = ground arith

  -- The end of the reader was seen before.
  finished-Rounded :
      (m : Transfer S) (t : List Event) (out whole : List ℕ) (c n : ℕ) (p : Poll (Unit {0}) × Sink)
      → m.read_done ≡ true
      → final ≡ ok tt
      → m.pos ≡ m.cap
      → m.cap ≤ length m.buf
      → m.amt ≡ length out % 2 ^ 64
      → out ≡ whole
      → c ≤ n
      → Flushed out c p
      → Rounded whole n (finished m t p)
  unfolding finished
  finished-Rounded m t out whole c n _ d f e l q w b (flush_waits a o r) =
      round_waits m t _ (length a) (omega arith)
        ((omega arith, l, o, q), rw d (f, e, w, omega arith))
  finished-Rounded m t out whole c n _ d f e l q w b (flush_ends a) =
      round_done m t _ (ok m.amt) w (rw f (ap (λ (v : ℕ). ok v) (rw w at q)))

  length-slice :
      (m : Transfer S) → m.pos ≤ m.cap → m.cap ≤ length m.buf → length (slice m) ≡ m.cap - m.pos
  length-slice m p c = omega (arith, length-drop m.pos (take m.cap m.buf), length-take m.cap m.buf)

  -- Behind the loop that writes, where the end of the reader was not seen.
  wrote-Rounded :
      (m : Transfer S) (t : List Event) (k : Sink) (rest whole : List ℕ) (i n : ℕ)
      (out : Poll (Unit {0}) × Sending × List WriteEvent)
      → m.read_done ≡ false
      → m.pos < m.cap
      → m.cap ≤ length m.buf
      → m.amt ≡ length k.out % 2 ^ 64
      → Inv m.reader t rest i
      → k.out ++ (slice m ++ rest) ≡ whole
      → 2 * i + length k.answers + 1 ≤ n
      → Kept (record { written = m.pos; left = slice m; out = k.out }) out.1
      → Pushed m.cap (k.out ++ slice m) (length k.answers) out
      → Rounded whole n (wrote m t out)
  unfolding wrote
  wrote-Rounded m t k rest whole i n _ d p c q inv e b kept (push_waits s a l w o open_sink r) =
      let grows = kept.grows in
      let behind : drop s.written (take m.cap m.buf) ≡ s.left =
        ap (λ (j : ℕ). drop j (take m.cap m.buf)) (omega arith)
        ∙ sym (drop-drop m.pos (s.written - m.pos) (take m.cap m.buf))
        ∙ sym kept.behind in
      let joined : s.out ++ (drop s.written (take m.cap m.buf) ++ rest) ≡ whole = rw behind (
        sym (append_assoc s.out s.left rest)
        ∙ ap (λ (l : List ℕ). l ++ rest) o
        ∙ append_assoc k.out (slice m) rest
        ∙ e) in
      round_waits _ t _ (2 * i + length a + min 1 (m.cap - s.written)) (omega arith) (
        (omega arith, c, open_sink, omega (arith, kept.counted)),
        rw d (rest, i, inv, joined, omega arith),
      )
  wrote-Rounded m t k rest whole i n _ d p c q inv e b kept (push_ends s a o w open_sink r) =
      let grows = kept.grows in
      let empty : drop s.written (take m.cap m.buf) ≡ [] =
        ap (λ (j : ℕ). drop j (take m.cap m.buf)) (omega (arith, length-take m.cap m.buf))
        ∙ drop-all (take m.cap m.buf) in
      let joined : s.out ++ (drop s.written (take m.cap m.buf) ++ rest) ≡ whole =
        rw empty (ap (λ (l : List ℕ). l ++ rest) o ∙ append_assoc k.out (slice m) rest ∙ e) in
      rw (finish_goes_on (advanced_to s.written m) t _ d) (
        round_again _ t _ (2 * i + length a + min 1 (m.cap - s.written)) (omega arith) (
          (omega arith, c, open_sink, omega (arith, kept.counted)),
          rw d (rest, i, inv, joined, omega arith),
        ))

  write-Rounded :
      (m : Transfer S) (t : List Event) (k : Sink) (rest whole : List ℕ) (i n : ℕ)
      → m.read_done ≡ false
      → m.pos < m.cap
      → m.cap ≤ length m.buf
      → IsOpen k.answers
      → m.amt ≡ length k.out % 2 ^ 64
      → Inv m.reader t rest i
      → k.out ++ (slice m ++ rest) ≡ whole
      → 2 * i + length k.answers + 1 ≤ n
      → Rounded whole n (write m t k)
  unfolding write
  write-Rounded m t k rest whole i n d p c o q inv e b =
      let some_left : ltb m.pos m.cap ≡ true = ground arith in
      let len = length-slice m (omega arith) c in
      let s : Sending = record { written = m.pos; left = slice m; out = k.out } in
      rw some_left (
        wrote-Rounded m t k rest whole i n (push write_zero m.cap s k.answers) d p c q inv e b
          (push-Kept write_zero m.cap s k.answers)
          (push-Pushed write_zero m.cap s k.answers (omega arith) (omega arith) o))

  -- The reader comes to its end.
  ended-Rounded :
      (m : Transfer S) (t : List Event) (k : Sink) (r : S) (whole : List ℕ) (n : ℕ)
      (f : Outcome IoError (Unit {0}))
      → final ≡ f
      → m.pos ≡ m.cap
      → m.cap ≤ length m.buf
      → IsOpen k.answers
      → m.amt ≡ length k.out % 2 ^ 64
      → k.out ≡ whole
      → length k.answers ≤ n
      → Rounded whole n (read m k (ready (closing f), r, t))
  unfolding read write finish
  ended-Rounded m t k r whole n (ok tt) f p c o q e b =
      let all : ltb m.pos m.cap ≡ false = ground arith in
      let last : (m.pos == m.cap) ≡ true = ground arith in
      rw (all, last)
        (finished-Rounded (record m { reader = r; read_done = true }) t k.out whole
          (length k.answers) n (poll_flush k) refl f p c q e b
          (poll_flush-Flushed k.out k.answers o))
  ended-Rounded m t k r whole n (err x) f p c o q e b = round_done _ t k (err x) e (rw f refl)
  ended-Rounded m t k r whole n panic f p c o q e b = round_done _ t k panic e (rw f refl)

  -- Behind a read, with all bytes of the buffer written before.
  read-Rounded :
      (m : Transfer S) (k : Sink) (rest whole : List ℕ) (i n : ℕ) (out : Polled S)
      → m.read_done ≡ false
      → m.pos ≡ m.cap
      → m.cap ≤ length m.buf
      → IsOpen k.answers
      → m.amt ≡ length k.out % 2 ^ 64
      → k.out ++ rest ≡ whole
      → 2 * i + length k.answers ≤ n
      → Progress poll_read final Inv rest i out
      → Rounded whole n (read m k out)
  unfolding read
  read-Rounded m k rest whole i n _ d p c o q e b (Drain.waits r t j l inv) =
      let none_left : slice m ≡ [] =
        ap (λ (v : ℕ). drop v (take m.cap m.buf)) (omega (arith, length-take m.cap m.buf))
        ∙ drop-all (take m.cap m.buf) in
      round_waits _ t k (2 * j + length k.answers) (omega arith)
        ((omega arith, c, o, q), rw d (rest, j, inv, rw none_left e, omega arith))
  read-Rounded m k rest whole i n _ d p c o q e b (Drain.gives r t j [] more l pos q' inv) =
      absurd (omega arith)
  read-Rounded m k rest whole i n _ d p c o q e b (Drain.gives r t j (x ∷ bs) more l pos q' inv) =
      let front : take (length bs) (bs ++ drop (suc (length bs)) m.buf) ≡ bs =
        take-append_left bs (drop (suc (length bs)) m.buf) in
      let m' : Transfer S = record m {
        reader = r;
        pos = 0;
        cap = suc (length bs);
        buf = (x ∷ bs) ++ drop (suc (length bs)) m.buf;
      } in
      write-Rounded m' t k more whole j n d (omega arith)
        (omega (arith, length-append bs (drop (suc (length bs)) m.buf))) o q inv
        (rw front (rw q' e)) (omega arith)
  read-Rounded m k rest whole i n _ d p c o q e b (Drain.ends r t none_left) =
      ended-Rounded m t k r whole n final refl p c o q
        (sym (append-nil k.out) ∙ ap (λ (l : List ℕ). k.out ++ l) (sym none_left) ∙ e) (omega arith)

  pub round-Rounded :
      (m : Transfer S) (t : List Event) (k : Sink) (whole : List ℕ) (n : ℕ) (d : Bool)
      → m.read_done ≡ d
      → Bounded m k
      → Left d m t k whole n
      → Rounded whole n (round poll_read m t k)
  unfolding round write finish
  round-Rounded m t k whole n true d (p, c, o, q) (f, e, w, b) =
      let all : ltb m.pos m.cap ≡ false = ground arith in
      let writes : (m.pos == m.cap && not m.read_done) ≡ false = ground arith in
      let last : (m.pos == m.cap && m.read_done) ≡ true = ground arith in
      rw (writes, all, last)
        (finished-Rounded m t k.out whole (length k.answers) n (poll_flush k) d f e c q w b
          (poll_flush-Flushed k.out k.answers o))
  round-Rounded m t k whole n false d (p, c, o, q) (rest, i, inv, e, b) =
      elim (Bool-cases (m.pos == m.cap)) [
        | inl last ↦
            let all : m.pos ≡ m.cap = ground arith in
            let none_left : slice m ≡ [] =
              ap (λ (v : ℕ). drop v (take m.cap m.buf)) (omega (arith, length-take m.cap m.buf))
              ∙ drop-all (take m.cap m.buf) in
            let reads : (m.pos == m.cap && not m.read_done) ≡ true = ground arith in
            rw reads (
              read-Rounded m k rest whole i n (poll_read m.reader t) d all c o q (rw none_left at e)
                (omega arith) (step m.reader t rest i inv))
        | inr some_left ↦
            let writes : (m.pos == m.cap && not m.read_done) ≡ false = ground arith in
            rw writes
              (write-Rounded m t k rest whole i n d (ground arith) c o q inv e (ground arith))
      ]
