-- ===== src/Prelude/Writes.antt =====
-- A transport that is polled for writing: the answers that it gives, one after the other, and the
-- bytes that it took. After the last answer it takes whatever it is given.
use i_leaf.Prelude.Tests.{Bool-cases, le→leb, leb, ◌==◌, if◌then◌else◌}
use i_leaf.Prelude.Lists.{length, take, drop, take-all, length-drop, take-append-drop}
use i_leaf.Prelude.Fallible.{ok, err}
use i_leaf.Prelude.Stream.{IoError}
use i_leaf.Prelude.Polls.{Poll, pending, ready}
use Prim.Native.Nat.{ℕ, ◌+◌, ◌<◌, ◌≤◌, min}
use mathlib.Core.Path.{◌≡◌, refl, ap, ◌∙◌}
use mathlib.Core.List.{List, [], ◌∷◌, ◌++◌, append_assoc}
use mathlib.Core.Bool.{false}
use mathlib.Core.Logic.{inl, inr}
use native.Mathlib.Omega.{arith}

pub data WriteEvent : Type 0 where
  blocked : WriteEvent
  takes : ℕ → WriteEvent
  broken : IoError → WriteEvent

-- No write fails, and none takes 0 bytes.
abbrev pub IsOpen : List WriteEvent → Type 0
IsOpen [] = Unit {0}
IsOpen (blocked ∷ t) = IsOpen t
IsOpen (takes k ∷ t) = (0 < k) × IsOpen t
IsOpen (broken e ∷ t) = ⊥

-- What is still to be written of a buffer, how much of it was written, and what went out.
pub record Sending : Type 0 where
  pub written : ℕ
  pub left : List ℕ
  pub out : List ℕ

abbrev pub sent : ℕ → Sending → Sending
sent n s = record { written = s.written + n; left = drop n s.left; out = s.out ++ take n s.left }

-- What the transport took, and its answers to come.
pub record Sink : Type 0 where
  pub out : List ℕ
  pub answers : List WriteEvent

abbrev pub sink_of : Sending → List WriteEvent → Sink
sink_of s t = record { out = s.out; answers = t }

-- The loop around `poll_write` or `poll_write_buf` up to `total` bytes, with the error of a write of
-- 0 bytes.
unfoldable pub push :
    IoError → ℕ → Sending → List WriteEvent → Poll (Unit {0}) × Sending × List WriteEvent
push z total s [] =
    let nw = length s.left in
    if nw == 0
    then (ready (err z), s, [])
    else if leb total (s.written + nw)
    then (ready (ok tt), sent nw s, [])
    else (ready (err z), sent nw s, [])
push z total s (blocked ∷ t) = (pending, s, t)
push z total s (broken e ∷ t) = (ready (err e), s, t)
push z total s (takes k ∷ t) =
    let nw = min k (length s.left) in
    let again = push z total (sent nw s) t in
    if nw == 0
    then (ready (err z), s, t)
    else if leb total (s.written + nw)
    then (ready (ok tt), sent nw s, t)
    else again

-- What one call comes to where no write fails and `total` is what is left and was written.
pub data Pushed (total : ℕ) (before : List ℕ) (n : ℕ)
    : Poll (Unit {0}) × Sending × List WriteEvent → Type 0 where
  push_waits :
      (s : Sending) (t : List WriteEvent)
      → 0 < length s.left
      → s.written + length s.left ≡ total
      → s.out ++ s.left ≡ before
      → IsOpen t
      → length t < n
      → Pushed total before n (pending, s, t)
  push_ends :
      (s : Sending) (t : List WriteEvent)
      → s.out ≡ before
      → s.written ≡ total
      → IsOpen t
      → length t ≤ n
      → Pushed total before n (ready (ok tt), s, t)

Pushed-mono :
    {total m n : ℕ} {before : List ℕ} {out : Poll (Unit {0}) × Sending × List WriteEvent}
    → m ≤ n
    → Pushed total before m out
    → Pushed total before n out
Pushed-mono h (push_waits s t l e o c r) = push_waits s t l e o c (omega arith)
Pushed-mono h (push_ends s t o e c r) = push_ends s t o e c (omega arith)

pub push-Pushed :
    (z : IoError) (total : ℕ) (s : Sending) (t : List WriteEvent)
    → 0 < length s.left
    → s.written + length s.left ≡ total
    → IsOpen t
    → Pushed total (s.out ++ s.left) (length t) (push z total s t)
unfolding push
push-Pushed z total s [] h e o =
    let some_left : (length s.left == 0) ≡ false = ground arith in
    let last = le→leb total (s.written + length s.left) (omega arith) in
    rw (some_left, last)
      (push_ends _ [] (ap (λ (l : List ℕ). s.out ++ l) (take-all s.left)) (omega arith) tt
        (omega arith))
push-Pushed z total s (blocked ∷ t) h e o = push_waits s t h e refl o (omega arith)
push-Pushed z total s (broken x ∷ t) h e o = absurd o
push-Pushed z total s (takes k ∷ t) h e (pos, o) =
    let nw = min k (length s.left) in
    let some_left : (nw == 0) ≡ false = ground arith in
    let rest = length-drop nw s.left in
    let joined : (s.out ++ take nw s.left) ++ drop nw s.left ≡ s.out ++ s.left =
      append_assoc s.out (take nw s.left) (drop nw s.left)
      ∙ ap (λ (l : List ℕ). s.out ++ l) (take-append-drop nw s.left) in
    rw some_left (elim (Bool-cases (leb total (s.written + nw))) [
      | inl last ↦
          let whole : nw ≡ length s.left = ground arith in
          rw (last, whole)
            (push_ends _ t (ap (λ (l : List ℕ). s.out ++ l) (take-all s.left)) (omega arith) o
              (omega arith))
      | inr more ↦
          rw (more, ← joined)
            (Pushed-mono (omega arith)
              (push-Pushed z total (sent nw s) t (ground arith) (ground arith) o))
    ])

-- A transport that takes bytes has none of them left to flush.
abbrev flushed : List ℕ → List WriteEvent → Poll (Unit {0}) × Sink
flushed out [] = (ready (ok tt), record { out = out; answers = [] })
flushed out (blocked ∷ t) = (pending, record { out = out; answers = t })
flushed out (broken e ∷ t) = (ready (err e), record { out = out; answers = t })
flushed out (takes k ∷ t) = (ready (ok tt), record { out = out; answers = takes k ∷ t })

unfoldable pub poll_flush : Sink → Poll (Unit {0}) × Sink
poll_flush k = flushed k.out k.answers

-- What one flush comes to where none fails.
pub data Flushed (out : List ℕ) (n : ℕ) : Poll (Unit {0}) × Sink → Type 0 where
  flush_waits :
      (t : List WriteEvent)
      → IsOpen t
      → length t < n
      → Flushed out n (pending, record { out = out; answers = t })
  flush_ends :
      (t : List WriteEvent) → Flushed out n (ready (ok tt), record { out = out; answers = t })

pub poll_flush-Flushed :
    (out : List ℕ) (t : List WriteEvent)
    → IsOpen t
    → Flushed out (length t) (poll_flush (record { out = out; answers = t }))
unfolding poll_flush
poll_flush-Flushed out [] o = flush_ends []
poll_flush-Flushed out (blocked ∷ t) o = flush_waits t o (omega arith)
poll_flush-Flushed out (broken e ∷ t) o = absurd o
poll_flush-Flushed out (takes k ∷ t) o = flush_ends (takes k ∷ t)
