-- ===== src/Dispatcher/Replay.antt =====
-- leaf/src/app/dispatcher.rs: the stream behind the sniffer is the client's stream.
use i_leaf.Prelude.{
  ℕ, zero, suc, ◌+◌, ◌<◌, ◌≤◌, ◌≡◌, refl, sym, ap, ◌∙◌, List, [], ◌∷◌, ◌++◌, length, take, drop,
  min, length-take, length-append, take-append-drop, ◌==◌, Bool-cases, inl, inr, some, ok, err,
  panic, arith,
}
use i_leaf.Prelude.Polls.{
  Event, Poll, poll_inner, content, IsClean, remaining, OneRead, read_waits, read_gives, read_ends,
  poll_inner-OneRead,
}
use i_leaf.Prelude.Drain.{Polled, drain, Progress, drain-Streams, Streams}
use i_leaf.Prelude.Drain
use i_leaf.Dispatcher.{
  read_again, give_up, Look, look, SniffingStream, sniffing_stream, Sniffed, looked, after_read,
  sniff, poll_read,
}
use mathlib.Core.List.{append_assoc, append-nil}

abbrev Inv : SniffingStream → List Event → List ℕ → ℕ → Type 0
Inv s t rest n = IsClean t × (remaining t + length rest ≤ n) × (s.buf ++ content t ≡ rest)

-- The state that a look leaves, whatever it comes to.
abbrev Holds : (lossy : List ℕ → List ℕ) → List ℕ → ℕ → Sniffed lossy → Type 0
Holds lossy rest n out = Inv out.1 out.2 rest n

module _ (lossy : List ℕ → List ℕ) where
  looked-Holds :
      (m : Look (List ℕ)) (s : SniffingStream) (t : List Event) (again : Sniffed lossy)
      (rest : List ℕ) (n : ℕ)
      → Inv s t rest n
      → Holds lossy rest n again
      → Holds lossy rest n (looked lossy m s t again)
  unfolding looked
  looked-Holds (ok name) s t again rest n i h = i
  looked-Holds (err read_again) s t again rest n i h = h
  looked-Holds (err give_up) s t again rest n i h = i
  looked-Holds panic s t again rest n i h = i

  after_read-Holds :
      (again : List Event → SniffingStream → Sniffed lossy) (s : SniffingStream) (rest : List ℕ)
      (before : List ℕ) (k n : ℕ) (out : Poll (List ℕ) × List Event)
      → s.buf ++ before ≡ rest
      → k + length rest ≤ n
      → ((s' : SniffingStream) → Inv s' out.1 rest n → Holds lossy rest n (again out.1 s'))
      → OneRead before k out
      → Holds lossy rest n (after_read lossy (again out.1) out.0 s out.1)
  unfolding after_read
  after_read-Holds again s rest before k n _ e b h (read_waits t q c r) =
      (c, omega arith, ap (λ (l : List ℕ). s.buf ++ l) q ∙ e)
  after_read-Holds again s rest before k n _ e b h (read_gives x bs t q c r) =
      let s' : SniffingStream = record { buf = s.buf ++ (x ∷ bs) } in
      let joined =
        append_assoc s.buf (x ∷ bs) (content t) ∙ ap (λ (l : List ℕ). s.buf ++ l) q ∙ e in
      let i : Inv s' t rest n = (c, omega arith, joined) in
      looked-Holds (look (s.buf ++ (x ∷ bs))) s' t (again t s') rest n i (h s' i)
  after_read-Holds again s rest before k n _ e b h (read_ends q) =
      let s' : SniffingStream = record { buf = s.buf ++ [] } in
      let joined : (s.buf ++ []) ++ [] ≡ rest =
        append-nil (s.buf ++ []) ∙ ap (λ (l : List ℕ). s.buf ++ l) (sym q) ∙ e in
      let i : Inv s' [] rest n = (tt, omega arith, joined) in
      looked-Holds (look (s.buf ++ [])) s' [] (again [] s') rest n i (h s' i)

  sniff-Holds :
      (reads : ℕ) (s : SniffingStream) (t : List Event) (rest : List ℕ) (n : ℕ)
      → Inv s t rest n
      → Holds lossy rest n (sniff lossy reads s t)
  unfolding sniff
  sniff-Holds zero s t rest n i = i
  sniff-Holds (suc reads) s t rest n (c, b, e) =
      after_read-Holds (λ t' s'. sniff lossy reads s' t') s rest (content t) (remaining t) n
        (poll_inner 2048 t) e b (λ s' i. sniff-Holds reads s' (poll_inner 2048 t).1 rest n i)
        (poll_inner-OneRead 2048 t (omega arith) c)

module _ (size : ℕ) (some_room : 0 < size) where
  abbrev Reads : List ℕ → ℕ → Polled SniffingStream → Type 0
  Reads rest n out = Progress (poll_read size) (ok tt) Inv rest n out

  inner-Reads :
      (s : SniffingStream) (before rest : List ℕ) (k n : ℕ) (out : Poll (List ℕ) × List Event)
      → s.buf ≡ []
      → before ≡ rest
      → k + length rest ≤ n
      → OneRead before k out
      → Reads rest n (out.0, s, out.1)
  inner-Reads s before rest k n _ none_left e b (read_waits t q c r) =
      Drain.waits s t (remaining t + length rest) (omega arith)
        (c, omega arith, rw none_left (q ∙ e))
  inner-Reads s before rest k n _ none_left e b (read_gives x bs t q c r) =
      let all : (x ∷ bs) ++ content t ≡ rest = q ∙ e in
      let len : length rest ≡ suc (length bs) + length (content t) =
        ap (λ (l : List ℕ). length l) (sym all) ∙ length-append (x ∷ bs) (content t) in
      Drain.gives s t (remaining t + length (content t)) (x ∷ bs) (content t) (omega arith)
        (omega arith) all (c, omega arith, rw none_left refl)
  inner-Reads s before rest k n _ none_left e b (read_ends q) = Drain.ends s [] (sym e ∙ q)

  length-zero : (l : List ℕ) → length l ≡ 0 → l ≡ []
  length-zero [] h = refl
  length-zero (x ∷ l) h = absurd (omega arith)

  poll_read-Reads :
      (s : SniffingStream) (t : List Event) (rest : List ℕ) (n : ℕ)
      → Inv s t rest n
      → Reads rest n (poll_read size s t)
  unfolding poll_read
  poll_read-Reads s t rest n (c, b, e) = elim (Bool-cases (length s.buf == 0)) [
    | inl none_left ↦
        let empty = length-zero s.buf (ground arith) in
        let whole : content t ≡ rest = rw empty at e in
        rw none_left (
          inner-Reads s (content t) rest (remaining t) n (poll_inner size t) empty whole b
            (poll_inner-OneRead size t some_room c))
    | inr some_left ↦
        let to_read = min size (length s.buf) in
        let positive : 0 < length (take to_read s.buf) =
          ground (arith, length-take to_read s.buf) in
        let more : List ℕ = drop to_read s.buf ++ content t in
        let joined : take to_read s.buf ++ more ≡ rest =
          sym (append_assoc (take to_read s.buf) (drop to_read s.buf) (content t))
          ∙ ap (λ (l : List ℕ). l ++ content t) (take-append-drop to_read s.buf)
          ∙ e in
        let len : length rest ≡ length (take to_read s.buf) + length more =
          ap (λ (l : List ℕ). length l) (sym joined) ∙ length-append (take to_read s.buf) more in
        rw some_left (
          Drain.gives _ t (remaining t + length more) (take to_read s.buf) more (omega arith)
            positive joined (c, omega arith, refl))
  ]

pub sniff-Streams :
    (lossy : List ℕ → List ℕ) (reads size : ℕ) (t : List Event)
    → 0 < size
    → IsClean t
    → Streams
        (poll_read size)
        (ok tt)
        (sniff lossy reads sniffing_stream t).1
        (sniff lossy reads sniffing_stream t).2
        (content t)
        (remaining t + length (content t))
unfolding sniffing_stream
sniff-Streams lossy reads size t h c = record {
  Inv = Inv;
  step = poll_read-Reads size h;
  start = sniff-Holds lossy reads (record { buf = [] }) t (content t) _ (c, omega arith, refl);
}

-- Sniffing takes nothing away: whatever the sniffer found, a reader with a buffer that is not empty
-- gets from the stream behind it exactly what the client sends, unless a read fails; as many
-- polls as the transport has bytes and answers, and once more the client's bytes, are enough.
drain-sniff :
    (lossy : List ℕ → List ℕ) (reads size fuel : ℕ) (t : List Event)
    → 0 < size
    → IsClean t
    → remaining t + length (content t) < fuel
    → drain
        (poll_read size)
        fuel
        (sniff lossy reads sniffing_stream t).1
        (sniff lossy reads sniffing_stream t).2
      ≡ some (content t, ok tt)
drain-sniff lossy reads size fuel t h c enough =
    drain-Streams (poll_read size) (ok tt) fuel _ _ _ (content t) enough
      (sniff-Streams lossy reads size t h c)
