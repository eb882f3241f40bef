-- ===== src/Vmess/Reading/Payloads.antt =====
-- leaf/src/proxy/vmess/stream.rs: what is still to be read in each state of `poll_read`, and the
-- states that read and give a payload.
use i_leaf.Prelude.{
  ℕ, ◌+◌, ◌-◌, ◌<◌, ◌≤◌, ◌≡◌, refl, sym, ap, ◌∙◌, List, [], ◌∷◌, ◌++◌, length, take, drop, min, ltb,
  leb, length-take, length-drop, length-append, take-append_left, take-append_take, append-parts,
  Bool-cases, true, false, ◌⊎◌, inl, inr, Option, some, ok, arith,
}
use i_leaf.Prelude.Polls.{
  Event, Poll, ReadBuf, got, fill, content, IsClean, remaining, Fill, waits, fills, ends, fill-Fill,
}
use i_leaf.Prelude.Drain.{
  Polled, Progress, closing, ready_then, or_fail, Streams, drain, drain-Streams,
}
use i_leaf.Prelude.Drain
use i_leaf.Crypto.{VmessSequence, vmess_advance}
use i_leaf.Shadow.{Algorithm, tag_len}
use i_leaf.Shadow.Chunks.{concat}
use i_leaf.Vmess.Cipher.{VmessAead, vmess_decrypt}
use i_leaf.Vmess.Reader.{
  ReadState, waiting_response_header, waiting_length, waiting_data, pending_data, ResponseSession,
  Reader, poll_read_exact, read_pending, got_data, read_data, poll_read,
}
use i_leaf.Vmess.Chunks.{Ending, closed, final_of, Carries}
use mathlib.Core.List.{append_assoc}

module _ (a : Algorithm) (shake : ℕ → ℕ) (cfb_decrypt : List ℕ → List ℕ → List ℕ → Option (List ℕ))
    (e : Ending) where
  -- What follows a payload: more chunks, or the end of the stream.
  abbrev pub After : VmessAead → ℕ → List ℕ → List ℕ → List (List ℕ) → Type 0
  After c pos p more ps =
      ((0 < length p) × Carries a shake e c pos more ps) ⊎ ((p ≡ []) × (e ≡ closed) × (ps ≡ []))

  -- What is still to be read, in each state.
  abbrev pub Due :
      ReadState → ResponseSession → VmessAead → ℕ → ReadBuf → List Event → List ℕ → Type 0
  Due waiting_response_header sess c pos b t rest =
      (header : List ℕ) × (bytes : List ℕ) × (more : List ℕ) × (ps : List (List ℕ)) × (b.pos < 4)
      × (b.pos ≤ length b.buf)
      × (got b ++ content t ≡ header ++ bytes)
      × (length header ≡ 4)
      × (cfb_decrypt sess.response_body_key sess.response_body_iv header
          ≡ some (sess.response_header ∷ more))
      × Carries a shake e c pos bytes ps
      × (rest ≡ concat ps)
  Due waiting_length sess c pos b t rest =
      (ps : List (List ℕ)) × (b.pos < 2)
      × (b.pos ≤ length b.buf)
      × Carries a shake e c pos (got b ++ content t) ps
      × (rest ≡ concat ps)
  Due (waiting_data n padding) sess c pos b t rest =
      (y : List ℕ) × (z : List ℕ) × (more : List ℕ) × (p : List ℕ) × (nonce : List ℕ)
      × (next : VmessSequence) × (ps : List (List ℕ)) × (b.pos < n)
      × (b.pos ≤ length b.buf)
      × (got b ++ content t ≡ y ++ (z ++ more))
      × (n ≡ length y + length z)
      × (padding ≡ length z)
      × (vmess_advance c.sequence ≡ ok (nonce, next))
      × (a.open_sealed c.key nonce y ≡ some p)
      × (length y ≡ length p + tag_len)
      × After (record c { sequence = next }) pos p more ps
      × (rest ≡ p ++ concat ps)
  Due (pending_data n) sess c pos b t rest =
      (ps : List (List ℕ)) × (b.pos ≡ 0)
      × (n ≤ length b.buf)
      × (0 < n)
      × Carries a shake e c pos (content t) ps
      × (rest ≡ take n b.buf ++ concat ps)

  abbrev pub Inv : Reader → List Event → List ℕ → ℕ → Type 0
  Inv s t rest n =
      IsClean t
      × (remaining t + length rest ≤ n)
      × Due s.read_state s.sess s.dec s.dec_size_parser s.read_buf t rest

  module _ (size : ℕ) (some_room : 0 < size) where
    abbrev pub Reads : List ℕ → ℕ → Polled Reader → Type 0
    Reads rest n out = Progress (poll_read a shake cfb_decrypt size) (final_of e) Inv rest n out

    pub read_pending-Reads :
        (n : ℕ) (s : Reader) (t : List Event) (ps : List (List ℕ)) (m : ℕ)
        → IsClean t
        → s.read_buf.pos ≡ 0
        → n ≤ length s.read_buf.buf
        → 0 < n
        → Carries a shake e s.dec s.dec_size_parser (content t) ps
        → remaining t + (n + length (concat ps)) ≤ m
        → Reads (take n s.read_buf.buf ++ concat ps) m (read_pending size n s t)
    unfolding read_pending
    read_pending-Reads n s t ps m clean at0 fits positive carries bound =
        let b = s.read_buf in
        let to_read = min size n in
        let here : leb to_read (length b.buf) ≡ true = ground arith in
        let given : 0 < length (take to_read b.buf) = omega (arith, length-take to_read b.buf) in
        let left : take to_read b.buf ++ take (n - to_read) (drop to_read b.buf) ≡ take n b.buf =
          take-append_take to_read n b.buf (omega arith) in
        let later : List ℕ = take (n - to_read) (drop to_read b.buf) ++ concat ps in
        let all : take to_read b.buf ++ later ≡ take n b.buf ++ concat ps =
          sym (
            append_assoc (take to_read b.buf) (take (n - to_read) (drop to_read b.buf)) (concat ps))
          ∙ ap (λ (l : List ℕ). l ++ concat ps) left in
        let len_later = length-append (take (n - to_read) (drop to_read b.buf)) (concat ps) in
        let len_kept = length-take (n - to_read) (drop to_read b.buf) in
        let len_left = length-drop to_read b.buf in
        rw here (elim (Bool-cases (ltb to_read n)) [
          | inl some_left ↦ rw some_left (
              Drain.gives _ _ (remaining t + length later) _ later (omega arith) given all
                (clean, omega arith, (ps, at0, omega arith, ground arith, carries, refl)))
          | inr none_left ↦
              let whole : to_read ≡ n = ground arith in
              rw (none_left, whole)
                (Drain.gives _ _ (remaining t + length (concat ps)) _ (concat ps) (omega arith)
                  (rw whole at given) refl
                  (clean, omega arith, (ps, omega arith, omega arith, rw at0 carries, refl)))
        ])

    -- A chunk that carries nothing is the end of the stream.
    closed-Reads :
        (n : ℕ) (s : Reader) (t : List Event) (rest : List ℕ) (m : ℕ)
        → e ≡ closed
        → n ≡ 0
        → rest ≡ []
        → Reads rest m (read_pending size n s t)
    unfolding read_pending
    closed-Reads n s t rest m is_closed empty none_left =
        let none_yet : min size n ≡ 0 = omega arith in
        let last : ltb 0 n ≡ false = ground arith in
        let here : leb 0 (length s.read_buf.buf) ≡ true = ground arith in
        let end : ok [] ≡ closing (final_of e) =
          ap (λ (v : Ending). closing (final_of v)) (sym is_closed) in
        rw (none_yet, here, last, end) (Drain.ends _ t none_left)

    -- The chunk stands in the buffer whole.
    opened-Reads :
        (s : Reader) (t : List Event) (n padding m : ℕ) (y z more p nonce : List ℕ)
        (next : VmessSequence) (ps : List (List ℕ))
        → IsClean t
        → s.read_buf.pos ≡ 0
        → s.read_buf.buf ≡ y ++ z
        → content t ≡ more
        → n ≡ length y + length z
        → padding ≡ length z
        → vmess_advance s.dec.sequence ≡ ok (nonce, next)
        → a.open_sealed s.dec.key nonce y ≡ some p
        → length y ≡ length p + tag_len
        → After (record s.dec { sequence = next }) s.dec_size_parser p more ps
        → remaining t + length (p ++ concat ps) ≤ m
        → Reads (p ++ concat ps) m (got_data a shake size n padding s t)
    unfolding got_data vmess_decrypt
    opened-Reads s t n padding m y z more p nonce next ps clean at0 whole rest is_n is_padding adv
          op ly later bound =
        let count : n - padding ≡ length y = omega arith in
        let enough : ltb n padding ≡ false = ground arith in
        let front : take (length y) (y ++ z) ≡ y = take-append_left y z in
        let tagged : ltb (length y) tag_len ≡ false = ground arith in
        let payload : length y - tag_len ≡ length p = omega arith in
        let text : take (length p) (p ++ drop (length p) y) ≡ p =
          take-append_left p (drop (length p) y) in
        let s' : Reader = record s {
          dec = record s.dec { sequence = next };
          read_buf = record { buf = p ++ drop (length p) y; pos = s.read_buf.pos };
          read_state = pending_data (length p);
        } in
        rw (count, enough, whole, front, adv, op, tagged, payload)
          (elim later [
            | inl (pos, carries) ↦ rw text at (
                read_pending-Reads (length p) s' t ps m clean at0
                  (omega (arith, length-append p (drop (length p) y))) pos (rw rest carries)
                  (omega (arith, length-append p (concat ps))))
            | inr (empty, is_closed, none_more) ↦
                closed-Reads (length p) s' t (p ++ concat ps) m is_closed
                  (ap (λ (l : List ℕ). length l) empty) (rw (empty, none_more) refl)
          ])

    got_data-Reads :
        (s : Reader) (n padding k m : ℕ) (y z more p nonce : List ℕ) (next : VmessSequence)
        (ps : List (List ℕ)) (out : Poll (Unit {0}) × ReadBuf × List Event)
        → s.read_state ≡ waiting_data n padding
        → n ≡ length y + length z
        → padding ≡ length z
        → vmess_advance s.dec.sequence ≡ ok (nonce, next)
        → a.open_sealed s.dec.key nonce y ≡ some p
        → length y ≡ length p + tag_len
        → After (record s.dec { sequence = next }) s.dec_size_parser p more ps
        → k + length (p ++ concat ps) ≤ m
        → Fill (y ++ (z ++ more)) n k out
        → Reads (p ++ concat ps) m (
            ready_then
              (out.0, record s { read_buf = out.1 }, out.2)
              (got_data a shake size n padding))
    got_data-Reads s n padding k m y z more p nonce next ps _ state is_n is_padding adv op ly later
          bound (waits b t h l q clean r) =
        Drain.waits _ t (remaining t + length (p ++ concat ps)) (omega arith) (
          clean,
          omega arith,
          rw state
              (y, z, more, p, nonce, next, ps, h, l, q, is_n, is_padding, adv, op, ly, later, refl),
        )
    got_data-Reads s n padding k m y z more p nonce next ps _ state is_n is_padding adv op ly later
          bound (fills b t h l q clean r) =
        let joined : b.buf ++ content t ≡ (y ++ z) ++ more = q ∙ sym (append_assoc y z more) in
        let (whole, rest) =
          append-parts b.buf (y ++ z) (content t) more (omega (arith, length-append y z)) joined in
        opened-Reads (record s { read_buf = b }) t n padding m y z more p nonce next ps clean h
          whole rest is_n is_padding adv op ly later (omega arith)
    got_data-Reads s n padding k m y z more p nonce next ps _ state is_n is_padding adv op ly later
          bound (ends b l) =
        absurd (omega (arith, length-append y (z ++ more), length-append z more))

    pub read_data-Reads :
        (s : Reader) (t : List Event) (n padding m : ℕ) (y z more p nonce : List ℕ)
        (next : VmessSequence) (ps : List (List ℕ))
        → s.read_state ≡ waiting_data n padding
        → IsClean t
        → s.read_buf.pos < n
        → s.read_buf.pos ≤ length s.read_buf.buf
        → got s.read_buf ++ content t ≡ y ++ (z ++ more)
        → n ≡ length y + length z
        → padding ≡ length z
        → vmess_advance s.dec.sequence ≡ ok (nonce, next)
        → a.open_sealed s.dec.key nonce y ≡ some p
        → length y ≡ length p + tag_len
        → After (record s.dec { sequence = next }) s.dec_size_parser p more ps
        → remaining t + length (p ++ concat ps) ≤ m
        → Reads (p ++ concat ps) m (read_data a shake size n padding s t)
    unfolding read_data poll_read_exact
    read_data-Reads s t n padding m y z more p nonce next ps state clean h l q is_n is_padding adv
          op ly later bound =
        let filled : Fill (y ++ (z ++ more)) n (remaining t) (fill n s.read_buf t) =
          rw q at (fill-Fill n s.read_buf t h l clean) in
        got_data-Reads s n padding (remaining t) m y z more p nonce next ps (fill n s.read_buf t)
          state is_n is_padding adv op ly later bound filled
