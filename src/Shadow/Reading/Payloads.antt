-- ===== src/Shadow/Reading/Payloads.antt =====
-- leaf/src/proxy/shadowsocks/shadow.rs: what is still to be read in each state of `poll_read`, and the
-- states that read and give a payload.
use i_leaf.Prelude.{
  ℕ, ◌+◌, ◌-◌, ◌<◌, ◌≤◌, ◌≡◌, refl, sym, ap, ◌∙◌, List, ◌++◌, length, take, drop, min,
  take-append_take, append-parts, take-append_left, length-take, length-drop, length-append, ltb,
  leb, Bool-cases, inl, inr, err, Option, some, true, arith,
}
use i_leaf.Prelude.Stream.{unexpected_eof}
use i_leaf.Prelude.Polls.{
  Event, Poll, ReadBuf, got, fill, content, IsClean, remaining, Fill, waits, fills, ends, fill-Fill,
}
use i_leaf.Prelude.Drain.{Polled, drain, Progress, drain_lem, ready_then, or_fail}
use i_leaf.Prelude.Drain
use i_leaf.Crypto.{shadowsocks_nonce, advance}
use i_leaf.Shadow.Cipher.{Algorithm, Aead, tag_len, decrypt}
use i_leaf.Shadow.Reader.{
  ReadState, waiting_salt, waiting_length, waiting_data, pending_data, Reader, poll_read_exact,
  read_pending, decrypt_buf, got_data, read_data, poll_read,
}
use mathlib.Core.List.{append_assoc}
use i_leaf.Shadow.Chunks.{Carries, concat, advanced}

module _ (a : Algorithm) (psk : List ℕ) where
  -- What is still to be read, in each state.
  abbrev Due : ReadState → Option Aead → ReadBuf → List Event → List ℕ → Type 0
  Due waiting_salt dec b t rest =
      (salt : List ℕ) × (bytes : List ℕ) × (key : List ℕ) × (ps : List (List ℕ)) × (b.pos
        < a.key_len)
      × (b.pos ≤ length b.buf)
      × (got b ++ content t ≡ salt ++ bytes)
      × (length salt ≡ a.key_len)
      × (a.hkdf_sha1 psk salt ≡ some key)
      × Carries a (record { key = key; nonce = shadowsocks_nonce a.nonce_len }) bytes ps
      × (rest ≡ concat ps)
  Due waiting_length dec b t rest =
      (c : Aead) × (ps : List (List ℕ)) × (dec ≡ some c)
      × (b.pos < 2 + tag_len)
      × (b.pos ≤ length b.buf)
      × Carries a c (got b ++ content t) ps
      × (rest ≡ concat ps)
  Due (waiting_data n) dec b t rest =
      (c : Aead) × (y : List ℕ) × (p : List ℕ) × (more : List ℕ) × (ps : List (List ℕ)) × (dec
        ≡ some c)
      × (b.pos < n + tag_len)
      × (b.pos ≤ length b.buf)
      × (got b ++ content t ≡ y ++ more)
      × (length y ≡ n + tag_len)
      × (a.open_sealed c.key (advance c.nonce) y ≡ some p)
      × (length p ≡ n)
      × (0 < n)
      × Carries a (advanced c) more ps
      × (rest ≡ p ++ concat ps)
  Due (pending_data n) dec b t rest =
      (c : Aead) × (ps : List (List ℕ)) × (dec ≡ some c)
      × (b.pos ≡ 0)
      × (n ≤ length b.buf)
      × (0 < n)
      × Carries a c (content t) ps
      × (rest ≡ take n b.buf ++ concat ps)

  abbrev pub Inv : Reader → List Event → List ℕ → ℕ → Type 0
  Inv s t rest n =
      IsClean t × (remaining t + length rest ≤ n) × Due s.read_state s.dec s.read_buf t rest

  module _ (size : ℕ) (some_room : 0 < size) where
    abbrev pub Reads : List ℕ → ℕ → Polled Reader → Type 0
    Reads rest n out = Progress (poll_read a psk size) (err unexpected_eof) Inv rest n out

    pub read_pending-Reads :
        (n : ℕ) (c : Aead) (b : ReadBuf) (t : List Event) (ps : List (List ℕ)) (m : ℕ)
        (state : ReadState)
        → IsClean t
        → b.pos ≡ 0
        → n ≤ length b.buf
        → 0 < n
        → Carries a c (content t) ps
        → remaining t + (n + length (concat ps)) ≤ m
        → Reads
            (take n b.buf ++ concat ps)
            m
            (read_pending size n (record { dec = some c; read_buf = b; read_state = state }) t)
    unfolding read_pending
    read_pending-Reads n c b t ps m state clean at0 fits positive carries bound =
        let to_read = min size n in
        let here : leb to_read (length b.buf) ≡ true = ground arith in
        let given : 0 < length (take to_read b.buf) = omega (arith, length-take to_read b.buf) in
        let left : take to_read b.buf ++ take (n - to_read) (drop to_read b.buf) ≡ take n b.buf =
          take-append_take to_read n b.buf (omega arith) in
        let all : take to_read b.buf ++ (take (n - to_read) (drop to_read b.buf) ++ concat ps)
            ≡ take n b.buf ++ concat ps =
          sym (
            append_assoc (take to_read b.buf) (take (n - to_read) (drop to_read b.buf)) (concat ps))
          ∙ ap (λ (l : List ℕ). l ++ concat ps) left in
        let later : List ℕ = take (n - to_read) (drop to_read b.buf) ++ concat ps in
        let len_later : length later
            ≡ length (take (n - to_read) (drop to_read b.buf)) + length (concat ps) =
          length-append (take (n - to_read) (drop to_read b.buf)) (concat ps) in
        let len_kept = length-take (n - to_read) (drop to_read b.buf) in
        let len_left = length-drop to_read b.buf in
        rw here (elim (Bool-cases (ltb to_read n)) [
          | inl some_left ↦ rw some_left (
              Drain.gives _ _ (remaining t + length later) _ later (omega arith) given all
                (clean, omega arith, (c, ps, refl, at0, omega arith, ground arith, carries, refl)))
          | inr none_left ↦
              let whole : to_read ≡ n = ground arith in
              rw (none_left, whole)
                (Drain.gives _ _ (remaining t + length (concat ps)) _ (concat ps) (omega arith)
                  (rw whole at given) refl
                  (
                    clean,
                    omega arith,
                    (c, ps, refl, omega arith, omega arith, rw at0 carries, refl),
                  ))
        ])

    got_data-Reads :
        (n : ℕ) (c : Aead) (y p more : List ℕ) (ps : List (List ℕ)) (k m : ℕ)
        (out : Poll (Unit {0}) × ReadBuf × List Event)
        → length y ≡ n + tag_len
        → a.open_sealed c.key (advance c.nonce) y ≡ some p
        → length p ≡ n
        → 0 < n
        → Carries a (advanced c) more ps
        → k + length (p ++ concat ps) ≤ m
        → Fill (y ++ more) (n + tag_len) k out
        → Reads (p ++ concat ps) m (
            ready_then
              (out.0, record { dec = some c; read_buf = out.1; read_state = waiting_data n }, out.2)
              (got_data a psk size n))
    unfolding got_data decrypt_buf decrypt
    got_data-Reads n c y p more ps k m _ ly op lp pos carries bound (waits b t h l e clean r) =
        Drain.waits _ _ (remaining t + length (p ++ concat ps)) (omega arith)
          (clean, omega arith, (c, y, p, more, ps, refl, h, l, e, ly, op, lp, pos, carries, refl))
    got_data-Reads n c y p more ps k m _ ly op lp pos carries bound (fills b t h l e clean r) =
        let (front, rest) = append-parts b.buf y (content t) more (l ∙ sym ly) e in
        let text : take n (p ++ drop (length p) y) ≡ p =
          ap (λ (i : ℕ). take i (p ++ drop (length p) y)) (sym lp)
          ∙ take-append_left p (drop (length p) y) in
        let len = length-append p (concat ps) in
        let fits = length-append p (drop (length p) y) in
        let pending =
          read_pending-Reads n (advanced c) (record { buf = p ++ drop (length p) y; pos = b.pos }) t
            ps m (pending_data n) clean h (omega arith) pos (rw rest carries) (omega arith) in
        rw (front, op) (rw text at pending)
    got_data-Reads n c y p more ps k m _ ly op lp pos carries bound (ends b l) =
        absurd (omega (arith, length-append y more))

    pub read_data-Reads :
        (n : ℕ) (c : Aead) (y p more : List ℕ) (ps : List (List ℕ)) (b : ReadBuf) (t : List Event)
        (m : ℕ)
        → IsClean t
        → b.pos < n + tag_len
        → b.pos ≤ length b.buf
        → got b ++ content t ≡ y ++ more
        → length y ≡ n + tag_len
        → a.open_sealed c.key (advance c.nonce) y ≡ some p
        → length p ≡ n
        → 0 < n
        → Carries a (advanced c) more ps
        → remaining t + length (p ++ concat ps) ≤ m
        → Reads (p ++ concat ps) m (
            read_data a psk size n
              (record { dec = some c; read_buf = b; read_state = waiting_data n })
              t)
    unfolding read_data poll_read_exact
    read_data-Reads n c y p more ps b t m clean h l e ly op lp pos carries bound =
        let filled : Fill (y ++ more) (n + tag_len) (remaining t) (fill (n + tag_len) b t) =
          rw e at (fill-Fill (n + tag_len) b t h l clean) in
        got_data-Reads n c y p more ps (remaining t) m (fill (n + tag_len) b t) ly op lp pos carries
          bound filled
