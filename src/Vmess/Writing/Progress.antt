-- ===== src/Vmess/Writing/Progress.antt =====
-- leaf/src/proxy/vmess/stream.rs: what holds of the writer between two calls of `poll_write`, and what
-- one call comes to that writes what is pending.
use i_leaf.Prelude.{
  ℕ, ◌+◌, ◌%◌, ◌^◌, ◌<◌, ◌≤◌, ◌≡◌, refl, List, ◌++◌, length, take, drop, ltb, leb, length-take,
  length-drop, length-append, true, false, ok, arith,
}
use i_leaf.Prelude.Bytes.{to_be, length-to_be}
use i_leaf.Prelude.Stream.{unexpected_eof}
use i_leaf.Prelude.Polls.{Poll}
use i_leaf.Prelude.Writes.{
  WriteEvent, IsOpen, Sending, Sink, Pushed, push_waits, push_ends, push-Pushed,
}
use i_leaf.Prelude.WriteAll
use i_leaf.Prelude.WriteAll.{write_all, write_all_lem, Step-map, step_waits, step_gives}
use i_leaf.Crypto.{VmessSequence, vmess_advance}
use i_leaf.Shadow.{Algorithm, IsAlgorithm}
use i_leaf.Shadow.Chunks.{concat}
use i_leaf.Vmess.Cipher.{VmessAead}
use i_leaf.Vmess.Writer.{
  WriteState, waiting_chunk, pending_chunk, Writer, Wrote, pushed_chunk, write_pending,
}
use i_leaf.Vmess.Chunks.{cut, Carries}

-- The key and the nonces have the lengths that the cipher asks for.
abbrev pub Keyed : Algorithm → VmessAead → Type 0
Keyed a c =
    (length c.key ≡ a.key_len)
    × (c.sequence.size ≡ a.nonce_len)
    × (a.nonce_len ≤ length c.sequence.nonce)
    × (2 ≤ length c.sequence.nonce)

pub advance-Keyed :
    (a : Algorithm) (c : VmessAead)
    → Keyed a c
    → (nonce : List ℕ) × (next : VmessSequence) × (vmess_advance c.sequence ≡ ok (nonce, next))
      × (length nonce ≡ a.nonce_len)
      × Keyed a (record c { sequence = next })
unfolding vmess_advance
advance-Keyed a c (k, s, fits, two) =
    let q = c.sequence in
    let count = (q.count + 1) % 2 ^ 16 in
    let nonce' : List ℕ = to_be 2 count ++ drop 2 q.nonce in
    let len : length nonce' ≡ length q.nonce = omega (
      arith,
      length-append (to_be 2 count) (drop 2 q.nonce),
      length-to_be 2 count,
      length-drop 2 q.nonce,
    ) in
    let long : ltb (length q.nonce) 2 ≡ false = ground arith in
    let whole : leb q.size (length nonce') ≡ true = ground arith in
    (
      take q.size nonce',
      record q { nonce = nonce'; count = count },
      rw (long, whole) refl,
      omega (arith, length-take q.size nonce'),
      (k, s, omega arith, omega arith),
    )

module _ (a : Algorithm) (law : IsAlgorithm a) (shake rng : ℕ → ℕ)
    (bytes : (pos : ℕ) → shake pos < 256) where
  abbrev pub Fits : (total written : ℕ) → List ℕ → Type 0
  Fits total written left = (0 < length left) × (written + length left ≡ total)

  -- What holds of the writer in front of the rest of the data.
  abbrev pub Valid : WriteState → VmessAead → List ℕ → List ℕ → Type 0
  Valid waiting_chunk enc left rest = Keyed a enc
  Valid (pending_chunk consumed total written) enc left rest =
      Keyed a enc × Fits total written left × (0 < consumed) × (consumed ≤ length rest)

  -- The transport's bytes at the end are `front` and then chunks that carry `rest`.
  abbrev pub Follows : VmessAead → ℕ → List ℕ → List ℕ → List ℕ → Type 0
  Follows c pos rest front final =
      (chunks : List ℕ) × (ps : List (List ℕ)) × (final ≡ front ++ chunks)
      × Carries a shake cut c pos chunks ps
      × (concat ps ≡ rest)

  -- What the transport ends with where the data are written from here.
  abbrev pub Finishes : WriteState → VmessAead → ℕ → List ℕ → List ℕ → List ℕ → List ℕ → Type 0
  Finishes waiting_chunk enc pos left rest out final = Follows enc pos rest out final
  Finishes (pending_chunk consumed total written) enc pos left rest out final =
      Follows enc pos (drop consumed rest) (out ++ left) final

  abbrev pub Ends : Writer → List ℕ → Sink → List ℕ → Type 0
  Ends w rest s final = Finishes w.write_state w.enc w.enc_size_parser w.write_buf rest s.out final

  abbrev pub Ready : Writer → List ℕ → Sink → ℕ → Type 0
  Ready w rest s n =
      Valid w.write_state w.enc w.write_buf rest
      × IsOpen s.answers
      × (length s.answers + length rest ≤ n)

  abbrev pub Step : (List ℕ → Type 0) → List ℕ → ℕ → Wrote → Type 0
  Step Goal rest n out = WriteAll.Step Ready Ends Goal rest n out

  -- In the state `PendingChunk`.
  pushed_chunk-Step :
      (consumed total : ℕ) (w : Writer) (rest before : List ℕ) (k n : ℕ)
      (out : Poll (Unit {0}) × Sending × List WriteEvent)
      → Keyed a w.enc
      → 0 < consumed
      → consumed ≤ length rest
      → k + length rest ≤ n
      → Pushed total before k out
      → Step
          (Follows w.enc w.enc_size_parser (drop consumed rest) before)
          rest
          n
          (pushed_chunk consumed total w out)
  unfolding pushed_chunk
  pushed_chunk-Step consumed total w rest before k n _ keyed pos fits bound
        (push_waits s t h e o open_sink r) =
      step_waits _ _ (length t + length rest) (omega arith)
        ((keyed, (h, e), pos, fits), open_sink, omega arith) (λ final f. rw o at f)
  pushed_chunk-Step consumed total w rest before k n _ keyed pos fits bound
        (push_ends s t o all open_sink r) =
      step_gives consumed _ _ (length t + length (drop consumed rest)) pos
        (omega (arith, length-drop consumed rest)) (keyed, open_sink, omega arith)
        (λ final f. rw o at f)

  pub write_pending-Step :
      (consumed total written : ℕ) (w : Writer) (rest : List ℕ) (s : Sink) (n : ℕ)
      → Keyed a w.enc
      → Fits total written w.write_buf
      → 0 < consumed
      → consumed ≤ length rest
      → IsOpen s.answers
      → length s.answers + length rest ≤ n
      → Step
          (Follows w.enc w.enc_size_parser (drop consumed rest) (s.out ++ w.write_buf))
          rest
          n
          (write_pending consumed total written w s)
  unfolding write_pending
  write_pending-Step consumed total written w rest s n keyed (h, e) pos fits open_sink bound =
      pushed_chunk-Step consumed total w rest (s.out ++ w.write_buf) (length s.answers) n _ keyed
        pos fits bound
        (push-Pushed unexpected_eof total
          (record { written = written; left = w.write_buf; out = s.out }) s.answers h e open_sink)
