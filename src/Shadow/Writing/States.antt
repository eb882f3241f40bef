-- ===== src/Shadow/Writing/States.antt =====
-- leaf/src/proxy/shadowsocks/shadow.rs: one call of `poll_write`, from each of its states.
use i_leaf.Prelude.{
  ℕ, ◌+◌, ◌%◌, ◌^◌, ◌<◌, ◌≤◌, ◌≡◌, refl, sym, ap, ◌∙◌, List, [], ◌∷◌, ◌++◌, length, take, drop, min,
  take-all, drop-all, length-take, length-drop, length-append, take-append-drop, some, arith,
}
use i_leaf.Prelude.Bytes.{to_be}
use i_leaf.Prelude.WriteAll.{Step-map, step_waits, step_gives}
use i_leaf.Prelude.Polls.{Poll}
use i_leaf.Prelude.Stream.{unexpected_eof}
use i_leaf.Prelude.Writes.{
  Sink, sink_of, WriteEvent, IsOpen, Sending, Pushed, push_waits, push_ends, push-Pushed,
}
use i_leaf.Crypto.{advance}
use i_leaf.Crypto.Nonces.{length-inc}
use i_leaf.Shadow.Cipher.{Algorithm, IsAlgorithm, Aead, tag_len, encrypt}
use i_leaf.Shadow.Writer.{
  WriteState, waiting_chunk, pending_chunk, Writer, pushed_chunk, write_pending, seal_chunk,
  write_chunk, pushed_salt, write_salt,
}
use i_leaf.Shadow.Chunks.{advanced}
use mathlib.Core.List.{append_assoc}
use i_leaf.Shadow.Writing.Progress.{Keyed, Fits, Follows, Step, Follows-eq}

module _ (a : Algorithm) (law : IsAlgorithm a) (psk salt : List ℕ) where
  -- In the state `PendingChunk`.
  pushed_chunk-Step :
      (consumed total : ℕ) (c : Aead) (rest before : List ℕ) (k n : ℕ)
      (out : Poll (Unit {0}) × Sending × List WriteEvent)
      → Keyed a law psk salt c
      → 0 < consumed
      → consumed ≤ length rest
      → k + length rest ≤ n
      → Pushed total before k out
      → Step a law psk salt
          (Follows a law psk salt c (drop consumed rest) before)
          rest
          n
          (pushed_chunk consumed total (some c) out)
  unfolding pushed_chunk
  pushed_chunk-Step consumed total c rest before k n _ keyed pos fits bound
        (push_waits s t h e o open_sink r) =
      step_waits _ _ (length t + length rest) (omega arith)
        (((c, refl, keyed), (h, e), pos, fits), open_sink, omega arith)
        (λ final f. Follows-eq a law psk salt o f)
  pushed_chunk-Step consumed total c rest before k n _ keyed pos fits bound
        (push_ends s t o all open_sink r) =
      step_gives consumed _ _ (length t + length (drop consumed rest)) pos
        (omega (arith, length-drop consumed rest)) ((c, refl, keyed), open_sink, omega arith)
        (λ final f. Follows-eq a law psk salt o f)

  pub write_pending-Step :
      (consumed total written : ℕ) (c : Aead) (left rest : List ℕ) (state : WriteState) (s : Sink)
      (n : ℕ)
      → Keyed a law psk salt c
      → Fits a law psk salt total written left
      → 0 < consumed
      → consumed ≤ length rest
      → IsOpen s.answers
      → length s.answers + length rest ≤ n
      → Step a law psk salt (Follows a law psk salt c (drop consumed rest) (s.out ++ left)) rest n (
          write_pending consumed total written
            (record { enc = some c; write_buf = left; write_state = state })
            s)
  unfolding write_pending
  write_pending-Step consumed total written c left rest state s n keyed (h, e) pos fits open_sink
        bound =
      pushed_chunk-Step consumed total c rest (s.out ++ left) (length s.answers) n _ keyed pos fits
        bound
        (push-Pushed unexpected_eof total (record { written = written; left = left; out = s.out })
          s.answers h e open_sink)

  advanced-Keyed : (c : Aead) → Keyed a law psk salt c → Keyed a law psk salt (advanced c)
  unfolding advance
  advanced-Keyed c (k, n) = (k, length-inc c.nonce ∙ n)

  -- A chunk in front of the chunks that follow it.
  chunk-Follows :
      (c : Aead) (x y rest out final : List ℕ) (size : ℕ)
      → length x ≡ 2 + tag_len
      → length y ≡ length (take size rest) + tag_len
      → a.open_sealed c.key (advance c.nonce) x ≡ some (to_be 2 (length (take size rest)))
      → a.open_sealed c.key (advance (advance c.nonce)) y ≡ some (take size rest)
      → 0 < length (take size rest)
      → length (take size rest) < 2 ^ 16
      → Follows a law psk salt (advanced (advanced c)) (drop size rest) (out ++ (x ++ y)) final
      → Follows a law psk salt c rest out final
  chunk-Follows c x y rest out final size lx ly ox oy pos small (bytes, ps, q, carries, all) = (
    x ++ (y ++ bytes),
    take size rest ∷ ps,
    q ∙ append_assoc out (x ++ y) bytes ∙ ap (λ (l : List ℕ). out ++ l) (append_assoc x y bytes),
    (x, y, bytes, refl, lx, ly, ox, oy, pos, small, carries),
    ap (λ (l : List ℕ). take size rest ++ l) all ∙ take-append-drop size rest,
  )

  -- In the state `WaitingChunk`.
  sealed-Step :
      (c : Aead) (x y rest : List ℕ) (w : Writer) (s : Sink) (size n : ℕ)
      → size ≡ min (length rest) 0x3fff
      → Keyed a law psk salt (advanced (advanced c))
      → 0 < length rest
      → IsOpen s.answers
      → length s.answers + length rest ≤ n
      → a.seal c.key (advance c.nonce) (to_be 2 size) ≡ some x
      → length x ≡ 2 + tag_len
      → a.open_sealed c.key (advance c.nonce) x ≡ some (to_be 2 size)
      → a.seal c.key (advance (advance c.nonce)) (take size rest) ≡ some y
      → length y ≡ length (take size rest) + tag_len
      → a.open_sealed c.key (advance (advance c.nonce)) y ≡ some (take size rest)
      → Step a law psk salt
          (Follows a law psk salt c rest s.out)
          rest
          n
          (seal_chunk a psk c rest w s)
  unfolding seal_chunk encrypt
  sealed-Step c x y rest w s size n is_size keyed pos open_sink bound sx lx ox sy ly oy =
      let small : size % 2 ^ 16 ≡ size = omega arith in
      let len_payload : length (take size rest) ≡ size = omega (arith, length-take size rest) in
      let cut : take (2 + tag_len) x ≡ x = ap (λ (i : ℕ). take i x) (sym lx) ∙ take-all x in
      let none_left : drop (2 + tag_len) x ≡ [] = ap (λ (i : ℕ). drop i x) (sym lx) ∙ drop-all x in
      let inner =
        write_pending-Step size (length (x ++ y)) 0 (advanced (advanced c)) (x ++ y) rest
          (pending_chunk size (length (x ++ y)) 0) s n keyed
          (omega (arith, length-append x y), omega arith) (omega arith) (omega arith) open_sink
          bound in
      let mapped =
        Step-map _ _
          (λ final f.
            chunk-Follows c x y rest s.out final size lx ly (rw len_payload ox) oy (omega arith)
              (omega arith) f)
          inner in
      rw (← is_size, small, sx, cut, none_left, sy) mapped

  pub seal_chunk-Step :
      (c : Aead) (rest : List ℕ) (w : Writer) (s : Sink) (n : ℕ)
      → Keyed a law psk salt c
      → 0 < length rest
      → IsOpen s.answers
      → length s.answers + length rest ≤ n
      → Step a law psk salt
          (Follows a law psk salt c rest s.out)
          rest
          n
          (seal_chunk a psk c rest w s)
  seal_chunk-Step c rest w s n keyed pos open_sink bound =
      let size = min (length rest) 0x3fff in
      let k1 = advanced-Keyed c keyed in
      let k2 = advanced-Keyed (advanced c) k1 in
      let (x, sx, lx, ox) =
        law.seals c.key (advance c.nonce) (to_be 2 size) keyed.0 k1.1 (omega arith) in
      let (y, sy, ly, oy) =
        law.seals c.key (advance (advance c.nonce)) (take size rest) keyed.0 k2.1
          (omega (arith, length-take size rest)) in
      sealed-Step c x y rest w s size n refl k2 pos open_sink bound sx lx ox sy ly oy

  -- In the state `PendingSalt`.
  pushed_salt-Step :
      (total : ℕ) (c : Aead) (rest before : List ℕ) (k n : ℕ)
      (out : Poll (Unit {0}) × Sending × List WriteEvent)
      → Keyed a law psk salt c
      → 0 < length rest
      → k + length rest ≤ n
      → Pushed total before k out
      → Step a law psk salt
          (Follows a law psk salt c rest before)
          rest
          n
          (pushed_salt a psk total rest (some c) out)
  unfolding pushed_salt write_chunk
  pushed_salt-Step total c rest before k n _ keyed pos bound (push_waits s t h e o open_sink r) =
      step_waits _ _ (length t + length rest) (omega arith)
        ((pos, (c, refl, keyed), (h, e)), open_sink, omega arith)
        (λ final f. Follows-eq a law psk salt o f)
  pushed_salt-Step total c rest before k n _ keyed pos bound (push_ends s t o all open_sink r) =
      Step-map _ _ (λ final f. Follows-eq a law psk salt o (c, refl, f))
        (seal_chunk-Step c rest
          (record { enc = some c; write_buf = s.left; write_state = waiting_chunk }) (sink_of s t) n
          keyed pos open_sink (omega arith))

  pub write_salt-Step :
      (total written : ℕ) (c : Aead) (left rest : List ℕ) (state : WriteState) (s : Sink) (n : ℕ)
      → Keyed a law psk salt c
      → Fits a law psk salt total written left
      → 0 < length rest
      → IsOpen s.answers
      → length s.answers + length rest ≤ n
      → Step a law psk salt (Follows a law psk salt c rest (s.out ++ left)) rest n (
          write_salt a psk total written rest
            (record { enc = some c; write_buf = left; write_state = state })
            s)
  unfolding write_salt
  write_salt-Step total written c left rest state s n keyed (h, e) pos open_sink bound =
      pushed_salt-Step total c rest (s.out ++ left) (length s.answers) n _ keyed pos bound (
        push-Pushed unexpected_eof total (record { written = written; left = left; out = s.out })
          s.answers h e open_sink)
