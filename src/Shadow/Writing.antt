-- ===== src/Shadow/Writing.antt =====
-- leaf/src/proxy/shadowsocks/shadow.rs: what a caller that writes a whole buffer by `poll_write` puts
-- on the transport, however the transport takes it.
pub mod Progress
pub mod States
use i_leaf.Prelude.{
  ℕ, zero, suc, ◌+◌, ◌%◌, ◌^◌, ◌<◌, ◌≤◌, ◌≡◌, refl, sym, ap, ◌∙◌, List, [], ◌∷◌, ◌++◌, length, take,
  drop, min, take-all, drop-all, length-replicate, length-take, length-drop, length-append,
  take-append-drop, ◌==◌, if◌then◌else◌, Outcome, ok, err, panic, Option, none, some, false, arith,
}
use i_leaf.Prelude.Bytes.{to_be}
use i_leaf.Prelude.Stream.{IoError, write_zero}
use i_leaf.Prelude.WriteAll.{write_all, write_all_lem, Step-map}
use i_leaf.Prelude.Polls.{Poll, pending, ready}
use i_leaf.Prelude.Writes.{
  Sink, sink_of, WriteEvent, IsOpen, Sending, Pushed, push_waits, push_ends, push-Pushed,
}
use i_leaf.Crypto.{shadowsocks_nonce, advance}
use i_leaf.Crypto.Nonces.{length-inc}
use i_leaf.Shadow.Cipher.{Algorithm, IsAlgorithm, Aead, tag_len, session_cipher, encrypt}
use i_leaf.Shadow.Writer.{
  WriteState, waiting_salt, waiting_chunk, pending_salt, pending_chunk, Writer, new_writer, Wrote,
  pushed_chunk, write_pending, seal_chunk, write_chunk, pushed_salt, write_salt, start, write_in,
  poll_write,
}
use i_leaf.Shadow.Chunks.{Carries, concat, advanced}
use mathlib.Core.List.{append_assoc, append-nil}
use i_leaf.Shadow.Writing.Progress.{
  Keyed, Fits, Valid, Follows, Finishes, Ends, Ready, Step, Follows-eq,
}
use i_leaf.Shadow.Writing.States.{write_pending-Step, seal_chunk-Step, write_salt-Step}

module _ (a : Algorithm) (law : IsAlgorithm a) (psk salt : List ℕ) where
  module _ (whole_salt : length salt ≡ a.key_len) (some_key : 0 < a.key_len) where
    session_cipher-Keyed :
        (c : Aead) × (session_cipher a psk (take a.key_len salt) ≡ ok c) × Keyed a law psk salt c
    unfolding session_cipher shadowsocks_nonce
    session_cipher-Keyed =
        let (key, h, l) = law.derives psk (take a.key_len salt) in
        (
          record { key = key; nonce = shadowsocks_nonce a.nonce_len },
          rw h refl,
          (l, length-replicate a.nonce_len 0xff),
        )

    write_in-Step :
        (state : WriteState) (enc : Option Aead) (left rest : List ℕ) (s : Sink) (n : ℕ)
        → 0 < length rest
        → Valid a law psk salt state enc left rest
        → IsOpen s.answers
        → length s.answers + length rest ≤ n
        → Step a law psk salt (Finishes a law psk salt state enc left rest s.out) rest n (
            write_in a psk state salt rest
              (record { enc = enc; write_buf = left; write_state = state })
              s)
    unfolding write_in start write_chunk
    write_in-Step waiting_salt enc left rest s n pos valid open_sink bound =
        let (c, h, keyed) = session_cipher-Keyed in
        rw h (
          Step-map _ _ (λ final f. (c, h, f))
            (write_salt-Step a law psk salt a.key_len 0 c salt rest (pending_salt a.key_len 0) s n
              keyed (omega arith, omega arith) pos open_sink bound))
    write_in-Step (pending_salt total written) enc left rest s n pos (p, (c, h, keyed), fits)
          open_sink bound =
        rw h (
          Step-map _ _ (λ final f. (c, refl, f))
            (write_salt-Step a law psk salt total written c left rest (pending_salt total written) s
              n keyed fits pos open_sink bound))
    write_in-Step waiting_chunk enc left rest s n pos (c, h, keyed) open_sink bound = rw h (
        Step-map _ _ (λ final f. (c, refl, f))
          (seal_chunk-Step a law psk salt c rest
            (record { enc = some c; write_buf = left; write_state = waiting_chunk }) s n keyed pos
            open_sink bound))
    write_in-Step (pending_chunk consumed total written) enc left rest s n pos
          ((c, h, keyed), fits, p, l) open_sink bound =
        rw h (
          Step-map _ _ (λ final f. (c, refl, f))
            (write_pending-Step a law psk salt consumed total written c left rest
              (pending_chunk consumed total written) s n keyed fits p l open_sink bound))

    nothing_left :
        (state : WriteState) (enc : Option Aead) (left out : List ℕ)
        → Valid a law psk salt state enc left []
        → Finishes a law psk salt state enc left [] out out
    nothing_left waiting_salt enc left out h = absurd (omega arith)
    nothing_left (pending_salt total written) enc left out (p, k, f) = absurd (omega arith)
    nothing_left waiting_chunk enc left out (c, h, k) =
        (c, h, ([], [], sym (append-nil out), refl, refl))
    nothing_left (pending_chunk consumed total written) enc left out (k, f, p, l) =
        absurd (omega arith)

    poll_write-Step :
        (b : ℕ) (buf : List ℕ) (w : Writer) (s : Sink) (n : ℕ)
        → Ready a law psk salt w (b ∷ buf) s n
        → Step a law psk salt
            (Ends a law psk salt w (b ∷ buf) s)
            (b ∷ buf)
            n
            (poll_write a psk salt (b ∷ buf) w s)
    unfolding poll_write
    poll_write-Step b buf w s n (valid, open_sink, bound) =
        write_in-Step w.write_state w.enc w.write_buf (b ∷ buf) s n (omega arith) valid open_sink
          bound

    -- A caller that writes data which are not empty puts the salt on the transport and behind it
    -- chunks that carry exactly the data, however the transport takes the bytes, unless a write
    -- fails or takes none; as many calls as the data have bytes and the transport has answers
    -- are enough.
    pub write_all-new_writer :
        (payload : List ℕ) (answers : List WriteEvent) (fuel : ℕ)
        → 0 < length payload
        → IsOpen answers
        → length answers + length payload < fuel
        → (s : Sink) × (write_all
              (poll_write a psk salt)
              fuel
              payload
              new_writer
              (record { out = []; answers = answers })
            ≡ some (ok s))
          × (c : Aead) × (session_cipher a psk (take a.key_len salt) ≡ ok c)
          × Follows a law psk salt c payload salt s.out
    unfolding new_writer
    write_all-new_writer payload answers fuel pos open_sink enough =
        let (s, e, (c, h, f)) =
          write_all_lem (Ready a law psk salt) (Ends a law psk salt) (poll_write a psk salt)
            poll_write-Step (λ w s n r. nothing_left w.write_state w.enc w.write_buf s.out r.0) fuel
            payload new_writer (record { out = []; answers = answers })
            (length answers + length payload) enough (pos, open_sink, omega arith) in
        (s, e, c, h, f)
