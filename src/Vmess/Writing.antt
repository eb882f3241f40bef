-- ===== src/Vmess/Writing.antt =====
-- leaf/src/proxy/vmess/stream.rs: what a caller that writes a whole buffer by `poll_write` puts on the
-- transport, however the transport takes it.
pub mod Progress
pub mod Chunks
use i_leaf.Prelude.{
  ℕ, zero, suc, ◌+◌, ◌-◌, ◌%◌, ◌^◌, ◌<◌, ◌≤◌, ◌≡◌, refl, sym, ap, ◌∙◌, List, [], ◌∷◌, ◌++◌, length,
  take, drop, min, ltb, leb, take-all, drop-all, length-take, length-drop, length-append,
  take-append-drop, Bool-cases, true, false, inl, inr, if◌then◌else◌, Outcome, ok, err, panic, some,
  arith, le→leb,
}
use i_leaf.Prelude.Bytes.{to_be, length-to_be}
use i_leaf.Prelude.Stream.{unexpected_eof}
use i_leaf.Prelude.Polls.{Poll, pending, ready}
use i_leaf.Prelude.Writes.{
  WriteEvent, IsOpen, Sending, Sink, Pushed, push_waits, push_ends, push-Pushed,
}
use i_leaf.Prelude.WriteAll
use i_leaf.Prelude.WriteAll.{write_all, write_all_lem, Step-map, step_waits, step_gives}
use i_leaf.Crypto.{
  VmessSequence, vmess_advance, next_padding_len, encode_size, decode_size, next_mask,
}
use i_leaf.Crypto.Sizes.{decode_size-encode_size, next_padding_len-lt}
use i_leaf.Shadow.{Algorithm, IsAlgorithm, tag_len}
use i_leaf.Shadow.Chunks.{concat}
use i_leaf.Vmess.Cipher.{VmessAead, vmess_encrypt}
use i_leaf.Vmess.Writer.{
  WriteState, waiting_chunk, pending_chunk, Writer, new_writer, Wrote, left_with, pushed_chunk,
  write_pending, draw, padded_chunk, write_chunk, write_in, poll_write,
}
use i_leaf.Vmess.Chunks.{Chunk, cut, Carries}
use mathlib.Core.List.{append_assoc, append-nil}
use Prim.Native.Nat.{bit_xor}
use i_leaf.Vmess.Writing.Progress.{
  Keyed, advance-Keyed, Fits, Valid, Follows, Finishes, Ends, Ready, Step, write_pending-Step,
}
use i_leaf.Vmess.Writing.Chunks.{write_chunk-Step}

module _ (a : Algorithm) (law : IsAlgorithm a) (shake rng : ℕ → ℕ)
    (bytes : (pos : ℕ) → shake pos < 256) where
  write_in-Step :
      (state : WriteState) (rest : List ℕ) (w : Writer) (s : Sink) (n : ℕ)
      → 0 < length rest
      → Valid a law shake rng bytes state w.enc w.write_buf rest
      → IsOpen s.answers
      → length s.answers + length rest ≤ n
      → Step a law shake rng bytes
          (Finishes a law shake rng bytes state w.enc w.enc_size_parser w.write_buf rest s.out)
          rest
          n
          (write_in a shake rng state rest w s)
  unfolding write_in
  write_in-Step waiting_chunk rest w s n positive keyed open_sink bound =
      write_chunk-Step a law shake rng bytes rest w s n keyed positive open_sink bound
  write_in-Step (pending_chunk consumed total written) rest w s n positive (keyed, fits, p, l)
        open_sink bound =
      write_pending-Step a law shake rng bytes consumed total written w rest s n keyed fits p l
        open_sink bound

  poll_write-Step :
      (b : ℕ) (buf : List ℕ) (w : Writer) (s : Sink) (n : ℕ)
      → Ready a law shake rng bytes w (b ∷ buf) s n
      → Step a law shake rng bytes
          (Ends a law shake rng bytes w (b ∷ buf) s)
          (b ∷ buf)
          n
          (poll_write a shake rng (b ∷ buf) w s)
  unfolding poll_write
  poll_write-Step b buf w s n (valid, open_sink, bound) =
      write_in-Step w.write_state (b ∷ buf) w s n (omega arith) valid open_sink bound

  nothing_left :
      (state : WriteState) (enc : VmessAead) (pos : ℕ) (left out : List ℕ)
      → Valid a law shake rng bytes state enc left []
      → Finishes a law shake rng bytes state enc pos left [] out out
  nothing_left waiting_chunk enc pos left out keyed = ([], [], sym (append-nil out), refl, refl)
  nothing_left (pending_chunk consumed total written) enc pos left out (k, f, p, l) =
      absurd (omega arith)

  -- A caller that writes any data puts chunks on the transport that carry exactly the data, each with
  -- its size masked and with random padding behind it, however the transport takes the bytes,
  -- unless a write fails or takes none; as many calls as the data have bytes and the transport has
  -- answers are enough.
  pub write_all-vmess_writer :
      (enc : VmessAead) (payload : List ℕ) (answers : List WriteEvent) (fuel : ℕ)
      → Keyed a enc
      → IsOpen answers
      → length answers + length payload < fuel
      → (s : Sink) × (write_all
            (poll_write a shake rng)
            fuel
            payload
            (new_writer enc)
            (record { out = []; answers = answers })
          ≡ some (ok s))
        × Follows a law shake rng bytes enc 0 payload [] s.out
  unfolding new_writer
  write_all-vmess_writer enc payload answers fuel keyed open_sink enough =
      write_all_lem (Ready a law shake rng bytes) (Ends a law shake rng bytes)
        (poll_write a shake rng) poll_write-Step
        (λ w s n r. nothing_left w.write_state w.enc w.enc_size_parser w.write_buf s.out r.0) fuel
        payload (new_writer enc) (record { out = []; answers = answers })
        (length answers + length payload) enough (keyed, open_sink, omega arith)
