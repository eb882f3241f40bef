-- ===== src/Vmess/Pipe.antt =====
-- leaf/src/proxy/vmess/stream.rs: one end's `poll_write` against the other end's `poll_read`.
use i_leaf.Prelude.{
  ℕ, ◌+◌, ◌<◌, ◌≡◌, ap, ◌∙◌, List, [], ◌∷◌, ◌++◌, length, ok, err, Option, some, arith,
}
use i_leaf.Prelude.Stream.{unexpected_eof}
use i_leaf.Prelude.Polls.{Event, content, IsClean, remaining}
use i_leaf.Prelude.Drain.{drain}
use i_leaf.Prelude.Writes.{WriteEvent, IsOpen, Sink}
use i_leaf.Prelude.WriteAll.{write_all}
use i_leaf.Shadow.{Algorithm, IsAlgorithm}
use i_leaf.Vmess.{VmessAead, ResponseSession, new_reader, poll_read, new_writer, poll_write}
use i_leaf.Vmess.Chunks.{cut}
use i_leaf.Vmess.Reading.{drain-vmess_reader}
use i_leaf.Vmess.Writing.Progress.{Keyed}
use i_leaf.Vmess.Writing.{write_all-vmess_writer}

-- What one end writes, the other end reads: over a sink that does not fail the writer's loop ends
-- with success for the caller's whole buffer, in chunks with masked sizes and random padding, and
-- whatever bytes went out, behind a response header that opens to the byte of the session a reader
-- with the same key, nonces and masks and a buffer that is not empty gets from them exactly the
-- caller's data, and then the error of an early end, however the two transports cut the bytes. The
-- writer's fuel is more than the sink's answers and the data together, the reader's more than its
-- transport's events and bytes and the data together.
pub drain-vmess_write_all :
    (a : Algorithm) (law : IsAlgorithm a) (shake rng : ℕ → ℕ) (masks : (pos : ℕ) → shake pos < 256)
    (cfb_decrypt : List ℕ → List ℕ → List ℕ → Option (List ℕ)) (sess : ResponseSession)
    (enc : VmessAead) (payload header more : List ℕ) (answers : List WriteEvent)
    (size fuel_out extra : ℕ) (transport : List ℕ → List Event)
    → Keyed a enc
    → IsOpen answers
    → length answers + length payload < fuel_out
    → 0 < size
    → ((out : List ℕ) → IsClean (transport out) × (content (transport out) ≡ out))
    → length header ≡ 4
    → cfb_decrypt sess.response_body_key sess.response_body_iv header
      ≡ some (sess.response_header ∷ more)
    → (s : Sink) × (write_all
          (poll_write a shake rng)
          fuel_out
          payload
          (new_writer enc)
          (record { out = []; answers = answers })
        ≡ some (ok s))
      × (drain
            (poll_read a shake cfb_decrypt size)
            (remaining (transport (header ++ s.out)) + length payload + (extra + 1))
            (new_reader sess enc)
            (transport (header ++ s.out))
          ≡ some (payload, err unexpected_eof))
drain-vmess_write_all a law shake rng masks cfb_decrypt sess enc payload header more answers size
      fuel_out extra transport keyed open_sink enough room delivers lh opens =
    let (s, e, (chunks, ps, q, carries, all)) =
      write_all-vmess_writer a law shake rng masks enc payload answers fuel_out keyed open_sink
        enough in
    let t = transport (header ++ s.out) in
    let (clean, same) = delivers (header ++ s.out) in
    let fuel = remaining t + length payload + (extra + 1) in
    let enough_in : remaining t + length payload < fuel = omega arith in
    (
      s,
      e,
      rw all at (
          drain-vmess_reader a shake cfb_decrypt cut size room sess enc header chunks more ps t fuel
            clean (same ∙ ap (λ r. header ++ r) q) lh opens carries (rw all enough_in)),
    )
