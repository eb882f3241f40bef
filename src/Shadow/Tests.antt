-- ===== src/Shadow/Tests.antt =====
-- leaf/src/proxy/shadowsocks/shadow.rs: the statements at concrete inputs, with a cipher that
-- appends a tag of zeros.
use i_leaf.Prelude.{
  ℕ, ◌+◌, ◌-◌, ◌≡◌, refl, ap, List, [], ◌∷◌, ◌++◌, length, take, replicate, length-append,
  take-append_left, some, ok, err, arith,
}
use i_leaf.Prelude.Stream.{unexpected_eof}
use i_leaf.Prelude.Polls.{Event, bytes, not_ready, content, IsClean, remaining}
use i_leaf.Prelude.Drain.{drain}
use i_leaf.Prelude.Writes.{WriteEvent, Sink, blocked, takes}
use i_leaf.Crypto.{shadowsocks_nonce}
use i_leaf.Shadow.{Algorithm, IsAlgorithm, new_reader, poll_read, new_writer, poll_write}
use i_leaf.Shadow.Chunks.{Carries}
use i_leaf.Prelude.WriteAll.{write_all}
use i_leaf.Shadow.Pipe.{drain-write_all}
use i_leaf.Shadow.Datagram.{send_to, recv_from}
use i_leaf.Shadow.Packets.{recv_from-send_to}

abbrev pub tag : List ℕ
tag = replicate 16 0

abbrev pub plain : Algorithm
plain = record {
  key_len = 4;
  nonce_len = 2;
  seal = λ key nonce message. some (message ++ tag);
  open_sealed = λ key nonce sealed. some (take (length sealed - 16) sealed);
  hkdf_sha1 = λ psk salt. some (replicate 4 9);
}

opens : (message : List ℕ) → take (length (message ++ tag) - 16) (message ++ tag) ≡ message
opens message =
    let n : length (message ++ tag) - 16 ≡ length message =
      omega (arith, length-append message tag) in
    rw n (take-append_left message tag)

plain-IsAlgorithm : IsAlgorithm plain
plain-IsAlgorithm = record {
  seals = λ key nonce message h k l.
      (message ++ tag, refl, length-append message tag, ap some (opens message));
  derives = λ psk salt. (replicate 4 9, refl, refl);
}

abbrev pub psk : List ℕ
psk = 1 ∷ 1 ∷ 1 ∷ 1 ∷ []

abbrev pub salt : List ℕ
salt = 5 ∷ 6 ∷ 7 ∷ 8 ∷ []

abbrev pub payload : List ℕ
payload = 41 ∷ 42 ∷ []

abbrev answers : List WriteEvent
answers = takes 3 ∷ blocked ∷ takes 1 ∷ takes 20 ∷ []

abbrev pub cut_up : List Event
cut_up =
    bytes (5 ∷ 6 ∷ [])
    ∷ not_ready
    ∷ bytes (7 ∷ 8 ∷ 0 ∷ 2 ∷ tag)
    ∷ bytes (41 ∷ [])
    ∷ bytes (42 ∷ tag)
    ∷ []

-- A transport that gives one byte a time, and is not ready in between.
abbrev trickle : List ℕ → List Event
trickle [] = []
trickle (b ∷ out) = bytes (b ∷ []) ∷ not_ready ∷ trickle out

delivers : (out : List ℕ) → IsClean (trickle out) × (content (trickle out) ≡ out)
delivers [] = (tt, refl)
delivers (b ∷ out) =
    let (clean, same) = delivers out in ((omega arith, clean), ap (λ r. b ∷ r) same)

drain-write_all_example :
    (s : Sink) × (write_all
        (poll_write plain psk salt)
        10
        payload
        new_writer
        (record { out = []; answers = answers })
      ≡ some (ok s))
    × (drain
          (poll_read plain psk 1)
          (remaining (trickle s.out) + 2 + (0 + 1))
          new_reader
          (trickle s.out)
        ≡ some (payload, err unexpected_eof))
drain-write_all_example =
    drain-write_all plain plain-IsAlgorithm psk salt payload answers 1 10 0 trickle refl
      (omega arith) (omega arith) (omega arith, (omega arith, (omega arith, tt))) (omega arith)
      (omega arith) delivers

pub carried :
    Carries plain
      (record { key = replicate 4 9; nonce = shadowsocks_nonce 2 })
      ((0 ∷ 2 ∷ tag) ++ (41 ∷ 42 ∷ tag))
      (payload ∷ [])
carried =
    (0 ∷ 2 ∷ tag, 41 ∷ 42 ∷ tag, [], refl, refl, refl, refl, refl, omega arith, omega arith, refl)

recv_from-send_to_example :
    (packet : List ℕ) × (send_to plain psk (λ packet. ok 30) salt payload ≡ (ok 2, some packet))
    × (length packet ≡ 22)
    × (recv_from plain psk {A = ℕ} (λ size. ok (take size packet, 7)) 8 ≡ ok (payload, 7))
recv_from-send_to_example =
    recv_from-send_to plain plain-IsAlgorithm psk salt (λ packet. ok 30) payload 30 8 7 refl
      (omega arith) (omega arith) (λ packet. refl) (omega arith)
