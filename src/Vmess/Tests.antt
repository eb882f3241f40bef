-- ===== src/Vmess/Tests.antt =====
-- leaf/src/proxy/vmess/stream.rs: the statements at concrete inputs, with a cipher that appends a tag of
-- zeros, the mask stream 0, 1, 2, ... and a header that is not encrypted.
use i_leaf.Prelude.{
  ℕ, ◌+◌, ◌-◌, ◌%◌, ◌<◌, ◌≡◌, refl, ap, List, [], ◌∷◌, ◌++◌, length, take, replicate, length-append,
  take-append_left, Option, some, ok, err, arith,
}
use i_leaf.Prelude.Stream.{unexpected_eof}
use i_leaf.Prelude.Polls.{Event, bytes, not_ready, content, IsClean, remaining}
use i_leaf.Prelude.Drain.{drain}
use i_leaf.Prelude.Writes.{WriteEvent, Sink, blocked, takes}
use i_leaf.Prelude.WriteAll.{write_all}
use i_leaf.Crypto.{VmessSequence, vmess_advance, next_padding_len, decode_size}
use i_leaf.Shadow.{Algorithm, IsAlgorithm}
use i_leaf.Vmess.{VmessAead, ResponseSession, new_reader, poll_read, new_writer, poll_write}
use i_leaf.Vmess.Chunks.{Chunk}
use i_leaf.Vmess.Writing.Progress.{Keyed}
use i_leaf.Vmess.Pipe.{drain-vmess_write_all}

abbrev tag : List ℕ
tag = replicate 16 0

abbrev plain : Algorithm
plain = record {
  key_len = 4;
  nonce_len = 3;
  seal = λ key nonce message. some (message ++ tag);
  open_sealed = λ key nonce sealed. some (take (length sealed - 16) sealed);
  hkdf_sha1 = λ psk salt. some (replicate 4 9);
}

opens : (message : List ℕ) → take (length (message ++ tag) - 16) (message ++ tag) ≡ message
opens message =
    let n : length (message ++ tag) - 16 ≡ length message =
      omega (arith, length-append message tag) in
    rw n (take-append_left message tag)

plain-IsAlgorithm : IsAlgorithm plain
plain-IsAlgorithm = record {
  seals = λ key nonce message h k l.
      (message ++ tag, refl, length-append message tag, ap some (opens message));
  derives = λ psk salt. (replicate 4 9, refl, refl);
}

abbrev counting : ℕ → ℕ
counting pos = pos % 256

abbrev noise : ℕ → ℕ
noise i = 170

masks : (pos : ℕ) → counting pos < 256
masks pos = omega arith

abbrev enc : VmessAead
enc = record {
  key = 1 ∷ 1 ∷ 1 ∷ 1 ∷ [];
  sequence = record { nonce = 7 ∷ 7 ∷ 7 ∷ 7 ∷ []; size = 3; count = 0xffff };
}

abbrev payload : List ℕ
payload = 41 ∷ 42 ∷ []

abbrev answers : List WriteEvent
answers = takes 3 ∷ blocked ∷ takes 1 ∷ []

-- The padding of 1 byte, the size 2 + 16 + 1 under the mask 0x0203, the sealed payload.
abbrev written : List ℕ
written = 2 ∷ 16 ∷ 41 ∷ 42 ∷ (tag ++ (170 ∷ []))

keyed : Keyed plain enc
keyed = (refl, refl, omega arith, omega arith)

abbrev sess : ResponseSession
sess = record { response_body_key = []; response_body_iv = []; response_header = 9 }

abbrev header : List ℕ
header = 9 ∷ 0 ∷ 0 ∷ 0 ∷ []

abbrev in_clear : List ℕ → List ℕ → List ℕ → Option (List ℕ)
in_clear key iv h = some h

-- A transport that gives one byte a time, and is not ready in between.
abbrev trickle : List ℕ → List Event
trickle [] = []
trickle (b ∷ out) = bytes (b ∷ []) ∷ not_ready ∷ trickle out

delivers : (out : List ℕ) → IsClean (trickle out) × (content (trickle out) ≡ out)
delivers [] = (tt, refl)
delivers (b ∷ out) =
    let (clean, same) = delivers out in ((omega arith, clean), ap (λ r. b ∷ r) same)

drain-vmess_write_all_example :
    (s : Sink) × (write_all
        (poll_write plain counting noise)
        9
        payload
        (new_writer enc)
        (record { out = []; answers = answers })
      ≡ some (ok s))
    × (drain
          (poll_read plain counting in_clear 1)
          (remaining (trickle (header ++ s.out)) + 2 + (0 + 1))
          (new_reader sess enc)
          (trickle (header ++ s.out))
        ≡ some (payload, err unexpected_eof))
drain-vmess_write_all_example =
    drain-vmess_write_all plain plain-IsAlgorithm counting noise masks in_clear sess enc payload
      header (0 ∷ 0 ∷ 0 ∷ []) answers 1 9 0 trickle keyed (omega arith, (omega arith, tt))
      (omega arith) (omega arith) delivers refl refl

-- The payload, and a chunk that carries nothing behind it: its size is 16 + 5 under the mask 0x0607.
abbrev second : List ℕ
second = 6 ∷ 18 ∷ (tag ++ (1 ∷ 2 ∷ 3 ∷ 4 ∷ 5 ∷ []))

abbrev next_sequence : ℕ → VmessSequence
next_sequence count = record { nonce = 0 ∷ count ∷ 7 ∷ 7 ∷ []; size = 3; count = count }

first_part : Chunk plain counting enc 0 payload (written ++ second) second (next_sequence 0) 4
unfolding vmess_advance next_padding_len decode_size
first_part = record {
  size_bytes = 2 ∷ 16 ∷ [];
  sealed = 41 ∷ 42 ∷ tag;
  padding = 170 ∷ [];
  nonce = 0 ∷ 0 ∷ 7 ∷ [];
  parts = refl;
  two_bytes = refl;
  size = refl;
  padded = refl;
  advances = refl;
  opens = refl;
  tagged = refl;
}

last_part :
    Chunk plain counting
      (record enc { sequence = next_sequence 0 })
      4
      []
      second
      []
      (next_sequence 1)
      8
unfolding vmess_advance next_padding_len decode_size
last_part = record {
  size_bytes = 6 ∷ 18 ∷ [];
  sealed = tag;
  padding = 1 ∷ 2 ∷ 3 ∷ 4 ∷ 5 ∷ [];
  nonce = 0 ∷ 1 ∷ 7 ∷ [];
  parts = refl;
  two_bytes = refl;
  size = refl;
  padded = refl;
  advances = refl;
  opens = refl;
  tagged = refl;
}
