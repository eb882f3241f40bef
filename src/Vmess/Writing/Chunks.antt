-- ===== src/Vmess/Writing/Chunks.antt =====
-- leaf/src/proxy/vmess/stream.rs: the chunk that `poll_write` makes of its buffer.
use i_leaf.Prelude.{
  ℕ, zero, suc, ◌+◌, ◌-◌, ◌%◌, ◌^◌, ◌<◌, ◌≤◌, ◌≡◌, refl, sym, ap, ◌∙◌, List, [], ◌∷◌, ◌++◌, length,
  take, drop, min, ltb, leb, take-all, drop-all, length-take, length-append, take-append-drop, true,
  if◌then◌else◌, ok, some, arith,
}
use i_leaf.Prelude.Bytes.{length-to_be}
use i_leaf.Prelude.Writes.{IsOpen, Sink}
use i_leaf.Prelude.WriteAll.{Step-map}
use i_leaf.Crypto.{
  VmessSequence, vmess_advance, next_padding_len, encode_size, decode_size, next_mask,
}
use i_leaf.Crypto.Sizes.{decode_size-encode_size, next_padding_len-lt}
use i_leaf.Shadow.{Algorithm, IsAlgorithm, tag_len}
use i_leaf.Vmess.Cipher.{VmessAead, vmess_encrypt}
use i_leaf.Vmess.Writer.{pending_chunk, Writer, draw, padded_chunk, write_chunk}
use i_leaf.Vmess.Chunks.{Chunk}
use mathlib.Core.List.{append_assoc, append-nil}
use Prim.Native.Nat.{bit_xor}
use i_leaf.Vmess.Writing.Progress.{Keyed, advance-Keyed, Follows, Step, write_pending-Step}

module _ (a : Algorithm) (law : IsAlgorithm a) (shake rng : ℕ → ℕ)
    (bytes : (pos : ℕ) → shake pos < 256) where
  length-draw : (from n : ℕ) → length (draw a shake rng from n) ≡ n
  length-draw from zero = refl
  length-draw from (suc n) = ap suc (length-draw (from + 1) n)

  draw_any :
      (from n : ℕ) → (if ltb 0 n then draw a shake rng from n else []) ≡ draw a shake rng from n
  draw_any from zero = refl
  draw_any from (suc n) = ground arith

  -- A chunk in front of the chunks that follow it.
  Follows-Chunk :
      (c : VmessAead) (pos pos' : ℕ) (next : VmessSequence) (p chunk rest out final : List ℕ)
      → ((more : List ℕ) → Chunk a shake c pos p (chunk ++ more) more next pos')
      → 0 < length p
      → Follows a law shake rng bytes (record c { sequence = next }) pos' rest (out ++ chunk) final
      → Follows a law shake rng bytes c pos (p ++ rest) out final
  Follows-Chunk c pos pos' next p chunk rest out final made positive (chunks, ps, q, carries, all) =
      (
        chunk ++ chunks,
        p ∷ ps,
        q ∙ append_assoc out chunk chunks,
        (chunks, next, pos', positive, made chunks, carries),
        ap (λ (l : List ℕ). p ++ l) all,
      )

  -- The bytes behind the sealed payload.
  abbrev padding_of : Writer → ℕ → List ℕ
  padding_of w padding = draw a shake rng w.drawn padding

  padded_chunk-Step :
      (consumed padding : ℕ) (sealed rest : List ℕ) (w : Writer) (s : Sink) (n : ℕ)
      → length sealed ≡ consumed + tag_len
      → Keyed a w.enc
      → 0 < consumed
      → consumed ≤ length rest
      → IsOpen s.answers
      → length s.answers + length rest ≤ n
      → Step a law shake rng bytes
          (Follows a law shake rng bytes w.enc w.enc_size_parser
            (drop consumed rest)
            (s.out ++ (w.write_buf ++ (sealed ++ padding_of w padding))))
          rest
          n
          (padded_chunk a shake rng consumed padding sealed w s)
  unfolding padded_chunk
  padded_chunk-Step consumed padding sealed rest w s n len keyed positive fits open_sink bound =
      let here : leb (consumed + tag_len) (length sealed) ≡ true = ground arith in
      let front : take (consumed + tag_len) sealed ≡ sealed =
        ap (λ (i : ℕ). take i sealed) (sym len) ∙ take-all sealed in
      let back : drop (consumed + tag_len) sealed ≡ [] =
        ap (λ (i : ℕ). drop i sealed) (sym len) ∙ drop-all sealed in
      let random : (if ltb 0 padding then padding_of w padding else []) ≡ padding_of w padding =
        draw_any w.drawn padding in
      let merged : List ℕ = w.write_buf ++ (sealed ++ padding_of w padding) in
      let w' : Writer = record w {
        drawn = w.drawn + padding;
        write_buf = merged;
        write_state = pending_chunk consumed (length merged) 0;
      } in
      let len_merged = length-append w.write_buf (sealed ++ padding_of w padding) in
      let len_tail = length-append sealed (padding_of w padding) in
      rw (here, front, back, random)
        (write_pending-Step a law shake rng bytes consumed (length merged) 0 w' rest s n keyed
          (omega arith, omega arith) positive fits open_sink bound)

  length-encode_size : (pos size : ℕ) → length (encode_size shake pos size).0 ≡ 2
  unfolding encode_size
  length-encode_size pos size = length-to_be 2 (bit_xor (next_mask shake pos).0 size)

  -- The chunk that the writer makes of `p`.
  made-Chunk :
      (c : VmessAead) (pos from : ℕ) (p sealed nonce : List ℕ) (next : VmessSequence)
      → length p + tag_len + (next_padding_len shake pos).0 < 2 ^ 16
      → vmess_advance c.sequence ≡ ok (nonce, next)
      → a.open_sealed c.key nonce sealed ≡ some p
      → length sealed ≡ length p + tag_len
      → (more : List ℕ)
      → Chunk a shake c pos p
          (((encode_size shake
                (next_padding_len shake pos).1
                (length p + tag_len + (next_padding_len shake pos).0)).0
              ++ (sealed ++ draw a shake rng from (next_padding_len shake pos).0))
            ++ more)
          more
          next
          (encode_size shake
            (next_padding_len shake pos).1
            (length p + tag_len + (next_padding_len shake pos).0)).1
  made-Chunk c pos from p sealed nonce next small adv opens tagged more =
      let padding = (next_padding_len shake pos).0 in
      let pos1 = (next_padding_len shake pos).1 in
      let size = length p + tag_len + padding in
      let x = (encode_size shake pos1 size).0 in
      let z = draw a shake rng from padding in
      let len_z = length-draw from padding in
      let decoded : decode_size shake pos1 x ≡ ok (size, (encode_size shake pos1 size).1) =
        rw append-nil at (decode_size-encode_size shake bytes pos1 size [] small) in
      let count : length sealed + length z ≡ size = omega arith in
      record {
        size_bytes = x;
        sealed = sealed;
        padding = z;
        nonce = nonce;
        parts =
            append_assoc x (sealed ++ z) more
            ∙ ap (λ (l : List ℕ). x ++ l) (append_assoc sealed z more);
        two_bytes = length-encode_size pos1 size;
        size = rw count decoded;
        padded = len_z;
        advances = adv;
        opens = opens;
        tagged = tagged;
      }

  pub write_chunk-Step :
      (rest : List ℕ) (w : Writer) (s : Sink) (n : ℕ)
      → Keyed a w.enc
      → 0 < length rest
      → IsOpen s.answers
      → length s.answers + length rest ≤ n
      → Step a law shake rng bytes
          (Follows a law shake rng bytes w.enc w.enc_size_parser rest s.out)
          rest
          n
          (write_chunk a shake rng rest w s)
  unfolding write_chunk vmess_encrypt
  write_chunk-Step rest w s n keyed positive open_sink bound =
      let pos = w.enc_size_parser in
      let padding = (next_padding_len shake pos).0 in
      let short : padding < 64 = next_padding_len-lt shake bytes pos in
      let consume_len = min (length rest) (0x4000 - tag_len - padding) in
      let p = take consume_len rest in
      let len_p : length p ≡ consume_len = omega (arith, length-take consume_len rest) in
      let (nonce, next, adv, len_nonce, keyed') = advance-Keyed a w.enc keyed in
      let (sealed, sx, ls, opens) = law.seals w.enc.key nonce p keyed.0 len_nonce (omega arith) in
      let size = length p + tag_len + padding in
      let small : (consume_len + tag_len + padding) % 2 ^ 16 ≡ size = omega arith in
      let pos1 = (next_padding_len shake pos).1 in
      let w' : Writer = record w {
        enc = record w.enc { sequence = next };
        enc_size_parser = (encode_size shake pos1 size).1;
        write_buf = (encode_size shake pos1 size).0;
      } in
      let made = made-Chunk w.enc pos w.drawn p sealed nonce next (omega arith) adv opens ls in
      let inner =
        padded_chunk-Step consume_len padding sealed rest w' s n (omega arith) keyed' (omega arith)
          (omega arith) open_sink bound in
      let all = take-append-drop consume_len rest in
      let mapped =
        Step-map _ _
          (λ final f.
            Follows-Chunk w.enc pos _ next p _ (drop consume_len rest) s.out final made
              (omega arith) f)
          inner in
      rw (small, adv, sx) (rw all at mapped)
