-- ===== src/Crypto/Sizes.antt =====
-- leaf/src/proxy/vmess/crypto.rs: the chunk sizes that one side masks and the other unmasks.
use i_leaf.Prelude.{ℕ, ◌+◌, ◌^◌, ◌<◌, ◌≡◌, refl, ap, ◌∙◌, List, [], ◌∷◌, ◌++◌, ok, arith}
use i_leaf.Prelude.Bytes.{to_be, of_be, of_be-to_be, of_be-lt}
use i_leaf.Prelude.Xor.{bit_xor-lt, bit_xor_cancel}
use i_leaf.Crypto.{next_mask, decode_size, encode_size, next_padding_len}
use Prim.Native.Nat.{bit_xor}
use native.Mathlib.Nat.{mod-lt}

module _ (shake : ℕ → ℕ) (bytes : (pos : ℕ) → shake pos < 256) where
  mask-lt : (pos : ℕ) → (next_mask shake pos).0 < 2 ^ 16
  unfolding next_mask
  mask-lt pos =
      of_be-lt 2 (shake pos ∷ shake (pos + 1) ∷ []) refl (bytes pos, (bytes (pos + 1), tt))

  decode_two :
      (pos x y : ℕ) (rest : List ℕ)
      → decode_size shake pos (x ∷ y ∷ rest)
        ≡ ok (bit_xor (next_mask shake pos).0 (of_be (x ∷ y ∷ [])), pos + 2)
  unfolding decode_size next_mask
  decode_two pos x y rest = ground arith

  -- A size below 65536 that one side encodes is what the other side decodes at the same position
  -- of the mask stream, and both go on at the same position.
  pub decode_size-encode_size :
      (pos size : ℕ) (rest : List ℕ)
      → size < 2 ^ 16
      → decode_size shake pos ((encode_size shake pos size).0 ++ rest)
        ≡ ok (size, (encode_size shake pos size).1)
  unfolding decode_size encode_size next_mask
  decode_size-encode_size pos size rest h =
      let mask = (next_mask shake pos).0 in
      let masked = bit_xor-lt 16 mask size (mask-lt pos) h in
      let value = of_be-to_be 2 (bit_xor mask size) masked in
      let undone = bit_xor_cancel 16 mask size (mask-lt pos) h in
      let same : bit_xor mask (of_be (to_be 2 (bit_xor mask size))) ≡ size =
        ap (λ (v : ℕ). bit_xor mask v) value ∙ undone in
      decode_two pos _ _ rest ∙ ap (λ (v : ℕ). ok (v, pos + 2)) same

  -- A padding is shorter than 64 bytes, and takes its two bytes of the stream.
  pub next_padding_len-lt : (pos : ℕ) → (next_padding_len shake pos).0 < 64
  unfolding next_padding_len
  next_padding_len-lt pos = mod-lt ((next_mask shake pos).0) (omega arith)
