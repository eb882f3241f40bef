-- ===== src/Vmess/Chunks.antt =====
-- leaf/src/proxy/vmess/stream.rs: what the chunks of a stream carry, as the two ends agree on it.
use i_leaf.Prelude.{ℕ, ◌+◌, ◌<◌, ◌≡◌, List, [], ◌∷◌, ◌++◌, length, Outcome, ok, err, some}
use i_leaf.Prelude.Stream.{IoError, unexpected_eof}
use i_leaf.Crypto.{VmessSequence, vmess_advance, next_padding_len, decode_size}
use i_leaf.Shadow.{Algorithm, tag_len}
use i_leaf.Vmess.Cipher.{VmessAead}

-- A chunk that carries `p` stands in front of `more`; behind it the nonces go on from `next`, and the
-- mask stream from `pos'`.
pub record Chunk (a : Algorithm) (shake : ℕ → ℕ) (c : VmessAead) (pos : ℕ) (p bytes more : List ℕ)
    (next : VmessSequence) (pos' : ℕ) : Type 0 where
  pub size_bytes : List ℕ
  pub sealed : List ℕ
  pub padding : List ℕ
  pub nonce : List ℕ
  pub parts : bytes ≡ size_bytes ++ (sealed ++ (padding ++ more))
  pub two_bytes : length size_bytes ≡ 2
  pub size :
      decode_size shake (next_padding_len shake pos).1 size_bytes
      ≡ ok (length sealed + length padding, pos')
  pub padded : length padding ≡ (next_padding_len shake pos).0
  pub advances : vmess_advance c.sequence ≡ ok (nonce, next)
  pub opens : a.open_sealed c.key nonce sealed ≡ some p
  pub tagged : length sealed ≡ length p + tag_len

-- How a stream ends: the transport ends between two chunks, or a chunk carries nothing.
pub data Ending : Type 0 where
  cut closed : Ending

abbrev pub final_of : Ending → Outcome IoError (Unit {0})
final_of cut = err unexpected_eof
final_of closed = ok tt

module _ (a : Algorithm) (shake : ℕ → ℕ) where
  abbrev pub EndsAs : Ending → VmessAead → ℕ → List ℕ → Type 0
  EndsAs cut c pos bytes = bytes ≡ []
  EndsAs closed c pos bytes =
      (more : List ℕ) × (next : VmessSequence) × (pos' : ℕ) × Chunk a shake c pos [] bytes more next
        pos'

  -- The bytes hold chunks that carry the payloads, in order, and end so.
  abbrev pub Carries : Ending → VmessAead → ℕ → List ℕ → List (List ℕ) → Type 0
  Carries e c pos bytes [] = EndsAs e c pos bytes
  Carries e c pos bytes (p ∷ ps) =
      (more : List ℕ) × (next : VmessSequence) × (pos' : ℕ) × (0 < length p)
      × Chunk a shake c pos p bytes more next pos'
      × Carries e (record c { sequence = next }) pos' more ps
