-- ===== src/Shadow/Writing/Progress.antt =====
-- leaf/src/proxy/shadowsocks/shadow.rs: what holds of the writer between two calls of `poll_write`,
-- and what one call comes to.
use i_leaf.Prelude.{ℕ, ◌+◌, ◌<◌, ◌≤◌, ◌≡◌, List, ◌++◌, length, take, drop, ok, Option, some}
use i_leaf.Prelude.WriteAll
use i_leaf.Prelude.Writes.{Sink, IsOpen}
use i_leaf.Shadow.Cipher.{Algorithm, IsAlgorithm, Aead, session_cipher}
use i_leaf.Shadow.Writer.{
  WriteState, waiting_salt, waiting_chunk, pending_salt, pending_chunk, Writer, Wrote,
}
use i_leaf.Shadow.Chunks.{Carries, concat}

module _ (a : Algorithm) (law : IsAlgorithm a) (psk salt : List ℕ) where
  abbrev pub Keyed : Aead → Type 0
  Keyed c = (length c.key ≡ a.key_len) × (length c.nonce ≡ a.nonce_len)

  abbrev pub Fits : (total written : ℕ) → List ℕ → Type 0
  Fits total written left = (0 < length left) × (written + length left ≡ total)

  -- What holds of the writer in front of the rest of the data.
  abbrev pub Valid : WriteState → Option Aead → List ℕ → List ℕ → Type 0
  Valid waiting_salt enc left rest = 0 < length rest
  Valid (pending_salt total written) enc left rest =
      (0 < length rest) × ((c : Aead) × (enc ≡ some c) × Keyed c) × Fits total written left
  Valid waiting_chunk enc left rest = (c : Aead) × (enc ≡ some c) × Keyed c
  Valid (pending_chunk consumed total written) enc left rest =
      ((c : Aead) × (enc ≡ some c) × Keyed c)
      × Fits total written left
      × (0 < consumed)
      × (consumed ≤ length rest)

  -- The transport's bytes at the end are `front` and then chunks that carry `rest`.
  abbrev pub Follows : Aead → List ℕ → List ℕ → List ℕ → Type 0
  Follows c rest front final =
      (bytes : List ℕ) × (ps : List (List ℕ)) × (final ≡ front ++ bytes)
      × Carries a c bytes ps
      × (concat ps ≡ rest)

  -- What the transport ends with where the data are written from here.
  abbrev pub Finishes : WriteState → Option Aead → List ℕ → List ℕ → List ℕ → List ℕ → Type 0
  Finishes waiting_salt enc left rest out final =
      (c : Aead) × (session_cipher a psk (take a.key_len salt) ≡ ok c)
      × Follows c rest (out ++ salt) final
  Finishes (pending_salt total written) enc left rest out final =
      (c : Aead) × (enc ≡ some c) × Follows c rest (out ++ left) final
  Finishes waiting_chunk enc left rest out final =
      (c : Aead) × (enc ≡ some c) × Follows c rest out final
  Finishes (pending_chunk consumed total written) enc left rest out final =
      (c : Aead) × (enc ≡ some c) × Follows c (drop consumed rest) (out ++ left) final

  abbrev pub Ends : Writer → List ℕ → Sink → List ℕ → Type 0
  Ends w rest s final = Finishes w.write_state w.enc w.write_buf rest s.out final

  abbrev pub Ready : Writer → List ℕ → Sink → ℕ → Type 0
  Ready w rest s n =
      Valid w.write_state w.enc w.write_buf rest
      × IsOpen s.answers
      × (length s.answers + length rest ≤ n)

  -- What one call comes to: the calls that follow bring about `Goal`.
  abbrev pub Step : (List ℕ → Type 0) → List ℕ → ℕ → Wrote → Type 0
  Step Goal rest n out = WriteAll.Step Ready Ends Goal rest n out

  pub Follows-eq :
      {c : Aead} {rest front front' final : List ℕ}
      → front ≡ front'
      → (d : Aead) × (some c ≡ some d) × Follows d rest front final
      → Follows c rest front' final
  Follows-eq {c} {rest} {front} {front'} {final} e (d, same, f) =
      let back : d ≡ c = cc in rw (back, e) at f
