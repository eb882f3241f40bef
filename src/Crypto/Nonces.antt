-- ===== src/Crypto/Nonces.antt =====
-- leaf/src/proxy/shadowsocks/crypto.rs and leaf/src/proxy/vmess/crypto.rs: which nonces the two
-- sequences hand out, and when one comes back.
use i_leaf.Prelude.{
  ℕ, zero, suc, ◌↔◌, ◌+◌, ◌-◌, ◌*◌, ◌%◌, ◌^◌, ◌≤◌, ◌<◌, ◌≡◌, refl, sym, ap, ap₂, ◌∙◌, List, [], ◌∷◌,
  ◌++◌, length, take, drop, replicate, length-replicate, All, ◌==◌, if◌then◌else◌, Outcome, ok,
  ◌>>=◌, arith, Bool-cases, inl, inr, length-drop, le→leb,
}
use i_leaf.Prelude.Bytes.{to_be, IsByte}
use i_leaf.Crypto.{shadowsocks_nonce, inc, advance, VmessSequence, vmess_sequence, vmess_advance}
use native.Mathlib.Nat.{pow-suc, one-le-pow, mod-eq_of_lt, mod-add-mod, mod-lt, add-mod_right}

-- The number that a little-endian counter shows.
abbrev pub of_le : List ℕ → ℕ
of_le [] = 0
of_le (b ∷ bs) = b + 256 * of_le bs

of_le-lt : (bs : List ℕ) → All IsByte bs → of_le bs < 256 ^ length bs
of_le-lt [] h = omega arith
of_le-lt (b ∷ bs) (h, hs) = omega (arith, pow-suc 256 (length bs), of_le-lt bs hs)

pub length-inc : (bs : List ℕ) → length (inc bs) ≡ length bs
unfolding inc
length-inc [] = refl
length-inc (b ∷ bs) = ground (arith, length-inc bs)

inc-IsByte : (bs : List ℕ) → All IsByte bs → All IsByte (inc bs)
unfolding inc
inc-IsByte [] h = tt
inc-IsByte (b ∷ bs) (h, hs) = let rest = inc-IsByte bs hs in ground arith

-- `inc` adds one, and goes from all ones to zero.
of_le-inc :
    (bs : List ℕ)
    → All IsByte bs
    → of_le (inc bs) ≡ (if of_le bs + 1 == 256 ^ length bs then 0 else of_le bs + 1)
unfolding inc
of_le-inc [] h = ground arith
of_le-inc (b ∷ bs) (h, hs) =
    ground (arith, of_le-inc bs hs, of_le-lt bs hs, pow-suc 256 (length bs))

-- The nonce of the `k`th call, counted from 0.
unfoldable pub nonce_at : ℕ → ℕ → List ℕ
nonce_at size zero = advance (shadowsocks_nonce size)
nonce_at size (suc k) = advance (nonce_at size k)

ones : (n : ℕ) → All IsByte (shadowsocks_nonce n) × (of_le (shadowsocks_nonce n) + 1 ≡ 256 ^ n)
unfolding shadowsocks_nonce
ones zero = (tt, omega arith)
ones (suc n) = let (h, e) = ones n in ((omega arith, h), omega (arith, pow-suc 256 n))

wrap_step : (r m : ℕ) → r < m → (r + 1) % m ≡ (if r + 1 == m then 0 else r + 1)
wrap_step r m h = elim (Bool-cases (r + 1 == m)) [
  | inl e ↦
      let full : r + 1 ≡ 0 + m = ground arith in
      let positive : 0 < m = omega arith in
      rw e (ap (λ (n : ℕ). n % m) full ∙ add-mod_right 0 m ∙ mod-eq_of_lt positive)
  | inr e ↦ rw e (mod-eq_of_lt (ground arith))
]

mod-suc_wrap : (k m : ℕ) → 0 < m → suc k % m ≡ (if k % m + 1 == m then 0 else k % m + 1)
mod-suc_wrap k m h =
    let next : suc k ≡ k + 1 = omega arith in
    ap (λ (n : ℕ). n % m) next ∙ sym (mod-add-mod k m 1) ∙ wrap_step (k % m) m (mod-lt k h)

nonce_at-IsByte : (size k : ℕ) → All IsByte (nonce_at size k)
unfolding nonce_at advance
nonce_at-IsByte size zero = inc-IsByte (shadowsocks_nonce size) (ones size).0
nonce_at-IsByte size (suc k) = inc-IsByte (nonce_at size k) (nonce_at-IsByte size k)

length-nonce_at : (size k : ℕ) → length (nonce_at size k) ≡ size
unfolding nonce_at advance shadowsocks_nonce
length-nonce_at size zero = length-inc (replicate size 0xff) ∙ length-replicate size 0xff
length-nonce_at size (suc k) = length-inc (nonce_at size k) ∙ length-nonce_at size k

-- The nonce of call `k` is `k` as a little-endian number of the nonce length, modulo its range.
pub of_le-nonce_at : (size k : ℕ) → of_le (nonce_at size k) ≡ k % 256 ^ size
unfolding nonce_at advance
of_le-nonce_at size zero =
    let (h, e) = ones size in
    let len : length (shadowsocks_nonce size) ≡ size =
      unfold shadowsocks_nonce in length-replicate size 0xff in
    of_le-inc (shadowsocks_nonce size) h
    ∙ rw len
        (ground (arith, one-le-pow size 256 (omega arith), mod-eq_of_lt {n = 0} {m = 256 ^ size}))
of_le-nonce_at size (suc k) =
    of_le-inc (nonce_at size k) (nonce_at-IsByte size k)
    ∙ rw (length-nonce_at size k, of_le-nonce_at size k)
        (sym (mod-suc_wrap k (256 ^ size) (one-le-pow size 256 (omega arith))))

of_le-injective :
    (xs ys : List ℕ)
    → All IsByte xs
    → All IsByte ys
    → length xs ≡ length ys
    → of_le xs ≡ of_le ys
    → xs ≡ ys
of_le-injective [] [] h k l e = refl
of_le-injective [] (y ∷ ys) h k l e = absurd (omega arith)
of_le-injective (x ∷ xs) [] h k l e = absurd (omega arith)
of_le-injective (x ∷ xs) (y ∷ ys) (h, hs) (k, ks) l e =
    let head : x ≡ y = omega arith in
    ap₂ (λ (a : ℕ) (b : List ℕ). a ∷ b) head
      (of_le-injective xs ys hs ks (omega arith) (omega arith))

-- Two calls of a Shadowsocks sequence hand out the same nonce exactly when their numbers agree
-- modulo 256 to the nonce length: no nonce is used twice before all have been used.
pub nonce_at_eq :
    (size i j : ℕ) → (nonce_at size i ≡ nonce_at size j) ↔ (i % 256 ^ size ≡ j % 256 ^ size)
nonce_at_eq size i j = (
  (λ e. sym (of_le-nonce_at size i) ∙ ap of_le e ∙ of_le-nonce_at size j),
  λ e.
      of_le-injective (nonce_at size i) (nonce_at size j) (nonce_at-IsByte size i)
        (nonce_at-IsByte size j) (length-nonce_at size i ∙ sym (length-nonce_at size j))
        (of_le-nonce_at size i ∙ e ∙ sym (of_le-nonce_at size j)),
)

-- The nonce of the `k`th call of a VMess sequence, counted from 0, and the state behind it.
unfoldable pub vmess_at : VmessSequence → ℕ → Outcome (Unit {0}) (List ℕ × VmessSequence)
vmess_at s zero = vmess_advance s
vmess_at s (suc k) = do (nonce, s') ← vmess_at s k; vmess_advance s'

abbrev pub vmess_state : List ℕ → ℕ → ℕ → VmessSequence
vmess_state iv size k = record {
  nonce = to_be 2 (k % 2 ^ 16) ++ drop 2 iv;
  size = size;
  count = k % 2 ^ 16;
}

vmess_advance_lem :
    (iv : List ℕ) (s : VmessSequence) (size k : ℕ)
    → 2 ≤ length iv
    → size ≤ length iv
    → s.size ≡ size
    → length s.nonce ≡ length iv
    → drop 2 s.nonce ≡ drop 2 iv
    → (s.count + 1) % 2 ^ 16 ≡ k % 2 ^ 16
    → vmess_advance s ≡ ok (take size (vmess_state iv size k).nonce, vmess_state iv size k)
unfolding vmess_advance
vmess_advance_lem iv s size k h l es en ed ec =
    let long : length (drop 2 iv) ≡ length iv - 2 = length-drop 2 iv in ground arith

vmess_run :
    (iv : List ℕ) (size k : ℕ)
    → 2 ≤ length iv
    → size ≤ length iv
    → vmess_at (record { nonce = iv; size = size; count = 0xffff }) k
      ≡ ok (take size (vmess_state iv size k).nonce, vmess_state iv size k)
unfolding vmess_at
vmess_run iv size zero h l = vmess_advance_lem iv _ size 0 h l refl refl refl (omega arith)
vmess_run iv size (suc k) h l =
    let long = length-drop 2 iv in
    rw (vmess_run iv size k h l) (
      vmess_advance_lem iv (vmess_state iv size k) size (suc k) h l refl (omega arith) refl
        (omega arith))

-- From an iv of at least two bytes and at least the nonce length, call `k` hands out the low 16
-- bits of `k` followed by the rest of the iv, cut to the nonce length.
vmess_at_lem :
    (iv : List ℕ) (size k : ℕ)
    → 2 ≤ length iv
    → size ≤ length iv
    → (vmess_sequence iv size >>= λ s. vmess_at s k)
      ≡ ok (take size (to_be 2 (k % 2 ^ 16) ++ drop 2 iv), vmess_state iv size k)
unfolding vmess_sequence
vmess_at_lem iv size k h l = rw (le→leb size (length iv) l) (vmess_run iv size k h l)
