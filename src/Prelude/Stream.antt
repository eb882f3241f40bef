-- ===== src/Prelude/Stream.antt =====
-- A byte stream that ends: what is still to come, as a list. `read_exact` fails where fewer bytes
-- are left (`ErrorKind::UnexpectedEof`); other failures of the transport are not bytes.
use i_leaf.Prelude.Tests.{leb, if◌then◌else◌}
use i_leaf.Prelude.Lists.{
  length, take, drop, All, All-append_left, All-append_right, length-take, take-append-drop,
}
use i_leaf.Prelude.Fallible.{Outcome, ok, err, ◌>>=◌, >>=-eq-ok}
use i_leaf.Prelude.Bytes.{to_be, of_be, length-to_be, of_be-to_be, to_be-of_be, of_be-lt, IsByte}
use Prim.Native.Nat.{ℕ, zero, suc, ◌<◌, ◌≤◌, ◌^◌}
use mathlib.Core.Path.{◌≡◌, refl, sym, ap, ◌∙◌}
use mathlib.Core.List.{List, [], ◌∷◌, ◌++◌, append_assoc}
use mathlib.Core.Option.{Option, none, some}
use native.Mathlib.Omega.{arith}

-- `other` is `io::ErrorKind::Other` with its message.
pub data IoError : Type 0 where
  unexpected_eof invalid_domain invalid_addr_type crypto_error short_packet : IoError
  expected_crlf unexpected_domain invalid_version invalid_addons write_zero : IoError
  timed_out invalid_index all_failed invalid_chain no_handler refused invalid_uuid : IoError

unfoldable pub read_exact : ℕ → List ℕ → Outcome IoError (List ℕ × List ℕ)
read_exact zero r = ok ([], r)
read_exact (suc n) [] = err unexpected_eof
read_exact (suc n) (b ∷ r) = do (bs, rest) ← read_exact n r; ok (b ∷ bs, rest)

-- `read_u8`, `read_u16`, `read_u32` and `read_u128`, by their width in bytes.
unfoldable pub read_be : ℕ → List ℕ → Outcome IoError (ℕ × List ℕ)
read_be n r = do (bs, rest) ← read_exact n r; ok (of_be bs, rest)

pub read_exact-append :
    (n : ℕ) (xs rest : List ℕ) → length xs ≡ n → read_exact n (xs ++ rest) ≡ ok (xs, rest)
unfolding read_exact
read_exact-append zero [] rest h = refl
read_exact-append zero (x ∷ xs) rest h = absurd (omega arith)
read_exact-append (suc n) [] rest h = absurd (omega arith)
read_exact-append (suc n) (x ∷ xs) rest h = rw (read_exact-append n xs rest (omega arith))

pub read_exact-eq-ok :
    (n : ℕ) (r bs rest : List ℕ)
    → read_exact n r ≡ ok (bs, rest)
    → (length bs ≡ n) × (r ≡ bs ++ rest)
unfolding read_exact
read_exact-eq-ok zero r bs rest h = (ground arith, ground arith)
read_exact-eq-ok (suc n) [] bs rest h = cc
read_exact-eq-ok (suc n) (b ∷ r) bs rest h =
    let (p, e, q) = >>=-eq-ok (read_exact n r) (λ p. ok (b ∷ p.0, p.1)) h in
    let (l, parts) = read_exact-eq-ok n r p.0 p.1 e in (ground arith, ground arith)

pub read_exact_short : (n : ℕ) (r : List ℕ) → length r < n → read_exact n r ≡ err unexpected_eof
unfolding read_exact
read_exact_short zero r h = absurd (omega arith)
read_exact_short (suc n) [] h = refl
read_exact_short (suc n) (b ∷ r) h = rw (read_exact_short n r (omega arith))

pub read_be-to_be :
    (n x : ℕ) (rest : List ℕ) → x < 256 ^ n → read_be n (to_be n x ++ rest) ≡ ok (x, rest)
unfolding read_be
read_be-to_be n x rest h =
    rw (read_exact-append n (to_be n x) rest (length-to_be n x))
      (ap (λ (v : ℕ). ok (v, rest)) (of_be-to_be n x h))

pub read_be-eq-ok :
    (n : ℕ) (r : List ℕ) (x : ℕ) (rest : List ℕ)
    → All IsByte r
    → read_be n r ≡ ok (x, rest)
    → (r ≡ to_be n x ++ rest) × (x < 256 ^ n) × All IsByte rest
unfolding read_be
read_be-eq-ok n r x rest a h =
    let (p, e, q) = >>=-eq-ok (read_exact n r) (λ p. ok (of_be p.0, p.1)) h in
    let (l, parts) = read_exact-eq-ok n r p.0 p.1 e in
    let bytes : All IsByte (p.0 ++ p.1) = rw parts at a in
    let left = All-append_left IsByte p.0 p.1 bytes in
    let right = All-append_right IsByte p.0 p.1 bytes in
    let value : of_be p.0 ≡ x = ground arith in
    let tail : p.1 ≡ rest = ground arith in
    rw (← value, ← tail)
      (
        parts ∙ ap (λ (v : List ℕ). v ++ p.1) (sym (to_be-of_be n p.0 l left)),
        of_be-lt n p.0 l left,
        right,
      )

-- The reads in terms of the length of what is left.
pub read_exact-take :
    (n : ℕ) (r : List ℕ)
    → read_exact n r ≡ (if leb n (length r) then ok (take n r, drop n r) else err unexpected_eof)
unfolding read_exact
read_exact-take zero r = ground arith
read_exact-take (suc n) [] = ground arith
read_exact-take (suc n) (b ∷ r) = ground (arith, read_exact-take n r)

pub read_be-take :
    (n : ℕ) (r : List ℕ)
    → read_be n r
      ≡ (if leb n (length r) then ok (of_be (take n r), drop n r) else err unexpected_eof)
unfolding read_be
read_be-take n r = ground (arith, read_exact-take n r)

-- The stream that a handler is given, or a new one.
abbrev pub given_or_dial : {W : Type 0} → Option W → Outcome IoError W → Outcome IoError W
given_or_dial (some w) dial = ok w
given_or_dial none dial = dial

-- `read_exact` of a cut payload.
pub read_payload :
    (n : ℕ) (payload rest : List ℕ)
    → n ≤ length payload
    → read_exact n (payload ++ rest) ≡ ok (take n payload, drop n payload ++ rest)
read_payload n payload rest h =
    let len : length (take n payload) ≡ n = omega (arith, length-take n payload) in
    let parts : payload ++ rest ≡ take n payload ++ (drop n payload ++ rest) =
      ap (λ (l : List ℕ). l ++ rest) (sym (take-append-drop n payload))
      ∙ append_assoc (take n payload) (drop n payload) rest in
    rw parts (read_exact-append n (take n payload) (drop n payload ++ rest) len)
