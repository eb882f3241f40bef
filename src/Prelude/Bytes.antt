-- ===== src/Prelude/Bytes.antt =====
-- Big-endian numbers as bytes: `to_be_bytes`, `put_u16`, `BigEndian::read_u16` and the like.
use i_leaf.Prelude.Lists.{length, length-append, All, All-append, All-append_left, All-append_right}
use Prim.Native.Nat.{ℕ, zero, suc, ◌+◌, ◌*◌, ◌/◌, ◌%◌, ◌^◌, ◌<◌}
use mathlib.Core.Path.{◌≡◌, refl, sym, ap, ap₂, ◌∙◌}
use mathlib.Core.List.{List, [], ◌∷◌, ◌++◌}
use native.Mathlib.Omega.{arith}
use native.Mathlib.Nat.{pow-suc}

abbrev pub IsByte : ℕ → Type 0
IsByte b = b < 256

-- The `n` low bytes of a number, highest first.
abbrev pub to_be : ℕ → ℕ → List ℕ
to_be zero x = []
to_be (suc n) x = to_be n (x / 256) ++ (x % 256 ∷ [])

abbrev pub of_be_from : ℕ → List ℕ → ℕ
of_be_from acc [] = acc
of_be_from acc (b ∷ bs) = of_be_from (acc * 256 + b) bs

abbrev pub of_be : List ℕ → ℕ
of_be bs = of_be_from 0 bs

pub length-to_be : (n x : ℕ) → length (to_be n x) ≡ n
length-to_be zero x = refl
length-to_be (suc n) x =
    omega (arith, length-append (to_be n (x / 256)) (x % 256 ∷ []), length-to_be n (x / 256))

of_be_from-append :
    (acc : ℕ) (xs : List ℕ) (b : ℕ) → of_be_from acc (xs ++ (b ∷ [])) ≡ of_be_from acc xs * 256 + b
of_be_from-append acc [] b = refl
of_be_from-append acc (x ∷ xs) b = of_be_from-append (acc * 256 + x) xs b

pub of_be-to_be : (n x : ℕ) → x < 256 ^ n → of_be (to_be n x) ≡ x
of_be-to_be zero x h = omega arith
of_be-to_be (suc n) x h =
    let small : x < 256 ^ n * 256 = rw pow-suc at h in
    of_be_from-append 0 (to_be n (x / 256)) (x % 256)
    ∙ omega (arith, of_be-to_be n (x / 256) (omega arith))

pub to_be-IsByte : (n x : ℕ) → All IsByte (to_be n x)
to_be-IsByte zero x = tt
to_be-IsByte (suc n) x =
    All-append IsByte (to_be n (x / 256)) (x % 256 ∷ []) (to_be-IsByte n (x / 256)) (omega arith)

-- A list that is not empty has a last element.
split_last {ℓ} :
    {A : Type ℓ} (xs : List A) (n : ℕ)
    → length xs ≡ suc n
    → (ys : List A) × (b : A) × (xs ≡ ys ++ (b ∷ [])) × (length ys ≡ n)
split_last [] n h = absurd (omega arith)
split_last (x ∷ []) n h = ([], x, refl, omega arith)
split_last (x ∷ y ∷ xs) zero h = absurd (omega arith)
split_last (x ∷ y ∷ xs) (suc n) h =
    let (ys, b, e, l) = split_last (y ∷ xs) n (omega arith) in (x ∷ ys, b, ap (◌∷◌ x) e, ap suc l)

pub to_be-of_be : (n : ℕ) (bs : List ℕ) → length bs ≡ n → All IsByte bs → to_be n (of_be bs) ≡ bs
to_be-of_be zero [] h a = refl
to_be-of_be zero (b ∷ bs) h a = absurd (omega arith)
to_be-of_be (suc n) bs h a =
    let (ys, b, e, l) = split_last bs n h in
    let bytes : All IsByte (ys ++ (b ∷ [])) = rw e at a in
    let last = All-append_right IsByte ys (b ∷ []) bytes in
    let value : of_be bs ≡ of_be ys * 256 + b = ap of_be e ∙ of_be_from-append 0 ys b in
    let small : b < 256 = last.0 in
    let high : of_be bs / 256 ≡ of_be ys = omega arith in
    let low : of_be bs % 256 ≡ b = omega arith in
    ap₂ (λ (p : ℕ) (q : ℕ). to_be n p ++ (q ∷ [])) high low
    ∙ ap (λ (p : List ℕ). p ++ (b ∷ []))
        (to_be-of_be n ys l (All-append_left IsByte ys (b ∷ []) bytes))
    ∙ sym e

pub of_be-lt : (n : ℕ) (bs : List ℕ) → length bs ≡ n → All IsByte bs → of_be bs < 256 ^ n
of_be-lt zero [] h a = omega arith
of_be-lt zero (b ∷ bs) h a = absurd (omega arith)
of_be-lt (suc n) bs h a =
    let (ys, b, e, l) = split_last bs n h in
    let bytes : All IsByte (ys ++ (b ∷ [])) = rw e at a in
    let last = All-append_right IsByte ys (b ∷ []) bytes in
    let value : of_be bs ≡ of_be ys * 256 + b = ap of_be e ∙ of_be_from-append 0 ys b in
    let small : b < 256 = last.0 in
    let rest = of_be-lt n ys l (All-append_left IsByte ys (b ∷ []) bytes) in
    rw pow-suc (omega arith)
