-- ===== src/Prelude/Kept.antt =====
-- What the loop that writes a buffer keeps, however it ends: what is left is the buffer behind
-- what was written, and as many bytes went out.
use i_leaf.Prelude.Tests.{Bool-cases, leb, ◌==◌}
use i_leaf.Prelude.Lists.{length, take, drop, length-append, length-take, drop-drop}
use i_leaf.Prelude.Stream.{IoError}
use i_leaf.Prelude.Writes.{WriteEvent, blocked, takes, broken, Sending, sent, push}
use Prim.Native.Nat.{ℕ, ◌+◌, ◌-◌, ◌≤◌, min}
use mathlib.Core.Path.{◌≡◌, refl, ap, ◌∙◌}
use mathlib.Core.List.{List, [], ◌∷◌}
use mathlib.Core.Logic.{inl, inr}
use native.Mathlib.Omega.{arith}

pub record Kept (s s' : Sending) : Type 0 where
  pub grows : s.written ≤ s'.written
  pub behind : s'.left ≡ drop (s'.written - s.written) s.left
  pub counted : length s'.out ≡ length s.out + (s'.written - s.written)

Kept-refl : (s : Sending) → Kept s s
Kept-refl s =
    let none : s.written - s.written ≡ 0 = omega arith in
    record { grows = omega arith; behind = rw none refl; counted = omega arith }

Kept-sent : (n : ℕ) (s : Sending) → n ≤ length s.left → Kept s (sent n s)
Kept-sent n s h =
    let count : s.written + n - s.written ≡ n = omega arith in
    record {
      grows = omega arith;
      behind = rw count refl;
      counted = omega (arith, length-append s.out (take n s.left), length-take n s.left);
    }

Kept-trans : (r s t : Sending) → Kept r s → Kept s t → Kept r t
Kept-trans r s t h k =
    let lower = h.grows in
    let upper = k.grows in
    let count : (s.written - r.written) + (t.written - s.written) ≡ t.written - r.written =
      omega arith in
    record {
      grows = omega arith;
      behind =
          k.behind
          ∙ ap (λ (l : List ℕ). drop (t.written - s.written) l) h.behind
          ∙ drop-drop (s.written - r.written) (t.written - s.written) r.left
          ∙ ap (λ (n : ℕ). drop n r.left) count;
      counted = omega (arith, h.counted, k.counted);
    }

pub push-Kept :
    (z : IoError) (total : ℕ) (s : Sending) (t : List WriteEvent) → Kept s (push z total s t).1
unfolding push
push-Kept z total s [] = elim (Bool-cases (length s.left == 0)) [
  | inl none_left ↦ rw none_left (Kept-refl s)
  | inr some_left ↦
      let all = Kept-sent (length s.left) s (omega arith) in
      elim (Bool-cases (leb total (s.written + length s.left))) [
        | inl last ↦ rw (some_left, last) all
        | inr more ↦ rw (some_left, more) all
      ]
]
push-Kept z total s (blocked ∷ t) = Kept-refl s
push-Kept z total s (broken e ∷ t) = Kept-refl s
push-Kept z total s (takes k ∷ t) =
    let nw = min k (length s.left) in
    let one = Kept-sent nw s (omega arith) in
    let rest = Kept-trans s (sent nw s) _ one (push-Kept z total (sent nw s) t) in
    elim (Bool-cases (nw == 0)) [
      | inl none_left ↦ rw none_left (Kept-refl s)
      | inr some_left ↦ elim (Bool-cases (leb total (s.written + nw))) [
        | inl last ↦ rw (some_left, last) one
        | inr more ↦ rw (some_left, more) rest
      ]
    ]
