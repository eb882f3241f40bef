-- ===== src/Prelude/Polls.antt =====
-- A byte stream that is polled: the answers that the transport gives, one after the other. A read
-- takes at most the length of its buffer from an answer and leaves the rest; a read of 0 bytes
-- is the end of the stream, and so are all reads after the last answer.
use i_leaf.Prelude.Tests.{lt→ltb, leb→le, leb, ltb, ◌==◌, if◌then◌else◌, Bool-cases}
use i_leaf.Prelude.Lists.{
  length, take, drop, length-take, length-drop, take-append-drop, length-append,
}
use i_leaf.Prelude.Fallible.{Outcome, ok, err}
use i_leaf.Prelude.Stream.{IoError, unexpected_eof}
use Prim.Native.Nat.{ℕ, zero, suc, ◌+◌, ◌-◌, ◌<◌, ◌≤◌}
use mathlib.Core.Path.{◌≡◌, refl, sym, ap, ◌∙◌}
use mathlib.Core.Bool.{true, false}
use mathlib.Core.Logic.{inl, inr}
use mathlib.Core.List.{List, [], ◌∷◌, ◌++◌, append_assoc}
use native.Mathlib.Omega.{arith}

pub data Event : Type 0 where
  not_ready : Event
  bytes : List ℕ → Event
  failed : IoError → Event

-- `Poll<io::Result<A>>`.
pub data Poll (A : Type 0) : Type 0 where
  pending : Poll A
  ready : Outcome IoError A → Poll A

unfoldable pub poll_inner : ℕ → List Event → Poll (List ℕ) × List Event
poll_inner size [] = (ready (ok []), [])
poll_inner size (not_ready ∷ t) = (pending, t)
poll_inner size (failed e ∷ t) = (ready (err e), t)
poll_inner size (bytes bs ∷ t) =
    (ready (ok (take size bs)), if leb (length bs) size then t else bytes (drop size bs) ∷ t)

-- The bytes that are still to come.
abbrev pub content : List Event → List ℕ
content [] = []
content (not_ready ∷ t) = content t
content (failed e ∷ t) = content t
content (bytes bs ∷ t) = bs ++ content t

-- No read fails, and the stream ends after the last answer only.
abbrev pub IsClean : List Event → Type 0
IsClean [] = Unit {0}
IsClean (not_ready ∷ t) = IsClean t
IsClean (failed e ∷ t) = ⊥
IsClean (bytes bs ∷ t) = (0 < length bs) × IsClean t

-- Every poll makes this smaller.
abbrev pub remaining : List Event → ℕ
remaining [] = 0
remaining (not_ready ∷ t) = suc (remaining t)
remaining (failed e ∷ t) = suc (remaining t)
remaining (bytes bs ∷ t) = length bs + suc (remaining t)

-- The read buffer of a stream: the bytes that were read into it, and how many of them belong to
-- the read at hand.
pub record ReadBuf : Type 0 where
  pub buf : List ℕ
  pub pos : ℕ

-- The bytes of the read at hand.
abbrev pub got : ReadBuf → List ℕ
got b = take b.pos b.buf

abbrev pub rewound : ReadBuf → ReadBuf
rewound b = record { buf = b.buf; pos = 0 }

-- `poll_read_exact`, the loop that fills the buffer up to `size` bytes.
unfoldable pub fill : ℕ → ReadBuf → List Event → Poll (Unit {0}) × ReadBuf × List Event
fill size b [] =
    if ltb b.pos size then (ready (err unexpected_eof), b, []) else (ready (ok tt), rewound b, [])
fill size b (not_ready ∷ t) =
    if ltb b.pos size then (pending, b, t) else (ready (ok tt), rewound b, not_ready ∷ t)
fill size b (failed e ∷ t) =
    if ltb b.pos size then (ready (err e), b, t) else (ready (ok tt), rewound b, failed e ∷ t)
fill size b (bytes bs ∷ t) =
    let read = take (size - b.pos) bs in
    let b' : ReadBuf = record { buf = got b ++ read; pos = b.pos + length read } in
    let left = if leb (length bs) (size - b.pos) then t else bytes (drop (size - b.pos) bs) ∷ t in
    let again = fill size b' t in
    if ltb b.pos size
    then (if length read == 0
        then (ready (err unexpected_eof), b', left)
        else if leb size b'.pos
        then (ready (ok tt), rewound b', left)
        else again)
    else (ready (ok tt), rewound b, bytes bs ∷ t)

-- What one call of `fill` comes to where no read fails: `before` is what was read or is still to
-- come, `size` the bytes asked for, `n` the polls that are left at most.
pub data Fill (before : List ℕ) (size n : ℕ) : Poll (Unit {0}) × ReadBuf × List Event → Type 0 where
  waits :
      (b : ReadBuf) (t : List Event)
      → b.pos < size
      → b.pos ≤ length b.buf
      → got b ++ content t ≡ before
      → IsClean t
      → remaining t < n
      → Fill before size n (pending, b, t)
  fills :
      (b : ReadBuf) (t : List Event)
      → b.pos ≡ 0
      → length b.buf ≡ size
      → b.buf ++ content t ≡ before
      → IsClean t
      → remaining t < n
      → Fill before size n (ready (ok tt), b, t)
  ends :
      (b : ReadBuf) → length before < size → Fill before size n (ready (err unexpected_eof), b, [])

Fill-mono :
    {before : List ℕ} {size m n : ℕ} {out : Poll (Unit {0}) × ReadBuf × List Event}
    → m ≤ n
    → Fill before size m out
    → Fill before size n out
Fill-mono h (waits b t p l e c r) = waits b t p l e c (omega arith)
Fill-mono h (fills b t p l e c r) = fills b t p l e c (omega arith)
Fill-mono h (ends b l) = ends b l

length-got : (b : ReadBuf) → b.pos ≤ length b.buf → length (got b) ≡ b.pos
length-got b h = omega (arith, length-take b.pos b.buf)

pub take-ge : (n : ℕ) (xs : List ℕ) → length xs ≤ n → take n xs ≡ xs
take-ge zero [] h = refl
take-ge zero (x ∷ xs) h = absurd (omega arith)
take-ge (suc n) [] h = refl
take-ge (suc n) (x ∷ xs) h = ap (◌∷◌ x) (take-ge n xs (omega arith))

pub fill-Fill :
    (size : ℕ) (b : ReadBuf) (t : List Event)
    → b.pos < size
    → b.pos ≤ length b.buf
    → IsClean t
    → Fill (got b ++ content t) size (remaining t) (fill size b t)
unfolding fill
fill-Fill size b [] h l c =
    rw (lt→ltb b.pos size h) (ends b (omega (arith, length-append (got b) [], length-got b l)))
fill-Fill size b (not_ready ∷ t) h l c =
    rw (lt→ltb b.pos size h) (waits b t h l refl c (omega arith))
fill-Fill size b (failed e ∷ t) h l c = absurd c
fill-Fill size b (bytes bs ∷ t) h l (n, c) =
    let room = size - b.pos in
    let whole = length-got b l in
    let cut = length-take room bs in
    let more : (length (take room bs) == 0) ≡ false = ground arith in
    rw (lt→ltb b.pos size h, more)
      (elim (Bool-cases (leb (length bs) room)) [
        | inl fits ↦
            let all = take-ge room bs (leb→le (length bs) room fits) in
            let joined = append_assoc (got b) bs (content t) in
            let len = length-append (got b) bs in
            rw (fits, all)
              (elim (Bool-cases (leb size (b.pos + length bs))) [
                | inl full ↦ rw full (fills _ t refl (ground arith) joined c (omega arith))
                | inr short ↦
                    let b' : ReadBuf = record { buf = got b ++ bs; pos = b.pos + length bs } in
                    let kept : got b' ≡ got b ++ bs = take-ge b'.pos (got b ++ bs) (omega arith) in
                    let same : got b' ++ content t ≡ got b ++ (bs ++ content t) = rw kept joined in
                    rw (short, ← same)
                      (Fill-mono (omega arith) (fill-Fill size b' t (ground arith) (omega arith) c))
              ])
        | inr over ↦
            let full : leb size (b.pos + length (take room bs)) ≡ true = ground arith in
            let rest : 0 < length (drop room bs) = ground (arith, length-drop room bs) in
            let joined : (got b ++ take room bs) ++ (drop room bs ++ content t)
                ≡ got b ++ (bs ++ content t) =
              append_assoc (got b) (take room bs) (drop room bs ++ content t)
              ∙ ap (λ (l : List ℕ). got b ++ l)
                  (sym (append_assoc (take room bs) (drop room bs) (content t))
                    ∙ ap (λ (l : List ℕ). l ++ content t) (take-append-drop room bs)) in
            rw (over, full)
              (fills _ (bytes (drop room bs) ∷ t) refl
                (ground (arith, length-append (got b) (take room bs))) joined (rest, c)
                (ground (arith, length-drop room bs)))
      ])

-- What one read of the transport comes to where no read fails.
pub data OneRead (before : List ℕ) (n : ℕ) : Poll (List ℕ) × List Event → Type 0 where
  read_waits :
      (t : List Event)
      → content t ≡ before
      → IsClean t
      → remaining t < n
      → OneRead before n (pending, t)
  read_gives :
      (b : ℕ) (bs : List ℕ) (t : List Event)
      → (b ∷ bs) ++ content t ≡ before
      → IsClean t
      → remaining t < n
      → OneRead before n (ready (ok (b ∷ bs)), t)
  read_ends : before ≡ [] → OneRead before n (ready (ok []), [])

pub poll_inner-OneRead :
    (size : ℕ) (t : List Event)
    → 0 < size
    → IsClean t
    → OneRead (content t) (remaining t) (poll_inner size t)
unfolding poll_inner
poll_inner-OneRead size [] h c = read_ends refl
poll_inner-OneRead size (not_ready ∷ t) h c = read_waits t refl c (omega arith)
poll_inner-OneRead size (failed e ∷ t) h c = absurd c
poll_inner-OneRead zero (bytes bs ∷ t) h c = absurd (omega arith)
poll_inner-OneRead (suc size) (bytes [] ∷ t) h (n, c) = absurd (omega arith)
poll_inner-OneRead (suc size) (bytes (b ∷ bs) ∷ t) h (n, c) =
    elim (Bool-cases (leb (suc (length bs)) (suc size))) [
      | inl fits ↦
          let all = take-ge size bs (ground arith) in
          rw (fits, all) (read_gives b bs t refl c (omega arith))
      | inr over ↦
          let rest : 0 < length (drop size bs) = ground (arith, length-drop size bs) in
          let joined : take size bs ++ (drop size bs ++ content t) ≡ bs ++ content t =
            sym (append_assoc (take size bs) (drop size bs) (content t))
            ∙ ap (λ (l : List ℕ). l ++ content t) (take-append-drop size bs) in
          rw over (
            read_gives b (take size bs) (bytes (drop size bs) ∷ t) (ap (◌∷◌ b) joined) (rest, c)
              (ground (arith, length-drop size bs)))
    ]
