-- ===== src/Prelude/Drain.antt =====
-- A reader that polls a stream up to its end, as a copy loop does: the data that it gets, on
-- fuel, and the invariant that a stream has to keep for it.
use i_leaf.Prelude.Lists.{length}
use i_leaf.Prelude.Fallible.{Outcome, ok, err, panic}
use i_leaf.Prelude.Stream.{IoError}
use i_leaf.Prelude.Polls.{Event, Poll, pending, ready}
use Prim.Native.Nat.{ℕ, zero, suc, ◌<◌}
use mathlib.Core.Path.{◌≡◌, refl, sym, ap, ◌∙◌}
use mathlib.Core.Option.{Option, none, some}
use mathlib.Core.List.{List, [], ◌∷◌, ◌++◌}
use native.Mathlib.Omega.{arith}

abbrev pub Polled : Type 0 → Type 0
Polled S = Poll (List ℕ) × S × List Event

-- What was read, and how it ended: `ok` is the end of the stream.
abbrev pub Drained : Type 0
Drained = List ℕ × Outcome IoError (Unit {0})

abbrev prefixed : List ℕ → Option Drained → Option Drained
prefixed bs none = none
prefixed bs (some (more, e)) = some (bs ++ more, e)

abbrev consumed : Poll (List ℕ) → Option Drained → Option Drained
consumed pending more = more
consumed (ready (ok [])) more = some ([], ok tt)
consumed (ready (ok (b ∷ bs))) more = prefixed (b ∷ bs) more
consumed (ready (err e)) more = some ([], err e)
consumed (ready panic) more = some ([], panic)

-- The answer that ends a stream in this way.
abbrev pub closing : Outcome IoError (Unit {0}) → Outcome IoError (List ℕ)
closing (ok u) = ok []
closing (err e) = err e
closing panic = panic

consumed-closing :
    (e : Outcome IoError (Unit {0})) (more : Option Drained)
    → consumed (ready (closing e)) more ≡ some ([], e)
consumed-closing (ok tt) more = refl
consumed-closing (err e) more = refl
consumed-closing panic more = refl

module _ {S : Type 0} (poll : S → List Event → Polled S) where
  -- `none`: out of fuel. A read of 0 bytes is the end.
  unfoldable pub drain : ℕ → S → List Event → Option Drained
  drain zero s t = none
  drain (suc n) s t = let (p, s', t') = poll s t in let more = drain n s' t' in consumed p more

  module _ (final : Outcome IoError (Unit {0})) (Inv : S → List Event → List ℕ → ℕ → Type 0) where
    -- What a poll may do where `rest` is still to be read, in fewer than `n` polls.
    pub data Progress (rest : List ℕ) (n : ℕ) : Polled S → Type 0 where
      waits :
          (s : S) (t : List Event) (m : ℕ)
          → m < n
          → Inv s t rest m
          → Progress rest n (pending, s, t)
      gives :
          (s : S) (t : List Event) (m : ℕ) (bs more : List ℕ)
          → m < n
          → 0 < length bs
          → bs ++ more ≡ rest
          → Inv s t more m
          → Progress rest n (ready (ok bs), s, t)
      ends : (s : S) (t : List Event) → rest ≡ [] → Progress rest n (ready (closing final), s, t)

    module _
        (step : (s : S) (t : List Event) (rest : List ℕ) (n : ℕ)
          → Inv s t rest n
          → Progress rest n (poll s t)) where
      consumed-Progress :
          (fuel n : ℕ) (rest : List ℕ) (out : Polled S)
          → n < suc fuel
          → ((m : ℕ) (s : S) (t : List Event) (more : List ℕ)
              → m < fuel
              → Inv s t more m
              → drain fuel s t ≡ some (more, final))
          → Progress rest n out
          → consumed out.0 (drain fuel out.1 out.2) ≡ some (rest, final)
      consumed-Progress fuel n rest _ h again (waits s t m l i) = again m s t rest (omega arith) i
      consumed-Progress fuel n rest _ h again (gives s t m [] more l q e i) = absurd (omega arith)
      consumed-Progress fuel n rest _ h again (gives s t m (b ∷ bs) more l q e i) =
          rw (again m s t more (omega arith) i) (ap (λ (r : List ℕ). some (r, final)) e)
      consumed-Progress fuel n rest _ h again (ends s t e) =
          consumed-closing final _ ∙ ap (λ (r : List ℕ). some (r, final)) (sym e)

      pub drain_lem :
          (fuel n : ℕ) (s : S) (t : List Event) (rest : List ℕ)
          → n < fuel
          → Inv s t rest n
          → drain fuel s t ≡ some (rest, final)
      unfolding drain
      drain_lem zero n s t rest h i = absurd (omega arith)
      drain_lem (suc fuel) n s t rest h i =
          consumed-Progress fuel n rest (poll s t) h
            (λ m s' t' more l j. drain_lem fuel m s' t' more l j) (step s t rest n i)

-- What a reader relies on: `rest` comes out of the stream and then this end, in fewer than `n` polls,
-- by an invariant that every poll keeps.
pub record Streams {S : Type 0} (poll : S → List Event → Polled S)
    (final : Outcome IoError (Unit {0})) (s : S) (t : List Event) (rest : List ℕ) (n : ℕ)
    : Type 1 where
  pub Inv : S → List Event → List ℕ → ℕ → Type 0
  pub step :
      (s' : S) (t' : List Event) (left : List ℕ) (m : ℕ)
      → Inv s' t' left m
      → Progress poll final Inv left m (poll s' t')
  pub start : Inv s t rest n

pub drain-Streams :
    {S : Type 0} (poll : S → List Event → Polled S) (final : Outcome IoError (Unit {0}))
    (fuel n : ℕ) (s : S) (t : List Event) (rest : List ℕ)
    → n < fuel
    → Streams poll final s t rest n
    → drain poll fuel s t ≡ some (rest, final)
drain-Streams poll final fuel n s t rest enough w =
    drain_lem poll final w.Inv w.step fuel n s t rest enough w.start

-- `ready!(…)?` in front of the rest of a poll function: what is not ready, and what failed, is
-- the result.
abbrev pub ready_then {ℓ} :
    {S : Type ℓ} {A : Type 0}
    → Poll (Unit {0}) × S × List Event
    → (S → List Event → Poll A × S × List Event)
    → Poll A × S × List Event
ready_then (pending, s, t) k = (pending, s, t)
ready_then (ready (ok u), s, t) k = k s t
ready_then (ready (err e), s, t) k = (ready (err e), s, t)
ready_then (ready panic, s, t) k = (ready panic, s, t)

-- `…?` in a poll function, with the state that a failure leaves.
abbrev pub or_fail {ℓ} :
    {S : Type ℓ} {A B : Type 0}
    → Outcome IoError B
    → S
    → List Event
    → (B → Poll A × S × List Event)
    → Poll A × S × List Event
or_fail (ok b) s t k = k b
or_fail (err e) s t k = (ready (err e), s, t)
or_fail panic s t k = (ready panic, s, t)
