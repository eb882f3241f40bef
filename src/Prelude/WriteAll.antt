-- ===== src/Prelude/WriteAll.antt =====
-- A caller that writes a whole buffer to a stream that is polled for writing, on fuel, and the invariant
-- that a stream has to keep for it.
use i_leaf.Prelude.Tests.{◌==◌, if◌then◌else◌}
use i_leaf.Prelude.Lists.{drop}
use i_leaf.Prelude.Fallible.{Outcome, ok, err, panic}
use i_leaf.Prelude.Stream.{IoError, write_zero}
use i_leaf.Prelude.Polls.{Poll, pending, ready}
use i_leaf.Prelude.Writes.{Sink}
use Prim.Native.Nat.{ℕ, zero, suc, ◌<◌}
use mathlib.Core.Path.{◌≡◌, refl}
use mathlib.Core.Bool.{false}
use mathlib.Core.Option.{Option, none, some}
use mathlib.Core.List.{List, [], ◌∷◌}
use native.Mathlib.Omega.{arith}

-- What a caller does with the answer, from what it does next.
abbrev after :
    Poll ℕ
    → Option (Outcome IoError Sink)
    → (ℕ → Option (Outcome IoError Sink))
    → Option (Outcome IoError Sink)
after pending again next = again
after (ready (ok k)) again next = if k == 0 then some (err write_zero) else next k
after (ready (err e)) again next = some (err e)
after (ready panic) again next = some panic

abbrev pub PolledWrite : Type 0 → Type 0
PolledWrite W = Poll ℕ × W × Sink

module _ {W : Type 0} where
  -- `write_all`: it calls again with what is left. `none`: out of fuel.
  unfoldable pub write_all :
      (List ℕ → W → Sink → PolledWrite W) → ℕ → List ℕ → W → Sink → Option (Outcome IoError Sink)
  write_all poll zero buf w s = none
  write_all poll (suc n) [] w s = some (ok s)
  write_all poll (suc n) (b ∷ buf) w s =
      let (p, w', s') = poll (b ∷ buf) w s in
      after p (write_all poll n (b ∷ buf) w' s') (λ k. write_all poll n (drop k (b ∷ buf)) w' s')

  module _ (Ready : W → List ℕ → Sink → ℕ → Type 0)
      (Ends : W → List ℕ → Sink → List ℕ → Type 0) where
    -- What one call comes to: the calls that follow bring about `Goal`.
    pub data Step (Goal : List ℕ → Type 0) (rest : List ℕ) (n : ℕ) : PolledWrite W → Type 0 where
      step_waits :
          (w : W) (s : Sink) (m : ℕ)
          → m < n
          → Ready w rest s m
          → ((final : List ℕ) → Ends w rest s final → Goal final)
          → Step Goal rest n (pending, w, s)
      step_gives :
          (k : ℕ) (w : W) (s : Sink) (m : ℕ)
          → 0 < k
          → m < n
          → Ready w (drop k rest) s m
          → ((final : List ℕ) → Ends w (drop k rest) s final → Goal final)
          → Step Goal rest n (ready (ok k), w, s)

    pub Step-map :
        {G H : List ℕ → Type 0} {rest : List ℕ} {n : ℕ} {out : PolledWrite W}
        → ((final : List ℕ) → G final → H final)
        → Step G rest n out
        → Step H rest n out
    Step-map f (step_waits w s m l r g) = step_waits w s m l r (λ final e. f final (g final e))
    Step-map f (step_gives k w s m p l r g) =
        step_gives k w s m p l r (λ final e. f final (g final e))

    module _ (poll : List ℕ → W → Sink → PolledWrite W)
        (one : (b : ℕ) (buf : List ℕ) (w : W) (s : Sink) (n : ℕ)
          → Ready w (b ∷ buf) s n
          → Step (Ends w (b ∷ buf) s) (b ∷ buf) n (poll (b ∷ buf) w s))
        (stop : (w : W) (s : Sink) (n : ℕ) → Ready w [] s n → Ends w [] s s.out) where
      after-Step :
          (Goal : List ℕ → Type 0) (b : ℕ) (buf : List ℕ) (fuel n : ℕ) (out : PolledWrite W)
          → n < suc fuel
          → ((rest : List ℕ) (w : W) (s : Sink) (m : ℕ)
              → m < fuel
              → Ready w rest s m
              → (s' : Sink) × (write_all poll fuel rest w s ≡ some (ok s')) × Ends w rest s s'.out)
          → Step Goal (b ∷ buf) n out
          → (s' : Sink) × (after out.0
                (write_all poll fuel (b ∷ buf) out.1 out.2)
                (λ k. write_all poll fuel (drop k (b ∷ buf)) out.1 out.2)
              ≡ some (ok s'))
            × Goal s'.out
      after-Step Goal b buf fuel n _ h again (step_waits w s m l r g) =
          let (s', e, f) = again (b ∷ buf) w s m (omega arith) r in (s', e, g s'.out f)
      after-Step Goal b buf fuel n _ h again (step_gives k w s m p l r g) =
          let (s', e, f) = again (drop k (b ∷ buf)) w s m (omega arith) r in
          let moves : (k == 0) ≡ false = ground arith in (s', rw moves e, g s'.out f)

      pub write_all_lem :
          (fuel : ℕ) (rest : List ℕ) (w : W) (s : Sink) (n : ℕ)
          → n < fuel
          → Ready w rest s n
          → (s' : Sink) × (write_all poll fuel rest w s ≡ some (ok s')) × Ends w rest s s'.out
      unfolding write_all
      write_all_lem zero rest w s n h r = absurd (omega arith)
      write_all_lem (suc fuel) [] w s n h r = (s, refl, stop w s n r)
      write_all_lem (suc fuel) (b ∷ buf) w s n h r =
          after-Step (Ends w (b ∷ buf) s) b buf fuel n _ h
            (λ rest w' s' m l r'. write_all_lem fuel rest w' s' m l r') (one b buf w s n r)
