-- ===== src/Failover/Attempts.antt =====
-- leaf/src/proxy/failover/tcp.rs: which attempt decides the result of `handle`.
use i_leaf.Prelude.{
  ℕ, ◌<◌, ◌≡◌, ◌↔◌, ◌⊎◌, inl, inr, refl, sym, ap, ◌∙◌, List, [], ◌∷◌, ◌++◌, All, Bool, Outcome, ok,
  err, panic, arith,
}
use i_leaf.Prelude.Stream.{IoError, all_failed}
use i_leaf.Failover.{Attempt, in_time, too_late, or_next, handle}
use i_leaf.Failover.Check.{Below, Reached, Reached-Below}

module _ {S : Type 0} (actors : ℕ) (attempt : ℕ → Attempt S) where
  -- The attempt came to nothing, and the next actor is tried.
  abbrev pub Fails : ℕ → Type 0
  Fails i = (attempt i ≡ too_late) ⊎ ((e : IoError) × (attempt i ≡ in_time (err e)))

  -- The first attempt in the order of the schedule that does not fail gives the value.
  abbrev pub Decides : List ℕ → S → Type 0
  Decides schedule v =
      (before : List ℕ) × (i : ℕ) × (after : List ℕ) × (schedule ≡ before ++ (i ∷ after))
      × All Fails before
      × (attempt i ≡ in_time (ok v))

  Attempt-cases :
      (i : ℕ) → Fails i ⊎ (((v : S) × (attempt i ≡ in_time (ok v))) ⊎ (attempt i ≡ in_time panic))
  Attempt-cases i = go (attempt i) refl
    where
      go :
          (r : Attempt S)
          → attempt i ≡ r
          → Fails i ⊎ (((v : S) × (attempt i ≡ in_time (ok v))) ⊎ (attempt i ≡ in_time panic))
      go (in_time (ok v)) e = inr (inl (v, e))
      go (in_time (err x)) e = inl (inr (x, e))
      go (in_time panic) e = inr (inr e)
      go too_late e = inl (inl e)

  handle-Fails :
      (i : ℕ) (schedule : List ℕ)
      → i < actors
      → Fails i
      → handle actors attempt (i ∷ schedule) ≡ handle actors attempt schedule
  unfolding handle or_next
  handle-Fails i schedule h (inl e) = rw e (ground arith)
  handle-Fails i schedule h (inr (x, e)) = rw e (ground arith)

  handle-answers :
      (i : ℕ) (schedule : List ℕ) (r : Outcome IoError S)
      → i < actors
      → attempt i ≡ in_time r
      → handle actors attempt (i ∷ schedule)
        ≡ or_next actors attempt (in_time r) (handle actors attempt schedule)
  unfolding handle
  handle-answers i schedule r h e = rw e (ground arith)

  handle-decides :
      (before after : List ℕ) (i : ℕ) (v : S)
      → Below actors (before ++ (i ∷ after))
      → All Fails before
      → attempt i ≡ in_time (ok v)
      → handle actors attempt (before ++ (i ∷ after)) ≡ ok v
  unfolding handle or_next
  handle-decides [] after i v (h, b) f e = rw e (ground arith)
  handle-decides (j ∷ before) after i v (h, b) (x, f) e =
      handle-Fails j (before ++ (i ∷ after)) h x ∙ handle-decides before after i v b f e

  decided :
      (schedule : List ℕ) (v : S)
      → Below actors schedule
      → handle actors attempt schedule ≡ ok v
      → Decides schedule v
  unfolding handle or_next
  decided [] v b h = absurd cc
  decided (i ∷ schedule) v (l, b) h = elim (Attempt-cases i) [
    | inl x ↦
        let (before, j, after, e, f, d) =
          decided schedule v b (sym (handle-Fails i schedule l x) ∙ h) in
        (i ∷ before, j, after, ap (◌∷◌ i) e, (x, f), d)
    | inr (inl (w, e)) ↦
        let here = handle-answers i schedule (ok w) l e in
        let same : w ≡ v = cc in ([], i, schedule, refl, tt, rw same at e)
    | inr (inr e) ↦ absurd (let here = handle-answers i schedule panic l e in cc)
  ]

  -- With a schedule of the handler's own actors, `handle` gives a stream exactly when some attempt
  -- succeeds in time and all attempts before it in the schedule fail or are too late, and then
  -- it is that attempt's.
  pub handle_iff :
      (schedule : List ℕ) (v : S)
      → Below actors schedule
      → (handle actors attempt schedule ≡ ok v) ↔ Decides schedule v
  handle_iff schedule v b = (
    decided schedule v b,
    λ d.
        let (before, i, later, e, f, g) = d in
        let inside : Below actors (before ++ (i ∷ later)) = rw e at b in
        ap (handle actors attempt) e ∙ handle-decides before later i v inside f g,
  )

  failed-All :
      (schedule : List ℕ) (e : IoError)
      → Below actors schedule
      → handle actors attempt schedule ≡ err e
      → (e ≡ all_failed) × All Fails schedule
  unfolding handle or_next
  failed-All [] e b h = (cc, tt)
  failed-All (i ∷ schedule) e (l, b) h = elim (Attempt-cases i) [
    | inl x ↦
        let (same, f) = failed-All schedule e b (sym (handle-Fails i schedule l x) ∙ h) in
        (same, (x, f))
    | inr (inl (w, q)) ↦ absurd (let here = handle-answers i schedule (ok w) l q in cc)
    | inr (inr q) ↦ absurd (let here = handle-answers i schedule panic l q in cc)
  ]

  -- On any schedule that the handler reaches, an error of `handle` says that all attempts failed,
  -- and they did: an index out of range does not occur.
  handle-eq-err :
      (failover : Bool) (schedule : List ℕ) (e : IoError)
      → Reached actors failover schedule
      → handle actors attempt schedule ≡ err e
      → (e ≡ all_failed) × All Fails schedule
  handle-eq-err failover schedule e r h =
      failed-All schedule e (Reached-Below actors failover schedule r) h
