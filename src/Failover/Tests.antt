-- ===== src/Failover/Tests.antt =====
-- leaf/src/proxy/failover/tcp.rs: the statements at concrete inputs.
use i_leaf.Prelude.{ℕ, zero, suc, ◌≡◌, ◌↔◌, refl, [], ◌∷◌, ok, err, arith}
use i_leaf.Prelude.Stream.{all_failed, refused}
use i_leaf.Failover.{Attempt, in_time, too_late, handle, or_next, new_schedule, indices_from}
use i_leaf.Failover.Attempts.{handle_iff, Decides}

-- The first actor is refused, the second late, the third answers 7.
abbrev third_answers : ℕ → Attempt ℕ
third_answers zero = in_time (err refused)
third_answers (suc zero) = too_late
third_answers (suc (suc n)) = in_time (ok 7)

handle_iff_example :
    (handle 3 third_answers (0 ∷ 1 ∷ 2 ∷ []) ≡ ok 7) ↔ Decides 3 third_answers (0 ∷ 1 ∷ 2 ∷ []) 7
handle_iff_example =
    handle_iff 3 third_answers (0 ∷ 1 ∷ 2 ∷ []) 7 (omega arith, (omega arith, (omega arith, tt)))

abbrev all_late : ℕ → Attempt ℕ
all_late i = too_late

all_late_fails : handle 2 all_late (new_schedule 2) ≡ err all_failed
unfolding handle new_schedule indices_from or_next
all_late_fails = refl
