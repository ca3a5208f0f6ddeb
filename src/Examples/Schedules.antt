-- ===== src/Examples/Schedules.antt =====
-- Two emails of one domain, whose goroutines take turns.
use doevoe.Base.{ℕ, zero, suc, ◌≤◌, ◌*◌, ◌≡◌, refl, inl, inr, List, [], ◌∷◌, arith, codes, map, All}
use doevoe.Store.{Email}
use doevoe.Delivery.Worker.{process_all}
use doevoe.Delivery.Worker.Schedule.{finished, Thread, holders, run, start}
use doevoe.Delivery.Worker.Schedule.Limit.{run-start-holders}
use doevoe.Delivery.Worker.Schedule.Alone.{sequential, run-sequential}
use doevoe.Delivery.Worker.Schedule.Ends.{IsRound, concat, rounds-finished}
use doevoe.Examples.Data.{a_time, waiting_email, sending_email, a_store, a_worker}

abbrev two_emails : List Email
two_emails = waiting_email ∷ sending_email ∷ []

abbrev some_turns : List ℕ
some_turns = 0 ∷ 1 ∷ 1 ∷ 0 ∷ 1 ∷ []

run-start-holders_example :
    holders
      (codes "mail.example")
      (run a_worker a_time 1 some_turns (start two_emails a_store)).threads
    ≤ 1
run-start-holders_example =
    run-start-holders a_worker a_time 1 two_emails a_store some_turns (codes "mail.example")

one_some : 1 ≤ 1
one_some = omega arith

run-sequential_example :
    run a_worker a_time 1 (sequential 0 two_emails) (start two_emails a_store) ≡ record {
      threads = map (λ e. record { email = e; phase = finished }) two_emails;
      store = process_all a_worker a_time two_emails a_store;
    }
run-sequential_example = run-sequential a_worker a_time 1 two_emails a_store one_some

-- The second goroutine has its turn first.
abbrev a_round : List ℕ
a_round = 1 ∷ 0 ∷ []

abbrev rounds : ℕ → List (List ℕ)
rounds zero = []
rounds (suc n) = a_round ∷ rounds n

a_round-IsRound : IsRound 2 a_round
a_round-IsRound zero inside = inr (inl refl)
a_round-IsRound (suc zero) inside = inl refl
a_round-IsRound (suc (suc i)) inside = absurd (omega (arith, inside))

rounds-IsRound : (n : ℕ) → All (IsRound 2) (rounds n)
rounds-IsRound zero = tt
rounds-IsRound (suc n) = (a_round-IsRound, rounds-IsRound n)

enough : 6 * 2 ≤ 12
enough = omega arith

rounds-finished_example :
    All
      (λ (t : Thread). t.phase ≡ finished)
      (run a_worker a_time 1 (concat (rounds 12)) (start two_emails a_store)).threads
rounds-finished_example =
    rounds-finished a_worker a_time 1 two_emails a_store (rounds 12) one_some (rounds-IsRound 12)
      enough
