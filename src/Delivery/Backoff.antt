-- ===== src/Delivery/Backoff.antt =====
-- internal/delivery/backoff.go
use doevoe.Base.{
  ◌≤◌, ◌≡◌, arith, ℕ, ◌+◌, ◌-◌, ◌*◌, Option, none, some, List, [], ◌∷◌, ◌||◌, length, get_elem?,
  ltb, if◌then◌else◌,
}
use doevoe.Store.{minute, hour}

-- Schedule
abbrev pub schedule : List ℕ
schedule =
    minute ∷ (5 * minute) ∷ (15 * minute) ∷ hour ∷ (4 * hour) ∷ (12 * hour) ∷ (24 * hour) ∷ []

-- Whether attempt number `attempts` is followed by another, and after which delay.
unfoldable pub delay_after : ℕ → Option ℕ
delay_after attempts =
    if ltb attempts 1 || ltb (length schedule) attempts
    then none
    else get_elem? schedule (attempts - 1)

-- NextAttempt; `none` is ok = false. The index is in range on that branch.
unfoldable pub next_attempt : ℕ → ℕ → Option ℕ
unfolding delay_after
next_attempt attempts at = elim (delay_after attempts) [ none ↦ none | some d ↦ some (at + d) ]

-- If NextAttempt gives a next attempt, then the number of attempts is from one to seven.
pub next_attempt_range :
    (attempts at next : ℕ) → next_attempt attempts at ≡ some next → (1 ≤ attempts) × (attempts ≤ 7)
unfolding next_attempt
next_attempt_range attempts at next h = ground arith
