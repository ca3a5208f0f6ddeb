-- ===== src/Delivery/Worker/Schedule/Ends.antt =====
-- The goroutines of a batch come to their end, in every order that lets each of them step again and
-- again.
use doevoe.Base.{
  ℕ, suc, ◌≤◌, ◌<◌, ◌-◌, ◌*◌, ◌++◌, ◌≡◌, ◌⊎◌, refl, sym, ap, subst, ◌∙◌, ltb, List, [], ◌∷◌, arith,
  length, Bool-cases, inl, inr, All, IsIn,
}
use doevoe.Store.{Email, Store}
use doevoe.Delivery.Worker.{Worker}
use doevoe.Delivery.Worker.Schedule.Progress.{
  rank, left, move_nth-left, length-move_nth, step-Moving,
}
use doevoe.Delivery.Worker.Schedule.{Phase, finished, Thread, Batch, holders, step, run, start}

-- The schedule of some rounds.
abbrev pub concat : List (List ℕ) → List ℕ
concat [] = []
concat (r ∷ rs) = r ++ concat rs

-- Each of `n` goroutines has a turn in a round.
abbrev pub IsRound : ℕ → List ℕ → Type 0
IsRound n round = (i : ℕ) → i < n → IsIn i round

-- Nothing is left.
left_none : (ts : List Thread) → left ts ≡ 0 → All (λ (t : Thread). t.phase ≡ finished) ts
left_none [] h = tt
left_none (t ∷ ts) h = (ended t.phase (omega (arith, h)), left_none ts (omega (arith, h)))
  where
    ended : (phase : Phase) → rank phase ≡ 0 → phase ≡ finished
    ended finished h = refl
    ended _ h = absurd (omega (arith, h))

left-start : (es : List Email) (s : Store) → left (start es s).threads ≡ 6 * length es
unfolding start
left-start [] s = omega arith
left-start (e ∷ es) s = omega (arith, left-start es s)

length-start : (es : List Email) (s : Store) → length (start es s).threads ≡ length es
unfolding start
length-start [] s = refl
length-start (e ∷ es) s = ap (λ (n : ℕ). suc n) (length-start es s)

module _ (w : Worker) (at limit : ℕ) where
  step-left :
      (i : ℕ) (b : Batch)
      → (left (step w at limit i b).threads < left b.threads) ⊎ (step w at limit i b ≡ b)
  unfolding step
  step-left i b =
      elim (move_nth-left w at (λ domain. ltb (holders domain b.threads) limit) i b.threads
        b.store) [
          | inl nearer ↦ inl nearer
          | inr still ↦
              inr (ap (λ (r : List Thread × Store). record { threads = r.0; store = r.1 }) still)
        ]

  run-left : (is : List ℕ) (b : Batch) → left (run w at limit is b).threads ≤ left b.threads
  unfolding run
  run-left [] b = omega arith
  run-left (i ∷ is) b = elim (step-left i b) [
    | inl nearer ↦ omega (arith, nearer, run-left is (step w at limit i b))
    | inr still ↦
        subst (λ (c : Batch). left (run w at limit is c).threads ≤ left b.threads) (sym still)
          (run-left is b)
  ]

  length-run : (is : List ℕ) (b : Batch) → length (run w at limit is b).threads ≡ length b.threads
  unfolding run step
  length-run [] b = refl
  length-run (i ∷ is) b =
      length-run is (step w at limit i b)
      ∙ length-move_nth w at (λ domain. ltb (holders domain b.threads) limit) i b.threads b.store

  -- A schedule in which a goroutine that can step has its turn brings the batch nearer to its end.
  turn-left :
      (is : List ℕ) (b : Batch) (i : ℕ)
      → IsIn i is
      → left (step w at limit i b).threads < left b.threads
      → left (run w at limit is b).threads < left b.threads
  unfolding run
  turn-left [] b i here nearer = absurd (here refl)
  turn-left (j ∷ js) b i (inl same) nearer =
      let nearer' =
        subst (λ (k : ℕ). left (step w at limit k b).threads < left b.threads) same nearer in
      omega (arith, nearer', run-left js (step w at limit j b))
  turn-left (j ∷ js) b i (inr here) nearer = elim (step-left j b) [
    | inl nearer' ↦ omega (arith, nearer', run-left js (step w at limit j b))
    | inr still ↦
        subst (λ (c : Batch). left (run w at limit js c).threads < left b.threads) (sym still)
          (turn-left js b i here nearer)
  ]

  run-append :
      (xs ys : List ℕ) (b : Batch)
      → run w at limit (xs ++ ys) b ≡ run w at limit ys (run w at limit xs b)
  unfolding run
  run-append [] ys b = refl
  run-append (x ∷ xs) ys b = run-append xs ys (step w at limit x b)

  -- A round brings the batch nearer to its end, unless it has ended.
  round-left :
      (round : List ℕ) (b : Batch)
      → 1 ≤ limit
      → IsRound (length b.threads) round
      → left (run w at limit round b).threads ≤ left b.threads - 1
  unfolding step
  round-left round b some_room full = elim (Bool-cases (ltb 0 (left b.threads))) [
    | inl unfinished ↦
        let (i, inside, nearer) =
          step-Moving w at limit b.threads b.store some_room (ground (arith, unfinished)) in
        omega (arith, turn-left round b i (full i inside) nearer)
    | inr ended ↦ ground (arith, ended, run-left round b)
  ]

  rounds-left :
      (rounds : List (List ℕ)) (b : Batch)
      → 1 ≤ limit
      → All (IsRound (length b.threads)) rounds
      → left (run w at limit (concat rounds) b).threads ≤ left b.threads - length rounds
  unfolding run
  rounds-left [] b some_room full = omega arith
  rounds-left (r ∷ rs) b some_room full =
      let b' = run w at limit r b in
      let rest =
        rounds-left rs b' some_room
          (subst (λ (n : ℕ). All (IsRound n) rs) (sym (length-run r b)) full.1) in
      let all : left (run w at limit (r ++ concat rs) b).threads
          ≡ left (run w at limit (concat rs) b').threads =
        ap (λ (c : Batch). left c.threads) (run-append r (concat rs) b) in
      omega (arith, rest, round-left r b some_room full.0, all)

-- If a semaphore has room for at least one, then after at least six rounds for each email of a
-- batch, in each of which every goroutine has a turn, in any order and any number of times, all
-- goroutines have ended: none waits for ever, so the tick returns.
pub rounds-finished :
    (w : Worker) (at limit : ℕ) (es : List Email) (s : Store) (rounds : List (List ℕ))
    → 1 ≤ limit
    → All (IsRound (length es)) rounds
    → 6 * length es ≤ length rounds
    → All (λ (t : Thread). t.phase ≡ finished) (run w at limit (concat rounds) (start es s)).threads
rounds-finished w at limit es s rounds some_room full enough =
    let rest =
      rounds-left w at limit rounds (start es s) some_room
        (subst (λ (n : ℕ). All (IsRound n) rounds) (sym (length-start es s)) full) in
    left_none _ (omega (arith, rest, left-start es s, enough))
