-- ===== src/Delivery/Worker/Schedule/Progress.antt =====
-- The steps of goroutines, each of which comes nearer to its end, and the goroutines that can step.
use doevoe.Base.{
  ℕ, zero, suc, ◌≤◌, ◌<◌, ◌+◌, ◌≡◌, ◌⊎◌, refl, ap, ltb, Text, Bool, true, false, List, [], ◌∷◌,
  arith, length, Bool-cases, inl, inr,
}
use doevoe.Store.{Email, Domain, Store, Result, ok, err}
use doevoe.Store.Domains.{get_domain}
use doevoe.Delivery.Worker.{Worker, SendOutcome, returned, panicked}
use doevoe.Delivery.Worker.Schedule.Alone.{is_waiting, move-advance}
use doevoe.Delivery.Worker.Schedule.{
  Phase, waiting, loading, loaded, answered, recorded, broken, broken_recorded, leaving, finished,
  Thread, rcpt_domain, is_holding, holders, after_load, after_call, advance, move, move_nth,
}

-- The steps that a goroutine has left, at most.
abbrev pub rank : Phase → ℕ
rank waiting = 6
rank loading = 5
rank (loaded d) = 4
rank (answered res) = 3
rank (recorded res) = 2
rank (broken m) = 3
rank (broken_recorded m) = 2
rank leaving = 1
rank finished = 0

abbrev pub left : List Thread → ℕ
left [] = 0
left (t ∷ ts) = rank t.phase + left ts

not_waiting : (phase : Phase) → is_holding phase ≡ true → is_waiting phase ≡ false
not_waiting waiting h = cc
not_waiting _ h = refl

module _ (w : Worker) (at : ℕ) where
  -- A goroutine that holds its semaphore, or finds room, comes nearer to its end.
  advance-rank :
      (e : Email) (phase : Phase) (s : Store)
      → is_holding phase ≡ true
      → rank (advance w at e phase s).0 < rank phase
  unfolding advance after_load after_call
  advance-rank e waiting s h = cc
  advance-rank e finished s h = cc
  advance-rank e loading s h = of_load (get_domain e.domain_id s).0 (get_domain e.domain_id s).1
    where
      of_load : (r : Result Domain) (s : Store) → rank (after_load (r, s)).0 < 5
      of_load (ok d) s = omega arith
      of_load (err error) s = omega arith
  advance-rank e (loaded d) s h = of_call (w.send e d)
    where
      of_call : (outcome : SendOutcome) → rank (after_call outcome s).0 < 4
      of_call (returned res) = omega arith
      of_call (panicked value) = omega arith
  advance-rank e (answered res) s h = omega arith
  advance-rank e (recorded res) s h = omega arith
  advance-rank e (broken m) s h = omega arith
  advance-rank e (broken_recorded m) s h = omega arith
  advance-rank e leaving s h = omega arith

  move-nearer :
      (room : Bool) (e : Email) (phase : Phase) (s : Store)
      → is_holding phase ≡ true
      → rank (move w at room e phase s).0 < rank phase
  move-nearer room e phase s h =
      rw (move-advance w at room e phase s (not_waiting phase h)) (advance-rank e phase s h)

  free_nearer :
      (room : Bool) (e : Email) (phase : Phase) (s : Store)
      → ltb 0 (rank phase) ≡ true
      → room ≡ true
      → rank (move w at room e phase s).0 < rank phase
  unfolding move
  free_nearer true e waiting s unfinished free = omega arith
  free_nearer false e waiting s unfinished free = cc
  free_nearer room e finished s unfinished free = cc
  free_nearer room e phase s unfinished free = move-nearer room e phase s refl

  -- A step changes nothing, or it brings a goroutine nearer to its end.
  move-rank :
      (room : Bool) (e : Email) (phase : Phase) (s : Store)
      → (rank (move w at room e phase s).0 < rank phase) ⊎ (move w at room e phase s ≡ (phase, s))
  unfolding move advance
  move-rank room e phase s = elim (Bool-cases (is_holding phase)) [
    | inl holding ↦ inl (move-nearer room e phase s holding)
    | inr idle ↦ of_idle room phase idle
  ]
    where
      of_idle :
          (room : Bool) (phase : Phase)
          → is_holding phase ≡ false
          → (rank (move w at room e phase s).0 < rank phase)
            ⊎ (move w at room e phase s ≡ (phase, s))
      of_idle true waiting idle = inl (omega arith)
      of_idle false waiting idle = inr refl
      of_idle room finished idle = inr refl
      of_idle room _ idle = cc

  module _ (room : Text → Bool) where
    pub move_nth-left :
        (i : ℕ) (ts : List Thread) (s : Store)
        → (left (move_nth w at room i ts s).0 < left ts) ⊎ (move_nth w at room i ts s ≡ (ts, s))
    unfolding move_nth
    move_nth-left i [] s = inr refl
    move_nth-left zero (t ∷ ts) s =
        elim (move-rank (room (rcpt_domain t.email)) t.email t.phase s) [
          | inl nearer ↦ inl (omega (arith, nearer))
          | inr still ↦ inr (ap (λ (r : Phase × Store). (record t { phase = r.0 } ∷ ts, r.1)) still)
        ]
    move_nth-left (suc i) (t ∷ ts) s = elim (move_nth-left i ts s) [
      | inl nearer ↦ inl (omega (arith, nearer))
      | inr still ↦ inr (ap (λ (r : List Thread × Store). (t ∷ r.0, r.1)) still)
    ]

    pub length-move_nth :
        (i : ℕ) (ts : List Thread) (s : Store) → length (move_nth w at room i ts s).0 ≡ length ts
    unfolding move_nth
    length-move_nth i [] s = refl
    length-move_nth zero (t ∷ ts) s = refl
    length-move_nth (suc i) (t ∷ ts) s = ap (λ (n : ℕ). suc n) (length-move_nth i ts s)

  -- A place whose goroutine comes nearer to its end by a step.
  abbrev pub Moving : (Text → Bool) → List Thread → Store → Type 0
  Moving room ts s = (i : ℕ) × (i < length ts) × (left (move_nth w at room i ts s).0 < left ts)

  later :
      (room : Text → Bool) (t : Thread) (ts : List Thread) (s : Store)
      → Moving room ts s
      → Moving room (t ∷ ts) s
  unfolding move_nth
  later room t ts s (i, inside, nearer) = (suc i, omega (arith, inside), omega (arith, nearer))

  -- A goroutine that holds its semaphore can step.
  holding-Moving :
      (room : Text → Bool) (ts : List Thread) (s : Store)
      → Moving room ts s ⊎ ((domain : Text) → holders domain ts ≡ 0)
  unfolding move_nth
  holding-Moving room [] s = inr (λ domain. refl)
  holding-Moving room (t ∷ ts) s = elim (Bool-cases (is_holding t.phase)) [
    | inl holding ↦ inl (
      zero,
      omega arith,
      omega (arith, move-nearer (room (rcpt_domain t.email)) t.email t.phase s holding),
    )
    | inr idle ↦ elim (holding-Moving room ts s) [
      | inl found ↦ inl (later room t ts s found)
      | inr none_holds ↦ inr (λ domain. rw (idle, none_holds domain) refl)
    ]
  ]

  -- Where all semaphores have room, any goroutine that has not ended can step.
  room-Moving :
      (room : Text → Bool) (ts : List Thread) (s : Store)
      → ((domain : Text) → room domain ≡ true)
      → 0 < left ts
      → Moving room ts s
  unfolding move_nth
  room-Moving room [] s free some_left = absurd (omega (arith, some_left))
  room-Moving room (t ∷ ts) s free some_left = elim (Bool-cases (ltb 0 (rank t.phase))) [
    | inl unfinished ↦ (
      zero,
      omega arith,
      omega (arith, free_nearer _ t.email t.phase s unfinished (free (rcpt_domain t.email))),
    )
    | inr ended ↦ later room t ts s (room-Moving room ts s free (ground (arith, ended, some_left)))
  ]

  -- So where some goroutine has not ended, one can step: no two wait for each other.
  pub step-Moving :
      (limit : ℕ) (ts : List Thread) (s : Store)
      → 1 ≤ limit
      → 0 < left ts
      → Moving (λ domain. ltb (holders domain ts) limit) ts s
  step-Moving limit ts s some_room some_left =
      elim (holding-Moving (λ domain. ltb (holders domain ts) limit) ts s) [
        | inl found ↦ found
        | inr none_holds ↦
            room-Moving _ ts s
              (λ domain. free limit (holders domain ts) some_room (none_holds domain)) some_left
      ]
    where
      free : (limit n : ℕ) → 1 ≤ limit → n ≡ 0 → ltb n limit ≡ true
      free limit n some_room none_holds = ground (arith, some_room, none_holds)
