-- ===== src/Delivery/Worker/Schedule/Limit.antt =====
-- The semaphores of the recipients' domains.
use doevoe.Base.{
  ℕ, zero, suc, ◌≤◌, ◌+◌, ◌≡◌, refl, sym, ltb, Text, Bool, true, false, ◌&&◌, List, [], ◌∷◌, arith,
  text_eq, text_eq_sound, if◌then◌else◌, map, Bool-cases, inl, inr, ap, ◌∙◌,
}
use doevoe.Store.{Email, Store}
use doevoe.Delivery.Worker.{Worker}
use doevoe.Delivery.Worker.Schedule.{
  Phase, waiting, loading, loaded, answered, recorded, broken, broken_recorded, leaving, finished,
  Thread, Batch, rcpt_domain, is_holding, holds, holders, advance, move, move_nth, step, run, start,
}

-- A goroutine holds its semaphore after its step only if it held it before, or there was room.
move-holding :
    (w : Worker) (at : ℕ) (room : Bool) (e : Email) (phase : Phase) (s : Store)
    → is_holding (move w at room e phase s).0 ≡ true
    → (is_holding phase ≡ false → room ≡ true)
unfolding move advance
move-holding w at room e waiting s h = λ no. ground (arith, h)
move-holding w at room e finished s h = λ no. cc
move-holding w at room e loading s h = λ no. cc
move-holding w at room e (loaded d) s h = λ no. cc
move-holding w at room e (answered res) s h = λ no. cc
move-holding w at room e (recorded res) s h = λ no. cc
move-holding w at room e (broken m) s h = λ no. cc
move-holding w at room e (broken_recorded m) s h = λ no. cc
move-holding w at room e leaving s h = λ no. cc

abbrev one_if : Bool → ℕ
one_if b = if b then 1 else 0

place_taken :
    (after before same own there : Bool)
    → (after ≡ true → before ≡ false → own ≡ true)
    → (same ≡ true → own ≡ there)
    → one_if (after && same) ≤ one_if (before && same) + one_if there
place_taken false before same own there took shared = omega arith
place_taken true true same own there took shared = omega arith
place_taken true false false own there took shared = omega arith
place_taken true false true own there took shared =
    let place : there ≡ true = sym (shared refl) ∙ took refl refl in rw place (omega arith)

-- So a step takes at most the place that there was.
move-holds :
    (w : Worker) (at : ℕ) (room : Text → Bool) (domain : Text) (t : Thread) (s : Store)
    → let phase = (move w at (room (rcpt_domain t.email)) t.email t.phase s).0 in
      one_if (holds domain (record t { phase = phase }))
      ≤ one_if (holds domain t) + one_if (room domain)
move-holds w at room domain t s =
    place_taken _ (is_holding t.phase) (text_eq (rcpt_domain t.email) domain)
      (room (rcpt_domain t.email)) (room domain)
      (move-holding w at (room (rcpt_domain t.email)) t.email t.phase s)
      (λ same. ap room (text_eq_sound (rcpt_domain t.email) domain same))

holders-cons :
    (domain : Text) (t : Thread) (ts : List Thread)
    → holders domain (t ∷ ts) ≡ one_if (holds domain t) + holders domain ts
holders-cons domain t ts = ground arith

move_nth-holders :
    (w : Worker) (at : ℕ) (room : Text → Bool) (domain : Text) (i : ℕ) (ts : List Thread)
    (s : Store)
    → holders domain (move_nth w at room i ts s).0 ≤ holders domain ts + one_if (room domain)
unfolding move_nth
move_nth-holders w at room domain i [] s = omega arith
move_nth-holders w at room domain zero (t ∷ ts) s = omega (
  arith,
  move-holds w at room domain t s,
  holders-cons domain t ts,
  holders-cons domain
      (record t { phase = (move w at (room (rcpt_domain t.email)) t.email t.phase s).0 }) ts,
)
move_nth-holders w at room domain (suc i) (t ∷ ts) s = omega (
  arith,
  move_nth-holders w at room domain i ts s,
  holders-cons domain t ts,
  holders-cons domain t (move_nth w at room i ts s).0,
)

pub start-holders :
    (es : List Email) (domain : Text)
    → holders domain (map (λ (e : Email). record { email = e; phase = waiting }) es) ≡ 0
start-holders [] domain = refl
start-holders (e ∷ es) domain = start-holders es domain

within :
    (after before limit : ℕ)
    → before ≤ limit
    → after ≤ before + one_if (ltb before limit)
    → after ≤ limit
within after before limit h more = elim (Bool-cases (ltb before limit)) [
  | inl room ↦ ground (arith, h, more)
  | inr full ↦ ground (arith, h, more)
]

run-holders :
    (w : Worker) (at limit : ℕ) (domain : Text) (schedule : List ℕ) (b : Batch)
    → holders domain b.threads ≤ limit
    → holders domain (run w at limit schedule b).threads ≤ limit
unfolding run step
run-holders w at limit domain [] b h = h
run-holders w at limit domain (i ∷ is) b h =
    let room : Text → Bool = λ d. ltb (holders d b.threads) limit in
    let more = move_nth-holders w at room domain i b.threads b.store in
    run-holders w at limit domain is (step w at limit i b) (
      within (holders domain (step w at limit i b).threads) (holders domain b.threads) limit h more)

-- However the goroutines of a batch take turns, never more of them than the limit hold the
-- semaphore of one recipient's domain.
pub run-start-holders :
    (w : Worker) (at limit : ℕ) (es : List Email) (s : Store) (schedule : List ℕ) (domain : Text)
    → holders domain (run w at limit schedule (start es s)).threads ≤ limit
unfolding start
run-start-holders w at limit es s schedule domain =
    run-holders w at limit domain schedule (start es s) (omega (arith, start-holders es domain))
