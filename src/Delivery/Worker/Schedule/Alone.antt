-- ===== src/Delivery/Worker/Schedule/Alone.antt =====
-- The goroutines of a batch, run one after the other: their steps come to `process`.
use doevoe.Base.{
  ℕ, zero, suc, ◌≤◌, ◌<◌, ◌+◌, ◌≡◌, refl, sym, ap, ◌∙◌, ltb, Text, Bool, true, false, List, [], ◌∷◌,
  ◌++◌, arith, if◌then◌else◌, map, length, length-append,
}
use mathlib.Core.List.{append_assoc}
use doevoe.Store.{Email, Domain, Store, Result, ok, err}
use doevoe.Store.Domains.{get_domain}
use doevoe.Delivery.Worker.{
  Worker, SendOutcome, returned, panicked, process, process_all, with_domain, on_outcome,
}
use doevoe.Delivery.Worker.Schedule.Limit.{start-holders}
use doevoe.Delivery.Worker.Schedule.{
  Phase, waiting, loading, loaded, answered, recorded, broken, broken_recorded, leaving, finished,
  Thread, Batch, rcpt_domain, is_holding, holders, after_load, after_call, advance, move, move_nth,
  step, run, start,
}

module _ (w : Worker) (at : ℕ) (e : Email) where
  -- Some steps of a goroutine that has its semaphore.
  unfoldable iterate : ℕ → Phase → Store → Phase × Store
  iterate zero phase s = (phase, s)
  iterate (suc n) phase s = let (phase', s') = advance w at e phase s in iterate n phase' s'

  called-finished :
      (outcome : SendOutcome) (s : Store)
      → (let (phase, s') = after_call outcome s in iterate 3 phase s')
        ≡ (finished, on_outcome w e at outcome s)
  unfolding iterate advance after_call on_outcome
  called-finished (returned res) s = refl
  called-finished (panicked value) s = refl

  loaded-finished :
      (r : Result Domain) (s : Store)
      → (let (phase, s') = after_load (r, s) in iterate 4 phase s')
        ≡ (finished, with_domain w e at (r, s))
  unfolding iterate advance after_load with_domain
  loaded-finished (err error) s = refl
  loaded-finished (ok d) s = called-finished (w.send e d) s

  -- Five steps of a goroutine bring it from its semaphore to its end, and are `process`.
  loading-finished : (s : Store) → iterate 5 loading s ≡ (finished, process w e at s)
  unfolding iterate advance process
  loading-finished s = loaded-finished (get_domain e.domain_id s).0 (get_domain e.domain_id s).1

abbrev pub is_waiting : Phase → Bool
is_waiting waiting = true
is_waiting _ = false

thread : Email → Phase → Thread
thread e phase = record { email = e; phase = phase }

batch : List Thread → Store → Batch
batch ts s = record { threads = ts; store = s }

move_nth-append :
    (w : Worker) (at : ℕ) (room : Text → Bool) (pre : List Thread) (e : Email) (phase : Phase)
    (ts : List Thread) (s : Store)
    → move_nth w at room (length pre) (pre ++ thread e phase ∷ ts) s ≡ (
        let (phase', s') = move w at (room (rcpt_domain e)) e phase s in
        (pre ++ thread e phase' ∷ ts, s'))
unfolding move_nth thread
move_nth-append w at room [] e phase ts s = refl
move_nth-append w at room (t ∷ pre) e phase ts s =
    ap (λ (r : List Thread × Store). (t ∷ r.0, r.1)) (move_nth-append w at room pre e phase ts s)

advance-waiting :
    (w : Worker) (at : ℕ) (e : Email) (phase : Phase) (s : Store)
    → is_waiting phase ≡ false
    → is_waiting (advance w at e phase s).0 ≡ false
unfolding advance after_load after_call
advance-waiting w at e waiting s h = cc
advance-waiting w at e loading s h =
    of_load (get_domain e.domain_id s).0 (get_domain e.domain_id s).1
  where
    of_load : (r : Result Domain) (s : Store) → is_waiting (after_load (r, s)).0 ≡ false
    of_load (ok d) s = refl
    of_load (err error) s = refl
advance-waiting w at e (loaded d) s h = of_call (w.send e d)
  where
    of_call : (outcome : SendOutcome) → is_waiting (after_call outcome s).0 ≡ false
    of_call (returned res) = refl
    of_call (panicked value) = refl
advance-waiting w at e (answered res) s h = refl
advance-waiting w at e (recorded res) s h = refl
advance-waiting w at e (broken m) s h = refl
advance-waiting w at e (broken_recorded m) s h = refl
advance-waiting w at e leaving s h = refl
advance-waiting w at e finished s h = refl

pub move-advance :
    (w : Worker) (at : ℕ) (room : Bool) (e : Email) (phase : Phase) (s : Store)
    → is_waiting phase ≡ false
    → move w at room e phase s ≡ advance w at e phase s
unfolding move
move-advance w at room e waiting s h = cc
move-advance w at room e loading s h = refl
move-advance w at room e (loaded d) s h = refl
move-advance w at room e (answered res) s h = refl
move-advance w at room e (recorded res) s h = refl
move-advance w at room e (broken m) s h = refl
move-advance w at room e (broken_recorded m) s h = refl
move-advance w at room e leaving s h = refl
move-advance w at room e finished s h = refl

-- The same place, some times, before a schedule.
abbrev times : ℕ → ℕ → List ℕ → List ℕ
times zero i is = is
times (suc n) i is = i ∷ times n i is

-- The schedule that runs the goroutines in their order.
unfoldable pub sequential : ℕ → List Email → List ℕ
sequential i [] = []
sequential i (e ∷ es) = times 6 i (sequential (suc i) es)

holders-append :
    (domain : Text) (ts us : List Thread)
    → holders domain (ts ++ us) ≡ holders domain ts + holders domain us
holders-append domain [] us = omega arith
holders-append domain (t ∷ ts) us = ground (arith, holders-append domain ts us)

-- Goroutines that wait, and those that have ended, hold nothing.
holders-batch :
    (domain : Text) (pre : List Thread) (e : Email) (phase : Phase) (es : List Email)
    → is_holding phase ≡ false
    → holders domain pre ≡ 0
    → holders domain (pre ++ thread e phase ∷ map (λ e. thread e waiting) es) ≡ 0
unfolding thread
holders-batch domain pre e phase es h idle =
    holders-append domain pre _ ∙ rw (idle, h, start-holders es domain) refl

module _ (w : Worker) (at limit : ℕ) where
  step-move :
      (pre : List Thread) (e : Email) (phase : Phase) (ts : List Thread) (s : Store)
      → let (phase', s') =
          move w at (ltb (holders (rcpt_domain e) (pre ++ thread e phase ∷ ts)) limit) e phase s in
        step w at limit (length pre) (batch (pre ++ thread e phase ∷ ts) s)
        ≡ batch (pre ++ thread e phase' ∷ ts) s'
  unfolding step batch
  step-move pre e phase ts s =
      ap (λ (r : List Thread × Store). batch r.0 r.1)
        (move_nth-append w at (λ d. ltb (holders d (pre ++ thread e phase ∷ ts)) limit) pre e phase
          ts s)

  run-times :
      (n : ℕ) (is : List ℕ) (pre : List Thread) (e : Email) (phase : Phase) (ts : List Thread)
      (s : Store)
      → is_waiting phase ≡ false
      → let (phase', s') = iterate w at e n phase s in
        run w at limit (times n (length pre) is) (batch (pre ++ thread e phase ∷ ts) s)
        ≡ run w at limit is (batch (pre ++ thread e phase' ∷ ts) s')
  unfolding iterate run
  run-times zero is pre e phase ts s h = refl
  run-times (suc n) is pre e phase ts s h =
      let moved =
        move-advance w at (ltb (holders (rcpt_domain e) (pre ++ thread e phase ∷ ts)) limit) e phase
          s h in
      let stepped =
        step-move pre e phase ts s
        ∙ ap (λ (r : Phase × Store). batch (pre ++ thread e r.0 ∷ ts) r.1) moved in
      ap (run w at limit (times n (length pre) is)) stepped
      ∙ run-times n is pre e (advance w at e phase s).0 ts (advance w at e phase s).1
          (advance-waiting w at e phase s h)

  -- A goroutine that finds room runs to its end.
  run-process :
      (is : List ℕ) (pre : List Thread) (e : Email) (ts : List Thread) (s : Store)
      → holders (rcpt_domain e) (pre ++ thread e waiting ∷ ts) < limit
      → run w at limit (times 6 (length pre) is) (batch (pre ++ thread e waiting ∷ ts) s)
        ≡ run w at limit is (batch (pre ++ thread e finished ∷ ts) (process w e at s))
  unfolding run move
  run-process is pre e ts s h =
      let entered =
        step-move pre e waiting ts s
        ∙ ap (λ (room : Bool). batch (pre ++ thread e (if room then loading else waiting) ∷ ts) s)
            (room_of _ h) in
      ap (run w at limit (times 5 (length pre) is)) entered
      ∙ (run-times 5 is pre e loading ts s refl
          ∙ ap (λ (r : Phase × Store). run w at limit is (batch (pre ++ thread e r.0 ∷ ts) r.1))
              (loading-finished w at e s))
    where
      room_of : (n : ℕ) → n < limit → ltb n limit ≡ true
      room_of n h = ground (arith, h)

  in_turn :
      (es : List Email) (pre : List Thread) (s : Store)
      → 1 ≤ limit
      → ((d : Text) → holders d pre ≡ 0)
      → run w at limit
          (sequential (length pre) es)
          (batch (pre ++ map (λ e. thread e waiting) es) s)
        ≡ batch (pre ++ map (λ e. thread e finished) es) (process_all w at es s)
  unfolding run sequential process_all
  in_turn [] pre s some_room idle = refl
  in_turn (e ∷ es) pre s some_room idle =
      let waits = map (λ e. thread e waiting) es in
      let fins = map (λ e. thread e finished) es in
      let pre' = pre ++ thread e finished ∷ [] in
      let s' = process w e at s in
      let place : suc (length pre) ≡ length pre' =
        omega (arith, length-append pre (thread e finished ∷ [])) in
      let first = run-process (sequential (suc (length pre)) es) pre e waits s (
        omega (
          arith,
          some_room,
          holders-batch (rcpt_domain e) pre e waiting es refl (idle (rcpt_domain e)),
        )) in
      let rest =
        in_turn es pre' s' some_room (λ d. holders-batch d pre e finished [] refl (idle d)) in
      first
      ∙ (ap
            (λ (n : ℕ).
              run w at limit (sequential n es) (batch (pre ++ thread e finished ∷ waits) s'))
            place
          ∙ (ap (λ (ts : List Thread). run w at limit (sequential (length pre') es) (batch ts s'))
                (sym (append_assoc pre (thread e finished ∷ []) waits))
              ∙ (rest
                  ∙ ap (λ (ts : List Thread). batch ts (process_all w at es s'))
                      (append_assoc pre (thread e finished ∷ []) fins))))

-- If a semaphore has room for at least one, then the schedule that gives six turns to each
-- goroutine, in the order of the batch, ends them all, and leaves the store that processing the
-- emails one after the other leaves.
pub run-sequential :
    (w : Worker) (at limit : ℕ) (es : List Email) (s : Store)
    → 1 ≤ limit
    → run w at limit (sequential 0 es) (start es s) ≡ record {
      threads = map (λ e. record { email = e; phase = finished }) es;
      store = process_all w at es s;
    }
unfolding start thread batch
run-sequential w at limit es s some_room = in_turn w at limit es [] s some_room (λ d. refl)
