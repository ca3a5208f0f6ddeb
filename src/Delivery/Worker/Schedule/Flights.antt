-- ===== src/Delivery/Worker/Schedule/Flights.antt =====
-- One step of a goroutine keeps the table of emails valid and the emails of the goroutines in flight.
use doevoe.Base.{
  ℕ, zero, suc, ◌/◌, ◌≡◌, ◌≢◌, ◌⊎◌, refl, sym, subst, Text, Bool, true, false, List, [], ◌∷◌, arith,
  map, inl, inr, All, All-map, All-zip, Pairwise,
}
use doevoe.Store.{Email, Domain, Store, Result, ok, err}
use doevoe.Store.Emails.Invariant.{InOrder, IsTable}
use doevoe.Store.Domains.{get_domain}
use doevoe.Delivery.Worker.{Worker, SendOutcome, returned, panicked, millisecond}
use doevoe.Delivery.Worker.Effect.{
  KeepsEmails, Processed, record_attempt_of-emails, get_domain-emails, after_send-Processed,
  retry_or_fail-Processed,
}
use doevoe.Delivery.Worker.Invariant.{InFlight, Processed-IsTable, Processed-InFlight}
use doevoe.Delivery.Worker.Schedule.{
  Phase, waiting, loading, loaded, answered, recorded, broken, broken_recorded, leaving, finished,
  Thread, rcpt_domain, after_load, after_call, advance, move, move_nth,
}

-- The row of the email is still to be marked.
abbrev pub is_unmarked : Phase → Bool
is_unmarked leaving = false
is_unmarked finished = false
is_unmarked _ = true

-- What a step does to the table: nothing, or the one marking of its email.
abbrev pub Marks : Email → ℕ → Phase → Phase → List Email → List Email → Type 0
Marks e at phase phase' rows rows' =
    ((rows' ≡ rows) × (is_unmarked phase ≡ false → is_unmarked phase' ≡ false))
    ⊎ ((is_unmarked phase ≡ true) × (is_unmarked phase' ≡ false) × Processed e at rows rows')

-- The email of a goroutine is in flight until it is marked.
abbrev pub Flies : List Email → Thread → Type 0
Flies rows t = is_unmarked t.phase ≡ true → InFlight rows t.email

abbrev pub Other : Email → Thread → Type 0
Other e t = t.email.id ≢ e.id

abbrev pub Distinct : Thread → Thread → Type 0
Distinct t u = Other t.email u

-- One step keeps the table, and the emails of the goroutines in flight.
pub record Kept (ts ts' : List Thread) (rows rows' : List Email) : Type 0 where
  pub table : IsTable rows'
  pub flights : All (Flies rows') ts'
  pub elsewhere : (e : Email) → All (Other e) ts → InFlight rows e → InFlight rows' e
  pub others : (e : Email) → All (Other e) ts → All (Other e) ts'
  pub distinct : Pairwise Distinct ts'

-- The step of the first goroutine, which is another phase of it.
first-Kept :
    (at : ℕ) (t : Thread) (phase : Phase) (ts : List Thread) (rows rows' : List Email)
    → IsTable rows
    → All (Flies rows) (t ∷ ts)
    → Pairwise Distinct (t ∷ ts)
    → Marks t.email at t.phase phase rows rows'
    → Kept (t ∷ ts) (record t { phase = phase } ∷ ts) rows rows'
first-Kept at t phase ts rows rows' h flight far (inl (same, as_before)) = record {
  table = subst IsTable (sym same) h;
  flights = (
    λ unmarked.
        subst (λ l. InFlight l t.email) (sym same)
          (flight.0 (still t.phase phase as_before unmarked)),
    subst (λ l. All (Flies l) ts) (sym same) flight.1,
  );
  elsewhere = λ e all fl. subst (λ l. InFlight l e) (sym same) fl;
  others = λ e all. all;
  distinct = far;
}
  where
    still :
        (phase phase' : Phase)
        → (is_unmarked phase ≡ false → is_unmarked phase' ≡ false)
        → is_unmarked phase' ≡ true
        → is_unmarked phase ≡ true
    still phase phase' as_before unmarked = ground (arith, as_before, unmarked)
first-Kept at t phase ts rows rows' h flight far (inr (unmarked, marked, done)) = record {
  table = Processed-IsTable t.email rows (flight.0 unmarked) h at rows' done;
  flights = (
    λ again. absurd (clash (is_unmarked phase) marked again),
    All-map (λ u. Other t.email u × Flies rows u) (Flies rows')
        (λ u both open_yet.
          Processed-InFlight t.email at rows rows' u.email (λ same. both.0 (sym same))
            (both.1 open_yet) done)
        ts (All-zip (Other t.email) (Flies rows) ts far.0 flight.1),
  );
  elsewhere = λ e all fl. Processed-InFlight t.email at rows rows' e all.0 fl done;
  others = λ e all. all;
  distinct = far;
}
  where
    clash : (b : Bool) → b ≡ false → b ≡ true → ⊥
    clash b low high = cc

module _ (w : Worker) (hook : KeepsEmails w.on_permanent_failure) (at : ℕ) where
  advance-Marks :
      (e : Email) (phase : Phase) (s : Store)
      → let (phase', s') = advance w at e phase s in Marks e at phase phase' s.emails s'.emails
  unfolding advance after_load after_call
  advance-Marks e waiting s = inl (refl, λ h. h)
  advance-Marks e finished s = inl (refl, λ h. h)
  advance-Marks e loading s =
      of_load (get_domain e.domain_id s).0 (get_domain e.domain_id s).1
        (get_domain-emails e.domain_id s)
    where
      of_load :
          (r : Result Domain) (s' : Store)
          → s'.emails ≡ s.emails
          → let (phase', s'') = after_load (r, s') in Marks e at loading phase' s.emails s''.emails
      of_load (ok d) s' same = inl (same, λ h. cc)
      of_load (err error) s' same = inl (same, λ h. cc)
  advance-Marks e (loaded d) s = of_call (w.send e d)
    where
      of_call :
          (outcome : SendOutcome)
          → let (phase', s') = after_call outcome s in
            Marks e at (loaded d) phase' s.emails s'.emails
      of_call (returned res) = inl (refl, λ h. cc)
      of_call (panicked value) = inl (refl, λ h. cc)
  advance-Marks e (answered res) s = inl (
    record_attempt_of-emails e res.code res.mx_host res.response (res.duration / millisecond) s,
    λ h. cc,
  )
  advance-Marks e (recorded res) s = inr (refl, refl, after_send-Processed w hook e at res.error s)
  advance-Marks e (broken m) s = inl (record_attempt_of-emails e 0 [] m 0 s, λ h. cc)
  advance-Marks e (broken_recorded m) s = inr (refl, refl, retry_or_fail-Processed w hook e at m s)
  advance-Marks e leaving s = inl (refl, λ h. refl)

  pub move-Marks :
      (room : Bool) (e : Email) (phase : Phase) (s : Store)
      → let (phase', s') = move w at room e phase s in Marks e at phase phase' s.emails s'.emails
  unfolding move
  move-Marks room e waiting s = inl (refl, λ h. cc)
  move-Marks room e finished s = advance-Marks e finished s
  move-Marks room e loading s = advance-Marks e loading s
  move-Marks room e (loaded d) s = advance-Marks e (loaded d) s
  move-Marks room e (answered res) s = advance-Marks e (answered res) s
  move-Marks room e (recorded res) s = advance-Marks e (recorded res) s
  move-Marks room e (broken m) s = advance-Marks e (broken m) s
  move-Marks room e (broken_recorded m) s = advance-Marks e (broken_recorded m) s
  move-Marks room e leaving s = advance-Marks e leaving s

  pub move_nth-Kept :
      (room : Text → Bool) (i : ℕ) (ts : List Thread) (s : Store)
      → IsTable s.emails
      → All (Flies s.emails) ts
      → Pairwise Distinct ts
      → let (ts', s') = move_nth w at room i ts s in Kept ts ts' s.emails s'.emails
  unfolding move_nth
  move_nth-Kept room i [] s h flight far = record {
    table = h;
    flights = tt;
    elsewhere = λ e all fl. fl;
    others = λ e all. all;
    distinct = tt;
  }
  move_nth-Kept room zero (t ∷ ts) s h flight far =
      let (phase, s') = move w at (room (rcpt_domain t.email)) t.email t.phase s in
      first-Kept at t phase ts s.emails s'.emails h flight far
        (move-Marks (room (rcpt_domain t.email)) t.email t.phase s)
  move_nth-Kept room (suc i) (t ∷ ts) s h flight far =
      let k = move_nth-Kept room i ts s h flight.1 far.1 in
      record {
        table = k.table;
        flights = (λ unmarked. k.elsewhere t.email far.0 (flight.0 unmarked), k.flights);
        elsewhere = λ e all fl. k.elsewhere e all.1 fl;
        others = λ e all. (all.0, k.others e all.1);
        distinct = (k.others t.email far.0, k.distinct);
      }

pub start-Flies :
    (rows : List Email) (es : List Email)
    → All (InFlight rows) es
    → All (Flies rows) (map (λ (e : Email). record { email = e; phase = waiting }) es)
start-Flies rows [] h = tt
start-Flies rows (e ∷ es) h = (λ unmarked. h.0, start-Flies rows es h.1)

pub start-Distinct :
    (es : List Email)
    → Pairwise InOrder es
    → Pairwise Distinct (map (λ (e : Email). record { email = e; phase = waiting }) es)
start-Distinct [] h = tt
start-Distinct (e ∷ es) h = (apart es h.0, start-Distinct es h.1)
  where
    apart :
        (es : List Email)
        → All (InOrder e) es
        → All (Other e) (map (λ (e : Email). record { email = e; phase = waiting }) es)
    apart [] h = tt
    apart (x ∷ xs) h = (λ same. absurd (omega (arith, h.0.grows, same)), apart xs h.1)
