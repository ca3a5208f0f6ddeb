-- ===== src/System/Live/Invariant.antt =====
-- What holds between any two steps of the program, and that each step is a move of the rows.
use doevoe.Base.{
  ℕ, ◌<◌, ◌-◌, ◌==◌, ◌≡◌, refl, sym, subst, Text, Bool, true, false, List, [], ◌∷◌, arith, map, inl,
  inr, ltb, All, All-map, All-zip, All-select, Pairwise, if◌then◌else◌, select, zero, suc,
}
use doevoe.Store.{queued, Email, Store, Result, ok, err, fmt_time}
use doevoe.Store.Emails.{
  next_id, claimed_row, claim_due, requeue_stale_sending, update_emails, is_stale,
}
use doevoe.Store.Emails.Invariant.{IsTable, next_id-lt, All-any}
use doevoe.Store.Emails.Preserved.{
  enqueue_email-IsTable, claim_due-IsTable, requeue_stale_sending-IsTable, exec-keeps,
}
use doevoe.Store.Emails.Claim.Contract.{Claimed, claim_due-Claimed}
use doevoe.Store.Operator.Preserved.{cancel_email-IsTable, requeue_email-IsTable}
use doevoe.Delivery.Worker.{Worker, stale_sending_window}
use doevoe.Delivery.Worker.Effect.{KeepsEmails}
use doevoe.Delivery.Worker.Invariant.{claimed_order, claimed_flight}
use doevoe.Delivery.Worker.Schedule.{
  Phase, waiting, loading, loaded, answered, recorded, broken, broken_recorded, leaving, finished,
  Thread, Batch, rcpt_domain, holders, move, move_nth, step, start, limit_of,
}
use doevoe.Delivery.Worker.Schedule.Flights.{
  is_unmarked, Marks, move-Marks, Flies, Distinct, move_nth-Kept, start-Flies, start-Distinct,
}
use doevoe.System.Live.{
  is_finished, Ended, start_claimed, claim_batch, Move, elsewhere, enqueue, requeue_stale, claim,
  go, cancel, retry,
}
use doevoe.System.Live.Growth.{
  Grown, Grown-refl, Grown-same, Grown-update, Grown-next_id, claimed_row-RowMove, stale-RowMove,
  Processed-Grown,
}
use doevoe.System.Live.Quiet.{
  Quiet, Quiet-same, cancel_email-Quiet, requeue_email-Quiet, enqueue_email-Quiet,
}

-- The id of a goroutine's email has been given to a row, and will not be given again.
abbrev pub Known : List Email → Thread → Type 0
Known rows t = t.email.id < next_id (λ (r : Email). r.id) rows

-- The table is valid, the email of a goroutine is in flight until it is marked, no two goroutines
-- have the same email, and their ids are known.
pub record Sound (b : Batch) : Type 0 where
  pub table : IsTable b.store.emails
  pub flights : All (Flies b.store.emails) b.threads
  pub distinct : Pairwise Distinct b.threads
  pub known : All (Known b.store.emails) b.threads

-- A step keeps this, and its rows move along their life.
pub record Sure (b c : Batch) : Type 0 where
  pub sound : Sound c
  pub grown : Grown b.store.emails c.store.emails

Known-Grown :
    (xs ys : List Email) → Grown xs ys → (ts : List Thread) → All (Known xs) ts → All (Known ys) ts
Known-Grown xs ys g ts h =
    All-map (Known xs) (Known ys) (λ t k. omega (arith, k, Grown-next_id xs ys g)) ts h

Quiet-Sure :
    (b : Batch) (s : Store)
    → Sound b
    → IsTable s.emails
    → Quiet b.store.emails s.emails
    → Sure b (record b { store = s })
Quiet-Sure b s h table q = record {
  sound = record {
    table = table;
    flights =
        All-map (λ t. Known b.store.emails t × Flies b.store.emails t) (Flies s.emails)
          (λ t both unmarked. q.flying t.email both.0 (both.1 unmarked)) b.threads
          (All-zip (Known b.store.emails) (Flies b.store.emails) b.threads h.known h.flights);
    distinct = h.distinct;
    known = Known-Grown b.store.emails s.emails q.grown b.threads h.known;
  };
  grown = q.grown;
}

ended-unmarked : (phase : Phase) → is_finished phase ≡ true → is_unmarked phase ≡ false
ended-unmarked waiting h = cc
ended-unmarked loading h = cc
ended-unmarked (loaded d) h = cc
ended-unmarked (answered r) h = cc
ended-unmarked (recorded r) h = cc
ended-unmarked (broken m) h = cc
ended-unmarked (broken_recorded m) h = cc
ended-unmarked leaving h = cc
ended-unmarked finished h = refl

-- Where the goroutines have ended, none of their emails is in flight any more.
Ended-Flies : (rows : List Email) (ts : List Thread) → Ended ts → All (Flies rows) ts
Ended-Flies rows [] h = tt
Ended-Flies rows (t ∷ ts) h = (
  λ unmarked. absurd (clash (is_unmarked t.phase) (ended-unmarked t.phase h.0) unmarked),
  Ended-Flies rows ts h.1,
)
  where
    clash : (b : Bool) → b ≡ false → b ≡ true → ⊥
    clash b low high = cc

stale-Grown :
    (older_than : ℕ) (s : Store) → Grown s.emails (requeue_stale_sending older_than s).1.emails
unfolding requeue_stale_sending update_emails
stale-Grown older_than s =
    exec-keeps (Grown s.emails)
      (update_emails (is_stale older_than) (λ e. record e { status = queued })) s
      (Grown-update (is_stale older_than) (λ e. record e { status = queued }) s.emails
        (All-any _ (stale-RowMove older_than) s.emails))
      (Grown-refl s.emails)

-- The batch that a tick claims.
start-Known :
    (rows es : List Email)
    → All (λ (e : Email). e.id < next_id (λ (r : Email). r.id) rows) es
    → All (Known rows) (map (λ (e : Email). record { email = e; phase = waiting }) es)
start-Known rows [] h = tt
start-Known rows (e ∷ es) h = (h.0, start-Known rows es h.1)

claim-Sure :
    (limit since : ℕ) (b : Batch) (r : Result (List Email)) (s : Store)
    → IsTable s.emails
    → Claimed limit since b.store.emails r s.emails
    → Sure b (start_claimed (r, s))
unfolding start
claim-Sure limit since b (err e) s h c = record {
  sound = record { table = h; flights = tt; distinct = tt; known = tt };
  grown = Grown-same c;
}
claim-Sure limit since b (ok claimed) s h c = record {
  sound = record {
    table = h;
    flights =
        start-Flies s.emails claimed (claimed_flight limit since b.store.emails claimed s h c);
    distinct = start-Distinct claimed (claimed_order limit since b.store.emails claimed s h c);
    known = start-Known s.emails claimed (
        subst (All _) (sym c.returned) (
          All-map _ _ (λ e both. both.0) (select c.chosen s.emails)
            (All-select _ c.chosen s.emails (next_id-lt s.emails))));
  };
  grown = subst (Grown b.store.emails) (sym c.rows) (
      Grown-update c.chosen (claimed_row since) b.store.emails (
        All-map _ _ (λ e due met. claimed_row-RowMove since e (due met)) b.store.emails c.was_due));
}

-- The step of a goroutine.
module _ (w : Worker) (hook : KeepsEmails w.on_permanent_failure) (at : ℕ) where
  Marks-Grown :
      (t : Thread) (phase : Phase) (rows rows' : List Email)
      → Flies rows t
      → Marks t.email at t.phase phase rows rows'
      → Grown rows rows'
  Marks-Grown t phase rows rows' flight (inl (same, as_before)) = Grown-same same
  Marks-Grown t phase rows rows' flight (inr (unmarked, marked, done)) =
      Processed-Grown t.email at rows rows' (flight unmarked) done

  move_nth-Grown :
      (room : Text → Bool) (i : ℕ) (ts : List Thread) (s : Store)
      → All (Flies s.emails) ts
      → Grown s.emails (move_nth w at room i ts s).1.emails
  unfolding move_nth
  move_nth-Grown room i [] s flight = Grown-refl s.emails
  move_nth-Grown room zero (t ∷ ts) s flight =
      let (phase, s') = move w at (room (rcpt_domain t.email)) t.email t.phase s in
      Marks-Grown t phase s.emails s'.emails flight.0
        (move-Marks w hook at (room (rcpt_domain t.email)) t.email t.phase s)
  move_nth-Grown room (suc i) (t ∷ ts) s flight = move_nth-Grown room i ts s flight.1

  move_nth-Known :
      (rows : List Email) (room : Text → Bool) (i : ℕ) (ts : List Thread) (s : Store)
      → All (Known rows) ts
      → All (Known rows) (move_nth w at room i ts s).0
  unfolding move_nth
  move_nth-Known rows room i [] s known = tt
  move_nth-Known rows room zero (t ∷ ts) s known = known
  move_nth-Known rows room (suc i) (t ∷ ts) s known =
      (known.0, move_nth-Known rows room i ts s known.1)

  step-Sure : (limit i : ℕ) (b : Batch) → Sound b → Sure b (step w at limit i b)
  unfolding step
  step-Sure limit i b h =
      let room = λ (domain : Text). ltb (holders domain b.threads) limit in
      let k = move_nth-Kept w hook at room i b.threads b.store h.table h.flights h.distinct in
      let g = move_nth-Grown room i b.threads b.store h.flights in
      record {
        sound = record {
          table = k.table;
          flights = k.flights;
          distinct = k.distinct;
          known =
              Known-Grown _ _ g _ (move_nth-Known b.store.emails room i b.threads b.store h.known);
        };
        grown = g;
      }

-- Every step.
module _ (w : Worker) (limit : ℕ) (hook : KeepsEmails w.on_permanent_failure) where
  pub Move-Sure : {b c : Batch} → Move w limit b c → Sound b → Sure b c
  unfolding claim_batch
  Move-Sure (elsewhere {b = b} {s = s} same) h =
      Quiet-Sure b s h (subst IsTable (sym same) h.table) (Quiet-same same)
  Move-Sure (enqueue {b = b} e) h =
      Quiet-Sure b _ h (enqueue_email-IsTable e b.store h.table) (enqueue_email-Quiet e b.store)
  Move-Sure (requeue_stale {b = b} at ended) h =
      let g = stale-Grown (fmt_time (at - stale_sending_window)) b.store in
      record {
        sound = record {
          table =
              requeue_stale_sending-IsTable (fmt_time (at - stale_sending_window)) b.store h.table;
          flights = Ended-Flies _ b.threads ended;
          distinct = h.distinct;
          known = Known-Grown _ _ g b.threads h.known;
        };
        grown = g;
      }
  Move-Sure (claim {b = b} at ended) h =
      let batch = if w.batch_size == 0 then 10 else w.batch_size in
      let (r, s) = claim_due batch (fmt_time at) b.store in
      claim-Sure batch (fmt_time at) b r s (claim_due-IsTable batch (fmt_time at) b.store h.table)
        (claim_due-Claimed batch (fmt_time at) b.store h.table)
  Move-Sure (go {b = b} at i) h = step-Sure w hook at (limit_of limit) i b h
  Move-Sure (cancel {b = b} id) h =
      Quiet-Sure b _ h (cancel_email-IsTable id b.store h.table) (cancel_email-Quiet id b.store)
  Move-Sure (retry {b = b} id new_to name) h =
      Quiet-Sure b _ h (requeue_email-IsTable id new_to name b.store h.table)
        (requeue_email-Quiet id new_to name b.store)
