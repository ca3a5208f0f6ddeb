-- ===== src/System/Live/Growth.antt =====
-- How the rows of the table of emails may change: the life of an email.
use doevoe.Base.{
  ℕ, ◌≡◌, refl, sym, ap, ◌∙◌, subst, ◌≤◌, arith, Text, Bool, true, List, [], ◌∷◌, ◌++◌, All,
  All-map, update, Bool-cases, inl, inr, IsIn, ==_iff,
}
use doevoe.Store.{Status, queued, sending, sent, failed, canceled, Email, fmt_time}
use doevoe.Store.Emails.{
  next_id, has_id, is_due, is_stale, is_requeueable, claimed_row, sent_row, retry_row, failed_row,
}
use doevoe.Store.Operator.{
  is_cancelable_row, canceled_row, is_requeueable_row, requeued_row, readdressed_row,
  requeue_change,
}
use doevoe.Delivery.Worker.Effect.{Processed, kept, was_sent, will_retry, has_failed}
use doevoe.Delivery.Worker.Invariant.{InFlight}

-- A row's status may change so, and in no other way.
pub data Edge : Status → Status → Type 0 where
  claimed : Edge queued sending
  delivered : Edge sending sent
  rejected : Edge sending failed
  put_back : Edge sending queued
  withdrawn : Edge queued canceled
  renewed : Edge queued queued
  repeated : Edge failed queued
  revived : Edge canceled queued

-- The email `x` with what a delivery or the operator may change taken from `y`.
abbrev pub progressed : Email → Email → Email
progressed x y = record x {
  to = y.to;
  to_name = y.to_name;
  original_to = y.original_to;
  status = y.status;
  attempts = y.attempts;
  next_attempt_at = y.next_attempt_at;
  last_error = y.last_error;
  sent_at = y.sent_at;
}

-- What becomes of a row: it stays, or it takes an edge of its life with the rest as it was.
pub data RowMove (x : Email) : Email → Type 0 where
  stays : RowMove x x
  goes : {y : Email} → Edge x.status y.status → y ≡ progressed x y → RowMove x y

-- Each row in its place, and the new rows, which are queued, behind them.
abbrev pub Grown : List Email → List Email → Type 0
Grown [] ys = All (λ (y : Email). y.status ≡ queued) ys
Grown (x ∷ xs) [] = ⊥
Grown (x ∷ xs) (y ∷ ys) = RowMove x y × Grown xs ys

pub Grown-refl : (xs : List Email) → Grown xs xs
Grown-refl [] = tt
Grown-refl (x ∷ xs) = (stays, Grown-refl xs)

pub Grown-same : {xs ys : List Email} → ys ≡ xs → Grown xs ys
Grown-same {xs} same = subst (Grown xs) (sym same) (Grown-refl xs)

pub Grown-append : (xs : List Email) (y : Email) → y.status ≡ queued → Grown xs (xs ++ y ∷ [])
Grown-append [] y h = (h, tt)
Grown-append (x ∷ xs) y h = (stays, Grown-append xs y h)

pub Grown-update :
    (p : Email → Bool) (f : Email → Email) (xs : List Email)
    → All (λ x. p x ≡ true → RowMove x (f x)) xs
    → Grown xs (update p f xs)
Grown-update p f [] h = tt
Grown-update p f (x ∷ xs) h = (
  elim (Bool-cases (p x)) [ inl met ↦ rw met (h.0 met) | inr missed ↦ rw missed stays ],
  Grown-update p f xs h.1,
)

-- A row keeps its id, so the next id does not fall.
pub RowMove-id : (x y : Email) → RowMove x y → y.id ≡ x.id
RowMove-id x _ stays = refl
RowMove-id x y (goes edge same) = ap (λ (e : Email). e.id) same

pub Grown-next_id :
    (xs ys : List Email)
    → Grown xs ys
    → next_id (λ (e : Email). e.id) xs ≤ next_id (λ (e : Email). e.id) ys
unfolding next_id
Grown-next_id [] [] h = omega arith
Grown-next_id [] (y ∷ ys) h = ground (arith, Grown-next_id [] ys h.1)
Grown-next_id (x ∷ xs) [] h = absurd h
Grown-next_id (x ∷ xs) (y ∷ ys) h = ground (arith, RowMove-id x y h.0, Grown-next_id xs ys h.1)

-- A sent email has no edge.
RowMove-sent : (x y : Email) → RowMove x y → x.status ≡ sent → y ≡ x
RowMove-sent x _ stays h = refl
RowMove-sent x y (goes edge same) h = absurd (ended x.status y.status edge h)
  where
    ended : (s t : Status) → Edge s t → s ≡ sent → ⊥
    ended _ _ claimed h = cc
    ended _ _ delivered h = cc
    ended _ _ rejected h = cc
    ended _ _ put_back h = cc
    ended _ _ withdrawn h = cc
    ended _ _ renewed h = cc
    ended _ _ repeated h = cc
    ended _ _ revived h = cc

pub Grown-sent :
    (xs ys : List Email) (e : Email) → Grown xs ys → e.status ≡ sent → IsIn e xs → IsIn e ys
Grown-sent [] ys e g h i = absurd (i refl)
Grown-sent (x ∷ xs) [] e g h i = absurd g
Grown-sent (x ∷ xs) (y ∷ ys) e g h (inl same) =
    inl (same ∙ sym (RowMove-sent x y g.0 (ap (λ (e : Email). e.status) (sym same) ∙ h)))
Grown-sent (x ∷ xs) (y ∷ ys) e g h (inr later) = inr (Grown-sent xs ys e g.1 h later)

-- The changes of the statements are such moves.
from_status :
    (x y : Email) (s : Status) → x.status ≡ s → Edge s y.status → y ≡ progressed x y → RowMove x y
from_status x y s h edge same = goes (subst (λ t. Edge t y.status) (sym h) edge) same

pub claimed_row-RowMove : (at : ℕ) (x : Email) → is_due at x ≡ true → RowMove x (claimed_row at x)
unfolding claimed_row is_due
claimed_row-RowMove at x due = from_status x _ queued (ground arith) claimed refl

pub stale-RowMove :
    (older_than : ℕ) (x : Email)
    → is_stale older_than x ≡ true
    → RowMove x (record x { status = queued })
unfolding is_stale
stale-RowMove older_than x stale = from_status x _ sending (ground arith) put_back refl

pub canceled_row-RowMove :
    (id : ℕ) (x : Email) → is_cancelable_row id x ≡ true → RowMove x (canceled_row x)
unfolding is_cancelable_row canceled_row
canceled_row-RowMove id x met = from_status x _ queued (ground arith) withdrawn refl

requeueable-Edge : (s : Status) → is_requeueable s ≡ true → Edge s queued
requeueable-Edge queued h = renewed
requeueable-Edge sending h = cc
requeueable-Edge sent h = cc
requeueable-Edge failed h = repeated
requeueable-Edge canceled h = revived

pub requeue_change-RowMove :
    (id : ℕ) (new_to name : Text) (at : ℕ) (x : Email)
    → is_requeueable_row id x ≡ true
    → RowMove x (requeue_change new_to name at x)
unfolding is_requeueable_row requeue_change requeued_row readdressed_row
requeue_change-RowMove id [] name at x met = goes (requeueable-Edge x.status (ground arith)) refl
requeue_change-RowMove id (c ∷ cs) name at x met =
    goes (requeueable-Edge x.status (ground arith)) refl

-- A change of the rows of an email in flight.
flight-Grown :
    (e : Email) (f : Email → Email) (rows : List Email)
    → ((x : Email) → x.status ≡ sending → RowMove x (f x))
    → InFlight rows e
    → Grown rows (update (has_id e.id) f rows)
flight-Grown e f rows edge flight =
    Grown-update (has_id e.id) f rows
      (All-map _ _ (λ x own met. edge x (own ((==_iff x.id e.id).0 met)).0) rows flight)

-- The marking of an email in flight.
pub Processed-Grown :
    (e : Email) (at : ℕ) (rows after : List Email)
    → InFlight rows e
    → Processed e at rows after
    → Grown rows after
Processed-Grown e at rows after flight (kept same) = Grown-same same
Processed-Grown e at rows after flight (was_sent sent_at eq) = subst (Grown rows) (sym eq) (
    flight-Grown e (sent_row (fmt_time sent_at)) rows
      (λ x s. unfold sent_row in from_status x _ sending s delivered refl) flight)
Processed-Grown e at rows after flight (will_retry next message more eq) =
    subst (Grown rows) (sym eq) (
      flight-Grown e (retry_row (fmt_time next) message) rows
        (λ x s. unfold retry_row in from_status x _ sending s put_back refl) flight)
Processed-Grown e at rows after flight (has_failed message eq) = subst (Grown rows) (sym eq) (
    flight-Grown e (failed_row message) rows
      (λ x s. unfold failed_row in from_status x _ sending s rejected refl) flight)
