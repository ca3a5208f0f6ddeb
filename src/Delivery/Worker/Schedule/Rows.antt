-- ===== src/Delivery/Worker/Schedule/Rows.antt =====
-- What the marking of a claimed email does to each row of the table of emails.
use doevoe.Base.{
  ℕ, Text, ◌+◌, ◌≡◌, sym, ap, subst, ◌∙◌, inl, inr, true, List, [], ◌∷◌, arith, ◌==◌, ==_iff, All,
  Related, update, Bool-cases, refl,
}
use doevoe.Store.{Status, queued, sending, sent, failed, canceled, Email, fmt_time}
use doevoe.Store.Emails.{has_id, is_due, sent_row, retry_row, failed_row}
use doevoe.Delivery.Worker.Effect.{Processed, kept, was_sent, will_retry, has_failed}
use doevoe.Delivery.Worker.Invariant.{InFlight}

-- Where a row may stand that had `n` attempts and that a tick at `at` has claimed: it is still being sent, or its attempt is
-- counted.
abbrev pub Stands : Status → ℕ → ℕ → Email → Type 0
Stands sending at n y = (y.next_attempt_at ≡ at) × (y.attempts ≡ n)
Stands canceled at n y = ⊥
Stands _ at n y = y.attempts ≡ n + 1

-- The email `x` with what a delivery may change taken from `y`.
abbrev pub carried : Email → Email → Email
carried x y = record x {
  status = y.status;
  attempts = y.attempts;
  next_attempt_at = y.next_attempt_at;
  last_error = y.last_error;
  sent_at = y.sent_at;
}

-- What becomes of a row that RequeueStaleSending has passed.
pub data Touched (at : ℕ) (x y : Email) : Type 0 where
  untouched : y ≡ x → Touched at x y
  tried : is_due at x ≡ true → y ≡ carried x y → Stands y.status at x.attempts y → Touched at x y

abbrev pub Follows : ℕ → Email → Email → Type 0
Follows at x y = (y.id ≡ x.id) × Touched at x y

-- The rows with the id of a claimed email were due.
abbrev pub WasDue : ℕ → List Email → Email → Type 0
WasDue at rows e = All (λ (x : Email). x.id ≡ e.id → is_due at x ≡ true) rows

-- A marking of a claimed row that is still being sent.
record IsMark (f : Email → Email) : Type 0 where
  pub id : (y : Email) → (f y).id ≡ y.id
  pub rest : (x y : Email) → y ≡ carried x y → f y ≡ carried x (f y)
  pub stands :
      (at : ℕ) (x y : Email) → y.attempts ≡ x.attempts → Stands (f y).status at x.attempts (f y)

sent_row-IsMark : (at : ℕ) → IsMark (sent_row at)
unfolding sent_row
sent_row-IsMark at = record {
  id = λ y. refl;
  rest = λ x y same.
      ap
        (λ (e : Email). record e {
          status = sent;
          attempts = y.attempts + 1;
          sent_at = at;
          last_error = [];
        })
        same;
  stands = λ since x y same. ground (arith, same);
}

retry_row-IsMark : (next : ℕ) (message : Text) → IsMark (retry_row next message)
unfolding retry_row
retry_row-IsMark next message = record {
  id = λ y. refl;
  rest = λ x y same.
      ap
        (λ (e : Email). record e {
          status = queued;
          attempts = y.attempts + 1;
          next_attempt_at = next;
          last_error = message;
        })
        same;
  stands = λ since x y same. ground (arith, same);
}

failed_row-IsMark : (message : Text) → IsMark (failed_row message)
unfolding failed_row
failed_row-IsMark message = record {
  id = λ y. refl;
  rest = λ x y same.
      ap
        (λ (e : Email). record e {
          status = failed;
          attempts = y.attempts + 1;
          last_error = message;
        })
        same;
  stands = λ since x y same. ground (arith, same);
}

module _ (at : ℕ) where
  -- A row that is being sent, of a claimed email, is marked.
  Touched-mark :
      (f : Email → Email)
      → IsMark f
      → (x y : Email) → is_due at x ≡ true
      → y.status ≡ sending
      → Touched at x y
      → Touched at x (f y)
  unfolding is_due
  Touched-mark f m x y due now_sending (untouched same) =
      absurd (ground (arith, ap (λ (e : Email). e.status) same))
  Touched-mark f m x y due now_sending (tried due' same stands) =
      let counted = subst (λ s. Stands s at x.attempts y) now_sending stands in
      tried due (m.rest x y same) (m.stands at x y counted.1)

  Follows-mark :
      (e : Email) (f : Email → Email)
      → IsMark f
      → (xs ys : List Email) → WasDue at xs e
      → InFlight ys e
      → Related (Follows at) xs ys
      → Related (Follows at) xs (update (has_id e.id) f ys)
  Follows-mark e f m [] [] due flight h = tt
  Follows-mark e f m [] (y ∷ ys) due flight h = absurd h
  Follows-mark e f m (x ∷ xs) [] due flight h = absurd h
  Follows-mark e f m (x ∷ xs) (y ∷ ys) due flight ((same, touched), h) = (
    elim (Bool-cases (y.id == e.id)) [
      | inr foreign ↦ rw foreign (same, touched)
      | inl own ↦
          let mine = (==_iff y.id e.id).0 own in
          rw own (
            m.id y ∙ same,
            Touched-mark f m x y (due.0 (sym same ∙ mine)) (flight.0 mine).0 touched,
          )
    ],
    Follows-mark e f m xs ys due.1 flight.1 h,
  )

  pub Follows-Processed :
      (e : Email) (since : ℕ) (xs ys after : List Email)
      → WasDue at xs e
      → InFlight ys e
      → Related (Follows at) xs ys
      → Processed e since ys after
      → Related (Follows at) xs after
  Follows-Processed e since xs ys after due flight h (kept eq) =
      subst (Related (Follows at) xs) (sym eq) h
  Follows-Processed e since xs ys after due flight h (was_sent sent_at eq) =
      subst (Related (Follows at) xs) (sym eq)
        (Follows-mark e _ (sent_row-IsMark (fmt_time sent_at)) xs ys due flight h)
  Follows-Processed e since xs ys after due flight h (will_retry next message more eq) =
      subst (Related (Follows at) xs) (sym eq)
        (Follows-mark e _ (retry_row-IsMark (fmt_time next) message) xs ys due flight h)
  Follows-Processed e since xs ys after due flight h (has_failed message eq) =
      subst (Related (Follows at) xs) (sym eq)
        (Follows-mark e _ (failed_row-IsMark message) xs ys due flight h)
