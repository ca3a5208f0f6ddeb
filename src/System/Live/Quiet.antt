-- ===== src/System/Live/Quiet.antt =====
-- The statements that do not belong to the worker move rows along their life, and leave the emails
-- in flight alone.
use doevoe.Base.{
  ℕ, ◌<◌, ◌≡◌, ◌∙◌, ◌≢◌, refl, sym, subst, Text, Bool, true, List, [], ◌∷◌, arith, inl, inr,
  All-append, update, set_if, Bool-cases,
}
use doevoe.Store.{sending, Email, Db, Store, exec, now}
use doevoe.Store.Emails.{
  next_id, insert_email, may_insert, enqueue_email, update_emails, inserted_row, with_defaults,
}
use doevoe.Store.Emails.Invariant.{All-any}
use doevoe.Store.Emails.Preserved.{exec-keeps}
use doevoe.Store.Operator.{
  is_cancelable_row, canceled_row, cancel_email, is_requeueable_row, requeue_change, requeue_email,
}
use doevoe.Delivery.Worker.Invariant.{InFlight}
use doevoe.System.Live.Growth.{
  Grown, Grown-same, Grown-append, Grown-update, RowMove, RowMove-id, canceled_row-RowMove,
  requeue_change-RowMove,
}

-- What such a statement does: an email with a known id that is in flight stays in flight.
pub record Quiet (rows rows' : List Email) : Type 0 where
  pub grown : Grown rows rows'
  pub flying :
      (e : Email) → e.id < next_id (λ (r : Email). r.id) rows → InFlight rows e → InFlight rows' e

pub Quiet-same : {rows rows' : List Email} → rows' ≡ rows → Quiet rows rows'
Quiet-same {rows} same = record {
  grown = Grown-same same;
  flying = λ e known fl. subst (λ l. InFlight l e) (sym same) fl;
}

-- An update of rows that are not being sent.
Quiet-update :
    (p : Email → Bool) (f : Email → Email)
    → ((x : Email) → p x ≡ true → RowMove x (f x))
    → ((x : Email) → p x ≡ true → x.status ≢ sending)
    → (rows : List Email) → Quiet rows (update p f rows)
Quiet-update p f moves idle rows = record {
  grown = Grown-update p f rows (All-any _ moves rows);
  flying = λ e known fl. flies e rows fl;
}
  where
    one :
        (e x : Email)
        → (x.id ≡ e.id → (x.status ≡ sending) × (x.attempts ≡ e.attempts))
        → (set_if p f x).id ≡ e.id
        → ((set_if p f x).status ≡ sending) × ((set_if p f x).attempts ≡ e.attempts)
    one e x fl same = elim (Bool-cases (p x)) [
      | inl met ↦
          absurd (idle x met (fl (sym (RowMove-id x (f x) (moves x met)) ∙ (rw met at same))).0)
      | inr missed ↦ rw missed (fl (rw missed at same))
    ]

    flies : (e : Email) (rows : List Email) → InFlight rows e → InFlight (update p f rows) e
    flies e [] fl = tt
    flies e (x ∷ xs) fl = (one e x fl.0, flies e xs fl.1)

update_emails-Quiet :
    (p : Email → Bool) (f : Email → Email) (s : Store)
    → ((x : Email) → p x ≡ true → RowMove x (f x))
    → ((x : Email) → p x ≡ true → x.status ≢ sending)
    → Quiet s.emails (exec (update_emails p f) s).1.emails
unfolding update_emails
update_emails-Quiet p f s moves idle =
    exec-keeps (Quiet s.emails) (update_emails p f) s (Quiet-update p f moves idle s.emails)
      (Quiet-same refl)

pub cancel_email-Quiet : (id : ℕ) (s : Store) → Quiet s.emails (cancel_email id s).1.emails
unfolding cancel_email
cancel_email-Quiet id s =
    update_emails-Quiet (is_cancelable_row id) canceled_row s (canceled_row-RowMove id)
      (λ x met now_sending. unfold is_cancelable_row in ground (arith, met, now_sending))

pub requeue_email-Quiet :
    (id : ℕ) (new_to name : Text) (s : Store)
    → Quiet s.emails (requeue_email id new_to name s).1.emails
unfolding requeue_email
requeue_email-Quiet id new_to name s =
    update_emails-Quiet (is_requeueable_row id) (requeue_change new_to name (now s)) s
      (requeue_change-RowMove id new_to name (now s))
      (λ x met now_sending. unfold is_requeueable_row in ground (arith, met, now_sending))

insert_email-Quiet : (e : Email) (db : Db) → Quiet db.emails (insert_email e db).1.emails
unfolding insert_email
insert_email-Quiet e db = elim (Bool-cases (may_insert e db)) [
  | inl may ↦
      let new = inserted_row (next_id (λ (r : Email). r.id) db.emails) e in
      rw may (record {
        grown = Grown-append db.emails new (unfold inserted_row in refl);
        flying = λ e' known fl.
            All-append _ db.emails (new ∷ []) fl
              (unfold inserted_row in (λ same. absurd (omega (arith, known, same)), tt));
      })
  | inr never ↦ rw never (Quiet-same refl)
]

pub enqueue_email-Quiet : (e : Email) (s : Store) → Quiet s.emails (enqueue_email e s).1.emails
unfolding enqueue_email
enqueue_email-Quiet e s =
    exec-keeps (Quiet s.emails) (insert_email (with_defaults (now s) e)) s
      (insert_email-Quiet (with_defaults (now s) e) s.db) (Quiet-same refl)
