-- ===== src/Store/Operator/Guards.antt =====
-- The status guards of CancelEmail and RequeueEmail against the worker's claims.
use doevoe.Base.{
  ℕ, zero, suc, ◌≤◌, ◌≡◌, refl, sym, Text, Bool, false, List, [], ◌∷◌, arith, ==_iff, All, update,
  affected,
}
use doevoe.Store.{
  sending, Email, Store, Result, ok, err, Error, not_cancelable, not_requeueable, exec, exec-ends,
  now,
}
use doevoe.Store.Emails.{update_emails}
use doevoe.Store.Operator.{
  guard_affected, is_cancelable_row, canceled_row, cancel_email, is_requeueable_row, requeue_change,
  requeue_email,
}

-- An update that meets no row changes nothing.
update_none :
    (p : Email → Bool) (f : Email → Email) (rows : List Email)
    → All (λ e. p e ≡ false) rows
    → (update p f rows ≡ rows) × (affected p rows ≡ 0)
update_none p f [] h = (refl, refl)
update_none p f (x ∷ xs) h = let missed = h.0 in ground (arith, update_none p f xs h.1)

-- How a guarded update ends: refused or without effect, it is an error and changes no email.
abbrev pub Guarded :
    (Email → Bool) → (Email → Email) → List Email → Result (Unit {0}) → List Email → Type 0
Guarded p f before (ok _) after = (1 ≤ affected p before) × (after ≡ update p f before)
Guarded p f before (err e) after = after ≡ before

Guarded-by_count :
    (refusal : Error) (p : Email → Bool) (f : Email → Email) (before : List Email) (n : ℕ)
    → n ≡ affected p before
    → Guarded p f before (guard_affected refusal (ok n)) (update p f before)
Guarded-by_count refusal p f before zero h = no_row before (sym h)
  where
    no_row : (rows : List Email) → affected p rows ≡ 0 → update p f rows ≡ rows
    no_row [] h = refl
    no_row (x ∷ xs) h = ground (arith, no_row xs)
Guarded-by_count refusal p f before (suc n) h = (omega arith, refl)

guarded :
    (refusal : Error) (p : Email → Bool) (f : Email → Email) (s : Store)
    → let (r, s') = exec (update_emails p f) s in
      Guarded p f s.emails (guard_affected refusal r) s'.emails
unfolding update_emails
guarded refusal p f s =
    exec-ends (λ r db. Guarded p f s.emails (guard_affected refusal r) db.emails)
      (update_emails p f) s (λ m. refl)
      (Guarded-by_count refusal p f s.emails (affected p s.emails) refl)

-- CancelEmail either succeeds, and then at least one row of its id was queued and exactly such rows
-- are canceled; or it is an error and changes no email.
pub cancel_email-Guarded :
    (id : ℕ) (s : Store)
    → let (r, s') = cancel_email id s in
      Guarded (is_cancelable_row id) canceled_row s.emails r s'.emails
unfolding cancel_email
cancel_email-Guarded id s = guarded not_cancelable (is_cancelable_row id) canceled_row s

-- RequeueEmail either succeeds, and then at least one row of its id was queued, failed or canceled
-- and exactly such rows take the requeue's change; or it is an error and changes no email.
pub requeue_email-Guarded :
    (id : ℕ) (new_to name : Text) (s : Store)
    → let (r, s') = requeue_email id new_to name s in
      Guarded (is_requeueable_row id) (requeue_change new_to name (now s)) s.emails r s'.emails
unfolding requeue_email
requeue_email-Guarded id new_to name s =
    guarded not_requeueable (is_requeueable_row id) (requeue_change new_to name (now s)) s

-- A refused operation: an error, and the emails as they were.
abbrev pub Refused : Store → Result (Unit {0}) × Store → Type 0
Refused s (ok _, s') = ⊥
Refused s (err e, s') = s'.emails ≡ s.emails

Refused-of_Guarded :
    (p : Email → Bool) (f : Email → Email) (s : Store) (r : Result (Unit {0})) (s' : Store)
    → All (λ e. p e ≡ false) s.emails
    → Guarded p f s.emails r s'.emails
    → Refused s (r, s')
Refused-of_Guarded p f s (ok _) s' h g = absurd (omega (arith, g.0, (update_none p f s.emails h).1))
Refused-of_Guarded p f s (err e) s' h g = g

sending_guards :
    (id : ℕ) (rows : List Email)
    → All (λ (x : Email). x.id ≡ id → x.status ≡ sending) rows
    → All (λ e. is_cancelable_row id e ≡ false) rows
      × All (λ e. is_requeueable_row id e ≡ false) rows
unfolding is_cancelable_row is_requeueable_row
sending_guards id [] h = (tt, tt)
sending_guards id (x ∷ xs) h =
    let (c, r) = sending_guards id xs h.1 in
    let here = h.0 in
    ((ground (arith, (==_iff x.id id).0), c), (ground (arith, (==_iff x.id id).0), r))

-- If every row of an id is being sent, then neither CancelEmail nor RequeueEmail of that id
-- succeeds, and neither changes an email.
sending-Refused :
    (id : ℕ) (new_to name : Text) (s : Store)
    → All (λ (x : Email). x.id ≡ id → x.status ≡ sending) s.emails
    → Refused s (cancel_email id s) × Refused s (requeue_email id new_to name s)
sending-Refused id new_to name s h =
    let (c, r) = sending_guards id s.emails h in
    let (cr, cs) = cancel_email id s in
    let (rr, rs) = requeue_email id new_to name s in
    (
      Refused-of_Guarded (is_cancelable_row id) canceled_row s cr cs c (cancel_email-Guarded id s),
      Refused-of_Guarded (is_requeueable_row id) (requeue_change new_to name (now s)) s rr rs r
          (requeue_email-Guarded id new_to name s),
    )
