-- ===== src/Store/Operator/Preserved.antt =====
-- The operator's statements keep the invariant of the emails, and a canceled email is not claimed.
use doevoe.Base.{
  ℕ, ◌≡◌, refl, sym, subst, Text, true, false, List, [], ◌∷◌, arith, ==_iff, All, update, set_if,
}
use doevoe.Store.{Email, Store, Result, ok, err, now}
use doevoe.Store.Emails.{is_due}
use doevoe.Store.Emails.Invariant.{IsRow, IsTable, KeepsKeys, All-any}
use doevoe.Store.Emails.Preserved.{same_keys, update_emails-IsTable}
use doevoe.Store.Operator.{
  is_cancelable_row, canceled_row, cancel_email, is_requeueable_row, requeue_change, requeue_email,
}
use doevoe.Store.Operator.Guards.{Guarded, cancel_email-Guarded}

cancel_fits :
    (id : ℕ) (e : Email) → is_cancelable_row id e ≡ true → IsRow e → IsRow (canceled_row e)
unfolding is_cancelable_row canceled_row
cancel_fits id e met r = ground arith

-- CancelEmail keeps the invariant.
pub cancel_email-IsTable :
    (id : ℕ) (s : Store) → IsTable s.emails → IsTable (cancel_email id s).1.emails
unfolding cancel_email
cancel_email-IsTable id s =
    update_emails-IsTable (is_cancelable_row id) canceled_row
      (unfold canceled_row in same_keys _ (λ e. (refl, refl, refl))) s
      (All-any _ (cancel_fits id) s.emails)

requeue_fits :
    (id : ℕ) (new_to name : Text) (at : ℕ) (e : Email)
    → is_requeueable_row id e ≡ true
    → IsRow e
    → IsRow (requeue_change new_to name at e)
unfolding is_requeueable_row requeue_change
requeue_fits id new_to name at e met r = ground arith

requeue_change-KeepsKeys : (new_to name : Text) (at : ℕ) → KeepsKeys (requeue_change new_to name at)
unfolding requeue_change
requeue_change-KeepsKeys new_to name at =
    same_keys (requeue_change new_to name at) (λ e. (ground arith, ground arith, ground arith))

-- RequeueEmail keeps the invariant.
pub requeue_email-IsTable :
    (id : ℕ) (new_to name : Text) (s : Store)
    → IsTable s.emails
    → IsTable (requeue_email id new_to name s).1.emails
unfolding requeue_email
requeue_email-IsTable id new_to name s =
    update_emails-IsTable (is_requeueable_row id) (requeue_change new_to name (now s))
      (requeue_change-KeepsKeys new_to name (now s)) s
      (All-any _ (requeue_fits id new_to name (now s)) s.emails)

-- After a CancelEmail that succeeds no row of its id is due, at any time.
pub cancel_email-is_due :
    (id at : ℕ) (s : Store)
    → (cancel_email id s).0 ≡ ok tt
    → All (λ (x : Email). x.id ≡ id → is_due at x ≡ false) (cancel_email id s).1.emails
cancel_email-is_due id at s h =
    let (r, s') = cancel_email id s in ended r s' h (cancel_email-Guarded id s)
  where
    one :
        (x : Email)
        → (set_if (is_cancelable_row id) canceled_row x).id ≡ id
        → is_due at (set_if (is_cancelable_row id) canceled_row x) ≡ false
    one x same = unfold is_cancelable_row canceled_row is_due in ground (arith, (==_iff x.id id).1)

    all_rows :
        (rows : List Email)
        → All
            (λ (x : Email). x.id ≡ id → is_due at x ≡ false)
            (update (is_cancelable_row id) canceled_row rows)
    all_rows [] = tt
    all_rows (x ∷ xs) = (one x, all_rows xs)

    ended :
        (r : Result (Unit {0})) (s' : Store)
        → r ≡ ok tt
        → Guarded (is_cancelable_row id) canceled_row s.emails r s'.emails
        → All (λ (x : Email). x.id ≡ id → is_due at x ≡ false) s'.emails
    ended (ok u) s' e g =
        subst (All (λ (x : Email). x.id ≡ id → is_due at x ≡ false)) (sym g.1) (all_rows s.emails)
    ended (err x) s' e g = cc
