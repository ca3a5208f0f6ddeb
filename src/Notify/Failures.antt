-- ===== src/Notify/Failures.antt =====
-- Which failures wait for a digest.
use doevoe.Base.{
  ℕ, ◌≡◌, refl, ◌∙◌, ap, true, false, ◌&&◌, ◌||◌, not, some, List, [], ◌∷◌, ◌++◌, arith, ◌==◌,
  find?, Bool-cases, inl, inr,
}
use doevoe.Store.{Db, Email, PendingFailure, Store, Result, ok, err, exec, exec-ends, reliable, now}
use doevoe.Store.Emails.{has_id, get_email}
use doevoe.Store.Notify.{is_pending, add_pending, add_pending_failure}
use doevoe.Api.Requests.Auth.{get_email_lem}
use doevoe.Notify.{remember, permanent_failure}

add_pending-emails : (id at : ℕ) (db : Db) → (add_pending id at db).1.emails ≡ db.emails
unfolding add_pending
add_pending-emails id at db = ground arith

add_pending_failure-emails : (id : ℕ) (s : Store) → (add_pending_failure id s).1.emails ≡ s.emails
unfolding add_pending_failure
add_pending_failure-emails id s =
    exec-ends (λ r db. db.emails ≡ s.emails) (add_pending id (now s)) s (λ m. refl)
      (add_pending-emails id (now s) s.db)

-- The hook of the worker leaves the emails alone.
pub permanent_failure-emails : (id : ℕ) (s : Store) → (permanent_failure id s).emails ≡ s.emails
unfolding permanent_failure remember
permanent_failure-emails id s =
    let (r, s') = get_email id s in
    of_result r s' (ap (λ (d : Db). d.emails) (get_email_lem id s).0)
  where
    of_result :
        (r : Result Email) (s' : Store)
        → s'.emails ≡ s.emails
        → (remember id (r, s')).emails ≡ s.emails
    of_result (err x) s' h = h
    of_result (ok e) s' h = elim (Bool-cases e.is_system) [
      | inl own ↦ rw own h
      | inr other ↦ rw other (add_pending_failure-emails id s' ∙ h)
    ]

is_pending-append :
    (j id at : ℕ) (ps : List PendingFailure)
    → is_pending j (ps ++ record { email_id = id; created_at = at } ∷ [])
      ≡ (is_pending j ps || id == j)
unfolding is_pending
is_pending-append j id at [] = ground arith
is_pending-append j id at (p ∷ ps) = ground (arith, is_pending-append j id at ps)

-- On a store whose driver refuses nothing, if the email of the id is found, then after
-- PermanentFailure exactly the failures that waited before wait, and this one unless the email is
-- one of the program's own notifications.
pub permanent_failure-is_pending :
    (id j clock : ℕ) (db : Db) (e : Email)
    → find? (has_id id) db.emails ≡ some e
    → is_pending j (permanent_failure id (reliable db clock)).pending_failures
      ≡ (is_pending j db.pending_failures || (id == j && not e.is_system))
unfolding permanent_failure remember get_email exec add_pending_failure add_pending
permanent_failure-is_pending id j clock db e found = elim (Bool-cases e.is_system) [
  | inl own ↦ rw (found, own) (ground arith)
  | inr other ↦
      rw (found, other, found)
        (elim (Bool-cases (is_pending id db.pending_failures)) [
          | inl waits ↦ rw waits (same waits)
          | inr fresh ↦
              rw (fresh, is_pending-append j id (now (reliable db clock)) db.pending_failures)
                (ground arith)
        ])
]
  where
    same :
        is_pending id db.pending_failures ≡ true
        → is_pending j db.pending_failures
          ≡ (is_pending j db.pending_failures || (id == j && not false))
    same waits = ground arith
