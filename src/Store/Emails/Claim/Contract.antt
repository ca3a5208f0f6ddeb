-- ===== src/Store/Emails/Claim/Contract.antt =====
-- The contract of ClaimDue.
use doevoe.Base.{
  ℕ, ◌≤◌, ◌≡◌, refl, sym, subst, Bool, true, false, List, arith, All, All-map, All-zip, All-select,
  Pairwise, select, update, set_if, length, affected, Bool-cases, inl, inr, [], ◌∷◌,
}
use doevoe.Store.{sending, Email, Db, Store, Result, ok, err, exec-ends}
use doevoe.Store.Emails.{
  is_due, id_in, due_first, order_by_time, claimed_row, claim_rows, claim_due,
}
use doevoe.Store.Emails.Invariant.{InOrder, IsTable}
use doevoe.Store.Emails.Preserved.{claim_rows-IsTable}
use doevoe.Store.Emails.Claim.{
  IsOnly, rows_unique, All-id_in, All-take, All-order, All-select_if, claimed-is_due,
}
use doevoe.Store.Emails.Claim.Order.{claimed_first, length-claimed, length-select}
use doevoe.Store.Emails.Claim.Count.{due_first_full, length-due_first}

-- `chosen` emails of the table `before` are claimed: they were due, none of the due emails that are
-- left is earlier than one of them, and one is left only where the limit is reached.
pub record Claims (limit at : ℕ) (before after claimed : List Email) : Type 0 where
  pub chosen : Email → Bool
  pub rows : after ≡ update chosen (claimed_row at) before
  pub returned : claimed ≡ select chosen after
  pub at_most : length claimed ≤ limit
  pub in_flight : All (λ (e : Email). (e.status ≡ sending) × (e.next_attempt_at ≡ at)) claimed
  pub was_due : All (λ e. chosen e ≡ true → is_due at e ≡ true) before
  pub first :
      All
        (λ (y : Email).
          is_due at y ≡ true
          → chosen y ≡ false
          → All (λ (x : Email). chosen x ≡ true → x.next_attempt_at ≤ y.next_attempt_at) before)
        before
  pub full : All (λ y. is_due at y ≡ true → chosen y ≡ false → limit ≤ length claimed) before

module _ (limit at : ℕ) (rows : List Email) (pairs : Pairwise InOrder rows) where
  taken-IsOnly : All (IsOnly rows) (due_first limit at rows)
  unfolding due_first
  taken-IsOnly = All-take (IsOnly rows) limit (order_by_time (select (is_due at) rows)) (
      All-order (IsOnly rows) (select (is_due at) rows) (
        All-select_if (IsOnly rows) (is_due at) rows
          (All-map _ _ (λ x only _. only) rows (rows_unique rows pairs))))

  -- What holds of the emails of the subselect holds of the rows with their ids.
  on_rows :
      (P : Email → Type 0)
      → All P (due_first limit at rows)
      → All (λ e. id_in (due_first limit at rows) e ≡ true → P e) rows
  on_rows P h = All-id_in P rows (due_first limit at rows) (
      All-map (λ x. P x × IsOnly rows x) _
        (λ x both. All-map _ _ (λ e same p. subst P (sym (same p)) both.0) rows both.1)
        (due_first limit at rows)
        (All-zip P (IsOnly rows) (due_first limit at rows) h taken-IsOnly))

claimed_in_flight :
    (taken rows : List Email) (at : ℕ)
    → All
        (λ (e : Email). id_in taken e ≡ true → (e.status ≡ sending) × (e.next_attempt_at ≡ at))
        (update (id_in taken) (claimed_row at) rows)
unfolding claimed_row
claimed_in_flight taken [] at = tt
claimed_in_flight taken (x ∷ xs) at = (one, claimed_in_flight taken xs at)
  where
    one :
        id_in taken (set_if (id_in taken) (claimed_row at) x) ≡ true
        → ((set_if (id_in taken) (claimed_row at) x).status ≡ sending)
          × ((set_if (id_in taken) (claimed_row at) x).next_attempt_at ≡ at)
    one h = elim (Bool-cases (id_in taken x)) [
      | inl met ↦ rw met (refl, refl)
      | inr missed ↦ cc (missed, rw missed at h)
    ]

affected-update :
    (q p : Email → Bool) (f : Email → Email)
    → ((e : Email) → q (f e) ≡ q e)
    → (xs : List Email) → affected q (update p f xs) ≡ affected q xs
affected-update q p f keep [] = refl
affected-update q p f keep (x ∷ xs) = ground (arith, keep x, affected-update q p f keep xs)

id_in-claimed_row :
    (taken : List Email) (at : ℕ) (e : Email) → id_in taken (claimed_row at e) ≡ id_in taken e
unfolding id_in claimed_row
id_in-claimed_row [] at e = refl
id_in-claimed_row (x ∷ xs) at e = rw (id_in-claimed_row xs at e)

claim_rows-Claims :
    (limit at : ℕ) (db : Db)
    → IsTable db.emails
    → let taken = due_first limit at db.emails in
      let after = update (id_in taken) (claimed_row at) db.emails in
      Claims limit at db.emails after (select (id_in taken) after)
claim_rows-Claims limit at db h =
    let taken = due_first limit at db.emails in
    let after = update (id_in taken) (claimed_row at) db.emails in
    record {
      chosen = id_in taken;
      rows = refl;
      returned = refl;
      at_most =
          length-claimed limit at db.emails after
            (unfold claim_rows in (claim_rows-IsTable limit at db h).pairs);
      in_flight =
          All-map _ _ (λ e both. both.0 both.1) (select (id_in taken) after)
            (All-select _ (id_in taken) after (claimed_in_flight taken db.emails at));
      was_due = claimed-is_due limit at db.emails h.pairs;
      first =
          All-map _ _
            (λ y f due left.
              on_rows limit at db.emails h.pairs
                (λ (x : Email). x.next_attempt_at ≤ y.next_attempt_at) (f due left))
            db.emails (claimed_first limit at db.emails);
      full =
          All-map _ _
            (λ y f due left. omega (
              arith,
              f due left,
              length-due_first limit at db.emails h.pairs,
              length-select (id_in taken) after,
              affected-update (id_in taken) (id_in taken) (claimed_row at)
                  (id_in-claimed_row taken at) db.emails,
            ))
            db.emails (due_first_full limit at db.emails);
    }

-- How a call of ClaimDue that began with the emails `before` may end.
abbrev pub Claimed : ℕ → ℕ → List Email → Result (List Email) → List Email → Type 0
Claimed limit at before (err e) after = after ≡ before
Claimed limit at before (ok claimed) after = Claims limit at before after claimed

-- On a valid table ClaimDue either is refused and changes no email, or claims some emails: these
-- rows become sending with the time of the claim and no other row changes, the claimed rows are
-- returned, at most `limit` of them, each was due, none of the due emails that are left is earlier
-- than a claimed one, and a due email is left only if the limit is reached.
pub claim_due-Claimed :
    (limit at : ℕ) (s : Store)
    → IsTable s.emails
    → let (r, s') = claim_due limit at s in Claimed limit at s.emails r s'.emails
unfolding claim_due
claim_due-Claimed limit at s h =
    exec-ends (λ r db. Claimed limit at s.emails r db.emails) (claim_rows limit at) s (λ m. refl)
      (unfold claim_rows in claim_rows-Claims limit at s.db h)
