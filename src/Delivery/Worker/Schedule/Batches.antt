-- ===== src/Delivery/Worker/Schedule/Batches.antt =====
-- What the goroutines of a batch do to each row of the table of emails.
use doevoe.Base.{
  ℕ, zero, suc, ◌≡◌, refl, sym, ap, subst, ◌∙◌, inl, inr, true, false, Bool, Text, List, [], ◌∷◌,
  ltb, map, All, All-map, All-zip, All-select, Pairwise, Related, update, set_if, select,
  Bool-cases,
}
use doevoe.Store.{Email, Store}
use doevoe.Store.Emails.{is_due, claimed_row}
use doevoe.Store.Emails.Invariant.{IsTable}
use doevoe.Store.Emails.Claim.{IsOnly, rows_unique}
use doevoe.Store.Emails.Claim.Contract.{Claims}
use doevoe.Delivery.Worker.{Worker}
use doevoe.Delivery.Worker.Effect.{KeepsEmails}
use doevoe.Delivery.Worker.Schedule.{
  Phase, waiting, Thread, Batch, rcpt_domain, holders, move, move_nth, step, run,
}
use doevoe.Delivery.Worker.Schedule.Flights.{Flies, Distinct, Marks, move-Marks, move_nth-Kept}
use doevoe.Delivery.Worker.Schedule.Rows.{untouched, tried, Follows, WasDue, Follows-Processed}

-- The emails of the goroutines were due.
abbrev pub Chosen : ℕ → List Email → List Thread → Type 0
Chosen since xs = All (λ (t : Thread). WasDue since xs t.email)

module _ (w : Worker) (hook : KeepsEmails w.on_permanent_failure) (at since : ℕ)
    (xs : List Email) where
  Follows-Marks :
      (e : Email) (phase phase' : Phase) (ys after : List Email)
      → WasDue since xs e
      → Flies ys (record { email = e; phase = phase })
      → Related (Follows since) xs ys
      → Marks e at phase phase' ys after
      → Related (Follows since) xs after
  Follows-Marks e phase phase' ys after due flies h (inl (same, _)) =
      subst (Related (Follows since) xs) (sym same) h
  Follows-Marks e phase phase' ys after due flies h (inr (unmarked, _, done)) =
      Follows-Processed since e at xs ys after due (flies unmarked) h done

  move_nth-Follows :
      (room : Text → Bool) (i : ℕ) (ts : List Thread) (s : Store)
      → Chosen since xs ts
      → All (Flies s.emails) ts
      → Related (Follows since) xs s.emails
      → let (ts', s') = move_nth w at room i ts s in
        Chosen since xs ts' × Related (Follows since) xs s'.emails
  unfolding move_nth
  move_nth-Follows room i [] s due flies h = (tt, h)
  move_nth-Follows room zero (t ∷ ts) s due flies h =
      let (phase, s') = move w at (room (rcpt_domain t.email)) t.email t.phase s in
      (
        due,
        Follows-Marks t.email t.phase phase s.emails s'.emails due.0 flies.0 h
            (move-Marks w hook at (room (rcpt_domain t.email)) t.email t.phase s),
      )
  move_nth-Follows room (suc i) (t ∷ ts) s due flies h =
      let (due', h') = move_nth-Follows room i ts s due.1 flies.1 h in ((due.0, due'), h')

  pub run-Follows :
      (limit : ℕ) (schedule : List ℕ) (b : Batch)
      → IsTable b.store.emails
      → All (Flies b.store.emails) b.threads
      → Pairwise Distinct b.threads
      → Chosen since xs b.threads
      → Related (Follows since) xs b.store.emails
      → Related (Follows since) xs (run w at limit schedule b).store.emails
  unfolding run step
  run-Follows limit [] b table flies far due h = h
  run-Follows limit (i ∷ is) b table flies far due h =
      let room = λ (domain : Text). ltb (holders domain b.threads) limit in
      let k = move_nth-Kept w hook at room i b.threads b.store table flies far in
      let (due', h') = move_nth-Follows room i b.threads b.store due flies h in
      run-Follows limit is (step w at limit i b) k.table k.flights k.distinct due' h'

All_of_update :
    (P : Email → Type 0) (p : Email → Bool) (f : Email → Email) (xs : List Email)
    → All P (update p f xs)
    → All (λ x. P (set_if p f x)) xs
All_of_update P p f [] h = tt
All_of_update P p f (x ∷ xs) h = (h.0, All_of_update P p f xs h.1)

claim-Follows :
    (since : ℕ) (chosen : Email → Bool) (xs : List Email)
    → All (λ e. chosen e ≡ true → is_due since e ≡ true) xs
    → Related (Follows since) xs (update chosen (claimed_row since) xs)
unfolding claimed_row
claim-Follows since chosen [] h = tt
claim-Follows since chosen (x ∷ xs) h = (
  elim (Bool-cases (chosen x)) [
    | inl met ↦ rw met (refl, tried (h.0 met) refl (refl, refl))
    | inr missed ↦ rw missed (refl, untouched refl)
  ],
  claim-Follows since chosen xs h.1,
)

-- A batch is claimed from rows that were due.
module _ (limit since : ℕ) (before claimed after : List Email) (h : IsTable after)
    (c : Claims limit since before after claimed) where
  pub claimed-Follows : Related (Follows since) before after
  claimed-Follows =
      subst (Related (Follows since) before) (sym c.rows)
        (claim-Follows since c.chosen before c.was_due)

  one-WasDue : (e : Email) → IsOnly after e → c.chosen e ≡ true → WasDue since before e
  one-WasDue e only taken =
      All-map
        (λ (x : Email).
          (c.chosen x ≡ true → is_due since x ≡ true)
          × ((set_if c.chosen (claimed_row since) x).id ≡ e.id
              → set_if c.chosen (claimed_row since) x ≡ e))
        _
        (λ x both same. elim (Bool-cases (c.chosen x)) [
          | inl met ↦ both.0 met
          | inr missed ↦
              let own : x.id ≡ e.id → x ≡ e = rw missed at both.1 in
              absurd (clash (c.chosen x) missed (ap c.chosen (own same) ∙ taken))
        ])
        before
        (All-zip (λ x. c.chosen x ≡ true → is_due since x ≡ true) _ before c.was_due
          (All_of_update (λ (x : Email). x.id ≡ e.id → x ≡ e) c.chosen (claimed_row since) before
            (subst (IsOnlyOf e) c.rows only)))
    where
      clash : (b : Bool) → b ≡ false → b ≡ true → ⊥
      clash b low high = cc

      IsOnlyOf : Email → List Email → Type 0
      IsOnlyOf e rows = IsOnly rows e

  pub claimed-WasDue : All (WasDue since before) claimed
  claimed-WasDue = subst (All (WasDue since before)) (sym c.returned) (
      All-map (λ e. IsOnly after e × (c.chosen e ≡ true)) (WasDue since before)
        (λ e both. one-WasDue e both.0 both.1) (select c.chosen after)
        (All-select (IsOnly after) c.chosen after (rows_unique after h.pairs)))

pub start-Chosen :
    (since : ℕ) (xs es : List Email)
    → All (WasDue since xs) es
    → Chosen since xs (map (λ (e : Email). record { email = e; phase = waiting }) es)
start-Chosen since xs [] h = tt
start-Chosen since xs (e ∷ es) h = (h.0, start-Chosen since xs es h.1)
