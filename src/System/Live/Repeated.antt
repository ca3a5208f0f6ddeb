-- ===== src/System/Live/Repeated.antt =====
-- internal/api/api.go: enqueueOrReplay and idx_emails_idem, whatever happens between two requests of
-- one Idempotency-Key.
use doevoe.Base.{
  ℕ, ◌≡◌, refl, sym, ap, ◌∙◌, subst, Text, true, false, ◌==◌, ==_refl, Option, none, some,
  some-injective, List, [], ◌∷◌, arith, is_empty, text_eq_refl, find?, find?-append, Bool-cases,
  inl, inr,
}
use doevoe.Store.{Status, Email, Db, Store, Result, ok, err, Error, exec, exec-ends, reliable, now}
use doevoe.Store.Emails.{
  next_id, same_idempotency, may_insert, some_row, inserted_row, with_defaults, insert_email,
  enqueue_email, find_by_idempotency_key,
}
use doevoe.Store.Emails.Invariant.{IsTable}
use doevoe.Api.Post.{
  fresh, replay, failed_with, found_email, replay_or, after_enqueue, enqueue_or_replay,
}
use doevoe.Api.Post.Replies.{find_by_idempotency_key_lem}
use doevoe.Delivery.Worker.{Worker}
use doevoe.Delivery.Worker.Effect.{KeepsEmails}
use doevoe.Delivery.Worker.Schedule.{Batch}
use doevoe.System.Live.{Reach, here, next, enqueue}
use doevoe.System.Live.Growth.{RowMove, RowMove-id, stays, goes, Grown}
use doevoe.System.Live.Invariant.{Sound, Move-Sure}
use doevoe.System.Live.Lifecycle.{idle, Reach-Sound, Sound-Reach}

-- A row with the id is the one that the key finds.
abbrev pub Finds : ℕ → Text → ℕ → List Email → Type 0
Finds k key id rows = (x : Email) × (find? (same_idempotency k key) rows ≡ some x) × (x.id ≡ id)

RowMove-same_idempotency :
    (k : ℕ) (key : Text) (x y : Email)
    → RowMove x y
    → same_idempotency k key y ≡ same_idempotency k key x
unfolding same_idempotency
RowMove-same_idempotency k key x _ stays = refl
RowMove-same_idempotency k key x y (goes edge same) = ap (same_idempotency k key) same

-- Rows that move along their life are found as before.
Grown-Finds :
    (k : ℕ) (key : Text) (id : ℕ) (xs ys : List Email)
    → Grown xs ys
    → Finds k key id xs
    → Finds k key id ys
Grown-Finds k key id [] ys g (z, found, same) = cc
Grown-Finds k key id (x ∷ xs) [] g f = absurd g
Grown-Finds k key id (x ∷ xs) (y ∷ ys) g (z, found, same) =
    elim (Bool-cases (same_idempotency k key x)) [
      | inl met ↦ (
        y,
        rw (RowMove-same_idempotency k key x y g.0, met) refl,
        RowMove-id x y g.0
            ∙ (ap (λ (e : Email). e.id) (some-injective x z (rw met at found)) ∙ same),
      )
      | inr missed ↦
          let (u, later, kept_id) = Grown-Finds k key id xs ys g.1 (z, rw missed at found, same) in
          (u, rw (RowMove-same_idempotency k key x y g.0, missed) later, kept_id)
    ]

no_row : (o : Option Email) → some_row o ≡ false → o ≡ none
unfolding some_row
no_row none h = refl
no_row (some x) h = cc

-- An accepted row with a key is found by its key.
inserted-Finds :
    (e : Email) (db : Db) (id : ℕ)
    → is_empty e.idempotency_key ≡ false
    → (e.api_key_id == 0) ≡ false
    → (insert_email e db).0 ≡ ok id
    → Finds e.api_key_id e.idempotency_key id (insert_email e db).1.emails
unfolding insert_email
inserted-Finds e db id keyed owned accepted = elim (Bool-cases (may_insert e db)) [
  | inl may ↦
      let same : ok (next_id (λ (r : Email). r.id) db.emails) ≡ ok id = rw may at accepted in
      rw
        (may, find?-append (same_idempotency e.api_key_id e.idempotency_key) db.emails, missing may)
        (
          inserted_row (next_id (λ (r : Email). r.id) db.emails) e,
          unfold same_idempotency inserted_row in
              rw (keyed, owned, ==_refl e.api_key_id, text_eq_refl e.idempotency_key) refl,
          unfold inserted_row in cc,
        )
  | inr never ↦ cc (rw never at accepted)
]
  where
    missing :
        may_insert e db ≡ true
        → find? (same_idempotency e.api_key_id e.idempotency_key) db.emails ≡ none
    missing may = no_row _ (unfold may_insert in ground arith)

enqueued-Finds :
    (e : Email) (s : Store) (id : ℕ)
    → is_empty e.idempotency_key ≡ false
    → (e.api_key_id == 0) ≡ false
    → (enqueue_email e s).0 ≡ ok id
    → Finds e.api_key_id e.idempotency_key id (enqueue_email e s).1.emails
unfolding enqueue_email
enqueued-Finds e s id keyed owned =
    exec-ends (λ r db. r ≡ ok id → Finds e.api_key_id e.idempotency_key id db.emails)
      (insert_email (with_defaults (now s) e)) s (λ m refused. cc)
      (unfold with_defaults in inserted-Finds (with_defaults (now s) e) s.db id keyed owned)

-- An insert that comes to an accepted email was the statement's.
accepted-enqueue :
    (e : Email) (s : Store) (id : ℕ)
    → (enqueue_or_replay e s).0 ≡ fresh id
    → ((enqueue_email e s).0 ≡ ok id) × ((enqueue_or_replay e s).1 ≡ (enqueue_email e s).1)
unfolding enqueue_or_replay
accepted-enqueue e s id = of_result (enqueue_email e s).0 (enqueue_email e s).1
  where
    failed : {x : Error} → failed_with x ≡ fresh id → ⊥
    failed h = cc

    replayed_or : (x : Error) (o : Option Email) → replay_or x o ≡ fresh id → ⊥
    replayed_or x none h = cc
    replayed_or x (some existing) h = cc

    of_result :
        (r : Result ℕ) (s' : Store)
        → (after_enqueue e (r, s')).0 ≡ fresh id
        → (r ≡ ok id) × ((after_enqueue e (r, s')).1 ≡ s')
    of_result (ok n) s' h = unfold after_enqueue in (cc, refl)
    of_result (err x) s' h = elim (Bool-cases (is_empty e.idempotency_key)) [
      | inl unkeyed ↦ absurd (failed (unfold after_enqueue in rw unkeyed at h))
      | inr keyed ↦ absurd (
          replayed_or x (found_email (find_by_idempotency_key e.api_key_id e.idempotency_key s').0)
            (unfold after_enqueue in rw keyed at h))
    ]

-- A second email of a key is refused by the index, and the lookup finds the first.
replayed :
    (e : Email) (id : ℕ) (db : Db) (clock : ℕ)
    → is_empty e.idempotency_key ≡ false
    → Finds e.api_key_id e.idempotency_key id db.emails
    → (status : Status) × (enqueue_or_replay e (reliable db clock)
        ≡ (replay id status, reliable db clock))
unfolding enqueue_or_replay after_enqueue enqueue_email insert_email exec
replayed e id db clock keyed (x, found, same) = (
  x.status,
  rw
      (
        refused,
        keyed,
        find_by_idempotency_key_lem e.api_key_id e.idempotency_key db clock,
        found,
        same,
      )
      refl,
)
  where
    refused : may_insert (with_defaults (now (reliable db clock)) e) db ≡ false
    refused = unfold may_insert with_defaults some_row in rw found (ground arith)

module _ (w : Worker) (limit : ℕ) (hook : KeepsEmails w.on_permanent_failure) where
  Reach-Finds :
      {b c : Batch} (k : ℕ) (key : Text) (id : ℕ)
      → Reach w limit b c
      → Sound b
      → Finds k key id b.store.emails
      → Finds k key id c.store.emails
  Reach-Finds k key id here h f = f
  Reach-Finds k key id (next r m) h f =
      Grown-Finds k key id _ _ (Move-Sure w limit hook m (Sound-Reach w limit hook r h)).grown
        (Reach-Finds k key id r h f)

  -- If the failure hook leaves the emails alone and, in a state that the program reaches from a
  -- store with a valid table and no goroutine, enqueueOrReplay of an email with an API key and an
  -- Idempotency-Key inserts it as a new one, then after whatever steps follow, whenever the driver
  -- refuses nothing, enqueueOrReplay of an email with the same API key and Idempotency-Key inserts
  -- nothing, changes nothing, and gives the id of the first.
  pub Reach-replay :
      {s : Store} {b c : Batch} (e again : Email) (id : ℕ)
      → Reach w limit (idle s) b
      → IsTable s.emails
      → is_empty e.idempotency_key ≡ false
      → (e.api_key_id == 0) ≡ false
      → (enqueue_or_replay e b.store).0 ≡ fresh id
      → Reach w limit (record b { store = (enqueue_or_replay e b.store).1 }) c
      → c.store.faults ≡ []
      → again.api_key_id ≡ e.api_key_id
      → again.idempotency_key ≡ e.idempotency_key
      → (status : Status) × (enqueue_or_replay again c.store ≡ (replay id status, c.store))
  Reach-replay {s} {b} {c} e again id before h keyed owned accepted after works same_key same_idem =
      let (is_ok, same) = accepted-enqueue e b.store id accepted in
      let posted = record b { store = (enqueue_email e b.store).1 } in
      let later : Reach w limit posted c =
        subst (λ (t : Store). Reach w limit (record b { store = t }) c) same after in
      let sound =
        (Move-Sure w limit hook (enqueue {b = b} e) (Reach-Sound w limit hook before h)).sound in
      let found =
        Reach-Finds e.api_key_id e.idempotency_key id later sound
          (enqueued-Finds e b.store id keyed owned is_ok) in
      let runs : reliable c.store.db c.store.clock ≡ c.store =
        ap (λ (f : List (Option Text)). record c.store { faults = f }) (sym works) in
      subst (λ (t : Store). (status : Status) × (enqueue_or_replay again t ≡ (replay id status, t)))
        runs
        (replayed again id c.store.db c.store.clock (rw same_idem keyed)
          (rw (same_key, same_idem) found))
