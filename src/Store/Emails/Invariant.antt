-- ===== src/Store/Emails/Invariant.antt =====
-- What holds of the table of emails between two statements, and that each statement keeps it.
use doevoe.Base.{
  ℕ, ◌≤◌, ◌<◌, ◌≡◌, Bool, true, false, List, [], ◌∷◌, arith, Bool-cases, inl, inr, All, All-map,
  Pairwise, Pairwise-update, set_if, update, find?, none,
}
use doevoe.Store.{queued, sending, sent, failed, canceled, Status, Email}
use doevoe.Store.Emails.{next_id, same_idempotency}

-- A pending email has a retry left, an email has had at most one attempt more than the schedule has
-- delays, and a finished one has had an attempt.
abbrev pub CountsFit : Status → ℕ → Type 0
CountsFit queued n = n ≤ 7
CountsFit sending n = n ≤ 7
CountsFit canceled n = n ≤ 7
CountsFit sent n = (0 < n) × (n ≤ 8)
CountsFit failed n = (0 < n) × (n ≤ 8)

-- Only a sent email has a time of sending.
abbrev pub SentAtFits : Status → ℕ → Type 0
SentAtFits sent at = Unit
SentAtFits _ at = at ≡ 0

pub record IsRow (e : Email) : Type 0 where
  pub counts : CountsFit e.status e.attempts
  pub sent_at : SentAtFits e.status e.sent_at

-- Ids grow along the table, and no two emails of one API key share an idempotency key.
pub record InOrder (x y : Email) : Type 0 where
  pub grows : x.id < y.id
  pub differs : same_idempotency y.api_key_id y.idempotency_key x ≡ false

pub record IsTable (rows : List Email) : Type 0 where
  pub each : All IsRow rows
  pub pairs : Pairwise InOrder rows

-- A change of rows that no index looks at.
pub record KeepsKeys (f : Email → Email) : Type 0 where
  pub id : (e : Email) → (f e).id ≡ e.id
  pub api_key : (e : Email) → (f e).api_key_id ≡ e.api_key_id
  pub idempotency : (e : Email) → (f e).idempotency_key ≡ e.idempotency_key

set_if-KeepsKeys : (p : Email → Bool) {f : Email → Email} → KeepsKeys f → KeepsKeys (set_if p f)
set_if-KeepsKeys p k = record {
  id = λ e. ground (arith, k.id e);
  api_key = λ e. ground (arith, k.api_key e);
  idempotency = λ e. ground (arith, k.idempotency e);
}

InOrder-keys : {g : Email → Email} → KeepsKeys g → (x y : Email) → InOrder x y → InOrder (g x) (g y)
unfolding same_idempotency
InOrder-keys {g} k x y h = record {
  grows = rw (k.id x, k.id y) h.grows;
  differs = rw (k.idempotency x, k.idempotency y, k.api_key x, k.api_key y) h.differs;
}

-- An update that keeps the keys, and makes rows of the rows that it meets, keeps the table.
pub update-IsTable :
    (p : Email → Bool) (f : Email → Email)
    → KeepsKeys f
    → (rows : List Email) → All (λ e. p e ≡ true → IsRow e → IsRow (f e)) rows
    → IsTable rows
    → IsTable (update p f rows)
update-IsTable p f k rows fits h = record {
  each = each_row rows fits h.each;
  pairs = Pairwise-update InOrder p f (InOrder-keys (set_if-KeepsKeys p k)) rows h.pairs;
}
  where
    one_row : (e : Email) → (p e ≡ true → IsRow e → IsRow (f e)) → IsRow e → IsRow (set_if p f e)
    one_row e fit r = elim (Bool-cases (p e)) [
      | inl met ↦ rw met (fit met r)
      | inr missed ↦ rw missed r
    ]

    each_row :
        (rows : List Email)
        → All (λ e. p e ≡ true → IsRow e → IsRow (f e)) rows
        → All IsRow rows
        → All IsRow (update p f rows)
    each_row [] fits h = tt
    each_row (e ∷ es) fits h = (one_row e fits.0 h.0, each_row es fits.1 h.1)

pub All-any : (P : Email → Type 0) → ((e : Email) → P e) → (rows : List Email) → All P rows
All-any P h [] = tt
All-any P h (e ∷ es) = (h e, All-any P h es)

pub next_id-lt :
    (rows : List Email) → All (λ (e : Email). e.id < next_id (λ (r : Email). r.id) rows) rows
unfolding next_id
next_id-lt [] = tt
next_id-lt (e ∷ es) = (
  ground arith,
  All-map (λ (x : Email). x.id < next_id (λ (r : Email). r.id) es)
      (λ (x : Email). x.id < next_id (λ (r : Email). r.id) (e ∷ es)) (λ x h. ground arith) es
      (next_id-lt es),
)

pub not_found :
    (q : Email → Bool) (rows : List Email) → find? q rows ≡ none → All (λ e. q e ≡ false) rows
not_found q [] h = tt
not_found q (e ∷ es) h = elim (Bool-cases (q e)) [
  | inl found ↦ cc (rw found at h)
  | inr other ↦ (other, not_found q es (rw other at h))
]
