-- ===== src/Store/Reads.antt =====
-- Statements that only read.
use doevoe.Base.{
  ℕ, List, [], ◌∷◌, Bool, true, none, some, ◌==◌, ==_refl, Bool-cases, inl, inr, find?, ◌≡◌, refl,
}
use doevoe.Store.Emails.{some_row, same_idempotency}
use doevoe.Store.{Email, Db, Store, Result, ok, exec, exec-ends}

module _ {A : Type 0} (g : Db → Result A) (s : Store) where
  -- A statement that only reads leaves the tables alone, and a result of its kind is read from them.
  pub exec_read :
      let (r, s') = exec (λ db. (g db, db)) s in
      (s'.db ≡ s.db) × ((a : A) → r ≡ ok a → g s.db ≡ ok a)
  exec_read =
      exec-ends (λ r db. (db ≡ s.db) × ((a : A) → r ≡ ok a → g s.db ≡ ok a)) (λ db. (g db, db)) s
        (λ m. (refl, λ a p. cc)) (refl, λ a p. p)

-- A row that is found by some condition is found by its id as well.
pub found_by_id :
    {A : Type 0} (id_of : A → ℕ) (p : A → Bool) (xs : List A) {k : A}
    → find? p xs ≡ some k
    → some_row (find? (λ x. id_of x == id_of k) xs) ≡ true
unfolding some_row
found_by_id id_of p [] h = cc
found_by_id id_of p (x ∷ xs) {k} h = elim (Bool-cases (p x)) [
  | inl met ↦
      let found : some x ≡ some k = rw met at h in
      let same : x ≡ k = cc in rw (same, ==_refl (id_of k))
  | inr missed ↦ elim (Bool-cases (id_of x == id_of k)) [
    | inl here ↦ rw here
    | inr elsewhere ↦ rw elsewhere (found_by_id id_of p xs (rw missed at h))
  ]
]

-- An email without an Idempotency-Key is not in the unique index.
pub unkeyed : (id : ℕ) (rows : List Email) → find? (same_idempotency id []) rows ≡ none
unfolding same_idempotency
unkeyed id [] = refl
unkeyed id (x ∷ xs) = unkeyed id xs
