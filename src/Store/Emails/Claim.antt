-- ===== src/Store/Emails/Claim.antt =====
-- Which emails ClaimDue takes: lemmas on the order by time, on LIMIT and on `id IN (...)`.
pub mod Order
pub mod Count
pub mod Contract
use doevoe.Base.{
  ℕ, zero, suc, ◌+◌, ◌≤◌, ◌<◌, ◌≡◌, refl, Bool, true, false, ◌&&◌, ◌||◌, List, [], ◌∷◌, ◌++◌, arith,
  ◌==◌, ==_iff, ==_refl, ap, subst, sym, Bool-cases, inl, inr, All, All-map, All-zip, All-append,
  Pairwise, select, affected, take, drop, length, leb,
}
use doevoe.Store.{Email}
use doevoe.Store.Emails.{insert_by_time, order_by_time, due_first, is_due, id_in}
use doevoe.Store.Emails.Invariant.{InOrder, All-any}

-- Rows with one id are one row.
abbrev pub IsOnly : List Email → Email → Type 0
IsOnly rows x = All (λ (e : Email). e.id ≡ x.id → e ≡ x) rows

pub rows_unique : (rows : List Email) → Pairwise InOrder rows → All (IsOnly rows) rows
rows_unique [] h = tt
rows_unique (x ∷ xs) h = (
  (
    (λ e. refl),
    All-map (InOrder x) (λ (e : Email). e.id ≡ x.id → e ≡ x)
        (λ e r p. absurd (omega (arith, r.grows))) xs h.0,
  ),
  All-map (λ (y : Email). InOrder x y × IsOnly xs y) (IsOnly (x ∷ xs))
      (λ y r. ((λ p. absurd (omega (arith, r.0.grows))), r.1)) xs
      (All-zip (InOrder x) (IsOnly xs) xs h.0 (rows_unique xs h.1)),
)

module _ (P : Email → Type 0) where
  pub All-insert : (e : Email) (xs : List Email) → P e → All P xs → All P (insert_by_time e xs)
  unfolding insert_by_time
  All-insert e [] p h = (p, tt)
  All-insert e (x ∷ xs) p h = elim (Bool-cases (leb e.next_attempt_at x.next_attempt_at)) [
    | inl first ↦ rw first (p, h)
    | inr later ↦ rw later (h.0, All-insert e xs p h.1)
  ]

  All_of_insert : (e : Email) (xs : List Email) → All P (insert_by_time e xs) → P e × All P xs
  unfolding insert_by_time
  All_of_insert e [] h = h
  All_of_insert e (x ∷ xs) h = elim (Bool-cases (leb e.next_attempt_at x.next_attempt_at)) [
    | inl first ↦ rw first at h
    | inr later ↦
        let here : P x × All P (insert_by_time e xs) = rw later at h in
        let (p, rest) = All_of_insert e xs here.1 in (p, (here.0, rest))
  ]

  pub All-order : (xs : List Email) → All P xs → All P (order_by_time xs)
  unfolding order_by_time
  All-order [] h = tt
  All-order (x ∷ xs) h = All-insert x (order_by_time xs) h.0 (All-order xs h.1)

  pub All_of_order : (xs : List Email) → All P (order_by_time xs) → All P xs
  unfolding order_by_time
  All_of_order [] h = tt
  All_of_order (x ∷ xs) h =
      let (p, rest) = All_of_insert x (order_by_time xs) h in (p, All_of_order xs rest)

  pub All-select_if :
      (p : Email → Bool) (xs : List Email) → All (λ x. p x ≡ true → P x) xs → All P (select p xs)
  All-select_if p [] h = tt
  All-select_if p (x ∷ xs) h = elim (Bool-cases (p x)) [
    | inl met ↦ rw met (h.0 met, All-select_if p xs h.1)
    | inr missed ↦ rw missed (All-select_if p xs h.1)
  ]

  pub All_of_select :
      (p : Email → Bool) (xs : List Email) → All P (select p xs) → All (λ x. p x ≡ true → P x) xs
  All_of_select p [] h = tt
  All_of_select p (x ∷ xs) h = elim (Bool-cases (p x)) [
    | inl met ↦
        let both : P x × All P (select p xs) = rw met at h in
        ((λ _. both.0), All_of_select p xs both.1)
    | inr missed ↦ ((λ m. cc), All_of_select p xs (rw missed at h))
  ]

  pub All-take : (n : ℕ) (xs : List Email) → All P xs → All P (take n xs)
  All-take zero xs h = tt
  All-take (suc n) [] h = tt
  All-take (suc n) (x ∷ xs) h = (h.0, All-take n xs h.1)

  pub All_of_take-drop :
      (n : ℕ) (xs : List Email) → All P (take n xs) → All P (drop n xs) → All P xs
  All_of_take-drop zero xs t d = d
  All_of_take-drop (suc n) [] t d = tt
  All_of_take-drop (suc n) (x ∷ xs) t d = (t.0, All_of_take-drop n xs t.1 d)

-- The rows whose id is in a list, where the rows with each id of the list have a property.
pub All-id_in :
    (Q : Email → Type 0) (rows taken : List Email)
    → All (λ (x : Email). All (λ (e : Email). e.id ≡ x.id → Q e) rows) taken
    → All (λ e. id_in taken e ≡ true → Q e) rows
unfolding id_in
All-id_in Q rows [] h = All-any (λ e. false ≡ true → Q e) (λ e p. cc) rows
All-id_in Q rows (x ∷ xs) h =
    All-map (λ (e : Email). (e.id ≡ x.id → Q e) × (id_in xs e ≡ true → Q e))
      (λ e. id_in (x ∷ xs) e ≡ true → Q e)
      (λ e both p.
        either (e.id == x.id) (id_in xs e) (λ t. both.0 ((==_iff e.id x.id).0 t)) both.1 p)
      rows
      (All-zip (λ (e : Email). e.id ≡ x.id → Q e) (λ e. id_in xs e ≡ true → Q e) rows h.0
        (All-id_in Q rows xs h.1))
  where
    either : {C : Type 0} (a b : Bool) → (a ≡ true → C) → (b ≡ true → C) → (a || b) ≡ true → C
    either true b f g p = f refl
    either false b f g p = g p

-- The emails that ClaimDue takes were due.
pub claimed-is_due :
    (limit at : ℕ) (rows : List Email)
    → Pairwise InOrder rows
    → All (λ e. id_in (due_first limit at rows) e ≡ true → is_due at e ≡ true) rows
unfolding due_first
claimed-is_due limit at rows h =
    All-id_in (λ e. is_due at e ≡ true) rows (take limit (order_by_time (select (is_due at) rows)))
      (All-take _ limit (order_by_time (select (is_due at) rows)) (
        All-order _ (select (is_due at) rows) (
          All-select_if _ (is_due at) rows (
            All-map (IsOnly rows) _
              (λ x only due.
                All-map _ _ (λ e same p. subst (λ y. is_due at y ≡ true) (sym (same p)) due) rows
                  only)
              rows (rows_unique rows h)))))
