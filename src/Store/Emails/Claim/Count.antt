-- ===== src/Store/Emails/Claim/Count.antt =====
-- ClaimDue takes no fewer emails than it may: every email of the subselect is in the table once.
use doevoe.Base.{
  ℕ, zero, suc, ◌+◌, ◌≤◌, ◌≡◌, refl, Bool, true, false, ◌||◌, List, [], ◌∷◌, arith, ◌==◌, ==_refl,
  Bool-cases, inl, inr, All, All-map, Pairwise, Pairwise-select, select, affected, take, drop,
  length, leb,
}
use doevoe.Store.{Email}
use doevoe.Store.Emails.{insert_by_time, order_by_time, due_first, is_due, id_in}
use doevoe.Store.Emails.Invariant.{InOrder, All-any}
use doevoe.Store.Emails.Claim.{
  All-insert, All-order, All-select_if, All-take, All_of_take-drop, All_of_order, All_of_select,
}

abbrev IsOther : Email → Email → Type 0
IsOther x y = (y.id == x.id) ≡ false

insert-IsOther :
    (e : Email) (xs : List Email)
    → All (IsOther e) xs
    → Pairwise IsOther xs
    → Pairwise IsOther (insert_by_time e xs)
unfolding insert_by_time
insert-IsOther e [] a h = (tt, tt)
insert-IsOther e (x ∷ xs) a h = elim (Bool-cases (leb e.next_attempt_at x.next_attempt_at)) [
  | inl first ↦ rw first (a, h)
  | inr later ↦
      let swapped : IsOther x e = let direct : IsOther e x = a.0 in ground arith in
      rw later (All-insert (IsOther x) e xs swapped h.0, insert-IsOther e xs a.1 h.1)
]

order-IsOther : (xs : List Email) → Pairwise IsOther xs → Pairwise IsOther (order_by_time xs)
unfolding order_by_time
order-IsOther [] h = tt
order-IsOther (x ∷ xs) h =
    insert-IsOther x (order_by_time xs) (All-order (IsOther x) xs h.0) (order-IsOther xs h.1)

take-IsOther : (n : ℕ) (xs : List Email) → Pairwise IsOther xs → Pairwise IsOther (take n xs)
take-IsOther zero xs h = tt
take-IsOther (suc n) [] h = tt
take-IsOther (suc n) (x ∷ xs) h = (All-take (IsOther x) n xs h.0, take-IsOther n xs h.1)

InOrder-IsOther : (xs : List Email) → Pairwise InOrder xs → Pairwise IsOther xs
InOrder-IsOther [] h = tt
InOrder-IsOther (x ∷ xs) h = (
  All-map (InOrder x) (IsOther x) (λ e r. let g = r.grows in ground arith) xs h.0,
  InOrder-IsOther xs h.1,
)

-- A row is among the rows.
IsCounted : List Email → Email → Type 0
IsCounted rows x = 1 ≤ affected (λ (e : Email). e.id == x.id) rows

rows-IsCounted : (rows : List Email) → All (IsCounted rows) rows
unfolding IsCounted
rows-IsCounted [] = tt
rows-IsCounted (x ∷ xs) = (
  rw (==_refl x.id) (omega arith),
  All-map (IsCounted xs) (IsCounted (x ∷ xs)) (λ e h. ground arith) xs (rows-IsCounted xs),
)

affected_disjoint :
    (p q : Email → Bool)
    → ((e : Email) → p e ≡ true → q e ≡ false)
    → (xs : List Email) → affected p xs + affected q xs ≤ affected (λ e. p e || q e) xs
affected_disjoint p q h [] = omega arith
affected_disjoint p q h (x ∷ xs) = ground (arith, h x, affected_disjoint p q h xs)

not_in :
    (t : Email) (ts : List Email)
    → All (IsOther t) ts
    → (e : Email) → (e.id == t.id) ≡ true
    → id_in ts e ≡ false
unfolding id_in
not_in t [] h e same = refl
not_in t (x ∷ xs) h e same = let other = h.0 in ground (arith, not_in t xs h.1 e)

affected_taken :
    (rows taken : List Email)
    → All (IsCounted rows) taken
    → Pairwise IsOther taken
    → length taken ≤ affected (id_in taken) rows
unfolding id_in IsCounted
affected_taken rows [] c h = omega arith
affected_taken rows (t ∷ ts) c h = omega (
  arith,
  c.0,
  affected_taken rows ts c.1 h.1,
  affected_disjoint (λ (e : Email). e.id == t.id) (id_in ts) (unfold id_in in not_in t ts h.0) rows,
)

-- If a row is left behind the cut, the cut is full.
cut_full : (n : ℕ) (xs : List Email) → All (λ y. n ≤ length (take n xs)) (drop n xs)
cut_full zero xs = All-any _ (λ e. omega arith) xs
cut_full (suc n) [] = tt
cut_full (suc n) (x ∷ xs) = All-map _ _ (λ y h. omega arith) (drop n xs) (cut_full n xs)

id_in_self : (xs : List Email) → All (λ e. id_in xs e ≡ true) xs
unfolding id_in
id_in_self [] = tt
id_in_self (x ∷ xs) =
    (ground (arith, ==_refl x.id), All-map _ _ (λ e h. ground arith) xs (id_in_self xs))

-- Where a due email was not taken, the subselect has as many emails as the limit.
pub due_first_full :
    (limit at : ℕ) (rows : List Email)
    → All
        (λ y.
          is_due at y ≡ true
          → id_in (due_first limit at rows) y ≡ false
          → limit ≤ length (due_first limit at rows))
        rows
unfolding due_first
due_first_full limit at rows =
    let sorted = order_by_time (select (is_due at) rows) in
    let taken = take limit sorted in
    All_of_select (λ y. id_in taken y ≡ false → limit ≤ length taken) (is_due at) rows
      (All_of_order _ (select (is_due at) rows) (
        All_of_take-drop _ limit sorted (All-map _ _ (λ e t f. cc) taken (id_in_self taken))
          (All-map _ _ (λ e l _. l) (drop limit sorted) (cut_full limit sorted))))

-- Each email of the subselect is a row of the table.
pub length-due_first :
    (limit at : ℕ) (rows : List Email)
    → Pairwise InOrder rows
    → length (due_first limit at rows) ≤ affected (id_in (due_first limit at rows)) rows
unfolding due_first
length-due_first limit at rows h =
    let due = select (is_due at) rows in
    affected_taken rows (take limit (order_by_time due))
      (All-take (IsCounted rows) limit (order_by_time due) (
        All-order (IsCounted rows) due (
          All-select_if (IsCounted rows) (is_due at) rows
            (All-map _ _ (λ x c _. c) rows (rows-IsCounted rows)))))
      (take-IsOther limit (order_by_time due)
        (order-IsOther due (Pairwise-select IsOther (is_due at) rows (InOrder-IsOther rows h))))
