-- ===== src/Store/Emails/Claim/Order.antt =====
-- ClaimDue takes the earliest emails, and at most as many as its limit.
use doevoe.Base.{
  ℕ, zero, suc, ◌+◌, ◌≤◌, ◌<◌, ◌≡◌, refl, Bool, true, false, ◌||◌, List, [], ◌∷◌, arith, ◌==◌,
  ==_refl, Bool-cases, inl, inr, All, All-map, Pairwise, select, affected, take, drop, length, leb,
  length-take,
}
use doevoe.Store.{Email}
use doevoe.Store.Emails.{insert_by_time, order_by_time, due_first, is_due, id_in}
use doevoe.Store.Emails.Invariant.{InOrder, All-any}
use doevoe.Store.Emails.Claim.{All-insert, All_of_take-drop, All_of_order, All_of_select}

abbrev IsEarlier : Email → Email → Type 0
IsEarlier x y = x.next_attempt_at ≤ y.next_attempt_at

insert-Pairwise :
    (e : Email) (xs : List Email) → Pairwise IsEarlier xs → Pairwise IsEarlier (insert_by_time e xs)
unfolding insert_by_time
insert-Pairwise e [] h = (tt, tt)
insert-Pairwise e (x ∷ xs) h = elim (Bool-cases (leb e.next_attempt_at x.next_attempt_at)) [
  | inl first ↦
      let le : IsEarlier e x = ground arith in
      rw first ((le, All-map (IsEarlier x) (IsEarlier e) (λ y r. omega arith) xs h.0), h)
  | inr later ↦
      rw later (All-insert (IsEarlier x) e xs (ground arith) h.0, insert-Pairwise e xs h.1)
]

order-Pairwise : (xs : List Email) → Pairwise IsEarlier (order_by_time xs)
unfolding order_by_time
order-Pairwise [] = tt
order-Pairwise (x ∷ xs) = insert-Pairwise x (order_by_time xs) (order-Pairwise xs)

-- The rows after a cut come after those before it.
AfterCut : List Email → Email → Type 0
AfterCut taken y = All (λ x. IsEarlier x y) taken

cut-After :
    (n : ℕ) (xs : List Email) → Pairwise IsEarlier xs → All (AfterCut (take n xs)) (drop n xs)
unfolding AfterCut
cut-After zero xs h = All-any _ (λ e. tt) xs
cut-After (suc n) [] h = tt
cut-After (suc n) (x ∷ xs) h = both n xs h.0 (cut-After n xs h.1)
  where
    both :
        (n : ℕ) (xs : List Email)
        → All (IsEarlier x) xs
        → All (AfterCut (take n xs)) (drop n xs)
        → All (AfterCut (x ∷ take n xs)) (drop n xs)
    both n xs a b = zip_drop (take n xs) n xs a b
      where
        zip_drop :
            (t : List Email) (n : ℕ) (xs : List Email)
            → All (IsEarlier x) xs
            → All (AfterCut t) (drop n xs)
            → All (AfterCut (x ∷ t)) (drop n xs)
        zip_drop t zero [] a b = tt
        zip_drop t zero (y ∷ ys) a b = ((a.0, b.0), zip_drop t zero ys a.1 b.1)
        zip_drop t (suc n) [] a b = tt
        zip_drop t (suc n) (y ∷ ys) a b = zip_drop t n ys a.1 b

id_in_self : (xs : List Email) → All (λ e. id_in xs e ≡ true) xs
unfolding id_in
id_in_self [] = tt
id_in_self (x ∷ xs) =
    (ground (arith, ==_refl x.id), All-map _ _ (λ e h. ground arith) xs (id_in_self xs))

-- An email that was due and was left is no earlier than any that was taken.
pub claimed_first :
    (limit at : ℕ) (rows : List Email)
    → All
        (λ (y : Email).
          is_due at y ≡ true
          → id_in (due_first limit at rows) y ≡ false
          → All (λ (x : Email). x.next_attempt_at ≤ y.next_attempt_at) (due_first limit at rows))
        rows
unfolding due_first AfterCut
claimed_first limit at rows =
    let sorted = order_by_time (select (is_due at) rows) in
    let taken = take limit sorted in
    All_of_select (λ y. id_in taken y ≡ false → AfterCut taken y) (is_due at) rows
      (All_of_order _ (select (is_due at) rows) (
        All_of_take-drop _ limit sorted (All-map _ _ (λ e t f. cc) taken (id_in_self taken)) (
          All-map (AfterCut taken) _ (λ e a _. a) (drop limit sorted)
            (cut-After limit sorted (order-Pairwise (select (is_due at) rows))))))

pub length-select : (p : Email → Bool) (xs : List Email) → length (select p xs) ≡ affected p xs
length-select p [] = refl
length-select p (x ∷ xs) = ground (arith, length-select p xs)

affected-or :
    (p q : Email → Bool) (xs : List Email)
    → affected (λ e. p e || q e) xs ≤ affected p xs + affected q xs
affected-or p q [] = omega arith
affected-or p q (x ∷ xs) = ground (arith, affected-or p q xs)

larger_ids :
    (id : ℕ) (xs : List Email)
    → All (λ (e : Email). id < e.id) xs
    → affected (λ (e : Email). e.id == id) xs ≡ 0
larger_ids id [] h = refl
larger_ids id (x ∷ xs) h = let rest = larger_ids id xs h.1 in ground arith

one_id :
    (id : ℕ) (xs : List Email) → Pairwise InOrder xs → affected (λ (e : Email). e.id == id) xs ≤ 1
one_id id [] h = omega arith
one_id id (x ∷ xs) h = elim (Bool-cases (x.id == id)) [
  | inl here ↦
      rw
        (
          here,
          larger_ids id xs (
              All-map (InOrder x) (λ (e : Email). id < e.id)
                (λ e r. let g = r.grows in ground arith) xs h.0),
        )
        (omega arith)
  | inr later ↦ rw later (one_id id xs h.1)
]

no_ids : (xs : List Email) → affected (id_in []) xs ≡ 0
unfolding id_in
no_ids [] = refl
no_ids (x ∷ xs) = no_ids xs

ids_affected :
    (taken xs : List Email) → Pairwise InOrder xs → affected (id_in taken) xs ≤ length taken
unfolding id_in
ids_affected [] xs h = rw (no_ids xs) (omega arith)
ids_affected (t ∷ ts) xs h = omega (
  arith,
  affected-or (λ (e : Email). e.id == t.id) (id_in ts) xs,
  one_id t.id xs h,
  ids_affected ts xs h,
)

-- The rows that ClaimDue returns are at most `limit`.
pub length-claimed :
    (limit at : ℕ) (rows after : List Email)
    → Pairwise InOrder after
    → length (select (id_in (due_first limit at rows)) after) ≤ limit
length-claimed limit at rows after h =
    let taken = due_first limit at rows in
    rw (length-select (id_in taken) after) (omega (arith, ids_affected taken after h, short))
  where
    short : length (due_first limit at rows) ≤ limit
    short = unfold due_first in length-take limit (order_by_time (select (is_due at) rows))
