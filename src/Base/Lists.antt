-- ===== src/Base/Lists.antt =====
-- Lists over the native numbers, and tables: lists of rows that are searched, updated and counted
-- by a condition, as the SQL statements of the store do.
use Prim.Native.Nat.{ℕ, zero, suc, ◌+◌, ◌≤◌, ◌<◌}
use mathlib.Core.Path.{◌≡◌, refl, sym, ap, ◌∙◌, subst}
use mathlib.Core.Logic.{◌≢◌, ◌⊎◌, inl, inr}
use mathlib.Core.Bool.{Bool, true}
use mathlib.Core.List.{List, [], ◌∷◌, ◌++◌, map}
use mathlib.Core.Option
use mathlib.Core.Option.{Option, none, some, some-injective}
use native.Mathlib.Omega.{arith}
use doevoe.Base.Tests.{if◌then◌else◌, Bool-cases}

module _ {ℓ} {A : Type ℓ} where
  abbrev pub length : List A → ℕ
  length [] = 0
  length (x ∷ xs) = suc (length xs)

  abbrev pub take : ℕ → List A → List A
  take zero xs = []
  take (suc n) [] = []
  take (suc n) (x ∷ xs) = x ∷ take n xs

  abbrev pub drop : ℕ → List A → List A
  drop zero xs = xs
  drop (suc n) [] = []
  drop (suc n) (x ∷ xs) = drop n xs

  abbrev pub get_elem? : List A → ℕ → Option A
  get_elem? [] i = none
  get_elem? (x ∷ xs) zero = some x
  get_elem? (x ∷ xs) (suc i) = get_elem? xs i

  abbrev pub All {κ} : (A → Type κ) → List A → Type κ
  All P [] = Unit
  All P (x ∷ xs) = P x × All P xs

  -- SELECT ... WHERE p, of which the program reads the first row.
  abbrev pub find? : (A → Bool) → List A → Option A
  find? p [] = none
  find? p (x ∷ xs) = if p x then some x else find? p xs

  -- SELECT ... WHERE p
  abbrev pub select : (A → Bool) → List A → List A
  select p [] = []
  select p (x ∷ xs) = let rest = select p xs in if p x then x ∷ rest else rest

  -- What UPDATE ... SET f WHERE p does to one row, and to the table.
  abbrev pub set_if : (A → Bool) → (A → A) → A → A
  set_if p f x = if p x then f x else x

  abbrev pub update : (A → Bool) → (A → A) → List A → List A
  update p f [] = []
  update p f (x ∷ xs) = set_if p f x ∷ update p f xs

  -- RowsAffected
  abbrev pub affected : (A → Bool) → List A → ℕ
  affected p [] = 0
  affected p (x ∷ xs) = let rest = affected p xs in if p x then suc rest else rest

  pub length-take : (n : ℕ) (xs : List A) → length (take n xs) ≤ n
  length-take zero xs = omega arith
  length-take (suc n) [] = omega arith
  length-take (suc n) (x ∷ xs) = omega (arith, length-take n xs)

  pub drop-append : (xs ys : List A) → drop (length xs) (xs ++ ys) ≡ ys
  drop-append [] ys = refl
  drop-append (x ∷ xs) ys = drop-append xs ys

  pub take_all : (n : ℕ) (xs : List A) → length xs ≤ n → take n xs ≡ xs
  take_all zero [] h = refl
  take_all zero (x ∷ xs) h = ground (arith, h)
  take_all (suc n) [] h = refl
  take_all (suc n) (x ∷ xs) h = ap (λ (ys : List A). x ∷ ys) (take_all n xs (omega (arith, h)))

  pub take-take-suc : (n : ℕ) (xs : List A) → take n (take (suc n) xs) ≡ take n xs
  take-take-suc zero xs = refl
  take-take-suc (suc n) [] = refl
  take-take-suc (suc n) (x ∷ xs) = ap (λ (ys : List A). x ∷ ys) (take-take-suc n xs)

  pub length-take_short : (n : ℕ) (xs : List A) → length (take n xs) < n → length xs < n
  length-take_short zero xs h = ground (arith, h)
  length-take_short (suc n) [] h = omega arith
  length-take_short (suc n) (x ∷ xs) h = omega (arith, length-take_short n xs (omega (arith, h)))

  pub take-drop : (n : ℕ) (xs : List A) → take n xs ++ drop n xs ≡ xs
  take-drop zero xs = refl
  take-drop (suc n) [] = refl
  take-drop (suc n) (x ∷ xs) = ap (λ (ys : List A). x ∷ ys) (take-drop n xs)

  drop_nil : (n : ℕ) → drop n [] ≡ []
  drop_nil zero = refl
  drop_nil (suc n) = refl

  pub drop-drop : (m n : ℕ) (xs : List A) → drop n (drop m xs) ≡ drop (m + n) xs
  drop-drop zero n xs = ap (λ (k : ℕ). drop k xs) (omega arith)
  drop-drop (suc m) n [] = drop_nil n ∙ sym (drop_nil (suc m + n))
  drop-drop (suc m) n (x ∷ xs) =
      drop-drop m n xs
      ∙ ap (λ (k : ℕ). drop k (x ∷ xs)) {x = suc (m + n)} {y = suc m + n} (omega arith)

  pub drop_all : (n : ℕ) (xs : List A) → length xs ≤ n → drop n xs ≡ []
  drop_all zero [] h = refl
  drop_all zero (x ∷ xs) h = ground (arith, h)
  drop_all (suc n) [] h = refl
  drop_all (suc n) (x ∷ xs) h = drop_all n xs (omega (arith, h))

  pub length-append : (xs ys : List A) → length (xs ++ ys) ≡ length xs + length ys
  length-append [] ys = omega arith
  length-append (x ∷ xs) ys = omega (arith, length-append xs ys)

  pub All-append {κ} : (P : A → Type κ) (xs ys : List A) → All P xs → All P ys → All P (xs ++ ys)
  All-append P [] ys hx hy = hy
  All-append P (x ∷ xs) ys hx hy = (hx.0, All-append P xs ys hx.1 hy)

  -- An update that keeps the key of every row is seen by a search for a key as a change of the row.
  pub find?-update :
      (q p : A → Bool) (f : A → A)
      → ((x : A) → q (f x) ≡ q x)
      → (xs : List A) → find? q (update p f xs) ≡ Option.map (set_if p f) (find? q xs)
  find?-update q p f keep [] = refl
  find?-update q p f keep (x ∷ xs) = ground (arith, keep x, find?-update q p f keep xs)

  abbrev pub or_else : Option A → Option A → Option A
  or_else none o = o
  or_else (some x) o = some x

  pub find?-append :
      (q : A → Bool) (xs ys : List A) → find? q (xs ++ ys) ≡ or_else (find? q xs) (find? q ys)
  find?-append q [] ys = refl
  find?-append q (x ∷ xs) ys = ground (arith, find?-append q xs ys)

  pub All-update {κ} :
      (P : A → Type κ) (p : A → Bool) (f : A → A)
      → ((x : A) → P x → P (set_if p f x))
      → (xs : List A) → All P xs
      → All P (update p f xs)
  All-update P p f keep [] h = tt
  All-update P p f keep (x ∷ xs) h = (keep x h.0, All-update P p f keep xs h.1)

  -- What a search finds satisfies its condition, and whatever all rows satisfy.
  pub find?-eq-some : (q : A → Bool) (xs : List A) {x : A} → find? q xs ≡ some x → q x ≡ true
  find?-eq-some q [] e = cc
  find?-eq-some q (y ∷ xs) {x} e = ground (arith, find?-eq-some q xs {x = x})

  pub All-find? {κ} :
      (P : A → Type κ) (q : A → Bool) (xs : List A) {x : A} → All P xs → find? q xs ≡ some x → P x
  All-find? P q [] h e = cc
  All-find? P q (y ∷ xs) {x} h e = elim (Bool-cases (q y)) [
    | inl here ↦ subst P (some-injective y x (rw here at e)) h.0
    | inr later ↦ All-find? P q xs h.1 (rw later at e)
  ]

  abbrev pub Pairwise {κ} : (A → A → Type κ) → List A → Type κ
  Pairwise R [] = Unit
  Pairwise R (x ∷ xs) = All (R x) xs × Pairwise R xs

module _ {ℓ} {A : Type ℓ} where
  pub All-map {κ μ} :
      (P : A → Type κ) (Q : A → Type μ)
      → ((x : A) → P x → Q x)
      → (xs : List A) → All P xs
      → All Q xs
  All-map P Q f [] h = tt
  All-map P Q f (x ∷ xs) h = (f x h.0, All-map P Q f xs h.1)

  pub All-zip {κ μ} :
      (P : A → Type κ) (Q : A → Type μ) (xs : List A)
      → All P xs
      → All Q xs
      → All (λ x. P x × Q x) xs
  All-zip P Q [] h k = tt
  All-zip P Q (x ∷ xs) h k = ((h.0, k.0), All-zip P Q xs h.1 k.1)

  -- The rows that a condition selects, with the condition.
  pub All-select {κ} :
      (P : A → Type κ) (p : A → Bool) (xs : List A)
      → All P xs
      → All (λ x. P x × (p x ≡ true)) (select p xs)
  All-select P p [] h = tt
  All-select P p (x ∷ xs) h = elim (Bool-cases (p x)) [
    | inl yes_p ↦ rw yes_p ((h.0, yes_p), All-select P p xs h.1)
    | inr no_p ↦ rw no_p (All-select P p xs h.1)
  ]

  pub Pairwise-update {κ} :
      (R : A → A → Type κ) (p : A → Bool) (f : A → A)
      → ((x y : A) → R x y → R (set_if p f x) (set_if p f y))
      → (xs : List A) → Pairwise R xs
      → Pairwise R (update p f xs)
  Pairwise-update R p f keep [] h = tt
  Pairwise-update R p f keep (x ∷ xs) h = (All-set x xs h.0, Pairwise-update R p f keep xs h.1)
    where
      All-set : (x : A) (xs : List A) → All (R x) xs → All (R (set_if p f x)) (update p f xs)
      All-set x [] h = tt
      All-set x (y ∷ ys) h = (keep x y h.0, All-set x ys h.1)

  pub Pairwise-append {κ} :
      (R : A → A → Type κ) (xs : List A) (y : A)
      → Pairwise R xs
      → All (λ x. R x y) xs
      → Pairwise R (xs ++ y ∷ [])
  Pairwise-append R [] y h k = (tt, tt)
  Pairwise-append R (x ∷ xs) y h k =
      (All-append (R x) xs (y ∷ []) h.0 (k.0, tt), Pairwise-append R xs y h.1 k.1)

  pub Pairwise-select {κ} :
      (R : A → A → Type κ) (p : A → Bool) (xs : List A) → Pairwise R xs → Pairwise R (select p xs)
  Pairwise-select R p [] h = tt
  Pairwise-select R p (x ∷ xs) h = elim (Bool-cases (p x)) [
    | inl yes_p ↦ rw yes_p (
      All-map (λ y. R x y × (p y ≡ true)) (R x) (λ y r. r.0) (select p xs)
          (All-select (R x) p xs h.0),
      Pairwise-select R p xs h.1,
    )
    | inr no_p ↦ rw no_p (Pairwise-select R p xs h.1)
  ]

module _ {ℓ} {A : Type ℓ} where
  -- Two lists of one length whose elements are related place by place.
  abbrev pub Related : (A → A → Type 0) → List A → List A → Type 0
  Related R [] [] = Unit
  Related R [] (y ∷ ys) = ⊥
  Related R (x ∷ xs) [] = ⊥
  Related R (x ∷ xs) (y ∷ ys) = R x y × Related R xs ys

  pub Related-refl : (R : A → A → Type 0) → ((x : A) → R x x) → (xs : List A) → Related R xs xs
  Related-refl R same [] = tt
  Related-refl R same (x ∷ xs) = (same x, Related-refl R same xs)

  pub Related-trans :
      (R : A → A → Type 0)
      → ((x y z : A) → R x y → R y z → R x z)
      → (xs ys zs : List A) → Related R xs ys
      → Related R ys zs
      → Related R xs zs
  Related-trans R both [] [] [] p q = tt
  Related-trans R both [] [] (z ∷ zs) p q = absurd q
  Related-trans R both [] (y ∷ ys) zs p q = absurd p
  Related-trans R both (x ∷ xs) [] zs p q = absurd p
  Related-trans R both (x ∷ xs) (y ∷ ys) [] p q = absurd q
  Related-trans R both (x ∷ xs) (y ∷ ys) (z ∷ zs) p q =
      (both x y z p.0 q.0, Related-trans R both xs ys zs p.1 q.1)

  pub Related-update :
      (R : A → A → Type 0) (p : A → Bool) (f : A → A)
      → ((x : A) → R x x)
      → ((x : A) → p x ≡ true → R x (f x))
      → (xs : List A) → Related R xs (update p f xs)
  Related-update R p f same changed [] = tt
  Related-update R p f same changed (x ∷ xs) = (
    elim (Bool-cases (p x)) [ inl met ↦ rw met (changed x met) | inr missed ↦ rw missed (same x) ],
    Related-update R p f same changed xs,
  )

  -- Membership, by recursion.
  abbrev pub IsIn : A → List A → Type ℓ
  IsIn x [] = x ≢ x
  IsIn x (y ∷ ys) = (x ≡ y) ⊎ IsIn x ys

  All-IsIn_later :
      (y : A) (ys xs : List A) → All (λ x. IsIn x ys) xs → All (λ x. IsIn x (y ∷ ys)) xs
  All-IsIn_later y ys [] h = tt
  All-IsIn_later y ys (x ∷ xs) h = (inr h.0, All-IsIn_later y ys xs h.1)

  pub All-IsIn : (xs : List A) → All (λ x. IsIn x xs) xs
  All-IsIn [] = tt
  All-IsIn (x ∷ xs) = (inl refl, All-IsIn_later x xs xs (All-IsIn xs))

pub length-map {ℓ κ} :
    {A : Type ℓ} {B : Type κ} (f : A → B) (xs : List A) → length (map f xs) ≡ length xs
length-map f [] = refl
length-map f (x ∷ xs) = ap (λ (n : ℕ). suc n) (length-map f xs)
