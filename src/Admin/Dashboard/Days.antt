-- ===== src/Admin/Dashboard/Days.antt =====
-- The counts of the days, with the gaps filled, add up to those of the emails.
use doevoe.Base.{
  ℕ, zero, suc, ◌<◌, ◌+◌, ◌==◌, ==_iff, leb, ltb, ◌≡◌, refl, sym, ap, ◌∙◌, Bool, true, false, ◌&&◌,
  List, [], ◌∷◌, arith, if◌then◌else◌, find?, affected, All, All-map, Pairwise, Bool-cases, inl,
  inr,
}
use doevoe.Store.{Email}
use doevoe.Store.Stats.{DayCount, by_day, count_day, day_of, is_failed, is_sent, one_if}
use doevoe.Admin.Dashboard.{count_or_zero, fill}

-- The days of a list grow.
abbrev Before : DayCount → DayCount → Type 0
Before a b = a.date < b.date

count_day-after :
    (m : ℕ) (e : Email) (ds : List DayCount)
    → m < day_of e.created_at
    → All (λ (d : DayCount). m < d.date) ds
    → All (λ (d : DayCount). m < d.date) (count_day e ds)
unfolding count_day
count_day-after m e [] later h = (later, tt)
count_day-after m e (d ∷ ds) later h = elim (Bool-cases (day_of e.created_at == d.date)) [
  | inl same ↦ rw same h
  | inr other ↦ elim (Bool-cases (ltb (day_of e.created_at) d.date)) [
    | inl earlier ↦ rw (other, earlier) (later, h)
    | inr after ↦ rw (other, after) (h.0, count_day-after m e ds later h.1)
  ]
]

count_day-Pairwise :
    (e : Email) (ds : List DayCount) → Pairwise Before ds → Pairwise Before (count_day e ds)
unfolding count_day
count_day-Pairwise e [] h = (tt, tt)
count_day-Pairwise e (d ∷ ds) h = elim (Bool-cases (day_of e.created_at == d.date)) [
  | inl same ↦ rw same h
  | inr other ↦ elim (Bool-cases (ltb (day_of e.created_at) d.date)) [
    | inl earlier ↦
        let lt : day_of e.created_at < d.date = ground (arith, earlier) in
        rw (other, earlier)
          ((lt, All-map _ _ (λ (x : DayCount) far. omega (arith, far, lt)) ds h.0), h)
    | inr after ↦
        let gt : d.date < day_of e.created_at = ground (arith, other, after) in
        rw (other, after) (count_day-after d.date e ds gt h.0, count_day-Pairwise e ds h.1)
  ]
]

pub by_day-Pairwise : (es : List Email) → Pairwise Before (by_day es)
unfolding by_day
by_day-Pairwise [] = tt
by_day-Pairwise (e ∷ es) = count_day-Pairwise e (by_day es) (by_day-Pairwise es)

-- One of the two counts of a day, with its test of an email.
module _ (val : DayCount → ℕ) (test : Email → Bool)
    (none_yet : (date : ℕ) → val (record { date = date; sent = 0; failed = 0 }) ≡ 0)
    (first_one : (date : ℕ) (e : Email)
      → val (record { date = date; sent = one_if (is_sent e); failed = one_if (is_failed e) })
        ≡ one_if (test e))
    (one_more : (e : Email) (d : DayCount)
      → val (record {
        date = d.date;
        sent = one_if (is_sent e) + d.sent;
        failed = one_if (is_failed e) + d.failed;
      })
        ≡ one_if (test e) + val d)
    (same_counts : (date : ℕ) (d : DayCount)
      → val (record { date = date; sent = d.sent; failed = d.failed }) ≡ val d) where
  at_day : ℕ → List DayCount → ℕ
  at_day date [] = 0
  at_day date (d ∷ ds) = if d.date == date then val d else at_day date ds

  at_day_none :
      (date : ℕ) (ds : List DayCount)
      → All (λ (d : DayCount). date < d.date) ds
      → at_day date ds ≡ 0
  unfolding at_day
  at_day_none date [] h = refl
  at_day_none date (d ∷ ds) h = ground (arith, h.0, at_day_none date ds h.1)

  at_day-count_day :
      (date : ℕ) (e : Email) (ds : List DayCount)
      → Pairwise Before ds
      → at_day date (count_day e ds)
        ≡ one_if (day_of e.created_at == date && test e) + at_day date ds
  unfolding at_day count_day
  at_day-count_day date e [] h = ground (arith, first_one (day_of e.created_at) e)
  at_day-count_day date e (d ∷ ds) h = elim (Bool-cases (day_of e.created_at == d.date)) [
    | inl same ↦
        rw same (
          let eq = (==_iff (day_of e.created_at) d.date).0 same in ground (arith, one_more e d, eq))
    | inr other ↦ elim (Bool-cases (ltb (day_of e.created_at) d.date)) [
      | inl earlier ↦
          let lt : day_of e.created_at < d.date = ground (arith, earlier) in
          let rest =
            at_day_none (day_of e.created_at) ds
              (All-map _ _ (λ (x : DayCount) far. omega (arith, far, lt)) ds h.0) in
          rw (other, earlier)
            (front date (day_of e.created_at) e d ds (first_one (day_of e.created_at) e) lt rest)
      | inr after ↦
          rw (other, after)
            (let gt : d.date < day_of e.created_at = ground (arith, other, after) in
              ground (arith, gt, at_day-count_day date e ds h.1))
    ]
  ]
    where
      front :
          (date on : ℕ) (e : Email) (d : DayCount) (ds : List DayCount)
          → val (record { date = on; sent = one_if (is_sent e); failed = one_if (is_failed e) })
            ≡ one_if (test e)
          → on < d.date
          → at_day on ds ≡ 0
          → at_day date (
              record { date = on; sent = one_if (is_sent e); failed = one_if (is_failed e) }
              ∷ d
              ∷ ds)
            ≡ one_if (on == date && test e) + at_day date (d ∷ ds)
      front date on e d ds new lt none_left = elim (Bool-cases (on == date)) [
        | inl here ↦
            let eq : on ≡ date = (==_iff on date).0 here in
            let apart : (d.date == date) ≡ false = ground (arith, lt, eq) in
            let gone : at_day date ds ≡ 0 = ap (λ (n : ℕ). at_day n ds) (sym eq) ∙ none_left in
            rw (here, new, apart, gone) (omega arith)
        | inr elsewhere ↦ rw elsewhere (omega arith)
      ]

  abbrev pub total : List DayCount → ℕ
  total [] = 0
  total (d ∷ ds) = val d + total ds

  val-count_or_zero :
      (date : ℕ) (ds : List DayCount)
      → val (count_or_zero date (find? (λ (d : DayCount). d.date == date) ds)) ≡ at_day date ds
  unfolding at_day
  val-count_or_zero date [] = none_yet date
  val-count_or_zero date (d ∷ ds) = elim (Bool-cases (d.date == date)) [
    | inl here ↦ rw here (same_counts date d)
    | inr elsewhere ↦ rw elsewhere (val-count_or_zero date ds)
  ]

  fill-count_day :
      (e : Email) (ds : List DayCount) (first n : ℕ)
      → Pairwise Before ds
      → total (fill (count_day e ds) first n)
        ≡ one_if
            (leb first (day_of e.created_at) && ltb (day_of e.created_at) (first + n) && test e)
          + total (fill ds first n)
  unfolding fill
  fill-count_day e ds first zero h = ground arith
  fill-count_day e ds first (suc n) h =
      joined (day_of e.created_at) first n (test e) _ _ _ _
        (val-count_or_zero first (count_day e ds)
          ∙ at_day-count_day first e ds h
          ∙ ap (λ (m : ℕ). one_if (day_of e.created_at == first && test e) + m)
              (sym (val-count_or_zero first ds)))
        (fill-count_day e ds (suc first) n h)
    where
      joined :
          (on first n : ℕ) (counted : Bool) (a b c d : ℕ)
          → a ≡ one_if (on == first && counted) + b
          → c ≡ one_if (leb (suc first) on && ltb on (suc first + n) && counted) + d
          → a + c ≡ one_if (leb first on && ltb on (first + suc n) && counted) + (b + d)
      joined on first n false a b c d p q = ground (arith, p, q)
      joined on first n true a b c d p q = ground (arith, p, q)

  fill_nil : (first n : ℕ) → total (fill [] first n) ≡ 0
  unfolding fill
  fill_nil first zero = refl
  fill_nil first (suc n) = omega (arith, none_yet first, fill_nil (suc first) n)

  pub fill-by_day :
      (es : List Email) (first n : ℕ)
      → All
          (λ (e : Email).
            (leb first (day_of e.created_at) && ltb (day_of e.created_at) (first + n)) ≡ true)
          es
      → total (fill (by_day es) first n) ≡ affected test es
  unfolding by_day
  fill-by_day [] first n h = fill_nil first n
  fill-by_day (e ∷ es) first n h =
      fill-count_day e (by_day es) first n (by_day-Pairwise es)
      ∙ counted (leb first (day_of e.created_at)) (ltb (day_of e.created_at) (first + n)) (test e) _
          _ h.0 (fill-by_day es first n h.1)
    where
      counted :
          (lo hi counts : Bool) (a b : ℕ)
          → (lo && hi) ≡ true
          → a ≡ b
          → one_if (lo && hi && counts) + a ≡ (if counts then suc b else b)
      counted lo hi counts a b inside same = ground (arith, inside, same)
