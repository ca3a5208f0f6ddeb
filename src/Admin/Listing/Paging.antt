-- ===== src/Admin/Listing/Paging.antt =====
-- The pages of the email list, followed from the first by their links.
use doevoe.Base.{
  ℕ, ℤ, pos, negsuc, is_zero, zero, suc, ◌≤◌, ◌+◌, ◌*◌, ◌-◌, ◌≡◌, refl, sym, ap, ◌∙◌, ltb, ◌==◌,
  Text, Bool, false, Option, none, some, List, [], ◌∷◌, ◌++◌, arith, codes, if◌then◌else◌,
  Bool-cases, inl, inr, length, take, take_all, take-take-suc, take-drop, drop, drop-drop, drop_all,
}
use mathlib.Core.List.{append-nil}
use doevoe.Store.{Email, Store, ok, exec_reliable}
use doevoe.Store.Listing.{EmailFilter, fits_filter, list_emails, matching}
use doevoe.Admin.{Reply, page}
use doevoe.Admin.Periods.{Parsing, Query, get, EmailWindow, resolve_email_window}
use doevoe.Admin.Listing.{
  page_of, page_size, EmailsPage, emails_page, filter_of, link_to, list_emails_handler, show_emails,
}
use doevoe.Admin.Listing.Window.{resolved-link}

-- The values of a link that the filter is read from.
link_filter :
    (p : Parsing) (f : EmailFilter) (win : EmailWindow) (n : ℕ)
    → let q = link_to p f win n in
      (get (codes "status") q ≡ f.status)
      × (get (codes "q") q ≡ f.search)
      × (get (codes "page") q ≡ p.decimal n)
      × (get (codes "domain") q ≡ (if is_zero f.domain_id then [] else p.format_int f.domain_id))
unfolding link_to
link_filter p f win n = ground arith

-- The filter with its parts.
abbrev filter_with : Text → ℤ → Text → EmailWindow → ℕ → EmailFilter
filter_with status domain_id search win offset = record {
  status = status;
  domain_id = domain_id;
  search = search;
  created_from = win.created_from;
  created_to = win.created_to;
  limit = page_size + 1;
  offset = offset;
}

filter_with-ap :
    {a a' : Text} {d d' : ℤ} {s s' : Text} {w w' : EmailWindow} {o o' : ℕ}
    → a ≡ a'
    → d ≡ d'
    → s ≡ s'
    → w ≡ w'
    → o ≡ o'
    → filter_with a d s w o ≡ filter_with a' d' s' w' o'
filter_with-ap e g h k l = λ i. filter_with (e i) (g i) (h i) (k i) (l i)

from_one : (n : ℕ) → (if ltb (suc n) 1 then 1 else suc n) ≡ suc n
from_one n = ground arith

offset_of : (n : ℕ) → (suc n - 1) * page_size ≡ n * page_size
offset_of n = omega arith

-- The emails of the pages that the links "next" lead to, at most `k` of them.
rest_of : Option Query → (Query → List Email) → List Email
rest_of none more = []
rest_of (some q) more = more q

abbrev shown : (Query → List Email) → Reply EmailsPage → List Email
shown more (page code content) = content.emails ++ rest_of content.following more
shown more _ = []

unfoldable pub walk : Parsing → ℕ → Store → ℕ → Query → List Email
unfolding rest_of
walk p at s zero q = []
walk p at s (suc k) q = shown (walk p at s k) (list_emails_handler p q at s).0

page_lem :
    (more : Query → List Email) (p : Parsing) (f : EmailFilter) (win : EmailWindow) (n : ℕ)
    (rows : List Email) (s : Store)
    → shown more (show_emails p f win n (ok rows, s)).0 ≡ (
        if ltb page_size (length rows)
        then take page_size rows ++ more (link_to p f win (n + 1))
        else rows)
unfolding show_emails emails_page rest_of
page_lem more p f win n rows s = elim (Bool-cases (ltb page_size (length rows))) [
  | inl longer ↦ rw longer refl
  | inr last ↦ rw last (append-nil rows)
]

ltb-length-take : (n : ℕ) (xs : List Email) → ltb n (length (take (suc n) xs)) ≡ ltb n (length xs)
ltb-length-take n [] = refl
ltb-length-take zero (x ∷ xs) = ground arith
ltb-length-take (suc n) (x ∷ xs) = ground (arith, ltb-length-take n xs)

short : (n : ℕ) (xs : List Email) → ltb n (length xs) ≡ false → length xs ≤ n
short n xs h = ground (arith, h)

-- One row more than the page tells whether rows are left.
cut :
    (n : ℕ) (xs tail : List Email)
    → (if ltb n (length (take (suc n) xs))
        then take n (take (suc n) xs) ++ tail
        else take (suc n) xs)
      ≡ (if ltb n (length xs) then take n xs ++ tail else xs)
cut n xs tail = elim (Bool-cases (ltb n (length xs))) [
  | inl longer ↦ rw (ltb-length-take n xs, longer, take-take-suc n xs) refl
  | inr last ↦
      rw (ltb-length-take n xs, last) (take_all (suc n) xs (omega (arith, short n xs last)))
]

list_emails_reliable :
    (like : Text → Text → Bool) (f : EmailFilter) (s : Store)
    → s.faults ≡ []
    → list_emails like f s ≡ (
      ok (take (if f.limit == 0 then 50 else f.limit) (drop f.offset (matching like f s.emails))),
      s,
    )
unfolding list_emails
list_emails_reliable like f s h = exec_reliable _ s h

module _ (p : Parsing) (at : ℕ) (s : Store) where
  -- The rows that the filter of a query selects, from its place on.
  abbrev from_place : Query → List Email
  from_place q = drop (filter_of p q at).offset (matching p.like (filter_of p q at) s.emails)

  walk-suc :
      (k : ℕ) (q : Query)
      → s.faults ≡ []
      → let rest = from_place q in
        walk p at s (suc k) q ≡ (
          if ltb page_size (length rest)
          then take page_size rest
            ++ walk p at s k
                (link_to p (filter_of p q at) (resolve_email_window p q at) (page_of p q + 1))
          else rest)
  unfolding walk list_emails_handler
  walk-suc k q h = rw (list_emails_reliable p.like (filter_of p q at) s h) (
      page_lem (walk p at s k) p (filter_of p q at) (resolve_email_window p q at) (page_of p q)
        (take 51 (from_place q)) s
      ∙ cut page_size (from_place q) _)

matching-offset :
    (like : Text → Text → Bool) (f : EmailFilter) (n : ℕ) (es : List Email)
    → matching like (record f { offset = n }) es ≡ matching like f es
unfolding matching fits_filter
matching-offset like f n es = refl

-- A page and what follows it.
page_then_rest :
    (n : ℕ) (xs : List Email)
    → take page_size (drop (n * page_size) xs) ++ drop (suc n * page_size) xs
      ≡ drop (n * page_size) xs
page_then_rest n xs =
    ap (λ (ys : List Email). take page_size (drop (n * page_size) xs) ++ ys)
      (ap (λ (m : ℕ). drop m xs) {x = suc n * page_size} {y = n * page_size + page_size}
          (omega arith)
        ∙ sym (drop-drop (n * page_size) page_size xs))
    ∙ take-drop page_size (drop (n * page_size) xs)

offset_place :
    (p : Parsing) (q : Query) (at n : ℕ)
    → page_of p q ≡ suc n
    → (filter_of p q at).offset ≡ n * page_size
unfolding filter_of
offset_place p q at n number = ap (λ m. (m - 1) * page_size) number ∙ offset_of n

next_link :
    (p : Parsing) (f : EmailFilter) (win : EmailWindow) (n m : ℕ)
    → m ≡ suc n
    → link_to p f win (m + 1) ≡ link_to p f win (suc (suc n))
next_link p f win n m number =
    ap (link_to p f win) {x = m + 1} {y = suc (suc n)} (omega (arith, number))

module _ (p : Parsing) (no_date : p.date [] ≡ none) (no_domain : p.domain_number [] ≡ pos 0)
    (domains_read : (t : Text)
      → p.domain_number (p.format_int (p.domain_number t)) ≡ p.domain_number t)
    (pages_read : (n : ℕ) → p.page_number (p.decimal n) ≡ n) (at : ℕ) where
  page_of-link :
      (f : EmailFilter) (win : EmailWindow) (n : ℕ) → page_of p (link_to p f win (suc n)) ≡ suc n
  page_of-link f win n =
      let read : p.page_number (get (codes "page") (link_to p f win (suc n))) ≡ suc n =
        ap p.page_number (link_filter p f win (suc n)).2 ∙ pages_read (suc n) in
      ap (λ n. if ltb n 1 then 1 else n) read ∙ from_one n

  domain_of-link :
      (id : ℤ)
      → p.domain_number (p.format_int id) ≡ id
      → p.domain_number (if is_zero id then [] else p.format_int id) ≡ id
  domain_of-link (pos n) read = ground (arith, no_domain, read)
  domain_of-link (negsuc n) read = read

  -- The filter of a link is the filter of its page, at the link's place.
  filter_of-link :
      (q : Query) (n : ℕ)
      → let f = filter_of p q at in
        filter_of p (link_to p f (resolve_email_window p q at) (suc n)) at
        ≡ record f { offset = n * page_size }
  unfolding filter_of
  filter_of-link q n =
      let f = filter_of p q at in
      let win = resolve_email_window p q at in
      let values = link_filter p f win (suc n) in
      filter_with-ap values.0
        (ap p.domain_number values.3
          ∙ domain_of-link f.domain_id (domains_read (get (codes "domain") q)))
        values.1 (resolved-link p f q at (suc n) no_date)
        (ap (λ n. (n - 1) * page_size) (page_of-link f win n) ∙ offset_of n)

  walk-place :
      (s : Store)
      → s.faults ≡ []
      → (k n : ℕ) (q : Query) → page_of p q ≡ suc n
      → length (matching p.like (filter_of p q at) s.emails) ≤ (n + k) * page_size
      → walk p at s k q ≡ drop (n * page_size) (matching p.like (filter_of p q at) s.emails)
  unfolding walk
  walk-place s no_faults zero n q number fits =
      sym (drop_all (n * page_size) _ (omega (arith, fits)))
  walk-place s no_faults (suc k) n q number fits =
      let f = filter_of p q at in
      let all = matching p.like f s.emails in
      let win = resolve_email_window p q at in
      let link = link_to p f win (suc (suc n)) in
      let place : from_place p at s q ≡ drop (n * page_size) all =
        ap (λ (m : ℕ). drop m all) (offset_place p q at n number) in
      let same : matching p.like (filter_of p link at) s.emails ≡ all =
        ap (λ (g : EmailFilter). matching p.like g s.emails) (filter_of-link q (suc n))
        ∙ matching-offset p.like f (suc n * page_size) s.emails in
      let rest : walk p at s k link ≡ drop (suc n * page_size) all =
        walk-place s no_faults k (suc n) link (page_of-link f win (suc n))
          (omega (arith, fits, ap (λ (es : List Email). length es) same))
        ∙ ap (λ (es : List Email). drop (suc n * page_size) es) same in
      walk-suc p at s k q no_faults
      ∙ elim (Bool-cases (ltb page_size (length (drop (n * page_size) all)))) [
        | inl longer ↦
            rw (place, longer, next_link p f win n (page_of p q) number, rest)
              (page_then_rest n all)
        | inr last ↦ rw (place, last) refl
      ]

  -- If no date reads from an empty text, no domain's number reads from it, a domain's number that
  -- was read reads back as printed, so do page numbers, and the driver refuses nothing, then from
  -- the first page of the email list, following the links to the next page on one store at one
  -- time, the pages show all emails that match the filter of the query, each once, newest first, if
  -- the number of pages that are followed is enough for them.
  pub walk-matching :
      (s : Store)
      → s.faults ≡ []
      → (k : ℕ) (q : Query) → page_of p q ≡ 1
      → length (matching p.like (filter_of p q at) s.emails) ≤ k * page_size
      → walk p at s k q ≡ matching p.like (filter_of p q at) s.emails
  walk-matching s no_faults k q first fits =
      walk-place s no_faults k 0 q first (omega (arith, fits))
