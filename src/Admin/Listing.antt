-- ===== src/Admin/Listing.antt =====
-- internal/admin/admin.go: the list of emails, its links and its pages. The encoding of a link as a
-- URL is net/url's.
pub mod Window
pub mod Paging
pub mod Stepwise
use doevoe.Base.{
  ℕ, ℤ, is_zero, is_nat, ◌+◌, ◌-◌, ◌*◌, ◌==◌, ltb, leb, Text, Bool, true, false, not, ◌&&◌, ◌||◌,
  Option, none, some, List, [], ◌∷◌, ◌++◌, codes, text_eq, is_empty, if◌then◌else◌, length, take,
  map,
}
use doevoe.Store.{Email, Domain, Store, Result, ok, err, Error, error_text, hour, fmt_time}
use doevoe.Store.Domains.{list_domains}
use doevoe.Store.Listing.{EmailFilter, list_emails}
use doevoe.Admin.{Reply, http_error, page}
use doevoe.Admin.Emails.{list_or_nil}
use doevoe.Admin.Periods.{
  Parsing, day, Query, get, EmailRange, week_range, email_ranges, range_in, EmailWindow,
  preset_window, from_bound, to_bound, echoed, window_label, custom_labelled, custom_of,
  custom_window, preset_or_default, window_or, resolve_email_window,
}

abbrev pub set_unless : Bool → Text → Text → Query → Query
set_unless unset key v q = if unset then q else (key, v) ∷ q

-- The values of a link of the list, listURL; v.Set on a fresh map.
unfoldable pub link_to : Parsing → EmailFilter → EmailWindow → ℕ → Query
link_to p f win n = set_unless (is_empty f.status) (codes "status") f.status (
    set_unless (is_zero f.domain_id) (codes "domain") (p.format_int f.domain_id) (
      set_unless (is_empty f.search) (codes "q") f.search (
        (codes "range", win.range)
        ∷ set_unless (is_empty win.from_date) (codes "from") win.from_date (
            set_unless (is_empty win.to_date) (codes "to") win.to_date
              ((codes "page", p.decimal n) ∷ [])))))

abbrev pub page_size : ℕ
page_size = 50

-- The page of the query, counted from 1.
abbrev pub page_of : Parsing → Query → ℕ
page_of p q = let n = p.page_number (get (codes "page") q) in if ltb n 1 then 1 else n

unfoldable pub filter_of : Parsing → Query → ℕ → EmailFilter
unfolding resolve_email_window
filter_of p q at =
    let win = resolve_email_window p q at in
    record {
      status = get (codes "status") q;
      domain_id = p.domain_number (get (codes "domain") q);
      search = get (codes "q") q;
      created_from = win.created_from;
      created_to = win.created_to;
      limit = page_size + 1;
      offset = (page_of p q - 1) * page_size;
    }

-- rangeChip
pub record RangeChip : Type 0 where
  pub range : EmailRange
  pub link : Query
  pub active : Bool

-- The data of the page "emails"; a link that is none is an empty URL.
pub record EmailsPage : Type 0 where
  pub emails : List Email
  pub domains : List Domain
  pub filter : EmailFilter
  pub window : EmailWindow
  pub chips : List RangeChip
  pub filters_active : Bool
  pub filter_state : Text
  pub all_time : Query
  pub number : ℕ
  pub previous : Option Query
  pub following : Option Query
  pub current : Query

-- filterState
join_parts : List Text → Text
join_parts [] = []
join_parts (t ∷ []) = t
join_parts (t ∷ u ∷ ts) = t ++ (32 ∷ 194 ∷ 183 ∷ 32 ∷ []) ++ join_parts (u ∷ ts)

names_of : ℤ → List Domain → List Text
names_of id [] = []
names_of id (d ∷ ds) = let rest = names_of id ds in if is_nat id d.id then d.name ∷ rest else rest

unfoldable pub filter_state : Text → Text → ℤ → List Domain → Text
unfolding join_parts names_of
filter_state status search domain_id domains = join_parts (
    (if is_empty status then [] else status ∷ [])
    ++ (names_of domain_id domains
        ++ (if is_empty search then [] else (codes "\"" ++ search ++ codes "\"") ∷ [])))

range_window : Text → EmailWindow
range_window key = record {
  range = key;
  from_date = [];
  to_date = [];
  created_from = 0;
  created_to = 0;
  label = [];
}

emails_page : Parsing → EmailFilter → EmailWindow → ℕ → List Email → List Domain → EmailsPage
unfolding range_window
emails_page p f win n rows domains =
    let has_next = ltb page_size (length rows) in
    record {
      emails = if has_next then take page_size rows else rows;
      domains = domains;
      filter = f;
      window = win;
      chips =
          map
            (λ (r : EmailRange). record {
              range = r;
              link = link_to p f (range_window r.key) 1;
              active = text_eq r.key win.range;
            })
            email_ranges;
      filters_active =
          not (is_empty f.status)
          || not (is_empty f.search)
          || not (is_zero f.domain_id)
          || text_eq win.range (codes "custom");
      filter_state = filter_state f.status f.search f.domain_id domains;
      all_time = link_to p f (range_window (codes "all")) 1;
      number = n;
      previous = if ltb 1 n then some (link_to p f win (n - 1)) else none;
      following = if has_next then some (link_to p f win (n + 1)) else none;
      current = link_to p f win n;
    }

show_emails :
    Parsing → EmailFilter → EmailWindow → ℕ → Result (List Email) × Store → Reply EmailsPage × Store
unfolding emails_page
show_emails p f win n (err e, s) = (http_error 500 (error_text e), s)
show_emails p f win n (ok rows, s) =
    let (domains, s') = list_domains s in
    (page 200 (emails_page p f win n rows (list_or_nil domains)), s')

-- listEmails
unfoldable pub list_emails_handler : Parsing → Query → ℕ → Store → Reply EmailsPage × Store
unfolding show_emails filter_of resolve_email_window
list_emails_handler p q at s =
    let f = filter_of p q at in
    show_emails p f (resolve_email_window p q at) (page_of p q) (list_emails p.like f s)
