-- ===== src/Admin/Listing/Stepwise.antt =====
-- The list of emails only reads.
use doevoe.Base.{ℕ, refl, List}
use doevoe.Store.{Email, Store, Result, ok, err}
use doevoe.Store.Listing.{EmailFilter, list_emails}
use doevoe.Store.Calls.{Calls, still, both, list_emails-Calls, list_domains-Calls}
use doevoe.Admin.Periods.{Parsing, Query, EmailWindow, resolve_email_window}
use doevoe.Admin.Listing.{filter_of, page_of, show_emails, list_emails_handler}

pub list_emails_handler-Calls :
    (p : Parsing) (q : Query) (at : ℕ) (s : Store) → Calls s (list_emails_handler p q at s).1
unfolding list_emails_handler
list_emails_handler-Calls p q at s =
    let f = filter_of p q at in
    both (list_emails-Calls p.like f s) (
      of_rows f (resolve_email_window p q at) (page_of p q) (list_emails p.like f s).0
        (list_emails p.like f s).1)
  where
    of_rows :
        (f : EmailFilter) (win : EmailWindow) (n : ℕ) (r : Result (List Email)) (s' : Store)
        → Calls s' (show_emails p f win n (r, s')).1
    of_rows f win n (err e) s' = unfold show_emails in still refl
    of_rows f win n (ok rows) s' = unfold show_emails in list_domains-Calls s'
