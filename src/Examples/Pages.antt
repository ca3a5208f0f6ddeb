-- ===== src/Examples/Pages.antt =====
-- The operator's pages, the sessions, the keys and the published records, on concrete stores.
use doevoe.Base.{
  ℕ, ℤ, pos, negsuc, zero, suc, ◌≤◌, ◌*◌, ◌≡◌, ◌≢◌, refl, ap, Text, true, false, none, some, List,
  [], ◌∷◌, arith, codes, contains, text_eq, if◌then◌else◌, length, IsIn,
}
use doevoe.Store.{Domain, ApiKey, Store, exec, reliable}
use doevoe.Store.Domains.{get_domain, order_by_name}
use doevoe.Store.ApiKeys.{get_api_key_by_hash, revoke_api_key}
use doevoe.Store.Listing.{fits_filter, list_api_keys, matching, newest_first}
use doevoe.Store.Operator.{is_cancelable_row, is_requeueable_row}
use doevoe.Delivery.Message.{hex}
use doevoe.DnsCheck
use doevoe.DnsCheck.{Lookup, all_ok, check}
use doevoe.DkimKeys.{records}
use doevoe.DkimKeys.Published.{content_at, records-all_ok}
use doevoe.Server.{recheck, no_record}
use doevoe.Server.Recheck.{Domains, recheck-Checked}
use doevoe.Api.Requests.{auth, bearer_token}
use doevoe.Admin.{status_code, redirect}
use doevoe.Admin.Session.{authed, login}
use doevoe.Admin.Session.Granted.{Event, tried, visited, sessions_after, Granted, authed-Granted}
use doevoe.Admin.Emails.{retryable, cancelable, retry_email, cancel_email_handler}
use doevoe.Admin.Emails.Actions.{Acted, Readdress, Cancel, actions-Acted}
use doevoe.Admin.Periods.{Parsing, Query, window_label}
use doevoe.Admin.Listing.{filter_of, page_size}
use doevoe.Admin.Listing.Paging.{walk, walk-matching}
use doevoe.Admin.Keys.{revoke_key}
use doevoe.Admin.Keys.Lifetime.{revoked-refused}
use doevoe.Admin.Dashboard.{dashboard}
use doevoe.Admin.Dashboard.Totals.{IsBalanced, dashboard-IsBalanced}
use doevoe.Examples.Data.{a_time, a_key, a_db, a_store, an_env}

-- Numbers in unary, and no dates.
abbrev unary : ℕ → Text
unary zero = []
unary (suc n) = 49 ∷ unary n

abbrev unary_int : ℤ → Text
unary_int (pos n) = unary n
unary_int (negsuc n) = []

length-unary : (n : ℕ) → length (unary n) ≡ n
length-unary zero = refl
length-unary (suc n) = ap (λ (m : ℕ). suc m) (length-unary n)

abbrev pub parsing : Parsing
parsing = record {
  date = λ t. none;
  page_number = λ t. length t;
  domain_number = λ t. pos (length t);
  decimal = unary;
  format_int = unary_int;
  like = contains;
}

abbrev all_time : Query
all_time = (codes "range", codes "all") ∷ []

all_time-fits :
    length (matching parsing.like (filter_of parsing all_time a_time) a_store.emails)
    ≤ 1 * page_size
unfolding matching fits_filter newest_first filter_of window_label
all_time-fits = omega arith

walk-matching_example :
    walk parsing a_time a_store 1 all_time
    ≡ matching parsing.like (filter_of parsing all_time a_time) a_store.emails
walk-matching_example =
    walk-matching parsing refl refl (λ t. ap (λ (n : ℕ). pos n) (length-unary (length t)))
      length-unary a_time a_store refl 1 all_time refl all_time-fits

abbrev history : List Event
history =
    visited (some (codes "0102")) 200
    ∷ tried (codes "secret") (1 ∷ 2 ∷ []) 100
    ∷ tried (codes "guess") (3 ∷ []) 50
    ∷ []

let_in : (authed (some (codes "0102")) 300 (sessions_after (codes "secret") history)).0 ≡ true
unfolding authed sessions_after hex login
let_in = refl

authed-Granted_example :
    (expiry : ℕ) × Granted (codes "secret") (codes "0102") expiry history × (300 ≤ expiry)
authed-Granted_example = authed-Granted (codes "secret") history (codes "0102") 300 let_in

actions-Acted_example :
    (let (reply, after) =
        retry_email an_env.parse_address 1
          (codes "/admin/emails/1")
          (codes "piet@mail.example")
          (λ s. s)
          a_store in
      Acted
        (λ x. retryable x.status)
        (Readdress 1
          (codes "/admin/emails/1")
          (λ s. s)
          a_store
          an_env.parse_address
          (codes "piet@mail.example"))
        (is_requeueable_row 1)
        1
        (λ s. s)
        a_store
        after
        (status_code reply))
    × (let (reply, after) = cancel_email_handler 1 (codes "/admin/emails/1") (λ s. s) a_store in
        Acted
          (λ x. cancelable x.status)
          (Cancel 1 (codes "/admin/emails/1") (λ s. s) a_store)
          (is_cancelable_row 1)
          1
          (λ s. s)
          a_store
          after
          (status_code reply))
actions-Acted_example =
    actions-Acted 1 (codes "/admin/emails/1") (λ s. s) a_store an_env.parse_address
      (codes "piet@mail.example")

-- A check that finds SPF alone.
abbrev spf_alone : Domain → Store → DnsCheck.Result
spf_alone d s = record {
  spf = record { ok = true; found = []; expected = [] };
  dkim = no_record;
  dmarc = no_record;
  indeterminate = false;
}

recheck-Checked_example :
    Domains
      (λ d. IsIn d (order_by_name a_store.domains))
      spf_alone
      a_store
      (recheck spf_alone a_store)
recheck-Checked_example = recheck-Checked spf_alone a_store

abbrev a_site : Text
a_site = codes "d.example"

-- The domain has another TXT record beside the one for SPF.
abbrev zone : Text → Lookup
zone name =
    if text_eq name a_site
    then DnsCheck.records (
        (codes "verify=1")
        ∷ content_at 0
            (records a_site (codes "mail1") (codes "KEY") (codes "192.0.2.1") (codes "a@d.example"))
        ∷ [])
    else if text_eq name (codes "mail1._domainkey.d.example")
    then DnsCheck.records (
        content_at 1
          (records a_site (codes "mail1") (codes "KEY") (codes "192.0.2.1") (codes "a@d.example"))
        ∷ [])
    else DnsCheck.records (
        content_at 2
          (records a_site (codes "mail1") (codes "KEY") (codes "192.0.2.1") (codes "a@d.example"))
        ∷ [])

spaceless : DnsCheck.strip_spaces (codes "KEY") ≡ codes "KEY"
spaceless = unfold DnsCheck.strip_spaces in refl

records-all_ok_example :
    let r = check zone a_site (codes "mail1") (codes "KEY") (codes "192.0.2.1") in
    (all_ok r ≡ true) × (r.indeterminate ≡ false)
records-all_ok_example =
    records-all_ok zone a_site (codes "mail1") (codes "KEY") (codes "192.0.2.1")
      (codes "a@d.example") (codes "verify=1" ∷ []) [] [] [] [] [] spaceless refl refl refl

abbrev other_key : ApiKey
other_key = record a_key { id = 2; name = codes "blog"; key_hash = codes "dk_2" }

abbrev two_keys : Store
two_keys = reliable (record a_db { api_keys = a_key ∷ other_key ∷ [] }) a_time

revoked_first : (revoke_key 1 two_keys).0.0 ≡ redirect (codes "/admin/keys")
unfolding revoke_key revoke_api_key exec list_api_keys get_domain
revoked_first = refl

second_passes : (auth an_env (codes "Bearer dk_2") (revoke_key 1 two_keys).0.1).0 ≡ some other_key
unfolding revoke_key auth bearer_token get_api_key_by_hash exec revoke_api_key list_api_keys
    get_domain
second_passes = refl

revoked-refused_example : other_key.id ≢ 1
revoked-refused_example =
    revoked-refused an_env 1 (codes "Bearer dk_2") two_keys revoked_first other_key second_passes

dashboard-IsBalanced_example : IsBalanced (dashboard (codes "7") a_time a_store).0
dashboard-IsBalanced_example = dashboard-IsBalanced (codes "7") a_time a_store refl
