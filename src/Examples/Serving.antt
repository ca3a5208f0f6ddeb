-- ===== src/Examples/Serving.antt =====
-- The server, its mux and its end; the notifier's ticks; a signed email.
use doevoe.Base.{
  ℕ, suc, ◌+◌, ◌*◌, ◌<◌, ◌≢◌, ap, ◌≤◌, ◌≡◌, refl, arith, Text, true, false, none, some, List, [],
  ◌∷◌, ◌++◌, codes, length, select, find?, after_last_at, ◌-◌, leb, Fallible, value, failure,
}
use doevoe.Store.{Email, Store, Db, PendingFailure, second, exec, ok, reliable, fmt_time, hour}
use doevoe.Store.Domains.{is_named, verified, get_domain_by_name, list_domains}
use doevoe.Store.Stats.{failure_rate}
use doevoe.Store.Notify.{
  put_value, list_pending_failures, pending_emails, is_pending, get_state, set_state,
  clear_pending_failures,
}
use doevoe.Store.Emails.{
  enqueue_email, insert_email, may_insert, next_id, some_row, same_idempotency,
}
use doevoe.DkimKeys.{Crypto, parse_private_key}
use doevoe.Delivery.Worker.{SendResult}
use doevoe.Delivery.Message.{
  build_message, validate_fields, validate_header_value, format_address, validate_custom,
  sort_headers,
}
use doevoe.Delivery.Sender.{Session, mx_records, send}
use doevoe.Delivery.Sender.Deadline.{
  new_ctx_bound_conn, context_ends, set_deadline, after_all, may_transfer, set_deadline-revives,
}
use doevoe.Delivery.Sender.Signing.{SignOptions, new_sender}
use doevoe.Delivery.Sender.Signing.Sent.{Sent, sender, send-Sent}
use doevoe.Api.Requests
use doevoe.Admin.{Site}
use doevoe.Admin.Session.{authed}
use doevoe.Notify.{
  Notifier, digest_tick, enqueue, cooling_down, digest_subject, digest_body, notification,
}
use doevoe.Notify.Digest.Spaced.{run_round-spaced}
use doevoe.Notify.Rates.{Rates, rate_tick, rate_all, on_rate, key_created, key_revoked}
use doevoe.Notify.Rates.Alarm.{Ticked, on_rate-Ticked}
use doevoe.Notify.Monthly.{Calendar, stats_tick, run_round}
use doevoe.Notify.Monthly.Skipped.{stats_tick-skipped}
use doevoe.Server.Routes.{post, matches, routes}
use doevoe.Server.Routes.Apart.{routes-matches}
use doevoe.Server.Serve.{HttpRequest, Web, serve}
use doevoe.Server.Serve.Stepwise.{AreCalls}
use doevoe.Store.Calls.{still}
use doevoe.Delivery.Worker.Schedule.{Batch}
use doevoe.System.Live.{Reach}
use doevoe.System.Live.Served.{serve-Reach}
use doevoe.Notify.Stepwise.{key_created-Calls, key_revoked-Calls}
use doevoe.Server.Serve.Closed.{serve-db}
use doevoe.Server.Shutdown.{Process, started, ended, closed-handlers}
use doevoe.Server.Shutdown
use doevoe.Examples.Data.{
  a_worker, a_time, a_domain, a_db, a_store, an_env, a_request, a_notifier, formats, waiting_email,
}
use doevoe.Examples.Pages.{parsing}

-- The context ends at 7, between two commands, of which the second may take until 12.
set_deadline-revives_example :
    may_transfer 9 (after_all (context_ends 7 ∷ set_deadline (some 12) ∷ []) new_ctx_bound_conn)
    ≡ true
set_deadline-revives_example =
    set_deadline-revives 7 12 9 [] new_ctx_bound_conn refl refl tt (omega arith)

closed-handlers_example :
    (p : Process) × Shutdown.Reach started p
    × (p.main_phase ≡ ended)
    × (p.store_open ≡ false)
    × (p.handlers ≡ 2)
closed-handlers_example = closed-handlers 2

revoke_path : List Text
revoke_path = codes "admin" ∷ codes "keys" ∷ codes "1" ∷ codes "revoke" ∷ []

routes-matches_example : length (select (matches post revoke_path) routes) ≤ 1
routes-matches_example = routes-matches post revoke_path

-- Keys that are one text.
abbrev plain_crypto : Crypto
plain_crypto = record {
  Key = Text;
  PublicKey = Text;
  public = λ k. k;
  generate_key = value (codes "pem");
  to_pem = λ k. k;
  decode_pem = λ t. some t;
  parse_pkcs1 = λ t. value t;
  marshal_pkix = λ k. value k;
  base64 = λ t. t;
}

abbrev a_web : Web
a_web = record {
  env = an_env;
  parsing = parsing;
  parse_api_id = λ t. none;
  parse_id = λ t. length t;
  trim_space = λ t. t;
  sha256 = λ t. t;
  domain_location = λ id. codes "/admin/domains/1";
  password = codes "secret";
  egress_ip = codes "192.0.2.1";
  admin_email = codes "admin@shop.example";
  check_domain = none;
  on_key_created = λ name domain s. s;
  on_key_revoked = λ names s. s;
  static_status = λ path. 200;
  unrouted = λ m path. 404;
}

-- Nobody has signed in, and the request asks for the revocation of the only key.
abbrev a_revocation : HttpRequest
a_revocation = record {
  method = post;
  path = revoke_path;
  api = record a_request { authorization = [] };
  cookie = none;
  htmx = false;
  query = [];
  field = λ name. [];
  random = [];
  key_bytes = failure [];
  meanwhile = λ s. s;
}

abbrev a_site : Site
a_site = record { store = a_store; sessions = [] }

no_key : (Requests.auth an_env [] a_store).0 ≡ none
unfolding Requests.auth Requests.bearer_token
no_key = refl

no_session : (authed none a_time []).0 ≡ false
unfolding authed
no_session = refl

serve-db_example : (serve plain_crypto a_web a_revocation a_time a_site).1.store.db ≡ a_store.db
serve-db_example = serve-db plain_crypto a_web a_revocation a_time a_site no_session no_key

abbrev some_rates : Rates
some_rates = record {
  min_volume = 0;
  reaches = λ failed total. leb total failed;
  percent = λ failed total. [];
}

none_counted : (failure_rate 1 (fmt_time (a_time - hour)) (reliable a_db a_time)).0 ≡ ok (0, 0)
unfolding failure_rate exec
none_counted = refl

system_found : find? (is_named (after_last_at a_notifier.system_from)) a_db.domains ≡ some a_domain
system_found = refl

system_verified : verified a_domain ≡ true
unfolding verified
system_verified = refl

on_rate-Ticked_example :
    Ticked a_notifier a_db a_time a_domain system_found system_verified some_rates a_domain 0 0 (
      on_rate a_notifier some_rates a_domain none
        (failure_rate 1 (fmt_time (a_time - hour)) (reliable a_db a_time)))
on_rate-Ticked_example =
    on_rate-Ticked a_notifier a_db a_time a_domain system_found system_verified some_rates a_domain
      (fmt_time (a_time - hour)) 0 0 none_counted

abbrev a_calendar : Calendar
a_calendar = record {
  month = λ at. codes "2026-03";
  months_before = λ n at. codes "2026-02";
  month_range = λ m. (0, 1);
  percent = λ a b. [];
  difference = λ a b c d. [];
}

stats_tick-skipped_example :
    stats_tick a_notifier a_calendar a_time
      (record { db = a_db; clock = a_time; faults = some (codes "disk I/O error") ∷ [] })
    ≡ (
      ok tt,
      reliable
          (record a_db { notify_state = put_value (codes "last_stats_sent") (codes "2026-03") [] })
          a_time,
    )
stats_tick-skipped_example =
    stats_tick-skipped a_notifier a_calendar a_time a_db a_time (codes "disk I/O error")

abbrev accepting : Session
accepting = record {
  dial = none;
  start_tls = none;
  hello_tls = none;
  redial = none;
  hello_plain = none;
  mail = none;
  rcpt = none;
  data_command = none;
  write = none;
  close = none;
  quit = none;
}

abbrev signing : SignOptions plain_crypto → Text → Fallible Text
signing o msg = value (o.selector ++ msg)

abbrev sent_one : SendResult
sent_one =
    send
      (sender plain_crypto signing formats (codes "mx.doevoe.example") a_time [] []
        (λ port host from to msg. accepting) 25 (λ domain. mx_records []))
      0 waiting_email a_domain

no_error : sent_one.error ≡ none
unfolding send build_message validate_fields validate_header_value format_address validate_custom
    sort_headers new_sender parse_private_key
no_error = refl

send-Sent_example :
    Sent plain_crypto signing formats
      (codes "mx.doevoe.example")
      a_time
      []
      []
      (λ port host from to msg. accepting)
      25
      (λ domain. mx_records [])
      waiting_email
      a_domain
      sent_one
send-Sent_example =
    send-Sent plain_crypto signing formats (codes "mx.doevoe.example") a_time [] []
      (λ port host from to msg. accepting) 25 (λ domain. mx_records []) 0 waiting_email a_domain
      no_error

-- The hooks as main sets them.
abbrev wired : Web
wired = record a_web {
  on_key_created = key_created a_notifier;
  on_key_revoked = λ names. key_revoked a_notifier names.0 names.1;
}

wired-AreCalls : AreCalls wired a_revocation
wired-AreCalls = record {
  created = key_created-Calls a_notifier;
  revoked = λ names. key_revoked-Calls a_notifier names.0 names.1;
  meanwhile = λ s. still refl;
}

abbrev idle_batch : Batch
idle_batch = record { threads = []; store = a_store }

serve-Reach_example : Reach a_worker 0 idle_batch (record idle_batch {
  store =
      (serve plain_crypto wired a_revocation a_time
        (record { store = a_store; sessions = [] })).1.store;
})
serve-Reach_example =
    serve-Reach a_worker 0 idle_batch plain_crypto wired a_revocation a_time [] wired-AreCalls

-- Times as texts of one number.
abbrev read_number : Text → ℕ
read_number [] = 0
read_number (c ∷ s) = c - 1

abbrev dated_notifier : Notifier
dated_notifier = record a_notifier {
  printing = record a_notifier.printing {
    show_time = λ at. (at + 1) ∷ [];
    read_time = read_number;
  };
}

abbrev a_failure : List PendingFailure
a_failure = record { email_id = 1; created_at = 5 } ∷ []

abbrev failed_db : Db
failed_db = record a_db { pending_failures = a_failure }

abbrev digest_of : ℕ → Db → Store
digest_of at db = (digest_tick dated_notifier at (λ s. s) (reliable db at)).1

abbrev first_round : Store
first_round =
    run_round dated_notifier some_rates a_calendar a_time (λ s. s) (reliable failed_db a_time)

-- The email fails again.
abbrev failed_again : Db
failed_again = record first_round.db { pending_failures = a_failure }

abbrev two_hours_later : ℕ
two_hours_later = a_time + 2 * hour

first_counted : length (digest_of a_time failed_db).emails ≡ 3
unfolding digest_tick list_pending_failures pending_emails is_pending get_state set_state exec
    enqueue enqueue_email insert_email may_insert next_id some_row verified cooling_down
    clear_pending_failures get_domain_by_name digest_subject digest_body notification
    same_idempotency
first_counted = refl

first_queued : (digest_of a_time failed_db).emails ≢ failed_db.emails
first_queued same = absurd (omega (arith, ap (length {A = Email}) same, first_counted))

second_counted :
    length (digest_of two_hours_later failed_again).emails ≡ suc (length failed_again.emails)
unfolding digest_tick list_pending_failures pending_emails is_pending get_state set_state exec
    enqueue enqueue_email insert_email may_insert next_id some_row verified cooling_down
    clear_pending_failures get_domain_by_name digest_subject digest_body notification
    same_idempotency rate_tick rate_all failure_rate stats_tick run_round list_domains
second_counted = refl

second_queued : (digest_of two_hours_later failed_again).emails ≢ failed_again.emails
second_queued same = absurd (omega (arith, ap (length {A = Email}) same, second_counted))

run_round-spaced_example : a_time + hour < two_hours_later + second
run_round-spaced_example =
    run_round-spaced dated_notifier some_rates a_calendar a_time two_hours_later a_time
      two_hours_later failed_db failed_again (λ s. s) (λ s. s)
      (record { shown = refl; recent = omega arith }) (λ s quiet. quiet) first_queued refl
      second_queued
