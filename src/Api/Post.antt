-- ===== src/Api/Post.antt =====
-- internal/api/api.go: postEmail and enqueueOrReplay.
pub mod Outcome
pub mod Sendable
pub mod Replies
pub mod Refused
pub mod Stepwise
use doevoe.Base.{
  ℕ, Text, Bool, false, not, Option, none, some, [], ◌++◌, ◌==◌, codes, is_empty, if◌then◌else◌,
  after_last_at, equal_fold, length,
}
use doevoe.Store.{Status, queued, Email, ApiKey, Domain, Store, Result, ok, err, Error}
use doevoe.Store.Emails.{find_by_idempotency_key, enqueue_email}
use doevoe.Store.Domains.{get_domain, verified}
use doevoe.Api.Requests.{
  Address, Env, SendRequest, Decoded, too_large, invalid_json, decoded, Request, email_status,
  Response, json_error, Authed, auth, unauthorized, request_error,
}

-- The email that a request asks for. The fields that the INSERT does not read have Go's zero values.
unfoldable pub requested_email :
    Env → SendRequest → Address → Address → ApiKey → Domain → Text → Email
requested_email env req from to k d idempotency_key = record {
  id = 0;
  api_key_id = k.id;
  domain_id = d.id;
  from = from.address;
  to = to.address;
  from_name = from.name;
  to_name = to.name;
  original_to = [];
  reply_to = req.reply_to;
  subject = req.subject;
  body_html = req.html;
  body_text = req.text;
  headers_json = if length req.headers == 0 then codes "{}" else env.formats.marshal req.headers;
  status = queued;
  attempts = 0;
  next_attempt_at = 0;
  last_error = [];
  idempotency_key = idempotency_key;
  is_system = false;
  created_at = 0;
  sent_at = 0;
}

pub data Enqueued : Type 0 where
  fresh : ℕ → Enqueued
  replay : ℕ → Status → Enqueued
  failed_with : Error → Enqueued

-- A lookup that finds an email; an error of the lookup counts as finding none.
abbrev pub found_email : Result (Option Email) → Option Email
found_email (ok o) = o
found_email (err e) = none

abbrev pub replay_or : Error → Option Email → Enqueued
replay_or e none = failed_with e
replay_or e (some existing) = replay existing.id existing.status

unfoldable pub after_enqueue : Email → Result ℕ × Store → Enqueued × Store
after_enqueue e (ok id, s) = (fresh id, s)
after_enqueue e (err refusal, s) =
    if is_empty e.idempotency_key
    then (failed_with refusal, s)
    else (let (r, s') = find_by_idempotency_key e.api_key_id e.idempotency_key s in
        (replay_or refusal (found_email r), s'))

-- enqueueOrReplay
unfoldable pub enqueue_or_replay : Email → Store → Enqueued × Store
unfolding after_enqueue
enqueue_or_replay e s = after_enqueue e (enqueue_email e s)

abbrev pub enqueued_response : Enqueued → Response
enqueued_response (fresh id) = record { code = 202; body = email_status id queued }
enqueued_response (replay id status) = record { code = 200; body = email_status id status }
enqueued_response (failed_with e) = json_error 500 (codes "enqueue failed")

insert_now :
    Env → SendRequest → Address → Address → ApiKey → Domain → Text → Store → Response × Store
insert_now env req from to k d key s =
    let (r, s') = enqueue_or_replay (requested_email env req from to k d key) s in
    (enqueued_response r, s')

-- The first look for an email of the same Idempotency-Key.
replay_first :
    Option Email
    → Env
    → SendRequest
    → Address
    → Address
    → ApiKey
    → Domain
    → Text
    → Store
    → Response × Store
unfolding insert_now
replay_first none env req from to k d key s = insert_now env req from to k d key s
replay_first (some existing) env req from to k d key s =
    (record { code = 200; body = email_status existing.id existing.status }, s)

enqueue_request :
    Env → SendRequest → Address → Address → ApiKey → Domain → Text → Store → Response × Store
unfolding replay_first insert_now
enqueue_request env req from to k d key s =
    if is_empty key
    then insert_now env req from to k d key s
    else (let (r, s') = find_by_idempotency_key k.id key s in
        replay_first (found_email r) env req from to k d key s')

-- "from address must be on domain", and the domain must be verified
unfoldable pub on_domain : Address → Domain → Bool
on_domain from d = equal_fold (after_last_at from.address) d.name

with_domain :
    Env → SendRequest → Address → Address → ApiKey → Text → Result Domain × Store → Response × Store
unfolding enqueue_request
with_domain env req from to k key (err e, s) = (json_error 500 (codes "internal error"), s)
with_domain env req from to k key (ok d, s) =
    if not (on_domain from d)
    then (json_error 422 (codes "from address must be on domain " ++ d.name), s)
    else if not (verified d)
    then (
      json_error 403 (
          codes "domain "
          ++ d.name
          ++ codes " is not verified; complete DNS setup in the doevoe admin before sending"),
      s,
    )
    else enqueue_request env req from to k d key s

checked :
    Env → SendRequest → Address → Address → ApiKey → Text → Option Text → Store → Response × Store
unfolding with_domain
checked env req from to k key (some message) s = (json_error 422 message, s)
checked env req from to k key none s = with_domain env req from to k key (get_domain k.domain_id s)

parsed :
    Env → SendRequest → ApiKey → Text → Option Address → Option Address → Store → Response × Store
unfolding checked
parsed env req k key none to s = (json_error 422 (codes "invalid from address"), s)
parsed env req k key (some from) none s = (json_error 422 (codes "invalid to address"), s)
parsed env req k key (some from) (some to) s =
    checked env req from to k key (request_error env req from to) s

with_body : Env → ApiKey → Text → Decoded → Store → Response × Store
unfolding parsed
with_body env k key too_large s = (json_error 413 (codes "request body too large"), s)
with_body env k key (invalid_json message) s =
    (json_error 400 (codes "invalid json: " ++ message), s)
with_body env k key (decoded req) s =
    parsed env req k key (env.parse_address req.from) (env.parse_address req.to) s

post_authed : Env → Request → Authed × Store → Response × Store
unfolding with_body
post_authed env r (none, s) = (unauthorized r.authorization, s)
post_authed env r (some k, s) = with_body env k r.idempotency_key r.body s

-- POST /api/v1/emails
unfoldable pub post_email : Env → Request → Store → Response × Store
unfolding post_authed
post_email env r s = post_authed env r (auth env r.authorization s)
