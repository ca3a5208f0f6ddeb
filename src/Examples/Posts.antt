-- ===== src/Examples/Posts.antt =====
-- Posts and reads of emails.
use doevoe.Base.{◌≡◌, ◌++◌, refl, true, some, none, [], ◌∷◌, codes, find?}
use doevoe.Store.{Email, Db, queued, reliable, now}
use doevoe.Store.Emails.{same_idempotency, next_id, inserted_row, with_defaults}
use doevoe.Store.Domains.{verified}
use doevoe.Store.ApiKeys.{is_live_key}
use doevoe.Delivery.Message.{
  validate_header_value, format_address, validate_header, validate_header_name, is_reserved,
}
use doevoe.Api.Requests.{bearer_token, request_error, check_headers, email_status}
use doevoe.Api.Post.{requested_email, on_domain, post_email}
use doevoe.Api.Post.Replies.{post_email-accepts, post_email-replay}
use doevoe.Api.Get.{get_email_handler}
use doevoe.Api.Get.Owned.{Read, get_email_handler-Read}
use doevoe.Examples.Data.{
  a_time, a_key, a_domain, a_db, a_store, an_env, a_request, waiting_email, sending_email,
  send_with, from_address, to_address,
}

passes : request_error an_env (send_with (codes "help@shop.example")) from_address to_address ≡ none
unfolding request_error validate_header_value format_address check_headers validate_header
    validate_header_name is_reserved
passes = refl

own_domain : on_domain from_address a_domain ≡ true
unfolding on_domain
own_domain = refl

dns_done : verified a_domain ≡ true
unfolding verified
dns_done = refl

given : bearer_token a_request.authorization ≡ some (codes "dk_1")
unfolding bearer_token
given = refl

live : find? (is_live_key (codes "dk_1")) a_db.api_keys ≡ some a_key
unfolding is_live_key
live = refl

none_yet : find? (same_idempotency 1 (codes "k1")) a_db.emails ≡ none
unfolding same_idempotency
none_yet = refl

abbrev keyed_email : Email
keyed_email = record waiting_email { idempotency_key = codes "k1" }

abbrev keyed_db : Db
keyed_db = record a_db { emails = keyed_email ∷ sending_email ∷ [] }

once_before : find? (same_idempotency 1 (codes "k1")) keyed_db.emails ≡ some keyed_email
unfolding same_idempotency
once_before = refl

post_email-accepts_example :
    let (res, s) = post_email an_env a_request (reliable a_db a_time) in
    let id = next_id (λ (x : Email). x.id) a_db.emails in
    (res ≡ record { code = 202; body = email_status id queued })
    × (s.emails
        ≡ a_db.emails
          ++ inserted_row id (
              with_defaults (now (reliable a_db a_time)) (
                requested_email an_env
                  (send_with (codes "help@shop.example"))
                  from_address
                  to_address
                  a_key
                  a_domain
                  (codes "k1")))
            ∷ [])
post_email-accepts_example =
    post_email-accepts an_env a_request a_db a_time (codes "dk_1") a_key given live
      (send_with (codes "help@shop.example")) refl from_address to_address refl refl passes a_domain
      refl own_domain dns_done none_yet

post_email-replay_example :
    let (res, s) = post_email an_env a_request (reliable keyed_db a_time) in
    (res ≡ record { code = 200; body = email_status 1 queued }) × (s.emails ≡ keyed_db.emails)
post_email-replay_example =
    post_email-replay an_env a_request keyed_db a_time (codes "dk_1") a_key given live
      (send_with (codes "help@shop.example")) refl from_address to_address refl refl passes a_domain
      refl own_domain dns_done keyed_email refl once_before

get_email_handler-Read_example :
    let (res, s) = get_email_handler an_env a_request (some 2) a_store in
    Read an_env a_request (some 2) a_store res s
get_email_handler-Read_example = get_email_handler-Read an_env a_request a_store (some 2)
