-- ===== src/Api/Post/Stepwise.antt =====
-- postEmail is a sequence of calls of the store.
use doevoe.Base.{ℕ, refl, Text, Option, none, some, Bool-cases, inl, inr, is_empty}
use doevoe.Store.{Email, ApiKey, Domain, Store, Result, ok, err}
use doevoe.Store.Emails.{enqueue_email, find_by_idempotency_key}
use doevoe.Store.Domains.{get_domain, verified}
use doevoe.Store.Calls.{
  Calls, still, enqueues, both, find_by_idempotency_key-Calls, get_domain-Calls,
}
use doevoe.Api.Requests.{
  Address, Env, SendRequest, Decoded, too_large, invalid_json, decoded, Request, Authed, auth,
  request_error,
}
use doevoe.Api.Requests.Auth.{auth_lem}
use doevoe.Api.Post.{
  requested_email, after_enqueue, enqueue_or_replay, insert_now, replay_first, enqueue_request,
  found_email, on_domain, with_domain, checked, parsed, with_body, post_authed, post_email,
}

pub enqueue_or_replay-Calls : (e : Email) (s : Store) → Calls s (enqueue_or_replay e s).1
unfolding enqueue_or_replay
enqueue_or_replay-Calls e s =
    both (enqueues e) (of_result (enqueue_email e s).0 (enqueue_email e s).1)
  where
    of_result : (r : Result ℕ) (s' : Store) → Calls s' (after_enqueue e (r, s')).1
    of_result (ok id) s' = unfold after_enqueue in still refl
    of_result (err x) s' =
        unfold after_enqueue in
        elim (Bool-cases (is_empty e.idempotency_key)) [
          | inl unkeyed ↦ rw unkeyed (still refl)
          | inr keyed ↦ rw keyed (find_by_idempotency_key-Calls e.api_key_id e.idempotency_key s')
        ]

module _ (env : Env) (req : SendRequest) (from to : Address) (k : ApiKey) (key : Text) where
  enqueue_request-Calls :
      (d : Domain) (s : Store) → Calls s (enqueue_request env req from to k d key s).1
  unfolding enqueue_request insert_now
  enqueue_request-Calls d s = elim (Bool-cases (is_empty key)) [
    | inl unkeyed ↦ rw unkeyed (enqueue_or_replay-Calls (requested_email env req from to k d key) s)
    | inr keyed ↦ rw keyed (
        both (find_by_idempotency_key-Calls k.id key s) (
          of_found (found_email (find_by_idempotency_key k.id key s).0)
            (find_by_idempotency_key k.id key s).1))
  ]
    where
      of_found :
          (o : Option Email) (s' : Store) → Calls s' (replay_first o env req from to k d key s').1
      of_found none s' =
          unfold replay_first in
          enqueue_or_replay-Calls (requested_email env req from to k d key) s'
      of_found (some existing) s' = unfold replay_first in still refl

  with_domain-Calls :
      (r : Result Domain) (s : Store) → Calls s (with_domain env req from to k key (r, s)).1
  unfolding with_domain
  with_domain-Calls (err e) s = still refl
  with_domain-Calls (ok d) s = elim (Bool-cases (on_domain from d)) [
    | inr elsewhere ↦ rw elsewhere (still refl)
    | inl on_it ↦ elim (Bool-cases (verified d)) [
      | inr pending ↦ rw (on_it, pending) (still refl)
      | inl is_verified ↦ rw (on_it, is_verified) (enqueue_request-Calls d s)
    ]
  ]

  checked-Calls : (o : Option Text) (s : Store) → Calls s (checked env req from to k key o s).1
  unfolding checked
  checked-Calls (some message) s = still refl
  checked-Calls none s =
      both (get_domain-Calls k.domain_id s)
        (with_domain-Calls (get_domain k.domain_id s).0 (get_domain k.domain_id s).1)

module _ (env : Env) (k : ApiKey) (key : Text) where
  parsed-Calls :
      (req : SendRequest) (from to : Option Address) (s : Store)
      → Calls s (parsed env req k key from to s).1
  unfolding parsed
  parsed-Calls req none to s = still refl
  parsed-Calls req (some from) none s = still refl
  parsed-Calls req (some from) (some to) s =
      checked-Calls env req from to k key (request_error env req from to) s

  with_body-Calls : (body : Decoded) (s : Store) → Calls s (with_body env k key body s).1
  unfolding with_body
  with_body-Calls too_large s = still refl
  with_body-Calls (invalid_json message) s = still refl
  with_body-Calls (decoded req) s =
      parsed-Calls req (env.parse_address req.from) (env.parse_address req.to) s

pub post_email-Calls : (env : Env) (r : Request) (s : Store) → Calls s (post_email env r s).1
unfolding post_email
post_email-Calls env r s =
    let (a, s') = auth env r.authorization s in
    both (still (auth_lem env r.authorization s).0) (of_authed a s')
  where
    of_authed : (a : Authed) (s' : Store) → Calls s' (post_authed env r (a, s')).1
    of_authed none s' = unfold post_authed in still refl
    of_authed (some k) s' = unfold post_authed in with_body-Calls env k r.idempotency_key r.body s'
