-- ===== src/Api/Post/Outcome.antt =====
-- Every way that POST /api/v1/emails may end, whichever statements the driver refuses.
use doevoe.Base.{
  ℕ, ◌≡◌, ◌≢◌, refl, ◌∙◌, ap, ◌⊎◌, inl, inr, Text, true, Option, none, some, List, [], ◌∷◌, ◌++◌,
  arith, find?, Bool-cases, is_empty,
}
use doevoe.Store.{Db, Domain, Email, ApiKey, Store, Result, Error, ok, err, exec-ends, now}
use doevoe.Store.Emails.{
  enqueue_email, inserted_row, with_defaults, find_by_idempotency_key, select_by_idempotency_key,
}
use doevoe.Store.Emails.Invariant.{IsTable}
use doevoe.Store.Emails.Inserted.{Inserted, enqueue_email-Inserted}
use doevoe.Store.Domains.{get_domain, is_domain, verified}
use doevoe.Api.Requests.{
  Address, Env, SendRequest, Decoded, too_large, invalid_json, decoded, Request, Authed, auth,
  request_error, bearer_token, refuse_token,
}
use doevoe.Api.Requests.Auth.{IsCaller, auth_lem, get_domain_lem}
use doevoe.Api.Post.{
  Enqueued, fresh, replay, failed_with, requested_email, found_email, after_enqueue,
  enqueue_or_replay, enqueued_response, insert_now, replay_first, enqueue_request, replay_or,
  on_domain, with_domain, checked, parsed, with_body, post_authed, post_email,
}

-- One email is queued: for a caller with a live key, from an address on the key's domain, which is
-- verified, and after a request that passed all checks.
pub record Accepted (env : Env) (r : Request) (s : Store) (code : ℕ) (emails : List Email)
    : Type 0 where
  pub key : ApiKey
  pub domain : Domain
  pub request : SendRequest
  pub from : Address
  pub to : Address
  pub id : ℕ
  pub at : ℕ
  pub accepted : code ≡ 202
  pub caller : IsCaller env r.authorization s (some key)
  pub body : r.body ≡ decoded request
  pub from_parsed : env.parse_address request.from ≡ some from
  pub to_parsed : env.parse_address request.to ≡ some to
  pub fine : request_error env request from to ≡ none
  pub owned : find? (is_domain key.domain_id) s.domains ≡ some domain
  pub sender : on_domain from domain ≡ true
  pub is_verified : verified domain ≡ true
  pub row :
      emails
      ≡ s.emails
        ++ inserted_row id
            (with_defaults at (requested_email env request from to key domain r.idempotency_key))
          ∷ []

-- Any other answer leaves the emails as they were.
abbrev pub Outcome : Env → Request → Store → ℕ → List Email → Type 0
Outcome env r s code emails = Accepted env r s code emails ⊎ ((code ≢ 202) × (emails ≡ s.emails))

pub find_by_idempotency_key-db :
    (id : ℕ) (key : Text) (s : Store) → (find_by_idempotency_key id key s).1.db ≡ s.db
unfolding find_by_idempotency_key
find_by_idempotency_key-db id key s =
    exec-ends (λ r db. db ≡ s.db) (select_by_idempotency_key id key) s (λ m. refl)
      (unfold select_by_idempotency_key in refl)

-- The same, with what a queued email means for the invariant of the table.
abbrev pub KeptOutcome : Env → Request → Store → ℕ → List Email → Type 0
KeptOutcome env r s code emails =
    (Accepted env r s code emails × (IsTable s.emails → IsTable emails))
    ⊎ ((code ≢ 202) × (emails ≡ s.emails))

-- Queued, or no change of the emails.
abbrev EnqueueOutcome : Email → List Email → Enqueued → List Email → Type 0
EnqueueOutcome e before (fresh id) after =
    (at : ℕ) × (after ≡ before ++ inserted_row id (with_defaults at e) ∷ [])
    × (IsTable before → IsTable after)
EnqueueOutcome e before (replay id status) after = after ≡ before
EnqueueOutcome e before (failed_with x) after = after ≡ before

enqueue_or_replay-EnqueueOutcome :
    (e : Email) (s : Store)
    → let (r, s') = enqueue_or_replay e s in EnqueueOutcome e s.emails r s'.emails
unfolding enqueue_or_replay
enqueue_or_replay-EnqueueOutcome e s =
    let (r, s') = enqueue_email e s in after r s' (enqueue_email-Inserted e s)
  where
    looked_up :
        (x : Error) (o : Option Email) (after : List Email)
        → after ≡ s.emails
        → EnqueueOutcome e s.emails (replay_or x o) after
    looked_up x none after h = h
    looked_up x (some existing) after h = h

    after :
        (r : Result ℕ) (s' : Store)
        → Inserted e (now s) s.emails r s'.emails
        → let (q, s'') = after_enqueue e (r, s') in EnqueueOutcome e s.emails q s''.emails
    after (ok id) s' h = (now s, h.0, h.1)
    after (err x) s' h = elim (Bool-cases (is_empty e.idempotency_key)) [
      | inl unkeyed ↦ rw unkeyed h
      | inr keyed ↦ rw keyed (
          let (r, s'') = find_by_idempotency_key e.api_key_id e.idempotency_key s' in
          looked_up x (found_email r) s''.emails (
            ap (λ (d : Db). d.emails) (find_by_idempotency_key-db e.api_key_id e.idempotency_key s')
            ∙ h))
    ]

module _ (env : Env) (r : Request) (s : Store) (k : ApiKey)
    (caller : IsCaller env r.authorization s (some k)) (req : SendRequest)
    (body : r.body ≡ decoded req) (from to : Address)
    (from_parsed : env.parse_address req.from ≡ some from)
    (to_parsed : env.parse_address req.to ≡ some to)
    (fine : request_error env req from to ≡ none) where
  module _ (d : Domain) (owned : find? (is_domain k.domain_id) s.domains ≡ some d)
      (sender : on_domain from d ≡ true) (is_verified : verified d ≡ true) where
    insert_now-KeptOutcome :
        (s1 : Store)
        → s1.emails ≡ s.emails
        → let (res, s') = insert_now env req from to k d r.idempotency_key s1 in
          KeptOutcome env r s res.code s'.emails
    unfolding insert_now
    insert_now-KeptOutcome s1 same =
        let e = requested_email env req from to k d r.idempotency_key in
        let (q, s') = enqueue_or_replay e s1 in answer q s' (enqueue_or_replay-EnqueueOutcome e s1)
      where
        answer :
            (q : Enqueued) (s' : Store)
            → EnqueueOutcome
                (requested_email env req from to k d r.idempotency_key)
                s1.emails
                q
                s'.emails
            → KeptOutcome env r s (enqueued_response q).code s'.emails
        answer (fresh id) s' (at, row, keeps) = inl (
          record {
            key = k;
            domain = d;
            request = req;
            from = from;
            to = to;
            id = id;
            at = at;
            accepted = refl;
            caller = caller;
            body = body;
            from_parsed = from_parsed;
            to_parsed = to_parsed;
            fine = fine;
            owned = owned;
            sender = sender;
            is_verified = is_verified;
            row = rw (← same) row;
          },
          rw (← same) keeps,
        )
        answer (replay id status) s' h = inr (omega arith, h ∙ same)
        answer (failed_with x) s' h = inr (omega arith, h ∙ same)

    enqueue_request-KeptOutcome :
        (s1 : Store)
        → s1.emails ≡ s.emails
        → let (res, s') = enqueue_request env req from to k d r.idempotency_key s1 in
          KeptOutcome env r s res.code s'.emails
    unfolding enqueue_request replay_first
    enqueue_request-KeptOutcome s1 same = elim (Bool-cases (is_empty r.idempotency_key)) [
      | inl unkeyed ↦ rw unkeyed (insert_now-KeptOutcome s1 same)
      | inr keyed ↦ rw keyed (
          let (found, s2) = find_by_idempotency_key k.id r.idempotency_key s1 in
          first (found_email found) s2 (
            ap (λ (db : Db). db.emails) (find_by_idempotency_key-db k.id r.idempotency_key s1)
            ∙ same))
    ]
      where
        first :
            (o : Option Email) (s2 : Store)
            → s2.emails ≡ s.emails
            → let (res, s') = replay_first o env req from to k d r.idempotency_key s2 in
              KeptOutcome env r s res.code s'.emails
        first none s2 h = insert_now-KeptOutcome s2 h
        first (some existing) s2 h = inr (omega arith, h)

  with_domain-KeptOutcome :
      (o : Result Domain) (s1 : Store)
      → ((d : Domain) → o ≡ ok d → find? (is_domain k.domain_id) s.domains ≡ some d)
      → s1.emails ≡ s.emails
      → let (res, s') = with_domain env req from to k r.idempotency_key (o, s1) in
        KeptOutcome env r s res.code s'.emails
  unfolding with_domain
  with_domain-KeptOutcome (err x) s1 found same = inr (omega arith, same)
  with_domain-KeptOutcome (ok d) s1 found same = elim (Bool-cases (on_domain from d)) [
    | inr foreign ↦ rw foreign (inr (omega arith, same))
    | inl sender ↦ rw sender (elim (Bool-cases (verified d)) [
      | inr pending ↦ rw pending (inr (omega arith, same))
      | inl is_verified ↦
          rw is_verified (enqueue_request-KeptOutcome d (found d refl) sender is_verified s1 same)
    ])
  ]

module _ (env : Env) (r : Request) (s : Store) where
  body-KeptOutcome :
      (k : ApiKey)
      → IsCaller env r.authorization s (some k)
      → (b : Decoded) → r.body ≡ b
      → (s1 : Store) → s1.emails ≡ s.emails
      → s1.domains ≡ s.domains
      → let (res, s') = with_body env k r.idempotency_key b s1 in
        KeptOutcome env r s res.code s'.emails
  unfolding with_body parsed checked
  body-KeptOutcome k caller too_large b s1 same domains = inr (omega arith, same)
  body-KeptOutcome k caller (invalid_json m) b s1 same domains = inr (omega arith, same)
  body-KeptOutcome k caller (decoded req) b s1 same domains =
      of_addresses (env.parse_address req.from) (env.parse_address req.to) refl refl
    where
      of_check :
          (from to : Address)
          → env.parse_address req.from ≡ some from
          → env.parse_address req.to ≡ some to
          → (c : Option Text) → request_error env req from to ≡ c
          → let (res, s') = checked env req from to k r.idempotency_key c s1 in
            KeptOutcome env r s res.code s'.emails
      of_check from to pf pt (some m) h = inr (omega arith, same)
      of_check from to pf pt none h =
          let (o, s2) = get_domain k.domain_id s1 in
          let (db, found) = get_domain_lem k.domain_id s1 in
          with_domain-KeptOutcome env r s k caller req b from to pf pt h o s2
            (λ d e. rw (← domains) (found d e)) (ap (λ (t : Db). t.emails) db ∙ same)

      of_addresses :
          (from to : Option Address)
          → env.parse_address req.from ≡ from
          → env.parse_address req.to ≡ to
          → let (res, s') = parsed env req k r.idempotency_key from to s1 in
            KeptOutcome env r s res.code s'.emails
      of_addresses none to pf pt = inr (omega arith, same)
      of_addresses (some from) none pf pt = inr (omega arith, same)
      of_addresses (some from) (some to) pf pt =
          of_check from to pf pt (request_error env req from to) refl

  refuse_token_code : (t : Option Text) → (refuse_token t).code ≢ 202
  refuse_token_code none = omega arith
  refuse_token_code (some token) = omega arith

  pub post_email-KeptOutcome :
      let (res, s') = post_email env r s in KeptOutcome env r s res.code s'.emails
  unfolding post_email
  post_email-KeptOutcome =
      let (a, s1) = auth env r.authorization s in
      let (emails, domains, caller) = auth_lem env r.authorization s in
      of_caller a s1 emails domains caller
    where
      of_caller :
          (a : Authed) (s1 : Store)
          → s1.emails ≡ s.emails
          → s1.domains ≡ s.domains
          → IsCaller env r.authorization s a
          → let (res, s') = post_authed env r (a, s1) in KeptOutcome env r s res.code s'.emails
      of_caller none s1 emails domains caller =
          inr (refuse_token_code (bearer_token r.authorization), emails)
      of_caller (some k) s1 emails domains caller =
          body-KeptOutcome k caller r.body refl s1 emails domains

  of_KeptOutcome :
      (code : ℕ) (emails : List Email)
      → KeptOutcome env r s code emails
      → Outcome env r s code emails
  of_KeptOutcome code emails (inl (accepted, keeps)) = inl accepted
  of_KeptOutcome code emails (inr other) = inr other

  -- A POST of an email is either answered 202 and appends exactly one queued email, that of the
  -- decoded request, for a caller with the token of a live key, after all checks of the request
  -- passed, from an address on the domain of the key, which is verified; or it has another answer
  -- and changes no email.
  pub post_email-Outcome : let (res, s') = post_email env r s in Outcome env r s res.code s'.emails
  post_email-Outcome =
      let (res, s') = post_email env r s in of_KeptOutcome res.code s'.emails post_email-KeptOutcome
