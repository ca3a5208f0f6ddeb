-- ===== src/Api/Post/Replies.antt =====
-- What postEmail answers to a request that may be sent, where the driver refuses nothing.
use doevoe.Base.{
  ℕ, ◌≡◌, refl, ◌∙◌, inl, inr, Text, Bool, true, false, ◌&&◌, not, ◌==◌, Option, none, some, List,
  [], ◌∷◌, ◌++◌, arith, is_empty, text_eq, text_eq_sound, find?, update, find?-update, Bool-cases,
}
use mathlib.Core.Option
use doevoe.Store.{Email, Domain, ApiKey, Db, ok, queued, exec, reliable, now}
use doevoe.Store.Emails.{
  next_id, same_idempotency, may_insert, inserted_row, with_defaults, insert_email, enqueue_email,
  row_or_error, missing_is_nil, select_by_idempotency_key, find_by_idempotency_key, some_row,
}
use doevoe.Store.Reads.{found_by_id}
use doevoe.Store.Domains.{get_domain, select_domain, is_domain, verified}
use doevoe.Store.ApiKeys.{
  is_live_key, is_key, get_api_key_by_hash, select_key_by_hash, touch_api_key,
}
use doevoe.Api.Requests.{
  Env, SendRequest, Request, Address, decoded, email_status, bearer_token, auth, request_error,
}
use doevoe.Api.Post.{
  requested_email, after_enqueue, enqueue_or_replay, insert_now, replay_first, enqueue_request,
  on_domain, with_domain, checked, parsed, with_body, post_authed, post_email,
}

find?-same :
    {A : Type 0} (p q : A → Bool) → ((x : A) → p x ≡ q x) → (xs : List A) → find? p xs ≡ find? q xs
find?-same p q same [] = refl
find?-same p q same (x ∷ xs) = ground (arith, same x, find?-same p q same xs)

nil_row : {A : Type 0} (o : Option A) → missing_is_nil (row_or_error o) ≡ ok o
nil_row none = refl
nil_row (some x) = refl

-- The lookup and the unique index test a row alike.
same_test :
    (id : ℕ) (key : Text) (e : Email)
    → (e.api_key_id == id
        && not (id == 0)
        && not (is_empty e.idempotency_key)
        && text_eq e.idempotency_key key)
      ≡ same_idempotency id key e
unfolding same_idempotency
same_test id key e = elim (Bool-cases (text_eq e.idempotency_key key)) [
  | inl same ↦ rw (same, text_eq_sound e.idempotency_key key same) (ground arith)
  | inr other ↦ rw other (ground arith)
]

pub find_by_idempotency_key_lem :
    (id : ℕ) (key : Text) (db : Db) (clock : ℕ)
    → find_by_idempotency_key id key (reliable db clock)
      ≡ (ok (find? (same_idempotency id key) db.emails), reliable db clock)
unfolding find_by_idempotency_key select_by_idempotency_key exec
find_by_idempotency_key_lem id key db clock = rw (
  find?-same _ (same_idempotency id key) (same_test id key) db.emails,
  nil_row (find? (same_idempotency id key) db.emails),
)

some_row-map : {A B : Type 0} (f : A → B) (o : Option A) → some_row (Option.map f o) ≡ some_row o
unfolding some_row
some_row-map f none = refl
some_row-map f (some x) = refl

-- The database after TouchAPIKey of a key.
abbrev pub touched : ApiKey → ℕ → Db → Db
touched k clock db = record db {
  api_keys =
      update (is_key k.id) (λ x. record x { last_used_at = now (reliable db clock) }) db.api_keys;
}

module _ (env : Env) (r : Request) (db : Db) (clock : ℕ) (token : Text) (k : ApiKey)
    (given : bearer_token r.authorization ≡ some token)
    (live : find? (is_live_key (env.hash_api_key token)) db.api_keys ≡ some k) (req : SendRequest)
    (body : r.body ≡ decoded req) (from to : Address)
    (from_parsed : env.parse_address req.from ≡ some from)
    (to_parsed : env.parse_address req.to ≡ some to) (fine : request_error env req from to ≡ none)
    (d : Domain) (owned : find? (is_domain k.domain_id) db.domains ≡ some d)
    (sender : on_domain from d ≡ true) (is_verified : verified d ≡ true) where
  auth_ok :
      auth env r.authorization (reliable db clock) ≡ (some k, reliable (touched k clock db) clock)
  unfolding auth get_api_key_by_hash select_key_by_hash touch_api_key exec
  auth_ok = rw (given, live)

  to_enqueue :
      post_email env r (reliable db clock)
      ≡ enqueue_request env req from to k d r.idempotency_key (reliable (touched k clock db) clock)
  unfolding post_email post_authed with_body parsed checked with_domain get_domain select_domain
      exec
  to_enqueue = rw (auth_ok, body, from_parsed, to_parsed, fine, owned, sender, is_verified)

  -- If the driver refuses nothing, the token has the hash of a live key, the request is decoded,
  -- its addresses parse, it passes the checks, its sender is on the domain of the key, which is
  -- verified, and an email of the key has its Idempotency-Key, which is not empty, then a POST is
  -- answered 200 with the id and the status of that email, and no email is added or changed.
  pub post_email-replay :
      (existing : Email)
      → is_empty r.idempotency_key ≡ false
      → find? (same_idempotency k.id r.idempotency_key) db.emails ≡ some existing
      → let (res, s') = post_email env r (reliable db clock) in
        (res ≡ record { code = 200; body = email_status existing.id existing.status })
        × (s'.emails ≡ db.emails)
  unfolding enqueue_request replay_first
  post_email-replay existing keyed found =
      rw
        (
          to_enqueue,
          keyed,
          find_by_idempotency_key_lem k.id r.idempotency_key (touched k clock db) clock,
          found,
        )
        (refl, refl)

  api_key_there :
      some_row (find? (λ (x : ApiKey). x.id == k.id) (touched k clock db).api_keys) ≡ true
  api_key_there =
      rw
        (find?-update (λ (x : ApiKey). x.id == k.id) (is_key k.id)
          (λ x. record x { last_used_at = now (reliable db clock) }) (λ x. refl) db.api_keys)
        (some_row-map _ (find? (λ (x : ApiKey). x.id == k.id) db.api_keys)
          ∙ found_by_id (λ (x : ApiKey). x.id) (is_live_key (env.hash_api_key token)) db.api_keys
              live)

  insert_ok :
      find? (same_idempotency k.id r.idempotency_key) db.emails ≡ none
      → may_insert
          (with_defaults
            (now (reliable db clock))
            (requested_email env req from to k d r.idempotency_key))
          (touched k clock db)
        ≡ true
  unfolding may_insert with_defaults requested_email some_row
  insert_ok new =
      rw
        (
          new,
          api_key_there,
          found_by_id (λ (x : Domain). x.id) (is_domain k.domain_id) db.domains owned,
        )
        (ground arith)

  -- The row of the accepted request.
  abbrev accepted_row : ℕ → Email
  accepted_row id = inserted_row id (
      with_defaults (now (reliable db clock))
        (requested_email env req from to k d r.idempotency_key))

  insert_now_lem :
      find? (same_idempotency k.id r.idempotency_key) db.emails ≡ none
      → let (res, s') =
          insert_now env req from to k d r.idempotency_key (reliable (touched k clock db) clock) in
        let id = next_id (λ (x : Email). x.id) db.emails in
        (res ≡ record { code = 202; body = email_status id queued })
        × (s'.emails ≡ db.emails ++ accepted_row id ∷ [])
  unfolding insert_now enqueue_or_replay after_enqueue enqueue_email insert_email exec
  insert_now_lem new = rw (insert_ok new) (refl, refl)

  -- If the driver refuses nothing, the token has the hash of a live key, the request is decoded,
  -- its addresses parse, it passes the checks, its sender is on the domain of the key, which is
  -- verified, and no email of the key has its Idempotency-Key, then a POST is answered 202 with the
  -- next id and the status queued, and the row of that id is appended to the emails.
  pub post_email-accepts :
      find? (same_idempotency k.id r.idempotency_key) db.emails ≡ none
      → let (res, s') = post_email env r (reliable db clock) in
        let id = next_id (λ (x : Email). x.id) db.emails in
        (res ≡ record { code = 202; body = email_status id queued })
        × (s'.emails ≡ db.emails ++ accepted_row id ∷ [])
  unfolding enqueue_request replay_first
  post_email-accepts new = elim (Bool-cases (is_empty r.idempotency_key)) [
    | inl unkeyed ↦ rw (to_enqueue, unkeyed) (insert_now_lem new)
    | inr keyed ↦
        rw
          (
            to_enqueue,
            keyed,
            find_by_idempotency_key_lem k.id r.idempotency_key (touched k clock db) clock,
            new,
          )
          (insert_now_lem new)
  ]
