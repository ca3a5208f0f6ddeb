-- ===== src/Api/Requests/Auth.antt =====
-- Who passes the authentication, and what it leaves in the store.
use doevoe.Base.{ℕ, ◌≡◌, refl, ◌∙◌, ap, Text, Option, none, some, find?}
use doevoe.Store.{Db, Domain, Email, ApiKey, Store, Result, ok, err, no_rows, exec, exec-ends, now}
use doevoe.Store.Reads.{exec_read}
use doevoe.Store.Emails.{row_or_error, missing_is_nil, get_email, has_id}
use doevoe.Store.Domains.{get_domain, is_domain}
use doevoe.Store.ApiKeys.{is_live_key, get_api_key_by_hash, select_key_by_hash, touch_api_key}
use doevoe.Api.Requests.{Env, bearer_token, on_key, with_token, auth, Authed}

pub found_row : {A : Type 0} (o : Option A) {a : A} → row_or_error o ≡ ok a → o ≡ some a
found_row none h = cc
found_row (some x) h = cc

pub get_domain_lem :
    (id : ℕ) (s : Store)
    → let (r, s') = get_domain id s in
      (s'.db ≡ s.db) × ((d : Domain) → r ≡ ok d → find? (is_domain id) s.domains ≡ some d)
unfolding get_domain
get_domain_lem id s =
    let both = exec_read (λ db. row_or_error (find? (is_domain id) db.domains)) s in
    (both.0, λ d h. found_row (find? (is_domain id) s.domains) (both.1 d h))

pub get_email_lem :
    (id : ℕ) (s : Store)
    → let (r, s') = get_email id s in
      (s'.db ≡ s.db) × ((e : Email) → r ≡ ok e → find? (has_id id) s.emails ≡ some e)
unfolding get_email
get_email_lem id s =
    let both = exec_read (λ db. row_or_error (find? (has_id id) db.emails)) s in
    (both.0, λ e h. found_row (find? (has_id id) s.emails) (both.1 e h))

pub nil_found : {A : Type 0} (o : Result A) {a : A} → missing_is_nil o ≡ ok (some a) → o ≡ ok a
nil_found (ok x) h = cc
nil_found (err no_rows) h = cc
nil_found (err _) h = cc

get_key_lem :
    (hash : Text) (s : Store)
    → let (r, s') = get_api_key_by_hash hash s in
      (s'.db ≡ s.db)
      × ((k : ApiKey) → r ≡ ok (some k) → find? (is_live_key hash) s.api_keys ≡ some k)
unfolding get_api_key_by_hash select_key_by_hash
get_key_lem hash s =
    let both = exec_read (λ db. row_or_error (find? (is_live_key hash) db.api_keys)) s in
    (
      both.0,
      λ k h. found_row (find? (is_live_key hash) s.api_keys) (
          both.1 k (
            nil_found (exec (λ db. (row_or_error (find? (is_live_key hash) db.api_keys), db)) s).0
              h)),
    )

touch_tables :
    (id at : ℕ) (s : Store)
    → let s' = (touch_api_key id at s).1 in (s'.emails ≡ s.emails) × (s'.domains ≡ s.domains)
unfolding touch_api_key
touch_tables id at s =
    exec-ends (λ r db. (db.emails ≡ s.emails) × (db.domains ≡ s.domains)) _ s (λ m. (refl, refl))
      (refl, refl)

-- The caller presents a token whose hash a key that is not revoked has.
abbrev pub IsCaller : Env → Text → Store → Authed → Type 0
IsCaller env authorization s none = Unit
IsCaller env authorization s (some k) =
    (token : Text) × (bearer_token authorization ≡ some token)
    × (find? (is_live_key (env.hash_api_key token)) s.api_keys ≡ some k)

-- Authentication changes no email and no domain, and gives a key only to a caller whose bearer
-- token has the hash of that key, which is not revoked.
pub auth_lem :
    (env : Env) (authorization : Text) (s : Store)
    → let (k, s') = auth env authorization s in
      (s'.emails ≡ s.emails) × (s'.domains ≡ s.domains) × IsCaller env authorization s k
unfolding auth
auth_lem env authorization s = of_token (bearer_token authorization) refl
  where
    on_result :
        (token : Text) (r : Result (Option ApiKey)) (s' : Store)
        → s'.db ≡ s.db
        → ((k : ApiKey)
            → r ≡ ok (some k)
            → find? (is_live_key (env.hash_api_key token)) s.api_keys ≡ some k)
        → bearer_token authorization ≡ some token
        → let (k, s'') = on_key (r, s') in
          (s''.emails ≡ s.emails) × (s''.domains ≡ s.domains) × IsCaller env authorization s k
    on_result token (ok none) s' same found given =
        (ap (λ (d : Db). d.emails) same, ap (λ (d : Db). d.domains) same, tt)
    on_result token (err e) s' same found given =
        (ap (λ (d : Db). d.emails) same, ap (λ (d : Db). d.domains) same, tt)
    on_result token (ok (some k)) s' same found given =
        let (emails, domains) = touch_tables k.id (now s') s' in
        (
          emails ∙ ap (λ (d : Db). d.emails) same,
          domains ∙ ap (λ (d : Db). d.domains) same,
          (token, given, found k refl),
        )

    of_token :
        (t : Option Text)
        → bearer_token authorization ≡ t
        → let (k, s') = with_token env t s in
          (s'.emails ≡ s.emails) × (s'.domains ≡ s.domains) × IsCaller env authorization s k
    of_token none h = (refl, refl, tt)
    of_token (some token) h =
        let (r, s') = get_api_key_by_hash (env.hash_api_key token) s in
        let (same, found) = get_key_lem (env.hash_api_key token) s in
        on_result token r s' same found h

-- Where no key is given, no table has changed.
pub auth-refused :
    (env : Env) (authorization : Text) (s : Store)
    → (auth env authorization s).0 ≡ none
    → (auth env authorization s).1.db ≡ s.db
unfolding auth with_token on_key
auth-refused env authorization s = of_token (bearer_token authorization)
  where
    on_result :
        (r : Result (Option ApiKey)) (s' : Store)
        → s'.db ≡ s.db
        → (on_key (r, s')).0 ≡ none
        → (on_key (r, s')).1.db ≡ s.db
    on_result (ok (some k)) s' same h = cc
    on_result (ok none) s' same h = same
    on_result (err e) s' same h = same

    of_token : (t : Option Text) → (with_token env t s).0 ≡ none → (with_token env t s).1.db ≡ s.db
    of_token none h = refl
    of_token (some token) h =
        let (r, s') = get_api_key_by_hash (env.hash_api_key token) s in
        on_result r s' (get_key_lem (env.hash_api_key token) s).0 h
