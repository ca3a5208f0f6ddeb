-- ===== src/Admin/Keys/Lifetime.antt =====
-- A key that the operator creates, from its creation to its revocation.
use doevoe.Base.{
  ℕ, ◌≡◌, ◌≢◌, refl, sym, ap, subst, ◌∙◌, ◌==◌, Text, true, false, Option, none, some, List, [],
  ◌∷◌, ◌++◌, codes, arith, text_eq, text_eq_refl, trim_prefix-append, find?, find?-append,
  find?-eq-some, All, All-find?, update, or_else, Fallible, value, failure, is_empty, Bool-cases,
  inl, inr,
}
use doevoe.Store.{ApiKey, Domain, Store, Result, ok, err, exec_reliable, exec-ends, now}
use doevoe.Store.Emails.{row_or_error}
use doevoe.Store.Domains.{get_domain, is_domain, list_domains, select_domain}
use doevoe.Store.ApiKeys.{
  create_api_key, get_api_key_by_hash, generate_api_key, hash_api_key, insert_api_key,
  insert_key_if, key_row, is_key, is_live_key, revoke_api_key, select_key_by_hash,
}
use doevoe.Store.Listing.{list_api_keys, newest_keys}
use doevoe.Delivery.Message.{hex}
use doevoe.Api.Requests.{Env, auth, bearer_token, on_key, with_token}
use doevoe.Admin.{Reply, page, redirect}
use doevoe.Api.Requests.Auth.{auth_lem, IsCaller}
use doevoe.Admin.Emails.{list_or_nil}
use doevoe.Admin.Keys.{
  KeysPage, OnKeyCreated, create_key, in_domain, with_key, key_created, render_keys, revoke_key,
  revoked, names_of_key,
}

-- OnKeyCreated, where it is not set.
abbrev pub no_hook : OnKeyCreated
no_hook name domain_name s = s

-- No key has the hash, so none that is not revoked has it.
live_none :
    (hash : Text) (keys : List ApiKey)
    → find? (λ (k : ApiKey). text_eq k.key_hash hash) keys ≡ none
    → find? (is_live_key hash) keys ≡ none
unfolding is_live_key
live_none hash [] h = refl
live_none hash (k ∷ ks) h = ground (arith, live_none hash ks)

bearer_of :
    (rest : Text)
    → bearer_token (codes "Bearer " ++ codes "dv_" ++ rest) ≡ some (codes "dv_" ++ rest)
unfolding bearer_token
bearer_of rest = rw (trim_prefix-append (codes "Bearer ") (codes "dv_" ++ rest)) refl

only_live :
    (hash : Text) (keys : List ApiKey) (k : ApiKey)
    → find? (λ (k : ApiKey). text_eq k.key_hash hash) keys ≡ none
    → k.key_hash ≡ hash
    → k.revoked ≡ false
    → or_else (find? (is_live_key hash) keys) (find? (is_live_key hash) (k ∷ [])) ≡ some k
unfolding is_live_key
only_live hash keys k unique hashed live =
    rw (live_none hash keys unique, hashed, text_eq_refl hash, live) refl

-- A key that is the last in the table, and the only one of its hash, is found by its token.
auth-last :
    (env : Env) (rest : Text) (s : Store) (keys : List ApiKey) (k : ApiKey)
    → let token = codes "dv_" ++ rest in
      s.faults ≡ []
      → s.api_keys ≡ keys ++ k ∷ []
      → find? (λ (k : ApiKey). text_eq k.key_hash (env.hash_api_key token)) keys ≡ none
      → k.key_hash ≡ env.hash_api_key token
      → k.revoked ≡ false
      → (auth env (codes "Bearer " ++ token) s).0 ≡ some k
unfolding auth with_token on_key get_api_key_by_hash select_key_by_hash
auth-last env rest s keys k no_faults same unique hashed live =
    let hash = env.hash_api_key (codes "dv_" ++ rest) in
    let found : find? (is_live_key hash) s.api_keys ≡ some k =
      ap (find? (is_live_key hash)) same
      ∙ find?-append (is_live_key hash) keys (k ∷ [])
      ∙ only_live hash keys k unique hashed live in
    rw (bearer_of rest, exec_reliable (select_key_by_hash hash) s no_faults, found) refl

render_keys-store : (token : Text) (s : Store) → s.faults ≡ [] → (render_keys token s).1 ≡ s
unfolding render_keys list_api_keys list_domains
render_keys-store token s h =
    rw (exec_reliable (λ db. (ok (newest_keys db.api_keys), db)) s h)
      (ap (λ (r : Result (List Domain) × Store). r.1) (exec_reliable _ s h))

-- The token that a page shows.
abbrev token_of : Reply KeysPage → Text
token_of (page code shown) = shown.new_token
token_of _ = []

render_keys-token : (token : Text) (s : Store) → token_of (render_keys token s).0 ≡ token
unfolding render_keys
render_keys-token token s = refl

module _ (env : Env) (sha256 trim_space : Text → Text) (form : Text) (domain_id : ℕ)
    (before : List ApiKey) where
  -- The token of the page is that of a key of the store; without a page, no key was added.
  abbrev pub IsUsable : Reply KeysPage → Store → Type 0
  IsUsable (page code shown) s =
      (k : ApiKey) × (k.name ≡ trim_space form)
      × (k.domain_id ≡ domain_id)
      × ((auth (record env { hash_api_key = hash_api_key sha256 })
            (codes "Bearer " ++ shown.new_token) s).0
          ≡ some k)
  IsUsable _ s = s.api_keys ≡ before

  render_keys-IsUsable :
      (rest : Text) (s : Store) (keys : List ApiKey) (k : ApiKey)
      → let token = codes "dv_" ++ rest in
        s.faults ≡ []
        → s.api_keys ≡ keys ++ k ∷ []
        → find? (λ (k : ApiKey). text_eq k.key_hash (hash_api_key sha256 token)) keys ≡ none
        → k.key_hash ≡ hash_api_key sha256 token
        → k.revoked ≡ false
        → k.name ≡ trim_space form
        → k.domain_id ≡ domain_id
        → IsUsable (render_keys token s).0 (render_keys token s).1
  unfolding render_keys
  render_keys-IsUsable rest s keys k no_faults same unique hashed live named in_domain =
      rw (render_keys-store (codes "dv_" ++ rest) s no_faults) (
        k,
        named,
        in_domain,
        auth-last (record env { hash_api_key = hash_api_key sha256 }) rest s keys k no_faults same
            unique hashed live,
      )

  inserted :
      (rest domain_name : Text) (at : ℕ) (s : Store) (other : Option ApiKey) (d : Option Domain)
      (id : ℕ)
      → let hash = hash_api_key sha256 (codes "dv_" ++ rest) in
        s.faults ≡ []
        → s.api_keys ≡ before
        → find? (λ (k : ApiKey). text_eq k.key_hash hash) s.api_keys ≡ other
        → let (r, db') =
            insert_key_if other d (key_row id (trim_space form) domain_id hash at) s.db in
          let result =
            key_created no_hook
              (trim_space form)
              domain_name
              (codes "dv_" ++ rest)
              (r, record s { db = db' }) in
          IsUsable result.0.0 result.0.1
  unfolding key_created key_row
  inserted rest domain_name at s (some k) d id no_faults same unique = same
  inserted rest domain_name at s none none id no_faults same unique = same
  inserted rest domain_name at s none (some d) id no_faults same unique =
      let hash = hash_api_key sha256 (codes "dv_" ++ rest) in
      render_keys-IsUsable rest _ s.api_keys (key_row id (trim_space form) domain_id hash at)
        no_faults refl unique refl refl refl refl

  generated :
      (domain_name : Text) (s : Store) (bytes : Fallible (List ℕ))
      → s.faults ≡ []
      → s.api_keys ≡ before
      → let result =
          with_key no_hook
            (trim_space form)
            domain_id
            domain_name
            (generate_api_key sha256 bytes)
            s in
        IsUsable result.0.0 result.0.1
  unfolding with_key generate_api_key create_api_key insert_api_key hash_api_key
  generated domain_name s (failure e) h same = same
  generated domain_name s (value bytes) h same =
      let token : Text = codes "dv_" ++ hex bytes in
      subst
        (λ (r : Result ℕ × Store).
          let result = key_created no_hook (trim_space form) domain_name token r in
          IsUsable result.0.0 result.0.1)
        (sym (
          exec_reliable
            (insert_api_key (trim_space form) domain_id (hash_api_key sha256 token) (now s)) s h))
        (inserted (hex bytes) domain_name (now s) s _ _ _ h same refl)

  in_domain-IsUsable :
      (s : Store) (bytes : Fallible (List ℕ)) (d : Option Domain)
      → s.faults ≡ []
      → s.api_keys ≡ before
      → let result =
          in_domain no_hook sha256 bytes (trim_space form) domain_id (row_or_error d, s) in
        IsUsable result.0.0 result.0.1
  unfolding in_domain
  in_domain-IsUsable s bytes none h same = same
  in_domain-IsUsable s bytes (some d) h same = elim (Bool-cases (is_empty (trim_space form))) [
    | inl unnamed ↦ rw unnamed same
    | inr named ↦ rw named (generated d.name s bytes h same)
  ]

-- If the driver refuses nothing, then the creation of a key either shows no page and adds no key,
-- or the token that the page shows authenticates in the API as a key with the given name, for the
-- given domain.
pub created-IsUsable :
    (env : Env) (sha256 trim_space : Text → Text) (form : Text) (domain_id : ℕ)
    (bytes : Fallible (List ℕ)) (s : Store)
    → s.faults ≡ []
    → let ((reply, s'), hook) = create_key no_hook sha256 trim_space bytes form domain_id s in
      IsUsable env sha256 trim_space form domain_id s.api_keys reply s'
unfolding create_key get_domain select_domain
created-IsUsable env sha256 trim_space form domain_id bytes s h =
    rw (exec_reliable (select_domain domain_id) s h) (
      in_domain-IsUsable env sha256 trim_space form domain_id s.api_keys s bytes
        (find? (is_domain domain_id) s.domains) h refl)

-- Of the keys with an id, each is revoked.
abbrev AllRevoked : ℕ → List ApiKey → Type 0
AllRevoked id keys = All (λ (k : ApiKey). k.id ≡ id → k.revoked ≡ true) keys

update-AllRevoked :
    (id : ℕ) (keys : List ApiKey)
    → AllRevoked id (update (is_key id) (λ k. record k { revoked = true }) keys)
update-AllRevoked id [] = tt
update-AllRevoked id (k ∷ ks) = (
  λ same. let here : (k.id == id) ≡ true = ground (arith, same) in rw here refl,
  update-AllRevoked id ks,
)

-- A key that is revoked is not the live key of any hash.
live-other :
    (id : ℕ) (hash : Text) (keys : List ApiKey) {k : ApiKey}
    → AllRevoked id keys
    → find? (is_live_key hash) keys ≡ some k
    → k.id ≢ id
unfolding is_live_key
live-other id hash keys {k} all found same =
    let revoked =
      All-find? (λ (k : ApiKey). k.id ≡ id → k.revoked ≡ true) (is_live_key hash) keys all found
        same in
    let live = find?-eq-some (is_live_key hash) keys found in ground (arith, revoked, live)

revoke-AllRevoked :
    (id : ℕ) (names : Text × Text) (s : Store)
    → let ((reply, s'), hook) = revoked names (revoke_api_key id s) in
      reply ≡ redirect (codes "/admin/keys") → AllRevoked id s'.api_keys
unfolding revoked revoke_api_key
revoke-AllRevoked id names s = on_result (revoke_api_key id s).0 (revoke_api_key id s).1 (
    exec-ends (λ r db. r ≡ ok tt → AllRevoked id db.api_keys) _ s (λ m h. cc)
      (λ h. update-AllRevoked id s.api_keys))
  where
    on_result :
        (r : Result (Unit {0})) (s' : Store)
        → (r ≡ ok tt → AllRevoked id s'.api_keys)
        → let ((reply, s''), hook) = revoked names (r, s') in
          reply ≡ redirect (codes "/admin/keys") → AllRevoked id s''.api_keys
    on_result (ok _) s' h done = h refl
    on_result (err e) s' h done = cc

-- After a revocation of a key that is answered by the redirect, a request to the API, whatever it
-- presents, does not authenticate as a key of that id.
pub revoked-refused :
    (env : Env) (id : ℕ) (authorization : Text) (s : Store)
    → (revoke_key id s).0.0 ≡ redirect (codes "/admin/keys")
    → (k : ApiKey) → (auth env authorization (revoke_key id s).0.1).0 ≡ some k
    → k.id ≢ id
unfolding revoke_key
revoked-refused env id authorization s done k passed =
    let (keys, s1) = list_api_keys s in
    let (names, s2) = names_of_key id (list_or_nil keys) ([], []) s1 in
    let s' = (revoked names (revoke_api_key id s2)).0.1 in
    let caller = subst (IsCaller env authorization s') passed (auth_lem env authorization s').2 in
    live-other id _ s'.api_keys (revoke-AllRevoked id names s2 done) caller.2
