-- ===== src/Store/ApiKeys.antt =====
-- internal/store/apikeys.go: API keys, kept as the hash of their token.
use doevoe.Delivery.Message.{hex}
use doevoe.Base.{
  Fallible, value, failure, codes, List, ℕ, Text, Bool, true, false, ◌&&◌, not, Option, none, some,
  [], ◌∷◌, ◌++◌, ◌==◌, text_eq, find?, update,
}
use doevoe.Store.{ApiKey, Domain, ok, err, constraint, Statement, Action, exec, now}
use doevoe.Store.Emails.{next_id, row_or_error, missing_is_nil}
use doevoe.Store.Domains.{is_domain}

-- WHERE key_hash=? AND revoked=0
unfoldable pub is_live_key : Text → ApiKey → Bool
is_live_key hash k = text_eq k.key_hash hash && not k.revoked

unfoldable pub select_key_by_hash : Text → Statement ApiKey
unfolding is_live_key
select_key_by_hash hash db = (row_or_error (find? (is_live_key hash) db.api_keys), db)

unfoldable pub get_api_key_by_hash : Text → Action (Option ApiKey)
unfolding select_key_by_hash
get_api_key_by_hash hash s =
    let (r, s') = exec (select_key_by_hash hash) s in (missing_is_nil r, s')

unfoldable pub key_row : ℕ → Text → ℕ → Text → ℕ → ApiKey
key_row id name domain_id key_hash at = record {
  id = id;
  name = name;
  key_hash = key_hash;
  domain_id = domain_id;
  revoked = false;
  last_used_at = 0;
  created_at = at;
}

-- key_hash is UNIQUE, and domain_id REFERENCES domains(id).
abbrev pub insert_key_if : Option ApiKey → Option Domain → ApiKey → Statement ℕ
insert_key_if none (some _) k db = (ok k.id, record db { api_keys = db.api_keys ++ k ∷ [] })
insert_key_if _ _ k db = (err constraint, db)

unfoldable pub insert_api_key : Text → ℕ → Text → ℕ → Statement ℕ
unfolding next_id key_row
insert_api_key name domain_id key_hash at db =
    let id = next_id (λ (k : ApiKey). k.id) db.api_keys in
    insert_key_if (find? (λ (k : ApiKey). text_eq k.key_hash key_hash) db.api_keys)
      (find? (is_domain domain_id) db.domains) (key_row id name domain_id key_hash at) db

unfoldable pub create_api_key : Text → ℕ → Text → Action ℕ
unfolding insert_api_key now
create_api_key name domain_id key_hash s = exec (insert_api_key name domain_id key_hash (now s)) s

abbrev pub is_key : ℕ → ApiKey → Bool
is_key id k = k.id == id

unfoldable pub revoke_api_key : ℕ → Action (Unit {0})
revoke_api_key id = exec (λ db. (
  ok tt,
  record db { api_keys = update (is_key id) (λ k. record k { revoked = true }) db.api_keys },
))

unfoldable pub touch_api_key : ℕ → ℕ → Action (Unit {0})
touch_api_key id at = exec (λ db. (
  ok tt,
  record db { api_keys = update (is_key id) (λ k. record k { last_used_at = at }) db.api_keys },
))

-- HashAPIKey, over SHA-256.
unfoldable pub hash_api_key : (Text → Text) → Text → Text
hash_api_key sha256 token = hex (sha256 token)

-- GenerateAPIKey, with what the random source gave: the token and its hash.
unfoldable pub generate_api_key : (Text → Text) → Fallible (List ℕ) → Fallible (Text × Text)
unfolding hash_api_key
generate_api_key sha256 (failure e) = failure e
generate_api_key sha256 (value bytes) =
    let token : Text = codes "dv_" ++ hex bytes in value (token, hash_api_key sha256 token)
