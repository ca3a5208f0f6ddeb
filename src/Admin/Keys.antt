-- ===== src/Admin/Keys.antt =====
-- internal/admin/admin.go: renderKeys, createKey and revokeKey. A handler also gives the call of the
-- hook OnKeyCreated or OnKeyRevoked that it makes, the name of the key and that of its domain. What
-- OnKeyCreated does, before the keys are read for the page, is the argument `on_created`.
-- strings.TrimSpace, SHA-256 and the random source are parameters.
pub mod Lifetime
pub mod Stepwise
use doevoe.Base.{
  ℕ, ◌==◌, Text, Bool, true, false, ◌||◌, Option, none, some, List, [], ◌∷◌, codes, is_empty,
  if◌then◌else◌, Fallible, value, failure,
}
use doevoe.Store.{ApiKey, Domain, Store, Result, ok, err, error_text}
use doevoe.Store.Domains.{get_domain, list_domains}
use doevoe.Store.ApiKeys.{generate_api_key, create_api_key, revoke_api_key}
use doevoe.Store.Listing.{list_api_keys}
use doevoe.Admin.{Reply, redirect, http_error, page, Handler}
use doevoe.Admin.Emails.{list_or_nil}

-- The data of the page "keys".
pub record KeysPage : Type 0 where
  pub keys : List ApiKey
  pub domains : List Domain
  pub new_token : Text

abbrev pub Hook : Type 0
Hook = Option (Text × Text)

-- renderKeys; the names by the domains' ids are those of `domains`.
unfoldable pub render_keys : Text → Handler KeysPage
render_keys new_token s =
    let (keys, s1) = list_api_keys s in
    let (domains, s2) = list_domains s1 in
    (
      page 200 (record {
        keys = list_or_nil keys;
        domains = list_or_nil domains;
        new_token = new_token;
      }),
      s2,
    )

-- OnKeyCreated, of the name of the key and that of its domain.
abbrev pub OnKeyCreated : Type 0
OnKeyCreated = Text → Text → Store → Store

unfoldable pub key_created :
    OnKeyCreated → Text → Text → Text → Result ℕ × Store → (Reply KeysPage × Store) × Hook
unfolding render_keys
key_created on_created name domain_name token (err e, s) =
    ((http_error 500 (error_text e), s), none)
key_created on_created name domain_name token (ok id, s) =
    (render_keys token (on_created name domain_name s), some (name, domain_name))

unfoldable pub with_key :
    OnKeyCreated
    → Text
    → ℕ
    → Text
    → Fallible (Text × Text)
    → Store
    → (Reply KeysPage × Store) × Hook
unfolding key_created
with_key on_created name domain_id domain_name (failure e) s = ((http_error 500 e, s), none)
with_key on_created name domain_id domain_name (value (token, hash)) s =
    key_created on_created name domain_name token (create_api_key name domain_id hash s)

abbrev pub required : Text
required = codes "name and domain are required"

unfoldable pub in_domain :
    OnKeyCreated
    → (Text → Text)
    → Fallible (List ℕ)
    → Text
    → ℕ
    → Result Domain × Store
    → (Reply KeysPage × Store) × Hook
unfolding with_key
in_domain on_created sha256 bytes name domain_id (err e, s) = ((http_error 422 required, s), none)
in_domain on_created sha256 bytes name domain_id (ok d, s) =
    if is_empty name
    then ((http_error 422 required, s), none)
    else with_key on_created name domain_id d.name (generate_api_key sha256 bytes) s

-- createKey
unfoldable pub create_key :
    OnKeyCreated
    → (Text → Text)
    → (Text → Text)
    → Fallible (List ℕ)
    → Text
    → ℕ
    → Store
    → (Reply KeysPage × Store) × Hook
unfolding in_domain
create_key on_created sha256 trim_space bytes form domain_id s =
    in_domain on_created sha256 bytes (trim_space form) domain_id (get_domain domain_id s)

-- The names that revokeKey passes on: those of the last key with the id.
name_or : Text → Result Domain → Text
name_or before (ok d) = d.name
name_or before (err e) = before

unfoldable pub names_of_key : ℕ → List ApiKey → Text × Text → Store → (Text × Text) × Store
unfolding name_or
names_of_key id [] names s = (names, s)
names_of_key id (k ∷ ks) (name, domain_name) s =
    let (d, s') = get_domain k.domain_id s in
    elim (k.id == id) [
      | true ↦ names_of_key id ks (k.name, name_or domain_name d) s'
      | false ↦ names_of_key id ks (name, domain_name) s
    ]

unfoldable pub revoked : Text × Text → Result (Unit {0}) × Store → (Reply KeysPage × Store) × Hook
revoked names (err e, s) = ((http_error 500 (error_text e), s), none)
revoked names (ok _, s) = ((redirect (codes "/admin/keys"), s), some names)

-- revokeKey
unfoldable pub revoke_key : ℕ → Store → (Reply KeysPage × Store) × Hook
unfolding names_of_key revoked
revoke_key id s =
    let (keys, s1) = list_api_keys s in
    let (names, s2) = names_of_key id (list_or_nil keys) ([], []) s1 in
    revoked names (revoke_api_key id s2)
