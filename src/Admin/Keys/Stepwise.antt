-- ===== src/Admin/Keys/Stepwise.antt =====
-- The handlers of the keys are sequences of calls of the store.
use doevoe.Base.{
  ℕ, ◌==◌, refl, Text, List, [], ◌∷◌, Bool-cases, inl, inr, is_empty, Fallible, value, failure,
}
use doevoe.Store.{ApiKey, Domain, Store, Result, ok, err}
use doevoe.Store.Domains.{get_domain}
use doevoe.Store.ApiKeys.{generate_api_key, create_api_key, revoke_api_key}
use doevoe.Store.Listing.{list_api_keys}
use doevoe.Store.Calls.{
  Calls, still, both, get_domain-Calls, list_domains-Calls, list_api_keys-Calls,
  create_api_key-Calls, revoke_api_key-Calls,
}
use doevoe.Admin.Emails.{list_or_nil}
use doevoe.Admin.Keys.{
  OnKeyCreated, render_keys, key_created, with_key, in_domain, create_key, name_or, names_of_key,
  revoked, revoke_key,
}

pub render_keys-Calls : (token : Text) (s : Store) → Calls s (render_keys token s).1
unfolding render_keys
render_keys-Calls token s = both (list_api_keys-Calls s) (list_domains-Calls (list_api_keys s).1)

module _ (on_created : OnKeyCreated)
    (hook : (name domain_name : Text) (s : Store) → Calls s (on_created name domain_name s)) where
  key_created-Calls :
      (name domain_name token : Text) (r : Result ℕ) (s : Store)
      → Calls s (key_created on_created name domain_name token (r, s)).0.1
  unfolding key_created
  key_created-Calls name domain_name token (err e) s = still refl
  key_created-Calls name domain_name token (ok id) s =
      both (hook name domain_name s) (render_keys-Calls token (on_created name domain_name s))

  with_key-Calls :
      (name : Text) (domain_id : ℕ) (domain_name : Text) (k : Fallible (Text × Text)) (s : Store)
      → Calls s (with_key on_created name domain_id domain_name k s).0.1
  unfolding with_key
  with_key-Calls name domain_id domain_name (failure e) s = still refl
  with_key-Calls name domain_id domain_name (value (token, hash)) s =
      both (create_api_key-Calls name domain_id hash s) (
        key_created-Calls name domain_name token (create_api_key name domain_id hash s).0
          (create_api_key name domain_id hash s).1)

  pub create_key-Calls :
      (sha256 trim_space : Text → Text) (bytes : Fallible (List ℕ)) (form : Text) (domain_id : ℕ)
      (s : Store)
      → Calls s (create_key on_created sha256 trim_space bytes form domain_id s).0.1
  unfolding create_key
  create_key-Calls sha256 trim_space bytes form domain_id s =
      let (r, s') = get_domain domain_id s in
      both (get_domain-Calls domain_id s) (of_domain (trim_space form) r s')
    where
      of_domain :
          (name : Text) (r : Result Domain) (s' : Store)
          → Calls s' (in_domain on_created sha256 bytes name domain_id (r, s')).0.1
      of_domain name (err e) s' = unfold in_domain in still refl
      of_domain name (ok d) s' =
          unfold in_domain in
          elim (Bool-cases (is_empty name)) [
            | inl unnamed ↦ rw unnamed (still refl)
            | inr named ↦
                rw named (with_key-Calls name domain_id d.name (generate_api_key sha256 bytes) s')
          ]

names_of_key-Calls :
    (id : ℕ) (ks : List ApiKey) (names : Text × Text) (s : Store)
    → Calls s (names_of_key id ks names s).1
unfolding names_of_key
names_of_key-Calls id [] names s = still refl
names_of_key-Calls id (k ∷ ks) (name, domain_name) s = elim (Bool-cases (k.id == id)) [
  | inl own ↦
      rw (own, names_of_key)
        (both (get_domain-Calls k.domain_id s) (
          names_of_key-Calls id ks (k.name, name_or domain_name (get_domain k.domain_id s).0)
            (get_domain k.domain_id s).1))
  | inr other ↦ rw (other, names_of_key) (names_of_key-Calls id ks (name, domain_name) s)
]

pub revoke_key-Calls : (id : ℕ) (s : Store) → Calls s (revoke_key id s).0.1
unfolding revoke_key
revoke_key-Calls id s =
    let (keys, s1) = list_api_keys s in
    let (names, s2) = names_of_key id (list_or_nil keys) ([], []) s1 in
    let (r, s3) = revoke_api_key id s2 in
    both (list_api_keys-Calls s) (
      both (names_of_key-Calls id (list_or_nil keys) ([], []) s1)
        (both (revoke_api_key-Calls id s2) (of_revoked names r s3)))
  where
    of_revoked :
        (names : Text × Text) (r : Result (Unit {0})) (s' : Store)
        → Calls s' (revoked names (r, s')).0.1
    of_revoked names (ok u) s' = unfold revoked in still refl
    of_revoked names (err e) s' = unfold revoked in still refl
