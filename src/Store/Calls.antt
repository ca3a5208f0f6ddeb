-- ===== src/Store/Calls.antt =====
-- What calls of the store, one after the other, do to the table of emails.
use doevoe.Base.{ℕ, ◌≡◌, refl, Text, Bool, Option, none, some}
use doevoe.Store.{
  Email, Domain, ApiKey, Db, Store, Result, ok, err, Statement, exec, exec-ends, now,
}
use doevoe.Store.Emails.{
  enqueue_email, get_email, select_email, find_by_idempotency_key, select_by_idempotency_key,
}
use doevoe.Store.Operator.{cancel_email, requeue_email}
use doevoe.Store.Domains.{
  get_domain, select_domain, list_domains, insert_unless_found, insert_domain, then_get,
  create_domain, set_domain_verification, get_domain_by_name, select_domain_by_name,
}
use doevoe.Store.ApiKeys.{insert_key_if, insert_api_key, create_api_key, revoke_api_key}
use doevoe.Store.Attempts.{list_attempts}
use doevoe.Store.Listing.{EmailFilter, list_api_keys, list_emails}
use doevoe.Store.Stats.{daily_volume, summary_stats, domain_volume, failure_reasons}

-- Calls that leave the emails as they are, and the statements of requests and of the operator.
pub data Calls : Store → Store → Type 0 where
  still : {s t : Store} → t.emails ≡ s.emails → Calls s t
  enqueues : {s : Store} (e : Email) → Calls s (enqueue_email e s).1
  cancels : {s : Store} (id : ℕ) → Calls s (cancel_email id s).1
  requeues : {s : Store} (id : ℕ) (new_to name : Text) → Calls s (requeue_email id new_to name s).1
  both : {s t u : Store} → Calls s t → Calls t u → Calls s u

module _ {A : Type 0} where
  pub exec-Calls :
      (run : Statement A) (s : Store)
      → ((db : Db) → (run db).1.emails ≡ db.emails)
      → Calls s (exec run s).1
  exec-Calls run s keeps =
      still (exec-ends (λ r db. db.emails ≡ s.emails) run s (λ m. refl) (keeps s.db))

pub get_email-Calls : (id : ℕ) (s : Store) → Calls s (get_email id s).1
unfolding get_email
get_email-Calls id s = exec-Calls (select_email id) s (unfold select_email in λ db. refl)

pub find_by_idempotency_key-Calls :
    (id : ℕ) (key : Text) (s : Store) → Calls s (find_by_idempotency_key id key s).1
unfolding find_by_idempotency_key
find_by_idempotency_key-Calls id key s =
    exec-Calls (select_by_idempotency_key id key) s (unfold select_by_idempotency_key in λ db. refl)

pub get_domain-Calls : (id : ℕ) (s : Store) → Calls s (get_domain id s).1
unfolding get_domain
get_domain-Calls id s = exec-Calls (select_domain id) s (λ db. refl)

pub get_domain_by_name-Calls : (name : Text) (s : Store) → Calls s (get_domain_by_name name s).1
unfolding get_domain_by_name
get_domain_by_name-Calls name s =
    exec-Calls (select_domain_by_name name) s (unfold select_domain_by_name in λ db. refl)

pub list_domains-Calls : (s : Store) → Calls s (list_domains s).1
unfolding list_domains
list_domains-Calls s = exec-Calls _ s (λ db. refl)

pub create_domain-Calls :
    (name selector pem : Text) (s : Store) → Calls s (create_domain name selector pem s).1
unfolding create_domain
create_domain-Calls name selector pem s =
    let (r, s') = exec (insert_domain name selector pem (now s)) s in
    both (exec-Calls (insert_domain name selector pem (now s)) s inserted) (of_insert r s')
  where
    unless_found :
        (o : Option Domain) (d : Domain) (db : Db)
        → (insert_unless_found o d db).1.emails ≡ db.emails
    unless_found none d db = refl
    unless_found (some x) d db = refl

    inserted : (db : Db) → (insert_domain name selector pem (now s) db).1.emails ≡ db.emails
    inserted db = unfold insert_domain in unless_found _ _ db

    of_insert : (r : Result ℕ) (s' : Store) → Calls s' (then_get (r, s')).1
    of_insert (ok id) s' = get_domain-Calls id s'
    of_insert (err e) s' = still refl

pub set_domain_verification-Calls :
    (id : ℕ) (spf dkim dmarc : Bool) (at : ℕ) (s : Store)
    → Calls s (set_domain_verification id spf dkim dmarc at s).1
unfolding set_domain_verification
set_domain_verification-Calls id spf dkim dmarc at s = exec-Calls _ s (λ db. refl)

pub list_api_keys-Calls : (s : Store) → Calls s (list_api_keys s).1
unfolding list_api_keys
list_api_keys-Calls s = exec-Calls _ s (λ db. refl)

pub create_api_key-Calls :
    (name : Text) (domain_id : ℕ) (hash : Text) (s : Store)
    → Calls s (create_api_key name domain_id hash s).1
unfolding create_api_key
create_api_key-Calls name domain_id hash s =
    exec-Calls (insert_api_key name domain_id hash (now s)) s
      (λ db. unfold insert_api_key in inserted _ _ _ db)
  where
    inserted :
        (k : Option ApiKey) (d : Option Domain) (row : ApiKey) (db : Db)
        → (insert_key_if k d row db).1.emails ≡ db.emails
    inserted none (some d) row db = refl
    inserted none none row db = refl
    inserted (some k) d row db = refl

pub revoke_api_key-Calls : (id : ℕ) (s : Store) → Calls s (revoke_api_key id s).1
unfolding revoke_api_key
revoke_api_key-Calls id s = exec-Calls _ s (λ db. refl)

pub list_attempts-Calls : (id : ℕ) (s : Store) → Calls s (list_attempts id s).1
unfolding list_attempts
list_attempts-Calls id s = exec-Calls _ s (λ db. refl)

pub list_emails-Calls :
    (like : Text → Text → Bool) (f : EmailFilter) (s : Store) → Calls s (list_emails like f s).1
unfolding list_emails
list_emails-Calls like f s = exec-Calls _ s (λ db. refl)

pub daily_volume-Calls : (from to : ℕ) (s : Store) → Calls s (daily_volume from to s).1
unfolding daily_volume
daily_volume-Calls from to s = exec-Calls _ s (λ db. refl)

pub summary_stats-Calls : (from to : ℕ) (s : Store) → Calls s (summary_stats from to s).1
unfolding summary_stats
summary_stats-Calls from to s = exec-Calls _ s (λ db. refl)

pub domain_volume-Calls : (from to : ℕ) (s : Store) → Calls s (domain_volume from to s).1
unfolding domain_volume
domain_volume-Calls from to s = exec-Calls _ s (λ db. refl)

pub failure_reasons-Calls :
    (from to limit : ℕ) (s : Store) → Calls s (failure_reasons from to limit s).1
unfolding failure_reasons
failure_reasons-Calls from to limit s = exec-Calls _ s (λ db. refl)
