-- ===== src/Notify/Digest/Kept.antt =====
-- The time of the last digest, in the notifier's state, and the calls that leave it alone.
use doevoe.Base.{
  ◌≡◌, refl, ap, ◌∙◌, Text, false, Option, none, some, List, [], ◌∷◌, Bool-cases, inl, inr,
  after_last_at, text_eq, text_eq_sound,
}
use doevoe.Store.{Db, Email, Domain, Store, Result, ok, err, Statement, exec, exec-ends, now}
use doevoe.Store.Emails.{may_insert, insert_email, with_defaults, enqueue_email}
use doevoe.Store.Domains.{get_domain_by_name, select_domain_by_name, list_domains, verified}
use doevoe.Store.Notify.{state_value, put_value, get_state, set_state}
use doevoe.Notify.{Notifier, notification, enqueue_from, enqueue, digest_key}

-- The noted time is as it was.
abbrev pub KeepsDigest : Store → Store → Type 0
KeepsDigest s t = state_value digest_key t.notify_state ≡ state_value digest_key s.notify_state

state_value-put_value_other :
    (key other value : Text) (rows : List (Text × Text))
    → text_eq other key ≡ false
    → state_value key (put_value other value rows) ≡ state_value key rows
unfolding state_value put_value
state_value-put_value_other key other value [] far = rw far refl
state_value-put_value_other key other value ((k, v) ∷ rest) far =
    elim (Bool-cases (text_eq k other)) [
      | inl same ↦ rw (same, text_eq_sound k other same, far) refl
      | inr differs ↦ rw (differs, state_value-put_value_other key other value rest far) refl
    ]

-- A statement that leaves the state alone.
pub exec-KeepsDigest :
    {A : Type 0} (run : Statement A) (s : Store)
    → (run s.db).1.notify_state ≡ s.notify_state
    → KeepsDigest s (exec run s).1
exec-KeepsDigest run s same =
    exec-ends
      (λ r db. state_value digest_key db.notify_state ≡ state_value digest_key s.notify_state) run s
      (λ m. refl) (ap (state_value digest_key) same)

pub get_state-KeepsDigest : (key : Text) (s : Store) → KeepsDigest s (get_state key s).1
unfolding get_state
get_state-KeepsDigest key s = exec-KeepsDigest _ s refl

pub set_state-KeepsDigest :
    (key value : Text) (s : Store)
    → text_eq key digest_key ≡ false
    → KeepsDigest s (set_state key value s).1
unfolding set_state
set_state-KeepsDigest key value s far =
    exec-ends
      (λ r db. state_value digest_key db.notify_state ≡ state_value digest_key s.notify_state) _ s
      (λ m. refl) (state_value-put_value_other digest_key key value s.notify_state far)

pub list_domains-KeepsDigest : (s : Store) → KeepsDigest s (list_domains s).1
unfolding list_domains
list_domains-KeepsDigest s = exec-KeepsDigest _ s refl

enqueue_email-KeepsDigest : (e : Email) (s : Store) → KeepsDigest s (enqueue_email e s).1
unfolding enqueue_email
enqueue_email-KeepsDigest e s =
    exec-KeepsDigest (insert_email (with_defaults (now s) e)) s
      (inserted (with_defaults (now s) e) s.db)
  where
    inserted : (e : Email) (db : Db) → (insert_email e db).1.notify_state ≡ db.notify_state
    inserted e db =
        unfold insert_email in
        elim (Bool-cases (may_insert e db)) [ inl may ↦ rw may refl | inr not ↦ rw not refl ]

pub enqueue-KeepsDigest :
    (n : Notifier) (subject body : Text) (s : Store) → KeepsDigest s (enqueue n subject body s).1
unfolding enqueue get_domain_by_name select_domain_by_name
enqueue-KeepsDigest n subject body s =
    let (r, s') = get_domain_by_name (after_last_at n.system_from) s in
    of_domain r s' ∙ exec-KeepsDigest (select_domain_by_name (after_last_at n.system_from)) s refl
  where
    of_domain :
        (r : Result (Option Domain)) (s' : Store)
        → KeepsDigest s' (enqueue_from n subject body (r, s')).1
    of_domain (err e) s' = unfold enqueue_from in refl
    of_domain (ok none) s' = unfold enqueue_from in refl
    of_domain (ok (some d)) s' =
        unfold enqueue_from in
        elim (Bool-cases (verified d)) [
          | inl is_verified ↦
              rw is_verified (enqueue_email-KeepsDigest (notification n d subject body) s')
          | inr pending ↦ rw pending refl
        ]
