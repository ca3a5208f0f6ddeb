-- ===== src/Notify/Stepwise.antt =====
-- The notifier's hooks on keys are sequences of calls of the store.
use doevoe.Base.{refl, Text, Option, none, some, Bool-cases, inl, inr, after_last_at}
use doevoe.Store.{Domain, Store, Result, ok, err}
use doevoe.Store.Domains.{get_domain_by_name, verified}
use doevoe.Store.Calls.{Calls, still, enqueues, both, get_domain_by_name-Calls}
use doevoe.Notify.{Notifier, notification, enqueue_from, enqueue}
use doevoe.Notify.Rates.{key_created, key_revoked}

enqueue-Calls :
    (n : Notifier) (subject body : Text) (s : Store) → Calls s (enqueue n subject body s).1
unfolding enqueue
enqueue-Calls n subject body s =
    let (r, s') = get_domain_by_name (after_last_at n.system_from) s in
    both (get_domain_by_name-Calls (after_last_at n.system_from) s) (of_domain r s')
  where
    of_domain :
        (r : Result (Option Domain)) (s' : Store) → Calls s' (enqueue_from n subject body (r, s')).1
    of_domain (err e) s' = unfold enqueue_from in still refl
    of_domain (ok none) s' = unfold enqueue_from in still refl
    of_domain (ok (some d)) s' =
        unfold enqueue_from in
        elim (Bool-cases (verified d)) [
          | inl is_verified ↦ rw is_verified (enqueues (notification n d subject body))
          | inr pending ↦ rw pending (still refl)
        ]

pub key_created-Calls :
    (n : Notifier) (name domain_name : Text) (s : Store)
    → Calls s (key_created n name domain_name s)
unfolding key_created
key_created-Calls n name domain_name s = enqueue-Calls n _ _ s

pub key_revoked-Calls :
    (n : Notifier) (name domain_name : Text) (s : Store)
    → Calls s (key_revoked n name domain_name s)
unfolding key_revoked
key_revoked-Calls n name domain_name s = enqueue-Calls n _ _ s
