-- ===== src/Notify/Digest/Spaced.antt =====
-- The hour between two digests.
use doevoe.Base.{
  ℕ, ◌+◌, ◌-◌, ◌<◌, ◌≡◌, ◌≢◌, ◌⊎◌, refl, ap, ◌∙◌, inl, inr, true, false, Option, none, some, List,
  [], ◌∷◌, Text, Bool-cases, after_last_at, find?, is_empty, arith, ltb,
}
use doevoe.Store.{
  Db, Domain, Email, Store, Result, ok, exec, exec_reliable, reliable, now, hour, second,
}
use doevoe.Store.Emails.{may_insert, with_defaults, insert_email, enqueue_email}
use doevoe.Store.Domains.{is_named, verified, get_domain_by_name, select_domain_by_name}
use doevoe.Store.Notify.{
  pending_emails, list_pending_failures, clear_pending_failures, get_state, state_value, put_value,
  set_state, state_value-put_value,
}
use doevoe.Notify.{
  Printing, Notifier, notification, enqueue_from, enqueue, digest_subject, digest_body,
  cooling_down, note_sent, clear_sent, send_digest, with_pending, digest_tick, digest_key,
}
use doevoe.Notify.Rates.{Rates}
use doevoe.Notify.Monthly.{Calendar, run_round}
use doevoe.Notify.Monthly.Kept.{run_round-KeepsDigest}

-- A time is stored as a text that is not empty, and reads back without its fraction of a second.
pub record ReadsBack (p : Printing) (at : ℕ) : Type 0 where
  pub shown : is_empty (p.show_time at) ≡ false
  pub recent : at < p.read_time (p.show_time at) + second

-- Nothing is queued, or the time of the digest is noted.
abbrev Noted : Notifier → ℕ → Db → Store → Type 0
Noted n at db s =
    (s.emails ≡ db.emails) ⊎ (state_value digest_key s.notify_state ≡ n.printing.show_time at)

state_value-set_state :
    (key value : Text) (s : Store)
    → s.faults ≡ []
    → state_value key (set_state key value s).1.notify_state ≡ value
unfolding set_state
state_value-set_state key value s quiet =
    ap (λ (p : Result (Unit {0}) × Store). state_value key p.1.notify_state)
      (exec_reliable
        (λ db. (ok tt, record db { notify_state = put_value key value db.notify_state })) s quiet)
    ∙ state_value-put_value key value s.notify_state

-- `others` is what happens between the listing of the failures and their clearing.
module _ (n : Notifier) (at : ℕ) (others : Store → Store)
    (steady : (s : Store) → s.faults ≡ [] → (others s).faults ≡ []) where
  clearing_notes :
      (s : Store)
      → s.faults ≡ []
      → state_value digest_key (note_sent n at (clear_pending_failures s)).1.notify_state
        ≡ n.printing.show_time at
  unfolding clear_pending_failures note_sent
  clearing_notes s quiet =
      ap (λ p. state_value digest_key (note_sent n at p).1.notify_state)
        (exec_reliable {A = Unit {0}} (λ db. (ok tt, record db { pending_failures = [] })) s quiet)
      ∙ state_value-set_state digest_key (n.printing.show_time at)
          (record s { db = record s.db { pending_failures = [] } }) quiet

  module _ (db : Db) (clock : ℕ) (subject body : Text) where
    of_domain :
        (o : Option Domain)
        → Noted n at db
            (clear_sent n at others (enqueue_from n subject body (ok o, reliable db clock))).1
    unfolding clear_sent enqueue_from enqueue_email insert_email exec
    of_domain none = inl refl
    of_domain (some d) = elim (Bool-cases (verified d)) [
      | inr pending ↦ rw pending (inl refl)
      | inl v ↦
          rw v
            (elim (Bool-cases (
              may_insert (with_defaults (now (reliable db clock)) (notification n d subject body))
                db)) [
                  | inl may ↦ rw may (inr (clearing_notes _ (steady _ refl)))
                  | inr not ↦ rw not (inl refl)
                ])
    ]

    of_enqueue :
        (o : Option Domain)
        → find? (is_named (after_last_at n.system_from)) db.domains ≡ o
        → Noted n at db (clear_sent n at others (enqueue n subject body (reliable db clock))).1
    unfolding enqueue get_domain_by_name select_domain_by_name exec
    of_enqueue none found = rw found (of_domain none)
    of_enqueue (some d) found = rw found (of_domain (some d))

  of_pending :
      (db : Db) (clock : ℕ) (l : List Email)
      → Noted n at db (with_pending n at others (ok l, reliable db clock)).1
  unfolding with_pending send_digest get_state exec
  of_pending db clock [] = inl refl
  of_pending db clock (e ∷ es) =
      elim (Bool-cases (cooling_down n at (state_value digest_key db.notify_state))) [
        | inl cool ↦ rw cool (inl refl)
        | inr due ↦ rw due (
            of_enqueue db clock (digest_subject n (e ∷ es)) (digest_body n (e ∷ es))
              (find? (is_named (after_last_at n.system_from)) db.domains) refl)
      ]

  digest_tick-Noted :
      (db : Db) (clock : ℕ) → Noted n at db (digest_tick n at others (reliable db clock)).1
  unfolding digest_tick list_pending_failures exec
  digest_tick-Noted db clock = of_pending db clock (pending_emails db)

-- Within the hour nothing is done.
pending_cools :
    (n : Notifier) (at : ℕ) (others : Store → Store) (db : Db) (clock : ℕ) (l : List Email)
    → cooling_down n at (state_value digest_key db.notify_state) ≡ true
    → (with_pending n at others (ok l, reliable db clock)).1 ≡ reliable db clock
unfolding with_pending send_digest get_state exec
pending_cools n at others db clock [] cool = refl
pending_cools n at others db clock (e ∷ es) cool = rw cool refl

digest_tick-cools :
    (n : Notifier) (at : ℕ) (others : Store → Store) (db : Db) (clock : ℕ)
    → cooling_down n at (state_value digest_key db.notify_state) ≡ true
    → (digest_tick n at others (reliable db clock)).1 ≡ reliable db clock
unfolding digest_tick list_pending_failures exec
digest_tick-cools n at others db clock cool =
    pending_cools n at others db clock (pending_emails db) cool

-- If the driver refuses nothing in a round of the notifier, also not after what others do within
-- its DigestTick, and this DigestTick changes the table of emails, and the time of the round is
-- stored as a text that is not empty and reads back to within a second, then, whatever happens
-- after the round that leaves the noted time of the last digest alone, the DigestTick of a later
-- round, of which the driver refuses nothing either, changes the emails only if an hour has passed
-- since the first round, but for a fraction of a second.
pub run_round-spaced :
    (n : Notifier) (rates : Rates) (c : Calendar) (at later clock clock' : ℕ) (db db' : Db)
    (others others' : Store → Store)
    → ReadsBack n.printing at
    → ((s : Store) → s.faults ≡ [] → (others s).faults ≡ [])
    → (digest_tick n at others (reliable db clock)).1.emails ≢ db.emails
    → state_value digest_key db'.notify_state
      ≡ state_value digest_key (run_round n rates c at others (reliable db clock)).notify_state
    → (digest_tick n later others' (reliable db' clock')).1.emails ≢ db'.emails
    → at + hour < later + second
unfolding cooling_down
run_round-spaced n rates c at later clock clock' db db' others others' time steady queued same
      again =
    let kept = same ∙ run_round-KeepsDigest n c at rates others (reliable db clock) in
    elim (digest_tick-Noted n at others steady db clock) [
      | inl none_queued ↦ absurd (queued none_queued)
      | inr noted ↦
          elim (Bool-cases (ltb (later - n.printing.read_time (n.printing.show_time at)) hour)) [
            | inr passed ↦ ground (arith, time.recent)
            | inl soon ↦ absurd (
                again (
                  ap (λ (s : Store). s.emails)
                    (digest_tick-cools n later others' db' clock'
                      (rw (kept ∙ noted, time.shown, soon) refl))))
          ]
    ]
