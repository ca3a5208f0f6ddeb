-- ===== src/Notify/Rates.antt =====
-- internal/notify/notifier.go: KeyCreated, KeyRevoked and RateTick. The comparison of a rate with the
-- threshold, in floating point, and its printing are parameters.
pub mod Alarm
pub mod Kept
use doevoe.Base.{
  ℕ, ◌-◌, leb, Text, Bool, true, false, not, ◌&&◌, Option, none, some, List, [], ◌∷◌, ◌++◌, codes,
  text_eq, if◌then◌else◌,
}
use doevoe.Store.{Domain, Store, Result, ok, err, Error, fmt_time, hour}
use doevoe.Store.Domains.{list_domains}
use doevoe.Store.Notify.{get_state, set_state}
use doevoe.Store.Stats.{failure_rate}
use doevoe.Notify.{Notifier, enqueue, value_or_empty}

-- The body of a notice on a key: what happened to it is `done`.
key_notice : Notifier → Text → Text → Text → Text
key_notice n name domain_name done =
    codes "API key "
    ++ n.printing.quote name
    ++ codes " for domain "
    ++ domain_name
    ++ codes " was "
    ++ done
    ++ codes "."
    ++ 10 ∷ 10 ∷ []
    ++ n.base_url
    ++ codes "/admin/keys"
    ++ 10 ∷ []

-- KeyCreated; an error is logged.
unfoldable pub key_created : Notifier → Text → Text → Store → Store
unfolding key_notice
key_created n name domain_name s =
    (enqueue n (codes "doevoe: API key created") (key_notice n name domain_name (codes "created"))
      s).1

-- KeyRevoked
unfoldable pub key_revoked : Notifier → Text → Text → Store → Store
unfolding key_notice
key_revoked n name domain_name s =
    (enqueue n (codes "doevoe: API key revoked") (key_notice n name domain_name (codes "revoked"))
      s).1

-- MinVolume, and what is computed of the failed and of all attempts: whether their quotient, which is
-- 0 for no attempt, is at least Threshold, and its percentage as text.
pub record Rates : Type 0 where
  pub min_volume : ℕ
  pub reaches : ℕ → ℕ → Bool
  pub percent : ℕ → ℕ → Text

-- firstErr
abbrev pub first_error : Option Error → Error → Option Error
first_error none e = some e
first_error (some x) e = some x

abbrev pub rate_key : Domain → Text
rate_key d = codes "rate_fired_" ++ d.name

unfoldable pub rate_body : Notifier → Rates → Domain → ℕ → ℕ → Text
rate_body n rates d failed total =
    rates.percent failed total
    ++ codes "% of the last "
    ++ n.printing.decimal total
    ++ codes " delivery attempts for "
    ++ d.name
    ++ codes " failed in the past hour."
    ++ 10 ∷ []
    ++ codes "This can indicate a blocklist or reputation problem."
    ++ 10 ∷ 10 ∷ []
    ++ n.base_url
    ++ codes "/admin/emails?domain="
    ++ n.printing.decimal d.id
    ++ codes "&status=failed"
    ++ 10 ∷ []

after_set : Option Error → Result (Unit {0}) × Store → Option Error × Store
after_set errors (err e, s) = (first_error errors e, s)
after_set errors (ok _, s) = (errors, s)

after_alert : Domain → Option Error → Result Bool × Store → Option Error × Store
unfolding after_set
after_alert d errors (err e, s) = (first_error errors e, s)
after_alert d errors (ok false, s) = (errors, s)
after_alert d errors (ok true, s) = after_set errors (set_state (rate_key d) (codes "fired") s)

unfoldable pub on_rate :
    Notifier → Rates → Domain → Option Error → Result (ℕ × ℕ) × Store → Option Error × Store
unfolding rate_body after_alert
on_rate n rates d errors (err e, s) = (first_error errors e, s)
on_rate n rates d errors (ok (failed, total), s) =
    let (state, s1) = get_state (rate_key d) s in
    let fired = text_eq (value_or_empty state) (codes "fired") in
    if leb rates.min_volume total && rates.reaches failed total && not fired
    then after_alert d errors (
        enqueue n (codes "doevoe: elevated failure rate for " ++ d.name)
          (rate_body n rates d failed total) s1)
    else if not (rates.reaches failed total) && fired
    then after_set errors (set_state (rate_key d) [] s1)
    else (errors, s1)

unfoldable pub rate_all :
    Notifier → Rates → ℕ → List Domain → Option Error → Store → Option Error × Store
unfolding on_rate
rate_all n rates since [] errors s = (errors, s)
rate_all n rates since (d ∷ ds) errors s =
    let (errors', s') = on_rate n rates d errors (failure_rate d.id since s) in
    rate_all n rates since ds errors' s'

on_domains : Notifier → Rates → ℕ → Result (List Domain) × Store → Option Error × Store
on_domains n rates since (err e, s) = (some e, s)
on_domains n rates since (ok ds, s) = rate_all n rates since ds none s

-- RateTick: the first error, if there was one.
unfoldable pub rate_tick : Notifier → Rates → ℕ → Store → Option Error × Store
unfolding on_domains
rate_tick n rates at s = on_domains n rates (fmt_time (at - hour)) (list_domains s)
