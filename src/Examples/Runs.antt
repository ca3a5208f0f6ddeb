-- ===== src/Examples/Runs.antt =====
-- Runs of the store, the worker, the API and the notifier.
use doevoe.Base.{◌-◌, Related, ◌≡◌, refl, List, [], ◌∷◌, codes, arith, All}
use doevoe.Store.{Email, sending, reliable, empty_db, fmt_time, ok, exec}
use doevoe.Store.Emails.{
  claim_due, same_idempotency, requeue_stale_sending, update_emails, is_stale,
}
use doevoe.Store.Emails.Invariant.{IsTable, InOrder}
use doevoe.Store.Emails.Claim.Contract.{Claimed, claim_due-Claimed}
use doevoe.Store.Operator.{cancel_email}
use doevoe.Store.Operator.Addresses.{Requeue}
use doevoe.Delivery.Worker.{process, stale_sending_window}
use doevoe.Delivery.Worker.Schedule.{tick_by}
use doevoe.Delivery.Worker.Schedule.Recovered.{Ticked, tick_by-Ticked}
use doevoe.Delivery.Worker.Verdict.{Settled, verdict, process-Settled}
use doevoe.Api.Post.{post_email}
use doevoe.Api.Post.Outcome.{Outcome, post_email-Outcome}
use doevoe.Notify.{digest_tick}
use doevoe.Notify.Failures.{permanent_failure-emails}
use doevoe.Notify.Digest.{Digested, digest_tick-Digested}
use doevoe.System.{Reach, here, next, cancel}
use doevoe.Examples.Data.{
  a_domain, a_time, waiting_email, sending_email, a_db, a_store, a_worker, an_env, a_request,
  a_notifier,
}

in_order : InOrder waiting_email sending_email
unfolding same_idempotency
in_order = record { grows = omega arith; differs = refl }

pub rows-IsTable : IsTable a_store.emails
rows-IsTable = record {
  each = (
    record { counts = omega arith; sent_at = refl },
    (record { counts = omega arith; sent_at = refl }, tt),
  );
  pairs = ((in_order, tt), (tt, tt));
}

claim_due-Claimed_example :
    let (r, s) = claim_due 10 (fmt_time a_time) a_store in
    Claimed 10 (fmt_time a_time) a_store.emails r s.emails
claim_due-Claimed_example = claim_due-Claimed 10 (fmt_time a_time) a_store rows-IsTable

post_email-Outcome_example :
    let (res, s) = post_email an_env a_request a_store in
    Outcome an_env a_request a_store res.code s.emails
post_email-Outcome_example = post_email-Outcome an_env a_request a_store

abbrev first_run : Reach (reliable empty_db a_time) (cancel_email 1 (reliable empty_db a_time)).1
first_run = next here (cancel 1)

process-Settled_example :
    Settled
      (verdict (a_worker.send sending_email a_domain) 0)
      sending_email
      a_store.emails
      (process a_worker sending_email a_time a_store).emails
process-Settled_example =
    process-Settled a_worker permanent_failure-emails sending_email a_time a_domain a_store refl
      refl

only_sending : All (λ (x : Email). x.id ≡ 2 → x.status ≡ sending) a_store.emails
only_sending = ((λ other. absurd (omega (arith, other))), ((λ own. refl), tt))

abbrev two_requeues : List Requeue
two_requeues =
    record { new_to = codes "piet@mail.example"; new_to_name = []; at = 6 }
    ∷ record { new_to = codes "kees@mail.example"; new_to_name = []; at = 7 }
    ∷ []

all_put_back : (requeue_stale_sending (fmt_time (a_time - stale_sending_window)) a_store).0 ≡ ok 1
unfolding requeue_stale_sending exec update_emails is_stale fmt_time
all_put_back = refl

-- The second row was claimed long ago; the goroutines take a few steps.
tick_by-Ticked_example :
    Related
      (Ticked a_time)
      a_store.emails
      (tick_by a_worker 0 a_time (0 ∷ 1 ∷ 0 ∷ []) a_store).emails
tick_by-Ticked_example =
    tick_by-Ticked a_worker permanent_failure-emails 0 a_time (0 ∷ 1 ∷ 0 ∷ []) a_store 1
      rows-IsTable all_put_back

digest_tick-Digested_example :
    Digested a_notifier a_db (digest_tick a_notifier a_time (λ t. t) a_store).1.db
digest_tick-Digested_example = digest_tick-Digested a_notifier a_time a_store
