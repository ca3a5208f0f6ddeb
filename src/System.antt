-- ===== src/System.antt =====
-- The program as a whole: the steps that its goroutines and requests take on the shared store. SQLite
-- runs one statement at a time (store.go, SetMaxOpenConns(1)), and a step below is one call; what
-- happens between two calls is another step. The clock and the faults of the driver change freely.
pub mod Live
use doevoe.Base.{inl, inr, All-map, ℕ, ◌≡◌, ◌≤◌, sym, subst, Text, List, [], All, arith}
use doevoe.Store.{Email, Store}
use doevoe.Store.Emails.{enqueue_email}
use doevoe.Store.Emails.Invariant.{IsRow, IsTable}
use doevoe.Store.Emails.Preserved.{enqueue_email-IsTable}
use doevoe.Store.Operator.{cancel_email, requeue_email}
use doevoe.Store.Operator.Preserved.{cancel_email-IsTable, requeue_email-IsTable}
use doevoe.Delivery.Worker.{Worker, tick}
use doevoe.Delivery.Worker.Effect.{KeepsEmails}
use doevoe.Delivery.Worker.Invariant.{tick-IsTable}
use doevoe.Api.Requests.{Env, Request}
use doevoe.Api.Post.{post_email}
use doevoe.Api.Post.Outcome.{post_email-KeptOutcome, KeptOutcome}

pub data Step : Store → Store → Type 0 where
  -- time passes, the driver gets into or out of trouble, other tables are written
  elsewhere : {s t : Store} → t.emails ≡ s.emails → Step s t
  post : {s : Store} (env : Env) (r : Request) → Step s (post_email env r s).1
  notify : {s : Store} (e : Email) → Step s (enqueue_email e s).1
  work :
      {s : Store} (w : Worker) (at : ℕ)
      → KeepsEmails w.on_permanent_failure
      → Step s (tick w at s).1
  cancel : {s : Store} (id : ℕ) → Step s (cancel_email id s).1
  retry :
      {s : Store} (id : ℕ) (new_to new_to_name : Text)
      → Step s (requeue_email id new_to new_to_name s).1

pub data Reach (s : Store) : Store → Type 0 where
  here : Reach s s
  next : {t u : Store} → Reach s t → Step t u → Reach s u

of_KeptOutcome :
    (env : Env) (r : Request) (s : Store) (code : ℕ) (emails : List Email)
    → IsTable s.emails
    → KeptOutcome env r s code emails
    → IsTable emails
of_KeptOutcome env r s code emails h (inl (accepted, keeps)) = keeps h
of_KeptOutcome env r s code emails h (inr (_, same)) = subst IsTable (sym same) h

Step-IsTable : {s t : Store} → Step s t → IsTable s.emails → IsTable t.emails
Step-IsTable (elsewhere same) h = subst IsTable (sym same) h
Step-IsTable (post {s = s} env r) h =
    let (res, s') = post_email env r s in
    of_KeptOutcome env r s res.code s'.emails h (post_email-KeptOutcome env r s)
Step-IsTable (notify {s = s} e) h = enqueue_email-IsTable e s h
Step-IsTable (work {s = s} w at hook) h = tick-IsTable w hook at s h
Step-IsTable (cancel {s = s} id) h = cancel_email-IsTable id s h
Step-IsTable (retry {s = s} id new_to name) h = requeue_email-IsTable id new_to name s h

-- In every state that the program reaches by posts, notifications, ticks of workers whose hook
-- leaves the emails alone, cancels, retries and steps that write other tables, from a store with a
-- valid table of emails, that table is valid.
pub Reach-IsTable : {s t : Store} → Reach s t → IsTable s.emails → IsTable t.emails
Reach-IsTable here h = h
Reach-IsTable (next r st) h = Step-IsTable st (Reach-IsTable r h)

attempts_bounded : (e : Email) → IsRow e → e.attempts ≤ 8
attempts_bounded e r = ground arith

-- In every state that the program reaches from a store without emails, no email has had more than
-- eight attempts.
pub Reach-attempts :
    {s t : Store} → Reach s t → s.emails ≡ [] → All (λ (e : Email). e.attempts ≤ 8) t.emails
Reach-attempts {t = t} r start =
    All-map IsRow _ attempts_bounded t.emails
      (Reach-IsTable r (subst IsTable (sym start) (record { each = tt; pairs = tt }))).each
