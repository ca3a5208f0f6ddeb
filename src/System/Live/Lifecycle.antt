-- ===== src/System/Live/Lifecycle.antt =====
-- What the running program reaches.
use doevoe.Base.{ℕ, ◌≡◌, [], IsIn}
use doevoe.Store.{sent, Email, Store}
use doevoe.Store.Emails.Invariant.{IsTable}
use doevoe.Delivery.Worker.{Worker}
use doevoe.Delivery.Worker.Effect.{KeepsEmails}
use doevoe.Delivery.Worker.Schedule.{Batch}
use doevoe.System.Live.{Move, Reach, here, next}
use doevoe.System.Live.Growth.{Grown, Grown-sent}
use doevoe.System.Live.Invariant.{Sound, Move-Sure}

-- The program when it has started: no goroutine runs.
abbrev pub idle : Store → Batch
idle s = record { threads = []; store = s }

module _ (w : Worker) (limit : ℕ) (hook : KeepsEmails w.on_permanent_failure) where
  pub Sound-Reach : {b c : Batch} → Reach w limit b c → Sound b → Sound c
  Sound-Reach here h = h
  Sound-Reach (next r m) h = (Move-Sure w limit hook m (Sound-Reach r h)).sound

  -- If the failure hook leaves the emails alone, then in every state that the program reaches from
  -- a store with a valid table of emails and no goroutine, by any interleaving of the steps of the
  -- worker's goroutines, of ticks begun when those have ended, of posts, notifications, cancels and
  -- retries, the table is valid, the row of each goroutine's email is being sent until the
  -- goroutine marks it, and no two goroutines have the same email. In a valid table ids grow along
  -- the table, no two emails of one API key share an idempotency key, a queued, sending or canceled
  -- email has had at most seven attempts, a sent or failed one between one and eight, and only a
  -- sent one has a time of sending.
  pub Reach-Sound : {s : Store} {b : Batch} → Reach w limit (idle s) b → IsTable s.emails → Sound b
  Reach-Sound r h = Sound-Reach r (record { table = h; flights = tt; distinct = tt; known = tt })

  -- If the failure hook leaves the emails alone, then each step that the program takes, in a state
  -- that it reaches from a store with a valid table and no goroutine, leaves each row in its place,
  -- as it was or along one edge of the life of an email: queued to sending, sending to sent, failed
  -- or queued, queued to canceled, and queued, failed or canceled to queued; such an edge changes
  -- at most the status, the attempts, the times of the next attempt and of sending, the last error
  -- and the recipient with its first address. New rows stand behind the others and are queued.
  pub Move-Grown :
      {s : Store} {b c : Batch}
      → Reach w limit (idle s) b
      → Move w limit b c
      → IsTable s.emails
      → Grown b.store.emails c.store.emails
  Move-Grown r m h = (Move-Sure w limit hook m (Reach-Sound r h)).grown

  -- If the failure hook leaves the emails alone, then an email that is sent, in a state that the
  -- program reaches from a store with a valid table and no goroutine, stays in the table exactly as
  -- it is, whatever steps follow.
  Reach-sent :
      {s : Store} {b c : Batch}
      → Reach w limit (idle s) b
      → IsTable s.emails
      → Reach w limit b c
      → (e : Email) → e.status ≡ sent
      → IsIn e b.store.emails
      → IsIn e c.store.emails
  Reach-sent r h here e s i = i
  Reach-sent {b = b} r h (next later m) e s i =
      Grown-sent _ _ e (Move-Sure w limit hook m (Sound-Reach later (Reach-Sound r h))).grown s
        (Reach-sent r h later e s i)
