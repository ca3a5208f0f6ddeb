-- ===== src/Server/Shutdown.antt =====
-- cmd/doevoe/main.go: the end of the process. The three background loops, the HTTP server with its
-- requests in flight, and the main goroutine, whose last statements are stop, wg.Wait and s.Close.
-- Of net/http: after Shutdown no request is accepted, and ListenAndServe returns at once, whether or
-- not requests are in flight.
use doevoe.Base.{ℕ, zero, suc, ◌≡◌, refl, arith, Bool, true, false}

-- Where the main goroutine stands: in ListenAndServe, before stop(), in wg.Wait(), before s.Close(),
-- or at its end.
pub data MainPhase : Type 0 where
  listening stopping waiting closing ended : MainPhase

pub record Process : Type 0 where
  pub main_phase : MainPhase
  pub cancelled : Bool  -- ctx is done
  pub shut_down : Bool  -- srv.Shutdown was called
  pub loops : ℕ  -- worker.Run, notifier.Run and recheckDNSLoop, as far as they run
  pub handlers : ℕ  -- the requests in flight
  pub store_open : Bool

-- When the server listens.
abbrev pub started : Process
started = record {
  main_phase = listening;
  cancelled = false;
  shut_down = false;
  loops = 3;
  handlers = 0;
  store_open = true;
}

pub data Step : Process → Process → Type 0 where
  -- SIGINT or SIGTERM
  signal : {p : Process} → Step p (record p { cancelled = true })
  -- the goroutine that waits for ctx.Done()
  shut : {p : Process} → p.cancelled ≡ true → Step p (record p { shut_down = true })
  -- a request begins or ends
  accept :
      {p : Process}
      → p.main_phase ≡ listening
      → p.shut_down ≡ false
      → Step p (record p { handlers = suc p.handlers })
  answer : {p : Process} (n : ℕ) → p.handlers ≡ suc n → Step p (record p { handlers = n })
  -- ListenAndServe returns ErrServerClosed, or fails to listen
  server_closed :
      {p : Process}
      → p.main_phase ≡ listening
      → p.shut_down ≡ true
      → Step p (record p { main_phase = stopping })
  listen_failed :
      {p : Process} → p.main_phase ≡ listening → Step p (record p { main_phase = stopping })
  -- stop()
  stop :
      {p : Process}
      → p.main_phase ≡ stopping
      → Step p (record p { main_phase = waiting; cancelled = true })
  -- a loop sees that ctx is done, and calls wg.Done()
  loop_ends :
      {p : Process} (n : ℕ) → p.cancelled ≡ true → p.loops ≡ suc n → Step p (record p { loops = n })
  -- wg.Wait() returns
  waited :
      {p : Process}
      → p.main_phase ≡ waiting
      → p.loops ≡ 0
      → Step p (record p { main_phase = closing })
  -- s.Close()
  close_store :
      {p : Process}
      → p.main_phase ≡ closing
      → Step p (record p { main_phase = ended; store_open = false })

pub data Reach (p : Process) : Process → Type 0 where
  here : Reach p p
  next : {q r : Process} → Reach p q → Step q r → Reach p r

-- After wg.Wait() no loop runs, and only then the store is closed.
abbrev AfterWait : MainPhase → ℕ → Bool → Type 0
AfterWait closing n is_open = n ≡ 0
AfterWait ended n is_open = n ≡ 0
AfterWait _ n is_open = is_open ≡ true

abbrev IsOrderly : Process → Type 0
IsOrderly p = AfterWait p.main_phase p.loops p.store_open

fewer : (m : MainPhase) (n k : ℕ) (o : Bool) → n ≡ suc k → AfterWait m n o → AfterWait m k o
fewer listening n k o e h = h
fewer stopping n k o e h = h
fewer waiting n k o e h = h
fewer closing n k o e h = absurd (omega (arith, e, h))
fewer ended n k o e h = absurd (omega (arith, e, h))

Step-IsOrderly : {p q : Process} → Step p q → IsOrderly p → IsOrderly q
Step-IsOrderly signal h = h
Step-IsOrderly (shut done) h = h
Step-IsOrderly (accept at_work still_open) h = h
Step-IsOrderly (answer n some_left) h = h
Step-IsOrderly (server_closed {p = p} at_work closed) h = rw at_work at h
Step-IsOrderly (listen_failed {p = p} at_work) h = rw at_work at h
Step-IsOrderly (stop {p = p} at_stop) h = rw at_stop at h
Step-IsOrderly (loop_ends {p = p} n done running) h =
    fewer p.main_phase p.loops n p.store_open running h
Step-IsOrderly (waited at_wait none_left) h = none_left
Step-IsOrderly (close_store {p = p} at_close) h = rw at_close at h

Reach-IsOrderly : {p q : Process} → Reach p q → IsOrderly p → IsOrderly q
Reach-IsOrderly here h = h
Reach-IsOrderly (next r st) h = Step-IsOrderly st (Reach-IsOrderly r h)

-- In every state that the process reaches, if the store is closed, then no loop runs any more.
closed-loops : {p : Process} → Reach started p → p.store_open ≡ false → p.loops ≡ 0
closed-loops {p} r closed =
    of_phase p.main_phase p.loops p.store_open (Reach-IsOrderly r refl) closed
  where
    of_phase : (m : MainPhase) (n : ℕ) (o : Bool) → AfterWait m n o → o ≡ false → n ≡ 0
    of_phase listening n o h c = cc
    of_phase stopping n o h c = cc
    of_phase waiting n o h c = cc
    of_phase closing n o h c = h
    of_phase ended n o h c = h

-- Some requests begin.
accepted : (n : ℕ) → Reach started (record started { handlers = n })
accepted zero = here
accepted (suc n) = next (accepted n) (accept refl refl)

-- For every number, the process can come to its end, with the store closed, while that number of
-- requests is still in flight.
pub closed-handlers :
    (n : ℕ)
    → (p : Process) × Reach started p
      × (p.main_phase ≡ ended)
      × (p.store_open ≡ false)
      × (p.handlers ≡ n)
closed-handlers n = (
  _,
  next
      (next
        (next
          (next
            (next
              (next (next (next (next (accepted n) signal) (shut refl)) (server_closed refl refl))
                (stop refl))
              (loop_ends 2 refl refl))
            (loop_ends 1 refl refl))
          (loop_ends 0 refl refl))
        (waited refl refl))
      (close_store refl),
  refl,
  refl,
  refl,
)
