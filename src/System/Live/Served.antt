-- ===== src/System/Live/Served.antt =====
-- The responses of the server are runs of the program, beside the goroutines of the worker.
use doevoe.Base.{ℕ, Text, List}
use doevoe.Store.{Store}
use doevoe.Store.Calls.{Calls, still, enqueues, cancels, requeues, both}
use doevoe.DkimKeys.{Crypto}
use doevoe.Delivery.Worker.{Worker}
use doevoe.Delivery.Worker.Schedule.{Thread, Batch}
use doevoe.Admin.{Site}
use doevoe.Server.Serve.{HttpRequest, Web, serve}
use doevoe.Server.Serve.Stepwise.{AreCalls, serve-Calls}
use doevoe.System.Live.{elsewhere, enqueue, cancel, retry, Reach, here, next}

-- Calls take the program on, with the goroutines where they stand.
Calls-Reach :
    (w : Worker) (limit : ℕ) {b : Batch} (ts : List Thread) (s t : Store)
    → Calls s t
    → Reach w limit b (record { threads = ts; store = s })
    → Reach w limit b (record { threads = ts; store = t })
Calls-Reach w limit ts s t (still same) r = next r (elsewhere same)
Calls-Reach w limit ts s _ (enqueues e) r = next r (enqueue e)
Calls-Reach w limit ts s _ (cancels id) r = next r (cancel id)
Calls-Reach w limit ts s _ (requeues id new_to name) r = next r (retry id new_to name)
Calls-Reach w limit ts s u (both {t = t} p q) r =
    Calls-Reach w limit ts t u q (Calls-Reach w limit ts s t p r)

-- If the hooks on keys, and what others do between two statements of a handler, are sequences of
-- calls of the store, then the response of the server to any request, in any state of the program,
-- is a run of the program: its calls lead, with the worker's goroutines where they stand, to the
-- store that the response leaves.
pub serve-Reach :
    (w : Worker) (limit : ℕ) (b : Batch) (c : Crypto) (web : Web) (q : HttpRequest) (at : ℕ)
    (sessions : List (Text × ℕ))
    → AreCalls web q
    → Reach w limit b (record b {
      store = (serve c web q at (record { store = b.store; sessions = sessions })).1.store;
    })
serve-Reach w limit b c web q at sessions h =
    let site : Site = record { store = b.store; sessions = sessions } in
    Calls-Reach w limit b.threads b.store (serve c web q at site).1.store
      (serve-Calls c web q at h site) here
