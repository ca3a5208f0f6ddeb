-- ===== src/Notify/Monthly/Skipped.antt =====
-- StatsTick where the driver refuses to read the notifier's state.
use doevoe.Base.{ℕ, ◌≡◌, refl, Text, some, [], ◌∷◌}
use doevoe.Store.{Db, ok, exec, reliable}
use doevoe.Store.Notify.{get_state, set_state, put_value}
use doevoe.Notify.{Notifier}
use doevoe.Notify.Monthly.{Calendar, stats_key, stats_tick}

-- If the driver refuses StatsTick the reading of its state, and nothing else, then StatsTick
-- returns no error, queues no email and notes the current month as reported, whatever month was
-- noted before.
pub stats_tick-skipped :
    (n : Notifier) (c : Calendar) (at : ℕ) (db : Db) (clock : ℕ) (message : Text)
    → stats_tick n c at (record { db = db; clock = clock; faults = some message ∷ [] }) ≡ (
      ok tt,
      reliable
          (record db { notify_state = put_value stats_key (c.month at) db.notify_state })
          clock,
    )
unfolding stats_tick get_state set_state exec
stats_tick-skipped n c at db clock message = refl
