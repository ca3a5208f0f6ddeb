-- ===== src/Admin/Session/Stepwise.antt =====
-- auth calls what its handler calls, or nothing.
use doevoe.Base.{ℕ, refl, Text, Bool, true, false, Option, List}
use doevoe.Store.{Store}
use doevoe.Store.Calls.{Calls, still}
use doevoe.Admin.{Site, Handler}
use doevoe.Admin.Session.{authed, guarded, auth}

pub auth-Calls :
    {Page : Type 0} (cookie : Option Text) (htmx : Bool) (at : ℕ) (handler : Handler Page)
    (site : Site)
    → ((s : Store) → Calls s (handler s).1)
    → Calls site.store (auth cookie htmx at handler site).1.store
unfolding auth
auth-Calls {Page} cookie htmx at handler site calls = of_authed (authed cookie at site.sessions)
  where
    of_authed :
        (r : Bool × List (Text × ℕ)) → Calls site.store (guarded htmx handler r site.store).1.store
    of_authed (true, sessions) = unfold guarded in calls site.store
    of_authed (false, sessions) = unfold guarded in still refl
