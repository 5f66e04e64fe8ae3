-- ===== src/State/SessionManager/Orphan.antt =====
-- AddSession between the end of the last instance of a session and RemoveSession of the session.
pub mod Trace
use bencoscar.Prelude.{ℕ, ◌<◌, ◌≡◌, List, none, false, lookup}
use bencoscar.State.ScreenNames.{new_ident_screen_name}
use bencoscar.State.SessionManager.{UserSession}
use bencoscar.State.SessionManager.Calls.{System, Steps, start, returning, joined}
use bencoscar.State.SessionManager.Orphan.Trace.{orphan, orphan_reached, orphan_open}

-- Whatever the screen name and the positive bound, some schedule lets a second call of AddSession return an
-- open instance of a session whose callback has run before, once, and which RemoveSession then takes
-- out: no session is registered for the name, although the user has an open instance.
pub orphaned_instance :
    (sessions : ℕ → UserSession) (most : ℕ) (d : List ℕ)
    → 0 < most
    → (s : System) × (p : ℕ) × (r : ℕ) × Steps (start sessions most) s
      × (s.calls 1 ≡ returning d (joined p r))
      × (((s.memory.sessions p).group.heap r).closed ≡ false)
      × ((s.memory.sessions p).group.session_closed ≡ 1)
      × (lookup (new_ident_screen_name d) s.manager.store ≡ none)
orphaned_instance sessions most d l =
    let (a, b, c, e) = orphan_open sessions most d in
    (orphan sessions most d, 0, 1, orphan_reached sessions most d l, a, b, c, e)
