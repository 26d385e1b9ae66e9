-- ===== src/Peer/Manager.antt =====
-- RemoteControl_rtc/RemoteControl_rtc/SessionManager.cpp. A session is named by its key, since the map
-- owns it.
use webrtc_cpp_remote_contro.Base.{
  Bool, true, false, not, ◌||◌, List, [], ◌∷◌, ◌++◌, Option, none, some, Bytes, if◌then◌else◌,
  is_empty, lookup, emplace, erase, map_values, nat_eq, bytes_key,
}
use webrtc_cpp_remote_contro.Peer.Session.{Session, Effect}
use webrtc_cpp_remote_contro.Peer.Life.{new_session, create, close}
use webrtc_cpp_remote_contro.Peer.Life

abbrev pub Sessions : Type 0
Sessions = List (Bytes × Session)

abbrev pub find_session : Sessions → Bytes → Option Session
find_session m remote_user_id = lookup remote_user_id m

abbrev pub is_some : Option Session → Bool
is_some none = false
is_some (some s) = true

-- The last component says whether a session is returned. One that could not be created has no
-- connection and no callback, so its destructor does nothing.
unfoldable pub create_session :
    Sessions → Bytes → Bool → Option Bool → (Sessions × List Effect) × Bool
unfolding create emplace lookup
create_session m remote_user_id enable_remote_control factory =
    let made = create (new_session enable_remote_control) factory in
    if is_empty remote_user_id || is_some (find_session m remote_user_id)
    then ((m, []), false)
    else if not made.1
    then ((m, made.0.1), false)
    else ((emplace remote_user_id made.0.0 m, made.0.1), true)

unfoldable pub remove_session : Sessions → Bytes → Sessions × List Effect
unfolding close erase lookup
remove_session m remote_user_id = elim (find_session m remote_user_id) [
  | none ↦ (m, [])
  | some s ↦ (erase remote_user_id m, (close s).1)
]

abbrev close_each : Sessions → List Effect
close_each [] = []
close_each ((user, s) ∷ m) = (close s).1 ++ close_each m

unfoldable pub close_all : Sessions → Sessions × List Effect
unfolding close
close_all m = ([], close_each m)

unfoldable pub authorize_all : Sessions → Bool → Sessions
unfolding map_values
authorize_all m authorized = map_values (λ s. Life.set_remote_control_authorized s authorized) m
