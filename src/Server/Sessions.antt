-- ===== src/Server/Sessions.antt =====
-- The maps of Server/server.cpp from connections to users and back, and the methods that write
-- them. A connection is a number.
pub mod Inverse
use messenger_walkie_talkie.Prelude.{
  ℕ, String, Bool, true, false, not, ◌&&◌, List, [], ◌∷◌, Option, none, some, if◌then◌else◌,
  is_empty, ◌==◌, string_eq, nat_eq, map,
}
use messenger_walkie_talkie.Prelude.Dict.{get, put, remove}

pub record Sessions : Type 0 where
  pub connection_users : List (ℕ × String)
  pub online_users : List (String × ℕ)

abbrev pub no_sessions : Sessions
no_sessions = record { connection_users = []; online_users = [] }

-- QHash::value of a text
abbrev pub or_empty : Option String → String
or_empty none = ""
or_empty (some s) = s

-- usernameFor
unfoldable pub username_for : ℕ → Sessions → String
username_for connection s = or_empty (get connection s.connection_users)

-- m_onlineUsers.contains(username) && m_onlineUsers.value(username) != connection
abbrev pub is_other : ℕ → Option ℕ → Bool
is_other connection none = false
is_other connection (some c) = not (c == connection)

-- canStartAuthenticatedSession; where it fails the message is "User already logged in".
unfoldable pub can_start_authenticated_session : ℕ → String → Sessions → Bool
unfolding username_for
can_start_authenticated_session connection username s =
    if not (is_empty (username_for connection s)) && username_for connection s == username
    then true
    else not (is_other connection (get username s.online_users))

pub record Attached : Type 0 where
  pub sessions : Sessions
  pub is_attached : Bool
  -- The user whose stored session is invalidated.
  pub invalidated : Option String

unfoldable pub attach_free : ℕ → String → Option String → Sessions → Attached
attach_free connection username invalidated s =
    if is_other connection (get username s.online_users)
    then record { sessions = s; is_attached = false; invalidated = invalidated }
    else record {
      sessions = record {
        connection_users = put connection username s.connection_users;
        online_users = put username connection s.online_users;
      };
      is_attached = true;
      invalidated = invalidated;
    }

-- attachAuthenticatedSession
unfoldable pub attach_authenticated_session : ℕ → String → Sessions → Attached
unfolding username_for attach_free
attach_authenticated_session connection username s =
    let current = username_for connection s in
    if not (is_empty current) && not (current == username)
    then attach_free connection username (some current) (record {
      connection_users = remove connection s.connection_users;
      online_users = remove current s.online_users;
    })
    else attach_free connection username none s

-- unregisterConnection
unfoldable pub unregister_connection : ℕ → Sessions → Sessions
unfolding username_for
unregister_connection connection s =
    let username = username_for connection s in
    record {
      connection_users = remove connection s.connection_users;
      online_users = if is_empty username then s.online_users else remove username s.online_users;
    }
