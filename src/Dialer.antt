-- ===== src/Dialer.antt =====
-- dialer.go: the sessions that a dialer keeps. A session is a number; `live_sessions` is the
-- channel of sessions to dial streams on, in the order in which they were sent to it.
pub mod Counts
pub mod Dialing
pub mod Streams
use plampshade.Base.{
  ℕ, ◌+◌, ◌-◌, ◌*◌, ◌/◌, ◌^◌, Bool, true, false, List, [], ◌∷◌, ◌++◌, Option, none, some, ltb, leb,
  ◌==◌, ◌&&◌, ◌||◌, if◌then◌else◌,
}
use plampshade.Base.Int.{ℤ, pos, negsuc, ltb_ℤ}
use plampshade.Wire.{max_data_len}

abbrev pub default_window_size : ℕ
default_window_size = 2 * 1024 * 1024 / max_data_len

abbrev pub max_id : ℕ
max_id = 65535

abbrev pub min_live_conns : ℕ
min_live_conns = 1

-- The options that `NewDialer` gives defaults. Durations are in nanoseconds.
pub record DialerOpts : Type 0 where
  pub window_size : ℤ
  pub max_live_conns : ℤ
  pub max_streams_per_conn : ℕ
  pub redial_session_interval : ℤ

abbrev pub is_positive : ℤ → Bool
is_positive n = ltb_ℤ (pos 0) n

unfoldable pub with_defaults : DialerOpts → DialerOpts
with_defaults opts = record {
  window_size = if is_positive opts.window_size then opts.window_size else pos default_window_size;
  max_live_conns = if is_positive opts.max_live_conns then opts.max_live_conns else pos 1;
  max_streams_per_conn =
      if (opts.max_streams_per_conn == 0) || ltb max_id opts.max_streams_per_conn
      then max_id
      else opts.max_streams_per_conn;
  redial_session_interval =
      if is_positive opts.redial_session_interval
      then opts.redial_session_interval
      else pos 5000000000;
}

pub record Dialer : Type 0 where
  pub max_live_conns : ℕ
  pub num_live : ℕ
  pub num_pending : ℕ
  pub live_sessions : List ℕ
  -- The sessions taken off the channel by a dial that has not yet given them back.
  pub taken : List ℕ
  -- The goroutines of `newSession` that have not yet got a session or an error.
  pub dialing : ℕ
  -- The sessions that `startSession` made and that wait to be sent to the channel.
  pub starting : List ℕ
  -- The sessions on which `MarkDefunct` was called, latest first.
  pub defunct : List ℕ

-- `NewDialer`. The number 0 is the `nullSession`.
unfoldable pub new_dialer : ℕ → Dialer
new_dialer max_live_conns = record {
  max_live_conns = max_live_conns;
  num_live = 1;
  num_pending = 0;
  live_sessions = 0 ∷ [];
  taken = [];
  dialing = 0;
  starting = [];
  defunct = [];
}

-- `newSession`, until its goroutine starts to dial.
unfoldable pub new_session : ℕ → Dialer → Dialer
new_session cap d =
    if leb cap (d.num_live + d.num_pending)
    then d
    else record d { num_pending = d.num_pending + 1; dialing = d.dialing + 1 }

-- One of those goroutines, once `startSession` returned a session or an error.
unfoldable pub session_started : Option ℕ → Dialer → Dialer
session_started none d = record d { num_pending = d.num_pending - 1; dialing = d.dialing - 1 }
session_started (some s) d = record d {
  num_pending = d.num_pending - 1;
  dialing = d.dialing - 1;
  num_live = d.num_live + 1;
  starting = s ∷ d.starting;
}

unfoldable pub take_out : ℕ → List ℕ → List ℕ
take_out s [] = []
take_out s (x ∷ xs) = let rest = take_out s xs in if x == s then xs else x ∷ rest

-- `d.liveSessions <- s` of the goroutine.
unfoldable pub deliver : ℕ → Dialer → Dialer
deliver s d = record d {
  starting = take_out s d.starting;
  live_sessions = d.live_sessions ++ (s ∷ []);
}

-- `getOrCreateSession` takes the session `s` off the channel; `allowed` is what `AllowNewStream`
-- says of it.
unfoldable pub receive_session : Bool → ℕ → List ℕ → Dialer → Dialer
unfolding new_session
receive_session allowed s rest d =
    if allowed
    then record d { live_sessions = rest; taken = s ∷ d.taken }
    else new_session min_live_conns
        (record d { live_sessions = rest; num_live = d.num_live - 1; defunct = s ∷ d.defunct })

-- `time.After(d.redialSessionInterval)` in `getOrCreateSession`.
unfoldable pub redial : Dialer → Dialer
unfolding new_session
redial d = new_session d.max_live_conns d

unfoldable pub return_session : ℕ → Dialer → Dialer
return_session s d =
    if ltb min_live_conns d.num_live
    then record d { num_live = d.num_live - 1; taken = take_out s d.taken; defunct = s ∷ d.defunct }
    else record d { taken = take_out s d.taken; live_sessions = d.live_sessions ++ (s ∷ []) }
