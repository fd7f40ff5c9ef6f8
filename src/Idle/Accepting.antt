-- ===== src/Idle/Accepting.antt =====
-- idletiming/idletiming_listener.go: the connections of a listener, each with its idle timeout.
use plampshade.Base.{ℕ, ◌≡◌, refl, Bool, List, Option, none, some, if◌then◌else◌}
use plampshade.Idle.{IoError, IdleConn, new_conn}
use plampshade.Idle.Timer.{Call, run, run-IsTimed, new_conn-IsTimed}

pub record IdleListener : Type 0 where
  pub idle_timeout : ℕ
  -- Whether there is an `onIdle`.
  pub on_idle : Bool

-- `Listener`, by whether there is an `onIdle`; none is its panic.
unfoldable pub new_listener : ℕ → Bool → Option IdleListener
new_listener idle_timeout on_idle =
    if on_idle then some (record { idle_timeout = idle_timeout; on_idle = on_idle }) else none

-- `Accept` at a time, by the error of the wrapped listener: the connection, or the error.
unfoldable pub accept : IdleListener → ℕ → Option IoError → Option IdleConn × Option IoError
accept l now none = (some (new_conn l.idle_timeout now), none)
accept l now (some e) = (none, some e)

-- Whatever is done with a connection that a listener accepted, its `onIdle` was called once if the
-- connection has idled, and not at all otherwise.
accept-on_idle :
    (l : IdleListener) (now : ℕ) (ops : List Call)
    → (c : IdleConn) × (accept l now none ≡ (some c, none))
      × ((run ops c).on_idle_calls ≡ (if (run ops c).idled then 1 else 0))
unfolding accept
accept-on_idle l now ops =
    let c = new_conn l.idle_timeout now in
    (c, refl, (run-IsTimed ops c (new_conn-IsTimed l.idle_timeout now)).called)
