-- ===== src/Tests/Serves.antt =====
-- The listener at a concrete connection, which sends nothing and closes at 50.
use plampshade.Base.{ℕ, false, none, Option, some, ltb, if◌then◌else◌}
use plampshade.Conn.{Conn, plain, wrapped}
use plampshade.Idle.{new_conn}
use plampshade.Idle.Layers.{Layer, idle_timing, other_conn}
use plampshade.Listener.{Opts}
use plampshade.Listener.Serving.{Reads}

abbrev ends : ℕ → ℕ
ends d = if ltb d 50 then d else 50

abbrev ends_of : Option ℕ → ℕ → ℕ
ends_of none now = if ltb now 50 then 50 else now
ends_of (some d) now = if ltb now (ends d) then ends d else now

abbrev silent : Reads
silent = record { read_full = λ d now. (none, ends_of d now); discard = ends_of }

abbrev timed : Conn Layer
timed = wrapped other_conn (plain (idle_timing (new_conn 10 0)))

abbrev opts : Opts
opts = record { max_client_init_age = 100; caches = false }
