-- ===== src/Session.antt =====
-- session.go: the table of streams of a `session`, its creation and closing of streams, and
-- `Close`. What the session makes others do (streams, the connection, the out channels) is a log.
pub mod Table
pub mod Ids
pub mod Spec
pub mod Views
use plampshade.Base.{
  ℕ, ◌+◌, ◌-◌, ◌%◌, ◌^◌, Bool, true, false, not, ◌&&◌, List, [], ◌∷◌, ◌++◌, Option, none, some, ltb,
  ◌==◌, if◌then◌else◌,
}

pub data Effect : Type 0 where
  -- `newStream`, and `s.connCh <- c` where the flag says that there is a `connCh`.
  opened : ℕ → Bool → Effect
  -- `c.rb.submit(b)`, with the whole frame.
  submitted : ℕ → List ℕ → Effect
  -- `c.ack(n)`.
  acked : ℕ → ℕ → Effect
  -- `c.rb.doSendACK(0)`.
  empty_ack : ℕ → Effect
  -- `go c.close(false, nil, nil)`.
  stream_closed : ℕ → Effect
  -- `s.echoOut <- e`.
  echoed : List ℕ → Effect
  -- `s.emaRTT.UpdateDuration` for the echo of this time stamp.
  rtt_from : ℕ → Effect
  -- The body of `closeOnce.Do`.
  session_closed : Effect

pub record Session : Type 0 where
  -- The keys of `s.streams`, and those that `s.closed` maps to true.
  pub streams : List ℕ
  pub closed : List ℕ
  pub defunct : Bool
  -- Whether `closeCh` is closed.
  pub is_closed : Bool
  -- Whether `connCh` is not nil.
  pub notifies : Bool
  pub ack_on_first : Bool
  -- Whether `emaRTT` is not nil.
  pub tracks_rtt : Bool
  pub next_id : ℕ
  pub last_dialed : ℕ
  pub effects : List Effect

abbrev pub has : ℕ → List ℕ → Bool
has id [] = false
has id (x ∷ xs) = if x == id then true else has id xs

unfoldable pub delete : ℕ → List ℕ → List ℕ
delete id [] = []
delete id (x ∷ xs) = let rest = delete id xs in if x == id then rest else x ∷ rest

abbrev pub is_empty : List ℕ → Bool
is_empty [] = true
is_empty (x ∷ xs) = false

abbrev pub emit : Session → Effect → Session
emit s e = record s { effects = s.effects ++ (e ∷ []) }

-- `Close`: the body of `closeOnce` runs the first time only.
unfoldable pub close : Session → Session
close s = if s.is_closed then s else emit (record s { is_closed = true }) session_closed

-- `onSessionError` closes the session; the errors that it works out are only logged.
unfoldable pub on_session_error : Session → Session
on_session_error s = close s

unfoldable pub close_stream : ℕ → Session → Session
close_stream id s =
    let s' = record s { streams = delete id s.streams; closed = id ∷ s.closed } in
    if s'.defunct && is_empty s'.streams then close s' else s'

-- `sender.send`'s streams whose RST went out are closed together.
unfoldable pub close_streams : List ℕ → Session → Session
close_streams [] s = s
close_streams (id ∷ ids) s = close_streams ids (close_stream id s)

-- The session, and whether a stream was returned.
unfoldable pub get_or_create_stream : ℕ → Session → Session × Bool
get_or_create_stream id s =
    if has id s.streams
    then (s, true)
    else (if has id s.closed
        then (s, false)
        else (emit (record s { streams = id ∷ s.streams }) (opened id s.notifies), true))

-- The id of the stream, or `none` where `CreateStream` returns nil.
unfoldable pub create_stream : ℕ → Session → Session × Option ℕ
create_stream now s =
    let next = (s.next_id + 1) % 2 ^ 32 in
    let id = (next + 2 ^ 32 - 1) % 2 ^ 32 % 2 ^ 16 in
    let (s', is_open) = get_or_create_stream id (record s { next_id = next }) in
    (record s' { last_dialed = now }, (if is_open then some id else none))

unfoldable pub allow_new_stream : ℕ → ℕ → ℕ → Session → Bool
allow_new_stream max_stream_per_conn idle_interval now s =
    if ltb max_stream_per_conn s.next_id
    then false
    else (if ltb 0 idle_interval && ltb idle_interval (now - s.last_dialed)
        then false
        else not s.is_closed)

unfoldable pub mark_defunct : Session → Session
mark_defunct s =
    let s' = record s { defunct = true } in if is_empty s'.streams then close s' else s'

abbrev pub all_closed : List ℕ → List Effect
all_closed [] = []
all_closed (id ∷ ids) = stream_closed id ∷ all_closed ids

-- The goroutine of `Close`, once both loops have finished: it closes the streams that are left.
unfoldable pub close_remaining : Session → Session
close_remaining s = record s { effects = s.effects ++ all_closed s.streams }
