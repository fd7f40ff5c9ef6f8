-- ===== src/Dialer/Dialing.antt =====
-- dialer.go: `DialContext`, with the sessions themselves. What other goroutines do to the dialer
-- and to the sessions while a dial waits is an event that leaves another state behind.
use plampshade.Base.{
  ℕ, ◌≡◌, ◌≢◌, Bool, true, false, List, [], ◌∷◌, Option, none, some, ltb, ◌==◌, if◌then◌else◌,
}
use plampshade.Session.{Session, allow_new_stream, create_stream, mark_defunct}
use plampshade.Session.Ids.{IsFresh}
use plampshade.Dialer.{Dialer, min_live_conns, receive_session, redial, return_session}

pub record Conns : Type 0 where
  pub dialer : Dialer
  -- The sessions by their numbers. The session 0 is the `nullSession`.
  pub sessions : ℕ → Session

pub data Event : Type 0 where
  -- A session comes off the channel, at this time.
  receives : ℕ → Event
  -- `time.After(d.redialSessionInterval)`
  redials : Event
  -- `ctx.Done()`
  cancelled : Event
  elsewhere : Conns → Event

pub data Got : Type 0 where
  got : ℕ → Got
  no_session : Got
  waits : Got

abbrev pub assign : ℕ → Session → (ℕ → Session) → ℕ → Session
assign s t sessions j = if j == s then t else sessions j

-- `AllowNewStream` of a session or of the `nullSession`.
abbrev pub session_allows : ℕ → ℕ → ℕ → ℕ → Conns → Bool
session_allows max_streams idle_interval now s w =
    if s == 0 then false else allow_new_stream max_streams idle_interval now (w.sessions s)

-- `MarkDefunct`, which the `nullSession` does not heed.
abbrev pub session_defunct : ℕ → Conns → Conns
session_defunct s w =
    if s == 0 then w else record w { sessions = assign s (mark_defunct (w.sessions s)) w.sessions }

-- The case of `getOrCreateSession` in which this list is on the channel: the new state, and the
-- session.
unfoldable pub on_receive : ℕ → ℕ → ℕ → List ℕ → Conns → Conns × Option ℕ
on_receive max_streams idle_interval now [] w = (w, none)
on_receive max_streams idle_interval now (s ∷ rest) w =
    if session_allows max_streams idle_interval now s w
    then (record w { dialer = receive_session true s rest w.dialer }, some s)
    else (record (session_defunct s w) { dialer = receive_session false s rest w.dialer }, none)

-- `getOrCreateSession`
unfoldable pub get_or_create_session : ℕ → ℕ → List Event → Conns → Conns × Got
get_or_create_session max_streams idle_interval [] w = (w, waits)
get_or_create_session max_streams idle_interval (receives now ∷ events) w =
    let (w', s) = on_receive max_streams idle_interval now w.dialer.live_sessions w in
    elim s [
      | some s' ↦ (w', got s')
      | none ↦ get_or_create_session max_streams idle_interval events w'
    ]
get_or_create_session max_streams idle_interval (redials ∷ events) w =
    get_or_create_session max_streams idle_interval events (record w { dialer = redial w.dialer })
get_or_create_session max_streams idle_interval (cancelled ∷ events) w = (w, no_session)
get_or_create_session max_streams idle_interval (elsewhere w' ∷ events) w =
    get_or_create_session max_streams idle_interval events w'

-- `returnSession`
unfoldable pub give_back : ℕ → Conns → Conns
give_back s w =
    let w' = record w { dialer = return_session s w.dialer } in
    if ltb min_live_conns w.dialer.num_live then session_defunct s w' else w'

pub data Dialed : Type 0 where
  -- The session, and the stream; none is a nil stream.
  dialed : ℕ → Option ℕ → Dialed
  failed : Dialed
  blocks : Dialed
  panicked : Dialed

-- `CreateStream` and `returnSession`. The `nullSession` panics.
unfoldable pub dial_on : ℕ → ℕ → Conns → Conns × Dialed
dial_on now s w =
    let (t, id) = create_stream now (w.sessions s) in
    if s == 0
    then (w, panicked)
    else (give_back s (record w { sessions = assign s t w.sessions }), dialed s id)

-- `DialContext`. `between` is what others do before `CreateStream`.
unfoldable pub dial_context : ℕ → ℕ → List Event → (Conns → Conns) → ℕ → Conns → Conns × Dialed
dial_context max_streams idle_interval events between now w =
    let (w', g) = get_or_create_session max_streams idle_interval events w in
    elim g [ got s ↦ dial_on now s (between w') | no_session ↦ (w', failed) | waits ↦ (w', blocks) ]

-- Every session but the `nullSession` gives out ids in turn.
abbrev pub IsSound : Conns → Type 0
IsSound w = (s : ℕ) → s ≢ 0 → IsFresh (w.sessions s)

abbrev pub AllSound : List Event → Type 0
AllSound [] = Unit {0}
AllSound (receives now ∷ events) = AllSound events
AllSound (redials ∷ events) = AllSound events
AllSound (cancelled ∷ events) = AllSound events
AllSound (elsewhere w ∷ events) = IsSound w × AllSound events

abbrev pub Cancels : List Event → Type 0
Cancels [] = ⊥
Cancels (cancelled ∷ events) = Unit {0}
Cancels (receives now ∷ events) = Cancels events
Cancels (redials ∷ events) = Cancels events
Cancels (elsewhere w ∷ events) = Cancels events

-- Others keep the sessions sound, and give out no ids of a session that a dial has taken.
pub record IsElsewhere (s : ℕ) (w w' : Conns) : Type 0 where
  pub sound : IsSound w → IsSound w'
  pub same_id : (w'.sessions s).next_id ≡ (w.sessions s).next_id
