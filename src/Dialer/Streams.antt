-- ===== src/Dialer/Streams.antt =====
-- dialer.go: the streams that `DialContext` returns.
use mathlib.Core.Path.{subst}
use plampshade.Base.{
  ℕ, ◌≤◌, ◌<◌, ◌≡◌, ◌≢◌, refl, sym, ap, ◌∙◌, true, false, List, [], ◌∷◌, Option, none, some, ltb,
  ◌==◌, if_rule, arith, true≢false, Bool-cases, inl, inr,
}
use plampshade.Session.{
  Session, has, is_empty, allow_new_stream, create_stream, mark_defunct, close,
}
use plampshade.Session.Ids.{IsFresh, create_stream-Created, create_stream-id}
use plampshade.Dialer.{min_live_conns, redial, return_session}
use plampshade.Dialer.Dialing.{
  Conns, Event, receives, redials, cancelled, elsewhere, Got, got, no_session, waits, assign,
  session_allows, session_defunct, on_receive, get_or_create_session, give_back, Dialed, dialed,
  failed, blocks, panicked, dial_on, dial_context, IsSound, AllSound, Cancels, IsElsewhere,
}

mark_defunct-IsFresh : (s : Session) → IsFresh s → IsFresh (mark_defunct s)
unfolding mark_defunct close
mark_defunct-IsFresh s f =
    if_rule IsFresh (is_empty s.streams)
      (λ e.
        if_rule IsFresh s.is_closed (λ c. record { unopened = f.unopened; unclosed = f.unclosed })
          (λ c. record { unopened = f.unopened; unclosed = f.unclosed }))
      (λ e. record { unopened = f.unopened; unclosed = f.unclosed })

assign-IsFresh :
    (s : ℕ) (t : Session) (w : Conns)
    → IsFresh t
    → IsSound w
    → IsSound (record w { sessions = assign s t w.sessions })
assign-IsFresh s t w f v j h = if_rule IsFresh (j == s) (λ e. f) (λ e. v j h)

session_defunct-IsSound : (s : ℕ) (w : Conns) → IsSound w → IsSound (session_defunct s w)
session_defunct-IsSound s w v = elim (Bool-cases (s == 0)) [
  | inl e ↦ rw e v
  | inr e ↦
      let real : s ≢ 0 = ground arith in
      rw e (
        assign-IsFresh s (mark_defunct (w.sessions s)) w
          (mark_defunct-IsFresh (w.sessions s) (v s real)) v)
]

-- A session that was taken off the channel.
abbrev pub IsTaken : ℕ → ℕ → Conns → Type 0
IsTaken max_streams s w = (s ≢ 0) × IsSound w × ((w.sessions s).next_id ≤ max_streams)

abbrev Receives : ℕ → Conns × Option ℕ → Type 0
Receives max_streams (w, none) = IsSound w
Receives max_streams (w, some s) = IsTaken max_streams s w

allow_new_stream-next_id :
    (max_streams idle_interval now : ℕ) (s : Session)
    → allow_new_stream max_streams idle_interval now s ≡ true
    → s.next_id ≤ max_streams
unfolding allow_new_stream
allow_new_stream-next_id max_streams idle_interval now s h = ground arith

on_receive-Receives :
    (max_streams idle_interval now : ℕ) (live : List ℕ) (w : Conns)
    → IsSound w
    → Receives max_streams (on_receive max_streams idle_interval now live w)
unfolding on_receive
on_receive-Receives max_streams idle_interval now [] w v = v
on_receive-Receives max_streams idle_interval now (s ∷ rest) w v =
    if_rule (Receives max_streams) (session_allows max_streams idle_interval now s w)
      (λ e.
        let real : s ≢ 0 = ground arith in
        let allowed : allow_new_stream max_streams idle_interval now (w.sessions s) ≡ true =
          ground arith in
        (real, v, allow_new_stream-next_id max_streams idle_interval now (w.sessions s) allowed))
      (λ e. session_defunct-IsSound s w v)

abbrev Gets : ℕ → Type 0 → Conns × Got → Type 0
Gets max_streams C (w, got s) = IsTaken max_streams s w
Gets max_streams C (w, no_session) = IsSound w × C
Gets max_streams C (w, waits) = IsSound w

after_receive :
    (max_streams : ℕ) (C : Type 0) (go_on : Conns → Conns × Got) (r : Conns × Option ℕ)
    → Receives max_streams r
    → ((w : Conns) → IsSound w → Gets max_streams C (go_on w))
    → Gets max_streams C (elim r.1 [ some s ↦ (r.0, got s) | none ↦ go_on r.0 ])
after_receive max_streams C go_on (w, none) h k = k w h
after_receive max_streams C go_on (w, some s) h k = h

get_or_create_session-Gets :
    (max_streams idle_interval : ℕ) (events : List Event) (w : Conns)
    → IsSound w
    → AllSound events
    → Gets max_streams (Cancels events) (get_or_create_session max_streams idle_interval events w)
unfolding get_or_create_session
get_or_create_session-Gets max_streams idle_interval [] w v a = v
get_or_create_session-Gets max_streams idle_interval (receives now ∷ events) w v a =
    after_receive max_streams (Cancels events)
      (get_or_create_session max_streams idle_interval events)
      (on_receive max_streams idle_interval now w.dialer.live_sessions w)
      (on_receive-Receives max_streams idle_interval now w.dialer.live_sessions w v)
      (λ w' v'. get_or_create_session-Gets max_streams idle_interval events w' v' a)
get_or_create_session-Gets max_streams idle_interval (redials ∷ events) w v a =
    get_or_create_session-Gets max_streams idle_interval events
      (record w { dialer = redial w.dialer }) v a
get_or_create_session-Gets max_streams idle_interval (cancelled ∷ events) w v a = (v, tt)
get_or_create_session-Gets max_streams idle_interval (elsewhere w' ∷ events) w v a =
    get_or_create_session-Gets max_streams idle_interval events w' a.0 a.1

-- What a dial on a session `s` leaves: a new stream, whose id is the next one.
abbrev pub HasStream : ℕ → Session → Session → ℕ → Type 0
HasStream max_streams s t id =
    (id ≡ s.next_id)
    × (id ≤ max_streams)
    × (has id s.streams ≡ false)
    × (has id s.closed ≡ false)
    × (t.streams ≡ id ∷ s.streams)
    × (t.is_closed ≡ s.is_closed)

mark_defunct-kept :
    (t : Session) (id : ℕ) (streams : List ℕ)
    → t.streams ≡ id ∷ streams
    → ((mark_defunct t).streams ≡ id ∷ streams) × ((mark_defunct t).is_closed ≡ t.is_closed)
unfolding mark_defunct
mark_defunct-kept t id streams h =
    if_rule (λ (x : Session). (x.streams ≡ id ∷ streams) × (x.is_closed ≡ t.is_closed))
      (is_empty t.streams) (λ e. true≢false (is_empty t.streams) e (ap is_empty h)) (λ e. (h, refl))

assign-same : (s : ℕ) (t : Session) (sessions : ℕ → Session) → assign s t sessions s ≡ t
assign-same s t sessions = let same : (s == s) ≡ true = ground arith in rw same refl

give_back-kept :
    (s id : ℕ) (streams : List ℕ) (w : Conns)
    → (w.sessions s).streams ≡ id ∷ streams
    → ((give_back s w).sessions s).streams ≡ id ∷ streams
      × ((give_back s w).sessions s).is_closed ≡ (w.sessions s).is_closed
unfolding give_back
give_back-kept s id streams w h =
    let Kept = λ (x : Conns).
      ((x.sessions s).streams ≡ id ∷ streams)
      × ((x.sessions s).is_closed ≡ (w.sessions s).is_closed) in
    if_rule Kept (ltb min_live_conns w.dialer.num_live)
      (λ e.
        if_rule Kept (s == 0) (λ z. (h, refl))
          (λ z.
            subst
              (λ (t : Session).
                (t.streams ≡ id ∷ streams) × (t.is_closed ≡ (w.sessions s).is_closed))
              (sym (assign-same s (mark_defunct (w.sessions s)) w.sessions))
              (mark_defunct-kept (w.sessions s) id streams h)))
      (λ e. (h, refl))

give_back-IsSound : (s : ℕ) (w : Conns) → IsSound w → IsSound (give_back s w)
unfolding give_back
give_back-IsSound s w v =
    if_rule IsSound (ltb min_live_conns w.dialer.num_live)
      (λ e. session_defunct-IsSound s (record w { dialer = return_session s w.dialer }) v) (λ e. v)

-- The result of `DialContext`, and `before`, the state in which it creates the stream.
abbrev pub Dials : ℕ → Type 0 → (ℕ → Session) → Conns × Dialed → Type 0
Dials max_streams C before (w, dialed s (some id)) =
    HasStream max_streams (before s) (w.sessions s) id × IsSound w
Dials max_streams C before (w, dialed s none) = ⊥
Dials max_streams C before (w, failed) = C × IsSound w
Dials max_streams C before (w, blocks) = IsSound w
Dials max_streams C before (w, panicked) = ⊥

dial_on-Dials :
    (max_streams now s : ℕ) (C : Type 0) (w : Conns)
    → max_streams < 65536
    → IsTaken max_streams s w
    → Dials max_streams C w.sessions (dial_on now s w)
unfolding dial_on
dial_on-Dials max_streams now s C w m (real, v, below) =
    let before = w.sessions s in
    let t = (create_stream now before).0 in
    let (c, given) = create_stream-Created now before (v s real) (omega arith) in
    let (id, listed, unopened, unclosed, fresh) =
      create_stream-id now before (v s real) (omega arith) in
    let w' : Conns = record w { sessions = assign s t w.sessions } in
    let same = assign-same s t w.sessions in
    let (kept, open_kept) =
      give_back-kept s before.next_id before.streams w' (ap (λ x. x.streams) same ∙ listed) in
    if_rule (Dials max_streams C w.sessions) (s == 0) (λ e. absurd (real (ground arith)))
      (λ e.
        subst (λ o. Dials max_streams C w.sessions (give_back s w', dialed s o)) (sym given)
          (
            (
              refl,
              below,
              unopened,
              unclosed,
              kept,
              open_kept ∙ ap (λ x. x.is_closed) same ∙ c.open_kept,
            ),
            give_back-IsSound s w' (assign-IsFresh s t w fresh v),
          ))

after_get :
    (max_streams now : ℕ) (C : Type 0) (between : Conns → Conns) (r : Conns × Got)
    → max_streams < 65536
    → Gets max_streams C r
    → ((s : ℕ) → r.1 ≡ got s → IsElsewhere s r.0 (between r.0))
    → Dials max_streams C (between r.0).sessions (elim r.1 [
      | got s ↦ dial_on now s (between r.0)
      | no_session ↦ (r.0, failed)
      | waits ↦ (r.0, blocks)
    ])
after_get max_streams now C between (w, got s) m (real, v, below) others =
    let o = others s refl in
    dial_on-Dials max_streams now s C (between w) m
      (real, o.sound v, omega (arith, below, o.same_id))
after_get max_streams now C between (w, no_session) m (v, c) others = (c, v)
after_get max_streams now C between (w, waits) m v others = v

-- Where the other side opens no streams and nobody else gives out ids of the session that a dial
-- has taken: a dial does not panic and does not return a nil stream. It fails only where its
-- context is done. A stream that it returns is new to its session, has the next id, which is not
-- above the limit, and a dial that makes its session defunct does not close it; the ids of all
-- sessions stay in turn.
pub dial_context-Dials :
    (max_streams idle_interval : ℕ) (events : List Event) (between : Conns → Conns) (now : ℕ)
    (w : Conns)
    → max_streams < 65536
    → IsSound w
    → AllSound events
    → let r = get_or_create_session max_streams idle_interval events w in
      ((s : ℕ) → r.1 ≡ got s → IsElsewhere s r.0 (between r.0))
      → Dials max_streams
          (Cancels events)
          (between r.0).sessions
          (dial_context max_streams idle_interval events between now w)
unfolding dial_context
dial_context-Dials max_streams idle_interval events between now w m v a others =
    after_get max_streams now (Cancels events) between
      (get_or_create_session max_streams idle_interval events w) m
      (get_or_create_session-Gets max_streams idle_interval events w v a) others
