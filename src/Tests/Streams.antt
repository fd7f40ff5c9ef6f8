-- ===== src/Tests/Streams.antt =====
-- A dial at a concrete input: it gets the null session, and then a session that another goroutine
-- has started.
use plampshade.Base.{refl, true, false, List, [], ◌∷◌, arith}
use plampshade.Session.{Session}
use plampshade.Session.Ids.{IsFresh}
use plampshade.Dialer.{new_dialer}
use plampshade.Dialer.Dialing.{
  Conns, Event, receives, redials, elsewhere, get_or_create_session, dial_context, Cancels,
}
use plampshade.Dialer.Streams.{Dials, dial_context-Dials}

abbrev unused : Session
unused = record {
  streams = [];
  closed = [];
  defunct = false;
  is_closed = false;
  notifies = false;
  ack_on_first = false;
  tracks_rtt = true;
  next_id = 0;
  last_dialed = 3;
  effects = [];
}

unused-IsFresh : IsFresh unused
unused-IsFresh = record { unopened = λ j h. refl; unclosed = λ j h. refl }

abbrev at_start : Conns
at_start = record { dialer = new_dialer 2; sessions = λ j. unused }

abbrev at_second : Conns
at_second = record {
  dialer = record (new_dialer 2) { live_sessions = 7 ∷ [] };
  sessions = λ j. unused;
}

abbrev events : List Event
events = receives 4 ∷ (redials ∷ (elsewhere at_second ∷ (receives 5 ∷ [])))

dial_context-Dials_example :
    Dials 10
      (Cancels events)
      (get_or_create_session 10 0 events at_start).0.sessions
      (dial_context 10 0 events (λ w. w) 6 at_start)
dial_context-Dials_example =
    dial_context-Dials 10 0 events (λ w. w) 6 at_start (omega arith) (λ s h. unused-IsFresh)
      ((λ s h. unused-IsFresh), tt) (λ s e. record { sound = λ v. v; same_id = refl })
