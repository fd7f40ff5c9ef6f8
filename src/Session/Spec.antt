-- ===== src/Session/Spec.antt =====
-- What a session promises to the user of one stream: the life of the stream, seen without the table
-- and without the other streams. `view` reads it off a session.
use plampshade.Base.{
  ℕ, ◌≡◌, refl, Bool, false, List, [], ◌∷◌, ◌++◌, append_assoc, append-nil, ◌==◌, if◌then◌else◌,
}
use plampshade.Wire.Message.{Message, data_of, ack_of, rst_of, ping_at, echo_at, wire}
use plampshade.Session.{Session, Effect, submitted, acked, emit, has}

pub data Status : Type 0 where
  unknown : Status
  running : Status
  gone : Status

-- Its status, the frames given to its receive buffer and the ACKs given to its window.
pub record Life : Type 0 where
  pub status : Status
  pub inbox : List (List ℕ)
  pub credits : List ℕ

-- What one message does to the stream that it names.
abbrev pub advance_at : Status → Message → Life → Life
advance_at gone m l = l
advance_at _ (data_of id b) l = record l {
  status = running;
  inbox = l.inbox ++ (wire (data_of id b) ∷ []);
}
advance_at _ (ack_of id n) l = record l { status = running; credits = l.credits ++ (n ∷ []) }
advance_at _ (rst_of id) l = record l { status = gone }
advance_at _ (ping_at ts) l = l
advance_at _ (echo_at ts) l = l

unfoldable pub advance : Message → Life → Life
advance m l = advance_at l.status m l

abbrev pub is_for : ℕ → Message → Bool
is_for id (data_of j b) = j == id
is_for id (ack_of j n) = j == id
is_for id (rst_of j) = j == id
is_for id (ping_at ts) = false
is_for id (echo_at ts) = false

abbrev pub advance_for : ℕ → Message → Life → Life
advance_for id m l = if is_for id m then advance m l else l

-- The messages of one stream, in turn; those of other streams do not count.
unfoldable pub live : ℕ → List Message → Life → Life
live id [] l = l
live id (m ∷ ms) l = live id ms (advance_for id m l)

abbrev pub frames_of : ℕ → Effect → List (List ℕ)
frames_of id (submitted j frame) = if j == id then frame ∷ [] else []
frames_of id _ = []

abbrev pub credits_of : ℕ → Effect → List ℕ
credits_of id (acked j n) = if j == id then n ∷ [] else []
credits_of id _ = []

abbrev pub inbox_of : ℕ → List Effect → List (List ℕ)
inbox_of id [] = []
inbox_of id (e ∷ es) = frames_of id e ++ inbox_of id es

abbrev pub all_credits : ℕ → List Effect → List ℕ
all_credits id [] = []
all_credits id (e ∷ es) = credits_of id e ++ all_credits id es

abbrev pub status_of : ℕ → Session → Status
status_of id s = if has id s.streams then running else (if has id s.closed then gone else unknown)

unfoldable pub view : ℕ → Session → Life
view id s = record {
  status = status_of id s;
  inbox = inbox_of id s.effects;
  credits = all_credits id s.effects;
}

inbox_of-append :
    (id : ℕ) (es : List Effect) (e : Effect)
    → inbox_of id (es ++ (e ∷ [])) ≡ inbox_of id es ++ frames_of id e
inbox_of-append id [] e = append-nil (frames_of id e)
inbox_of-append id (d ∷ es) e =
    rw (inbox_of-append id es e) (rw (append_assoc (frames_of id d)) refl)

all_credits-append :
    (id : ℕ) (es : List Effect) (e : Effect)
    → all_credits id (es ++ (e ∷ [])) ≡ all_credits id es ++ credits_of id e
all_credits-append id [] e = append-nil (credits_of id e)
all_credits-append id (d ∷ es) e =
    rw (all_credits-append id es e) (rw (append_assoc (credits_of id d)) refl)

-- What an effect adds to a life.
abbrev pub noted : ℕ → Effect → Life → Life
noted id e l = record l {
  inbox = l.inbox ++ frames_of id e;
  credits = l.credits ++ credits_of id e;
}

pub view-emit : (id : ℕ) (s : Session) (e : Effect) → view id (emit s e) ≡ noted id e (view id s)
unfolding view
view-emit id s e = rw (inbox_of-append id s.effects e, all_credits-append id s.effects e) refl
