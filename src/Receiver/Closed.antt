-- ===== src/Receiver/Closed.antt =====
-- session.go: `recvLoop`, the stream table, and streams that are closed, under any bytes.
use plampshade.Base.{
  ℕ, ◌+◌, ◌≡◌, refl, ap, ◌∙◌, Bool, true, false, List, [], ◌∷◌, ◌++◌, ◌==◌, ==_iff, if◌then◌else◌,
  Bool-cases, inl, inr, if_rule, true≢false, ◌&&◌,
}
use plampshade.Session.{
  Session, Effect, get_or_create_stream, on_session_error, close, emit, close_stream, stream_closed,
  has, opened, submitted, acked, empty_ack, echoed, rtt_from, session_closed, delete, is_empty,
}
use plampshade.Session.Table.{
  IsValid, close-IsValid, close_stream-IsValid, get_or_create_stream-IsValid, emit-IsValid,
  get_or_create_stream-closed,
}
use plampshade.Receiver.{receive_frames, Received, finished, failed, crashed, no_fuel}
use plampshade.Receiver.Keeps.{Keeps, Ends, receive_frames-Ends}

IsValid-Keeps : Keeps IsValid
unfolding on_session_error
IsValid-Keeps = record {
  creates = get_or_create_stream-IsValid;
  closes = close_stream-IsValid;
  errs = close-IsValid;
  notes_closed = λ id s. emit-IsValid s (stream_closed id);
  notes_echo = λ b s. emit-IsValid s (echoed b);
  notes_rtt = λ ts s. emit-IsValid s (rtt_from ts);
  notes_ack = λ id n s e v. emit-IsValid _ (acked id n) (get_or_create_stream-IsValid id s v);
  notes_data = λ id b s e v. emit-IsValid _ (submitted id b) (get_or_create_stream-IsValid id s v);
  notes_empty = λ id b s e v.
      emit-IsValid _ (empty_ack id)
        (emit-IsValid _ (submitted id b) (get_or_create_stream-IsValid id s v));
}

-- Whatever bytes a peer sends, the table stays in order, unless the receiver panics: no stream is
-- both open and closed, and a defunct session without streams is closed.
pub receive_frames-IsValid :
    (bs : List ℕ) (s : Session) → IsValid s → Ends IsValid (receive_frames bs s)
receive_frames-IsValid bs s v = receive_frames-Ends IsValid IsValid-Keeps bs s v

-- Whether an effect opens the stream or hands it data or an ACK.
unfoldable pub concerns : ℕ → Effect → Bool
concerns id (opened j b) = j == id
concerns id (submitted j b) = j == id
concerns id (acked j n) = j == id
concerns id (empty_ack j) = j == id
concerns id (stream_closed j) = false
concerns id (echoed b) = false
concerns id (rtt_from ts) = false
concerns id session_closed = false

unfoldable pub uses : ℕ → List Effect → ℕ
unfolding concerns
uses id [] = 0
uses id (e ∷ es) = (if concerns id e then 1 else 0) + uses id es

uses-append :
    (id : ℕ) (es : List Effect) (e : Effect)
    → concerns id e ≡ false
    → uses id (es ++ (e ∷ [])) ≡ uses id es
unfolding uses
uses-append id [] e h = rw h
uses-append id (x ∷ es) e h =
    ap (λ (n : ℕ). (if concerns id x then 1 else 0) + n) (uses-append id es e h)

-- Stream `id` is closed, and was used `k` times.
abbrev IsDone : ℕ → ℕ → Session → Type 0
IsDone id k s = (has id s.closed ≡ true) × (uses id s.effects ≡ k)

abbrev IsValidDone : ℕ → ℕ → Session → Type 0
IsValidDone id k s = IsValid s × IsDone id k s

emit-IsDone :
    (id k : ℕ) (s : Session) (e : Effect)
    → concerns id e ≡ false
    → IsDone id k s
    → IsDone id k (emit s e)
emit-IsDone id k s e h d = (d.0, uses-append id s.effects e h ∙ d.1)

close-IsDone : (id k : ℕ) (s : Session) → IsDone id k s → IsDone id k (close s)
unfolding close concerns
close-IsDone id k s d =
    if_rule (IsDone id k) s.is_closed (λ e. d) (λ e. emit-IsDone id k s session_closed refl d)

close_stream-IsDone : (id k j : ℕ) (s : Session) → IsDone id k s → IsDone id k (close_stream j s)
unfolding close_stream
close_stream-IsDone id k j s d =
    let s' : Session = record s { streams = delete j s.streams; closed = j ∷ s.closed } in
    let d' : IsDone id k s' =
      (if_rule (λ (b : Bool). b ≡ true) (j == id) (λ e. refl) (λ e. d.0), d.1) in
    if_rule (IsDone id k) (s.defunct && is_empty s'.streams) (λ e. close-IsDone id k s' d')
      (λ e. d')

-- The closed stream is another one than any that is open or can be opened.
other_stream :
    (id k j : ℕ) (s : Session)
    → IsValidDone id k s
    → (get_or_create_stream j s).1 ≡ true
    → (j == id) ≡ false
other_stream id k j s d e = elim (Bool-cases (j == id)) [
  | inl same ↦
      let at : has j s.closed ≡ true =
        ap (λ (i : ℕ). has i s.closed) ((==_iff j id).0 same) ∙ d.1.0 in
      let no_stream : (get_or_create_stream j s).1 ≡ false =
        ap (λ (r : Session × Bool). r.1) (get_or_create_stream-closed j s d.0 at) in
      true≢false (get_or_create_stream j s).1 e no_stream
  | inr apart ↦ apart
]

get_or_create_stream-IsDone :
    (id k j : ℕ) (s : Session) → IsValidDone id k s → IsDone id k (get_or_create_stream j s).0
get_or_create_stream-IsDone id k j s d = elim (Bool-cases (get_or_create_stream j s).1) [
  | inl e ↦ opens (other_stream id k j s d e)
  | inr e ↦ refused e
]
  where
    opens : (j == id) ≡ false → IsDone id k (get_or_create_stream j s).0
    opens h =
        unfold get_or_create_stream in
        (if_rule (λ (r : Session × Bool). IsDone id k r.0) (has j s.streams) (λ e. d.1)
          λ e.
            if_rule (λ (r : Session × Bool). IsDone id k r.0) (has j s.closed) (λ f. d.1)
              λ f.
                emit-IsDone id k (record s { streams = j ∷ s.streams }) (opened j s.notifies)
                  (unfold concerns in h) d.1)

    refused : (get_or_create_stream j s).1 ≡ false → IsDone id k (get_or_create_stream j s).0
    refused =
        unfold get_or_create_stream in
        (if_rule (λ (r : Session × Bool). r.1 ≡ false → IsDone id k r.0) (has j s.streams)
          (λ e h. d.1)
          λ e.
            if_rule (λ (r : Session × Bool). r.1 ≡ false → IsDone id k r.0) (has j s.closed)
              (λ f h. d.1) (λ f h. cc))

module _ (id k : ℕ) where
  used_stream :
      (j : ℕ) (e : Effect) (s : Session)
      → concerns id e ≡ (j == id)
      → (get_or_create_stream j s).1 ≡ true
      → IsValidDone id k s
      → IsValidDone id k (emit (get_or_create_stream j s).0 e)
  used_stream j e s c h d = (
    emit-IsValid (get_or_create_stream j s).0 e (get_or_create_stream-IsValid j s d.0),
    emit-IsDone id k (get_or_create_stream j s).0 e (c ∙ other_stream id k j s d h)
        (get_or_create_stream-IsDone id k j s d),
  )

  IsDone-Keeps : Keeps (IsValidDone id k)
  unfolding on_session_error concerns
  IsDone-Keeps = record {
    creates =
        λ j s d. (get_or_create_stream-IsValid j s d.0, get_or_create_stream-IsDone id k j s d);
    closes = λ j s d. (close_stream-IsValid j s d.0, close_stream-IsDone id k j s d.1);
    errs = λ s d. (close-IsValid s d.0, close-IsDone id k s d.1);
    notes_closed = λ j s d.
        (emit-IsValid s (stream_closed j) d.0, emit-IsDone id k s (stream_closed j) refl d.1);
    notes_echo = λ b s d. (emit-IsValid s (echoed b) d.0, emit-IsDone id k s (echoed b) refl d.1);
    notes_rtt =
        λ t s d. (emit-IsValid s (rtt_from t) d.0, emit-IsDone id k s (rtt_from t) refl d.1);
    notes_ack = λ j n s h d. used_stream j (acked j n) s refl h d;
    notes_data = λ j b s h d. used_stream j (submitted j b) s refl h d;
    notes_empty = λ j b s h d.
        (let d' = used_stream j (submitted j b) s refl h d in
          let s' = emit (get_or_create_stream j s).0 (submitted j b) in
          (
            emit-IsValid s' (empty_ack j) d'.0,
            emit-IsDone id k s' (empty_ack j) (other_stream id k j s d h) d'.1,
          ));
  }

-- Once a stream is closed, no bytes that a peer sends open it again or bring it data or ACKs: it
-- stays closed, and the effects that concern it stay the ones they were (unless it panics).
pub receive_frames-closed :
    (id : ℕ) (bs : List ℕ) (s : Session)
    → IsValid s
    → has id s.closed ≡ true
    → Ends
        (λ (t : Session). (has id t.closed ≡ true) × (uses id t.effects ≡ uses id s.effects))
        (receive_frames bs s)
receive_frames-closed id bs s v h =
    weaken (receive_frames bs s)
      (receive_frames-Ends (IsValidDone id k) (IsDone-Keeps id k) bs s (v, (h, refl)))
  where
    k : ℕ
    k = uses id s.effects

    weaken :
        (r : Received)
        → Ends (IsValidDone id k) r
        → Ends (λ (t : Session). (has id t.closed ≡ true) × (uses id t.effects ≡ k)) r
    weaken (finished t) d = d.1
    weaken (failed t) d = d.1
    weaken crashed d = tt
    weaken no_fuel d = tt
