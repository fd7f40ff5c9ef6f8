-- ===== src/Session/Table.antt =====
-- session.go: the stream table of a session, and what its operations make of its invariant.
use plampshade.Base.{
  ℕ, ◌+◌, ◌-◌, ◌%◌, ◌^◌, ◌≡◌, refl, Bool, true, false, ◌&&◌, List, [], ◌∷◌, ◌==◌, if◌then◌else◌,
  arith, if_rule, true≢false,
}
use plampshade.Session.{
  Session, has, delete, is_empty, emit, close, close_stream, close_streams, get_or_create_stream,
  create_stream, mark_defunct, Effect,
}

pub has-delete :
    (id j : ℕ) (xs : List ℕ) → has j (delete id xs) ≡ (if id == j then false else has j xs)
unfolding delete
has-delete id j [] = ground arith
has-delete id j (x ∷ xs) = ground (arith, has-delete id j xs)

pub record IsValid (s : Session) : Type 0 where
  pub apart : (id : ℕ) → has id s.streams ≡ true → has id s.closed ≡ false
  pub settled : s.defunct ≡ true → is_empty s.streams ≡ true → s.is_closed ≡ true

-- Everything of validity but the settling of a defunct session.
abbrev Apart : Session → Type 0
Apart s = (id : ℕ) → has id s.streams ≡ true → has id s.closed ≡ false

close-Apart : (s : Session) → Apart s → IsValid (close s)
unfolding close
close-Apart s a =
    if_rule IsValid s.is_closed (λ e. record { apart = a; settled = λ d n. e })
      (λ e. record { apart = a; settled = λ d n. refl })

pub close-IsValid : (s : Session) → IsValid s → IsValid (close s)
close-IsValid s v = close-Apart s v.apart

pub close-is_closed : (s : Session) → (close s).is_closed ≡ true
unfolding close
close-is_closed s = if_rule (λ (t : Session). t.is_closed ≡ true) s.is_closed (λ e. e) (λ e. refl)

pub emit-IsValid : (s : Session) (e : Effect) → IsValid s → IsValid (emit s e)
emit-IsValid s e v = record { apart = v.apart; settled = v.settled }

close_if_settled :
    (s : Session) → Apart s → IsValid (if s.defunct && is_empty s.streams then close s else s)
close_if_settled s a =
    if_rule IsValid (s.defunct && is_empty s.streams) (λ e. close-Apart s a)
      (λ e. record { apart = a; settled = λ d n. ground arith })

pub close_stream-IsValid : (id : ℕ) (s : Session) → IsValid s → IsValid (close_stream id s)
unfolding close_stream
close_stream-IsValid id s v =
    close_if_settled (record s { streams = delete id s.streams; closed = id ∷ s.closed })
      λ j h. ground (arith, has-delete id j s.streams, v.apart j)

pub close_streams-IsValid : (ids : List ℕ) (s : Session) → IsValid s → IsValid (close_streams ids s)
unfolding close_streams
close_streams-IsValid [] s v = v
close_streams-IsValid (id ∷ ids) s v =
    close_streams-IsValid ids (close_stream id s) (close_stream-IsValid id s v)

pub get_or_create_stream-IsValid :
    (id : ℕ) (s : Session) → IsValid s → IsValid (get_or_create_stream id s).0
unfolding get_or_create_stream
get_or_create_stream-IsValid id s v =
    if_rule (λ (r : Session × Bool). IsValid r.0) (has id s.streams) (λ e. v)
      λ e.
        if_rule (λ (r : Session × Bool). IsValid r.0) (has id s.closed) (λ f. v)
          λ f. record { apart = λ j h. ground (arith, v.apart j); settled = λ d n. cc }

pub mark_defunct-IsValid : (s : Session) → IsValid s → IsValid (mark_defunct s)
unfolding mark_defunct
mark_defunct-IsValid s v =
    let s' : Session = record s { defunct = true } in
    if_rule IsValid (is_empty s.streams) (λ e. close-Apart s' v.apart)
      (λ e. record { apart = v.apart; settled = λ d n. true≢false (is_empty s.streams) n e })

restamped :
    (now n : ℕ) (s : Session) → IsValid s → IsValid (record s { last_dialed = now; next_id = n })
restamped now n s v = record { apart = v.apart; settled = v.settled }

pub create_stream-IsValid : (now : ℕ) (s : Session) → IsValid s → IsValid (create_stream now s).0
unfolding create_stream
create_stream-IsValid now s v =
    let next = (s.next_id + 1) % 2 ^ 32 in
    let id = (next + 2 ^ 32 - 1) % 2 ^ 32 % 2 ^ 16 in
    let s1 : Session = record s { next_id = next } in
    let s2 = (get_or_create_stream id s1).0 in
    restamped now s2.next_id s2
      (get_or_create_stream-IsValid id s1 (record { apart = v.apart; settled = v.settled }))

-- A closed stream is never handed out again, and asking for it changes nothing.
pub get_or_create_stream-closed :
    (id : ℕ) (s : Session)
    → IsValid s
    → has id s.closed ≡ true
    → get_or_create_stream id s ≡ (s, false)
unfolding get_or_create_stream
get_or_create_stream-closed id s v h = ground (arith, v.apart id)
