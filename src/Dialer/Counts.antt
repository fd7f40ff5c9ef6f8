-- ===== src/Dialer/Counts.antt =====
-- The counts of a dialer through any sequence of dials, redials and started sessions.
use plampshade.Base.{
  ℕ, suc, ◌+◌, ◌≤◌, ◌<◌, ◌≡◌, refl, Bool, true, false, List, [], ◌∷◌, Option, none, some, ltb, leb,
  if_rule, length, length-append, arith, ap,
}
use plampshade.Session.{has}
use plampshade.Dialer.{
  Dialer, new_dialer, new_session, session_started, take_out, deliver, receive_session, redial,
  return_session,
}

pub data Step : Dialer → Dialer → Type 0 where
  receives :
      (allowed : Bool) (s : ℕ) (rest : List ℕ) (d : Dialer)
      → d.live_sessions ≡ s ∷ rest
      → Step d (receive_session allowed s rest d)
  redials : (d : Dialer) → Step d (redial d)
  starts : (o : Option ℕ) (n : ℕ) (d : Dialer) → d.dialing ≡ suc n → Step d (session_started o d)
  delivers : (s : ℕ) (d : Dialer) → has s d.starting ≡ true → Step d (deliver s d)
  returns : (s : ℕ) (d : Dialer) → has s d.taken ≡ true → Step d (return_session s d)

pub data Reachable (max_live_conns : ℕ) : Dialer → Type 0 where
  fresh : Reachable max_live_conns (new_dialer max_live_conns)
  then_step : (d e : Dialer) → Reachable max_live_conns d → Step d e → Reachable max_live_conns e

abbrev pub counted : Dialer → ℕ
counted d = length d.live_sessions + length d.taken + length d.starting

-- Every live session is in one place, every pending one has a goroutine that dials, and there are
-- no more of both than allowed.
pub record IsCounted (max_live_conns : ℕ) (d : Dialer) : Type 0 where
  pub live : d.num_live ≡ counted d
  pub pending : d.num_pending ≡ d.dialing
  pub bounded : d.num_live + d.num_pending ≤ max_live_conns
  pub limit : d.max_live_conns ≡ max_live_conns

length-take_out : (s : ℕ) (xs : List ℕ) → has s xs ≡ true → length (take_out s xs) + 1 ≡ length xs
unfolding take_out
length-take_out s [] h = cc
length-take_out s (x ∷ xs) h = ground (arith, length-take_out s xs)

new_session-IsCounted :
    (max_live_conns cap : ℕ) (d : Dialer)
    → cap ≤ max_live_conns
    → IsCounted max_live_conns d
    → IsCounted max_live_conns (new_session cap d)
unfolding new_session
new_session-IsCounted max_live_conns cap d h c =
    if_rule (IsCounted max_live_conns) (leb cap (d.num_live + d.num_pending)) (λ e. c)
      (λ e. record {
        live = c.live;
        pending = omega (arith, c.pending);
        bounded = ground (arith, c.bounded);
        limit = c.limit;
      })

receive_session-IsCounted :
    (max_live_conns : ℕ) (allowed : Bool) (s : ℕ) (rest : List ℕ) (d : Dialer)
    → 0 < max_live_conns
    → d.live_sessions ≡ s ∷ rest
    → IsCounted max_live_conns d
    → IsCounted max_live_conns (receive_session allowed s rest d)
unfolding receive_session
receive_session-IsCounted max_live_conns true s rest d p h c =
    let l = ap (length {A = ℕ}) h in
    record {
      live = omega (arith, c.live, l);
      pending = c.pending;
      bounded = c.bounded;
      limit = c.limit;
    }
receive_session-IsCounted max_live_conns false s rest d p h c =
    let l = ap (length {A = ℕ}) h in
    new_session-IsCounted max_live_conns 1 _ (omega arith) (record {
      live = omega (arith, c.live, l);
      pending = omega (arith, c.pending);
      bounded = omega (arith, c.bounded);
      limit = c.limit;
    })

return_session-IsCounted :
    (max_live_conns s : ℕ) (d : Dialer)
    → has s d.taken ≡ true
    → IsCounted max_live_conns d
    → IsCounted max_live_conns (return_session s d)
unfolding return_session
return_session-IsCounted max_live_conns s d h c =
    let t = length-take_out s d.taken h in
    if_rule (IsCounted max_live_conns) (ltb 1 d.num_live)
      (λ e. record {
        live = ground (arith, c.live, t);
        pending = omega (arith, c.pending);
        bounded = omega (arith, c.bounded);
        limit = c.limit;
      })
      (λ e. record {
        live = omega (arith, c.live, t, length-append d.live_sessions (s ∷ []));
        pending = omega (arith, c.pending);
        bounded = c.bounded;
        limit = c.limit;
      })

session_started-IsCounted :
    (max_live_conns n : ℕ) (o : Option ℕ) (d : Dialer)
    → d.dialing ≡ suc n
    → IsCounted max_live_conns d
    → IsCounted max_live_conns (session_started o d)
unfolding session_started
session_started-IsCounted max_live_conns n none d h c = record {
  live = c.live;
  pending = omega (arith, c.pending);
  bounded = omega (arith, c.bounded);
  limit = c.limit;
}
session_started-IsCounted max_live_conns n (some s) d h c = record {
  live = omega (arith, c.live);
  pending = omega (arith, c.pending);
  bounded = omega (arith, c.bounded, h);
  limit = c.limit;
}

deliver-IsCounted :
    (max_live_conns s : ℕ) (d : Dialer)
    → has s d.starting ≡ true
    → IsCounted max_live_conns d
    → IsCounted max_live_conns (deliver s d)
unfolding deliver
deliver-IsCounted max_live_conns s d h c = record {
  live =
      omega (arith, c.live, length-take_out s d.starting h, length-append d.live_sessions (s ∷ []));
  pending = omega (arith, c.pending);
  bounded = c.bounded;
  limit = c.limit;
}

Step-IsCounted :
    (max_live_conns : ℕ) (d e : Dialer)
    → 0 < max_live_conns
    → Step d e
    → IsCounted max_live_conns d
    → IsCounted max_live_conns e
unfolding redial
Step-IsCounted max_live_conns _ _ p (receives allowed s rest d h) c =
    receive_session-IsCounted max_live_conns allowed s rest d p h c
Step-IsCounted max_live_conns _ _ p (redials d) c =
    new_session-IsCounted max_live_conns d.max_live_conns d (omega (arith, c.limit)) c
Step-IsCounted max_live_conns _ _ p (starts o n d h) c =
    session_started-IsCounted max_live_conns n o d h c
Step-IsCounted max_live_conns _ _ p (delivers s d h) c = deliver-IsCounted max_live_conns s d h c
Step-IsCounted max_live_conns _ _ p (returns s d h) c =
    return_session-IsCounted max_live_conns s d h c

-- However dials, redials and new sessions interleave, `numLive` is the number of live sessions and
-- `numPending` that of the goroutines that dial one, and together there are at most `maxLiveConns`.
pub Reachable-IsCounted :
    (max_live_conns : ℕ) (d : Dialer)
    → 0 < max_live_conns
    → Reachable max_live_conns d
    → IsCounted max_live_conns d
unfolding new_dialer
Reachable-IsCounted max_live_conns _ p fresh = record {
  live = refl;
  pending = refl;
  bounded = omega arith;
  limit = refl;
}
Reachable-IsCounted max_live_conns _ p (then_step d e r s) =
    Step-IsCounted max_live_conns d e p s (Reachable-IsCounted max_live_conns d p r)

-- The channel of live sessions, whose capacity is `maxLiveConns`, has room for a session that has
-- just started and for one that a dial gives back: `d.liveSessions <- s` does not block.
live_sessions-never_block :
    (max_live_conns s t : ℕ) (d : Dialer)
    → 0 < max_live_conns
    → Reachable max_live_conns d
    → has s d.starting ≡ true
    → has t d.taken ≡ true
    → (length (deliver s d).live_sessions ≤ max_live_conns)
      × (length (return_session t d).live_sessions ≤ max_live_conns)
live_sessions-never_block max_live_conns s t d p r h k =
    let c = Reachable-IsCounted max_live_conns d p r in
    let delivered = deliver-IsCounted max_live_conns s d h c in
    let returned = return_session-IsCounted max_live_conns t d k c in
    (
      omega (arith, delivered.live, delivered.bounded),
      omega (arith, returned.live, returned.bounded),
    )
