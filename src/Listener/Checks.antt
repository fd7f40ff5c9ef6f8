-- ===== src/Listener/Checks.antt =====
-- listener.go: replays of a client init message, and the sleeps of the accept loop.
use plampshade.Base.{
  ◌∷◌, ℕ, ◌≤◌, ◌<◌, ◌≡◌, refl, Bool, true, List, [], Option, some, if_rule, true≢false, arith, All,
}
use plampshade.Crypto.{returned, CryptoSpec, reversed, decode_client_init_msg}
use plampshade.Listener.{
  Accepted, conn, temporary, permanent, process, OnConn, fails, starts_session, Opts, is_old,
  check_decoded, do_on_conn, back_off, second,
}

-- A cache that holds at least the keys of a list.
abbrev pub Holds : (List ℕ → Bool) → List (List ℕ) → Type 0
Holds contains keys = All (λ k. contains k ≡ true) keys

check_decoded-replayed :
    (opts : Opts) (age later : Option ℕ → ℕ) (contains contains' : List ℕ → Bool)
    → (w p : ℕ) (cs : CryptoSpec) (ts : Option ℕ) → opts.caches ≡ true
    → Holds contains' ((check_decoded opts age contains (w, p, cs, ts)).0)
    → (check_decoded opts age contains (w, p, cs, ts)).1 ≡ starts_session w p (reversed cs)
    → check_decoded opts later contains' (w, p, cs, ts) ≡ ([], fails)
unfolding check_decoded
check_decoded-replayed opts age later contains contains' w p cs ts h =
    let P : List (List ℕ) × OnConn → Type 0 = λ r.
      Holds contains' r.0
      → r.1 ≡ starts_session w p (reversed cs)
      → check_decoded opts later contains' (w, p, cs, ts) ≡ ([], fails) in
    let Q : List (List ℕ) × OnConn → Type 0 = λ r. r ≡ ([], fails) in
    if_rule P (is_old opts age ts) (λ e q started. cc)
      (λ e.
        if_rule P opts.caches
          (λ c.
            if_rule P (contains cs.secret) (λ f q started. cc)
              (λ f (q, rest) started.
                if_rule Q (is_old opts later ts) (λ o. refl)
                  (λ o.
                    if_rule Q opts.caches
                      (λ c. if_rule Q (contains' cs.secret) (λ k. refl) (λ k. true≢false _ q k))
                      (λ c. true≢false opts.caches h c))))
          (λ c q started. true≢false opts.caches h c))

-- With a cache of keys, a message that started a session starts no other one at any later time, if
-- the cache still holds the keys that were added.
pub do_on_conn-replayed :
    (opts : Opts) (age later : Option ℕ → ℕ) (contains contains' : List ℕ → Bool)
    → (decrypt : List ℕ → Option (List ℕ)) (msg : List ℕ) (w p : ℕ) (cs : CryptoSpec)
    → (ts : Option ℕ) → opts.caches ≡ true
    → decode_client_init_msg decrypt msg ≡ returned (w, p, cs, ts)
    → Holds contains' ((do_on_conn opts age contains decrypt (some msg)).0)
    → (do_on_conn opts age contains decrypt (some msg)).1 ≡ starts_session w p (reversed cs)
    → do_on_conn opts later contains' decrypt (some msg) ≡ ([], fails)
unfolding do_on_conn
do_on_conn-replayed opts age later contains contains' decrypt msg w p cs ts h e q started =
    rw (e, do_on_conn)
      (check_decoded-replayed opts age later contains contains' w p cs ts h
        (rw (e, do_on_conn) at q) (rw (e, do_on_conn) at started))

-- Delays after temporary errors are at most a second, and above zero.
back_off-le : (delay : ℕ) → (0 < back_off delay) × (back_off delay ≤ second)
unfolding back_off
back_off-le delay = ground arith

-- Each time it fails to accept for a while, the listener sleeps, for a second at most.
process-sleeps :
    (results : List Accepted) (delay : ℕ)
    → All (λ d. (0 < d) × (d ≤ second)) (process results delay).1
unfolding process
process-sleeps [] delay = tt
process-sleeps (conn c ∷ results) delay = process-sleeps results 0
process-sleeps (temporary ∷ results) delay =
    (back_off-le delay, process-sleeps results (back_off delay))
process-sleeps (permanent ∷ results) delay = tt
