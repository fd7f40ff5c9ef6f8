-- ===== src/Listener/Accounts.antt =====
-- listener.go: every stream is accepted once, in turn, and each error is returned once.
use plampshade.Base.{
  ℕ, suc, ◌+◌, ◌≡◌, ◌↔◌, refl, sym, ap, ap₂, ◌∙◌, Bool, true, false, List, [], ◌∷◌, ◌++◌,
  append-nil, append_assoc, length, length-append, if◌then◌else◌, arith,
}
use plampshade.Listener.Accepting.{
  ListenerError, listener_closed, accept_failed, Channels, no_senders, Answer, stream, failed,
  blocked, Event, offers, fails, closes, accepts, close, end_process, accept_from, accept, run,
}

abbrev pub streams_of : List Answer → List ℕ
streams_of [] = []
streams_of (stream c ∷ rest) = c ∷ streams_of rest
streams_of (failed e ∷ rest) = streams_of rest
streams_of (blocked ∷ rest) = streams_of rest

abbrev pub errors_of : List Answer → List ListenerError
errors_of [] = []
errors_of (stream c ∷ rest) = errors_of rest
errors_of (failed e ∷ rest) = e ∷ errors_of rest
errors_of (blocked ∷ rest) = errors_of rest

-- The streams that sessions hand over, and the errors that are raised while `process` runs or not.
abbrev pub offered : List Event → List ℕ
offered [] = []
offered (offers c ∷ es) = c ∷ offered es
offered (fails ∷ es) = offered es
offered (closes ∷ es) = offered es
offered (accepts b ∷ es) = offered es

abbrev pub raised : Bool → List Event → List ListenerError
raised p [] = []
raised p (offers c ∷ es) = raised p es
raised true (fails ∷ es) = accept_failed ∷ raised false es
raised false (fails ∷ es) = raised false es
raised p (closes ∷ es) = listener_closed ∷ raised p es
raised p (accepts b ∷ es) = raised p es

abbrev pub close_calls : List Event → ℕ
close_calls [] = 0
close_calls (offers c ∷ es) = close_calls es
close_calls (fails ∷ es) = close_calls es
close_calls (closes ∷ es) = suc (close_calls es)
close_calls (accepts b ∷ es) = close_calls es

-- Whether the wrapped listener fails, which ends `process`.
abbrev pub ends : List Event → Bool
ends [] = false
ends (offers c ∷ es) = ends es
ends (fails ∷ es) = true
ends (closes ∷ es) = ends es
ends (accepts b ∷ es) = ends es

length-raised_after : (es : List Event) → length (raised false es) ≡ close_calls es
length-raised_after [] = refl
length-raised_after (offers c ∷ es) = length-raised_after es
length-raised_after (fails ∷ es) = length-raised_after es
length-raised_after (closes ∷ es) = ap suc (length-raised_after es)
length-raised_after (accepts b ∷ es) = length-raised_after es

length-raised :
    (es : List Event) → length (raised true es) ≡ close_calls es + (if ends es then 1 else 0)
length-raised [] = refl
length-raised (offers c ∷ es) = length-raised es
length-raised (fails ∷ es) = omega (arith, length-raised_after es)
length-raised (closes ∷ es) = omega (arith, length-raised es)
length-raised (accepts b ∷ es) = length-raised es

-- What one `Accept` takes is the next of what waited, and it waits only where nothing did.
abbrev Takes : Channels → Channels × Answer → Type 0
Takes l (l', a) =
    (streams_of (a ∷ []) ++ l'.conn_ch ≡ l.conn_ch)
    × (errors_of (a ∷ []) ++ l'.err_ch ≡ l.err_ch)
    × (l'.processing ≡ l.processing)

accept_from-Takes :
    (b : Bool) (cs : List ℕ) (es : List ListenerError) (l : Channels)
    → l.conn_ch ≡ cs
    → l.err_ch ≡ es
    → Takes l (accept_from b cs es l)
unfolding accept_from
accept_from-Takes b [] [] l h k = (refl, refl, refl)
accept_from-Takes b (c ∷ cs) [] l h k = (sym h, refl, refl)
accept_from-Takes b [] (e ∷ es) l h k = (refl, sym k, refl)
accept_from-Takes true (c ∷ cs) (e ∷ es) l h k = (sym h, refl, refl)
accept_from-Takes false (c ∷ cs) (e ∷ es) l h k = (refl, sym k, refl)

streams_of-cons :
    (a : Answer) (rest : List Answer)
    → streams_of (a ∷ rest) ≡ streams_of (a ∷ []) ++ streams_of rest
streams_of-cons (stream c) rest = refl
streams_of-cons (failed e) rest = refl
streams_of-cons blocked rest = refl

errors_of-cons :
    (a : Answer) (rest : List Answer) → errors_of (a ∷ rest) ≡ errors_of (a ∷ []) ++ errors_of rest
errors_of-cons (stream c) rest = refl
errors_of-cons (failed e) rest = refl
errors_of-cons blocked rest = refl

abbrev Accounts : List Event → Channels → Channels × List Answer → Type 0
Accounts es l (l', answers) =
    (streams_of answers ++ l'.conn_ch ≡ l.conn_ch ++ offered es)
    × (errors_of answers ++ l'.err_ch ≡ l.err_ch ++ raised l.processing es)

fails-Accounts :
    (es : List Event) (cs : List ℕ) (errs : List ListenerError) (p : Bool)
    → (r : Channels × List Answer)
    → let l : Channels = record { conn_ch = cs; err_ch = errs; processing = p } in
      Accounts es (end_process l) r → Accounts (fails ∷ es) l r
unfolding end_process
fails-Accounts es cs errs true r (s, e) =
    (s, e ∙ append_assoc errs (accept_failed ∷ []) (raised false es))
fails-Accounts es cs errs false r h = h

accepts-Accounts :
    (es : List Event) (b : Bool) (l l' : Channels) (a : Answer) (r : Channels × List Answer)
    → Takes l (l', a)
    → Accounts es l' r
    → Accounts (accepts b ∷ es) l (r.0, a ∷ r.1)
accepts-Accounts es b l l' a r (t, f, p) (s, e) = (
  ap (λ x. x ++ r.0.conn_ch) (streams_of-cons a r.1)
      ∙ append_assoc (streams_of (a ∷ [])) (streams_of r.1) r.0.conn_ch
      ∙ ap (λ x. streams_of (a ∷ []) ++ x) s
      ∙ sym (append_assoc (streams_of (a ∷ [])) l'.conn_ch (offered es))
      ∙ ap (λ x. x ++ offered es) t,
  ap (λ x. x ++ r.0.err_ch) (errors_of-cons a r.1)
      ∙ append_assoc (errors_of (a ∷ [])) (errors_of r.1) r.0.err_ch
      ∙ ap (λ x. errors_of (a ∷ []) ++ x) e
      ∙ sym (append_assoc (errors_of (a ∷ [])) l'.err_ch (raised l'.processing es))
      ∙ ap₂ (λ x q. x ++ raised q es) f p,
)

run-Accounts : (es : List Event) (l : Channels) → Accounts es l (run es l)
unfolding run accept close
run-Accounts [] l = (sym (append-nil l.conn_ch), sym (append-nil l.err_ch))
run-Accounts (offers c ∷ es) l =
    let (s, e) = run-Accounts es (record l { conn_ch = l.conn_ch ++ (c ∷ []) }) in
    (s ∙ append_assoc l.conn_ch (c ∷ []) (offered es), e)
run-Accounts (fails ∷ es) l =
    fails-Accounts es l.conn_ch l.err_ch l.processing (run es (end_process l))
      (run-Accounts es (end_process l))
run-Accounts (closes ∷ es) l =
    let (s, e) = run-Accounts es (close l) in
    (s, e ∙ append_assoc l.err_ch (listener_closed ∷ []) (raised l.processing es))
run-Accounts (accepts b ∷ es) l =
    let (l', a) = accept b l in
    accepts-Accounts es b l l' a (run es l') (accept_from-Takes b l.conn_ch l.err_ch l refl refl)
      (run-Accounts es l')

accept_from-blocked :
    (b : Bool) (cs : List ℕ) (es : List ListenerError) (l : Channels)
    → ((accept_from b cs es l).1 ≡ blocked) ↔ ((cs ≡ []) × (es ≡ []))
unfolding accept_from
accept_from-blocked b [] [] l = (λ h. (refl, refl), λ h. refl)
accept_from-blocked b (c ∷ cs) [] l = (λ h. cc, λ h. cc)
accept_from-blocked b [] (e ∷ es) l = (λ h. cc, λ h. cc)
accept_from-blocked true (c ∷ cs) (e ∷ es) l = (λ h. cc, λ h. cc)
accept_from-blocked false (c ∷ cs) (e ∷ es) l = (λ h. cc, λ h. cc)

-- A new listener, through any sequence of streams, calls of `Accept` and `Close` and an end of its
-- loop: the streams that `Accept` returned, and behind them those that still wait, are just those
-- that sessions handed over, in their order. The errors that it returned, and those that still wait,
-- are as many as the calls of `Close`, and one more if the loop has ended. The next `Accept` blocks
-- just where no stream and no error waits, whether the listener was closed or not.
pub run-accounted :
    (es : List Event) (picks_conn : Bool)
    → let (l, answers) = run es no_senders in
      (streams_of answers ++ l.conn_ch ≡ offered es)
      × (length (errors_of answers) + length l.err_ch ≡ close_calls es + (if ends es then 1 else 0))
      × (((accept picks_conn l).1 ≡ blocked) ↔ ((l.conn_ch ≡ []) × (l.err_ch ≡ [])))
unfolding accept
run-accounted es picks_conn =
    let (l, answers) = run es no_senders in
    let (s, e) = run-Accounts es no_senders in
    (
      s,
      sym (length-append (errors_of answers) l.err_ch) ∙ ap length e ∙ length-raised es,
      accept_from-blocked picks_conn l.conn_ch l.err_ch l,
    )
