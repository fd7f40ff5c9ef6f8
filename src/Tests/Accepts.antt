-- ===== src/Tests/Accepts.antt =====
-- The listener with one stream: after a `Close` and the end of its loop two calls of `Accept` fail, and the
-- next one blocks.
use plampshade.Base.{◌+◌, ◌≡◌, ◌↔◌, true, false, List, [], ◌∷◌, ◌++◌, length}
use plampshade.Listener.Accepting.{
  no_senders, blocked, Event, offers, fails, closes, accepts, accept, run,
}
use plampshade.Listener.Accounts.{streams_of, errors_of, run-accounted}

abbrev events : List Event
events =
    offers 7
    ∷ (closes ∷ (fails ∷ (accepts true ∷ (accepts true ∷ (accepts false ∷ (accepts true ∷ []))))))

run-accounted_example :
    let (l, answers) = run events no_senders in
    (streams_of answers ++ l.conn_ch ≡ 7 ∷ [])
    × (length (errors_of answers) + length l.err_ch ≡ 2)
    × (((accept true l).1 ≡ blocked) ↔ ((l.conn_ch ≡ []) × (l.err_ch ≡ [])))
run-accounted_example = run-accounted events true
