-- ===== src/Listener/Accepting.antt =====
-- listener.go: `Accept` and `Close` with the channels `connCh` and `errCh`. Neither channel has a buffer,
-- so each is the list of the goroutines that wait to send, in their order: sessions with a stream,
-- the goroutines of `Close`, and `process` with the error at which it ends.
use plampshade.Base.{ℕ, Bool, true, false, List, [], ◌∷◌, ◌++◌, if◌then◌else◌}

pub data ListenerError : Type 0 where
  -- `ErrListenerClosed`
  listener_closed : ListenerError
  accept_failed : ListenerError

pub record Channels : Type 0 where
  pub conn_ch : List ℕ
  pub err_ch : List ListenerError
  -- Whether the loop of `process` runs.
  pub processing : Bool

abbrev pub no_senders : Channels
no_senders = record { conn_ch = []; err_ch = []; processing = true }

pub data Answer : Type 0 where
  stream : ℕ → Answer
  failed : ListenerError → Answer
  blocked : Answer

-- A session hands over a stream; the wrapped listener fails for good; `Close`; and `Accept`, by the
-- channel that its `select` takes where both are ready.
pub data Event : Type 0 where
  offers : ℕ → Event
  fails : Event
  closes : Event
  accepts : Bool → Event

unfoldable pub close : Channels → Channels
close l = record l { err_ch = l.err_ch ++ (listener_closed ∷ []) }

-- The end of `process`, which runs at most once.
unfoldable pub end_process : Channels → Channels
end_process l =
    if l.processing
    then record l { err_ch = l.err_ch ++ (accept_failed ∷ []); processing = false }
    else l

unfoldable pub accept_from : Bool → List ℕ → List ListenerError → Channels → Channels × Answer
accept_from picks_conn [] [] l = (l, blocked)
accept_from picks_conn (c ∷ cs) [] l = (record l { conn_ch = cs }, stream c)
accept_from picks_conn [] (e ∷ es) l = (record l { err_ch = es }, failed e)
accept_from true (c ∷ cs) (e ∷ es) l = (record l { conn_ch = cs }, stream c)
accept_from false (c ∷ cs) (e ∷ es) l = (record l { err_ch = es }, failed e)

unfoldable pub accept : Bool → Channels → Channels × Answer
accept picks_conn l = accept_from picks_conn l.conn_ch l.err_ch l

-- The answers of the calls of `Accept`, in their order.
unfoldable pub run : List Event → Channels → Channels × List Answer
run [] l = (l, [])
run (offers c ∷ es) l = run es (record l { conn_ch = l.conn_ch ++ (c ∷ []) })
run (fails ∷ es) l = run es (end_process l)
run (closes ∷ es) l = run es (close l)
run (accepts picks_conn ∷ es) l =
    let (l', a) = accept picks_conn l in let (l'', rest) = run es l' in (l'', a ∷ rest)
