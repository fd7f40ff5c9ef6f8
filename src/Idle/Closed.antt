-- ===== src/Idle/Closed.antt =====
-- What the methods of a connection give once it is closed for being idle.
use plampshade.Base.{◌≡◌, Bool, true, false, ◌||◌, List, [], ◌∷◌, none, some, if◌then◌else◌}
use plampshade.Idle.{
  eof, idled_error, IdleConn, IoResult, returned, close, set_deadline, do_read, do_write,
}
use plampshade.Idle.Timer.{Call, reads, writes, closes, sets_deadline, rounds, pauses, step}

-- What a call returns; a close and the setting of a deadline return no number, and a round of a
-- goroutine returns nothing.
abbrev pub reply : Call → IdleConn → IoResult
reply (reads calls b) c = (do_read calls b c).1
reply (writes calls b) c = (do_write calls b c).1
reply closes c = returned 0 (close c).1
reply (sets_deadline t) c = returned 0 (set_deadline t c).1
reply (rounds now case) c = returned 0 none
reply (pauses ticked) c = returned 0 none

unfoldable pub replies : List Call → IdleConn → List IoResult
replies [] c = []
replies (op ∷ ops) c = reply op c ∷ replies ops (step op c)

abbrev pub is_read : Call → Bool
is_read (reads calls b) = true
is_read op = false

-- What a call returns on a connection that idled, by whether there was a read since.
abbrev pub gone : Bool → Call → IoResult
gone was_read (reads calls b) = returned 0 (some (if was_read then idled_error else eof))
gone was_read (writes calls b) = returned 0 (some idled_error)
gone was_read closes = returned 0 (some idled_error)
gone was_read (sets_deadline t) = returned 0 (some idled_error)
gone was_read (rounds now case) = returned 0 none
gone was_read (pauses ticked) = returned 0 none

abbrev pub all_gone : Bool → List Call → List IoResult
all_gone was_read [] = []
all_gone was_read (op ∷ ops) = gone was_read op ∷ all_gone (is_read op || was_read) ops

-- The connection stays idled, and the wrapped one is not closed again.
abbrev StaysGone : Call → IdleConn → IdleConn → Type 0
StaysGone op c d =
    (d.idled ≡ true)
    × (d.has_read_after_idle ≡ (is_read op || c.has_read_after_idle))
    × (d.conn_closes ≡ c.conn_closes)
