-- ===== src/Transfer.antt =====
-- A stream from one end of a session to the other: stream.go, sendbuffer.go, session.go and
-- receive_buffer.go together. What the user of the receiving end does, and what the session does
-- to the stream, is a list of acts in any order.
pub mod Ended
pub mod Acts
pub mod Inbox
pub mod EndToEnd
use plampshade.Base.{Bool, true, false, not, ◌&&◌, ℕ, ◌≡◌, List, [], ◌∷◌, ◌++◌, Option, none, some}
use plampshade.Flow.{
  ReceiveBuffer, do_submit, Wait, arrives, ends, ReadError, no_error, eof, timeout, read,
}
use plampshade.Stream.{WriteError}
use plampshade.Stream.Reads.{End, ReadErr, of_buffer, final, close_end, close_own, read_stream}

pub data Act : Type 0 where
  -- `c.rb.submit` of `recvLoop`.
  delivers : List ℕ → Act
  -- `c.close(false, nil, nil)` of `recvLoop`.
  peer_closes : Act
  own_closes : Act
  -- `Read`, with what it meets.
  reads : Bool → List Wait → Bool → ℕ → Act

-- The stream, the frames that its buffer took, the bytes that were read, and whether a read has
-- told of the end.
pub record Reader : Type 0 where
  pub end : End
  pub taken : List (List ℕ)
  pub out : List ℕ
  pub told_eof : Bool

abbrev pub frames_of : List Wait → List (List ℕ)
frames_of [] = []
frames_of (arrives f fs past ∷ waits) = (f ∷ fs) ++ frames_of waits
frames_of (ends ∷ waits) = frames_of waits

abbrev pub is_eof : ReadErr → Bool
is_eof (of_buffer eof) = true
is_eof (of_buffer no_error) = false
is_eof (of_buffer timeout) = false
is_eof (final e) = false

-- The frames that came while a read waited; a read after `Close` does not wait.
abbrev pub came : Option WriteError → List Wait → List (List ℕ)
came none waits = frames_of waits
came (some e) waits = []

-- The frame that a submit leaves in the buffer.
abbrev pub kept : List ℕ → ReceiveBuffer → List (List ℕ)
kept frame buf = elim (not buf.is_closed && (do_submit frame buf).1) [
  | true ↦ frame ∷ []
  | false ↦ []
]

unfoldable pub act : Act → Reader → Reader
act (delivers frame) r = record r {
  end = record r.end { rb = (do_submit frame r.end.rb).0 };
  taken = r.taken ++ kept frame r.end.rb;
}
act peer_closes r = record r { end = close_end false none none r.end }
act own_closes r = record r { end = close_own r.end }
act (reads picks_ack waits past room) r =
    let (out, err, buf) = read_stream picks_ack waits past room r.end in
    record {
      end = record r.end { rb = buf };
      taken = r.taken ++ came r.end.stream.final_read_err waits;
      out = r.out ++ out;
      told_eof = (elim (is_eof err) [ true ↦ true | false ↦ r.told_eof ]);
    }

unfoldable pub play : List Act → Reader → Reader
play [] r = r
play (a ∷ acts) r = play acts (act a r)

-- Each read meets no more than it waits for.
abbrev pub Waits : Act → Reader → Type 0
Waits (delivers frame) r = Unit {0}
Waits peer_closes r = Unit {0}
Waits own_closes r = Unit {0}
Waits (reads picks_ack waits past room) r = (read picks_ack waits past room r.end.rb).unused ≡ []

abbrev pub AllWait : List Act → Reader → Type 0
AllWait [] r = Unit {0}
AllWait (a ∷ acts) r = Waits a r × AllWait acts (act a r)
