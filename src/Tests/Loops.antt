-- ===== src/Tests/Loops.antt =====
-- session.go: two packets from `sendLoop` to `recvLoop`, with the cipher "None".
use plampshade.Base.{none, false, ℕ, ◌≡◌, refl, List, [], ◌∷◌, some, arith}
use plampshade.Idle.{timeout, is_timeout}
use plampshade.Receiver.{read_full}
use plampshade.Receiver.Chunks.{Chunk, got, reader_err, read_chunks, read_chunks-read_full}
use plampshade.Wire.Message.{data_of, ack_of}
use plampshade.Sender.Coalesce.{offers}
use plampshade.Sender.Loop.{Line}
use plampshade.Link.Turns.{AreSendings, Sending}
use plampshade.Tests.Sessions.{busy, frame_buffer}

-- Data with an ACK behind it, and data for another stream.
abbrev pub two_turns : List Sending
two_turns =
    record {
      drawn = 3;
      now = 5;
      clock = 6;
      choices = offers (ack_of 7 1) ∷ [];
      message = data_of 7 (1 ∷ []);
    }
    ∷ (record { drawn = 0; now = 8; clock = 9; choices = []; message = data_of 8 (2 ∷ []) } ∷ [])

pub two_turns-AreSendings : AreSendings two_turns
two_turns-AreSendings = (
  omega arith,
  omega arith,
  ((omega arith, omega arith), tt),
  omega arith,
  (omega arith, omega arith, tt, omega arith, tt),
)

abbrev pub idle_line : Line
idle_line = record { session_frame = frame_buffer; last_ping = 0; session = busy }

-- Three bytes in two chunks, with a timeout in between.
abbrev chunks : List Chunk
chunks =
    record { bytes = 1 ∷ []; err = none; session_closed = false }
    ∷ (record { bytes = []; err = some timeout; session_closed = false }
        ∷ (record { bytes = 2 ∷ (3 ∷ []); err = none; session_closed = false } ∷ []))

read_chunks-read_full_example :
    (b rest : List ℕ) × (read_full 3 (1 ∷ (2 ∷ (3 ∷ []))) ≡ some (b, rest))
    × (read_chunks 3 chunks ≡ got b)
unfolding reader_err is_timeout
read_chunks-read_full_example =
    read_chunks-read_full 3 chunks
      (omega arith, refl, refl, (omega arith, refl, refl, (omega arith, refl, refl, tt)))
      (omega arith) (omega arith)
