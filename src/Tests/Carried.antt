-- ===== src/Tests/Carried.antt =====
-- A whole session at a concrete input: its start, and two packets behind that.
use plampshade.Base.{refl, true, false, some, arith}
use plampshade.Wire.{big_endian, new_header}
use plampshade.Wire.Message.{wire}
use plampshade.Session.{get_or_create_stream}
use plampshade.Sender.Coalesce.{accepted, stays_open}
use plampshade.Receiver.Delivery.{delivered}
use plampshade.Receiver.Loop.{delivered_all}
use plampshade.Crypto.{overhead}
use plampshade.Link.Turns.{packets_sent}
use plampshade.Listener.{is_old}
use plampshade.Handshake.Carried.{Carries, start_session-Carries}
use plampshade.Tests.Encrypted.{zeros_in_front, zeros_in_front-AreCiphers}
use plampshade.Tests.Handshakes.{padded_out, cut_back, padded_out-IsOaep, length-padded_out}
use plampshade.Tests.Inits.{aes_spec, aes_spec-IsSized}
use plampshade.Tests.Loops.{two_turns, two_turns-AreSendings, idle_line}
use plampshade.Tests.Sessions.{length-frame_buffer}

start_session-Carries_example :
    Carries zeros_in_front
      (record { max_client_init_age = 60; caches = true })
      (λ ts. 5)
      (λ k. false)
      padded_out
      cut_back
      aes_spec
      (some 1600000000)
      (1453, 32)
      (
        record { max_padding = 32; ack_on_first = false; tracks_rtt = true; notifies = false },
        record { max_padding = 32; ack_on_first = true; tracks_rtt = false; notifies = true },
      )
      (7, 3, 4)
      (0, 3)
      two_turns
      idle_line
unfolding is_old packets_sent accepted stays_open wire new_header big_endian delivered delivered_all
    get_or_create_stream overhead
start_session-Carries_example =
    start_session-Carries zeros_in_front (record { max_client_init_age = 60; caches = true })
      (λ ts. 5) (λ k. false) padded_out cut_back aes_spec (some 1600000000) 1453 32
      (record { max_padding = 32; ack_on_first = false; tracks_rtt = true; notifies = false })
      (record { max_padding = 32; ack_on_first = true; tracks_rtt = false; notifies = true }) 7 3 4
      0 3 two_turns idle_line zeros_in_front-AreCiphers padded_out-IsOaep length-padded_out
      aes_spec-IsSized refl refl (omega arith) length-frame_buffer (omega arith)
      two_turns-AreSendings ((tt, (refl, tt)), ((tt, tt), tt))
