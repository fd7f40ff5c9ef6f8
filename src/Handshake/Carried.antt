-- ===== src/Handshake/Carried.antt =====
-- A whole session in one direction: from the client's `startSession` and its `sendLoop` to the
-- server's `startSession` and its `recvLoop`, over one connection.
use plampshade.Base.{
  ℕ, suc, ◌%◌, ◌^◌, ◌≤◌, ◌<◌, ◌≡◌, ◌∙◌, Bool, false, List, [], ◌++◌, Option, none, some, ltb,
  length, map, arith,
}
use plampshade.Wire.{max_session_frame_size}
use plampshade.Session.{on_session_error}
use plampshade.Sender.{ok}
use plampshade.Sender.Loop.{Line, send_loop}
use plampshade.Receiver.{failed, read_full, recv_loop}
use plampshade.Crypto.{returned, CryptoSpec, reversed, overhead, build_client_init_msg}
use plampshade.Crypto.Init
use plampshade.Crypto.Init.{IsOaep, wrapped}
use plampshade.Crypto.Suits.{Crypter, crypter_of, overhead_of}
use plampshade.Link.Turns.{
  Sending, AreSendings, event_of, packets_sent, AcceptsPackets, delivered_packets,
}
use plampshade.Link.Loops.{recv_loop-packet}
use plampshade.Link.Encrypted.{
  Ciphers, AreCiphers, encrypters_of, decrypters_of, Matches-IsInverse, encrypters_of-IsSized,
  Matches-Delivers,
}
use plampshade.Listener.{Opts, is_old, do_on_conn, starts_session}
use plampshade.Handshake.{Params, Started, new_session, start_session}
use plampshade.Handshake.Accepted.{IsEncryption, begins}

overhead_of-le : (c : Crypter) → overhead_of c ≤ 16
overhead_of-le none = omega arith
overhead_of-le (some g) = omega arith

-- The encryption of packet 0 with the ciphers of a session.
AreCiphers-IsEncryption :
    (ciphers : Ciphers)
    → AreCiphers ciphers
    → IsEncryption
        (λ keys pads. encrypters_of ciphers keys pads 0)
        (λ keys. decrypters_of ciphers keys 0)
AreCiphers-IsEncryption ciphers v = record {
  inverse = λ k l pads m. Matches-IsInverse ciphers k l pads 0 v m;
  sized = λ k pads. (
    overhead_of (crypter_of k.data_encrypt),
    overhead_of-le (crypter_of k.data_encrypt),
    encrypters_of-IsSized ciphers k pads 0 v,
  );
}

-- What the two ends do on the connection, until it ends.
abbrev pub Carries :
    Ciphers
    → Opts
    → (Option ℕ → ℕ)
    → (List ℕ → Bool)
    → (List ℕ → Option (List ℕ))
    → (List ℕ → Option (List ℕ))
    → CryptoSpec
    → Option ℕ
    → ℕ × ℕ
    → Params × Params
    → ℕ × ℕ × ℕ
    → ℕ × ℕ
    → List Sending
    → Line
    → Type 0
Carries ciphers opts age contains encrypt decrypt cs ts (w, p) (at_client, at_server)
      (drawn, now, now') (ping_interval, fuel) sendings line =
    (msg packet : List ℕ) × (client server : Started) × (line' : Line) × (bytes : List ℕ)
    × (build_client_init_msg encrypt w p cs ts ≡ returned msg)
    × (start_session (λ k pads. encrypters_of ciphers k pads 0) at_client cs (some msg) drawn now
        ≡ returned client)
    × (send_loop (encrypters_of ciphers client.keys (ltb 0 at_client.max_padding))
          (overhead cs.cipher_code) ping_interval 1 (map event_of sendings) line
        ≡ ok (line', bytes))
    × (read_full 256 (client.written ++ bytes) ≡ some (msg, packet ++ bytes))
    × ((do_on_conn opts age contains decrypt (some msg)).1
        ≡ starts_session (w % 2 ^ 32) (p % 256) (reversed cs))
    × (start_session (λ k pads. encrypters_of ciphers k pads 0) at_server (reversed cs) none drawn
          now'
        ≡ returned server)
    × (recv_loop (decrypters_of ciphers server.keys) (suc fuel) 0 (packet ++ bytes) server.session
        ≡ failed (
            on_session_error (
              delivered_packets
                (packets_sent (overhead cs.cipher_code) ping_interval line.last_ping sendings)
                (new_session at_server now'))))

-- A client with a crypto spec of a known cipher and the right sizes starts a session and sends
-- valid frames, with paddings of at most 256 bytes. The server reads the init message off the
-- connection. If it is not too old and its key not in the cache, it starts a session with the
-- client's window modulo 2^32 and padding modulo 256, whose `recvLoop` goes over the packet
-- behind the message, decrypts the packets behind that, does what their frames are for, in order,
-- and fails at the end of the connection only, with a round for each packet and two more. No ACK
-- may name a stream that is closed by then, and no echo come to a session without an `emaRTT`.
-- This supposes RSA that decrypts what it encrypted, to
-- messages of 256 bytes, AEADs that open what they sealed and add 16 bytes, and a ChaCha20 that
-- undoes itself.
pub start_session-Carries :
    (ciphers : Ciphers) (opts : Opts) (age : Option ℕ → ℕ) (contains : List ℕ → Bool)
    (encrypt decrypt : List ℕ → Option (List ℕ)) (cs : CryptoSpec) (ts : Option ℕ) (w p : ℕ)
    (at_client at_server : Params) (drawn now now' ping_interval fuel : ℕ) (sendings : List Sending)
    (line : Line)
    → AreCiphers ciphers
    → IsOaep encrypt decrypt
    → ((pt msg : List ℕ) → encrypt pt ≡ some msg → length msg ≡ 256)
    → Init.IsSized cs
    → is_old opts age (wrapped ts) ≡ false
    → contains cs.secret ≡ false
    → drawn < 256
    → length line.session_frame ≡ max_session_frame_size
    → length sendings < fuel
    → AreSendings sendings
    → AcceptsPackets
        (packets_sent (overhead cs.cipher_code) ping_interval line.last_ping sendings)
        (new_session at_server now')
    → Carries ciphers opts age contains encrypt decrypt cs ts
        (w, p)
        (at_client, at_server)
        (drawn, now, now')
        (ping_interval, fuel)
        sendings
        line
start_session-Carries ciphers opts age contains encrypt decrypt cs ts w p at_client at_server drawn
      now now' ping_interval fuel sendings line v oaep sizes sized young unknown hd room few valid
      a =
    let (msg, packet, client, server, ec, m, does) =
      begins (λ k pads. encrypters_of ciphers k pads 0) (λ k. decrypters_of ciphers k 0) opts age
        contains encrypt decrypt cs ts w p at_client at_server drawn now now'
        (AreCiphers-IsEncryption ciphers v) oaep sizes sized young unknown hd in
    let s = new_session at_server now' in
    let (one, other, delivers) =
      Matches-Delivers ciphers cs client server (ltb 0 at_client.max_padding) ping_interval fuel 1
        sendings line s v sized ec m room few valid a in
    let (line', bytes, sent, received) = delivers in
    let (built, starts, split, accepts, starts', matches, first) = does bytes in
    (
      msg,
      packet,
      record { session = new_session at_client now; keys = client; written = msg ++ packet },
      record { session = s; keys = server; written = [] },
      line',
      bytes,
      built,
      starts,
      sent,
      split,
      accepts,
      starts',
      recv_loop-packet (decrypters_of ciphers server) fuel 0 (packet ++ bytes) bytes s s first
          ∙ received,
    )
