-- ===== src/Handshake/Accepted.antt =====
-- The first bytes of a connection, from the client's `startSession` to the server's `recvLoop`.
use plampshade.Base.{
  ℕ, ◌+◌, ◌%◌, ◌^◌, ◌≤◌, ◌<◌, ◌≡◌, refl, ap, ◌∙◌, Bool, true, false, List, [], ◌∷◌, ◌++◌,
  append_assoc, Option, none, some, ltb, copy, copy-eq-append, length, length-copy_at, length-take,
  length-drop, length-replicate, take, take-append, drop, replicate, arith, Bool-cases, inl, inr,
}
use plampshade.Wire.{max_session_frame_size, big_endian}
use plampshade.Wire.Message.{wires}
use plampshade.Receiver.Loop.{delivered_all}
use plampshade.Sender.{ok, Crypters}
use plampshade.Sender.Wired
use plampshade.Sender.Wired.{padding, padding-le, write_to_wire-frame}
use plampshade.Sender.Packet.{IsSized}
use plampshade.Receiver.{Decrypters, finished, read_full, receive_session_frame}
use plampshade.Receiver.Delivery.{read_full-append}
use plampshade.Link.{IsInverse, receive_packet}
use plampshade.Crypto.{
  of_option, plain_text, returned, CryptoSpec, reversed, build_client_init_msg,
  decode_client_init_msg,
}
use plampshade.Crypto.Init
use plampshade.Crypto.Init.{IsOaep, wrapped, length-plain_text, decode_plain_text-plain_text}
use plampshade.Crypto.Keys.{Keys, Matches, crypters, crypters-reversed}
use plampshade.Listener.{Opts, is_old, check_decoded, do_on_conn, starts_session}
use plampshade.Handshake.{
  session_frame_buffer, Params, Started, new_session, send_client_init_msg, start_session,
}

length-session_frame_buffer : length session_frame_buffer ≡ max_session_frame_size
unfolding session_frame_buffer
length-session_frame_buffer = length-replicate {A = ℕ} max_session_frame_size 0

length-zero : (xs : List ℕ) → length xs ≡ 0 → xs ≡ []
length-zero [] h = refl
length-zero (x ∷ xs) h = absurd (omega arith)

take-copy :
    (msg buf : List ℕ) (n : ℕ) → length msg ≡ n → n ≤ length buf → take n (copy buf msg) ≡ msg
take-copy msg buf n h k =
    ap (take n) (copy-eq-append buf msg (omega arith)) ∙ take-append n msg (drop (length msg) buf) h

drop-take : (n : ℕ) (xs : List ℕ) → drop n (take (n + 0) xs) ≡ []
drop-take n xs =
    length-zero (drop n (take (n + 0) xs))
      (omega (arith, length-drop n (take (n + 0) xs), length-take (n + 0) xs))

-- The message, and behind it a packet of nothing but padding.
sends_init :
    (c : Crypters) (overhead drawn : ℕ) (msg : List ℕ)
    → IsSized c overhead
    → overhead ≤ 16
    → drawn < 256
    → length msg ≡ 256
    → (l : ℕ) × (let e = c.data_encrypt (replicate l 0) in
        (send_client_init_msg c drawn msg session_frame_buffer
          ≡ ok (msg ++ (c.meta_encrypt (big_endian 2 (length e)) ++ e)))
        × (length e < 65536))
unfolding send_client_init_msg Wired.plain_text
sends_init c overhead drawn msg sized ho hd h =
    let b = copy session_frame_buffer msg in
    let size : length b ≡ 65535 =
      length-copy_at 0 session_frame_buffer msg ∙ length-session_frame_buffer in
    let l = padding c drawn b 258 0 true in
    let e = c.data_encrypt (replicate l 0) in
    let few = padding-le c drawn b 258 0 true in
    let short : length e ≤ 512 =
      omega (arith, sized.data_length (replicate l 0), length-replicate {A = ℕ} l 0) in
    let nothing : Wired.plain_text c drawn b 258 0 true ≡ replicate l 0 =
      ap (λ (x : List ℕ). x ++ replicate l 0) (drop-take 258 b) in
    let fits : 258 + length (c.data_encrypt (Wired.plain_text c drawn b 258 0 true)) ≤ length b =
      rw nothing (omega arith) in
    (
      l,
      (
        write_to_wire-frame c drawn b 258 0 true sized.meta_length (omega arith) (omega arith) fits
            ∙ rw
                (
                  nothing,
                  take-copy msg session_frame_buffer 256 h
                      (omega (arith, length-session_frame_buffer)),
                )
                refl,
        omega arith,
      ),
    )

-- The checks of `doOnConn` let a new message of a new key through.
do_on_conn-starts :
    (opts : Opts) (age : Option ℕ → ℕ) (contains : List ℕ → Bool)
    (decrypt : List ℕ → Option (List ℕ)) (msg : List ℕ) (w p : ℕ) (cs : CryptoSpec) (ts : Option ℕ)
    → decode_client_init_msg decrypt msg ≡ returned (w, p, cs, ts)
    → is_old opts age ts ≡ false
    → contains cs.secret ≡ false
    → (do_on_conn opts age contains decrypt (some msg)).1 ≡ starts_session w p (reversed cs)
unfolding do_on_conn check_decoded
do_on_conn-starts opts age contains decrypt msg w p cs ts e young unknown =
    rw (e, do_on_conn, young, unknown)
      (elim (Bool-cases opts.caches) [ inl c ↦ rw c refl | inr c ↦ rw c refl ])

-- The encryption with the keys of a session, as the program relies on it: what was encrypted with
-- the keys of one end is decrypted with those of the other, and grows by 16 bytes at most.
pub record IsEncryption (encrypters : Keys → Bool → Crypters) (decrypters : Keys → Decrypters)
    : Type 0 where
  pub inverse :
      (k l : Keys) (pads : Bool) → Matches k l → IsInverse (encrypters k pads) (decrypters l)
  pub sized :
      (k : Keys) (pads : Bool)
      → (overhead : ℕ) × (overhead ≤ 16) × IsSized (encrypters k pads) overhead

-- What the two ends do, for a message, the packet behind it and what both start.
abbrev pub Begins :
    (Keys → Bool → Crypters)
    → (Keys → Decrypters)
    → Opts
    → (Option ℕ → ℕ)
    → (List ℕ → Bool)
    → (List ℕ → Option (List ℕ))
    → (List ℕ → Option (List ℕ))
    → CryptoSpec
    → Option ℕ
    → ℕ × ℕ
    → Params × Params
    → ℕ × ℕ × ℕ
    → List ℕ × List ℕ
    → Started × Started
    → List ℕ
    → Type 0
Begins encrypters decrypters opts age contains encrypt decrypt cs ts (w, p) (at_client, at_server)
      (drawn, now, now') (msg, packet) (client, server) rest =
    (build_client_init_msg encrypt w p cs ts ≡ returned msg)
    × (start_session encrypters at_client cs (some msg) drawn now ≡ returned client)
    × (read_full 256 (client.written ++ rest) ≡ some (msg, packet ++ rest))
    × ((do_on_conn opts age contains decrypt (some msg)).1
        ≡ starts_session (w % 2 ^ 32) (p % 256) (reversed cs))
    × (start_session encrypters at_server (reversed cs) none drawn now' ≡ returned server)
    × Matches client.keys server.keys
    × (receive_session_frame (decrypters server.keys) (packet ++ rest) server.session
        ≡ (finished server.session, rest))

abbrev pub Accepts :
    (Keys → Bool → Crypters)
    → (Keys → Decrypters)
    → Opts
    → (Option ℕ → ℕ)
    → (List ℕ → Bool)
    → (List ℕ → Option (List ℕ))
    → (List ℕ → Option (List ℕ))
    → CryptoSpec
    → Option ℕ
    → ℕ × ℕ
    → Params × Params
    → ℕ × ℕ × ℕ
    → List ℕ
    → Type 0
Accepts encrypters decrypters opts age contains encrypt decrypt cs ts sizes ends times rest =
    (msg packet : List ℕ) × (client server : Started) × Begins encrypters decrypters opts age
      contains encrypt decrypt cs ts sizes ends times (msg, packet) (client, server) rest

-- The keys of the two ends, the session of the server, and what they do whatever comes behind the
-- packet.
pub begins :
    (encrypters : Keys → Bool → Crypters) (decrypters : Keys → Decrypters) (opts : Opts)
    (age : Option ℕ → ℕ) (contains : List ℕ → Bool) (encrypt decrypt : List ℕ → Option (List ℕ))
    (cs : CryptoSpec) (ts : Option ℕ) (w p : ℕ) (at_client at_server : Params) (drawn now now' : ℕ)
    → IsEncryption encrypters decrypters
    → IsOaep encrypt decrypt
    → ((pt msg : List ℕ) → encrypt pt ≡ some msg → length msg ≡ 256)
    → Init.IsSized cs
    → is_old opts age (wrapped ts) ≡ false
    → contains cs.secret ≡ false
    → drawn < 256
    → (msg packet : List ℕ) × (client server : Keys) × (crypters cs ≡ returned client)
      × Matches client server
      × ((rest : List ℕ)
          → Begins encrypters decrypters opts age contains encrypt decrypt cs ts
              (w, p)
              (at_client, at_server)
              (drawn, now, now')
              (msg, packet)
              (
                record {
                  session = new_session at_client now;
                  keys = client;
                  written = msg ++ packet;
                },
                record { session = new_session at_server now'; keys = server; written = [] },
              )
              rest)
unfolding build_client_init_msg decode_client_init_msg start_session
begins encrypters decrypters opts age contains encrypt decrypt cs ts w p at_client at_server drawn
      now now' encryption oaep sizes v young unknown hd =
    let (client, server, ec, es, m) = crypters-reversed cs v in
    let (msg, sealed, opened) =
      oaep (plain_text w p cs ts) (omega (arith, length-plain_text w p cs ts v)) in
    let size = sizes (plain_text w p cs ts) msg sealed in
    let decoded : decode_client_init_msg decrypt msg
        ≡ returned (w % 2 ^ 32, p % 256, cs, wrapped ts) =
      rw opened (decode_plain_text-plain_text w p cs ts v) in
    let c = encrypters client (ltb 0 at_client.max_padding) in
    let d = decrypters server in
    let inverse = encryption.inverse client server (ltb 0 at_client.max_padding) m in
    let (overhead, ho, sized) = encryption.sized client (ltb 0 at_client.max_padding) in
    let (l, (sent, fits)) = sends_init c overhead drawn msg sized ho hd size in
    let e = c.data_encrypt (replicate l 0) in
    let packet = c.meta_encrypt (big_endian 2 (length e)) ++ e in
    let session = new_session at_server now' in
    (
      msg,
      packet,
      client,
      server,
      ec,
      m,
      λ rest. (
        ap of_option sealed,
        rw (ec, sent) refl,
        ap (read_full 256) (append_assoc msg packet rest)
            ∙ read_full-append 256 msg (packet ++ rest) size,
        do_on_conn-starts opts age contains decrypt msg (w % 2 ^ 32) (p % 256) cs (wrapped ts)
            decoded young unknown,
        rw es refl,
        m,
        unfold wires delivered_all in
            receive_packet c d [] l rest session inverse sized.meta_length tt tt fits,
      ),
    )

-- A client with a crypto spec of a known cipher and the right sizes starts a session. The server
-- reads the init message off the connection; if that is not too old and its key not in the cache,
-- it starts a session with the client's window modulo 2^32 and padding modulo 256 and keys that
-- match the client's. It takes the packet behind the message, which has padding only, without a
-- change, and is at the first byte behind it. This supposes RSA that decrypts what it encrypted,
-- to messages of 256 bytes, and an encryption of packets as above.
pub start_session-Accepts :
    (encrypters : Keys → Bool → Crypters) (decrypters : Keys → Decrypters) (opts : Opts)
    (age : Option ℕ → ℕ) (contains : List ℕ → Bool) (encrypt decrypt : List ℕ → Option (List ℕ))
    (cs : CryptoSpec) (ts : Option ℕ) (w p : ℕ) (at_client at_server : Params) (drawn now now' : ℕ)
    (rest : List ℕ)
    → IsEncryption encrypters decrypters
    → IsOaep encrypt decrypt
    → ((pt msg : List ℕ) → encrypt pt ≡ some msg → length msg ≡ 256)
    → Init.IsSized cs
    → is_old opts age (wrapped ts) ≡ false
    → contains cs.secret ≡ false
    → drawn < 256
    → Accepts encrypters decrypters opts age contains encrypt decrypt cs ts
        (w, p)
        (at_client, at_server)
        (drawn, now, now')
        rest
start_session-Accepts encrypters decrypters opts age contains encrypt decrypt cs ts w p at_client
      at_server drawn now now' rest encryption oaep sizes v young unknown hd =
    let (msg, packet, client, server, ec, m, does) =
      begins encrypters decrypters opts age contains encrypt decrypt cs ts w p at_client at_server
        drawn now now' encryption oaep sizes v young unknown hd in
    (
      msg,
      packet,
      record { session = new_session at_client now; keys = client; written = msg ++ packet },
      record { session = new_session at_server now'; keys = server; written = [] },
      does rest,
    )
