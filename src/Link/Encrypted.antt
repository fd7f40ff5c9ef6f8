-- ===== src/Link/Encrypted.antt =====
-- A session from its crypto spec on: the keys of both ends, the state of their ciphers packet by
-- packet, and the packets of one direction.
use mathlib.Core.Path.{subst}
use plampshade.Base.{
  ℕ, zero, suc, ◌+◌, ◌≤◌, ◌<◌, ◌≡◌, refl, ap, ◌∙◌, Bool, List, [], Option, none, some, length,
  arith,
}
use plampshade.Wire.{max_session_frame_size}
use plampshade.Session.{Session}
use plampshade.Sender.{Crypters}
use plampshade.Sender.Packet.{IsSized}
use plampshade.Sender.Loop.{Line}
use plampshade.Receiver.{Decrypters}
use plampshade.Crypto.Init
use plampshade.Crypto.{returned, CryptoSpec, reversed, overhead}
use plampshade.Crypto.Keys.{Aead, Keys, Matches, crypters, crypters-reversed}
use plampshade.Crypto.Nonce.{start_nonces, nonce}
use plampshade.Crypto.Suits.{
  crypter_of, Crypter, Suits, IfReturned, overhead_of, crypters-IfReturned, start_nonces-returns,
}
use plampshade.Crypto.Channel.{Primitives, Unseals, encrypt, decrypt}
use plampshade.Link.{IsInverse}
use plampshade.Link.Turns.{Sending, AreSendings, packets_sent, AcceptsPackets}
use plampshade.Link.Loops.{Delivers, recv_loop-send_loop}

-- The AEADs, and ChaCha20: what it makes of the length of the packet with this number, by key and
-- vector.
pub record Ciphers : Type 0 where
  pub lib : Primitives
  pub keystream : List ℕ → List ℕ → ℕ → List ℕ → List ℕ

-- The AEADs open what they sealed, and add 16 bytes; ChaCha20 undoes itself and adds none.
pub record AreCiphers (c : Ciphers) : Type 0 where
  pub unseals : Unseals c.lib
  pub seal_length : (a : Aead) (n p : List ℕ) → length (c.lib.seal a n p) ≡ length p + 16
  pub keystream_twice :
      (key iv : List ℕ) (k : ℕ) (b : List ℕ) → c.keystream key iv k (c.keystream key iv k b) ≡ b
  pub keystream_length :
      (key iv : List ℕ) (k : ℕ) (b : List ℕ) → length (c.keystream key iv k b) ≡ length b

-- The next state of an encrypter and of a decrypter, which is that after any packet.
abbrev pub encrypted : Primitives → Crypter → Crypter
encrypted lib c = (encrypt lib c []).1

abbrev pub decrypted : Primitives → Crypter → Crypter
decrypted lib c = (decrypt lib c []).1

crypt-any :
    (lib : Primitives) (c : Crypter) (x : List ℕ)
    → ((encrypt lib c x).1 ≡ encrypted lib c) × ((decrypt lib c x).1 ≡ decrypted lib c)
unfolding encrypt decrypt
crypt-any lib none x = (refl, refl)
crypt-any lib (some (aead, g)) x = (refl, refl)

-- A crypter after so many packets.
unfoldable pub after : (Crypter → Crypter) → ℕ → Crypter → Crypter
after next zero c = c
after next (suc k) c = after next k (next c)

decrypted-encrypted : (lib : Primitives) (c : Crypter) → decrypted lib c ≡ encrypted lib c
unfolding encrypt decrypt
decrypted-encrypted lib none = refl
decrypted-encrypted lib (some (aead, g)) = refl

after-decrypted :
    (lib : Primitives) (k : ℕ) (c : Crypter) → after (decrypted lib) k c ≡ after (encrypted lib) k c
unfolding after
after-decrypted lib zero c = refl
after-decrypted lib (suc k) c =
    ap (after (decrypted lib) k) (decrypted-encrypted lib c)
    ∙ after-decrypted lib k (encrypted lib c)

unfoldable pub crypt_length : Ciphers → Option (List ℕ × List ℕ) → ℕ → List ℕ → List ℕ
crypt_length ciphers none k b = b
crypt_length ciphers (some (key, iv)) k b = ciphers.keystream key iv k b

-- What `writeToWire` and `recvLoop` do with the packet of this number.
abbrev pub encrypters_at : Ciphers → Bool → Option (List ℕ × List ℕ) → Crypter → ℕ → Crypters
encrypters_at ciphers pads meta c k = record {
  padding_enabled = pads;
  data_encrypt = λ x. (encrypt ciphers.lib (after (encrypted ciphers.lib) k c) x).0;
  meta_encrypt = crypt_length ciphers meta k;
}

abbrev pub decrypters_at : Ciphers → Option (List ℕ × List ℕ) → Crypter → ℕ → Decrypters
decrypters_at ciphers meta c k = record {
  meta_decrypt = crypt_length ciphers meta k;
  data_decrypt = λ x. (decrypt ciphers.lib (after (decrypted ciphers.lib) k c) x).0;
}

decrypt-encrypt :
    (lib : Primitives) (c : Crypter) (x : List ℕ)
    → Unseals lib
    → (decrypt lib c (encrypt lib c x).0).0 ≡ some x
unfolding encrypt decrypt
decrypt-encrypt lib none x u = refl
decrypt-encrypt lib (some (aead, g)) x u = u aead (nonce lib.xor_bytes g).0 x

crypt_length-crypt_length :
    (ciphers : Ciphers) (meta : Option (List ℕ × List ℕ)) (k : ℕ) (b : List ℕ)
    → AreCiphers ciphers
    → (crypt_length ciphers meta k (crypt_length ciphers meta k b) ≡ b)
      × (length (crypt_length ciphers meta k b) ≡ length b)
unfolding crypt_length
crypt_length-crypt_length ciphers none k b v = (refl, refl)
crypt_length-crypt_length ciphers (some (key, iv)) k b v =
    (v.keystream_twice key iv k b, v.keystream_length key iv k b)

overhead_of-after :
    (lib : Primitives) (k : ℕ) (c : Crypter)
    → overhead_of (after (encrypted lib) k c) ≡ overhead_of c
unfolding after encrypt
overhead_of-after lib zero c = refl
overhead_of-after lib (suc k) none = overhead_of-after lib k none
overhead_of-after lib (suc k) (some (aead, g)) =
    overhead_of-after lib k (some (aead, (nonce lib.xor_bytes g).1))

length-encrypt :
    (ciphers : Ciphers) (c : Crypter) (x : List ℕ)
    → AreCiphers ciphers
    → length (encrypt ciphers.lib c x).0 ≡ length x + overhead_of c
unfolding encrypt
length-encrypt ciphers none x v = omega arith
length-encrypt ciphers (some (aead, g)) x v = v.seal_length aead (nonce ciphers.lib.xor_bytes g).0 x

overhead-le : (code : ℕ) → overhead code ≤ 16
unfolding overhead
overhead-le code = ground arith

-- The encryption with the keys of a session, as both ends start it.
abbrev pub encrypters_of : Ciphers → Keys → Bool → ℕ → Crypters
encrypters_of ciphers keys pads k =
    encrypters_at ciphers pads keys.meta_encrypt (crypter_of keys.data_encrypt) k

abbrev pub decrypters_of : Ciphers → Keys → ℕ → Decrypters
decrypters_of ciphers keys k =
    decrypters_at ciphers keys.meta_decrypt (crypter_of keys.data_decrypt) k

pub Matches-IsInverse :
    (ciphers : Ciphers) (client server : Keys) (pads : Bool) (i : ℕ)
    → AreCiphers ciphers
    → Matches client server
    → IsInverse (encrypters_of ciphers client pads i) (decrypters_of ciphers server i)
Matches-IsInverse ciphers client server pads i v m =
    let lib = ciphers.lib in
    let c = crypter_of client.data_encrypt in
    record {
      opens = λ x.
          ap
            (λ k.
              (decrypt lib (after (decrypted lib) i (crypter_of k))
                (encrypt lib (after (encrypted lib) i c) x).0).0)
            m.data_up
          ∙ ap (λ e. (decrypt lib e (encrypt lib (after (encrypted lib) i c) x).0).0)
              (after-decrypted lib i c)
          ∙ decrypt-encrypt lib (after (encrypted lib) i c) x v.unseals;
      reads_length = λ x.
          ap (λ meta. crypt_length ciphers meta i (crypt_length ciphers client.meta_encrypt i x))
            m.meta_up
          ∙ (crypt_length-crypt_length ciphers client.meta_encrypt i x v).0;
    }

pub encrypters_of-IsSized :
    (ciphers : Ciphers) (keys : Keys) (pads : Bool) (i : ℕ)
    → AreCiphers ciphers
    → IsSized (encrypters_of ciphers keys pads i) (overhead_of (crypter_of keys.data_encrypt))
encrypters_of-IsSized ciphers keys pads i v =
    let lib = ciphers.lib in
    let c = crypter_of keys.data_encrypt in
    record {
      data_length = λ x.
          length-encrypt ciphers (after (encrypted lib) i c) x v
          ∙ ap (λ n. length x + n) (overhead_of-after lib i c);
      meta_length = λ x. (crypt_length-crypt_length ciphers keys.meta_encrypt i x v).1;
    }

-- The ciphers of both ends start, and start alike.
pub Matches-Delivers :
    (ciphers : Ciphers) (cs : CryptoSpec) (client server : Keys) (pads : Bool)
    (ping_interval fuel k : ℕ) (ts : List Sending) (line : Line) (s : Session)
    → AreCiphers ciphers
    → Init.IsSized cs
    → crypters cs ≡ returned client
    → Matches client server
    → length line.session_frame ≡ max_session_frame_size
    → length ts < fuel
    → AreSendings ts
    → AcceptsPackets (packets_sent (overhead cs.cipher_code) ping_interval line.last_ping ts) s
    → (start_nonces client.data_encrypt ≡ returned (crypter_of client.data_encrypt))
      × (start_nonces server.data_decrypt ≡ returned (crypter_of client.data_encrypt))
      × Delivers
          (encrypters_of ciphers client pads)
          (decrypters_of ciphers server)
          (overhead cs.cipher_code)
          ping_interval
          fuel
          k
          ts
          line
          s
Matches-Delivers ciphers cs client server pads ping_interval fuel k ts line s v sized ec m room few
      valid a =
    let (suits, _) =
      subst
        (IfReturned
          (λ ks. Suits cs.cipher_code ks.data_encrypt × Suits cs.cipher_code ks.data_decrypt))
        ec (crypters-IfReturned cs sized) in
    let (started, adds) = start_nonces-returns cs.cipher_code client.data_encrypt suits in
    (
      started,
      ap start_nonces m.data_up ∙ started,
      recv_loop-send_loop (encrypters_of ciphers client pads) (decrypters_of ciphers server)
          (overhead cs.cipher_code) ping_interval fuel k ts line s
          (λ i. Matches-IsInverse ciphers client server pads i v m)
          (λ i.
            subst (IsSized (encrypters_of ciphers client pads i)) adds
              (encrypters_of-IsSized ciphers client pads i v))
          (overhead-le cs.cipher_code) room few valid a,
    )

-- For a spec of a known cipher and the right sizes, AEADs that open what they sealed and add 16
-- bytes, and a ChaCha20 that undoes itself: a client and a server, which reverses the spec, get
-- keys, and the ciphers of both ends start alike. From any packet number on, what the client's
-- `sendLoop` writes, for valid frames and paddings of at most 256 bytes, the server's `recvLoop`
-- decrypts and does what its frames are for, in order, and fails at the end of the connection
-- only. No ACK may name a stream that is closed by then, no echo come to a session without an
-- `emaRTT`, and `recvLoop` has a round for each packet and one more.
pub crypters-Delivers :
    (ciphers : Ciphers) (cs : CryptoSpec) (pads : Bool) (ping_interval fuel k : ℕ)
    (ts : List Sending) (line : Line) (s : Session)
    → AreCiphers ciphers
    → Init.IsSized cs
    → length line.session_frame ≡ max_session_frame_size
    → length ts < fuel
    → AreSendings ts
    → AcceptsPackets (packets_sent (overhead cs.cipher_code) ping_interval line.last_ping ts) s
    → (client server : Keys) × (crypters cs ≡ returned client)
      × (crypters (reversed cs) ≡ returned server)
      × (start_nonces client.data_encrypt ≡ returned (crypter_of client.data_encrypt))
      × (start_nonces server.data_decrypt ≡ returned (crypter_of client.data_encrypt))
      × Delivers
          (encrypters_of ciphers client pads)
          (decrypters_of ciphers server)
          (overhead cs.cipher_code)
          ping_interval
          fuel
          k
          ts
          line
          s
crypters-Delivers ciphers cs pads ping_interval fuel k ts line s v sized room few valid a =
    let (client, server, ec, es, m) = crypters-reversed cs sized in
    let (one, other, delivers) =
      Matches-Delivers ciphers cs client server pads ping_interval fuel k ts line s v sized ec m
        room few valid a in
    (client, server, ec, es, one, other, delivers)
