-- ===== src/Crypto.antt =====
-- crypto.go: the ciphers, the crypto configuration of a session, and the client init message that
-- carries it to the server. RSA, AES-GCM, ChaCha20 and the random source are parameters.
pub mod Init
pub mod Keys
pub mod Nonce
pub mod Suits
pub mod Short
pub mod Channel
use plampshade.Base.{
  ℕ, ◌%◌, ◌^◌, Bool, List, [], ◌∷◌, ◌++◌, Option, none, some, ltb, ◌==◌, ◌||◌, if◌then◌else◌,
  length, take, drop, leb, not,
}
use plampshade.Wire.{
  win_size, ts_size, max_secret_size, meta_iv_size, big_endian, from_big_endian, first_byte,
}

-- A value, an `error`, or a Go panic (a slice out of range).
pub data Result {ℓ} (A : Type ℓ) : Type ℓ where
  returned : A → Result A
  error : Result A
  panicked : Result A

infixl 5 ◌>>=◌
abbrev pub ◌>>=◌ {ℓ κ} : {A : Type ℓ} {B : Type κ} → Result A → (A → Result B) → Result B
returned a >>= f = f a
error >>= f = error
panicked >>= f = panicked

abbrev pub of_option {ℓ} : {A : Type ℓ} → Option A → Result A
of_option none = error
of_option (some a) = returned a

-- `Cipher` is a byte.
abbrev pub no_encryption : ℕ
no_encryption = 1

abbrev pub aes128_gcm : ℕ
aes128_gcm = 2

abbrev pub chacha20_poly1305 : ℕ
chacha20_poly1305 = 3

unfoldable pub valid : ℕ → Bool
valid c = (c == aes128_gcm) || (c == chacha20_poly1305) || (c == no_encryption)

unfoldable pub secret_size : ℕ → ℕ
secret_size c = if c == aes128_gcm then 16 else (if c == chacha20_poly1305 then 32 else 1)

unfoldable pub iv_size : ℕ → ℕ
iv_size c = if (c == aes128_gcm) || (c == chacha20_poly1305) then 12 else 1

unfoldable pub overhead : ℕ → ℕ
overhead c = if (c == aes128_gcm) || (c == chacha20_poly1305) then 16 else 0

pub record CryptoSpec : Type 0 where
  pub cipher_code : ℕ
  pub secret : List ℕ
  pub meta_send_iv : List ℕ
  pub data_send_iv : List ℕ
  pub meta_recv_iv : List ℕ
  pub data_recv_iv : List ℕ

-- `_newSecret` and `newIV`. `random` is `rand.Read` of so many bytes, by the number of the
-- call; `none` is its error.
abbrev new_secret : (ℕ → ℕ → Option (List ℕ)) → Result (List ℕ)
new_secret random = of_option (random 0 max_secret_size)

abbrev new_iv : (ℕ → ℕ → Option (List ℕ)) → ℕ → ℕ → Result (List ℕ)
new_iv random call size = of_option (random call size)

-- `newSecret` and then four times `newIV`.
unfoldable pub new_crypto_spec : (ℕ → ℕ → Option (List ℕ)) → ℕ → Result CryptoSpec
new_crypto_spec random code = do
  s ← new_secret random
  ms ← new_iv random 1 meta_iv_size
  ds ← new_iv random 2 (iv_size code)
  mr ← new_iv random 3 meta_iv_size
  dr ← new_iv random 4 (iv_size code)
  returned (record {
    cipher_code = code;
    secret = s;
    meta_send_iv = ms;
    data_send_iv = ds;
    meta_recv_iv = mr;
    data_recv_iv = dr;
  })

unfoldable pub reversed : CryptoSpec → CryptoSpec
reversed cs = record {
  cipher_code = cs.cipher_code;
  secret = cs.secret;
  meta_send_iv = cs.meta_recv_iv;
  data_send_iv = cs.data_recv_iv;
  meta_recv_iv = cs.meta_send_iv;
  data_recv_iv = cs.data_send_iv;
}

-- A `time.Time` is its Unix time as a uint64; `none` is the zero time.
unfoldable pub plain_text : ℕ → ℕ → CryptoSpec → Option ℕ → List ℕ
plain_text window_size max_padding cs ts =
    big_endian win_size (window_size % 2 ^ 32)
    ++ ((max_padding % 256 ∷ [])
        ++ ((cs.cipher_code ∷ [])
            ++ (cs.secret
                ++ (cs.meta_send_iv
                    ++ (cs.data_send_iv
                        ++ (cs.meta_recv_iv
                            ++ (cs.data_recv_iv ++ elim ts [
                              | none ↦ []
                              | some t ↦ big_endian ts_size (t % 2 ^ 64)
                            ])))))))

-- `encrypt` is `rsa.EncryptOAEP` with the server's public key.
unfoldable pub build_client_init_msg :
    (List ℕ → Option (List ℕ)) → ℕ → ℕ → CryptoSpec → Option ℕ → Result (List ℕ)
build_client_init_msg encrypt window_size max_padding cs ts =
    of_option (encrypt (plain_text window_size max_padding cs ts))

unfoldable pub consume : List ℕ → ℕ → Result (List ℕ × List ℕ)
consume b n = if ltb (length b) n then panicked else returned (take n b, drop n b)

-- The part of `decodeClientInitMsg` after the cipher is known to be valid.
unfoldable pub decode_spec : ℕ → List ℕ → Result (CryptoSpec × Option ℕ)
decode_spec code pt = do
  (s, pt1) ← consume pt max_secret_size
  (ms, pt2) ← consume pt1 meta_iv_size
  (ds, pt3) ← consume pt2 (iv_size code)
  (mr, pt4) ← consume pt3 meta_iv_size
  (dr, pt5) ← consume pt4 (iv_size code)
  returned (
    record {
      cipher_code = code;
      secret = s;
      meta_send_iv = ms;
      data_send_iv = ds;
      meta_recv_iv = mr;
      data_recv_iv = dr;
    },
    if leb ts_size (length pt5) then some (from_big_endian (take ts_size pt5)) else none,
  )

-- `decodeClientInitMsg` once the message is decrypted.
unfoldable pub decode_plain_text : List ℕ → Result (ℕ × ℕ × CryptoSpec × Option ℕ)
decode_plain_text pt = do
  (w, pt1) ← consume pt win_size
  (p, pt2) ← consume pt1 1
  (c, pt3) ← consume pt2 1
  if valid (first_byte c)
      then (do
        (cs, ts) ← decode_spec (first_byte c) pt3
        returned (from_big_endian w, first_byte p, cs, ts))
      else error

-- `decrypt` is `rsa.DecryptOAEP` with the server's private key.
unfoldable pub decode_client_init_msg :
    (List ℕ → Option (List ℕ)) → List ℕ → Result (ℕ × ℕ × CryptoSpec × Option ℕ)
decode_client_init_msg decrypt msg = of_option (decrypt msg) >>= decode_plain_text
