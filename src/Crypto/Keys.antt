-- ===== src/Crypto/Keys.antt =====
-- crypto.go: which cipher, key and initialization vector each direction of a session works with.
use plampshade.Base.{
  ◌≤◌, arith, if_rule, ℕ, ◌≡◌, refl, true, false, List, Option, none, some, ltb, ◌==◌,
  if◌then◌else◌, length, take,
}
use plampshade.Crypto.{
  Result, returned, error, panicked, ◌>>=◌, CryptoSpec, valid, secret_size, no_encryption,
  aes128_gcm, chacha20_poly1305, reversed,
}
use plampshade.Crypto.Init.{IsSized}

-- A `cipher.AEAD` by the library that makes it and its key.
pub data Aead : Type 0 where
  gcm : List ℕ → Aead
  chacha : List ℕ → Aead

-- A slice `secret[:n]`.
abbrev pub prefix : List ℕ → ℕ → Result (List ℕ)
prefix secret n = if ltb (length secret) n then panicked else returned (take n secret)

-- The key and the vector of `chacha20.NewCipher`, or none.
unfoldable pub cipher_for : ℕ → List ℕ → List ℕ → Result (Option (List ℕ × List ℕ))
cipher_for code secret iv =
    if code == no_encryption
    then returned none
    else (do key ← prefix secret (secret_size chacha20_poly1305); returned (some (key, iv)))

unfoldable pub aead_for : ℕ → List ℕ → Result (Option Aead)
aead_for code secret = do
  key ← prefix secret (secret_size code)
  if code == no_encryption
      then returned none
      else (if code == aes128_gcm
          then returned (some (gcm key))
          else (if code == chacha20_poly1305 then returned (some (chacha key)) else error))

-- The vector is that of the nonce generator.
unfoldable pub new_encrypter : ℕ → List ℕ → List ℕ → Result (Option (Aead × List ℕ))
new_encrypter code secret iv = do
  a ← aead_for code secret
  returned (elim a [ none ↦ none | some aead ↦ some (aead, iv) ])

unfoldable pub new_decrypter : ℕ → List ℕ → List ℕ → Result (Option (Aead × List ℕ))
new_decrypter code secret iv = do
  a ← aead_for code secret
  returned (elim a [ none ↦ none | some aead ↦ some (aead, iv) ])

pub record Keys : Type 0 where
  pub meta_encrypt : Option (List ℕ × List ℕ)
  pub data_encrypt : Option (Aead × List ℕ)
  pub meta_decrypt : Option (List ℕ × List ℕ)
  pub data_decrypt : Option (Aead × List ℕ)

unfoldable pub crypters : CryptoSpec → Result Keys
crypters cs = do
  me ← cipher_for cs.cipher_code cs.secret cs.meta_send_iv
  de ← new_encrypter cs.cipher_code cs.secret cs.data_send_iv
  md ← cipher_for cs.cipher_code cs.secret cs.meta_recv_iv
  dd ← new_decrypter cs.cipher_code cs.secret cs.data_recv_iv
  returned (record { meta_encrypt = me; data_encrypt = de; meta_decrypt = md; data_decrypt = dd })

abbrev Returns {ℓ} : {A : Type ℓ} → Result A → Type ℓ
Returns {A = A} r = (a : A) × (r ≡ returned a)

prefix-eq :
    (secret : List ℕ) (n : ℕ) → n ≤ length secret → prefix secret n ≡ returned (take n secret)
prefix-eq secret n h = let fits : ltb (length secret) n ≡ false = ground arith in rw fits refl

secret_size-le : (code : ℕ) → secret_size code ≤ 32
unfolding secret_size
secret_size-le code = ground arith

-- A known cipher and a secret of 32 bytes give an AEAD, or none for the cipher "None".
aead_for-Returns :
    (code : ℕ) (secret : List ℕ)
    → valid code ≡ true
    → length secret ≡ 32
    → Returns (aead_for code secret)
unfolding aead_for valid
aead_for-Returns code secret h k =
    rw (prefix-eq secret (secret_size code) (omega (arith, secret_size-le code))) (
      if_rule Returns (code == 1) (λ e. (none, refl))
        (λ e.
          if_rule Returns (code == 2) (λ e2. (some (gcm (take (secret_size code) secret)), refl))
            (λ e2.
              if_rule Returns (code == 3)
                (λ e3. (some (chacha (take (secret_size code) secret)), refl))
                (λ e3. absurd (ground arith)))))

cipher_for-Returns :
    (code : ℕ) (secret iv : List ℕ) → length secret ≡ 32 → Returns (cipher_for code secret iv)
unfolding cipher_for
cipher_for-Returns code secret iv k =
    if_rule Returns (code == 1) (λ e. (none, refl))
      (λ e.
        rw (prefix-eq secret (secret_size 3) (omega (arith, secret_size-le 3)))
          (some (take (secret_size 3) secret, iv), refl))

-- What one side of a session encrypts with, the other side decrypts with.
pub record Matches (client server : Keys) : Type 0 where
  pub meta_up : server.meta_decrypt ≡ client.meta_encrypt
  pub data_up : server.data_decrypt ≡ client.data_encrypt
  meta_down : server.meta_encrypt ≡ client.meta_decrypt
  pub data_down : server.data_encrypt ≡ client.data_decrypt

-- With a known cipher and vectors and secret of the right sizes, the client's spec and the
-- server's reversed one both give crypters, and these match in both directions.
pub crypters-reversed :
    (cs : CryptoSpec)
    → IsSized cs
    → (client : Keys) × (server : Keys) × (crypters cs ≡ returned client)
      × (crypters (reversed cs) ≡ returned server)
      × Matches client server
unfolding crypters reversed new_encrypter new_decrypter
crypters-reversed cs v =
    let (ms, ems) = cipher_for-Returns cs.cipher_code cs.secret cs.meta_send_iv v.secret_length in
    let (mr, emr) = cipher_for-Returns cs.cipher_code cs.secret cs.meta_recv_iv v.secret_length in
    let (a, ea) = aead_for-Returns cs.cipher_code cs.secret v.known v.secret_length in
    let send : Option (Aead × List ℕ) = elim a [
      | none ↦ none
      | some aead ↦ some (aead, cs.data_send_iv)
    ] in
    let recv : Option (Aead × List ℕ) = elim a [
      | none ↦ none
      | some aead ↦ some (aead, cs.data_recv_iv)
    ] in
    (
      record { meta_encrypt = ms; data_encrypt = send; meta_decrypt = mr; data_decrypt = recv },
      record { meta_encrypt = mr; data_encrypt = recv; meta_decrypt = ms; data_decrypt = send },
      rw (ems, ea, emr) refl,
      rw (ems, ea, emr) refl,
      record { meta_up = refl; data_up = refl; meta_down = refl; data_down = refl },
    )
