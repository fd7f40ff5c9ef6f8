-- ===== src/Crypto/Suits.antt =====
-- crypto.go: that the vectors of a spec suit the ciphers that are chosen for it.
use plampshade.Base.{
  ℕ, ◌≤◌, ◌≡◌, refl, sym, false, List, Option, none, some, ltb, ◌==◌, if_rule, length, arith,
}
use plampshade.Crypto.{
  Result, returned, error, panicked, ◌>>=◌, CryptoSpec, iv_size, overhead, secret_size,
}
use plampshade.Crypto.Init.{IsSized}
use plampshade.Crypto.Keys.{
  Aead, Keys, prefix, crypters, cipher_for, new_encrypter, new_decrypter, aead_for,
}
use plampshade.Crypto.Nonce.{Generator, nonce_generator, start_nonces}

-- An encrypter or a decrypter; it is none for the cipher "None".
abbrev pub Crypter : Type 0
Crypter = Option (Aead × Generator)

-- What holds of a result if there is one.
abbrev pub IfReturned {ℓ κ} : {A : Type ℓ} → (A → Type κ) → Result A → Type κ
IfReturned P (returned a) = P a
IfReturned P error = Unit
IfReturned P panicked = Unit

bind-IfReturned {ℓ κ μ ν} :
    {A : Type ℓ} {B : Type κ} (P : A → Type μ) (Q : B → Type ν) (r : Result A) (f : A → Result B)
    → IfReturned P r
    → ((a : A) → P a → IfReturned Q (f a))
    → IfReturned Q (r >>= f)
bind-IfReturned P Q (returned a) f h k = k a h
bind-IfReturned P Q error f h k = tt
bind-IfReturned P Q panicked f h k = tt

any_result {ℓ} : {A : Type ℓ} (r : Result A) → IfReturned (λ a. Unit {0}) r
any_result (returned a) = tt
any_result error = tt
any_result panicked = tt

-- The nonce generator takes the vector, and the overhead of the cipher is that of an AEAD, or none.
abbrev pub Suits : ℕ → Option (Aead × List ℕ) → Type 0
Suits code none = overhead code ≡ 0
Suits code (some (aead, iv)) = (8 ≤ length iv) × (overhead code ≡ 16)

abbrev pub overhead_of : Crypter → ℕ
overhead_of none = 0
overhead_of (some k) = 16

abbrev with_iv : List ℕ → Option Aead → Option (Aead × List ℕ)
with_iv iv a = elim a [ none ↦ none | some aead ↦ some (aead, iv) ]

-- There is no AEAD for the cipher "None", and the others have vectors of 12 bytes.
aead_for-IfReturned :
    (code : ℕ) (secret iv : List ℕ)
    → length iv ≡ iv_size code
    → IfReturned (λ a. Suits code (with_iv iv a)) (aead_for code secret)
unfolding aead_for iv_size overhead
aead_for-IfReturned code secret iv h =
    let P = λ (r : Result (Option Aead)). IfReturned (λ a. Suits code (with_iv iv a)) r in
    bind-IfReturned (λ k. Unit {0}) (λ a. Suits code (with_iv iv a))
      (prefix secret (secret_size code)) _ (any_result _)
      λ k u.
        if_rule P (code == 1) (λ e. ground arith)
          λ e.
            if_rule P (code == 2) (λ f. (ground arith, ground arith))
              λ f. if_rule P (code == 3) (λ g. (ground arith, ground arith)) (λ g. tt)

new_encrypter-IfReturned :
    (code : ℕ) (secret iv : List ℕ)
    → length iv ≡ iv_size code
    → IfReturned (Suits code) (new_encrypter code secret iv)
unfolding new_encrypter
new_encrypter-IfReturned code secret iv h =
    bind-IfReturned (λ a. Suits code (with_iv iv a)) (Suits code) (aead_for code secret) _
      (aead_for-IfReturned code secret iv h) (λ a l. l)

pub crypters-IfReturned :
    (cs : CryptoSpec)
    → IsSized cs
    → IfReturned
        (λ ks. Suits cs.cipher_code ks.data_encrypt × Suits cs.cipher_code ks.data_decrypt)
        (crypters cs)
unfolding crypters new_decrypter new_encrypter
crypters-IfReturned cs v =
    let Q =
      λ (ks : Keys). Suits cs.cipher_code ks.data_encrypt × Suits cs.cipher_code ks.data_decrypt in
    bind-IfReturned (λ a. Unit {0}) Q (cipher_for cs.cipher_code cs.secret cs.meta_send_iv) _
      (any_result _)
      λ me u.
        bind-IfReturned (Suits cs.cipher_code) Q
          (new_encrypter cs.cipher_code cs.secret cs.data_send_iv) _
          (new_encrypter-IfReturned cs.cipher_code cs.secret cs.data_send_iv v.data_send_length)
          λ de l.
            bind-IfReturned (λ a. Unit {0}) Q (cipher_for cs.cipher_code cs.secret cs.meta_recv_iv)
              _ (any_result _)
              λ md u2.
                bind-IfReturned (Suits cs.cipher_code) Q
                  (new_decrypter cs.cipher_code cs.secret cs.data_recv_iv) _
                  (new_encrypter-IfReturned cs.cipher_code cs.secret cs.data_recv_iv
                    v.data_recv_length)
                  λ dd l2. (l, l2)

-- The crypter of a new session.
abbrev pub crypter_of : Option (Aead × List ℕ) → Crypter
crypter_of none = none
crypter_of (some (aead, iv)) = some (aead, record { iv = iv; ctr = 0 })

pub start_nonces-returns :
    (code : ℕ) (k : Option (Aead × List ℕ))
    → Suits code k
    → (start_nonces k ≡ returned (crypter_of k)) × (overhead_of (crypter_of k) ≡ overhead code)
unfolding start_nonces nonce_generator
start_nonces-returns code none h = (refl, sym h)
start_nonces-returns code (some (aead, iv)) (long, h) =
    let enough : ltb (length iv) 8 ≡ false = ground arith in (rw enough refl, sym h)
