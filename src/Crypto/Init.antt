-- ===== src/Crypto/Init.antt =====
-- The round trip of the client init message.
use plampshade.Base.{
  ◌≤◌, length-append, ℕ, ◌%◌, ◌^◌, ◌≡◌, refl, ap, ◌∙◌, true, false, List, [], ◌∷◌, ◌++◌, Option,
  none, some, arith, if◌then◌else◌, ltb, leb, length, take, take-append, drop-append, length-append,
  take-all,
}
use plampshade.Wire.{big_endian, from_big_endian}
use plampshade.Wire.Laws.{length-big_endian, from_big_endian-big_endian}
use plampshade.Crypto.{
  new_crypto_spec, build_client_init_msg, decode_client_init_msg, of_option, Result, returned,
  ◌>>=◌, CryptoSpec, consume, plain_text, decode_plain_text, decode_spec, valid, iv_size,
}

pub consume-append :
    (xs ys : List ℕ) (n : ℕ) → length xs ≡ n → consume (xs ++ ys) n ≡ returned (xs, ys)
unfolding consume
consume-append xs ys n h =
    let fits : ltb (length (xs ++ ys)) n ≡ false = ground (arith, length-append xs ys) in
    rw (fits, take-append n xs ys h, drop-append n xs ys h)

-- The sizes that the decoder expects.
pub record IsSized (cs : CryptoSpec) : Type 0 where
  pub known : valid cs.cipher_code ≡ true
  pub secret_length : length cs.secret ≡ 32
  pub meta_send_length : length cs.meta_send_iv ≡ 12
  pub data_send_length : length cs.data_send_iv ≡ iv_size cs.cipher_code
  pub meta_recv_length : length cs.meta_recv_iv ≡ 12
  pub data_recv_length : length cs.data_recv_iv ≡ iv_size cs.cipher_code

abbrev time_bytes : Option ℕ → List ℕ
time_bytes ts = elim ts [ none ↦ [] | some t ↦ big_endian 8 (t % 2 ^ 64) ]

abbrev pub wrapped : Option ℕ → Option ℕ
wrapped none = none
wrapped (some t) = some (t % 2 ^ 64)

time_read :
    (ts : Option ℕ)
    → (if leb 8 (length (time_bytes ts))
        then some (from_big_endian (take 8 (time_bytes ts)))
        else none)
      ≡ wrapped ts
time_read none = refl
time_read (some t) =
    rw
      (
        length-big_endian 8 (t % 2 ^ 64),
        take-all 8 (big_endian 8 (t % 2 ^ 64)) (omega (arith, length-big_endian 8 (t % 2 ^ 64))),
      )
      (ap some (from_big_endian-big_endian 8 (t % 2 ^ 64) (omega arith)))

consume-bind {ℓ} :
    {B : Type ℓ} (xs ys : List ℕ) (n : ℕ) (f : List ℕ × List ℕ → Result B)
    → length xs ≡ n
    → (consume (xs ++ ys) n >>= f) ≡ f (xs, ys)
consume-bind xs ys n f h = ap (λ r. r >>= f) (consume-append xs ys n h)

decode_spec-eq :
    (cs : CryptoSpec) (ts : Option ℕ)
    → IsSized cs
    → decode_spec cs.cipher_code (
        cs.secret
        ++ (cs.meta_send_iv
            ++ (cs.data_send_iv ++ (cs.meta_recv_iv ++ (cs.data_recv_iv ++ time_bytes ts)))))
      ≡ returned (cs, wrapped ts)
unfolding decode_spec
decode_spec-eq cs ts v =
    consume-bind cs.secret _ 32 _ v.secret_length
    ∙ consume-bind cs.meta_send_iv _ 12 _ v.meta_send_length
    ∙ consume-bind cs.data_send_iv _ _ _ v.data_send_length
    ∙ consume-bind cs.meta_recv_iv _ 12 _ v.meta_recv_length
    ∙ consume-bind cs.data_recv_iv _ _ _ v.data_recv_length
    ∙ ap (λ t. returned (cs, t)) (time_read ts)

pub decode_plain_text-plain_text :
    (w p : ℕ) (cs : CryptoSpec) (ts : Option ℕ)
    → IsSized cs
    → decode_plain_text (plain_text w p cs ts) ≡ returned (w % 2 ^ 32, p % 256, cs, wrapped ts)
unfolding decode_plain_text plain_text
decode_plain_text-plain_text w p cs ts v =
    consume-bind (big_endian 4 (w % 2 ^ 32)) _ 4 _ (length-big_endian 4 (w % 2 ^ 32))
    ∙ consume-bind (p % 256 ∷ []) _ 1 _ refl
    ∙ consume-bind (cs.cipher_code ∷ []) _ 1 _ refl
    ∙ rw (v.known, decode_spec-eq cs ts v, from_big_endian-big_endian 4 (w % 2 ^ 32) (omega arith))
        refl

-- A random source that does not fail.
abbrev pub Supplies : (ℕ → ℕ → Option (List ℕ)) → Type 0
Supplies random = (i n : ℕ) → (b : List ℕ) × (random i n ≡ some b) × (length b ≡ n)

-- RSA-OAEP with SHA-256 and a key of 256 bytes takes texts of up to 190 bytes.
abbrev pub IsOaep : (List ℕ → Option (List ℕ)) → (List ℕ → Option (List ℕ)) → Type 0
IsOaep encrypt decrypt =
    (pt : List ℕ) → length pt ≤ 190 → (c : List ℕ) × (encrypt pt ≡ some c) × (decrypt c ≡ some pt)

pub new_crypto_spec-IsSized :
    (random : ℕ → ℕ → Option (List ℕ)) (code : ℕ)
    → Supplies random
    → valid code ≡ true
    → (cs : CryptoSpec) × (new_crypto_spec random code ≡ returned cs) × IsSized cs
unfolding new_crypto_spec
new_crypto_spec-IsSized random code supplies h =
    let (s, es, ls) = supplies 0 32 in
    let (ms, ems, lms) = supplies 1 12 in
    let (ds, eds, lds) = supplies 2 (iv_size code) in
    let (mr, emr, lmr) = supplies 3 12 in
    let (dr, edr, ldr) = supplies 4 (iv_size code) in
    (
      record {
        cipher_code = code;
        secret = s;
        meta_send_iv = ms;
        data_send_iv = ds;
        meta_recv_iv = mr;
        data_recv_iv = dr;
      },
      rw (es, ems, eds, emr, edr) refl,
      record {
        known = h;
        secret_length = ls;
        meta_send_length = lms;
        data_send_length = lds;
        meta_recv_length = lmr;
        data_recv_length = ldr;
      },
    )

iv_size-le : (code : ℕ) → iv_size code ≤ 12
unfolding iv_size
iv_size-le code = ground arith

length-time_bytes : (ts : Option ℕ) → length (time_bytes ts) ≤ 8
length-time_bytes none = omega arith
length-time_bytes (some t) = omega (arith, length-big_endian 8 (t % 2 ^ 64))

-- The client init message of a sized spec has at most 94 bytes of text.
pub length-plain_text :
    (w p : ℕ) (cs : CryptoSpec) (ts : Option ℕ) → IsSized cs → length (plain_text w p cs ts) ≤ 94
unfolding plain_text
length-plain_text w p cs ts v =
    let t5 = cs.data_recv_iv ++ time_bytes ts in
    let t4 = cs.meta_recv_iv ++ t5 in
    let t3 = cs.data_send_iv ++ t4 in
    let t2 = cs.meta_send_iv ++ t3 in
    omega (
      arith,
      length-append (big_endian 4 (w % 2 ^ 32)) (p % 256 ∷ (cs.cipher_code ∷ (cs.secret ++ t2))),
      length-big_endian 4 (w % 2 ^ 32),
      length-append cs.secret t2,
      length-append cs.meta_send_iv t3,
      length-append cs.data_send_iv t4,
      length-append cs.meta_recv_iv t5,
      length-append cs.data_recv_iv (time_bytes ts),
      length-time_bytes ts,
      iv_size-le cs.cipher_code,
      v.secret_length,
      v.meta_send_length,
      v.data_send_length,
      v.meta_recv_length,
      v.data_recv_length,
    )

-- With a random source that does not fail and RSA that decrypts what it encrypted, a client with a
-- known cipher makes a spec and its message, and the server reads back the spec, the window
-- modulo 2^32, the padding modulo 256 and the time modulo 2^64.
pub decode_client_init_msg-build :
    (random : ℕ → ℕ → Option (List ℕ)) (encrypt decrypt : List ℕ → Option (List ℕ)) (code w p : ℕ)
    (ts : Option ℕ)
    → Supplies random
    → IsOaep encrypt decrypt
    → valid code ≡ true
    → (cs : CryptoSpec) × (msg : List ℕ) × (new_crypto_spec random code ≡ returned cs)
      × (build_client_init_msg encrypt w p cs ts ≡ returned msg)
      × (decode_client_init_msg decrypt msg ≡ returned (w % 2 ^ 32, p % 256, cs, wrapped ts))
unfolding build_client_init_msg decode_client_init_msg
decode_client_init_msg-build random encrypt decrypt code w p ts supplies oaep h =
    let (cs, e, v) = new_crypto_spec-IsSized random code supplies h in
    let (c, sealed, opened) =
      oaep (plain_text w p cs ts) (omega (arith, length-plain_text w p cs ts v)) in
    (cs, c, e, ap of_option sealed, rw opened (decode_plain_text-plain_text w p cs ts v))
