-- ===== src/Tests/Inits.antt =====
-- crypto.go: a client init message, with an RSA that leaves the text as it is.
use plampshade.Base.{
  none, true, false, ℕ, ◌≡◌, refl, List, [], ◌∷◌, Option, some, replicate, length-replicate,
}
use plampshade.Crypto.{
  plain_text, returned, valid, CryptoSpec, new_crypto_spec, build_client_init_msg,
  decode_client_init_msg, iv_size,
}
use plampshade.Crypto.Short.{Fate, fate_of, decode_client_init_msg-fate}
use plampshade.Crypto.Init.{
  Supplies, IsOaep, IsSized, decode_client_init_msg-build, decode_plain_text-plain_text,
}
use plampshade.Listener.{fails, do_on_conn, check_decoded, is_old}
use plampshade.Listener.Checks.{do_on_conn-replayed}

abbrev random : ℕ → ℕ → Option (List ℕ)
random i n = some (replicate n i)

random-Supplies : Supplies random
random-Supplies i n = (replicate n i, refl, length-replicate n i)

abbrev in_the_clear : List ℕ → Option (List ℕ)
in_the_clear pt = some pt

in_the_clear-IsOaep : IsOaep in_the_clear in_the_clear
in_the_clear-IsOaep pt h = (pt, refl, refl)

decode_client_init_msg-build_example :
    (cs : CryptoSpec) × (msg : List ℕ) × (new_crypto_spec random 3 ≡ returned cs)
    × (build_client_init_msg in_the_clear 1453 32 cs (some 1600000000) ≡ returned msg)
    × (decode_client_init_msg in_the_clear msg ≡ returned (1453, 32, cs, some 1600000000))
unfolding valid
decode_client_init_msg-build_example =
    decode_client_init_msg-build random in_the_clear in_the_clear 3 1453 32 (some 1600000000)
      random-Supplies in_the_clear-IsOaep refl

-- A window, a padding and the code of AES-128-GCM, and nothing behind them.
abbrev no_secret : List ℕ
no_secret = 0 ∷ (0 ∷ (5 ∷ (173 ∷ (32 ∷ (2 ∷ [])))))

decode_client_init_msg-fate_example :
    fate_of (decode_client_init_msg in_the_clear no_secret) ≡ Fate.panics
unfolding valid iv_size
decode_client_init_msg-fate_example = decode_client_init_msg-fate in_the_clear no_secret

abbrev pub aes_spec : CryptoSpec
aes_spec = record {
  cipher_code = 2;
  secret = replicate 32 7;
  meta_send_iv = replicate 12 1;
  data_send_iv = replicate 12 2;
  meta_recv_iv = replicate 12 3;
  data_recv_iv = replicate 12 4;
}

pub aes_spec-IsSized : IsSized aes_spec
unfolding valid iv_size
aes_spec-IsSized = record {
  known = refl;
  secret_length = refl;
  meta_send_length = refl;
  data_send_length = refl;
  meta_recv_length = refl;
  data_recv_length = refl;
}

opened :
    decode_client_init_msg in_the_clear (plain_text 1453 32 aes_spec none)
    ≡ returned (1453, 32, aes_spec, none)
unfolding decode_client_init_msg
opened = decode_plain_text-plain_text 1453 32 aes_spec none aes_spec-IsSized

-- The message again, when its key is in the cache.
do_on_conn-replayed_example :
    do_on_conn
      (record { max_client_init_age = 60; caches = true })
      (λ ts. 5)
      (λ k. true)
      in_the_clear
      (some (plain_text 1453 32 aes_spec none))
    ≡ ([], fails)
unfolding do_on_conn check_decoded is_old
do_on_conn-replayed_example =
    do_on_conn-replayed (record { max_client_init_age = 60; caches = true }) (λ ts. 1) (λ ts. 5)
      (λ k. false) (λ k. true) in_the_clear (plain_text 1453 32 aes_spec none) 1453 32 aes_spec none
      refl opened (rw (opened, do_on_conn) (refl, tt)) (rw (opened, do_on_conn) refl)
