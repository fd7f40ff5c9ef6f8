-- ===== src/Crypto/Short.antt =====
-- crypto.go: what `decodeClientInitMsg` makes of a message that decrypts to too few bytes.
use plampshade.Base.{
  ℕ, ◌+◌, ◌≡◌, refl, ap, ◌∙◌, false, List, Option, none, some, ltb, if◌then◌else◌, length,
  length-drop, take, drop, arith, Bool-cases, Option-cases, inl, inr,
}
use plampshade.Wire.{win_size, max_secret_size, meta_iv_size, first_byte}
use plampshade.Crypto.{
  Result, returned, error, panicked, ◌>>=◌, CryptoSpec, valid, iv_size, consume, decode_spec,
  decode_plain_text, decode_client_init_msg,
}

-- How a call ends.
pub data Fate : Type 0 where
  returns : Fate
  fails : Fate
  panics : Fate

abbrev pub fate_of {ℓ} : {A : Type ℓ} → Result A → Fate
fate_of (returned a) = returns
fate_of error = fails
fate_of panicked = panics

-- The byte behind the window and the padding.
abbrev pub code_in : List ℕ → ℕ
code_in pt = first_byte (take 1 (drop 1 (drop win_size pt)))

-- The bytes of the secret and of the four vectors.
abbrev pub spec_size : ℕ → ℕ
spec_size code =
    max_secret_size + (meta_iv_size + (iv_size code + (meta_iv_size + (iv_size code + 0))))

-- The window, the padding and the code of the cipher; then what a known cipher takes.
abbrev pub fate_of_plain_text : List ℕ → Fate
fate_of_plain_text pt =
    if ltb (length pt) 6
    then panics
    else (if valid (code_in pt)
        then (if ltb (length pt) (6 + spec_size (code_in pt)) then panics else returns)
        else fails)

consumed {ℓ} :
    {A : Type ℓ} (b : List ℕ) (n : ℕ) (f : List ℕ × List ℕ → Result A)
    → fate_of (consume b n >>= f)
      ≡ (if ltb (length b) n then panics else fate_of (f (take n b, drop n b)))
unfolding consume
consumed b n f = elim (Bool-cases (ltb (length b) n)) [ inl e ↦ rw e refl | inr e ↦ rw e refl ]

-- What is left of the bytes is enough for `k` more, or not.
consumed_enough {ℓ} :
    {A : Type ℓ} (b : List ℕ) (n k : ℕ) (f : List ℕ × List ℕ → Result A)
    → ((rest : List ℕ)
        → fate_of (f (take n b, rest)) ≡ (if ltb (length rest) k then panics else returns))
    → fate_of (consume b n >>= f) ≡ (if ltb (length b) (n + k) then panics else returns)
consumed_enough b n k f h = consumed b n f ∙ ground (arith, h (drop n b), length-drop n b)

decode_spec-fate :
    (code : ℕ) (pt : List ℕ)
    → fate_of (decode_spec code pt) ≡ (if ltb (length pt) (spec_size code) then panics else returns)
unfolding decode_spec
decode_spec-fate code pt = consumed_enough pt 32 _ _ λ pt1. consumed_enough pt1 12 _ _ λ pt2.
    consumed_enough pt2 (iv_size code) _ _ λ pt3. consumed_enough pt3 12 _ _ λ pt4.
      consumed_enough pt4 (iv_size code) 0 _
        λ pt5. let none_taken : ltb (length pt5) 0 ≡ false = ground arith in rw none_taken refl

decoded-fate {ℓ κ} :
    {A : Type ℓ} {B : Type κ} (r : Result A) (f : A → B)
    → fate_of (r >>= λ a. returned (f a)) ≡ fate_of r
decoded-fate (returned a) f = refl
decoded-fate error f = refl
decoded-fate panicked f = refl

-- What is left behind the code of the cipher.
known-fate :
    (w p code : ℕ) (pt : List ℕ)
    → fate_of {A = ℕ × ℕ × CryptoSpec × Option ℕ}
        (if valid code then (decode_spec code pt >>= λ d. returned (w, p, d.0, d.1)) else error)
      ≡ (if valid code
          then (if ltb (length pt) (spec_size code) then panics else returns)
          else fails)
known-fate w p code pt = elim (Bool-cases (valid code)) [
  | inl e ↦ rw e (
      decoded-fate {B = ℕ × ℕ × CryptoSpec × Option ℕ} (decode_spec code pt) (λ d. (w, p, d.0, d.1))
      ∙ decode_spec-fate code pt)
  | inr e ↦ rw e refl
]

if_short :
    (b : List ℕ) (n : ℕ) {x y : Fate}
    → x ≡ y
    → (if ltb (length b) n then panics else x) ≡ (if ltb (length b) n then panics else y)
if_short b n h = ap (λ x. if ltb (length b) n then panics else x) h

decode_plain_text-fate : (pt : List ℕ) → fate_of (decode_plain_text pt) ≡ fate_of_plain_text pt
unfolding decode_plain_text
decode_plain_text-fate pt =
    let pt1 = drop 4 pt in
    let pt2 = drop 1 pt1 in
    let pt3 = drop 1 pt2 in
    consumed pt 4 _
    ∙ if_short pt 4 (
        consumed pt1 1 _
        ∙ if_short pt1 1 (consumed pt2 1 _ ∙ if_short pt2 1 (known-fate _ _ (code_in pt) pt3)))
    ∙ ground (arith, length-drop 4 pt, length-drop 1 pt1, length-drop 1 pt2)

-- Decoding a client init message fails where it cannot be decrypted. A text of fewer than 6 bytes,
-- or one with the code of a known cipher that is too short for the secret and the vectors that
-- this cipher takes, makes the server panic; with another code it fails, and else it returns.
pub decode_client_init_msg-fate :
    (decrypt : List ℕ → Option (List ℕ)) (msg : List ℕ)
    → fate_of (decode_client_init_msg decrypt msg)
      ≡ elim (decrypt msg) [ none ↦ fails | some pt ↦ fate_of_plain_text pt ]
unfolding decode_client_init_msg
decode_client_init_msg-fate decrypt msg = elim (Option-cases (decrypt msg)) [
  | inl e ↦ rw e refl
  | inr (pt, e) ↦ rw e (decode_plain_text-fate pt)
]
