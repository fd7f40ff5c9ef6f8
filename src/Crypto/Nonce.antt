-- ===== src/Crypto/Nonce.antt =====
-- crypto.go: `nonceGenerator`. Go's `xorBytes` (xor.go is a copy of it) is a parameter.
use plampshade.Base.{
  ℕ, zero, suc, ◌+◌, ◌-◌, ◌%◌, ◌^◌, ◌≤◌, ◌<◌, ◌≡◌, ◌≢◌, refl, ap, sym, ◌∙◌, false, List, ◌++◌,
  Option, none, some, ltb, if◌then◌else◌, length, length-append, All-append, replicate,
  length-replicate, drop, drop-append, arith, All,
}
use plampshade.Wire.{big_endian, from_big_endian}
use plampshade.Wire.Laws.{length-big_endian, from_big_endian-big_endian, big_endian-IsByte, IsByte}
use plampshade.Crypto.{Result, returned, panicked, ◌>>=◌}
use plampshade.Crypto.Keys.{Aead}

-- The variables of the closure that `nonceGenerator` returns.
pub record Generator : Type 0 where
  pub iv : List ℕ
  pub ctr : ℕ

-- `nonceGenerator`: `ctrBytes[ns-8:]` panics for a short vector.
unfoldable pub nonce_generator : List ℕ → Result Generator
nonce_generator iv = if ltb (length iv) 8 then panicked else returned (record { iv = iv; ctr = 0 })

abbrev pub ctr_bytes : ℕ → ℕ → List ℕ
ctr_bytes ns ctr = replicate (ns - 8) 0 ++ big_endian 8 ctr

-- What `newEncrypter` and `newDecrypter` start the generator of.
unfoldable pub start_nonces : Option (Aead × List ℕ) → Result (Option (Aead × Generator))
start_nonces none = returned none
start_nonces (some (aead, iv)) = do g ← nonce_generator iv; returned (some (aead, g))

module _ (xor_bytes : List ℕ → List ℕ → List ℕ) where
  -- The function that `nonceGenerator` returns.
  unfoldable pub nonce : Generator → List ℕ × Generator
  nonce g =
      (xor_bytes g.iv (ctr_bytes (length g.iv) g.ctr), record g { ctr = (g.ctr + 1) % 2 ^ 64 })

  -- The nonce of the call with this number, from 0.
  unfoldable pub nonce_number : ℕ → Generator → List ℕ
  nonce_number zero g = (nonce g).0
  nonce_number (suc k) g = nonce_number k (nonce g).1

  nonce_number-eq :
      (k c : ℕ) (g : Generator)
      → g.ctr + k ≡ c
      → c < 2 ^ 64
      → nonce_number k g ≡ xor_bytes g.iv (ctr_bytes (length g.iv) c)
  unfolding nonce_number nonce
  nonce_number-eq zero c g e h =
      ap (λ c. xor_bytes g.iv (ctr_bytes (length g.iv) c)) (omega (arith, e))
  nonce_number-eq (suc k) c g e h =
      let g' = (nonce g).1 in
      let counted : g'.ctr ≡ g.ctr + 1 = omega arith in
      nonce_number-eq k c g' (omega (arith, counted, e)) h

-- Exclusive or, of lists of bytes of one length, is undone by itself.
abbrev pub Cancels : (List ℕ → List ℕ → List ℕ) → Type 0
Cancels xor_bytes =
    (a b : List ℕ)
    → All IsByte a
    → All IsByte b
    → length a ≡ length b
    → xor_bytes a (xor_bytes a b) ≡ b

length-ctr_bytes : (ns ctr : ℕ) → 8 ≤ ns → length (ctr_bytes ns ctr) ≡ ns
length-ctr_bytes ns ctr h = omega (
  arith,
  length-append (replicate (ns - 8) 0) (big_endian 8 ctr),
  length-replicate {A = ℕ} (ns - 8) 0,
  length-big_endian 8 ctr,
)

zeros-IsByte : (n : ℕ) → All IsByte (replicate n 0)
zeros-IsByte zero = tt
zeros-IsByte (suc n) = (omega arith, zeros-IsByte n)

ctr_bytes-IsByte : (ns ctr : ℕ) → All IsByte (ctr_bytes ns ctr)
ctr_bytes-IsByte ns ctr =
    All-append IsByte (replicate (ns - 8) 0) (big_endian 8 ctr) (zeros-IsByte (ns - 8))
      (big_endian-IsByte 8 ctr)

ctr_bytes-injective :
    (ns i j : ℕ) → i < 2 ^ 64 → j < 2 ^ 64 → ctr_bytes ns i ≡ ctr_bytes ns j → i ≡ j
ctr_bytes-injective ns i j hi hj e =
    let read = λ (k : ℕ) (h : k < 2 ^ 64).
      ap from_big_endian (
        drop-append (ns - 8) (replicate (ns - 8) 0) (big_endian 8 k)
          (length-replicate {A = ℕ} (ns - 8) 0))
      ∙ from_big_endian-big_endian 8 k (omega arith) in
    sym (read i hi) ∙ ap (λ bs. from_big_endian (drop (ns - 8) bs)) e ∙ read j hj

-- With a vector of 8 bytes or more there is a generator, and in its first 2^64 calls it gives no
-- nonce twice.
pub nonce_number-distinct :
    (xor_bytes : List ℕ → List ℕ → List ℕ) (iv : List ℕ) (i j : ℕ)
    → Cancels xor_bytes
    → All IsByte iv
    → 8 ≤ length iv
    → i < j
    → j < 2 ^ 64
    → (g : Generator) × (nonce_generator iv ≡ returned g)
      × (nonce_number xor_bytes i g ≢ nonce_number xor_bytes j g)
unfolding nonce_generator
nonce_number-distinct xor_bytes iv i j cancels bytes long before fits =
    let g : Generator = record { iv = iv; ctr = 0 } in
    let ns = length iv in
    let enough : ltb (length iv) 8 ≡ false = ground arith in
    let undo = λ (k : ℕ).
      cancels iv (ctr_bytes ns k) bytes (ctr_bytes-IsByte ns k)
        (sym (length-ctr_bytes ns k long)) in
    (
      g,
      rw enough refl,
      λ same.
          let xored : xor_bytes iv (ctr_bytes ns i) ≡ xor_bytes iv (ctr_bytes ns j) =
            sym (nonce_number-eq xor_bytes i i g (omega arith) (omega arith))
            ∙ same
            ∙ nonce_number-eq xor_bytes j j g (omega arith) fits in
          let equal : i ≡ j =
            ctr_bytes-injective ns i j (omega arith) (omega arith)
              (sym (undo i) ∙ ap (xor_bytes iv) xored ∙ undo j) in
          absurd (omega arith),
    )
