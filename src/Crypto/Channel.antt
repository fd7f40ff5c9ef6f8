-- ===== src/Crypto/Channel.antt =====
-- crypto.go: the functions that `newEncrypter` and `newDecrypter` return, on one packet.
use plampshade.Base.{ℕ, ◌≡◌, List, Option, none, some}
use plampshade.Crypto.Keys.{Aead}
use plampshade.Crypto.Nonce.{nonce}
use plampshade.Crypto.Suits.{Crypter}

-- `xorBytes`, and `Seal` and `Open` of the AEADs.
pub record Primitives : Type 0 where
  pub xor_bytes : List ℕ → List ℕ → List ℕ
  pub seal : Aead → List ℕ → List ℕ → List ℕ
  pub unseal : Aead → List ℕ → List ℕ → Option (List ℕ)

module _ (lib : Primitives) where
  unfoldable pub encrypt : Crypter → List ℕ → List ℕ × Crypter
  encrypt none src = (src, none)
  encrypt (some (aead, g)) src =
      let (n, g') = nonce lib.xor_bytes g in (lib.seal aead n src, some (aead, g'))

  -- The counter goes on whether or not the packet is authentic.
  unfoldable pub decrypt : Crypter → List ℕ → Option (List ℕ) × Crypter
  decrypt none b = (some b, none)
  decrypt (some (aead, g)) b =
      let (n, g') = nonce lib.xor_bytes g in (lib.unseal aead n b, some (aead, g'))

-- Each packet authentic.
abbrev pub Unseals : Primitives → Type 0
Unseals lib = (a : Aead) (n p : List ℕ) → lib.unseal a n (lib.seal a n p) ≡ some p
