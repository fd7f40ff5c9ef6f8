-- ===== src/Tests/Handshakes.antt =====
-- In place of RSA: the length of a text and the text itself, with zeros behind it.
use plampshade.Base.{
  ℕ, ◌-◌, ◌≡◌, refl, ap, ◌∙◌, true, List, [], ◌∷◌, ◌++◌, Option, none, some, leb, leb→le, sym,
  if◌then◌else◌, length, length-append, length-replicate, replicate, take, take-append, arith,
  Bool-cases, inl, inr,
}
use plampshade.Crypto.Init.{IsOaep}

unfoldable pub padded_out : List ℕ → Option (List ℕ)
padded_out pt =
    if leb (length pt) 190 then some (length pt ∷ (pt ++ replicate (255 - length pt) 0)) else none

abbrev pub cut_back : List ℕ → Option (List ℕ)
cut_back [] = none
cut_back (n ∷ c) = some (take n c)

pub padded_out-IsOaep : IsOaep padded_out cut_back
unfolding padded_out
padded_out-IsOaep pt h =
    let fits : leb (length pt) 190 ≡ true = ground arith in
    (
      length pt ∷ (pt ++ replicate (255 - length pt) 0),
      rw fits refl,
      ap some (take-append (length pt) pt (replicate (255 - length pt) 0) refl),
    )

abbrev length_of : Option (List ℕ) → ℕ
length_of none = 256
length_of (some msg) = length msg

pub length-padded_out : (pt msg : List ℕ) → padded_out pt ≡ some msg → length msg ≡ 256
unfolding padded_out
length-padded_out pt msg e =
    let whole : length_of (padded_out pt) ≡ 256 = elim (Bool-cases (leb (length pt) 190)) [
      | inl f ↦ rw f (
          omega (
            arith,
            length-append pt (replicate (255 - length pt) 0),
            length-replicate {A = ℕ} (255 - length pt) 0,
            leb→le (length pt) 190 f,
          ))
      | inr f ↦ rw f refl
    ] in
    sym (ap length_of e) ∙ whole
