-- ===== src/Conn.antt =====
-- netx/wrap.go: connections that wrap others, and the walk over them. A connection is what it is
-- itself, `A`, and the one that it wraps.
use plampshade.Base.{Bool, List, [], ◌∷◌, if◌then◌else◌}

pub data Conn {ℓ} (A : Type ℓ) : Type ℓ where
  plain : A → Conn A
  wrapped : A → Conn A → Conn A

-- `WalkWrapped`. The callback works on a state, the variables of its closure.
unfoldable pub walk_wrapped {ℓ κ} :
    {A : Type ℓ} {S : Type κ} → (Conn A → S → S × Bool) → Conn A → S → S
walk_wrapped cb (plain a) s = (cb (plain a) s).0
walk_wrapped cb (wrapped a c) s =
    let (s', goes_on) = cb (wrapped a c) s in
    let rest = walk_wrapped cb c s' in if goes_on then rest else s'

-- What a layer is, from the outermost one in.
abbrev pub layer {ℓ} : {A : Type ℓ} → Conn A → A
layer (plain a) = a
layer (wrapped a c) = a

abbrev pub layers {ℓ} : {A : Type ℓ} → Conn A → List A
layers (plain a) = a ∷ []
layers (wrapped a c) = a ∷ layers c
