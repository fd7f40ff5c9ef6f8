-- ===== src/Uint/Goroutine.antt =====
-- context/gotrack.go, `curGoroutineID`: the number in the first line of a stack trace. The trace that
-- `runtime.Stack` writes is a parameter, of which the buffer takes 64 bytes.
use Prim.Native.Char.{code}
use Prim.Native.String.{String}
use plampshade.Base.{ℕ, suc, List, [], ◌∷◌, Option, none, some, ◌==◌, if◌then◌else◌, take}
use plampshade.Uint.{Parsed, parsed, failed, parse_uint_bytes}

-- The bytes of an ASCII text.
abbrev pub codes : String → List ℕ
codes String.[] = []
codes (String.◌∷◌ c s) = code c ∷ codes s

abbrev pub goroutine_space : List ℕ
goroutine_space = codes "goroutine "

abbrev pub space : ℕ
space = b' '

-- What follows a prefix, if it is there.
unfoldable pub behind_prefix : List ℕ → List ℕ → Option (List ℕ)
behind_prefix [] s = some s
behind_prefix (p ∷ prefix) [] = none
behind_prefix (p ∷ prefix) (c ∷ s) =
    let rest = behind_prefix prefix s in if p == c then rest else none

-- `bytes.TrimPrefix`
unfoldable pub trim_prefix : List ℕ → List ℕ → List ℕ
unfolding behind_prefix
trim_prefix s prefix = elim (behind_prefix prefix s) [ none ↦ s | some rest ↦ rest ]

-- `bytes.IndexByte`; none stands for -1.
unfoldable pub index_byte : List ℕ → ℕ → Option ℕ
index_byte [] c = none
index_byte (d ∷ s) c =
    let rest : Option ℕ = elim (index_byte s c) [ none ↦ none | some i ↦ some (suc i) ] in
    if d == c then some 0 else rest

pub data Goroutine : Type 0 where
  id : ℕ → Goroutine
  panicked : Goroutine

abbrev pub identified : Parsed → Goroutine
identified (parsed n) = id n
identified (failed n e) = panicked

-- The number in front of the first space.
unfoldable pub read_id : List ℕ → Goroutine
read_id b = elim (index_byte b space) [
  | none ↦ panicked
  | some i ↦ identified (parse_uint_bytes (take i b) 10 64)
]

unfoldable pub cur_goroutine_id : List ℕ → Goroutine
cur_goroutine_id trace = read_id (trim_prefix (take 64 trace) goroutine_space)
