-- ===== src/Context.antt =====
-- context/context.go: the stack of contexts of a goroutine. A context is a number into a heap of
-- contexts, which stands for the pointers; a Go map is a list of pairs whose first match counts.
-- Keys and goroutine ids are numbers, static values are parameters of the type `V`.
pub mod Stack
pub mod Filling
pub mod Fuel
pub mod Walks
pub mod Absent
pub mod Branching
use plampshade.Base.{
  ℕ, zero, suc, ◌+◌, Bool, true, false, List, [], ◌∷◌, ◌++◌, Option, none, some, ◌==◌,
  if◌then◌else◌, length,
}

-- What a key can hold: a static value, a map, or a `dynval`, whose function has a value now.
pub data Value {ℓ} (V : Type ℓ) : Type ℓ where
  plain : V → Value V
  nested : List (ℕ × V) → Value V

pub data Entry {ℓ} (V : Type ℓ) : Type ℓ where
  static : Value V → Entry V
  dynval : Value V → Entry V

module _ {ℓ} {A : Type ℓ} where
  abbrev pub lookup : ℕ → List (ℕ × A) → Option A
  lookup k [] = none
  lookup k ((j, a) ∷ m) = if j == k then some a else lookup k m

  abbrev pub defined : Option A → Bool
  defined none = false
  defined (some a) = true

  unfoldable pub remove : ℕ → List (ℕ × A) → List (ℕ × A)
  remove k [] = []
  remove k ((j, a) ∷ m) = let rest = remove k m in if j == k then rest else (j, a) ∷ rest

  -- `m[k] = a`; no key stands twice.
  unfoldable pub insert : ℕ → A → List (ℕ × A) → List (ℕ × A)
  insert k a m = (k, a) ∷ remove k m

-- `context`, less its manager.
pub record Context {ℓ} (V : Type ℓ) : Type ℓ where
  pub id : ℕ
  pub parent : Option ℕ
  pub branched_from : Option ℕ
  pub data_of : List (ℕ × Entry V)

-- `manager` with the heap: the context with number n is the one with n contexts made before it.
pub record Manager {ℓ} (V : Type ℓ) : Type ℓ where
  pub heap : List (Context V)
  pub contexts : List (ℕ × ℕ)
  pub global : List (ℕ × Entry V)

module _ {ℓ} {V : Type ℓ} where
  abbrev pub new_manager : Manager V
  new_manager = record { heap = []; contexts = []; global = [] }

  -- Latest first, so that the number of a context is the length of what is behind it.
  abbrev pub deref : ℕ → List (Context V) → Option (Context V)
  deref n [] = none
  deref n (c ∷ heap) = if length heap == n then some c else deref n heap

  -- `makeContext`: the manager and the number of the new context.
  unfoldable pub make_context : ℕ → Option ℕ → Option ℕ → Manager V → Manager V × ℕ
  make_context id parent branched_from cm = (
    record cm {
      heap =
          record { id = id; parent = parent; branched_from = branched_from; data_of = [] }
          ∷ cm.heap;
    },
    length cm.heap,
  )

  unfoldable pub enter : ℕ → Manager V → Manager V × ℕ
  unfolding make_context
  enter id cm =
      let (cm', c) = make_context id (lookup id cm.contexts) none cm in
      (record cm' { contexts = insert id c cm'.contexts }, c)

  unfoldable pub exit : ℕ → Option ℕ → Manager V → Manager V
  exit id parent cm = elim parent [
    | none ↦ record cm { contexts = remove id cm.contexts }
    | some p ↦ record cm { contexts = insert id p cm.contexts }
  ]

  unfoldable pub branch : ℕ → ℕ → Manager V → Manager V
  unfolding make_context
  branch id from cm =
      let (cm', next) = make_context id none (some from) cm in
      record cm' { contexts = insert id next cm'.contexts }

  unfoldable pub merge : ℕ → Manager V → Manager V
  merge id cm = record cm { contexts = remove id cm.contexts }

  -- `currentContext` on the goroutine `id`.
  abbrev pub current_context : ℕ → Manager V → Option ℕ
  current_context id cm = lookup id cm.contexts

  -- `Go` of the manager on goroutine `me`, up to the start of the function on goroutine `id`.
  unfoldable pub start_go : ℕ → ℕ → Manager V → Manager V
  start_go id me cm = elim (current_context me cm) [ none ↦ cm | some c ↦ branch id c cm ]

  -- `Go` with all that happens from the start of the function to its end. Without a current context
  -- the function runs on its own.
  unfoldable pub go : ℕ → ℕ → (Manager V → Manager V) → Manager V → Manager V
  unfolding start_go
  go id me fn cm =
      let ran = fn (start_go id me cm) in
      elim (current_context me cm) [ none ↦ ran | some c ↦ merge id ran ]

  -- `Exit` of the context with number `c`. A number that is not in the heap does not occur.
  unfoldable pub exit_context : ℕ → Manager V → Manager V
  exit_context c cm = elim (deref c cm.heap) [ none ↦ cm | some ctx ↦ exit ctx.id ctx.parent cm ]

  unfoldable pub update : ℕ → (Context V → Context V) → List (Context V) → List (Context V)
  update n f [] = []
  update n f (c ∷ heap) =
      let rest = update n f heap in if length heap == n then f c ∷ heap else c ∷ rest

  -- `Put`, by the entry.
  unfoldable pub put : ℕ → ℕ → Entry V → Manager V → Manager V
  put c key value cm = record cm {
    heap = update c (λ ctx. record ctx { data_of = insert key value ctx.data_of }) cm.heap;
  }

  -- `PutDynamic` of a function that has the value `now`.
  abbrev pub put_dynamic : ℕ → ℕ → Value V → Manager V → Manager V
  put_dynamic c key now cm = put c key (dynval now) cm

  -- The context that the loops of `PutIfAbsent` and `Fill` go to next.
  unfoldable pub next : Context V → Option ℕ
  next ctx = elim ctx.parent [ none ↦ ctx.branched_from | some p ↦ some p ]

  -- The loop of `PutIfAbsent`. The fuel is the number of contexts.
  unfoldable pub exists_in : ℕ → ℕ → Option ℕ → List (Context V) → Bool
  exists_in zero key c heap = false
  exists_in (suc n) key none heap = false
  exists_in (suc n) key (some c) heap = elim (deref c heap) [
    | none ↦ false
    | some ctx ↦
        (let rest = exists_in n key (next ctx) heap in
          if defined (lookup key ctx.data_of) then true else rest)
  ]

  unfoldable pub put_if_absent : ℕ → ℕ → Entry V → Manager V → Manager V
  put_if_absent c key value cm =
      if exists_in (length cm.heap) key (some c) cm.heap then cm else put c key value cm

  unfoldable pub put_global : ℕ → Entry V → Manager V → Manager V
  put_global key value cm = record cm { global = insert key value cm.global }

  abbrev pub put_global_dynamic : ℕ → Value V → Manager V → Manager V
  put_global_dynamic key now cm = put_global key (dynval now) cm

  -- The unpacking of a map in `doFill`, and `Map.Fill`.
  unfoldable pub fill_map : List (ℕ × V) → List (ℕ × V) → List (ℕ × V)
  fill_map [] m = m
  fill_map ((k, v) ∷ from) m = fill_map from (insert k v m)

  unfoldable pub do_fill : ℕ → Value V → List (ℕ × V) → List (ℕ × V)
  do_fill key (plain v) m = insert key v m
  do_fill key (nested values) m = fill_map values m

  abbrev pub value_of : Entry V → Value V
  value_of (static v) = v
  value_of (dynval v) = v

  -- `fill`, for a map `m` that is not nil.
  unfoldable pub fill : List (ℕ × Entry V) → List (ℕ × V) → List (ℕ × V)
  fill [] m = m
  fill ((key, e) ∷ from) m =
      fill from (if defined (lookup key m) then m else do_fill key (value_of e) m)

  -- `context.Fill`.
  unfoldable pub fill_context : ℕ → Option ℕ → List (Context V) → List (ℕ × V) → List (ℕ × V)
  fill_context zero c heap m = m
  fill_context (suc n) none heap m = m
  fill_context (suc n) (some c) heap m = elim (deref c heap) [
    | none ↦ m
    | some ctx ↦ fill_context n (next ctx) heap (fill ctx.data_of m)
  ]

  -- `asMap`; `own` is what the `Contextual` fills in.
  unfoldable pub as_map : Option ℕ → List (ℕ × V) → Bool → Manager V → List (ℕ × V)
  as_map c own include_globals cm =
      let m = fill_context (length cm.heap) c cm.heap own in
      if include_globals then fill cm.global m else m

  -- `AsMap` of the manager on the goroutine `id`.
  abbrev pub manager_as_map : ℕ → List (ℕ × V) → Bool → Manager V → List (ℕ × V)
  manager_as_map id own include_globals cm = as_map (current_context id cm) own include_globals cm
