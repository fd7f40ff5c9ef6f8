-- ===== src/Ops/Root.antt =====
-- ops/ops.go and context/context.go: what an op finds in its context when it begins.
use mathlib.Core.Path.{subst}
use plampshade.Base.{
  ℕ, suc, ◌≡◌, ◌≢◌, refl, sym, ap, ◌∙◌, Bool, true, false, List, [], ◌∷◌, Option, none, some, ◌==◌,
  if◌then◌else◌, arith, Option-cases, inl, inr, length, All,
}
use plampshade.Context.{
  Context, Entry, static, plain, Manager, lookup, insert, remove, defined, next, make_context,
  enter, update, put, exists_in, put_if_absent, fill_context, as_map,
}
use plampshade.Context.Filling.{IsPlain, value_in, or_else, innermost, stack, lookup-fill_context}
use plampshade.Context.Fuel.{IsValid}
use plampshade.Context.Absent.{stack-newer, exists_in-stack}
use plampshade.Ops.{current_as_map, Ops, begin, op_key, root_op_key}

module _ {ℓ} {V : Type ℓ} where
  -- The entries of a new op, by whether there is a root op already.
  abbrev entries : V → Bool → List (ℕ × Entry V)
  entries name true = (op_key, static (plain name)) ∷ []
  entries name false = (root_op_key, static (plain name)) ∷ ((op_key, static (plain name)) ∷ [])

  abbrev outer : ℕ → Manager V → List (List (ℕ × Entry V))
  outer id cm = stack (length cm.heap) (lookup id cm.contexts) cm.heap

  abbrev new_context : ℕ → Manager V → List (ℕ × Entry V) → Context V
  new_context id cm values = record {
    id = id;
    parent = lookup id cm.contexts;
    branched_from = none;
    data_of = values;
  }

  next-new_context :
      (id : ℕ) (cm : Manager V) (values : List (ℕ × Entry V))
      → next (new_context id cm values) ≡ lookup id cm.contexts
  unfolding next
  next-new_context id cm values = elim (Option-cases (lookup id cm.contexts)) [
    | inl e ↦ rw e refl
    | inr (p, e) ↦ rw e refl
  ]

  root_exists :
      (id : ℕ) (name : V) (cm : Manager V)
      → IsValid cm
      → All (All IsPlain) (outer id cm)
      → exists_in
          (suc (length cm.heap))
          root_op_key
          (some (length cm.heap))
          (new_context id cm (entries name true) ∷ cm.heap)
        ≡ defined (innermost root_op_key (outer id cm))
  unfolding exists_in
  root_exists id name cm v h =
      let c = new_context id cm (entries name true) in
      let n = length cm.heap in
      let self : (n == n) ≡ true = ground arith in
      let same = stack-newer n (lookup id cm.contexts) c cm.heap v.ranked (v.known id) in
      rw (self, exists_in)
        (ap (λ o. exists_in n root_op_key o (c ∷ cm.heap))
            (next-new_context id cm (entries name true))
          ∙ exists_in-stack n root_op_key (lookup id cm.contexts) (c ∷ cm.heap)
              (subst (All (All IsPlain)) (sym same) h)
          ∙ ap (λ ms. defined (innermost root_op_key ms)) same)

  put_top :
      (key : ℕ) (e : Entry V) (c : Context V) (heap : List (Context V)) (cm : Manager V)
      → put (length heap) key e (record cm { heap = c ∷ heap })
        ≡ record cm { heap = record c { data_of = insert key e c.data_of } ∷ heap }
  unfolding put update
  put_top key e c heap cm =
      let self : (length heap == length heap) ≡ true = ground arith in rw self refl

  chosen :
      (id : ℕ) (name : V) (heap : List (Context V)) (cm from : Manager V) (x : Bool)
      → let top = new_context id from (entries name true) in
        (if x
          then record cm { heap = top ∷ heap }
          else put
              (length heap)
              root_op_key
              (static (plain name))
              (record cm { heap = top ∷ heap })).heap
        ≡ new_context id from (entries name x) ∷ heap
  unfolding insert remove
  chosen id name heap cm from true = refl
  chosen id name heap cm from false =
      ap (λ m. m.heap)
        (put_top root_op_key (static (plain name)) (new_context id from (entries name true)) heap
          cm)

  begin-heap :
      (id : ℕ) (name : V) (ops : Ops V)
      → IsValid ops.cm
      → All (All IsPlain) (outer id ops.cm)
      → ((begin id name ops).0.cm.heap
          ≡ new_context id ops.cm (entries name (defined (innermost root_op_key (outer id ops.cm))))
            ∷ ops.cm.heap)
        × ((begin id name ops).1.ctx ≡ length ops.cm.heap)
  unfolding begin enter make_context put_if_absent insert remove
  begin-heap id name ops v h =
      let cm' : Manager V = record ops.cm {
        contexts = insert id (length ops.cm.heap) ops.cm.contexts;
      } in
      let top = new_context id ops.cm (entries name true) in
      (
        ap (λ m. (put_if_absent (length ops.cm.heap) root_op_key (static (plain name)) m).heap)
              (put_top op_key (static (plain name)) (new_context id ops.cm []) ops.cm.heap cm')
            ∙ chosen id name ops.cm.heap cm' ops.cm (
                exists_in (suc (length ops.cm.heap)) root_op_key (some (length ops.cm.heap))
                  (top ∷ ops.cm.heap))
            ∙ ap (λ x. new_context id ops.cm (entries name x) ∷ ops.cm.heap)
                (root_exists id name ops.cm v h),
        refl,
      )

  entries-IsPlain : (name : V) (x : Bool) → All IsPlain (entries name x)
  entries-IsPlain name true = ((name, refl), tt)
  entries-IsPlain name false = ((name, refl), ((name, refl), tt))

  stack-top :
      (id : ℕ) (cm : Manager V) (values : List (ℕ × Entry V))
      → IsValid cm
      → stack (suc (length cm.heap)) (some (length cm.heap)) (new_context id cm values ∷ cm.heap)
        ≡ values ∷ outer id cm
  unfolding stack
  stack-top id cm values v =
      let c = new_context id cm values in
      let n = length cm.heap in
      let self : (n == n) ≡ true = ground arith in
      rw (self, stack)
        (ap (λ o. values ∷ stack n o (c ∷ cm.heap)) (next-new_context id cm values)
          ∙ ap (λ ms. values ∷ ms)
              (stack-newer n (lookup id cm.contexts) c cm.heap v.ranked (v.known id)))

  -- What the context of an op gives for a key.
  lookup-top :
      (id j : ℕ) (cm : Manager V) (name : V) (x : Bool)
      → IsValid cm
      → All (All IsPlain) (outer id cm)
      → lookup j (
          fill_context
            (suc (length cm.heap))
            (some (length cm.heap))
            (new_context id cm (entries name x) ∷ cm.heap)
            [])
        ≡ or_else (value_in (lookup j (entries name x))) (innermost j (outer id cm))
  lookup-top id j cm name x v h =
      let top = stack-top id cm (entries name x) v in
      lookup-fill_context (suc (length cm.heap)) j (some (length cm.heap))
        (new_context id cm (entries name x) ∷ cm.heap) []
        (subst (All (All IsPlain)) (sym top) (entries-IsPlain name x, h))
      ∙ ap (innermost j) top

  op-entries :
      (name : V) (x : Bool) (o : Option V)
      → or_else (value_in (lookup op_key (entries name x))) o ≡ some name
  op-entries name true o = refl
  op-entries name false o = refl

  root-entries :
      (name : V) (o : Option V)
      → or_else (value_in (lookup root_op_key (entries name (defined o)))) o ≡ or_else o (some name)
  root-entries name none = refl
  root-entries name (some v) = refl

  other-entries :
      (j : ℕ) (name : V) (x : Bool) (o : Option V)
      → j ≢ op_key
      → j ≢ root_op_key
      → or_else (value_in (lookup j (entries name x))) o ≡ o
  other-entries j name true o h k = let no : (0 == j) ≡ false = ground arith in rw no refl
  other-entries j name false o h k =
      let no : (0 == j) ≡ false = ground arith in
      let nor : (1 == j) ≡ false = ground arith in rw (no, nor) refl

  -- The values of the op, and those of the context around it, without globals.
  abbrev pub Inherits : ℕ → V → Ops V → Type ℓ
  Inherits id name ops =
      let around = λ (j : ℕ). lookup j (current_as_map id [] false ops) in
      let (ops', o) = begin id name ops in
      let inside = λ (j : ℕ). lookup j (as_map (some o.ctx) [] false ops'.cm) in
      (inside op_key ≡ some name)
      × (inside root_op_key ≡ or_else (around root_op_key) (some name))
      × ((j : ℕ) → j ≢ op_key → j ≢ root_op_key → inside j ≡ around j)

  -- An op that begins on a goroutine, where no value around it is a map, has its name under the
  -- key `op`. Under `root_op` it has what the context around it has there, the name of the
  -- outermost op, or else its own name; and it inherits every other value.
  pub begin-Inherits :
      (id : ℕ) (name : V) (ops : Ops V)
      → IsValid ops.cm
      → All (All IsPlain) (stack (length ops.cm.heap) (lookup id ops.cm.contexts) ops.cm.heap)
      → Inherits id name ops
  unfolding as_map
  begin-Inherits id name ops v h =
      let n = length ops.cm.heap in
      let x = defined (innermost root_op_key (outer id ops.cm)) in
      let (ops', o) = begin id name ops in
      let (heap, ctx) = begin-heap id name ops v h in
      let inside : (j : ℕ)
          → lookup j (as_map (some o.ctx) [] false ops'.cm)
            ≡ or_else (value_in (lookup j (entries name x))) (innermost j (outer id ops.cm)) =
        λ j.
          ap (λ hp. lookup j (fill_context (length hp) (some o.ctx) hp [])) heap
          ∙ ap
              (λ c. lookup j (
                fill_context (suc n) (some c) (new_context id ops.cm (entries name x) ∷ ops.cm.heap)
                  []))
              ctx
          ∙ lookup-top id j ops.cm name x v h in
      let around : (j : ℕ)
          → lookup j (as_map (lookup id ops.cm.contexts) [] false ops.cm)
            ≡ innermost j (outer id ops.cm) =
        λ j. lookup-fill_context n j (lookup id ops.cm.contexts) ops.cm.heap [] h in
      (
        inside op_key ∙ op-entries name x (innermost op_key (outer id ops.cm)),
        inside root_op_key
            ∙ root-entries name (innermost root_op_key (outer id ops.cm))
            ∙ ap (λ r. or_else r (some name)) (sym (around root_op_key)),
        λ j p q.
            inside j ∙ other-entries j name x (innermost j (outer id ops.cm)) p q ∙ sym (around j),
      )
