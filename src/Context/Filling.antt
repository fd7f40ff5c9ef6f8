-- ===== src/Context/Filling.antt =====
-- context/context.go: which value a filled map holds for a key.
use plampshade.Base.{
  ℕ, zero, suc, ◌≡◌, refl, sym, ap, ◌∙◌, Bool, true, false, List, [], ◌∷◌, Option, none, some, ◌==◌,
  if◌then◌else◌, if_rule, arith, ==_iff, Bool-cases, Option-cases, inl, inr, length, All,
}
use plampshade.Context.{
  Value, plain, nested, Entry, lookup, insert, remove, Context, deref, defined, next, value_of,
  do_fill, fill, fill_context, as_map, Manager,
}

module _ {ℓ} {A : Type ℓ} where
  pub lookup-remove :
      (k j : ℕ) (m : List (ℕ × A)) → lookup j (remove k m) ≡ (if k == j then none else lookup j m)
  unfolding remove
  lookup-remove k j [] = ground arith
  lookup-remove k j ((i, a) ∷ m) = ground (arith, lookup-remove k j m)

  pub lookup-insert :
      (k j : ℕ) (a : A) (m : List (ℕ × A))
      → lookup j (insert k a m) ≡ (if k == j then some a else lookup j m)
  unfolding insert
  lookup-insert k j a m = ground (arith, lookup-remove k j m)

module _ {ℓ} {A : Type ℓ} where
  -- The first of two that is there.
  abbrev pub or_else : Option A → Option A → Option A
  or_else none b = b
  or_else (some a) b = some a

  or_else-defined : (a b c : Option A) → defined a ≡ true → or_else a b ≡ or_else a c
  or_else-defined none b c h = cc
  or_else-defined (some a) b c h = refl

  or_else-none : (a : Option A) → a ≡ or_else a none
  or_else-none none = refl
  or_else-none (some a) = refl

  or_else_assoc : (a b c : Option A) → or_else (or_else a b) c ≡ or_else a (or_else b c)
  or_else_assoc none b c = refl
  or_else_assoc (some a) b c = refl

module _ {ℓ} {V : Type ℓ} where
  -- An entry that is no map.
  abbrev pub IsPlain : (ℕ × Entry V) → Type ℓ
  IsPlain (k, e) = (v : V) × (value_of e ≡ plain v)

  abbrev pub plain_of : Value V → Option V
  plain_of (plain v) = some v
  plain_of (nested vs) = none

  abbrev pub value_in : Option (Entry V) → Option V
  value_in none = none
  value_in (some e) = plain_of (value_of e)

  fill_one :
      (j k : ℕ) (v : V) (m : List (ℕ × V)) (r : Option (Entry V)) (e : Entry V)
      → value_of e ≡ plain v
      → lookup k m ≡ none
      → or_else (lookup j (insert k v m)) (value_in r)
        ≡ or_else (lookup j m) (value_in (if k == j then some e else r))
  fill_one j k v m r e h n = elim (Bool-cases (k == j)) [
    | inl q ↦
        let same : k ≡ j = (==_iff k j).0 q in
        let absent : lookup j m ≡ none = ap (λ x. lookup x m) (sym same) ∙ n in
        rw (lookup-insert k j v m, q, absent) (ap plain_of (sym h))
    | inr q ↦ rw (lookup-insert k j v m, q) refl
  ]

  fill_none :
      (j k : ℕ) (m : List (ℕ × V)) (r : Option (Entry V)) (e : Entry V)
      → defined (lookup k m) ≡ true
      → or_else (lookup j m) (value_in r)
        ≡ or_else (lookup j m) (value_in (if k == j then some e else r))
  fill_none j k m r e h = elim (Bool-cases (k == j)) [
    | inl q ↦
        let same : k ≡ j = (==_iff k j).0 q in
        or_else-defined (lookup j m) _ _ (ap (λ x. defined (lookup x m)) (sym same) ∙ h)
    | inr q ↦ rw q refl
  ]

  undefined : (o : Option V) → defined o ≡ false → o ≡ none
  undefined none h = refl
  undefined (some a) h = cc

  -- A key keeps the value it has, and gets that of the map filled in otherwise.
  lookup-fill :
      (j : ℕ) (from : List (ℕ × Entry V)) (m : List (ℕ × V))
      → All IsPlain from
      → lookup j (fill from m) ≡ or_else (lookup j m) (value_in (lookup j from))
  unfolding fill do_fill
  lookup-fill j [] m h = or_else-none (lookup j m)
  lookup-fill j ((k, e) ∷ from) m ((v, p), rest) =
      if_rule
        (λ (t : List (ℕ × V)).
          lookup j (fill from t) ≡ or_else (lookup j m) (value_in (lookup j ((k, e) ∷ from))))
        (defined (lookup k m))
        (λ d. lookup-fill j from m rest ∙ fill_none j k m (lookup j from) e d)
        (λ d.
          rw (p, do_fill)
            (lookup-fill j from (insert k v m) rest
              ∙ fill_one j k v m (lookup j from) e p (undefined (lookup k m) d)))

  -- The maps from a context along its parents, or the context it was branched from.
  unfoldable pub stack : ℕ → Option ℕ → List (Context V) → List (List (ℕ × Entry V))
  stack zero c heap = []
  stack (suc n) none heap = []
  stack (suc n) (some c) heap = elim (deref c heap) [
    | none ↦ []
    | some ctx ↦ ctx.data_of ∷ stack n (next ctx) heap
  ]

  -- The value of the innermost map that has the key.
  abbrev pub innermost : ℕ → List (List (ℕ × Entry V)) → Option V
  innermost j [] = none
  innermost j (m ∷ ms) = or_else (value_in (lookup j m)) (innermost j ms)

  pub lookup-fill_context :
      (n j : ℕ) (c : Option ℕ) (heap : List (Context V)) (m : List (ℕ × V))
      → All (All IsPlain) (stack n c heap)
      → lookup j (fill_context n c heap m) ≡ or_else (lookup j m) (innermost j (stack n c heap))
  unfolding fill_context stack
  lookup-fill_context zero j c heap m h = or_else-none (lookup j m)
  lookup-fill_context (suc n) j none heap m h = or_else-none (lookup j m)
  lookup-fill_context (suc n) j (some c) heap m h = elim (Option-cases (deref c heap)) [
    | inl e ↦ rw (e, fill_context, stack) (or_else-none (lookup j m))
    | inr (ctx, e) ↦
        let h' = rw (e, stack) at h in
        rw (e, fill_context, stack)
          (lookup-fill_context n j (next ctx) heap (fill ctx.data_of m) h'.1
            ∙ ap (λ x. or_else x (innermost j (stack n (next ctx) heap)))
                (lookup-fill j ctx.data_of m h'.0)
            ∙ or_else_assoc (lookup j m) (value_in (lookup j ctx.data_of))
                (innermost j (stack n (next ctx) heap)))
  ]

  -- If no entry is a map, `AsMap` gives a key the value that its argument has for it, or else
  -- that of the innermost context of the stack, or else that of the globals if they are asked
  -- for.
  pub lookup-as_map :
      (j : ℕ) (c : Option ℕ) (own : List (ℕ × V)) (include_globals : Bool) (cm : Manager V)
      → All (All IsPlain) (stack (length cm.heap) c cm.heap)
      → All IsPlain cm.global
      → lookup j (as_map c own include_globals cm)
        ≡ or_else (lookup j own) (
            or_else
              (innermost j (stack (length cm.heap) c cm.heap))
              (if include_globals then value_in (lookup j cm.global) else none))
  unfolding as_map
  lookup-as_map j c own true cm h g =
      let m = fill_context (length cm.heap) c cm.heap own in
      lookup-fill j cm.global m g
      ∙ ap (λ x. or_else x (value_in (lookup j cm.global)))
          (lookup-fill_context (length cm.heap) j c cm.heap own h)
      ∙ or_else_assoc (lookup j own) (innermost j (stack (length cm.heap) c cm.heap))
          (value_in (lookup j cm.global))
  lookup-as_map j c own false cm h g =
      lookup-fill_context (length cm.heap) j c cm.heap own h
      ∙ ap (or_else (lookup j own)) (or_else-none (innermost j (stack (length cm.heap) c cm.heap)))
