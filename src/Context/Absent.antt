-- ===== src/Context/Absent.antt =====
-- context/context.go: the walks of `PutIfAbsent` and `Fill`, which find the same keys.
use plampshade.Base.{
  ℕ, zero, suc, ◌≡◌, refl, ap, Bool, true, false, List, [], ◌∷◌, Option, none, some, ◌==◌,
  if◌then◌else◌, if_rule, arith, Option-cases, inl, inr, length, All,
}
use plampshade.Context.{Context, Entry, lookup, defined, deref, next, exists_in}
use plampshade.Context.Filling.{IsPlain, value_in, or_else, innermost, stack}
use plampshade.Context.Fuel.{Older, Older-mono, IsRanked, deref-Older}

module _ {ℓ} {V : Type ℓ} where
  -- A newer context is not on the stack of an older one.
  pub stack-newer :
      (n : ℕ) (o : Option ℕ) (c : Context V) (heap : List (Context V))
      → IsRanked heap
      → Older (length heap) o
      → stack n o (c ∷ heap) ≡ stack n o heap
  unfolding stack
  stack-newer zero o c heap r h = refl
  stack-newer (suc n) none c heap r h = refl
  stack-newer (suc n) (some k) c heap r h =
      let older : (length heap == k) ≡ false = ground arith in
      elim (Option-cases (deref k heap)) [
        | inl e ↦ rw (older, e, stack) refl
        | inr (ctx, e) ↦
            rw (older, e, stack)
              (ap (λ rest. ctx.data_of ∷ rest)
                (stack-newer n (next ctx) c heap r (
                  Older-mono k (length heap) (next ctx) (omega arith)
                    (deref-Older k heap ctx r e))))
      ]

  plain-defined :
      (key : ℕ) (m : List (ℕ × Entry V))
      → All IsPlain m
      → defined (value_in (lookup key m)) ≡ defined (lookup key m)
  plain-defined key [] h = refl
  plain-defined key ((k, e) ∷ m) h =
      let (v, p) = h.0 in
      if_rule (λ (o : Option (Entry V)). defined (value_in o) ≡ defined o) (k == key)
        (λ _. rw p refl) (λ _. plain-defined key m h.1)

  defined-or_else :
      (a b : Option V) (r d : Bool)
      → defined a ≡ d
      → r ≡ defined b
      → (if d then true else r) ≡ defined (or_else a b)
  defined-or_else none b r true h k = cc
  defined-or_else none b r false h k = k
  defined-or_else (some a) b r true h k = refl
  defined-or_else (some a) b r false h k = cc

  -- The loop of `PutIfAbsent` finds a key just where the walk of `Fill` finds a value for it.
  pub exists_in-stack :
      (n key : ℕ) (o : Option ℕ) (heap : List (Context V))
      → All (All IsPlain) (stack n o heap)
      → exists_in n key o heap ≡ defined (innermost key (stack n o heap))
  unfolding exists_in stack
  exists_in-stack zero key o heap h = refl
  exists_in-stack (suc n) key none heap h = refl
  exists_in-stack (suc n) key (some c) heap h = elim (Option-cases (deref c heap)) [
    | inl e ↦ rw (e, exists_in, stack) refl
    | inr (ctx, e) ↦
        let h' = rw (e, stack) at h in
        rw (e, exists_in, stack)
          (defined-or_else (value_in (lookup key ctx.data_of))
            (innermost key (stack n (next ctx) heap)) (exists_in n key (next ctx) heap)
            (defined (lookup key ctx.data_of)) (plain-defined key ctx.data_of h'.0)
            (exists_in-stack n key (next ctx) heap h'.1))
  ]
