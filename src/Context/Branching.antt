-- ===== src/Context/Branching.antt =====
-- context/context.go: what a function that `Go` starts on a goroutine of its own finds there, and
-- leaves.
use mathlib.Core.Path.{subst}
use plampshade.Base.{
  ℕ, suc, ◌≡◌, ◌≢◌, refl, sym, ap, ◌∙◌, true, false, [], ◌∷◌, Option, none, some, ◌==◌, arith,
  ==_iff, Bool-cases, Option-cases, inl, inr, length, All,
}
use plampshade.Context.{
  manager_as_map, current_context, Context, Manager, lookup, next, make_context, branch, start_go,
  go, merge, fill_context, as_map,
}
use plampshade.Context.Filling.{IsPlain, lookup-remove, stack, innermost, lookup-fill_context}
use plampshade.Context.Fuel.{IsValid, Older}
use plampshade.Context.Absent.{stack-newer}
use plampshade.Context.Stack.{merge-branch}

module _ {ℓ} {V : Type ℓ} where
  -- What `AsMap` gives on a goroutine for a key, without globals.
  abbrev pub value_at : ℕ → ℕ → Manager V → Option V
  value_at j id cm = lookup j (manager_as_map id [] false cm)

  abbrev branched : ℕ → ℕ → Context V
  branched id from = record { id = id; parent = none; branched_from = some from; data_of = [] }

  stack-branched :
      (id me c : ℕ) (cm : Manager V)
      → IsValid cm
      → current_context me cm ≡ some c
      → stack (suc (length cm.heap)) (some (length cm.heap)) (branched id c ∷ cm.heap)
        ≡ [] ∷ stack (length cm.heap) (some c) cm.heap
  unfolding stack next
  stack-branched id me c cm v e =
      let n = length cm.heap in
      let self : (n == n) ≡ true = ground arith in
      rw (self, stack)
        (ap (λ ms. [] ∷ ms)
          (stack-newer n (some c) (branched id c) cm.heap v.ranked
            (subst (Older n) e (v.known me))))

  current_context-branch :
      (id c : ℕ) (cm : Manager V) → current_context id (branch id c cm) ≡ some (length cm.heap)
  current_context-branch id c cm =
      let self : (id == id) ≡ true = ground arith in (merge-branch id c id cm).0 ∙ rw self refl

  branch-value_at :
      (j id me c : ℕ) (cm : Manager V)
      → IsValid cm
      → current_context me cm ≡ some c
      → All (All IsPlain) (stack (length cm.heap) (some c) cm.heap)
      → value_at j id (branch id c cm) ≡ innermost j (stack (length cm.heap) (some c) cm.heap)
  unfolding as_map branch make_context
  branch-value_at j id me c cm v e h =
      let n = length cm.heap in
      let s = stack-branched id me c cm v e in
      ap (λ o. lookup j (fill_context (suc n) o (branched id c ∷ cm.heap) []))
        (current_context-branch id c cm)
      ∙ lookup-fill_context (suc n) j (some n) (branched id c ∷ cm.heap) []
          (subst (All (All IsPlain)) (sym s) (tt, h))
      ∙ ap (innermost j) s

  value_at-innermost :
      (j me : ℕ) (cm : Manager V)
      → All (All IsPlain) (stack (length cm.heap) (current_context me cm) cm.heap)
      → value_at j me cm ≡ innermost j (stack (length cm.heap) (current_context me cm) cm.heap)
  unfolding as_map
  value_at-innermost j me cm h =
      lookup-fill_context (length cm.heap) j (current_context me cm) cm.heap [] h

  start_go-none :
      (id me : ℕ) (cm : Manager V) → current_context me cm ≡ none → start_go id me cm ≡ cm
  unfolding start_go
  start_go-none id me cm e = rw (e, start_go) refl

  start_go-some :
      (id me c : ℕ) (cm : Manager V)
      → current_context me cm ≡ some c
      → start_go id me cm ≡ branch id c cm
  unfolding start_go
  start_go-some id me c cm e = rw (e, start_go) refl

  go-none :
      (id me : ℕ) (cm : Manager V) (fn : Manager V → Manager V)
      → current_context me cm ≡ none
      → go id me fn cm ≡ fn (start_go id me cm)
  unfolding go
  go-none id me cm fn e = rw (e, go) refl

  go-some :
      (id me c : ℕ) (cm : Manager V) (fn : Manager V → Manager V)
      → current_context me cm ≡ some c
      → go id me fn cm ≡ merge id (fn (start_go id me cm))
  unfolding go
  go-some id me c cm fn e = rw (e, go) refl

  merge-current_context :
      (id c k : ℕ) (cm ran : Manager V)
      → current_context id cm ≡ none
      → current_context k ran ≡ current_context k (branch id c cm)
      → current_context k (merge id ran) ≡ current_context k cm
  unfolding merge
  merge-current_context id c k cm ran free kept = elim (Bool-cases (id == k)) [
    | inl e ↦
        let same : id ≡ k = (==_iff id k).0 e in
        lookup-remove id k ran.contexts ∙ rw e (sym free ∙ ap (λ x. current_context x cm) same)
    | inr e ↦ lookup-remove id k ran.contexts ∙ rw e (kept ∙ (merge-branch id c k cm).0 ∙ rw e refl)
  ]

  -- On a goroutine without a context of its own, where no value of the one that calls `Go` is a
  -- map: the function that `Go` starts there finds what the context of the caller has; the other
  -- goroutines keep their contexts; and if the function leaves the contexts that it enters, each
  -- goroutine has after it the context that it had before.
  pub start_go-value_at :
      (id me : ℕ) (cm : Manager V) (fn : Manager V → Manager V)
      → IsValid cm
      → current_context id cm ≡ none
      → All (All IsPlain) (stack (length cm.heap) (current_context me cm) cm.heap)
      → ((k : ℕ)
          → current_context k (fn (start_go id me cm)) ≡ current_context k (start_go id me cm))
      → ((j : ℕ) → value_at j id (start_go id me cm) ≡ value_at j me cm)
        × ((k : ℕ) → k ≢ id → current_context k (start_go id me cm) ≡ current_context k cm)
        × ((k : ℕ) → current_context k (go id me fn cm) ≡ current_context k cm)
  start_go-value_at id me cm fn v free h kept = elim (Option-cases (current_context me cm)) [
    | inl e ↦
        let same = start_go-none id me cm e in
        (
          λ j. ap (value_at j id) same ∙ ap (λ o. lookup j (as_map o [] false cm)) (free ∙ sym e),
          λ k d. ap (current_context k) same,
          λ k.
              ap (current_context k) (go-none id me cm fn e) ∙ kept k ∙ ap (current_context k) same,
        )
    | inr (c, e) ↦
        let same = start_go-some id me c cm e in
        (
          λ j.
              ap (value_at j id) same
              ∙ branch-value_at j id me c cm v e
                  (subst (λ o. All (All IsPlain) (stack (length cm.heap) o cm.heap)) e h)
              ∙ ap (λ o. innermost j (stack (length cm.heap) o cm.heap)) (sym e)
              ∙ sym (value_at-innermost j me cm h),
          λ k d.
              let other : (id == k) ≡ false = ground arith in
              ap (current_context k) same ∙ (merge-branch id c k cm).0 ∙ rw other refl,
          λ k.
              ap (current_context k) (go-some id me c cm fn e)
              ∙ merge-current_context id c k cm (fn (start_go id me cm)) free
                  (kept k ∙ ap (current_context k) same),
        )
  ]
