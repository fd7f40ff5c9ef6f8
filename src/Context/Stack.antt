-- ===== src/Context/Stack.antt =====
-- context/context.go: entering and leaving contexts, branching and merging.
use plampshade.Base.{
  ℕ, ◌≡◌, refl, ap, ◌∙◌, Option, none, some, ◌==◌, if◌then◌else◌, arith, ==_iff, Bool-cases, inl,
  inr, length,
}
use plampshade.Context.{current_context, lookup, insert, Manager, exit, branch, merge}
use plampshade.Context.Filling.{lookup-remove, lookup-insert}

module _ {ℓ} {V : Type ℓ} where
  pub exit-current_context :
      (id j c : ℕ) (parent : Option ℕ) (cm t : Manager V)
      → parent ≡ lookup id cm.contexts
      → t.contexts ≡ insert id c cm.contexts
      → current_context j (exit id parent t) ≡ current_context j cm
  unfolding exit
  exit-current_context id j c none cm t h k = elim (Bool-cases (id == j)) [
    | inl e ↦
        let same : id ≡ j = (==_iff id j).0 e in
        lookup-remove id j t.contexts ∙ rw e (h ∙ ap (λ x. lookup x cm.contexts) same)
    | inr e ↦
        lookup-remove id j t.contexts
        ∙ rw e (ap (lookup j) k ∙ lookup-insert id j c cm.contexts ∙ rw e refl)
  ]
  exit-current_context id j c (some p) cm t h k = elim (Bool-cases (id == j)) [
    | inl e ↦
        let same : id ≡ j = (==_iff id j).0 e in
        lookup-insert id j p t.contexts ∙ rw e (h ∙ ap (λ x. lookup x cm.contexts) same)
    | inr e ↦
        lookup-insert id j p t.contexts
        ∙ rw e (ap (lookup j) k ∙ lookup-insert id j c cm.contexts ∙ rw e refl)
  ]

  -- While a branch runs its goroutine has a context of its own; after it the goroutine has none,
  -- and the other ones keep theirs throughout.
  pub merge-branch :
      (id from j : ℕ) (cm : Manager V)
      → (current_context j (branch id from cm)
          ≡ (if id == j then some (length cm.heap) else current_context j cm))
        × (current_context j (merge id (branch id from cm))
            ≡ (if id == j then none else current_context j cm))
  unfolding branch merge
  merge-branch id from j cm =
      let c = length cm.heap in
      (
        lookup-insert id j c cm.contexts,
        lookup-remove id j (insert id c cm.contexts)
            ∙ ap (λ x. if id == j then none else x) (lookup-insert id j c cm.contexts)
            ∙ ground arith,
      )
