-- ===== src/Ops/Nesting.antt =====
-- An op from its begin to its end: the contexts of the goroutines and the reports.
use plampshade.Base.{
  ℕ, ◌≡◌, refl, ap, ◌∙◌, true, List, [], ◌∷◌, ◌++◌, Option, none, some, ◌==◌, if_rule, arith,
  Bool-cases, Option-cases, inl, inr, length,
}
use plampshade.Context.{
  current_context, Context, Entry, static, plain, Manager, lookup, insert, deref, make_context,
  enter, exit, exit_context, update, put, put_if_absent, exists_in,
}
use plampshade.Context.Stack.{exit-current_context}
use plampshade.Ops.{Ops, Op, Failure, Report, begin, set, report_all}

module _ {ℓ} {V : Type ℓ} where
  -- What `Exit` needs of a context.
  abbrev place_of : Option (Context V) → Option (ℕ × Option ℕ)
  place_of none = none
  place_of (some ctx) = some (ctx.id, ctx.parent)

  abbrev leave : Option (ℕ × Option ℕ) → Manager V → Manager V
  leave none cm = cm
  leave (some (id, parent)) cm = exit id parent cm

  exit_context-leave :
      (c : ℕ) (cm : Manager V) → exit_context c cm ≡ leave (place_of (deref c cm.heap)) cm
  unfolding exit_context
  exit_context-leave c cm = elim (Option-cases (deref c cm.heap)) [
    | inl e ↦ rw (e, exit_context) refl
    | inr (ctx, e) ↦ rw (e, exit_context) refl
  ]

  -- The current contexts, and where each context was entered, stay as they are.
  pub record Keeps (s t : Manager V) : Type ℓ where
    pub currents : t.contexts ≡ s.contexts
    places : (n : ℕ) → place_of (deref n t.heap) ≡ place_of (deref n s.heap)

  Keeps_refl : (s : Manager V) → Keeps s s
  Keeps_refl s = record { currents = refl; places = λ n. refl }

  pub Keeps_trans : (s t u : Manager V) → Keeps s t → Keeps t u → Keeps s u
  Keeps_trans s t u h k = record {
    currents = k.currents ∙ h.currents;
    places = λ n. k.places n ∙ h.places n;
  }

  length-update :
      (n : ℕ) (f : Context V → Context V) (heap : List (Context V))
      → length (update n f heap) ≡ length heap
  unfolding update
  length-update n f [] = refl
  length-update n f (c ∷ heap) = ground (arith, length-update n f heap)

  place_of-update :
      (n k : ℕ) (key : ℕ) (value : Entry V) (heap : List (Context V))
      → place_of
          (deref n (update k (λ ctx. record ctx { data_of = insert key value ctx.data_of }) heap))
        ≡ place_of (deref n heap)
  unfolding update
  place_of-update n k key value [] = refl
  place_of-update n k key value (c ∷ heap) =
      let f = λ (ctx : Context V). record ctx { data_of = insert key value ctx.data_of } in
      elim (Bool-cases (length heap == k)) [
        | inl e ↦
            rw e (elim (Bool-cases (length heap == n)) [ inl h ↦ rw h refl | inr h ↦ rw h refl ])
        | inr e ↦
            rw (e, length-update k f heap)
              (elim (Bool-cases (length heap == n)) [
                | inl h ↦ rw h refl
                | inr h ↦ rw h (place_of-update n k key value heap)
              ])
      ]

  put-Keeps : (c key : ℕ) (value : Entry V) (cm : Manager V) → Keeps cm (put c key value cm)
  unfolding put
  put-Keeps c key value cm = record {
    currents = refl;
    places = λ n. place_of-update n c key value cm.heap;
  }

  put_if_absent-Keeps :
      (c key : ℕ) (value : Entry V) (cm : Manager V) → Keeps cm (put_if_absent c key value cm)
  unfolding put_if_absent
  put_if_absent-Keeps c key value cm =
      if_rule (Keeps cm) (exists_in (length cm.heap) key (some c) cm.heap) (λ e. Keeps_refl cm)
        (λ e. put-Keeps c key value cm)

  -- The calls of `Set` on an op, in turn.
  unfoldable pub set_all : List (ℕ × Entry V) → Op V → Ops V → Ops V
  set_all [] o ops = ops
  set_all ((key, value) ∷ sets) o ops = set_all sets o (set o key value ops)

  pub set_all-Keeps :
      (sets : List (ℕ × Entry V)) (o : Op V) (ops : Ops V) → Keeps ops.cm (set_all sets o ops).cm
  unfolding set_all set
  set_all-Keeps [] o ops = Keeps_refl ops.cm
  set_all-Keeps ((key, value) ∷ sets) o ops =
      Keeps_trans ops.cm (put o.ctx key value ops.cm) _ (put-Keeps o.ctx key value ops.cm)
        (set_all-Keeps sets o (set o key value ops))

  pub begin-Keeps :
      (id : ℕ) (name : V) (ops : Ops V) → Keeps (enter id ops.cm).0 (begin id name ops).0.cm
  unfolding begin
  begin-Keeps id name ops =
      let (cm, c) = enter id ops.cm in
      Keeps_trans cm _ _ (put-Keeps c 0 (static (plain name)) cm)
        (put_if_absent-Keeps c 1 (static (plain name)) (put c 0 (static (plain name)) cm))

  enter-place :
      (id : ℕ) (cm : Manager V)
      → place_of (deref (enter id cm).1 (enter id cm).0.heap) ≡ some (id, lookup id cm.contexts)
  unfolding enter make_context
  enter-place id cm =
      let self : (length cm.heap == length cm.heap) ≡ true = ground arith in rw self refl

  pub enter-contexts :
      (id : ℕ) (cm : Manager V) → (enter id cm).0.contexts ≡ insert id (enter id cm).1 cm.contexts
  unfolding enter make_context
  enter-contexts id cm = refl

  -- Leaving a context after work that keeps where it was entered.
  pub leave-enter :
      (id j : ℕ) (cm t : Manager V)
      → Keeps (enter id cm).0 t
      → current_context j (exit_context (enter id cm).1 t) ≡ current_context j cm
  leave-enter id j cm t k =
      let c = (enter id cm).1 in
      ap (current_context j)
        (exit_context-leave c t ∙ ap (λ p. leave p t) (k.places c ∙ enter-place id cm))
      ∙ exit-current_context id j c (lookup id cm.contexts) cm t refl
          (k.currents ∙ enter-contexts id cm)

  -- The reporters that were called, with the failure that they got.
  abbrev pub calls : List (Report V) → List (ℕ × Option (Failure V))
  calls [] = []
  calls (r ∷ rs) = (r.reporter, r.reported) ∷ calls rs

  abbrev pub each_with : Option (Failure V) → List ℕ → List (ℕ × Option (Failure V))
  each_with failure [] = []
  each_with failure (r ∷ rs) = (r, failure) ∷ each_with failure rs

  pub calls-append : (rs qs : List (Report V)) → calls (rs ++ qs) ≡ calls rs ++ calls qs
  calls-append [] qs = refl
  calls-append (r ∷ rs) qs = ap (λ cs. (r.reporter, r.reported) ∷ cs) (calls-append rs qs)

  pub calls-report_all :
      (rs : List ℕ) (failure : Option (Failure V)) (values : List (ℕ × V))
      → calls (report_all rs failure values) ≡ each_with failure rs
  unfolding report_all
  calls-report_all [] failure values = refl
  calls-report_all (r ∷ rs) failure values =
      ap (λ cs. (r, failure) ∷ cs) (calls-report_all rs failure values)
