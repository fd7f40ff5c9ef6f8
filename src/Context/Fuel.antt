-- ===== src/Context/Fuel.antt =====
-- context/context.go: the fuel of the walk over the contexts of a stack, and the order in which
-- contexts were made.
use mathlib.Core.Path.{subst}
use plampshade.Base.{
  ℕ, zero, suc, ◌<◌, ◌≤◌, ◌≡◌, refl, sym, List, [], ◌∷◌, Option, none, some, ◌==◌, if_rule, arith,
  Option-cases, Bool-cases, inl, inr, length, ==_iff,
}
use plampshade.Context.{
  lookup, insert, remove, Context, deref, next, Manager, make_context, enter, exit, exit_context,
  branch, merge, fill, fill_context, current_context,
}
use plampshade.Context.Filling.{lookup-remove, lookup-insert}

-- No context, or one made among the first `n`.
abbrev pub Older : ℕ → Option ℕ → Type 0
Older n none = Unit {0}
Older n (some c) = c < n

pub Older-mono : (m n : ℕ) (o : Option ℕ) → m ≤ n → Older m o → Older n o
Older-mono m n none h o = tt
Older-mono m n (some c) h o = omega arith

inserted :
    (n id c : ℕ) (t : List (ℕ × ℕ))
    → c < n
    → ((j : ℕ) → Older n (lookup j t))
    → (j : ℕ) → Older n (lookup j (insert id c t))
inserted n id c t h k j =
    subst (Older n) (sym (lookup-insert id j c t)) (if_rule (Older n) (id == j) (λ e. h) (λ e. k j))

removed :
    (n id : ℕ) (t : List (ℕ × ℕ))
    → ((j : ℕ) → Older n (lookup j t))
    → (j : ℕ) → Older n (lookup j (remove id t))
removed n id t k j =
    subst (Older n) (sym (lookup-remove id j t)) (if_rule (Older n) (id == j) (λ e. tt) (λ e. k j))

entered :
    (n : ℕ) (o : Option ℕ)
    → Older n o
    → Older n (elim o [ none ↦ let e : Option ℕ = none in e | some p ↦ some p ])
entered n none h = tt
entered n (some p) h = h

parent_of :
    (n : ℕ) (parent branched_from : Option ℕ)
    → Older n (elim parent [ none ↦ branched_from | some p ↦ some p ])
    → Older (suc n) parent
parent_of n none b h = tt
parent_of n (some p) b h = omega arith

module _ {ℓ} {V : Type ℓ} where
  abbrev pub IsRanked : List (Context V) → Type 0
  IsRanked [] = Unit {0}
  IsRanked (c ∷ heap) = Older (length heap) (next c) × IsRanked heap

  pub record IsValid (cm : Manager V) : Type 0 where
    pub ranked : IsRanked cm.heap
    pub known : (id : ℕ) → Older (length cm.heap) (lookup id cm.contexts)

  abbrev OlderNext : ℕ → Option (Context V) → Type 0
  OlderNext n none = Unit {0}
  OlderNext n (some c) = Older n (next c)

  deref-OlderNext : (n : ℕ) (heap : List (Context V)) → IsRanked heap → OlderNext n (deref n heap)
  deref-OlderNext n [] r = tt
  deref-OlderNext n (d ∷ heap) (o, r) =
      if_rule (OlderNext n) (length heap == n)
        (λ q. subst (λ m. Older m (next d)) ((==_iff (length heap) n).0 q) o)
        (λ q. deref-OlderNext n heap r)

  pub deref-Older :
      (n : ℕ) (heap : List (Context V)) (c : Context V)
      → IsRanked heap
      → deref n heap ≡ some c
      → Older n (next c)
  deref-Older n heap c r e = subst (OlderNext n) e (deref-OlderNext n heap r)

  -- The loop of `Fill` as the steps that it takes, without fuel: from the context it is at and the
  -- map so far to the map that it returns. A walk that goes on for ever has none.
  pub data Fills (heap : List (Context V)) : Option ℕ → List (ℕ × V) → List (ℕ × V) → Type ℓ where
    ends : (m : List (ℕ × V)) → Fills heap none m m
    goes_on :
        (c : ℕ) (ctx : Context V) (m filled : List (ℕ × V))
        → deref c heap ≡ some ctx
        → Fills heap (next ctx) (fill ctx.data_of m) filled
        → Fills heap (some c) m filled

  deref-known :
      (c : ℕ) (heap : List (Context V))
      → c < length heap
      → (ctx : Context V) × (deref c heap ≡ some ctx)
  deref-known c [] h = absurd (omega arith)
  deref-known c (d ∷ heap) h = elim (Bool-cases (length heap == c)) [
    | inl e ↦ (d, rw e refl)
    | inr e ↦ let (ctx, k) = deref-known c heap (ground arith) in (ctx, rw e k)
  ]

  walks :
      (n : ℕ) (o : Option ℕ) (heap : List (Context V)) (m : List (ℕ × V))
      → IsRanked heap
      → Older n o
      → n ≤ length heap
      → Fills heap o m (fill_context n o heap m)
  unfolding fill_context
  walks zero none heap m r o h = ends m
  walks (suc n) none heap m r o h = ends m
  walks zero (some c) heap m r o h = absurd (omega arith)
  walks (suc n) (some c) heap m r o h =
      let (ctx, d) = deref-known c heap (omega arith) in
      rw (d, fill_context)
        (goes_on c ctx m _ d (
          walks n (next ctx) heap (fill ctx.data_of m) r
            (Older-mono c n (next ctx) (omega arith) (deref-Older c heap ctx r d)) (omega arith)))

  -- From a context that there is.
  pub fill_context-Fills :
      (id : ℕ) (cm : Manager V) (m : List (ℕ × V))
      → IsValid cm
      → Fills cm.heap
          (current_context id cm)
          m
          (fill_context (length cm.heap) (current_context id cm) cm.heap m)
  fill_context-Fills id cm m v =
      walks (length cm.heap) (current_context id cm) cm.heap m v.ranked (v.known id) (omega arith)

  abbrev WithinNext : ℕ → Option (Context V) → Type 0
  WithinNext n none = Unit {0}
  WithinNext n (some c) = Older n c.parent

  widened : (n : ℕ) (o : Option (Context V)) → WithinNext n o → WithinNext (suc n) o
  widened n none h = tt
  widened n (some c) h = Older-mono n (suc n) c.parent (omega arith) h

  -- The parent of a context that there is.
  deref-Within :
      (n : ℕ) (heap : List (Context V)) → IsRanked heap → WithinNext (length heap) (deref n heap)
  unfolding next
  deref-Within n [] r = tt
  deref-Within n (d ∷ heap) (o, r) =
      if_rule (WithinNext (suc (length heap))) (length heap == n)
        (λ q. parent_of (length heap) d.parent d.branched_from o)
        (λ q. widened (length heap) (deref n heap) (deref-Within n heap r))

  exit-IsValid :
      (id : ℕ) (parent : Option ℕ) (cm : Manager V)
      → Older (length cm.heap) parent
      → IsValid cm
      → IsValid (exit id parent cm)
  unfolding exit
  exit-IsValid id none cm o v = record {
    ranked = v.ranked;
    known = removed (length cm.heap) id cm.contexts v.known;
  }
  exit-IsValid id (some p) cm o v = record {
    ranked = v.ranked;
    known = inserted (length cm.heap) id p cm.contexts o v.known;
  }

  pub exit_context-IsValid : (c : ℕ) (cm : Manager V) → IsValid cm → IsValid (exit_context c cm)
  unfolding exit_context
  exit_context-IsValid c cm v = elim (Option-cases (deref c cm.heap)) [
    | inl e ↦ rw (e, exit_context) v
    | inr (ctx, e) ↦
        rw (e, exit_context)
          (exit-IsValid ctx.id ctx.parent cm
            (subst (WithinNext (length cm.heap)) e (deref-Within c cm.heap v.ranked)) v)
  ]

  grown :
      (id : ℕ) (cm : Manager V)
      → IsValid cm
      → (j : ℕ) → Older (suc (length cm.heap)) (lookup j (insert id (length cm.heap) cm.contexts))
  grown id cm v =
      let n = length cm.heap in
      inserted (suc n) id n cm.contexts (omega arith)
        (λ j. Older-mono n (suc n) (lookup j cm.contexts) (omega arith) (v.known j))

  pub enter-IsValid : (id : ℕ) (cm : Manager V) → IsValid cm → IsValid (enter id cm).0
  unfolding enter make_context next
  enter-IsValid id cm v = record {
    ranked = (entered (length cm.heap) (lookup id cm.contexts) (v.known id), v.ranked);
    known = grown id cm v;
  }

  pub branch-IsValid :
      (id from : ℕ) (cm : Manager V)
      → from < length cm.heap
      → IsValid cm
      → IsValid (branch id from cm)
  unfolding branch make_context next
  branch-IsValid id from cm h v = record { ranked = (h, v.ranked); known = grown id cm v }

  pub merge-IsValid : (id : ℕ) (cm : Manager V) → IsValid cm → IsValid (merge id cm)
  unfolding merge
  merge-IsValid id cm v = record {
    ranked = v.ranked;
    known = removed (length cm.heap) id cm.contexts v.known;
  }
