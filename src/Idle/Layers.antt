-- ===== src/Idle/Layers.antt =====
-- idletiming/idletiming_conn.go, `IsIdled`, and listener.go, the search for the connection whose
-- idle timing is paused: two walks over the layers of a connection.
use plampshade.Base.{
  arith, ◌≡◌, ◌∙◌, refl, Bool, true, false, not, List, [], ◌∷◌, Option, none, some, ◌||◌,
}
use plampshade.Conn.{Conn, plain, wrapped, walk_wrapped, layer, layers}
use plampshade.Idle.{IdleConn}

pub data Layer : Type 0 where
  idle_timing : IdleConn → Layer
  other_conn : Layer

abbrev pub layer_idled : Layer → Bool
layer_idled (idle_timing c) = c.idled
layer_idled other_conn = false

-- The callback of `IsIdled` switches on the type of the outermost connection, `conn`, and not on
-- that of its argument.
unfoldable pub is_idled : Conn Layer → Bool
is_idled conn =
    walk_wrapped
      (λ w is_idled.
        let now : Bool = elim (layer conn) [ idle_timing t ↦ t.idled | other_conn ↦ is_idled ] in
        (now, not now))
      conn false

-- The walk of `doOnConn`: the connection whose `Pause` is called.
unfoldable pub pause_target : Conn Layer → Option IdleConn
pause_target conn =
    walk_wrapped
      (λ w target. elim (layer w) [ idle_timing c ↦ (some c, false) | other_conn ↦ (target, true) ])
      conn none

abbrev pub any_idled : List Layer → Bool
any_idled [] = false
any_idled (l ∷ ls) = layer_idled l || any_idled ls

abbrev pub first_idle_timing : List Layer → Option IdleConn
first_idle_timing [] = none
first_idle_timing (idle_timing c ∷ ls) = some c
first_idle_timing (other_conn ∷ ls) = first_idle_timing ls

pub pause_target-first : (conn : Conn Layer) → pause_target conn ≡ first_idle_timing (layers conn)
unfolding pause_target walk_wrapped
pause_target-first (plain (idle_timing c)) = refl
pause_target-first (plain other_conn) = refl
pause_target-first (wrapped (idle_timing c) conn) = refl
pause_target-first (wrapped other_conn conn) = pause_target-first conn

walk_same :
    (b : Bool) (conn : Conn Layer)
    → walk_wrapped (λ (w : Conn Layer) (s : Bool). (b, not b)) conn false ≡ b
unfolding walk_wrapped
walk_same b (plain a) = refl
walk_same true (wrapped a conn) = refl
walk_same false (wrapped a conn) = walk_same false conn

walk_kept :
    (conn : Conn Layer)
    → walk_wrapped (λ (w : Conn Layer) (s : Bool). (s, not s)) conn false ≡ false
unfolding walk_wrapped
walk_kept (plain a) = refl
walk_kept (wrapped a conn) = walk_kept conn

-- `IsIdled` tells of the outermost layer only: it says that a connection has not idled whose
-- outermost layer has not, although one of the layers that it wraps has.
is_idled-outermost :
    (l : Layer) (conn : Conn Layer)
    → layer_idled l ≡ false
    → any_idled (layers conn) ≡ true
    → (any_idled (layers (wrapped l conn)) ≡ true) × (is_idled (wrapped l conn) ≡ false)
unfolding is_idled
is_idled-outermost (idle_timing c) conn h k =
    (ground arith, walk_same c.idled (wrapped (idle_timing c) conn) ∙ h)
is_idled-outermost other_conn conn h k = (ground arith, walk_kept (wrapped other_conn conn))
