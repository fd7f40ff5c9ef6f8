-- ===== src/Ema.antt =====
-- ema/ema.go: a moving average. Go's float64, with its operations and its conversions from and to
-- int64, is a parameter; an int64 is an integer.
pub mod Mean
use plampshade.Base.{ℕ, suc, ◌-◌, ◌^◌, Bool, true, false, Option, none, some, ◌==◌, if◌then◌else◌}
use plampshade.Base.Int.{ℤ, pos, negsuc}

pub record Floats : Type 1 where
  pub Float : Type 0
  pub add : Float → Float → Float
  pub sub : Float → Float → Float
  pub mul : Float → Float → Float
  pub div : Float → Float → Float
  -- `>=`.
  pub ge : Float → Float → Bool
  pub of_int : ℤ → Float
  pub to_int : Float → ℤ

-- `math.MinInt64`.
abbrev pub unset : ℤ
unset = negsuc (2 ^ 63 - 1)

abbrev pub is_unset : ℤ → Bool
is_unset (pos n) = false
is_unset (negsuc n) = n == 2 ^ 63 - 1

pub record Ema (Float : Type 0) : Type 0 where
  pub default_alpha : Float
  pub default_beta : Float
  pub default_value : Float
  pub v : ℤ

module _ (fl : Floats) where
  abbrev pub scale : fl.Float
  scale = fl.of_int (pos 1000)

  unfoldable pub scale_to_int : fl.Float → ℤ
  scale_to_int f = fl.to_int (fl.mul f scale)

  unfoldable pub scale_from_int : ℤ → fl.Float
  scale_from_int i = fl.div (fl.of_int i) scale

  unfoldable pub new_with_beta : fl.Float → fl.Float → fl.Float → Ema fl.Float
  new_with_beta default_value default_alpha default_beta = record {
    default_alpha = default_alpha;
    default_beta = default_beta;
    default_value = default_value;
    v = unset;
  }

  unfoldable pub new : fl.Float → fl.Float → Ema fl.Float
  unfolding new_with_beta
  new default_value default_alpha = new_with_beta default_value default_alpha default_alpha

  unfoldable pub new_duration : ℤ → fl.Float → Ema fl.Float
  unfolding new
  new_duration default_value default_alpha = new (fl.of_int default_value) default_alpha

  unfoldable pub new_duration_with_beta : ℤ → fl.Float → fl.Float → Ema fl.Float
  unfolding new_with_beta
  new_duration_with_beta default_value default_alpha default_beta =
      new_with_beta (fl.of_int default_value) default_alpha default_beta

  -- `(1-α)*old + α*v`.
  unfoldable pub mix : fl.Float → fl.Float → fl.Float → fl.Float
  mix α old v = fl.add (fl.mul (fl.sub (fl.of_int (pos 1)) α) old) (fl.mul α v)

  unfoldable pub update_alpha_beta :
      fl.Float → fl.Float → fl.Float → Ema fl.Float → Ema fl.Float × fl.Float
  update_alpha_beta v α β e =
      let old_ema = scale_from_int e.v in
      let new_ema =
        if is_unset e.v
        then v
        else (if fl.ge v old_ema then mix α old_ema v else mix β old_ema v) in
      (record e { v = scale_to_int new_ema }, new_ema)

  unfoldable pub update_alpha : fl.Float → fl.Float → Ema fl.Float → Ema fl.Float × fl.Float
  update_alpha v α e = update_alpha_beta v α α e

  unfoldable pub update : fl.Float → Ema fl.Float → Ema fl.Float × fl.Float
  update v e = update_alpha_beta v e.default_alpha e.default_beta e

  unfoldable pub update_duration : ℤ → Ema fl.Float → Ema fl.Float × ℤ
  update_duration v e = let (e', mean) = update (fl.of_int v) e in (e', fl.to_int mean)

  unfoldable pub set : fl.Float → Ema fl.Float → Ema fl.Float
  set v e = record e { v = scale_to_int v }

  unfoldable pub set_duration : ℤ → Ema fl.Float → Ema fl.Float
  set_duration v e = set (fl.of_int v) e

  unfoldable pub clear : Ema fl.Float → Ema fl.Float
  clear e = record e { v = unset }

  unfoldable pub get : Ema fl.Float → fl.Float
  get e = if is_unset e.v then e.default_value else scale_from_int e.v

  unfoldable pub get_duration : Ema fl.Float → ℤ
  get_duration e = fl.to_int (get e)
