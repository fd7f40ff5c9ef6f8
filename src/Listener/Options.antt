-- ===== src/Listener/Options.antt =====
-- listener.go: `withDefaults`, and what `WrapListener` makes of the options. A duration is an
-- integer of nanoseconds.
use plampshade.Base.{zero, suc, ◌-◌, ◌^◌, Bool, true, false, Option, none, some}
use plampshade.Base.Int.{ℤ, pos, negsuc}
use plampshade.Crypto.{Result, returned, panicked}

pub record ListenerOpts : Type 0 where
  pub ack_on_first : Bool
  pub init_msg_timeout : ℤ
  pub key_cache_size : ℤ
  pub max_client_init_age : ℤ
  -- Whether there is an `OnError`.
  pub on_error : Bool

abbrev pub forever : ℤ
forever = pos (2 ^ 63 - 1)

abbrev pub or_forever : ℤ → ℤ
or_forever (pos zero) = forever
or_forever (pos (suc n)) = pos (suc n)
or_forever (negsuc n) = forever

abbrev pub zero_opts : ListenerOpts
zero_opts = record {
  ack_on_first = false;
  init_msg_timeout = pos 0;
  key_cache_size = pos 0;
  max_client_init_age = pos 0;
  on_error = false;
}

abbrev pub given : Option ListenerOpts → ListenerOpts
given none = zero_opts
given (some opts) = opts

-- `withDefaults`; none is a nil pointer.
unfoldable pub with_defaults : Option ListenerOpts → ListenerOpts
with_defaults opts = record (given opts) {
  init_msg_timeout = or_forever (given opts).init_msg_timeout;
  max_client_init_age = or_forever (given opts).max_client_init_age;
  on_error = true;
}

-- `listener`, by its options and whether there is a cache of keys.
pub record Wrapped : Type 0 where
  pub opts : ListenerOpts
  pub key_cache : Bool

abbrev pub caches : ℤ → Bool
caches (pos zero) = false
caches (pos (suc n)) = true
caches (negsuc n) = false

-- `WrapListener` reads `opts.KeyCacheSize` of the options that it was given, and so panics at nil.
unfoldable pub wrap_listener : Option ListenerOpts → Result Wrapped
wrap_listener none = panicked
wrap_listener (some opts) =
    returned (record { opts = with_defaults (some opts); key_cache = caches opts.key_cache_size })
