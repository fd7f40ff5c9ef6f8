-- ===== src/Handshake.antt =====
-- How a session starts: `startSession` of dialer.go and session.go, with `sendClientInitMsg`, and
-- on the other end what `doOnConn` of listener.go does with the connection. A write error and the
-- log lines leave no trace.
pub mod Accepted
pub mod Carried
use plampshade.Base.{ℕ, ◌+◌, Bool, true, false, List, [], Option, none, some, copy, replicate, ltb}
use plampshade.Wire.{client_init_size, len_size, max_session_frame_size}
use plampshade.Session.{Session}
use plampshade.Sender.{Outcome, ok, panicked, Crypters, write_to_wire}
use plampshade.Crypto.{
  Result, returned, error, panicked, ◌>>=◌, CryptoSpec, new_crypto_spec, build_client_init_msg,
}
use plampshade.Crypto.Keys.{Keys, crypters}
use plampshade.Listener.Options.{ListenerOpts}

-- `sendClientInitMsg` on the pre-allocated buffer: the bytes that it writes.
unfoldable pub send_client_init_msg : Crypters → ℕ → List ℕ → List ℕ → Outcome (List ℕ)
send_client_init_msg c drawn msg buffer =
    write_to_wire c drawn (copy buffer msg) (client_init_size + len_size) 0 true

-- The parameters of `startSession` that the model reads.
pub record Params : Type 0 where
  pub max_padding : ℕ
  pub ack_on_first : Bool
  -- Whether there is an `emaRTT`.
  pub tracks_rtt : Bool
  -- Whether there is a `connCh`.
  pub notifies : Bool

-- What `doOnConn` of listener.go passes to `startSession`; it passes no `emaRTT`.
unfoldable pub listener_params : ListenerOpts → ℕ → Params
listener_params opts max_padding = record {
  max_padding = max_padding;
  ack_on_first = opts.ack_on_first;
  tracks_rtt = false;
  notifies = true;
}

-- What `startSession` returns, and the bytes that were written by then.
pub record Started : Type 0 where
  pub session : Session
  pub keys : Keys
  pub written : List ℕ

-- A new session, at the time `now`.
abbrev pub new_session : Params → ℕ → Session
new_session params now = record {
  streams = [];
  closed = [];
  defunct = false;
  is_closed = false;
  notifies = params.notifies;
  ack_on_first = params.ack_on_first;
  tracks_rtt = params.tracks_rtt;
  next_id = 0;
  last_dialed = now;
  effects = [];
}

abbrev pub of_outcome : Outcome (List ℕ) → Result (List ℕ)
of_outcome (ok b) = returned b
of_outcome Outcome.panicked = Result.panicked

-- `sendSessionFrame`
unfoldable pub session_frame_buffer : List ℕ
session_frame_buffer = replicate max_session_frame_size 0

-- `startSession` of session.go. `encrypters` is the encryption with the keys, and whether padding
-- is on; `drawn` is the random number of the padding.
unfoldable pub start_session :
    (Keys → Bool → Crypters) → Params → CryptoSpec → Option (List ℕ) → ℕ → ℕ → Result Started
start_session encrypters params cs client_init_msg drawn now = do
  keys ← crypters cs
  written ← elim client_init_msg [
    | none ↦ returned []
    | some msg ↦ of_outcome (
        send_client_init_msg (encrypters keys (ltb 0 params.max_padding)) drawn msg
          session_frame_buffer)
  ]
  returned (record { session = new_session params now; keys = keys; written = written })

-- `startSession` of dialer.go, on a connection that was dialed.
unfoldable pub dial_session :
    (Keys → Bool → Crypters)
    → (ℕ → ℕ → Option (List ℕ))
    → (List ℕ → Option (List ℕ))
    → ℕ
    → ℕ
    → ℕ
    → Option ℕ
    → ℕ
    → ℕ
    → Result Started
dial_session encrypters random encrypt code window_size max_padding ts drawn now = do
  cs ← new_crypto_spec random code
  msg ← build_client_init_msg encrypt window_size max_padding cs ts
  start_session encrypters
      (record {
        max_padding = max_padding;
        ack_on_first = false;
        tracks_rtt = true;
        notifies = false;
      })
      cs (some msg) drawn now
