-- ===== src/Session/State.antt =====
-- The wallet's side of a TON Connect session (crates/ton-connect-core/src/session_state.rs,
-- `WalletSessionState`). A transition returns the next state, which the caller persists.
pub mod Lifecycle
pub mod Replay
use Prim.Native.String.{String}
use text.Mathlib.Text.{◌==◌ as str_eq}
use wallet_engine.Base.{
  ℕ, Bool, true, false, ◌&&◌, not, Option, none, some, List, [], ◌∷◌, if◌then◌else◌, is_some,
  is_none,
}
use wallet_engine.Base.Words.{checked_add}
use wallet_engine.Base.Results.{Result, ok, err, ok_or, guard, ◌>>=◌, ◌>>◌}
use wallet_engine.Types.Texts.{Text}
use wallet_engine.Session.RequestId.{
  RpcRequestId, SessionStateError, parse, le, request_id_not_increasing, session_not_connected,
  invalid_event_transition, event_id_exhausted,
}

pub data WalletSessionPhase : Type 0 where
  pending_connect connected disconnected : WalletSessionPhase

pub data WalletEventKind : Type 0 where
  connect connect_error disconnect : WalletEventKind

pub record WalletSessionState : Type 0 where
  pub phase : WalletSessionPhase
  pub last_request_id : Option RpcRequestId
  pub last_event_id : Option ℕ

-- crates/ton-connect-core/src/rpc.rs, `AppRequest`.
pub record AppRequest : Type 0 where
  pub method : String
  pub params : List String
  pub id : Text

pub record PreparedWalletEvent : Type 0 where
  pub id : ℕ
  pub next_state : WalletSessionState

pub record PreparedAppRequest : Type 0 where
  pub request_id : RpcRequestId
  pub closes_session : Bool
  pub next_state : WalletSessionState

-- The lifecycle test of `Deserialize`.
unfoldable pub phase_allows : WalletSessionPhase → Option RpcRequestId → Option ℕ → Bool
phase_allows pending_connect request event = is_none request && is_none event
phase_allows connected request event = is_some event
phase_allows disconnected request event = is_some event

-- `Deserialize` on the raw fields, of which the request identifier was parsed by its own `Deserialize`.
unfoldable pub restore : WalletSessionState → Option WalletSessionState
unfolding phase_allows
restore raw =
    if not (phase_allows raw.phase raw.last_request_id raw.last_event_id) then none else some raw

abbrev pub initial : WalletSessionState
initial = record { phase = pending_connect; last_request_id = none; last_event_id = none }

unfoldable pub next_phase :
    WalletSessionPhase → WalletEventKind → Result SessionStateError WalletSessionPhase
next_phase pending_connect connect = ok connected
next_phase pending_connect connect_error = ok disconnected
next_phase connected disconnect = ok disconnected
next_phase _ _ = err invalid_event_transition

unfoldable pub next_event_id : Option ℕ → Result SessionStateError ℕ
next_event_id none = ok 0
next_event_id (some previous) = ok_or (checked_add previous 1) event_id_exhausted

unfoldable pub prepare_event :
    WalletSessionState → WalletEventKind → Result SessionStateError PreparedWalletEvent
unfolding next_phase next_event_id
prepare_event s kind = do
  phase' ← next_phase s.phase kind
  id ← next_event_id s.last_event_id
  ok (record { id = id; next_state = record s { phase = phase'; last_event_id = some id } })

abbrev pub is_connected : WalletSessionPhase → Bool
is_connected connected = true
is_connected _ = false

abbrev pub is_nil : List String → Bool
is_nil [] = true
is_nil (_ ∷ _) = false

-- `last.is_some_and(|last| id <= *last)`
unfoldable pub is_replayed : RpcRequestId → Option RpcRequestId → Bool
is_replayed id none = false
is_replayed id (some last) = le id last

unfoldable pub is_disconnect : AppRequest → Bool
is_disconnect r = str_eq r.method "disconnect" && is_nil r.params

unfoldable pub prepare_request :
    WalletSessionState → AppRequest → Result SessionStateError PreparedAppRequest
unfolding is_replayed is_disconnect
prepare_request s r = do
  guard (is_connected s.phase) session_not_connected
  request_id ← parse r.id
  guard (not (is_replayed request_id s.last_request_id)) request_id_not_increasing
  ok (record {
    request_id = request_id;
    closes_session = is_disconnect r;
    next_state = record s {
      last_request_id = some request_id;
      phase = if is_disconnect r then disconnected else s.phase;
    };
  })
