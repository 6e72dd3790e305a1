-- ===== src/Session/Cursor.antt =====
-- The dApp's cursor over wallet events (crates/ton-connect-core/src/session_state.rs,
-- `WalletEventCursor`; the event of src/connect.rs of the same crate).
pub mod Delivery
use wallet_engine.Base.{
  ℕ, Bool, true, false, ◌&&◌, not, Option, none, some, leb, is_none, if◌then◌else◌,
}
use wallet_engine.Base.Results.{Result, ok, err, guard, ◌>>=◌, ◌>>◌}

-- The payloads, which the cursor does not read, are the parameters.
pub data ConnectEvent (P R E D : Type 0) : Type 0 where
  connect : ℕ → P → Option R → ConnectEvent P R E D
  connect_error : ℕ → E → ConnectEvent P R E D
  disconnect : ℕ → D → ConnectEvent P R E D

pub data WalletEventCursorError : Type 0 where
  event_id_not_increasing session_terminated : WalletEventCursorError

pub record WalletEventCursor : Type 0 where
  pub last_event_id : Option ℕ
  pub terminated : Bool

pub record PreparedWalletEventReceipt : Type 0 where
  pub event_id : ℕ
  pub next_cursor : WalletEventCursor

-- `Default`
abbrev pub start : WalletEventCursor
start = record { last_event_id = none; terminated = false }

-- `Deserialize`: the wire fields are accepted or refused.
unfoldable pub restore_cursor : WalletEventCursor → Option WalletEventCursor
restore_cursor wire = if wire.terminated && is_none wire.last_event_id then none else some wire

-- `last.is_some_and(|last| id <= last)`
unfoldable pub is_seen : ℕ → Option ℕ → Bool
is_seen id none = false
is_seen id (some last) = leb id last

module _ {P R E D : Type 0} where
  unfoldable pub event_id : ConnectEvent P R E D → ℕ
  event_id (connect id payload response) = id
  event_id (connect_error id payload) = id
  event_id (disconnect id payload) = id

  unfoldable pub terminates_session : ConnectEvent P R E D → Bool
  terminates_session (connect id payload response) = false
  terminates_session (connect_error id payload) = true
  terminates_session (disconnect id payload) = true

  unfoldable pub receive :
      WalletEventCursor
      → ConnectEvent P R E D
      → Result WalletEventCursorError PreparedWalletEventReceipt
  unfolding is_seen
  receive cursor event = do
    guard (not cursor.terminated) session_terminated
    guard (not (is_seen (event_id event) cursor.last_event_id)) event_id_not_increasing
    ok (record {
      event_id = event_id event;
      next_cursor = record {
        last_event_id = some (event_id event);
        terminated = terminates_session event;
      };
    })
