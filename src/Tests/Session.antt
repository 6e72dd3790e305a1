-- ===== src/Tests/Session.antt =====
-- Runs of a TON Connect session, and its theorems at concrete inputs
-- (crates/ton-connect-core/src/session_state.rs).
use Prim.Native.Nat.{compare}
use wallet_engine.Base.{
  ℕ, ◌<◌, ◌^◌, ◌≡◌, ◌≢◌, ◌↔◌, refl, Bool, true, false, Option, none, some, [], ◌∷◌, arith,
}
use wallet_engine.Base.Results.{ok, is_ok}
use wallet_engine.Types.Texts.{Text, codes, is_ascii_digit}
use wallet_engine.Types.Digits.{AllDigits, value, lex_cmp}
use wallet_engine.Session.RequestId.{RpcRequestId, parse, canonical, without_zeroes, cmp, le}
use wallet_engine.Session.RequestId.Order.{cmp-parse}
use wallet_engine.Session.State.{
  WalletSessionState, WalletEventKind, AppRequest, PreparedAppRequest, PreparedWalletEvent,
  connected, disconnected, initial, restore, prepare_event, prepare_request, phase_allows,
}
use wallet_engine.Session.State.Lifecycle.{IsValid, Below, prepare_request_accepts}
use wallet_engine.Session.State.Replay.{
  here, next, event, restore_reached, accepted_once, event_ids_increase,
}
use wallet_engine.Session.Cursor.{
  ConnectEvent, WalletEventCursor, PreparedWalletEventReceipt, start, receive, event_id,
  terminates_session,
}
use wallet_engine.Session.Cursor.Delivery.{Exchange, published, delivery_exactly_once}

abbrev id_of : Text → RpcRequestId
id_of s = record { text = s }

-- `"00042"` is the identifier `42`, and `9` is below `10`.
parse_run : parse (codes "00042") ≡ ok (id_of (codes "42"))
unfolding parse canonical without_zeroes is_ascii_digit
parse_run = refl

nine_parsed : parse (codes "9") ≡ ok (id_of (codes "9"))
unfolding parse canonical without_zeroes is_ascii_digit
nine_parsed = refl

ten_parsed : parse (codes "010") ≡ ok (id_of (codes "10"))
unfolding parse canonical without_zeroes is_ascii_digit
ten_parsed = refl

cmp-parse_example :
    cmp (id_of (codes "9")) (id_of (codes "10")) ≡ compare (value (codes "9")) (value (codes "010"))
cmp-parse_example =
    cmp-parse (codes "9") (codes "010") (id_of (codes "9")) (id_of (codes "10")) nine_parsed
      ten_parsed

abbrev state_with : Option RpcRequestId → WalletSessionState
state_with last = record { phase = connected; last_request_id = last; last_event_id = some 0 }

abbrev request_with : Text → AppRequest
request_with id = record { method = "signData"; params = "{}" ∷ []; id = id }

connected-IsValid : IsValid (state_with none)
unfolding phase_allows
connected-IsValid = record { lifecycle = refl; request = tt; event = omega arith }

prepare_request_accepts_example :
    (is_ok (prepare_request (state_with none) (request_with (codes "007"))) ≡ true) ↔ (
      (connected ≡ connected)
      × (codes "007" ≢ [])
      × AllDigits (codes "007")
      × Below none (value (codes "007")))
prepare_request_accepts_example =
    prepare_request_accepts (state_with none) (request_with (codes "007")) connected-IsValid

abbrev accepted : Text → PreparedAppRequest
accepted s = record {
  request_id = id_of s;
  closes_session = false;
  next_state = state_with (some (id_of s));
}

accepts_nine :
    prepare_request (state_with none) (request_with (codes "9")) ≡ ok (accepted (codes "9"))
unfolding prepare_request parse canonical without_zeroes is_ascii_digit
accepts_nine = refl

accepts_ten :
    prepare_request (state_with (some (id_of (codes "9")))) (request_with (codes "010"))
    ≡ ok (accepted (codes "10"))
unfolding prepare_request parse canonical without_zeroes is_ascii_digit le cmp lex_cmp
accepts_ten = refl

accepted_once_example : value (codes "9") < value (codes "010")
accepted_once_example =
    accepted_once (state_with none) (state_with (some (id_of (codes "9"))))
      (request_with (codes "9")) (request_with (codes "010")) (accepted (codes "9"))
      (accepted (codes "10")) connected-IsValid accepts_nine here accepts_ten

abbrev first_event : PreparedWalletEvent
first_event = record { id = 0; next_state = state_with none }

connects : prepare_event initial WalletEventKind.connect ≡ ok first_event
unfolding prepare_event
connects = refl

abbrev ended : WalletSessionState
ended = record { phase = disconnected; last_request_id = none; last_event_id = some 1 }

abbrev last_event : PreparedWalletEvent
last_event = record { id = 1; next_state = ended }

disconnects : prepare_event (state_with none) WalletEventKind.disconnect ≡ ok last_event
unfolding prepare_event
disconnects = refl

restore_reached_example : restore (state_with none) ≡ some (state_with none)
restore_reached_example =
    restore_reached (state_with none)
      (next here (event WalletEventKind.connect first_event connects refl))

event_ids_increase_example : (0 < 1) × (1 < 2 ^ 64)
event_ids_increase_example =
    event_ids_increase initial (state_with none) WalletEventKind.connect WalletEventKind.disconnect
      first_event last_event connects here disconnects

abbrev Event : Type 0
Event = ConnectEvent ℕ ℕ ℕ ℕ

abbrev publish : WalletEventKind → ℕ → Event
publish = published 7 none 8 9

abbrev cursor_at : ℕ → Bool → WalletEventCursor
cursor_at n over = record { last_event_id = some n; terminated = over }

abbrev receipt : PreparedWalletEventReceipt
receipt = record { event_id = 0; next_cursor = cursor_at 0 false }

receives : receive start (publish WalletEventKind.connect 0) ≡ ok receipt
unfolding receive event_id terminates_session
receives = refl

delivery_exactly_once_example :
    (q : PreparedWalletEventReceipt) × (receive
        (cursor_at 0 false)
        (publish WalletEventKind.disconnect 1)
      ≡ ok q)
    × (q.event_id ≡ 1)
    × (is_ok (receive q.next_cursor (publish WalletEventKind.disconnect 1)) ≡ false)
delivery_exactly_once_example =
    delivery_exactly_once 7 none 8 9 WalletEventKind.disconnect last_event
      (Exchange.deliver WalletEventKind.connect first_event receipt Exchange.begin connects receives
        refl refl)
      disconnects
