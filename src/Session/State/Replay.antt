-- ===== src/Session/State/Replay.antt =====
-- Whole lives of a wallet session: replayed requests, event identifiers and termination
-- (crates/ton-connect-core/src/session_state.rs).

use wallet_engine.Base.{ℕ, ◌+◌, ◌≤◌, ◌<◌, ◌^◌, ◌≡◌, refl, false, Option, none, some, arith}
use wallet_engine.Base.Results.{ok, err}
use wallet_engine.Types.Digits.{value}
use wallet_engine.Types.Decimal.Order.{IsCanonical}
use wallet_engine.Session.RequestId.{RpcRequestId, session_not_connected, invalid_event_transition}
use wallet_engine.Session.RequestId.Order.{number, parse-IsCanonical, le-number}
use wallet_engine.Session.State.{
  disconnected, WalletEventKind, WalletSessionState, AppRequest, PreparedWalletEvent,
  PreparedAppRequest, restore, initial, prepare_event, prepare_request, is_replayed,
}
use wallet_engine.Session.State.Lifecycle.{
  IsSettled, IsValid, initial-IsValid, prepare_event-IsValid, prepare_request-IsValid,
  prepare_request-Accepts,
}

-- One accepted transition; what is refused leaves the durable state as it was.
pub data Step (s : WalletSessionState) : WalletSessionState → Type 0 where
  event :
      {t : WalletSessionState} (k : WalletEventKind) (p : PreparedWalletEvent)
      → prepare_event s k ≡ ok p
      → t ≡ p.next_state
      → Step s t
  request :
      {t : WalletSessionState} (r : AppRequest) (p : PreparedAppRequest)
      → prepare_request s r ≡ ok p
      → t ≡ p.next_state
      → Step s t

pub data Reach (s : WalletSessionState) : WalletSessionState → Type 0 where
  here : Reach s s
  next : {t u : WalletSessionState} → Reach s t → Step t u → Reach s u

Step-IsValid : {s t : WalletSessionState} → IsValid s → Step s t → IsValid t
Step-IsValid {s} v (event k p h e) = rw e (prepare_event-IsValid s k p v h)
Step-IsValid {s} v (request r p h e) = rw e (prepare_request-IsValid s r p v h)

Reach-IsValid : {s t : WalletSessionState} → IsValid s → Reach s t → IsValid t
Reach-IsValid v here = v
Reach-IsValid v (next r st) = Step-IsValid (Reach-IsValid v r) st

-- A state that a session reaches from its start is read back from storage as it was written.
pub restore_reached : (t : WalletSessionState) → Reach initial t → restore t ≡ some t
unfolding restore
restore_reached t r = ground (arith, (Reach-IsValid initial-IsValid r).lifecycle)

-- A request with the number `n` or a greater one was accepted.
abbrev Reached : ℕ → Option RpcRequestId → Type 0
Reached n none = ⊥
Reached n (some last) = n ≤ number last

is_replayed-Reached :
    (n : ℕ) (a : RpcRequestId) (last : Option RpcRequestId)
    → IsCanonical a.text
    → IsSettled last
    → Reached n last
    → is_replayed a last ≡ false
    → n < number a
unfolding is_replayed
is_replayed-Reached n a none h k m e = absurd m
is_replayed-Reached n a (some last) h k m e = ground (arith, le-number a last h k)

prepare_event_keeps_request :
    (s : WalletSessionState) (k : WalletEventKind) (p : PreparedWalletEvent)
    → prepare_event s k ≡ ok p
    → p.next_state.last_request_id ≡ s.last_request_id
unfolding prepare_event
prepare_event_keeps_request s k p h = ground arith

Step-Reached :
    {s t : WalletSessionState} (n : ℕ)
    → IsValid s
    → Step s t
    → Reached n s.last_request_id
    → Reached n t.last_request_id
Step-Reached {s} n v (event k p h e) m = rw (e, prepare_event_keeps_request s k p h) m
Step-Reached {s} n v (request r p h e) m =
    let a = prepare_request-Accepts s r p h in
    let canon = (parse-IsCanonical r.id p.request_id a.parsed).0 in
    rw (e, a.recorded)
      (omega
        (arith, is_replayed-Reached n p.request_id s.last_request_id canon v.request m a.fresh))

Reach-Reached :
    {s t : WalletSessionState} (n : ℕ)
    → IsValid s
    → Reach s t
    → Reached n s.last_request_id
    → Reached n t.last_request_id
Reach-Reached n v here m = m
Reach-Reached n v (next r st) m = Step-Reached n (Reach-IsValid v r) st (Reach-Reached n v r m)

-- Once a request was accepted, a request that is accepted in any later state of the session has a
-- greater number, however the two numbers are written.
pub accepted_once :
    (s u : WalletSessionState) (r r' : AppRequest) (p p' : PreparedAppRequest)
    → IsValid s
    → prepare_request s r ≡ ok p
    → Reach p.next_state u
    → prepare_request u r' ≡ ok p'
    → value r.id < value r'.id
accepted_once s u r r' p p' v h reach h' =
    let a = prepare_request-Accepts s r p h in
    let a' = prepare_request-Accepts u r' p' h' in
    let (_, n) = parse-IsCanonical r.id p.request_id a.parsed in
    let (canon, n') = parse-IsCanonical r'.id p'.request_id a'.parsed in
    let v' = prepare_request-IsValid s r p v h in
    let start : Reached (number p.request_id) p.next_state.last_request_id =
      rw a.recorded (omega arith) in
    rw (← n, ← n')
      (is_replayed-Reached (number p.request_id) p'.request_id u.last_request_id canon
        (Reach-IsValid v' reach).request (Reach-Reached (number p.request_id) v' reach start)
        a'.fresh)

prepare_event_disconnected :
    (s : WalletSessionState) (k : WalletEventKind)
    → s.phase ≡ disconnected
    → prepare_event s k ≡ err invalid_event_transition
unfolding prepare_event
prepare_event_disconnected s k d = ground arith

prepare_request_disconnected :
    (s : WalletSessionState) (r : AppRequest)
    → s.phase ≡ disconnected
    → prepare_request s r ≡ err session_not_connected
unfolding prepare_request
prepare_request_disconnected s r d = ground arith

Step_of_disconnected : {s t : WalletSessionState} → s.phase ≡ disconnected → Step s t → ⊥
Step_of_disconnected {s} d (event k p h e) = cc (prepare_event_disconnected s k d)
Step_of_disconnected {s} d (request r p h e) = cc (prepare_request_disconnected s r d)

-- A disconnected session is final: it has no later state, and refuses every event and request.
disconnected_final :
    (s u : WalletSessionState) (k : WalletEventKind) (r : AppRequest)
    → s.phase ≡ disconnected
    → Reach s u
    → (u ≡ s)
      × (prepare_event u k ≡ err invalid_event_transition)
      × (prepare_request u r ≡ err session_not_connected)
disconnected_final s u k r d here =
    (refl, prepare_event_disconnected s k d, prepare_request_disconnected s r d)
disconnected_final s u k r d (next {t} reach st) =
    let (e, _, _) = disconnected_final s t k r d reach in absurd (Step_of_disconnected (rw e d) st)

-- The number of the last event, plus one.
abbrev events : Option ℕ → ℕ
events none = 0
events (some n) = n + 1

prepare_event_number :
    (s : WalletSessionState) (k : WalletEventKind) (p : PreparedWalletEvent)
    → prepare_event s k ≡ ok p
    → (p.id ≡ events s.last_event_id)
      × (events p.next_state.last_event_id ≡ p.id + 1)
      × (p.id < 2 ^ 64)
unfolding prepare_event
prepare_event_number s k p h = ground arith

Step-events :
    {s t : WalletSessionState} → Step s t → events s.last_event_id ≤ events t.last_event_id
Step-events {s} (event k p h e) = rw e (omega (arith, prepare_event_number s k p h))
Step-events {s} (request r p h e) =
    rw (e, (prepare_request-Accepts s r p h).event_kept) (omega arith)

Reach-events :
    {s t : WalletSessionState} → Reach s t → events s.last_event_id ≤ events t.last_event_id
Reach-events here = omega arith
Reach-events (next r st) = omega (arith, Reach-events r, Step-events st)

-- Event identifiers grow over the life of a session and never wrap around u64.
pub event_ids_increase :
    (s u : WalletSessionState) (k k' : WalletEventKind) (p p' : PreparedWalletEvent)
    → prepare_event s k ≡ ok p
    → Reach p.next_state u
    → prepare_event u k' ≡ ok p'
    → (p.id < p'.id) × (p'.id < 2 ^ 64)
event_ids_increase s u k k' p p' h reach h' =
    omega (arith, prepare_event_number s k p h, Reach-events reach, prepare_event_number u k' p' h')
