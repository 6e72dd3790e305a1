-- ===== src/Session/State/Lifecycle.antt =====
-- The lifecycle of a wallet session (crates/ton-connect-core/src/session_state.rs).
use wallet_engine.Base.{
  ℕ, ◌<◌, ◌^◌, ◌≡◌, ◌≢◌, ◌↔◌, refl, sym, subst, true, false, Option, none, some, [], arith,
  if◌then◌else◌, inl, inr,
}
use wallet_engine.Base.Results.{ok, is_ok, Result-cases}
use wallet_engine.Types.Digits.{value, AllDigits}
use wallet_engine.Types.Decimal.Order.{IsCanonical}
use wallet_engine.Session.RequestId.{RpcRequestId, parse, canonical}
use wallet_engine.Session.RequestId.Order.{number, parse-IsCanonical, le-number, parse-ok}
use wallet_engine.Session.State.{
  connected, disconnected, WalletEventKind, WalletSessionState, AppRequest, PreparedWalletEvent,
  PreparedAppRequest, initial, prepare_event, prepare_request, phase_allows, is_replayed,
  is_disconnect,
}

-- What every state of a session satisfies: the fields fit the phase, the last event identifier is
-- a u64, and the last request identifier is canonical.
abbrev pub IsSettled : Option RpcRequestId → Type 0
IsSettled none = Unit {0}
IsSettled (some r) = IsCanonical r.text

abbrev pub FitsU64 : Option ℕ → Type 0
FitsU64 none = Unit {0}
FitsU64 (some n) = n < 2 ^ 64

pub record IsValid (s : WalletSessionState) : Type 0 where
  pub lifecycle : phase_allows s.phase s.last_request_id s.last_event_id ≡ true
  pub request : IsSettled s.last_request_id
  pub event : FitsU64 s.last_event_id

pub initial-IsValid : IsValid initial
unfolding phase_allows
initial-IsValid = record { lifecycle = refl; request = tt; event = tt }

pub prepare_event-IsValid :
    (s : WalletSessionState) (k : WalletEventKind) (p : PreparedWalletEvent)
    → IsValid s
    → prepare_event s k ≡ ok p
    → IsValid p.next_state
unfolding prepare_event phase_allows
prepare_event-IsValid s k p v h = ground arith

pub prepare_request-IsValid :
    (s : WalletSessionState) (r : AppRequest) (p : PreparedAppRequest)
    → IsValid s
    → prepare_request s r ≡ ok p
    → IsValid p.next_state
unfolding prepare_request phase_allows
prepare_request-IsValid s r p v h = ground (arith, parse-IsCanonical r.id p.request_id)

-- What a request carries that a valid state accepts, and what the state becomes.
pub record Accepts (s : WalletSessionState) (r : AppRequest) (p : PreparedAppRequest) : Type 0 where
  pub was_connected : s.phase ≡ connected
  pub parsed : parse r.id ≡ ok p.request_id
  pub fresh : is_replayed p.request_id s.last_request_id ≡ false
  pub recorded : p.next_state.last_request_id ≡ some p.request_id
  pub closed : p.closes_session ≡ is_disconnect r
  pub phase_after : p.next_state.phase ≡ (if is_disconnect r then disconnected else connected)
  pub event_kept : p.next_state.last_event_id ≡ s.last_event_id

pub prepare_request-Accepts :
    (s : WalletSessionState) (r : AppRequest) (p : PreparedAppRequest)
    → prepare_request s r ≡ ok p
    → Accepts s r p
unfolding prepare_request
prepare_request-Accepts s r p h = ground arith

-- No request identifier was accepted yet, or all are below `n`.
abbrev pub Below : Option RpcRequestId → ℕ → Type 0
Below none n = Unit {0}
Below (some last) n = number last < n

is_replayed-Below :
    (a : RpcRequestId) (last : Option RpcRequestId)
    → IsCanonical a.text
    → IsSettled last
    → (is_replayed a last ≡ false) ↔ Below last (number a)
unfolding is_replayed
is_replayed-Below a none h k = (λ _. tt, λ _. refl)
is_replayed-Below a (some last) h k =
    rw (le-number a last h k) (λ e. ground arith, λ e. ground arith)

-- A valid state accepts a request exactly when the session is connected, and the identifier is a
-- nonempty text of digits for a number above all that were accepted.
pub prepare_request_accepts :
    (s : WalletSessionState) (r : AppRequest)
    → IsValid s
    → (is_ok (prepare_request s r) ≡ true) ↔ (
        (s.phase ≡ connected) × (r.id ≢ []) × AllDigits r.id × Below s.last_request_id (value r.id))
unfolding prepare_request
prepare_request_accepts s r v = elim (Result-cases (parse r.id)) [
  | inl (a, e) ↦
      let (ne, digits, _) = (parse-ok r.id a).0 e in
      let (canon, va) = parse-IsCanonical r.id a e in
      let below = is_replayed-Below a s.last_request_id canon v.request in
      (
        λ h. (
          ground arith,
          ne,
          digits,
          subst (λ n. Below s.last_request_id n) va (below.0 (ground arith)),
        ),
        λ h.
            let new : is_replayed a s.last_request_id ≡ false =
              below.1 (subst (λ n. Below s.last_request_id n) (sym va) h.3) in
            ground arith,
      )
  | inr (x, e) ↦ (
    λ h. absurd (ground arith),
    λ h.
        let good = (parse-ok r.id (record { text = canonical r.id })).1 (h.1, h.2, refl) in
        absurd (cc),
  )
]
