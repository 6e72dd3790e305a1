-- ===== src/Session/Cursor/Delivery.antt =====
-- The two sides of a session together: a dApp that receives the wallet's events in order accepts
-- each of them once (crates/ton-connect-core/src/session_state.rs).
use wallet_engine.Base.{ℕ, ◌≡◌, refl, true, false, Option, some, arith}
use wallet_engine.Base.Results.{ok, is_ok}
use wallet_engine.Session.State.{
  disconnected, WalletEventKind, WalletSessionState, AppRequest, PreparedWalletEvent,
  PreparedAppRequest, initial, prepare_event, prepare_request,
}
use wallet_engine.Session.Cursor.{
  ConnectEvent, connect, connect_error, disconnect, WalletEventCursor, PreparedWalletEventReceipt,
  start, event_id, terminates_session, receive,
}

-- The event that the wallet publishes for a prepared identifier.
module _ {P R E D : Type 0} (payload : P) (response : Option R) (error : E) (reserved : D) where
  abbrev pub published : WalletEventKind → ℕ → ConnectEvent P R E D
  published WalletEventKind.connect id = connect id payload response
  published WalletEventKind.connect_error id = connect_error id error
  published WalletEventKind.disconnect id = disconnect id reserved

  -- The wallet prepares an event, publishes it, and the dApp receives it; or the wallet accepts a
  -- request. `c` and `d` are the cursor before and after.
  pub data Exchange (s : WalletSessionState) (c : WalletEventCursor)
      : WalletSessionState → WalletEventCursor → Type 0 where
    begin : Exchange s c s c
    deliver :
        {t u : WalletSessionState} {d d' : WalletEventCursor} (k : WalletEventKind)
        (p : PreparedWalletEvent) (q : PreparedWalletEventReceipt)
        → Exchange s c t d
        → prepare_event t k ≡ ok p
        → receive d (published k p.id) ≡ ok q
        → u ≡ p.next_state
        → d' ≡ q.next_cursor
        → Exchange s c u d'
    answer :
        {t u : WalletSessionState} {d : WalletEventCursor} (r : AppRequest) (p : PreparedAppRequest)
        → Exchange s c t d
        → prepare_request t r ≡ ok p
        → u ≡ p.next_state
        → Exchange s c u d

  -- The cursor has the wallet's last event, and a cursor that ended belongs to a session that ended.
  pub record IsInStep (s : WalletSessionState) (c : WalletEventCursor) : Type 0 where
    pub same_event : c.last_event_id ≡ s.last_event_id
    pub ended : c.terminated ≡ true → s.phase ≡ disconnected

  deliver-IsInStep :
      (s : WalletSessionState) (c : WalletEventCursor) (k : WalletEventKind)
      (p : PreparedWalletEvent) (q : PreparedWalletEventReceipt)
      → IsInStep s c
      → prepare_event s k ≡ ok p
      → receive c (published k p.id) ≡ ok q
      → IsInStep p.next_state q.next_cursor
  unfolding prepare_event receive terminates_session event_id
  deliver-IsInStep s c k p q v h h' = ground arith

  answer-IsInStep :
      (s : WalletSessionState) (c : WalletEventCursor) (r : AppRequest) (p : PreparedAppRequest)
      → IsInStep s c
      → prepare_request s r ≡ ok p
      → IsInStep p.next_state c
  unfolding prepare_request
  answer-IsInStep s c r p v h = ground arith

  Exchange-IsInStep :
      {s : WalletSessionState} {c : WalletEventCursor} {t : WalletSessionState}
      {d : WalletEventCursor}
      → IsInStep s c
      → Exchange s c t d
      → IsInStep t d
  Exchange-IsInStep v begin = v
  Exchange-IsInStep v (deliver k p q x h h' e e') =
      rw (e, e') (deliver-IsInStep _ _ k p q (Exchange-IsInStep v x) h h')
  Exchange-IsInStep v (answer r p x h e) = rw e (answer-IsInStep _ _ r p (Exchange-IsInStep v x) h)

  receive_next :
      (s : WalletSessionState) (c : WalletEventCursor) (k : WalletEventKind)
      (p : PreparedWalletEvent)
      → IsInStep s c
      → prepare_event s k ≡ ok p
      → receive c (published k p.id)
        ≡ ok (record {
          event_id = p.id;
          next_cursor = record {
            last_event_id = some p.id;
            terminated = terminates_session (published k p.id);
          };
        })
  unfolding prepare_event receive event_id terminates_session
  receive_next s c k p v h = ground arith

  refused :
      (k : WalletEventKind) (n : ℕ)
      → is_ok (
          receive
            (record { last_event_id = some n; terminated = terminates_session (published k n) })
            (published k n))
        ≡ false
  unfolding receive event_id terminates_session
  refused k n = ground arith

  -- In every exchange that both sides began from the start, the dApp accepts the next event that the
  -- wallet publishes, and refuses to accept the same event a second time.
  pub delivery_exactly_once :
      {t : WalletSessionState} {d : WalletEventCursor} (k : WalletEventKind)
      (p : PreparedWalletEvent)
      → Exchange initial start t d
      → prepare_event t k ≡ ok p
      → (q : PreparedWalletEventReceipt) × (receive d (published k p.id) ≡ ok q)
        × (q.event_id ≡ p.id)
        × (is_ok (receive q.next_cursor (published k p.id)) ≡ false)
  delivery_exactly_once {t} {d} k p x h = (
    record {
      event_id = p.id;
      next_cursor = record {
        last_event_id = some p.id;
        terminated = terminates_session (published k p.id);
      };
    },
    receive_next t d k p (Exchange-IsInStep (record { same_event = refl; ended = λ e. cc }) x) h,
    refl,
    refused k p.id,
  )
