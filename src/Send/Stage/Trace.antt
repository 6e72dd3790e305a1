-- ===== src/Send/Stage/Trace.antt =====
-- Any sequence of reducer events, in order or out of order (src/wallet/send.rs, the bounded model
-- check `arbitrary_event_sequences_cannot_submit_before_durable_persistence`, without its bound).
use wallet_engine.Base.{
  Bool, true, false, ◌≡◌, ◌⊎◌, inl, inr, refl, ap, Option, none, some, List, [], ◌∷◌, ◌++◌, arith,
}
use wallet_engine.Send.Stage.{SendStage, SendEvent, transition}

-- An event that is out of order is refused, and the stage stays.
abbrev pub advance : Option SendStage → SendStage → SendStage
advance none s = s
advance (some t) s = t

unfoldable pub run : SendStage → List SendEvent → SendStage
run s [] = s
run s (e ∷ es) = run (advance (transition s e) s) es

abbrev pub is_sent : SendStage → Bool
is_sent SendStage.ready_to_submit = true
is_sent SendStage.submitting = true
is_sent SendStage.submission_unknown = true
is_sent SendStage.submitted = true
is_sent _ = false

-- The trace has the event that reports the durable write of the signed message, and when it came the
-- stage was the one that waits for that write.
pub record WasPersisted (s : SendStage) (es : List SendEvent) : Type 0 where
  pub before : List SendEvent
  pub after : List SendEvent
  pub split : es ≡ before ++ (SendEvent.prepared_journal_persisted ∷ after)
  pub waiting : run s before ≡ SendStage.persisting_prepared

step_sent :
    (s : SendStage) (e : SendEvent)
    → is_sent s ≡ false
    → (is_sent (advance (transition s e) s) ≡ false)
      ⊎ ((s ≡ SendStage.persisting_prepared) × (e ≡ SendEvent.prepared_journal_persisted))
unfolding transition
step_sent s e h = ground arith

sent-WasPersisted :
    (s : SendStage) (es : List SendEvent)
    → is_sent s ≡ false
    → is_sent (run s es) ≡ true
    → WasPersisted s es
unfolding run
sent-WasPersisted s [] h k = absurd (ground arith)
sent-WasPersisted s (e ∷ es) h k = elim (step_sent s e h) [
  | inr (at, is) ↦ record { before = []; after = es; split = cc; waiting = at }
  | inl still ↦
      let w = sent-WasPersisted (advance (transition s e) s) es still k in
      record {
        before = e ∷ w.before;
        after = w.after;
        split = ap (λ t. e ∷ t) w.split;
        waiting = w.waiting;
      }
]

-- Whatever events arrive, a new send reaches a stage in which its message may be at the provider only
-- after the signed message was durably written.
pub no_submission_before_persistence :
    (es : List SendEvent)
    → is_sent (run SendStage.validating es) ≡ true
    → WasPersisted SendStage.validating es
no_submission_before_persistence es h = sent-WasPersisted SendStage.validating es refl h
