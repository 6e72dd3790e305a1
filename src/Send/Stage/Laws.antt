-- ===== src/Send/Stage/Laws.antt =====
-- Terminal stages, replacement and cancellation (src/wallet/send.rs, `SendStage`).
use wallet_engine.Base.{true, false, ◌≡◌, ◌&&◌, ◌↔◌, ◌⊎◌, some, arith}
use wallet_engine.Send.Stage.{
  SendStage, SendEvent, is_terminal, permits_replacement, permits_forced_replacement,
  after_cancellation, transition, stage_eq,
}

-- An event never moves a stage out of a terminal one.
transition_terminal :
    (s : SendStage) (e : SendEvent) (t : SendStage)
    → is_terminal s ≡ true
    → transition s e ≡ some t
    → t ≡ s
unfolding transition
transition_terminal s e t h k = ground arith

stage_eq_refl : (s : SendStage) → stage_eq s s ≡ true
unfolding stage_eq
stage_eq_refl s = ground arith

pub stage_eq_iff : (s t : SendStage) → (stage_eq s t ≡ true) ↔ (s ≡ t)
unfolding stage_eq
stage_eq_iff s t = (λ h. ground arith, λ h. rw h (stage_eq_refl t))

-- A terminal stage blocks the next signature exactly when its message may still be executed: the
-- provider or a relayer has it and the chain's answer is not recorded. Such a stage can be replaced
-- by force, and no stage can be replaced both ways.
terminal_blocks :
    (s : SendStage)
    → (((is_terminal s ≡ true) × (permits_replacement s ≡ false)) ↔ (
        (s ≡ SendStage.submission_unknown)
        ⊎ (s ≡ SendStage.submitted)
        ⊎ (s ≡ SendStage.handed_off)))
      × ((permits_replacement s && permits_forced_replacement s) ≡ false)
unfolding is_terminal permits_replacement permits_forced_replacement
terminal_blocks s = ((λ h. ground arith, λ h. ground arith), ground arith)

-- Cancellation is accepted in every stage and leaves a terminal one: the same stage if it was
-- terminal, and otherwise `cancelled`, which no longer blocks a signature.
pub transition-cancel :
    (s : SendStage)
    → (t : SendStage) × (transition s SendEvent.cancel ≡ some t)
      × (is_terminal t ≡ true)
      × ((t ≡ s) ⊎ ((is_terminal s ≡ false) × (permits_replacement t ≡ true)))
unfolding transition permits_replacement
transition-cancel s = (after_cancellation s, ground arith, ground arith, ground arith)
