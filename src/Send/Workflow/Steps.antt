-- ===== src/Send/Workflow/Steps.antt =====
-- The reducer's state, and the monad of methods that change it and may fail (src/wallet/send.rs,
-- `SendWorkflow`).
use Prim.Native.String.{String}
use wallet_engine.Base.{ℕ, Bool, Option, none, some, []}
use wallet_engine.Base.Results.{Result, ok, err}
use wallet_engine.Types.Texts.{Text}
use wallet_engine.Domain.Send.{TonAddressString, SendRequest, SendExpiration, SendSnapshot}
use wallet_engine.Send.Stage.{SendStage, SendEvent, transition, public_phase}
use wallet_engine.Send.Record.{
  FreshSendAccount, PreparedTransfer, ProtectedSecretRef, SignedMessageKind, SendWorkflowError,
  external, internal, invalid_transition,
}

pub record SendWorkflow (A : Type 0) : Type 0 where
  pub record_id : String
  pub source : TonAddressString A
  pub request : SendRequest A
  pub kind : SignedMessageKind
  pub local_secret_ref : Option ProtectedSecretRef
  pub stage : SendStage
  pub fresh_account : Option FreshSendAccount
  pub prepared : Option (PreparedTransfer A)
  pub journal_version : Option ℕ
  pub provider_reference : Option Text
  pub diagnostic : Option Text

-- A method: the state after it, and what it returns.
abbrev pub Step : Type 0 → Type 0 → Type 0
Step A X = SendWorkflow A → SendWorkflow A × Result SendWorkflowError X

module _ {A X Y : Type 0} where
  -- The rest of a method after `?`.
  abbrev pub and_then :
      SendWorkflow A × Result SendWorkflowError X
      → (X → Step A Y)
      → SendWorkflow A × Result SendWorkflowError Y
  and_then (w, ok x) f = f x w
  and_then (w, err e) f = (w, err e)

  infixl 5 ◌>>=◌
  abbrev pub ◌>>=◌ : Step A X → (X → Step A Y) → Step A Y
  ◌>>=◌ m f w = and_then (m w) f

module _ {A Y : Type 0} where
  infixl 5 ◌>>◌
  abbrev pub ◌>>◌ : Step A (Unit {0}) → Step A Y → Step A Y
  ◌>>◌ m k w = and_then (m w) (λ _. k)

module _ {A X : Type 0} where
  -- `Ok(x)`
  abbrev pub pure : X → Step A X
  pure x w = (w, ok x)

  -- `result?`, where the result is computed from the state.
  abbrev pub attempt : (SendWorkflow A → Result SendWorkflowError X) → Step A X
  attempt f w = (w, f w)

  -- A read of the state.
  abbrev pub asks : (SendWorkflow A → X) → Step A X
  asks f w = (w, ok (f w))

  abbrev pub throw : SendWorkflowError → Step A X
  throw e w = (w, err e)

module _ {A : Type 0} where
  -- An assignment to fields.
  abbrev pub modify : (SendWorkflow A → SendWorkflow A) → Step A (Unit {0})
  modify f w = (f w, ok tt)

  -- `next_stage(event, name)?`
  unfoldable pub next_stage :
      SendEvent → String → SendWorkflow A → Result SendWorkflowError SendStage
  next_stage event name w = elim (transition w.stage event) [
    | none ↦ err (invalid_transition w.stage name)
    | some stage ↦ ok stage
  ]

  abbrev pub set_stage : SendStage → Step A (Unit {0})
  set_stage stage = modify (λ w. record w { stage = stage })

  unfoldable pub apply_event : SendEvent → String → Step A (Unit {0})
  unfolding next_stage
  apply_event event name = do stage ← attempt (next_stage event name); set_stage stage

  unfoldable pub new_with_kind :
      String
      → TonAddressString A
      → SendRequest A
      → Option ProtectedSecretRef
      → SignedMessageKind
      → SendWorkflow A
  new_with_kind record_id source request local_secret_ref kind = record {
    record_id = record_id;
    source = source;
    request = request;
    kind = kind;
    local_secret_ref = local_secret_ref;
    stage = SendStage.validating;
    fresh_account = none;
    prepared = none;
    journal_version = none;
    provider_reference = none;
    diagnostic = none;
  }

  unfoldable pub new :
      String → TonAddressString A → SendRequest A → ProtectedSecretRef → SendWorkflow A
  unfolding new_with_kind
  new record_id source request secret =
      new_with_kind record_id source request (some secret) external

  unfoldable pub new_internal :
      String → TonAddressString A → SendRequest A → ProtectedSecretRef → SendWorkflow A
  unfolding new_with_kind
  new_internal record_id source request secret =
      new_with_kind record_id source request (some secret) internal

  unfoldable pub new_prepared_external :
      String → TonAddressString A → String → Bool → ℕ → SendWorkflow A
  unfolding new_with_kind
  new_prepared_external record_id source operation_id force valid_until =
      new_with_kind record_id source
        (record {
          operation_id = operation_id;
          force = force;
          intent = record { expiration = SendExpiration.exact valid_until; messages = [] };
        })
        none external

  unfoldable pub snapshot : SendWorkflow A → SendSnapshot
  snapshot w = record {
    operation_id = some w.request.operation_id;
    phase = public_phase w.stage;
    error_message = w.diagnostic;
    resolution = none;
  }
