-- ===== src/Domain/Journal.antt =====
-- The durable journal's records and host contract (src/domain/journal.rs), and the host's
-- compare-and-exchange as that contract states it.
use Prim.Native.String.{String}
use wallet_engine.Base.{ℕ, Bool, Option, List}

pub record JournalKey : Type 0 where
  pub record_id : String
  pub slot : String

pub record JournalRecord : Type 0 where
  pub version : ℕ
  pub payload : List ℕ

pub record JournalCompareExchange : Type 0 where
  pub key : JournalKey
  pub expected_version : Option ℕ
  pub replacement : JournalRecord

pub record JournalCompareExchangeResult : Type 0 where
  pub applied : Bool
  pub current : Option JournalRecord
