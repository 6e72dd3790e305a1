-- ===== src/Engine/Snapshot.antt =====
-- The snapshot that a wallet client publishes and the types of its parts (src/domain/wallet.rs,
-- src/domain/activity.rs, src/domain/nft.rs, src/domain/config.rs, src/domain/error.rs and
-- src/transport/http.rs). Amounts and logical times are numbers.
use Prim.Native.String.{String}
use wallet_engine.Base.{ℕ, Bool, false, Option, List, [], if◌then◌else◌, true}
use wallet_engine.Types.Texts.{Text}
use wallet_engine.Domain.Send.{
  TonAddressString, Boc, Base64Hash, AccountStatus, SendSnapshot, SendPhase,
}
use wallet_engine.Send.Record.{ProtectedSecretRef}

pub data HttpHostErrorKind : Type 0 where
  offline timeout connection_lost dns tls policy_violation : HttpHostErrorKind
  response_too_large cancelled other : HttpHostErrorKind

pub record HttpRequestId : Type 0 where
  pub value : ℕ

pub data ErrorCode : Type 0 where
  invalid_provider_response http_rejected rate_limited transport_failed : ErrorCode
  host_cancelled response_too_large host_policy_violation : ErrorCode

pub data ErrorCategory : Type 0 where
  transport provider_protocol rate_limit cancellation host_policy : ErrorCategory

pub data RetryAdvice : Type 0 where
  none safe after_delay : RetryAdvice

pub record DomainError : Type 0 where
  pub code : ErrorCode
  pub category : ErrorCategory
  pub retry : RetryAdvice
  pub developer_message : String
  pub provider_status : Option ℕ
  pub retry_after_ms : Option ℕ
  pub host_kind : Option HttpHostErrorKind

pub data ResourcePhase : Type 0 where
  idle loading ready failed : ResourcePhase

pub record ResourceState : Type 0 where
  pub phase : ResourcePhase
  pub error : Option DomainError

pub data Network : Type 0 where
  mainnet testnet : Network

pub record ProviderConfig (A : Type 0) : Type 0 where
  pub toncenter_base_url : String
  pub dns_root_address : Option (TonAddressString A)
  pub request_timeout_ms : ℕ

pub record WalletClientConfig (A : Type 0) : Type 0 where
  pub record_id : String
  pub address : TonAddressString A
  pub public_key : List ℕ
  pub local_secret_ref : Option ProtectedSecretRef
  pub network : Network
  pub send_validity_seconds : ℕ
  pub resolution_margin_seconds : ℕ
  pub providers : ProviderConfig A

pub record AccountSnapshot : Type 0 where
  pub balance_nanograms : ℕ
  pub status : AccountStatus
  pub sync_utime : ℕ

pub data ActivityDirection : Type 0 where
  sent received : ActivityDirection

pub data ActivityStatus : Type 0 where
  success failed bounced : ActivityStatus

pub record ActivityItem (A : Type 0) : Type 0 where
  pub id : Text
  pub transaction_hash : Base64Hash
  pub logical_time : ℕ
  pub timestamp : ℕ
  pub direction : ActivityDirection
  pub amount_nanograms : ℕ
  pub transaction_fee_nanograms : ℕ
  pub status : ActivityStatus
  pub comment : Option String
  pub encrypted_comment : Option Boc
  pub counterparty : Option (TonAddressString A)

pub record ActivityCursor : Type 0 where
  pub logical_time : ℕ
  pub hash : Base64Hash

pub record ActivityList (A : Type 0) : Type 0 where
  pub items : List (ActivityItem A)
  pub resource : ResourceState
  pub pagination_resource : ResourceState
  pub has_more : Bool

pub record NftCollectionDescriptor (A : Type 0) : Type 0 where
  pub address : TonAddressString A
  pub name : Option String
  pub description : Option String
  pub image : Option String
  pub content : List (String × String)

pub record NftItem (A : Type 0) : Type 0 where
  pub address : TonAddressString A
  pub collection_address : Option (TonAddressString A)
  pub collection : Option (NftCollectionDescriptor A)
  pub owner_address : Option (TonAddressString A)
  pub real_owner : Option (TonAddressString A)
  pub sale_contract_address : Option (TonAddressString A)
  pub auction_contract_address : Option (TonAddressString A)
  pub index : ℕ
  pub last_transaction_lt : ℕ
  pub initialized : Bool
  pub on_sale : Bool
  pub code_hash : String
  pub data_hash : String
  pub content : List (String × String)
  pub is_nsfw : Option Bool
  pub is_scam : Option Bool

pub record NftList (A : Type 0) : Type 0 where
  pub items : List (NftItem A)
  pub resource : ResourceState
  pub pagination_resource : ResourceState
  pub has_more : Bool

pub record WalletSnapshot (A : Type 0) : Type 0 where
  pub revision : ℕ
  pub record_id : String
  pub address : TonAddressString A
  pub network : Network
  pub account : Option AccountSnapshot
  pub account_resource : ResourceState
  pub activity : ActivityList A
  pub activity_cursor : Option ActivityCursor
  pub nfts : NftList A
  pub send : SendSnapshot

-- `ResourceState::idle`
abbrev pub idle_resource : ResourceState
idle_resource = record { phase = ResourcePhase.idle; error = Option.none }

-- `ResourceState::loading`, `ResourceState::ready` and `ResourceState::failed`
abbrev pub loading_resource : ResourceState
loading_resource = record { phase = ResourcePhase.loading; error = Option.none }

abbrev pub ready_resource : ResourceState
ready_resource = record { phase = ResourcePhase.ready; error = Option.none }

abbrev pub failed_resource : DomainError → ResourceState
failed_resource error = record { phase = ResourcePhase.failed; error = Option.some error }

-- src/domain/wallet.rs
pub data WalletOperationOutcome : Type 0 where
  completed partially_completed failed cancelled superseded skipped : WalletOperationOutcome

pub record WalletUpdate (A : Type 0) : Type 0 where
  pub outcome : WalletOperationOutcome
  pub activity_items_added : ℕ
  pub nft_items_added : ℕ
  pub snapshot : WalletSnapshot A

-- `WalletSnapshot::empty`
unfoldable pub empty_snapshot : {A : Type 0} → WalletClientConfig A → WalletSnapshot A
empty_snapshot config = record {
  revision = 0;
  record_id = config.record_id;
  address = config.address;
  network = config.network;
  account = Option.none;
  account_resource = idle_resource;
  activity = record {
    items = [];
    resource = idle_resource;
    pagination_resource = idle_resource;
    has_more = false;
  };
  activity_cursor = Option.none;
  nfts = record {
    items = [];
    resource = idle_resource;
    pagination_resource = idle_resource;
    has_more = false;
  };
  send = record {
    operation_id = Option.none;
    phase = SendPhase.idle;
    error_message = Option.none;
    resolution = Option.none;
  };
}

abbrev pub is_loading : ResourcePhase → Bool
is_loading ResourcePhase.loading = true
is_loading _ = false

-- src/engine/activity.rs, `mark_loading_cancelled`
unfoldable pub mark_loading_cancelled : ResourceState → ResourceState
mark_loading_cancelled resource = if is_loading resource.phase then idle_resource else resource
