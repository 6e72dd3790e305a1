-- ===== src/Session/RequestId.antt =====
-- Request identifiers (crates/ton-connect-core/src/session_state.rs, `RpcRequestId`): the canonical
-- text of a decimal number of any size.
pub mod Order
use Prim.Native.Nat.{compare, Ordering}
use wallet_engine.Base.{
  ℕ, Bool, true, false, ◌||◌, not, List, [], ◌∷◌, length, all_of, ◌==◌, if◌then◌else◌,
}
use wallet_engine.Base.Results.{Result, ok, err}
use wallet_engine.Types.Texts.{Text, is_ascii_digit}
use wallet_engine.Types.Digits.{then_with, lex_cmp}

pub data SessionStateError : Type 0 where
  invalid_request_id request_id_not_increasing session_not_connected : SessionStateError
  invalid_event_transition event_id_exhausted : SessionStateError

pub record RpcRequestId : Type 0 where
  pub text : Text

abbrev pub is_empty : Text → Bool
is_empty [] = true
is_empty (_ ∷ _) = false

-- `trim_start_matches('0')`
unfoldable pub without_zeroes : Text → Text
without_zeroes [] = []
without_zeroes (c ∷ s) = if c == 48 then without_zeroes s else c ∷ s

unfoldable pub canonical : Text → Text
canonical s = if is_empty (without_zeroes s) then 48 ∷ [] else without_zeroes s

-- `FromStr::from_str`
unfoldable pub parse : Text → Result SessionStateError RpcRequestId
parse s =
    if is_empty s || not (all_of is_ascii_digit s)
    then err invalid_request_id
    else ok (record { text = canonical s })

-- `Ord::cmp`
unfoldable pub cmp : RpcRequestId → RpcRequestId → Ordering
cmp a b = then_with (compare (length a.text) (length b.text)) (lex_cmp a.text b.text)

-- `a <= b`
unfoldable pub le : RpcRequestId → RpcRequestId → Bool
unfolding cmp
le a b = elim (cmp a b) [ Ordering.gt ↦ false | _ ↦ true ]
