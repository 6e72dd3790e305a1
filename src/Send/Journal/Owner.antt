-- ===== src/Send/Journal/Owner.antt =====
-- The owner of a journal record, by any spelling of the wallet's address (src/wallet/send.rs).
use Prim.Native.String.{String}
use text.Mathlib.Text.{◌==◌ as str_eq}
use text.Mathlib.TextEquality.{eq_iff}
use wallet_engine.Base.{true, false, ◌≡◌, refl, some, none, Bool-cases, inl, inr, arith}
use wallet_engine.Base.Interface.{Eq}
use wallet_engine.Base.Results.{ok, Result-cases, >>=-eq-ok}
use wallet_engine.Domain.Journal.{JournalRecord}
use wallet_engine.Domain.Send.{TonAddressString, address_eq}
use wallet_engine.Send.Stage.{SendStage, permits_replacement}
use wallet_engine.Send.Record.{DurableSendRecord, RecordCodec, SendResolution}
use wallet_engine.Send.Journal.{
  PendingSendRecord, pending_of, pending_send_record, decode_owned, decode_durable_record,
  is_foreign, terminal_send_resolution, resolution_at_stage,
}
use wallet_engine.Send.Journal.Resolve.{pending_parts, owned_parts}

module _ {A : Type 0} ⦃e : Eq A⦄ (codec : RecordCodec A) where
  address_eq-congr :
      (x a b : TonAddressString A) → address_eq a b ≡ true → address_eq x a ≡ address_eq x b
  unfolding address_eq
  address_eq-congr x a b h = elim (Bool-cases (e.beq x.address a.address)) [
    | inl yes_a ↦ rw (yes_a, e.beq_trans x.address a.address b.address yes_a h) refl
    | inr no_a ↦ elim (Bool-cases (e.beq x.address b.address)) [
      | inl yes_b ↦
          let back =
            e.beq_trans x.address b.address a.address yes_b (e.beq_symm a.address b.address h) in
          absurd cc
      | inr no_b ↦ rw (no_a, no_b) refl
    ]
  ]

  decode_owned-congr :
      (r : JournalRecord) (id : String) (a b : TonAddressString A)
      → address_eq a b ≡ true
      → decode_owned codec r id a ≡ decode_owned codec r id b
  unfolding decode_owned is_foreign
  decode_owned-congr r id a b h = elim (Result-cases (decode_durable_record codec r)) [
    | inl (d, is) ↦ rw (is, address_eq-congr d.source a b h) refl
    | inr (x, is) ↦ rw is refl
  ]

  pub pending_send_record-congr :
      (r : JournalRecord) (id : String) (a b : TonAddressString A)
      → address_eq a b ≡ true
      → pending_send_record codec r id a ≡ pending_send_record codec r id b
  unfolding pending_send_record
  pending_send_record-congr r id a b h = rw (decode_owned-congr r id a b h) refl

  pub terminal_send_resolution-congr :
      (r : JournalRecord) (id : String) (a b : TonAddressString A)
      → address_eq a b ≡ true
      → terminal_send_resolution codec r id a ≡ terminal_send_resolution codec r id b
  unfolding terminal_send_resolution
  terminal_send_resolution-congr r id a b h = rw (decode_owned-congr r id a b h) refl

  owner-parts :
      (d : DurableSendRecord A) (id : String) (source : TonAddressString A)
      → is_foreign codec d id source ≡ false
      → (str_eq d.record_id id ≡ true) × (address_eq d.source source ≡ true)
  unfolding is_foreign
  owner-parts d id source h = ground arith

  -- A pending record names the wallet that it was read for.
  pub pending_owner :
      (r : JournalRecord) (id : String) (source : TonAddressString A) (p : PendingSendRecord A)
      → pending_send_record codec r id source ≡ ok (some p)
      → (p.record_id ≡ id) × (address_eq p.source source ≡ true)
  unfolding pending_of
  pending_owner r id source p h =
      let (d, owned, _, built) = pending_parts codec r id source p h in
      let (same_id, same_source) =
        owner-parts d id source (owned_parts codec r id source d owned).0 in
      rw (← built) ((eq_iff d.record_id id).0 same_id, same_source)

  at_stage-resolved :
      (s : SendStage) (d : DurableSendRecord A) (resolution : SendResolution)
      → resolution_at_stage codec s d ≡ ok (some resolution)
      → permits_replacement s ≡ true
  unfolding resolution_at_stage permits_replacement
  at_stage-resolved s d resolution h = ground arith

  -- A record that shows a conclusion does not block a signature.
  pub concluded-free :
      (r : JournalRecord) (id : String) (source : TonAddressString A) (resolution : SendResolution)
      → terminal_send_resolution codec r id source ≡ ok (some resolution)
      → pending_send_record codec r id source ≡ ok none
  unfolding terminal_send_resolution pending_send_record
  concluded-free r id source resolution h =
      let (d, owned, at) = >>=-eq-ok (decode_owned codec r id source) _ h in
      rw (owned, at_stage-resolved d.stage d resolution at) refl
