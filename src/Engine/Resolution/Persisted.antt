-- ===== src/Engine/Resolution/Persisted.antt =====
-- What the journal shows once a resolution was persisted (src/engine/resolution.rs,
-- `persist_send_resolution`).
use Prim.Native.String.{String}
use wallet_engine.Base.{
  ℕ, zero, suc, ◌≡◌, sym, ap, ◌∙◌, Option, some, none, ◌⊎◌, inl, inr, if-cases,
}
use wallet_engine.Base.Holds.{Holds, holds, fails, Holds->>=, Holds-ok_or, Holds-guard, Holds-of-ok}
use wallet_engine.Base.Interface.{Eq}
use wallet_engine.Base.Results.{Result, ok, err, map_err}
use wallet_engine.Domain.Journal.{JournalRecord}
use wallet_engine.Domain.Send.{TonAddressString}
use wallet_engine.Send.Record.{RecordCodec, IsFaithful, SendResolution}
use wallet_engine.Send.Journal.{
  PendingSendRecord, pending_send_record, terminal_send_resolution, terminal_mutation,
}
use wallet_engine.Send.Journal.Resolve.{IsRecordable, resolution_round_trip}
use wallet_engine.Send.Journal.Owner.{
  pending_owner, concluded-free, pending_send_record-congr, terminal_send_resolution-congr,
}
use wallet_engine.Engine.Resolution.{
  ResolutionError, ResolvedPending, HostTurn, workflow, failed, superseded, same_message, retried,
  by_winner, then_turn, after_conflict, persist_turn, persist_turns, persist_send_resolution,
}

map_err-ok : {E F X : Type 0} (f : E → F) (r : Result E X) (v : X) → map_err f r ≡ ok v → r ≡ ok v
map_err-ok f (ok u) v h = let same : u ≡ v = cc in cc
map_err-ok f (err x) v h = absurd cc

module _ {A : Type 0} ⦃e : Eq A⦄ (codec : RecordCodec A) (id : String)
    (source : TonAddressString A) where
  -- The journal that is returned shows the resolution that is returned, and blocks no signature.
  abbrev pub IsConcluded : ResolvedPending → Type 0
  IsConcluded done =
      (terminal_send_resolution codec done.journal id source ≡ ok (some done.resolution))
      × (pending_send_record codec done.journal id source ≡ ok none)

  -- The record was read from the journal of the wallet.
  pub record IsRead (p : PendingSendRecord A) : Type 0 where
    pub stored : JournalRecord
    pub read : pending_send_record codec stored id source ≡ ok (some p)

  abbrev pub Outcomes : ResolvedPending ⊎ PendingSendRecord A → Type 0
  Outcomes (inl done) = IsConcluded done
  Outcomes (inr next) = IsRead next

module _ {A : Type 0} ⦃e : Eq A⦄ (codec : RecordCodec A) (id : String)
    (source : TonAddressString A) where
  concluded :
      (done : ResolvedPending)
      → terminal_send_resolution codec done.journal id source ≡ ok (some done.resolution)
      → IsConcluded codec id source done
  concluded done h = (h, concluded-free codec done.journal id source done.resolution h)

  -- A record that `p` reads for itself is read for the wallet.
  own_pending :
      (current : JournalRecord) (p : PendingSendRecord A)
      → IsRead codec id source p
      → pending_send_record codec current p.record_id p.source
        ≡ pending_send_record codec current id source
  own_pending current p r =
      let (same_id, same_source) = pending_owner codec r.stored id source p r.read in
      rw same_id (pending_send_record-congr codec current id p.source source same_source)

  own_terminal :
      (current : JournalRecord) (p : PendingSendRecord A)
      → IsRead codec id source p
      → terminal_send_resolution codec current p.record_id p.source
        ≡ terminal_send_resolution codec current id source
  own_terminal current p r =
      let (same_id, same_source) = pending_owner codec r.stored id source p r.read in
      rw same_id (terminal_send_resolution-congr codec current id p.source source same_source)

  retried-Outcomes :
      (current : JournalRecord) (p : PendingSendRecord A)
      → IsRead codec id source p
      → Holds (Outcomes codec id source) (retried codec current p)
  unfolding retried
  retried-Outcomes current p r =
      Holds->>= _ (map_err workflow (pending_send_record codec current p.record_id p.source)) _
        λ found is.
          Holds-ok_or _ found (failed "send journal changed during resolution") _ λ next present.
            Holds-guard _ (same_message next p) _ _ λ _. holds (record {
              stored = current;
              read =
                  sym (own_pending current p r) ∙ (map_err-ok workflow _ found is ∙ ap ok present);
            })

  conflict-Outcomes :
      (current : JournalRecord) (p : PendingSendRecord A)
      → IsRead codec id source p
      → Holds (Outcomes codec id source) (after_conflict codec current p)
  unfolding after_conflict by_winner
  conflict-Outcomes current p r =
      Holds->>= _ (map_err workflow (terminal_send_resolution codec current p.record_id p.source)) _
        λ found is. winner found (sym (own_terminal current p r) ∙ map_err-ok workflow _ found is)
    where
      winner :
          (found : Option SendResolution)
          → terminal_send_resolution codec current id source ≡ ok found
          → Holds (Outcomes codec id source) (by_winner codec found current p)
      winner (some resolution) shown =
          holds (concluded (record { resolution = resolution; journal = current }) shown)
      winner none shown = retried-Outcomes current p r

  turn-Outcomes :
      (turn : HostTurn) (p : PendingSendRecord A) (resolution : SendResolution)
      → IsFaithful codec
      → IsRecordable resolution
      → IsRead codec id source p
      → Holds (Outcomes codec id source) (persist_turn codec turn p resolution)
  unfolding persist_turn
  turn-Outcomes turn p resolution faithful small r =
      Holds->>= _ (map_err workflow (terminal_mutation codec p resolution)) _ λ written is.
        Holds-ok_or _ written (failed "pending resolution was not terminal") _ λ mutation present.
          Holds->>= _ (map_err failed turn.answer) _ λ result _.
            Holds-guard _ turn.is_current superseded _ λ _.
              if-cases (Holds (Outcomes codec id source)) result.applied _ _
                (λ _.
                  let writes = map_err-ok workflow _ written is ∙ ap ok present in
                  holds (
                    concluded (record { resolution = resolution; journal = mutation.replacement })
                      (resolution_round_trip codec r.stored id source p resolution mutation faithful
                        small r.read writes).0))
                (λ _.
                  Holds-ok_or _ result.current (failed "send journal disappeared during resolution")
                    _ λ current _. conflict-Outcomes current p r)

  then-IsConcluded :
      (host : ℕ → HostTurn) (again : PendingSendRecord A → Result ResolutionError ResolvedPending)
      (outcome : ResolvedPending ⊎ PendingSendRecord A)
      → Outcomes codec id source outcome
      → ((next : PendingSendRecord A)
          → IsRead codec id source next
          → Holds (IsConcluded codec id source) (again next))
      → Holds (IsConcluded codec id source) (then_turn codec host again outcome)
  unfolding then_turn
  then-IsConcluded host again (inl done) c later = holds c
  then-IsConcluded host again (inr next) c later = later next c

  turns-IsConcluded :
      (host : ℕ → HostTurn) (turns : ℕ) (p : PendingSendRecord A) (resolution : SendResolution)
      → IsFaithful codec
      → IsRecordable resolution
      → IsRead codec id source p
      → Holds (IsConcluded codec id source) (persist_turns codec host turns p resolution)
  unfolding persist_turns
  turns-IsConcluded host zero p resolution faithful small r = fails
  turns-IsConcluded host (suc turns) p resolution faithful small r =
      Holds->>= _ (persist_turn codec (host turns) p resolution) _ λ outcome is.
        then-IsConcluded host (λ next. persist_turns codec host turns next resolution) outcome
          (Holds-of-ok (Outcomes codec id source) _ outcome
            (turn-Outcomes (host turns) p resolution faithful small r) is)
          (λ next c. turns-IsConcluded host turns next resolution faithful small c)

  -- Whatever the host answers, other writers included, a resolution that is reported as persisted is what
  -- the returned journal record shows to every reader, and that record no longer blocks a signature. A
  -- transaction that the resolution to persist confirms has a logical time below 2^64, the codec reads
  -- back the records that it writes, and the pending send was read from a journal record.
  pub persist-IsConcluded :
      (host : ℕ → HostTurn) (stored : JournalRecord) (p : PendingSendRecord A)
      (resolution : SendResolution) (done : ResolvedPending)
      → IsFaithful codec
      → IsRecordable resolution
      → pending_send_record codec stored id source ≡ ok (some p)
      → persist_send_resolution codec host p resolution ≡ ok done
      → IsConcluded codec id source done
  unfolding persist_send_resolution
  persist-IsConcluded host stored p resolution done faithful small read h =
      Holds-of-ok (IsConcluded codec id source) _ done
        (turns-IsConcluded host 3 p resolution faithful small
          (record { stored = stored; read = read }))
        h
