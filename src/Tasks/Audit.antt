-- ===== src/Tasks/Audit.antt =====
-- app/observability/audit.py over app/storage/repositories/task_repo.py: the audit log, with the task
-- repository behind it as its sink. The log file is the list of its lines; what `uuid4` draws is the
-- identifier of an event. The text of a field of a payload is a parameter.
use mathlib.Core.List.{map-append, append_assoc, append-nil}
use ochestrate.Base.{
  true, ◌≡◌, ◌≢◌, ap, sym, ◌∙◌, ℕ, false, Option, none, some, List, [], ◌∷◌, ◌++◌, ◌==◌, map, any,
  All, arith, text_beq_iff,
}
use ochestrate.Text.{Text, text_eq, codes}
use ochestrate.Storage.Rows.{any-map}
use ochestrate.Storage.Table.{Stored, Table, IsLawful}
use ochestrate.Tasks.Database.{fits_event, AuditRow, same_event, append_audit_event}

-- a line of the log
pub record AuditLine (Json : Type 0) : Type 0 where
  pub event_id : Text
  pub event_type : Text
  pub timestamp : ℕ
  pub payload : Json

module _ {Json S : Type 0} (payload_text : Text → Json → Option Text)
    (A : Table (AuditRow Json) S) where
  -- `AuditLogger.record`: the line is written first, and a failure of the sink is passed over
  unfoldable pub record_event :
      AuditLine Json → List (AuditLine Json) × S → List (AuditLine Json) × S
  record_event e (log, s) = (
    log ++ (e ∷ []),
    elim (append_audit_event payload_text A e.timestamp e.event_id e.event_type e.payload s) [
      | none ↦ s
      | some s' ↦ s'
    ],
  )

  unfoldable pub record_events :
      List (AuditLine Json) → List (AuditLine Json) × S → List (AuditLine Json) × S
  unfolding record_event
  record_events [] logged = logged
  record_events (e ∷ es) logged = record_events es (record_event e logged)

-- the row of an event
abbrev pub audit_row :
    {Json : Type 0} → (Text → Json → Option Text) → AuditLine Json → AuditRow Json
audit_row payload_text e = record {
  event_id = e.event_id;
  event_type = e.event_type;
  trace_id = payload_text (codes "trace_id") e.payload;
  tenant_id = payload_text (codes "tenant_id") e.payload;
  payload_json = e.payload;
}

abbrev pub columns_of : {Json S : Type 0} → Table (AuditRow Json) S → S → List (AuditRow Json)
columns_of A s = map (λ (r : Stored (AuditRow _)). r.columns) (A.rows s)

-- No two events have one identifier.
abbrev pub AreApart : {Json : Type 0} → List (AuditLine Json) → Type 0
AreApart [] = Unit
AreApart (e ∷ es) = All (λ other. e.event_id ≢ other.event_id) es × AreApart es

module _ {Json S : Type 0} (payload_text : Text → Json → Option Text) (A : Table (AuditRow Json) S)
    (law : IsLawful fits_event same_event A) where
  -- Whatever the sink answers, each event is written to the log.
  log-record_events :
      (es log : List (AuditLine Json)) (s : S)
      → (record_events payload_text A es (log, s)).0 ≡ log ++ es
  unfolding record_events record_event
  log-record_events [] log s = sym (append-nil log)
  log-record_events (e ∷ es) log s =
      log-record_events es (log ++ (e ∷ [])) _ ∙ append_assoc log (e ∷ []) es

  -- Each row of an event is within the lengths of the columns.
  abbrev pub AllFit : List (AuditLine Json) → Type 0
  AllFit es = All (λ e. fits_event (audit_row payload_text e) ≡ true) es

  -- An event with a new identifier gets its row.
  abbrev IsNew : AuditLine Json → S → Type 0
  IsNew e s = any (λ row. row.event_id == e.event_id) (columns_of A s) ≡ false

  sunk :
      (e : AuditLine Json) (log : List (AuditLine Json)) (s : S)
      → fits_event (audit_row payload_text e) ≡ true
      → IsNew e s
      → columns_of A (record_event payload_text A e (log, s)).1
        ≡ columns_of A s ++ (audit_row payload_text e ∷ [])
  unfolding record_event append_audit_event
  sunk e log s fit new =
      let fresh =
        sym (
          any-map (λ (r : Stored (AuditRow Json)). r.columns) (λ row. row.event_id == e.event_id)
            (A.rows s))
        ∙ new in
      let (s', added, rows') = law.rows-add e.timestamp (audit_row payload_text e) s fit fresh in
      rw (record_event, append_audit_event, added)
        (ap (map (λ (r : Stored (AuditRow Json)). r.columns)) rows'
          ∙ map-append (λ (r : Stored (AuditRow Json)). r.columns) (A.rows s)
              (record { created_at = e.timestamp; columns = audit_row payload_text e } ∷ []))

  -- The event is new, and it stays so when one with another identifier has got its row.
  still_new :
      (e other : AuditLine Json) (rows : List (AuditRow Json))
      → e.event_id ≢ other.event_id
      → any (λ row. row.event_id == other.event_id) rows ≡ false
      → any (λ row. row.event_id == other.event_id) (rows ++ (audit_row payload_text e ∷ []))
        ≡ false
  still_new e other [] ne new = ground (arith, text_beq_iff e.event_id other.event_id)
  still_new e other (row ∷ rows) ne new = ground (arith, still_new e other rows ne)

  All-still-IsNew :
      (e : AuditLine Json) (es : List (AuditLine Json)) (s s' : S)
      → columns_of A s' ≡ columns_of A s ++ (audit_row payload_text e ∷ [])
      → All (λ other. e.event_id ≢ other.event_id) es
      → All (λ other. IsNew other s) es
      → All (λ other. IsNew other s') es
  All-still-IsNew e [] s s' rows ne new = tt
  All-still-IsNew e (other ∷ es) s s' rows ne new = (
    ap (any (λ row. row.event_id == other.event_id)) rows
        ∙ still_new e other (columns_of A s) ne.0 new.0,
    All-still-IsNew e es s s' rows ne.1 new.1,
  )

  columns-record_events :
      (es log : List (AuditLine Json)) (s : S)
      → AreApart es
      → AllFit es
      → All (λ e. IsNew e s) es
      → columns_of A (record_events payload_text A es (log, s)).1
        ≡ columns_of A s ++ map (audit_row payload_text) es
  unfolding record_events
  columns-record_events [] log s apart fit new = sym (append-nil (columns_of A s))
  columns-record_events (e ∷ es) log s apart fit new =
      let s' = (record_event payload_text A e (log, s)).1 in
      let rows = sunk e log s fit.0 new.0 in
      columns-record_events es _ s' apart.1 fit.1 (All-still-IsNew e es s s' rows apart.0 new.1)
      ∙ ap (λ rs. rs ++ map (audit_row payload_text) es) rows
      ∙ append_assoc (columns_of A s) (audit_row payload_text e ∷ [])
          (map (audit_row payload_text) es)

  All-IsNew : (es : List (AuditLine Json)) (s : S) → A.rows s ≡ [] → All (λ e. IsNew e s) es
  All-IsNew [] s nothing = tt
  All-IsNew (e ∷ es) s nothing = (rw (nothing), All-IsNew es s nothing)

  -- Where the database compares texts exactly: events with identifiers of their own, whose texts are
  -- within the lengths of the columns, recorded from an empty log and an empty table on, are all in
  -- the log and all in the table of audit events, in the order in which they came, each row with
  -- the event's payload and the trace and the tenant that the payload names.
  pub record_events_lem :
      (es : List (AuditLine Json)) (s : S)
      → A.rows s ≡ []
      → AreApart es
      → AllFit es
      → ((record_events payload_text A es ([], s)).0 ≡ es)
        × (columns_of A (record_events payload_text A es ([], s)).1
            ≡ map (audit_row payload_text) es)
  record_events_lem es s nothing apart fit = (
    log-record_events es [] s,
    columns-record_events es [] s apart fit (All-IsNew es s nothing)
        ∙ ap
            (λ rows.
              map (λ (r : Stored (AuditRow Json)). r.columns) rows
              ++ map (audit_row payload_text) es)
            nothing,
  )
