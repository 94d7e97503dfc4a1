-- ===== src/Store.antt =====
-- The database that the command repositories of src/infrastructure/persistence share, as a record
-- of tables. A verb's transaction is a function from a `Db` to a `Result` with the next one: an
-- error returns no `Db`, so all that was staged is rolled back.
mod Rows
mod Errors
use backbone_events.Base.{ℕ, ◌+◌, Option, List, ◌∷◌, Bool}
use backbone_events.Base.Text.{Text}
use Rows.{
  RegistrationState, EventRow, SlotRow, TicketRow, RegistrationRow, MailRow, ReceiptRow,
  LeadRuleRow, LeadPredicateRow, LeadRequestRow, LeadProvenanceRow, LeadMemberRow, StageRow,
  AnswerRow, BoothRow, BoothBookingRow,
}
use Errors.{EventError}
pub use Rows.*
pub use Errors.*

-- What the verbs hand to the audit trail (infrastructure/persistence/audit.rs), with the details
-- that they name. The trail itself is kept by another crate; here it is the log of those calls.
pub data AuditEvent : Type 0 where
  registration_created :
      (registration event : ℕ) → Text → RegistrationState → (sale_minted : Bool) → AuditEvent
  registration_refused : (event : ℕ) → Text → EventError → AuditEvent
  registration_state_changed : (registration : ℕ) (before after : RegistrationState) → AuditEvent
  registration_updated : (registration partner : ℕ) → AuditEvent
  sale_seam_confirmed : (order : ℕ) (minted : Bool) (free : Bool) (touched : ℕ) → AuditEvent
  sale_seam_cancelled : (order touched : ℕ) → AuditEvent
  sale_seam_paid : (order healed latched : ℕ) → AuditEvent
  booth_created : (booth event : ℕ) → AuditEvent
  booth_updated : (booth : ℕ) → AuditEvent
  booth_deleted : (booth : ℕ) → AuditEvent
  booth_confirmed : (booth booking : ℕ) → AuditEvent
  booth_released : (booth : ℕ) → AuditEvent
  booth_booking_created : (booth booking : ℕ) → AuditEvent
  booth_booking_deleted : (booking : ℕ) → AuditEvent
  event_created : (event : ℕ) → AuditEvent
  event_updated : (event : ℕ) → AuditEvent
  event_published : (event : ℕ) → AuditEvent
  event_unpublished : (event : ℕ) → AuditEvent
  event_mark_done : (event : ℕ) → AuditEvent
  lead_rule_created : (rule : ℕ) → AuditEvent
  lead_rule_updated : (rule : ℕ) → AuditEvent
  lead_relinked : (lead moved : ℕ) → AuditEvent
  scheduler_run : (deleted_pending_receipts : ℕ) → AuditEvent

pub record AuditRow : Type 0 where
  pub actor : Option ℕ
  pub event : AuditEvent

pub record Db : Type 0 where
  pub events : List EventRow
  pub slots : List SlotRow
  pub tickets : List TicketRow
  pub registrations : List RegistrationRow
  pub mails : List MailRow
  pub receipts : List ReceiptRow
  pub lead_rules : List LeadRuleRow
  pub lead_predicates : List LeadPredicateRow
  pub lead_requests : List LeadRequestRow
  pub lead_provenances : List LeadProvenanceRow
  pub lead_members : List LeadMemberRow
  pub types : List ℕ
  pub stages : List StageRow
  pub type_mails : List TypeMailRow
  pub type_booths : List TypeBoothRow
  pub answers : List AnswerRow
  pub seam_inbox : List (Text × Text)
  pub booth_categories : List ℕ
  pub booths : List BoothRow
  pub bookings : List BoothBookingRow
  pub audit : List AuditRow

abbrev pub record_audit : Option ℕ → AuditEvent → Db → Db
record_audit actor event db = record db {
  audit = record { actor = actor; event = event } ∷ db.audit;
}
