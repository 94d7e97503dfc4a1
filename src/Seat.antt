-- ===== src/Seat.antt =====
-- The seat repository (src/infrastructure/persistence/seat_repository.rs): the one register
-- transaction, the seat count, the state transition and the partner sync.
pub mod Barcode
pub mod Register
pub mod Transition
pub mod Reads
pub mod Capacity
mod Examples
use backbone_events.Base.{
  ℕ, ◌+◌, ◌-◌, ◌≡◌, refl, Option, none, some, List, [], ◌∷◌, Bool, true, false, not, ◌&&◌, ◌||◌,
  ltb, leb, ◌==◌, if◌then◌else◌, is_value, is_some, coalesce, map_option, count_where, find_where,
  exists_where, update_where, String,
}
use backbone_events.Base.Text.{Text, text_eq, codes}
use backbone_events.Store.{
  Db, record_audit, EventRow, SlotRow, TicketRow, RegistrationRow, MailRow, LeadRuleRow,
  LeadRequestRow, RegistrationState, SaleOrderState, SaleStatus, KanbanState, IntervalKind,
  AuditEvent, EventError, DbError, Result, ok, err, ◌>>=◌, ◌>>◌, ok_or, refuse_if,
}

-- What a call reads from outside the database: the two clocks, the fresh uuid, the eight random
-- bytes of a barcode, and the declared length and e-mail checks on a registration's texts.
pub record Env : Type 0 where
  pub utc_now : ℕ
  pub sql_now : ℕ
  pub new_id : ℕ
  pub random_bytes : List ℕ
  pub text_checks : RegistrationRow → Bool

pub record RegisterCommand : Type 0 where
  pub event_id : ℕ
  pub event_slot_id : Option ℕ
  pub event_ticket_id : Option ℕ
  pub name : Text
  pub email : Text
  pub phone : Option Text
  pub company_name : Option Text
  pub partner_id : Option ℕ
  pub actor : Option ℕ
  pub lead_rule_skip : Bool

pub record SaleLink : Type 0 where
  pub sale_order_id : ℕ
  pub sale_order_state : SaleOrderState
  pub sale_status : SaleStatus
  pub initial_state : RegistrationState

abbrev pub state_code : RegistrationState → ℕ
state_code RegistrationState.draft = 0
state_code RegistrationState.opened = 1
state_code RegistrationState.done = 2
state_code RegistrationState.cancel = 3

abbrev pub same_state : RegistrationState → RegistrationState → Bool
same_state a b = state_code a == state_code b

-- state IN ('open','done')
abbrev pub is_holding : RegistrationState → Bool
is_holding RegistrationState.draft = false
is_holding RegistrationState.opened = true
is_holding RegistrationState.done = true
is_holding RegistrationState.cancel = false

abbrev pub is_cancelled : KanbanState → Bool
is_cancelled KanbanState.normal = false
is_cancelled KanbanState.done = false
is_cancelled KanbanState.blocked = false
is_cancelled KanbanState.cancel = true

abbrev pub is_after_sub : IntervalKind → Bool
is_after_sub IntervalKind.after_sub = true
is_after_sub IntervalKind.before_event = false
is_after_sub IntervalKind.after_event_start = false
is_after_sub IntervalKind.after_event = false
is_after_sub IntervalKind.before_event_end = false

-- `[AND event_slot_id = $slot]`: the slot clause is there only when a slot is named.
abbrev pub in_slot : Option ℕ → Option ℕ → Bool
in_slot none stored = true
in_slot (some slot) stored = is_value slot stored

-- The counting domain: `event_id = $1 [AND event_slot_id = $2] AND state IN ('open','done') AND active`.
abbrev pub holds_seat : ℕ → Option ℕ → RegistrationRow → Bool
holds_seat event_id slot_id r =
    r.event_id == event_id && in_slot slot_id r.event_slot_id && is_holding r.state && r.active

-- The one count.
unfoldable pub seats_taken : ℕ → Option ℕ → List RegistrationRow → ℕ
seats_taken event_id slot_id regs = count_where (holds_seat event_id slot_id) regs

-- The same count without one row, as the transition makes it.
pub seats_taken_without : ℕ → ℕ → Option ℕ → List RegistrationRow → ℕ
seats_taken_without id event_id slot_id regs =
    count_where (λ r. holds_seat event_id slot_id r && not (r.id == id)) regs

-- `seats_limited && seats_max > 0 && taken >= seats_max`
abbrev pub is_exhausted : EventRow → ℕ → Bool
is_exhausted event taken = event.seats_limited && ltb 0 event.seats_max && leb event.seats_max taken

abbrev pub find_event : ℕ → Db → Option EventRow
find_event id db = find_where (λ (e : EventRow). e.id == id) db.events

abbrev pub find_row : ℕ → List RegistrationRow → Option RegistrationRow
find_row id regs = find_where (λ (r : RegistrationRow). r.id == id) regs

-- ARM: the after_sub schedulers of the events that satisfy the test are due now and open again.
abbrev pub arm_mail : ℕ → MailRow → MailRow
arm_mail now m = record m { scheduled_date = some now; mail_done = false }

unfoldable pub arm_after_sub : (ℕ → Bool) → ℕ → Db → Db
arm_after_sub of_event now db = record db {
  mails =
      update_where (λ (m : MailRow). of_event m.event_id && is_after_sub m.interval_kind)
        (arm_mail now) db.mails;
}

-- The axes of a lead rule: on_create/on_confirm at a registration, one of two at a transition.
pub data LeadAxis : Type 0 where
  at_register at_confirm at_done : LeadAxis

abbrev pub rule_axis : LeadAxis → LeadRuleRow → Bool
rule_axis at_register rule = rule.on_create || rule.on_confirm
rule_axis at_confirm rule = rule.on_confirm
rule_axis at_done rule = rule.on_done

abbrev pub rule_of_event : ℕ → Option ℕ → Bool
rule_of_event event_id none = true
rule_of_event event_id (some e) = e == event_id

abbrev pub rule_fires : LeadAxis → ℕ → LeadRuleRow → Bool
rule_fires axis event_id rule =
    rule.active && rule_of_event event_id rule.event_id && rule_axis axis rule

-- INSERT .. ON CONFLICT (event_id) DO UPDATE SET done = false WHERE lead_requests.done
abbrev pub upsert_request : ℕ → List LeadRequestRow → List LeadRequestRow
upsert_request event_id reqs =
    if exists_where (λ (q : LeadRequestRow). q.event_id == event_id) reqs
    then update_where (λ (q : LeadRequestRow). q.event_id == event_id && q.done)
        (λ q. record q { done = false }) reqs
    else record { event_id = event_id; done = false; error_detail = none; claimed_at = none } ∷ reqs

pub arm_lead : LeadAxis → ℕ → Db → Db
arm_lead axis event_id db =
    if exists_where (rule_fires axis event_id) db.lead_rules
    then record db { lead_requests = upsert_request event_id db.lead_requests }
    else db
