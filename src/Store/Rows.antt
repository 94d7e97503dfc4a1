-- ===== src/Store/Rows.antt =====
-- The rows of the tables that the verbs read and write, with the columns that they use. A uuid is a
-- number, a timestamptz a number of seconds, a text a list of code points.
use backbone_events.Base.{ℕ, Option, List, Bool}
use backbone_events.Base.Text.{Text}

-- event_registration_state; `opened` is the source's 'open'.
pub data RegistrationState : Type 0 where
  draft opened done cancel : RegistrationState

-- event_sale_order_state
pub data SaleOrderState : Type 0 where
  draft sent sale cancel : SaleOrderState

-- event_sale_status
pub data SaleStatus : Type 0 where
  free sold to_pay : SaleStatus

-- event_kanban_state
pub data KanbanState : Type 0 where
  normal done blocked cancel : KanbanState

-- event_booth_state
pub data BoothState : Type 0 where
  available unavailable : BoothState

-- event_booth_booking_status
pub data BookingStatus : Type 0 where
  pending confirmed : BookingStatus

-- event_interval_kind
pub data IntervalKind : Type 0 where
  after_sub before_event after_event_start after_event before_event_end : IntervalKind

-- event_interval_unit
pub data IntervalUnit : Type 0 where
  now hours days weeks months : IntervalUnit

-- event_notification_channel
pub data NotificationChannel : Type 0 where
  mail sms : NotificationChannel

-- event_mail_error_kind
pub data MailErrorKind : Type 0 where
  template_unresolved template_renderer_not_composed render_failed : MailErrorKind
  enqueue_refused recipient_invalid sms_enqueue_refused : MailErrorKind

-- The closed vocabulary of a receipt's outcome.
pub data Outcome : Type 0 where
  queued dropped_window_closed : Outcome

-- event_badge_format
pub data BadgeFormat : Type 0 where
  a4_french_fold a6 four_per_sheet : BadgeFormat

-- event_lead_basis: 'registration' or 'attendee'
pub data LeadBasis : Type 0 where
  by_registration by_attendee : LeadBasis

-- event_lead_predicate_axis, each name after the column it matches.
pub data LeadPredicateAxis : Type 0 where
  by_event by_event_type by_company by_question_answer : LeadPredicateAxis

-- event_lead_grouping
pub data LeadGrouping : Type 0 where
  per_order per_event_day : LeadGrouping

-- event.events
pub record EventRow : Type 0 where
  pub id : ℕ
  pub name : Text
  pub event_type_id : Option ℕ
  pub stage_id : ℕ
  pub kanban_state : KanbanState
  pub date_begin : ℕ
  pub date_end : ℕ
  pub date_tz : Text
  pub is_multi_slots : Bool
  pub event_slot_count : ℕ
  pub seats_limited : Bool
  pub seats_max : ℕ
  pub organizer_id : Option ℕ
  pub user_id : Option ℕ
  pub address_id : Option ℕ
  pub event_url : Option Text
  pub badge_format : BadgeFormat
  pub is_published : Bool
  pub date_publish : Option ℕ

-- event.slots
pub record SlotRow : Type 0 where
  pub id : ℕ
  pub event_id : ℕ
  pub date_begin : ℕ
  pub date_end : Option ℕ

-- event.type_mails: a scheduler that an event type templates.
pub record TypeMailRow : Type 0 where
  pub event_type_id : ℕ
  pub interval_nbr : ℕ
  pub interval_unit : IntervalUnit
  pub interval_kind : IntervalKind
  pub notification_channel : NotificationChannel
  pub template_ref : Option ℕ
  pub template_kind : Option Text

-- event.type_booths: a booth that an event type templates.
pub record TypeBoothRow : Type 0 where
  pub event_type_id : ℕ
  pub booth_category_id : ℕ
  pub name : Text

-- event.stages
pub record StageRow : Type 0 where
  pub id : ℕ
  pub name : Text
  pub sequence : ℕ
  pub pipe_end : Bool

-- event.registration_answers, the chosen answer of a question.
pub record AnswerRow : Type 0 where
  pub registration_id : ℕ
  pub question_id : ℕ
  pub value_answer_id : Option ℕ

-- event.tickets
pub record TicketRow : Type 0 where
  pub id : ℕ
  pub event_id : ℕ
  pub start_sale_datetime : Option ℕ
  pub end_sale_datetime : Option ℕ

-- event.registrations
pub record RegistrationRow : Type 0 where
  pub id : ℕ
  pub event_id : ℕ
  pub event_slot_id : Option ℕ
  pub event_ticket_id : Option ℕ
  pub name : Text
  pub email : Text
  pub phone : Option Text
  pub company_name : Option Text
  pub partner_id : Option ℕ
  pub state : RegistrationState
  pub date_closed : Option ℕ
  pub sale_order_id : Option ℕ
  pub sale_order_state : Option SaleOrderState
  pub sale_status : Option SaleStatus
  pub active : Bool
  pub barcode : Text
  -- metadata->>'created_at', which the insert trigger stamps
  pub created_at : ℕ

-- event.mails: one communication scheduler of an event.
pub record MailRow : Type 0 where
  pub id : ℕ
  pub event_id : ℕ
  pub interval_nbr : ℕ
  pub interval_unit : IntervalUnit
  pub interval_kind : IntervalKind
  pub notification_channel : NotificationChannel
  pub scheduled_date : Option ℕ
  pub mail_done : Bool
  pub last_registration_id : Option ℕ
  pub template_ref : Option ℕ
  pub template_kind : Option Text
  pub error_datetime : Option ℕ
  pub error_kind : Option MailErrorKind

-- event.mail_registrations: the receipt of one registration from one scheduler.
pub record ReceiptRow : Type 0 where
  pub id : ℕ
  pub scheduler_id : ℕ
  pub registration_id : ℕ
  pub scheduled_date : Option ℕ
  pub mail_sent : Bool
  pub outcome : Option Outcome

-- event.lead_rules
pub record LeadRuleRow : Type 0 where
  pub id : ℕ
  pub name : Text
  pub event_id : Option ℕ
  pub basis : LeadBasis
  pub on_create : Bool
  pub on_confirm : Bool
  pub on_done : Bool
  pub active : Bool

-- event.lead_rule_predicates
pub record LeadPredicateRow : Type 0 where
  pub id : ℕ
  pub rule_id : ℕ
  pub axis : LeadPredicateAxis
  pub question_id : Option ℕ
  pub value_ids : List ℕ

-- event.lead_requests; a row is known by its event, which is unique.
pub record LeadRequestRow : Type 0 where
  pub event_id : ℕ
  pub done : Bool
  pub error_detail : Option Text
  pub claimed_at : Option ℕ

-- event.lead_provenances
pub record LeadProvenanceRow : Type 0 where
  pub id : ℕ
  pub rule_id : ℕ
  pub event_id : ℕ
  pub group_key : Text
  pub grouping : LeadGrouping
  pub lead_id : Option ℕ

-- event.lead_provenance_registrations
pub record LeadMemberRow : Type 0 where
  pub provenance_id : ℕ
  pub registration_id : ℕ

-- event.booths
pub record BoothRow : Type 0 where
  pub id : ℕ
  pub event_id : ℕ
  pub booth_category_id : ℕ
  pub name : Text
  pub state : BoothState
  pub partner_id : Option ℕ
  pub contact_name : Option Text
  pub contact_email : Option Text
  pub contact_phone : Option Text
  pub sale_order_line_id : Option ℕ
  pub is_paid : Bool

-- event.booth_bookings
pub record BoothBookingRow : Type 0 where
  pub id : ℕ
  pub event_booth_id : ℕ
  pub sale_order_line_id : Option ℕ
  pub status : BookingStatus
  pub partner_id : Option ℕ
  pub contact_name : Option Text
  pub contact_email : Option Text
  pub contact_phone : Option Text
