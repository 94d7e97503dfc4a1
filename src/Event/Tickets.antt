-- ===== src/Event/Tickets.antt =====
-- The attendee's ticket feed of application/service/my_tickets_service.rs, behind a capability token.
pub mod Pinned
use backbone_events.Base.{ℕ, Option, none, some, List, [], ◌∷◌, Bool, ◌==◌, if◌then◌else◌}
use backbone_events.Base.Text.{Text}
use backbone_events.Store.{
  Db, EventRow, RegistrationRow, RegistrationState, BadgeFormat, Result, ok, err, EventError, ok_or,
  ◌>>=◌,
}
use backbone_events.Seat.Reads.{find_registration}
use backbone_events.Capability.Token.{
  TokenLib, CapabilityClaims, purpose_ticket_report, verify, mint_ticket_report_capability,
}
use backbone_events.Event.{find_published}

pub record TicketView : Type 0 where
  pub registration_id : ℕ
  pub event_id : ℕ
  pub event_name : Text
  pub event_date_begin : ℕ
  pub event_date_end : ℕ
  pub event_date_tz : Text
  pub attendee_name : Text
  pub state : RegistrationState
  pub barcode : Text

pub record TicketReport : Type 0 where
  pub event_id : ℕ
  pub event_name : Text
  pub event_date_begin : ℕ
  pub event_date_end : ℕ
  pub event_date_tz : Text
  pub badge_format : BadgeFormat
  pub tickets : List TicketView

abbrev pub ticket_of : EventRow → RegistrationRow → TicketView
ticket_of event row = record {
  registration_id = row.id;
  event_id = event.id;
  event_name = event.name;
  event_date_begin = event.date_begin;
  event_date_end = event.date_end;
  event_date_tz = event.date_tz;
  attendee_name = row.name;
  state = row.state;
  barcode = row.barcode;
}

unfoldable pub mint_tickets : TokenLib → Text → ℕ → List ℕ → Result Text
mint_tickets lib secret event_id registration_ids =
    mint_ticket_report_capability lib secret event_id registration_ids

-- .first().and_then(|s| Uuid::parse_str(s).ok())
abbrev pub first_uuid : (Text → Option ℕ) → List Text → Option ℕ
first_uuid parse [] = none
first_uuid parse (s ∷ scope) = parse s

abbrev pub push_parsed : Option ℕ → List ℕ → List ℕ
push_parsed none ids = ids
push_parsed (some id) ids = id ∷ ids

-- .filter_map(|s| Uuid::parse_str(s).ok())
abbrev pub parsed_uuids : (Text → Option ℕ) → List Text → List ℕ
parsed_uuids parse [] = []
parsed_uuids parse (s ∷ scope) = push_parsed (parse s) (parsed_uuids parse scope)

-- .iter().skip(1)
abbrev pub rest_of : List Text → List Text
rest_of [] = []
rest_of (s ∷ scope) = scope

abbrev pub push_ticket : EventRow → ℕ → Result RegistrationRow → List TicketView → List TicketView
push_ticket event event_id (err e) tickets = tickets
push_ticket event event_id (ok row) tickets =
    if row.event_id == event_id then ticket_of event row ∷ tickets else tickets

-- A pinned id that does not resolve, or is of another event, is left out.
unfoldable pub tickets_of : EventRow → ℕ → List ℕ → Db → List TicketView
tickets_of event event_id [] db = []
tickets_of event event_id (id ∷ pinned) db =
    push_ticket event event_id (find_registration id db) (tickets_of event event_id pinned db)

abbrev pub report_of : EventRow → List TicketView → TicketReport
report_of event tickets = record {
  event_id = event.id;
  event_name = event.name;
  event_date_begin = event.date_begin;
  event_date_end = event.date_end;
  event_date_tz = event.date_tz;
  badge_format = event.badge_format;
  tickets = tickets;
}

-- `parse` is `Uuid::parse_str`.
unfoldable pub report :
    TokenLib → (Text → Option ℕ) → (secret token : Text) → ℕ → Db → Result TicketReport
unfolding verify find_published tickets_of
report lib parse secret token now db =
    verify lib secret purpose_ticket_report token now >>= λ claims.
    ok_or (first_uuid parse claims.scope) EventError.event_not_published >>= λ event_id.
    find_published event_id db >>= λ event.
    ok (report_of event (tickets_of event event_id (parsed_uuids parse (rest_of claims.scope)) db))
