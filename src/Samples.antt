-- ===== src/Samples.antt =====
-- The small databases, clocks and commands that the examples run on.
use backbone_events.Base.{ℕ, Option, none, some, List, [], ◌∷◌, true, false}
use backbone_events.Base.Text.{codes, text_eq}
use backbone_events.Store.{
  Db, EventRow, RegistrationRow, MailRow, BoothRow, BoothBookingRow, RegistrationState, SaleStatus,
  SaleOrderState, KanbanState, BadgeFormat, IntervalKind, IntervalUnit, NotificationChannel,
  BoothState, BookingStatus, Result, ok, err,
}
use backbone_events.Seat.{Env, RegisterCommand}
use backbone_events.Seam.{SeamEnv}

-- What a call returned, with a stand-in for a refusal.
abbrev pub value {ℓ} : {A : Type ℓ} → A → Result A → A
value other (ok a) = a
value other (err e) = other

abbrev pub concert : EventRow
concert = record {
  id = 1;
  name = codes "Concert";
  event_type_id = none;
  stage_id = 3;
  kanban_state = KanbanState.normal;
  date_begin = 90;
  date_end = 100;
  date_tz = codes "UTC";
  is_multi_slots = false;
  event_slot_count = 1;
  seats_limited = true;
  seats_max = 1;
  organizer_id = none;
  user_id = none;
  address_id = none;
  event_url = none;
  badge_format = BadgeFormat.a4_french_fold;
  is_published = true;
  date_publish = some 4;
}

abbrev pub reminder : MailRow
reminder = record {
  id = 41;
  event_id = 1;
  interval_nbr = 1;
  interval_unit = IntervalUnit.now;
  interval_kind = IntervalKind.after_sub;
  notification_channel = NotificationChannel.mail;
  scheduled_date = none;
  mail_done = true;
  last_registration_id = none;
  template_ref = some 3;
  template_kind = none;
  error_datetime = none;
  error_kind = none;
}

-- One single-slot event with one seat, and nobody registered.
abbrev pub hall : Db
hall = record {
  events = concert ∷ [];
  slots = record { id = 5; event_id = 1; date_begin = 92; date_end = none } ∷ [];
  tickets = [];
  registrations = [];
  mails = reminder ∷ [];
  receipts = [];
  lead_rules = [];
  lead_predicates = [];
  lead_requests = [];
  lead_provenances = [];
  lead_members = [];
  types = [];
  stages = record { id = 3; name = codes "New"; sequence = 1; pipe_end = false } ∷ [];
  type_mails = [];
  type_booths = [];
  answers = [];
  seam_inbox = [];
  booth_categories = 6 ∷ [];
  booths = [];
  bookings = [];
  audit = [];
}

abbrev pub env_at : ℕ → Env
env_at n = record {
  utc_now = 10;
  sql_now = 10;
  new_id = n;
  random_bytes = n ∷ 0 ∷ 0 ∷ 0 ∷ 0 ∷ 0 ∷ 0 ∷ 0 ∷ [];
  text_checks = λ r. true;
}

abbrev pub command : Option ℕ → RegisterCommand
command slot = record {
  event_id = 1;
  event_slot_id = slot;
  event_ticket_id = none;
  name = codes "Ann";
  email = codes "ann@example.org";
  phone = none;
  company_name = none;
  partner_id = none;
  actor = none;
  lead_rule_skip = false;
}

-- A registration of the concert with barcode 77.
abbrev pub attendee : ℕ → RegistrationState → Option ℕ → Option SaleStatus → RegistrationRow
attendee id state order status = record {
  id = id;
  event_id = 1;
  event_slot_id = none;
  event_ticket_id = none;
  name = codes "Ann";
  email = codes "ann@example.org";
  phone = none;
  company_name = none;
  partner_id = none;
  state = state;
  date_closed = none;
  sale_order_id = order;
  sale_order_state = some SaleOrderState.sale;
  sale_status = status;
  active = true;
  barcode = codes "77";
  created_at = 5;
}

abbrev pub with_registrations : List RegistrationRow → Db
with_registrations rows = record hall { registrations = rows }

abbrev pub taken_seat : RegistrationRow
taken_seat = attendee 51 RegistrationState.opened none none

-- Held by order 9 until it is paid.
abbrev pub held_seat : RegistrationRow
held_seat = attendee 52 RegistrationState.draft (some 9) (some SaleStatus.to_pay)

abbrev pub seam_env : SeamEnv
seam_env = record {
  sql_now = 10;
  uuid_text = λ id. id ∷ [];
  parse_f64_is_zero = λ raw. some (text_eq raw (codes "0"));
}

abbrev pub stand : BoothState → BoothRow
stand state = record {
  id = 21;
  event_id = 1;
  booth_category_id = 6;
  name = codes "A1";
  state = state;
  partner_id = none;
  contact_name = none;
  contact_email = none;
  contact_phone = none;
  sale_order_line_id = none;
  is_paid = false;
}

abbrev pub booking : ℕ → BookingStatus → BoothBookingRow
booking id status = record {
  id = id;
  event_booth_id = 21;
  sale_order_line_id = none;
  status = status;
  partner_id = none;
  contact_name = none;
  contact_email = none;
  contact_phone = none;
}

-- An available stand with the bookings 31 and 32.
abbrev pub fair : Db
fair = record hall {
  booths = stand BoothState.available ∷ [];
  bookings = booking 31 BookingStatus.pending ∷ booking 32 BookingStatus.pending ∷ [];
}

-- The same stand taken by booking 31.
abbrev pub taken_fair : Db
taken_fair = record hall {
  booths = stand BoothState.unavailable ∷ [];
  bookings = booking 31 BookingStatus.confirmed ∷ [];
}
