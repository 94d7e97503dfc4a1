-- ===== src/Event.antt =====
-- The event verbs and the publication gate of infrastructure/persistence/event_command_repository.rs.
pub mod Publication
pub mod Tickets
mod Examples
use backbone_events.Base.{
  ℕ, suc, Option, none, some, List, [], ◌∷◌, ◌++◌, Bool, true, false, not, ◌&&◌, ◌||◌, ◌==◌, leb,
  ltb, if◌then◌else◌, length, take, find_where, exists_where, select_where, update_where, sort_by,
  coalesce, map_option,
}
use backbone_events.Base.Text.{Text, codes}
use backbone_events.Store.{
  Db, record_audit, AuditEvent, EventRow, SlotRow, StageRow, TypeMailRow, TypeBoothRow, MailRow,
  BoothRow, KanbanState, BadgeFormat, BoothState, Result, ok, err, EventError, DbError, ok_or,
  refuse_if, ◌>>=◌, ◌>>◌,
}
use backbone_events.Seat.{find_event}
use backbone_events.Lead.{or_kept}

pub record CreateEventInput : Type 0 where
  pub name : Text
  pub event_type_id : Option ℕ
  pub date_begin : ℕ
  pub date_end : ℕ
  pub date_tz : Option Text
  pub is_multi_slots : Bool
  pub event_slot_count : ℕ
  pub seats_limited : Bool
  pub seats_max : ℕ
  pub organizer_id : Option ℕ
  pub user_id : Option ℕ
  pub address_id : Option ℕ
  pub event_url : Option Text
  pub badge_format : Option BadgeFormat

-- The publication pair has no arm here.
pub record PatchEventInput : Type 0 where
  pub name : Option Text
  pub event_type_id : Option ℕ
  pub stage_id : Option ℕ
  pub date_begin : Option ℕ
  pub date_end : Option ℕ
  pub date_tz : Option Text
  pub is_multi_slots : Option Bool
  pub event_slot_count : Option ℕ
  pub seats_limited : Option Bool
  pub seats_max : Option ℕ
  pub organizer_id : Option ℕ
  pub user_id : Option ℕ
  pub address_id : Option ℕ
  pub event_url : Option Text
  pub badge_format : Option BadgeFormat

-- ORDER BY sequence, id
abbrev pub stage_before : StageRow → StageRow → Bool
stage_before s t = if s.sequence == t.sequence then leb s.id t.id else leb s.sequence t.sequence

abbrev pub first_stage : List StageRow → Option ℕ
first_stage [] = none
first_stage (s ∷ stages) = some s.id

-- The first stage, or a new one where there is none.
abbrev pub stage_of_new : Option ℕ → ℕ → Db → ℕ × Db
stage_of_new (some stage) new db = (stage, db)
stage_of_new none new db = (
  new,
  record db {
    stages = record { id = new; name = codes "New"; sequence = 1; pipe_end = false } ∷ db.stages;
  },
)

abbrev pub new_event : ℕ → ℕ → CreateEventInput → EventRow
new_event id stage input = record {
  id = id;
  name = input.name;
  event_type_id = input.event_type_id;
  stage_id = stage;
  kanban_state = KanbanState.normal;
  date_begin = input.date_begin;
  date_end = input.date_end;
  date_tz = or_kept input.date_tz (codes "UTC");
  is_multi_slots = input.is_multi_slots;
  event_slot_count = input.event_slot_count;
  seats_limited = input.seats_limited;
  seats_max = input.seats_max;
  organizer_id = input.organizer_id;
  user_id = input.user_id;
  address_id = input.address_id;
  event_url = input.event_url;
  badge_format = or_kept input.badge_format BadgeFormat.a4_french_fold;
  is_published = false;
  date_publish = none;
}

-- The type's schedulers, copied as schedulers of the event.
abbrev pub templated_mails : (ℕ → ℕ) → ℕ → ℕ → List TypeMailRow → List MailRow
templated_mails new_id now event_id [] = []
templated_mails new_id now event_id (tm ∷ templates) =
    record {
      id = new_id (length templates);
      event_id = event_id;
      interval_nbr = tm.interval_nbr;
      interval_unit = tm.interval_unit;
      interval_kind = tm.interval_kind;
      notification_channel = tm.notification_channel;
      scheduled_date = some now;
      mail_done = false;
      last_registration_id = none;
      template_ref = tm.template_ref;
      template_kind = tm.template_kind;
      error_datetime = none;
      error_kind = none;
    }
    ∷ templated_mails new_id now event_id templates

-- The type's booths, name and category only.
abbrev pub templated_booths : (ℕ → ℕ) → ℕ → List TypeBoothRow → List BoothRow
templated_booths new_id event_id [] = []
templated_booths new_id event_id (tb ∷ templates) =
    record {
      id = new_id (length templates);
      event_id = event_id;
      booth_category_id = tb.booth_category_id;
      name = tb.name;
      state = BoothState.available;
      partner_id = none;
      contact_name = none;
      contact_email = none;
      contact_phone = none;
      sale_order_line_id = none;
      is_paid = false;
    }
    ∷ templated_booths new_id event_id templates

-- THE ONE TEMPLATE-APPLY
abbrev pub apply_templates : (ℕ → ℕ) → ℕ → ℕ → Option ℕ → Db → Db
apply_templates new_id now event_id none db = db
apply_templates new_id now event_id (some type_id) db = record db {
  mails =
      templated_mails new_id now event_id
        (select_where (λ (tm : TypeMailRow). tm.event_type_id == type_id) db.type_mails)
      ++ db.mails;
  booths =
      templated_booths new_id event_id
        (select_where (λ (tb : TypeBoothRow). tb.event_type_id == type_id) db.type_booths)
      ++ db.booths;
}

-- btrim(s) = '', which strips the space character alone.
abbrev pub is_spaces : Text → Bool
is_spaces s = not (exists_where (λ c. not (c == 32)) s)

abbrev pub url_fits : (Text → Bool) → Option Text → Bool
url_fits is_url none = true
url_fits is_url (some url) = is_url url

-- The CHECKs of event.events. `is_url` is the match of PostgreSQL with its two patterns of a url.
abbrev pub is_storable : (Text → Bool) → EventRow → Bool
is_storable is_url e =
    not (is_spaces e.name)
    && leb (length e.name) 200
    && not (is_spaces e.date_tz)
    && leb (length e.date_tz) 60
    && leb 1 e.event_slot_count
    && leb e.event_slot_count 100
    && leb e.date_begin e.date_end
    && url_fits is_url e.event_url

abbrev pub is_stage : ℕ → Db → Bool
is_stage id db = exists_where (λ (s : StageRow). s.id == id) db.stages

abbrev pub is_type : Option ℕ → Db → Bool
is_type none db = true
is_type (some id) db = exists_where (λ t. t == id) db.types

-- A foreign key is looked up where it was written: one that keeps its value is not.
abbrev pub same_type : Option ℕ → Option ℕ → Bool
same_type none none = true
same_type (some a) (some b) = a == b
same_type _ _ = false

abbrev pub refers : EventRow → EventRow → Db → Bool
refers old new db =
    (new.stage_id == old.stage_id || is_stage new.stage_id db)
    && (same_type new.event_type_id old.event_type_id || is_type new.event_type_id db)

-- `id`, `stage_id` and `new_id` are what the database draws for the rows.
unfoldable pub create :
    (Text → Bool)
    → (id stage_id : ℕ) → (ℕ → ℕ)
    → ℕ
    → CreateEventInput
    → Option ℕ
    → Db
    → Result (EventRow × Db)
create is_url id stage_id new_id now input actor db =
    let (stage, staged) = stage_of_new (first_stage (sort_by stage_before db.stages)) stage_id db in
    let row = new_event id stage input in
    let stored : Db = record staged { events = row ∷ staged.events } in
    refuse_if (not (is_storable is_url row)) (EventError.database DbError.check_violation)
    >> (refuse_if (exists_where (λ (e : EventRow). e.id == id) db.events)
          (EventError.database DbError.unique_violation)
        >> (refuse_if (not (is_stage stage staged && is_type input.event_type_id db))
              (EventError.database DbError.foreign_key_violation)
            >> ok (
              row,
              record_audit actor (AuditEvent.event_created id)
                  (apply_templates new_id now id input.event_type_id stored),
            )))

-- UPDATE event.events SET .. WHERE id = $1 RETURNING .., with the CHECKs and the foreign keys, and the
-- audit of the verb.
abbrev pub update_event :
    (Text → Bool) → (EventRow → EventRow) → ℕ → AuditEvent → Option ℕ → Db → Result (EventRow × Db)
update_event is_url f id event actor db =
    ok_or (find_event id db) EventError.event_not_found >>= λ row.
    refuse_if (not (is_storable is_url (f row))) (EventError.database DbError.check_violation)
    >> (refuse_if (not (refers row (f row) db)) (EventError.database DbError.foreign_key_violation)
        >> ok (
          f row,
          record_audit actor event
              (record db { events = update_where (λ (e : EventRow). e.id == id) f db.events }),
        ))

abbrev pub patched_event : PatchEventInput → EventRow → EventRow
patched_event p e = record e {
  name = or_kept p.name e.name;
  event_type_id = coalesce p.event_type_id e.event_type_id;
  stage_id = or_kept p.stage_id e.stage_id;
  date_begin = or_kept p.date_begin e.date_begin;
  date_end = or_kept p.date_end e.date_end;
  date_tz = or_kept p.date_tz e.date_tz;
  is_multi_slots = or_kept p.is_multi_slots e.is_multi_slots;
  event_slot_count = or_kept p.event_slot_count e.event_slot_count;
  seats_limited = or_kept p.seats_limited e.seats_limited;
  seats_max = or_kept p.seats_max e.seats_max;
  organizer_id = coalesce p.organizer_id e.organizer_id;
  user_id = coalesce p.user_id e.user_id;
  address_id = coalesce p.address_id e.address_id;
  event_url = coalesce p.event_url e.event_url;
  badge_format = or_kept p.badge_format e.badge_format;
}

unfoldable pub patch : (Text → Bool) → ℕ → PatchEventInput → Option ℕ → Db → Result (EventRow × Db)
patch is_url id input actor db =
    update_event is_url (patched_event input) id (AuditEvent.event_updated id) actor db

-- date_publish = COALESCE(date_publish, now())
abbrev pub published : ℕ → EventRow → EventRow
published now e = record e {
  is_published = true;
  date_publish = coalesce e.date_publish (some now);
}

unfoldable pub publish : (Text → Bool) → ℕ → ℕ → Option ℕ → Db → Result (EventRow × Db)
publish is_url now id actor db =
    update_event is_url (published now) id (AuditEvent.event_published id) actor db

abbrev pub unpublished : EventRow → EventRow
unpublished e = record e { is_published = false }

unfoldable pub unpublish : (Text → Bool) → ℕ → Option ℕ → Db → Result (EventRow × Db)
unpublish is_url id actor db =
    update_event is_url unpublished id (AuditEvent.event_unpublished id) actor db

abbrev pub closed : Option ℕ → EventRow → EventRow
closed pipe_end e = record e {
  kanban_state = KanbanState.done;
  stage_id = or_kept pipe_end e.stage_id;
}

-- `done`, and the first closing stage if there is one.
unfoldable pub mark_done : (Text → Bool) → ℕ → Option ℕ → Db → Result (EventRow × Db)
mark_done is_url id actor db =
    let pipe_end =
      first_stage (sort_by stage_before (select_where (λ (s : StageRow). s.pipe_end) db.stages)) in
    update_event is_url (closed pipe_end) id (AuditEvent.event_mark_done id) actor db

unfoldable pub find : ℕ → Db → Result EventRow
find id db = ok_or (find_event id db) EventError.event_not_found

-- ORDER BY date_begin DESC, id
abbrev pub event_before : EventRow → EventRow → Bool
event_before e f =
    if e.date_begin == f.date_begin then leb e.id f.id else ltb f.date_begin e.date_begin

unfoldable pub list : ℕ → Db → List EventRow
list limit db = take limit (sort_by event_before db.events)

abbrev pub is_called_off : KanbanState → Bool
is_called_off KanbanState.cancel = true
is_called_off _ = false

-- A missing event, an unpublished one and a cancelled one are one refusal.
abbrev pub or_not_published : Result EventRow → Result EventRow
or_not_published (ok row) = ok row
or_not_published (err EventError.event_not_found) = err EventError.event_not_published
or_not_published (err other) = err other

unfoldable pub find_published : ℕ → Db → Result EventRow
unfolding find
find_published id db = or_not_published (find id db) >>= λ row.
    refuse_if (not row.is_published || is_called_off row.kanban_state)
      EventError.event_not_published
    >> ok row

-- A slot's hours, if it is a slot of the event.
unfoldable pub slot_window_of_event : ℕ → ℕ → Db → Option (ℕ × ℕ × ℕ)
slot_window_of_event slot_id event_id db =
    map_option (λ (s : SlotRow). (s.id, s.date_begin, or_kept s.date_end s.date_begin))
      (find_where (λ (s : SlotRow). (s.id == slot_id) && (s.event_id == event_id)) db.slots)
