-- ===== src/Scheduler.antt =====
-- The statements that a pass over one scheduler row calls
-- (src/infrastructure/persistence/scheduler_repository.rs), with the ports of the host. Each statement
-- commits on its own, so a pass is a walk over databases and has no rollback.
pub mod Pass
pub mod Receipts
mod Examples
use backbone_events.Base.{
  ℕ, zero, suc, ◌+◌, ◌≡◌, Option, none, some, List, [], ◌∷◌, ◌++◌, map, Bool, true, false, not,
  ◌&&◌, ◌||◌, ◌==◌, ltb, leb, if◌then◌else◌, is_some, length, take, count_where, find_where,
  select_where, exists_where, update_where, sort_by,
}
use backbone_events.Base.Text.{Text, is_empty, text_contains, trim}
use backbone_events.Store.{
  Db, EventRow, RegistrationRow, MailRow, ReceiptRow, IntervalUnit, NotificationChannel,
  MailErrorKind, Outcome, EventError, Result, ok, err,
}
use backbone_events.Seat.{is_holding, find_event}

-- A due receipt joined to its registration.
pub record DueReceipt : Type 0 where
  pub receipt_id : ℕ
  pub registration_id : ℕ
  pub attendee_name : Text
  pub attendee_email : Text
  pub attendee_phone : Option Text
  pub barcode : Text
  pub scheduled_date : Option ℕ

pub record RenderedMail : Type 0 where
  pub subject : Text
  pub body_html : Text
  pub body_text : Text

pub data RenderFailure : Type 0 where
  template_unresolved renderer_not_composed : RenderFailure
  render_failed : Text → RenderFailure

pub data Rendered : Type 0 where
  rendered : RenderedMail → Rendered
  failed : RenderFailure → Rendered

-- The host's ports; the first argument is the number of calls made before, since a port may answer
-- each call differently. The clock, PostgreSQL's interval addition and the receipts' fresh uuids.
pub record Host : Type 0 where
  pub render : ℕ → MailRow → EventRow → DueReceipt → Rendered
  pub enqueue_mail : ℕ → Text → RenderedMail → Bool
  pub enqueue_sms : ℕ → Text → Text → Bool
  pub now : ℕ
  pub add_interval : ℕ → ℕ → IntervalUnit → ℕ
  pub receipt_id : ℕ → ℕ → ℕ

pub record SchedulerRunSummary : Type 0 where
  pub schedulers_claimed : ℕ
  pub receipts_materialized : ℕ
  pub receipts_queued : ℕ
  pub sms_queued : ℕ
  pub receipts_dropped_window_closed : ℕ
  pub typed_failures_recorded : ℕ
  pub cancellation_receipts_deleted : ℕ
  pub schedulers_rearmed : ℕ
  pub schedulers_completed : ℕ

-- The pass so far: the database, the summary, the port calls made.
pub record PassState : Type 0 where
  pub db : Db
  pub summary : SchedulerRunSummary
  pub calls : ℕ

-- state IN ('open','done') AND active
abbrev pub is_eligible : RegistrationRow → Bool
is_eligible r = is_holding r.state && r.active

abbrev pub is_receipt_of : ℕ → ℕ → ReceiptRow → Bool
is_receipt_of scheduler registration x =
    x.scheduler_id == scheduler && x.registration_id == registration

abbrev pub lacks_receipt : MailRow → Db → RegistrationRow → Bool
lacks_receipt scheduler db r =
    r.event_id == scheduler.event_id
    && is_eligible r
    && not (exists_where (is_receipt_of scheduler.id r.id) db.receipts)

-- CASE WHEN interval_unit = 'now' THEN '0 seconds' ELSE the interval END, after the creation stamp.
abbrev delayed : Host → ℕ → ℕ → IntervalUnit → ℕ
delayed host created number IntervalUnit.now = created
delayed host created number IntervalUnit.hours = host.add_interval created number IntervalUnit.hours
delayed host created number IntervalUnit.days = host.add_interval created number IntervalUnit.days
delayed host created number IntervalUnit.weeks = host.add_interval created number IntervalUnit.weeks
delayed host created number IntervalUnit.months =
    host.add_interval created number IntervalUnit.months

abbrev pub due_date : Host → MailRow → RegistrationRow → ℕ
due_date host scheduler r = delayed host r.created_at scheduler.interval_nbr scheduler.interval_unit

abbrev pub new_receipt : Host → MailRow → RegistrationRow → ReceiptRow
new_receipt host scheduler r = record {
  id = host.receipt_id scheduler.id r.id;
  scheduler_id = scheduler.id;
  registration_id = r.id;
  scheduled_date = some (due_date host scheduler r);
  mail_sent = false;
  outcome = none;
}

abbrev last_id : List RegistrationRow → Option ℕ → Option ℕ
last_id [] mark = mark
last_id (r ∷ rs) mark = last_id rs (some r.id)

-- GREATEST ignores NULL.
abbrev greatest : Option ℕ → Option ℕ → Option ℕ
greatest none b = b
greatest (some a) none = some a
greatest (some a) (some b) = if ltb a b then some b else some a

-- The missing receipts, in the order of the registrations' ids, up to the cap.
pub missing_receipts : MailRow → ℕ → Db → List RegistrationRow
missing_receipts scheduler cap db = take cap (
    sort_by (λ (a : RegistrationRow) b. leb a.id b.id)
      (select_where (lacks_receipt scheduler db) db.registrations))

pub materialize_receipts : Host → MailRow → ℕ → Db → ℕ × Db
unfolding missing_receipts
materialize_receipts host scheduler cap db =
    let missing = missing_receipts scheduler cap db in
    (
      length missing,
      record db {
        receipts = map (new_receipt host scheduler) missing ++ db.receipts;
        mails =
            update_where (λ (m : MailRow). m.id == scheduler.id)
              (λ m. record m {
                last_registration_id = greatest m.last_registration_id (last_id missing none);
              })
              db.mails;
      },
    )

pub unmaterialized_count : MailRow → Db → ℕ
unmaterialized_count scheduler db = count_where (lacks_receipt scheduler db) db.registrations

-- A receipt with no date is due.
abbrev is_past : ℕ → Option ℕ → Bool
is_past now none = true
is_past now (some date) = leb date now

abbrev pub is_due : Host → ReceiptRow → Bool
is_due host x = is_past host.now x.scheduled_date

abbrev pub joined : ReceiptRow → Option RegistrationRow → List DueReceipt
joined x none = []
joined x (some r) =
    if is_eligible r
    then record {
      receipt_id = x.id;
      registration_id = x.registration_id;
      attendee_name = r.name;
      attendee_email = r.email;
      attendee_phone = r.phone;
      barcode = r.barcode;
      scheduled_date = x.scheduled_date;
    }
      ∷ []
    else []

abbrev pub join_due : Host → ℕ → List RegistrationRow → List ReceiptRow → List DueReceipt
join_due host scheduler regs [] = []
join_due host scheduler regs (x ∷ xs) =
    (if x.scheduler_id == scheduler && not x.mail_sent && is_due host x
      then joined x (find_where (λ (r : RegistrationRow). r.id == x.registration_id) regs)
      else [])
    ++ join_due host scheduler regs xs

-- ORDER BY scheduled_date NULLS FIRST, registration_id
abbrev date_before : Option ℕ → Option ℕ → Bool → Bool
date_before none none tie = tie
date_before none (some b) tie = true
date_before (some a) none tie = false
date_before (some a) (some b) tie = ltb a b || (a == b && tie)

abbrev pub due_before : DueReceipt → DueReceipt → Bool
due_before a b =
    date_before a.scheduled_date b.scheduled_date (leb a.registration_id b.registration_id)

pub due_receipts : Host → ℕ → ℕ → Db → List DueReceipt
due_receipts host scheduler limit db =
    take limit (sort_by due_before (join_due host scheduler db.registrations db.receipts))

-- The two terminal marks: WHERE id = $1 AND NOT mail_sent.
abbrev pub is_open_receipt : ℕ → ReceiptRow → Bool
is_open_receipt id x = x.id == id && not x.mail_sent

abbrev pub mark_receipt : ℕ → Outcome → Db → Db
mark_receipt id outcome db = record db {
  receipts =
      update_where (is_open_receipt id) (λ x. record x { mail_sent = true; outcome = some outcome })
        db.receipts;
}

abbrev pub record_failure : ℕ → ℕ → MailErrorKind → Db → Db
record_failure now scheduler kind db = record db {
  mails =
      update_where (λ (m : MailRow). m.id == scheduler)
        (λ m. record m { error_kind = some kind; error_datetime = some now }) db.mails;
}

abbrev pub fail_with : Host → MailRow → MailErrorKind → PassState → PassState
fail_with host scheduler kind w = record w {
  db = record_failure host.now scheduler.id kind w.db;
  summary = record w.summary { typed_failures_recorded = w.summary.typed_failures_recorded + 1 };
}

abbrev pub failure_kind : RenderFailure → MailErrorKind
failure_kind RenderFailure.template_unresolved = MailErrorKind.template_unresolved
failure_kind RenderFailure.renderer_not_composed = MailErrorKind.template_renderer_not_composed
failure_kind (RenderFailure.render_failed reason) = MailErrorKind.render_failed

-- THE RECEIPT TRUTH: done iff every eligible registration has a sent receipt.
abbrev pub lacks_sent : MailRow → Db → RegistrationRow → Bool
lacks_sent m db r =
    r.event_id == m.event_id
    && is_eligible r
    && not (exists_where (λ (x : ReceiptRow). is_receipt_of m.id r.id x && x.mail_sent) db.receipts)

abbrev pub is_complete : Db → MailRow → Bool
is_complete db m = not (exists_where (lacks_sent m db) db.registrations)

-- A scheduler that is not there counts as done.
abbrev pub done_or_gone : Db → Option MailRow → Bool
done_or_gone db none = true
done_or_gone db (some m) = is_complete db m

pub recompute_mail_done : MailRow → Db → Bool × Db
recompute_mail_done scheduler db = (
  done_or_gone db (find_where (λ (m : MailRow). m.id == scheduler.id) db.mails),
  record db {
    mails =
        update_where (λ (m : MailRow). m.id == scheduler.id)
          (λ m. record m { mail_done = is_complete db m }) db.mails;
  },
)

abbrev pub clear_failure : ℕ → Db → Db
clear_failure scheduler db = record db {
  mails =
      update_where (λ (m : MailRow). m.id == scheduler)
        (λ m. record m { error_kind = none; error_datetime = none }) db.mails;
}

abbrev pub rearm : ℕ → ℕ → Db → Db
rearm now scheduler db = record db {
  mails =
      update_where (λ (m : MailRow). m.id == scheduler && not m.mail_done)
        (λ m. record m { scheduled_date = some now }) db.mails;
}
