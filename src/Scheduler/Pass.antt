-- ===== src/Scheduler/Pass.antt =====
-- The walk of a pass over one scheduler row (scheduler_service.rs, `run_one`): the receipt loop, the
-- completion, the re-arm.
pub mod Loop
use backbone_events.Base.{
  ℕ, zero, suc, ◌+◌, ◌≡◌, Option, none, some, List, [], ◌∷◌, ◌++◌, map, Bool, true, false, not,
  ◌&&◌, ◌||◌, ◌==◌, ltb, leb, if◌then◌else◌, is_some, length, take, count_where, find_where,
  select_where, exists_where, update_where, sort_by,
}
use backbone_events.Base.Text.{Text, is_empty, text_contains, trim}
use backbone_events.Store.{
  Db, EventRow, RegistrationRow, MailRow, ReceiptRow, IntervalUnit, NotificationChannel,
  MailErrorKind, Outcome, EventError, Result, ok, err,
}
use backbone_events.Seat.{is_holding, find_event}
use backbone_events.Scheduler.{
  DueReceipt, RenderedMail, RenderFailure, Rendered, Host, SchedulerRunSummary, PassState,
  is_eligible, is_receipt_of, lacks_receipt, due_date, new_receipt, missing_receipts,
  materialize_receipts, unmaterialized_count, is_due, joined, join_due, due_before, due_receipts,
  is_open_receipt, mark_receipt, record_failure, fail_with, failure_kind, lacks_sent, is_complete,
  done_or_gone, recompute_mail_done, clear_failure, rearm, rendered, failed,
}

abbrev pub called : PassState → PassState
called w = record w { calls = w.calls + 1 }

-- The sms arm: an absent or blank phone is an invalid recipient.
abbrev phone_of : Option Text → Text
phone_of none = []
phone_of (some phone) = trim phone

abbrev pub queue_sms : Host → MailRow → DueReceipt → RenderedMail → PassState → PassState
queue_sms host scheduler d mail w =
    let phone = phone_of d.attendee_phone in
    if is_empty phone
    then fail_with host scheduler MailErrorKind.recipient_invalid w
    else if host.enqueue_sms w.calls phone mail.body_text
    then record (called w) {
      db = mark_receipt d.receipt_id Outcome.queued w.db;
      summary = record w.summary { sms_queued = w.summary.sms_queued + 1 };
    }
    else fail_with host scheduler MailErrorKind.sms_enqueue_refused (called w)

abbrev pub queue_mail : Host → MailRow → DueReceipt → RenderedMail → PassState → PassState
queue_mail host scheduler d mail w =
    if is_empty d.attendee_email || not (text_contains b'@' d.attendee_email)
    then fail_with host scheduler MailErrorKind.recipient_invalid w
    else if host.enqueue_mail w.calls d.attendee_email mail
    then record (called w) {
      db = mark_receipt d.receipt_id Outcome.queued w.db;
      summary = record w.summary { receipts_queued = w.summary.receipts_queued + 1 };
    }
    else fail_with host scheduler MailErrorKind.enqueue_refused (called w)

abbrev pub queue_by :
    Host → MailRow → DueReceipt → RenderedMail → NotificationChannel → PassState → PassState
queue_by host scheduler d mail NotificationChannel.mail w = queue_mail host scheduler d mail w
queue_by host scheduler d mail NotificationChannel.sms w = queue_sms host scheduler d mail w

abbrev pub answer : Host → MailRow → DueReceipt → Rendered → PassState → PassState
answer host scheduler d (rendered mail) w =
    queue_by host scheduler d mail scheduler.notification_channel w
answer host scheduler d (failed failure) w = fail_with host scheduler (failure_kind failure) w

-- The body of the receipt loop: the window check, the render, the channel branch.
pub walk_receipt : Host → MailRow → EventRow → DueReceipt → PassState → PassState
walk_receipt host scheduler event d w =
    if leb event.date_end host.now
    then record w {
      db = mark_receipt d.receipt_id Outcome.dropped_window_closed w.db;
      summary = record w.summary {
        receipts_dropped_window_closed = w.summary.receipts_dropped_window_closed + 1;
      };
    }
    else answer host scheduler d (host.render w.calls scheduler event d) (called w)

pub walk_batch : Host → MailRow → EventRow → List DueReceipt → PassState → PassState
unfolding walk_receipt
walk_batch host scheduler event [] w = w
walk_batch host scheduler event (d ∷ ds) w =
    walk_batch host scheduler event ds (walk_receipt host scheduler event d w)

-- THE RECEIPT LOOP: an empty batch or one that is not full ends it. Without fuel it has not returned.
pub walk : ℕ → Host → MailRow → EventRow → ℕ → PassState → Option PassState
unfolding due_receipts walk_batch
walk zero host scheduler event batch w = none
walk (suc fuel) host scheduler event batch w =
    let due = due_receipts host scheduler.id batch w.db in
    let after = walk_batch host scheduler event due w in
    let rest = walk fuel host scheduler event batch after in
    if length due == 0 then some w else if ltb (length due) batch then some after else rest

-- Steps 4 and 5: the completion, the cleared failure, the overflow re-arm.
pub finish : Host → MailRow → PassState → PassState
unfolding recompute_mail_done unmaterialized_count due_receipts
finish host scheduler w =
    let (done, db) = recompute_mail_done scheduler w.db in
    let cleared = if done then clear_failure scheduler.id db else db in
    let completed = record w.summary {
      schedulers_completed = w.summary.schedulers_completed + (if done then 1 else 0);
    } in
    if not done
      && (ltb 0 (unmaterialized_count scheduler cleared)
          || ltb 0 (length (due_receipts host scheduler.id 1 cleared)))
    then record w {
      db = rearm host.now scheduler.id cleared;
      summary = record completed { schedulers_rearmed = completed.schedulers_rearmed + 1 };
    }
    else record w { db = cleared; summary = completed }

abbrev finished : Host → MailRow → Option PassState → Option (Result (Unit {0}) × PassState)
finished host scheduler none = none
finished host scheduler (some w) = some (ok tt, finish host scheduler w)

abbrev walked :
    ℕ → Host → MailRow → ℕ → Option EventRow → PassState → Option (Result (Unit {0}) × PassState)
walked fuel host scheduler batch none w = some (err EventError.event_not_found, w)
walked fuel host scheduler batch (some event) w =
    finished host scheduler (walk fuel host scheduler event batch w)

-- One scheduler row; `none` is a pass that has not returned within the fuel.
pub run_one : ℕ → Host → MailRow → ℕ → PassState → Option (Result (Unit {0}) × PassState)
unfolding materialize_receipts walk finish
run_one fuel host scheduler batch w =
    if not (is_some scheduler.template_ref)
    then some (ok tt, fail_with host scheduler MailErrorKind.template_unresolved w)
    else let (created, db) = materialize_receipts host scheduler batch w.db in
      walked fuel host scheduler batch (find_event scheduler.event_id db) (record w {
        db = db;
        summary = record w.summary {
          receipts_materialized = w.summary.receipts_materialized + created;
        };
      })
