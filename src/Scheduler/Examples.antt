-- ===== src/Scheduler/Examples.antt =====
-- The scheduler theorems at one due receipt and batches of one.
use backbone_events.Base.{
  Rows, ℕ, ◌≤◌, ◌≡◌, refl, none, some, [], ◌∷◌, true, false, length, count_where, arith,
}
use backbone_events.Store.{Db, ReceiptRow}
use backbone_events.Scheduler.{
  Host, failed, RenderFailure, PassState, due_receipts, is_receipt_of, materialize_receipts,
}
use backbone_events.Scheduler.Pass.{walk}
use backbone_events.Scheduler.Pass.Loop.{Dropped, walk-never_returns, walk-returns_when_over}
use backbone_events.Scheduler.Receipts.{materialize_receipts_unique}
use backbone_events.Samples.{hall, concert, reminder, taken_seat}

abbrev host_at : ℕ → Host
host_at now = record {
  render = λ calls scheduler event due. failed RenderFailure.renderer_not_composed;
  enqueue_mail = λ calls recipient mail. true;
  enqueue_sms = λ calls phone body. false;
  now = now;
  add_interval = λ created number unit. created;
  receipt_id = λ scheduler registration. 61;
}

abbrev due_receipt : ReceiptRow
due_receipt = record {
  id = 61;
  scheduler_id = 41;
  registration_id = 51;
  scheduled_date = none;
  mail_sent = false;
  outcome = none;
}

abbrev started : PassState
started = record {
  db = record hall { registrations = taken_seat ∷ []; receipts = due_receipt ∷ [] };
  summary = record {
    schedulers_claimed = 1;
    receipts_materialized = 0;
    receipts_queued = 0;
    sms_queued = 0;
    receipts_dropped_window_closed = 0;
    typed_failures_recorded = 0;
    cancellation_receipts_deleted = 0;
    schedulers_rearmed = 0;
    schedulers_completed = 0;
  };
  calls = 0;
}

started-full : length (due_receipts (host_at 10) 41 1 started.db) ≡ 1
unfolding due_receipts
started-full = refl

walk-never_returns_example : walk 1000 (host_at 10) reminder concert 1 started ≡ none
walk-never_returns_example =
    walk-never_returns (host_at 10) reminder concert refl
      (λ n d. RenderFailure.renderer_not_composed) (λ n d. refl) 1000 1 started (omega arith)
      started-full

walk-returns_when_over_example :
    (after : PassState) × (walk 2 (host_at 200) reminder concert 1 started ≡ some after)
    × Rows Dropped started.db.receipts after.db.receipts
walk-returns_when_over_example =
    walk-returns_when_over (host_at 200) reminder concert refl 2 1 started (omega arith)

-- A registrant without a receipt.
abbrev late : Db
late = record hall { registrations = taken_seat ∷ [] }

materialize_receipts_unique_example :
    (count_where
        (is_receipt_of 41 51)
        (materialize_receipts (host_at 10) reminder 1 late).1.receipts
      ≤ 1)
    × ((materialize_receipts (host_at 10) reminder 1 late).0 ≤ 1)
materialize_receipts_unique_example =
    materialize_receipts_unique (host_at 10) reminder 1 51 late (omega arith) (omega arith)
