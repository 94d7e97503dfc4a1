-- ===== src/Scheduler/Pass/Loop.antt =====
-- The receipt loop of `run_one` (scheduler_service.rs) and its fuel.
use backbone_events.Base.{
  ℕ, zero, suc, ◌≤◌, ◌<◌, ◌≡◌, refl, sym, ap, subst, ◌∙◌, ◌⊎◌, Option, none, some, List, [], ◌∷◌,
  ◌++◌, true, false, not, ◌&&◌, ◌==◌, ltb, leb, if◌then◌else◌, arith, Bool-cases, inl, inr, length,
  count_where, find_where, exists_where, update_where, All, All-take, All-sort_by, Rows, Rows-same,
  Rows-trans, Rows-update_where,
}
use backbone_events.Store.{Db, EventRow, RegistrationRow, MailRow, ReceiptRow, Outcome}
use backbone_events.Scheduler.{
  DueReceipt, RenderFailure, failed, Host, PassState, due_receipts, join_due, joined, is_due,
  due_before, is_eligible, is_open_receipt, mark_receipt, failure_kind, fail_with,
}
use backbone_events.Scheduler.Pass.{called, walk_receipt, walk_batch, walk}

-- What a failing render leaves of the database: the receipts and the registrations.
record Unmoved (w w' : PassState) : Type 0 where
  receipts : w'.db.receipts ≡ w.db.receipts
  registrations : w'.db.registrations ≡ w.db.registrations

module _ (host : Host) (scheduler : MailRow) (event : EventRow)
    (ongoing : leb event.date_end host.now ≡ false) (failure : ℕ → DueReceipt → RenderFailure)
    (fails : (n : ℕ) (d : DueReceipt)
      → host.render n scheduler event d ≡ failed (failure n d)) where
  failing_batch :
      (ds : List DueReceipt) (w : PassState) → Unmoved w (walk_batch host scheduler event ds w)
  unfolding walk_batch walk_receipt
  failing_batch [] w = record { receipts = refl; registrations = refl }
  failing_batch (d ∷ ds) w =
      let rest =
        failing_batch ds (fail_with host scheduler (failure_kind (failure w.calls d)) (called w)) in
      rw (ongoing, fails w.calls d)
        (record { receipts = rest.receipts; registrations = rest.registrations })

  -- With a renderer that fails on every call for the scheduler, a full batch of due receipts is read
  -- again by the next round of the loop: with any amount of fuel the loop has not returned, if the
  -- event is ongoing and the batch is not empty.
  pub walk-never_returns :
      (fuel batch : ℕ) (w : PassState)
      → 0 < batch
      → length (due_receipts host scheduler.id batch w.db) ≡ batch
      → walk fuel host scheduler event batch w ≡ none
  unfolding walk due_receipts
  walk-never_returns zero batch w positive full = refl
  walk-never_returns (suc fuel) batch w positive full =
      let after = walk_batch host scheduler event (due_receipts host scheduler.id batch w.db) w in
      let same = failing_batch (due_receipts host scheduler.id batch w.db) w in
      let again : length (due_receipts host scheduler.id batch after.db) ≡ batch =
        rw (same.receipts, same.registrations) full in
      ground (arith, walk-never_returns fuel batch after positive again)

-- The receipts that no pass has closed yet.
abbrev pub unsent : List ReceiptRow → ℕ
unsent xs = count_where (λ (x : ReceiptRow). not x.mail_sent) xs

mark-unsent_le :
    (id : ℕ) (outcome : Outcome) (xs : List ReceiptRow)
    → unsent (
        update_where
          (is_open_receipt id)
          (λ x. record x { mail_sent = true; outcome = some outcome })
          xs)
      ≤ unsent xs
mark-unsent_le id outcome [] = omega arith
mark-unsent_le id outcome (x ∷ xs) = ground (arith, mark-unsent_le id outcome xs)

mark-unsent_lt :
    (id : ℕ) (outcome : Outcome) (xs : List ReceiptRow)
    → exists_where (is_open_receipt id) xs ≡ true
    → unsent (
        update_where
          (is_open_receipt id)
          (λ x. record x { mail_sent = true; outcome = some outcome })
          xs)
      < unsent xs
mark-unsent_lt id outcome [] h = absurd (ground arith)
mark-unsent_lt id outcome (x ∷ xs) h =
    ground (arith, mark-unsent_le id outcome xs, mark-unsent_lt id outcome xs)

All-append {ℓ κ} :
    {A : Type ℓ} (P : A → Type κ) (xs ys : List A) → All P xs → All P ys → All P (xs ++ ys)
All-append P [] ys all more = more
All-append P (x ∷ xs) ys all more = (all.0, All-append P xs ys all.1 more)

-- A due receipt that stands unsent in the table.
abbrev IsOpen : List ReceiptRow → DueReceipt → Type 0
IsOpen receipts d = exists_where (is_open_receipt d.receipt_id) receipts ≡ true

joined-IsOpen :
    (receipts : List ReceiptRow) (x : ReceiptRow) (o : Option RegistrationRow)
    → exists_where (is_open_receipt x.id) receipts ≡ true
    → All (IsOpen receipts) (joined x o)
joined-IsOpen receipts x none here = tt
joined-IsOpen receipts x (some r) here = elim (Bool-cases (is_eligible r)) [
  | inl eligible ↦ rw eligible (here, tt)
  | inr other ↦ rw other tt
]

join_due-IsOpen :
    (host : Host) (scheduler : ℕ) (regs : List RegistrationRow) (receipts xs : List ReceiptRow)
    → ((id : ℕ)
        → exists_where (is_open_receipt id) xs ≡ true
        → exists_where (is_open_receipt id) receipts ≡ true)
    → All (IsOpen receipts) (join_due host scheduler regs xs)
join_due-IsOpen host scheduler regs receipts [] within = tt
join_due-IsOpen host scheduler regs receipts (x ∷ xs) within =
    All-append (IsOpen receipts) _ _ first
      (join_due-IsOpen host scheduler regs receipts xs (λ id h. within id (ground arith)))
  where
    first : All (IsOpen receipts) (
        if x.scheduler_id == scheduler && not x.mail_sent && is_due host x
        then joined x (find_where (λ (r : RegistrationRow). r.id == x.registration_id) regs)
        else [])
    first = elim (Bool-cases (x.scheduler_id == scheduler && not x.mail_sent && is_due host x)) [
      | inl due ↦ rw due (joined-IsOpen receipts x _ (within x.id (ground arith)))
      | inr other ↦ rw other tt
    ]

due_receipts-IsOpen :
    (host : Host) (scheduler limit : ℕ) (db : Db)
    → All (IsOpen db.receipts) (due_receipts host scheduler limit db)
unfolding due_receipts
due_receipts-IsOpen host scheduler limit db = All-take (IsOpen db.receipts) limit _ (
    All-sort_by (IsOpen db.receipts) due_before
      (join_due host scheduler db.registrations db.receipts)
      (join_due-IsOpen host scheduler db.registrations db.receipts db.receipts (λ id h. h)))

-- A receipt before and after: it is as it was, or it was open and is closed as dropped.
abbrev pub Dropped : ReceiptRow → ReceiptRow → Type 0
Dropped x y =
    (y ≡ x)
    ⊎ ((x.mail_sent ≡ false)
        × (y ≡ record x { mail_sent = true; outcome = some Outcome.dropped_window_closed }))

Dropped-trans : (x y z : ReceiptRow) → Dropped x y → Dropped y z → Dropped x z
Dropped-trans x y z (inl same) later = subst (λ (v : ReceiptRow). Dropped v z) same later
Dropped-trans x y z (inr now) (inl same) = inr (now.0, same ∙ now.1)
Dropped-trans x y z (inr (was, closed)) (inr (open_still, again)) =
    absurd (ground (arith, ap (λ (v : ReceiptRow). v.mail_sent) closed, open_still))

mark-Dropped :
    (id : ℕ) (xs : List ReceiptRow)
    → Rows Dropped xs (
        update_where
          (is_open_receipt id)
          (λ x. record x { mail_sent = true; outcome = some Outcome.dropped_window_closed })
          xs)
mark-Dropped id xs =
    Rows-update_where Dropped (is_open_receipt id) _ (λ x miss. inl refl)
      (λ x hit. inr (ground arith, refl)) xs

module _ (host : Host) (scheduler : MailRow) (event : EventRow)
    (over : leb event.date_end host.now ≡ true) where
  dropped :
      (d : DueReceipt) (w : PassState)
      → (walk_receipt host scheduler event d w).db.receipts
        ≡ (mark_receipt d.receipt_id Outcome.dropped_window_closed w.db).receipts
  unfolding walk_receipt
  dropped d w = rw over refl

  dropping_batch-Dropped :
      (ds : List DueReceipt) (w : PassState)
      → Rows Dropped w.db.receipts (walk_batch host scheduler event ds w).db.receipts
  unfolding walk_batch
  dropping_batch-Dropped [] w = Rows-same Dropped (λ x. inl refl) w.db.receipts
  dropping_batch-Dropped (d ∷ ds) w =
      Rows-trans Dropped Dropped-trans
        (subst (Rows Dropped w.db.receipts) (sym (dropped d w))
          (mark-Dropped d.receipt_id w.db.receipts))
        (dropping_batch-Dropped ds (walk_receipt host scheduler event d w))

  dropping_batch-le :
      (ds : List DueReceipt) (w : PassState)
      → unsent (walk_batch host scheduler event ds w).db.receipts ≤ unsent w.db.receipts
  unfolding walk_batch
  dropping_batch-le [] w = omega arith
  dropping_batch-le (d ∷ ds) w = omega (
    arith,
    ap unsent (dropped d w),
    mark-unsent_le d.receipt_id Outcome.dropped_window_closed w.db.receipts,
    dropping_batch-le ds (walk_receipt host scheduler event d w),
  )

  dropping_batch-lt :
      (ds : List DueReceipt) (w : PassState)
      → All (IsOpen w.db.receipts) ds
      → 0 < length ds
      → unsent (walk_batch host scheduler event ds w).db.receipts < unsent w.db.receipts
  unfolding walk_batch
  dropping_batch-lt [] w all positive = absurd (ground arith)
  dropping_batch-lt (d ∷ ds) w all positive = omega (
    arith,
    ap unsent (dropped d w),
    mark-unsent_lt d.receipt_id Outcome.dropped_window_closed w.db.receipts all.0,
    dropping_batch-le ds (walk_receipt host scheduler event d w),
  )

  -- Once the event is over the loop ends: fuel beyond the number of receipts that are not sent yet is
  -- enough. Each receipt of the table is then as it was, or it was open and is closed as dropped; no
  -- receipt is opened again, created or deleted.
  pub walk-returns_when_over :
      (fuel batch : ℕ) (w : PassState)
      → unsent w.db.receipts < fuel
      → (after : PassState) × (walk fuel host scheduler event batch w ≡ some after)
        × Rows Dropped w.db.receipts after.db.receipts
  unfolding walk
  walk-returns_when_over zero batch w enough = absurd (omega arith)
  walk-returns_when_over (suc fuel) batch w enough =
      let due = due_receipts host scheduler.id batch w.db in
      let after = walk_batch host scheduler event due w in
      let closed : Rows Dropped w.db.receipts after.db.receipts = dropping_batch-Dropped due w in
      elim (Bool-cases (length due == 0)) [
        | inl nothing_due ↦
            rw nothing_due (w, refl, Rows-same Dropped (λ x. inl refl) w.db.receipts)
        | inr some_due ↦ elim (Bool-cases (ltb (length due) batch)) [
          | inl short ↦ rw (some_due, short) (after, refl, closed)
          | inr full ↦
              let fewer : unsent after.db.receipts < unsent w.db.receipts =
                dropping_batch-lt due w (due_receipts-IsOpen host scheduler.id batch w.db)
                  (ground arith) in
              let (last, returned, more) = walk-returns_when_over fuel batch after (omega arith) in
              rw (some_due, full) (last, returned, Rows-trans Dropped Dropped-trans closed more)
        ]
      ]
