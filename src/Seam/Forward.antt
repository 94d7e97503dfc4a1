-- ===== src/Seam/Forward.antt =====
-- What a delivery does to the registrations that were there (sale_seam_repository.rs, the module's
-- HEAL-FORWARD-ONLY rule).
use backbone_events.Base.{
  ℕ, ◌≡◌, ◌⊎◌, refl, sym, ap, ◌∙◌, Option, List, [], ◌++◌, map, Bool, true, false, ◌&&◌, ◌==◌,
  arith, Bool-cases, inl, inr, count_where, Rows, Rows-same, Rows-map, Rows-update_where,
}
use backbone_events.Store.{Db, RegistrationRow, RegistrationState, Result, ok, err, >>=-eq-ok}
use backbone_events.Seat.{Env, RegisterCommand, is_holding}
use backbone_events.Seam.{
  SeamEnv, SeamOutcome, grand_total_is_zero, confirmed_verb, paid_verb, claim_key, is_claimed,
  claim, is_linked, order_link, is_liftable, lift_free, hold_paid, mint_all, heal, confirm_order,
  on_order_confirmed, on_order_paid,
}
use backbone_events.Seam.Mint.{inserted-append, mint_all-Minted}
use backbone_events.Seam.Paid.{paid_row, on_order_paid-rows}
use backbone_events.Seam.Inbox.{Delivery, confirmed, cancelled, paid, deliver}

-- A registration before and after: the same id, a holding state kept, any other kept or lifted to open.
pub record Forward (old new : RegistrationRow) : Type 0 where
  pub same_id : new.id ≡ old.id
  pub still_active : new.active ≡ old.active
  pub holding : is_holding old.state ≡ true → new.state ≡ old.state
  pub lifted : (new.state ≡ old.state) ⊎ (new.state ≡ RegistrationState.opened)

Forward-same : (r : RegistrationRow) → Forward r r
Forward-same r = record {
  same_id = refl;
  still_active = refl;
  holding = λ _. refl;
  lifted = inl refl;
}

Forward-lift_free :
    (order : ℕ) (r : RegistrationRow) → is_liftable order r ≡ true → Forward r (lift_free r)
Forward-lift_free order r h = record {
  same_id = refl;
  still_active = refl;
  holding = λ k. ground arith;
  lifted = inr refl;
}

Forward-hold_paid : (r : RegistrationRow) → Forward r (hold_paid r)
Forward-hold_paid r = record {
  same_id = refl;
  still_active = refl;
  holding = λ _. refl;
  lifted = inl refl;
}

Forward-paid_row : (order : ℕ) (r : RegistrationRow) → Forward r (paid_row order r)
unfolding paid_row
Forward-paid_row order r = record {
  same_id = ground arith;
  still_active = ground arith;
  holding = λ k. ground arith;
  lifted = ground arith;
}

-- The rows that were there are still there, in their order, below the rows that a mint added.
pub record Ahead (old new : List RegistrationRow) : Type 0 where
  pub added : List RegistrationRow
  pub kept : List RegistrationRow
  pub parts : new ≡ added ++ kept
  pub forward : Rows Forward old kept

heal-Rows :
    (order : ℕ) (is_free : Bool) (now : ℕ) (db : Db)
    → Rows Forward db.registrations (heal order is_free now db).1.registrations
unfolding heal
heal-Rows order true now db =
    Rows-update_where Forward (is_liftable order) lift_free (λ r _. Forward-same r)
      (Forward-lift_free order) db.registrations
heal-Rows order false now db =
    Rows-update_where Forward (λ (r : RegistrationRow). is_linked order r && r.active) hold_paid
      (λ r _. Forward-same r) (λ r _. Forward-hold_paid r) db.registrations

abbrev registrations_of : List RegistrationRow → Result (SeamOutcome × Db) → List RegistrationRow
registrations_of other (ok (o, db)) = db.registrations
registrations_of other (err e) = other

confirm_order-Ahead :
    (env : SeamEnv) (order : ℕ) (is_free : Bool) (specs : List (Env × RegisterCommand))
    (actor : Option ℕ) (db : Db) {o : SeamOutcome} {db' : Db}
    → confirm_order env order is_free specs actor db ≡ ok (o, db')
    → Ahead db.registrations db'.registrations
unfolding confirm_order
confirm_order-Ahead env order is_free specs actor db h =
    elim (Bool-cases (count_where (is_linked order) db.registrations == 0)) [
      | inl fresh ↦
          let ((n, mid), minted, rest) =
            >>=-eq-ok (mint_all (order_link order is_free) specs 0 db) _ (rw fresh at h) in
          let (m, count) = mint_all-Minted (order_link order is_free) specs 0 db minted in
          let (above, placed) = inserted-append m.rows db.registrations in
          record {
            added = above;
            kept = db.registrations;
            parts = ap (registrations_of []) (sym rest) ∙ m.added ∙ placed;
            forward = Rows-same Forward Forward-same db.registrations;
          }
      | inr linked ↦ record {
        added = [];
        kept = (heal order is_free env.sql_now db).1.registrations;
        parts = ap (registrations_of []) (sym (rw linked at h));
        forward = heal-Rows order is_free env.sql_now db;
      }
    ]

abbrev pub is_cancellation : Delivery → Bool
is_cancellation (confirmed env consumer delivery order total specs actor) = false
is_cancellation (cancelled env consumer delivery order actor) = true
is_cancellation (paid env consumer delivery order lines actor) = false

Ahead-same : {old new : List RegistrationRow} → new ≡ old → Ahead old new
Ahead-same {old} e = record {
  added = [];
  kept = old;
  parts = e;
  forward = Rows-same Forward Forward-same old;
}

-- Heal forward only. A delivery that is no cancellation, if it succeeds, leaves every registration
-- that was there in place, with its id and `active`; an open or done one keeps its state, any other
-- keeps it or is lifted to open. New rows can only be added before them.
pub deliver-Ahead :
    (d : Delivery) (db : Db) {o : SeamOutcome} {db' : Db}
    → is_cancellation d ≡ false
    → deliver d db ≡ ok (o, db')
    → Ahead db.registrations db'.registrations
unfolding deliver on_order_confirmed on_order_paid
deliver-Ahead (confirmed env consumer delivery order total specs actor) db {o} {db'} c h =
    elim (Bool-cases (is_claimed consumer (claim_key env confirmed_verb delivery order) db)) [
      | inl old ↦ Ahead-same (ap (registrations_of []) (sym (rw old at h)))
      | inr new ↦
          confirm_order-Ahead env order (grand_total_is_zero env total) specs actor
            (claim consumer (claim_key env confirmed_verb delivery order) db) (rw new at h)
    ]
deliver-Ahead (cancelled env consumer delivery order actor) db c h = absurd (cc c)
deliver-Ahead (paid env consumer delivery order lines actor) db {o} {db'} c h =
    elim (Bool-cases (is_claimed consumer (claim_key env paid_verb delivery order) db)) [
      | inl old ↦ Ahead-same (ap (registrations_of []) (sym (rw old at h)))
      | inr new ↦
          let (o', paid_db, run, rows, booths) =
            on_order_paid-rows env consumer delivery order lines actor db new in
          record {
            added = [];
            kept = map (paid_row order) db.registrations;
            parts = ap (registrations_of []) (sym h ∙ run) ∙ rows;
            forward = Rows-map Forward (paid_row order) (Forward-paid_row order) db.registrations;
          }
    ]
