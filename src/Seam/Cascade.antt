-- ===== src/Seam/Cascade.antt =====
-- The cancel cascade (sale_seam_repository.rs, `on_order_cancelled`).
use backbone_events.Base.{
  ℕ, ◌≡◌, refl, Option, some, true, false, ◌&&◌, arith, count_where, Rows, Rows-update_where,
}
use backbone_events.Base.Text.{Text}
use backbone_events.Store.{Db, RegistrationRow, RegistrationState, SaleOrderState, ok}
use backbone_events.Seam.{
  SeamEnv, applied, cancelled_verb, claim_key, is_claimed, claim, is_linked, cancel_row,
  cancel_order, on_order_cancelled,
}

-- A registration before and after the cascade of an order.
pub record Cascaded (order : ℕ) (old new : RegistrationRow) : Type 0 where
  pub same_id : new.id ≡ old.id
  pub status_kept : new.sale_status ≡ old.sale_status
  pub cancelled :
      (is_linked order old && old.active) ≡ true
      → (new.state ≡ RegistrationState.cancel) × (new.sale_order_state ≡ some SaleOrderState.cancel)
  pub untouched : (is_linked order old && old.active) ≡ false → new ≡ old

Cascaded-cancel_row :
    (order : ℕ) (r : RegistrationRow)
    → (is_linked order r && r.active) ≡ true
    → Cascaded order r (cancel_row r)
Cascaded-cancel_row order r h = record {
  same_id = refl;
  status_kept = refl;
  cancelled = λ _. (refl, refl);
  untouched = λ other. cc (h, other);
}

Cascaded-other :
    (order : ℕ) (r : RegistrationRow) → (is_linked order r && r.active) ≡ false → Cascaded order r r
Cascaded-other order r h = record {
  same_id = refl;
  status_kept = refl;
  cancelled = λ hit. absurd (ground arith);
  untouched = λ _. refl;
}

-- A cancelled order whose delivery is new is always applied: every active registration of the order
-- is cancelled and mirrors the cancelled order, every payability status is kept, every other
-- registration is as it was, the outcome counts the group, and no booth, booking, or scheduler moves.
pub on_order_cancelled-Cascaded :
    (env : SeamEnv) (consumer : Text) (delivery : Option Text) (order : ℕ) (actor : Option ℕ)
    (db : Db)
    → is_claimed consumer (claim_key env cancelled_verb delivery order) db ≡ false
    → (db' : Db) × (on_order_cancelled env consumer delivery order actor db
        ≡ ok (
          applied
              (count_where
                (λ (r : RegistrationRow). is_linked order r && r.active)
                db.registrations)
              0,
          db',
        ))
      × Rows (Cascaded order) db.registrations db'.registrations
      × (db'.booths ≡ db.booths)
      × (db'.bookings ≡ db.bookings)
      × (db'.mails ≡ db.mails)
unfolding on_order_cancelled cancel_order
on_order_cancelled-Cascaded env consumer delivery order actor db fresh = (
  (cancel_order order actor (claim consumer (claim_key env cancelled_verb delivery order) db)).1,
  rw fresh,
  Rows-update_where (Cascaded order) (λ r. is_linked order r && r.active) cancel_row
      (λ r h. Cascaded-other order r h) (λ r h. Cascaded-cancel_row order r h) db.registrations,
  refl,
  refl,
  refl,
)
