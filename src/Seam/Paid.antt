-- ===== src/Seam/Paid.antt =====
-- The paid fact (sale_seam_repository.rs, `on_order_paid`): its updates row by row, and the seats.
use backbone_events.Base.{
  ℕ, ◌+◌, ◌<◌, ◌≡◌, refl, Option, some, List, [], ◌∷◌, Bool, false, not, ◌&&◌, ◌==◌, if◌then◌else◌,
  arith, count_where, update_where, map, find_where, count_where-pos,
}
use backbone_events.Base.Text.{Text}
use backbone_events.Store.{Db, RegistrationRow, EventRow, BoothRow, ok}
use backbone_events.Seat.{seats_taken, holds_seat, in_slot, find_event}
use backbone_events.Seat.Transition.{is_waiting}
use backbone_events.Seam.{
  SeamEnv, SeamOutcome, applied, paid_verb, claim_key, is_claimed, claim, is_linked, is_to_pay,
  is_payable, lift_sold, is_unsettled, settle, on_line, latch, pay_order, on_order_paid,
}

-- What the paid fact means for one registration: an active row of the order that was to pay is sold,
-- and lifted to open if it was held at draft or cancelled; any other row is as it was.
unfoldable pub paid_row : ℕ → RegistrationRow → RegistrationRow
paid_row order r =
    if is_linked order r && is_to_pay r.sale_status && r.active
    then (if is_waiting r.state then lift_sold r else settle r)
    else r

-- And for one booth: paid, if it stands on one of the lines.
pub paid_booth : List ℕ → BoothRow → BoothRow
paid_booth lines b = if on_line lines b then latch b else b

paid_rows :
    (order : ℕ) (regs : List RegistrationRow)
    → update_where (is_unsettled order) settle (update_where (is_payable order) lift_sold regs)
      ≡ map (paid_row order) regs
unfolding paid_row
paid_rows order [] = refl
paid_rows order (r ∷ regs) = ground (arith, paid_rows order regs)

paid_booths :
    (lines : List ℕ) (booths : List BoothRow)
    → update_where (λ (b : BoothRow). on_line lines b && not b.is_paid) latch booths
      ≡ map (paid_booth lines) booths
unfolding paid_booth
paid_booths lines [] = refl
paid_booths lines (b ∷ booths) = ground (arith, paid_booths lines booths)

-- A paid fact that is applied writes every registration and every booth as the two functions say.
pub on_order_paid-rows :
    (env : SeamEnv) (consumer : Text) (delivery : Option Text) (order : ℕ) (lines : List ℕ)
    (actor : Option ℕ) (db : Db)
    → is_claimed consumer (claim_key env paid_verb delivery order) db ≡ false
    → (o : SeamOutcome) × (db' : Db) × (on_order_paid env consumer delivery order lines actor db
        ≡ ok (o, db'))
      × (db'.registrations ≡ map (paid_row order) db.registrations)
      × (db'.booths ≡ map (paid_booth lines) db.booths)
unfolding on_order_paid pay_order
on_order_paid-rows env consumer delivery order lines actor db fresh =
    let result =
      pay_order env order lines actor
        (claim consumer (claim_key env paid_verb delivery order) db) in
    (
      applied result.0.0 result.0.1,
      result.1,
      rw fresh,
      paid_rows order db.registrations,
      paid_booths lines db.booths,
    )

-- The rows that the fact lifts, under one seat key.
abbrev pub lifts_under : ℕ → ℕ → Option ℕ → RegistrationRow → Bool
lifts_under order event_id slot r =
    is_payable order r && r.event_id == event_id && in_slot slot r.event_slot_id

paid_row-seat :
    (order event_id : ℕ) (slot : Option ℕ) (r : RegistrationRow)
    → (if holds_seat event_id slot (paid_row order r) then 1 else 0)
      ≡ (if holds_seat event_id slot r then 1 else 0)
        + (if lifts_under order event_id slot r then 1 else 0)
unfolding paid_row
paid_row-seat order event_id slot r = ground arith

paid_rows-seats :
    (order event_id : ℕ) (slot : Option ℕ) (regs : List RegistrationRow)
    → count_where (holds_seat event_id slot) (map (paid_row order) regs)
      ≡ count_where (holds_seat event_id slot) regs
        + count_where (lifts_under order event_id slot) regs
paid_rows-seats order event_id slot [] = refl
paid_rows-seats order event_id slot (r ∷ regs) =
    omega (arith, paid_row-seat order event_id slot r, paid_rows-seats order event_id slot regs)

-- The paid fact takes seats without the seat head. Whenever an event has all its seats taken under a
-- key, and the order has a held row to lift under that key, the fact is applied all the same, and
-- more seats are taken than the event is limited to.
pub on_order_paid-oversells :
    (env : SeamEnv) (consumer : Text) (delivery : Option Text) (order : ℕ) (lines : List ℕ)
    (actor : Option ℕ) (db : Db) (event_id : ℕ) (event : EventRow) (slot : Option ℕ)
    (held : RegistrationRow)
    → is_claimed consumer (claim_key env paid_verb delivery order) db ≡ false
    → find_event event_id db ≡ some event
    → seats_taken event_id slot db.registrations ≡ event.seats_max
    → find_where (lifts_under order event_id slot) db.registrations ≡ some held
    → (o : SeamOutcome) × (db' : Db) × (on_order_paid env consumer delivery order lines actor db
        ≡ ok (o, db'))
      × (event.seats_max < seats_taken event_id slot db'.registrations)
unfolding seats_taken
on_order_paid-oversells env consumer delivery order lines actor db event_id event slot held fresh
      found full held_found =
    let (o, db', applied, rows, booths) =
      on_order_paid-rows env consumer delivery order lines actor db fresh in
    (
      o,
      db',
      applied,
      rw rows (
          omega (
            arith,
            paid_rows-seats order event_id slot db.registrations,
            count_where-pos (lifts_under order event_id slot) db.registrations held_found,
          )),
    )
