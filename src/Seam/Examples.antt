-- ===== src/Seam/Examples.antt =====
-- The seam theorems at a concert with one seat and order 9.
use backbone_events.Base.{
  ℕ, ◌<◌, ◌≡◌, refl, Option, none, List, [], ◌∷◌, map, false, ◌&&◌, count_where, Rows,
}
use backbone_events.Base.Text.{Text, codes}
use backbone_events.Store.{Db, RegistrationRow, ok}
use backbone_events.Seat.{Env, RegisterCommand, seats_taken}
use backbone_events.Seat.Barcode.{from_le_bytes, print_digits, decimal, mint_barcode}
use backbone_events.Seat.Register.{
  resolve_slot, check_ticket, belongs, insert_registration, born_row, register_core,
}
use backbone_events.Seat.Capacity.{registers}
use backbone_events.Seam.{
  SeamOutcome, nothing_applied, applied, is_linked, is_claimed, claim_key, grand_total_is_zero,
  order_link, mint_all, confirm_order, on_order_confirmed, on_order_cancelled, on_order_paid,
  pay_order,
}
use backbone_events.Seam.Inbox.{
  Delivery, confirmed, paid, deliver, Action, delivers, calls, history, deliver-once,
}
use backbone_events.Seam.Mint.{Minted, on_order_confirmed-Minted}
use backbone_events.Seam.Held.{on_order_confirmed-held}
use backbone_events.Seam.Paid.{paid_row, paid_booth, on_order_paid-rows, on_order_paid-oversells}
use backbone_events.Seam.Cascade.{Cascaded, on_order_cancelled-Cascaded}
use backbone_events.Seam.Forward.{Ahead, deliver-Ahead}
use backbone_events.Samples.{
  value, concert, hall, env_at, command, with_registrations, taken_seat, held_seat, seam_env,
}

abbrev relay : Text
relay = codes "bridge"

abbrev specs : List (Env × RegisterCommand)
specs = (env_at 11, command none) ∷ []

abbrev delivered : Text → SeamOutcome × Db
delivered total =
    value (nothing_applied, hall) (on_order_confirmed seam_env relay none 9 total specs none hall)

free-delivered :
    on_order_confirmed seam_env relay none 9 (codes "0") specs none hall
    ≡ ok ((delivered (codes "0")).0, (delivered (codes "0")).1)
unfolding on_order_confirmed confirm_order mint_all is_claimed claim_key grand_total_is_zero
    register_core resolve_slot check_ticket belongs insert_registration born_row mint_barcode
    from_le_bytes decimal print_digits seats_taken
free-delivered = refl

owed-delivered :
    on_order_confirmed seam_env relay none 9 (codes "5") specs none hall
    ≡ ok ((delivered (codes "5")).0, (delivered (codes "5")).1)
unfolding on_order_confirmed confirm_order mint_all is_claimed claim_key grand_total_is_zero
    register_core resolve_slot check_ticket belongs insert_registration born_row mint_barcode
    from_le_bytes decimal print_digits seats_taken
owed-delivered = refl

abbrev bridge : Delivery
bridge = confirmed seam_env relay none 9 (codes "0") specs none

bridge-delivered : deliver bridge hall ≡ ok ((delivered (codes "0")).0, (delivered (codes "0")).1)
unfolding deliver
bridge-delivered = free-delivered

abbrev later : List Action
later =
    calls (registers (env_at 12) (command none) none)
    ∷ delivers (paid seam_env relay none 9 [] none)
    ∷ []

deliver-once_example :
    deliver bridge (history (delivered (codes "0")).1 later)
    ≡ ok (nothing_applied, history (delivered (codes "0")).1 later)
deliver-once_example = deliver-once bridge bridge hall later refl refl bridge-delivered

fresh_hall : (key : Text) → is_claimed relay key hall ≡ false
unfolding is_claimed
fresh_hall key = refl

owed : grand_total_is_zero seam_env (codes "5") ≡ false
unfolding grand_total_is_zero
owed = refl

on_order_confirmed-Minted_example :
    Minted
      (order_link 9 (grand_total_is_zero seam_env (codes "0")))
      specs
      hall
      (delivered (codes "0")).1
    × ((delivered (codes "0")).0 ≡ applied 1 0)
on_order_confirmed-Minted_example =
    on_order_confirmed-Minted seam_env relay none 9 (codes "0") specs none hall (fresh_hall _) refl
      free-delivered

on_order_confirmed-held_example :
    ((event_id : ℕ) (slot : Option ℕ)
      → seats_taken event_id slot (delivered (codes "5")).1.registrations
        ≡ seats_taken event_id slot hall.registrations)
    × ((delivered (codes "5")).1.mails ≡ hall.mails)
on_order_confirmed-held_example =
    on_order_confirmed-held seam_env relay none 9 (codes "5") specs none hall (fresh_hall _) refl
      owed owed-delivered

-- The one seat taken, and a row of order 9 held.
abbrev waiting : Db
waiting = with_registrations (held_seat ∷ taken_seat ∷ [])

fresh_waiting : (key : Text) → is_claimed relay key waiting ≡ false
unfolding is_claimed
fresh_waiting key = refl

on_order_cancelled-Cascaded_example :
    (db' : Db) × (on_order_cancelled seam_env relay none 9 none waiting
      ≡ ok (
        applied
            (count_where (λ (r : RegistrationRow). is_linked 9 r && r.active) waiting.registrations)
            0,
        db',
      ))
    × Rows (Cascaded 9) waiting.registrations db'.registrations
    × (db'.booths ≡ waiting.booths)
    × (db'.bookings ≡ waiting.bookings)
    × (db'.mails ≡ waiting.mails)
on_order_cancelled-Cascaded_example =
    on_order_cancelled-Cascaded seam_env relay none 9 none waiting (fresh_waiting _)

on_order_paid-rows_example :
    (o : SeamOutcome) × (db' : Db) × (on_order_paid seam_env relay none 9 (7 ∷ []) none waiting
      ≡ ok (o, db'))
    × (db'.registrations ≡ map (paid_row 9) waiting.registrations)
    × (db'.booths ≡ map (paid_booth (7 ∷ [])) waiting.booths)
on_order_paid-rows_example =
    on_order_paid-rows seam_env relay none 9 (7 ∷ []) none waiting (fresh_waiting _)

waiting-full : seats_taken 1 none waiting.registrations ≡ concert.seats_max
unfolding seats_taken
waiting-full = refl

on_order_paid-oversells_example :
    (o : SeamOutcome) × (db' : Db) × (on_order_paid seam_env relay none 9 [] none waiting
      ≡ ok (o, db'))
    × (concert.seats_max < seats_taken 1 none db'.registrations)
on_order_paid-oversells_example =
    on_order_paid-oversells seam_env relay none 9 [] none waiting 1 concert none held_seat
      (fresh_waiting _) refl waiting-full refl

abbrev settled : SeamOutcome × Db
settled = value (nothing_applied, waiting) (deliver (paid seam_env relay none 9 [] none) waiting)

paid-delivered : deliver (paid seam_env relay none 9 [] none) waiting ≡ ok (settled.0, settled.1)
unfolding deliver on_order_paid pay_order is_claimed claim_key
paid-delivered = refl

deliver-Ahead_example : Ahead waiting.registrations settled.1.registrations
deliver-Ahead_example =
    deliver-Ahead (paid seam_env relay none 9 [] none) waiting refl paid-delivered
