-- ===== src/Desk/Examples.antt =====
-- The desk theorems at a concert with one open ticket.
use backbone_events.Base.{◌≡◌, refl, none, some, [], ◌∷◌, true, false, ◌==◌, update_where}
use backbone_events.Base.Text.{Text, codes, trim}
use backbone_events.Store.{Db, EventRow, RegistrationRow, RegistrationState, EventError, ok, err}
use backbone_events.Seat.{find_event}
use backbone_events.Seat.Transition.{set_state, transition, seat_head, after_transition}
use backbone_events.Seat.Reads.{find_by_barcode}
use backbone_events.Desk.{is_over, register_attendee}
use backbone_events.Desk.Scan.{register_attendee-once, register_attendee-moves_open}
use backbone_events.Samples.{value, concert, env_at, with_registrations, taken_seat}

abbrev door : Db
door = with_registrations (taken_seat ∷ [])

-- The code as a scanner sends it, with white space around it.
abbrev scan : Text
scan = codes " 77 "

register_attendee-once_example :
    (db' : Db) × (register_attendee (env_at 1) scan 1 none door
      ≡ ok (
        (
          set_state 10 RegistrationState.done taken_seat,
          RegistrationState.opened,
          RegistrationState.done,
        ),
        db',
      ))
    × (register_attendee (env_at 2) scan 1 (some 8) db' ≡ err EventError.desk_already_registered)
register_attendee-once_example =
    register_attendee-once (env_at 1) scan 1 none door taken_seat concert refl refl refl refl refl
      refl refl (env_at 2) (some 8) refl

abbrev scanned : (RegistrationRow × RegistrationState × RegistrationState) × Db
scanned =
    value ((taken_seat, RegistrationState.draft, RegistrationState.draft), door)
      (register_attendee (env_at 1) scan 1 none door)

door-scanned : register_attendee (env_at 1) scan 1 none door ≡ ok (scanned.0, scanned.1)
unfolding register_attendee transition seat_head after_transition
door-scanned = refl

register_attendee-moves_open_example :
    (r : RegistrationRow) × (event : EventRow) × (find_by_barcode (trim scan) door.registrations
      ≡ some r)
    × (r.active ≡ true)
    × (r.state ≡ RegistrationState.opened)
    × (r.event_id ≡ 1)
    × (find_event 1 door ≡ some event)
    × (is_over 10 event ≡ false)
    × (scanned.0.2 ≡ RegistrationState.done)
    × (scanned.1.registrations
        ≡ update_where
            (λ (x : RegistrationRow). x.id == r.id)
            (set_state 10 RegistrationState.done)
            door.registrations)
register_attendee-moves_open_example =
    register_attendee-moves_open (env_at 1) scan 1 none door scanned.0.0 scanned.0.1 scanned.0.2
      scanned.1 door-scanned
