-- ===== src/Seat/Examples.antt =====
-- The seat theorems at a concert with one seat.
use backbone_events.Base.{
  ℕ, ◌≤◌, ◌<◌, ◌+◌, ◌≡◌, ◌↔◌, refl, Option, none, some, List, [], ◌∷◌, Bool, true, All, one_if,
  arith,
}
use backbone_events.Store.{Db, RegistrationRow, RegistrationState, ok}
use backbone_events.Seat.{seats_taken, seats_taken_without, holds_seat, is_exhausted}
use backbone_events.Seat.Barcode.{
  from_le_bytes, print_digits, decimal, mint_barcode, is_barcode, spelled, mint_barcode-shape,
}
use backbone_events.Seat.Register.{
  resolve_slot, check_ticket, belongs, insert_registration, born_row, register_core, register,
}
use backbone_events.Seat.Register.Effect.{register_core-le-seats_max}
use backbone_events.Seat.Register.Oversell.{register-oversells}
use backbone_events.Seat.Transition.{seat_head, after_transition, transition}
use backbone_events.Seat.Transition.Repeat.{confirm_twice, cancel-frees}
use backbone_events.Seat.Reads.{SeatCounts, seat_counts, available}
use backbone_events.Seat.Reads.Agreement.{available-zero_iff}
use backbone_events.Seat.Capacity.{Call, registers, moves, run, IsRouted, IsSound, run-le-seats_max}
use backbone_events.Samples.{
  value, concert, hall, env_at, command, with_registrations, taken_seat, held_seat,
}

hall-IsSound : IsSound hall
unfolding seats_taken
hall-IsSound = record {
  unique = λ id. omega arith;
  unslotted = tt;
  bounded = λ id event slot found limited positive key. omega arith;
}

-- Two registrations for the one seat, and a confirm of the first.
abbrev evening : List Call
evening =
    registers (env_at 11) (command none) none
    ∷ registers (env_at 12) (command none) none
    ∷ moves (env_at 13) 11 RegistrationState.opened none
    ∷ []

evening-IsRouted : All (IsRouted hall) evening
evening-IsRouted = (λ event found single. refl, (λ event found single. refl, (tt, tt)))

run-le-seats_max_example : seats_taken 1 none (run hall evening).registrations ≤ 1
run-le-seats_max_example =
    run-le-seats_max hall evening 1 concert none hall-IsSound evening-IsRouted refl refl
      (omega arith) refl

abbrev first_row : RegistrationRow
first_row = (value (taken_seat, hall) (register_core (env_at 11) (command none) none hall)).0

abbrev first_db : Db
first_db = (value (taken_seat, hall) (register_core (env_at 11) (command none) none hall)).1

first_registered : register_core (env_at 11) (command none) none hall ≡ ok (first_row, first_db)
unfolding register_core resolve_slot check_ticket belongs insert_registration born_row mint_barcode
    from_le_bytes decimal print_digits seats_taken
first_registered = refl

register_core-le-seats_max_example :
    seats_taken 1 first_row.event_slot_id first_db.registrations ≤ 1
register_core-le-seats_max_example =
    register_core-le-seats_max (env_at 11) (command none) none hall concert first_registered refl
      refl (omega arith)

abbrev full : Db
full = with_registrations (taken_seat ∷ [])

abbrev slotted_db : Db
slotted_db =
    with_registrations (born_row (env_at 11) (command (some 5)) (some 5) none ∷ taken_seat ∷ [])

slot-inserted :
    insert_registration (env_at 11) (born_row (env_at 11) (command (some 5)) (some 5) none) full
    ≡ ok slotted_db
unfolding belongs insert_registration born_row mint_barcode from_le_bytes decimal print_digits
slot-inserted = refl

slot_room : seats_taken 1 (some 5) full.registrations < concert.seats_max
unfolding seats_taken
slot_room = omega arith

whole_full : seats_taken 1 none full.registrations ≡ concert.seats_max
unfolding seats_taken
whole_full = refl

register-oversells_example :
    (row : RegistrationRow) × (db' : Db) × (register (env_at 11) (command (some 5)) full
      ≡ ok (row, db'))
    × (concert.seats_max < seats_taken 1 none db'.registrations)
register-oversells_example =
    register-oversells (env_at 11) (command (some 5)) full concert 5 slotted_db refl refl refl refl
      refl slot-inserted slot_room whole_full

-- A held registration that is confirmed.
abbrev waiting : Db
waiting = with_registrations (held_seat ∷ [])

abbrev no_move : RegistrationState × RegistrationState × Bool
no_move = (RegistrationState.draft, RegistrationState.draft, true)

abbrev confirmed : (RegistrationState × RegistrationState × Bool) × Db
confirmed =
    value (no_move, waiting) (transition (env_at 1) 52 RegistrationState.opened none waiting)

waiting-confirmed :
    transition (env_at 1) 52 RegistrationState.opened none waiting ≡ ok (confirmed.0, confirmed.1)
unfolding transition seat_head after_transition seats_taken_without
waiting-confirmed = refl

confirm_twice_example :
    transition (env_at 2) 52 RegistrationState.opened (some 8) confirmed.1
    ≡ ok ((RegistrationState.opened, RegistrationState.opened, confirmed.0.2), confirmed.1)
confirm_twice_example =
    confirm_twice (env_at 1) (env_at 2) 52 none (some 8) waiting (omega arith) waiting-confirmed

cancel-frees_example :
    (db' : Db) × (transition (env_at 1) 51 RegistrationState.cancel none full
      ≡ ok ((RegistrationState.opened, RegistrationState.cancel, true), db'))
    × ((event_id : ℕ) (slot : Option ℕ)
        → seats_taken event_id slot db'.registrations + one_if (holds_seat event_id slot taken_seat)
          ≡ seats_taken event_id slot full.registrations)
cancel-frees_example = cancel-frees (env_at 1) 51 none full taken_seat refl (omega arith)

abbrev full_counts : SeatCounts
full_counts = record { limited = true; capacity = 1; taken = 1 }

full-counted : seat_counts 1 none full ≡ ok full_counts
unfolding seat_counts seats_taken
full-counted = refl

available-zero_iff_example :
    (available full_counts ≡ 0)
    ↔ (is_exhausted concert (seats_taken 1 none full.registrations) ≡ true)
available-zero_iff_example = available-zero_iff 1 none full concert full-counted refl

abbrev hall_counts : SeatCounts
hall_counts = record { limited = true; capacity = 1; taken = 0 }

hall-counted : seat_counts 1 first_row.event_slot_id hall ≡ ok hall_counts
unfolding seat_counts seats_taken register_core resolve_slot check_ticket belongs
    insert_registration born_row mint_barcode from_le_bytes decimal print_digits
hall-counted = refl

abbrev drawn : List ℕ
drawn = 210 ∷ 4 ∷ 0 ∷ 0 ∷ 0 ∷ 0 ∷ 0 ∷ 0 ∷ []

drawn-bytes : All (λ b. b < 256) drawn
drawn-bytes = ground arith

mint_barcode-shape_example :
    (is_barcode (mint_barcode drawn) ≡ true)
    × (spelled 0 (mint_barcode drawn) ≡ from_le_bytes drawn)
mint_barcode-shape_example = mint_barcode-shape drawn refl drawn-bytes
