-- ===== src/Seat/Capacity.antt =====
-- The capacity of limited events over histories of registrations, sale-linked mints and state verbs
-- (seat_repository.rs). The verbs lock the event row before they count, so a history of concurrent
-- calls is a sequence of whole calls.
use backbone_events.Base.{
  ℕ, ◌≤◌, ◌<◌, ◌≡◌, refl, sym, ◌∙◌, Option, none, some, Bool, true, false, not, ◌==◌, List, [], ◌∷◌,
  arith, count_where, Bool-cases, inl, inr, find_where, count_where-update_same, All,
  find_where-All, update_where-All, subst,
}
use backbone_events.Store.{
  Db, EventRow, RegistrationRow, RegistrationState, Result, ok, err, Result-cases,
}
use backbone_events.Seat.{
  Env, RegisterCommand, SaleLink, seats_taken, holds_seat, in_slot, is_exhausted, find_event,
}
use backbone_events.Seat.Register.{register_core}
use backbone_events.Seat.Register.Effect.{
  register_core-rows, register_core-SameTables, register_core-fresh, register_core-row,
  register_core-slot, register_core-seats_taken, register_core-le-seats_max,
}
use backbone_events.Seat.Transition.{set_state, takes_seat, transition}
use backbone_events.Seat.Transition.Effect.{
  transition-Moved, transition-rows, transition-SameTables, transition-seats_taken, transition-room,
}

-- One call of a verb that can take a seat.
pub data Call : Type 0 where
  registers : Env → RegisterCommand → Option SaleLink → Call
  moves : Env → ℕ → RegistrationState → Option ℕ → Call

-- A refused call leaves the database as it was.
abbrev pub after {ℓ} : {A : Type ℓ} → Db → Result (A × Db) → Db
after db (ok (a, db')) = db'
after db (err e) = db

pub step : Db → Call → Db
step db (registers env cmd link) = after db (register_core env cmd link db)
step db (moves env id to actor) = after db (transition env id to actor db)

pub run : Db → List Call → Db
run db [] = db
run db (c ∷ cs) = run (step db c) cs

-- The keys that an event's seats are counted under: its slots, or the whole event.
abbrev pub is_key : EventRow → Option ℕ → Bool
is_key event none = not event.is_multi_slots
is_key event (some slot) = event.is_multi_slots

abbrev pub NamesNoSlot : List EventRow → RegistrationRow → Type 0
NamesNoSlot events r =
    (event : EventRow)
    → find_where (λ (e : EventRow). e.id == r.event_id) events ≡ some event
    → event.is_multi_slots ≡ false
    → r.event_slot_id ≡ none

-- A registration for a single-slot event names no slot.
abbrev pub IsRouted : Db → Call → Type 0
IsRouted db (registers env cmd link) =
    (event : EventRow)
    → find_event cmd.event_id db ≡ some event
    → event.is_multi_slots ≡ false
    → cmd.event_slot_id ≡ none
IsRouted db (moves env id to actor) = Unit {0}

pub record IsSound (db : Db) : Type 0 where
  pub unique : (id : ℕ) → count_where (λ (r : RegistrationRow). r.id == id) db.registrations ≤ 1
  pub unslotted : All (NamesNoSlot db.events) db.registrations
  pub bounded :
      (id : ℕ) (event : EventRow) (slot : Option ℕ)
      → find_event id db ≡ some event
      → event.seats_limited ≡ true
      → 0 < event.seats_max
      → is_key event slot ≡ true
      → seats_taken id slot db.registrations ≤ event.seats_max

-- Under a key of the event, a counted row stands in exactly that slot.
slot_of_key :
    (event : EventRow) (slot stored : Option ℕ)
    → is_key event slot ≡ true
    → in_slot slot stored ≡ true
    → (event.is_multi_slots ≡ false → stored ≡ none)
    → slot ≡ stored
slot_of_key event none stored key fits unslotted = sym (unslotted (ground arith))
slot_of_key event (some s) none key fits unslotted = absurd (ground arith)
slot_of_key event (some s) (some t) key fits unslotted = ground arith

register_unique :
    (env : Env) (cmd : RegisterCommand) (link : Option SaleLink) (db : Db) {row : RegistrationRow}
    {db' : Db}
    → register_core env cmd link db ≡ ok (row, db')
    → IsSound db
    → (id : ℕ) → count_where (λ (r : RegistrationRow). r.id == id) db'.registrations ≤ 1
register_unique env cmd link db {row} h v id =
    rw (register_core-rows env cmd link db h).0 (elim (Bool-cases (row.id == id)) [
      | inl e ↦ ground (arith, register_core-fresh env cmd link db h)
      | inr n ↦ ground (arith, v.unique id)
    ])

register-unslotted :
    (env : Env) (cmd : RegisterCommand) (link : Option SaleLink) (db : Db) {row : RegistrationRow}
    {db' : Db}
    → register_core env cmd link db ≡ ok (row, db')
    → IsRouted db (registers env cmd link)
    → IsSound db
    → All (NamesNoSlot db'.events) db'.registrations
register-unslotted env cmd link db {row} {db'} h routed v =
    let (rows, events) = register_core-rows env cmd link db h in
    rw rows
      (subst (λ es. All (NamesNoSlot es) (row ∷ db.registrations)) (sym events) (new, v.unslotted))
  where
    new : NamesNoSlot db.events row
    new event found single =
        let at : find_event cmd.event_id db ≡ some event =
          rw (← (register_core-row env cmd link db h).0) found in
        register_core-slot env cmd link db event h at ∙ routed event at single

register-bounded :
    (env : Env) (cmd : RegisterCommand) (link : Option SaleLink) (db : Db) {row : RegistrationRow}
    {db' : Db}
    → register_core env cmd link db ≡ ok (row, db')
    → IsRouted db (registers env cmd link)
    → IsSound db
    → (id : ℕ) (event : EventRow) (slot : Option ℕ) → find_event id db ≡ some event
    → event.seats_limited ≡ true
    → 0 < event.seats_max
    → is_key event slot ≡ true
    → seats_taken id slot db'.registrations ≤ event.seats_max
register-bounded env cmd link db {row} {db'} h routed v id event slot found limited positive key =
    elim (Bool-cases (holds_seat id slot row)) [
      | inl counted ↦
          let here : cmd.event_id ≡ id = ground (arith, (register_core-row env cmd link db h).0) in
          let at : find_event cmd.event_id db ≡ some event = rw here found in
          let key_slot =
            slot_of_key event slot row.event_slot_id key (ground arith)
              (λ single. register_core-slot env cmd link db event h at ∙ routed event at single) in
          rw (← here, key_slot)
            (register_core-le-seats_max env cmd link db event h at limited positive)
      | inr other ↦
          ground
            (arith, register_core-seats_taken env cmd link db id slot h, v.bounded id event slot)
    ]

register-IsSound :
    (env : Env) (cmd : RegisterCommand) (link : Option SaleLink) (db : Db) {row : RegistrationRow}
    {db' : Db}
    → register_core env cmd link db ≡ ok (row, db')
    → IsRouted db (registers env cmd link)
    → IsSound db
    → IsSound db'
register-IsSound env cmd link db {row} {db'} h routed v = record {
  unique = register_unique env cmd link db h v;
  unslotted = register-unslotted env cmd link db h routed v;
  bounded = λ id event slot found.
      register-bounded env cmd link db h routed v id event slot
        (rw (← (register_core-rows env cmd link db h).1) found);
}

module _ (env : Env) (id : ℕ) (to : RegistrationState) (actor : Option ℕ) (db : Db)
    {result : RegistrationState × RegistrationState × Bool} {db' : Db}
    (h : transition env id to actor db ≡ ok (result, db')) (v : IsSound db) where
  transition-bounded :
      (key_id : ℕ) (event : EventRow) (slot : Option ℕ)
      → find_event key_id db ≡ some event
      → event.seats_limited ≡ true
      → 0 < event.seats_max
      → is_key event slot ≡ true
      → seats_taken key_id slot db'.registrations ≤ event.seats_max
  transition-bounded key_id event slot found limited positive key =
      let m = transition-Moved env id to actor db h in
      let moved =
        transition-seats_taken env id to actor db m.prev m.found (v.unique id) key_id slot h in
      let bound = v.bounded key_id event slot found limited positive key in
      elim (Bool-cases (holds_seat key_id slot (set_state env.sql_now to m.prev))) [
        | inr leaves ↦ ground (arith, moved, bound)
        | inl holds ↦ elim (Bool-cases (takes_seat m.prev to)) [
          | inr kept ↦ ground (arith, moved, bound)
          | inl takes ↦
              let here : m.prev.event_id ≡ key_id = ground arith in
              let at : find_event m.prev.event_id db ≡ some event = rw here found in
              let key_slot =
                slot_of_key event slot m.prev.event_slot_id key (ground arith) (λ single.
                  find_where-All (NamesNoSlot db.events) _ db.registrations v.unslotted m.found
                    event at single) in
              let room =
                transition-room env id to actor db m.prev m.found (v.unique id) event h takes at in
              let room_here : is_exhausted event (seats_taken key_id slot db.registrations)
                  ≡ false =
                rw (← here, key_slot) room in
              ground (arith, moved, room_here)
        ]
      ]

  transition-IsSound : IsSound db'
  transition-IsSound =
      let (rows, events) = transition-rows env id to actor db h in
      record {
        unique = λ i. rw rows (
            rw
              (count_where-update_same (λ (r : RegistrationRow). r.id == i) (λ r. r.id == id)
                (set_state env.sql_now to) (λ r. refl) db.registrations)
              (v.unique i));
        unslotted =
            rw (rows, events)
              (update_where-All (NamesNoSlot db.events) (λ r. r.id == id) (set_state env.sql_now to)
                (λ r n _. n) db.registrations v.unslotted);
        bounded =
            λ key_id event slot found. transition-bounded key_id event slot (rw (← events) found);
      }

step-events : (db : Db) (c : Call) → (step db c).events ≡ db.events
unfolding step
step-events db (registers env cmd link) = elim (Result-cases (register_core env cmd link db)) [
  | inl ((row, db'), h) ↦ rw (h, after) (register_core-rows env cmd link db h).1
  | inr (e, h) ↦ rw (h, after)
]
step-events db (moves env id to actor) = elim (Result-cases (transition env id to actor db)) [
  | inl ((r, db'), h) ↦ rw (h, after) (transition-rows env id to actor db h).1
  | inr (e, h) ↦ rw (h, after)
]

-- No seat verb writes the seam's inbox.
pub step-seam_inbox : (db : Db) (c : Call) → (step db c).seam_inbox ≡ db.seam_inbox
unfolding step
step-seam_inbox db (registers env cmd link) = elim (Result-cases (register_core env cmd link db)) [
  | inl ((row, db'), h) ↦ rw (h, after) (register_core-SameTables env cmd link db h).0
  | inr (e, h) ↦ rw (h, after)
]
step-seam_inbox db (moves env id to actor) = elim (Result-cases (transition env id to actor db)) [
  | inl ((r, db'), h) ↦ rw (h, after) (transition-SameTables env id to actor db h).0
  | inr (e, h) ↦ rw (h, after)
]

-- Every call, refused or not, keeps the registrations sound: ids distinct, no limited event over its
-- seats under any of its keys. A registration for a single-slot event must name no slot.
pub step-IsSound : (db : Db) (c : Call) → IsRouted db c → IsSound db → IsSound (step db c)
unfolding step
step-IsSound db (registers env cmd link) routed v =
    elim (Result-cases (register_core env cmd link db)) [
      | inl ((row, db'), h) ↦ rw (h, after) (register-IsSound env cmd link db h routed v)
      | inr (e, h) ↦ rw (h, after) v
    ]
step-IsSound db (moves env id to actor) routed v =
    elim (Result-cases (transition env id to actor db)) [
      | inl ((r, db'), h) ↦ rw (h, after) (transition-IsSound env id to actor db h v)
      | inr (e, h) ↦ rw (h, after) v
    ]

IsRouted-step : (db : Db) (c d : Call) → IsRouted db d → IsRouted (step db c) d
IsRouted-step db c (registers env cmd link) routed =
    λ event found. routed event (rw (← step-events db c) found)
IsRouted-step db c (moves env id to actor) routed = tt

IsRouted-step-All :
    (db : Db) (c : Call) (cs : List Call) → All (IsRouted db) cs → All (IsRouted (step db c)) cs
IsRouted-step-All db c [] all = tt
IsRouted-step-All db c (d ∷ cs) all = (IsRouted-step db c d all.0, IsRouted-step-All db c cs all.1)

-- Every history of registrations, mints and state verbs keeps the registrations sound, if its
-- registrations for single-slot events name no slot: ids stay distinct, and no limited event goes over
-- its seats under any of its keys.
pub run-IsSound :
    (db : Db) (cs : List Call) → All (IsRouted db) cs → IsSound db → IsSound (run db cs)
unfolding run
run-IsSound db [] routed v = v
run-IsSound db (c ∷ cs) routed v =
    run-IsSound (step db c) cs (IsRouted-step-All db c cs routed.1) (step-IsSound db c routed.0 v)

run-events : (db : Db) (cs : List Call) → (run db cs).events ≡ db.events
unfolding run
run-events db [] = refl
run-events db (c ∷ cs) = run-events (step db c) cs ∙ step-events db c

-- No oversell. From a sound database, whatever registrations, mints and state verbs are called, in
-- whatever order, every event that is limited to a positive number of seats has at most that many
-- taken: in each slot of a multi-slot event, over the whole of a single-slot one. The registrations
-- that the history makes for single-slot events name no slot.
pub run-le-seats_max :
    (db : Db) (cs : List Call) (id : ℕ) (event : EventRow) (slot : Option ℕ)
    → IsSound db
    → All (IsRouted db) cs
    → find_event id db ≡ some event
    → event.seats_limited ≡ true
    → 0 < event.seats_max
    → is_key event slot ≡ true
    → seats_taken id slot (run db cs).registrations ≤ event.seats_max
run-le-seats_max db cs id event slot v routed found =
    (run-IsSound db cs routed v).bounded id event slot (rw (run-events db cs) found)
