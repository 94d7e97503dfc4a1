-- ===== src/Seam.antt =====
-- The sale seam (src/infrastructure/persistence/sale_seam_repository.rs): the inbox claim, the mint and
-- the heal of a confirmed order, the cancel cascade, the paid heal with the booth latch.
pub mod Inbox
pub mod Mint
pub mod Held
pub mod Paid
pub mod Cascade
pub mod Forward
mod Examples
use backbone_events.Base.{
  ℕ, suc, ◌+◌, ◌≡◌, refl, Option, none, some, List, [], ◌∷◌, ◌++◌, map, Bool, true, false, not,
  ◌&&◌, ◌||◌, ◌==◌, if◌then◌else◌, is_value, is_some, count_where, exists_where, update_where,
}
use backbone_events.Base.Text.{Text, text_eq, trim, codes}
use backbone_events.Store.{
  Db, record_audit, EventRow, RegistrationRow, RegistrationState, SaleOrderState, SaleStatus,
  BoothRow, AuditEvent, EventError, Result, ok, err, ◌>>=◌, ◌>>◌, refuse_if,
}
use backbone_events.Seat.{Env, RegisterCommand, SaleLink, arm_after_sub}
use backbone_events.Seat.Register.{register_core}
use backbone_events.Seat.Transition.{is_waiting}

-- What a delivery reads from outside: the clock of its transaction, the text form of a uuid, and
-- `str::parse::<f64>`, of which only whether the number equals 0.0 is asked.
pub record SeamEnv : Type 0 where
  pub sql_now : ℕ
  pub uuid_text : ℕ → Text
  pub parse_f64_is_zero : Text → Option Bool

pub record SeamOutcome : Type 0 where
  pub already_applied : Bool
  pub registrations_touched : ℕ
  pub booths_latched_paid : ℕ

abbrev pub nothing_applied : SeamOutcome
nothing_applied = record {
  already_applied = true;
  registrations_touched = 0;
  booths_latched_paid = 0;
}

abbrev pub applied : ℕ → ℕ → SeamOutcome
applied touched latched = record {
  already_applied = false;
  registrations_touched = touched;
  booths_latched_paid = latched;
}

abbrev parsed_zero : Option Bool → Bool
parsed_zero none = false
parsed_zero (some zero) = zero

-- An unparseable total counts as paid.
pub grand_total_is_zero : SeamEnv → Text → Bool
grand_total_is_zero env raw = parsed_zero (env.parse_f64_is_zero (trim raw))

pub data Verb : Type 0 where
  confirmed_verb cancelled_verb paid_verb : Verb

abbrev pub verb_text : Verb → Text
verb_text confirmed_verb = codes "confirmed:"
verb_text cancelled_verb = codes "cancelled:"
verb_text paid_verb = codes "paid:"

-- "{verb}:{delivery id}", or "{verb}:{order id}" where the host supplies none.
pub claim_key : SeamEnv → Verb → Option Text → ℕ → Text
claim_key env verb none order_id = verb_text verb ++ env.uuid_text order_id
claim_key env verb (some delivery) order_id = verb_text verb ++ delivery

-- A row of the inbox under the primary key (consumer, external_id).
abbrev pub is_inbox_row : Text → Text → Text × Text → Bool
is_inbox_row consumer key entry = text_eq entry.0 consumer && text_eq entry.1 key

pub is_claimed : Text → Text → Db → Bool
is_claimed consumer key db = exists_where (is_inbox_row consumer key) db.seam_inbox

-- INSERT INTO event.seam_inbox: the row that makes the delivery consumed.
abbrev pub claim : Text → Text → Db → Db
claim consumer key db = record db { seam_inbox = (consumer, key) ∷ db.seam_inbox }

abbrev pub is_linked : ℕ → RegistrationRow → Bool
is_linked order r = is_value order r.sale_order_id

abbrev pub is_to_pay : Option SaleStatus → Bool
is_to_pay none = false
is_to_pay (some SaleStatus.free) = false
is_to_pay (some SaleStatus.sold) = false
is_to_pay (some SaleStatus.to_pay) = true

-- The arm of every event that the order has a registration of.
pub arm_order : ℕ → ℕ → Db → Db
unfolding arm_after_sub
arm_order order now db =
    arm_after_sub
      (λ e.
        exists_where (λ (r : RegistrationRow). is_linked order r && r.event_id == e)
          db.registrations)
      now db

abbrev pub order_link : ℕ → Bool → SaleLink
order_link order is_free = record {
  sale_order_id = order;
  sale_order_state = SaleOrderState.sale;
  sale_status = if is_free then SaleStatus.free else SaleStatus.to_pay;
  initial_state = if is_free then RegistrationState.opened else RegistrationState.draft;
}

-- THE MINT: every spec through the one seat head; the first refusal ends the delivery.
pub mint_all : SaleLink → List (Env × RegisterCommand) → ℕ → Db → Result (ℕ × Db)
mint_all link [] touched db = ok (touched, db)
mint_all link ((env, spec) ∷ specs) touched db =
    register_core env spec (some link) db >>= λ minted. mint_all link specs (touched + 1) minted.1

-- THE HEAL of an already linked group.
abbrev pub is_liftable : ℕ → RegistrationRow → Bool
is_liftable order r = is_linked order r && is_waiting r.state && r.active

abbrev pub lift_free : RegistrationRow → RegistrationRow
lift_free r = record r {
  state = RegistrationState.opened;
  sale_order_state = some SaleOrderState.sale;
  sale_status = some SaleStatus.free;
}

abbrev pub hold_paid : RegistrationRow → RegistrationRow
hold_paid r = record r {
  sale_order_state = some SaleOrderState.sale;
  sale_status = some SaleStatus.to_pay;
}

pub heal : ℕ → Bool → ℕ → Db → ℕ × Db
unfolding arm_order
heal order is_free now db =
    if is_free
    then (
      count_where (is_liftable order) db.registrations,
      arm_order order now (record db {
        registrations = update_where (is_liftable order) lift_free db.registrations;
      }),
    )
    else (
      count_where (λ (r : RegistrationRow). is_linked order r && r.active) db.registrations,
      record db {
        registrations =
            update_where (λ (r : RegistrationRow). is_linked order r && r.active) hold_paid
              db.registrations;
      },
    )

pub confirm_order :
    SeamEnv → ℕ → Bool → List (Env × RegisterCommand) → Option ℕ → Db → Result (SeamOutcome × Db)
unfolding heal
confirm_order env order is_free specs actor db =
    if count_where (is_linked order) db.registrations == 0
    then mint_all (order_link order is_free) specs 0 db >>= (λ minted. ok (
      applied minted.0 0,
      record_audit actor (AuditEvent.sale_seam_confirmed order true is_free minted.0) minted.1,
    ))
    else let (touched, healed) = heal order is_free env.sql_now db in
      ok (
        applied touched 0,
        record_audit actor (AuditEvent.sale_seam_confirmed order false is_free touched) healed,
      )

pub on_order_confirmed :
    SeamEnv
    → Text
    → Option Text
    → ℕ
    → Text
    → List (Env × RegisterCommand)
    → Option ℕ
    → Db
    → Result (SeamOutcome × Db)
on_order_confirmed env consumer delivery order grand_total specs actor db =
    let key = claim_key env confirmed_verb delivery order in
    if is_claimed consumer key db
    then ok (nothing_applied, db)
    else confirm_order env order (grand_total_is_zero env grand_total) specs actor
        (claim consumer key db)

-- THE CASCADE: the whole active group to cancel, `sale_status` kept.
abbrev pub cancel_row : RegistrationRow → RegistrationRow
cancel_row r = record r {
  state = RegistrationState.cancel;
  sale_order_state = some SaleOrderState.cancel;
}

pub cancel_order : ℕ → Option ℕ → Db → ℕ × Db
cancel_order order actor db =
    let touched =
      count_where (λ (r : RegistrationRow). is_linked order r && r.active) db.registrations in
    (
      touched,
      record_audit actor (AuditEvent.sale_seam_cancelled order touched) (record db {
        registrations =
            update_where (λ (r : RegistrationRow). is_linked order r && r.active) cancel_row
              db.registrations;
      }),
    )

pub on_order_cancelled :
    SeamEnv → Text → Option Text → ℕ → Option ℕ → Db → Result (SeamOutcome × Db)
on_order_cancelled env consumer delivery order actor db =
    let key = claim_key env cancelled_verb delivery order in
    if is_claimed consumer key db
    then ok (nothing_applied, db)
    else let (touched, cancelled) = cancel_order order actor (claim consumer key db) in
      ok (applied touched 0, cancelled)

-- THE ES-4 HEAL: two updates of the order's rows, one after the other.
abbrev pub is_payable : ℕ → RegistrationRow → Bool
is_payable order r = is_linked order r && is_waiting r.state && is_to_pay r.sale_status && r.active

abbrev pub lift_sold : RegistrationRow → RegistrationRow
lift_sold r = record r {
  state = RegistrationState.opened;
  sale_order_state = some SaleOrderState.sale;
  sale_status = some SaleStatus.sold;
}

abbrev pub is_unsettled : ℕ → RegistrationRow → Bool
is_unsettled order r = is_linked order r && is_to_pay r.sale_status && r.active

abbrev pub settle : RegistrationRow → RegistrationRow
settle r = record r { sale_status = some SaleStatus.sold }

-- THE BOOTH LATCH: sale_order_line_id = ANY($1) AND NOT is_paid
abbrev pub on_line : List ℕ → BoothRow → Bool
on_line lines b = exists_where (λ line. is_value line b.sale_order_line_id) lines

abbrev pub latch : BoothRow → BoothRow
latch b = record b { is_paid = true }

pub pay_order : SeamEnv → ℕ → List ℕ → Option ℕ → Db → (ℕ × ℕ) × Db
unfolding arm_order
pay_order env order lines actor db =
    let touched = count_where (is_payable order) db.registrations in
    let latched = count_where (λ (b : BoothRow). on_line lines b && not b.is_paid) db.booths in
    let healed = record db {
      registrations =
          update_where (is_unsettled order) settle
            (update_where (is_payable order) lift_sold db.registrations);
    } in
    let armed = arm_order order env.sql_now healed in
    (
      (touched, latched),
      record_audit actor (AuditEvent.sale_seam_paid order touched latched) (record armed {
        booths =
            update_where (λ (b : BoothRow). on_line lines b && not b.is_paid) latch armed.booths;
      }),
    )

pub on_order_paid :
    SeamEnv → Text → Option Text → ℕ → List ℕ → Option ℕ → Db → Result (SeamOutcome × Db)
on_order_paid env consumer delivery order lines actor db =
    let key = claim_key env paid_verb delivery order in
    if is_claimed consumer key db
    then ok (nothing_applied, db)
    else let (counts, paid) = pay_order env order lines actor (claim consumer key db) in
      ok (applied counts.0 counts.1, paid)
