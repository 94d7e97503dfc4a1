-- ===== src/Seam/Mint.antt =====
-- The mint of a confirmed order (sale_seam_repository.rs, `on_order_confirmed`): the rows that it
-- adds and their linkage.
use backbone_events.Base.{
  ℕ, ◌+◌, ◌≡◌, refl, sym, ap, ◌∙◌, Option, some, List, [], ◌∷◌, ◌++◌, true, false, arith,
  count_where, length, Rows, no_rows, row,
}
use backbone_events.Base.Text.{Text}
use backbone_events.Store.{Db, RegistrationRow, Result, ok, err, >>=-eq-ok}
use backbone_events.Seat.{Env, RegisterCommand, SaleLink}
use backbone_events.Seat.Register.{born_row, register_core}
use backbone_events.Seat.Register.Effect.{register_core-rows, register_core-slot}
use backbone_events.Seat.Register.Inversion.{register_core-Registered}
use backbone_events.Seam.{
  SeamEnv, SeamOutcome, applied, grand_total_is_zero, confirmed_verb, claim_key, is_claimed, claim,
  is_linked, order_link, mint_all, confirm_order, on_order_confirmed,
}

append-shift {ℓ} : {A : Type ℓ} (xs ys : List A) (z : A) → xs ++ (z ∷ ys) ≡ (xs ++ (z ∷ [])) ++ ys
append-shift [] ys z = refl
append-shift (x ∷ xs) ys z = ap (◌∷◌ x) (append-shift xs ys z)

-- What a spec asks of the row that is minted for it, and the linkage that the row is born with.
pub record IsMinted (link : SaleLink) (spec : Env × RegisterCommand) (r : RegistrationRow)
    : Type 0 where
  pub id : r.id ≡ spec.0.new_id
  pub event : r.event_id ≡ spec.1.event_id
  pub slot : r.event_slot_id ≡ spec.1.event_slot_id
  pub ticket : r.event_ticket_id ≡ spec.1.event_ticket_id
  pub name : r.name ≡ spec.1.name
  pub email : r.email ≡ spec.1.email
  pub phone : r.phone ≡ spec.1.phone
  pub company_name : r.company_name ≡ spec.1.company_name
  pub partner : r.partner_id ≡ spec.1.partner_id
  pub order : r.sale_order_id ≡ some link.sale_order_id
  pub order_state : r.sale_order_state ≡ some link.sale_order_state
  pub status : r.sale_status ≡ some link.sale_status
  pub born : r.state ≡ link.initial_state
  pub live : r.active ≡ true

-- Rows inserted one after the other: the last one is the first of the table.
abbrev pub inserted : List RegistrationRow → List RegistrationRow → List RegistrationRow
inserted [] table = table
inserted (r ∷ rows) table = inserted rows (r ∷ table)

-- The table keeps its rows, in their order, below the inserted ones.
pub inserted-append :
    (rows table : List RegistrationRow)
    → (above : List RegistrationRow) × (inserted rows table ≡ above ++ table)
inserted-append [] table = ([], refl)
inserted-append (r ∷ rows) table =
    let (above, e) = inserted-append rows (r ∷ table) in
    (above ++ (r ∷ []), e ∙ append-shift above table r)

pub record Minted (link : SaleLink) (specs : List (Env × RegisterCommand)) (db db' : Db)
    : Type 0 where
  pub rows : List RegistrationRow
  pub added : db'.registrations ≡ inserted rows db.registrations
  pub matched : Rows (IsMinted link) specs rows

abbrev registrations_of : Result (SeamOutcome × Db) → List RegistrationRow
registrations_of (ok (o, db)) = db.registrations
registrations_of (err e) = []

abbrev outcome_of : Result (SeamOutcome × Db) → SeamOutcome
outcome_of (ok (o, db)) = o
outcome_of (err e) = applied 0 0

-- The one row that a registration with a linkage adds is the one that its spec asks for.
register_core-IsMinted :
    (env : Env) (spec : RegisterCommand) (link : SaleLink) (db : Db) {r : RegistrationRow}
    {db' : Db}
    → register_core env spec (some link) db ≡ ok (r, db')
    → IsMinted link (env, spec) r
unfolding born_row
register_core-IsMinted env spec link db {r} h =
    let made = register_core-Registered env spec (some link) db h in
    let slot = register_core-slot env spec (some link) db made.event h made.found in
    let slot_kept : made.slot_id ≡ spec.event_slot_id =
      ap (λ (x : RegistrationRow). x.event_slot_id) (sym made.returned) ∙ slot in
    rw made.returned (record {
      id = refl;
      event = refl;
      slot = slot_kept;
      ticket = refl;
      name = refl;
      email = refl;
      phone = refl;
      company_name = refl;
      partner = refl;
      order = refl;
      order_state = refl;
      status = refl;
      born = refl;
      live = refl;
    })

pub mint_all-Minted :
    (link : SaleLink) (specs : List (Env × RegisterCommand)) (touched : ℕ) (db : Db) {n : ℕ}
    {db' : Db}
    → mint_all link specs touched db ≡ ok (n, db')
    → Minted link specs db db' × (n ≡ touched + length specs)
unfolding mint_all
mint_all-Minted link [] touched db h =
    (record { rows = []; added = cc h; matched = no_rows }, ground arith)
mint_all-Minted link ((env, spec) ∷ specs) touched db {n} {db'} h =
    let ((r, mid), first, rest) = >>=-eq-ok (register_core env spec (some link) db) _ h in
    let (m, count) = mint_all-Minted link specs (touched + 1) mid rest in
    (
      record {
        rows = r ∷ m.rows;
        added = m.added ∙ ap (inserted m.rows) (register_core-rows env spec (some link) db first).0;
        matched = row (register_core-IsMinted env spec link db first) m.matched;
      },
      omega (arith, count),
    )

-- A confirmed order that owns no registration yet, under a key that is not claimed yet, is minted
-- whole or refused: if it succeeds, the rows inserted are one for each spec, in the order of the
-- specs, each with the event, slot, ticket, attendee and partner of its own spec, active and linked to
-- the order, free orders born open with status free, others born draft with status to_pay; no other
-- row changes, and the outcome counts them.
pub on_order_confirmed-Minted :
    (env : SeamEnv) (consumer : Text) (delivery : Option Text) (order : ℕ) (total : Text)
    (specs : List (Env × RegisterCommand)) (actor : Option ℕ) (db : Db) {o : SeamOutcome} {db' : Db}
    → is_claimed consumer (claim_key env confirmed_verb delivery order) db ≡ false
    → count_where (is_linked order) db.registrations ≡ 0
    → on_order_confirmed env consumer delivery order total specs actor db ≡ ok (o, db')
    → Minted (order_link order (grand_total_is_zero env total)) specs db db'
      × (o ≡ applied (length specs) 0)
unfolding on_order_confirmed confirm_order
on_order_confirmed-Minted env consumer delivery order total specs actor db {o} {db'} fresh unlinked
      h =
    let ((n, mid), minted, rest) =
      >>=-eq-ok
        (mint_all (order_link order (grand_total_is_zero env total)) specs 0
          (claim consumer (claim_key env confirmed_verb delivery order) db))
        _ (rw (fresh, unlinked) at h) in
    let (m, count) = mint_all-Minted _ specs 0 _ minted in
    (
      record {
        rows = m.rows;
        added = ap registrations_of (sym rest) ∙ m.added;
        matched = m.matched;
      },
      ap outcome_of (sym rest) ∙ ap (λ k. applied k 0) (omega (arith, count)),
    )
