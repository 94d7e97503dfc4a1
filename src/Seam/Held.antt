-- ===== src/Seam/Held.antt =====
-- The seats and the schedulers under the mint of an order that is not free
-- (sale_seam_repository.rs, `on_order_confirmed`).
use backbone_events.Base.{
  ℕ, ◌+◌, ◌≡◌, refl, sym, ap, ◌∙◌, Option, some, List, [], ◌∷◌, false, arith, count_where,
}
use backbone_events.Base.Text.{Text}
use backbone_events.Store.{Db, RegistrationState, MailRow, Result, ok, err, >>=-eq-ok}
use backbone_events.Seat.{Env, RegisterCommand, SaleLink, seats_taken}
use backbone_events.Seat.Register.{register_core}
use backbone_events.Seat.Register.Effect.{
  register_core-seats_taken, register_core-mails, register_core-link,
}
use backbone_events.Seam.{
  SeamEnv, SeamOutcome, grand_total_is_zero, confirmed_verb, claim_key, is_claimed, claim,
  is_linked, order_link, mint_all, confirm_order, on_order_confirmed,
}

mint_all-held :
    (link : SaleLink) (specs : List (Env × RegisterCommand)) (touched : ℕ) (db : Db) {n : ℕ}
    {db' : Db}
    → link.initial_state ≡ RegistrationState.draft
    → mint_all link specs touched db ≡ ok (n, db')
    → ((event_id : ℕ) (slot : Option ℕ)
        → seats_taken event_id slot db'.registrations ≡ seats_taken event_id slot db.registrations)
      × (db'.mails ≡ db.mails)
unfolding mint_all
mint_all-held link [] touched db held h = (λ event_id slot. cc h, cc h)
mint_all-held link ((env, spec) ∷ specs) touched db held h =
    let ((row, mid), first, rest) = >>=-eq-ok (register_core env spec (some link) db) _ h in
    let (seats, mails) = mint_all-held link specs (touched + 1) mid held rest in
    let draft : row.state ≡ RegistrationState.draft =
      (register_core-link env spec link db first).3 ∙ held in
    (
      (λ event_id slot. ground (
        arith,
        seats event_id slot,
        register_core-seats_taken env spec (some link) db event_id slot first,
      )),
      mails ∙ (register_core-mails env spec (some link) db first ∙ ground arith),
    )

abbrev seats_of : ℕ → Option ℕ → Result (SeamOutcome × Db) → ℕ
seats_of event_id slot (ok (o, db)) = seats_taken event_id slot db.registrations
seats_of event_id slot (err e) = 0

abbrev mails_of : Result (SeamOutcome × Db) → List MailRow
mails_of (ok (o, db)) = db.mails
mails_of (err e) = []

-- A confirmed order that is not free and owns no registration yet holds its attendees at draft: if
-- the new delivery succeeds, every seat count, under every event and slot, is what it was, and no
-- scheduler was armed.
pub on_order_confirmed-held :
    (env : SeamEnv) (consumer : Text) (delivery : Option Text) (order : ℕ) (total : Text)
    (specs : List (Env × RegisterCommand)) (actor : Option ℕ) (db : Db) {o : SeamOutcome} {db' : Db}
    → is_claimed consumer (claim_key env confirmed_verb delivery order) db ≡ false
    → count_where (is_linked order) db.registrations ≡ 0
    → grand_total_is_zero env total ≡ false
    → on_order_confirmed env consumer delivery order total specs actor db ≡ ok (o, db')
    → ((event_id : ℕ) (slot : Option ℕ)
        → seats_taken event_id slot db'.registrations ≡ seats_taken event_id slot db.registrations)
      × (db'.mails ≡ db.mails)
unfolding on_order_confirmed confirm_order
on_order_confirmed-held env consumer delivery order total specs actor db {o} {db'} fresh unlinked
      owed h =
    let ((n, mid), minted, rest) =
      >>=-eq-ok
        (mint_all (order_link order false) specs 0
          (claim consumer (claim_key env confirmed_verb delivery order) db))
        _ (rw (owed, fresh, unlinked) at h) in
    let (seats, mails) = mint_all-held (order_link order false) specs 0 _ refl minted in
    (
      (λ event_id slot. ap (seats_of event_id slot) (sym rest) ∙ seats event_id slot),
      ap mails_of (sym rest) ∙ mails,
    )
