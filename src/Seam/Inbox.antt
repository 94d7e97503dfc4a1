-- ===== src/Seam/Inbox.antt =====
-- Deliveries and their inbox keys (sale_seam_repository.rs, `claim` and `claim_key`), and histories of
-- deliveries and seat verbs.
use backbone_events.Base.{
  ℕ, ◌+◌, ◌≡◌, ◌⊎◌, refl, sym, ap, ◌∙◌, Option, some, List, [], ◌∷◌, Bool, true, ◌==◌, arith,
  Bool-cases, inl, inr, count_where,
}
use backbone_events.Base.Text.{Text, text_eq_refl}
use backbone_events.Store.{Db, Result, ok, err, >>=-eq-ok, Result-cases}
use backbone_events.Seat.{Env, RegisterCommand, SaleLink}
use backbone_events.Seat.Register.{register_core}
use backbone_events.Seat.Register.Effect.{register_core-SameTables}
use backbone_events.Seat.Capacity.{Call, after, step, step-seam_inbox}
use backbone_events.Seam.{
  SeamEnv, SeamOutcome, nothing_applied, grand_total_is_zero, confirmed_verb, cancelled_verb,
  paid_verb, claim_key, is_claimed, claim, is_linked, order_link, arm_order, mint_all, heal,
  confirm_order, on_order_confirmed, cancel_order, on_order_cancelled, pay_order, on_order_paid,
}

pub is_claimed-claim :
    (consumer key : Text) (db : Db) → is_claimed consumer key (claim consumer key db) ≡ true
unfolding is_claimed
is_claimed-claim consumer key db = ground (arith, text_eq_refl consumer, text_eq_refl key)

is_claimed-claim_other :
    (consumer key consumer' key' : Text) (db : Db)
    → is_claimed consumer key db ≡ true
    → is_claimed consumer key (claim consumer' key' db) ≡ true
unfolding is_claimed
is_claimed-claim_other consumer key consumer' key' db h = ground arith

arm_order-inbox : (order now : ℕ) (db : Db) → (arm_order order now db).seam_inbox ≡ db.seam_inbox
unfolding arm_order
arm_order-inbox order now db = refl

pub mint_all-inbox :
    (link : SaleLink) (specs : List (Env × RegisterCommand)) (touched : ℕ) (db : Db) {n : ℕ}
    {db' : Db}
    → mint_all link specs touched db ≡ ok (n, db')
    → db'.seam_inbox ≡ db.seam_inbox
unfolding mint_all
mint_all-inbox link [] touched db h = cc h
mint_all-inbox link ((env, spec) ∷ specs) touched db h =
    let ((row, mid), first, rest) = >>=-eq-ok (register_core env spec (some link) db) _ h in
    mint_all-inbox link specs (touched + 1) mid rest
    ∙ (register_core-SameTables env spec (some link) db first).0

heal-inbox :
    (order : ℕ) (is_free : Bool) (now : ℕ) (db : Db)
    → (heal order is_free now db).1.seam_inbox ≡ db.seam_inbox
unfolding heal
heal-inbox order is_free now db = ground arith

abbrev inbox_of : Result (SeamOutcome × Db) → List (Text × Text)
inbox_of (ok (o, db)) = db.seam_inbox
inbox_of (err e) = []

confirm_order-inbox :
    (env : SeamEnv) (order : ℕ) (is_free : Bool) (specs : List (Env × RegisterCommand))
    (actor : Option ℕ) (db : Db) {o : SeamOutcome} {db' : Db}
    → confirm_order env order is_free specs actor db ≡ ok (o, db')
    → db'.seam_inbox ≡ db.seam_inbox
unfolding confirm_order
confirm_order-inbox env order is_free specs actor db h =
    elim (Bool-cases (count_where (is_linked order) db.registrations == 0)) [
      | inl fresh ↦
          let ((n, mid), minted, rest) =
            >>=-eq-ok (mint_all (order_link order is_free) specs 0 db) _ (rw fresh at h) in
          ap inbox_of (sym rest) ∙ mint_all-inbox (order_link order is_free) specs 0 db minted
      | inr linked ↦ ap inbox_of (sym (rw linked at h)) ∙ heal-inbox order is_free env.sql_now db
    ]

cancel_order-inbox :
    (order : ℕ) (actor : Option ℕ) (db : Db)
    → (cancel_order order actor db).1.seam_inbox ≡ db.seam_inbox
unfolding cancel_order
cancel_order-inbox order actor db = refl

pay_order-inbox :
    (env : SeamEnv) (order : ℕ) (lines : List ℕ) (actor : Option ℕ) (db : Db)
    → (pay_order env order lines actor db).1.seam_inbox ≡ db.seam_inbox
unfolding pay_order
pay_order-inbox env order lines actor db = refl

-- One delivery of the host bridge, and the inbox key that it claims.
pub data Delivery : Type 0 where
  confirmed :
      SeamEnv
      → (consumer : Text) → (delivery : Option Text) → (order : ℕ) → (grand_total : Text)
      → List (Env × RegisterCommand)
      → (actor : Option ℕ) → Delivery
  cancelled :
      SeamEnv
      → (consumer : Text) → (delivery : Option Text) → (order : ℕ) → (actor : Option ℕ) → Delivery
  paid :
      SeamEnv
      → (consumer : Text) → (delivery : Option Text) → (order : ℕ) → (lines : List ℕ)
      → (actor : Option ℕ) → Delivery

unfoldable pub deliver : Delivery → Db → Result (SeamOutcome × Db)
deliver (confirmed env consumer delivery order total specs actor) db =
    on_order_confirmed env consumer delivery order total specs actor db
deliver (cancelled env consumer delivery order actor) db =
    on_order_cancelled env consumer delivery order actor db
deliver (paid env consumer delivery order lines actor) db =
    on_order_paid env consumer delivery order lines actor db

pub consumer_of : Delivery → Text
consumer_of (confirmed env consumer delivery order total specs actor) = consumer
consumer_of (cancelled env consumer delivery order actor) = consumer
consumer_of (paid env consumer delivery order lines actor) = consumer

pub key_of : Delivery → Text
key_of (confirmed env consumer delivery order total specs actor) =
    claim_key env confirmed_verb delivery order
key_of (cancelled env consumer delivery order actor) = claim_key env cancelled_verb delivery order
key_of (paid env consumer delivery order lines actor) = claim_key env paid_verb delivery order

-- A consumed delivery is answered by the no-op outcome.
pub deliver-consumed :
    (d : Delivery) (db : Db)
    → is_claimed (consumer_of d) (key_of d) db ≡ true
    → deliver d db ≡ ok (nothing_applied, db)
unfolding deliver consumer_of key_of on_order_confirmed on_order_cancelled on_order_paid
deliver-consumed (confirmed env consumer delivery order total specs actor) db h = rw h
deliver-consumed (cancelled env consumer delivery order actor) db h = rw h
deliver-consumed (paid env consumer delivery order lines actor) db h = rw h

-- The inbox after a delivery: as it was, or with its key at the head.
deliver-inbox :
    (d : Delivery) (db : Db) {o : SeamOutcome} {db' : Db}
    → deliver d db ≡ ok (o, db')
    → ((db' ≡ db) × (is_claimed (consumer_of d) (key_of d) db ≡ true))
      ⊎ (db'.seam_inbox ≡ (consumer_of d, key_of d) ∷ db.seam_inbox)
unfolding deliver consumer_of key_of on_order_confirmed on_order_cancelled on_order_paid
deliver-inbox (confirmed env consumer delivery order total specs actor) db h =
    elim (Bool-cases (is_claimed consumer (claim_key env confirmed_verb delivery order) db)) [
      | inl old ↦ inl (cc (rw old at h), old)
      | inr new ↦ inr (
          confirm_order-inbox env order (grand_total_is_zero env total) specs actor _ (rw new at h))
    ]
deliver-inbox (cancelled env consumer delivery order actor) db h =
    elim (Bool-cases (is_claimed consumer (claim_key env cancelled_verb delivery order) db)) [
      | inl old ↦ inl (cc (rw old at h), old)
      | inr new ↦ inr (ap inbox_of (sym (rw new at h)) ∙ cancel_order-inbox order actor _)
    ]
deliver-inbox (paid env consumer delivery order lines actor) db h =
    elim (Bool-cases (is_claimed consumer (claim_key env paid_verb delivery order) db)) [
      | inl old ↦ inl (cc (rw old at h), old)
      | inr new ↦ inr (ap inbox_of (sym (rw new at h)) ∙ pay_order-inbox env order lines actor _)
    ]

claimed_head :
    (consumer key : Text) (db : Db) {rest : List (Text × Text)}
    → db.seam_inbox ≡ (consumer, key) ∷ rest
    → is_claimed consumer key db ≡ true
unfolding is_claimed
claimed_head consumer key db e = rw e (ground (arith, text_eq_refl consumer, text_eq_refl key))

-- A successful delivery has consumed its key.
pub deliver-claims :
    (d : Delivery) (db : Db) {o : SeamOutcome} {db' : Db}
    → deliver d db ≡ ok (o, db')
    → is_claimed (consumer_of d) (key_of d) db' ≡ true
deliver-claims d db {db' = db'} h = elim (deliver-inbox d db h) [
  | inl (same, old) ↦ rw same old
  | inr inbox ↦ claimed_head (consumer_of d) (key_of d) db' inbox
]

claimed_tail :
    (consumer key : Text) (db db' : Db) {head : Text × Text}
    → db'.seam_inbox ≡ head ∷ db.seam_inbox
    → is_claimed consumer key db ≡ true
    → is_claimed consumer key db' ≡ true
unfolding is_claimed
claimed_tail consumer key db db' e h = rw e (ground arith)

claimed_same :
    (consumer key : Text) (db db' : Db)
    → db'.seam_inbox ≡ db.seam_inbox
    → is_claimed consumer key db ≡ true
    → is_claimed consumer key db' ≡ true
unfolding is_claimed
claimed_same consumer key db db' e h = rw e h

-- What may happen between two deliveries of one fact: other deliveries, registrations, state verbs.
pub data Action : Type 0 where
  delivers : Delivery → Action
  calls : Call → Action

pub act : Db → Action → Db
act db (delivers d) = after db (deliver d db)
act db (calls c) = step db c

pub history : Db → List Action → Db
history db [] = db
history db (a ∷ later) = history (act db a) later

act-is_claimed :
    (consumer key : Text) (db : Db) (a : Action)
    → is_claimed consumer key db ≡ true
    → is_claimed consumer key (act db a) ≡ true
unfolding act
act-is_claimed consumer key db (delivers d) c = elim (Result-cases (deliver d db)) [
  | inl ((o, db'), h) ↦
      rw (h, after)
        (elim (deliver-inbox d db h) [
          | inl (same, old) ↦ rw same c
          | inr inbox ↦ claimed_tail consumer key db db' inbox c
        ])
  | inr (e, h) ↦ rw (h, after) c
]
act-is_claimed consumer key db (calls call) c =
    claimed_same consumer key db (step db call) (step-seam_inbox db call) c

history-is_claimed :
    (consumer key : Text) (db : Db) (later : List Action)
    → is_claimed consumer key db ≡ true
    → is_claimed consumer key (history db later) ≡ true
unfolding history
history-is_claimed consumer key db [] c = c
history-is_claimed consumer key db (a ∷ later) c =
    history-is_claimed consumer key (act db a) later (act-is_claimed consumer key db a c)

-- Exactly once per delivery. After a successful delivery, and after any further deliveries,
-- registrations and state verbs, a delivery with the same consumer and key, whatever it carries, is
-- answered by the outcome that reports it as already applied, and changes nothing.
pub deliver-once :
    (d again : Delivery) (db : Db) (later : List Action) {o : SeamOutcome} {db' : Db}
    → consumer_of again ≡ consumer_of d
    → key_of again ≡ key_of d
    → deliver d db ≡ ok (o, db')
    → deliver again (history db' later) ≡ ok (nothing_applied, history db' later)
deliver-once d again db later {db' = db'} same_consumer same_key h =
    deliver-consumed again (history db' later)
      (rw (same_consumer, same_key) (history-is_claimed _ _ db' later (deliver-claims d db h)))
