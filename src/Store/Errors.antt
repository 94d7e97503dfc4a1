-- ===== src/Store/Errors.antt =====
-- EventError of src/application/service/event_error.rs, and the result type of every verb.
-- The variants of the modelled verbs carry their identifiers; a text payload is kept where the
-- source fixes it.
use backbone_events.Base.{
  ℕ, ◌≡◌, refl, ◌⊎◌, inl, inr, Option, none, some, Bool, true, false, String,
}

-- What the database refuses a statement with (the cases that the verbs can meet).
pub data DbError : Type 0 where
  unique_violation foreign_key_violation check_violation raised_exception row_not_found : DbError

pub data EventError : Type 0 where
  event_not_found : EventError
  event_seats_exhausted : (event_id : ℕ) → EventError
  event_sale_window_closed : (event_ticket_id : ℕ) → EventError
  event_slot_required : (event_id : ℕ) → EventError
  event_slot_not_of_event : (event_slot_id : ℕ) → EventError
  event_ticket_not_of_event : (event_ticket_id : ℕ) → EventError
  registration_not_found : EventError
  event_not_published : EventError
  event_capability_secret_not_configured : EventError
  event_throttled : (retry_after_secs : ℕ) → EventError
  publish_refused : String → EventError
  template_unresolved : EventError
  template_renderer_not_composed : EventError
  render_failed : String → EventError
  enqueue_refused : String → EventError
  recipient_invalid : String → EventError
  booth_not_found : (booth_id : ℕ) → EventError
  booth_booking_not_found : (booking_id : ℕ) → EventError
  booth_already_confirmed : (event_booth_id : ℕ) → EventError
  booth_delete_refused_sale_linked : (booth_id : ℕ) → EventError
  booth_booking_line_cross_event : (sale_order_line_id : ℕ) → EventError
  lead_rule_not_found : (rule_id : ℕ) → EventError
  lead_sink_refused : String → EventError
  lead_request_busy : (event_id : ℕ) → EventError
  lead_request_not_found : (event_id : ℕ) → EventError
  desk_invalid_ticket : EventError
  desk_canceled_registration : EventError
  desk_unconfirmed_registration : EventError
  desk_not_ongoing_event : EventError
  desk_need_manual_confirmation : EventError
  desk_already_registered : EventError
  validation : String → EventError
  database : DbError → EventError
  internal : String → EventError

pub data Result {ℓ} (A : Type ℓ) : Type ℓ where
  ok : A → Result A
  err : EventError → Result A

-- `.ok_or(e)?`
abbrev pub ok_or {ℓ} : {A : Type ℓ} → Option A → EventError → Result A
ok_or none refusal = err refusal
ok_or (some found) refusal = ok found

-- `if refused { return Err(e); }`
abbrev pub refuse_if : Bool → EventError → Result (Unit {0})
refuse_if false refusal = ok tt
refuse_if true refusal = err refusal

-- `?`: the first error ends the verb.
infixl 5 ◌>>=◌
abbrev pub ◌>>=◌ {ℓ₁ ℓ₂} :
    {Done : Type ℓ₁} {Out : Type ℓ₂} → Result Done → (Done → Result Out) → Result Out
err refusal >>= next = err refusal
ok done >>= next = next done

module _ {ℓ κ} {A : Type ℓ} {B : Type κ} where
  -- The two halves of a verb that succeeded.
  pub >>=-eq-ok :
      (first : Result A) (next : A → Result B) {out : B}
      → (first >>= next) ≡ ok out
      → (done : A) × (first ≡ ok done) × (next done ≡ ok out)
  >>=-eq-ok (err refusal) next h = cc
  >>=-eq-ok (ok done) next h = (done, refl, h)

-- A test in front of the rest.
infixl 5 ◌>>◌
abbrev pub ◌>>◌ {κ} : {B : Type κ} → Result (Unit {0}) → Result B → Result B
test >> next = test >>= (λ passed. next)

pub ok_or-eq-ok {ℓ} :
    {A : Type ℓ} (o : Option A) (e : EventError) {a : A} → ok_or o e ≡ ok a → o ≡ some a
ok_or-eq-ok none e h = cc
ok_or-eq-ok (some a) e h = cc

pub refuse_if-eq-ok : (b : Bool) (e : EventError) {u : Unit {0}} → refuse_if b e ≡ ok u → b ≡ false
refuse_if-eq-ok true e h = cc
refuse_if-eq-ok false e h = refl

pub Result-cases {ℓ} :
    {A : Type ℓ} (r : Result A) → ((a : A) × (r ≡ ok a)) ⊎ ((e : EventError) × (r ≡ err e))
Result-cases (ok a) = inl (a, refl)
Result-cases (err e) = inr (e, refl)

pub ok-injective {ℓ} : {A : Type ℓ} {a b : A} → ok a ≡ ok b → a ≡ b
ok-injective h = cc h
