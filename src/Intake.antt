-- ===== src/Intake.antt =====
-- The public intake of application/service/intake_service.rs: the fixed-window throttle, and the one
-- register verb of application/service/registration_service.rs behind it.
pub mod Throttle
mod Examples
use backbone_events.Base.{
  ℕ, ◌+◌, ◌-◌, ◌%◌, ◌^◌, Option, none, some, List, [], ◌∷◌, ◌++◌, Bool, true, false, not, leb, ltb,
  if◌then◌else◌, find_where, update_where,
}
use backbone_events.Base.Text.{Text, codes, text_eq}
use backbone_events.Store.{
  Db, record_audit, AuditEvent, RegistrationRow, Result, ok, err, EventError,
}
use backbone_events.Seat.{Env, RegisterCommand}
use backbone_events.Seat.Register.{register}

pub record IntakeAnswer : Type 0 where
  pub question_id : ℕ
  pub value_text : Option Text
  pub value_answer_id : Option ℕ

pub record IntakePayload : Type 0 where
  pub name : Text
  pub email : Text
  pub phone : Option Text
  pub company_name : Option Text
  pub event_slot_id : Option ℕ
  pub event_ticket_id : Option ℕ
  pub answers : List IntakeAnswer

-- An entry of the map: key -> (window_start_unix, count)
pub record Window : Type 0 where
  pub key : Text
  pub start : ℕ
  pub count : ℕ

abbrev pub is_window_of : Text → Window → Bool
is_window_of key w = text_eq w.key key

-- A stale window is reset in place; `-` on ℕ is the saturating one.
abbrev pub reopened : ℕ → ℕ → Window → Window
reopened now window_secs w =
    if ltb (now - w.start) window_secs then w else record w { start = now; count = 0 }

abbrev pub open_window : ℕ → ℕ → Text → Option Window → List Window → List Window
open_window now window_secs key none ws = record { key = key; start = now; count = 0 } ∷ ws
open_window now window_secs key (some w) ws =
    update_where (is_window_of key) (reopened now window_secs) ws

abbrev pub count_hit : ℕ → Text → Option Window → List Window → Bool × List Window
count_hit max key none ws = (false, ws)
count_hit max key (some w) ws =
    if leb max w.count
    then (false, ws)
    else (true, update_where (is_window_of key) (λ v. record v { count = v.count + 1 }) ws)

-- Record a hit; false when the key is over budget in its window.
unfoldable pub allow : ℕ → Text → (max window_secs : ℕ) → List Window → Bool × List Window
allow now key max window_secs ws =
    let opened = open_window now window_secs key (find_where (is_window_of key) ws) ws in
    count_hit max key (find_where (is_window_of key) opened) opened

pub record IntakeThrottles : Type 0 where
  pub per_identity_max : ℕ
  pub per_identity_window_secs : ℕ
  pub per_ip_max : ℕ
  pub per_ip_window_secs : ℕ

pub record IntakeState : Type 0 where
  pub db : Db
  pub windows : List Window

-- A refusal of the register verb is put on the audit trail.
abbrev pub audited :
    RegisterCommand → Db → Result (RegistrationRow × Db) → Result RegistrationRow × Db
audited cmd db (ok (row, next)) = (ok row, next)
audited cmd db (err e) =
    (err e, record_audit cmd.actor (AuditEvent.registration_refused cmd.event_id cmd.email e) db)

unfoldable pub register_command : Env → RegisterCommand → Db → Result RegistrationRow × Db
register_command env cmd db = audited cmd db (register env cmd db)

abbrev pub intake_command : ℕ → IntakePayload → RegisterCommand
intake_command event_id payload = record {
  event_id = event_id;
  event_slot_id = payload.event_slot_id;
  event_ticket_id = payload.event_ticket_id;
  name = payload.name;
  email = payload.email;
  phone = payload.phone;
  company_name = payload.company_name;
  partner_id = none;
  actor = none;
  lead_rule_skip = false;
}

abbrev pub identity_key : (Text → Text) → Text → Text
identity_key to_lowercase email = codes "identity:" ++ to_lowercase email

abbrev pub ip_key : Text → Text
ip_key client_ip = codes "ip:" ++ client_ip

-- The identity's window, and the address's only if the identity had budget left.
unfoldable pub throttle :
    (Text → Text) → IntakeThrottles → ℕ → Text → Text → List Window → Bool × List Window
unfolding allow
throttle to_lowercase limits now email client_ip ws =
    let (identity, after) =
      allow now (identity_key to_lowercase email) limits.per_identity_max
        limits.per_identity_window_secs ws in
    if identity
    then allow now (ip_key client_ip) limits.per_ip_max limits.per_ip_window_secs after
    else (false, after)

abbrev pub smaller : ℕ → ℕ → ℕ
smaller a b = if leb a b then a else b

-- .min(..).max(1) as u32
abbrev pub retry_after : IntakeThrottles → ℕ
retry_after limits =
    let least = smaller limits.per_identity_window_secs limits.per_ip_window_secs in
    (if leb least 1 then 1 else least) % 2 ^ 32

abbrev pub after_throttle :
    IntakeThrottles
    → Env
    → ℕ
    → IntakePayload
    → Db
    → Bool × List Window
    → Result RegistrationRow × IntakeState
after_throttle limits env event_id payload db (false, windows) =
    (err (EventError.event_throttled (retry_after limits)), record { db = db; windows = windows })
after_throttle limits env event_id payload db (true, windows) =
    let (answer, next) = register_command env (intake_command event_id payload) db in
    (answer, record { db = next; windows = windows })

unfoldable pub intake :
    (Text → Text)
    → IntakeThrottles
    → Env
    → ℕ
    → ℕ
    → IntakePayload
    → Text
    → IntakeState
    → Result RegistrationRow × IntakeState
unfolding throttle register_command
intake to_lowercase limits env now event_id payload client_ip st =
    after_throttle limits env event_id payload st.db
      (throttle to_lowercase limits now payload.email client_ip st.windows)
