-- ===== src/Intake/Examples.antt =====
-- The throttle of the public intake at concrete arrivals.
use backbone_events.Base.{ℕ, ◌≤◌, none, [], ◌∷◌, arith}
use backbone_events.Base.Text.{codes}
use backbone_events.Samples.{hall, env_at}
use backbone_events.Intake.{IntakePayload, IntakeThrottles, IntakeState}
use backbone_events.Intake.Throttle.{Arrival, registered_by, registered_by-le-max}

abbrev limits : IntakeThrottles
limits = record {
  per_identity_max = 1;
  per_identity_window_secs = 3600;
  per_ip_max = 30;
  per_ip_window_secs = 3600;
}

abbrev payload : IntakePayload
payload = record {
  name = codes "Ann";
  email = codes "ann@example.org";
  phone = none;
  company_name = none;
  event_slot_id = none;
  event_ticket_id = none;
  answers = [];
}

abbrev arrival : ℕ → Arrival
arrival now = record {
  env = env_at now;
  now = now;
  event_id = 1;
  payload = payload;
  client_ip = codes "192.0.2.1";
}

-- Ann came an hour before; her old window is still in the table.
abbrev at_the_door : IntakeState
at_the_door = record {
  db = hall;
  windows = record { key = codes "identity:ann@example.org"; start = 0; count = 1 } ∷ [];
}

registered_by-le-max_example :
    registered_by
      (λ s. s)
      limits
      (codes "ann@example.org")
      (arrival 3660 ∷ arrival 3690 ∷ [])
      at_the_door
    ≤ 1
registered_by-le-max_example =
    registered_by-le-max (λ s. s) limits 3600 (codes "ann@example.org")
      (arrival 3660 ∷ arrival 3690 ∷ []) at_the_door
      ((omega arith, omega arith), ((omega arith, omega arith), tt)) (omega arith)
