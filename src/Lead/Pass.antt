-- ===== src/Lead/Pass.antt =====
-- The generation pass of application/service/lead_generation_service.rs: the walk of one event's
-- request (`run_one`), the cron's pass over the queue, and the officer's run of one event.
use backbone_events.Base.{
  ℕ, zero, suc, ◌+◌, Option, none, some, List, [], ◌∷◌, Bool, true, false, ◌&&◌, ltb, leb, is_some,
  if◌then◌else◌, length, select_where, sort_by,
}
use backbone_events.Base.Text.{Text}
use backbone_events.Store.{Db, LeadRuleRow, LeadPredicateRow, LeadRequestRow, Result, ok, err}
use backbone_events.Seat.{rule_of_event}
use backbone_events.Lead.{predicates_of_rule}
use backbone_events.Lead.Queue.{
  claim_next_due_request, try_lease_request_of_event, finish_request_by_event,
}
use backbone_events.Lead.Engine.{LeadHost, eligible_registrations}
use backbone_events.Lead.Generate.{LeadRunSummary, LeadState, generate_groups}

abbrev pub lease_seconds : ℕ
lease_seconds = 900

-- WHERE active AND (event_id IS NULL OR event_id = $1) ORDER BY id
unfoldable pub active_rules_of_event : ℕ → Db → List LeadRuleRow
active_rules_of_event event_id db =
    sort_by (λ (r s : LeadRuleRow). leb r.id s.id)
      (select_where (λ (r : LeadRuleRow). r.active && rule_of_event event_id r.event_id)
        db.lead_rules)

abbrev pub matched : ℕ → LeadState → LeadState
matched n st = record st {
  summary = record st.summary { registrations_matched = st.summary.registrations_matched + n };
}

-- The capped batches of one rule, until its domain drains or the sink refuses; `none` is a walk that
-- has not returned within the fuel.
unfoldable pub walk_rule :
    ℕ
    → LeadHost
    → ℕ
    → LeadRuleRow
    → List LeadPredicateRow
    → ℕ
    → LeadState
    → Option (Option Text × LeadState)
unfolding eligible_registrations generate_groups
walk_rule zero host event_id rule predicates batch st = none
walk_rule (suc fuel) host event_id rule predicates batch st =
    let eligible = eligible_registrations host event_id rule.id predicates batch st.db in
    let (refusal, after) =
      generate_groups host rule.id event_id eligible (matched (length eligible) st) in
    let rest = walk_rule fuel host event_id rule predicates batch after in
    if leb (length eligible) 0
    then some (none, st)
    else if is_some refusal
    then some (refusal, after)
    else if ltb (length eligible) batch
    then some (none, after)
    else rest

abbrev pub evaluated : LeadState → LeadState
evaluated st = record st {
  summary = record st.summary { rules_evaluated = st.summary.rules_evaluated + 1 };
}

abbrev pub next_rule :
    Option (Option Text × LeadState)
    → (LeadState → Option (Option Text × LeadState))
    → Option (Option Text × LeadState)
next_rule none rest = none
next_rule (some (some reason, st)) rest = some (some reason, st)
next_rule (some (none, st)) rest = rest st

-- The rules of the event in turn; the first refusal stops them.
unfoldable pub walk_rules :
    ℕ → LeadHost → ℕ → List LeadRuleRow → ℕ → LeadState → Option (Option Text × LeadState)
unfolding walk_rule predicates_of_rule
walk_rules fuel host event_id [] batch st = some (none, st)
walk_rules fuel host event_id (rule ∷ rules) batch st =
    next_rule
      (walk_rule fuel host event_id rule (predicates_of_rule rule.id st.db) batch (evaluated st))
      (walk_rules fuel host event_id rules batch)

-- The request is parked, unless the database refuses the reason; then it keeps its lease.
abbrev pub park_walk : Result Db → LeadState → Result Bool × LeadState
park_walk (err e) st = (err e, st)
park_walk (ok db) st = (
  ok true,
  record st {
    db = db;
    summary = record st.summary { requests_parked = st.summary.requests_parked + 1 };
  },
)

abbrev pub complete_walk : Result Db → LeadState → Result Bool × LeadState
complete_walk (err e) st = (err e, st)
complete_walk (ok db) st = (
  ok false,
  record st {
    db = db;
    summary = record st.summary { requests_completed = st.summary.requests_completed + 1 };
  },
)

-- The request is completed, or parked with the reason; either way its lease is released.
abbrev pub finish_walk : ℕ → Option Text → LeadState → Result Bool × LeadState
finish_walk event_id (some reason) st =
    park_walk (finish_request_by_event event_id (some reason) st.db) st
finish_walk event_id none st = complete_walk (finish_request_by_event event_id none st.db) st

abbrev pub walk_done : ℕ → Option (Option Text × LeadState) → Option (Result Bool × LeadState)
walk_done event_id none = none
walk_done event_id (some (refusal, st)) = some (finish_walk event_id refusal st)

-- One event's request: whether the walk parked. Each statement commits on its own, so the state stands
-- after an error too.
unfoldable pub run_one : ℕ → LeadHost → ℕ → ℕ → LeadState → Option (Result Bool × LeadState)
unfolding active_rules_of_event walk_rules
run_one fuel host event_id batch st =
    walk_done event_id
      (walk_rules fuel host event_id (active_rules_of_event event_id st.db) batch st)

abbrev pub claimed : LeadState → Db → LeadState
claimed st db = record st {
  db = db;
  calls = st.calls + 1;
  summary = record st.summary { requests_claimed = st.summary.requests_claimed + 1 };
}

abbrev pub park_if : Bool → ℕ → List ℕ → List ℕ
park_if true event_id parked = event_id ∷ parked
park_if false event_id parked = parked

-- An error ends the pass.
abbrev pub after_walk :
    ℕ
    → List ℕ
    → (List ℕ → LeadState → Option (Result LeadRunSummary × LeadState))
    → Option (Result Bool × LeadState)
    → Option (Result LeadRunSummary × LeadState)
after_walk event_id parked rest none = none
after_walk event_id parked rest (some (err e, st)) = some (err e, st)
after_walk event_id parked rest (some (ok is_parked, st)) =
    rest (park_if is_parked event_id parked) st

abbrev pub after_claim :
    ℕ
    → LeadHost
    → ℕ
    → List ℕ
    → (List ℕ → LeadState → Option (Result LeadRunSummary × LeadState))
    → Option LeadRequestRow × Db
    → LeadState
    → Option (Result LeadRunSummary × LeadState)
after_claim fuel host batch parked rest (none, db) st = some (ok st.summary, record st { db = db })
after_claim fuel host batch parked rest (some request, db) st =
    after_walk request.event_id parked rest
      (run_one fuel host request.event_id batch (claimed st db))

-- The cron's pass, with the claims that its limit still allows and the events that it has parked.
unfoldable pub run_due_lead_requests :
    ℕ → LeadHost → ℕ → ℕ → List ℕ → LeadState → Option (Result LeadRunSummary × LeadState)
unfolding claim_next_due_request run_one
run_due_lead_requests fuel host batch zero parked st = some (ok st.summary, st)
run_due_lead_requests fuel host batch (suc limit) parked st =
    after_claim fuel host batch parked (run_due_lead_requests fuel host batch limit)
      (claim_next_due_request host.request_id (host.now st.calls) lease_seconds parked st.db) st

abbrev empty_summary : LeadRunSummary
empty_summary = record {
  requests_claimed = 0;
  rules_evaluated = 0;
  registrations_matched = 0;
  groups_created = 0;
  groups_grown = 0;
  leads_created = 0;
  leads_updated = 0;
  requests_completed = 0;
  requests_parked = 0;
}

abbrev pub start : Db → LeadState
start db = record { db = db; calls = 0; summary = empty_summary }

abbrev pub summed_up : Option (Result Bool × LeadState) → Option (Result LeadRunSummary × LeadState)
summed_up none = none
summed_up (some (err e, st)) = some (err e, st)
summed_up (some (ok is_parked, st)) = some (ok st.summary, st)

abbrev pub run_leased :
    ℕ
    → LeadHost
    → ℕ
    → Result (LeadRequestRow × Db)
    → LeadState
    → Option (Result LeadRunSummary × LeadState)
run_leased fuel host batch (err e) st = some (err e, st)
run_leased fuel host batch (ok (request, db)) st =
    summed_up (run_one fuel host request.event_id batch (claimed st db))

-- The officer's run of one event, under the same lease.
unfoldable pub run_request_of_event :
    ℕ → LeadHost → ℕ → ℕ → Db → Option (Result LeadRunSummary × LeadState)
unfolding try_lease_request_of_event run_one
run_request_of_event fuel host event_id batch db =
    run_leased fuel host batch (try_lease_request_of_event event_id (host.now 0) lease_seconds db)
      (start db)
