-- ===== src/Lead/Drain.antt =====
-- The generation walk ends, and a sink that accepts every group leaves nothing eligible behind
-- (`run_one` of application/service/lead_generation_service.rs).
pub mod Answers
pub mod Walk
use backbone_events.Base.{
  ℕ, zero, suc, ◌<◌, ◌≤◌, ◌≡◌, refl, sym, ap, subst, ◌∙◌, Option, none, some, List, [], ◌∷◌, ◌++◌,
  ◌+◌, map, Bool, true, not, update_where, exists_where, false, leb, ltb, is_some, arith, length,
  All, Bool-cases, Option-cases, inl, inr, ltb→lt,
}
use backbone_events.Base.Text.{Text}
use backbone_events.Store.{
  Db, RegistrationRow, LeadRuleRow, LeadPredicateRow, LeadRequestRow, Result, ok,
}
use backbone_events.Lead.{predicates_of_rule}
use backbone_events.Lead.Queue.{is_request_of, with_outcome, detail_fits, finish_request_by_event}
use backbone_events.Lead.Engine.{
  EligibleRegistration, LeadGroup, SinkAnswer, minted, refused, LeadHost, is_lead_eligible,
  eligible_registrations, upsert_provenance, group_members, view_of,
}
use backbone_events.Lead.Generate.{
  LeadState, Group, walk_group, grouped, walk_groups, generate_groups, drive_sink, after_create,
  after_update, stop_on, new_members, ids_of,
}
use backbone_events.Lead.Pass.{
  active_rules_of_event, matched, walk_rule, evaluated, next_rule, walk_rules, finish_walk,
  walk_done, run_one,
}
use backbone_events.Lead.Provenance.{Kept, Kept-same, Kept-trans}
use backbone_events.Lead.Round.{pending, pending-Kept, round-pending, count_where-le-length}
use backbone_events.Lead.Drain.Answers.{
  IsAccepting, HasShortReasons, short-IsAnswering, accepting-IsAnswering,
}
use backbone_events.Lead.Drain.Walk.{pending_of, AllDrained, RulesWalked, walk_rules-returns}

-- The rows of the event are answered: done exactly if the walk did not park, and free to be claimed.
abbrev pub IsReleased : ℕ → Bool → Db → Type 0
IsReleased event_id parked db =
    All
      (λ (q : LeadRequestRow).
        is_request_of event_id q ≡ true → (q.done ≡ not parked) × (q.claimed_at ≡ none))
      db.lead_requests

finish-IsReleased :
    (event_id : ℕ) (error : Option Text) (reqs : List LeadRequestRow)
    → All
        (λ (q : LeadRequestRow).
          is_request_of event_id q ≡ true → (q.done ≡ not (is_some error)) × (q.claimed_at ≡ none))
        (update_where (is_request_of event_id) (with_outcome error) reqs)
finish-IsReleased event_id error [] = tt
finish-IsReleased event_id error (q ∷ reqs) =
    (λ mine. ground arith, finish-IsReleased event_id error reqs)

finish-ok :
    (event_id : ℕ) (error : Option Text) (db : Db)
    → detail_fits error ≡ true
    → finish_request_by_event event_id error db
      ≡ ok (record db {
        lead_requests = update_where (is_request_of event_id) (with_outcome error) db.lead_requests;
      })
unfolding finish_request_by_event
finish-ok event_id error db fits =
    elim (Bool-cases (exists_where (is_request_of event_id) db.lead_requests)) [
      | inl present ↦ rw (present, fits) refl
      | inr absent ↦ rw absent refl
    ]

-- An outcome that fits its column is stored.
finish_walk-stored :
    (event_id : ℕ) (refusal : Option Text) (st : LeadState)
    → detail_fits refusal ≡ true
    → let out = finish_walk event_id refusal st in
      (out ≡ (ok (is_some refusal), out.1)) × IsReleased event_id (is_some refusal) out.1.db
finish_walk-stored event_id none st fits =
    rw (finish-ok event_id none st.db refl)
      (refl, finish-IsReleased event_id none st.db.lead_requests)
finish_walk-stored event_id (some reason) st fits =
    rw (finish-ok event_id (some reason) st.db fits)
      (refl, finish-IsReleased event_id (some reason) st.db.lead_requests)

-- The rule's domain does not depend on the queue.
pending-requests :
    (host : LeadHost) (event_id : ℕ) (db next : Db) (reqs : List LeadRequestRow)
    (rules : List LeadRuleRow)
    → All (λ rule. pending_of host event_id db next rule ≡ 0) rules
    → All
        (λ rule. pending_of host event_id db (record next { lead_requests = reqs }) rule ≡ 0)
        rules
unfolding pending is_lead_eligible
pending-requests host event_id db next reqs [] all = tt
pending-requests host event_id db next reqs (rule ∷ rules) all =
    (all.0, pending-requests host event_id db next reqs rules all.1)

finish_walk-pending :
    (host : LeadHost) (event_id : ℕ) (db : Db) (st : LeadState) (rules : List LeadRuleRow)
    → All (λ rule. pending_of host event_id db st.db rule ≡ 0) rules
    → All (λ rule. pending_of host event_id db (finish_walk event_id none st).1.db rule ≡ 0) rules
finish_walk-pending host event_id db st rules all =
    rw (finish-ok event_id none st.db refl) (pending-requests host event_id db st.db _ rules all)

-- With a sink whose refusals have at most 500 characters, the walk of an event's request returns and
-- succeeds, whatever the sink answers and whatever the batch size: fuel beyond the number of
-- registrations is enough. It leaves the event's row free to be claimed, and done exactly if it did
-- not park.
pub run_one-returns :
    (fuel : ℕ) (host : LeadHost) (event_id batch : ℕ) (st : LeadState)
    → length st.db.registrations < fuel
    → HasShortReasons host
    → (parked : Bool) × (st' : LeadState) × (run_one fuel host event_id batch st
        ≡ some (ok parked, st'))
      × IsReleased event_id parked st'.db
unfolding run_one
run_one-returns fuel host event_id batch st h short =
    let (out, returns, drained, answered) =
      walk_rules-returns (λ r. detail_fits r ≡ true) host event_id batch fuel
        (active_rules_of_event event_id st.db) st h in
    let (stored, released) =
      finish_walk-stored event_id out.0 out.1 (answered (short-IsAnswering host short)) in
    (
      is_some out.0,
      (finish_walk event_id out.0 out.1).1,
      ap (walk_done event_id) returns ∙ ap some stored,
      released,
    )

-- With a sink that accepts every group and a batch that is not empty, the walk of an event's request
-- completes it: it does not park, and no registration of the event is left that an active rule of
-- the event takes and has not been applied to. Fuel beyond the number of registrations is enough.
pub run_one-completes :
    (fuel : ℕ) (host : LeadHost) (event_id batch : ℕ) (st : LeadState)
    → length st.db.registrations < fuel
    → 0 < batch
    → IsAccepting host
    → (st' : LeadState) × (run_one fuel host event_id batch st ≡ some (ok false, st'))
      × All
          (λ rule. pending_of host event_id st.db st'.db rule ≡ 0)
          (active_rules_of_event event_id st.db)
      × IsReleased event_id false st'.db
unfolding run_one
run_one-completes fuel host event_id batch st h pos accepts =
    let rules = active_rules_of_event event_id st.db in
    let (out, returns, drained, answered) =
      walk_rules-returns (λ r. r ≡ none) host event_id batch fuel rules st h in
    let all_accepted = answered (accepting-IsAnswering host accepts) in
    let (stored, released) = finish_walk-stored event_id none out.1 refl in
    (
      (finish_walk event_id none out.1).1,
      ap (walk_done event_id) (returns ∙ ap (λ r. some (r, out.1)) all_accepted) ∙ ap some stored,
      finish_walk-pending host event_id st.db out.1 rules ((drained all_accepted).1 pos),
      released,
    )
