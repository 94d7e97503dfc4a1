-- ===== src/Lead/Examples.antt =====
-- The properties of the lead generation at concrete queues and rules.
use backbone_events.Base.{
  ℕ, ◌≡◌, refl, none, some, List, [], ◌∷◌, Bool, true, false, All, arith, ◌+◌,
}
use backbone_events.Base.Text.{codes}
use backbone_events.Store.{Db, LeadPredicateAxis, LeadBasis, ok}
use backbone_events.Samples.{hall, taken_seat}
use backbone_events.Lead.Queue.{member, claim_next_due_request}
use backbone_events.Lead.Queue.Lease.{
  cron_claim, officer_claim, release, call, calls, lease-excludes,
}
use backbone_events.Lead.Engine.{LeadHost, LeadGroup, SinkAnswer, minted, refused}
use backbone_events.Lead.Generate.{LeadState}
use backbone_events.Lead.Pass.{start, active_rules_of_event, run_one}
use backbone_events.Lead.Drain.{IsReleased, run_one-returns, run_one-completes}
use backbone_events.Lead.Drain.Answers.{IsAccepting, HasShortReasons}
use backbone_events.Lead.Drain.Walk.{pending_of}
use backbone_events.Lead.Commands.{CreateRuleInput, FromAnswerInput}
use backbone_events.Lead.Commands.Vocabulary.{
  RuleVerb, create_rule_of, patch_rule_of, bridge_of, relink_of, IsClosed, rule_verbs,
  rule_verbs-IsClosed,
}

-- The concert with one open registration, one rule on it, and its request due.
abbrev queued : Db
queued = record hall {
  registrations = taken_seat ∷ [];
  lead_rules =
      record {
        id = 31;
        name = codes "Concert goers";
        event_id = some 1;
        basis = LeadBasis.by_registration;
        on_create = true;
        on_confirm = false;
        on_done = false;
        active = true;
      }
      ∷ [];
  lead_predicates =
      record {
        id = 32;
        rule_id = 31;
        axis = LeadPredicateAxis.by_event;
        question_id = none;
        value_ids = 1 ∷ [];
      }
      ∷ [];
  lead_requests =
      record { event_id = 1; done = false; error_detail = none; claimed_at = none } ∷ [];
}

host_with : (ℕ → LeadGroup → SinkAnswer) → LeadHost
host_with create = record {
  create_lead = create;
  update_lead = λ n lead_id g. none;
  new_id = λ n. 100 + n;
  now = λ n. 1000;
  request_id = λ event_id. event_id;
  uuid_text = λ id. id ∷ [];
  day_text = λ time. codes "1970-01-01";
  org_unit = λ id. none;
}

abbrev refusing : LeadHost
unfolding host_with
refusing = host_with (λ n g. refused (codes "no adapter"))

abbrev accepting : LeadHost
unfolding host_with
accepting = host_with (λ n g. minted (500 + n))

queued-claimed : (call (λ e. e) 900 (cron_claim 1000 []) queued).0 ≡ some 1
unfolding call claim_next_due_request
queued-claimed = refl

lease-excludes_example :
    member 1 (
      calls
        (λ e. e)
        900
        (officer_claim 1500 1 ∷ release 2 none ∷ cron_claim 1900 [] ∷ [])
        (call (λ e. e) 900 (cron_claim 1000 []) queued).1)
    ≡ false
lease-excludes_example =
    lease-excludes (λ e. e) 900 (cron_claim 1000 [])
      (officer_claim 1500 1 ∷ release 2 none ∷ cron_claim 1900 [] ∷ []) queued {event_id = 1}
      (omega arith) queued-claimed (omega arith, (refl, (omega arith, tt)))

refusing-HasShortReasons : HasShortReasons refusing
unfolding host_with
refusing-HasShortReasons = record {
  creates = λ n g {reason} e. ground arith;
  updates = λ n lead_id g {reason} e. absurd (cc e);
}

run_one-returns_example :
    (parked : Bool) × (st' : LeadState) × (run_one 2 refusing 1 200 (start queued)
      ≡ some (ok parked, st'))
    × IsReleased 1 parked st'.db
run_one-returns_example =
    run_one-returns 2 refusing 1 200 (start queued) (omega arith) refusing-HasShortReasons

accepting-IsAccepting : IsAccepting accepting
unfolding host_with
accepting-IsAccepting = record { creates = λ n g. (500 + n, refl); updates = λ n lead_id g. refl }

run_one-completes_example :
    (st' : LeadState) × (run_one 2 accepting 1 1 (start queued) ≡ some (ok false, st'))
    × All (λ rule. pending_of accepting 1 queued st'.db rule ≡ 0) (active_rules_of_event 1 queued)
    × IsReleased 1 false st'.db
run_one-completes_example =
    run_one-completes 2 accepting 1 1 (start queued) (omega arith) (omega arith)
      accepting-IsAccepting

abbrev rule_input : List ℕ → CreateRuleInput
rule_input values = record {
  name = codes " VIP ";
  event_id = none;
  basis = none;
  on_create = none;
  on_confirm = some true;
  on_done = none;
  predicates = record { axis = codes "event_type"; question_id = none; value_ids = values } ∷ [];
}

abbrev answer_input : FromAnswerInput
answer_input = record {
  name = codes "Answered";
  event_id = some 1;
  on_create = some true;
  on_confirm = none;
  on_done = none;
  question_id = 7;
  answer_id = 8;
}

abbrev sent_verbs : List RuleVerb
sent_verbs =
    create_rule_of 61 (λ n. 70 + n) (rule_input (4 ∷ []))
    ∷ create_rule_of 62 (λ n. 80 + n) (rule_input [])
    ∷ bridge_of 63 (λ n. 90 + n) answer_input
    ∷ patch_rule_of 61 (record { name = some (codes "  "); event_id = none; active = some true })
    ∷ relink_of 500 501
    ∷ []

queued-IsClosed : IsClosed queued
queued-IsClosed = (((refl, refl), tt), ((omega arith, refl), tt))

rule_verbs-IsClosed_example : IsClosed (rule_verbs none sent_verbs queued)
rule_verbs-IsClosed_example = rule_verbs-IsClosed none sent_verbs queued queued-IsClosed
