-- ===== src/Lead.antt =====
-- Lead generation: the rule verbs of infrastructure/persistence/lead_command_repository.rs.
pub mod Queue
pub mod Engine
pub mod Generate
pub mod Pass
pub mod Provenance
pub mod Round
pub mod Drain
pub mod Commands
mod Examples
use backbone_events.Base.{
  ℕ, Option, none, some, List, [], ◌∷◌, Bool, true, false, not, ◌++◌, ◌&&◌, ◌==◌, leb, is_value,
  if◌then◌else◌, length, take, find_where, select_where, update_where, count_where, sort_by,
  coalesce,
}
use backbone_events.Base.Text.{Text, text_eq, text_leb}
use backbone_events.Store.{
  Db, record_audit, AuditEvent, EventRow, LeadRuleRow, LeadPredicateRow, LeadRequestRow,
  LeadProvenanceRow, LeadBasis, LeadPredicateAxis, Result, ok, EventError, ok_or, ◌>>=◌,
}
use backbone_events.Seat.{rule_of_event, upsert_request}

-- One typed predicate of a rule to be.
pub record PredicateInput : Type 0 where
  pub axis : LeadPredicateAxis
  pub question_id : Option ℕ
  pub value_ids : List ℕ

-- INSERT .. SELECT e.id FROM event.events e WHERE $1 IS NULL OR e.id = $1 ON CONFLICT ..
abbrev pub arm_events : Option ℕ → List EventRow → List LeadRequestRow → List LeadRequestRow
arm_events scope [] reqs = reqs
arm_events scope (e ∷ events) reqs =
    arm_events scope events (if rule_of_event e.id scope then upsert_request e.id reqs else reqs)

unfoldable pub arm_scope : Option ℕ → Db → Db
arm_scope scope db = record db { lead_requests = arm_events scope db.events db.lead_requests }

-- The predicate rows of a rule, with the ids that `new_id` draws.
abbrev pub predicate_rows : (ℕ → ℕ) → ℕ → List PredicateInput → List LeadPredicateRow
predicate_rows new_id rule_id [] = []
predicate_rows new_id rule_id (p ∷ inputs) =
    record {
      id = new_id (length inputs);
      rule_id = rule_id;
      axis = p.axis;
      question_id = p.question_id;
      value_ids = p.value_ids;
    }
    ∷ predicate_rows new_id rule_id inputs

pub record CreateRule : Type 0 where
  pub name : Text
  pub event_id : Option ℕ
  pub basis : LeadBasis
  pub on_create : Bool
  pub on_confirm : Bool
  pub on_done : Bool
  pub predicates : List PredicateInput
  pub actor : Option ℕ

abbrev pub new_rule : ℕ → CreateRule → LeadRuleRow
new_rule id input = record {
  id = id;
  name = input.name;
  event_id = input.event_id;
  basis = input.basis;
  on_create = input.on_create;
  on_confirm = input.on_confirm;
  on_done = input.on_done;
  active = true;
}

-- The rule, its predicates and the armed queue in one transaction.
unfoldable pub create_rule : ℕ → (ℕ → ℕ) → CreateRule → Db → LeadRuleRow × Db
unfolding arm_scope
create_rule id new_id input db =
    let stored : Db = record db {
      lead_rules = new_rule id input ∷ db.lead_rules;
      lead_predicates = predicate_rows new_id id input.predicates ++ db.lead_predicates;
    } in
    (
      new_rule id input,
      record_audit input.actor (AuditEvent.lead_rule_created id) (arm_scope input.event_id stored),
    )

-- COALESCE($n, column) on a column that is not null.
abbrev pub or_kept {ℓ} : {A : Type ℓ} → Option A → A → A
or_kept none kept = kept
or_kept (some given) kept = given

abbrev pub is_rule : ℕ → LeadRuleRow → Bool
is_rule id r = r.id == id

unfoldable pub find_rule : ℕ → Db → Result LeadRuleRow
find_rule id db = ok_or (find_where (is_rule id) db.lead_rules) (EventError.lead_rule_not_found id)

abbrev pub patched_rule : Option Text → Option ℕ → Option Bool → LeadRuleRow → LeadRuleRow
patched_rule name event_id active r = record r {
  name = or_kept name r.name;
  event_id = coalesce event_id r.event_id;
  active = or_kept active r.active;
}

-- Only a patch that activates the rule arms its scope.
abbrev pub arm_if_activated : Option Bool → Option ℕ → Db → Db
arm_if_activated (some true) scope db = arm_scope scope db
arm_if_activated (some false) scope db = db
arm_if_activated none scope db = db

unfoldable pub patch_rule :
    ℕ → Option Text → Option ℕ → Option Bool → Option ℕ → Db → Result (LeadRuleRow × Db)
unfolding find_rule
patch_rule id name event_id active actor db = find_rule id db >>= λ stored.
    let row = patched_rule name event_id active stored in
    let next : Db = record db {
      lead_rules = update_where (is_rule id) (patched_rule name event_id active) db.lead_rules;
    } in
    ok (
      row,
      record_audit actor (AuditEvent.lead_rule_updated id)
          (arm_if_activated active row.event_id next),
    )

-- ORDER BY name, id
abbrev pub rule_before : LeadRuleRow → LeadRuleRow → Bool
rule_before r s = if text_eq r.name s.name then leb r.id s.id else text_leb r.name s.name

unfoldable pub list_rules : ℕ → Db → List LeadRuleRow
list_rules limit db = take limit (sort_by rule_before db.lead_rules)

unfoldable pub predicates_of_rule : ℕ → Db → List LeadPredicateRow
predicates_of_rule id db =
    sort_by (λ (p q : LeadPredicateRow). leb p.id q.id)
      (select_where (λ (p : LeadPredicateRow). p.rule_id == id) db.lead_predicates)

-- One rule whose one predicate is an answer to a question.
abbrev pub bridged_rule :
    Text
    → Option ℕ
    → (on_create on_confirm on_done : Bool) → (question_id answer_id : ℕ) → Option ℕ
    → CreateRule
bridged_rule name event_id on_create on_confirm on_done question_id answer_id actor = record {
  name = name;
  event_id = event_id;
  basis = LeadBasis.by_registration;
  on_create = on_create;
  on_confirm = on_confirm;
  on_done = on_done;
  predicates =
      record {
        axis = LeadPredicateAxis.by_question_answer;
        question_id = some question_id;
        value_ids = answer_id ∷ [];
      }
      ∷ [];
  actor = actor;
}

unfoldable pub bridge_answer_to_rule :
    ℕ
    → (ℕ → ℕ)
    → Text
    → Option ℕ
    → (on_create on_confirm on_done : Bool) → (question_id answer_id : ℕ) → Option ℕ
    → Db
    → LeadRuleRow × Db
unfolding create_rule
bridge_answer_to_rule id new_id name event_id on_create on_confirm on_done question_id answer_id
      actor db =
    create_rule id new_id
      (bridged_rule name event_id on_create on_confirm on_done question_id answer_id actor) db

-- The merge of two leads: the provenances of the absorbed one move to the survivor.
unfoldable pub relink_lead : (old_lead_id new_lead_id : ℕ) → Option ℕ → Db → ℕ × Db
relink_lead old_lead_id new_lead_id actor db =
    let moves = λ (p : LeadProvenanceRow).
      is_value old_lead_id p.lead_id && not (old_lead_id == new_lead_id) in
    let moved = count_where moves db.lead_provenances in
    let next : Db = record db {
      lead_provenances =
          update_where moves (λ p. record p { lead_id = some new_lead_id }) db.lead_provenances;
    } in
    (moved, record_audit actor (AuditEvent.lead_relinked new_lead_id moved) next)
