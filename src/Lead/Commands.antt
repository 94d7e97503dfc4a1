-- ===== src/Lead/Commands.antt =====
-- The rule verbs of application/service/lead_command_service.rs: what they check before the
-- repository is called.
pub mod Vocabulary
use backbone_events.Base.{
  ℕ, Option, none, some, List, [], ◌∷◌, Bool, true, false, not, ◌||◌, ◌==◌, if◌then◌else◌, is_some,
  map_option,
}
use backbone_events.Base.Text.{Text, codes, text_eq, is_empty, trim}
use backbone_events.Store.{
  Db, LeadRuleRow, LeadBasis, LeadPredicateAxis, Result, ok, err, EventError, ok_or, refuse_if,
  ◌>>=◌, ◌>>◌,
}
use backbone_events.Lead.{
  PredicateInput, CreateRule, or_kept, create_rule, patch_rule, bridge_answer_to_rule, relink_lead,
}

-- One predicate as it crosses the wire.
pub record PredicateSpec : Type 0 where
  pub axis : Text
  pub question_id : Option ℕ
  pub value_ids : List ℕ

pub record CreateRuleInput : Type 0 where
  pub name : Text
  pub event_id : Option ℕ
  pub basis : Option Text
  pub on_create : Option Bool
  pub on_confirm : Option Bool
  pub on_done : Option Bool
  pub predicates : List PredicateSpec

pub record PatchRuleInput : Type 0 where
  pub name : Option Text
  pub event_id : Option ℕ
  pub active : Option Bool

pub record FromAnswerInput : Type 0 where
  pub name : Text
  pub event_id : Option ℕ
  pub on_create : Option Bool
  pub on_confirm : Option Bool
  pub on_done : Option Bool
  pub question_id : ℕ
  pub answer_id : ℕ

-- PREDICATE_AXES, with the enum value that the repository's cast makes of each.
abbrev pub parse_axis : Text → Option LeadPredicateAxis
parse_axis axis =
    if text_eq axis (codes "event")
    then some LeadPredicateAxis.by_event
    else if text_eq axis (codes "event_type")
    then some LeadPredicateAxis.by_event_type
    else if text_eq axis (codes "company")
    then some LeadPredicateAxis.by_company
    else if text_eq axis (codes "question_answer")
    then some LeadPredicateAxis.by_question_answer
    else none

abbrev pub is_question : LeadPredicateAxis → Bool
is_question LeadPredicateAxis.by_event = false
is_question LeadPredicateAxis.by_event_type = false
is_question LeadPredicateAxis.by_company = false
is_question LeadPredicateAxis.by_question_answer = true

abbrev pub no_values : List ℕ → Bool
no_values [] = true
no_values (v ∷ values) = false

-- Only the question_answer axis carries a question, and it must.
abbrev pub check_question : LeadPredicateAxis → Option ℕ → Result (Unit {0})
check_question axis question_id =
    if is_question axis
    then refuse_if (not (is_some question_id))
        (EventError.validation "the question_answer axis requires question_id (refused)")
    else refuse_if (is_some question_id)
        (EventError.validation "the axis carries no question_id (refused)")

unfoldable pub validate_predicate : PredicateSpec → Result PredicateInput
validate_predicate spec =
    ok_or (parse_axis spec.axis)
      (EventError.validation "predicate axis is outside the closed vocabulary")
    >>= λ axis.
        refuse_if (no_values spec.value_ids)
          (EventError.validation "predicate axis carries no values")
        >> (check_question axis spec.question_id
            >> ok (record {
              axis = axis;
              question_id = spec.question_id;
              value_ids = spec.value_ids;
            }))

unfoldable pub validate_predicates : List PredicateSpec → Result (List PredicateInput)
unfolding validate_predicate
validate_predicates [] = ok []
validate_predicates (spec ∷ specs) =
    validate_predicate spec >>= λ input. validate_predicates specs >>= λ inputs. ok (input ∷ inputs)

abbrev pub no_specs : List PredicateSpec → Bool
no_specs [] = true
no_specs (s ∷ specs) = false

abbrev pub no_name : EventError
no_name = EventError.validation "rule name must not be empty"

abbrev pub no_trigger : EventError
no_trigger =
    EventError.validation "at least one trigger (on_create / on_confirm / on_done) must be armed"

-- A trigger that is absent is not armed.
abbrev pub lacks_trigger : (on_create on_confirm on_done : Option Bool) → Bool
lacks_trigger on_create on_confirm on_done =
    not (or_kept on_create false || or_kept on_confirm false || or_kept on_done false)

-- basis: 'registration' unless it is given, and then one of two.
abbrev pub parse_basis : Text → Option LeadBasis
parse_basis basis =
    if text_eq basis (codes "registration")
    then some LeadBasis.by_registration
    else if text_eq basis (codes "attendee")
    then some LeadBasis.by_attendee
    else none

abbrev pub checked_rule : CreateRuleInput → LeadBasis → List PredicateInput → Option ℕ → CreateRule
checked_rule input basis predicates actor = record {
  name = trim input.name;
  event_id = input.event_id;
  basis = basis;
  on_create = or_kept input.on_create false;
  on_confirm = or_kept input.on_confirm false;
  on_done = or_kept input.on_done false;
  predicates = predicates;
  actor = actor;
}

unfoldable pub create_rule_verb :
    ℕ → (ℕ → ℕ) → CreateRuleInput → Option ℕ → Db → Result (LeadRuleRow × Db)
unfolding validate_predicates create_rule
create_rule_verb id new_id input actor db =
    refuse_if (is_empty (trim input.name)) no_name
    >> (refuse_if (no_specs input.predicates) (
          EventError.validation
            "a rule carries at least one predicate — an unconstrained rule is refused")
        >> (refuse_if (lacks_trigger input.on_create input.on_confirm input.on_done) no_trigger
            >> (ok_or (parse_basis (or_kept input.basis (codes "registration")))
                  (EventError.validation "basis must be registration or attendee")
                >>= λ basis. validate_predicates input.predicates >>= λ predicates.
                    ok (create_rule id new_id (checked_rule input basis predicates actor) db))))

abbrev pub is_blank : Option Text → Bool
is_blank none = false
is_blank (some name) = is_empty (trim name)

unfoldable pub patch_rule_verb : ℕ → PatchRuleInput → Option ℕ → Db → Result (LeadRuleRow × Db)
unfolding patch_rule
patch_rule_verb rule_id input actor db =
    refuse_if (is_blank input.name) no_name
    >> patch_rule rule_id (map_option trim input.name) input.event_id input.active actor db

unfoldable pub from_answer :
    ℕ → (ℕ → ℕ) → FromAnswerInput → Option ℕ → Db → Result (LeadRuleRow × Db)
unfolding bridge_answer_to_rule
from_answer id new_id input actor db =
    refuse_if (is_empty (trim input.name)) no_name
    >> (refuse_if (lacks_trigger input.on_create input.on_confirm input.on_done) no_trigger
        >> ok (
            bridge_answer_to_rule id new_id (trim input.name) input.event_id
              (or_kept input.on_create false) (or_kept input.on_confirm false)
              (or_kept input.on_done false) input.question_id input.answer_id actor db))

-- Two leads that are one already are left alone.
unfoldable pub relink_verb : (old_lead_id new_lead_id : ℕ) → Option ℕ → Db → ℕ × Db
unfolding relink_lead
relink_verb old_lead_id new_lead_id actor db =
    if old_lead_id == new_lead_id then (0, db) else relink_lead old_lead_id new_lead_id actor db
