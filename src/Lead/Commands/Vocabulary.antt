-- ===== src/Lead/Commands/Vocabulary.antt =====
-- The closed vocabulary over histories of the rule verbs (lead_command_service.rs).
use backbone_events.Base.{
  ℕ, ◌≤◌, ◌≡◌, refl, subst, Option, none, some, List, [], ◌∷◌, ◌++◌, Bool, true, false, ◌||◌, arith,
  is_some, map_option, not-false, length, All, update_where, update_where-All,
}
use backbone_events.Base.Text.{Text, codes, is_empty, trim}
use backbone_events.Store.{
  Db, LeadRuleRow, LeadPredicateRow, LeadPredicateAxis, Result, ok, err, ok_or, refuse_if,
  >>=-eq-ok, refuse_if-eq-ok, ok-injective,
}
use backbone_events.Lead.{
  PredicateInput, CreateRule, or_kept, new_rule, predicate_rows, create_rule, arm_scope, is_rule,
  find_rule, patched_rule, arm_if_activated, patch_rule, bridged_rule, bridge_answer_to_rule,
  relink_lead,
}
use backbone_events.Lead.Commands.{
  PredicateSpec, CreateRuleInput, PatchRuleInput, FromAnswerInput, parse_axis, is_question,
  no_values, check_question, validate_predicate, validate_predicates, no_name, no_trigger, no_specs,
  parse_basis, checked_rule, lacks_trigger, create_rule_verb, patch_rule_verb, from_answer,
  relink_verb, is_blank,
}

pub data RuleVerb : Type 0 where
  create_rule_of : (id : ℕ) → (new_id : ℕ → ℕ) → CreateRuleInput → RuleVerb
  patch_rule_of : (rule_id : ℕ) → PatchRuleInput → RuleVerb
  bridge_of : (id : ℕ) → (new_id : ℕ → ℕ) → FromAnswerInput → RuleVerb
  relink_of : (old_lead_id new_lead_id : ℕ) → RuleVerb

-- The database after the verb; a refused one leaves it.
abbrev pub or_same : Db → Result (LeadRuleRow × Db) → Db
or_same db (ok (row, next)) = next
or_same db (err e) = db

pub rule_verb : Option ℕ → RuleVerb → Db → Db
rule_verb actor (create_rule_of id new_id input) db =
    or_same db (create_rule_verb id new_id input actor db)
rule_verb actor (patch_rule_of rule_id input) db =
    or_same db (patch_rule_verb rule_id input actor db)
rule_verb actor (bridge_of id new_id input) db = or_same db (from_answer id new_id input actor db)
rule_verb actor (relink_of old new) db = (relink_verb old new actor db).1

pub rule_verbs : Option ℕ → List RuleVerb → Db → Db
unfolding rule_verb
rule_verbs actor [] db = db
rule_verbs actor (v ∷ verbs) db = rule_verbs actor verbs (rule_verb actor v db)

-- A predicate has values, and a question exactly on the question_answer axis.
abbrev pub IsTyped : LeadPredicateRow → Type 0
IsTyped p = (1 ≤ length p.value_ids) × (is_some p.question_id ≡ is_question p.axis)

-- A rule has a name and a trigger.
abbrev pub IsArmed : LeadRuleRow → Type 0
IsArmed r = (is_empty r.name ≡ false) × ((r.on_create || r.on_confirm || r.on_done) ≡ true)

abbrev pub IsClosed : Db → Type 0
IsClosed db = All IsArmed db.lead_rules × All IsTyped db.lead_predicates

abbrev IsTypedInput : PredicateInput → Type 0
IsTypedInput p = (1 ≤ length p.value_ids) × (is_some p.question_id ≡ is_question p.axis)

checked_question :
    (axis : LeadPredicateAxis) (question : Option ℕ) {u : Unit {0}}
    → check_question axis question ≡ ok u
    → is_some question ≡ is_question axis
checked_question LeadPredicateAxis.by_event none h = refl
checked_question LeadPredicateAxis.by_event (some q) h = cc h
checked_question LeadPredicateAxis.by_event_type none h = refl
checked_question LeadPredicateAxis.by_event_type (some q) h = cc h
checked_question LeadPredicateAxis.by_company none h = refl
checked_question LeadPredicateAxis.by_company (some q) h = cc h
checked_question LeadPredicateAxis.by_question_answer none h = cc h
checked_question LeadPredicateAxis.by_question_answer (some q) h = refl

some_values : (values : List ℕ) → no_values values ≡ false → 1 ≤ length values
some_values [] h = absurd (ground arith)
some_values (v ∷ values) h = omega arith

validate_predicate-IsTyped :
    (spec : PredicateSpec) {p : PredicateInput} → validate_predicate spec ≡ ok p → IsTypedInput p
unfolding validate_predicate
validate_predicate-IsTyped spec {p} h =
    let (axis, parsed, valued) = >>=-eq-ok (ok_or (parse_axis spec.axis) _) _ h in
    let (u, filled, asked) = >>=-eq-ok (refuse_if (no_values spec.value_ids) _) _ valued in
    let (v, question, same) = >>=-eq-ok (check_question axis spec.question_id) _ asked in
    subst IsTypedInput (ok-injective same) (
      some_values spec.value_ids (refuse_if-eq-ok _ _ filled),
      checked_question axis spec.question_id question,
    )

validate_predicates-IsTyped :
    (specs : List PredicateSpec) {ps : List PredicateInput}
    → validate_predicates specs ≡ ok ps
    → All IsTypedInput ps
unfolding validate_predicates
validate_predicates-IsTyped [] {ps} h = subst (All IsTypedInput) (ok-injective h) tt
validate_predicates-IsTyped (spec ∷ specs) {ps} h =
    let (p, one, more) = >>=-eq-ok (validate_predicate spec) _ h in
    let (rest, others, same) = >>=-eq-ok (validate_predicates specs) _ more in
    subst (All IsTypedInput) (ok-injective same)
      (validate_predicate-IsTyped spec one, validate_predicates-IsTyped specs others)

stored-IsTyped :
    (new_id : ℕ → ℕ) (id : ℕ) (ps : List PredicateInput) (rows : List LeadPredicateRow)
    → All IsTypedInput ps
    → All IsTyped rows
    → All IsTyped (predicate_rows new_id id ps ++ rows)
stored-IsTyped new_id id [] rows typed all = all
stored-IsTyped new_id id (p ∷ ps) rows typed all =
    (typed.0, stored-IsTyped new_id id ps rows typed.1 all)

-- What the repository stores for a checked rule.
create_rule-IsClosed :
    (id : ℕ) (new_id : ℕ → ℕ) (input : CreateRule) (db : Db)
    → IsArmed (new_rule id input)
    → All IsTypedInput input.predicates
    → IsClosed db
    → IsClosed (create_rule id new_id input db).1
unfolding create_rule arm_scope
create_rule-IsClosed id new_id input db armed typed (rules, predicates) =
    ((armed, rules), stored-IsTyped new_id id input.predicates db.lead_predicates typed predicates)

create_rule_verb-IsClosed :
    (id : ℕ) (new_id : ℕ → ℕ) (input : CreateRuleInput) (actor : Option ℕ) (db : Db)
    {out : LeadRuleRow × Db}
    → create_rule_verb id new_id input actor db ≡ ok out
    → IsClosed db
    → IsClosed out.1
unfolding create_rule_verb
create_rule_verb-IsClosed id new_id input actor db {out} h closed =
    let lacking = lacks_trigger input.on_create input.on_confirm input.on_done in
    let (u, named, after_name) = >>=-eq-ok (refuse_if (is_empty (trim input.name)) no_name) _ h in
    let (v, some_specs, after_specs) =
      >>=-eq-ok (refuse_if (no_specs input.predicates) _) _ after_name in
    let (w, triggered, after_trigger) = >>=-eq-ok (refuse_if lacking no_trigger) _ after_specs in
    let (basis, based, after_basis) =
      >>=-eq-ok (ok_or (parse_basis (or_kept input.basis (codes "registration"))) _) _
        after_trigger in
    let (ps, typed, same) = >>=-eq-ok (validate_predicates input.predicates) _ after_basis in
    subst (λ (o : LeadRuleRow × Db). IsClosed o.1) (ok-injective same)
      (create_rule-IsClosed id new_id (checked_rule input basis ps actor) db
        (refuse_if-eq-ok _ no_name named, not-false (refuse_if-eq-ok lacking no_trigger triggered))
        (validate_predicates-IsTyped input.predicates typed) closed)

from_answer-IsClosed :
    (id : ℕ) (new_id : ℕ → ℕ) (input : FromAnswerInput) (actor : Option ℕ) (db : Db)
    {out : LeadRuleRow × Db}
    → from_answer id new_id input actor db ≡ ok out
    → IsClosed db
    → IsClosed out.1
unfolding from_answer bridge_answer_to_rule
from_answer-IsClosed id new_id input actor db {out} h closed =
    let lacking = lacks_trigger input.on_create input.on_confirm input.on_done in
    let (u, named, after_name) = >>=-eq-ok (refuse_if (is_empty (trim input.name)) no_name) _ h in
    let (w, triggered, same) = >>=-eq-ok (refuse_if lacking no_trigger) _ after_name in
    let rule =
      bridged_rule (trim input.name) input.event_id (or_kept input.on_create false)
        (or_kept input.on_confirm false) (or_kept input.on_done false) input.question_id
        input.answer_id actor in
    subst (λ (o : LeadRuleRow × Db). IsClosed o.1) (ok-injective same)
      (create_rule-IsClosed id new_id rule db
        (refuse_if-eq-ok _ no_name named, not-false (refuse_if-eq-ok lacking no_trigger triggered))
        ((omega arith, refl), tt) closed)

patched-IsArmed :
    (name : Option Text) (event_id : Option ℕ) (active : Option Bool) (r : LeadRuleRow)
    → is_blank name ≡ false
    → IsArmed r
    → IsArmed (patched_rule (map_option trim name) event_id active r)
patched-IsArmed none event_id active r named armed = armed
patched-IsArmed (some name) event_id active r named armed = (named, armed.1)

armed_scope-same :
    (active : Option Bool) (scope : Option ℕ) (db : Db)
    → IsClosed db
    → IsClosed (arm_if_activated active scope db)
unfolding arm_scope
armed_scope-same none scope db closed = closed
armed_scope-same (some false) scope db closed = closed
armed_scope-same (some true) scope db closed = closed

patch_rule_verb-IsClosed :
    (id : ℕ) (input : PatchRuleInput) (actor : Option ℕ) (db : Db) {out : LeadRuleRow × Db}
    → patch_rule_verb id input actor db ≡ ok out
    → IsClosed db
    → IsClosed out.1
unfolding patch_rule_verb patch_rule
patch_rule_verb-IsClosed id input actor db {out} h (rules, predicates) =
    let (u, named, after_name) = >>=-eq-ok (refuse_if (is_blank input.name) no_name) _ h in
    let (stored, found, same) = >>=-eq-ok (find_rule id db) _ after_name in
    let patch_of = patched_rule (map_option trim input.name) input.event_id input.active in
    let next : Db = record db { lead_rules = update_where (is_rule id) patch_of db.lead_rules } in
    subst (λ (o : LeadRuleRow × Db). IsClosed o.1) (ok-injective same)
      (armed_scope-same input.active (patch_of stored).event_id next (
        update_where-All IsArmed (is_rule id) patch_of
            (λ r armed hit.
              patched-IsArmed input.name input.event_id input.active r
                (refuse_if-eq-ok _ no_name named) armed)
            db.lead_rules rules,
        predicates,
      ))

or_same-IsClosed :
    (db : Db) (r : Result (LeadRuleRow × Db))
    → IsClosed db
    → ((out : LeadRuleRow × Db) → r ≡ ok out → IsClosed out.1)
    → IsClosed (or_same db r)
or_same-IsClosed db (ok out) closed keep = keep out refl
or_same-IsClosed db (err e) closed keep = closed

relink-IsClosed :
    (actor : Option ℕ) (old new : ℕ) (db : Db)
    → IsClosed db
    → IsClosed (relink_verb old new actor db).1
unfolding relink_verb relink_lead
relink-IsClosed actor old new db closed = ground (arith, closed)

rule_verb-IsClosed :
    (actor : Option ℕ) (v : RuleVerb) (db : Db) → IsClosed db → IsClosed (rule_verb actor v db)
unfolding rule_verb
rule_verb-IsClosed actor (create_rule_of id new_id input) db closed =
    or_same-IsClosed db _ closed
      (λ out h. create_rule_verb-IsClosed id new_id input actor db h closed)
rule_verb-IsClosed actor (patch_rule_of rule_id input) db closed =
    or_same-IsClosed db _ closed (λ out h. patch_rule_verb-IsClosed rule_id input actor db h closed)
rule_verb-IsClosed actor (bridge_of id new_id input) db closed =
    or_same-IsClosed db _ closed (λ out h. from_answer-IsClosed id new_id input actor db h closed)
rule_verb-IsClosed actor (relink_of old new) db closed = relink-IsClosed actor old new db closed

-- Whatever create, patch, bridge and relink verbs are sent, in any order and with any input: every
-- stored rule has a name and at least one trigger, and every stored predicate has values and carries
-- a question exactly on the question_answer axis.
pub rule_verbs-IsClosed :
    (actor : Option ℕ) (verbs : List RuleVerb) (db : Db)
    → IsClosed db
    → IsClosed (rule_verbs actor verbs db)
unfolding rule_verbs
rule_verbs-IsClosed actor [] db closed = closed
rule_verbs-IsClosed actor (v ∷ verbs) db closed =
    rule_verbs-IsClosed actor verbs (rule_verb actor v db) (rule_verb-IsClosed actor v db closed)
