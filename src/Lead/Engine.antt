-- ===== src/Lead/Engine.antt =====
-- The generation engine: the eligible rows and the provenance of lead_command_repository.rs, and
-- `generate_groups` of application/service/lead_generation_service.rs over the port of lead_sink.rs.
use backbone_events.Base.{
  ℕ, ◌+◌, Option, none, some, List, [], ◌∷◌, map, Bool, true, false, not, ◌&&◌, ◌==◌, leb, is_value,
  if◌then◌else◌, take, find_where, select_where, exists_where, update_where, sort_by,
}
use backbone_events.Base.Text.{Text, text_eq}
use backbone_events.Store.{
  Db, EventRow, RegistrationRow, RegistrationState, AnswerRow, LeadPredicateRow, LeadPredicateAxis,
  LeadProvenanceRow, LeadMemberRow, LeadGrouping,
}
use backbone_events.Lead.Queue.{member}

-- One eligible registration as the engine reads it.
pub record EligibleRegistration : Type 0 where
  pub id : ℕ
  pub name : Option Text
  pub email : Option Text
  pub phone : Option Text
  pub company_name : Option Text
  pub partner_id : Option ℕ
  pub sale_order_id : Option ℕ
  pub created_at : Option ℕ

-- One registration as the sink sees it.
pub record LeadRegistrationView : Type 0 where
  pub id : ℕ
  pub name : Option Text
  pub email : Option Text
  pub phone : Option Text
  pub company_name : Option Text
  pub partner_id : Option ℕ
  pub sale_order_id : Option ℕ

pub record LeadGroup : Type 0 where
  pub rule_id : ℕ
  pub event_id : ℕ
  pub group_key : Text
  pub grouping : LeadGrouping
  pub registrations : List LeadRegistrationView

pub data SinkAnswer : Type 0 where
  minted : (lead_id : ℕ) → SinkAnswer
  refused : (reason : Text) → SinkAnswer

-- What other code answers, by the number of the call: the sink, the ids and clock of the database,
-- and the texts of uuids and of days. `org_unit` is the column that the composing host installs.
pub record LeadHost : Type 0 where
  pub create_lead : ℕ → LeadGroup → SinkAnswer
  pub update_lead : ℕ → ℕ → LeadGroup → Option Text
  pub new_id : ℕ → ℕ
  pub now : ℕ → ℕ
  pub request_id : ℕ → ℕ
  pub uuid_text : ℕ → Text
  pub day_text : ℕ → Text
  pub org_unit : ℕ → Option ℕ

abbrev pub is_member : Option ℕ → List ℕ → Bool
is_member none values = false
is_member (some a) values = member a values

-- A predicate on a registration, as the composed SQL clause of its axis.
abbrev pub predicate_holds :
    (ℕ → Option ℕ)
    → List EventRow
    → List AnswerRow
    → LeadPredicateRow
    → LeadPredicateAxis
    → RegistrationRow
    → Bool
predicate_holds org_unit events answers p LeadPredicateAxis.by_event r =
    member r.event_id p.value_ids
predicate_holds org_unit events answers p LeadPredicateAxis.by_event_type r =
    exists_where (λ (e : EventRow). (e.id == r.event_id) && is_member e.event_type_id p.value_ids)
      events
predicate_holds org_unit events answers p LeadPredicateAxis.by_company r =
    is_member (org_unit r.id) p.value_ids
predicate_holds org_unit events answers p LeadPredicateAxis.by_question_answer r =
    exists_where
      (λ (a : AnswerRow).
        (a.registration_id == r.id)
        && is_value a.question_id p.question_id
        && is_member a.value_answer_id p.value_ids)
      answers

abbrev pub all_predicates :
    (ℕ → Option ℕ) → List EventRow → List AnswerRow → List LeadPredicateRow → RegistrationRow → Bool
all_predicates org_unit events answers [] r = true
all_predicates org_unit events answers (p ∷ ps) r =
    predicate_holds org_unit events answers p p.axis r
    && all_predicates org_unit events answers ps r

-- state IN ('open', 'done')
abbrev pub is_taken : RegistrationState → Bool
is_taken RegistrationState.draft = false
is_taken RegistrationState.opened = true
is_taken RegistrationState.done = true
is_taken RegistrationState.cancel = false

abbrev pub owns : ℕ → List LeadProvenanceRow → ℕ → Bool
owns rule_id provenances id =
    exists_where (λ (p : LeadProvenanceRow). (p.id == id) && (p.rule_id == rule_id)) provenances

-- A junction row ties the registration to a provenance of the rule.
abbrev pub is_provenanced : ℕ → List LeadProvenanceRow → List LeadMemberRow → ℕ → Bool
is_provenanced rule_id provenances members id =
    exists_where
      (λ (j : LeadMemberRow). (j.registration_id == id) && owns rule_id provenances j.provenance_id)
      members

unfoldable pub is_lead_eligible :
    LeadHost → ℕ → ℕ → List LeadPredicateRow → Db → RegistrationRow → Bool
is_lead_eligible host event_id rule_id predicates db r =
    (r.event_id == event_id)
    && is_taken r.state
    && r.active
    && not (is_provenanced rule_id db.lead_provenances db.lead_members r.id)
    && all_predicates host.org_unit db.events db.answers predicates r

abbrev pub eligible_of : RegistrationRow → EligibleRegistration
eligible_of r = record {
  id = r.id;
  name = some r.name;
  email = some r.email;
  phone = r.phone;
  company_name = r.company_name;
  partner_id = r.partner_id;
  sale_order_id = r.sale_order_id;
  created_at = some r.created_at;
}

abbrev pub id_before : RegistrationRow → RegistrationRow → Bool
id_before r s = leb r.id s.id

unfoldable pub eligible_registrations :
    LeadHost → ℕ → ℕ → List LeadPredicateRow → ℕ → Db → List EligibleRegistration
unfolding is_lead_eligible
eligible_registrations host event_id rule_id predicates batch db = map eligible_of (
    take batch (
      sort_by id_before
        (select_where (is_lead_eligible host event_id rule_id predicates db) db.registrations)))

abbrev pub is_group : ℕ → Text → LeadProvenanceRow → Bool
is_group rule_id group_key p = (p.rule_id == rule_id) && text_eq p.group_key group_key

-- ON CONFLICT (rule_id, group_key) the stored row answers, unchanged.
abbrev pub provenance_answer : Option LeadProvenanceRow → LeadProvenanceRow → Db → ℕ × Option ℕ × Db
provenance_answer (some p) new db = (p.id, p.lead_id, db)
provenance_answer none new db =
    (new.id, none, record db { lead_provenances = new ∷ db.lead_provenances })

unfoldable pub upsert_provenance : ℕ → ℕ → ℕ → Text → LeadGrouping → Db → ℕ × Option ℕ × Db
upsert_provenance id rule_id event_id group_key grouping db =
    provenance_answer (find_where (is_group rule_id group_key) db.lead_provenances)
      (record {
        id = id;
        rule_id = rule_id;
        event_id = event_id;
        group_key = group_key;
        grouping = grouping;
        lead_id = none;
      })
      db

abbrev pub is_junction : ℕ → ℕ → LeadMemberRow → Bool
is_junction provenance_id registration_id j =
    (j.provenance_id == provenance_id) && (j.registration_id == registration_id)

unfoldable pub group_members : ℕ → Db → List EligibleRegistration
group_members provenance_id db = map eligible_of (
    sort_by id_before (
      select_where
        (λ (r : RegistrationRow). exists_where (is_junction provenance_id r.id) db.lead_members)
        db.registrations))

unfoldable pub set_provenance_lead : ℕ → ℕ → Db → Db
set_provenance_lead provenance_id lead_id db = record db {
  lead_provenances =
      update_where (λ (p : LeadProvenanceRow). p.id == provenance_id)
        (λ p. record p { lead_id = some lead_id }) db.lead_provenances;
}

-- ON CONFLICT (provenance_id, registration_id) DO NOTHING, and the number of rows that were new.
abbrev pub junction_rows : ℕ → List ℕ → List LeadMemberRow → ℕ × List LeadMemberRow
junction_rows provenance_id [] members = (0, members)
junction_rows provenance_id (id ∷ ids) members =
    let known = exists_where (is_junction provenance_id id) members in
    let stored =
      if known
      then members
      else record { provenance_id = provenance_id; registration_id = id } ∷ members in
    let (new, out) = junction_rows provenance_id ids stored in ((if known then 0 else 1) + new, out)

unfoldable pub junction_add : ℕ → List ℕ → Db → ℕ × Db
junction_add provenance_id ids db =
    let (new, members) = junction_rows provenance_id ids db.lead_members in
    (new, record db { lead_members = members })

abbrev pub view_of : EligibleRegistration → LeadRegistrationView
view_of m = record {
  id = m.id;
  name = m.name;
  email = m.email;
  phone = m.phone;
  company_name = m.company_name;
  partner_id = m.partner_id;
  sale_order_id = m.sale_order_id;
}
