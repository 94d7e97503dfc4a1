-- ===== src/Lead/Generate.antt =====
-- `generate_groups` of application/service/lead_generation_service.rs: the batch is grouped, and each
-- group goes to the sink before its junction rows are written.
use backbone_events.Base.{
  ℕ, ◌+◌, Option, none, some, List, [], ◌∷◌, ◌++◌, map, Bool, true, false, ◌&&◌, ◌||◌, ◌==◌,
  if◌then◌else◌, exists_where,
}
use backbone_events.Base.Text.{Text, codes, text_eq, text_leb}
use backbone_events.Store.{Db, LeadGrouping}
use backbone_events.Lead.Engine.{
  EligibleRegistration, LeadRegistrationView, LeadGroup, SinkAnswer, minted, refused, LeadHost,
  upsert_provenance, group_members, set_provenance_lead, junction_add, view_of,
}

-- What one pass did.
pub record LeadRunSummary : Type 0 where
  pub requests_claimed : ℕ
  pub rules_evaluated : ℕ
  pub registrations_matched : ℕ
  pub groups_created : ℕ
  pub groups_grown : ℕ
  pub leads_created : ℕ
  pub leads_updated : ℕ
  pub requests_completed : ℕ
  pub requests_parked : ℕ

-- The database and the summary, and how often other code has been called.
pub record LeadState : Type 0 where
  pub db : Db
  pub calls : ℕ
  pub summary : LeadRunSummary

pub record Group : Type 0 where
  pub grouping : LeadGrouping
  pub group_key : Text
  pub members : List EligibleRegistration

abbrev pub day_of : LeadHost → Option ℕ → Text
day_of host none = codes "unknown-day"
day_of host (some created_at) = host.day_text created_at

-- A sale-linked registration goes by its order, a walk-in by the event and its day.
abbrev pub group_of_sale : LeadHost → ℕ → Option ℕ → EligibleRegistration → Group
group_of_sale host event_id (some order_id) r = record {
  grouping = LeadGrouping.per_order;
  group_key = host.uuid_text order_id;
  members = r ∷ [];
}
group_of_sale host event_id none r = record {
  grouping = LeadGrouping.per_event_day;
  group_key = host.uuid_text event_id ++ (b':' ∷ day_of host r.created_at);
  members = r ∷ [];
}

abbrev pub group_of : LeadHost → ℕ → EligibleRegistration → Group
group_of host event_id r = group_of_sale host event_id r.sale_order_id r

abbrev pub same_grouping : LeadGrouping → LeadGrouping → Bool
same_grouping LeadGrouping.per_order LeadGrouping.per_order = true
same_grouping LeadGrouping.per_event_day LeadGrouping.per_event_day = true
same_grouping _ _ = false

-- "per_event_day" stands before "per_order".
abbrev pub grouping_before : LeadGrouping → LeadGrouping → Bool
grouping_before LeadGrouping.per_event_day LeadGrouping.per_order = true
grouping_before _ _ = false

abbrev pub same_group : Group → Group → Bool
same_group g h = same_grouping g.grouping h.grouping && text_eq g.group_key h.group_key

-- The order of the BTreeMap's keys.
abbrev pub group_before : Group → Group → Bool
group_before g h =
    grouping_before g.grouping h.grouping
    || (same_grouping g.grouping h.grouping && text_leb g.group_key h.group_key)

-- groups.entry(key).or_default().push(r)
abbrev pub add_to_groups : Group → List Group → List Group
add_to_groups g [] = g ∷ []
add_to_groups g (h ∷ groups) =
    let rest = add_to_groups g groups in
    if same_group g h
    then record h { members = h.members ++ g.members } ∷ groups
    else if group_before g h
    then g ∷ h ∷ groups
    else h ∷ rest

unfoldable pub grouped : LeadHost → ℕ → List EligibleRegistration → List Group → List Group
grouped host event_id [] groups = groups
grouped host event_id (r ∷ rows) groups =
    grouped host event_id rows (add_to_groups (group_of host event_id r) groups)

abbrev pub is_known : List LeadRegistrationView → ℕ → Bool
is_known views id = exists_where (λ (v : LeadRegistrationView). v.id == id) views

-- The members that no view shows yet.
abbrev pub new_members :
    List LeadRegistrationView → List EligibleRegistration → List EligibleRegistration
new_members views [] = []
new_members views (m ∷ ms) =
    let rest = new_members views ms in if is_known views m.id then rest else m ∷ rest

abbrev pub ids_of : List EligibleRegistration → List ℕ
ids_of = map (λ (m : EligibleRegistration). m.id)

abbrev pub group_created : LeadRunSummary → LeadRunSummary
group_created s = record s {
  groups_created = s.groups_created + 1;
  leads_created = s.leads_created + 1;
}

abbrev pub group_grown : LeadRunSummary → LeadRunSummary
group_grown s = record s { groups_grown = s.groups_grown + 1; leads_updated = s.leads_updated + 1 }

-- The sink's answer to a new lead.
abbrev pub after_create : ℕ → List ℕ → SinkAnswer → LeadState → Option Text × LeadState
after_create provenance_id new_ids (refused reason) st = (some reason, st)
after_create provenance_id new_ids (minted lead_id) st = (
  none,
  record st {
    db = (junction_add provenance_id new_ids (set_provenance_lead provenance_id lead_id st.db)).1;
    summary = group_created st.summary;
  },
)

-- The sink's answer to a grown group.
abbrev pub after_update : ℕ → List ℕ → Option Text → LeadState → Option Text × LeadState
after_update provenance_id new_ids (some reason) st = (some reason, st)
after_update provenance_id new_ids none st = (
  none,
  record st { db = (junction_add provenance_id new_ids st.db).1; summary = group_grown st.summary },
)

-- A lead that exists is updated only for new members.
abbrev pub drive_sink :
    LeadHost → ℕ → Option ℕ → List ℕ → LeadGroup → LeadState → Option Text × LeadState
drive_sink host provenance_id none new_ids group st =
    after_create provenance_id new_ids (host.create_lead st.calls group) st
drive_sink host provenance_id (some lead_id) [] group st = (none, st)
drive_sink host provenance_id (some lead_id) (id ∷ ids) group st =
    after_update provenance_id (id ∷ ids) (host.update_lead st.calls lead_id group) st

-- One group: the reason of a refusal, if the sink refused, and the state after it.
unfoldable pub walk_group : LeadHost → ℕ → ℕ → Group → LeadState → Option Text × LeadState
unfolding upsert_provenance group_members set_provenance_lead junction_add
walk_group host rule_id event_id g st =
    let (provenance_id, existing_lead, db) =
      upsert_provenance (host.new_id st.calls) rule_id event_id g.group_key g.grouping st.db in
    let known = map view_of (group_members provenance_id db) in
    let new = new_members known g.members in
    drive_sink host provenance_id existing_lead (ids_of new)
      (record {
        rule_id = rule_id;
        event_id = event_id;
        group_key = g.group_key;
        grouping = g.grouping;
        registrations = known ++ map view_of new;
      })
      (record st { db = db; calls = st.calls + 1 })

abbrev pub stop_on :
    Option Text → LeadState → (LeadState → Option Text × LeadState) → Option Text × LeadState
stop_on (some reason) st rest = (some reason, st)
stop_on none st rest = rest st

-- The first refusal ends the batch.
unfoldable pub walk_groups : LeadHost → ℕ → ℕ → List Group → LeadState → Option Text × LeadState
unfolding walk_group
walk_groups host rule_id event_id [] st = (none, st)
walk_groups host rule_id event_id (g ∷ groups) st =
    let (refusal, after) = walk_group host rule_id event_id g st in
    stop_on refusal after (walk_groups host rule_id event_id groups)

unfoldable pub generate_groups :
    LeadHost → ℕ → ℕ → List EligibleRegistration → LeadState → Option Text × LeadState
unfolding grouped walk_groups
generate_groups host rule_id event_id eligible st =
    walk_groups host rule_id event_id (grouped host event_id eligible []) st
