-- ===== src/Lead/Drain/Answers.antt =====
-- The refusal that the walk of groups comes back with is one of the sink's answers
-- (`generate_groups` of application/service/lead_generation_service.rs).
use backbone_events.Base.{
  ℕ, ◌≤◌, ◌≡◌, refl, ap, Option, none, some, List, [], ◌∷◌, ◌++◌, ◌+◌, map, true, arith, length,
}
use backbone_events.Base.Text.{Text}
use backbone_events.Lead.Queue.{detail_fits}
use backbone_events.Lead.Engine.{
  LeadGroup, SinkAnswer, minted, refused, LeadHost, upsert_provenance, group_members, view_of,
}
use backbone_events.Lead.Generate.{
  LeadState, Group, walk_group, walk_groups, drive_sink, after_create, after_update, stop_on,
  new_members, ids_of,
}

-- A sink that refuses nothing.
pub record IsAccepting (host : LeadHost) : Type 0 where
  pub creates : (n : ℕ) (g : LeadGroup) → (lead_id : ℕ) × (host.create_lead n g ≡ minted lead_id)
  pub updates : (n lead_id : ℕ) (g : LeadGroup) → host.update_lead n lead_id g ≡ none

abbrev refusal_of : SinkAnswer → Option Text
refusal_of (minted lead_id) = none
refusal_of (refused reason) = some reason

-- Every answer of the sink, a refusal or none, has the property.
pub record IsAnswering (P : Option Text → Type 0) (host : LeadHost) : Type 0 where
  pub quiet : P none
  creates : (n : ℕ) (g : LeadGroup) → P (refusal_of (host.create_lead n g))
  updates : (n lead_id : ℕ) (g : LeadGroup) → P (host.update_lead n lead_id g)

-- The refusal that a walk comes back with is one that the sink gave.
module _ (P : Option Text → Type 0) where
  after_create-answered :
      (provenance_id : ℕ) (ids : List ℕ) (answer : SinkAnswer) (st : LeadState)
      → P (refusal_of answer)
      → P (after_create provenance_id ids answer st).0
  after_create-answered provenance_id ids (minted lead_id) st p = p
  after_create-answered provenance_id ids (refused reason) st p = p

  after_update-answered :
      (provenance_id : ℕ) (ids : List ℕ) (answer : Option Text) (st : LeadState)
      → P answer
      → P (after_update provenance_id ids answer st).0
  after_update-answered provenance_id ids none st p = p
  after_update-answered provenance_id ids (some reason) st p = p

  drive_sink-answered :
      (host : LeadHost) (provenance_id : ℕ) (lead : Option ℕ) (ids : List ℕ) (g : LeadGroup)
      (st : LeadState)
      → IsAnswering P host
      → P (drive_sink host provenance_id lead ids g st).0
  drive_sink-answered host provenance_id none ids g st answers =
      after_create-answered provenance_id ids (host.create_lead st.calls g) st
        (answers.creates st.calls g)
  drive_sink-answered host provenance_id (some lead) [] g st answers = answers.quiet
  drive_sink-answered host provenance_id (some lead) (i ∷ ids) g st answers =
      after_update-answered provenance_id (i ∷ ids) (host.update_lead st.calls lead g) st
        (answers.updates st.calls lead g)

  stop_on-answered :
      (refusal : Option Text) (st : LeadState) (rest : LeadState → Option Text × LeadState)
      → P refusal
      → P (rest st).0
      → P (stop_on refusal st rest).0
  stop_on-answered none st rest p h = h
  stop_on-answered (some reason) st rest p h = p

  walk_group-answered :
      (host : LeadHost) (rule_id event_id : ℕ) (g : Group) (st : LeadState)
      → IsAnswering P host
      → P (walk_group host rule_id event_id g st).0
  unfolding walk_group
  walk_group-answered host rule_id event_id g st answers =
      let (provenance_id, lead, db) =
        upsert_provenance (host.new_id st.calls) rule_id event_id g.group_key g.grouping st.db in
      let known = map view_of (group_members provenance_id db) in
      let new = new_members known g.members in
      drive_sink-answered host provenance_id lead (ids_of new)
        (record {
          rule_id = rule_id;
          event_id = event_id;
          group_key = g.group_key;
          grouping = g.grouping;
          registrations = known ++ map view_of new;
        })
        (record st { db = db; calls = st.calls + 1 }) answers

  pub walk_groups-answered :
      (host : LeadHost) (rule_id event_id : ℕ) (groups : List Group) (st : LeadState)
      → IsAnswering P host
      → P (walk_groups host rule_id event_id groups st).0
  unfolding walk_groups
  walk_groups-answered host rule_id event_id [] st answers = answers.quiet
  walk_groups-answered host rule_id event_id (g ∷ groups) st answers =
      stop_on-answered _ (walk_group host rule_id event_id g st).1
        (walk_groups host rule_id event_id groups)
        (walk_group-answered host rule_id event_id g st answers)
        (walk_groups-answered host rule_id event_id groups (walk_group host rule_id event_id g st).1
          answers)

-- The reasons that the sink refuses with fit the column that keeps them.
pub record HasShortReasons (host : LeadHost) : Type 0 where
  pub creates :
      (n : ℕ) (g : LeadGroup) {reason : Text}
      → host.create_lead n g ≡ refused reason
      → length reason ≤ 500
  pub updates :
      (n lead_id : ℕ) (g : LeadGroup) {reason : Text}
      → host.update_lead n lead_id g ≡ some reason
      → length reason ≤ 500

pub short-IsAnswering :
    (host : LeadHost) → HasShortReasons host → IsAnswering (λ r. detail_fits r ≡ true) host
short-IsAnswering host short = record {
  quiet = refl;
  creates = λ n g. fits_answer (host.create_lead n g) (λ reason e. short.creates n g e);
  updates = λ n lead_id g.
      fits_refusal (host.update_lead n lead_id g) (λ reason e. short.updates n lead_id g e);
}
  where
    fits_answer :
        (answer : SinkAnswer)
        → ((reason : Text) → answer ≡ refused reason → length reason ≤ 500)
        → detail_fits (refusal_of answer) ≡ true
    fits_answer (minted lead_id) h = refl
    fits_answer (refused reason) h = ground (arith, h reason refl)

    fits_refusal :
        (answer : Option Text)
        → ((reason : Text) → answer ≡ some reason → length reason ≤ 500)
        → detail_fits answer ≡ true
    fits_refusal none h = refl
    fits_refusal (some reason) h = ground (arith, h reason refl)

pub accepting-IsAnswering : (host : LeadHost) → IsAccepting host → IsAnswering (λ r. r ≡ none) host
accepting-IsAnswering host accepts = record {
  quiet = refl;
  creates = λ n g. ap refusal_of (accepts.creates n g).1;
  updates = accepts.updates;
}
