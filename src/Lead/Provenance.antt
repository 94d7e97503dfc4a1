-- ===== src/Lead/Provenance.antt =====
-- What one group's walk (`generate_groups` of lead_generation_service.rs) does to the provenance: all
-- that was tied to a rule stays tied.
use backbone_events.Base.{
  ℕ, ◌≡◌, refl, sym, ap, subst, ◌∙◌, Option, none, some, List, [], ◌∷◌, map, Bool, true, ◌||◌, ◌==◌,
  arith, exists_where, find_where, find_where-holds, select_where, update_where, All, All-sort_by,
  Bool-cases, inl, inr, ==_iff,
}
use backbone_events.Base.Text.{Text}
use backbone_events.Store.{Db, RegistrationRow, LeadProvenanceRow, LeadMemberRow, LeadGrouping}
use backbone_events.Lead.Queue.{member}
use backbone_events.Lead.Engine.{
  EligibleRegistration, LeadRegistrationView, LeadGroup, SinkAnswer, minted, refused, LeadHost,
  owns, is_provenanced, eligible_of, is_group, provenance_answer, upsert_provenance, is_junction,
  group_members, set_provenance_lead, junction_rows, junction_add, view_of,
}
use backbone_events.Lead.Generate.{
  LeadState, Group, is_known, new_members, ids_of, after_create, after_update, drive_sink,
  walk_group,
}

module _ {ℓ} {A : Type ℓ} where
  pub exists_where_mono :
      (p q : A → Bool)
      → ((x : A) → p x ≡ true → q x ≡ true)
      → (xs : List A) → exists_where p xs ≡ true
      → exists_where q xs ≡ true
  exists_where_mono p q sub [] h = absurd (ground arith)
  exists_where_mono p q sub (x ∷ xs) h = ground (arith, sub x, exists_where_mono p q sub xs)

  exists_where-update_same :
      (p q : A → Bool) (f : A → A)
      → ((x : A) → p (f x) ≡ p x)
      → (xs : List A) → exists_where p (update_where q f xs) ≡ exists_where p xs
  exists_where-update_same p q f same [] = refl
  exists_where-update_same p q f same (x ∷ xs) =
      ground (arith, same x, exists_where-update_same p q f same xs)

  find_where-exists :
      (p q : A → Bool) (xs : List A) {a : A}
      → find_where p xs ≡ some a
      → q a ≡ true
      → exists_where q xs ≡ true
  find_where-exists p q [] f h = absurd (ground arith)
  find_where-exists p q (x ∷ xs) {a} f h = ground (arith, find_where-exists p q xs {a = a})

-- The tables that a walk reads stay as they are, and no registration is untied from a rule.
pub record Kept (db next : Db) : Type 0 where
  pub registrations : next.registrations ≡ db.registrations
  pub events : next.events ≡ db.events
  pub answers : next.answers ≡ db.answers
  pub rules : next.lead_rules ≡ db.lead_rules
  pub predicates : next.lead_predicates ≡ db.lead_predicates
  pub owned :
      (rule_id id : ℕ)
      → owns rule_id db.lead_provenances id ≡ true
      → owns rule_id next.lead_provenances id ≡ true
  pub tied :
      (provenance_id id : ℕ)
      → exists_where (is_junction provenance_id id) db.lead_members ≡ true
      → exists_where (is_junction provenance_id id) next.lead_members ≡ true
  pub provenanced :
      (rule_id id : ℕ)
      → is_provenanced rule_id db.lead_provenances db.lead_members id ≡ true
      → is_provenanced rule_id next.lead_provenances next.lead_members id ≡ true

pub Kept-same : (db : Db) → Kept db db
Kept-same db = record {
  registrations = refl;
  events = refl;
  answers = refl;
  rules = refl;
  predicates = refl;
  owned = λ rule_id id h. h;
  tied = λ provenance_id id h. h;
  provenanced = λ rule_id id h. h;
}

pub Kept-trans : {a b c : Db} → Kept a b → Kept b c → Kept a c
Kept-trans k l = record {
  registrations = l.registrations ∙ k.registrations;
  events = l.events ∙ k.events;
  answers = l.answers ∙ k.answers;
  rules = l.rules ∙ k.rules;
  predicates = l.predicates ∙ k.predicates;
  owned = λ rule_id id h. l.owned rule_id id (k.owned rule_id id h);
  tied = λ provenance_id id h. l.tied provenance_id id (k.tied provenance_id id h);
  provenanced = λ rule_id id h. l.provenanced rule_id id (k.provenanced rule_id id h);
}

provenanced-owned :
    (rule_id id : ℕ) (before after : List LeadProvenanceRow) (members : List LeadMemberRow)
    → ((p : ℕ) → owns rule_id before p ≡ true → owns rule_id after p ≡ true)
    → is_provenanced rule_id before members id ≡ true
    → is_provenanced rule_id after members id ≡ true
provenanced-owned rule_id id before after members more =
    exists_where_mono _ _ (λ j h. ground (arith, more j.provenance_id)) members

pub provenanced-tied :
    (rule_id provenance_id id : ℕ) (provenances : List LeadProvenanceRow)
    (members : List LeadMemberRow)
    → owns rule_id provenances provenance_id ≡ true
    → exists_where (is_junction provenance_id id) members ≡ true
    → is_provenanced rule_id provenances members id ≡ true
provenanced-tied rule_id provenance_id id provenances members owner =
    exists_where_mono _ _
      (λ j h. ground (
        arith,
        owner,
        ap (λ p. owns rule_id provenances p)
            ((==_iff j.provenance_id provenance_id).0 (ground arith)),
      ))
      members

upsert-Kept :
    (new_id rule_id event_id : ℕ) (group_key : Text) (grouping : LeadGrouping) (db : Db)
    → let out = upsert_provenance new_id rule_id event_id group_key grouping db in
      Kept db out.2 × (owns rule_id out.2.lead_provenances out.0 ≡ true)
unfolding upsert_provenance
upsert-Kept new_id rule_id event_id group_key grouping db = answered _ refl
  where
    new : LeadProvenanceRow
    new = record {
      id = new_id;
      rule_id = rule_id;
      event_id = event_id;
      group_key = group_key;
      grouping = grouping;
      lead_id = none;
    }

    answered :
        (stored : Option LeadProvenanceRow)
        → find_where (is_group rule_id group_key) db.lead_provenances ≡ stored
        → let out = provenance_answer stored new db in
          Kept db out.2 × (owns rule_id out.2.lead_provenances out.0 ≡ true)
    answered none f = (
      record {
        registrations = refl;
        events = refl;
        answers = refl;
        rules = refl;
        predicates = refl;
        owned = λ rule id h. ground arith;
        tied = λ provenance_id id h. h;
        provenanced = λ rule id.
            provenanced-owned rule id db.lead_provenances (new ∷ db.lead_provenances)
              db.lead_members (λ p h. ground arith);
      },
      ground arith,
    )
    answered (some p) f = (
      Kept-same db,
      find_where-exists (is_group rule_id group_key) _ db.lead_provenances f
          (ground (arith, find_where-holds (is_group rule_id group_key) db.lead_provenances f)),
    )

set_lead-Kept :
    (provenance_id lead_id : ℕ) (db : Db) → Kept db (set_provenance_lead provenance_id lead_id db)
unfolding set_provenance_lead
set_lead-Kept provenance_id lead_id db = record {
  registrations = refl;
  events = refl;
  answers = refl;
  rules = refl;
  predicates = refl;
  owned = same;
  tied = λ p id h. h;
  provenanced =
      λ rule id. provenanced-owned rule id db.lead_provenances _ db.lead_members (same rule);
}
  where
    same :
        (rule id : ℕ)
        → owns rule db.lead_provenances id ≡ true
        → owns rule (set_provenance_lead provenance_id lead_id db).lead_provenances id ≡ true
    same rule id h = exists_where-update_same _ _ _ (λ x. refl) db.lead_provenances ∙ h

-- A junction row that is stored stays, and each id that was named has one.
junction_rows_more :
    (p : LeadMemberRow → Bool) (provenance_id : ℕ) (ids : List ℕ) (members : List LeadMemberRow)
    → exists_where p members ≡ true
    → exists_where p (junction_rows provenance_id ids members).1 ≡ true
junction_rows_more p provenance_id [] members h = h
junction_rows_more p provenance_id (id ∷ ids) members h =
    junction_rows_more p provenance_id ids _ (ground arith)

junction_rows_named :
    (provenance_id id : ℕ) (ids : List ℕ) (members : List LeadMemberRow)
    → member id ids ≡ true
    → exists_where (is_junction provenance_id id) (junction_rows provenance_id ids members).1 ≡ true
junction_rows_named provenance_id id [] members h = absurd (ground arith)
junction_rows_named provenance_id id (x ∷ ids) members h = elim (Bool-cases (id == x)) [
  | inl same ↦
      let e : id ≡ x = (==_iff id x).0 same in
      junction_rows_more (is_junction provenance_id id) provenance_id ids _ (rw e (ground arith))
  | inr other ↦ junction_rows_named provenance_id id ids _ (ground arith)
]

junction_add-Kept :
    (provenance_id : ℕ) (ids : List ℕ) (db : Db) → Kept db (junction_add provenance_id ids db).1
unfolding junction_add
junction_add-Kept provenance_id ids db = record {
  registrations = refl;
  events = refl;
  answers = refl;
  rules = refl;
  predicates = refl;
  owned = λ rule id h. h;
  tied = λ p id. junction_rows_more (is_junction p id) provenance_id ids db.lead_members;
  provenanced = λ rule id. junction_rows_more _ provenance_id ids db.lead_members;
}

junction_add-named :
    (provenance_id id : ℕ) (ids : List ℕ) (db : Db)
    → member id ids ≡ true
    → exists_where (is_junction provenance_id id) (junction_add provenance_id ids db).1.lead_members
      ≡ true
unfolding junction_add
junction_add-named provenance_id id ids db =
    junction_rows_named provenance_id id ids db.lead_members

-- What the sink's acceptance leaves.
abbrev Driven : ℕ → List ℕ → Db → Db → Type 0
Driven provenance_id ids db next =
    Kept db next
    × ((id : ℕ)
        → member id ids ≡ true
        → exists_where (is_junction provenance_id id) next.lead_members ≡ true)

drive_sink-Driven :
    (host : LeadHost) (provenance_id : ℕ) (lead : Option ℕ) (ids : List ℕ) (group : LeadGroup)
    (st st' : LeadState)
    → drive_sink host provenance_id lead ids group st ≡ (none, st')
    → Driven provenance_id ids st.db st'.db
drive_sink-Driven host provenance_id none ids group st st' h = created _ h
  where
    created :
        (answer : SinkAnswer)
        → after_create provenance_id ids answer st ≡ (none, st')
        → Driven provenance_id ids st.db st'.db
    created (refused reason) e = cc e
    created (minted lead_id) e =
        let same : st'.db
            ≡ (junction_add provenance_id ids (set_provenance_lead provenance_id lead_id st.db)).1 =
          sym (ap (λ (p : Option Text × LeadState). p.1.db) e) in
        rw same (
          Kept-trans (set_lead-Kept provenance_id lead_id st.db)
              (junction_add-Kept provenance_id ids _),
          λ id. junction_add-named provenance_id id ids _,
        )
drive_sink-Driven host provenance_id (some lead) [] group st st' h =
    let same : st'.db ≡ st.db = cc h in
    rw same (Kept-same st.db, λ id none_named. absurd (ground arith))
drive_sink-Driven host provenance_id (some lead) (i ∷ ids) group st st' h = grown _ h
  where
    grown :
        (answer : Option Text)
        → after_update provenance_id (i ∷ ids) answer st ≡ (none, st')
        → Driven provenance_id (i ∷ ids) st.db st'.db
    grown (some reason) e = cc e
    grown none e =
        let same : st'.db ≡ (junction_add provenance_id (i ∷ ids) st.db).1 =
          sym (ap (λ (p : Option Text × LeadState). p.1.db) e) in
        rw same (
          junction_add-Kept provenance_id (i ∷ ids) st.db,
          λ id. junction_add-named provenance_id id (i ∷ ids) st.db,
        )

-- A view of a group's member is there because of a junction row.
known-tied :
    (provenance_id id : ℕ) (members : List LeadMemberRow) (rows : List RegistrationRow)
    → All
        (λ (r : RegistrationRow). exists_where (is_junction provenance_id r.id) members ≡ true)
        rows
    → is_known (map view_of (map eligible_of rows)) id ≡ true
    → exists_where (is_junction provenance_id id) members ≡ true
known-tied provenance_id id members [] all h = absurd (ground arith)
known-tied provenance_id id members (r ∷ rows) all h = elim (Bool-cases (r.id == id)) [
  | inl same ↦
      subst (λ i. exists_where (is_junction provenance_id i) members ≡ true)
        ((==_iff r.id id).0 same) all.0
  | inr other ↦ known-tied provenance_id id members rows all.1 (ground arith)
]

All-select_where {ℓ} :
    {A : Type ℓ} (p : A → Bool) (xs : List A) → All (λ x. p x ≡ true) (select_where p xs)
All-select_where p [] = tt
All-select_where p (x ∷ xs) = elim (Bool-cases (p x)) [
  | inl hit ↦ rw hit (hit, All-select_where p xs)
  | inr miss ↦ rw miss (All-select_where p xs)
]

abbrev pub in_rows : ℕ → List EligibleRegistration → Bool
in_rows id rows = exists_where (λ (m : EligibleRegistration). m.id == id) rows

-- A member is shown already or is one of the new ones.
new_members_cases :
    (views : List LeadRegistrationView) (id : ℕ) (ms : List EligibleRegistration)
    → in_rows id ms ≡ true
    → (is_known views id || member id (ids_of (new_members views ms))) ≡ true
new_members_cases views id [] h = absurd (ground arith)
new_members_cases views id (m ∷ ms) h = elim (Bool-cases (m.id == id)) [
  | inl same ↦
      let e : m.id ≡ id = (==_iff m.id id).0 same in
      ground (arith, ap (is_known views) e, new_members_cases views id ms)
  | inr other ↦ ground (arith, new_members_cases views id ms)
]

-- A group that the sink accepted: its members are all tied to the rule.
pub walk_group-provenanced :
    (host : LeadHost) (rule_id event_id : ℕ) (g : Group) (st st' : LeadState)
    → walk_group host rule_id event_id g st ≡ (none, st')
    → Kept st.db st'.db
      × ((id : ℕ)
          → in_rows id g.members ≡ true
          → is_provenanced rule_id st'.db.lead_provenances st'.db.lead_members id ≡ true)
unfolding walk_group group_members
walk_group-provenanced host rule_id event_id g st st' h =
    let out =
      upsert_provenance (host.new_id st.calls) rule_id event_id g.group_key g.grouping st.db in
    let (kept, owner) =
      upsert-Kept (host.new_id st.calls) rule_id event_id g.group_key g.grouping st.db in
    let known = map view_of (group_members out.0 out.2) in
    let (moved, named) = drive_sink-Driven host out.0 out.1 _ _ _ st' h in
    let junction : (id : ℕ)
        → in_rows id g.members ≡ true
        → exists_where (is_junction out.0 id) st'.db.lead_members ≡ true =
      λ id here. elim (Bool-cases (is_known known id)) [
        | inl shown ↦ moved.tied out.0 id (
            known-tied out.0 id out.2.lead_members _
              (All-sort_by _ _ _ (All-select_where _ out.2.registrations)) shown)
        | inr hidden ↦ named id (ground (arith, new_members_cases known id g.members here))
      ] in
    (
      Kept-trans kept moved,
      λ id here.
          provenanced-tied rule_id out.0 id st'.db.lead_provenances st'.db.lead_members
            (moved.owned rule_id out.0 owner) (junction id here),
    )
