-- ===== src/Lead/Round.antt =====
-- One batch of the generation walk: the rows that the sink's answers leave eligible.
use backbone_events.Base.{
  ℕ, zero, suc, ◌≤◌, ◌<◌, ◌≡◌, refl, sym, ap, subst, ◌∙◌, Option, none, some, List, [], ◌∷◌, ◌++◌,
  map, Bool, true, false, not, ◌&&◌, ◌||◌, ◌==◌, if◌then◌else◌, arith, length, take, exists_where,
  select_where, count_where, sort_by, insert_by, All, All-sort_by, All-take, Bool-cases, inl, inr,
  ==_iff, ==_refl,
}
use backbone_events.Base.Text.{Text}
use backbone_events.Store.{Db, RegistrationRow, LeadPredicateRow}
use backbone_events.Lead.Engine.{
  EligibleRegistration, LeadHost, is_provenanced, is_lead_eligible, eligible_of,
  eligible_registrations, id_before,
}
use backbone_events.Lead.Generate.{
  LeadState, Group, add_to_groups, group_of, group_of_sale, grouped, walk_group, stop_on,
  walk_groups, generate_groups,
}
use backbone_events.Lead.Provenance.{
  exists_where_mono, Kept, Kept-same, Kept-trans, in_rows, walk_group-provenanced,
}

module _ {ℓ} {A : Type ℓ} where
  exists_where-append :
      (p : A → Bool) (xs ys : List A)
      → exists_where p (xs ++ ys) ≡ exists_where p xs || exists_where p ys
  exists_where-append p [] ys = refl
  exists_where-append p (x ∷ xs) ys = ground (arith, exists_where-append p xs ys)

  exists_where-insert :
      (p : A → Bool) (before : A → A → Bool) (x : A) (xs : List A)
      → exists_where p (insert_by before x xs) ≡ p x || exists_where p xs
  exists_where-insert p before x [] = refl
  exists_where-insert p before x (y ∷ ys) = ground (arith, exists_where-insert p before x ys)

  exists_where-sort :
      (p : A → Bool) (before : A → A → Bool) (xs : List A)
      → exists_where p (sort_by before xs) ≡ exists_where p xs
  exists_where-sort p before [] = refl
  exists_where-sort p before (x ∷ xs) =
      ground
        (arith, exists_where-insert p before x (sort_by before xs), exists_where-sort p before xs)

  take_all : (n : ℕ) (xs : List A) → length (take n xs) < n → take n xs ≡ xs
  take_all zero xs h = absurd (omega arith)
  take_all (suc n) [] h = refl
  take_all (suc n) (x ∷ xs) h = ap (λ ys. x ∷ ys) (take_all n xs (omega arith))

  count_where_none : (p : A → Bool) (xs : List A) → All (λ x. p x ≡ false) xs → count_where p xs ≡ 0
  count_where_none p [] all = refl
  count_where_none p (x ∷ xs) all = ground (arith, all.0, count_where_none p xs all.1)

  count_where_le :
      (p q : A → Bool)
      → ((x : A) → p x ≡ true → q x ≡ true)
      → (xs : List A) → count_where p xs ≤ count_where q xs
  count_where_le p q sub [] = omega arith
  count_where_le p q sub (x ∷ xs) = ground (arith, sub x, count_where_le p q sub xs)

  count_where_lt :
      (p q : A → Bool)
      → ((x : A) → p x ≡ true → q x ≡ true)
      → (xs : List A) → exists_where (λ x. q x && not (p x)) xs ≡ true
      → count_where p xs < count_where q xs
  count_where_lt p q sub [] h = absurd (ground arith)
  count_where_lt p q sub (x ∷ xs) h =
      ground (arith, sub x, count_where_le p q sub xs, count_where_lt p q sub xs)

  All-map {κ₁ κ₂} :
      (P : A → Type κ₁) (Q : A → Type κ₂)
      → ((x : A) → P x → Q x)
      → (xs : List A) → All P xs
      → All Q xs
  All-map P Q f [] all = tt
  All-map P Q f (x ∷ xs) all = (f x all.0, All-map P Q f xs all.1)

  pub count_where-le-length : (p : A → Bool) (xs : List A) → count_where p xs ≤ length xs
  count_where-le-length p [] = omega arith
  count_where-le-length p (x ∷ xs) = ground (arith, count_where-le-length p xs)

abbrev in_groups : ℕ → List Group → Bool
in_groups id groups = exists_where (λ (g : Group). in_rows id g.members) groups

add_to_groups-in :
    (id : ℕ) (g : Group) (groups : List Group)
    → (in_rows id g.members || in_groups id groups) ≡ true
    → in_groups id (add_to_groups g groups) ≡ true
add_to_groups-in id g [] h = ground arith
add_to_groups-in id g (x ∷ groups) h = ground (
  arith,
  exists_where-append (λ (m : EligibleRegistration). m.id == id) x.members g.members,
  add_to_groups-in id g groups,
)

group_of-in :
    (host : LeadHost) (event_id : ℕ) (sale : Option ℕ) (r : EligibleRegistration)
    → in_rows r.id (group_of_sale host event_id sale r).members ≡ true
group_of-in host event_id none r = ground arith
group_of-in host event_id (some order_id) r = ground arith

-- Every row of the batch stands in a group.
grouped-in :
    (host : LeadHost) (event_id id : ℕ) (rows : List EligibleRegistration) (groups : List Group)
    → (in_rows id rows || in_groups id groups) ≡ true
    → in_groups id (grouped host event_id rows groups) ≡ true
unfolding grouped
grouped-in host event_id id [] groups h = ground arith
grouped-in host event_id id (r ∷ rows) groups h = grouped-in host event_id id rows _ (
    ground (
      arith,
      (==_iff r.id id).0,
      ap (λ i. in_rows i (group_of host event_id r).members),
      group_of-in host event_id r.sale_order_id r,
      add_to_groups-in id (group_of host event_id r) groups,
    ))

-- The members of the groups that the sink accepted are tied to the rule.
abbrev pub IsTied : ℕ → Db → ℕ → Type 0
IsTied rule_id db id = is_provenanced rule_id db.lead_provenances db.lead_members id ≡ true

walk_groups-IsTied :
    (host : LeadHost) (rule_id event_id : ℕ) (groups : List Group) (st st' : LeadState)
    → walk_groups host rule_id event_id groups st ≡ (none, st')
    → Kept st.db st'.db × ((id : ℕ) → in_groups id groups ≡ true → IsTied rule_id st'.db id)
unfolding walk_groups
walk_groups-IsTied host rule_id event_id [] st st' h =
    subst (λ (s : LeadState). Kept st.db s.db × ((id : ℕ) → false ≡ true → IsTied rule_id s.db id))
      (ap (λ (p : Option Text × LeadState). p.1) h)
      (Kept-same st.db, λ id none_in. absurd (ground arith))
walk_groups-IsTied host rule_id event_id (g ∷ groups) st st' h =
    walked (walk_group host rule_id event_id g st).0 (walk_group host rule_id event_id g st).1
      (λ after. walk_groups-IsTied host rule_id event_id groups after st') refl h
  where
    walked :
        (refusal : Option Text) (after : LeadState)
        → ((mid : LeadState)
            → walk_groups host rule_id event_id groups mid ≡ (none, st')
            → Kept mid.db st'.db
              × ((id : ℕ) → in_groups id groups ≡ true → IsTied rule_id st'.db id))
        → walk_group host rule_id event_id g st ≡ (refusal, after)
        → stop_on refusal after (walk_groups host rule_id event_id groups) ≡ (none, st')
        → Kept st.db st'.db
          × ((id : ℕ) → in_groups id (g ∷ groups) ≡ true → IsTied rule_id st'.db id)
    walked (some reason) after rest e r = cc r
    walked none after rest e r =
        let (kept, tied) = walk_group-provenanced host rule_id event_id g st after e in
        let (more, others) = rest after r in
        (
          Kept-trans kept more,
          λ id here. elim (Bool-cases (in_rows id g.members)) [
            | inl mine ↦ more.provenanced rule_id id (tied id mine)
            | inr elsewhere ↦ others id (ground arith)
          ],
        )

pub generate_groups-IsTied :
    (host : LeadHost) (rule_id event_id : ℕ) (rows : List EligibleRegistration) (st st' : LeadState)
    → generate_groups host rule_id event_id rows st ≡ (none, st')
    → Kept st.db st'.db × ((id : ℕ) → in_rows id rows ≡ true → IsTied rule_id st'.db id)
unfolding generate_groups
generate_groups-IsTied host rule_id event_id rows st st' h =
    let (kept, tied) =
      walk_groups-IsTied host rule_id event_id (grouped host event_id rows []) st st' h in
    (kept, λ id here. tied id (grouped-in host event_id id rows [] (ground arith)))

-- A row with the id stands in the table and passes the test.
abbrev Picked : (RegistrationRow → Bool) → List RegistrationRow → RegistrationRow → Type 0
Picked test rows r = exists_where (λ (x : RegistrationRow). test x && (x.id == r.id)) rows ≡ true

selected-Picked :
    (test : RegistrationRow → Bool) (rows : List RegistrationRow)
    → All (Picked test rows) (select_where test rows)
selected-Picked test [] = tt
selected-Picked test (x ∷ rows) =
    let rest : All (Picked test (x ∷ rows)) (select_where test rows) =
      All-map (Picked test rows) (Picked test (x ∷ rows)) (λ r h. ground arith) _
        (selected-Picked test rows) in
    either (test x) refl rest
  where
    either :
        (hit : Bool)
        → test x ≡ hit
        → All (Picked test (x ∷ rows)) (select_where test rows)
        → All
            (Picked test (x ∷ rows))
            (if hit then x ∷ select_where test rows else select_where test rows)
    either true e rest = (ground (arith, ==_refl x.id), rest)
    either false e rest = rest

-- A row that passes the test is among the selected ones.
selected-in :
    (test : RegistrationRow → Bool) (rows : List RegistrationRow)
    → All
        (λ (r : RegistrationRow).
          test r ≡ true
          → exists_where (λ (x : RegistrationRow). x.id == r.id) (select_where test rows) ≡ true)
        rows
selected-in test [] = tt
selected-in test (x ∷ rows) = (
  λ hit. ground (arith, ==_refl x.id),
  All-map
      (λ (r : RegistrationRow).
        test r ≡ true
        → exists_where (λ (y : RegistrationRow). y.id == r.id) (select_where test rows) ≡ true)
      (λ (r : RegistrationRow).
        test r ≡ true
        → exists_where (λ (y : RegistrationRow). y.id == r.id) (select_where test (x ∷ rows))
          ≡ true)
      (λ r h hit. ground (arith, h hit)) rows (selected-in test rows),
)

in_rows-map :
    (id : ℕ) (rows : List RegistrationRow)
    → in_rows id (map eligible_of rows) ≡ exists_where (λ (x : RegistrationRow). x.id == id) rows
in_rows-map id [] = refl
in_rows-map id (x ∷ rows) = ground (arith, in_rows-map id rows)

length-map :
    (f : RegistrationRow → EligibleRegistration) (xs : List RegistrationRow)
    → length (map f xs) ≡ length xs
length-map f [] = refl
length-map f (x ∷ xs) = ap suc (length-map f xs)

-- The first of the rows passed the test before and passes it no more.
head_gone :
    (test after : RegistrationRow → Bool) (regs rows : List RegistrationRow)
    → All (Picked test regs) rows
    → 0 < length rows
    → ((x : RegistrationRow)
        → exists_where (λ (y : RegistrationRow). y.id == x.id) rows ≡ true
        → after x ≡ false)
    → exists_where (λ (x : RegistrationRow). test x && not (after x)) regs ≡ true
head_gone test after regs [] picked filled gone = absurd (omega arith)
head_gone test after regs (r ∷ rows) picked filled gone =
    exists_where_mono (λ (x : RegistrationRow). test x && (x.id == r.id)) _
      (λ x h. ground (arith, gone x)) regs picked.0

module _ (test after : RegistrationRow → Bool) (regs rows : List RegistrationRow) where
  -- With every selected row among the rows, none passes the test any more.
  rest_gone :
      ((x : RegistrationRow) → after x ≡ true → test x ≡ true)
      → All
          (λ (r : RegistrationRow).
            test r ≡ true
            → exists_where (λ (x : RegistrationRow). x.id == r.id) (select_where test regs) ≡ true)
          regs
      → ((x : RegistrationRow)
          → exists_where (λ (y : RegistrationRow). y.id == x.id) rows ≡ true
          → after x ≡ false)
      → rows ≡ sort_by id_before (select_where test regs)
      → All (λ (r : RegistrationRow). after r ≡ false) regs
  rest_gone lower selected gone e =
      All-map _ _
        (λ r chosen. elim (Bool-cases (test r)) [
          | inl hit ↦ gone r (
              ap (exists_where (λ (y : RegistrationRow). y.id == r.id)) e
              ∙ exists_where-sort (λ (y : RegistrationRow). y.id == r.id) id_before
                  (select_where test regs)
              ∙ chosen hit)
          | inr miss ↦ ground (arith, lower r)
        ])
        regs selected

module _ (host : LeadHost) (event_id rule_id : ℕ) (predicates : List LeadPredicateRow) where
  -- The registrations that the rule has not been applied to yet.
  unfoldable pub pending : Db → ℕ
  pending db = count_where (is_lead_eligible host event_id rule_id predicates db) db.registrations

  -- No row becomes eligible by a walk, and a row that was tied is eligible no more.
  eligible-before :
      (db next : Db) (r : RegistrationRow)
      → Kept db next
      → is_lead_eligible host event_id rule_id predicates next r ≡ true
      → is_lead_eligible host event_id rule_id predicates db r ≡ true
  unfolding is_lead_eligible
  eligible-before db next r kept h =
      let events = sym kept.events in
      let answers = sym kept.answers in
      ground (arith, kept.provenanced rule_id r.id, rw (kept.events, kept.answers) at h)

  tied-ineligible :
      (next : Db) (r : RegistrationRow)
      → IsTied rule_id next r.id
      → is_lead_eligible host event_id rule_id predicates next r ≡ false
  unfolding is_lead_eligible
  tied-ineligible next r tied = ground arith

  pub pending-Kept : (db next : Db) → Kept db next → pending next ≤ pending db
  unfolding pending
  pending-Kept db next kept =
      subst
        (λ regs.
          count_where (is_lead_eligible host event_id rule_id predicates next) regs ≤ pending db)
        (sym kept.registrations)
        (count_where_le _ _ (λ r. eligible-before db next r kept) db.registrations)

  abbrev batch_of : ℕ → Db → List EligibleRegistration
  batch_of batch db = eligible_registrations host event_id rule_id predicates batch db

  -- A batch that the sink accepted brings the pending rows down, and to none if it was not full.
  pub round-pending :
      (batch : ℕ) (st st' mid : LeadState)
      → mid.db ≡ st.db
      → generate_groups host rule_id event_id
          (eligible_registrations host event_id rule_id predicates batch st.db)
          mid
        ≡ (none, st')
      → Kept st.db st'.db
        × (0 < length (eligible_registrations host event_id rule_id predicates batch st.db)
            → pending st'.db < pending st.db)
        × (length (eligible_registrations host event_id rule_id predicates batch st.db) < batch
            → pending st'.db ≡ 0)
  unfolding eligible_registrations pending
  round-pending batch st st' mid same h =
      let rows = take batch (
        sort_by id_before (
          select_where (is_lead_eligible host event_id rule_id predicates st.db)
            st.db.registrations)) in
      let (kept_mid, tied) =
        generate_groups-IsTied host rule_id event_id (map eligible_of rows) mid st' h in
      let kept : Kept st.db st'.db = rw same at kept_mid in
      let gone : (x : RegistrationRow)
          → exists_where (λ (y : RegistrationRow). y.id == x.id) rows ≡ true
          → is_lead_eligible host event_id rule_id predicates st'.db x ≡ false =
        λ x here. tied-ineligible st'.db x (tied x.id (in_rows-map x.id rows ∙ here)) in
      (
        kept,
        λ filled.
            subst
              (λ regs.
                count_where (is_lead_eligible host event_id rule_id predicates st'.db) regs
                < count_where (is_lead_eligible host event_id rule_id predicates st.db)
                    st.db.registrations)
              (sym kept.registrations)
              (count_where_lt _ _ (λ r. eligible-before st.db st'.db r kept) st.db.registrations
                (head_gone _ _ st.db.registrations rows
                  (All-take _ batch _ (All-sort_by _ _ _ (selected-Picked _ st.db.registrations)))
                  (omega (arith, length-map eligible_of rows)) gone)),
        λ short.
            subst
              (λ regs.
                count_where (is_lead_eligible host event_id rule_id predicates st'.db) regs ≡ 0)
              (sym kept.registrations)
              (count_where_none _ st.db.registrations (
                rest_gone _ _ st.db.registrations rows (λ r. eligible-before st.db st'.db r kept)
                  (selected-in _ st.db.registrations) gone
                  (take_all batch _ (omega (arith, length-map eligible_of rows))))),
      )
