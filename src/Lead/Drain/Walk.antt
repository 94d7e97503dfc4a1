-- ===== src/Lead/Drain/Walk.antt =====
-- The walk of the rules of an event returns within the fuel and drains their domains
-- (`run_one` of application/service/lead_generation_service.rs).
use backbone_events.Base.{
  ℕ, zero, suc, ◌<◌, ◌≡◌, refl, sym, ap, subst, ◌∙◌, Option, none, some, List, [], ◌∷◌, true, false,
  leb, ltb, arith, length, All, Bool-cases, Option-cases, inl, inr, ltb→lt,
}
use backbone_events.Base.Text.{Text}
use backbone_events.Store.{Db, RegistrationRow, LeadRuleRow, LeadPredicateRow}
use backbone_events.Lead.{predicates_of_rule}
use backbone_events.Lead.Engine.{
  EligibleRegistration, LeadHost, is_lead_eligible, eligible_registrations,
}
use backbone_events.Lead.Generate.{LeadState, grouped, walk_groups, generate_groups}
use backbone_events.Lead.Pass.{matched, walk_rule, evaluated, next_rule, walk_rules}
use backbone_events.Lead.Provenance.{Kept, Kept-same, Kept-trans}
use backbone_events.Lead.Round.{pending, pending-Kept, round-pending, count_where-le-length}
use backbone_events.Lead.Drain.Answers.{IsAnswering, walk_groups-answered}

module _ (P : Option Text → Type 0) (host : LeadHost) (event_id : ℕ) (rule : LeadRuleRow)
    (predicates : List LeadPredicateRow) (batch : ℕ) where
  abbrev drawn : LeadState → List EligibleRegistration
  drawn st = eligible_registrations host event_id rule.id predicates batch st.db

  abbrev sent : LeadState → Option Text × LeadState
  sent st = generate_groups host rule.id event_id (drawn st) (matched (length (drawn st)) st)

  abbrev left : Db → ℕ
  left db = pending host event_id rule.id predicates db

  step_empty :
      (fuel : ℕ) (st : LeadState)
      → leb (length (drawn st)) 0 ≡ true
      → walk_rule (suc fuel) host event_id rule predicates batch st ≡ some (none, st)
  unfolding walk_rule
  step_empty fuel st h = rw h refl

  step_refused :
      (fuel : ℕ) (st : LeadState) {reason : Text}
      → leb (length (drawn st)) 0 ≡ false
      → (sent st).0 ≡ some reason
      → walk_rule (suc fuel) host event_id rule predicates batch st
        ≡ some (some reason, (sent st).1)
  unfolding walk_rule
  step_refused fuel st h r = rw (h, r) refl

  step_short :
      (fuel : ℕ) (st : LeadState)
      → leb (length (drawn st)) 0 ≡ false
      → (sent st).0 ≡ none
      → ltb (length (drawn st)) batch ≡ true
      → walk_rule (suc fuel) host event_id rule predicates batch st ≡ some (none, (sent st).1)
  unfolding walk_rule
  step_short fuel st h r s = rw (h, r, s) refl

  step_more :
      (fuel : ℕ) (st : LeadState)
      → leb (length (drawn st)) 0 ≡ false
      → (sent st).0 ≡ none
      → ltb (length (drawn st)) batch ≡ false
      → walk_rule (suc fuel) host event_id rule predicates batch st
        ≡ walk_rule fuel host event_id rule predicates batch (sent st).1
  unfolding walk_rule
  step_more fuel st h r s = rw (h, r, s) refl

  no_rows : (xs : List EligibleRegistration) → leb (length xs) 0 ≡ true → xs ≡ []
  no_rows [] h = refl
  no_rows (x ∷ xs) h = absurd (ground arith)

  empty-left : (st : LeadState) → leb (length (drawn st)) 0 ≡ true → 0 < batch → left st.db ≡ 0
  empty-left st h pos =
      let nothing = no_rows (drawn st) h in
      let (kept, lower, none_left) =
        round-pending host event_id rule.id predicates batch st st st refl (
          ap (λ rows. generate_groups host rule.id event_id rows st) nothing
          ∙ unfold generate_groups grouped walk_groups in refl) in
      none_left (rw nothing pos)

  sent-answered : (st : LeadState) → IsAnswering P host → P (sent st).0
  unfolding generate_groups
  sent-answered st accepts =
      walk_groups-answered P host rule.id event_id (grouped host event_id (drawn st) [])
        (matched (length (drawn st)) st) accepts

  -- What a walk of the rule leaves when nothing was refused.
  abbrev Drained : Db → Option Text × LeadState → Type 0
  Drained db out = out.0 ≡ none → Kept db out.1.db × (0 < batch → left out.1.db ≡ 0)

  abbrev RuleWalked : ℕ → LeadState → Type 0
  RuleWalked fuel st =
      (out : Option Text × LeadState) × (walk_rule fuel host event_id rule predicates batch st
        ≡ some out)
      × Drained st.db out
      × (IsAnswering P host → P out.0)

  walk_rule-returns : (fuel : ℕ) (st : LeadState) → left st.db < fuel → RuleWalked fuel st
  walk_rule-returns zero st h = absurd (omega arith)
  walk_rule-returns (suc fuel) st h = elim (Bool-cases (leb (length (drawn st)) 0)) [
    | inl empty ↦ (
      (none, st),
      step_empty fuel st empty,
      λ e. (Kept-same st.db, empty-left st empty),
      λ a. a.quiet,
    )
    | inr filled ↦ elim (Option-cases (sent st).0) [
      | inr (reason, refusal) ↦ (
        (some reason, (sent st).1),
        step_refused fuel st filled refusal,
        λ e. cc e,
        λ a. subst P refusal (sent-answered st a),
      )
      | inl accepted ↦
          let (kept, lower, none_left) =
            round-pending host event_id rule.id predicates batch st (sent st).1
              (matched (length (drawn st)) st) refl (ap (λ r. (r, (sent st).1)) accepted) in
          elim (Bool-cases (ltb (length (drawn st)) batch)) [
            | inl short ↦ (
              (none, (sent st).1),
              step_short fuel st filled accepted short,
              λ e. (kept, λ pos. none_left (ltb→lt _ _ short)),
              λ a. a.quiet,
            )
            | inr full ↦
                let (out, returns, drained, answered) =
                  walk_rule-returns fuel (sent st).1 (ground (arith, lower)) in
                (
                  out,
                  step_more fuel st filled accepted full ∙ returns,
                  λ e. (Kept-trans kept (drained e).0, (drained e).1),
                  answered,
                )
          ]
    ]
  ]

-- A rule's domain as it is read from the tables.
abbrev pub pending_of : LeadHost → ℕ → Db → Db → LeadRuleRow → ℕ
pending_of host event_id db next rule =
    pending host event_id rule.id (predicates_of_rule rule.id db) next

pending-bound :
    (host : LeadHost) (event_id rule_id : ℕ) (predicates : List LeadPredicateRow) (db : Db)
    (fuel : ℕ)
    → length db.registrations < fuel
    → pending host event_id rule_id predicates db < fuel
unfolding pending
pending-bound host event_id rule_id predicates db fuel h = omega (
  arith,
  count_where-le-length (is_lead_eligible host event_id rule_id predicates db) db.registrations,
)

next_refused :
    (first : Option (Option Text × LeadState)) (rest : LeadState → Option (Option Text × LeadState))
    {out : Option Text × LeadState} {reason : Text}
    → first ≡ some out
    → out.0 ≡ some reason
    → next_rule first rest ≡ some (some reason, out.1)
next_refused first rest {out} e r = rw (e, r) refl

next_accepted :
    (first : Option (Option Text × LeadState)) (rest : LeadState → Option (Option Text × LeadState))
    {out : Option Text × LeadState}
    → first ≡ some out
    → out.0 ≡ none
    → next_rule first rest ≡ rest out.1
next_accepted first rest {out} e r = rw (e, r) refl

module _ (P : Option Text → Type 0) (host : LeadHost) (event_id batch : ℕ) where
  abbrev pub AllDrained : List LeadRuleRow → Db → Option Text × LeadState → Type 0
  AllDrained rules db out =
      out.0 ≡ none
      → Kept db out.1.db
        × (0 < batch → All (λ rule. pending_of host event_id db out.1.db rule ≡ 0) rules)

  abbrev pub RulesWalked : ℕ → List LeadRuleRow → LeadState → Type 0
  RulesWalked fuel rules st =
      (out : Option Text × LeadState) × (walk_rules fuel host event_id rules batch st ≡ some out)
      × AllDrained rules st.db out
      × (IsAnswering P host → P out.0)

  same_predicates :
      (rules : List LeadRuleRow) (db mid next : Db)
      → Kept db mid
      → All (λ rule. pending_of host event_id mid next rule ≡ 0) rules
      → All (λ rule. pending_of host event_id db next rule ≡ 0) rules
  unfolding predicates_of_rule
  same_predicates [] db mid next kept all = tt
  same_predicates (rule ∷ rules) db mid next kept all =
      (rw kept.predicates at all.0, same_predicates rules db mid next kept all.1)

  pub walk_rules-returns :
      (fuel : ℕ) (rules : List LeadRuleRow) (st : LeadState)
      → length st.db.registrations < fuel
      → RulesWalked fuel rules st
  unfolding walk_rules
  walk_rules-returns fuel [] st h =
      ((none, st), refl, λ e. (Kept-same st.db, λ pos. tt), λ a. a.quiet)
  walk_rules-returns fuel (rule ∷ rules) st h =
      let predicates = predicates_of_rule rule.id st.db in
      let (out, returns, drained, accepted) =
        walk_rule-returns P host event_id rule predicates batch fuel (evaluated st)
          (pending-bound host event_id rule.id predicates st.db fuel h) in
      elim (Option-cases out.0) [
        | inr (reason, refusal) ↦ (
          (some reason, out.1),
          next_refused _ _ returns refusal,
          λ e. cc e,
          λ a. subst P refusal (accepted a),
        )
        | inl none_refused ↦
            let (kept, empty) = drained none_refused in
            let (last, ends, all_drained, all_accepted) = walk_rules-returns fuel rules out.1 (
              subst (λ (regs : List RegistrationRow). length regs < fuel) (sym kept.registrations)
                h) in
            (
              last,
              next_accepted _ _ returns none_refused ∙ ends,
              λ e.
                  let (more, rest) = all_drained e in
                  (
                    Kept-trans kept more,
                    λ pos. (
                      omega (
                        arith,
                        pending-Kept host event_id rule.id predicates out.1.db last.1.db more,
                        empty pos,
                      ),
                      same_predicates rules st.db out.1.db last.1.db kept (rest pos),
                    ),
                  ),
              all_accepted,
            )
      ]
