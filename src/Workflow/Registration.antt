-- ===== src/Workflow/Registration.antt =====
-- The registration workflow (src/domain/state_machine/registration_state_state_machine.rs): the states,
-- the transitions with their targets, and the machine, whose state is passed on beside each result.
use backbone_events.Base.{
  ◌≡◌, refl, Option, none, some, List, [], ◌∷◌, Bool, true, false, ◌||◌, ◌==◌, if◌then◌else◌, ℕ,
  find_where, select_where, exists_where,
}
use backbone_events.Base.Text.{Text, codes, text_eq}
use backbone_events.Workflow.{StateMachineError, Answer, accepted, refused}

pub data State : Type 0 where
  draft opened done cancel : State

pub data Transition : Type 0 where
  set_draft confirm set_done cancel : Transition

abbrev pub state_code : State → ℕ
state_code draft = 0
state_code opened = 1
state_code done = 2
state_code State.cancel = 3

abbrev pub same_state : State → State → Bool
same_state s t = state_code s == state_code t

pub state_name : State → Text
state_name draft = codes "draft"
state_name opened = codes "open"
state_name done = codes "done"
state_name State.cancel = codes "cancel"

pub transition_name : Transition → Text
transition_name set_draft = codes "set_draft"
transition_name confirm = codes "confirm"
transition_name set_done = codes "set_done"
transition_name Transition.cancel = codes "cancel"

-- `from_str`; `lowercase` is `str::to_lowercase`.
pub parse_state : (Text → Text) → Text → Answer State
parse_state lowercase s =
    let t = lowercase s in
    if text_eq t (codes "draft")
    then accepted draft
    else if text_eq t (codes "open")
    then accepted opened
    else if text_eq t (codes "done")
    then accepted done
    else if text_eq t (codes "cancel")
    then accepted State.cancel
    else refused (StateMachineError.invalid_state s)

pub parse_transition : (Text → Text) → Text → Answer Transition
parse_transition lowercase s =
    let t = lowercase s in
    if text_eq t (codes "set_draft")
    then accepted set_draft
    else if text_eq t (codes "confirm")
    then accepted confirm
    else if text_eq t (codes "set_done")
    then accepted set_done
    else if text_eq t (codes "cancel")
    then accepted Transition.cancel
    else refused (StateMachineError.invalid_transition s)

pub initial : State
initial = opened

pub is_initial : State → Bool
is_initial draft = false
is_initial opened = true
is_initial done = false
is_initial State.cancel = false

pub is_final : State → Bool
is_final draft = false
is_final opened = false
is_final done = true
is_final State.cancel = false

pub target_state : Transition → State
target_state set_draft = draft
target_state confirm = opened
target_state set_done = done
target_state Transition.cancel = State.cancel

abbrev pub all_transitions : List Transition
all_transitions = set_draft ∷ confirm ∷ set_done ∷ Transition.cancel ∷ []

pub allowed_roles : Transition → List Text
allowed_roles set_draft = []
allowed_roles confirm = []
allowed_roles set_done = []
allowed_roles Transition.cancel = []

pub can_transition : State → Transition → Bool
can_transition draft set_draft = true
can_transition opened set_draft = true
can_transition done set_draft = true
can_transition State.cancel set_draft = true
can_transition draft confirm = true
can_transition opened confirm = true
can_transition done confirm = true
can_transition State.cancel confirm = true
can_transition draft set_done = true
can_transition opened set_done = true
can_transition done set_done = true
can_transition State.cancel set_done = true
can_transition draft Transition.cancel = true
can_transition opened Transition.cancel = true
can_transition done Transition.cancel = true
can_transition State.cancel Transition.cancel = true

-- An empty list of roles restricts nobody; "*" admits everybody.
abbrev pub is_authorized : List Text → Text → Bool
is_authorized [] role = true
is_authorized (r ∷ rs) role = exists_where (λ q. text_eq q role || text_eq q (codes "*")) (r ∷ rs)

pub can_transition_with_role : State → Transition → Text → Bool
unfolding can_transition allowed_roles
can_transition_with_role s t role =
    if can_transition s t then is_authorized (allowed_roles t) role else false

pub transition : State → Transition → Answer State × State
unfolding can_transition target_state transition_name state_name
transition s t =
    if can_transition s t
    then (accepted (target_state t), target_state t)
    else (refused (StateMachineError.transition_not_allowed (transition_name t) (state_name s)), s)

pub transition_with_role : State → Transition → Text → Answer State × State
unfolding can_transition can_transition_with_role target_state transition_name state_name
transition_with_role s t role =
    if can_transition s t
    then (if can_transition_with_role s t role
        then (accepted (target_state t), target_state t)
        else (refused (StateMachineError.role_not_authorized role (transition_name t)), s))
    else (refused (StateMachineError.transition_not_allowed (transition_name t) (state_name s)), s)

pub available_transitions : State → List Transition
unfolding can_transition
available_transitions s = select_where (can_transition s) all_transitions

pub available_transitions_for_role : State → Text → List Transition
unfolding can_transition_with_role
available_transitions_for_role s role =
    select_where (λ t. can_transition_with_role s t role) all_transitions

-- The first available transition that leads to the target.
abbrev pub leading : State → State → Option Transition
leading s target = find_where (λ t. same_state (target_state t) target) (available_transitions s)

pub transition_to_state : State → State → Answer State × State
unfolding transition state_name target_state available_transitions
transition_to_state s target = elim (leading s target) [
  | none ↦
      (refused (StateMachineError.transition_not_allowed (state_name target) (state_name s)), s)
  | some t ↦ transition s t
]

-- From every state the registration machine moves straight to every target, and ends in the target.
pub registration_reaches_every_state :
    (s target : State) → transition_to_state s target ≡ (accepted target, target)
unfolding transition_to_state transition can_transition target_state available_transitions
registration_reaches_every_state draft draft = refl
registration_reaches_every_state draft opened = refl
registration_reaches_every_state draft done = refl
registration_reaches_every_state draft State.cancel = refl
registration_reaches_every_state opened draft = refl
registration_reaches_every_state opened opened = refl
registration_reaches_every_state opened done = refl
registration_reaches_every_state opened State.cancel = refl
registration_reaches_every_state done draft = refl
registration_reaches_every_state done opened = refl
registration_reaches_every_state done done = refl
registration_reaches_every_state done State.cancel = refl
registration_reaches_every_state State.cancel draft = refl
registration_reaches_every_state State.cancel opened = refl
registration_reaches_every_state State.cancel done = refl
registration_reaches_every_state State.cancel State.cancel = refl

-- The printed name of a registration state parses back to that state, for every lower-casing that
-- leaves the printed names as they are.
pub registration-parse_print :
    (lowercase : Text → Text)
    → ((t : State) → lowercase (state_name t) ≡ state_name t)
    → (s : State) → parse_state lowercase (state_name s) ≡ accepted s
unfolding parse_state state_name
registration-parse_print lowercase fixes draft = rw (fixes draft) refl
registration-parse_print lowercase fixes opened = rw (fixes opened) refl
registration-parse_print lowercase fixes done = rw (fixes done) refl
registration-parse_print lowercase fixes State.cancel = rw (fixes State.cancel) refl

-- With a role or without, a registration transition ends in the same state with the same answer, and the
-- transitions offered to a role are those offered without one.
pub registration_roles_restrict_nothing :
    (s : State) (t : Transition) (role : Text)
    → (transition_with_role s t role ≡ transition s t)
      × (available_transitions_for_role s role ≡ available_transitions s)
unfolding transition_with_role transition can_transition can_transition_with_role allowed_roles
    available_transitions available_transitions_for_role
registration_roles_restrict_nothing draft set_draft role = (refl, refl)
registration_roles_restrict_nothing opened set_draft role = (refl, refl)
registration_roles_restrict_nothing done set_draft role = (refl, refl)
registration_roles_restrict_nothing State.cancel set_draft role = (refl, refl)
registration_roles_restrict_nothing draft confirm role = (refl, refl)
registration_roles_restrict_nothing opened confirm role = (refl, refl)
registration_roles_restrict_nothing done confirm role = (refl, refl)
registration_roles_restrict_nothing State.cancel confirm role = (refl, refl)
registration_roles_restrict_nothing draft set_done role = (refl, refl)
registration_roles_restrict_nothing opened set_done role = (refl, refl)
registration_roles_restrict_nothing done set_done role = (refl, refl)
registration_roles_restrict_nothing State.cancel set_done role = (refl, refl)
registration_roles_restrict_nothing draft Transition.cancel role = (refl, refl)
registration_roles_restrict_nothing opened Transition.cancel role = (refl, refl)
registration_roles_restrict_nothing done Transition.cancel role = (refl, refl)
registration_roles_restrict_nothing State.cancel Transition.cancel role = (refl, refl)
