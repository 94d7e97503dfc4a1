-- ===== src/Workflow/Booth.antt =====
-- The booth workflow (src/domain/state_machine/booth_state_state_machine.rs): the states,
-- the transitions with their targets, and the machine, whose state is passed on beside each result.
use backbone_events.Base.{
  ◌≡◌, refl, Option, none, some, List, [], ◌∷◌, Bool, true, false, ◌||◌, ◌==◌, if◌then◌else◌, ℕ,
  find_where, select_where, exists_where,
}
use backbone_events.Base.Text.{Text, codes, text_eq}
use backbone_events.Workflow.{StateMachineError, Answer, accepted, refused}

pub data State : Type 0 where
  available unavailable : State

pub data Transition : Type 0 where
  confirm release : Transition

abbrev pub state_code : State → ℕ
state_code available = 0
state_code unavailable = 1

abbrev pub same_state : State → State → Bool
same_state s t = state_code s == state_code t

pub state_name : State → Text
state_name available = codes "available"
state_name unavailable = codes "unavailable"

pub transition_name : Transition → Text
transition_name confirm = codes "confirm"
transition_name release = codes "release"

-- `from_str`; `lowercase` is `str::to_lowercase`.
pub parse_state : (Text → Text) → Text → Answer State
parse_state lowercase s =
    let t = lowercase s in
    if text_eq t (codes "available")
    then accepted available
    else if text_eq t (codes "unavailable")
    then accepted unavailable
    else refused (StateMachineError.invalid_state s)

pub parse_transition : (Text → Text) → Text → Answer Transition
parse_transition lowercase s =
    let t = lowercase s in
    if text_eq t (codes "confirm")
    then accepted confirm
    else if text_eq t (codes "release")
    then accepted release
    else refused (StateMachineError.invalid_transition s)

pub initial : State
initial = available

pub is_initial : State → Bool
is_initial available = true
is_initial unavailable = false

pub is_final : State → Bool
is_final available = false
is_final unavailable = true

pub target_state : Transition → State
target_state confirm = unavailable
target_state release = available

abbrev pub all_transitions : List Transition
all_transitions = confirm ∷ release ∷ []

pub allowed_roles : Transition → List Text
allowed_roles confirm = []
allowed_roles release = []

pub can_transition : State → Transition → Bool
can_transition available confirm = true
can_transition unavailable confirm = true
can_transition available release = true
can_transition unavailable release = true

-- An empty list of roles restricts nobody; "*" admits everybody.
abbrev pub is_authorized : List Text → Text → Bool
is_authorized [] role = true
is_authorized (r ∷ rs) role = exists_where (λ q. text_eq q role || text_eq q (codes "*")) (r ∷ rs)

pub can_transition_with_role : State → Transition → Text → Bool
unfolding can_transition allowed_roles
can_transition_with_role s t role =
    if can_transition s t then is_authorized (allowed_roles t) role else false

pub transition : State → Transition → Answer State × State
unfolding can_transition target_state transition_name state_name
transition s t =
    if can_transition s t
    then (accepted (target_state t), target_state t)
    else (refused (StateMachineError.transition_not_allowed (transition_name t) (state_name s)), s)

pub transition_with_role : State → Transition → Text → Answer State × State
unfolding can_transition can_transition_with_role target_state transition_name state_name
transition_with_role s t role =
    if can_transition s t
    then (if can_transition_with_role s t role
        then (accepted (target_state t), target_state t)
        else (refused (StateMachineError.role_not_authorized role (transition_name t)), s))
    else (refused (StateMachineError.transition_not_allowed (transition_name t) (state_name s)), s)

pub available_transitions : State → List Transition
unfolding can_transition
available_transitions s = select_where (can_transition s) all_transitions

pub available_transitions_for_role : State → Text → List Transition
unfolding can_transition_with_role
available_transitions_for_role s role =
    select_where (λ t. can_transition_with_role s t role) all_transitions

-- The first available transition that leads to the target.
abbrev pub leading : State → State → Option Transition
leading s target = find_where (λ t. same_state (target_state t) target) (available_transitions s)

pub transition_to_state : State → State → Answer State × State
unfolding transition state_name target_state available_transitions
transition_to_state s target = elim (leading s target) [
  | none ↦
      (refused (StateMachineError.transition_not_allowed (state_name target) (state_name s)), s)
  | some t ↦ transition s t
]

-- From every state the booth machine moves straight to every target, and ends in the target.
pub booth_reaches_every_state :
    (s target : State) → transition_to_state s target ≡ (accepted target, target)
unfolding transition_to_state transition can_transition target_state available_transitions
booth_reaches_every_state available available = refl
booth_reaches_every_state available unavailable = refl
booth_reaches_every_state unavailable available = refl
booth_reaches_every_state unavailable unavailable = refl

-- The printed name of a booth state parses back to that state, for every lower-casing that
-- leaves the printed names as they are.
pub booth-parse_print :
    (lowercase : Text → Text)
    → ((t : State) → lowercase (state_name t) ≡ state_name t)
    → (s : State) → parse_state lowercase (state_name s) ≡ accepted s
unfolding parse_state state_name
booth-parse_print lowercase fixes available = rw (fixes available) refl
booth-parse_print lowercase fixes unavailable = rw (fixes unavailable) refl

-- With a role or without, a booth transition ends in the same state with the same answer, and the
-- transitions offered to a role are those offered without one.
pub booth_roles_restrict_nothing :
    (s : State) (t : Transition) (role : Text)
    → (transition_with_role s t role ≡ transition s t)
      × (available_transitions_for_role s role ≡ available_transitions s)
unfolding transition_with_role transition can_transition can_transition_with_role allowed_roles
    available_transitions available_transitions_for_role
booth_roles_restrict_nothing available confirm role = (refl, refl)
booth_roles_restrict_nothing unavailable confirm role = (refl, refl)
booth_roles_restrict_nothing available release role = (refl, refl)
booth_roles_restrict_nothing unavailable release role = (refl, refl)
