-- ===== src/Workflow.antt =====
-- The generated state machines (src/domain/state_machine): their shared error type.
pub mod Registration
pub mod Booth
mod Examples
use backbone_events.Base.Text.{Text}

pub data StateMachineError : Type 0 where
  invalid_state : Text → StateMachineError
  invalid_transition : Text → StateMachineError
  transition_not_allowed : (transition from : Text) → StateMachineError
  role_not_authorized : (role transition : Text) → StateMachineError
  guard_failed : Text → StateMachineError
  final_state_reached : Text → StateMachineError

pub data Answer (A : Type 0) : Type 0 where
  accepted : A → Answer A
  refused : StateMachineError → Answer A
