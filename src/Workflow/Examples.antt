-- ===== src/Workflow/Examples.antt =====
-- The workflow theorems at concrete states.
use backbone_events.Base.{◌≡◌, refl}
use backbone_events.Workflow.{accepted}
use backbone_events.Workflow.Registration

registration_reaches_every_state_example :
    Registration.transition_to_state Registration.State.done Registration.State.draft
    ≡ (accepted Registration.State.draft, Registration.State.draft)
registration_reaches_every_state_example =
    Registration.registration_reaches_every_state Registration.State.done Registration.State.draft

registration-parse_print_example :
    Registration.parse_state (λ t. t) (Registration.state_name Registration.State.opened)
    ≡ accepted Registration.State.opened
registration-parse_print_example =
    Registration.registration-parse_print (λ t. t) (λ t. refl) Registration.State.opened
