-- ===== src/Event/Examples.antt =====
-- The properties of the event verbs and of the ticket feed at concrete events.
use backbone_events.Base.{◌≡◌, refl, none, some, List, [], ◌∷◌, true, false, All}
use backbone_events.Base.Text.{Text, codes}
use backbone_events.Store.{Db, EventRow, ok}
use backbone_events.Samples.{hall, concert, value, taken_seat, held_seat}
use backbone_events.Seat.{find_event}
use backbone_events.Capability.Token.{mint, mint_ticket_report_capability}
use backbone_events.Capability.Sample.{toy, secret, parse_toy, toy-IsTokenLib}
use backbone_events.Event.{PatchEventInput, is_storable, find_published}
use backbone_events.Event.Publication.{
  EventVerb, patch_event, publish_event, unpublish_event, close_event, history, published_after,
  first_publish, history-pair,
}
use backbone_events.Event.Tickets.{TicketReport, report}
use backbone_events.Event.Tickets.Pinned.{IsGated, IsShown, report-pinned}

abbrev renamed : PatchEventInput
renamed = record {
  name = some (codes "Gala");
  event_type_id = none;
  stage_id = none;
  date_begin = none;
  date_end = some 120;
  date_tz = none;
  is_multi_slots = none;
  event_slot_count = none;
  seats_limited = none;
  seats_max = none;
  organizer_id = none;
  user_id = none;
  address_id = none;
  event_url = none;
  badge_format = none;
}

-- The concert before it was ever published.
abbrev drafted : EventRow
drafted = record concert { is_published = false; date_publish = none }

abbrev planned : Db
planned = record hall { events = drafted ∷ [] }

abbrev verbs : List EventVerb
verbs =
    patch_event renamed ∷ publish_event 20 ∷ unpublish_event ∷ publish_event 30 ∷ close_event ∷ []

-- One patch of the history is refused: its end lies before the event's begin.
abbrev misdated : PatchEventInput
misdated = record renamed { date_end = some 20 }

history-pair_example :
    (last : EventRow) × (find_event 1
        (history (λ url. false) 1 none (patch_event misdated ∷ verbs) planned)
      ≡ some last)
    × (is_storable (λ url. false) last ≡ true)
    × (last.is_published ≡ published_after (patch_event misdated ∷ verbs) false)
    × (last.date_publish ≡ first_publish (patch_event misdated ∷ verbs) none)
history-pair_example =
    history-pair (λ url. false) 1 none (patch_event misdated ∷ verbs) planned {row = drafted} refl
      refl

abbrev link : Text
link = value [] (mint_ticket_report_capability toy secret 1 (52 ∷ 51 ∷ []))

link-minted : mint_ticket_report_capability toy secret 1 (52 ∷ 51 ∷ []) ≡ ok link
unfolding mint_ticket_report_capability mint
link-minted = refl

abbrev attended : Db
attended = record hall { registrations = taken_seat ∷ held_seat ∷ [] }

report-pinned_example :
    ((shown : TicketReport)
      → report toy parse_toy secret link 9000 attended ≡ ok shown
      → (event : EventRow) × IsGated (find_event 1 attended) event
        × (shown.event_name ≡ event.name)
        × All (IsShown event 1 (52 ∷ 51 ∷ []) attended) shown.tickets)
    × ((event : EventRow)
        → find_published 1 attended ≡ ok event
        → (shown : TicketReport) × (report toy parse_toy secret link 9000 attended ≡ ok shown))
report-pinned_example =
    report-pinned toy parse_toy secret 1 (52 ∷ 51 ∷ []) 9000 attended {token = link} toy-IsTokenLib
      (λ id. refl) link-minted
