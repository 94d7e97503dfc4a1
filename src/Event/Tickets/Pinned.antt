-- ===== src/Event/Tickets/Pinned.antt =====
-- What a ticket link shows: the rows that were pinned when it was minted.
use backbone_events.Base.{
  ℕ, ◌≡◌, refl, sym, ap, subst, ◌∙◌, Option, none, some, List, [], ◌∷◌, map, true, false, not, ◌||◌,
  ◌==◌, arith, All, All-sort_by, sort_by, find_where-holds, Bool-cases, inl, inr, ==_iff, ==_refl,
}
use backbone_events.Base.Int.{pos}
use backbone_events.Base.Text.{Text, text_leb}
use backbone_events.Store.{
  Db, EventRow, RegistrationRow, Result, ok, err, EventError, ok_or, refuse_if, ◌>>=◌, ◌>>◌,
  >>=-eq-ok, ok_or-eq-ok, refuse_if-eq-ok, ok-injective,
}
use backbone_events.Seat.{find_event}
use backbone_events.Seat.Reads.{find_registration}
use backbone_events.Lead.Queue.{member}
use backbone_events.Capability.Token.{
  TokenLib, CapabilityClaims, purpose_ticket_report, mint_ticket_report_capability,
}
use backbone_events.Capability.Token.RoundTrip.{IsTokenLib, verify-mint}
use backbone_events.Event.{find, find_published, is_called_off, or_not_published}
use backbone_events.Event.Tickets.{
  TicketView, TicketReport, ticket_of, push_parsed, parsed_uuids, push_ticket, tickets_of,
  report_of, report,
}

-- The uuid library reads back what it printed.
abbrev pub ReadsBack : TokenLib → (Text → Option ℕ) → Type 0
ReadsBack lib parse = (id : ℕ) → parse (lib.uuid_text id) ≡ some id

abbrev IsPinned : (Text → Option ℕ) → List ℕ → Text → Type 0
IsPinned parse ids s = (id : ℕ) → parse s ≡ some id → member id ids ≡ true

module _ (lib : TokenLib) (parse : Text → Option ℕ) (reads : ReadsBack lib parse) where
  texts-IsPinned :
      (all ids : List ℕ)
      → ((id : ℕ) → member id ids ≡ true → member id all ≡ true)
      → All (IsPinned parse all) (map lib.uuid_text ids)
  texts-IsPinned all [] sub = tt
  texts-IsPinned all (x ∷ ids) sub = (
    λ id e.
        let same : some x ≡ some id = sym (reads x) ∙ e in
        sub id (ground (arith, same, ==_refl id)),
    texts-IsPinned all ids (λ id h. sub id (ground arith)),
  )

pushed-IsPinned :
    (parse : Text → Option ℕ) (ids : List ℕ) (s : Text) (o : Option ℕ) (out : List ℕ)
    → parse s ≡ o
    → IsPinned parse ids s
    → All (λ id. member id ids ≡ true) out
    → All (λ id. member id ids ≡ true) (push_parsed o out)
pushed-IsPinned parse ids s none out e pin all = all
pushed-IsPinned parse ids s (some id) out e pin all = (pin id e, all)

parsed-IsPinned :
    (parse : Text → Option ℕ) (ids : List ℕ) (scope : List Text)
    → All (IsPinned parse ids) scope
    → All (λ id. member id ids ≡ true) (parsed_uuids parse scope)
parsed-IsPinned parse ids [] all = tt
parsed-IsPinned parse ids (s ∷ scope) all =
    pushed-IsPinned parse ids s (parse s) _ refl all.0 (parsed-IsPinned parse ids scope all.1)

-- A ticket is the view of a stored registration of the event, and its id is one of the pinned ones.
abbrev pub IsShown : EventRow → ℕ → List ℕ → Db → TicketView → Type 0
IsShown event event_id ids db t =
    (row : RegistrationRow) × (find_registration row.id db ≡ ok row)
    × (row.event_id ≡ event_id)
    × (t ≡ ticket_of event row)
    × (member t.registration_id ids ≡ true)

module _ (event : EventRow) (event_id : ℕ) (ids : List ℕ) (db : Db) where
  pushed-IsShown :
      (id : ℕ) (found : Result RegistrationRow) (tickets : List TicketView)
      → find_registration id db ≡ found
      → member id ids ≡ true
      → All (IsShown event event_id ids db) tickets
      → All (IsShown event event_id ids db) (push_ticket event event_id found tickets)
  pushed-IsShown id (err e) tickets f pin all = all
  pushed-IsShown id (ok row) tickets f pin all =
      let same : row.id ≡ id = (==_iff row.id id).0 (
        find_where-holds (λ (r : RegistrationRow). r.id == id) db.registrations
          (ok_or-eq-ok _ EventError.registration_not_found f)) in
      let stored : find_registration row.id db ≡ ok row =
        subst (λ i. find_registration i db ≡ ok row) (sym same) f in
      elim (Bool-cases (row.event_id == event_id)) [
        | inl of_event ↦
            rw of_event
              ((row, stored, (==_iff row.event_id event_id).0 of_event, refl, rw same pin), all)
        | inr other ↦ rw other all
      ]

  tickets_of-IsShown :
      (pinned : List ℕ)
      → All (λ id. member id ids ≡ true) pinned
      → All (IsShown event event_id ids db) (tickets_of event event_id pinned db)
  unfolding tickets_of
  tickets_of-IsShown [] all = tt
  tickets_of-IsShown (id ∷ pinned) all =
      pushed-IsShown id (find_registration id db) _ refl all.0 (tickets_of-IsShown pinned all.1)

-- What the gate lets through.
abbrev pub IsGated : Option EventRow → EventRow → Type 0
IsGated o event =
    (o ≡ some event) × (event.is_published ≡ true) × (is_called_off event.kanban_state ≡ false)

gated :
    (o : Option EventRow) {event : EventRow}
    → (or_not_published (ok_or o EventError.event_not_found) >>= λ row.
        refuse_if
          (not row.is_published || is_called_off row.kanban_state)
          EventError.event_not_published
        >> ok row)
      ≡ ok event
    → IsGated o event
gated none {event} h = cc h
gated (some row) {event} h =
    let refusal = not row.is_published || is_called_off row.kanban_state in
    let (u, passed, same) =
      >>=-eq-ok (refuse_if refusal EventError.event_not_published) (λ passed. ok row) h in
    let e : row ≡ event = ok-injective same in
    subst (λ (r : EventRow). IsGated (some row) r) e
      (
        refl,
        ground (arith, refuse_if-eq-ok refusal _ passed),
        ground (arith, refuse_if-eq-ok refusal _ passed),
      )

find_published-eq-ok :
    (id : ℕ) (db : Db) {event : EventRow}
    → find_published id db ≡ ok event
    → IsGated (find_event id db) event
unfolding find_published find
find_published-eq-ok id db {event} h = gated (find_event id db) h

abbrev answered : EventRow → ℕ → List ℕ → Db → Result TicketReport
answered event event_id pinned db = ok (report_of event (tickets_of event event_id pinned db))

-- The report of a minted link is a gated read of its event, at any time.
report-of_link :
    (lib : TokenLib) (parse : Text → Option ℕ) (secret : Text) (event_id : ℕ) (ids : List ℕ)
    (now : ℕ) (db : Db) {token : Text}
    → IsTokenLib lib
    → ReadsBack lib parse
    → mint_ticket_report_capability lib secret event_id ids ≡ ok token
    → report lib parse secret token now db ≡ (
        find_published event_id db >>= λ event.
        answered event event_id (parsed_uuids parse (sort_by text_leb (map lib.uuid_text ids))) db)
unfolding report mint_ticket_report_capability
report-of_link lib parse secret event_id ids now db laws reads minted =
    let claims : CapabilityClaims = record {
      purpose = purpose_ticket_report;
      exp = pos 0;
      scope = lib.uuid_text event_id ∷ sort_by text_leb (map lib.uuid_text ids);
    } in
    rw (verify-mint lib secret claims now laws minted refl, reads event_id) refl

-- A ticket link that was minted for an event and registrations of it shows, whenever it is opened and
-- the report succeeds, the published and not cancelled event, and on it only views of stored
-- registrations of that event whose ids were pinned by the mint. It never expires: the report
-- succeeds exactly when the event is open to the public. The uuid library reads back what it printed.
pub report-pinned :
    (lib : TokenLib) (parse : Text → Option ℕ) (secret : Text) (event_id : ℕ) (ids : List ℕ)
    (now : ℕ) (db : Db) {token : Text}
    → IsTokenLib lib
    → ReadsBack lib parse
    → mint_ticket_report_capability lib secret event_id ids ≡ ok token
    → ((shown : TicketReport)
        → report lib parse secret token now db ≡ ok shown
        → (event : EventRow) × IsGated (find_event event_id db) event
          × (shown.event_name ≡ event.name)
          × All (IsShown event event_id ids db) shown.tickets)
      × ((event : EventRow)
          → find_published event_id db ≡ ok event
          → (shown : TicketReport) × (report lib parse secret token now db ≡ ok shown))
report-pinned lib parse secret event_id ids now db laws reads minted =
    let link = report-of_link lib parse secret event_id ids now db laws reads minted in
    let pinned = parsed_uuids parse (sort_by text_leb (map lib.uuid_text ids)) in
    (
      λ shown h.
          let (event, gate, out) =
            >>=-eq-ok (find_published event_id db) (λ event. answered event event_id pinned db)
              (sym link ∙ h) in
          (
            event,
            find_published-eq-ok event_id db gate,
            ap (λ (r : TicketReport). r.event_name) (sym (ok-injective out)),
            subst (λ (r : TicketReport). All (IsShown event event_id ids db) r.tickets)
                (ok-injective out)
                (tickets_of-IsShown event event_id ids db pinned (
                  parsed-IsPinned parse ids _ (
                    All-sort_by (IsPinned parse ids) text_leb _
                      (texts-IsPinned lib parse reads ids ids (λ id h. h))))),
          ),
      λ event h. (
        report_of event (tickets_of event event_id pinned db),
        link ∙ ap (λ (r : Result EventRow). r >>= λ e. answered e event_id pinned db) h,
      ),
    )
