-- ===== src/Event/Publication.antt =====
-- The publication pair of an event over histories of its verbs (event_command_repository.rs).
use backbone_events.Base.{
  ℕ, ◌≡◌, refl, ap, ◌∙◌, Option, none, some, List, [], ◌∷◌, Bool, true, false, ◌==◌, ◌&&◌, inl, inr,
  Bool-cases, arith, exists_where, All, All-sort_by, sort_by, select_where, find_where-update_one,
}
use backbone_events.Base.Text.{Text}
use backbone_events.Store.{Db, AuditEvent, EventRow, StageRow, Result, ok, err}
use backbone_events.Seat.{find_event}
use backbone_events.Event.{
  PatchEventInput, stage_before, first_stage, is_storable, is_stage, same_type, refers,
  update_event, patched_event, patch, published, publish, unpublished, unpublish, closed, mark_done,
}

-- The verbs on a stored event.
pub data EventVerb : Type 0 where
  patch_event : PatchEventInput → EventVerb
  publish_event : (now : ℕ) → EventVerb
  unpublish_event : EventVerb
  close_event : EventVerb

pub apply : (Text → Bool) → ℕ → Option ℕ → EventVerb → Db → Result (EventRow × Db)
apply is_url id actor (patch_event input) db = patch is_url id input actor db
apply is_url id actor (publish_event now) db = publish is_url now id actor db
apply is_url id actor unpublish_event db = unpublish is_url id actor db
apply is_url id actor close_event db = mark_done is_url id actor db

-- A verb that is refused leaves the database as it was.
abbrev pub stored : Db → Result (EventRow × Db) → Db
stored db (ok (row, next)) = next
stored db (err e) = db

pub history : (Text → Bool) → ℕ → Option ℕ → List EventVerb → Db → Db
unfolding apply
history is_url id actor [] db = db
history is_url id actor (v ∷ verbs) db =
    history is_url id actor verbs (stored db (apply is_url id actor v db))

-- The pair as a history decides it: the last publish or unpublish, and the first publish.
abbrev pub published_after : List EventVerb → Bool → Bool
published_after [] was = was
published_after (patch_event input ∷ verbs) was = published_after verbs was
published_after (publish_event now ∷ verbs) was = published_after verbs true
published_after (unpublish_event ∷ verbs) was = published_after verbs false
published_after (close_event ∷ verbs) was = published_after verbs was

abbrev pub first_publish : List EventVerb → Option ℕ → Option ℕ
first_publish verbs (some stamp) = some stamp
first_publish [] none = none
first_publish (patch_event input ∷ verbs) none = first_publish verbs none
first_publish (publish_event now ∷ verbs) none = some now
first_publish (unpublish_event ∷ verbs) none = first_publish verbs none
first_publish (close_event ∷ verbs) none = first_publish verbs none

-- What one verb makes of the row.
abbrev row_after : EventVerb → Db → EventRow → EventRow
row_after (patch_event input) db e = patched_event input e
row_after (publish_event now) db e = published now e
row_after unpublish_event db e = unpublished e
row_after close_event db e =
    closed
      (first_stage (sort_by stage_before (select_where (λ (s : StageRow). s.pipe_end) db.stages))) e

module _ (is_url : Text → Bool) (f : EventRow → EventRow) (id : ℕ) (event : AuditEvent)
    (actor : Option ℕ) (db : Db) (same : (e : EventRow) → (f e).id ≡ e.id) where
  -- An update that keeps the CHECKs and the foreign keys is written.
  update_event-written :
      {row : EventRow}
      → find_event id db ≡ some row
      → is_storable is_url (f row) ≡ true
      → refers row (f row) db ≡ true
      → find_event id (stored db (update_event is_url f id event actor db)) ≡ some (f row)
  update_event-written h storable found =
      rw (h, storable, found)
        (find_where-update_one (λ (e : EventRow). e.id == id) f (λ e. ap (λ i. i == id) (same e))
          db.events h)

  -- Any other update is refused.
  update_event-refused :
      {row : EventRow}
      → find_event id db ≡ some row
      → is_storable is_url (f row) && refers row (f row) db ≡ false
      → stored db (update_event is_url f id event actor db) ≡ db
  update_event-refused {row} h broken = elim (Bool-cases (is_storable is_url (f row))) [
    | inl storable ↦
        let missing : refers row (f row) db ≡ false = rw storable at broken in
        rw (h, storable, missing) refl
    | inr unfit ↦ rw (h, unfit) refl
  ]

-- The stages that a closing chooses from are stages.
first_stage-is_stage :
    (db : Db) (stage : ℕ) (stages : List StageRow)
    → All (λ (s : StageRow). is_stage s.id db ≡ true) stages
    → first_stage stages ≡ some stage
    → is_stage stage db ≡ true
first_stage-is_stage db stage [] all h = absurd (ground arith)
first_stage-is_stage db stage (s ∷ stages) all h = ground (arith, all.0)

select-is_stage :
    (db : Db) (stages : List StageRow)
    → ((id : ℕ) → exists_where (λ (s : StageRow). s.id == id) stages ≡ true → is_stage id db ≡ true)
    → All
        (λ (s : StageRow). is_stage s.id db ≡ true)
        (select_where (λ (s : StageRow). s.pipe_end) stages)
select-is_stage db [] within = tt
select-is_stage db (s ∷ stages) within =
    let rest = select-is_stage db stages (λ id h. within id (ground arith)) in
    elim (Bool-cases s.pipe_end) [
      | inl ends ↦ rw ends (within s.id (ground arith), rest)
      | inr stays ↦ rw stays rest
    ]

same_type_refl : (t : Option ℕ) → same_type t t ≡ true
same_type_refl none = refl
same_type_refl (some t) = ground arith

closed-refers :
    (db : Db) (row : EventRow) (pipe_end : Option ℕ)
    → ((stage : ℕ) → pipe_end ≡ some stage → is_stage stage db ≡ true)
    → refers row (closed pipe_end row) db ≡ true
closed-refers db row none known = ground (arith, same_type_refl row.event_type_id)
closed-refers db row (some stage) known =
    ground (arith, known stage refl, same_type_refl row.event_type_id)

-- The row after a verb, and the pair that it leaves for the rest of a history.
record Left (is_url : Text → Bool) (id : ℕ) (v : EventVerb) (row : EventRow) (next : Db)
    : Type 0 where
  last : EventRow
  found : find_event id next ≡ some last
  storable : is_storable is_url last ≡ true
  flag :
      (verbs : List EventVerb)
      → published_after verbs last.is_published ≡ published_after (v ∷ verbs) row.is_published
  stamp :
      (verbs : List EventVerb)
      → first_publish verbs last.date_publish ≡ first_publish (v ∷ verbs) row.date_publish

apply-Left :
    (is_url : Text → Bool) (id : ℕ) (actor : Option ℕ) (v : EventVerb) (db : Db) {row : EventRow}
    → find_event id db ≡ some row
    → is_storable is_url row ≡ true
    → Left is_url id v row (stored db (apply is_url id actor v db))
unfolding apply patch publish unpublish mark_done
apply-Left is_url id actor (patch_event input) db {row} h fits =
    elim (Bool-cases
      (is_storable is_url (patched_event input row) && refers row (patched_event input row) db)) [
        | inl written ↦ record {
          last = patched_event input row;
          found =
              update_event-written is_url (patched_event input) id _ actor db (λ e. refl) h
                (ground arith) (ground arith);
          storable = ground arith;
          flag = λ verbs. refl;
          stamp = λ verbs. ground arith;
        }
        | inr refused ↦ record {
          last = row;
          found =
              ap (find_event id) (
                update_event-refused is_url (patched_event input) id _ actor db (λ e. refl) h
                  refused)
              ∙ h;
          storable = fits;
          flag = λ verbs. refl;
          stamp = λ verbs. ground arith;
        }
      ]
apply-Left is_url id actor (publish_event now) db {row} h fits = record {
  last = published now row;
  found =
      update_event-written is_url (published now) id _ actor db (λ e. refl) h fits
        (ground (arith, same_type_refl row.event_type_id));
  storable = fits;
  flag = λ verbs. refl;
  stamp = λ verbs. ground arith;
}
apply-Left is_url id actor unpublish_event db {row} h fits = record {
  last = unpublished row;
  found =
      update_event-written is_url unpublished id _ actor db (λ e. refl) h fits
        (ground (arith, same_type_refl row.event_type_id));
  storable = fits;
  flag = λ verbs. refl;
  stamp = λ verbs. ground arith;
}
apply-Left is_url id actor close_event db {row} h fits =
    let ending = sort_by stage_before (select_where (λ (s : StageRow). s.pipe_end) db.stages) in
    let known =
      All-sort_by (λ (s : StageRow). is_stage s.id db ≡ true) stage_before _
        (select-is_stage db db.stages (λ i there. there)) in
    record {
      last = closed (first_stage ending) row;
      found =
          update_event-written is_url (closed (first_stage ending)) id _ actor db (λ e. refl) h fits
            (closed-refers db row (first_stage ending)
              (λ stage e. first_stage-is_stage db stage ending known e));
      storable = fits;
      flag = λ verbs. refl;
      stamp = λ verbs. ground arith;
    }

-- Over every history of patches, publications, withdrawals and closings of a stored event whose row
-- keeps the declared CHECKs, in which a verb that the database refuses leaves everything as it was: the
-- event stays stored and keeps the CHECKs, it is published exactly as the last publish or unpublish of
-- the history says, and it carries the time of its first publication for good.
pub history-pair :
    (is_url : Text → Bool) (id : ℕ) (actor : Option ℕ) (verbs : List EventVerb) (db : Db)
    {row : EventRow}
    → find_event id db ≡ some row
    → is_storable is_url row ≡ true
    → (last : EventRow) × (find_event id (history is_url id actor verbs db) ≡ some last)
      × (is_storable is_url last ≡ true)
      × (last.is_published ≡ published_after verbs row.is_published)
      × (last.date_publish ≡ first_publish verbs row.date_publish)
unfolding history
history-pair is_url id actor [] db {row} h fits = (row, h, fits, refl, no_verbs row.date_publish)
  where
    no_verbs : (stamp : Option ℕ) → stamp ≡ first_publish [] stamp
    no_verbs none = refl
    no_verbs (some t) = refl
history-pair is_url id actor (v ∷ verbs) db {row} h fits =
    let left = apply-Left is_url id actor v db h fits in
    let (last, kept, still, flag, stamp) =
      history-pair is_url id actor verbs (stored db (apply is_url id actor v db)) left.found
        left.storable in
    (last, kept, still, flag ∙ left.flag verbs, stamp ∙ left.stamp verbs)
