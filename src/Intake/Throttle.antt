-- ===== src/Intake/Throttle.antt =====
-- How many intakes of one identity succeed in one window (intake_service.rs).
use backbone_events.Base.{
  ℕ, ◌+◌, ◌≤◌, ◌<◌, ◌≡◌, refl, sym, ap, ◌∙◌, Option, none, some, List, [], ◌∷◌, ◌++◌, Bool, true,
  false, ◌&&◌, leb, arith, ◌||◌, if◌then◌else◌, find_where, update_where, All, one_if, Bool-cases,
  inl, inr, find_where-update_one, find_where-update_other,
}
use backbone_events.Base.Text.{Text, codes, text_eq, text_eq_refl, text_eq→eq}
use backbone_events.Store.{Db, Result, ok, err}
use backbone_events.Seat.{Env}
use backbone_events.Intake.{
  IntakePayload, Window, is_window_of, reopened, open_window, count_hit, allow, IntakeThrottles,
  IntakeState, identity_key, ip_key, after_throttle, throttle, intake,
}

-- No window of the key stands open at the time: there is none, or its seconds have run out.
abbrev pub IsShut : ℕ → ℕ → Option Window → Type 0
IsShut since window_secs none = Unit {0}
IsShut since window_secs (some w) = w.start + window_secs ≤ since

-- The hits that a key has in a window whose seconds have not run out at the time.
abbrev used : ℕ → ℕ → Option Window → ℕ
used since window_secs none = 0
used since window_secs (some w) = if leb (w.start + window_secs) since then 0 else w.count

-- The window of the key began at the time or later, or it had run out by then.
abbrev SinceWindow : ℕ → ℕ → Option Window → Type 0
SinceWindow since window_secs none = Unit {0}
SinceWindow since window_secs (some w) =
    leb since w.start || leb (w.start + window_secs) since ≡ true

abbrev pub window_of : Text → List Window → Option Window
window_of key ws = find_where (is_window_of key) ws

counted_key :
    (key : Text) (ws : List Window) {w : Window}
    → window_of key ws ≡ some w
    → window_of key (update_where (is_window_of key) (λ v. record v { count = v.count + 1 }) ws)
      ≡ some (record w { count = w.count + 1 })
counted_key key ws = find_where-update_one (is_window_of key) _ (λ v. refl) ws

module _ (now since max window_secs : ℕ) (key : Text) (late : since ≤ now)
    (early : now < since + window_secs) where
  abbrev Hit : ℕ → Bool × List Window → Type 0
  Hit before out =
      SinceWindow since window_secs (window_of key out.1)
      × (used since window_secs (window_of key out.1) ≡ before + one_if out.0)
      × (before ≤ max → used since window_secs (window_of key out.1) ≤ max)

  count_hit-Hit :
      (ws : List Window) (w : Window)
      → window_of key ws ≡ some w
      → since ≤ w.start
      → Hit w.count (count_hit max key (some w) ws)
  count_hit-Hit ws w found began = elim (Bool-cases (leb max w.count)) [
    | inl full ↦ rw (full, found) (ground arith, ground arith, λ h. ground arith)
    | inr room ↦ rw (room, counted_key key ws found) (ground arith, ground arith, λ h. ground arith)
  ]

  -- A window that is opened again, or kept, began within the span and has the same hits in it.
  reopened-since :
      (w : Window)
      → SinceWindow since window_secs (some w)
      → (since ≤ (reopened now window_secs w).start)
        × ((reopened now window_secs w).count ≡ used since window_secs (some w))
  reopened-since w began = (ground arith, ground arith)

  allow-Hit :
      (ws : List Window)
      → SinceWindow since window_secs (window_of key ws)
      → Hit (used since window_secs (window_of key ws)) (allow now key max window_secs ws)
  unfolding allow
  allow-Hit ws began = opened (window_of key ws) refl began
    where
      opened :
          (before : Option Window)
          → window_of key ws ≡ before
          → SinceWindow since window_secs before
          → let here = open_window now window_secs key before ws in
            Hit (used since window_secs before) (count_hit max key (window_of key here) here)
      opened none f b =
          let new : Window = record { key = key; start = now; count = 0 } in
          let found : window_of key (new ∷ ws) ≡ some new = rw (text_eq_refl key) refl in
          rw found (count_hit-Hit (new ∷ ws) new found late)
      opened (some w) f b =
          let kept = update_where (is_window_of key) (reopened now window_secs) ws in
          let found : window_of key kept ≡ some (reopened now window_secs w) =
            find_where-update_one (is_window_of key) (reopened now window_secs) (λ v. ground arith)
              ws f in
          let (start, count) = reopened-since w b in
          rw (found, sym count) (count_hit-Hit kept (reopened now window_secs w) found start)

-- A hit of another key leaves the window of this one.
allow-other :
    (now : ℕ) (other key : Text) (max window_secs : ℕ) (ws : List Window)
    → text_eq other key ≡ false
    → window_of key (allow now other max window_secs ws).1 ≡ window_of key ws
unfolding allow
allow-other now other key max window_secs ws apart =
    let here = open_window now window_secs other (window_of other ws) ws in
    count_other here (window_of other here) ∙ open_other (window_of other ws)
  where
    elsewhere : (w : Window) → is_window_of key w ≡ true → is_window_of other w ≡ false
    elsewhere w mine = elim (Bool-cases (is_window_of other w)) [
      | inl both ↦
          let same : other ≡ key = sym (text_eq→eq w.key other both) ∙ text_eq→eq w.key key mine in
          absurd (ground (arith, ap (λ t. text_eq t key) same, text_eq_refl key))
      | inr single ↦ single
    ]

    open_other :
        (before : Option Window)
        → window_of key (open_window now window_secs other before ws) ≡ window_of key ws
    open_other none = rw apart refl
    open_other (some w) =
        find_where-update_other (is_window_of key) (is_window_of other) (reopened now window_secs)
          elsewhere (λ v h. ground arith) ws

    count_other :
        (vs : List Window) (found : Option Window)
        → window_of key (count_hit max other found vs).1 ≡ window_of key vs
    count_other vs none = refl
    count_other vs (some w) = elim (Bool-cases (leb max w.count)) [
      | inl full ↦ rw full refl
      | inr room ↦ rw room (
          find_where-update_other (is_window_of key) (is_window_of other) _ elsewhere (λ v h. refl)
            vs)
    ]

-- An intake as it arrives.
pub record Arrival : Type 0 where
  pub env : Env
  pub now : ℕ
  pub event_id : ℕ
  pub payload : IntakePayload
  pub client_ip : Text

abbrev is_ok {ℓ} : {A : Type ℓ} → Result A → Bool
is_ok (ok a) = true
is_ok (err e) = false

module _ (to_lowercase : Text → Text) (limits : IntakeThrottles) where
  -- The intakes of the identity that registered somebody.
  pub registered_by : Text → List Arrival → IntakeState → ℕ
  registered_by identity [] st = 0
  registered_by identity (a ∷ arrivals) st =
      let (answer, next) =
        intake to_lowercase limits a.env a.now a.event_id a.payload a.client_ip st in
      one_if (text_eq (to_lowercase a.payload.email) identity && is_ok answer)
      + registered_by identity arrivals next

  abbrev key_of : Text → Text
  key_of identity = codes "identity:" ++ identity

  one_if_le : (b : Bool) → one_if b ≤ 1
  one_if_le true = omega arith
  one_if_le false = omega arith

  -- What a throttled arrival does to the window of an identity.
  abbrev Throttled : ℕ → Text → Option Window → Bool → Bool × List Window → Type 0
  Throttled since identity before mine out =
      SinceWindow since limits.per_identity_window_secs (window_of (key_of identity) out.1)
      × (used since limits.per_identity_window_secs before + one_if (mine && out.0)
          ≤ used since limits.per_identity_window_secs (window_of (key_of identity) out.1))
      × (used since limits.per_identity_window_secs before ≤ limits.per_identity_max
          → used since limits.per_identity_window_secs (window_of (key_of identity) out.1)
            ≤ limits.per_identity_max)

  throttle-mine :
      (since now : ℕ) (email identity client_ip : Text) (ws : List Window)
      → since ≤ now
      → now < since + limits.per_identity_window_secs
      → to_lowercase email ≡ identity
      → SinceWindow since limits.per_identity_window_secs (window_of (key_of identity) ws)
      → Throttled since identity
          (window_of (key_of identity) ws)
          true
          (throttle to_lowercase limits now email client_ip ws)
  unfolding throttle
  throttle-mine since now email identity client_ip ws late early same began =
      let key = key_of identity in
      let first = allow now key limits.per_identity_max limits.per_identity_window_secs ws in
      let (still, more, within) =
        allow-Hit now since limits.per_identity_max limits.per_identity_window_secs key late early
          ws began in
      let apart =
        allow-other now (ip_key client_ip) key limits.per_ip_max limits.per_ip_window_secs first.1
          refl in
      rw same (elim (Bool-cases first.0) [
        | inl admitted ↦
            rw (admitted, apart)
              (
                still,
                omega (
                  arith,
                  rw admitted at more,
                  one_if_le
                      (allow now (ip_key client_ip) limits.per_ip_max limits.per_ip_window_secs
                        first.1).0,
                ),
                within,
              )
        | inr refused ↦ rw refused (still, omega (arith, more), within)
      ])

  throttle-other :
      (since now : ℕ) (email identity client_ip : Text) (ws : List Window)
      → text_eq (to_lowercase email) identity ≡ false
      → SinceWindow since limits.per_identity_window_secs (window_of (key_of identity) ws)
      → Throttled since identity
          (window_of (key_of identity) ws)
          false
          (throttle to_lowercase limits now email client_ip ws)
  unfolding throttle
  throttle-other since now email identity client_ip ws other began =
      let first =
        allow now (identity_key to_lowercase email) limits.per_identity_max
          limits.per_identity_window_secs ws in
      let same =
        allow-other now (identity_key to_lowercase email) (key_of identity) limits.per_identity_max
          limits.per_identity_window_secs ws other in
      let apart =
        allow-other now (ip_key client_ip) (key_of identity) limits.per_ip_max
          limits.per_ip_window_secs first.1 refl in
      elim (Bool-cases first.0) [
        | inl admitted ↦ rw (admitted, apart, same) (began, omega arith, λ h. h)
        | inr refused ↦ rw (refused, same) (began, omega arith, λ h. h)
      ]

  -- The arrival falls into the window-long span that begins at `since`.
  abbrev pub IsWithin : ℕ → Arrival → Type 0
  IsWithin since a = (since ≤ a.now) × (a.now < since + limits.per_identity_window_secs)

  both_le :
      (mine answered admitted : Bool)
      → (answered ≡ true → admitted ≡ true)
      → one_if (mine && answered) ≤ one_if (mine && admitted)
  both_le mine answered admitted h = ground (arith, h)

  -- Only an admitted arrival can register, and the windows are the throttle's.
  after_throttle-admitted :
      (env : Env) (event_id : ℕ) (payload : IntakePayload) (db : Db) (out : Bool × List Window)
      → let answer = after_throttle limits env event_id payload db out in
        (answer.1.windows ≡ out.1) × (is_ok answer.0 ≡ true → out.0 ≡ true)
  after_throttle-admitted env event_id payload db (false, ws) = (refl, λ h. h)
  after_throttle-admitted env event_id payload db (true, ws) = (refl, λ h. refl)

  intake-Throttled :
      (since : ℕ) (identity : Text) (a : Arrival) (st : IntakeState)
      → IsWithin since a
      → SinceWindow since limits.per_identity_window_secs (window_of (key_of identity) st.windows)
      → let mine = text_eq (to_lowercase a.payload.email) identity in
        Throttled since identity
          (window_of (key_of identity) st.windows)
          mine
          (throttle to_lowercase limits a.now a.payload.email a.client_ip st.windows)
  intake-Throttled since identity a st (late, early) began =
      elim (Bool-cases (text_eq (to_lowercase a.payload.email) identity)) [
        | inl mine ↦ rw mine (
            throttle-mine since a.now a.payload.email identity a.client_ip st.windows late early
              (text_eq→eq _ identity mine) began)
        | inr other ↦
            rw other (
              throttle-other since a.now a.payload.email identity a.client_ip st.windows other
                began)
      ]

  registered_by-budget :
      (since : ℕ) (identity : Text) (arrivals : List Arrival) (st : IntakeState)
      → All (IsWithin since) arrivals
      → SinceWindow since limits.per_identity_window_secs (window_of (key_of identity) st.windows)
      → used since limits.per_identity_window_secs (window_of (key_of identity) st.windows)
        ≤ limits.per_identity_max
      → registered_by identity arrivals st
          + used since limits.per_identity_window_secs (window_of (key_of identity) st.windows)
        ≤ limits.per_identity_max
  unfolding registered_by intake
  registered_by-budget since identity [] st within began budget = omega arith
  registered_by-budget since identity (a ∷ arrivals) st within began budget =
      let out = throttle to_lowercase limits a.now a.payload.email a.client_ip st.windows in
      let answer = after_throttle limits a.env a.event_id a.payload st.db out in
      let (same, admitted) = after_throttle-admitted a.env a.event_id a.payload st.db out in
      let (still, more, kept) = intake-Throttled since identity a st within.0 began in
      let rest =
        registered_by-budget since identity arrivals answer.1 within.1 (rw same still)
          (rw same (kept budget)) in
      let mine = text_eq (to_lowercase a.payload.email) identity in
      omega (arith, rw same at rest, more, both_le mine (is_ok answer.0) out.0 admitted)

  -- A window that had run out by the time counts as none.
  shut-unused :
      (since : ℕ) (w : Option Window)
      → IsShut since limits.per_identity_window_secs w
      → SinceWindow since limits.per_identity_window_secs w
        × (used since limits.per_identity_window_secs w ≤ 0)
  shut-unused since none shut = (tt, omega arith)
  shut-unused since (some w) shut = (ground arith, ground arith)

  -- Within a span as long as the identity's window, at whose start no window of the identity stands
  -- open (it has none, or one whose seconds have run out), at most `per_identity_max` intakes of the
  -- identity register somebody, whatever other identities and addresses arrive between them and
  -- whichever of its intakes are refused.
  pub registered_by-le-max :
      (since : ℕ) (identity : Text) (arrivals : List Arrival) (st : IntakeState)
      → All (IsWithin since) arrivals
      → IsShut since limits.per_identity_window_secs
          (window_of (codes "identity:" ++ identity) st.windows)
      → registered_by identity arrivals st ≤ limits.per_identity_max
  registered_by-le-max since identity arrivals st within shut =
      let (began, unused) = shut-unused since (window_of (key_of identity) st.windows) shut in
      omega (
        arith,
        registered_by-budget since identity arrivals st within began (omega (arith, unused)),
      )
