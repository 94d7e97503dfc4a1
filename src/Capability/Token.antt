-- ===== src/Capability/Token.antt =====
-- `sign`, `mint` and `verify` of capability.rs, and the two purposes that the module mints for.
-- HMAC-SHA256, the JSON of the claims and the text of a uuid are other crates' code: they are the
-- fields of `TokenLib`.
pub mod RoundTrip
pub mod Refusal
pub mod Minted
use backbone_events.Base.{
  ℕ, Bool, true, false, not, Option, none, some, List, [], ◌∷◌, ◌++◌, map, ◌&&◌, ◌||◌, leb, ◌==◌,
  if◌then◌else◌, sort_by, String,
}
use backbone_events.Base.Int.{ℤ, pos, negsuc, ◌+ℤ◌}
use backbone_events.Base.Text.{Text, codes, text_eq, text_leb, is_empty}
use backbone_events.Store.{Result, ok, err, EventError, ◌>>=◌, ◌>>◌, ok_or, refuse_if}
use backbone_events.Capability.Base64.{b64url_encode, b64url_decode}

abbrev pub purpose_ics : Text
purpose_ics = codes "event-ics-access"

abbrev pub purpose_ticket_report : Text
purpose_ticket_report = codes "event-registration-ticket-report-access"

abbrev pub capability_context : Text
capability_context = codes "event-capability-v1"

pub record CapabilityClaims : Type 0 where
  pub purpose : Text
  -- unix seconds; 0 never expires
  pub exp : ℤ
  -- the source's `data`
  pub scope : List Text

-- What the other crates compute: a refused key or value is `none`.
pub record TokenLib : Type 0 where
  pub hmac : (key message : Text) → Option (List ℕ)
  pub to_json : CapabilityClaims → Option (List ℕ)
  pub from_json : List ℕ → Option CapabilityClaims
  pub uuid_text : ℕ → Text

-- What the MAC is computed over: the context, the purpose and the payload, a line each.
unfoldable pub signed_message : (purpose payload : Text) → Text
signed_message purpose payload = capability_context ++ (b'\n' ∷ (purpose ++ (b'\n' ∷ payload)))

unfoldable pub sign : TokenLib → (secret purpose payload : Text) → Result (List ℕ)
unfolding signed_message
sign lib secret purpose payload =
    refuse_if (is_empty secret) EventError.event_capability_secret_not_configured
    >> ok_or (lib.hmac secret (signed_message purpose payload))
        (EventError.internal "capability secret rejected by HMAC")

abbrev pub version_tag : Text
version_tag = codes "v1"

-- format!("v1.{payload_b64}.{sig_b64}")
unfoldable pub token_text : (payload_b64 sig_b64 : Text) → Text
token_text payload_b64 sig_b64 = version_tag ++ (b'.' ∷ (payload_b64 ++ (b'.' ∷ sig_b64)))

unfoldable pub mint : TokenLib → Text → CapabilityClaims → Result Text
unfolding sign b64url_encode token_text
mint lib secret claims =
    ok_or (lib.to_json claims) (EventError.internal "capability payload encode") >>= λ payload.
    let payload_b64 = b64url_encode payload in
    sign lib secret claims.purpose payload_b64 >>= λ sig.
    ok (token_text payload_b64 (b64url_encode sig))

-- The text before the first dot, and the text after it if there is a dot.
unfoldable pub split_dot : Text → Text × Option Text
split_dot [] = ([], none)
split_dot (c ∷ s) =
    let (front, back) = split_dot s in if b'.' == c then ([], some s) else (c ∷ front, back)

-- `unwrap_or_default()` on the next part.
abbrev pub next_part : Option Text → Text × Option Text
next_part none = ([], none)
next_part (some rest) = split_dot rest

abbrev pub last_part : Option Text → Text
last_part none = []
last_part (some rest) = rest

-- token.splitn(3, '.')
unfoldable pub token_parts : Text → Text × Text × Text
unfolding split_dot
token_parts token =
    let (version, after_version) = split_dot token in
    let (payload, after_payload) = next_part after_version in
    (version, payload, last_part after_payload)

-- claims.exp != 0 && now.timestamp() >= claims.exp; the clock stands at or after 1970.
abbrev pub is_expired : ℕ → ℤ → Bool
is_expired now (pos e) = not (e == 0) && leb e now
is_expired now (negsuc e) = true

-- What is asked of the claims once the signature has been found good.
unfoldable pub accept_claims : TokenLib → Text → Text → ℕ → Result CapabilityClaims
unfolding b64url_decode
accept_claims lib expected payload_b64 now =
    ok_or (b64url_decode payload_b64) EventError.event_not_published >>= λ payload.
    ok_or (lib.from_json payload) EventError.event_not_published >>= λ claims.
    refuse_if (not (text_eq claims.purpose expected)) EventError.event_not_published
    >> (refuse_if (is_expired now claims.exp) EventError.event_not_published >> ok claims)

-- The body of `verify` after the token has been split.
unfoldable pub verify_parts :
    TokenLib → (secret expected version payload_b64 sig_b64 : Text) → ℕ → Result CapabilityClaims
unfolding sign b64url_decode accept_claims
verify_parts lib secret expected version payload_b64 sig_b64 now =
    refuse_if (is_empty secret) EventError.event_capability_secret_not_configured
    >> (refuse_if (not (text_eq version version_tag) || is_empty payload_b64 || is_empty sig_b64)
          EventError.event_not_published
        >> (sign lib secret expected payload_b64 >>= λ expected_sig.
            ok_or (b64url_decode sig_b64) EventError.event_not_published >>= λ given_sig.
            refuse_if (not (text_eq expected_sig given_sig)) EventError.event_not_published
            >> accept_claims lib expected payload_b64 now))

unfoldable pub verify : TokenLib → (secret expected token : Text) → ℕ → Result CapabilityClaims
unfolding token_parts verify_parts
verify lib secret expected token now =
    let (version, payload_b64, sig_b64) = token_parts token in
    verify_parts lib secret expected version payload_b64 sig_b64 now

unfoldable pub mint_ics_capability : TokenLib → Text → ℕ → Option ℕ → ℕ → ℤ → Result Text
unfolding mint
mint_ics_capability lib secret event_id slot_id now ttl_secs = mint lib secret record {
  purpose = purpose_ics;
  exp = pos now +ℤ ttl_secs;
  scope = lib.uuid_text event_id ∷ slot_data;
}
  where
    slot_data : List Text
    slot_data = elim slot_id [ none ↦ [] | some slot ↦ lib.uuid_text slot ∷ [] ]

unfoldable pub mint_ticket_report_capability : TokenLib → Text → ℕ → List ℕ → Result Text
unfolding mint
mint_ticket_report_capability lib secret event_id registration_ids = mint lib secret record {
  purpose = purpose_ticket_report;
  exp = pos 0;
  scope = lib.uuid_text event_id ∷ sort_by text_leb (map lib.uuid_text registration_ids);
}
