-- ===== src/Capability/Examples.antt =====
-- The properties of the capability tokens at concrete tokens.
use backbone_events.Base.{ℕ, ◌≡◌, refl, ◌↔◌, some, List, [], ◌∷◌, true, false, arith}
use backbone_events.Base.Text.{Text, is_empty}
use backbone_events.Store.{ok, err, EventError}
use backbone_events.Samples.{value}
use backbone_events.Capability.Base64.{b64url_encode, b64url_decode, symbol}
use backbone_events.Capability.Base64.RoundTrip.{b64url_decode-encode}
use backbone_events.Capability.Token.{
  purpose_ics, purpose_ticket_report, signed_message, mint, verify, version_tag, token_parts,
  is_expired,
}
use backbone_events.Capability.Token.Refusal.{verify-eq-ok, verify_errors}
use backbone_events.Capability.Token.Minted.{verify-mint_iff}
use backbone_events.Capability.Sample.{toy, secret, link_claims, toy-IsTokenLib}

b64url_decode-encode_example :
    b64url_decode (b64url_encode (0 ∷ 255 ∷ 62 ∷ 63 ∷ [])) ≡ some (0 ∷ 255 ∷ 62 ∷ 63 ∷ [])
b64url_decode-encode_example =
    b64url_decode-encode (0 ∷ 255 ∷ 62 ∷ 63 ∷ [])
      (omega arith, (omega arith, (omega arith, (omega arith, tt))))

abbrev link : Text
link = value [] (mint toy secret link_claims)

link-minted : mint toy secret link_claims ≡ ok link
unfolding mint
link-minted = refl

verify-mint_iff_example : (verify toy secret purpose_ticket_report link 10 ≡ ok link_claims) ↔ (
    (link_claims ≡ link_claims)
    × (purpose_ticket_report ≡ link_claims.purpose)
    × (is_expired 10 link_claims.exp ≡ false))
verify-mint_iff_example =
    verify-mint_iff toy secret purpose_ticket_report link_claims link_claims 10 {token = link}
      toy-IsTokenLib link-minted

link-verified : verify toy secret purpose_ticket_report link 10 ≡ ok link_claims
unfolding verify mint symbol
link-verified = refl

verify-eq-ok_example :
    (payload : Text) × (sig_b64 : Text) × (json : List ℕ) × (mac : List ℕ) × (token_parts link
      ≡ (version_tag, payload, sig_b64))
    × (toy.hmac secret (signed_message purpose_ticket_report payload) ≡ some mac)
    × (b64url_decode sig_b64 ≡ some mac)
    × (b64url_decode payload ≡ some json)
    × (toy.from_json json ≡ some link_claims)
    × (link_claims.purpose ≡ purpose_ticket_report)
    × (is_expired 10 link_claims.exp ≡ false)
    × (is_empty secret ≡ false)
verify-eq-ok_example =
    verify-eq-ok toy secret purpose_ticket_report link 10 {claims = link_claims} link-verified

verify_errors_example :
    ((e : EventError)
      → is_empty secret ≡ false
      → verify toy secret purpose_ics link 10 ≡ err e
      → e ≡ EventError.event_not_published)
    × (is_empty secret ≡ true
        → verify toy secret purpose_ics link 10
          ≡ err EventError.event_capability_secret_not_configured)
verify_errors_example = verify_errors toy secret purpose_ics link 10 (λ message. refl)
