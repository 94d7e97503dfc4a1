-- ===== src/Capability/Token/Minted.antt =====
-- When a minted token is accepted.
use backbone_events.Base.{ℕ, ◌≡◌, sym, ap, ◌∙◌, ◌↔◌, false, some}
use backbone_events.Base.Text.{Text}
use backbone_events.Store.{ok}
use backbone_events.Capability.Base64.{b64url_encode, b64url_decode}
use backbone_events.Capability.Base64.RoundTrip.{b64url_decode-encode, text_contains-b64url_encode}
use backbone_events.Capability.Token.{
  TokenLib, CapabilityClaims, mint, verify, token_parts, is_expired,
}
use backbone_events.Capability.Token.RoundTrip.{
  IsTokenLib, token_parts-token_text, mint-eq-ok, verify-mint,
}
use backbone_events.Capability.Token.Refusal.{verify-eq-ok}

-- A token that `mint` made under a secret is accepted under it for exactly the purpose in its claims,
-- for exactly as long as they have not expired, and gives exactly these claims. The JSON library
-- reads back what it wrote, and neither it nor the MAC gives an empty or ill-formed sequence of
-- bytes.
pub verify-mint_iff :
    (lib : TokenLib) (secret expected : Text) (claims found : CapabilityClaims) (now : ℕ)
    {token : Text}
    → IsTokenLib lib
    → mint lib secret claims ≡ ok token
    → (verify lib secret expected token now ≡ ok found)
      ↔ ((found ≡ claims) × (expected ≡ claims.purpose) × (is_expired now claims.exp ≡ false))
verify-mint_iff lib secret expected claims found now {token} laws minted = (
  forward,
  λ (same, purposed, live).
      rw (same, purposed) (verify-mint lib secret claims now laws minted live),
)
  where
    forward :
        verify lib secret expected token now ≡ ok found
        → (found ≡ claims) × (expected ≡ claims.purpose) × (is_expired now claims.exp ≡ false)
    forward accepted =
        let (json, sig, encoded, signs, shape) = mint-eq-ok lib secret claims minted in
        let (
          payload, sig_b64, read, mac, parts, hashed, tagged, decodes, parsed, purposed, live,
          keyed,
        ) =
          verify-eq-ok lib secret expected token now accepted in
        let same_parts =
          sym parts
          ∙ ap token_parts shape
          ∙ token_parts-token_text _ _ (text_contains-b64url_encode json) in
        let same_payload : payload ≡ b64url_encode json = cc same_parts in
        let same_json : some read ≡ some json =
          sym decodes
          ∙ ap b64url_decode same_payload
          ∙ b64url_decode-encode json (laws.json-IsFilled claims json encoded).1 in
        let same_claims : found ≡ claims =
          cc (parsed, same_json, laws.from_json-to_json claims json encoded) in
        (same_claims, cc (purposed, same_claims), cc (live, same_claims))
