-- ===== src/Capability/Token/RoundTrip.antt =====
-- A token that was minted, read again.
use backbone_events.Base.{
  ℕ, ◌≤◌, ◌≡◌, refl, sym, ap, ◌∙◌, false, some, List, [], ◌∷◌, ◌++◌, length, All, arith,
}
use backbone_events.Base.Text.{Text, text_eq_refl, text_contains, is_empty}
use backbone_events.Store.{
  ok, ok_or, refuse_if, >>=-eq-ok, ok_or-eq-ok, ok-injective, refuse_if-eq-ok,
}
use backbone_events.Capability.Base64.{b64url_encode, b64url_decode}
use backbone_events.Capability.Base64.RoundTrip.{
  IsByte, b64url_decode-encode, text_contains-b64url_encode, is_empty-b64url_encode,
}
use backbone_events.Capability.Token.{
  TokenLib, CapabilityClaims, signed_message, sign, mint, verify, verify_parts, version_tag,
  token_text, split_dot, token_parts, accept_claims, is_expired,
}

-- At least one byte.
abbrev pub IsFilled : List ℕ → Type 0
IsFilled bytes = (1 ≤ length bytes) × All IsByte bytes

-- What the other crates document: a JSON text that was written reads back, and neither it nor a MAC
-- is empty.
pub record IsTokenLib (lib : TokenLib) : Type 0 where
  pub from_json-to_json :
      (claims : CapabilityClaims) (json : List ℕ)
      → lib.to_json claims ≡ some json
      → lib.from_json json ≡ some claims
  pub json-IsFilled :
      (claims : CapabilityClaims) (json : List ℕ) → lib.to_json claims ≡ some json → IsFilled json
  pub mac-IsFilled :
      (key message : Text) (mac : List ℕ) → lib.hmac key message ≡ some mac → IsFilled mac

split_dot-front :
    (front rest : Text)
    → text_contains b'.' front ≡ false
    → split_dot (front ++ (b'.' ∷ rest)) ≡ (front, some rest)
unfolding split_dot
split_dot-front [] rest h = refl
split_dot-front (c ∷ front) rest h = ground (arith, split_dot-front front rest)

pub token_parts-token_text :
    (payload sig : Text)
    → text_contains b'.' payload ≡ false
    → token_parts (token_text payload sig) ≡ (version_tag, payload, sig)
unfolding token_parts token_text
token_parts-token_text payload sig h =
    cc (split_dot-front version_tag (payload ++ (b'.' ∷ sig)) refl, split_dot-front payload sig h)

pub encoding-filled : (bytes : List ℕ) → IsFilled bytes → is_empty (b64url_encode bytes) ≡ false
encoding-filled [] filled = absurd (omega (arith, filled.0))
encoding-filled (b ∷ bytes) filled = is_empty-b64url_encode b bytes

-- What a successful mint computed.
pub mint-eq-ok :
    (lib : TokenLib) (secret : Text) (claims : CapabilityClaims) {token : Text}
    → mint lib secret claims ≡ ok token
    → (json : List ℕ) × (sig : List ℕ) × (lib.to_json claims ≡ some json)
      × (sign lib secret claims.purpose (b64url_encode json) ≡ ok sig)
      × (token ≡ token_text (b64url_encode json) (b64url_encode sig))
unfolding mint
mint-eq-ok lib secret claims {token} h =
    let (json, encoded, signed) = >>=-eq-ok (ok_or (lib.to_json claims) _) _ h in
    let (sig, signs, minted) =
      >>=-eq-ok (sign lib secret claims.purpose (b64url_encode json)) _ signed in
    (json, sig, ok_or-eq-ok (lib.to_json claims) _ encoded, signs, sym (ok-injective minted))

pub sign-eq-ok :
    (lib : TokenLib) (secret purpose payload : Text) {sig : List ℕ}
    → sign lib secret purpose payload ≡ ok sig
    → (is_empty secret ≡ false) × (lib.hmac secret (signed_message purpose payload) ≡ some sig)
unfolding sign
sign-eq-ok lib secret purpose payload {sig} h =
    let (u, keyed, mac) = >>=-eq-ok (refuse_if (is_empty secret) _) _ h in
    (refuse_if-eq-ok (is_empty secret) _ keyed, ok_or-eq-ok _ _ mac)

accept_claims-of_payload :
    (lib : TokenLib) (claims : CapabilityClaims) (json : List ℕ) (now : ℕ)
    → IsTokenLib lib
    → lib.to_json claims ≡ some json
    → is_expired now claims.exp ≡ false
    → accept_claims lib claims.purpose (b64url_encode json) now ≡ ok claims
unfolding accept_claims
accept_claims-of_payload lib claims json now laws encoded live = cc (
  b64url_decode-encode json (laws.json-IsFilled claims json encoded).1,
  laws.from_json-to_json claims json encoded,
  text_eq_refl claims.purpose,
  live,
)

-- A token whose parts are in order goes on to the claims.
verify-signed :
    (lib : TokenLib) (secret expected token payload sig_b64 : Text) (now : ℕ) (sig : List ℕ)
    → token_parts token ≡ (version_tag, payload, sig_b64)
    → is_empty secret ≡ false
    → is_empty payload ≡ false
    → is_empty sig_b64 ≡ false
    → sign lib secret expected payload ≡ ok sig
    → b64url_decode sig_b64 ≡ some sig
    → verify lib secret expected token now ≡ accept_claims lib expected payload now
unfolding verify
verify-signed lib secret expected token payload sig_b64 now sig parts keyed filled tagged signs
      same =
    ap (λ p. verify_parts lib secret expected p.0 p.1 p.2 now) parts
    ∙ rw (verify_parts, signs, keyed, filled, tagged, same, text_eq_refl sig) refl

-- The token that `mint` made is verified under the same secret and the same purpose, and gives the
-- same claims, at every time before it expires. The JSON library reads back what it wrote and
-- neither it nor the MAC gives an empty or ill-formed sequence of bytes.
pub verify-mint :
    (lib : TokenLib) (secret : Text) (claims : CapabilityClaims) (now : ℕ) {token : Text}
    → IsTokenLib lib
    → mint lib secret claims ≡ ok token
    → is_expired now claims.exp ≡ false
    → verify lib secret claims.purpose token now ≡ ok claims
verify-mint lib secret claims now {token} laws minted live =
    let (json, sig, encoded, signs, shape) = mint-eq-ok lib secret claims minted in
    let (keyed, mac) = sign-eq-ok lib secret claims.purpose (b64url_encode json) signs in
    let json_filled = laws.json-IsFilled claims json encoded in
    let sig_filled = laws.mac-IsFilled secret _ sig mac in
    rw shape (
      verify-signed lib secret claims.purpose _ (b64url_encode json) (b64url_encode sig) now sig
        (token_parts-token_text _ _ (text_contains-b64url_encode json)) keyed
        (encoding-filled json json_filled) (encoding-filled sig sig_filled) signs
        (b64url_decode-encode sig sig_filled.1)
      ∙ accept_claims-of_payload lib claims json now laws encoded live)
