-- ===== src/Capability/Sample.antt =====
-- A token library with one set of claims, that the examples run on: a link to event 1 for
-- registrations 52 and 51.
use backbone_events.Base.{
  ℕ, ◌≡◌, refl, Option, none, some, List, [], ◌∷◌, Bool, true, false, ◌&&◌, ◌==◌, ◌%◌,
  if◌then◌else◌, length, arith, Bool-cases, inl, inr,
}
use backbone_events.Base.Int.{ℤ, pos, negsuc}
use backbone_events.Base.Text.{Text, codes, text_eq, text_eq→eq}
use backbone_events.Capability.Token.{TokenLib, CapabilityClaims, purpose_ticket_report}
use backbone_events.Capability.Token.RoundTrip.{IsTokenLib}

abbrev pub link_claims : CapabilityClaims
link_claims = record {
  purpose = purpose_ticket_report;
  exp = pos 0;
  scope = (1 ∷ []) ∷ (51 ∷ []) ∷ (52 ∷ []) ∷ [];
}

abbrev texts_eq : List Text → List Text → Bool
texts_eq [] [] = true
texts_eq [] (t ∷ ts) = false
texts_eq (s ∷ ss) [] = false
texts_eq (s ∷ ss) (t ∷ ts) = text_eq s t && texts_eq ss ts

texts_eq→eq : (ss ts : List Text) → texts_eq ss ts ≡ true → ss ≡ ts
texts_eq→eq [] [] h = refl
texts_eq→eq [] (t ∷ ts) h = absurd (ground arith)
texts_eq→eq (s ∷ ss) [] h = absurd (ground arith)
texts_eq→eq (s ∷ ss) (t ∷ ts) h =
    let same : s ≡ t = text_eq→eq s t (ground arith) in
    let rest : ss ≡ ts = texts_eq→eq ss ts (ground arith) in cc (same, rest)

abbrev is_zero : ℤ → Bool
is_zero (pos n) = n == 0
is_zero (negsuc n) = false

is_zero→eq : (z : ℤ) → is_zero z ≡ true → z ≡ pos 0
is_zero→eq (pos n) h = ground arith
is_zero→eq (negsuc n) h = absurd (ground arith)

abbrev is_link : CapabilityClaims → Bool
is_link c =
    text_eq c.purpose link_claims.purpose && is_zero c.exp && texts_eq c.scope link_claims.scope

is_link→eq : (c : CapabilityClaims) → is_link c ≡ true → c ≡ link_claims
is_link→eq c h =
    let purpose = text_eq→eq c.purpose link_claims.purpose (ground arith) in
    let exp = is_zero→eq c.exp (ground arith) in
    let scope = texts_eq→eq c.scope link_claims.scope (ground arith) in cc (purpose, exp, scope)

abbrev pub toy : TokenLib
toy = record {
  hmac = λ key message. some (length key % 256 ∷ length message % 256 ∷ 9 ∷ []);
  to_json = λ c. if is_link c then some (b'{' ∷ b'}' ∷ []) else none;
  from_json = λ json. some link_claims;
  uuid_text = λ id. id ∷ [];
}

abbrev pub parse_toy : Text → Option ℕ
parse_toy [] = none
parse_toy (c ∷ s) = some c

abbrev pub secret : Text
secret = codes "key"

pub toy-IsTokenLib : IsTokenLib toy
toy-IsTokenLib = record {
  from_json-to_json = λ claims json h. elim (Bool-cases (is_link claims)) [
    | inl yes_link ↦ ground (arith, is_link→eq claims yes_link)
    | inr no_link ↦ absurd (ground arith)
  ];
  json-IsFilled = λ claims json h. elim (Bool-cases (is_link claims)) [
    | inl yes_link ↦ ground arith
    | inr no_link ↦ absurd (ground arith)
  ];
  mac-IsFilled = λ key message mac h. ground arith;
}
