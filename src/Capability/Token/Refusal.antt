-- ===== src/Capability/Token/Refusal.antt =====
-- What `verify` answers on the tokens that it does not accept, and what it has checked of the others.
use backbone_events.Base.{
  ℕ, ◌≡◌, refl, sym, ap, ◌∙◌, subst, Bool, true, false, not, ◌||◌, Option, none, some, List,
  not-false, is_some, arith,
}
use backbone_events.Base.Text.{Text, text_eq, text_eq→eq, is_empty}
use backbone_events.Store.{
  Result, ok, err, EventError, ◌>>=◌, ◌>>◌, ok_or, refuse_if, >>=-eq-ok, ok_or-eq-ok,
  refuse_if-eq-ok, ok-injective,
}
use backbone_events.Capability.Base64.{b64url_decode}
use backbone_events.Capability.Token.{
  TokenLib, CapabilityClaims, signed_message, sign, verify, verify_parts, version_tag, token_parts,
  accept_claims, is_expired,
}
use backbone_events.Capability.Token.RoundTrip.{sign-eq-ok}

abbrev no_event : EventError
no_event = EventError.event_not_published

-- The only error of a result is the one of a missing event.
module _ {ℓ} {A : Type ℓ} where
  Uniform : Result A → Type ℓ
  Uniform r = (e : EventError) → r ≡ err e → e ≡ no_event

-- The signature is good, and the claims are those of the payload.
accept_claims-eq-ok :
    (lib : TokenLib) (expected payload : Text) (now : ℕ) {claims : CapabilityClaims}
    → accept_claims lib expected payload now ≡ ok claims
    → (json : List ℕ) × (b64url_decode payload ≡ some json)
      × (lib.from_json json ≡ some claims)
      × (claims.purpose ≡ expected)
      × (is_expired now claims.exp ≡ false)
unfolding accept_claims
accept_claims-eq-ok lib expected payload now {claims} h =
    let (json, decoded, parsed) = >>=-eq-ok (ok_or (b64url_decode payload) no_event) _ h in
    let (found, read, checked) = >>=-eq-ok (ok_or (lib.from_json json) no_event) _ parsed in
    let (u, purposed, timed) =
      >>=-eq-ok (refuse_if (not (text_eq found.purpose expected)) no_event) _ checked in
    let (v, live, same) = >>=-eq-ok (refuse_if (is_expired now found.exp) no_event) _ timed in
    let e = ok-injective same in
    (
      json,
      ok_or-eq-ok (b64url_decode payload) no_event decoded,
      ok_or-eq-ok (lib.from_json json) no_event read ∙ ap some e,
      subst (λ (c : CapabilityClaims). c.purpose ≡ expected) e
          (text_eq→eq found.purpose expected (not-false (refuse_if-eq-ok _ no_event purposed))),
      subst (λ (c : CapabilityClaims). is_expired now c.exp ≡ false) e
          (refuse_if-eq-ok _ no_event live),
    )

-- A token that `verify` accepts is of version v1 and carries, in its third part, the MAC under the
-- given secret of the expected purpose with the token's own payload. The claims returned are those
-- of that payload, their purpose is the expected one and they have not expired. The secret is not
-- empty.
pub verify-eq-ok :
    (lib : TokenLib) (secret expected token : Text) (now : ℕ) {claims : CapabilityClaims}
    → verify lib secret expected token now ≡ ok claims
    → (payload : Text) × (sig_b64 : Text) × (json : List ℕ) × (mac : List ℕ) × (token_parts token
        ≡ (version_tag, payload, sig_b64))
      × (lib.hmac secret (signed_message expected payload) ≡ some mac)
      × (b64url_decode sig_b64 ≡ some mac)
      × (b64url_decode payload ≡ some json)
      × (lib.from_json json ≡ some claims)
      × (claims.purpose ≡ expected)
      × (is_expired now claims.exp ≡ false)
      × (is_empty secret ≡ false)
unfolding verify verify_parts
verify-eq-ok lib secret expected token now {claims} h =
    let (version, payload, sig_b64) = token_parts token in
    let (u, keyed, shaped) =
      >>=-eq-ok (refuse_if (is_empty secret) EventError.event_capability_secret_not_configured) _
        h in
    let malformed = not (text_eq version version_tag) || is_empty payload || is_empty sig_b64 in
    let (v, shape, signed) = >>=-eq-ok (refuse_if malformed no_event) _ shaped in
    let (mac, signs, compared) = >>=-eq-ok (sign lib secret expected payload) _ signed in
    let (given, decoded, equal) = >>=-eq-ok (ok_or (b64url_decode sig_b64) no_event) _ compared in
    let (w, same, accepted) = >>=-eq-ok (refuse_if (not (text_eq mac given)) no_event) _ equal in
    let (json, decodes, reads, purposed, live) =
      accept_claims-eq-ok lib expected payload now accepted in
    let (filled, hashed) = sign-eq-ok lib secret expected payload signs in
    let tagged : version ≡ version_tag =
      text_eq→eq version version_tag (ground (arith, refuse_if-eq-ok malformed no_event shape)) in
    let e : mac ≡ given = text_eq→eq mac given (not-false (refuse_if-eq-ok _ no_event same)) in
    (
      payload,
      sig_b64,
      json,
      mac,
      ap (λ (t : Text). (t, payload, sig_b64)) tagged,
      hashed,
      ok_or-eq-ok (b64url_decode sig_b64) no_event decoded ∙ ap some (sym e),
      decodes,
      reads,
      purposed,
      live,
      filled,
    )

module _ {ℓ κ} {A : Type ℓ} {B : Type κ} where
  Uniform->>= :
      (first : Result A) (next : A → Result B)
      → Uniform first
      → ((a : A) → Uniform (next a))
      → Uniform (first >>= next)
  unfolding Uniform
  Uniform->>= (err refusal) next h k e r = h e (cc r)
  Uniform->>= (ok done) next h k e r = k done e r

Uniform-ok_or {ℓ} : {A : Type ℓ} (o : Option A) → Uniform (ok_or o no_event)
unfolding Uniform
Uniform-ok_or none e r = cc r
Uniform-ok_or (some a) e r = cc r

Uniform-refuse_if : (b : Bool) → Uniform (refuse_if b no_event)
unfolding Uniform
Uniform-refuse_if true e r = cc r
Uniform-refuse_if false e r = cc r

Uniform-ok {ℓ} : {A : Type ℓ} (a : A) → Uniform (ok a)
unfolding Uniform
Uniform-ok a e r = cc r

-- A test that has passed is no source of errors.
Uniform-passed {ℓ} :
    {B : Type ℓ} (b : Bool) (other : EventError) (next : Result B)
    → b ≡ false
    → Uniform next
    → Uniform (refuse_if b other >> next)
unfolding Uniform
Uniform-passed true other next h k e r = cc
Uniform-passed false other next h k e r = k e r

accept_claims-Uniform :
    (lib : TokenLib) (expected payload : Text) (now : ℕ)
    → Uniform (accept_claims lib expected payload now)
unfolding accept_claims
accept_claims-Uniform lib expected payload now =
    Uniform->>= (ok_or (b64url_decode payload) no_event) _ (Uniform-ok_or _) λ json.
      Uniform->>= (ok_or (lib.from_json json) no_event) _ (Uniform-ok_or _) λ found.
        Uniform->>= (refuse_if (not (text_eq found.purpose expected)) no_event) _
          (Uniform-refuse_if _)
          λ u.
            Uniform->>= (refuse_if (is_expired now found.exp) no_event) _ (Uniform-refuse_if _)
              λ v. Uniform-ok found

sign-Uniform :
    (lib : TokenLib) (secret purpose payload : Text)
    → is_empty secret ≡ false
    → is_some (lib.hmac secret (signed_message purpose payload)) ≡ true
    → Uniform (sign lib secret purpose payload)
unfolding Uniform sign
sign-Uniform lib secret purpose payload keyed hashed e r = ground arith

-- With a secret, and a MAC that takes every key, whatever is wrong with a token gives the one answer
-- of a missing event: its version, its shape, its signature, its payload, its purpose or its expiry.
-- Without a secret every token is refused as not configured.
pub verify_errors :
    (lib : TokenLib) (secret expected token : Text) (now : ℕ)
    → ((message : Text) → is_some (lib.hmac secret message) ≡ true)
    → ((e : EventError)
        → is_empty secret ≡ false
        → verify lib secret expected token now ≡ err e
        → e ≡ EventError.event_not_published)
      × (is_empty secret ≡ true
          → verify lib secret expected token now
            ≡ err EventError.event_capability_secret_not_configured)
unfolding verify verify_parts Uniform
verify_errors lib secret expected token now hashed =
    let (version, payload, sig_b64) = token_parts token in
    let malformed = not (text_eq version version_tag) || is_empty payload || is_empty sig_b64 in
    (
      λ e keyed r.
          Uniform-passed (is_empty secret) _ _ keyed
            (Uniform->>= (refuse_if malformed no_event) _ (Uniform-refuse_if _) λ u.
              Uniform->>= (sign lib secret expected payload) _
                (sign-Uniform lib secret expected payload keyed (hashed _))
                λ mac.
                  Uniform->>= (ok_or (b64url_decode sig_b64) no_event) _ (Uniform-ok_or _) λ given.
                    Uniform->>= (refuse_if (not (text_eq mac given)) no_event) _
                      (Uniform-refuse_if _) λ v. accept_claims-Uniform lib expected payload now)
            e r,
      λ none_set. rw none_set refl,
    )
