-- ===== src/Capability/Base64.antt =====
-- `b64url_encode` and `b64url_decode` of capability.rs: base64 over the URL-safe alphabet, without
-- padding. A byte is a number below 256; `<<`, `>>` and `&` on a u32 are written as arithmetic, and
-- `|` as `+` where its arguments share no bit.
use backbone_events.Base.{
  ℕ, zero, suc, ◌+◌, ◌-◌, ◌*◌, ◌/◌, ◌%◌, ◌^◌, Option, none, some, List, [], ◌∷◌, ◌&&◌, leb, ◌==◌,
  if◌then◌else◌, map_option,
}
use backbone_events.Base.Text.{Text, codes, is_empty}
pub mod RoundTrip

abbrev pub alphabet : Text
alphabet = codes "ABCDEFGHIJKLMNOPQRSTUVWXYZabcdefghijklmnopqrstuvwxyz0123456789-_"

-- `ALPHA[i]`; the callers' index is below 64.
unfoldable pub symbol_at : ℕ → Text → ℕ
symbol_at i [] = 0
symbol_at zero (c ∷ s) = c
symbol_at (suc i) (c ∷ s) = symbol_at i s

-- ALPHA.iter().position(|&a| a == ch)
unfoldable pub position : ℕ → Text → Option ℕ
position ch [] = none
position ch (a ∷ s) = let rest = map_option suc (position ch s) in if a == ch then some 0 else rest

-- ALPHA[i & 63]
unfoldable pub symbol : ℕ → ℕ
unfolding symbol_at
symbol i = symbol_at (i % 64) alphabet

-- The three bytes of a chunk in one u32.
abbrev pub word : ℕ → ℕ → ℕ → ℕ
word a b c = a * 2 ^ 16 + b * 2 ^ 8 + c

unfoldable pub encode_padded : List ℕ → Text
encode_padded [] = []
encode_padded (a ∷ []) =
    let n = word a 0 0 in symbol (n / 2 ^ 18) ∷ symbol (n / 2 ^ 12) ∷ b'=' ∷ b'=' ∷ []
encode_padded (a ∷ b ∷ []) =
    let n = word a b 0 in symbol (n / 2 ^ 18) ∷ symbol (n / 2 ^ 12) ∷ symbol (n / 2 ^ 6) ∷ b'=' ∷ []
encode_padded (a ∷ b ∷ c ∷ bytes) =
    let n = word a b c in
    symbol (n / 2 ^ 18) ∷ symbol (n / 2 ^ 12) ∷ symbol (n / 2 ^ 6) ∷ symbol n ∷ encode_padded bytes

-- while out.ends_with('=') { out.pop(); }
unfoldable pub trim_padding : Text → Text
trim_padding [] = []
trim_padding (c ∷ s) =
    let rest = trim_padding s in if is_empty rest && (c == b'=') then [] else c ∷ rest

unfoldable pub b64url_encode : List ℕ → Text
unfolding encode_padded trim_padding
b64url_encode bytes = trim_padding (encode_padded bytes)

-- One symbol of value `v` shifted into the u32 `bits`.
abbrev pub shift_in : ℕ → ℕ → ℕ
shift_in bits v = (bits * 64 + v) % 2 ^ 32

-- The loop of the decoder; `nbits` bits of `bits` have not been given out yet.
unfoldable pub decode_loop : Text → ℕ → ℕ → Option (List ℕ)
unfolding position
decode_loop [] bits nbits = some []
decode_loop (ch ∷ text) bits nbits = elim (position ch alphabet) [
  | none ↦ none
  | some v ↦
      let next = shift_in bits v in
      let full = leb 8 (nbits + 6) in
      let left = if full then nbits + 6 - 8 else nbits + 6 in
      let rest = decode_loop text next left in
      if full then map_option (λ bytes. (next / 2 ^ left) % 256 ∷ bytes) rest else rest
]

unfoldable pub b64url_decode : Text → Option (List ℕ)
unfolding decode_loop
b64url_decode text = decode_loop text 0 0
