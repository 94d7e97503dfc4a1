-- ===== src/Capability/Base64/RoundTrip.antt =====
-- Decoding what was encoded, and the symbols that an encoding uses.
use backbone_events.Base.{
  ℕ, zero, suc, ◌/◌, ◌%◌, ◌^◌, ◌<◌, ◌≡◌, refl, Option, none, some, List, [], ◌∷◌, ap, ◌∙◌, Bool,
  true, false, not, ◌&&◌, ◌==◌, is_value, All, arith,
}
use backbone_events.Base.Text.{Text, text_contains, is_empty}
use backbone_events.Capability.Base64.{
  alphabet, symbol_at, position, symbol, encode_padded, trim_padding, b64url_encode, decode_loop,
  b64url_decode, shift_in, word,
}

-- A test that holds at every number below a bound, by evaluation.
module _ (test : ℕ → Bool) where
  holds_below : ℕ → Bool
  holds_below zero = true
  holds_below (suc n) = test n && holds_below n

  holds_below→ : (n : ℕ) → holds_below n ≡ true → (i : ℕ) → i < n → test i ≡ true
  unfolding holds_below
  holds_below→ zero e i h = absurd (omega arith)
  holds_below→ (suc n) e i h = ground (arith, holds_below→ n (ground arith) i)

is_value→eq : (a : ℕ) (o : Option ℕ) → is_value a o ≡ true → o ≡ some a
is_value→eq a none h = absurd (ground arith)
is_value→eq a (some b) h = ground arith

-- A symbol stands in the alphabet at its own index.
position-symbol : (i : ℕ) → position (symbol i) alphabet ≡ some (i % 64)
unfolding position symbol symbol_at
position-symbol i = is_value→eq (i % 64) _ (
    holds_below→ (λ j. is_value j (position (symbol_at j alphabet) alphabet)) 64
      (unfold holds_below in refl) (i % 64) (omega arith))

-- A symbol is neither the padding nor the dot between a token's parts.
symbol-plain : (i : ℕ) → ((symbol i == b'=') ≡ false) × ((b'.' == symbol i) ≡ false)
unfolding symbol symbol_at
symbol-plain i = ground (
  arith,
  holds_below→ (λ j. not (symbol_at j alphabet == b'=') && not (b'.' == symbol_at j alphabet)) 64
      (unfold holds_below in refl) (i % 64) (omega arith),
)

trim_padding-symbol : (i : ℕ) (s : Text) → trim_padding (symbol i ∷ s) ≡ symbol i ∷ trim_padding s
unfolding trim_padding
trim_padding-symbol i s = ground (arith, symbol-plain i)

-- One symbol read with 0, 6, 4 or 2 bits left over.
decode_first :
    (i bits : ℕ) (t : Text)
    → decode_loop (symbol i ∷ t) bits 0 ≡ decode_loop t (shift_in bits (i % 64)) 6
unfolding decode_loop
decode_first i bits t = rw (decode_loop, position-symbol i) refl

module _ (i bits : ℕ) (t : Text) where
  decode_second :
      {out : List ℕ}
      → decode_loop t (shift_in bits (i % 64)) 4 ≡ some out
      → decode_loop (symbol i ∷ t) bits 6 ≡ some (shift_in bits (i % 64) / 2 ^ 4 % 256 ∷ out)
  unfolding decode_loop
  decode_second h = rw (decode_loop, position-symbol i, h) refl

  decode_third :
      {out : List ℕ}
      → decode_loop t (shift_in bits (i % 64)) 2 ≡ some out
      → decode_loop (symbol i ∷ t) bits 4 ≡ some (shift_in bits (i % 64) / 2 ^ 2 % 256 ∷ out)
  unfolding decode_loop
  decode_third h = rw (decode_loop, position-symbol i, h) refl

  decode_fourth :
      {out : List ℕ}
      → decode_loop t (shift_in bits (i % 64)) 0 ≡ some out
      → decode_loop (symbol i ∷ t) bits 2 ≡ some (shift_in bits (i % 64) / 2 ^ 0 % 256 ∷ out)
  unfolding decode_loop
  decode_fourth h = rw (decode_loop, position-symbol i, h) refl

-- The bytes of a chunk are cut out of the accumulator again, whatever it held before.
module _ (a b c bits : ℕ) where
  abbrev after1 : ℕ
  after1 = shift_in bits (word a b c / 2 ^ 18 % 64)

  abbrev after2 : ℕ
  after2 = shift_in after1 (word a b c / 2 ^ 12 % 64)

  abbrev after3 : ℕ
  after3 = shift_in after2 (word a b c / 2 ^ 6 % 64)

  abbrev after4 : ℕ
  after4 = shift_in after3 (word a b c % 64)

  first_byte : a < 256 → b < 256 → c < 256 → after2 / 2 ^ 4 % 256 ≡ a
  first_byte ha hb hc = omega arith

  second_byte : a < 256 → b < 256 → c < 256 → after3 / 2 ^ 2 % 256 ≡ b
  second_byte ha hb hc = omega arith

  third_byte : a < 256 → b < 256 → c < 256 → after4 / 2 ^ 0 % 256 ≡ c
  third_byte ha hb hc = omega arith

  -- A chunk of one, two or three bytes, with what follows it.
  decode_two :
      a < 256
      → b < 256
      → c < 256
      → (t : Text) {out : List ℕ} → decode_loop t after2 4 ≡ some out
      → decode_loop (symbol (word a b c / 2 ^ 18) ∷ symbol (word a b c / 2 ^ 12) ∷ t) bits 0
        ≡ some (a ∷ out)
  decode_two ha hb hc t {out} h =
      decode_first (word a b c / 2 ^ 18) bits (symbol (word a b c / 2 ^ 12) ∷ t)
      ∙ decode_second (word a b c / 2 ^ 12) after1 t h
      ∙ ap (λ x. some (x ∷ out)) (first_byte ha hb hc)

  decode_three :
      a < 256
      → b < 256
      → c < 256
      → (t : Text) {out : List ℕ} → decode_loop t after3 2 ≡ some out
      → decode_loop
          (symbol (word a b c / 2 ^ 18)
            ∷ symbol (word a b c / 2 ^ 12)
            ∷ symbol (word a b c / 2 ^ 6)
            ∷ t)
          bits
          0
        ≡ some (a ∷ b ∷ out)
  decode_three ha hb hc t {out} h = decode_two ha hb hc (symbol (word a b c / 2 ^ 6) ∷ t) (
      decode_third (word a b c / 2 ^ 6) after2 t h
      ∙ ap (λ x. some (x ∷ out)) (second_byte ha hb hc))

  decode_four :
      a < 256
      → b < 256
      → c < 256
      → (t : Text) {out : List ℕ} → decode_loop t after4 0 ≡ some out
      → decode_loop
          (symbol (word a b c / 2 ^ 18)
            ∷ symbol (word a b c / 2 ^ 12)
            ∷ symbol (word a b c / 2 ^ 6)
            ∷ symbol (word a b c)
            ∷ t)
          bits
          0
        ≡ some (a ∷ b ∷ c ∷ out)
  decode_four ha hb hc t {out} h =
      decode_three ha hb hc (symbol (word a b c) ∷ t)
        (decode_fourth (word a b c) after3 t h ∙ ap (λ x. some (x ∷ out)) (third_byte ha hb hc))

-- Padding is cut off after a symbol and nowhere else.
trim_four :
    (i j k l : ℕ) (s : Text)
    → trim_padding (symbol i ∷ symbol j ∷ symbol k ∷ symbol l ∷ s)
      ≡ symbol i ∷ symbol j ∷ symbol k ∷ symbol l ∷ trim_padding s
trim_four i j k l s = cc (
  trim_padding-symbol i (symbol j ∷ symbol k ∷ symbol l ∷ s),
  trim_padding-symbol j (symbol k ∷ symbol l ∷ s),
  trim_padding-symbol k (symbol l ∷ s),
  trim_padding-symbol l s,
)

pad_one : trim_padding (b'=' ∷ []) ≡ []
unfolding trim_padding
pad_one = refl

pad_two : trim_padding (b'=' ∷ b'=' ∷ []) ≡ []
unfolding trim_padding
pad_two = refl

trim_three :
    (i j k : ℕ)
    → trim_padding (symbol i ∷ symbol j ∷ symbol k ∷ b'=' ∷ [])
      ≡ symbol i ∷ symbol j ∷ symbol k ∷ []
trim_three i j k = cc (
  trim_padding-symbol i (symbol j ∷ symbol k ∷ b'=' ∷ []),
  trim_padding-symbol j (symbol k ∷ b'=' ∷ []),
  trim_padding-symbol k (b'=' ∷ []),
  pad_one,
)

trim_two :
    (i j : ℕ) → trim_padding (symbol i ∷ symbol j ∷ b'=' ∷ b'=' ∷ []) ≡ symbol i ∷ symbol j ∷ []
trim_two i j = cc (
  trim_padding-symbol i (symbol j ∷ b'=' ∷ b'=' ∷ []),
  trim_padding-symbol j (b'=' ∷ b'=' ∷ []),
  pad_two,
)

abbrev pub IsByte : ℕ → Type 0
IsByte b = b < 256

decode_loop-encode :
    (bytes : List ℕ) (bits : ℕ)
    → All IsByte bytes
    → decode_loop (trim_padding (encode_padded bytes)) bits 0 ≡ some bytes
unfolding encode_padded
decode_loop-encode [] bits all = unfold trim_padding decode_loop in refl
decode_loop-encode (a ∷ []) bits (ha, _) =
    rw (trim_two _ _)
      (decode_two a 0 0 bits ha (omega arith) (omega arith) [] (unfold decode_loop in refl))
decode_loop-encode (a ∷ b ∷ []) bits (ha, (hb, _)) =
    rw (trim_three _ _ _)
      (decode_three a b 0 bits ha hb (omega arith) [] (unfold decode_loop in refl))
decode_loop-encode (a ∷ b ∷ c ∷ bytes) bits (ha, (hb, (hc, all))) =
    rw (trim_four _ _ _ _ _)
      (decode_four a b c bits ha hb hc _ (decode_loop-encode bytes (after4 a b c bits) all))

-- Decoding what was encoded gives the bytes back, for every sequence of bytes of any length.
pub b64url_decode-encode :
    (bytes : List ℕ) → All IsByte bytes → b64url_decode (b64url_encode bytes) ≡ some bytes
unfolding b64url_encode b64url_decode
b64url_decode-encode bytes all = decode_loop-encode bytes 0 all

no_dot_in_encoding :
    (bytes : List ℕ) → text_contains b'.' (trim_padding (encode_padded bytes)) ≡ false
unfolding encode_padded
no_dot_in_encoding [] = unfold trim_padding in refl
no_dot_in_encoding (a ∷ []) =
    rw (trim_two _ _)
      (ground (arith, symbol-plain (word a 0 0 / 2 ^ 18), symbol-plain (word a 0 0 / 2 ^ 12)))
no_dot_in_encoding (a ∷ b ∷ []) = rw (trim_three _ _ _) (
    ground (
      arith,
      symbol-plain (word a b 0 / 2 ^ 18),
      symbol-plain (word a b 0 / 2 ^ 12),
      symbol-plain (word a b 0 / 2 ^ 6),
    ))
no_dot_in_encoding (a ∷ b ∷ c ∷ bytes) = rw (trim_four _ _ _ _ _) (
    ground (
      arith,
      symbol-plain (word a b c / 2 ^ 18),
      symbol-plain (word a b c / 2 ^ 12),
      symbol-plain (word a b c / 2 ^ 6),
      symbol-plain (word a b c),
      no_dot_in_encoding bytes,
    ))

pub text_contains-b64url_encode :
    (bytes : List ℕ) → text_contains b'.' (b64url_encode bytes) ≡ false
unfolding b64url_encode
text_contains-b64url_encode bytes = no_dot_in_encoding bytes

pub is_empty-b64url_encode : (b : ℕ) (bytes : List ℕ) → is_empty (b64url_encode (b ∷ bytes)) ≡ false
unfolding b64url_encode encode_padded
is_empty-b64url_encode a [] = rw (trim_two _ _) refl
is_empty-b64url_encode a (b ∷ []) = rw (trim_three _ _ _) refl
is_empty-b64url_encode a (b ∷ c ∷ bytes) = rw (trim_four _ _ _ _ _) refl
