-- ===== src/Seat/Barcode.antt =====
-- `mint_barcode` of seat_repository.rs, and the shape that the database demands of a barcode
-- (migrations/20260426220030_add_event_hardening_constraints.up.sql).
use backbone_events.Base.{
  ℕ, zero, suc, ◌+◌, ◌-◌, ◌*◌, ◌/◌, ◌%◌, ◌≤◌, ◌<◌, ◌^◌, ◌≡◌, refl, ap, ◌∙◌, Bool-cases, inl, inr,
  List, [], ◌∷◌, Bool, true, ◌&&◌, leb, ◌==◌, if◌then◌else◌, length, All, arith,
}
use backbone_events.Base.Text.{Text}

-- u64::from_le_bytes
unfoldable pub from_le_bytes : List ℕ → ℕ
from_le_bytes [] = 0
from_le_bytes (b ∷ bs) = b + 256 * from_le_bytes bs

-- `to_string` of an unsigned number, digit by digit from the right; a u64 has 20 digits at most.
unfoldable pub print_digits : ℕ → ℕ → Text → Text
print_digits zero n acc = acc
print_digits (suc fuel) n acc =
    let rest = print_digits fuel (n / 10) ((b'0' + n % 10) ∷ acc) in
    if n / 10 == 0 then (b'0' + n % 10) ∷ acc else rest

abbrev u64_digits : ℕ
u64_digits = 20

unfoldable pub decimal : ℕ → Text
unfolding print_digits
decimal n = print_digits u64_digits n []

unfoldable pub mint_barcode : List ℕ → Text
unfolding from_le_bytes decimal
mint_barcode bytes = decimal (from_le_bytes bytes)

-- barcode ~ '^[0-9]{1,32}$'
abbrev pub all_digits : Text → Bool
all_digits [] = true
all_digits (c ∷ s) = leb b'0' c && leb c b'9' && all_digits s

abbrev pub is_barcode : Text → Bool
is_barcode s = leb 1 (length s) && leb (length s) 32 && all_digits s

-- The number that a text of digits spells, read on from `n`.
pub spelled : ℕ → Text → ℕ
spelled n [] = n
spelled n (c ∷ s) = spelled (10 * n + (c - b'0')) s

print_digits-spelled :
    (fuel n : ℕ) (acc : Text)
    → n < 10 ^ fuel
    → 0 < fuel
    → spelled 0 (print_digits fuel n acc) ≡ spelled n acc
unfolding print_digits spelled
print_digits-spelled zero n acc h pos = absurd (omega arith)
print_digits-spelled (suc fuel) n acc h pos = elim (Bool-cases (n / 10 == 0)) [
  | inl last ↦ rw last (ap (λ m. spelled m acc) (ground arith))
  | inr more ↦ rw more (
      print_digits-spelled fuel (n / 10) ((b'0' + n % 10) ∷ acc) (ground arith) (ground arith)
      ∙ ap (λ m. spelled m acc) (ground arith))
]

digit-is_digit : (n : ℕ) → (leb b'0' (b'0' + n % 10) && leb (b'0' + n % 10) b'9') ≡ true
digit-is_digit n = ground arith

print_digits-shape :
    (fuel n : ℕ) (acc : Text)
    → all_digits acc ≡ true
    → 0 < fuel + length acc
    → (all_digits (print_digits fuel n acc) ≡ true)
      × (1 ≤ length (print_digits fuel n acc))
      × (length (print_digits fuel n acc) ≤ fuel + length acc)
unfolding print_digits
print_digits-shape zero n acc h pos = (h, omega arith, omega arith)
print_digits-shape (suc fuel) n acc h pos = elim (Bool-cases (n / 10 == 0)) [
  | inl last ↦ rw last (rw (digit-is_digit n) h, omega arith, omega arith)
  | inr more ↦
      let (digits, positive, short) =
        print_digits-shape fuel (n / 10) ((b'0' + n % 10) ∷ acc) (rw (digit-is_digit n) h)
          (omega arith) in
      rw more (digits, positive, omega arith)
]

from_le_bytes-bound :
    (bytes : List ℕ) → All (λ b. b < 256) bytes → from_le_bytes bytes < 256 ^ length bytes
unfolding from_le_bytes
from_le_bytes-bound [] all = omega arith
from_le_bytes-bound (b ∷ bs) all = ground (arith, all.0, from_le_bytes-bound bs all.1)

-- Eight random bytes mint a barcode of the shape that the database demands, one to 32 digits, and the
-- digits spell the bytes' little-endian number: two draws share a barcode only if they are the same
-- number.
pub mint_barcode-shape :
    (bytes : List ℕ)
    → length bytes ≡ 8
    → All (λ b. b < 256) bytes
    → (is_barcode (mint_barcode bytes) ≡ true)
      × (spelled 0 (mint_barcode bytes) ≡ from_le_bytes bytes)
unfolding mint_barcode decimal spelled
mint_barcode-shape bytes eight all =
    let bound : from_le_bytes bytes < 2 ^ 64 = rw eight at (from_le_bytes-bound bytes all) in
    let (digits, pos, short) =
      print_digits-shape u64_digits (from_le_bytes bytes) [] refl (omega arith) in
    (
      ground arith,
      print_digits-spelled u64_digits (from_le_bytes bytes) [] (omega arith) (omega arith),
    )
