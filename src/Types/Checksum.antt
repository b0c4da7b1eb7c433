-- ===== src/Types/Checksum.antt =====
-- crates/zapbrew-types/src/checksum.rs
use zapbrew.Base.{
  ℕ, ◌+◌, Text, Bool, true, not, ◌&&◌, ◌||◌, [], ◌∷◌, Result, ok, err, if◌then◌else◌, all,
  is_ascii_digit, length, leb, ◌==◌, map, ◌≡◌, refl, arith, ◌≤◌, ◌⊎◌, inl, inr, ◌↔◌,
}
use native.Mathlib.Decide.{dec_lt}
use zapbrew.Types.Error.{TypeError, invalid_checksum}

-- `u8::is_ascii_hexdigit` and `u8::to_ascii_lowercase`
unfoldable pub is_ascii_hexdigit : ℕ → Bool
unfolding is_ascii_digit
is_ascii_hexdigit c = is_ascii_digit c || leb b'a' c && leb c b'f' || leb b'A' c && leb c b'F'

unfoldable pub to_ascii_lowercase : ℕ → ℕ
to_ascii_lowercase c = if leb b'A' c && leb c b'Z' then c + 32 else c

unfoldable pub from_str : Text → Result TypeError Text
from_str s =
    if not (length s == 64) || not (all is_ascii_hexdigit s)
    then err (invalid_checksum s)
    else ok (map to_ascii_lowercase s)

lowercase-hexdigit :
    (c : ℕ) → is_ascii_hexdigit c ≡ true → is_ascii_hexdigit (to_ascii_lowercase c) ≡ true
unfolding is_ascii_hexdigit to_ascii_lowercase
lowercase-hexdigit c h = ground arith

lowercase-lowercase :
    (s : Text) → map to_ascii_lowercase (map to_ascii_lowercase s) ≡ map to_ascii_lowercase s
unfolding to_ascii_lowercase
lowercase-lowercase [] = refl
lowercase-lowercase (c ∷ s) = ground (arith, lowercase-lowercase s)

all-lowercase :
    (s : Text)
    → all is_ascii_hexdigit s ≡ true
    → all is_ascii_hexdigit (map to_ascii_lowercase s) ≡ true
all-lowercase [] h = refl
all-lowercase (c ∷ s) h = ground (arith, lowercase-hexdigit c, all-lowercase s)

length-lowercase : (s : Text) → length (map to_ascii_lowercase s) ≡ length s
length-lowercase [] = refl
length-lowercase (c ∷ s) = omega (arith, length-lowercase s)

-- A hexadecimal digit, and the small letter or the digit that it stands for.
abbrev pub Small : ℕ → ℕ → Type 0
Small c d =
    ((d ≡ c) × (48 ≤ c) × (c ≤ 57))
    ⊎ ((d ≡ c) × (97 ≤ c) × (c ≤ 102))
    ⊎ ((d ≡ c + 32) × (65 ≤ c) × (c ≤ 70))

-- Byte for byte, the second text is the first one in small letters, and all are hexadecimal digits.
abbrev pub Digest : Text → Text → Type 0
Digest [] [] = Unit
Digest [] (d ∷ ds) = ⊥
Digest (c ∷ cs) [] = ⊥
Digest (c ∷ cs) (d ∷ ds) = Small c d × Digest cs ds

hexdigit-Small : (c : ℕ) → is_ascii_hexdigit c ≡ true → Small c (to_ascii_lowercase c)
unfolding is_ascii_hexdigit to_ascii_lowercase is_ascii_digit
hexdigit-Small c h = elim (dec_lt c 58) [
  | yes small ↦ inl (ground arith, ground arith, ground arith)
  | no big ↦ elim (dec_lt c 71) [
    | yes capital ↦ inr (inr (ground arith, ground arith, ground arith))
    | no letter ↦ inr (inl (ground arith, ground arith, ground arith))
  ]
]

Small-hexdigit : (c d : ℕ) → Small c d → (is_ascii_hexdigit c ≡ true) × (to_ascii_lowercase c ≡ d)
unfolding is_ascii_hexdigit to_ascii_lowercase is_ascii_digit
Small-hexdigit c d (inl (same, low, high)) = (ground arith, ground arith)
Small-hexdigit c d (inr (inl (same, low, high))) = (ground arith, ground arith)
Small-hexdigit c d (inr (inr (same, low, high))) = (ground arith, ground arith)

lowercase-Digest : (s : Text) → all is_ascii_hexdigit s ≡ true → Digest s (map to_ascii_lowercase s)
lowercase-Digest [] h = tt
lowercase-Digest (c ∷ s) h = (hexdigit-Small c (ground arith), lowercase-Digest s (ground arith))

Digest-lowercase :
    (s d : Text) → Digest s d → (all is_ascii_hexdigit s ≡ true) × (map to_ascii_lowercase s ≡ d)
Digest-lowercase [] [] h = (refl, refl)
Digest-lowercase [] (d ∷ ds) h = absurd h
Digest-lowercase (c ∷ s) [] h = absurd h
Digest-lowercase (c ∷ s) (d ∷ ds) (here, h) =
    let (hex, small) = Small-hexdigit c d here in
    let (rest, lowered) = Digest-lowercase s ds h in (rw (hex, rest) refl, rw (small, lowered) refl)

from_str-Digest : (s d : Text) → from_str s ≡ ok d → (length s ≡ 64) × Digest s d
unfolding from_str
from_str-Digest s d h =
    let same : d ≡ map to_ascii_lowercase s = ground arith in
    (ground arith, rw same (lowercase-Digest s (ground arith)))

Digest-from_str : (s d : Text) → length s ≡ 64 → Digest s d → from_str s ≡ ok d
unfolding from_str
Digest-from_str s d long h =
    let (hex, lowered) = Digest-lowercase s d h in rw hex (ground (arith, long, lowered))

from_str_again : (s d : Text) → from_str s ≡ ok d → (from_str d ≡ ok d) × (length d ≡ 64)
unfolding from_str
from_str_again s d h =
    let same : d ≡ map to_ascii_lowercase s = ground arith in
    rw same (
      ground (arith, length-lowercase s, all-lowercase s, lowercase-lowercase s),
      ground (arith, length-lowercase s),
    )

-- A text is accepted as a checksum exactly when it has 64 bytes that are all hexadecimal digits,
-- and the result is the text in small letters. The result is canonical: it has 64 bytes too and is
-- accepted again, unchanged.
pub from_str_canonical :
    (s d : Text)
    → ((from_str s ≡ ok d) ↔ ((length s ≡ 64) × Digest s d))
      × (from_str s ≡ ok d → (from_str d ≡ ok d) × (length d ≡ 64))
from_str_canonical s d = (
  (λ h. from_str-Digest s d h, λ (long, h). Digest-from_str s d long h),
  λ h. from_str_again s d h,
)

-- Texts that differ only in the case of their letters give the same digest.
pub from_str_case :
    (s t d e : Text)
    → map to_ascii_lowercase s ≡ map to_ascii_lowercase t
    → from_str s ≡ ok d
    → from_str t ≡ ok e
    → d ≡ e
unfolding from_str
from_str_case s t d e same h k = ground arith
