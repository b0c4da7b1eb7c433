-- ===== src/Base/Texts.antt =====
-- Rust's `str` as its list of bytes, with the operations of the standard library that the crates
-- call: equality, order, prefixes, splitting, decimal numbers.
use Prim.Native.Nat.{compare, Ordering, ℕ, ◌+◌, ◌-◌, ◌*◌, ◌^◌}
use Prim.Native.Char.{code}
use Prim.Native.String.{String}
use mathlib.Core.Path.{◌≡◌, refl, ap, ◌∙◌}
use mathlib.Core.Logic.{◌↔◌, inl, inr}
use mathlib.Core.Bool.{Bool, true, false, ◌&&◌}
use mathlib.Core.List.{List, [], ◌∷◌, ◌++◌}
use mathlib.Core.Option.{Option, none, some}
use native.Mathlib.Omega.{arith}
use zapbrew.Base.Tests.{leb, ltb, ◌==◌, if◌then◌else◌, Bool-cases}
use zapbrew.Base.Lists.{get_last?, take, drop}
use zapbrew.Base.Orders.{then_with}

abbrev pub Text : Type 0
Text = List ℕ

-- The bytes of an ASCII literal.
abbrev pub bytes : String → Text
bytes String.[] = []
bytes (String.◌∷◌ c s) = code c ∷ bytes s

unfoldable pub text_eq : Text → Text → Bool
text_eq [] [] = true
text_eq [] (d ∷ ds) = false
text_eq (c ∷ cs) [] = false
text_eq (c ∷ cs) (d ∷ ds) = c == d && text_eq cs ds

pub text_eq→eq : (s t : Text) → text_eq s t ≡ true → s ≡ t
unfolding text_eq
text_eq→eq [] [] h = refl
text_eq→eq [] (d ∷ ds) h = cc
text_eq→eq (c ∷ cs) [] h = cc
text_eq→eq (c ∷ cs) (d ∷ ds) h = ground (arith, text_eq→eq cs ds)

pub text_eq_refl : (s : Text) → text_eq s s ≡ true
unfolding text_eq
text_eq_refl [] = refl
text_eq_refl (c ∷ cs) = ground (arith, text_eq_refl cs)

pub text_eq_iff : (s t : Text) → (text_eq s t ≡ true) ↔ (s ≡ t)
text_eq_iff s t = (text_eq→eq s t, λ e. rw e (text_eq_refl t))

-- `str::strip_prefix`
unfoldable pub strip_prefix : Text → Text → Option Text
strip_prefix [] s = some s
strip_prefix (p ∷ ps) [] = none
strip_prefix (p ∷ ps) (c ∷ cs) = let rest = strip_prefix ps cs in if p == c then rest else none

pub strip_prefix-eq-some : (p s t : Text) → strip_prefix p s ≡ some t → s ≡ p ++ t
unfolding strip_prefix
strip_prefix-eq-some [] s t h = ground arith
strip_prefix-eq-some (p ∷ ps) [] t h = cc
strip_prefix-eq-some (p ∷ ps) (c ∷ cs) t h = ground (arith, strip_prefix-eq-some ps cs t)

-- `u8::is_ascii_digit`
unfoldable pub is_ascii_digit : ℕ → Bool
is_ascii_digit c = leb b'0' c && leb c b'9'

abbrev pub push_first : ℕ → List Text → List Text
push_first c [] = (c ∷ []) ∷ []
push_first c (p ∷ ps) = (c ∷ p) ∷ ps

-- `str::split`: the pieces between the separators, of which there is at least one.
unfoldable pub split : ℕ → Text → List Text
split sep [] = [] ∷ []
split sep (c ∷ cs) = let rest = split sep cs in if c == sep then [] ∷ rest else push_first c rest

-- The pieces with the separator between them.
abbrev pub join : ℕ → List Text → Text
join sep [] = []
join sep (p ∷ []) = p
join sep (p ∷ q ∷ ps) = p ++ (sep ∷ join sep (q ∷ ps))

join-push_first : (sep c : ℕ) (ps : List Text) → join sep (push_first c ps) ≡ c ∷ join sep ps
join-push_first sep c [] = refl
join-push_first sep c (p ∷ []) = refl
join-push_first sep c (p ∷ q ∷ ps) = refl

pub split-nonempty : (sep : ℕ) (s : Text) → (p : Text) × (ps : List Text) × (split sep s ≡ p ∷ ps)
unfolding split
split-nonempty sep [] = ([], [], refl)
split-nonempty sep (c ∷ cs) = elim (Bool-cases (c == sep)) [
  | inl here ↦ ([], split sep cs, rw here refl)
  | inr other ↦ let (p, ps, e) = split-nonempty sep cs in (c ∷ p, ps, rw (other, e) refl)
]

join-nil :
    (sep : ℕ) (ps : List Text) (q : Text) (qs : List Text)
    → ps ≡ q ∷ qs
    → join sep ([] ∷ ps) ≡ sep ∷ join sep ps
join-nil sep [] q qs e = cc
join-nil sep (p ∷ ps) q qs e = refl

-- The pieces of a text, joined again, are the text.
pub join-split : (sep : ℕ) (s : Text) → join sep (split sep s) ≡ s
unfolding split
join-split sep [] = refl
join-split sep (c ∷ cs) = elim (Bool-cases (c == sep)) [
  | inl here ↦
      let (p, ps, e) = split-nonempty sep cs in
      let same : c ≡ sep = ground arith in
      rw here (join-nil sep (split sep cs) p ps e ∙ cc (same, join-split sep cs))
  | inr other ↦
      rw other (join-push_first sep c (split sep cs) ∙ ap (λ (t : Text). c ∷ t) (join-split sep cs))
]

unfoldable pub starts_with : ℕ → Text → Bool
starts_with c [] = false
starts_with c (d ∷ ds) = d == c

unfoldable pub ends_with : ℕ → Text → Bool
ends_with c s = elim (get_last? s) [ none ↦ false | some d ↦ d == c ]

abbrev pub u32_mod : ℕ
u32_mod = 2 ^ 32

-- The loop of `u32::from_str`: checked multiplication and addition, digit by digit.
unfoldable pub parse_digits : ℕ → Text → Option ℕ
unfolding is_ascii_digit
parse_digits acc [] = some acc
parse_digits acc (c ∷ cs) =
    let next = acc * 10 + (c - 48) in
    let rest = parse_digits next cs in if is_ascii_digit c && ltb next u32_mod then rest else none

-- `str::parse::<u32>`: an optional `+`, then at least one digit; `none` is its error.
unfoldable pub parse_u32 : Text → Option ℕ
unfolding parse_digits
parse_u32 [] = none
parse_u32 (c ∷ []) = parse_digits 0 (c ∷ [])
parse_u32 (c ∷ d ∷ cs) = if c == b'+' then parse_digits 0 (d ∷ cs) else parse_digits 0 (c ∷ d ∷ cs)

-- `str::cmp`: bytewise, and a proper prefix comes first.
unfoldable pub cmp_text : Text → Text → Ordering
unfolding then_with
cmp_text [] [] = Ordering.eq
cmp_text [] (d ∷ ds) = Ordering.lt
cmp_text (c ∷ cs) [] = Ordering.gt
cmp_text (c ∷ cs) (d ∷ ds) = then_with (compare c d) (cmp_text cs ds)

-- `chars().skip_while` and `take_while`
unfoldable pub skip_while : (ℕ → Bool) → Text → Text
skip_while p [] = []
skip_while p (c ∷ cs) = let rest = skip_while p cs in if p c then rest else c ∷ cs

unfoldable pub take_while : (ℕ → Bool) → Text → Text
take_while p [] = []
take_while p (c ∷ cs) = let rest = take_while p cs in if p c then c ∷ rest else []

-- The bytes from `b` up to `e`.
unfoldable pub slice : Text → ℕ → ℕ → Text
slice s b e = take (e - b) (drop b s)

abbrev push_prefix : ℕ → Option (Text × Text) → Option (Text × Text)
push_prefix c none = none
push_prefix c (some (p, s)) = some (c ∷ p, s)

abbrev or_here : Bool → Text → Option (Text × Text) → Option (Text × Text)
or_here here cs (some r) = some r
or_here true cs none = some ([], cs)
or_here false cs none = none

-- `str::rsplit_once`: what stands before and behind the last separator.
unfoldable pub rsplit_once : ℕ → Text → Option (Text × Text)
rsplit_once sep [] = none
rsplit_once sep (c ∷ cs) = or_here (c == sep) cs (push_prefix c (rsplit_once sep cs))

-- No byte of the text is the separator.
abbrev pub Lacks : ℕ → Text → Type 0
Lacks sep [] = Unit
Lacks sep (c ∷ cs) = ((c == sep) ≡ false) × Lacks sep cs

rsplit_once-Lacks : (sep : ℕ) (s : Text) → Lacks sep s → rsplit_once sep s ≡ none
unfolding rsplit_once
rsplit_once-Lacks sep [] h = refl
rsplit_once-Lacks sep (c ∷ s) h = rw (rsplit_once-Lacks sep s h.1, h.0) refl

pub rsplit_once-append :
    (sep : ℕ) (p s : Text) → Lacks sep s → rsplit_once sep (p ++ sep ∷ s) ≡ some (p, s)
unfolding rsplit_once
rsplit_once-append sep [] s h = rw (rsplit_once-Lacks sep s h) (rw (same sep) refl)
  where
    same : (sep : ℕ) → (sep == sep) ≡ true
    same sep = ground arith
rsplit_once-append sep (c ∷ p) s h = rw (rsplit_once-append sep p s h) refl

pub rsplit_once_sound :
    (sep : ℕ) (s p t : Text) → rsplit_once sep s ≡ some (p, t) → s ≡ p ++ (sep ∷ t)
unfolding rsplit_once
rsplit_once_sound sep [] p t h = cc
rsplit_once_sound sep (c ∷ s) p t h = here (rsplit_once sep s) (rsplit_once_sound sep s) h
  where
    here :
        (o : Option (Text × Text))
        → ((p t : Text) → o ≡ some (p, t) → s ≡ p ++ (sep ∷ t))
        → or_here (c == sep) s (push_prefix c o) ≡ some (p, t)
        → c ∷ s ≡ p ++ (sep ∷ t)
    here none ih k = ground arith
    here (some (q, u)) ih k = ground (arith, ih q u)
