-- ===== src/Relocate/PushedPaths.antt =====
-- relocate.rs: the components of a path that is built by pushes.
use zapbrew.Base.{
  ℕ, Text, bytes, text_eq, Bool, true, false, ◌||◌, List, [], ◌∷◌, ◌++◌, if◌then◌else◌, is_empty,
  get_last?, starts_with, ends_with, split, split-nonempty, push_first, Component, cur_dir,
  parent_dir, normal, components, parts, leading, ◌==◌, ◌≡◌, refl, ap, sym, ◌∙◌, inl, inr,
  Bool-cases,
}
use mathlib.Core.Path.{subst}
use zapbrew.Relocate.Relative.{path_push}

-- No separator stands in the text.
abbrev pub Free : Text → Type 0
Free [] = Unit
Free (c ∷ cs) = ((c == b'/') ≡ false) × Free cs

-- A name that can be one component.
abbrev pub Plain : Text → Type 0
Plain [] = ⊥
Plain (c ∷ cs) = Free (c ∷ cs) × (text_eq (c ∷ cs) (bytes ".") ≡ false)

abbrev pub component_of : Text → Component
component_of p = if text_eq p (bytes "..") then parent_dir else normal p

split-Free : (p : Text) → Free p → split b'/' p ≡ p ∷ []
unfolding split
split-Free [] h = refl
split-Free (c ∷ cs) (other, h) = rw (other, split-Free cs h) refl

push_first-append :
    (c : ℕ) (ps qs : List Text) (p : Text) (rest : List Text)
    → ps ≡ p ∷ rest
    → push_first c (ps ++ qs) ≡ push_first c ps ++ qs
push_first-append c [] qs p rest e = absurd cc
push_first-append c (r ∷ rs) qs p rest e = refl

split-append : (r p : Text) → split b'/' (r ++ (b'/' ∷ p)) ≡ split b'/' r ++ split b'/' p
unfolding split
split-append [] p = refl
split-append (c ∷ cs) p = elim (Bool-cases (c == b'/')) [
  | inl here ↦ rw here (ap (λ (ps : List Text). [] ∷ ps) (split-append cs p))
  | inr other ↦
      let (q, rest, e) = split-nonempty b'/' cs in
      rw other (
        ap (λ (ps : List Text). push_first c ps) (split-append cs p)
        ∙ push_first-append c (split b'/' cs) (split b'/' p) q rest e)
]

parts-append : (ps qs : List Text) → parts (ps ++ qs) ≡ parts ps ++ parts qs
unfolding parts
parts-append [] qs = refl
parts-append (p ∷ ps) qs = elim (Bool-cases (is_empty p || text_eq p (bytes "."))) [
  | inl skipped ↦ rw skipped (parts-append ps qs)
  | inr kept ↦ elim (Bool-cases (text_eq p (bytes ".."))) [
    | inl up ↦ rw (kept, up) (ap (λ (cs : List Component). parent_dir ∷ cs) (parts-append ps qs))
    | inr named ↦
        rw (kept, named) (ap (λ (cs : List Component). normal p ∷ cs) (parts-append ps qs))
  ]
]

parts-Plain : (p : Text) → Plain p → parts (p ∷ []) ≡ component_of p ∷ []
unfolding parts
parts-Plain [] h = absurd h
parts-Plain (c ∷ cs) (free, other) = elim (Bool-cases (text_eq (c ∷ cs) (bytes ".."))) [
  | inl up ↦ rw (other, up) refl
  | inr named ↦ rw (other, named) refl
]

-- A path that was built by pushes, with its components: it starts and ends with names.
abbrev pub Built : Text → List Component → Type 0
Built r cs =
    (starts_with b'/' r ≡ false)
    × (ends_with b'/' r ≡ false)
    × (is_empty r ≡ false)
    × (first : Text) × (rest : List Text) × (split b'/' r ≡ first ∷ rest)
    × (text_eq first (bytes ".") ≡ false)
    × (parts (split b'/' r) ≡ cs)

pub if_false {ℓ} : {A : Type ℓ} (b : Bool) (x y : A) → b ≡ false → (if b then x else y) ≡ y
if_false true x y h = absurd cc
if_false false x y h = refl

-- What is built has these components.
pub Built-components : (r : Text) (cs : List Component) → Built r cs → components r ≡ cs
unfolding components
Built-components r cs (start, end, some_bytes, first, rest, shape, other, spelt) =
    rw (start, components)
      (ap leading shape
        ∙ (if_false (text_eq first (bytes ".")) (cur_dir ∷ parts rest) (parts (first ∷ rest)) other
            ∙ (ap parts (sym shape) ∙ spelt)))

get_last-append : (xs : Text) (c : ℕ) (cs : Text) → get_last? (xs ++ (c ∷ cs)) ≡ get_last? (c ∷ cs)
get_last-append [] c cs = refl
get_last-append (x ∷ []) c cs = refl
get_last-append (x ∷ y ∷ xs) c cs = get_last-append (y ∷ xs) c cs

ends_with-last : (c : ℕ) (cs : Text) → Free (c ∷ cs) → ends_with b'/' (c ∷ cs) ≡ false
unfolding ends_with
ends_with-last c [] (free, frees) = free
ends_with-last c (d ∷ cs) (free, frees) = ends_with-last d cs frees

pub Built-first : (p : Text) → Plain p → Built p (component_of p ∷ [])
unfolding starts_with
Built-first [] h = absurd h
Built-first (c ∷ cs) ((free, frees), other) =
    let pieces = split-Free (c ∷ cs) (free, frees) in
    (
      free,
      ends_with-last c cs (free, frees),
      refl,
      c ∷ cs,
      [],
      pieces,
      other,
      ap parts pieces ∙ parts-Plain (c ∷ cs) ((free, frees), other),
    )

starts_with-append :
    (r s : Text)
    → is_empty r ≡ false
    → starts_with b'/' r ≡ false
    → starts_with b'/' (r ++ s) ≡ false
unfolding starts_with
starts_with-append [] s e h = absurd cc
starts_with-append (c ∷ r) s e h = h

is_empty-append : (r s : Text) → is_empty r ≡ false → is_empty (r ++ s) ≡ false
is_empty-append [] s e = absurd cc
is_empty-append (c ∷ r) s e = refl

slashed :
    (r : Text) (c : ℕ) (p : Text) → Free (c ∷ p) → ends_with b'/' (r ++ (b'/' ∷ c ∷ p)) ≡ false
unfolding ends_with
slashed r c p free = rw (get_last-append r b'/' (c ∷ p), ends_with) (ends_with-last c p free)

pub Built-push :
    (r p : Text) (cs : List Component)
    → Built r cs
    → Plain p
    → Built (path_push r p) (cs ++ (component_of p ∷ []))
unfolding path_push starts_with
Built-push r [] cs b h = absurd h
Built-push r (c ∷ p) cs (start, end, some_bytes, first, rest, shape, other, spelt) (free, dot) =
    let pushed : path_push r (c ∷ p) ≡ r ++ (b'/' ∷ c ∷ p) =
      rw (free.0, some_bytes, end, path_push) refl in
    let pieces : split b'/' (r ++ (b'/' ∷ c ∷ p)) ≡ (first ∷ rest) ++ ((c ∷ p) ∷ []) =
      split-append r (c ∷ p)
      ∙ (ap (λ (ps : List Text). ps ++ split b'/' (c ∷ p)) shape
          ∙ ap (λ (ps : List Text). (first ∷ rest) ++ ps) (split-Free (c ∷ p) free)) in
    let spelling : parts (split b'/' (r ++ (b'/' ∷ c ∷ p))) ≡ cs ++ (component_of (c ∷ p) ∷ []) =
      ap parts pieces
      ∙ (parts-append (first ∷ rest) ((c ∷ p) ∷ [])
          ∙ (ap (λ (l : List Component). parts (first ∷ rest) ++ l)
                (parts-Plain (c ∷ p) (free, dot))
              ∙ ap (λ (l : List Component). l ++ (component_of (c ∷ p) ∷ []))
                  (ap parts (sym shape) ∙ spelt))) in
    subst (λ (t : Text). Built t (cs ++ (component_of (c ∷ p) ∷ []))) (sym pushed)
      (
        starts_with-append r (b'/' ∷ c ∷ p) some_bytes start,
        slashed r c p free,
        is_empty-append r (b'/' ∷ c ∷ p) some_bytes,
        first,
        rest ++ ((c ∷ p) ∷ []),
        pieces,
        other,
        spelling,
      )
