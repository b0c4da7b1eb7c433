-- ===== src/Types/NameParts.antt =====
-- The offsets of a parsed formula name cut its text into the parts that it was given with
-- (crates/zapbrew-types/src/name.rs).
use zapbrew.Base.{
  ℕ, suc, ◌+◌, ◌-◌, Text, true, false, not, ◌&&◌, List, [], ◌∷◌, ◌++◌, Option, none, some, ok,
  is_empty, all, length, ◌≡◌, ◌≢◌, refl, sym, ◌∙◌, arith, split, slice, drop, ◌⊎◌, inl, inr,
  join-split, join, take-append, drop-append_more, Bool-cases,
}
use zapbrew.Types.FormulaName.{
  FormulaName, name, tap, is_name_char, checked, from_segments, from_str,
}

abbrev slash : ℕ
slash = b'/'

module _ (user repo n : Text) where
  abbrev whole : Text
  whole = user ++ (slash ∷ (repo ++ (slash ∷ n)))

  drop-user : drop (length user + 1) whole ≡ repo ++ (slash ∷ n)
  drop-user = drop-append_more 1 user (slash ∷ (repo ++ (slash ∷ n)))

  drop-name : drop (length user + 1 + length repo + 1) whole ≡ n
  drop-name =
      let places : length user + 1 + length repo + 1 ≡ length user + suc (length repo + 1) =
        omega arith in
      rw places (
        drop-append_more (suc (length repo + 1)) user (slash ∷ (repo ++ (slash ∷ n)))
        ∙ drop-append_more 1 repo (slash ∷ n))

  slice-user : slice whole 0 (length user + 1 - 1) ≡ user
  unfolding slice
  slice-user =
      let size : length user + 1 - 1 - 0 ≡ length user = omega arith in
      rw size (take-append user (slash ∷ (repo ++ (slash ∷ n))))

  slice-repo : slice whole (length user + 1) (length user + 1 + length repo + 1 - 1) ≡ repo
  unfolding slice
  slice-repo =
      let size : length user + 1 + length repo + 1 - 1 - (length user + 1) ≡ length repo =
        omega arith in
      rw (drop-user, size) (take-append repo (slash ∷ n))

checked-ok :
    (s seg : Text) (off : ℕ) (user : Option ℕ) (f : FormulaName)
    → checked s seg off user ≡ ok f
    → (seg ≢ [])
      × (all is_name_char seg ≡ true)
      × (f ≡ record { input = s; name_off = off; user_off = user })
checked-ok s [] off user f h = cc
checked-ok s (c ∷ cs) off user f h = (λ e. cc, ground arith, ground arith)

-- How the text is made of the parts that the accessors return.
abbrev pub IsSpelled : Text → FormulaName → Type 0
IsSpelled s f =
    (tap f ≡ none) × (s ≡ name f)
    ⊎ ((user : Text) × (repo : Text) × (tap f ≡ some (user, repo))
        × (s ≡ user ++ (slash ∷ (repo ++ (slash ∷ name f))))
        × (user ≢ [])
        × (repo ≢ []))

qualified :
    (s user repo n : Text) (f : FormulaName)
    → s ≡ whole user repo n
    → n ≢ []
    → all is_name_char n ≡ true
    → f ≡ record {
      input = s;
      name_off = length user + 1 + length repo + 1;
      user_off = some (length user + 1);
    }
    → is_empty user ≡ false
    → is_empty repo ≡ false
    → (name f ≢ []) × (all is_name_char (name f) ≡ true) × IsSpelled s f
unfolding name tap
qualified s user repo n f e some_char charset same hu hr =
    let named : name f ≡ n = rw (same, e) (drop-name user repo n) in
    let tapped : tap f ≡ some (user, repo) =
      rw (same, e) (cc (slice-user user repo n, slice-repo user repo n)) in
    (
      rw named some_char,
      rw named charset,
      inr (user, repo, tapped, rw named e, nonempty user hu, nonempty repo hr),
    )
  where
    nonempty : (t : Text) → is_empty t ≡ false → t ≢ []
    nonempty [] h k = cc
    nonempty (c ∷ t) h k = cc

from_segments-IsSpelled :
    (s : Text) (ps : List Text) (f : FormulaName)
    → join slash ps ≡ s
    → from_segments s ps ≡ ok f
    → (name f ≢ []) × (all is_name_char (name f) ≡ true) × IsSpelled s f
unfolding name tap
from_segments-IsSpelled s [] f e h = cc
from_segments-IsSpelled s (first ∷ []) f e h =
    let (some_char, charset, same) = checked-ok s first 0 none f h in
    rw (same, ← e) (some_char, charset, inl (refl, refl))
from_segments-IsSpelled s (first ∷ repo ∷ []) f e h = cc
from_segments-IsSpelled s (first ∷ repo ∷ n ∷ []) f e h =
    elim (Bool-cases (not (is_empty first) && not (is_empty repo))) [
      | inl both ↦
          let (some_char, charset, same) =
            checked-ok s n (length first + 1 + length repo + 1) (some (length first + 1)) f
              (rw both at h) in
          qualified s first repo n f (sym e) some_char charset same (ground arith) (ground arith)
      | inr neither ↦ cc (rw neither at h)
    ]
from_segments-IsSpelled s (first ∷ repo ∷ n ∷ more ∷ ps) f e h = cc

-- A formula name that `from_str` accepts has a name segment that is not empty and of the allowed
-- characters, and its name and tap, put together with slashes, are the text that was parsed.
pub from_str-IsSpelled :
    (s : Text) (f : FormulaName)
    → from_str s ≡ ok f
    → (name f ≢ []) × (all is_name_char (name f) ≡ true) × IsSpelled s f
unfolding from_str
from_str-IsSpelled s f h = from_segments-IsSpelled s (split slash s) f (join-split slash s) h
