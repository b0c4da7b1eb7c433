-- ===== src/Relocate/GccLib.antt =====
-- relocate.rs: what `rewrite_gcc_lib` and the test on a segment of a runpath amount to.
use zapbrew.Base.{
  ℕ, Text, bytes, is_ascii_digit, Bool, true, false, ◌&&◌, ◌||◌, not, [], ◌∷◌, ◌++◌, Option, none,
  some, is_empty, all, strip_prefix, if◌then◌else◌, strip_prefix-eq-some, path_starts_with, ◌≡◌,
  ◌≢◌, ◌↔◌, refl, ap, sym, ◌∙◌, ◌⊎◌, inl, inr, arith, Bool-cases, Option-cases,
}
use zapbrew.Relocate.Runpath.{begins, split_last, gcc_marker, rewrite_gcc_lib, kept_segment}

split_last-none :
    (p : Text) (c : ℕ) (cs : Text)
    → split_last p cs ≡ none
    → strip_prefix p (c ∷ cs) ≡ none
    → split_last p (c ∷ cs) ≡ none
unfolding split_last
split_last-none p c cs later here = rw (later, here) refl

split_last-here :
    (p : Text) (c : ℕ) (cs rest : Text)
    → split_last p cs ≡ none
    → strip_prefix p (c ∷ cs) ≡ some rest
    → split_last p (c ∷ cs) ≡ some ([], rest)
unfolding split_last
split_last-here p c cs rest later here = rw (later, here) refl

split_last-later :
    (p : Text) (c : ℕ) (cs before rest : Text)
    → split_last p cs ≡ some (before, rest)
    → split_last p (c ∷ cs) ≡ some (c ∷ before, rest)
unfolding split_last
split_last-later p c cs before rest later = rw later refl

-- The last occurrence of a pattern stands where it is found.
split_last_sound :
    (p s before rest : Text) → split_last p s ≡ some (before, rest) → s ≡ before ++ (p ++ rest)
unfolding split_last
split_last_sound p [] before rest h = ended (strip_prefix p []) refl h
  where
    ended :
        (o : Option Text)
        → strip_prefix p [] ≡ o
        → ◌≡◌ {A = Option (Text × Text)}
            (elim o [ none ↦ none | some t ↦ some ([], t) ])
            (some (before, rest))
        → [] ≡ before ++ (p ++ rest)
    ended none e k = cc
    ended (some t) e k =
        let whole = strip_prefix-eq-some p [] t e in
        let first : before ≡ [] = cc in let last : t ≡ rest = cc in rw (first, ← last) whole
split_last_sound p (c ∷ cs) before rest h =
    found (split_last p cs) (strip_prefix p (c ∷ cs)) (split_last_sound p cs) refl h
  where
    found :
        (o : Option (Text × Text)) (m : Option Text)
        → ((b r : Text) → o ≡ some (b, r) → cs ≡ b ++ (p ++ r))
        → strip_prefix p (c ∷ cs) ≡ m
        → ◌≡◌ {A = Option (Text × Text)}
            (elim o [
              | some (b, r) ↦ some (c ∷ b, r)
              | none ↦ elim m [ none ↦ none | some r ↦ some ([], r) ]
            ])
            (some (before, rest))
        → c ∷ cs ≡ before ++ (p ++ rest)
    found (some (b, r)) m ih e k =
        let first : before ≡ c ∷ b = cc in
        let last : r ≡ rest = cc in rw (first, ← last) (ap (λ (t : Text). c ∷ t) (ih b r refl))
    found none none ih e k = cc
    found none (some t) ih e k =
        let whole = strip_prefix-eq-some p (c ∷ cs) t e in
        let first : before ≡ [] = cc in let last : t ≡ rest = cc in rw (first, ← last) whole

-- No byte of a number starts the marker.
digits-none : (ds : Text) → all is_ascii_digit ds ≡ true → split_last gcc_marker ds ≡ none
unfolding split_last strip_prefix is_ascii_digit
digits-none [] h = refl
digits-none (d ∷ ds) h =
    split_last-none gcc_marker d ds (digits-none ds (ground arith)) (ground arith)

slash-none : (ds : Text) → all is_ascii_digit ds ≡ true → strip_prefix gcc_marker (b'/' ∷ ds) ≡ none
unfolding strip_prefix is_ascii_digit
slash-none [] h = refl
slash-none (d ∷ ds) h = ground arith

-- In front of a number the marker is the last one.
marker-number :
    (ds : Text)
    → all is_ascii_digit ds ≡ true
    → split_last gcc_marker (gcc_marker ++ ds) ≡ some ([], ds)
unfolding strip_prefix
marker-number ds h =
    let s1 = split_last-none gcc_marker b'/' ds (digits-none ds h) (slash-none ds h) in
    let s2 = split_last-none gcc_marker b'c' _ s1 refl in
    let s3 = split_last-none gcc_marker b'c' _ s2 refl in
    let s4 = split_last-none gcc_marker b'g' _ s3 refl in
    let s5 = split_last-none gcc_marker b'/' _ s4 refl in
    let s6 = split_last-none gcc_marker b'b' _ s5 refl in
    let s7 = split_last-none gcc_marker b'i' _ s6 refl in
    let s8 = split_last-none gcc_marker b'l' _ s7 refl in
    split_last-here gcc_marker b'/' _ ds s8 refl

split_last-number :
    (before ds : Text)
    → all is_ascii_digit ds ≡ true
    → split_last gcc_marker (before ++ (gcc_marker ++ ds)) ≡ some (before, ds)
split_last-number [] ds h = marker-number ds h
split_last-number (c ∷ before) ds h =
    split_last-later gcc_marker c (before ++ (gcc_marker ++ ds)) before ds
      (split_last-number before ds h)

-- The segment ends in `/lib/gcc/` and a number in decimal digits.
abbrev pub Numbered : Text → Text → Text → Type 0
Numbered segment before ds =
    (segment ≡ before ++ (bytes "/lib/gcc/" ++ ds)) × (ds ≢ []) × (all is_ascii_digit ds ≡ true)

-- A segment that ends in a numbered gcc directory has `current` in place of the number, and any
-- other segment is itself.
abbrev pub Renamed : Text → Text → Type 0
Renamed segment s =
    ((before : Text) × (ds : Text) × Numbered segment before ds
      × (s ≡ before ++ bytes "/lib/gcc/current"))
    ⊎ ((s ≡ segment) × ((before ds : Text) → ¬ Numbered segment before ds))

rewrite_gcc_lib-Numbered :
    (segment before ds : Text)
    → Numbered segment before ds
    → rewrite_gcc_lib segment ≡ before ++ bytes "/lib/gcc/current"
unfolding rewrite_gcc_lib
rewrite_gcc_lib-Numbered segment before [] (whole, some_digit, digits) = absurd (some_digit refl)
rewrite_gcc_lib-Numbered segment before (d ∷ ds) (whole, some_digit, digits) =
    let found = split_last-number before (d ∷ ds) digits in
    rw (whole, found, rewrite_gcc_lib, digits) refl

rewrite_gcc_lib-Renamed : (segment : Text) → Renamed segment (rewrite_gcc_lib segment)
unfolding rewrite_gcc_lib
rewrite_gcc_lib-Renamed segment = elim (Option-cases (split_last gcc_marker segment)) [
  | inl miss ↦
      rw (miss, rewrite_gcc_lib)
        (inr (
          refl,
          λ before ds (whole, some_digit, digits).
              let found = split_last-number before ds digits in
              let found' : split_last gcc_marker segment ≡ some (before, ds) = rw whole found in
              absurd cc,
        ))
  | inr ((before, tail), found) ↦
      rw (found, rewrite_gcc_lib)
        (tested before tail (split_last_sound gcc_marker segment before tail found) found)
]
  where
    tested :
        (before tail : Text)
        → segment ≡ before ++ (gcc_marker ++ tail)
        → split_last gcc_marker segment ≡ some (before, tail)
        → Renamed segment (
            if not (is_empty tail) && all is_ascii_digit tail
            then before ++ (gcc_marker ++ bytes "current")
            else segment)
    tested before [] whole found = inr (
      refl,
      λ b ds (w, some_digit, digits).
          let other : split_last gcc_marker segment ≡ some (b, ds) =
            rw w (split_last-number b ds digits) in
          let same : ds ≡ [] = cc in some_digit same,
    )
    tested before (d ∷ tail) whole found = elim (Bool-cases (all is_ascii_digit (d ∷ tail))) [
      | inl digits ↦ rw digits (inl (before, d ∷ tail, (whole, (λ e. cc), digits), refl))
      | inr other ↦ rw other (
          inr (
            refl,
            λ b ds (w, some_digit, digits).
                let hit : split_last gcc_marker segment ≡ some (b, ds) =
                  rw w (split_last-number b ds digits) in
                let same : ds ≡ d ∷ tail = cc in
                let never : all is_ascii_digit (d ∷ tail) ≡ true =
                  ap (λ (t : Text). all is_ascii_digit t) (sym same) ∙ digits in
                absurd cc,
          ))
    ]

-- `rewrite_gcc_lib` gives exactly the renamed segment.
pub rewrite_gcc_lib_iff : (segment s : Text) → (s ≡ rewrite_gcc_lib segment) ↔ Renamed segment s
rewrite_gcc_lib_iff segment s = (
  λ same. rw same (rewrite_gcc_lib-Renamed segment),
  λ h. elim h [
    | inl (before, ds, numbered, same) ↦
        same ∙ sym (rewrite_gcc_lib-Numbered segment before ds numbered)
    | inr (same, never) ↦ elim (rewrite_gcc_lib-Renamed segment) [
      | inl (before, ds, numbered, current) ↦ absurd (never before ds numbered)
      | inr (kept, never') ↦ same ∙ sym kept
    ]
  ],
)

-- A segment of the old runpath that stays: it lies in the prefix or in the cellar, or begins with
-- `$ORIGIN`.
abbrev pub Stays : Text → Text → Text → Type 0
Stays new_prefix cellar raw =
    (raw ≢ [])
    × ((path_starts_with raw new_prefix ≡ true)
        ⊎ (path_starts_with raw cellar ≡ true)
        ⊎ ((rest : Text) × (raw ≡ bytes "$ORIGIN" ++ rest)))

strip_prefix-append : (p rest : Text) → strip_prefix p (p ++ rest) ≡ some rest
unfolding strip_prefix
strip_prefix-append [] rest = refl
strip_prefix-append (c ∷ p) rest = ground (arith, strip_prefix-append p rest)

begins_iff : (p s : Text) → (begins p s ≡ true) ↔ ((rest : Text) × (s ≡ p ++ rest))
unfolding begins
begins_iff p s = (
  λ h. elim (Option-cases (strip_prefix p s)) [
    | inl miss ↦ let never : false ≡ true = rw (miss, begins) at h in absurd cc
    | inr (rest, hit) ↦ (rest, strip_prefix-eq-some p s rest hit)
  ],
  λ (rest, whole). rw (whole, strip_prefix-append p rest, begins) refl,
)

-- What the loop keeps are the segments that stay.
pub kept_segment_iff :
    (new_prefix cellar raw : Text)
    → (kept_segment new_prefix cellar raw ≡ true) ↔ Stays new_prefix cellar raw
unfolding kept_segment
kept_segment_iff new_prefix cellar [] = (λ h. absurd cc, λ (full, h). absurd (full refl))
kept_segment_iff new_prefix cellar (c ∷ cs) = (
  λ h. (
    (λ e. cc),
    elim (Bool-cases (path_starts_with (c ∷ cs) new_prefix)) [
      | inl below ↦ inl below
      | inr apart ↦ elim (Bool-cases (path_starts_with (c ∷ cs) cellar)) [
        | inl inside ↦ inr (inl inside)
        | inr outside ↦ inr (
            inr
              ((begins_iff (bytes "$ORIGIN") (c ∷ cs)).0 (rw (apart, outside, kept_segment) at h)))
      ]
    ],
  ),
  λ (full, h). elim h [
    | inl below ↦ rw below refl
    | inr (inl inside) ↦ second (path_starts_with (c ∷ cs) new_prefix) inside
    | inr (inr origin) ↦
        third (path_starts_with (c ∷ cs) new_prefix) (path_starts_with (c ∷ cs) cellar)
          ((begins_iff (bytes "$ORIGIN") (c ∷ cs)).1 origin)
  ],
)
  where
    second :
        (a : Bool)
        → path_starts_with (c ∷ cs) cellar ≡ true
        → (a || path_starts_with (c ∷ cs) cellar || begins (bytes "$ORIGIN") (c ∷ cs)) ≡ true
    second true h = refl
    second false h = rw h refl

    third :
        (a b : Bool)
        → begins (bytes "$ORIGIN") (c ∷ cs) ≡ true
        → (a || b || begins (bytes "$ORIGIN") (c ∷ cs)) ≡ true
    third true b h = refl
    third false true h = refl
    third false false h = h
