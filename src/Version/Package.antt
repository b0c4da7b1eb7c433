-- ===== src/Version/Package.antt =====
-- version.rs: `PkgVersion`, a version with a revision, its spelling, its parser and its order.
use zapbrew.Base.{
  ℕ, ◌++◌, Text, not, ◌||◌, ◌∷◌, Option, none, some, Result, ok, err, if◌then◌else◌, is_empty, all,
  is_ascii_digit, rsplit_once, parse_u32, decimal, ltb, compare, Ordering, then_with, IsOrder,
  compare-IsOrder, IsOrder-key, IsOrder-then, ◌≡◌, refl, ◌↔◌, ◌⊎◌, inl, inr, ◌<◌, arith,
}
use zapbrew.Types.Error.{TypeError, invalid_pkg_version}
use zapbrew.Version.Patterns.{Regexes}
use zapbrew.Version.{Version, parse, parse_with_flag, cmp}
use zapbrew.Version.Order.{Source, cmp-IsOrder}

pub record PkgVersion : Type 0 where
  pub version : Version
  pub revision : ℕ

abbrev pub checked_split : Option (Text × Text) → Option (Text × Text)
checked_split none = none
checked_split (some (prefix, suffix)) =
    if is_empty prefix
    then none
    else if is_empty suffix || not (all is_ascii_digit suffix)
    then none
    else some (prefix, suffix)

unfoldable pub split_revision : Text → Option (Text × Text)
split_revision s = checked_split (rsplit_once b'_' s)

module _ (re : Regexes) where
  abbrev pub with_revision : Text → Text → Option ℕ → Result TypeError PkgVersion
  with_revision s prefix none = err (invalid_pkg_version s)
  with_revision s prefix (some revision) =
      ok (record { version = parse re prefix; revision = revision })

  abbrev pub from_split : Text → Option (Text × Text) → Result TypeError PkgVersion
  from_split s (some (prefix, rev_str)) = with_revision s prefix (parse_u32 rev_str)
  from_split s none = ok (record { version = parse re s; revision = 0 })

  unfoldable pub from_str : Text → Result TypeError PkgVersion
  from_str s = if is_empty s then err (invalid_pkg_version s) else from_split s (split_revision s)

-- `Display`
unfoldable pub to_string : PkgVersion → Text
to_string p =
    if ltb 0 p.revision then p.version.raw ++ (b'_' ∷ decimal p.revision) else p.version.raw

-- The derived `Ord`: the version, then the revision.
unfoldable pub cmp_pkg : PkgVersion → PkgVersion → Ordering
cmp_pkg p q = then_with (cmp p.version q.version) (compare p.revision q.revision)

-- A package version that parsing or detection of its version made.
abbrev pub made : Regexes → Source × ℕ → PkgVersion
made re p = record { version = parse_with_flag re p.0.0 p.0.1; revision = p.1 }

-- The order compares first the versions, and where these are equal the revisions, as numbers.
abbrev pub ByRevision : PkgVersion → PkgVersion → Type 0
ByRevision p q =
    ((cmp_pkg p q ≡ Ordering.lt) ↔ (
      (cmp p.version q.version ≡ Ordering.lt)
      ⊎ ((cmp p.version q.version ≡ Ordering.eq) × p.revision < q.revision)))
    × ((cmp_pkg p q ≡ Ordering.eq)
        ↔ ((cmp p.version q.version ≡ Ordering.eq) × (p.revision ≡ q.revision)))

compare-lt_iff : (m n : ℕ) → (compare m n ≡ Ordering.lt) ↔ (m < n)
compare-lt_iff m n = (λ h. ground arith, λ h. ground arith)

compare-eq_iff : (m n : ℕ) → (compare m n ≡ Ordering.eq) ↔ (m ≡ n)
compare-eq_iff m n = (λ h. ground arith, λ h. ground arith)

cmp_pkg-ByRevision : (p q : PkgVersion) → ByRevision p q
unfolding cmp_pkg then_with
cmp_pkg-ByRevision p q = by (cmp p.version q.version)
  where
    by :
        (o : Ordering)
        → ((then_with o (compare p.revision q.revision) ≡ Ordering.lt)
            ↔ ((o ≡ Ordering.lt) ⊎ ((o ≡ Ordering.eq) × p.revision < q.revision)))
          × ((then_with o (compare p.revision q.revision) ≡ Ordering.eq)
              ↔ ((o ≡ Ordering.eq) × (p.revision ≡ q.revision)))
    by Ordering.lt =
        ((λ h. inl refl, λ h. refl), (λ h. absurd cc, λ h. let never = h.0 in absurd cc))
    by Ordering.gt = (
      (λ h. absurd cc, λ h. elim h [ inl never ↦ absurd cc | inr (never, less) ↦ absurd cc ]),
      (λ h. absurd cc, λ h. let never = h.0 in absurd cc),
    )
    by Ordering.eq = (
      (
        λ h. inr (refl, (compare-lt_iff p.revision q.revision).0 h),
        λ h. elim h [
          | inl never ↦ absurd cc
          | inr (same, less) ↦ (compare-lt_iff p.revision q.revision).1 less
        ],
      ),
      (
        λ h. (refl, (compare-eq_iff p.revision q.revision).0 h),
        λ h. (compare-eq_iff p.revision q.revision).1 h.1,
      ),
    )

-- The order on package versions is a total preorder, by version and then, for equal versions, by
-- the number of the revision.
pub cmp_pkg-IsOrder :
    (re : Regexes)
    → IsOrder (λ (p q : Source × ℕ). cmp_pkg (made re p) (made re q))
      × ((p q : PkgVersion) → ByRevision p q)
unfolding cmp_pkg
cmp_pkg-IsOrder re = (
  IsOrder-then (λ (p q : Source × ℕ). cmp (made re p).version (made re q).version)
      (λ (p q : Source × ℕ). compare p.1 q.1)
      (IsOrder-key (λ (p : Source × ℕ). p.0) _ (cmp-IsOrder re))
      (IsOrder-key (λ (p : Source × ℕ). p.1) compare compare-IsOrder),
  cmp_pkg-ByRevision,
)
