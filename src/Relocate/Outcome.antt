-- ===== src/Relocate/Outcome.antt =====
-- relocate.rs: what the plan for a binary promises.
use zapbrew.Base.{
  ◌≤◌, Text, bytes, Bool, true, false, ◌&&◌, ◌||◌, not, List, [], ◌++◌, Option, none, some,
  if◌then◌else◌, length, Result, ok, err, ◌>>=◌, bind-eq-ok, ok-inj, some-inj, ◌≡◌, refl, ap, sym,
  ◌∙◌, arith, inl, inr, Bool-cases, Option-cases,
}
use mathlib.Core.Path.{subst}
use zapbrew.Relocate.Replace.{Subs, Range, PourError, relocation, binary_nul_pad}
use zapbrew.Relocate.Slots.{length-binary_nul_pad}
use zapbrew.Relocate.Elf.{elf_linkage_regions}
use zapbrew.Relocate.Rewrite.{elf_relocate}
use zapbrew.Relocate.Macho.{
  rewrite_slots, macho_relocate, macho_linkage_regions, macho_string_slots,
}
use zapbrew.Relocate.MachoRewrite.{macho_relocate-Slots}
use zapbrew.Relocate.Lengths.{Longer}
use zapbrew.Relocate.Growth.{Longer-elf_relocate}
use zapbrew.Relocate.Plan.{
  BinaryFormat, format_eq, is_elf, at_path, appended, Target, reparse_matches, is_mach_o_image,
  structured_pass, relocate_binary,
}

length-macho_relocate :
    (lossy : Text → Text) (original out : Text) (subs : Subs) (cellar new_prefix : Text)
    (changed : Bool)
    → macho_relocate lossy original original subs cellar new_prefix ≡ ok (out, changed)
    → length out ≡ length original
unfolding macho_relocate
length-macho_relocate lossy original out subs cellar new_prefix changed h =
    let (found, e, h1) = bind-eq-ok (macho_string_slots original) _ (out, changed) h in
    by_slots found e h1
  where
    by_slots :
        (found : Option (List Range))
        → macho_string_slots original ≡ ok found
        → ◌≡◌ {A = Result Text (Text × Bool)}
            (elim found [
              | none ↦ ok (original, false)
              | some slots ↦ rewrite_slots lossy subs cellar new_prefix original original slots
            ])
            (ok (out, changed))
        → length out ≡ length original
    by_slots none e h1 =
        sym (ap (λ (p : Text × Bool). length p.0) (ok-inj (original, false) (out, changed) h1))
    by_slots (some slots) e h1 =
        (macho_relocate-Slots lossy subs cellar new_prefix original out slots changed e h).0

Longer-length :
    (buf out : Text) (changed : Bool) (m : Result Text (Text × Bool))
    → m ≡ ok (out, changed)
    → Longer buf m
    → length buf ≤ length out
Longer-length buf out changed m e h = rw e at h

at_path-eq-ok {ℓ} :
    {A : Type ℓ} (path : Text) (m : Result Text A) (a : A) → at_path path m ≡ ok a → m ≡ ok a
at_path-eq-ok path (ok b) a h = rw (ok-inj b a h) refl
at_path-eq-ok path (err reason) a h = cc

and_true : (b : Bool) → (b && true) ≡ b
and_true true = refl
and_true false = refl

module _ (lossy : Text → Text) (object_format : Text → Option BinaryFormat) where
  -- The structured pass grows the file or keeps its length; it grows nothing but ELF.
  structured_pass_longer :
      (t : Target) (format : Option BinaryFormat) (original buf : Text) (changed : Bool)
      (regions : List Range)
      → structured_pass lossy object_format t format original ≡ ok ((buf, changed), regions)
      → (length original ≤ length buf) × (is_elf format ≡ false → length buf ≡ length original)
  unfolding structured_pass
  structured_pass_longer t format original buf changed regions h =
      elim (Bool-cases (is_elf format && not t.is_glibc)) [
        | inl structured ↦
            let ((out, c), e1, h1) =
              bind-eq-ok
                (elf_relocate lossy original original t.subs t.new_prefix t.cellar t.is_gcc
                  t.ld_so_readable)
                _ ((buf, changed), regions) (rw (structured, structured_pass) at h) in
            let same : out ≡ buf =
              ap (λ (p : (Text × Bool) × List Range). p.0.0)
                (ok-inj ((out, c), elf_linkage_regions original) ((buf, changed), regions) h1) in
            let longer = Longer-length original out c _ e1 (
              Longer-elf_relocate lossy original original t.subs t.new_prefix t.cellar t.is_gcc
                t.ld_so_readable) in
            (
              subst (λ (r : Text). length original ≤ length r) same longer,
              λ not_elf. let no : false ≡ true = rw not_elf at structured in absurd cc,
            )
        | inr other ↦ elim (Bool-cases (is_mach_o_image lossy object_format format original)) [
          | inl image ↦
              let ((out, c), e1, h1) =
                bind-eq-ok (macho_relocate lossy original original t.subs t.cellar t.new_prefix) _
                  ((buf, changed), regions) (rw (other, image, structured_pass) at h) in
              let same : out ≡ buf =
                ap (λ (p : (Text × Bool) × List Range). p.0.0)
                  (ok-inj ((out, c), macho_linkage_regions original) ((buf, changed), regions)
                    h1) in
              let long : length buf ≡ length original =
                ap (λ (r : Text). length r) (sym same)
                ∙ length-macho_relocate lossy original out t.subs t.cellar t.new_prefix c e1 in
              (omega arith, λ not_elf. long)
          | inr plain ↦
              let same : original ≡ buf =
                ap (λ (p : (Text × Bool) × List Range). p.0.0)
                  (ok-inj ((original, false), []) ((buf, changed), regions)
                    (rw (other, plain, structured_pass) at h)) in
              let long : length buf ≡ length original = ap (λ (r : Text). length r) (sym same) in
              (omega arith, λ not_elf. long)
        ]
      ]

  -- The format that the parser finds is what it is to be.
  abbrev pub SameFormat : Text → Option BinaryFormat → Type 0
  SameFormat content none = Unit
  SameFormat content (some want) =
      (actual : BinaryFormat) × (object_format content ≡ some actual)
      × (format_eq actual want ≡ true)

  reparse_matches-SameFormat :
      (content : Text) (format : Option BinaryFormat) (path : Text) (b : Bool)
      → reparse_matches lossy object_format content format path ≡ ok b
      → SameFormat content format
  unfolding reparse_matches
  reparse_matches-SameFormat content none path b h = tt
  reparse_matches-SameFormat content (some want) path b h =
      elim (Option-cases (object_format content)) [
        | inl lost ↦
            let no : ◌≡◌ {A = Result PourError Bool}
                (err (relocation path (bytes "relocated binary failed to reparse"))) (ok b) =
              rw (lost, reparse_matches) at h in
            absurd cc
        | inr (actual, found) ↦ elim (Bool-cases (format_eq actual want)) [
          | inl same ↦ (actual, found, same)
          | inr other ↦
              let no : ◌≡◌ {A = Result PourError Bool}
                  (err (relocation path (bytes "relocated binary failed to reparse"))) (ok b) =
                rw (found, other, reparse_matches) at h in
              absurd cc
        ]
      ]

  -- The end of the plan: a change is reparsed.
  changed_end :
      (padded path : Text) (format : Option BinaryFormat) (image changed : Bool) (out : Text)
      (sign : Bool)
      → ◌≡◌ {A = Result PourError (Option (Text × Bool))}
          (if changed
            then (reparse_matches lossy object_format padded format path >>= λ matches.
                ok (some (padded, image && changed)))
            else ok none)
          (ok (some (out, sign)))
      → SameFormat padded format × (padded ≡ out) × (sign ≡ image)
  changed_end padded path format image false out sign h = absurd cc
  changed_end padded path format image true out sign h =
      let (matches, e, h1) =
        bind-eq-ok (reparse_matches lossy object_format padded format path) _ (some (out, sign))
          h in
      let pair = some-inj (padded, image && true) (out, sign) (ok-inj _ _ h1) in
      (
        reparse_matches-SameFormat padded format path matches e,
        ap (λ (p : Text × Bool). p.0) pair,
        sym (ap (λ (p : Text × Bool). p.1) pair) ∙ and_true image,
      )

-- When a binary gets a new content, that content is not shorter than the old one, and just as long
-- unless the old one was an ELF image; the parser finds the format that it found before, if it
-- found one; and the content is to be signed exactly when the old one was a Mach-O image.
pub relocate_binary-SameFormat :
    (lossy : Text → Text) (object_format : Text → Option BinaryFormat) (t : Target)
    (original path out : Text) (sign : Bool)
    → relocate_binary lossy object_format t original path ≡ ok (some (out, sign))
    → (length original ≤ length out)
      × (is_elf (object_format original) ≡ false → length out ≡ length original)
      × SameFormat lossy object_format out (object_format original)
      × (sign ≡ is_mach_o_image lossy object_format (object_format original) original)
unfolding relocate_binary
relocate_binary-SameFormat lossy object_format t original path out sign h =
    let format = object_format original in
    let (((buf, c1), regions), e1, h1) =
      bind-eq-ok (at_path path (structured_pass lossy object_format t format original)) _
        (some (out, sign)) h in
    let ((padded, c2), e2, h2) =
      bind-eq-ok (binary_nul_pad buf t.subs (regions ++ appended original buf) path) _
        (some (out, sign)) h1 in
    let (longer, alike) =
      structured_pass_longer lossy object_format t format original buf c1 regions
        (at_path-eq-ok path _ ((buf, c1), regions) e1) in
    let kept =
      (length-binary_nul_pad buf t.subs (regions ++ appended original buf) path padded c2 e2).0 in
    let (same_format, same, signed) =
      changed_end lossy object_format padded path format
        (is_mach_o_image lossy object_format format original) (c1 || c2) out sign h2 in
    let long : length out ≡ length buf = ap (λ (r : Text). length r) (sym same) ∙ kept in
    (
      omega arith,
      λ other. long ∙ alike other,
      subst (λ (r : Text). SameFormat lossy object_format r format) same same_format,
      signed,
    )
