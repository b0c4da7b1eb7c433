-- ===== src/Relocate/Headers.antt =====
-- relocate.rs: the program headers that are decoded stand where the file's header says, within the
-- file.
use zapbrew.Base.{
  ℕ, zero, suc, ◌+◌, ◌*◌, ◌<◌, ◌≤◌, Text, Bool, true, false, ◌&&◌, List, [], ◌∷◌, Option, none,
  some, length, leb, leb→le, ltb, and_then-eq-some, some-inj, ◌≡◌, refl, ap, sym, ◌∙◌, arith, inl,
  inr, Bool-cases,
}
use mathlib.Core.Path.{subst}
use zapbrew.Relocate.Bytes.{u64_mod, checked_add, checked_mul, rd_uint, rd_u16, rd_u32, rd_u64}
use zapbrew.Relocate.BytesLaws.{rd_uint-eq-if}
use zapbrew.Relocate.Elf.{
  Phdr64, is_elf64, byte_at, byte_order, decode_phdr, decode_phdrs, decode_with, decode_elf64,
  phdr64_len, ehdr_min_len,
}

pub rd_uint-eq-some :
    (k : ℕ) (buf : Text) (o : ℕ) (little : Bool) (v : ℕ)
    → rd_uint k buf o little ≡ some v
    → (o + k ≤ length buf) × (o + k < u64_mod)
rd_uint-eq-some k buf o little v h =
    elim (Bool-cases (ltb (o + k) u64_mod && leb (o + k) (length buf))) [
      | inl within ↦ (ground arith, ground arith)
      | inr beyond ↦
          let no : rd_uint k buf o little ≡ none = rd_uint-eq-if k buf o little ∙ rw beyond refl in
          absurd cc
    ]

decode_phdr-eq-some :
    (buf : Text) (little : Bool) (base : ℕ) (phdr : Phdr64)
    → decode_phdr buf little base ≡ some phdr
    → (phdr.header_offset ≡ base) × (base + phdr64_len ≤ length buf)
unfolding decode_phdr
decode_phdr-eq-some buf little base phdr h =
    let (end, e0, h0) = and_then-eq-some (checked_add base phdr64_len) _ phdr h in
    let (p_type, e1, h1) = and_then-eq-some (rd_u32 buf base little) _ phdr h0 in
    let (p_offset, e2, h2) = and_then-eq-some (rd_u64 buf (base + 8) little) _ phdr h1 in
    let (p_vaddr, e3, h3) = and_then-eq-some (rd_u64 buf (base + 16) little) _ phdr h2 in
    let (p_filesz, e4, h4) = and_then-eq-some (rd_u64 buf (base + 32) little) _ phdr h3 in
    let (p_memsz, e5, h5) = and_then-eq-some (rd_u64 buf (base + 40) little) _ phdr h4 in
    let (p_align, e6, h6) = and_then-eq-some (rd_u64 buf (base + 48) little) _ phdr h5 in
    let (within, below) = rd_uint-eq-some 8 buf (base + 48) little p_align e6 in
    (sym (ap (λ (p : Phdr64). p.header_offset) (some-inj _ phdr h6)), omega arith)

-- The headers from an index on stand at their offsets, each within the file.
abbrev pub Placed : Text → ℕ → ℕ → ℕ → List Phdr64 → Type 0
Placed buf phoff phentsize index [] = Unit
Placed buf phoff phentsize index (phdr ∷ phdrs) =
    (phdr.header_offset ≡ phoff + index * phentsize)
    × (phdr.header_offset + phdr64_len ≤ length buf)
    × Placed buf phoff phentsize (suc index) phdrs

pub checked_add-eq-some : (a b c : ℕ) → checked_add a b ≡ some c → c ≡ a + b
unfolding checked_add
checked_add-eq-some a b c h = ground arith

pub checked_mul-eq-some : (a b c : ℕ) → checked_mul a b ≡ some c → c ≡ a * b
unfolding checked_mul
checked_mul-eq-some a b c h = elim (Bool-cases (ltb (a * b) u64_mod)) [
  | inl below ↦ sym (some-inj (a * b) c (rw (below, checked_mul) at h))
  | inr above ↦
      let no : ◌≡◌ {A = Option ℕ} none (some c) = rw (above, checked_mul) at h in absurd cc
]

decode_phdrs-Placed :
    (buf : Text) (little : Bool) (phoff phentsize index more : ℕ) (phdrs : List Phdr64)
    → decode_phdrs buf little phoff phentsize index more ≡ some phdrs
    → (length phdrs ≡ more) × Placed buf phoff phentsize index phdrs
unfolding decode_phdrs
decode_phdrs-Placed buf little phoff phentsize index zero phdrs h =
    rw (← some-inj [] phdrs h) (refl, tt)
decode_phdrs-Placed buf little phoff phentsize index (suc more) phdrs h =
    let (step, e0, h0) = and_then-eq-some (checked_mul index phentsize) _ phdrs h in
    let (base, e1, h1) = and_then-eq-some (checked_add phoff step) _ phdrs h0 in
    let (phdr, e2, h2) = and_then-eq-some (decode_phdr buf little base) _ phdrs h1 in
    let (rest, e3, h3) =
      and_then-eq-some (decode_phdrs buf little phoff phentsize (suc index) more) _ phdrs h2 in
    let (count, places) = decode_phdrs-Placed buf little phoff phentsize (suc index) more rest e3 in
    let far = checked_mul-eq-some index phentsize step e0 in
    let at = checked_add-eq-some phoff step base e1 in
    let (here, within) = decode_phdr-eq-some buf little base phdr e2 in
    rw (← some-inj (phdr ∷ rest) phdrs h3)
      (omega arith, (here ∙ (at ∙ ap (λ (n : ℕ). phoff + n) far), omega arith, places))

-- The table that the file's header describes, in one byte order.
abbrev pub Table : Text → Bool → List Phdr64 → Type 0
Table buf order phdrs =
    (phoff : ℕ) × (phentsize : ℕ) × (rd_u64 buf 32 order ≡ some phoff)
    × (rd_u16 buf 54 order ≡ some phentsize)
    × (rd_u16 buf 56 order ≡ some (length phdrs))
    × Placed buf phoff phentsize 0 phdrs

decode_with-Placed :
    (buf : Text) (order little : Bool) (phdrs : List Phdr64)
    → decode_with buf order ≡ some (little, phdrs)
    → Table buf order phdrs × (order ≡ little)
unfolding decode_with
decode_with-Placed buf order little phdrs h =
    let (phoff, e0, h0) = and_then-eq-some (rd_u64 buf 32 order) _ (little, phdrs) h in
    let (phentsize, e1, h1) = and_then-eq-some (rd_u16 buf 54 order) _ (little, phdrs) h0 in
    let (phnum, e2, h2) = and_then-eq-some (rd_u16 buf 56 order) _ (little, phdrs) h1 in
    elim (Bool-cases (ltb phentsize phdr64_len)) [
      | inl narrow ↦
          let no : ◌≡◌ {A = Option (Bool × List Phdr64)} none (some (little, phdrs)) =
            rw narrow at h2 in
          absurd cc
      | inr wide ↦
          let (found, e3, h3) =
            and_then-eq-some (decode_phdrs buf order phoff phentsize 0 phnum) _ (little, phdrs)
              (rw wide at h2) in
          let pair = some-inj (order, found) (little, phdrs) h3 in
          let same : found ≡ phdrs = ap (λ (p : Bool × List Phdr64). p.1) pair in
          let (count, places) =
            decode_phdrs-Placed buf order phoff phentsize 0 phnum phdrs
              (e3 ∙ ap (λ (l : List Phdr64). some l) same) in
          (
            (phoff, phentsize, e0, e1, e2 ∙ ap (λ (n : ℕ). some n) (sym count), places),
            ap (λ (p : Bool × List Phdr64). p.0) pair,
          )
    ]

is_elf64_long : (buf : Text) → is_elf64 buf ≡ true → ehdr_min_len ≤ length buf
is_elf64_long buf h = elim (Bool-cases (leb ehdr_min_len (length buf))) [
  | inl long ↦ leb→le ehdr_min_len (length buf) long
  | inr short ↦ let no : false ≡ true = rw (short, is_elf64) at h in absurd cc
]

-- When an ELF64 image is decoded, the file holds the whole of its first header, there are as many
-- program headers as that header counts, each of them stands in its row of the table, and the
-- whole of each lies within the file.
pub decode_elf64-Placed :
    (buf : Text) (little : Bool) (phdrs : List Phdr64)
    → decode_elf64 buf ≡ some (little, phdrs)
    → Table buf little phdrs × (ehdr_min_len ≤ length buf)
unfolding decode_elf64 decode_with
decode_elf64-Placed buf little phdrs h = elim (Bool-cases (is_elf64 buf)) [
  | inr other ↦
      let no : ◌≡◌ {A = Option (Bool × List Phdr64)} none (some (little, phdrs)) =
        rw (other, decode_elf64) at h in
      absurd cc
  | inl elf ↦
      let (order, e0, h0) =
        and_then-eq-some (byte_order (byte_at buf 5)) _ (little, phdrs)
          (rw (elf, decode_elf64) at h) in
      let (table, same) = decode_with-Placed buf order little phdrs h0 in
      (subst (λ (o : Bool). Table buf o phdrs) same table, is_elf64_long buf elf)
]
