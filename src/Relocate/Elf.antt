-- ===== src/Relocate/Elf.antt =====
-- relocate.rs: the ELF64 header, its program headers, and the regions of the dynamic linkage.
use zapbrew.Base.{
  ℕ, zero, suc, ◌+◌, ◌-◌, ◌*◌, ◌/◌, Text, bytes, text_eq, Bool, true, false, ◌&&◌, List, [], ◌∷◌,
  ◌++◌, Option, none, some, if◌then◌else◌, and_then, find, length, get_elem?, take, leb, ltb, ◌==◌,
}
use zapbrew.Relocate.Bytes.{checked_add, checked_mul, rd_u16, rd_u32, rd_u64, rd_uint}
use zapbrew.Relocate.Replace.{Range}

abbrev pub pt_load : ℕ
pt_load = 1

abbrev pub pt_dynamic : ℕ
pt_dynamic = 2

abbrev pub pt_interp : ℕ
pt_interp = 3

abbrev pub dt_null : ℕ
dt_null = 0

abbrev pub dt_strtab : ℕ
dt_strtab = 5

abbrev pub dt_strsz : ℕ
dt_strsz = 10

abbrev pub dt_rpath : ℕ
dt_rpath = 15

abbrev pub dt_runpath : ℕ
dt_runpath = 29

abbrev pub ehdr_min_len : ℕ
ehdr_min_len = 64

abbrev pub phdr64_len : ℕ
phdr64_len = 56

abbrev pub dyn64_len : ℕ
dyn64_len = 16

abbrev pub shdr64_len : ℕ
shdr64_len = 64

abbrev pub max_segment_align : ℕ
max_segment_align = 268435456

pub record Phdr64 : Type 0 where
  pub header_offset : ℕ
  pub p_type : ℕ
  pub p_offset : ℕ
  pub p_vaddr : ℕ
  pub p_filesz : ℕ
  pub p_memsz : ℕ
  pub p_align : ℕ

-- The byte at an index that is in range.
abbrev pub byte_at : Text → ℕ → ℕ
byte_at buf i = elim (get_elem? buf i) [ none ↦ 0 | some b ↦ b ]

abbrev pub is_elf64 : Text → Bool
is_elf64 buf =
    leb ehdr_min_len (length buf)
    && text_eq (take 4 buf) (0x7f ∷ bytes "ELF")
    && (byte_at buf 4 == 2)

abbrev pub byte_order : ℕ → Option Bool
byte_order b = if b == 1 then some true else if b == 2 then some false else none

-- One program header, at `base`.
unfoldable pub decode_phdr : Text → Bool → ℕ → Option Phdr64
unfolding checked_add rd_uint
decode_phdr buf little base = and_then (checked_add base phdr64_len) λ _.
    and_then (rd_u32 buf base little) λ p_type. and_then (rd_u64 buf (base + 8) little) λ p_offset.
      and_then (rd_u64 buf (base + 16) little) λ p_vaddr.
        and_then (rd_u64 buf (base + 32) little) λ p_filesz.
          and_then (rd_u64 buf (base + 40) little) λ p_memsz.
            and_then (rd_u64 buf (base + 48) little) λ p_align. some (record {
              header_offset = base;
              p_type = p_type;
              p_offset = p_offset;
              p_vaddr = p_vaddr;
              p_filesz = p_filesz;
              p_memsz = p_memsz;
              p_align = p_align;
            })

-- The loop over the indices from `index` on, by the rounds left.
unfoldable pub decode_phdrs : Text → Bool → ℕ → ℕ → ℕ → ℕ → Option (List Phdr64)
unfolding decode_phdr checked_add checked_mul
decode_phdrs buf little phoff phentsize index zero = some []
decode_phdrs buf little phoff phentsize index (suc more) =
    let later = decode_phdrs buf little phoff phentsize (suc index) more in
    and_then (checked_mul index phentsize) λ step. and_then (checked_add phoff step) λ base.
      and_then (decode_phdr buf little base) λ phdr. and_then later λ phdrs. some (phdr ∷ phdrs)

unfoldable pub decode_with : Text → Bool → Option (Bool × List Phdr64)
unfolding decode_phdrs rd_uint
decode_with buf little = and_then (rd_u64 buf 32 little) λ phoff.
    and_then (rd_u16 buf 54 little) λ phentsize. and_then (rd_u16 buf 56 little) λ phnum.
      if ltb phentsize phdr64_len
      then none
      else (and_then (decode_phdrs buf little phoff phentsize 0 phnum)
          λ phdrs. some (little, phdrs))

unfoldable pub decode_elf64 : Text → Option (Bool × List Phdr64)
unfolding decode_with text_eq
decode_elf64 buf =
    if is_elf64 buf
    then (and_then (byte_order (byte_at buf 5)) λ little. decode_with buf little)
    else none

abbrev pub of_type : ℕ → Phdr64 → Bool
of_type t phdr = phdr.p_type == t

-- What one load segment maps an address to.
abbrev pub in_segment : ℕ → Phdr64 → Option ℕ
in_segment vaddr phdr = and_then (checked_add phdr.p_vaddr phdr.p_filesz) λ end.
    if leb phdr.p_vaddr vaddr && ltb vaddr end
    then checked_add phdr.p_offset (vaddr - phdr.p_vaddr)
    else none

-- `filter` and `find_map`
unfoldable pub vaddr_to_offset : List Phdr64 → ℕ → Option ℕ
unfolding checked_add
vaddr_to_offset [] vaddr = none
vaddr_to_offset (phdr ∷ phdrs) vaddr =
    let later = vaddr_to_offset phdrs vaddr in
    if of_type pt_load phdr
    then elim (in_segment vaddr phdr) [ some offset ↦ some offset | none ↦ later ]
    else later

abbrev pub interp_regions : Option Phdr64 → List Range
interp_regions none = []
interp_regions (some interp) = elim (checked_add interp.p_offset interp.p_filesz) [
  | none ↦ []
  | some end ↦ (interp.p_offset, end) ∷ []
]

abbrev pub value_or_zero : Option ℕ → ℕ
value_or_zero none = 0
value_or_zero (some v) = v

-- The loop over the dynamic entries: the last string table and its size before the end.
unfoldable pub string_table : Text → Bool → ℕ → ℕ → ℕ → Option ℕ → Option ℕ → Option ℕ × Option ℕ
unfolding checked_add rd_uint
string_table buf little dyn_offset index zero vaddr size = (vaddr, size)
string_table buf little dyn_offset index (suc more) vaddr size =
    let later = string_table buf little dyn_offset (suc index) more in
    elim (checked_add dyn_offset (index * dyn64_len)) [
      | none ↦ (vaddr, size)
      | some entry ↦ elim (rd_u64 buf entry little) [
        | none ↦ (vaddr, size)
        | some tag ↦
            let value = value_or_zero (rd_u64 buf (entry + 8) little) in
            if tag == dt_null
            then (vaddr, size)
            else if tag == dt_strtab
            then later (some value) size
            else if tag == dt_strsz
            then later vaddr (some value)
            else later vaddr size
      ]
    ]

abbrev pub table_region : List Phdr64 → Option ℕ × Option ℕ → List Range
table_region phdrs (some vaddr, some size) = elim (vaddr_to_offset phdrs vaddr) [
  | none ↦ []
  | some offset ↦ elim (checked_add offset size) [ none ↦ [] | some end ↦ (offset, end) ∷ [] ]
]
table_region phdrs _ = []

abbrev pub dynamic_regions : Text → Bool → List Phdr64 → Option Phdr64 → List Range
dynamic_regions buf little phdrs none = []
dynamic_regions buf little phdrs (some dynamic) =
    table_region phdrs
      (string_table buf little dynamic.p_offset 0 (dynamic.p_filesz / dyn64_len) none none)

unfoldable pub elf_linkage_regions : Text → List Range
unfolding decode_elf64 string_table vaddr_to_offset checked_add
elf_linkage_regions buf = elim (decode_elf64 buf) [
  | none ↦ []
  | some (little, phdrs) ↦
      interp_regions (find (of_type pt_interp) phdrs)
      ++ dynamic_regions buf little phdrs (find (of_type pt_dynamic) phdrs)
]
