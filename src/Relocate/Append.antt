-- ===== src/Relocate/Append.antt =====
-- relocate.rs: growing a file behind its end, in the last load segment or in one of its own.
use zapbrew.Base.{
  ℕ, zero, suc, ◌+◌, ◌-◌, ◌%◌, ◌^◌, max, Text, bytes, Bool, ◌&&◌, List, [], ◌∷◌, ◌++◌, Option, none,
  some, if◌then◌else◌, and_then, length, leb, ltb, ◌==◌, Result, ok, err, ok_or, ◌>>=◌,
}
use zapbrew.Relocate.Bytes.{
  checked_add, checked_mul, checked_sub, get_range, rd_uint, rd_u16, rd_u64, write_uint, write_u16,
  write_u32, write_u64, round_up, zeros,
}
use zapbrew.Relocate.Elf.{
  Phdr64, decode_elf64, of_type, pt_load, phdr64_len, shdr64_len, max_segment_align,
}

-- `write_phdr`: what stands at `p_paddr` is the address too.
unfoldable pub write_phdr : Text → Phdr64 → Bool → Result Text Text
unfolding write_uint
write_phdr buf phdr little =
    let base = phdr.header_offset in
    write_u32 buf base little phdr.p_type >>= λ b1. write_u32 b1 (base + 4) little 4 >>= λ b2.
    write_u64 b2 (base + 8) little phdr.p_offset >>= λ b3.
    write_u64 b3 (base + 16) little phdr.p_vaddr >>= λ b4.
    write_u64 b4 (base + 24) little phdr.p_vaddr >>= λ b5.
    write_u64 b5 (base + 32) little phdr.p_filesz >>= λ b6.
    write_u64 b6 (base + 40) little phdr.p_memsz >>= λ b7.
    write_u64 b7 (base + 48) little phdr.p_align

-- `max_by_key`: of equal addresses, the later segment.
unfoldable pub last_load : List Phdr64 → Option Phdr64
last_load [] = none
last_load (phdr ∷ phdrs) =
    let later = last_load phdrs in
    if of_type pt_load phdr
    then elim later [
      | none ↦ some phdr
      | some best ↦ if leb phdr.p_vaddr best.p_vaddr then some best else some phdr
    ]
    else later

-- The ends of the load segments in memory, each checked.
unfoldable pub load_ends : List Phdr64 → Result Text (List ℕ)
unfolding checked_add
load_ends [] = ok []
load_ends (phdr ∷ phdrs) =
    let later = load_ends phdrs in
    if of_type pt_load phdr
    then (ok_or (checked_add phdr.p_vaddr phdr.p_memsz) (bytes "PT_LOAD span overflows") >>= λ end.
        later >>= λ ends. ok (end ∷ ends))
    else later

-- `Iterator::max`
unfoldable pub greatest : List ℕ → Option ℕ
greatest [] = none
greatest (n ∷ ns) = elim (greatest ns) [ none ↦ some n | some m ↦ some (max n m) ]

-- The loop that pushes zeros up to a length.
abbrev pub pad_to : Text → ℕ → Text
pad_to buf n = buf ++ zeros (n - length buf)

abbrev pub table_error : Text
table_error = bytes "program header table outside file"

abbrev pub new_align : ℕ
new_align = 4096

-- The program-header table as it stands, checked before anything changes.
unfoldable pub header_table : Text → ℕ → ℕ → ℕ → Result Text Text
unfolding checked_mul checked_add get_range
header_table buf phoff phentsize phnum =
    if phnum == 65535
    then err (bytes "PN_XNUM program headers are unsupported")
    else if ltb phentsize phdr64_len
    then err (bytes "program header table too narrow")
    else (ok_or (and_then (checked_mul phnum phentsize) λ size. checked_add phoff size) table_error
        >>= λ end. ok_or (get_range buf phoff end) table_error)

-- The writing part: the payload, the moved table with its new entry, the two header fields.
unfoldable pub grow_with : Text → Text → Bool → Text → ℕ → ℕ → ℕ → ℕ → Result Text Text
unfolding write_phdr write_uint zeros
grow_with buf payload little table phentsize phnum vaddr file_offset =
    let loaded = pad_to buf file_offset ++ payload in
    let table_offset = length loaded in
    let grown = (loaded ++ table) ++ zeros phentsize in
    let new_phdr : Phdr64 = record {
      header_offset = length grown - phentsize;
      p_type = pt_load;
      p_offset = file_offset;
      p_vaddr = vaddr;
      p_filesz = length payload;
      p_memsz = length payload;
      p_align = new_align;
    } in
    write_phdr grown new_phdr little >>= λ b1.
    write_u64 b1 32 little table_offset >>= λ b2. write_u16 b2 56 little ((phnum + 1) % 2 ^ 16)

unfoldable pub append_new_load : Text → Text → Bool → Result Text (Text × ℕ × ℕ)
unfolding decode_elf64 rd_uint header_table load_ends greatest round_up grow_with
append_new_load buf payload little =
    ok_or (decode_elf64 buf) (bytes "cannot re-decode ELF for new segment") >>= λ (order, phdrs).
    ok_or (rd_u64 buf 32 little) (bytes "cannot read e_phoff") >>= λ phoff.
    ok_or (rd_u16 buf 54 little) (bytes "cannot read e_phentsize") >>= λ phentsize.
    ok_or (rd_u16 buf 56 little) (bytes "cannot read e_phnum") >>= λ phnum.
    header_table buf phoff phentsize phnum >>= λ table. load_ends phdrs >>= λ ends.
    ok_or (greatest ends) (bytes "no PT_LOAD segment for new segment") >>= λ load_end.
    ok_or (round_up load_end new_align) (bytes "new segment vaddr overflows") >>= λ vaddr.
    ok_or (round_up (length buf) new_align) (bytes "new segment offset overflows")
    >>= λ file_offset.
        grow_with buf payload little table phentsize phnum vaddr file_offset >>= λ grown.
        ok (grown, file_offset, vaddr)

-- The last load segment ends where the file does and has no zero tail: it grows in place.
unfoldable pub extend_last : Text → Text → Bool → Phdr64 → Result Text (Text × ℕ × ℕ)
unfolding round_up checked_add checked_sub write_uint zeros
extend_last buf payload little last =
    let align = if ltb 1 last.p_align then last.p_align else 16 in
    if ltb max_segment_align align
    then err (bytes "unreasonable final PT_LOAD alignment")
    else (ok_or (round_up (length buf) align) (bytes "aligned append offset overflows")
        >>= λ file_offset.
            ok_or (checked_sub file_offset last.p_offset)
              (bytes "append offset precedes final PT_LOAD")
            >>= λ delta.
                ok_or (checked_add last.p_vaddr delta) (bytes "appended vaddr overflows")
                >>= λ vaddr.
                    let grown = pad_to buf file_offset ++ payload in
                    ok_or (checked_sub (length grown) last.p_offset)
                      (bytes "extended PT_LOAD size overflows")
                    >>= λ new_size.
                        write_u64 grown (last.header_offset + 32) little new_size >>= λ sized.
                        write_u64 sized (last.header_offset + 40) little new_size >>= λ written.
                        ok (written, file_offset, vaddr))

unfoldable pub append_into_last_load : Text → Text → Bool → Result Text (Text × ℕ × ℕ)
unfolding decode_elf64 last_load checked_add extend_last append_new_load
append_into_last_load buf payload little =
    ok_or (decode_elf64 buf) (bytes "cannot re-decode ELF for append") >>= λ (order, phdrs).
    ok_or (last_load phdrs) (bytes "no PT_LOAD segment to extend") >>= λ last.
    ok_or (checked_add last.p_offset last.p_filesz) (bytes "final PT_LOAD extent overflows")
    >>= λ extent_end.
        if (last.p_memsz == last.p_filesz) && (extent_end == length buf)
        then extend_last buf payload little last
        else append_new_load buf payload little

-- The section headers from `index` on that hold the old address, every one checked.
unfoldable pub matching_sections : Text → Bool → ℕ → ℕ → ℕ → ℕ → ℕ → Result Text (List ℕ)
unfolding checked_mul checked_add rd_uint
matching_sections buf little old_vaddr shoff shentsize index zero = ok []
matching_sections buf little old_vaddr shoff shentsize index (suc more) =
    let later = matching_sections buf little old_vaddr shoff shentsize (suc index) more in
    ok_or (and_then (checked_mul index shentsize) λ offset. checked_add shoff offset)
      (bytes "section header offset overflows")
    >>= λ base.
        ok_or (checked_add base 40) (bytes "section header field span overflows") >>= λ span_end.
        if ltb (length buf) span_end
        then err (bytes "section header outside file")
        else (later >>= λ bases. elim (rd_u64 buf (base + 16) little) [
          | none ↦ ok bases
          | some addr ↦ if addr == old_vaddr then ok (base ∷ bases) else ok bases
        ])

unfoldable pub repoint : Text → Bool → ℕ → ℕ → ℕ → List ℕ → Result Text Text
unfolding write_uint
repoint buf little new_offset new_vaddr new_size [] = ok buf
repoint buf little new_offset new_vaddr new_size (base ∷ bases) =
    write_u64 buf (base + 16) little new_vaddr >>= λ b1.
    write_u64 b1 (base + 24) little new_offset >>= λ b2.
    write_u64 b2 (base + 32) little new_size >>= λ b3.
    repoint b3 little new_offset new_vaddr new_size bases

unfoldable pub update_dynstr_section : Text → Bool → ℕ → ℕ → ℕ → ℕ → Result Text Text
unfolding rd_uint matching_sections repoint
update_dynstr_section buf little old_vaddr new_offset new_vaddr new_size =
    ok_or (rd_u64 buf 40 little) (bytes "cannot read e_shoff") >>= λ shoff.
    if shoff == 0
    then ok buf
    else (ok_or (rd_u16 buf 58 little) (bytes "cannot read e_shentsize") >>= λ shentsize.
        ok_or (rd_u16 buf 60 little) (bytes "cannot read e_shnum") >>= λ shnum.
        if ltb shentsize shdr64_len
        then err (bytes "invalid e_shentsize")
        else (matching_sections buf little old_vaddr shoff shentsize 0 shnum >>= λ bases.
            repoint buf little new_offset new_vaddr new_size bases))
