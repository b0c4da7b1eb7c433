-- ===== src/Relocate/Rewrite.antt =====
-- relocate.rs: the rewriting of the interpreter and of the runpath of an ELF64 image.
use zapbrew.Base.{
  ℕ, ◌+◌, ◌/◌, Text, bytes, text_eq, Bool, true, false, ◌||◌, List, [], ◌∷◌, ◌++◌, Option, none,
  some, if◌then◌else◌, find, length, leb, ltb, ◌==◌, slice, Result, ok, err, ok_or, ◌>>=◌,
}
use zapbrew.Relocate.Bytes.{
  checked_add, get_range, write_uint, write_u64, write_bytes, zero_range, cstr,
}
use zapbrew.Relocate.Replace.{Subs, replace_all}
use zapbrew.Relocate.Elf.{
  Phdr64, decode_elf64, of_type, pt_interp, pt_dynamic, dyn64_len, vaddr_to_offset,
}
use zapbrew.Relocate.Dynamic.{Dynamic, nothing_seen, scan_dynamic}
use zapbrew.Relocate.Append.{append_into_last_load, update_dynstr_section}
use zapbrew.Relocate.Runpath.{compute_runpath}

abbrev pub ld_so : Text → Text
ld_so new_prefix = new_prefix ++ bytes "/lib/ld.so"

-- The five fields of the interpreter's header.
unfoldable pub point_interp : Text → Bool → ℕ → ℕ → ℕ → ℕ → Result Text Text
unfolding write_uint
point_interp buf little header file_offset vaddr size =
    write_u64 buf (header + 8) little file_offset >>= λ b1.
    write_u64 b1 (header + 16) little vaddr >>= λ b2.
    write_u64 b2 (header + 24) little vaddr >>= λ b3.
    write_u64 b3 (header + 32) little size >>= λ b4. write_u64 b4 (header + 40) little size

-- The path is appended, and the header that the file then has is pointed at it.
unfoldable pub grow_interp : Text → Bool → Text → Result Text (Text × Bool)
unfolding append_into_last_load decode_elf64 point_interp
grow_interp buf little desired =
    append_into_last_load buf (desired ++ (0 ∷ [])) little >>= λ (grown, file_offset, vaddr).
    ok_or (decode_elf64 grown) (bytes "cannot re-decode ELF after interp append")
    >>= λ (order, phdrs).
        ok_or (find (of_type pt_interp) phdrs) (bytes "PT_INTERP vanished after interp append")
        >>= λ interp.
            point_interp grown little interp.header_offset file_offset vaddr (length desired + 1)
            >>= λ written. ok (written, true)

-- Zeros over the whole slot, then the text.
unfoldable pub fill_slot : Text → ℕ → ℕ → Text → Result Text (Text × Bool)
unfolding zero_range write_bytes
fill_slot buf offset capacity bs = zero_range buf offset capacity >>= λ cleared.
    write_bytes cleared offset bs >>= λ written. ok (written, true)

abbrev pub interp_error : Text
interp_error = bytes "PT_INTERP outside file"

-- Behind the interpreter's header.
unfoldable pub place_interp :
    Text → Text → Phdr64 → Bool → Subs → Text → Bool → Result Text (Text × Bool)
unfolding checked_add get_range cstr replace_all text_eq fill_slot grow_interp
place_interp buf original interp little subs new_prefix ld_so_readable =
    ok_or (checked_add interp.p_offset interp.p_filesz) interp_error >>= λ end.
    ok_or (get_range original interp.p_offset end) interp_error >>= λ original_interp.
    let current = cstr original_interp in
    let desired = if ld_so_readable then ld_so new_prefix else (replace_all current subs).0 in
    if text_eq desired current
    then ok (buf, false)
    else if ltb (length desired) interp.p_filesz
    then fill_slot buf interp.p_offset interp.p_filesz desired
    else grow_interp buf little desired

unfoldable pub rewrite_interp :
    Text → Text → List Phdr64 → Bool → Subs → Text → Bool → Result Text (Text × Bool)
unfolding place_interp
rewrite_interp buf original phdrs little subs new_prefix ld_so_readable =
    elim (find (of_type pt_interp) phdrs) [
      | none ↦ ok (buf, false)
      | some interp ↦ place_interp buf original interp little subs new_prefix ld_so_readable
    ]

-- A slice up to the first NUL, if it has one.
unfoldable pub until_nul : Text → Option Text
until_nul [] = none
until_nul (b ∷ bs) =
    let rest = until_nul bs in
    if b == 0 then some [] else elim rest [ none ↦ none | some s ↦ some (b ∷ s) ]

-- The copied string table with the longer runpath behind it, and the entries that point at it.
unfoldable pub grow_runpath :
    Text → Bool → Text → ℕ → ℕ → ℕ → ℕ → Dynamic → Result Text (Text × Bool)
unfolding get_range append_into_last_load write_uint update_dynstr_section
grow_runpath buf little rewritten table_start table_end strtab_at value_at d =
    ok_or d.strsz_value_offset (bytes "DT_STRSZ offset missing") >>= λ strsz_at.
    ok_or d.strtab_value_offset (bytes "DT_STRTAB offset missing") >>= λ table_at.
    ok_or (get_range buf table_start table_end) (bytes "string table outside file") >>= λ old_table.
    let new_table = old_table ++ (rewritten ++ (0 ∷ [])) in
    append_into_last_load buf new_table little >>= λ (grown, table_file, table_vaddr).
    write_u64 grown table_at little table_vaddr >>= λ b1.
    write_u64 b1 strsz_at little (length new_table) >>= λ b2.
    write_u64 b2 value_at little (length old_table) >>= λ b3.
    update_dynstr_section b3 little strtab_at table_file table_vaddr (length new_table)
    >>= λ written. ok (written, true)

-- `String::from_utf8_lossy`, whose replacement of invalid bytes stands outside this repository.
module _ (lossy : Text → Text) where
  -- Behind the mapped string table: `value` and `value_at` are the runpath's entry.
  unfoldable pub place_runpath :
      Text
      → Text
      → Bool
      → Subs
      → Text
      → Text
      → Bool
      → Dynamic
      → ℕ
      → ℕ
      → ℕ
      → ℕ
      → Result Text (Text × Bool)
  unfolding checked_add slice until_nul replace_all compute_runpath text_eq fill_slot grow_runpath
  place_runpath buf original little subs new_prefix cellar is_gcc d strtab_at table_start value
        value_at =
      ok_or d.strsz (bytes "DT_STRSZ missing") >>= λ strsz.
      ok_or (checked_add table_start strsz) (bytes "string table span overflows") >>= λ table_end.
      if ltb (length original) table_end
      then err (bytes "string table outside file")
      else if leb strsz value
      then err (bytes "DT_RUNPATH offset outside string table")
      else (ok_or (until_nul (slice original (table_start + value) table_end))
            (bytes "DT_RUNPATH not NUL-terminated inside string table")
          >>= λ original_runpath.
              let substituted = lossy (replace_all original_runpath subs).0 in
              let rewritten = compute_runpath substituted new_prefix cellar is_gcc in
              if text_eq rewritten original_runpath
              then ok (buf, false)
              else if leb (length rewritten) (length original_runpath)
              then fill_slot buf (table_start + value) (length original_runpath + 1) rewritten
              else grow_runpath buf little rewritten table_start table_end strtab_at value_at d)

  -- What has been seen decides whether there is a runpath to place.
  unfoldable pub runpath_of :
      Text
      → Text
      → List Phdr64
      → Bool
      → Subs
      → Text
      → Text
      → Bool
      → Dynamic
      → Result Text (Text × Bool)
  unfolding vaddr_to_offset place_runpath
  runpath_of buf original phdrs little subs new_prefix cellar is_gcc d = elim d.runpath_value [
    | none ↦ ok (buf, false)
    | some value ↦ elim d.runpath_value_offset [
      | none ↦ ok (buf, false)
      | some value_at ↦ elim d.strtab_vaddr [
        | none ↦ ok (buf, false)
        | some strtab_at ↦ elim (vaddr_to_offset phdrs strtab_at) [
          | none ↦ ok (buf, false)
          | some start ↦
              place_runpath buf original little subs new_prefix cellar is_gcc d strtab_at start
                value value_at
        ]
      ]
    ]
  ]

  unfoldable pub rewrite_runpath :
      Text → Text → List Phdr64 → Bool → Subs → Text → Text → Bool → Result Text (Text × Bool)
  unfolding scan_dynamic runpath_of
  rewrite_runpath buf original phdrs little subs new_prefix cellar is_gcc =
      elim (find (of_type pt_dynamic) phdrs) [
        | none ↦ ok (buf, false)
        | some dynamic ↦
            scan_dynamic buf little dynamic.p_offset 0 (dynamic.p_filesz / dyn64_len) nothing_seen
            >>= λ d. runpath_of buf original phdrs little subs new_prefix cellar is_gcc d
      ]

  unfoldable pub elf_relocate :
      Text → Text → Subs → Text → Text → Bool → Bool → Result Text (Text × Bool)
  unfolding decode_elf64 rewrite_interp rewrite_runpath
  elf_relocate buf original subs new_prefix cellar is_gcc ld_so_readable = elim (decode_elf64 buf) [
    | none ↦ ok (buf, false)
    | some (little, phdrs) ↦
        rewrite_interp buf original phdrs little subs new_prefix ld_so_readable
        >>= λ (b1, interp_changed).
            rewrite_runpath b1 original phdrs little subs new_prefix cellar is_gcc
            >>= λ (b2, runpath_changed). ok (b2, interp_changed || runpath_changed)
  ]
