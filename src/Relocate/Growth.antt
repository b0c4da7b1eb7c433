-- ===== src/Relocate/Growth.antt =====
-- relocate.rs: `elf_relocate` as a whole: the file grows or keeps its length, and what is not ELF64
-- stays.
use zapbrew.Base.{
  ℕ, ◌+◌, ◌/◌, ◌≤◌, Text, bytes, text_eq, Bool, true, false, List, [], ◌∷◌, ◌++◌, Option, none,
  some, if◌then◌else◌, ltb, leb, length, find, slice, Result, ok, err, ok_or, ◌>>=◌, refl, arith,
  inl, inr, Option-cases,
}
use zapbrew.Relocate.Bytes.{checked_add, get_range, write_u64, cstr}
use zapbrew.Relocate.Replace.{Subs, replace_all}
use zapbrew.Relocate.Elf.{
  Phdr64, decode_elf64, of_type, pt_interp, pt_dynamic, vaddr_to_offset, dyn64_len,
}
use zapbrew.Relocate.Append.{update_dynstr_section}
use zapbrew.Relocate.Rewrite.{
  ld_so, place_interp, rewrite_interp, until_nul, grow_runpath, place_runpath, runpath_of,
  rewrite_runpath, elf_relocate, interp_error,
}
use zapbrew.Relocate.Dynamic.{Dynamic, nothing_seen, scan_dynamic}
use zapbrew.Relocate.Runpath.{compute_runpath}
use zapbrew.Relocate.Lengths.{
  Longer, SameLength-write_uint, SameLength-update_dynstr_section, Longer-after, Longer-then,
  Longer-step, Longer-append, Longer-if, Longer-fill_slot, Longer-grow_interp,
}

Longer-place_interp :
    (buf original : Text) (interp : Phdr64) (little : Bool) (subs : Subs) (new_prefix : Text)
    (ld_so_readable : Bool)
    → Longer buf (place_interp buf original interp little subs new_prefix ld_so_readable)
unfolding place_interp
Longer-place_interp buf original interp little subs new_prefix ld_so_readable =
    Longer-after buf (ok_or (checked_add interp.p_offset interp.p_filesz) interp_error) _ λ end.
      Longer-after buf (ok_or (get_range original interp.p_offset end) interp_error) _
        λ original_interp.
          let current = cstr original_interp in
          let desired = if ld_so_readable then ld_so new_prefix else (replace_all current subs).0 in
          Longer-if buf (text_eq desired current) (ok (buf, false)) _ (omega arith) (
            Longer-if buf (ltb (length desired) interp.p_filesz) _ _
              (Longer-fill_slot buf buf interp.p_offset interp.p_filesz desired (omega arith))
              (Longer-grow_interp buf little desired))

Longer-rewrite_interp :
    (buf original : Text) (phdrs : List Phdr64) (little : Bool) (subs : Subs) (new_prefix : Text)
    (ld_so_readable : Bool)
    → Longer buf (rewrite_interp buf original phdrs little subs new_prefix ld_so_readable)
unfolding rewrite_interp
Longer-rewrite_interp buf original phdrs little subs new_prefix ld_so_readable =
    elim (Option-cases (find (of_type pt_interp) phdrs)) [
      | inl none_here ↦ rw (none_here, rewrite_interp) (omega arith)
      | inr (interp, found) ↦
          rw (found, rewrite_interp)
            (Longer-place_interp buf original interp little subs new_prefix ld_so_readable)
    ]

Longer-grow_runpath :
    (buf mid : Text) (little : Bool) (rewritten : Text)
    (table_start table_end strtab_at value_at : ℕ) (d : Dynamic)
    → length buf ≤ length mid
    → Longer buf (grow_runpath mid little rewritten table_start table_end strtab_at value_at d)
unfolding grow_runpath
Longer-grow_runpath buf mid little rewritten table_start table_end strtab_at value_at d h =
    Longer-after buf (ok_or d.strsz_value_offset (bytes "DT_STRSZ offset missing")) _ λ strsz_at.
      Longer-after buf (ok_or d.strtab_value_offset (bytes "DT_STRTAB offset missing")) _
        λ table_at.
          Longer-after buf
            (ok_or (get_range mid table_start table_end) (bytes "string table outside file")) _
            λ old_table.
              let new_table = old_table ++ (rewritten ++ (0 ∷ [])) in
              Longer-append buf mid new_table little _ h λ grown table_file table_vaddr h0.
                Longer-step buf grown (write_u64 grown table_at little table_vaddr) _ h0
                  (SameLength-write_uint 8 grown grown table_at little table_vaddr refl)
                  λ b1 h1.
                    Longer-step buf b1 (write_u64 b1 strsz_at little (length new_table)) _ h1
                      (SameLength-write_uint 8 b1 b1 strsz_at little (length new_table) refl)
                      λ b2 h2.
                        Longer-step buf b2 (write_u64 b2 value_at little (length old_table)) _ h2
                          (SameLength-write_uint 8 b2 b2 value_at little (length old_table) refl)
                          λ b3 h3.
                            Longer-then buf b3
                              (update_dynstr_section b3 little strtab_at table_file table_vaddr
                                (length new_table))
                              true h3
                              (SameLength-update_dynstr_section b3 b3 little strtab_at table_file
                                table_vaddr (length new_table) refl)

-- A step that gives the file back unchanged where an option is empty.
Longer-option :
    (buf mid : Text) (o : Option ℕ) (rest : ℕ → Result Text (Text × Bool))
    → length buf ≤ length mid
    → ((n : ℕ) → Longer buf (rest n))
    → Longer buf (elim o [ none ↦ ok (mid, false) | some n ↦ rest n ])
Longer-option buf mid none rest h longer = h
Longer-option buf mid (some n) rest h longer = longer n

module _ (lossy : Text → Text) where
  Longer-place_runpath :
      (buf mid original : Text) (little : Bool) (subs : Subs) (new_prefix cellar : Text)
      (is_gcc : Bool) (d : Dynamic) (strtab_at table_start value value_at : ℕ)
      → length buf ≤ length mid
      → Longer buf (
          place_runpath lossy mid original little subs new_prefix cellar is_gcc d strtab_at
            table_start value value_at)
  unfolding place_runpath
  Longer-place_runpath buf mid original little subs new_prefix cellar is_gcc d strtab_at table_start
        value value_at h =
      Longer-after buf (ok_or d.strsz (bytes "DT_STRSZ missing")) _ λ strsz.
        Longer-after buf
          (ok_or (checked_add table_start strsz) (bytes "string table span overflows")) _
          λ table_end. Longer-if buf (ltb (length original) table_end) _ _ tt (
            Longer-if buf (leb strsz value) _ _ tt (
              Longer-after buf
                (ok_or (until_nul (slice original (table_start + value) table_end))
                  (bytes "DT_RUNPATH not NUL-terminated inside string table"))
                _
                λ original_runpath.
                  let rewritten =
                    compute_runpath (lossy (replace_all original_runpath subs).0) new_prefix cellar
                      is_gcc in
                  Longer-if buf (text_eq rewritten original_runpath) _ _ h (
                    Longer-if buf (leb (length rewritten) (length original_runpath)) _ _
                      (Longer-fill_slot buf mid (table_start + value) (length original_runpath + 1)
                        rewritten h)
                      (Longer-grow_runpath buf mid little rewritten table_start table_end strtab_at
                        value_at d h))))

  Longer-runpath_of :
      (buf mid original : Text) (phdrs : List Phdr64) (little : Bool) (subs : Subs)
      (new_prefix cellar : Text) (is_gcc : Bool) (d : Dynamic)
      → length buf ≤ length mid
      → Longer buf (runpath_of lossy mid original phdrs little subs new_prefix cellar is_gcc d)
  unfolding runpath_of
  Longer-runpath_of buf mid original phdrs little subs new_prefix cellar is_gcc d h =
      Longer-option buf mid d.runpath_value _ h λ value.
        Longer-option buf mid d.runpath_value_offset _ h λ value_at.
          Longer-option buf mid d.strtab_vaddr _ h λ strtab_at.
            Longer-option buf mid (vaddr_to_offset phdrs strtab_at) _ h λ start.
              Longer-place_runpath buf mid original little subs new_prefix cellar is_gcc d strtab_at
                start value value_at h

  Longer-rewrite_runpath :
      (buf mid original : Text) (phdrs : List Phdr64) (little : Bool) (subs : Subs)
      (new_prefix cellar : Text) (is_gcc : Bool)
      → length buf ≤ length mid
      → Longer buf (rewrite_runpath lossy mid original phdrs little subs new_prefix cellar is_gcc)
  unfolding rewrite_runpath
  Longer-rewrite_runpath buf mid original phdrs little subs new_prefix cellar is_gcc h =
      elim (Option-cases (find (of_type pt_dynamic) phdrs)) [
        | inl none_here ↦ rw (none_here, rewrite_runpath) h
        | inr (dynamic, found) ↦
            rw (found, rewrite_runpath)
              (Longer-after buf
                (scan_dynamic mid little dynamic.p_offset 0 (dynamic.p_filesz / dyn64_len)
                  nothing_seen)
                _
                λ d.
                  Longer-runpath_of buf mid original phdrs little subs new_prefix cellar is_gcc d h)
      ]

Longer-bind :
    (buf : Text) (m : Result Text (Text × Bool)) (rest : Text × Bool → Result Text (Text × Bool))
    → Longer buf m
    → ((mid : Text) (changed : Bool) → length buf ≤ length mid → Longer buf (rest (mid, changed)))
    → Longer buf (m >>= rest)
Longer-bind buf (ok (mid, changed)) rest h next = next mid changed h
Longer-bind buf (err reason) rest h next = tt

-- The structured pass over an ELF image never shortens the file.
pub Longer-elf_relocate :
    (lossy : Text → Text) (buf original : Text) (subs : Subs) (new_prefix cellar : Text)
    (is_gcc ld_so_readable : Bool)
    → Longer buf (elf_relocate lossy buf original subs new_prefix cellar is_gcc ld_so_readable)
unfolding elf_relocate
Longer-elf_relocate lossy buf original subs new_prefix cellar is_gcc ld_so_readable =
    elim (Option-cases (decode_elf64 buf)) [
      | inl other ↦ rw (other, elf_relocate) (omega arith)
      | inr ((little, phdrs), decoded) ↦
          rw (decoded, elf_relocate)
            (Longer-bind buf
              (rewrite_interp buf original phdrs little subs new_prefix ld_so_readable) _
              (Longer-rewrite_interp buf original phdrs little subs new_prefix ld_so_readable)
              λ b1 interp_changed h1.
                Longer-bind buf
                  (rewrite_runpath lossy b1 original phdrs little subs new_prefix cellar is_gcc) _
                  (Longer-rewrite_runpath lossy buf b1 original phdrs little subs new_prefix cellar
                    is_gcc h1)
                  λ b2 runpath_changed h2. h2)
    ]
