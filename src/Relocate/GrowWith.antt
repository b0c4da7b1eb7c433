-- ===== src/Relocate/GrowWith.antt =====
-- relocate.rs, `grow_with`: what growing a file by a load segment of its own writes.
use zapbrew.Base.{
  ℕ, ◌<◌, ◌+◌, ◌-◌, ◌%◌, ◌^◌, ◌≤◌, Text, bytes, Bool, ◌++◌, ltb, ◌==◌, length, length-append,
  Result, ok, err, bind-eq-ok, ◌≡◌, refl, sym, ◌∙◌, arith, inl, inr, Bool-cases,
}
use mathlib.Core.List.{append_assoc}
use zapbrew.Relocate.Bytes.{u64_mod, write_u64, zeros}
use zapbrew.Relocate.Padding.{length-zeros}
use zapbrew.Relocate.Elf.{Phdr64, phdr64_len, ehdr_min_len, pt_load}
use zapbrew.Relocate.Append.{pad_to, grow_with, write_phdr, new_align, header_table}
use zapbrew.Relocate.NewHeader.{Describes, write_phdr-Describes, Describes-header}
use zapbrew.Relocate.Writes.{write_uint-Kept, write_phdr-Kept}
use zapbrew.Relocate.Appended.{Appended-pad_to, stretch-pad_to, Appended-Kept, Grown, length-pad_to}

-- Writing behind the payload and in the two fields of the file's header.
pub grow_with-Grown :
    (buf payload table out : Text) (little : Bool) (phentsize phnum vaddr offset : ℕ)
    → ehdr_min_len ≤ length buf
    → length buf ≤ offset
    → phdr64_len ≤ phentsize
    → grow_with buf payload little table phentsize phnum vaddr offset ≡ ok out
    → Grown buf payload out offset 32 8 56 2
unfolding grow_with
grow_with-Grown buf payload table out little phentsize phnum vaddr offset header past wide h =
    let loaded = pad_to buf offset ++ payload in
    let grown = (loaded ++ table) ++ zeros phentsize in
    let at = length grown - phentsize in
    let new_phdr : Phdr64 = record {
      header_offset = at;
      p_type = pt_load;
      p_offset = offset;
      p_vaddr = vaddr;
      p_filesz = length payload;
      p_memsz = length payload;
      p_align = new_align;
    } in
    let (b1, e1, h1) = bind-eq-ok (write_phdr grown new_phdr little) _ out h in
    let (b2, e2, h2) = bind-eq-ok (write_u64 b1 32 little (length loaded)) _ out h1 in
    let k1 = write_phdr-Kept grown new_phdr little b1 e1 in
    let k2 = write_uint-Kept 8 b1 32 little (length loaded) b2 e2 in
    let k3 = write_uint-Kept 2 b2 56 little ((phnum + 1) % 2 ^ 16) out h2 in
    let behind = table ++ zeros phentsize in
    let shape : loaded ++ behind ≡ grown = sym (append_assoc loaded table (zeros phentsize)) in
    let width = length-zeros phentsize in
    let e4 = length-append (loaded ++ table) (zeros phentsize) in
    let e5 = length-append loaded table in
    let e6 = length-append (pad_to buf offset) payload in
    let e7 = length-pad_to buf offset past in
    let p0 = rw shape at (Appended-pad_to buf payload behind offset past) in
    let p1 = Appended-Kept buf payload grown b1 offset at phdr64_len (inl (omega arith)) k1 p0 in
    let p2 = Appended-Kept buf payload b1 b2 offset 32 8 (inr (omega arith)) k2 p1 in
    let p3 = Appended-Kept buf payload b2 out offset 56 2 (inr (omega arith)) k3 p2 in
    (
      p3,
      λ i n inside a1 a2.
          k3.1 i n a2
          ∙ (k2.1 i n a1
              ∙ (k1.1 i n (inl (omega arith))
                  ∙ (rw shape at (stretch-pad_to buf payload behind offset i n inside)))),
    )

pub header_table_wide :
    (buf : Text) (phoff phentsize phnum : ℕ) (table : Text)
    → header_table buf phoff phentsize phnum ≡ ok table
    → phdr64_len ≤ phentsize
unfolding header_table
header_table_wide buf phoff phentsize phnum table h = elim (Bool-cases (phnum == 65535)) [
  | inl special ↦
      let no : ◌≡◌ {A = Result Text Text} (err (bytes "PN_XNUM program headers are unsupported"))
          (ok table) =
        rw (special, header_table) at h in
      absurd cc
  | inr usual ↦ elim (Bool-cases (ltb phentsize phdr64_len)) [
    | inl narrow ↦
        let no : ◌≡◌ {A = Result Text Text} (err (bytes "program header table too narrow"))
            (ok table) =
          rw (usual, narrow, header_table) at h in
        absurd cc
    | inr wide ↦ ground arith
  ]
]

-- A program header behind the payload, in the file, describes a load segment of just the payload.
abbrev pub Mapped : Text → Text → Bool → ℕ → ℕ → Type 0
Mapped payload out little offset vaddr =
    (at : ℕ) × (offset + length payload ≤ at)
    × (at + phdr64_len ≤ length out)
    × Describes out little at offset vaddr (length payload)

pub grow_with-Mapped :
    (buf payload table out : Text) (little : Bool) (phentsize phnum vaddr offset : ℕ)
    → ehdr_min_len ≤ length buf
    → length buf ≤ offset
    → phdr64_len ≤ phentsize
    → vaddr < u64_mod
    → grow_with buf payload little table phentsize phnum vaddr offset ≡ ok out
    → length out < u64_mod
    → Mapped payload out little offset vaddr
unfolding grow_with
grow_with-Mapped buf payload table out little phentsize phnum vaddr offset header past wide few h
      small =
    let loaded = pad_to buf offset ++ payload in
    let grown = (loaded ++ table) ++ zeros phentsize in
    let at = length grown - phentsize in
    let new_phdr : Phdr64 = record {
      header_offset = at;
      p_type = pt_load;
      p_offset = offset;
      p_vaddr = vaddr;
      p_filesz = length payload;
      p_memsz = length payload;
      p_align = new_align;
    } in
    let (b1, e1, h1) = bind-eq-ok (write_phdr grown new_phdr little) _ out h in
    let (b2, e2, h2) = bind-eq-ok (write_u64 b1 32 little (length loaded)) _ out h1 in
    let same1 = (write_phdr-Kept grown new_phdr little b1 e1).0 in
    let same2 = (write_uint-Kept 8 b1 32 little (length loaded) b2 e2).0 in
    let same3 = (write_uint-Kept 2 b2 56 little ((phnum + 1) % 2 ^ 16) out h2).0 in
    let width = length-zeros phentsize in
    let e4 = length-append (loaded ++ table) (zeros phentsize) in
    let e5 = length-append loaded table in
    let e6 = length-append (pad_to buf offset) payload in
    let e7 = length-pad_to buf offset past in
    let described =
      write_phdr-Describes grown new_phdr little b1 refl (omega arith) few (omega arith) refl e1 in
    (
      at,
      omega arith,
      omega arith,
      Describes-header b1 b2 out little at offset vaddr (length payload) (length loaded)
          ((phnum + 1) % 2 ^ 16) (omega arith) e2 h2 described,
    )
