-- ===== src/Relocate/NewLoad.antt =====
-- relocate.rs: the payload in a load segment of its own, and both ways of appending together.
use zapbrew.Base.{
  ℕ, suc, ◌<◌, ◌+◌, ◌%◌, ◌≤◌, Text, bytes, Bool, ◌&&◌, List, [], ◌∷◌, some, ◌==◌, length, ok, ok_or,
  ok_or-eq-ok, bind-eq-ok, ok-inj, some-inj, ◌≡◌, ◌∙◌, arith, ◌⊎◌, inl, inr, Bool-cases,
  Option-cases, leb,
}
use mathlib.Core.Path.{subst}
use zapbrew.Relocate.Bytes.{u64_mod, checked_add, rd_u16, rd_u64, round_up}
use zapbrew.Relocate.Rounding.{round_up_least}
use zapbrew.Relocate.Elf.{Phdr64, phdr64_len, ehdr_min_len, decode_elf64, of_type, pt_load}
use zapbrew.Relocate.Append.{
  grow_with, append_new_load, append_into_last_load, new_align, header_table, load_ends, greatest,
  last_load,
}
use zapbrew.Relocate.GrowWith.{grow_with-Grown, header_table_wide, Mapped, grow_with-Mapped}
use zapbrew.Relocate.Headers.{Placed, decode_elf64-Placed}
use zapbrew.Relocate.Appended.{Grown, InPlace, Covers, extend_last-InPlace}

-- A load segment of its own: offset and address both start a page.
abbrev pub InNewLoad : Text → Text → Text → ℕ → ℕ → Type 0
InNewLoad buf payload out offset vaddr =
    Grown buf payload out offset 32 8 56 2 × (offset % new_align ≡ 0) × (vaddr % new_align ≡ 0)

-- What `append_new_load` returns, when its parts are as they are computed.
abbrev NewLoad : Text → Text → Bool → Text × ℕ × ℕ → Type 0
NewLoad buf payload little (out, offset, vaddr) =
    InNewLoad buf payload out offset vaddr
    × (length out < u64_mod → Mapped payload out little offset vaddr)

grown_at :
    (buf payload table out : Text) (little : Bool)
    (phoff phentsize phnum load_end address place : ℕ)
    → ehdr_min_len ≤ length buf
    → header_table buf phoff phentsize phnum ≡ ok table
    → round_up load_end new_align ≡ some address
    → round_up (length buf) new_align ≡ some place
    → grow_with buf payload little table phentsize phnum address place ≡ ok out
    → NewLoad buf payload little (out, place, address)
grown_at buf payload table out little phoff phentsize phnum load_end address place header e4 e7 e8
      e9 =
    let (past, short, whole, below) =
      (round_up_least (length buf) new_align (omega arith)).0 place e8 in
    let (past', short', whole', below') =
      (round_up_least load_end new_align (omega arith)).0 address e7 in
    let wide = header_table_wide buf phoff phentsize phnum table e4 in
    (
      (
        grow_with-Grown buf payload table out little phentsize phnum address place header past wide
            e9,
        whole,
        whole',
      ),
      grow_with-Mapped buf payload table out little phentsize phnum address place header past wide
          below' e9,
    )

append_new_load-InNewLoad :
    (buf payload out : Text) (little : Bool) (offset vaddr : ℕ)
    → ehdr_min_len ≤ length buf
    → append_new_load buf payload little ≡ ok (out, offset, vaddr)
    → InNewLoad buf payload out offset vaddr
      × (length out < u64_mod → Mapped payload out little offset vaddr)
unfolding append_new_load
append_new_load-InNewLoad buf payload out little offset vaddr header h =
    let end : Text × ℕ × ℕ = (out, offset, vaddr) in
    let ((order, phdrs), e0, h0) =
      bind-eq-ok (ok_or (decode_elf64 buf) (bytes "cannot re-decode ELF for new segment")) _ end
        h in
    let (phoff, e1, h1) =
      bind-eq-ok (ok_or (rd_u64 buf 32 little) (bytes "cannot read e_phoff")) _ end h0 in
    let (phentsize, e2, h2) =
      bind-eq-ok (ok_or (rd_u16 buf 54 little) (bytes "cannot read e_phentsize")) _ end h1 in
    let (phnum, e3, h3) =
      bind-eq-ok (ok_or (rd_u16 buf 56 little) (bytes "cannot read e_phnum")) _ end h2 in
    let (table, e4, h4) = bind-eq-ok (header_table buf phoff phentsize phnum) _ end h3 in
    let (ends, e5, h5) = bind-eq-ok (load_ends phdrs) _ end h4 in
    let (load_end, e6, h6) =
      bind-eq-ok (ok_or (greatest ends) (bytes "no PT_LOAD segment for new segment")) _ end h5 in
    let (address, e7, h7) =
      bind-eq-ok (ok_or (round_up load_end new_align) (bytes "new segment vaddr overflows")) _ end
        h6 in
    let (place, e8, h8) =
      bind-eq-ok (ok_or (round_up (length buf) new_align) (bytes "new segment offset overflows")) _
        end h7 in
    let (grown, e9, h9) =
      bind-eq-ok (grow_with buf payload little table phentsize phnum address place) _ end h8 in
    subst (NewLoad buf payload little) (ok-inj (grown, place, address) end h9) (
      grown_at buf payload table grown little phoff phentsize phnum load_end address place header e4
        (ok_or-eq-ok (round_up load_end new_align) _ address e7)
        (ok_or-eq-ok (round_up (length buf) new_align) _ place e8) e9)

-- The last load segment of a list is its first header, or that of the others.
last_load_cases :
    (phdr last : Phdr64) (phdrs : List Phdr64)
    → last_load (phdr ∷ phdrs) ≡ some last
    → (phdr ≡ last) ⊎ (last_load phdrs ≡ some last)
unfolding last_load
last_load_cases phdr last phdrs h = elim (Bool-cases (of_type pt_load phdr)) [
  | inr other ↦ inr (rw (other, last_load) at h)
  | inl load ↦ elim (Option-cases (last_load phdrs)) [
    | inl alone ↦ inl (some-inj phdr last (rw (load, alone, last_load) at h))
    | inr (best, found) ↦ elim (Bool-cases (leb phdr.p_vaddr best.p_vaddr)) [
      | inl lower ↦ inr (found ∙ rw (load, found, lower, last_load) at h)
      | inr higher ↦ inl (some-inj phdr last (rw (load, found, higher, last_load) at h))
    ]
  ]
]

last_load_within :
    (buf : Text) (phoff phentsize index : ℕ) (phdrs : List Phdr64) (last : Phdr64)
    → Placed buf phoff phentsize index phdrs
    → last_load phdrs ≡ some last
    → last.header_offset + phdr64_len ≤ length buf
unfolding last_load
last_load_within buf phoff phentsize index [] last placed h = absurd cc
last_load_within buf phoff phentsize index (phdr ∷ phdrs) last (here, within, placed) h =
    elim (last_load_cases phdr last phdrs h) [
      | inl same ↦ subst (λ (l : Phdr64). l.header_offset + phdr64_len ≤ length buf) same within
      | inr later ↦ last_load_within buf phoff phentsize (suc index) phdrs last placed later
    ]

pub append_into_last_load-Grown :
    (buf payload out : Text) (little : Bool) (offset vaddr : ℕ)
    → append_into_last_load buf payload little ≡ ok (out, offset, vaddr)
    → ((last : Phdr64) × (order : Bool) × (phdrs : List Phdr64) × (decode_elf64 buf
          ≡ some (order, phdrs))
        × (last_load phdrs ≡ some last)
        × InPlace buf payload out offset vaddr last
        × (length out < u64_mod → Covers payload out little offset last))
      ⊎ (InNewLoad buf payload out offset vaddr
          × (length out < u64_mod → Mapped payload out little offset vaddr))
unfolding append_into_last_load
append_into_last_load-Grown buf payload out little offset vaddr h =
    let end : Text × ℕ × ℕ = (out, offset, vaddr) in
    let ((order, phdrs), e0, h0) =
      bind-eq-ok (ok_or (decode_elf64 buf) (bytes "cannot re-decode ELF for append")) _ end h in
    let (last, e1, h1) =
      bind-eq-ok (ok_or (last_load phdrs) (bytes "no PT_LOAD segment to extend")) _ end h0 in
    let (extent_end, e2, h2) =
      bind-eq-ok
        (ok_or (checked_add last.p_offset last.p_filesz) (bytes "final PT_LOAD extent overflows")) _
        end h1 in
    let decoded = ok_or-eq-ok (decode_elf64 buf) _ (order, phdrs) e0 in
    let found = ok_or-eq-ok (last_load phdrs) _ last e1 in
    let ((phoff, phentsize, r1, r2, r3, placed), header) =
      decode_elf64-Placed buf order phdrs decoded in
    elim (Bool-cases ((last.p_memsz == last.p_filesz) && (extent_end == length buf))) [
      | inl terminal ↦
          let within = last_load_within buf phoff phentsize 0 phdrs last placed found in
          let (grown, covers) =
            extend_last-InPlace buf payload out little last offset vaddr within
              (rw terminal at h2) in
          inl (last, order, phdrs, decoded, found, grown, covers)
      | inr inner ↦
          inr
            (append_new_load-InNewLoad buf payload out little offset vaddr header (rw inner at h2))
    ]
