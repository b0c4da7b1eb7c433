-- ===== src/Relocate/NewHeader.antt =====
-- relocate.rs, `write_phdr` and `append_new_load`: the program header of the new load segment.
use zapbrew.Base.{ℕ, ◌+◌, ◌<◌, ◌≤◌, Text, Bool, some, ok, bind-eq-ok, ◌≡◌, ◌∙◌, arith, inl, inr}
use zapbrew.Relocate.Bytes.{
  u64_mod, rd_uint, rd_u32, rd_u64, write_uint, write_u16, write_u32, write_u64,
}
use zapbrew.Relocate.BytesLaws.{Apart, rd_uint-write_uint, rd_uint-write_uint-Apart}
use zapbrew.Relocate.Elf.{Phdr64, pt_load}
use zapbrew.Relocate.Append.{write_phdr}

-- The program header at the place describes a load segment of `size` bytes.
abbrev pub Describes : Text → Bool → ℕ → ℕ → ℕ → ℕ → Type 0
Describes out little at offset vaddr size =
    (rd_u32 out at little ≡ some pt_load)
    × (rd_u64 out (at + 8) little ≡ some offset)
    × (rd_u64 out (at + 16) little ≡ some vaddr)
    × (rd_u64 out (at + 32) little ≡ some size)
    × (rd_u64 out (at + 40) little ≡ some size)

-- A write leaves the numbers apart from it.
keeps :
    (k : ℕ) (buf : Text) (o : ℕ) (little : Bool) (v : ℕ) (out : Text) (j i w : ℕ)
    → write_uint k buf o little v ≡ ok out
    → Apart i j o k
    → rd_uint j buf i little ≡ some w
    → rd_uint j out i little ≡ some w
keeps k buf o little v out j i w e apart h =
    (rd_uint-write_uint-Apart k buf o little v out j i little e apart).0 ∙ h

-- What is written of a load segment is read back.
pub write_phdr-Describes :
    (buf : Text) (phdr : Phdr64) (little : Bool) (out : Text)
    → phdr.p_type ≡ pt_load
    → phdr.p_offset < u64_mod
    → phdr.p_vaddr < u64_mod
    → phdr.p_filesz < u64_mod
    → phdr.p_memsz ≡ phdr.p_filesz
    → write_phdr buf phdr little ≡ ok out
    → Describes out little phdr.header_offset phdr.p_offset phdr.p_vaddr phdr.p_filesz
unfolding write_phdr
write_phdr-Describes buf phdr little out load small_offset small_vaddr small_size same h =
    let at = phdr.header_offset in
    let (b1, e1, h1) = bind-eq-ok (write_u32 buf at little phdr.p_type) _ out h in
    let (b2, e2, h2) = bind-eq-ok (write_u32 b1 (at + 4) little 4) _ out h1 in
    let (b3, e3, h3) = bind-eq-ok (write_u64 b2 (at + 8) little phdr.p_offset) _ out h2 in
    let (b4, e4, h4) = bind-eq-ok (write_u64 b3 (at + 16) little phdr.p_vaddr) _ out h3 in
    let (b5, e5, h5) = bind-eq-ok (write_u64 b4 (at + 24) little phdr.p_vaddr) _ out h4 in
    let (b6, e6, h6) = bind-eq-ok (write_u64 b5 (at + 32) little phdr.p_filesz) _ out h5 in
    let (b7, e7, h7) = bind-eq-ok (write_u64 b6 (at + 40) little phdr.p_memsz) _ out h6 in
    let k7 : (j i w : ℕ)
        → i + j ≤ at + 48
        → rd_uint j b7 i little ≡ some w
        → rd_uint j out i little ≡ some w =
      λ j i w b r. keeps 8 b7 (at + 48) little phdr.p_align out j i w h7 (inl b) r in
    let k6 : (j i w : ℕ)
        → i + j ≤ at + 40
        → rd_uint j b6 i little ≡ some w
        → rd_uint j out i little ≡ some w =
      λ j i w b r.
        k7 j i w (omega arith) (keeps 8 b6 (at + 40) little phdr.p_memsz b7 j i w e7 (inl b) r) in
    let k4 : (j i w : ℕ)
        → i + j ≤ at + 24
        → rd_uint j b4 i little ≡ some w
        → rd_uint j out i little ≡ some w =
      λ j i w b r. k6 j i w (omega arith) (
        keeps 8 b5 (at + 32) little phdr.p_filesz b6 j i w e6 (inl (omega arith))
          (keeps 8 b4 (at + 24) little phdr.p_vaddr b5 j i w e5 (inl b) r)) in
    let k3 : (j i w : ℕ)
        → i + j ≤ at + 16
        → rd_uint j b3 i little ≡ some w
        → rd_uint j out i little ≡ some w =
      λ j i w b r.
        k4 j i w (omega arith) (keeps 8 b3 (at + 16) little phdr.p_vaddr b4 j i w e4 (inl b) r) in
    let r1 = rd_uint-write_uint 4 buf at little phdr.p_type b1 (omega arith) e1 in
    let r3 = rd_uint-write_uint 8 b2 (at + 8) little phdr.p_offset b3 (omega arith) e3 in
    let r4 = rd_uint-write_uint 8 b3 (at + 16) little phdr.p_vaddr b4 (omega arith) e4 in
    let r6 = rd_uint-write_uint 8 b5 (at + 32) little phdr.p_filesz b6 (omega arith) e6 in
    let r7 = rd_uint-write_uint 8 b6 (at + 40) little phdr.p_memsz b7 (omega arith) e7 in
    let c2 = keeps 4 b1 (at + 4) little 4 b2 4 at phdr.p_type e2 (inl (omega arith)) r1 in
    let c3 =
      keeps 8 b2 (at + 8) little phdr.p_offset b3 4 at phdr.p_type e3 (inl (omega arith)) c2 in
    (
      rw (← load) (k3 4 at phdr.p_type (omega arith) c3),
      k3 8 (at + 8) phdr.p_offset (omega arith) r3,
      k4 8 (at + 16) phdr.p_vaddr (omega arith) r4,
      k6 8 (at + 32) phdr.p_filesz (omega arith) r6,
      rw (← same) (k7 8 (at + 40) phdr.p_memsz (omega arith) r7),
    )

-- Writing in the file's header leaves the description of a segment behind it.
pub Describes-header :
    (buf mid out : Text) (little : Bool) (at offset vaddr size v n : ℕ)
    → 58 ≤ at
    → write_u64 buf 32 little v ≡ ok mid
    → write_u16 mid 56 little n ≡ ok out
    → Describes buf little at offset vaddr size
    → Describes out little at offset vaddr size
Describes-header buf mid out little at offset vaddr size v n behind e1 e2 (r1, r2, r3, r4, r5) =
    let through : (j i w : ℕ)
        → at ≤ i
        → rd_uint j buf i little ≡ some w
        → rd_uint j out i little ≡ some w =
      λ j i w b r.
        keeps 2 mid 56 little n out j i w e2 (inr (omega arith))
          (keeps 8 buf 32 little v mid j i w e1 (inr (omega arith)) r) in
    (
      through 4 at pt_load (omega arith) r1,
      through 8 (at + 8) offset (omega arith) r2,
      through 8 (at + 16) vaddr (omega arith) r3,
      through 8 (at + 32) size (omega arith) r4,
      through 8 (at + 40) size (omega arith) r5,
    )
