-- ===== src/Relocate/Lengths.antt =====
-- relocate.rs: the structured pass over an ELF image never shortens the file.
use zapbrew.Base.{
  ℕ, ◌+◌, ◌≤◌, Text, bytes, Bool, true, false, List, [], ◌∷◌, ◌++◌, if◌then◌else◌, ltb, ◌==◌,
  length, find, Result, ok, err, ok_or, ◌>>=◌, ◌≡◌, refl, ap, ◌∙◌, arith, inl, inr,
}
use zapbrew.Relocate.Bytes.{rd_u64, rd_u16, write_uint, write_u64, write_bytes, zero_range, zeros}
use zapbrew.Relocate.BytesLaws.{length-overwrite}
use zapbrew.Relocate.Filling.{write_bytes-eq-ok, zero_range-eq-ok}
use zapbrew.Relocate.Writes.{write_uint-Kept}
use zapbrew.Relocate.Elf.{decode_elf64, of_type, pt_interp, shdr64_len}
use zapbrew.Relocate.Append.{
  append_into_last_load, update_dynstr_section, matching_sections, repoint,
}
use zapbrew.Relocate.NewLoad.{append_into_last_load-Grown}
use zapbrew.Relocate.Rewrite.{point_interp, grow_interp, fill_slot}

-- If it ends well, it returns a file that is not shorter.
abbrev pub Longer : Text → Result Text (Text × Bool) → Type 0
Longer buf (ok (out, changed)) = length buf ≤ length out
Longer buf (err reason) = Unit

-- If it ends well, it returns a file of the same length.
abbrev pub SameLength : Text → Result Text Text → Type 0
SameLength buf (ok out) = length out ≡ length buf
SameLength buf (err reason) = Unit

pub SameLength-bind :
    (buf : Text) (m : Result Text Text) (rest : Text → Result Text Text)
    → SameLength buf m
    → ((mid : Text) → length mid ≡ length buf → SameLength buf (rest mid))
    → SameLength buf (m >>= rest)
SameLength-bind buf (ok mid) rest same next = next mid same
SameLength-bind buf (err reason) rest same next = tt

pub SameLength-write_uint :
    (k : ℕ) (buf mid : Text) (o : ℕ) (little : Bool) (v : ℕ)
    → length mid ≡ length buf
    → SameLength buf (write_uint k mid o little v)
SameLength-write_uint k buf mid o little v same = go (write_uint k mid o little v) refl
  where
    go : (m : Result Text Text) → write_uint k mid o little v ≡ m → SameLength buf m
    go (ok out) e = (write_uint-Kept k mid o little v out e).0 ∙ same
    go (err reason) e = tt

SameLength-repoint :
    (buf mid : Text) (little : Bool) (new_offset new_vaddr new_size : ℕ) (bases : List ℕ)
    → length mid ≡ length buf
    → SameLength buf (repoint mid little new_offset new_vaddr new_size bases)
unfolding repoint
SameLength-repoint buf mid little new_offset new_vaddr new_size [] same = same
SameLength-repoint buf mid little new_offset new_vaddr new_size (base ∷ bases) same =
    SameLength-bind buf (write_u64 mid (base + 16) little new_vaddr) _
      (SameLength-write_uint 8 buf mid (base + 16) little new_vaddr same)
      λ b1 s1.
        SameLength-bind buf (write_u64 b1 (base + 24) little new_offset) _
          (SameLength-write_uint 8 buf b1 (base + 24) little new_offset s1)
          λ b2 s2.
            SameLength-bind buf (write_u64 b2 (base + 32) little new_size) _
              (SameLength-write_uint 8 buf b2 (base + 32) little new_size s2)
              λ b3 s3. SameLength-repoint buf b3 little new_offset new_vaddr new_size bases s3

-- A chain whose first step concerns the file in no way.
SameLength-after {ℓ} :
    {A : Type ℓ} (buf : Text) (m : Result Text A) (rest : A → Result Text Text)
    → ((a : A) → SameLength buf (rest a))
    → SameLength buf (m >>= rest)
SameLength-after buf (ok a) rest next = next a
SameLength-after buf (err reason) rest next = tt

SameLength-if :
    (buf : Text) (b : Bool) (m n : Result Text Text)
    → SameLength buf m
    → SameLength buf n
    → SameLength buf (if b then m else n)
SameLength-if buf true m n h k = h
SameLength-if buf false m n h k = k

pub SameLength-update_dynstr_section :
    (buf mid : Text) (little : Bool) (old_vaddr new_offset new_vaddr new_size : ℕ)
    → length mid ≡ length buf
    → SameLength buf (update_dynstr_section mid little old_vaddr new_offset new_vaddr new_size)
unfolding update_dynstr_section
SameLength-update_dynstr_section buf mid little old_vaddr new_offset new_vaddr new_size same =
    SameLength-after buf (ok_or (rd_u64 mid 40 little) (bytes "cannot read e_shoff")) _ λ shoff.
      SameLength-if buf (shoff == 0) (ok mid) _ same (
        SameLength-after buf (ok_or (rd_u16 mid 58 little) (bytes "cannot read e_shentsize")) _
          λ shentsize.
            SameLength-after buf (ok_or (rd_u16 mid 60 little) (bytes "cannot read e_shnum")) _
              λ shnum.
                SameLength-if buf (ltb shentsize shdr64_len) (err (bytes "invalid e_shentsize")) _
                  tt
                  (SameLength-after buf
                    (matching_sections mid little old_vaddr shoff shentsize 0 shnum) _
                    λ bases.
                      SameLength-repoint buf mid little new_offset new_vaddr new_size bases same))

append_longer :
    (buf payload out : Text) (little : Bool) (offset vaddr : ℕ)
    → append_into_last_load buf payload little ≡ ok (out, offset, vaddr)
    → length buf ≤ length out
append_longer buf payload out little offset vaddr h =
    elim (append_into_last_load-Grown buf payload out little offset vaddr h) [
      | inl (last, order, phdrs, decoded, found, (grown, start, sum), covers) ↦
          omega (arith, grown.0.0, grown.0.1)
      | inr ((grown, whole, whole'), mapped) ↦ omega (arith, grown.0.0, grown.0.1)
    ]

pub Longer-after {ℓ} :
    {A : Type ℓ} (buf : Text) (m : Result Text A) (rest : A → Result Text (Text × Bool))
    → ((a : A) → Longer buf (rest a))
    → Longer buf (m >>= rest)
Longer-after buf (ok a) rest next = next a
Longer-after buf (err reason) rest next = tt

pub Longer-then :
    (buf mid : Text) (m : Result Text Text) (b : Bool)
    → length buf ≤ length mid
    → SameLength mid m
    → Longer buf (m >>= λ out. ok (out, b))
Longer-then buf mid (ok out) b h same = omega arith
Longer-then buf mid (err reason) b h same = tt

pub Longer-step :
    (buf mid : Text) (m : Result Text Text) (rest : Text → Result Text (Text × Bool))
    → length buf ≤ length mid
    → SameLength mid m
    → ((out : Text) → length buf ≤ length out → Longer buf (rest out))
    → Longer buf (m >>= rest)
Longer-step buf mid (ok out) rest h same next = next out (omega arith)
Longer-step buf mid (err reason) rest h same next = tt

pub Longer-append :
    (buf mid payload : Text) (little : Bool) (rest : Text × ℕ × ℕ → Result Text (Text × Bool))
    → length buf ≤ length mid
    → ((out : Text) (offset vaddr : ℕ)
        → length buf ≤ length out
        → Longer buf (rest (out, offset, vaddr)))
    → Longer buf (append_into_last_load mid payload little >>= rest)
Longer-append buf mid payload little rest h next =
    go (append_into_last_load mid payload little) refl
  where
    go :
        (m : Result Text (Text × ℕ × ℕ))
        → append_into_last_load mid payload little ≡ m
        → Longer buf (m >>= rest)
    go (ok (out, offset, vaddr)) e =
        next out offset vaddr (omega (arith, append_longer mid payload out little offset vaddr e))
    go (err reason) e = tt

pub Longer-if :
    (buf : Text) (b : Bool) (m n : Result Text (Text × Bool))
    → Longer buf m
    → Longer buf n
    → Longer buf (if b then m else n)
Longer-if buf true m n h k = h
Longer-if buf false m n h k = k

pub Longer-fill_slot :
    (buf mid : Text) (offset capacity : ℕ) (bs : Text)
    → length buf ≤ length mid
    → Longer buf (fill_slot mid offset capacity bs)
unfolding fill_slot
Longer-fill_slot buf mid offset capacity bs h =
    Longer-step buf mid (zero_range mid offset capacity) _ h
      (zeroed (zero_range mid offset capacity) refl)
      λ cleared h1.
        Longer-then buf cleared (write_bytes cleared offset bs) true h1
          (written cleared (write_bytes cleared offset bs) refl)
  where
    zeroed : (m : Result Text Text) → zero_range mid offset capacity ≡ m → SameLength mid m
    zeroed (ok out) e =
        ap (λ (r : Text). length r) (zero_range-eq-ok mid offset capacity out e).1
        ∙ length-overwrite mid offset (zeros capacity)
    zeroed (err reason) e = tt

    written :
        (cleared : Text) (m : Result Text Text)
        → write_bytes cleared offset bs ≡ m
        → SameLength cleared m
    written cleared (ok out) e =
        ap (λ (r : Text). length r) (write_bytes-eq-ok cleared offset bs out e).1
        ∙ length-overwrite cleared offset bs
    written cleared (err reason) e = tt

SameLength-point_interp :
    (buf : Text) (little : Bool) (header file_offset vaddr size : ℕ)
    → SameLength buf (point_interp buf little header file_offset vaddr size)
unfolding point_interp
SameLength-point_interp buf little header file_offset vaddr size =
    SameLength-bind buf (write_u64 buf (header + 8) little file_offset) _
      (SameLength-write_uint 8 buf buf (header + 8) little file_offset refl)
      λ b1 s1.
        SameLength-bind buf (write_u64 b1 (header + 16) little vaddr) _
          (SameLength-write_uint 8 buf b1 (header + 16) little vaddr s1)
          λ b2 s2.
            SameLength-bind buf (write_u64 b2 (header + 24) little vaddr) _
              (SameLength-write_uint 8 buf b2 (header + 24) little vaddr s2)
              λ b3 s3.
                SameLength-bind buf (write_u64 b3 (header + 32) little size) _
                  (SameLength-write_uint 8 buf b3 (header + 32) little size s3)
                  λ b4 s4. SameLength-write_uint 8 buf b4 (header + 40) little size s4

pub Longer-grow_interp :
    (buf : Text) (little : Bool) (desired : Text) → Longer buf (grow_interp buf little desired)
unfolding grow_interp
Longer-grow_interp buf little desired =
    Longer-append buf buf (desired ++ (0 ∷ [])) little _ (omega arith) λ grown file_offset vaddr h.
      Longer-after buf
        (ok_or (decode_elf64 grown) (bytes "cannot re-decode ELF after interp append")) _
        λ (order, phdrs).
          Longer-after buf
            (ok_or (find (of_type pt_interp) phdrs)
              (bytes "PT_INTERP vanished after interp append"))
            _
            λ interp.
              Longer-then buf grown
                (point_interp grown little interp.header_offset file_offset vaddr
                  (length desired + 1))
                true h
                (SameLength-point_interp grown little interp.header_offset file_offset vaddr
                  (length desired + 1))
