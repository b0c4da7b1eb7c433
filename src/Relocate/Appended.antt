-- ===== src/Relocate/Appended.antt =====
-- relocate.rs: where an appended payload stands, and what else of the file changes.
use zapbrew.Base.{
  ℕ, ◌+◌, ◌-◌, ◌<◌, ◌≤◌, Text, bytes, Bool, [], ◌∷◌, ◌++◌, some, if◌then◌else◌, ltb, length,
  length-append, take, drop, drop-append, Result, ok, err, ok_or, ok_or-eq-ok, bind-eq-ok, ok-inj,
  ◌≡◌, refl, ap, sym, ◌∙◌, arith, inl, inr, Bool-cases,
}
use mathlib.Core.List.{append-nil}
use mathlib.Core.Path.{subst}
use zapbrew.Relocate.Bytes.{checked_add, checked_sub, round_up, write_u64, rd_u64, u64_mod, zeros}
use zapbrew.Relocate.BytesLaws.{Apart, rd_uint-write_uint, rd_uint-write_uint-Apart}
use zapbrew.Relocate.Pieces.{stretch-append}
use zapbrew.Relocate.Padding.{length-zeros}
use zapbrew.Relocate.Rounding.{round_up_least}
use zapbrew.Relocate.Elf.{Phdr64, phdr64_len, max_segment_align}
use zapbrew.Relocate.Append.{pad_to, extend_last}
use zapbrew.Relocate.Headers.{checked_add-eq-some}
use zapbrew.Relocate.Writes.{Kept, Kept-last, write_uint-Kept}

-- The payload stands behind the old file.
abbrev pub Appended : Text → Text → Text → ℕ → Type 0
Appended buf payload out offset =
    (length buf ≤ offset)
    × (offset + length payload ≤ length out)
    × (take (length payload) (drop offset out) ≡ payload)

pub length-pad_to : (buf : Text) (n : ℕ) → length buf ≤ n → length (pad_to buf n) ≡ n
length-pad_to buf n h =
    omega (arith, length-append buf (zeros (n - length buf)), length-zeros (n - length buf))

-- A payload between two texts.
stretch-between :
    (before payload behind : Text)
    → take (length payload) (drop (length before) ((before ++ payload) ++ behind)) ≡ payload
stretch-between before payload behind =
    let long = length-append before payload in
    stretch-append (before ++ payload) behind (length before) (length payload) (omega arith)
    ∙ (ap (λ (r : Text). take (length payload) r) (drop-append before payload) ∙ take_whole payload)
  where
    take_whole : (s : Text) → take (length s) s ≡ s
    take_whole [] = refl
    take_whole (c ∷ cs) = ap (λ (r : Text). c ∷ r) (take_whole cs)

-- Before anything is written, the payload stands at its offset and the old file at the start.
pub Appended-pad_to :
    (buf payload behind : Text) (offset : ℕ)
    → length buf ≤ offset
    → Appended buf payload ((pad_to buf offset ++ payload) ++ behind) offset
Appended-pad_to buf payload behind offset h =
    let wide = length-pad_to buf offset h in
    let e1 = length-append (pad_to buf offset ++ payload) behind in
    let e2 = length-append (pad_to buf offset) payload in
    (
      h,
      omega arith,
      ap (λ (n : ℕ). take (length payload) (drop n ((pad_to buf offset ++ payload) ++ behind)))
            (sym wide)
          ∙ stretch-between (pad_to buf offset) payload behind,
    )

pub stretch-pad_to :
    (buf payload behind : Text) (offset i n : ℕ)
    → i + n ≤ length buf
    → take n (drop i ((pad_to buf offset ++ payload) ++ behind)) ≡ take n (drop i buf)
stretch-pad_to buf payload behind offset i n h =
    let e1 = length-append (pad_to buf offset) payload in
    let e2 = length-append buf (zeros (offset - length buf)) in
    stretch-append (pad_to buf offset ++ payload) behind i n (omega arith)
    ∙ (stretch-append (pad_to buf offset) payload i n (omega arith)
        ∙ stretch-append buf (zeros (offset - length buf)) i n h)

-- A change apart from the payload leaves it where it stands.
pub Appended-Kept :
    (buf payload mid out : Text) (offset o m : ℕ)
    → Apart offset (length payload) o m
    → Kept mid out o m
    → Appended buf payload mid offset
    → Appended buf payload out offset
Appended-Kept buf payload mid out offset o m apart (same, kept) (behind, fits, here) =
    (behind, omega arith, kept offset (length payload) apart ∙ here)

-- What appending gives: the payload in its place, and the old file but for two stretches.
abbrev pub Grown : Text → Text → Text → ℕ → ℕ → ℕ → ℕ → ℕ → Type 0
Grown buf payload out offset o m p k =
    Appended buf payload out offset
    × ((i n : ℕ)
        → i + n ≤ length buf
        → Apart i n o m
        → Apart i n p k
        → take n (drop i out) ≡ take n (drop i buf))

round_up_past : (value align r : ℕ) → 0 < align → round_up value align ≡ some r → value ≤ r
round_up_past value align r positive h = ((round_up_least value align positive).0 r h).0

abbrev chosen_align : ℕ → ℕ
chosen_align a = if ltb 1 a then a else 16

chosen_align_pos : (a : ℕ) → 0 < chosen_align a
chosen_align_pos a = ground arith

-- The two writes that end the growing in place.
extended :
    (buf payload mid out : Text) (little : Bool) (last : Phdr64) (offset size : ℕ)
    → length buf ≤ offset
    → last.header_offset + phdr64_len ≤ length buf
    → write_u64 (pad_to buf offset ++ payload) (last.header_offset + 32) little size ≡ ok mid
    → write_u64 mid (last.header_offset + 40) little size ≡ ok out
    → Grown buf payload out offset (last.header_offset + 32) 16 0 0
extended buf payload mid out little last offset size past within h1 h2 =
    let start = pad_to buf offset ++ payload in
    let at = last.header_offset in
    let k1 =
      Kept-last start start mid (at + 32) 16 8 (at + 32) little size (omega arith) (omega arith)
        (refl, λ i n apart. refl) h1 in
    let kept =
      Kept-last start mid out (at + 32) 16 8 (at + 40) little size (omega arith) (omega arith) k1
        h2 in
    let placed = rw (append-nil start) at (Appended-pad_to buf payload [] offset past) in
    (
      Appended-Kept buf payload start out offset (at + 32) 16 (inr (omega arith)) kept placed,
      λ i n inside apart none_here.
          kept.1 i n apart
          ∙ (rw (append-nil start) at (stretch-pad_to buf payload [] offset i n inside)),
    )

-- The two writes of a size one behind the other: both fields have it, in the byte order of the writes.
resized :
    (start mid out : Text) (little : Bool) (at next size : ℕ)
    → at + 8 ≤ next
    → size < u64_mod
    → write_u64 start at little size ≡ ok mid
    → write_u64 mid next little size ≡ ok out
    → (rd_u64 out at little ≡ some size) × (rd_u64 out next little ≡ some size)
resized start mid out little at next size apart small h1 h2 =
    let first = rd_uint-write_uint 8 start at little size mid (omega arith) h1 in
    let (kept, same) =
      rd_uint-write_uint-Apart 8 mid next little size out 8 at little h2 (inl (omega arith)) in
    (kept ∙ first, rd_uint-write_uint 8 mid next little size out (omega arith) h2)

-- The segment ends where the file and the payload do: both its sizes are written so.
abbrev pub Covers : Text → Text → Bool → ℕ → Phdr64 → Type 0
Covers payload out little offset last =
    (length out ≡ offset + length payload)
    × (size : ℕ) × (last.p_offset + size ≡ length out)
    × (rd_u64 out (last.header_offset + 32) little ≡ some size)
    × (rd_u64 out (last.header_offset + 40) little ≡ some size)

-- Growing in place: the address stands as far behind the segment's as the offset does.
abbrev pub InPlace : Text → Text → Text → ℕ → ℕ → Phdr64 → Type 0
InPlace buf payload out offset vaddr last =
    Grown buf payload out offset (last.header_offset + 32) 16 0 0
    × (last.p_offset ≤ offset)
    × (vaddr ≡ last.p_vaddr + (offset - last.p_offset))

checked_sub-eq-some : (a b c : ℕ) → checked_sub a b ≡ some c → (b ≤ a) × (c ≡ a - b)
unfolding checked_sub
checked_sub-eq-some a b c h = ground arith

covered :
    (buf payload mid out : Text) (little : Bool) (last : Phdr64) (offset size : ℕ)
    → length buf ≤ offset
    → last.p_offset ≤ length (pad_to buf offset ++ payload)
    → size ≡ length (pad_to buf offset ++ payload) - last.p_offset
    → length out < u64_mod
    → write_u64 (pad_to buf offset ++ payload) (last.header_offset + 32) little size ≡ ok mid
    → write_u64 mid (last.header_offset + 40) little size ≡ ok out
    → Covers payload out little offset last
covered buf payload mid out little last offset size past behind sizes small h1 h2 =
    let start = pad_to buf offset ++ payload in
    let same1 = (write_uint-Kept 8 start (last.header_offset + 32) little size mid h1).0 in
    let same2 = (write_uint-Kept 8 mid (last.header_offset + 40) little size out h2).0 in
    let joined = length-append (pad_to buf offset) payload in
    let wide = length-pad_to buf offset past in
    let (first, second) =
      resized start mid out little (last.header_offset + 32) (last.header_offset + 40) size
        (omega arith) (omega arith) h1 h2 in
    (omega arith, size, omega arith, first, second)

pub extend_last-InPlace :
    (buf payload out : Text) (little : Bool) (last : Phdr64) (offset vaddr : ℕ)
    → last.header_offset + phdr64_len ≤ length buf
    → extend_last buf payload little last ≡ ok (out, offset, vaddr)
    → InPlace buf payload out offset vaddr last
      × (length out < u64_mod → Covers payload out little offset last)
unfolding extend_last
extend_last-InPlace buf payload out little last offset vaddr within h =
    elim (Bool-cases (ltb max_segment_align (chosen_align last.p_align))) [
      | inl unreasonable ↦
          let no : ◌≡◌ {A = Result Text (Text × ℕ × ℕ)}
              (err (bytes "unreasonable final PT_LOAD alignment")) (ok (out, offset, vaddr)) =
            rw (unreasonable, extend_last) at h in
          absurd cc
      | inr fine ↦
          let (place, e1, h1) =
            bind-eq-ok
              (ok_or (round_up (length buf) (chosen_align last.p_align))
                (bytes "aligned append offset overflows"))
              _ (out, offset, vaddr) (rw (fine, extend_last) at h) in
          let (delta, e2, h2) =
            bind-eq-ok
              (ok_or (checked_sub place last.p_offset)
                (bytes "append offset precedes final PT_LOAD"))
              _ (out, offset, vaddr) h1 in
          let (address, e3, h3) =
            bind-eq-ok (ok_or (checked_add last.p_vaddr delta) (bytes "appended vaddr overflows")) _
              (out, offset, vaddr) h2 in
          let (size, e4, h4) =
            bind-eq-ok
              (ok_or (checked_sub (length (pad_to buf place ++ payload)) last.p_offset)
                (bytes "extended PT_LOAD size overflows"))
              _ (out, offset, vaddr) h3 in
          let (sized, e5, h5) =
            bind-eq-ok
              (write_u64 (pad_to buf place ++ payload) (last.header_offset + 32) little size) _
              (out, offset, vaddr) h4 in
          let (written, e6, h6) =
            bind-eq-ok (write_u64 sized (last.header_offset + 40) little size) _
              (out, offset, vaddr) h5 in
          let past =
            round_up_past (length buf) (chosen_align last.p_align) place
              (chosen_align_pos last.p_align)
              (ok_or-eq-ok (round_up (length buf) (chosen_align last.p_align)) _ place e1) in
          let (behind, apart) =
            checked_sub-eq-some place last.p_offset delta
              (ok_or-eq-ok (checked_sub place last.p_offset) _ delta e2) in
          let sum =
            checked_add-eq-some last.p_vaddr delta address
              (ok_or-eq-ok (checked_add last.p_vaddr delta) _ address e3) in
          let (ends, sizes) =
            checked_sub-eq-some (length (pad_to buf place ++ payload)) last.p_offset size (
              ok_or-eq-ok (checked_sub (length (pad_to buf place ++ payload)) last.p_offset) _ size
                e4) in
          subst
            (λ (t : Text × ℕ × ℕ).
              InPlace buf payload t.0 t.1 t.2 last
              × (length t.0 < u64_mod → Covers payload t.0 little t.1 last))
            (ok-inj (written, place, address) (out, offset, vaddr) h6)
            (
              (
                extended buf payload sized written little last place size past within e5 e6,
                behind,
                sum ∙ ap (λ (n : ℕ). last.p_vaddr + n) apart,
              ),
              λ few.
                  covered buf payload sized written little last place size past ends sizes few e5
                    e6,
            )
    ]
