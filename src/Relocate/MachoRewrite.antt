-- ===== src/Relocate/MachoRewrite.antt =====
-- relocate.rs: what `macho_relocate` writes, and that it writes nothing else.
use zapbrew.Base.{
  ℕ, ◌+◌, ◌-◌, ◌<◌, ◌≤◌, Text, bytes, Bool, true, false, List, [], ◌∷◌, Option, none, some,
  if◌then◌else◌, length, leb, slice, take, drop, ok, err, ok_or, ok_or-eq-ok, ◌>>=◌, bind-eq-ok,
  ok-inj, ◌≡◌, refl, ap, sym, ◌∙◌, arith, inl, inr,
}
use zapbrew.Relocate.Bytes.{get_range, write_bytes, zero_range, cstr}
use zapbrew.Relocate.BytesLaws.{Apart}
use zapbrew.Relocate.Replace.{Subs, Range}
use zapbrew.Relocate.Pieces.{length-slice}
use zapbrew.Relocate.Macho.{
  slot_error, slot_target, rewrite_slots, macho_string_slots, macho_relocate,
}
use zapbrew.Relocate.MachoTable.{InOrder, macho_string_slots-InOrder}
use zapbrew.Relocate.MachoRound.{Slot, Round, round_cases, overwrite-Round, get_range-eq-some}

-- All slots of a list, each by what it is to hold.
module _ (lossy : Text → Text) (subs : Subs) (cellar new_prefix original : Text) where
  abbrev pub target : ℕ → ℕ → Option Text
  target b e = slot_target lossy subs cellar new_prefix (cstr (slice original b e))

  abbrev pub Slots : List Range → Text → Text → Type 0
  Slots [] buf out = Unit
  Slots ((b, e) ∷ slots) buf out = Slot (target b e) buf out b e × Slots slots buf out

  -- A stretch that no slot touches.
  abbrev pub Clear : ℕ → ℕ → List Range → Type 0
  Clear i n [] = Unit
  Clear i n ((b, e) ∷ slots) = Apart i n b (e - b) × Clear i n slots

  Clear-InOrder :
      (lo hi i n : ℕ) (slots : List Range) → i + n ≤ lo → InOrder lo hi slots → Clear i n slots
  Clear-InOrder lo hi i n [] h o = tt
  Clear-InOrder lo hi i n ((b, e) ∷ slots) h (lb, be, eh, o) =
      (inl (omega arith), Clear-InOrder e hi i n slots (omega arith) o)

  -- A round, by the bytes of its slot.
  slot_target-Round :
      (buf out : Text) (b e : ℕ) (slots : List Range) (changed : Bool) (slot_bytes : Text)
      → length slot_bytes ≡ e - b
      → (elim (slot_target lossy subs cellar new_prefix (cstr slot_bytes)) [
        | none ↦ rewrite_slots lossy subs cellar new_prefix original buf slots
        | some replaced ↦
            if leb (length slot_bytes) (length replaced)
            then err (slot_error (length replaced) (length slot_bytes))
            else (zero_range buf b (length slot_bytes) >>= λ cleared.
                write_bytes cleared b replaced >>= λ written.
                rewrite_slots lossy subs cellar new_prefix original written slots
                >>= λ (out, changed). ok (out, true))
      ])
        ≡ ok (out, changed)
      → (mid : Text) × (more : Bool) × (rewrite_slots lossy subs cellar new_prefix original mid
            slots
          ≡ ok (out, more))
        × Round (slot_target lossy subs cellar new_prefix (cstr slot_bytes)) buf mid b e
  slot_target-Round buf out b e slots changed slot_bytes width h =
      let wanted = slot_target lossy subs cellar new_prefix (cstr slot_bytes) in
      let (mid, more, later, effect) =
        round_cases buf slot_bytes b
          (λ (r : Text). rewrite_slots lossy subs cellar new_prefix original r slots) wanted out
          changed h in
      (mid, more, later, overwrite-Round wanted buf mid b e (rw width at effect))

  rewrite_slots-Round :
      (buf out : Text) (b e : ℕ) (slots : List Range) (changed : Bool)
      → b < e
      → e ≤ length original
      → length buf ≡ length original
      → rewrite_slots lossy subs cellar new_prefix original buf ((b, e) ∷ slots) ≡ ok (out, changed)
      → (mid : Text) × (more : Bool) × (rewrite_slots lossy subs cellar new_prefix original mid
            slots
          ≡ ok (out, more))
        × Round (target b e) buf mid b e
  unfolding rewrite_slots
  rewrite_slots-Round buf out b e slots changed be el same h =
      let (slot_bytes, e1, h1) =
        bind-eq-ok (ok_or (get_range original b e) (bytes "load command outside file")) _
          (out, changed) h in
      let same_bytes : slot_bytes ≡ slice original b e =
        get_range-eq-some original b e slot_bytes (
          ok_or-eq-ok (get_range original b e) (bytes "load command outside file") slot_bytes e1) in
      let width : length slot_bytes ≡ e - b =
        ap (λ (r : Text). length r) same_bytes ∙ length-slice original b e (omega arith) el in
      let done = slot_target-Round buf out b e slots changed slot_bytes width h1 in
      rw same_bytes at done

  Slot-later :
      (o : Option Text) (buf mid out : Text) (b e : ℕ)
      → slice out b e ≡ slice mid b e
      → Slot o buf mid b e
      → Slot o buf out b e
  Slot-later none buf mid out b e same h = same ∙ h
  Slot-later (some t) buf mid out b e same (shorter, h) = (shorter, same ∙ h)

  Slot-earlier :
      (o : Option Text) (buf mid out : Text) (b e : ℕ)
      → slice mid b e ≡ slice buf b e
      → Slot o mid out b e
      → Slot o buf out b e
  Slot-earlier none buf mid out b e same h = h ∙ same
  Slot-earlier (some t) buf mid out b e same h = h

  Slots-earlier :
      (buf mid out : Text) (b e hi lo : ℕ) (slots : List Range)
      → ((i n : ℕ) → Apart i n b (e - b) → take n (drop i mid) ≡ take n (drop i buf))
      → b < e
      → e ≤ lo
      → InOrder lo hi slots
      → Slots slots mid out
      → Slots slots buf out
  unfolding slice
  Slots-earlier buf mid out b e hi lo [] apart be el o h = tt
  Slots-earlier buf mid out b e hi lo ((c, d) ∷ slots) apart be el (lc, cd, dh, o) (h, hs) = (
    Slot-earlier (target c d) buf mid out c d (apart c (d - c) (inr (omega arith))) h,
    Slots-earlier buf mid out b e hi d slots apart be (omega arith) o hs,
  )

  rewrite_slots-Slots :
      (lo : ℕ) (buf out : Text) (slots : List Range) (changed : Bool)
      → InOrder lo (length original) slots
      → length buf ≡ length original
      → rewrite_slots lossy subs cellar new_prefix original buf slots ≡ ok (out, changed)
      → (length out ≡ length original)
        × Slots slots buf out
        × ((i n : ℕ) → Clear i n slots → take n (drop i out) ≡ take n (drop i buf))
  unfolding rewrite_slots slice
  rewrite_slots-Slots lo buf out [] changed o same h =
      let kept : out ≡ buf =
        sym (ap (λ (p : Text × Bool). p.0) (ok-inj (buf, false) (out, changed) h)) in
      rw kept (same, tt, λ i n c. refl)
  rewrite_slots-Slots lo buf out ((b, e) ∷ slots) changed (lb, be, eh, o) same h =
      let (mid, more, later, (slot, long, apart)) =
        rewrite_slots-Round buf out b e slots changed be eh same h in
      let (longs, others, clear) = rewrite_slots-Slots e mid out slots more o (long ∙ same) later in
      let untouched =
        clear b (e - b) (Clear-InOrder e (length original) b (e - b) slots (omega arith) o) in
      (
        longs,
        (
          Slot-later (target b e) buf mid out b e untouched slot,
          Slots-earlier buf mid out b e (length original) e slots apart be (omega arith) o others,
        ),
        λ i n (a, c). clear i n c ∙ apart i n a,
      )

-- When the rewriting of a Mach-O image ends well, the file keeps its length; every string slot
-- either holds what it held or the wanted text with zeros behind it, at least one; and every
-- stretch of bytes that no slot touches is as it was.
pub macho_relocate-Slots :
    (lossy : Text → Text) (subs : Subs) (cellar new_prefix original out : Text) (slots : List Range)
    (changed : Bool)
    → macho_string_slots original ≡ ok (some slots)
    → macho_relocate lossy original original subs cellar new_prefix ≡ ok (out, changed)
    → (length out ≡ length original)
      × Slots lossy subs cellar new_prefix original slots original out
      × ((i n : ℕ)
          → Clear lossy subs cellar new_prefix original i n slots
          → take n (drop i out) ≡ take n (drop i original))
unfolding macho_relocate
macho_relocate-Slots lossy subs cellar new_prefix original out slots changed found h =
    let (little, header_len, header, o) = macho_string_slots-InOrder original slots found in
    rewrite_slots-Slots lossy subs cellar new_prefix original header_len original out slots changed
      o refl (rw (found, macho_relocate) at h)
