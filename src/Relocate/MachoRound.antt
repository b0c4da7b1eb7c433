-- ===== src/Relocate/MachoRound.antt =====
-- relocate.rs: what one round of the rewriting of Mach-O string slots does.
use zapbrew.Base.{
  ℕ, ◌+◌, ◌-◌, ◌<◌, ◌≤◌, Text, Bool, true, Option, none, some, if◌then◌else◌, length, leb, slice,
  take, drop, Result, ok, err, ◌>>=◌, bind-eq-ok, ok-inj, ◌≡◌, refl, ap, sym, ◌∙◌, arith, ◌⊎◌, inl,
  inr, Bool-cases,
}
use zapbrew.Relocate.Bytes.{get_range, overwrite, write_bytes, zero_range}
use zapbrew.Relocate.BytesLaws.{Apart, read-Apart, read_back, length-overwrite}
use zapbrew.Relocate.Filling.{padded_to, length-padded_to, filled-eq}
use zapbrew.Relocate.Macho.{slot_error}

pub get_range-eq-some :
    (buf : Text) (b e : ℕ) (s : Text) → get_range buf b e ≡ some s → s ≡ slice buf b e
unfolding get_range
get_range-eq-some buf b e s h = ground arith

-- What a slot holds in the new file, by what it is to hold.
abbrev pub Slot : Option Text → Text → Text → ℕ → ℕ → Type 0
Slot none buf out b e = slice out b e ≡ slice buf b e
Slot (some t) buf out b e = (length t < e - b) × (slice out b e ≡ padded_to (e - b) t)

-- One round: nothing is to change, or the slot is cleared and filled.
pub round_cases :
    (buf slot_bytes : Text) (b : ℕ) (later : Text → Result Text (Text × Bool)) (o : Option Text)
    (out : Text) (changed : Bool)
    → (elim o [
      | none ↦ later buf
      | some replaced ↦
          if leb (length slot_bytes) (length replaced)
          then err (slot_error (length replaced) (length slot_bytes))
          else (zero_range buf b (length slot_bytes) >>= λ cleared.
              write_bytes cleared b replaced >>= λ written.
              later written >>= λ (out, changed). ok (out, true))
    ])
      ≡ ok (out, changed)
    → (mid : Text) × (more : Bool) × (later mid ≡ ok (out, more))
      × (((o ≡ none) × (mid ≡ buf))
          ⊎ ((t : Text) × (o ≡ some t)
              × (length t < length slot_bytes)
              × (b + length slot_bytes ≤ length buf)
              × (mid ≡ overwrite buf b (padded_to (length slot_bytes) t))))
round_cases buf slot_bytes b later none out changed h = (buf, changed, h, inl (refl, refl))
round_cases buf slot_bytes b later (some t) out changed h =
    elim (Bool-cases (leb (length slot_bytes) (length t))) [
      | inl over ↦
          let no : ◌≡◌ {A = Result Text (Text × Bool)}
              (err (slot_error (length t) (length slot_bytes))) (ok (out, changed)) =
            rw over at h in
          absurd cc
      | inr fits ↦
          let (cleared, e1, h1) =
            bind-eq-ok (zero_range buf b (length slot_bytes)) _ (out, changed) (rw fits at h) in
          let (written, e2, h2) = bind-eq-ok (write_bytes cleared b t) _ (out, changed) h1 in
          let ((out', more), e3, h3) = bind-eq-ok (later written) _ (out, changed) h2 in
          let shorter : length t < length slot_bytes = ground arith in
          let same : out' ≡ out =
            ap (λ (p : Text × Bool). p.0) (ok-inj (out', true) (out, changed) h3) in
          let (within, filled) =
            filled-eq buf b (length slot_bytes) t cleared written (omega arith) e1 e2 in
          (
            written,
            more,
            e3 ∙ ap (λ (r : Text). ok (r, more)) same,
            inr (t, refl, shorter, within, filled),
          )
    ]

-- What a round did to its own slot, and to what lies apart from it.
abbrev pub Round : Option Text → Text → Text → ℕ → ℕ → Type 0
Round o buf mid b e =
    Slot o buf mid b e
    × (length mid ≡ length buf)
    × ((i n : ℕ) → Apart i n b (e - b) → take n (drop i mid) ≡ take n (drop i buf))

pub overwrite-Round :
    (o : Option Text) (buf mid : Text) (b e : ℕ)
    → ((o ≡ none) × (mid ≡ buf))
      ⊎ ((t : Text) × (o ≡ some t)
          × (length t < e - b)
          × (b + (e - b) ≤ length buf)
          × (mid ≡ overwrite buf b (padded_to (e - b) t)))
    → Round o buf mid b e
unfolding slice
overwrite-Round o buf mid b e (inl (nothing, same)) =
    rw (nothing, same) (refl, refl, λ i n apart. refl)
overwrite-Round o buf mid b e (inr (t, wanted, shorter, within, same)) =
    let wide = length-padded_to (e - b) t (omega arith) in
    let back : take (e - b) (drop b (overwrite buf b (padded_to (e - b) t))) ≡ padded_to (e - b) t =
      ap (λ (n : ℕ). take n (drop b (overwrite buf b (padded_to (e - b) t)))) (sym wide)
      ∙ read_back buf b (padded_to (e - b) t) (omega arith) in
    rw (wanted, same)
      (
        (shorter, back),
        length-overwrite buf b (padded_to (e - b) t),
        λ i n apart. read-Apart buf b (padded_to (e - b) t) i n (rw wide apart),
      )
