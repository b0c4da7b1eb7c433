-- ===== src/Relocate/Writes.antt =====
-- relocate.rs: writes of numbers leave alone what lies apart from them.
use zapbrew.Base.{
  ℕ, ◌+◌, ◌≤◌, Text, Bool, length, take, drop, Result, ok, ◌>>=◌, bind-eq-ok, ok-inj, ◌≡◌, refl,
  ◌∙◌, arith, inl, inr,
}
use zapbrew.Relocate.Bytes.{to_bytes, write_uint}
use zapbrew.Relocate.BytesLaws.{
  Apart, read-Apart, length-to_bytes, length-overwrite, write_uint-eq-ok,
}
use zapbrew.Relocate.Elf.{Phdr64, phdr64_len}
use zapbrew.Relocate.Append.{write_phdr}

-- A file of the same length, the same but for `m` bytes from `o` on.
abbrev pub Kept : Text → Text → ℕ → ℕ → Type 0
Kept buf out o m =
    (length out ≡ length buf)
    × ((i n : ℕ) → Apart i n o m → take n (drop i out) ≡ take n (drop i buf))

pub write_uint-Kept :
    (k : ℕ) (buf : Text) (o : ℕ) (little : Bool) (v : ℕ) (out : Text)
    → write_uint k buf o little v ≡ ok out
    → Kept buf out o k
write_uint-Kept k buf o little v out h =
    let (same, within, below) = write_uint-eq-ok k buf o little v out h in
    let width = length-to_bytes little k v in
    rw same (
      length-overwrite buf o (to_bytes little k v),
      λ i n apart. read-Apart buf o (to_bytes little k v) i n (rw width apart),
    )

-- A write within the stretch, at the head of a chain that ends well.
pub Kept-write :
    (buf mid out : Text) (o m k p : ℕ) (little : Bool) (v : ℕ) (rest : Text → Result Text Text)
    → o ≤ p
    → p + k ≤ o + m
    → Kept buf mid o m
    → (write_uint k mid p little v >>= rest) ≡ ok out
    → (next : Text) × Kept buf next o m × (rest next ≡ ok out)
Kept-write buf mid out o m k p little v rest h1 h2 (same1, kept1) h =
    let (next, e, h') = bind-eq-ok (write_uint k mid p little v) rest out h in
    let (same2, kept2) = write_uint-Kept k mid p little v next e in
    (next, (same2 ∙ same1, λ i n apart. kept2 i n (inner i n apart) ∙ kept1 i n apart), h')
  where
    inner : (i n : ℕ) → Apart i n o m → Apart i n p k
    inner i n (inl before) = inl (omega arith)
    inner i n (inr behind) = inr (omega arith)

-- The last write of a chain.
pub Kept-last :
    (buf mid out : Text) (o m k p : ℕ) (little : Bool) (v : ℕ)
    → o ≤ p
    → p + k ≤ o + m
    → Kept buf mid o m
    → write_uint k mid p little v ≡ ok out
    → Kept buf out o m
Kept-last buf mid out o m k p little v h1 h2 kept h =
    let (next, kept', e) =
      Kept-write buf mid out o m k p little v (λ (r : Text). ok r) h1 h2 kept (rw h refl) in
    rw (← ok-inj next out e) kept'

-- A program header is written within its own bytes.
pub write_phdr-Kept :
    (buf : Text) (phdr : Phdr64) (little : Bool) (out : Text)
    → write_phdr buf phdr little ≡ ok out
    → Kept buf out phdr.header_offset phdr64_len
unfolding write_phdr
write_phdr-Kept buf phdr little out h =
    let at = phdr.header_offset in
    let (b1, k1, h1) =
      Kept-write buf buf out at phdr64_len 4 at little phdr.p_type _ (omega arith) (omega arith)
        (refl, λ i n apart. refl) h in
    let (b2, k2, h2) =
      Kept-write buf b1 out at phdr64_len 4 (at + 4) little 4 _ (omega arith) (omega arith) k1 h1 in
    let (b3, k3, h3) =
      Kept-write buf b2 out at phdr64_len 8 (at + 8) little phdr.p_offset _ (omega arith)
        (omega arith) k2 h2 in
    let (b4, k4, h4) =
      Kept-write buf b3 out at phdr64_len 8 (at + 16) little phdr.p_vaddr _ (omega arith)
        (omega arith) k3 h3 in
    let (b5, k5, h5) =
      Kept-write buf b4 out at phdr64_len 8 (at + 24) little phdr.p_vaddr _ (omega arith)
        (omega arith) k4 h4 in
    let (b6, k6, h6) =
      Kept-write buf b5 out at phdr64_len 8 (at + 32) little phdr.p_filesz _ (omega arith)
        (omega arith) k5 h5 in
    let (b7, k7, h7) =
      Kept-write buf b6 out at phdr64_len 8 (at + 40) little phdr.p_memsz _ (omega arith)
        (omega arith) k6 h6 in
    Kept-last buf b7 out at phdr64_len 8 (at + 48) little phdr.p_align (omega arith) (omega arith)
      k7 h7
