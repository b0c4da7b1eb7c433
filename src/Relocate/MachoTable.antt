-- ===== src/Relocate/MachoTable.antt =====
-- relocate.rs: the string slots of a Mach-O image lie in order within its command table.
use zapbrew.Base.{
  ℕ, zero, suc, ◌+◌, ◌<◌, ◌≤◌, Text, Bool, ◌||◌, List, [], ◌∷◌, ◌++◌, Option, none, some,
  if◌then◌else◌, length, leb, ltb, ◌==◌, Result, ok, err, ok_or, ok_or-eq-ok, ◌>>=◌, bind-eq-ok,
  ok-inj, some-inj, ◌≡◌, sym, arith, ◌⊎◌, inl, inr, Bool-cases, Option-cases,
}
use zapbrew.Relocate.Bytes.{checked_add, rd_u32}
use zapbrew.Relocate.Replace.{Range}
use zapbrew.Relocate.Headers.{checked_add-eq-some}
use zapbrew.Relocate.Macho.{
  malformed, lc_id_dylib, lc_load_dylib, lc_rpath, min_lc_str_offset, thin_macho_header,
  command_slot, command_slots, header_slots, macho_string_slots,
}

-- The slots begin behind a bound, one behind the other, none of them empty, and end within a limit.
abbrev pub InOrder : ℕ → ℕ → List Range → Type 0
InOrder lo hi [] = Unit
InOrder lo hi ((b, e) ∷ slots) = (lo ≤ b) × (b < e) × (e ≤ hi) × InOrder e hi slots

pub InOrder-lower :
    (m n hi : ℕ) (slots : List Range) → m ≤ n → InOrder n hi slots → InOrder m hi slots
InOrder-lower m n hi [] h o = tt
InOrder-lower m n hi ((b, e) ∷ slots) h (nb, be, eh, o) = (omega arith, be, eh, o)

InOrder-raise : (lo m n : ℕ) (slots : List Range) → m ≤ n → InOrder lo m slots → InOrder lo n slots
InOrder-raise lo m n [] h o = tt
InOrder-raise lo m n ((b, e) ∷ slots) h (nb, be, em, o) =
    (nb, be, omega arith, InOrder-raise e m n slots h o)

-- One command gives no slot, or one between its own bounds.
command_slot_cases :
    (content : Text) (little : Bool) (cmd cursor cmd_end : ℕ) (here : List Range)
    → command_slot content little cmd cursor cmd_end ≡ ok here
    → (here ≡ []) ⊎ ((b : ℕ) × (cursor ≤ b) × (b < cmd_end) × (here ≡ (b, cmd_end) ∷ []))
unfolding command_slot checked_add
command_slot_cases content little cmd cursor cmd_end here h =
    elim (Bool-cases ((cmd == lc_id_dylib) || (cmd == lc_load_dylib) || (cmd == lc_rpath))) [
      | inr other ↦ inl (sym (ok-inj [] here (rw other at h)))
      | inl listed ↦
          let (field, e1, h1) =
            bind-eq-ok (ok_or (checked_add cursor 8) malformed) _ here (rw listed at h) in
          let (str_off, e2, h2) =
            bind-eq-ok (ok_or (rd_u32 content field little) malformed) _ here h1 in
          let (start, e3, h3) =
            bind-eq-ok (ok_or (checked_add cursor str_off) malformed) _ here h2 in
          let place : start ≡ cursor + str_off =
            checked_add-eq-some cursor str_off start
              (ok_or-eq-ok (checked_add cursor str_off) malformed start e3) in
          inr (slot_of str_off start place h3)
    ]
  where
    slot_of :
        (str_off start : ℕ)
        → start ≡ cursor + str_off
        → (if ltb str_off min_lc_str_offset || leb cmd_end start
            then err malformed
            else ok ((start, cmd_end) ∷ []))
          ≡ ok here
        → (b : ℕ) × (cursor ≤ b) × (b < cmd_end) × (here ≡ (b, cmd_end) ∷ [])
    slot_of str_off start place h3 = (start, omega arith, ground arith, ground arith)

InOrder-command :
    (cursor cmd_end hi : ℕ) (here slots : List Range)
    → (here ≡ []) ⊎ ((b : ℕ) × (cursor ≤ b) × (b < cmd_end) × (here ≡ (b, cmd_end) ∷ []))
    → cursor ≤ cmd_end
    → cmd_end ≤ hi
    → InOrder cmd_end hi slots
    → InOrder cursor hi (here ++ slots)
InOrder-command cursor cmd_end hi here slots (inl none_here) h k o =
    rw none_here (InOrder-lower cursor cmd_end hi slots h o)
InOrder-command cursor cmd_end hi here slots (inr (b, cb, be, one)) h k o = rw one (cb, be, k, o)

-- The end of a round, once its command has been read.
round-InOrder :
    (content : Text) (little : Bool) (cmds_end cursor cmd cmdsize cmd_end : ℕ)
    (later : Result Text (List Range)) (slots : List Range)
    → cmd_end ≡ cursor + cmdsize
    → ((rest : List Range) → later ≡ ok rest → InOrder cmd_end cmds_end rest)
    → (if ltb cmdsize 8 || ltb cmds_end cmd_end
        then err malformed
        else (command_slot content little cmd cursor cmd_end >>= λ here.
            later >>= λ slots. ok (here ++ slots)))
      ≡ ok slots
    → InOrder cursor cmds_end slots
round-InOrder content little cmds_end cursor cmd cmdsize cmd_end later slots place rest-InOrder h =
    elim (Bool-cases (ltb cmdsize 8 || ltb cmds_end cmd_end)) [
      | inl bad ↦
          let no : ◌≡◌ {A = Result Text (List Range)} (err malformed) (ok slots) = rw bad at h in
          absurd cc
      | inr good ↦
          let (here, e5, h5) =
            bind-eq-ok (command_slot content little cmd cursor cmd_end) _ slots (rw good at h) in
          let (rest, e6, h6) = bind-eq-ok later _ slots h5 in
          let within : cmd_end ≤ cmds_end = ground arith in
          rw (← ok-inj (here ++ rest) slots h6) (
            InOrder-command cursor cmd_end cmds_end here rest
              (command_slot_cases content little cmd cursor cmd_end here e5) (omega arith) within
              (rest-InOrder rest e6))
    ]

command_slots-InOrder :
    (content : Text) (little : Bool) (cmds_end cursor more : ℕ) (slots : List Range)
    → command_slots content little cmds_end cursor more ≡ ok slots
    → InOrder cursor cmds_end slots
unfolding command_slots
command_slots-InOrder content little cmds_end cursor zero slots h = rw (← ok-inj [] slots h) tt
command_slots-InOrder content little cmds_end cursor (suc more) slots h =
    let (cmd, e1, h1) = bind-eq-ok (ok_or (rd_u32 content cursor little) malformed) _ slots h in
    let (field, e2, h2) = bind-eq-ok (ok_or (checked_add cursor 4) malformed) _ slots h1 in
    let (cmdsize, e3, h3) = bind-eq-ok (ok_or (rd_u32 content field little) malformed) _ slots h2 in
    let (cmd_end, e4, h4) = bind-eq-ok (ok_or (checked_add cursor cmdsize) malformed) _ slots h3 in
    let place =
      checked_add-eq-some cursor cmdsize cmd_end
        (ok_or-eq-ok (checked_add cursor cmdsize) malformed cmd_end e4) in
    round-InOrder content little cmds_end cursor cmd cmdsize cmd_end
      (command_slots content little cmds_end cmd_end more) slots place
      (λ rest e. command_slots-InOrder content little cmds_end cmd_end more rest e) h4

header_slots-InOrder :
    (content : Text) (little : Bool) (header_len : ℕ) (slots : List Range)
    → header_slots content little header_len ≡ ok slots
    → InOrder header_len (length content) slots
unfolding header_slots
header_slots-InOrder content little header_len slots h =
    let (ncmds, e1, h1) = bind-eq-ok (ok_or (rd_u32 content 16 little) malformed) _ slots h in
    let (sizeofcmds, e2, h2) = bind-eq-ok (ok_or (rd_u32 content 20 little) malformed) _ slots h1 in
    let (cmds_end, e3, h3) =
      bind-eq-ok (ok_or (checked_add header_len sizeofcmds) malformed) _ slots h2 in
    elim (Bool-cases (ltb (length content) cmds_end)) [
      | inl past ↦
          let no : ◌≡◌ {A = Result Text (List Range)} (err malformed) (ok slots) = rw past at h3 in
          absurd cc
      | inr within ↦
          InOrder-raise header_len cmds_end (length content) slots (ground arith)
            (command_slots-InOrder content little cmds_end header_len ncmds slots (rw within at h3))
    ]

-- The string slots that are found in a thin Mach-O image stand behind its header, in order, without
-- overlap, none of them empty, and within the file.
pub macho_string_slots-InOrder :
    (content : Text) (slots : List Range)
    → macho_string_slots content ≡ ok (some slots)
    → (little : Bool) × (header_len : ℕ) × (thin_macho_header content ≡ some (little, header_len))
      × InOrder header_len (length content) slots
unfolding macho_string_slots
macho_string_slots-InOrder content slots h = elim (Option-cases (thin_macho_header content)) [
  | inl none_here ↦
      let no : ◌≡◌ {A = Result Text (Option (List Range))} (ok none) (ok (some slots)) =
        rw (none_here, macho_string_slots) at h in
      absurd cc
  | inr ((little, header_len), found) ↦
      let (table, e1, h1) =
        bind-eq-ok (header_slots content little header_len) _ (some slots)
          (rw (found, macho_string_slots) at h) in
      (
        little,
        header_len,
        found,
        header_slots-InOrder content little header_len slots
            (rw (some-inj table slots (ok-inj (some table) (some slots) h1)) at e1),
      )
]
