-- ===== src/Relocate/Macho.antt =====
-- relocate.rs: the load-command strings of a thin Mach-O image.
use zapbrew.Base.{
  ℕ, zero, suc, Text, bytes, decimal, Bool, true, false, ◌||◌, List, [], ◌∷◌, ◌++◌, map, Option,
  none, some, if◌then◌else◌, and_then, is_empty, length, leb, ltb, ◌==◌, join, Result, ok, err,
  ok_or, ◌>>=◌, Component, components, strip_components, component_str,
}
use zapbrew.Relocate.Bytes.{checked_add, get_range, rd_uint, rd_u32, write_bytes, zero_range, cstr}
use zapbrew.Relocate.Replace.{Subs, Range, replace_all}

abbrev pub mh_magic : ℕ
mh_magic = 0xfeedface

abbrev pub mh_cigam : ℕ
mh_cigam = 0xcefaedfe

abbrev pub mh_magic_64 : ℕ
mh_magic_64 = 0xfeedfacf

abbrev pub mh_cigam_64 : ℕ
mh_cigam_64 = 0xcffaedfe

abbrev pub macho_header32_len : ℕ
macho_header32_len = 28

abbrev pub macho_header64_len : ℕ
macho_header64_len = 32

abbrev pub lc_load_dylib : ℕ
lc_load_dylib = 0xc

abbrev pub lc_id_dylib : ℕ
lc_id_dylib = 0xd

abbrev pub lc_rpath : ℕ
lc_rpath = 0x8000001c

abbrev pub min_lc_str_offset : ℕ
min_lc_str_offset = 12

unfoldable pub has_thin_macho_magic : Text → Bool
unfolding rd_uint
has_thin_macho_magic data_bytes = elim (rd_u32 data_bytes 0 true) [
  | none ↦ false
  | some magic ↦
      (magic == mh_magic) || (magic == mh_cigam) || (magic == mh_magic_64) || (magic == mh_cigam_64)
]

-- The byte order and the length of the header.
unfoldable pub thin_macho_header : Text → Option (Bool × ℕ)
unfolding rd_uint
thin_macho_header data_bytes = and_then (rd_u32 data_bytes 0 true) λ magic.
    if magic == mh_magic
    then some (true, macho_header32_len)
    else if magic == mh_cigam
    then some (false, macho_header32_len)
    else if magic == mh_magic_64
    then some (true, macho_header64_len)
    else if magic == mh_cigam_64
    then some (false, macho_header64_len)
    else none

abbrev pub malformed : Text
malformed = bytes "malformed Mach-O load command table"

-- The string slot of one command, where the command has one.
unfoldable pub command_slot : Text → Bool → ℕ → ℕ → ℕ → Result Text (List Range)
unfolding rd_uint checked_add
command_slot data_bytes little cmd cursor cmd_end =
    if (cmd == lc_id_dylib) || (cmd == lc_load_dylib) || (cmd == lc_rpath)
    then (ok_or (checked_add cursor 8) malformed >>= λ field.
        ok_or (rd_u32 data_bytes field little) malformed >>= λ str_off.
        ok_or (checked_add cursor str_off) malformed >>= λ start.
        if ltb str_off min_lc_str_offset || leb cmd_end start
        then err malformed
        else ok ((start, cmd_end) ∷ []))
    else ok []

-- The loop over the commands, by the rounds left.
unfoldable pub command_slots : Text → Bool → ℕ → ℕ → ℕ → Result Text (List Range)
unfolding rd_uint checked_add command_slot
command_slots data_bytes little cmds_end cursor zero = ok []
command_slots data_bytes little cmds_end cursor (suc more) =
    ok_or (rd_u32 data_bytes cursor little) malformed >>= λ cmd.
    ok_or (checked_add cursor 4) malformed >>= λ field.
    ok_or (rd_u32 data_bytes field little) malformed >>= λ cmdsize.
    ok_or (checked_add cursor cmdsize) malformed >>= λ cmd_end.
    let later = command_slots data_bytes little cmds_end cmd_end more in
    if ltb cmdsize 8 || ltb cmds_end cmd_end
    then err malformed
    else (command_slot data_bytes little cmd cursor cmd_end >>= λ here.
        later >>= λ slots. ok (here ++ slots))

-- Behind a recognised header.
unfoldable pub header_slots : Text → Bool → ℕ → Result Text (List Range)
unfolding rd_uint checked_add command_slots
header_slots data_bytes little header_len =
    ok_or (rd_u32 data_bytes 16 little) malformed >>= λ ncmds.
    ok_or (rd_u32 data_bytes 20 little) malformed >>= λ sizeofcmds.
    ok_or (checked_add header_len sizeofcmds) malformed >>= λ cmds_end.
    if ltb (length data_bytes) cmds_end
    then err malformed
    else command_slots data_bytes little cmds_end header_len ncmds

unfoldable pub macho_string_slots : Text → Result Text (Option (List Range))
unfolding thin_macho_header header_slots
macho_string_slots data_bytes = elim (thin_macho_header data_bytes) [
  | none ↦ ok none
  | some (little, header_len) ↦
      header_slots data_bytes little header_len >>= λ slots. ok (some slots)
]

unfoldable pub macho_linkage_regions : Text → List Range
unfolding macho_string_slots
macho_linkage_regions data_bytes = elim (macho_string_slots data_bytes) [
  | err reason ↦ []
  | ok found ↦ elim found [ none ↦ [] | some slots ↦ slots ]
]

-- The name, the version that is passed over, and what is left.
abbrev pub opt_path : Text → List Component → Option Text
opt_path new_prefix (name ∷ version ∷ rest) =
    let tail = join b'/' (map component_str rest) in
    let opt = new_prefix ++ (bytes "/opt/" ++ component_str name) in
    if is_empty tail then some opt else some (opt ++ (b'/' ∷ tail))
opt_path new_prefix _ = none

unfoldable pub rewrite_cellar_to_opt : Text → Text → Text → Option Text
unfolding components strip_components
rewrite_cellar_to_opt path cellar new_prefix =
    and_then (strip_components (components cellar) (components path))
      λ rest. opt_path new_prefix rest

abbrev pub slot_error : ℕ → ℕ → Text
slot_error needs capacity =
    bytes "relocated load-command string needs "
    ++ (decimal needs ++ (bytes " bytes plus NUL but its command slot holds " ++ decimal capacity))

-- `String::from_utf8_lossy`, whose replacement of invalid bytes stands outside this repository.
module _ (lossy : Text → Text) where
  -- What a slot is to hold, if it changes.
  unfoldable pub slot_target : Subs → Text → Text → Text → Option Text
  unfolding replace_all rewrite_cellar_to_opt
  slot_target subs cellar new_prefix current =
      let (replaced, slot_changed) = replace_all current subs in
      elim (rewrite_cellar_to_opt (lossy replaced) cellar new_prefix) [
        | some rewritten ↦ some rewritten
        | none ↦ if slot_changed then some replaced else none
      ]

  -- The loop over the slots.
  unfoldable pub rewrite_slots :
      Subs → Text → Text → Text → Text → List Range → Result Text (Text × Bool)
  unfolding get_range cstr slot_target zero_range write_bytes
  rewrite_slots subs cellar new_prefix original buf [] = ok (buf, false)
  rewrite_slots subs cellar new_prefix original buf ((b, e) ∷ slots) =
      let later = λ (out : Text). rewrite_slots subs cellar new_prefix original out slots in
      ok_or (get_range original b e) (bytes "load command outside file") >>= λ slot_bytes.
      elim (slot_target subs cellar new_prefix (cstr slot_bytes)) [
        | none ↦ later buf
        | some replaced ↦
            if leb (length slot_bytes) (length replaced)
            then err (slot_error (length replaced) (length slot_bytes))
            else (zero_range buf b (length slot_bytes) >>= λ cleared.
                write_bytes cleared b replaced >>= λ written.
                later written >>= λ (out, changed). ok (out, true))
      ]

  unfoldable pub macho_relocate : Text → Text → Subs → Text → Text → Result Text (Text × Bool)
  unfolding macho_string_slots rewrite_slots
  macho_relocate buf original subs cellar new_prefix = macho_string_slots original >>= λ found.
      elim found [
        | none ↦ ok (buf, false)
        | some slots ↦ rewrite_slots subs cellar new_prefix original buf slots
      ]
