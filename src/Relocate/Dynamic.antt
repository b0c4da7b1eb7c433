-- ===== src/Relocate/Dynamic.antt =====
-- relocate.rs: the scan of the dynamic section for the string table and the runpath.
use zapbrew.Base.{
  ℕ, zero, suc, ◌+◌, ◌*◌, Text, bytes, Bool, false, ◌&&◌, not, Option, none, some, if◌then◌else◌,
  ◌==◌, Result, ok, ok_or, ◌>>=◌,
}
use zapbrew.Relocate.Bytes.{checked_add, rd_uint, rd_u64}
use zapbrew.Relocate.Elf.{dt_null, dt_strtab, dt_strsz, dt_rpath, dt_runpath, dyn64_len}

-- What the loop over the dynamic entries has seen: values, and where each stands.
pub record Dynamic : Type 0 where
  pub strtab_vaddr : Option ℕ
  pub strtab_value_offset : Option ℕ
  pub strsz : Option ℕ
  pub strsz_value_offset : Option ℕ
  pub runpath_value : Option ℕ
  pub runpath_value_offset : Option ℕ
  pub runpath_tag : Option ℕ

abbrev pub nothing_seen : Dynamic
nothing_seen = record {
  strtab_vaddr = none;
  strtab_value_offset = none;
  strsz = none;
  strsz_value_offset = none;
  runpath_value = none;
  runpath_value_offset = none;
  runpath_tag = none;
}

abbrev pub see_strtab : Option ℕ → ℕ → Dynamic → Dynamic
see_strtab value at d = record d { strtab_vaddr = value; strtab_value_offset = some at }

abbrev pub see_strsz : Option ℕ → ℕ → Dynamic → Dynamic
see_strsz value at d = record d { strsz = value; strsz_value_offset = some at }

abbrev pub see_runpath : Option ℕ → ℕ → ℕ → Dynamic → Dynamic
see_runpath value at tag d = record d {
  runpath_value = value;
  runpath_value_offset = some at;
  runpath_tag = some tag;
}

abbrev pub is_tag : ℕ → Option ℕ → Bool
is_tag t none = false
is_tag t (some tag) = tag == t

-- One entry that is not the end: `DT_RUNPATH` wins over a `DT_RPATH` before or behind it.
unfoldable pub see_entry : ℕ → Option ℕ → ℕ → Dynamic → Dynamic
see_entry tag value at d =
    if tag == dt_strtab
    then see_strtab value at d
    else if tag == dt_strsz
    then see_strsz value at d
    else if tag == dt_runpath
    then see_runpath value at dt_runpath d
    else if (tag == dt_rpath) && not (is_tag dt_runpath d.runpath_tag)
    then see_runpath value at dt_rpath d
    else d

abbrev pub truncated : Text
truncated = bytes "dynamic entry truncated"

-- The loop over the entries from `index` on, by the rounds left.
unfoldable pub scan_dynamic : Text → Bool → ℕ → ℕ → ℕ → Dynamic → Result Text Dynamic
unfolding checked_add rd_uint see_entry
scan_dynamic buf little dyn_offset index zero d = ok d
scan_dynamic buf little dyn_offset index (suc more) d =
    let later = scan_dynamic buf little dyn_offset (suc index) more in
    ok_or (checked_add dyn_offset (index * dyn64_len)) truncated >>= λ entry.
    ok_or (rd_u64 buf entry little) truncated >>= λ tag.
    if tag == dt_null
    then ok d
    else later (see_entry tag (rd_u64 buf (entry + 8) little) (entry + 8) d)
