-- ===== src/Relocate/Tests.antt =====
-- Witnesses for the theorems on relocate.rs, on small files.
use zapbrew.Base.{
  ℕ, ◌+◌, ◌<◌, ◌≤◌, ◌*◌, ◌%◌, Text, text_eq, bytes, Bool, true, false, List, [], ◌∷◌, ◌++◌, Option,
  none, some, if◌then◌else◌, is_empty, length, take, drop, get_elem?, ok, Distinct, Occurs, split,
  ◌≡◌, ◌↔◌, refl, arith, ◌⊎◌, inl,
}
use zapbrew.Relocate.Bytes.{rd_uint, write_uint, round_up, u64_mod}
use zapbrew.Relocate.BytesLaws.{rd_uint-write_uint}
use zapbrew.Relocate.Replace.{Subs, Range, replace_all, binary_nul_pad}
use zapbrew.Relocate.Scans.{Scans, replace_all-Scans, Unmatched, replace_all-unchanged}
use zapbrew.Relocate.Slots.{length-binary_nul_pad, get_elem-binary_nul_pad}
use zapbrew.Relocate.Rounding.{round_up_least}
use zapbrew.Relocate.Elf.{Phdr64, decode_elf64, ehdr_min_len}
use zapbrew.Relocate.Headers.{Table, decode_elf64-Placed}
use zapbrew.Relocate.Macho.{macho_string_slots, macho_relocate, thin_macho_header}
use zapbrew.Relocate.MachoTable.{InOrder, macho_string_slots-InOrder}
use zapbrew.Relocate.MachoRewrite.{Slots, Clear, macho_relocate-Slots}
use zapbrew.Relocate.Segments.{Shown, runpath_segments-Distinct}
use zapbrew.Relocate.Runpath.{runpath_segments}
use zapbrew.Relocate.Plan.{BinaryFormat, mach_o, is_elf, Target, is_mach_o_image, relocate_binary}
use zapbrew.Relocate.Outcome.{SameFormat, relocate_binary-SameFormat}

abbrev subs : Subs
subs = (bytes "@@P@@", bytes "/p") ∷ []

abbrev content : Text
content = bytes "a@@P@@/b" ++ (0 ∷ (bytes "@@P@@" ++ (0 ∷ 7 ∷ [])))

abbrev protected : List Range
protected = (9, 14) ∷ []

abbrev padded : Text
padded = bytes "a/p/b" ++ (0 ∷ 0 ∷ 0 ∷ 0 ∷ (bytes "@@P@@" ++ (0 ∷ 7 ∷ [])))

generic_pass : binary_nul_pad content subs protected (bytes "f") ≡ ok (padded, true)
unfolding binary_nul_pad
generic_pass = refl

length-binary_nul_pad_example : (length padded ≡ length content) × (true ≡ false → padded ≡ content)
length-binary_nul_pad_example =
    length-binary_nul_pad content subs protected (bytes "f") padded true generic_pass

get_elem-binary_nul_pad_example : get_elem? padded 10 ≡ get_elem? content 10
get_elem-binary_nul_pad_example =
    get_elem-binary_nul_pad content subs protected (bytes "f") padded true 10 9 14 generic_pass
      (omega arith) (inl refl) (omega arith) (omega arith)

replace_all-Scans_example :
    Scans subs content (replace_all content subs).0 (replace_all content subs).1
replace_all-Scans_example = replace_all-Scans content subs

replace_all-unchanged_example :
    (((replace_all content subs).1 ≡ false) ↔ Unmatched subs content)
    × ((replace_all content subs).1 ≡ false → (replace_all content subs).0 ≡ content)
replace_all-unchanged_example = replace_all-unchanged content subs

abbrev eight : Text
eight = 1 ∷ 2 ∷ 3 ∷ 4 ∷ 5 ∷ 6 ∷ 7 ∷ 8 ∷ []

abbrev changed_eight : Text
changed_eight = 1 ∷ 2 ∷ 3 ∷ 1 ∷ 0 ∷ 6 ∷ 7 ∷ 8 ∷ []

written_eight : write_uint 2 eight 3 false 256 ≡ ok changed_eight
unfolding write_uint
written_eight = refl

rd_uint-write_uint_example : rd_uint 2 changed_eight 3 false ≡ some 256
rd_uint-write_uint_example =
    rd_uint-write_uint 2 eight 3 false 256 changed_eight (omega arith) written_eight

round_up_least_example :
    ((r : ℕ) → round_up 120 16 ≡ some r → (120 ≤ r) × (r < 120 + 16) × (r % 16 ≡ 0) × (r < u64_mod))
    × ((round_up 120 16 ≡ none) ↔ ((k : ℕ) → 120 ≤ k * 16 → u64_mod ≤ k * 16))
round_up_least_example = round_up_least 120 16 (omega arith)

-- A number below 256 in eight bytes, the lowest first.
abbrev word : ℕ → Text
word v = v ∷ 0 ∷ 0 ∷ 0 ∷ 0 ∷ 0 ∷ 0 ∷ 0 ∷ []

-- An ELF64 image of 120 bytes with one load segment over all of it.
abbrev image : ℕ → Text
image size =
    (0x7f ∷ bytes "ELF")
    ++ (2 ∷ 1 ∷ 0 ∷ 0 ∷ word 0)
    ++ (word 0 ++ word 0)
    ++ (word 64 ++ word 0 ++ (0 ∷ 0 ∷ 0 ∷ 0 ∷ 0 ∷ 0 ∷ 56 ∷ 0 ∷ word 1))
    ++ ((1 ∷ 0 ∷ 0 ∷ 0 ∷ 5 ∷ 0 ∷ 0 ∷ 0 ∷ word 0)
        ++ (word 32 ++ word 32)
        ++ (word size ++ word size ++ word 16))

abbrev load : ℕ → Phdr64
load size = record {
  header_offset = 64;
  p_type = 1;
  p_offset = 0;
  p_vaddr = 32;
  p_filesz = size;
  p_memsz = size;
  p_align = 16;
}

decoded_image : decode_elf64 (image 120) ≡ some (true, load 120 ∷ [])
unfolding decode_elf64
decoded_image = refl

decode_elf64-Placed_example :
    Table (image 120) true (load 120 ∷ []) × (ehdr_min_len ≤ length (image 120))
decode_elf64-Placed_example = decode_elf64-Placed (image 120) true (load 120 ∷ []) decoded_image

abbrev grown_image : Text
grown_image = image 131 ++ (word 0 ++ bytes "abc")

-- A thin 64-bit Mach-O image with one `LC_RPATH` command of 28 bytes.
abbrev dylib : Text → Text
dylib path =
    (0xcf ∷ 0xfa ∷ 0xed ∷ 0xfe ∷ 0 ∷ 0 ∷ 0 ∷ 0 ∷ word 0)
    ++ (1 ∷ 0 ∷ 0 ∷ 0 ∷ 28 ∷ 0 ∷ 0 ∷ 0 ∷ word 0)
    ++ ((0x1c ∷ 0 ∷ 0 ∷ 0x80 ∷ 28 ∷ 0 ∷ 0 ∷ 0 ∷ 12 ∷ 0 ∷ 0 ∷ 0 ∷ path) ++ (7 ∷ []))

abbrev old_dylib : Text
old_dylib = dylib (bytes "@@P@@/lib" ++ (0 ∷ 0 ∷ 0 ∷ 0 ∷ 0 ∷ 0 ∷ 0 ∷ []))

abbrev new_dylib : Text
new_dylib = dylib (bytes "/p/lib" ++ (0 ∷ 0 ∷ 0 ∷ 0 ∷ 0 ∷ 0 ∷ 0 ∷ 0 ∷ 0 ∷ 0 ∷ []))

abbrev slots : List Range
slots = (44, 60) ∷ []

slots_found : macho_string_slots old_dylib ≡ ok (some slots)
unfolding macho_string_slots
slots_found = refl

macho_string_slots-InOrder_example :
    (little : Bool) × (header_len : ℕ) × (thin_macho_header old_dylib ≡ some (little, header_len))
    × InOrder header_len (length old_dylib) slots
macho_string_slots-InOrder_example = macho_string_slots-InOrder old_dylib slots slots_found

abbrev plain : Text → Text
plain s = s

relocated_dylib :
    macho_relocate plain old_dylib old_dylib subs (bytes "/p/Cellar") (bytes "/p")
    ≡ ok (new_dylib, true)
unfolding macho_relocate text_eq
relocated_dylib = refl

macho_relocate-Slots_example :
    (length new_dylib ≡ length old_dylib)
    × Slots plain subs (bytes "/p/Cellar") (bytes "/p") old_dylib slots old_dylib new_dylib
    × ((i n : ℕ)
        → Clear plain subs (bytes "/p/Cellar") (bytes "/p") old_dylib i n slots
        → take n (drop i new_dylib) ≡ take n (drop i old_dylib))
macho_relocate-Slots_example =
    macho_relocate-Slots plain subs (bytes "/p/Cellar") (bytes "/p") old_dylib new_dylib slots true
      slots_found relocated_dylib

abbrev format_of : Text → Option BinaryFormat
format_of s = if is_empty s then none else some mach_o

abbrev target : Target
target = record {
  subs = subs;
  new_prefix = bytes "/p";
  cellar = bytes "/p/Cellar";
  is_glibc = false;
  is_gcc = false;
  ld_so_readable = false;
}

relocated_binary :
    relocate_binary plain format_of target old_dylib (bytes "f") ≡ ok (some (new_dylib, true))
unfolding relocate_binary
relocated_binary = refl

relocate_binary-SameFormat_example :
    (length old_dylib ≤ length new_dylib)
    × (is_elf (format_of old_dylib) ≡ false → length new_dylib ≡ length old_dylib)
    × SameFormat plain format_of new_dylib (format_of old_dylib)
    × (true ≡ is_mach_o_image plain format_of (format_of old_dylib) old_dylib)
relocate_binary-SameFormat_example =
    relocate_binary-SameFormat plain format_of target old_dylib (bytes "f") new_dylib true
      relocated_binary

abbrev runpath : Text
runpath = bytes "/p/lib/gcc/13:/usr/lib:$ORIGIN/../lib:/p/lib/gcc/14"

segments_of_runpath :
    runpath_segments runpath (bytes "/p") (bytes "/p/Cellar") false
    ≡ bytes "/p/lib/gcc/current" ∷ bytes "$ORIGIN/../lib" ∷ bytes "/p/lib" ∷ []
unfolding runpath_segments
segments_of_runpath = refl

runpath_segments-Distinct_example :
    Distinct (runpath_segments runpath (bytes "/p") (bytes "/p/Cellar") false)
    × ((s : Text)
        → Occurs s (runpath_segments runpath (bytes "/p") (bytes "/p/Cellar") false) ↔ (
            Shown (bytes "/p") (bytes "/p/Cellar") false s (split b':' runpath)
            ⊎ (s ≡ bytes "/p" ++ bytes "/lib")))
runpath_segments-Distinct_example =
    runpath_segments-Distinct runpath (bytes "/p") (bytes "/p/Cellar") false
