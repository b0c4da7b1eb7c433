-- ===== src/Lib.antt =====
-- Zapbrew is a Homebrew-compatible package manager in Rust: a workspace of crates under crates/.
-- zapbrew-types has the value types, zapbrew-api the signed catalogs of formulae and casks,
-- zapbrew-prefix the layout on disk, zapbrew-net the choice and the download of bottles,
-- zapbrew-pour their extraction, zapbrew-ops the operations, with dependency expansion under them,
-- and zapbrew-cli the commands. This library models the pure core that an installation runs
-- through: names, tags and versions are parsed and compared, a requested name is looked up in the
-- catalog, its dependencies are expanded over the formulae of that catalog for the host's bottle
-- tag, a bottle is selected for each of them, and the files of a poured bottle are rewritten from
-- the build placeholders to the prefix. What nothing needs any more is found by `autoremove`.
--
-- Which file models what:
--   * Types: crates/zapbrew-types/src. Types/Arch, Types/MacOsVersion and Types/BottleTag are
--     bottle.rs (the enums with their spellings and parsers, `from_product_version`, `from_host`);
--     Types/FormulaName is name.rs, Types/Checksum is checksum.rs, Types/Error is error.rs. The
--     laws are in Types/BottleLaws and Types/NameParts.
--   * Version: crates/zapbrew-types/src/version.rs. Version/Patterns and Version/Tokens are the
--     scan into tokens, Version/Canonical is `normalize_tokens`, `canonical_tokens` and
--     `cmp_canonical`, Version itself has `Version` with `parse`, `cmp` and the input of `hash`,
--     and Version/Package is `PkgVersion`. Proofs: Version/Digits, TokenOrder, Order, Equality,
--     Zeros, PackageText.
--   * Select: crates/zapbrew-net/src/select.rs, `select_bottle`. Select/Preference is an
--     independent description of which tags serve a host and how well; Select/Choice has the
--     proofs.
--   * Catalog: crates/zapbrew-api/src/catalog.rs, `Catalog` with `index`, `get` and `resolve`, over
--     the fields of `Formula` in model.rs that they and the expansion read. Proofs: Catalog/Index
--     (what `index` establishes) and Catalog/Agreement.
--   * Dependency: crates/zapbrew-ops/src/dependency.rs. Dependency has `EdgeFilter`, `MergedTags`
--     and `edges`; Dependency/Walk has `Traversal::visit` and `expand`. Proofs, under
--     Dependency/Walk: Induction, Steps and Visited (an induction over `visit` for any invariant),
--     Bounds (the errors of `edges`), Chains (cycles), Invariants, Leaving and Faults (the
--     invariant of the traversal), Expansion, Outcome and Complete. Dependency/Uses has
--     `collect_reachable`, `formula_reaches_all` and `uses`, with the proofs in Reached, Answer and
--     Queries under it.
--   * Relocate: crates/zapbrew-pour/src/relocate.rs, the plan for one file of a poured keg.
--     Relocate/Bytes has the reads and writes of numbers in a buffer, Relocate/Replace the
--     substitution of placeholders in texts and in the NUL slots of a binary, Relocate/Elf the
--     ELF64 headers and the protected regions, Relocate/Append the growing of a file behind its
--     end, Relocate/Runpath, Relocate/Dynamic and Relocate/Rewrite the runpath and the interpreter,
--     Relocate/Macho the load commands of Mach-O images, Relocate/Plan `placeholder_subs`,
--     `relocate_binary` and `plan_file`, Relocate/Relative `relative_path_from`. Proofs: BytesLaws,
--     Rounding, Pieces, Filling and Writes (the buffer); Scans, Padding, Protected and Slots
--     (substitution); Headers, Appended, NewHeader, GrowWith, NewLoad, Lengths and Growth (ELF);
--     MachoTable, MachoRound and MachoRewrite; GccLib and Segments (the runpath); Outcome (the
--     plan); PushedPaths, FollowedPaths and RelativeLaws (relative paths).
--   * Autoremove: crates/zapbrew-ops/src/autoremove.rs, `fixpoint`, with `dependents_of` of
--     state.rs over the installed formulae. Autoremove/Rounds has the measure of its loop,
--     Autoremove/Fixpoint what it ends with.
--   * Base: what all of them share: Boolean tests, lists, orders, texts of bytes, decimals,
--     results.
--
-- Conventions. A `String` is the list of its bytes. A `HashMap` is an association list of which the
-- first entry for a key counts, a `HashSet` a list of its elements. Code that returns a `Result`
-- does so here, with the payload of its errors. A method on `&mut self` takes the state and returns
-- it; a buffer that is changed in place is dropped on an error, as its callers do. A `usize` has 64
-- bits.
--
-- Fuel. The scan of a version has a round for each byte of the text. `Traversal::visit` recurses on
-- fuel: `expand` gives two rounds more than there are formulae, and the names on the stack are
-- distinct names of formulae, so the rounds do not run out; `collect_reachable` gets the same, and
-- each round marks a name more. `replace_all` has a round for each byte of its input and one more,
-- and the fixpoint of autoremove one more than there are installed formulae. `out_of_fuel` is an
-- error of the model alone.
--
-- Parameters. The regular expressions of version.rs are run by the regex crate; Version/Patterns
-- takes the matcher as a record with the law of it that the code relies on. `Catalog::suggestions`
-- scores with the jaro_winkler crate and is a parameter of `resolve`. In Relocate the parameters
-- are `lossy`, for `String::from_utf8_lossy`, and `object_format`, for the parser of the object
-- crate.
--
-- Not modelled: the detection of versions from URLs (a table of regular expressions), the reading
-- of JSON, network and signatures, casks (with `uses_with_casks`), the rendering of `tree`, and the
-- operations whose content is I/O: transactions on the prefix, linking, extraction, services, taps
-- and reports. Of relocate.rs: the walk over the keg, the atomic writes and codesign.
mod Base
pub mod Types
pub mod Version
pub mod Select
pub mod Catalog
pub mod Dependency
pub mod Relocate
pub mod Autoremove
