-- ===== src/Catalog/Tests.antt =====
-- Names looked up in a small catalog.
use zapbrew.Base.{Text, bytes, text_eq, List, [], ◌∷◌, none, some, ◌≡◌, refl, Occurs}
use zapbrew.Catalog.{
  Formula, index, index_from, insert_all, lookup, position_of, get, resolve, alias,
}
use zapbrew.Catalog.Agreement.{Agrees, get-canonical, resolve-Agrees}

abbrev plain : Text → List Text → List Text → Formula
plain name aliases oldnames = record {
  name = name;
  oldnames = oldnames;
  aliases = aliases;
  dependencies = [];
  uses_from_macos = [];
}

abbrev python : Formula
python = plain (bytes "python@3.13") (bytes "python3" ∷ []) (bytes "python" ∷ [])

abbrev some_formulae : List Formula
some_formulae = plain (bytes "wget") [] [] ∷ python ∷ []

by_alias : get (index some_formulae) (bytes "python3") ≡ some python
unfolding get lookup position_of index index_from insert_all text_eq
by_alias = refl

by_no_name : get (index some_formulae) (bytes "perl") ≡ none
unfolding get lookup position_of index index_from insert_all text_eq
by_no_name = refl

get-canonical_example :
    (get (index some_formulae) (bytes "python@3.13") ≡ some python) × Occurs python some_formulae
get-canonical_example = get-canonical some_formulae (bytes "python3") python by_alias

resolved :
    resolve (λ name. []) (index some_formulae) (bytes "python3") ≡ alias (bytes "python@3.13")
unfolding resolve lookup index index_from insert_all text_eq
resolved = refl

resolve-Agrees_example :
    Agrees
      (index some_formulae)
      (bytes "python3")
      (resolve (λ name. []) (index some_formulae) (bytes "python3"))
resolve-Agrees_example = resolve-Agrees (λ name. []) some_formulae (bytes "python3")
