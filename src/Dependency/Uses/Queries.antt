-- ===== src/Dependency/Uses/Queries.antt =====
-- What a recursive `formula_reaches_all` answers, and how it refuses.
use zapbrew.Base.{
  length, Text, text_eq, text_eq_refl, Bool, true, List, [], ◌∷◌, some, ◌≡◌, refl, ap, sym, Occurs,
  inl, inr, Bool-cases, arith, ok, err, all, ◌↔◌,
}
use zapbrew.Catalog.{Formula, get, index}
use zapbrew.Catalog.Index.{index-Indexed}
use zapbrew.Dependency.{OpError}
use zapbrew.Dependency.Uses.{
  UsesOptions, Marks, collect_reachable, reached_from, formula_reaches_all,
}
use zapbrew.Dependency.Uses.Reached.{graph_of, Beyond, Truth, Marked, Closed, Grows}
use zapbrew.Dependency.Uses.Answer.{collect_reachable-Good}
use zapbrew.Dependency.Walk.{contains, rounds}
use zapbrew.Dependency.Walk.Induction.{Good, bind-Good, contains→Occurs}
use zapbrew.Dependency.Walk.Invariants.{Reach, at_root, step}
use zapbrew.Dependency.Walk.Outcome.{ok-Good, err-Good}

Occurs→contains : (set : List Text) (x : Text) → Occurs x set → contains set x ≡ true
Occurs→contains [] x h = absurd h
Occurs→contains (y ∷ set) x (inl same) =
    let hit : text_eq y x ≡ true = rw same (text_eq_refl y) in rw hit refl
Occurs→contains (y ∷ set) x (inr h) = elim (Bool-cases (text_eq y x)) [
  | inl hit ↦ rw hit refl
  | inr miss ↦ rw miss (Occurs→contains set x h)
]

all-contains→Occurs :
    (set xs : List Text) → all (contains set) xs ≡ true → (x : Text) → Occurs x xs → Occurs x set
all-contains→Occurs set [] e x h = absurd h
all-contains→Occurs set (y ∷ xs) e x (inl same) = rw same (contains→Occurs set y (ground arith))
all-contains→Occurs set (y ∷ xs) e x (inr there) = all-contains→Occurs set xs (ground arith) x there

Occurs→all-contains :
    (set xs : List Text) → ((x : Text) → Occurs x xs → Occurs x set) → all (contains set) xs ≡ true
Occurs→all-contains set [] h = refl
Occurs→all-contains set (y ∷ xs) h =
    let here = Occurs→contains set y (h y (inl refl)) in
    let rest = Occurs→all-contains set xs (λ x there. h x (inr there)) in rw (here, rest) refl

module _ (fs : List Formula) (options : UsesOptions) (current : Formula) where
  -- The reached names are those that the formula reaches over an edge.
  abbrev Collected : List Text → Type 0
  Collected reached = (x : Text) → Occurs x reached ↔ Beyond fs options current.name x

  abbrev begin : Marks
  begin = record { visited = current.name ∷ []; reached = [] }

  collected :
      (s : Marks)
      → Marked fs options current.name s
      → Grows fs options current.name begin s
      → Closed fs options current.name current.name s
      → Collected s.reached
  collected s w (v, r, n) closed x =
      (w.sound x, λ (p, before, needs). closes p (visits p before) x needs)
    where
      closes : (p : Text) → Occurs p s.visited → Closed fs options current.name p s
      closes p h = elim (n p h) [
        | inl (inl same) ↦ rw same closed
        | inl (inr nowhere) ↦ absurd nowhere
        | inr new ↦ new
      ]

      visits :
          (p : Text)
          → Reach (index fs) (graph_of options) (current.name ∷ []) p
          → Occurs p s.visited
      visits p (at_root (inl same)) = rw same w.rooted
      visits p (at_root (inr nowhere)) = absurd nowhere
      visits x' (step {p} {m} before needs) = w.inside x' (closes p (visits p before) x' needs)

  begin-Marked : get (index fs) current.name ≡ some current → Marked fs options current.name begin
  begin-Marked own = record {
    distinct = (λ h. h, tt);
    known = λ x h. elim h [
      | inl same ↦ (current, rw same own, sym same)
      | inr nowhere ↦ absurd nowhere
    ];
    inside = λ x h. absurd h;
    rooted = inl refl;
    sound = λ x h. absurd h;
  }

  reached_from-Good :
      get (index fs) current.name ≡ some current
      → Good Collected
          (Truth fs options current.name)
          (reached_from (index fs) options current true)
  reached_from-Good own =
      let whole = ap (λ (gs : List Formula). length gs) ((index-Indexed fs).formulae) in
      bind-Good _ _ _ (collect_reachable (index fs) options (rounds (index fs)) true current begin)
        _
        (collect_reachable-Good fs options current.name (rounds (index fs)) true current begin own
          (rw (text_eq_refl current.name) refl) (at_root (inl refl)) (begin-Marked own)
          (omega (arith, whole)))
        λ s (w, g, closed). collected s w g closed

  answer-Good :
      (sought : List Text)
      → get (index fs) current.name ≡ some current
      → options.recursive ≡ true
      → Good
          (λ b. (b ≡ true) ↔ ((x : Text) → Occurs x sought → Beyond fs options current.name x))
          (Truth fs options current.name)
          (formula_reaches_all (index fs) options current sought)
  unfolding formula_reaches_all
  answer-Good sought own recursive = rw recursive (
      bind-Good Collected _ _ (reached_from (index fs) options current true) _
        (reached_from-Good own)
        λ reached iff. (
          λ e x h. (iff x).0 (all-contains→Occurs reached sought e x h),
          λ h. Occurs→all-contains reached sought λ x a. (iff x).1 (h x a),
        ))

  -- A recursive query for a formula of an indexed catalog answers that the formula reaches all the
  -- sought names exactly when it reaches each of them over at least one selected edge.
  pub formula_reaches_all-Beyond :
      (sought : List Text) (b : Bool)
      → get (index fs) current.name ≡ some current
      → options.recursive ≡ true
      → formula_reaches_all (index fs) options current sought ≡ ok b
      → (b ≡ true) ↔ ((x : Text) → Occurs x sought → Beyond fs options current.name x)
  formula_reaches_all-Beyond sought b own recursive done =
      ok-Good
        (λ (b : Bool).
          (b ≡ true) ↔ ((x : Text) → Occurs x sought → Beyond fs options current.name x))
        (Truth fs options current.name) (formula_reaches_all (index fs) options current sought) b
        done (answer-Good sought own recursive)

  -- A recursive query for a formula of an indexed catalog refuses only because a selected edge of a
  -- formula that it reaches, itself included, spells a name that is in no formula of the catalog, or
  -- because a `uses_from_macos` of such a formula cannot be judged: the host is the universal tag,
  -- or it is macOS and the `since` names no macOS release. It never refuses a cycle and never runs
  -- out of rounds.
  pub formula_reaches_all-refuses :
      (sought : List Text) (e : OpError)
      → get (index fs) current.name ≡ some current
      → options.recursive ≡ true
      → formula_reaches_all (index fs) options current sought ≡ err e
      → Truth fs options current.name e
  formula_reaches_all-refuses sought e own recursive failed =
      err-Good
        (λ (b : Bool).
          (b ≡ true) ↔ ((x : Text) → Occurs x sought → Beyond fs options current.name x))
        (Truth fs options current.name) (formula_reaches_all (index fs) options current sought) e
        failed (answer-Good sought own recursive)
