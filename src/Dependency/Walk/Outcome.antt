-- ===== src/Dependency/Walk/Outcome.antt =====
-- The theorems on `expand`: what it returns on an indexed catalog, and how it refuses.
use zapbrew.Base.{
  length, Text, List, [], ◌≡◌, refl, ap, Occurs, inl, inr, ◌⊎◌, arith, Distinct, Result, ok, err,
}
use zapbrew.Catalog.{Formula, index}
use zapbrew.Catalog.Index.{index-Indexed}
use zapbrew.Catalog.Agreement.{get-canonical}
use zapbrew.Types.BottleTag.{BottleTag, linux, mac_os}
use zapbrew.Dependency.{OpError, DependencyOptions, universal_not_host, validate_host}
use zapbrew.Dependency.Walk.{
  Traversal, start, visit_all, rounds, root_names, expand, expanded, ExpandedDependency,
}
use zapbrew.Dependency.Walk.Induction.{Good, lift-Good, bind-Good}
use zapbrew.Dependency.Walk.Visited.{visit_all-Good}
use zapbrew.Dependency.Walk.Steps.{map-Good}
use zapbrew.Dependency.Walk.Invariants.{Reach, Walked, Truthful, start-Walked, at_root, step}
use zapbrew.Dependency.Walk.Faults.{Walked-Invariant}
use zapbrew.Dependency.Walk.Expansion.{
  IsOwn, IsLost, root_names-Good, traced-Good, names_of, InOrder, Sorted-InOrder, expanded-Occurs,
  expanded-Distinct, expanded-InOrder,
}

pub ok-Good :
    {A : Type 0} (Q : A → Type 0) (E : OpError → Type 0) (m : Result OpError A) (a : A)
    → m ≡ ok a
    → Good Q E m
    → Q a
ok-Good Q E m a e h = let h' : Good Q E (ok a) = rw e at h in h'

pub err-Good :
    {A : Type 0} (Q : A → Type 0) (E : OpError → Type 0) (m : Result OpError A) (e : OpError)
    → m ≡ err e
    → Good Q E m
    → E e
err-Good Q E m a e h = let h' : Good Q E (err a) = rw e at h in h'

module _ (fs : List Formula) (o : DependencyOptions) where
  visit_all-Walked :
      (names : List Text)
      → ((x : Text) → Occurs x names → IsOwn (index fs) x)
      → Good
          (λ t. Walked (index fs) o names t × ((x : Text) → Occurs x names → Occurs x t.complete))
          (Truthful (index fs) o names)
          (visit_all (index fs) o names (rounds (index fs)) names start)
  visit_all-Walked names own =
      let whole = ap (λ (gs : List Formula). length gs) ((index-Indexed fs).formulae) in
      map-Good _ _ _ (visit_all (index fs) o names (rounds (index fs)) names start)
        (λ t (w, empty, more, all). (w, all))
        (visit_all-Good (index fs) o names (λ name f got. (get-canonical fs name f got).0)
          (Walked (index fs) o names) (Truthful (index fs) o names) (length fs)
          (Walked-Invariant fs o names) (rounds (index fs)) names start
          (λ x h. let (f, got, named) = own x h in (h, f, got, named))
          (start-Walked (index fs) o names) refl (omega (arith, whole)))

  -- How `expand` refuses: a host that is none, a requested name that the catalog does not have, or
  -- an error of the traversal from the roots that it found, which tells the truth.
  abbrev pub Refused : List Text → OpError → Type 0
  Refused requests e =
      ((o.target ≡ BottleTag.all) × (e ≡ universal_not_host))
      ⊎ IsLost (index fs) requests e
      ⊎ ((names : List Text) × (root_names (index fs) requests [] ≡ ok names)
          × Truthful (index fs) o names e)

  -- The traversal that `expand` ends with.
  abbrev pub Ends : List Text → List ExpandedDependency → Type 0
  Ends requests ds =
      (names : List Text) × (t : Traversal) × (root_names (index fs) requests [] ≡ ok names)
      × Walked (index fs) o names t
      × (ds ≡ expanded o t.merged t.order)
      × (visit_all (index fs) o names (rounds (index fs)) names start ≡ ok t)

  validate_host-Good :
      (target : BottleTag)
      → Good
          (λ _. Unit {0})
          (λ e. (target ≡ BottleTag.all) × (e ≡ universal_not_host))
          (validate_host target)
  unfolding validate_host
  validate_host-Good BottleTag.all = (refl, refl)
  validate_host-Good (linux arch) = tt
  validate_host-Good (mac_os arch version) = tt

  pub expand-Good :
      (requests : List Text)
      → Good (Ends requests) (Refused requests) (expand (index fs) requests o)
  unfolding expand
  expand-Good requests =
      bind-Good (λ _. Unit {0}) _ _ (validate_host o.target) _
        (lift-Good (λ _. Unit {0}) _ (Refused requests) (validate_host o.target) (λ e h. inl h)
          (validate_host-Good o.target))
        λ valid tt'.
          bind-Good _ _ _ (root_names (index fs) requests []) _
            (traced-Good _ _ (root_names (index fs) requests []) (
              lift-Good _ (IsLost (index fs) requests) (Refused requests)
                (root_names (index fs) requests []) (λ e h. inr (inl h))
                (root_names-Good fs requests [] λ x h. absurd h)))
            λ names (own, made).
              bind-Good _ _ _ (visit_all (index fs) o names (rounds (index fs)) names start) _
                (traced-Good _ _ (visit_all (index fs) o names (rounds (index fs)) names start) (
                  lift-Good _ (Truthful (index fs) o names) (Refused requests)
                    (visit_all (index fs) o names (rounds (index fs)) names start)
                    (λ e h. inr (inr (names, made, h))) (visit_all-Walked names own)))
                λ t ((w, all), walked). (names, t, made, w, refl, walked)

  -- `expand` of any requests on the catalog of any formulae refuses only for a good reason: the
  -- target is the universal tag, a requested name is in no formula of the catalog, a selected edge
  -- of a formula that the roots reach spells a name that is in none, a `uses_from_macos` of such a
  -- formula has, for a macOS target, a `since` that names no macOS release, or the reported names
  -- are a chain of selected edges that ends where it begins. It never runs out of rounds.
  pub expand-refuses :
      (requests : List Text) (e : OpError)
      → expand (index fs) requests o ≡ err e
      → Refused requests e
  expand-refuses requests e failed =
      err-Good (Ends requests) (Refused requests) (expand (index fs) requests o) e failed
        (expand-Good requests)

  -- In what `expand` returns no name stands twice, and each dependency stands before all that needs
  -- it.
  pub expand-InOrder :
      (requests : List Text) (ds : List ExpandedDependency)
      → expand (index fs) requests o ≡ ok ds
      → (names : List Text) × (root_names (index fs) requests [] ≡ ok names)
        × Distinct (names_of ds)
        × InOrder (index fs) o names (names_of ds)
  expand-InOrder requests ds done =
      let (names, t, made, w, e, walked) =
        ok-Good (Ends requests) (Refused requests) (expand (index fs) requests o) ds done
          (expand-Good requests) in
      let sorted =
        Sorted-InOrder (index fs) o names [] t.order w.sorted w.once
          (λ x a. (w.order_complete x a).1) (λ x a none'. none') in
      (
        names,
        made,
        rw e (expanded-Distinct o t.merged t.order w.once),
        rw e (expanded-InOrder o (index fs) names t.merged t.order sorted),
      )

  -- Each name that `expand` returns is reached from the roots over selected edges, and is no root.
  pub expand-Reach :
      (requests : List Text) (ds : List ExpandedDependency)
      → expand (index fs) requests o ≡ ok ds
      → (names : List Text) × (root_names (index fs) requests [] ≡ ok names)
        × ((x : Text) → Occurs x (names_of ds) → Reach (index fs) o names x × ¬ Occurs x names)
  expand-Reach requests ds done =
      let (names, t, made, w, e, walked) =
        ok-Good (Ends requests) (Refused requests) (expand (index fs) requests o) ds done
          (expand-Good requests) in
      (
        names,
        made,
        λ x a.
            let (held, no_root) =
              w.order_complete x (expanded-Occurs o x t.merged t.order (rw e at a)) in
            (w.reached x held, no_root),
      )

  -- The traversal from the roots of a request, when it ends well, has every name that the roots
  -- reach over selected edges in its order, the roots themselves excepted.
  pub visit_all-Reach :
      (requests names : List Text) (t : Traversal)
      → root_names (index fs) requests [] ≡ ok names
      → visit_all (index fs) o names (rounds (index fs)) names start ≡ ok t
      → (x : Text) → Reach (index fs) o names x
      → Occurs x names ⊎ Occurs x t.order
  visit_all-Reach requests names t made done x reach =
      let own =
        ok-Good (λ (ns : List Text). (y : Text) → Occurs y ns → IsOwn (index fs) y)
          (IsLost (index fs) requests) (root_names (index fs) requests []) names made
          (root_names-Good fs requests [] λ y h. absurd h) in
      let (w, all) =
        ok-Good
          (λ (u : Traversal).
            Walked (index fs) o names u × ((y : Text) → Occurs y names → Occurs y u.complete))
          (Truthful (index fs) o names)
          (visit_all (index fs) o names (rounds (index fs)) names start) t done
          (visit_all-Walked names own) in
      w.listed x (go w all x reach)
    where
      go :
          Walked (index fs) o names t
          → ((y : Text) → Occurs y names → Occurs y t.complete)
          → (y : Text) → Reach (index fs) o names y
          → Occurs y t.complete
      go w all y (at_root root) = all y root
      go w all y (step {p} {m} before needs) = w.closed p y (go w all p before) needs
