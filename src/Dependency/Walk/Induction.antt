-- ===== src/Dependency/Walk/Induction.antt =====
-- An induction over `Traversal::visit`: an invariant of the traversal that noting an edge, entering
-- a formula and leaving it keep holds of all that a visit returns.
use zapbrew.Base.{
  ℕ, ◌≤◌, Text, text_eq, text_eq→eq, text_eq_refl, Bool, true, false, if◌then◌else◌, List, [], ◌∷◌,
  ◌++◌, none, some, length, Result, ok, err, ◌>>=◌, ◌≡◌, refl, ap, sym, arith, Occurs, inl, inr,
  ◌⊎◌, Bool-cases,
}
use zapbrew.Catalog.{Formula, Catalog, lookup, get}
use zapbrew.Dependency.{
  OpError, missing_formula, dependency_cycle, includes, DependencyOptions, MergedTags, Edge, edges,
}
use zapbrew.Dependency.Walk.{Traversal, contains, cycle_from, pop, noted, entered, left}

-- All outcomes: `Q` of a value, `E` of an error.
abbrev pub Good : {A : Type 0} → (A → Type 0) → (OpError → Type 0) → Result OpError A → Type 0
Good Q E (ok a) = Q a
Good Q E (err e) = E e

pub bind-Good :
    {A B : Type 0} (Q : A → Type 0) (R : B → Type 0) (E : OpError → Type 0) (m : Result OpError A)
    (k : A → Result OpError B)
    → Good Q E m
    → ((a : A) → Q a → Good R E (k a))
    → Good R E (m >>= k)
bind-Good Q R E (ok a) k h hk = hk a h
bind-Good Q R E (err e) k h hk = h

pub lift-Good :
    {A : Type 0} (Q : A → Type 0) (E F : OpError → Type 0) (m : Result OpError A)
    → ((e : OpError) → E e → F e)
    → Good Q E m
    → Good Q F m
lift-Good Q E F (ok a) h q = q
lift-Good Q E F (err e) h q = h e q

pub either-Good :
    {A : Type 0} (Q : A → Type 0) (E : OpError → Type 0) (b : Bool) (m n : Result OpError A)
    → Good Q E m
    → Good Q E n
    → Good Q E (if b then m else n)
either-Good Q E true m n hm hn = hm
either-Good Q E false m n hm hn = hn

pub contains→Occurs : (set : List Text) (name : Text) → contains set name ≡ true → Occurs name set
contains→Occurs [] name e = ground arith
contains→Occurs (x ∷ set) name e = elim (Bool-cases (text_eq x name)) [
  | inl same ↦ inl (sym (text_eq→eq x name same))
  | inr other ↦ inr (contains→Occurs set name (rw other at e))
]

pub contains-fresh : (set : List Text) (name : Text) → contains set name ≡ false → ¬ Occurs name set
contains-fresh [] name e h = h
contains-fresh (x ∷ set) name e (inl same) =
    let hit : text_eq x name ≡ true = rw same (text_eq_refl x) in ground arith
contains-fresh (x ∷ set) name e (inr h) = elim (Bool-cases (text_eq x name)) [
  | inl hit ↦ ground arith
  | inr miss ↦ contains-fresh set name (rw miss at e) h
]

pub pop-append : (xs : List Text) (x : Text) → pop (xs ++ x ∷ []) ≡ xs
unfolding pop
pop-append [] x = refl
pop-append (y ∷ []) x = refl
pop-append (y ∷ z ∷ xs) x = ap (λ (r : List Text). y ∷ r) (pop-append (z ∷ xs) x)

-- The formula named `p` has an edge, selected by the filter, to the formula named `m`.
pub record Needs (c : Catalog) (o : DependencyOptions) (roots : List Text) (p m : Text)
    : Type 0 where
  pub parent : Formula
  pub found : get c p ≡ some parent
  pub all : List Edge
  pub made : edges parent o.target ≡ ok all
  pub edge : Edge
  pub among : Occurs edge all
  pub selected : includes o.filter edge.tags (contains roots p) ≡ true
  pub dependency : Formula
  pub target : get c edge.name ≡ some dependency
  pub named : dependency.name ≡ m

-- The formula named `p` has an edge, selected by the filter, that spells the name.
pub record Asks (c : Catalog) (o : DependencyOptions) (roots : List Text) (p name : Text)
    : Type 0 where
  pub parent : Formula
  pub found : get c p ≡ some parent
  pub all : List Edge
  pub made : edges parent o.target ≡ ok all
  pub edge : Edge
  pub among : Occurs edge all
  pub selected : includes o.filter edge.tags (contains roots p) ≡ true
  pub spelled : edge.name ≡ name

module _ (c : Catalog) (o : DependencyOptions) (roots : List Text) where
  -- Why a name is visited: it is a root, or the formula on top of the stack needs it.
  abbrev pub Ready : Traversal → Text → Type 0
  Ready t name =
      ((t.active ≡ []) × Occurs name roots)
      ⊎ ((before : List Text) × (p : Text) × (t.active ≡ before ++ p ∷ [])
          × Needs c o roots p name
          × (m : MergedTags) × (lookup name t.merged ≡ some m))

  pub record Invariant (P : Traversal → Type 0) (E : OpError → Type 0) (n : ℕ) : Type 0 where
    pub room : (t : Traversal) → P t → length t.active ≤ n
    pub lost :
        (t : Traversal) (f : Formula) (before : List Text) (name : Text)
        → P t
        → t.active ≡ before ++ f.name ∷ []
        → Asks c o roots f.name name
        → get c name ≡ none
        → E (missing_formula name)
    pub bad :
        (t : Traversal) (f : Formula) (e : OpError)
        → P t
        → Ready t f.name
        → get c f.name ≡ some f
        → edges f o.target ≡ err e
        → E e
    pub circle :
        (t : Traversal) (name : Text) (cycle : List Text)
        → P t
        → Ready t name
        → cycle_from name t.active ≡ some cycle
        → E (dependency_cycle (cycle ++ name ∷ []))
    pub noting : (t : Traversal) (name : Text) (edge : Edge) → P t → P (noted name edge.tags t)
    pub entering :
        (t : Traversal) (f : Formula)
        → P t
        → Ready t f.name
        → get c f.name ≡ some f
        → cycle_from f.name t.active ≡ none
        → contains t.complete f.name ≡ false
        → P (entered f.name t)
    pub leaving :
        (t : Traversal) (f : Formula) (before : List Text)
        → P t
        → t.active ≡ before ++ f.name ∷ []
        → ((m : Text) → Needs c o roots f.name m → Occurs m t.complete)
        → P (left (contains roots f.name) f.name t)

  -- What a visit does to the stack and to the set of what is complete.
  abbrev pub Follows : Traversal → Traversal → Type 0
  Follows t t' = (t'.active ≡ t.active) × ((x : Text) → Occurs x t.complete → Occurs x t'.complete)
