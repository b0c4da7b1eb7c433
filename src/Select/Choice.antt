-- ===== src/Select/Choice.antt =====
-- `select_bottle` takes a file that its host prefers most, and refuses only when none serves.
use zapbrew.Base.{
  ℕ, ◌+◌, ◌≤◌, ◌<◌, Text, ok, err, List, Option, none, some, Occurs, ◌∙◌, ◌≡◌, ◌≢◌, refl, inl, inr,
  arith, sym, ap,
}
use mathlib.Core.List.{reverse}
use native.Mathlib.Decide.{dec_lt}
use native.Mathlib.Nat.{le_of_eq}
use zapbrew.Types.Arch.{Arch}
use zapbrew.Types.MacOsVersion.{MacOsVersion, discriminant, all_versions}
use zapbrew.Types.BottleTag.{BottleTag, BottleFile, linux, mac_os, all, tag_eq}
use zapbrew.Types.BottleLaws.{tag_eq→eq, tag_eq_refl, arch_eq_refl}
use zapbrew.Select.{
  NetError, no_bottle, find_tag, select_older_macos, older_for, or_else, or_no_bottle,
  select_bottle,
}
use zapbrew.Select.Preference.{
  Chosen, preference, other_preference, find_tag-some, find_tag-none, older_loop-some,
  older_loop-none, all_versions-IsDescending, Occurs-all_versions, preference_le,
  other_preference_cases,
}

module _ (host : BottleTag) (files : List BottleFile) where
  -- The host prefers `f` at least as much as each file of the list.
  record IsBest (f : BottleFile) : Type 0 where
    pub level : ℕ
    pub listed : Occurs f files
    pub serves : preference host f.tag ≡ some level
    pub best :
        (g : BottleFile) (q : ℕ) → Occurs g files → preference host g.tag ≡ some q → q ≤ level

  IsBest-exact : (f : BottleFile) → find_tag files host ≡ some f → IsBest f
  unfolding preference
  IsBest-exact f h =
      let (m, e) = find_tag-some files host f h in
      record {
        level = 9;
        listed = m;
        serves = rw e (rw (tag_eq_refl host));
        best = λ g q _. preference_le host g.tag q;
      }

  -- Without a file for the host's own tag, the preferences are the others.
  preference_lacking :
      (g : BottleFile)
      → find_tag files host ≡ none
      → Occurs g files
      → preference host g.tag ≡ other_preference host g.tag
  unfolding preference
  preference_lacking g h m =
      let other = find_tag-none files host h g m in ground (arith, tag_eq→eq g.tag host)

abbrev arch_or : Arch → BottleTag → Arch
arch_or b (mac_os a v) = a
arch_or b _ = b

abbrev version_or : MacOsVersion → BottleTag → MacOsVersion
version_or w (mac_os a v) = v
version_or w _ = w

module _ {a b : Arch} {v w : MacOsVersion} where
  arch_of : mac_os a v ≡ mac_os b w → a ≡ b
  arch_of e = ap (arch_or a) e

  version_of : mac_os a v ≡ mac_os b w → v ≡ w
  version_of e = ap (version_or v) e

-- `serves` of a file for an older release, and of the universal bottle.
preference-older :
    (a : Arch) (v w : MacOsVersion)
    → discriminant w < discriminant v
    → preference (mac_os a v) (mac_os a w) ≡ some (discriminant w + 1)
unfolding preference tag_eq
preference-older a v w lt = ground (arith, arch_eq_refl a)

preference-all : (host : BottleTag) → host ≢ all → preference host all ≡ some 0
unfolding preference tag_eq
preference-all (linux a) h = refl
preference-all (mac_os a v) h = refl
preference-all all h = absurd (h refl)

IsBest-older :
    (a : Arch) (v : MacOsVersion) (files : List BottleFile) (f : BottleFile)
    → find_tag files (mac_os a v) ≡ none
    → select_older_macos files a v ≡ some f
    → IsBest (mac_os a v) files f
unfolding select_older_macos
IsBest-older a v files f exact h = record {
  level = discriminant c.version + 1;
  listed = c.listed;
  serves = rw (c.tagged) (preference-older a v c.version c.older);
  best = bound;
}
  where
    c : Chosen files a v (reverse all_versions) f
    c = older_loop-some files a v (reverse all_versions) f all_versions-IsDescending h

    bound :
        (g : BottleFile) (q : ℕ)
        → Occurs g files
        → preference (mac_os a v) g.tag ≡ some q
        → q ≤ discriminant c.version + 1
    bound g q m e =
        elim (other_preference_cases (mac_os a v) g.tag q
          (sym (preference_lacking (mac_os a v) files g exact m) ∙ e)) [
            | inl (universal, zero_level) ↦ omega arith
            | inr (a', v', w, host, tagged, lt, level) ↦
                elim (dec_lt (discriminant c.version) (discriminant w)) [
                  | yes newer ↦ absurd (
                      c.newest w (Occurs-all_versions w) newer (rw (← version_of host) at lt) g m
                        (rw (← arch_of host) at tagged))
                  | no not_newer ↦ omega arith
                ]
          ]

none_older :
    (host : BottleTag) (files : List BottleFile) (g : BottleFile) (q : ℕ)
    → find_tag files host ≡ none
    → older_for files host ≡ none
    → Occurs g files
    → preference host g.tag ≡ some q
    → (g.tag ≡ all) × (q ≡ 0)
unfolding select_older_macos
none_older host files g q exact older m p =
    elim (other_preference_cases host g.tag q (sym (preference_lacking host files g exact m) ∙ p)) [
      | inl universal ↦ universal
      | inr (a, v, w, host_is, tagged, lt, level) ↦ absurd (
          older_loop-none files a v (reverse all_versions) (rw host_is at older) w
            (Occurs-all_versions w) lt g m tagged)
    ]

IsBest-older_for :
    (host : BottleTag) (files : List BottleFile) (f : BottleFile)
    → find_tag files host ≡ none
    → older_for files host ≡ some f
    → IsBest host files f
IsBest-older_for (mac_os a v) files f exact h = IsBest-older a v files f exact h
IsBest-older_for (linux a) files f exact h = cc
IsBest-older_for all files f exact h = cc

IsBest-all :
    (host : BottleTag) (files : List BottleFile) (f : BottleFile)
    → find_tag files host ≡ none
    → older_for files host ≡ none
    → find_tag files all ≡ some f
    → IsBest host files f
unfolding select_older_macos
IsBest-all host files f exact older h =
    let (m, e) = find_tag-some files all f h in
    record {
      level = 0;
      listed = m;
      serves =
          rw e (preference-all host (λ same. find_tag-none files host exact f m (e ∙ sym same)));
      best = λ g q mg p. le_of_eq ((none_older host files g q exact older mg p).1);
    }

select-cases :
    (host : BottleTag) (name : Text) (files : List BottleFile) (f : BottleFile)
    → select_bottle host name files ≡ ok f
    → IsBest host files f
unfolding select_bottle
select-cases host name files f h =
    go (find_tag files host) (older_for files host) (find_tag files all) refl refl refl h
  where
    go :
        (x y z : Option BottleFile)
        → find_tag files host ≡ x
        → older_for files host ≡ y
        → find_tag files all ≡ z
        → or_no_bottle name host (or_else x (or_else y z)) ≡ ok f
        → IsBest host files f
    go (some g) y z ex ey ez k = IsBest-exact host files f (cc)
    go none (some g) z ex ey ez k = IsBest-older_for host files f ex (cc)
    go none none (some g) ex ey ez k = IsBest-all host files f ex ey (cc)
    go none none none ex ey ez k = cc

-- A file that `select_bottle` returns is one of the given files and serves the host: it has a
-- preference.
pub select_bottle-serves :
    (host : BottleTag) (name : Text) (files : List BottleFile) (f : BottleFile)
    → select_bottle host name files ≡ ok f
    → Occurs f files × ((p : ℕ) × (preference host f.tag ≡ some p))
select_bottle-serves host name files f h =
    let b = select-cases host name files f h in (b.listed, (b.level, b.serves))

-- No file of the list serves the host better than the one that `select_bottle` returns: the
-- host's own tag comes first, then older macOS releases of its architecture from the newest down,
-- then the universal bottle.
pub select_bottle-best :
    (host : BottleTag) (name : Text) (files : List BottleFile) (f g : BottleFile) (q : ℕ)
    → select_bottle host name files ≡ ok f
    → Occurs g files
    → preference host g.tag ≡ some q
    → (p : ℕ) × (preference host f.tag ≡ some p) × (q ≤ p)
select_bottle-best host name files f g q h m e =
    let b = select-cases host name files f h in (b.level, b.serves, b.best g q m e)

-- `select_bottle` refuses only with `NoBottle` for this formula and host, and only when no file of
-- the list serves the host.
pub select_bottle-refuses :
    (host : BottleTag) (name : Text) (files : List BottleFile) (e : NetError)
    → select_bottle host name files ≡ err e
    → (e ≡ no_bottle name host) × ((g : BottleFile) → Occurs g files → preference host g.tag ≡ none)
unfolding select_bottle
select_bottle-refuses host name files e h =
    go (find_tag files host) (older_for files host) (find_tag files all) refl refl refl h
  where
    go :
        (x y z : Option BottleFile)
        → find_tag files host ≡ x
        → older_for files host ≡ y
        → find_tag files all ≡ z
        → or_no_bottle name host (or_else x (or_else y z)) ≡ err e
        → (e ≡ no_bottle name host)
          × ((g : BottleFile) → Occurs g files → preference host g.tag ≡ none)
    go (some f) y z ex ey ez k = cc
    go none (some f) z ex ey ez k = cc
    go none none (some f) ex ey ez k = cc
    go none none none ex ey ez k = (cc, λ g m. no_preference g m (preference host g.tag) refl)
      where
        no_preference :
            (g : BottleFile)
            → Occurs g files
            → (o : Option ℕ) → preference host g.tag ≡ o
            → preference host g.tag ≡ none
        no_preference g m none p = p
        no_preference g m (some q) p =
            absurd (find_tag-none files all ez g m ((none_older host files g q ex ey m p).0))
