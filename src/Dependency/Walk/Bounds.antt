-- ===== src/Dependency/Walk/Bounds.antt =====
-- dependency.rs, `include_uses_from_macos` and `edges`: when the edges of a formula cannot be told.
use zapbrew.Base.{
  Text, bytes, List, [], ◌∷◌, ◌++◌, Option, none, some, ◌≡◌, ◌≢◌, refl, Occurs, inl, inr, ◌⊎◌,
  Result, ok, err,
}
use zapbrew.Catalog.{Formula, UsesFromMacos}
use zapbrew.Types.Arch.{Arch}
use zapbrew.Types.Error.{TypeError}
use zapbrew.Types.MacOsVersion
use zapbrew.Types.MacOsVersion.{MacOsVersion}
use zapbrew.Types.BottleLaws.{from_str-as_str_version}
use zapbrew.Types.BottleTag.{BottleTag, linux, mac_os}
use zapbrew.Dependency.{
  OpError, invalid_state, Edge, edges, dependency_edges, macos_edges, include_uses_from_macos,
  since_bound, bound_from, universal_not_host,
}
use zapbrew.Dependency.Walk.Induction.{Good, either-Good, lift-Good, bind-Good}

-- What `uses_from_macos` cannot be judged for: on macOS a `since` that is the name of no release,
-- and the universal tag.
abbrev pub BadBound : BottleTag → UsesFromMacos → Text → Type 0
BadBound target d reason =
    ((arch : Arch) × (version : MacOsVersion) × (since : Text) × (target ≡ mac_os arch version)
      × (d.since ≡ some since)
      × ((v : MacOsVersion) → since ≢ MacOsVersion.as_str v)
      × (reason
          ≡ bytes "uses_from_macos dependency "
            ++ d.name
            ++ bytes " has unknown since bound "
            ++ since))
    ⊎ ((target ≡ BottleTag.all) × (universal_not_host ≡ invalid_state reason))

abbrev IsBad : BottleTag → UsesFromMacos → OpError → Type 0
IsBad target d e = (reason : Text) × (e ≡ invalid_state reason) × BadBound target d reason

since_bound-IsBad :
    (d : UsesFromMacos) (arch : Arch) (version : MacOsVersion) (since : Option Text)
    → d.since ≡ since
    → Good (λ _. Unit {0}) (IsBad (mac_os arch version) d) (since_bound d version since)
since_bound-IsBad d arch version none e = tt
since_bound-IsBad d arch version (some since) e = go (MacOsVersion.from_str since) refl
  where
    go :
        (r : Result TypeError MacOsVersion)
        → MacOsVersion.from_str since ≡ r
        → Good (λ _. Unit {0}) (IsBad (mac_os arch version) d) (bound_from d version since r)
    go (ok bound) read = tt
    go (err failure) read = (
      _,
      refl,
      inl (
        arch,
        version,
        since,
        refl,
        e,
        (λ v same.
            let named : MacOsVersion.from_str since ≡ ok v = rw same (from_str-as_str_version v) in
            absurd cc),
        refl,
      ),
    )

include_uses_from_macos-IsBad :
    (d : UsesFromMacos) (target : BottleTag)
    → Good (λ _. Unit {0}) (IsBad target d) (include_uses_from_macos d target)
unfolding include_uses_from_macos
include_uses_from_macos-IsBad d (linux arch) = tt
include_uses_from_macos-IsBad d (mac_os arch version) =
    since_bound-IsBad d arch version d.since refl
include_uses_from_macos-IsBad d BottleTag.all = (_, refl, inr (refl, refl))

-- One of the entries is bad.
abbrev AnyBad : BottleTag → List UsesFromMacos → OpError → Type 0
AnyBad target ds e = (d : UsesFromMacos) × Occurs d ds × IsBad target d e

macos_edges-AnyBad :
    (ds : List UsesFromMacos) (target : BottleTag) (es : List Edge)
    → Good (λ _. Unit {0}) (AnyBad target ds) (macos_edges ds target es)
macos_edges-AnyBad [] target es = tt
macos_edges-AnyBad (d ∷ ds) target es =
    bind-Good (λ _. Unit {0}) _ (AnyBad target (d ∷ ds)) (include_uses_from_macos d target) _
      (lift-Good (λ _. Unit {0}) (IsBad target d) (AnyBad target (d ∷ ds))
        (include_uses_from_macos d target) (λ e h. (d, inl refl, h))
        (include_uses_from_macos-IsBad d target))
      λ b h.
        either-Good _ (AnyBad target (d ∷ ds)) b _ _ (later _ (macos_edges-AnyBad ds target _))
          (later es (macos_edges-AnyBad ds target es))
  where
    later :
        (rs : List Edge)
        → Good (λ _. Unit {0}) (AnyBad target ds) (macos_edges ds target rs)
        → Good (λ _. Unit {0}) (AnyBad target (d ∷ ds)) (macos_edges ds target rs)
    later rs g =
        lift-Good (λ _. Unit {0}) (AnyBad target ds) (AnyBad target (d ∷ ds))
          (macos_edges ds target rs) (λ e (d', among, bad). (d', inr among, bad)) g

-- The edges of a formula fail only for a `uses_from_macos` of it that cannot be judged.
pub edges-BadBound :
    (f : Formula) (target : BottleTag) (e : OpError)
    → edges f target ≡ err e
    → AnyBad target f.uses_from_macos e
unfolding edges
edges-BadBound f target e failed =
    go (edges f target) failed
      (macos_edges-AnyBad f.uses_from_macos target (dependency_edges f.dependencies))
  where
    go :
        (r : Result OpError (List Edge))
        → r ≡ err e
        → Good (λ _. Unit {0}) (AnyBad target f.uses_from_macos) r
        → AnyBad target f.uses_from_macos e
    go (ok es) eq h = absurd cc
    go (err e') eq h = let same : e' ≡ e = cc in rw (← same) h
