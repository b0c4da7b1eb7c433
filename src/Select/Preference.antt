-- ===== src/Select/Preference.antt =====
-- The choice of `select_bottle` against a preference order on tags that mentions no search.
use zapbrew.Types.BottleLaws.{arch_eq→eq, tag_eq→eq, tag_eq_refl}
use zapbrew.Base.{
  Bool-cases, Option-cases, sym, ap, ℕ, ◌+◌, ◌≤◌, ◌<◌, List, [], ◌∷◌, Option, none, some, leb, ltb,
  ◌&&◌, false, if◌then◌else◌, Occurs, ◌≡◌, ◌≢◌, refl, inl, inr, arith, ◌⊎◌,
}
use zapbrew.Types.Arch.{Arch}
use zapbrew.Types.MacOsVersion.{
  MacOsVersion, catalina, big_sur, monterey, ventura, sonoma, sequoia, tahoe, golden_gate,
  discriminant, all_versions,
}
use zapbrew.Types.BottleTag.{BottleTag, BottleFile, linux, mac_os, all, arch_eq, tag_eq}
use mathlib.Core.List.{reverse}
use zapbrew.Select.{find_tag, older_loop}

-- How well a tag serves a host: 9 for the same tag, 1 to 8 for an older macOS of the same
-- architecture, by age, 0 for the universal bottle, none for a tag that does not serve it.
abbrev pub older_preference : Arch → MacOsVersion → BottleTag → Option ℕ
older_preference a v (mac_os b w) =
    if arch_eq b a && ltb (discriminant w) (discriminant v) then some (discriminant w + 1) else none
older_preference a v all = some 0
older_preference a v (linux b) = none

abbrev pub other_preference : BottleTag → BottleTag → Option ℕ
other_preference (mac_os a v) t = older_preference a v t
other_preference (linux a) all = some 0
other_preference all all = some 0
other_preference _ _ = none

unfoldable pub preference : BottleTag → BottleTag → Option ℕ
preference host t = if tag_eq t host then some 9 else other_preference host t

-- No file of the list has the tag.
abbrev pub Lacks : List BottleFile → BottleTag → Type 0
Lacks files t = (f : BottleFile) → Occurs f files → f.tag ≢ t

pub find_tag-some :
    (files : List BottleFile) (t : BottleTag) (f : BottleFile)
    → find_tag files t ≡ some f
    → Occurs f files × (f.tag ≡ t)
find_tag-some [] t f h = cc
find_tag-some (x ∷ xs) t f h = elim (Bool-cases (tag_eq x.tag t)) [
  | inl same ↦
      let e : x ≡ f = ground arith in
      (inl (sym e), cc (ap (λ (b : BottleFile). b.tag) e, tag_eq→eq x.tag t same))
  | inr other ↦ let (m, e) = find_tag-some xs t f (rw other at h) in (inr m, e)
]

pub find_tag-none :
    (files : List BottleFile) (t : BottleTag) → find_tag files t ≡ none → Lacks files t
find_tag-none [] t h f m same = absurd m
find_tag-none (x ∷ xs) t h f (inl e) same = cc (
  tag_eq_refl t,
  ap (λ (b : BottleFile). tag_eq b.tag t) e,
  ap (λ u. tag_eq u t) same,
  head_fails,
)
  where
    head_fails : tag_eq x.tag t ≡ false
    head_fails = ground arith
find_tag-none (x ∷ xs) t h f (inr m) same = find_tag-none xs t (ground arith) f m same

abbrev pub IsDescending : List MacOsVersion → Type 0
IsDescending [] = Unit
IsDescending (v ∷ vs) =
    ((w : MacOsVersion) → Occurs w vs → discriminant w < discriminant v) × IsDescending vs

module _ (files : List BottleFile) (a : Arch) (host : MacOsVersion) where
  -- Among the releases `vs` older than the host, none newer than `w` has a file.
  abbrev pub NoneNewer : MacOsVersion → List MacOsVersion → Type 0
  NoneNewer w vs =
      (u : MacOsVersion)
      → Occurs u vs
      → discriminant w < discriminant u
      → discriminant u < discriminant host
      → Lacks files (mac_os a u)

  pub record Chosen (vs : List MacOsVersion) (f : BottleFile) : Type 0 where
    pub version : MacOsVersion
    pub listed : Occurs f files
    pub tagged : f.tag ≡ mac_os a version
    pub older : discriminant version < discriminant host
    pub newest : NoneNewer version vs

  skip_head :
      (v : MacOsVersion) (vs : List MacOsVersion) (w : MacOsVersion)
      → NoneNewer w vs
      → (discriminant v < discriminant host → Lacks files (mac_os a v))
      → NoneNewer w (v ∷ vs)
  skip_head v vs w newest head u (inl e) newer older = rw e (head (rw e at older))
  skip_head v vs w newest head u (inr m) newer older = newest u m newer older

  head_newest :
      (v : MacOsVersion) (vs : List MacOsVersion)
      → ((w : MacOsVersion) → Occurs w vs → discriminant w < discriminant v)
      → NoneNewer v (v ∷ vs)
  head_newest v vs below u (inl e) newer older = absurd (omega (arith, ap discriminant e))
  head_newest v vs below u (inr m) newer older = absurd (omega (arith, below u m))

  pub older_loop-some :
      (vs : List MacOsVersion) (f : BottleFile)
      → IsDescending vs
      → older_loop files a host vs ≡ some f
      → Chosen vs f
  unfolding older_loop
  older_loop-some [] f d h = cc
  older_loop-some (v ∷ vs) f d h = elim (Bool-cases (leb (discriminant host) (discriminant v))) [
    | inl late ↦
        let c = older_loop-some vs f d.1 (rw late at h) in
        record {
          version = c.version;
          listed = c.listed;
          tagged = c.tagged;
          older = c.older;
          newest = skip_head v vs c.version c.newest (λ lt. ground arith);
        }
    | inr early ↦ elim (Option-cases (find_tag files (mac_os a v))) [
      | inl absent ↦
          let c = older_loop-some vs f d.1 (rw (early, absent) at h) in
          record {
            version = c.version;
            listed = c.listed;
            tagged = c.tagged;
            older = c.older;
            newest =
                skip_head v vs c.version c.newest (λ lt. find_tag-none files (mac_os a v) absent);
          }
      | inr (g, found) ↦
          let same : g ≡ f = ground arith in
          let (m, e) = find_tag-some files (mac_os a v) f (cc) in
          record {
            version = v;
            listed = m;
            tagged = e;
            older = ground arith;
            newest = head_newest v vs d.0;
          }
    ]
  ]

  older_loop-none_tail :
      (v : MacOsVersion) (vs : List MacOsVersion)
      → older_loop files a host (v ∷ vs) ≡ none
      → older_loop files a host vs ≡ none
  unfolding older_loop
  older_loop-none_tail v vs h = ground arith

  pub older_loop-none :
      (vs : List MacOsVersion)
      → older_loop files a host vs ≡ none
      → (u : MacOsVersion) → Occurs u vs
      → discriminant u < discriminant host
      → Lacks files (mac_os a u)
  unfolding older_loop
  older_loop-none [] h u m lt = absurd m
  older_loop-none (v ∷ vs) h u (inl e) lt = elim (Option-cases (find_tag files (mac_os a v))) [
    | inl absent ↦ rw e (find_tag-none files (mac_os a v) absent)
    | inr (g, found) ↦ absurd (ground (arith, ap discriminant e))
  ]
  older_loop-none (v ∷ vs) h u (inr m) lt = older_loop-none vs (older_loop-none_tail v vs h) u m lt

pub all_versions-IsDescending : IsDescending (reverse all_versions)
unfolding discriminant
all_versions-IsDescending = (
  λ w m. ground arith,
  (
    λ w m. ground arith,
    (
      λ w m. ground arith,
      (
        λ w m. ground arith,
        (λ w m. ground arith, (λ w m. ground arith, (λ w m. ground arith, (λ w m. absurd m, tt)))),
      ),
    ),
  ),
)

pub Occurs-all_versions : (v : MacOsVersion) → Occurs v (reverse all_versions)
Occurs-all_versions catalina = search (inl, inr) depth 10
Occurs-all_versions big_sur = search (inl, inr) depth 10
Occurs-all_versions monterey = search (inl, inr) depth 10
Occurs-all_versions ventura = search (inl, inr) depth 10
Occurs-all_versions sonoma = search (inl, inr) depth 10
Occurs-all_versions sequoia = search (inl, inr) depth 10
Occurs-all_versions tahoe = search (inl, inr) depth 10
Occurs-all_versions golden_gate = inl refl

discriminant_le : (v : MacOsVersion) → discriminant v ≤ 7
unfolding discriminant
discriminant_le catalina = omega arith
discriminant_le _ = omega arith

pub preference_le : (host t : BottleTag) (q : ℕ) → preference host t ≡ some q → q ≤ 9
unfolding preference
preference_le (mac_os a v) (mac_os b w) q h = ground (arith, discriminant_le w)
preference_le (mac_os a v) _ q h = ground arith
preference_le (linux a) (linux b) q h = ground arith
preference_le (linux a) _ q h = ground arith
preference_le all (linux b) q h = ground arith
preference_le all _ q h = ground arith

-- What a preference says about a tag other than the host's own.
pub other_preference_cases :
    (host t : BottleTag) (q : ℕ)
    → other_preference host t ≡ some q
    → (t ≡ all) × (q ≡ 0)
      ⊎ ((a : Arch) × (v w : MacOsVersion) × (host ≡ mac_os a v)
          × (t ≡ mac_os a w)
          × (discriminant w < discriminant v)
          × (q ≡ discriminant w + 1))
other_preference_cases (mac_os a v) (mac_os b w) q h =
    inr (a, v, w, refl, ground (arith, arch_eq→eq b a), ground arith, ground arith)
other_preference_cases (mac_os a v) all q h = inl (refl, ground arith)
other_preference_cases (mac_os a v) (linux b) q h = cc
other_preference_cases (linux a) all q h = inl (refl, ground arith)
other_preference_cases (linux a) (linux b) q h = cc
other_preference_cases (linux a) (mac_os b w) q h = cc
other_preference_cases all all q h = inl (refl, ground arith)
other_preference_cases all (linux b) q h = cc
other_preference_cases all (mac_os b w) q h = cc
