-- ===== src/Version.antt =====
-- crates/zapbrew-types/src/version.rs: versions, their tokens, the total order with equality and
-- hashing, and package versions. (Detection of a version from a URL is not modelled.)
pub mod Patterns
pub mod Tokens
pub mod Canonical
pub mod Digits
pub mod TokenOrder
pub mod Order
pub mod Equality
pub mod Zeros
pub mod Package
pub mod PackageText
mod Sample
mod Tests
use zapbrew.Base.{
  ℕ, Text, text_eq, Bool, true, false, ◌&&◌, List, [], if◌then◌else◌, is_empty, Ordering,
}
use Patterns.{Regexes, head_re}
use Tokens.{Token, parse_tokens}
use Canonical.{CanonToken, canonical_tokens, cmp_canonical}

pub record Version : Type 0 where
  pub raw : Text
  pub tokens : List Token
  pub is_head : Bool
  pub detected_from_url : Bool

unfoldable pub null : Version
null = record { raw = []; tokens = []; is_head = false; detected_from_url = false }

unfoldable pub is_null : Version → Bool
is_null v = is_empty v.raw

module _ (re : Regexes) where
  unfoldable pub parse_with_flag : Text → Bool → Version
  unfolding null
  parse_with_flag s detected = if is_empty s then null else record {
    raw = s;
    tokens = parse_tokens re s;
    is_head = re.is_match head_re s;
    detected_from_url = detected;
  }

  unfoldable pub parse : Text → Version
  unfolding parse_with_flag
  parse s = parse_with_flag s false

-- `Ord::cmp`
unfoldable pub cmp : Version → Version → Ordering
unfolding is_null
cmp v w =
    if is_null v && is_null w
    then Ordering.eq
    else if is_null v
    then Ordering.lt
    else if is_null w
    then Ordering.gt
    else if text_eq v.raw w.raw
    then Ordering.eq
    else if v.is_head && w.is_head
    then Ordering.eq
    else if v.is_head
    then Ordering.gt
    else if w.is_head
    then Ordering.lt
    else cmp_canonical (canonical_tokens v.tokens) (canonical_tokens w.tokens)

-- What `Hash::hash` feeds to the hasher: a tag, and the canonical tokens behind tag 2.
unfoldable pub hash_input : Version → ℕ × List CanonToken
unfolding is_null
hash_input v =
    if is_null v then (0, []) else if v.is_head then (1, []) else (2, canonical_tokens v.tokens)
