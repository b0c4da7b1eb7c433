-- ===== src/Version/Patterns.antt =====
-- The compiled regular expressions of version.rs. Matching is the regex crate's, so it is a
-- parameter: `is_match` for the anchored expressions, and `find_at` for `SCAN_RE`, with the law
-- that is documented for it and that its alternatives show (each consumes at least one byte).
use zapbrew.Base.{ℕ, ◌≤◌, ◌<◌, Text, length, Bool, Option, some, ◌≡◌}

-- The anchored expressions, by the names of their statics.
pub data Pattern : Type 0 where
  head_re alpha_re beta_re pre_re rc_re patch_re post_re numeric_re : Pattern

pub record Regexes : Type 0 where
  pub is_match : Pattern → Text → Bool
  -- The start and the end of the leftmost match of `SCAN_RE` at or behind an index.
  pub find_at : Text → ℕ → Option (ℕ × ℕ)
  pub find_at_bounds :
      (s : Text) (idx b e : ℕ) → find_at s idx ≡ some (b, e) → (idx ≤ b) × (b < e) × (e ≤ length s)
