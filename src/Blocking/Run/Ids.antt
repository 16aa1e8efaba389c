-- ===== src/Blocking/Run/Ids.antt =====
-- _nextCompatibilityOptions of src/SSD1315.cpp against the identifiers that _startOperation admits.
use ssd.Common.{ℕ, Bool, true, ◌<◌, ◌≡◌, ◌↔◌, ◌⊎◌, arith, ◌==◌, ◌||◌}
use ssd.Blocking.Run.{next_compatibility_id}

-- The guard of `_startOperation` on an identifier.
abbrev pub is_refused : ℕ → ℕ → Bool
is_refused id last = id == 0 || id == last

-- The identifier that a blocking call chooses is refused in exactly two cases: the one increment
-- of a collision wraps to 0, or the one increment of 0 meets the last identifier 1.
pub next_compatibility_id-refused_iff :
    (compat last : ℕ)
    → compat < 4294967296
    → last < 4294967296
    → (is_refused (next_compatibility_id compat last) last ≡ true)
      ↔ ((compat ≡ 4294967294) × (last ≡ 4294967295) ⊎ (compat ≡ 4294967295) × (last ≡ 1))
unfolding next_compatibility_id
next_compatibility_id-refused_iff compat last h k = ground arith
