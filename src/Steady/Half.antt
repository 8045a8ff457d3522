-- ===== src/Steady/Half.antt =====
-- Which samples a level's value is made of.
use torr_bsds.Base.{ℕ, ◌/◌, max, ◌≡◌, Option, ◌⊎◌, List, [], ◌∷◌, ◌++◌, length}
use torr_bsds.Steady.{Floats, Point, samples_at, steady_state_by_level}

module _ (F : Floats) where
  -- The samples of a level, of which the later half, and at least one, gives the value.
  pub record IsSteady (samples : List F.Float) (value : F.Float) : Type 0 where
    pub early : List F.Float
    pub first : F.Float
    pub rest : List F.Float
    pub parts : samples ≡ early ++ (first ∷ rest)
    pub median : value ≡ F.median first rest
    pub half : length (first ∷ rest) ≡ max 1 (length samples / 2)

  -- The dict has an entry for the level.
  abbrev pub Shows : ℕ → List (ℕ × F.Float) → Type 0
  Shows level [] = ⊥
  Shows level ((l, _) ∷ d) = (level ≡ l) ⊎ Shows level d

  module _ (metric : Point F → Option F.Float) (df : List (Point F)) where
    IsEntry : ℕ × F.Float → Type 0
    IsEntry entry = IsSteady (samples_at F metric entry.0 df) entry.1

    -- A level of the list is left out only if it has no sample.
    IsShown : List ℕ → ℕ → Type 0
    IsShown levels level =
        (samples_at F metric level df ≡ []) ⊎ Shows level (steady_state_by_level F metric df levels)
