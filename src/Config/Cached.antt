-- ===== src/Config/Cached.antt =====
-- What the calls of `Get` after the first return.
use dp_topic_api.Prelude.{ℕ, zero, suc, ◌≡◌, refl, ap, Option, none, some}
use dp_topic_api.Errors.{GoError}
use dp_topic_api.Config.{Config, get, cell_after}

module _ (process : Config → Config × GoError) where
  cell_after-some : (n : ℕ) (config : Config) → cell_after process n (some config) ≡ some config
  unfolding cell_after get
  cell_after-some zero config = refl
  cell_after-some (suc n) config = ap (λ c. (get process c).cell) (cell_after-some n config)

  get-cell : (cell : Option Config) → (get process cell).cell ≡ some (get process cell).config
  unfolding get
  get-cell none = refl
  get-cell (some config) = refl

  -- Every call of `Get` after the first returns the configuration of the first, however many calls
  -- there were, and no error: also where the first could not read the environment and said so.
  pub get_again :
      (cell : Option Config) (n : ℕ)
      → let first = get process cell in
        get process (cell_after process n first.cell)
        ≡ record { config = first.config; error = none; cell = some first.config }
  unfolding get
  get_again cell n = rw (get-cell cell, cell_after-some n (get process cell).config) refl
