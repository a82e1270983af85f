-- ===== src/Engine/Grows.antt =====
-- The relation between the worlds before and after a part of a trace: how far the counters rise.
use motel.Prelude.{ℕ, ◌+◌, ◌≤◌, ◌<◌, ◌≡◌, refl, arith, max}
use motel.Platform.{Platform}
use motel.Engine.World.{World, Engine}
use motel.Engine.Rules.{IsKept}
use motel.Engine.Counts.{Same, notify-Same}

module _ (p : Platform) (eng : Engine p) where
  open p use {fl}
  open fl use {F}

  -- What a walk does to the counters. `Bounded` is the proposition under which the cost bounds
  -- the number of spans.
  pub record Grows (Bounded : Type 0) (cost : ℕ) (u v : World p) : Type 0 where
    pub rises : u.span_count ≤ v.span_count
    pub limited : v.span_count ≤ max eng.span_limit u.span_count
    pub bounded : Bounded → v.span_count ≤ u.span_count + cost
    pub spans : v.stats.spans + u.span_count ≡ u.stats.spans + v.span_count
    pub errors : v.stats.errors + u.stats.spans ≤ u.stats.errors + v.stats.spans
    pub errors_rise : u.stats.errors ≤ v.stats.errors

  -- Room for `fuel` more spans on a path, from a world within the limit.
  abbrev pub HasFuel : ℕ → World p → Type 0
  HasFuel fuel w = (eng.span_limit < w.span_count + fuel) × (w.span_count ≤ eng.span_limit)

  pub Grows-same : {Bounded : Type 0} {u v : World p} → Same p u v → Grows Bounded 0 u v
  Grows-same s = record {
    rises = omega (arith, s.count);
    limited = omega (arith, s.count);
    bounded = λ _. omega (arith, s.count);
    spans = omega (arith, s.count, s.spans);
    errors = omega (arith, s.errors, s.spans);
    errors_rise = omega (arith, s.errors);
  }

  pub Grows-trans :
      {Bounded : Type 0} (a b : ℕ) {u v w : World p}
      → Grows Bounded a u v
      → Grows Bounded b v w
      → Grows Bounded (a + b) u w
  Grows-trans a b x y = record {
    rises = omega arith;
    limited = omega arith;
    bounded = λ h. omega (arith, x.bounded h, y.bounded h);
    spans = omega arith;
    errors = omega arith;
    errors_rise = omega arith;
  }

  pub Grows-after :
      {Bounded : Type 0} (n : ℕ) {u v w : World p}
      → Same p u v
      → Grows Bounded n v w
      → Grows Bounded n u w
  Grows-after n s g = record {
    rises = omega (arith, s.count);
    limited = omega (arith, s.count);
    bounded = λ h. omega (arith, s.count, g.bounded h);
    spans = omega (arith, s.count, s.spans);
    errors = omega (arith, s.errors, s.spans);
    errors_rise = omega (arith, s.errors);
  }

  pub Grows-IsKept : (Bounded : Type 0) (fuel : ℕ) → IsKept p eng (HasFuel fuel) (Grows Bounded)
  Grows-IsKept Bounded fuel = record {
    stays = λ w. Grows-same (record { count = refl; spans = refl; errors = refl; plans = refl });
    chains = λ a b u v w x y. Grows-trans a b x y;
    widens = λ a b u v h x. record {
      rises = x.rises;
      limited = x.limited;
      bounded = λ k. omega (arith, x.bounded k);
      spans = x.spans;
      errors = x.errors;
      errors_rise = x.errors_rise;
    };
    carries = λ a u v x h. (omega (arith, h.0), omega (arith, h.1));
    notes = λ w e. Grows-same (notify-Same p eng e w);
    timeouts = λ w. Grows-same (record { count = refl; spans = refl; errors = refl; plans = refl });
    retries = λ w. Grows-same (record { count = refl; spans = refl; errors = refl; plans = refl });
  }
