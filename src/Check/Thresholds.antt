-- ===== src/Check/Thresholds.antt =====
-- pkg/synth/check_assertions.go: the thresholds of a checks file. An absent one is none.
use Prim.Native.String
use motel.Prelude.{
  ℕ, ◌+◌, ◌≡◌, ◌↔◌, Bool, true, false, ◌||◌, String, List, [], ◌∷◌, Option, none, some, All,
  if◌then◌else◌, arith,
}
use motel.Prelude.Int.{ℤ, pos, ltb_ℤ, ◌≤ℤ◌}

pub record CheckThresholds : Type 0 where
  pub max_depth : Option ℤ
  pub max_fan_out : Option ℤ
  pub max_spans : Option ℤ
  pub p50_depth : Option ℤ
  pub p95_depth : Option ℤ
  pub p99_depth : Option ℤ
  pub p50_fan_out : Option ℤ
  pub p95_fan_out : Option ℤ
  pub p99_fan_out : Option ℤ
  pub p50_spans : Option ℤ
  pub p95_spans : Option ℤ
  pub p99_spans : Option ℤ

abbrev pub is_given {ℓ} : {A : Type ℓ} → Option A → Bool
is_given none = false
is_given (some x) = true

unfoldable pub has_percentile : CheckThresholds → Bool
has_percentile t =
    is_given t.p50_depth
    || is_given t.p95_depth
    || is_given t.p99_depth
    || is_given t.p50_fan_out
    || is_given t.p95_fan_out
    || is_given t.p99_fan_out
    || is_given t.p50_spans
    || is_given t.p95_spans
    || is_given t.p99_spans

unfoldable pub has_any : CheckThresholds → Bool
unfolding has_percentile
has_any t =
    is_given t.max_depth || is_given t.max_fan_out || is_given t.max_spans || has_percentile t

unfoldable pub count_given : List (Option ℤ) → ℕ
count_given [] = 0
count_given (v ∷ vs) = (if is_given v then 1 else 0) + count_given vs

unfoldable pub percentile_count : CheckThresholds → ℕ
unfolding count_given
percentile_count t = count_given (
    t.p50_depth ∷ t.p95_depth ∷ t.p99_depth ∷ t.p50_fan_out ∷ t.p95_fan_out ∷ t.p99_fan_out
    ∷ t.p50_spans ∷ t.p95_spans ∷ t.p99_spans ∷ [])

-- The thresholds with their names in the file.
abbrev pub thresholds : CheckThresholds → List (String × Option ℤ)
thresholds t =
    ("max_depth", t.max_depth)
    ∷ ("max_fan_out", t.max_fan_out)
    ∷ ("max_spans", t.max_spans)
    ∷ ("p50_depth", t.p50_depth)
    ∷ ("p95_depth", t.p95_depth)
    ∷ ("p99_depth", t.p99_depth)
    ∷ ("p50_fan_out", t.p50_fan_out)
    ∷ ("p95_fan_out", t.p95_fan_out)
    ∷ ("p99_fan_out", t.p99_fan_out)
    ∷ ("p50_spans", t.p50_spans)
    ∷ ("p95_spans", t.p95_spans)
    ∷ ("p99_spans", t.p99_spans)
    ∷ []

abbrev pub is_negative : Option ℤ → Bool
is_negative none = false
is_negative (some v) = ltb_ℤ v (pos 0)

-- The error of the first threshold that is negative; none where all are accepted.
unfoldable pub validate_all : List (String × Option ℤ) → Option String
validate_all [] = none
validate_all (t ∷ ts) =
    if is_negative t.1
    then some (String.◌++◌ "checks." (String.◌++◌ t.0 " must be non-negative"))
    else validate_all ts

unfoldable pub validate : CheckThresholds → Option String
unfolding validate_all
validate t = validate_all (thresholds t)

abbrev pub IsNonNegative : Option ℤ → Type 0
IsNonNegative none = Unit
IsNonNegative (some v) = pos 0 ≤ℤ v

validate_all-IsNonNegative :
    (ts : List (String × Option ℤ))
    → (validate_all ts ≡ none) ↔ All (λ (t : String × Option ℤ). IsNonNegative t.1) ts
unfolding validate_all
validate_all-IsNonNegative [] = ground arith
validate_all-IsNonNegative ((name, none) ∷ ts) = ground (arith, validate_all-IsNonNegative ts)
validate_all-IsNonNegative ((name, some v) ∷ ts) = ground (arith, validate_all-IsNonNegative ts)

-- None of the twelve thresholds is negative.
pub record AreNonNegative (t : CheckThresholds) : Type 0 where
  pub max_depth : IsNonNegative t.max_depth
  pub max_fan_out : IsNonNegative t.max_fan_out
  pub max_spans : IsNonNegative t.max_spans
  pub p50_depth : IsNonNegative t.p50_depth
  pub p95_depth : IsNonNegative t.p95_depth
  pub p99_depth : IsNonNegative t.p99_depth
  pub p50_fan_out : IsNonNegative t.p50_fan_out
  pub p95_fan_out : IsNonNegative t.p95_fan_out
  pub p99_fan_out : IsNonNegative t.p99_fan_out
  pub p50_spans : IsNonNegative t.p50_spans
  pub p95_spans : IsNonNegative t.p95_spans
  pub p99_spans : IsNonNegative t.p99_spans

-- Validation accepts the thresholds exactly where none of the twelve that is given is negative.
pub validate-IsNonNegative : (t : CheckThresholds) → (validate t ≡ none) ↔ AreNonNegative t
unfolding validate
validate-IsNonNegative t =
    let (go, back) = validate_all-IsNonNegative (thresholds t) in
    (
      (λ h.
          let all = go h in
          record {
            max_depth = all.0;
            max_fan_out = all.1.0;
            max_spans = all.1.1.0;
            p50_depth = all.1.1.1.0;
            p95_depth = all.1.1.1.1.0;
            p99_depth = all.1.1.1.1.1.0;
            p50_fan_out = all.1.1.1.1.1.1.0;
            p95_fan_out = all.1.1.1.1.1.1.1.0;
            p99_fan_out = all.1.1.1.1.1.1.1.1.0;
            p50_spans = all.1.1.1.1.1.1.1.1.1.0;
            p95_spans = all.1.1.1.1.1.1.1.1.1.1.0;
            p99_spans = all.1.1.1.1.1.1.1.1.1.1.1.0;
          }),
      λ (h : AreNonNegative t). back (
        h.max_depth,
        (
          h.max_fan_out,
          (
            h.max_spans,
            (
              h.p50_depth,
              (
                h.p95_depth,
                (
                  h.p99_depth,
                  (
                    h.p50_fan_out,
                    (
                      h.p95_fan_out,
                      (h.p99_fan_out, (h.p50_spans, (h.p95_spans, (h.p99_spans, tt)))),
                    ),
                  ),
                ),
              ),
            ),
          ),
        ),
      ),
    )
