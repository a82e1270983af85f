-- ===== src/Traffic/Segments.antt =====
-- pkg/synth/traffic.go: the rate of a custom pattern does not depend on the order of its segments.
use motel.Prelude.{
  not, ◌&&◌, ◌≡◌, refl, sym, ap, ◌∙◌, String, List, [], ◌∷◌, Option, none, some, if◌then◌else◌,
  arith, All, Bool-cases, inl, inr,
}
use motel.Prelude.Int.{ℤ, ltb_ℤ, leb_ℤ, ◌≤ℤ◌}
use motel.Platform.{Float64}
use motel.Traffic.{
  Segment, BaseConfig, Result, ok, failed, custom_rate, place_segment, sort_segments, has_duplicate,
  parse_segments, new_custom_pattern, ensure, ◌>>=◌, ◌>>◌, no_segments, duplicate_until,
  has_segments, ensure-ok,
}

module _ (fl : Float64) (sin : fl.F → fl.F) (pi : fl.F) (hours seconds : ℤ → fl.F)
    (parse_duration : String → Option ℤ) where
  open fl use {F}

  abbrev Seg : Type 0
  Seg = Segment fl sin pi hours seconds parse_duration

  abbrev placed : Seg → List Seg → List Seg
  placed = place_segment fl sin pi hours seconds parse_duration

  abbrev sorted : List Seg → List Seg
  sorted = sort_segments fl sin pi hours seconds parse_duration

  -- Of a segment and a candidate, the one that ends first after the time; ties go to the segment.
  abbrev pub closer : ℤ → Seg → Option Seg → Option Seg
  closer elapsed s none = if ltb_ℤ elapsed s.until then some s else none
  closer elapsed s (some t) =
      if ltb_ℤ elapsed s.until && leb_ℤ s.until t.until then some s else some t

  -- The segment that ends first after the time, over the segments as they are configured.
  abbrev pub nearest : ℤ → List Seg → Option Seg
  nearest elapsed [] = none
  nearest elapsed (s ∷ ss) = closer elapsed s (nearest elapsed ss)

  abbrev pub rate_at : F → Option Seg → F
  rate_at base none = base
  rate_at base (some s) = s.rate

  -- The first segment of a list that ends after the time.
  first : ℤ → List Seg → Option Seg
  first elapsed [] = none
  first elapsed (s ∷ ss) = if ltb_ℤ elapsed s.until then some s else first elapsed ss

  rate_at-first :
      (base : F) (ss : List Seg) (elapsed : ℤ)
      → custom_rate fl sin pi hours seconds parse_duration base ss elapsed
        ≡ rate_at base (first elapsed ss)
  unfolding custom_rate first
  rate_at-first base [] elapsed = refl
  rate_at-first base (s ∷ ss) elapsed = ground (arith, rate_at-first base ss elapsed)

  abbrev Above : ℤ → List Seg → Type 0
  Above b = All (λ s. b ≤ℤ s.until)

  abbrev IsSorted : List Seg → Type 0
  IsSorted [] = Unit
  IsSorted (s ∷ ss) = Above s.until ss × IsSorted ss

  Above-raise : (a b : ℤ) (ss : List Seg) → a ≤ℤ b → Above b ss → Above a ss
  Above-raise a b [] h al = tt
  Above-raise a b (s ∷ ss) h al = (omega arith, Above-raise a b ss h al.1)

  place_segment-Above :
      (b : ℤ) (s : Seg) (ss : List Seg) → b ≤ℤ s.until → Above b ss → Above b (placed s ss)
  unfolding place_segment
  place_segment-Above b s [] h al = (h, tt)
  place_segment-Above b s (x ∷ xs) h al = ground (arith, place_segment-Above b s xs h al.1)

  place_segment-IsSorted : (s : Seg) (ss : List Seg) → IsSorted ss → IsSorted (placed s ss)
  unfolding place_segment
  place_segment-IsSorted s [] h = (tt, tt)
  place_segment-IsSorted s (x ∷ xs) h = elim (Bool-cases (leb_ℤ s.until x.until)) [
    | inl e ↦
        let le : s.until ≤ℤ x.until = ground arith in
        rw (e, place_segment) ((le, Above-raise s.until x.until xs le h.0), h)
    | inr e ↦
        rw (e, place_segment)
          (place_segment-Above x.until s xs (ground arith) h.0, place_segment-IsSorted s xs h.1)
  ]

  sort_segments-IsSorted : (ss : List Seg) → IsSorted (sorted ss)
  unfolding sort_segments
  sort_segments-IsSorted [] = tt
  sort_segments-IsSorted (s ∷ ss) = place_segment-IsSorted s (sorted ss) (sort_segments-IsSorted ss)

  -- A segment in front of later ones comes first if it has not ended.
  closer-first :
      (elapsed : ℤ) (s : Seg) (ss : List Seg)
      → Above s.until ss
      → closer elapsed s (first elapsed ss) ≡ first elapsed (s ∷ ss)
  unfolding first
  closer-first elapsed s [] al = refl
  closer-first elapsed s (x ∷ xs) al =
      ground (arith, closer-first elapsed s xs al.1, closer-first elapsed x xs)

  first-place_segment :
      (elapsed : ℤ) (s : Seg) (ss : List Seg)
      → IsSorted ss
      → first elapsed (placed s ss) ≡ closer elapsed s (first elapsed ss)
  unfolding place_segment first
  first-place_segment elapsed s [] h = refl
  first-place_segment elapsed s (x ∷ xs) h = elim (Bool-cases (leb_ℤ s.until x.until)) [
    | inl e ↦
        let le : s.until ≤ℤ x.until = ground arith in
        rw (e, place_segment)
          (sym (closer-first elapsed s (x ∷ xs) (le, Above-raise s.until x.until xs le h.0)))
    | inr e ↦ rw (e, place_segment) (ground (arith, first-place_segment elapsed s xs h.1))
  ]

  first-sort_segments :
      (elapsed : ℤ) (ss : List Seg) → first elapsed (sorted ss) ≡ nearest elapsed ss
  unfolding sort_segments first
  first-sort_segments elapsed [] = refl
  first-sort_segments elapsed (s ∷ ss) =
      first-place_segment elapsed s (sorted ss) (sort_segments-IsSorted ss)
      ∙ ap (closer elapsed s) (first-sort_segments elapsed ss)

  -- What an accepted list of segments comes from.
  accepted_from :
      (r : Result (List Seg)) (ss : List Seg)
      → (r >>= λ parsed.
          ensure
            (not (has_duplicate fl sin pi hours seconds parse_duration (sorted parsed)))
            duplicate_until
          >> ok (sorted parsed))
        ≡ ok ss
      → (parsed : List Seg) × (r ≡ ok parsed) × (sorted parsed ≡ ss)
  accepted_from (ok parsed) ss h = (parsed, refl, ground arith)
  accepted_from (failed e) ss h = cc

  -- An accepted custom pattern: at every time its rate is that of the configured segment that ends
  -- first after the time, in whatever order the segments are configured, and the base rate where no
  -- segment ends after the time.
  pub custom_rate-nearest :
      (base : F) (cfg : BaseConfig fl sin pi hours seconds parse_duration) (ss : List Seg)
      (elapsed : ℤ)
      → new_custom_pattern fl sin pi hours seconds parse_duration base cfg ≡ ok ss
      → (parsed : List Seg) × (parse_segments fl sin pi hours seconds parse_duration 0 cfg.segments
          ≡ ok parsed)
        × (custom_rate fl sin pi hours seconds parse_duration base ss elapsed
            ≡ rate_at base (nearest elapsed parsed))
  unfolding new_custom_pattern
  custom_rate-nearest base cfg ss elapsed h =
      let (parsed, e, same) =
        accepted_from (parse_segments fl sin pi hours seconds parse_duration 0 cfg.segments) ss
          (ensure-ok (has_segments fl sin pi hours seconds parse_duration cfg.segments) no_segments
            _ _ h).1 in
      (
        parsed,
        e,
        rate_at-first base ss elapsed
            ∙ ap (λ ss. rate_at base (first elapsed ss)) (sym same)
            ∙ ap (rate_at base) (first-sort_segments elapsed parsed),
      )
