-- ===== src/Engine/Windows.antt =====
-- pkg/synth/plan.go: the windows of the plans that a part of planTrace adds to a trace.
use mathlib.Core.Option.{some-injective, none-ne-some}
use motel.Prelude.{
  ℕ, zero, suc, ◌≤◌, ◌<◌, ◌≡◌, ◌⊎◌, refl, sym, subst, ap, ◌∙◌, List, [], ◌∷◌, ◌++◌, Option, none,
  some, arith, length, length-set, length-append, ◌==◌, get_elem?, set, Bool-cases, ltb, inl, inr,
}
use motel.Prelude.Int.{ℤ, ◌≤ℤ◌}
use motel.Platform.{Platform}
use motel.Engine.World.{SpanPlan}
use motel.Emit.Nested.{IsNested}

module _ {A : Type 0} where
  get_elem?-bound : (xs : List A) (i : ℕ) (x : A) → get_elem? xs i ≡ some x → i < length xs
  get_elem?-bound [] i x e = ground (arith, e)
  get_elem?-bound (y ∷ xs) zero x e = omega arith
  get_elem?-bound (y ∷ xs) (suc i) x e = let h = get_elem?-bound xs i x e in omega arith

  get_elem?-append :
      (xs ys : List A) (i : ℕ) → i < length xs → get_elem? (xs ++ ys) i ≡ get_elem? xs i
  get_elem?-append [] ys i l = absurd (omega (arith, l))
  get_elem?-append (x ∷ xs) ys zero l = refl
  get_elem?-append (x ∷ xs) ys (suc i) l = get_elem?-append xs ys i (omega (arith, l))

  get_elem?-set_other :
      (xs : List A) (i j : ℕ) (v : A) → ¬ i ≡ j → get_elem? (set xs j v) i ≡ get_elem? xs i
  get_elem?-set_other [] i j v n = refl
  get_elem?-set_other (x ∷ xs) zero zero v n = absurd (n refl)
  get_elem?-set_other (x ∷ xs) zero (suc j) v n = refl
  get_elem?-set_other (x ∷ xs) (suc i) zero v n = refl
  get_elem?-set_other (x ∷ xs) (suc i) (suc j) v n =
      get_elem?-set_other xs i j v (λ e. n (ap suc e))

  get_elem?-set_same :
      (xs : List A) (i : ℕ) (v : A) → i < length xs → get_elem? (set xs i v) i ≡ some v
  get_elem?-set_same [] i v l = absurd (omega (arith, l))
  get_elem?-set_same (x ∷ xs) zero v l = refl
  get_elem?-set_same (x ∷ xs) (suc i) v l = get_elem?-set_same xs i v (omega (arith, l))

  -- Past the end of the list there is only what was added.
  get_elem?-last :
      (xs : List A) (x : A) (i : ℕ) (y : A)
      → length xs ≤ i
      → get_elem? (xs ++ x ∷ []) i ≡ some y
      → x ≡ y
  get_elem?-last [] x zero y l e = some-injective x y e
  get_elem?-last [] x (suc i) y l e = absurd (none-ne-some y e)
  get_elem?-last (z ∷ xs) x zero y l e = absurd (omega (arith, l))
  get_elem?-last (z ∷ xs) x (suc i) y l e = get_elem?-last xs x i y (omega (arith, l)) e

  pub get_elem?-end : (xs : List A) (x : A) → get_elem? (xs ++ x ∷ []) (length xs) ≡ some x
  get_elem?-end [] x = refl
  get_elem?-end (y ∷ xs) x = get_elem?-end xs x

module _ (p : Platform) where
  -- A plan that a call of the operation makes: its parent is given, and its start is in a window.
  pub record IsChild (parent : Option ℕ) (lo hi : ℤ) (s : SpanPlan p) : Type 0 where
    pub of_parent : s.parent_index ≡ parent
    pub after : lo ≤ℤ s.start_time
    pub before : s.start_time ≤ℤ hi

  -- A plan whose parent is a new plan of a lower index, in whose window it starts.
  pub record IsBelow (from : ℕ) (plans : List (SpanPlan p)) (i : ℕ) (s : SpanPlan p) : Type 0 where
    pub j : ℕ
    pub above : SpanPlan p
    pub of_parent : s.parent_index ≡ some j
    pub found : get_elem? plans j ≡ some above
    pub new : from ≤ j
    pub lower : j < i
    pub after : above.start_time ≤ℤ s.start_time
    pub before : s.start_time ≤ℤ above.end_time

  -- The plans `vs` extend the plans `us`. A new plan lasts, and it is either a child of the given
  -- parent or runs below a new plan.
  pub record Grown (parent : Option ℕ) (lo hi : ℤ) (us vs : List (SpanPlan p)) : Type 0 where
    pub longer : length us ≤ length vs
    pub kept : (i : ℕ) → i < length us → get_elem? vs i ≡ get_elem? us i
    pub lasts :
        (i : ℕ) (s : SpanPlan p)
        → length us ≤ i
        → get_elem? vs i ≡ some s
        → s.start_time ≤ℤ s.end_time
    pub inside :
        (i : ℕ) (s : SpanPlan p)
        → length us ≤ i
        → get_elem? vs i ≡ some s
        → IsChild parent lo hi s ⊎ IsBelow (length us) vs i s

  pub Grown-refl :
      (parent : Option ℕ) (lo hi : ℤ) (us : List (SpanPlan p)) → Grown parent lo hi us us
  Grown-refl parent lo hi us = record {
    longer = omega arith;
    kept = λ i l. refl;
    lasts = λ i s l at. absurd (omega (arith, get_elem?-bound us i s at, l));
    inside = λ i s l at. absurd (omega (arith, get_elem?-bound us i s at, l));
  }

  widen :
      {parent : Option ℕ} {lo hi lo' hi' : ℤ} {n m i : ℕ} {us vs : List (SpanPlan p)}
      {s : SpanPlan p}
      → lo' ≤ℤ lo
      → hi ≤ℤ hi'
      → m ≤ n
      → ((j : ℕ) → j < i → get_elem? vs j ≡ get_elem? us j)
      → IsChild parent lo hi s ⊎ IsBelow n us i s
      → IsChild parent lo' hi' s ⊎ IsBelow m vs i s
  widen a b c k (inl h) = inl (record {
    of_parent = h.of_parent;
    after = omega (arith, a, h.after);
    before = omega (arith, b, h.before);
  })
  widen a b c k (inr h) = inr (record {
    j = h.j;
    above = h.above;
    of_parent = h.of_parent;
    found = k h.j h.lower ∙ h.found;
    new = omega (arith, c, h.new);
    lower = h.lower;
    after = h.after;
    before = h.before;
  })

  pub Grown-trans :
      (parent : Option ℕ) (lo hi lo' hi' : ℤ) (us vs ws : List (SpanPlan p))
      → lo ≤ℤ lo'
      → hi ≤ℤ hi'
      → Grown parent lo hi us vs
      → Grown parent lo' hi' vs ws
      → Grown parent lo hi' us ws
  Grown-trans parent lo hi lo' hi' us vs ws a b x y = record {
    longer = omega (arith, x.longer, y.longer);
    kept = λ i l. y.kept i (omega (arith, l, x.longer)) ∙ x.kept i l;
    lasts = λ i s l at. elim (Bool-cases (ltb i (length vs))) [
      | inl q ↦ x.lasts i s l (sym (y.kept i (ground (arith, q))) ∙ at)
      | inr q ↦ y.lasts i s (ground (arith, q)) at
    ];
    inside = λ i s l at. elim (Bool-cases (ltb i (length vs))) [
      | inl q ↦
          let small : i < length vs = ground (arith, q) in
          widen {us = vs} (omega arith) b (omega arith) (λ j k. y.kept j (omega (arith, k, small)))
            (x.inside i s l (sym (y.kept i small) ∙ at))
      | inr q ↦
          widen {us = ws} a (omega arith) x.longer (λ j k. refl)
            (y.inside i s (ground (arith, q)) at)
    ];
  }

  pub Grown-until :
      (parent : Option ℕ) (lo hi hi' : ℤ) (us vs : List (SpanPlan p))
      → hi ≤ℤ hi'
      → Grown parent lo hi us vs
      → Grown parent lo hi' us vs
  Grown-until parent lo hi hi' us vs l g =
      Grown-trans parent lo hi lo hi' us vs vs (omega arith) l g (Grown-refl parent lo hi' vs)

  -- A new plan that is finished at once.
  pub Grown-one :
      (parent : Option ℕ) (lo hi : ℤ) (us : List (SpanPlan p)) (s : SpanPlan p)
      → IsChild parent lo hi s
      → s.start_time ≤ℤ s.end_time
      → Grown parent lo hi us (us ++ s ∷ [])
  Grown-one parent lo hi us s c d = record {
    longer = omega (arith, length-append us (s ∷ []));
    kept = λ i l. get_elem?-append us (s ∷ []) i l;
    lasts = λ i t l at.
        subst (λ (x : SpanPlan p). x.start_time ≤ℤ x.end_time) (get_elem?-last us s i t l at) d;
    inside = λ i t l at. inl (subst (IsChild parent lo hi) (get_elem?-last us s i t l at) c);
  }

  -- The plan of a call: a placeholder, then plans for its own calls in its window, and then its end.
  pub Grown-own :
      (parent : Option ℕ) (lo hi lo' hi' : ℤ) (us vs : List (SpanPlan p)) (start done : SpanPlan p)
      → IsChild parent lo hi done
      → done.start_time ≤ℤ done.end_time
      → done.start_time ≤ℤ lo'
      → hi' ≤ℤ done.end_time
      → Grown (some (length us)) lo' hi' (us ++ start ∷ []) vs
      → Grown parent lo hi us (set vs (length us) done)
  Grown-own parent lo hi lo' hi' us vs start done c d a b x =
      let n = length us in
      let size : length (us ++ start ∷ []) ≡ suc n = omega (arith, length-append us (start ∷ [])) in
      let here : get_elem? (set vs n done) n ≡ some done =
        get_elem?-set_same vs n done (omega (arith, size, x.longer)) in
      let other = λ (i : ℕ) (h : ¬ i ≡ n). get_elem?-set_other vs i n done h in
      let same = λ (i : ℕ) (s : SpanPlan p) (q : i ≡ n) (at : get_elem? (set vs n done) i ≡ some s).
        some-injective done s (sym here ∙ ap (get_elem? (set vs n done)) (sym q) ∙ at) in
      record {
        longer = omega (arith, length-set vs n done, size, x.longer);
        kept = λ i l.
            other i (λ e. omega (arith, e, l))
            ∙ x.kept i (omega (arith, size, l))
            ∙ get_elem?-append us (start ∷ []) i l;
        lasts = λ i s l at. elim (Bool-cases (i == n)) [
          | inl q ↦
              subst (λ (x : SpanPlan p). x.start_time ≤ℤ x.end_time)
                (same i s (ground (arith, q)) at) d
          | inr q ↦
              let e : ¬ i ≡ n = λ e. ground (arith, q, e) in
              x.lasts i s (omega (arith, size, l, e)) (sym (other i e) ∙ at)
        ];
        inside = λ i s l at. elim (Bool-cases (i == n)) [
          | inl q ↦ inl (subst (IsChild parent lo hi) (same i s (ground (arith, q)) at) c)
          | inr q ↦
              let e : ¬ i ≡ n = λ e. ground (arith, q, e) in
              let after : suc n ≤ i = omega (arith, l, e) in
              inr
                (below i s after (x.inside i s (omega (arith, size, after)) (sym (other i e) ∙ at)))
        ];
      }
    where
      below :
          (i : ℕ) (s : SpanPlan p)
          → suc (length us) ≤ i
          → IsChild (some (length us)) lo' hi' s ⊎ IsBelow (length (us ++ start ∷ [])) vs i s
          → IsBelow (length us) (set vs (length us) done) i s
      below i s l (inl h) = record {
        j = length us;
        above = done;
        of_parent = h.of_parent;
        found =
            get_elem?-set_same vs (length us) done
              (omega (arith, length-append us (start ∷ []), x.longer));
        new = omega arith;
        lower = omega (arith, l);
        after = omega (arith, a, h.after);
        before = omega (arith, b, h.before);
      }
      below i s l (inr h) = record {
        j = h.j;
        above = h.above;
        of_parent = h.of_parent;
        found =
            get_elem?-set_other vs h.j (length us) done
              (λ e. omega (arith, e, h.new, length-append us (start ∷ [])))
            ∙ h.found;
        new = omega (arith, h.new, length-append us (start ∷ []));
        lower = h.lower;
        after = h.after;
        before = h.before;
      }

  -- From no plans at all, what has grown is nested.
  pub Grown-IsNested :
      (lo hi : ℤ) (plans : List (SpanPlan p)) → Grown none lo hi [] plans → IsNested p plans
  Grown-IsNested lo hi plans g = record {
    lasts = λ i s at. g.lasts i s (omega arith) at;
    inside = λ i j s at q. elim (g.inside i s (omega arith) at) [
      | inl h ↦ absurd (none-ne-some j (sym h.of_parent ∙ q))
      | inr h ↦
          let e : h.j ≡ j = some-injective h.j j (sym h.of_parent ∙ q) in
          (
            h.above,
            ap (get_elem? plans) (sym e) ∙ h.found,
            omega (arith, e, h.lower),
            h.after,
            h.before,
          )
    ];
  }
