-- ===== src/Prelude/Results.antt =====
-- Results of code that may fail, with the tests and loops that the configuration code is made of.
use mathlib.Core.Path.{◌≡◌, refl}
use mathlib.Core.Bool.{Bool, true, false}
use mathlib.Core.Option.{Option, none, some}
use mathlib.Core.List.{List, [], ◌∷◌}
use motel.Prelude.Tests.{if◌then◌else◌}
use motel.Prelude.Lists.{All}

pub data Result {ℓ} (E : Type 0) (A : Type ℓ) : Type ℓ where
  failed : E → Result E A
  ok : A → Result E A

-- What a validation returns.
abbrev pub Checked : Type 0 → Type 0
Checked E = Result E (Unit {0})

infixl 5 ◌>>=◌ ◌>>◌
abbrev pub ◌>>=◌ {ℓ κ} :
    {E : Type 0} {A : Type ℓ} {B : Type κ} → Result E A → (A → Result E B) → Result E B
failed reason >>= next = failed reason
ok made >>= next = next made

abbrev pub ◌>>◌ {ℓ} : {E : Type 0} {A : Type ℓ} → Checked E → Result E A → Result E A
failed reason >> rest = failed reason
ok _ >> rest = rest

-- A test that must not hold.
abbrev pub reject : {E : Type 0} → Bool → E → Checked E
reject bad reason = if bad then failed reason else ok tt

-- A part that must be there, such as a text that parses.
abbrev pub demand {ℓ} : {E : Type 0} {A : Type ℓ} → Option A → E → Result E A
demand (some a) reason = ok a
demand none reason = failed reason

-- A part whose error is wrapped.
abbrev pub blame {ℓ} : {D E : Type 0} {A : Type ℓ} → (D → E) → Result D A → Result E A
blame wrap (ok a) = ok a
blame wrap (failed reason) = failed (wrap reason)

abbrev pub unit_of {ℓ} : {E : Type 0} {A : Type ℓ} → Result E A → Checked E
unit_of (ok a) = ok tt
unit_of (failed reason) = failed reason

-- The loop that returns at the first element that fails.
unfoldable pub each {ℓ} : {E : Type 0} {A : Type ℓ} → (A → Checked E) → List A → Checked E
each check [] = ok tt
each check (x ∷ xs) = let rest = each check xs in check x >> rest

-- The loop that collects, and returns at the first element that fails.
unfoldable pub collect {ℓ κ} :
    {E : Type 0} {A : Type ℓ} {B : Type κ} → (A → Result E B) → List A → Result E (List B)
collect make [] = ok []
collect make (x ∷ xs) = let rest = collect make xs in make x >>= λ y. rest >>= λ ys. ok (y ∷ ys)

pub >>-ok {ℓ} :
    {E : Type 0} {A : Type ℓ} (first : Checked E) (rest : Result E A) {made : A}
    → (first >> rest) ≡ ok made
    → (first ≡ ok tt) × (rest ≡ ok made)
>>-ok (failed reason) rest h = cc
>>-ok (ok tt) rest h = (refl, h)

pub >>=-ok {ℓ κ} :
    {E : Type 0} {A : Type ℓ} {B : Type κ} (first : Result E A) (next : A → Result E B) {made : B}
    → (first >>= next) ≡ ok made
    → (a : A) × (first ≡ ok a) × (next a ≡ ok made)
>>=-ok (failed reason) next h = cc
>>=-ok (ok a) next h = (a, refl, h)

pub reject-ok : {E : Type 0} (bad : Bool) (reason : E) → reject bad reason ≡ ok tt → bad ≡ false
reject-ok true reason h = cc
reject-ok false reason h = refl

pub unit_of-ok {ℓ} :
    {E : Type 0} {A : Type ℓ} (r : Result E A) → unit_of r ≡ ok tt → (a : A) × (r ≡ ok a)
unit_of-ok (failed reason) h = cc
unit_of-ok (ok a) h = (a, refl)

pub blame-ok {ℓ} :
    {D E : Type 0} {A : Type ℓ} (wrap : D → E) (r : Result D A) {made : A}
    → blame wrap r ≡ ok made
    → r ≡ ok made
blame-ok wrap (failed reason) h = cc
blame-ok wrap (ok a) h = cc

pub each-All {ℓ} :
    {E : Type 0} {A : Type ℓ} (check : A → Checked E) (xs : List A)
    → each check xs ≡ ok tt
    → All (λ x. check x ≡ ok tt) xs
unfolding each
each-All check [] h = tt
each-All check (x ∷ xs) h =
    let (first, rest) = >>-ok (check x) (each check xs) h in (first, each-All check xs rest)

-- The code returns a result.
abbrev pub Made {ℓ} : {E : Type 0} {A : Type ℓ} → Result E A → Type ℓ
Made {A = A} r = (a : A) × (r ≡ ok a)

pub >>=-Made {ℓ κ} :
    {E : Type 0} {A : Type ℓ} {B : Type κ} (first : Result E A) (next : A → Result E B)
    → Made first
    → ((a : A) → first ≡ ok a → Made (next a))
    → Made (first >>= next)
>>=-Made (failed reason) next m rest = cc (m.1)
>>=-Made (ok a) next m rest = rest a refl

pub >>-Made {ℓ} :
    {E : Type 0} {A : Type ℓ} (first : Checked E) (rest : Result E A)
    → first ≡ ok tt
    → Made rest
    → Made (first >> rest)
>>-Made (failed reason) rest h m = cc
>>-Made (ok tt) rest h m = m

pub reject-pass : {E : Type 0} (bad : Bool) (reason : E) → bad ≡ false → reject bad reason ≡ ok tt
reject-pass bad reason h = rw h refl

pub blame-Made {ℓ} :
    {D E : Type 0} {A : Type ℓ} (wrap : D → E) (r : Result D A) → Made r → Made (blame wrap r)
blame-Made wrap (failed reason) m = cc (m.1)
blame-Made wrap (ok a) m = (a, refl)

pub demand-Made {ℓ} :
    {E : Type 0} {A : Type ℓ} (o : Option A) (reason : E)
    → (a : A) × (o ≡ some a)
    → Made (demand o reason)
demand-Made none reason m = cc (m.1)
demand-Made (some a) reason m = (a, refl)

-- A loop that collects succeeds where each step does.
pub collect-total {ℓ κ} :
    {E : Type 0} {A : Type ℓ} {B : Type κ} (make : A → Result E B) (xs : List A)
    → All (λ x. Made (make x)) xs
    → Made (collect make xs)
unfolding collect
collect-total make [] h = ([], refl)
collect-total make (x ∷ xs) h =
    let (y, e) = h.0 in let (ys, f) = collect-total make xs h.1 in (y ∷ ys, rw (e, f) refl)
