-- ===== src/Base/Lists.antt =====
-- Lists measured, indexed and summed by native numbers, under the library's names.
use Prim.Native.Nat.{ℕ, zero, suc, ◌+◌, ◌≤◌, ◌<◌, min}
use mathlib.Core.Path.{◌≡◌, refl, ap, subst, sym}
use mathlib.Core.Logic.{◌≢◌}
use mathlib.Core.Bool.{Bool, true, false, ◌&&◌, ◌||◌}
use mathlib.Core.List.{List, [], ◌∷◌, ◌++◌, map}
use mathlib.Core.Option.{Option, none, some}
use native.Mathlib.Omega.{arith}

module _ {ℓ} {A : Type ℓ} where
  abbrev pub length : List A → ℕ
  length [] = 0
  length (x ∷ xs) = suc (length xs)

  abbrev pub get_elem? : List A → ℕ → Option A
  get_elem? [] i = none
  get_elem? (x ∷ xs) zero = some x
  get_elem? (x ∷ xs) (suc i) = get_elem? xs i

  -- A write out of bounds changes nothing.
  abbrev pub set : List A → ℕ → A → List A
  set [] i v = []
  set (x ∷ xs) zero v = v ∷ xs
  set (x ∷ xs) (suc i) v = x ∷ set xs i v

  -- An in-place update of one element.
  abbrev pub modify_at : ℕ → (A → A) → List A → List A
  modify_at i f [] = []
  modify_at zero f (x ∷ xs) = f x ∷ xs
  modify_at (suc i) f (x ∷ xs) = x ∷ modify_at i f xs

  abbrev pub take : ℕ → List A → List A
  take zero xs = []
  take (suc n) [] = []
  take (suc n) (x ∷ xs) = x ∷ take n xs

  abbrev pub drop : ℕ → List A → List A
  drop zero xs = xs
  drop (suc n) [] = []
  drop (suc n) (x ∷ xs) = drop n xs

  abbrev pub all : (A → Bool) → List A → Bool
  all p [] = true
  all p (x ∷ xs) = p x && all p xs

  abbrev pub any : (A → Bool) → List A → Bool
  any p [] = false
  any p (x ∷ xs) = p x || any p xs

  -- How many elements pass a test.
  abbrev pub count_if : (A → Bool) → List A → ℕ
  count_if p [] = 0
  count_if p (x ∷ xs) = elim (p x) [ true ↦ suc (count_if p xs) | false ↦ count_if p xs ]

  -- The sum of a number over a list.
  abbrev pub sum_of : (A → ℕ) → List A → ℕ
  sum_of f [] = 0
  sum_of f (x ∷ xs) = f x + sum_of f xs

  abbrev pub keep_if : (A → Bool) → List A → List A
  keep_if p [] = []
  keep_if p (x ∷ xs) = elim (p x) [ true ↦ x ∷ keep_if p xs | false ↦ keep_if p xs ]

-- A predicate on every element, which computes to a tuple.
abbrev pub All {ℓ κ} : {A : Type ℓ} → (A → Type κ) → List A → Type κ
All P [] = Unit
All P (x ∷ xs) = P x × All P xs

module _ {ℓ} {A : Type ℓ} where
  pub length-append : (xs ys : List A) → length (xs ++ ys) ≡ length xs + length ys
  length-append [] ys = omega arith
  length-append (x ∷ xs) ys = omega (arith, length-append xs ys)

  pub length-modify_at : (i : ℕ) (f : A → A) (xs : List A) → length (modify_at i f xs) ≡ length xs
  length-modify_at i f [] = refl
  length-modify_at zero f (x ∷ xs) = refl
  length-modify_at (suc i) f (x ∷ xs) = ap suc (length-modify_at i f xs)

  pub length-take : (n : ℕ) (xs : List A) → length (take n xs) ≡ min n (length xs)
  length-take zero xs = omega arith
  length-take (suc n) [] = omega arith
  length-take (suc n) (x ∷ xs) = omega (arith, length-take n xs)

  pub get_elem?-set_self :
      (xs : List A) (i : ℕ) (v : A) → i < length xs → get_elem? (set xs i v) i ≡ some v
  get_elem?-set_self [] i v h = elim h [ ]
  get_elem?-set_self (x ∷ xs) zero v h = refl
  get_elem?-set_self (x ∷ xs) (suc i) v h = get_elem?-set_self xs i v (omega arith)

  -- An update that moves the summed number by a known step moves the sum by that step.
  pub sum_of-modify_at :
      (g : A → ℕ) (f : A → A) (i : ℕ) (xs : List A) {x : A}
      → get_elem? xs i ≡ some x
      → sum_of g (modify_at i f xs) + g x ≡ sum_of g xs + g (f x)
  sum_of-modify_at g f i [] e = ground arith
  sum_of-modify_at g f zero (y ∷ ys) e = ground arith
  sum_of-modify_at g f (suc i) (y ∷ ys) e = omega (arith, sum_of-modify_at g f i ys e)

  pub sum_of-append : (g : A → ℕ) (xs ys : List A) → sum_of g (xs ++ ys) ≡ sum_of g xs + sum_of g ys
  sum_of-append g [] ys = omega arith
  sum_of-append g (x ∷ xs) ys = omega (arith, sum_of-append g xs ys)

  pub sum_of-ge :
      (g : A → ℕ) (i : ℕ) (xs : List A) {x : A} → get_elem? xs i ≡ some x → g x ≤ sum_of g xs
  sum_of-ge g i [] e = ground arith
  sum_of-ge g zero (y ∷ ys) e = ground arith
  sum_of-ge g (suc i) (y ∷ ys) e = omega (arith, sum_of-ge g i ys e)

  pub count_if-cons_true :
      (p : A → Bool) (x : A) (xs : List A) → p x ≡ true → count_if p (x ∷ xs) ≡ suc (count_if p xs)
  count_if-cons_true p x xs e = rw (e, count_if)

  pub count_if-cons_false :
      (p : A → Bool) (x : A) (xs : List A) → p x ≡ false → count_if p (x ∷ xs) ≡ count_if p xs
  count_if-cons_false p x xs e = rw (e, count_if)

  -- An update that leaves the summed number alone leaves the sum alone.
  pub sum_of-modify_at_same :
      (g : A → ℕ) (f : A → A) (i : ℕ) (xs : List A)
      → ((x : A) → g (f x) ≡ g x)
      → sum_of g (modify_at i f xs) ≡ sum_of g xs
  sum_of-modify_at_same g f i [] h = refl
  sum_of-modify_at_same g f zero (y ∷ ys) h = omega (arith, h y)
  sum_of-modify_at_same g f (suc i) (y ∷ ys) h = omega (arith, sum_of-modify_at_same g f i ys h)

  pub sum_of-add :
      (f g : A → ℕ) (xs : List A) → sum_of (λ x. f x + g x) xs ≡ sum_of f xs + sum_of g xs
  sum_of-add f g [] = omega arith
  sum_of-add f g (x ∷ xs) = omega (arith, sum_of-add f g xs)

pub get_elem?-map-some {ℓ} :
    {A : Type ℓ} (xs : List A) (i : ℕ) {x : A}
    → get_elem? xs i ≡ some x
    → get_elem? (map some xs) i ≡ some (some x)
get_elem?-map-some [] i e = absurd (cc e)
get_elem?-map-some (y ∷ ys) zero e = cc
get_elem?-map-some (y ∷ ys) (suc i) e = get_elem?-map-some ys i e

pub some_eq {ℓ} : {A : Type ℓ} {a b : A} → some a ≡ some b → a ≡ b
some_eq e = cc

pub All-map {ℓ κ μ} :
    {A : Type ℓ} {P : A → Type κ} {Q : A → Type μ}
    → ((x : A) → P x → Q x)
    → (xs : List A) → All P xs
    → All Q xs
All-map f [] a = tt
All-map f (x ∷ xs) a = (f x a.0, All-map f xs a.1)

module _ {ℓ κ} {A : Type ℓ} (P : A → Type κ) where
  pub All-modify_at :
      (f : A → A) (i : ℕ) (xs : List A)
      → ((x : A) → P x → P (f x))
      → All P xs
      → All P (modify_at i f xs)
  All-modify_at f i [] h a = a
  All-modify_at f zero (y ∷ ys) h a = (h y a.0, a.1)
  All-modify_at f (suc i) (y ∷ ys) h a = (a.0, All-modify_at f i ys h a.1)

  -- The same where only the element that is met needs to be known.
  pub All-modify_at_one :
      (f : A → A) (i : ℕ) (xs : List A) {x : A}
      → get_elem? xs i ≡ some x
      → P (f x)
      → All P xs
      → All P (modify_at i f xs)
  All-modify_at_one f i [] e h a = a
  All-modify_at_one f zero (y ∷ ys) e h a = (subst (λ z. P (f z)) (sym (some_eq e)) h, a.1)
  All-modify_at_one f (suc i) (y ∷ ys) e h a = (a.0, All-modify_at_one f i ys e h a.1)

  pub All-get_elem? : (i : ℕ) (xs : List A) {x : A} → get_elem? xs i ≡ some x → All P xs → P x
  All-get_elem? i [] e a = absurd (cc e)
  All-get_elem? zero (y ∷ ys) e a = subst P (some_eq e) a.0
  All-get_elem? (suc i) (y ∷ ys) e a = All-get_elem? i ys e a.1

  pub All-append : (xs ys : List A) → All P xs → All P ys → All P (xs ++ ys)
  All-append [] ys a b = b
  All-append (x ∷ xs) ys a b = (a.0, All-append xs ys a.1 b)

  pub All-keep_if : (p : A → Bool) (xs : List A) → All P xs → All P (keep_if p xs)
  All-keep_if p [] a = a
  All-keep_if p (x ∷ xs) a =
      elim (p x) as (λ b. All P (elim b [ true ↦ x ∷ keep_if p xs | false ↦ keep_if p xs ])) [
        | true ↦ (a.0, All-keep_if p xs a.1)
        | false ↦ All-keep_if p xs a.1
      ]

module _ {ℓ} {A : Type ℓ} where
  -- What stands at a position after an update.
  pub get_elem?-modify_at_self :
      (f : A → A) (i : ℕ) (xs : List A) {x : A}
      → get_elem? xs i ≡ some x
      → get_elem? (modify_at i f xs) i ≡ some (f x)
  get_elem?-modify_at_self f i [] e = absurd (cc)
  get_elem?-modify_at_self f zero (y ∷ ys) e = cc
  get_elem?-modify_at_self f (suc i) (y ∷ ys) e = get_elem?-modify_at_self f i ys e

  pub get_elem?-modify_at_ne :
      (f : A → A) (i j : ℕ) (xs : List A) → i ≢ j → get_elem? (modify_at i f xs) j ≡ get_elem? xs j
  get_elem?-modify_at_ne f i j [] h = refl
  get_elem?-modify_at_ne f zero zero (y ∷ ys) h = absurd (h refl)
  get_elem?-modify_at_ne f zero (suc j) (y ∷ ys) h = refl
  get_elem?-modify_at_ne f (suc i) zero (y ∷ ys) h = refl
  get_elem?-modify_at_ne f (suc i) (suc j) (y ∷ ys) h =
      get_elem?-modify_at_ne f i j ys (λ e. h (ap suc e))
