-- ===== src/MentalPoker/Permutations.antt =====
-- deck.go: what ValidatePermutation accepts sends distinct positions to distinct ones, and misses
-- none.
use brc100_poker.Base.{
  ℕ, zero, suc, ◌+◌, ◌≤◌, ◌<◌, ◌≡◌, ◌≢◌, ◌⊎◌, inl, inr, refl, sym, ap, ◌∙◌, Bool, true, false, none,
  some, List, [], ◌∷◌, map, arith, ◌==◌, if◌then◌else◌, pos, length, get_elem?, set, All, All-map,
  count_if, Bool-cases,
}
use brc100_poker.MentalPoker.Deck.{replicate, is_marked, validate_from, validate_permutation}

-- No entry stands twice.
abbrev pub Distinct : List ℕ → Type 0
Distinct [] = Unit
Distinct (v ∷ vs) = All (λ w. w ≢ v) vs × Distinct vs

-- As many distinct entries as there are positions, each of them a position.
pub record IsPermutation (vs : List ℕ) (n : ℕ) : Type 0 where
  pub size : length vs ≡ n
  pub entries : All (λ v. v < n) vs
  pub distinct : Distinct vs

is_marked-set :
    (seen : List Bool) (v w : ℕ)
    → v < length seen
    → is_marked (set seen v true) w ≡ (if v == w then true else is_marked seen w)
is_marked-set [] v w h = elim h [ ]
is_marked-set (b ∷ seen) zero zero h = refl
is_marked-set (b ∷ seen) zero (suc w) h = ground arith
is_marked-set (b ∷ seen) (suc v) zero h = ground arith
is_marked-set (b ∷ seen) (suc v) (suc w) h = ground (arith, is_marked-set seen v w (omega arith))

length-set : (seen : List Bool) (v : ℕ) → length (set seen v true) ≡ length seen
length-set [] v = refl
length-set (b ∷ seen) zero = refl
length-set (b ∷ seen) (suc v) = ap suc (length-set seen v)

is_marked-replicate : (n w : ℕ) → is_marked (replicate n false) w ≡ false
is_marked-replicate zero w = refl
is_marked-replicate (suc n) zero = refl
is_marked-replicate (suc n) (suc w) = is_marked-replicate n w

pub length-replicate {ℓ} : {A : Type ℓ} (n : ℕ) (a : A) → length (replicate n a) ≡ n
length-replicate zero a = refl
length-replicate (suc n) a = ap suc (length-replicate n a)

abbrev IsFree : ℕ → List Bool → ℕ → Type 0
IsFree n seen v = (v < n) × (is_marked seen v ≡ false)

validate_from-cons :
    (n v : ℕ) (vs : List ℕ) (seen : List Bool)
    → validate_from n (map pos (v ∷ vs)) seen ≡ none
    → IsFree n seen v × (validate_from n (map pos vs) (set seen v true) ≡ none)
unfolding validate_from
validate_from-cons n v vs seen e = ground arith

validate_from-IsFree :
    (n : ℕ) (vs : List ℕ) (seen : List Bool)
    → length seen ≡ n
    → validate_from n (map pos vs) seen ≡ none
    → All (IsFree n seen) vs × Distinct vs
validate_from-IsFree n [] seen l e = (tt, tt)
validate_from-IsFree n (v ∷ vs) seen l e =
    let (free, rest) = validate_from-cons n v vs seen e in
    let (frees, distinct) =
      validate_from-IsFree n vs (set seen v true) (length-set seen v ∙ l) rest in
    let v_small : v < length seen = omega (arith, free.0, l) in
    (
      (free, All-map (λ w f. (f.0, ground (arith, f.1, is_marked-set seen v w v_small))) vs frees),
      (All-map (λ w f. differs v w v_small f.1) vs frees, distinct),
    )
  where
    differs : (v w : ℕ) → v < length seen → is_marked (set seen v true) w ≡ false → w ≢ v
    differs v w small f e = absurd (ground (arith, f, e, is_marked-set seen v w small))

-- What ValidatePermutation accepts is a permutation.
pub validate_permutation-IsPermutation :
    (vs : List ℕ) (n : ℕ) → validate_permutation (map pos vs) n ≡ none → IsPermutation vs n
unfolding validate_permutation
validate_permutation-IsPermutation vs n e =
    let (size, valid) : (length (map pos vs) ≡ n)
        × (validate_from n (map pos vs) (replicate n false) ≡ none) =
      ground arith in
    let (frees, distinct) =
      validate_from-IsFree n vs (replicate n false) (length-replicate n false) valid in
    record {
      size = sym (length-map vs) ∙ size;
      entries = All-map (λ v f. f.0) vs frees;
      distinct = distinct;
    }
  where
    length-map : (ws : List ℕ) → length (map pos ws) ≡ length ws
    length-map [] = refl
    length-map (w ∷ ws) = ap suc (length-map ws)

-- Marking every entry.
mark_all : List ℕ → List Bool → List Bool
mark_all [] seen = seen
mark_all (v ∷ vs) seen = mark_all vs (set seen v true)

abbrev marks : List Bool → ℕ
marks seen = count_if (λ b. b) seen

marks-set :
    (seen : List Bool) (v : ℕ)
    → v < length seen
    → is_marked seen v ≡ false
    → marks (set seen v true) ≡ suc (marks seen)
marks-set [] v h f = elim h [ ]
marks-set (b ∷ seen) zero h f = ground arith
marks-set (b ∷ seen) (suc v) h f = ground (arith, marks-set seen v (omega arith))

marks-le : (seen : List Bool) → marks seen ≤ length seen
marks-le [] = omega arith
marks-le (b ∷ seen) = ground (arith, marks-le seen)

marks-full :
    (seen : List Bool) (w : ℕ)
    → marks seen ≡ length seen
    → w < length seen
    → is_marked seen w ≡ true
marks-full [] w e h = elim h [ ]
marks-full (b ∷ seen) zero e h = ground (arith, marks-le seen)
marks-full (b ∷ seen) (suc w) e h = ground (arith, marks-le seen, marks-full seen w)

mark_all-marks :
    (n : ℕ) (vs : List ℕ) (seen : List Bool)
    → length seen ≡ n
    → All (IsFree n seen) vs
    → Distinct vs
    → (marks (mark_all vs seen) ≡ marks seen + length vs) × (length (mark_all vs seen) ≡ n)
unfolding mark_all
mark_all-marks n [] seen l f d = (omega arith, l)
mark_all-marks n (v ∷ vs) seen l f d =
    let v_small : v < length seen = omega (arith, f.0.0, l) in
    let frees : All (IsFree n (set seen v true)) vs =
      All-map2
        (λ w free apart. (free.0, ground (arith, free.1, apart, is_marked-set seen v w v_small))) vs
        f.1 d.0 in
    let (count, size) : (marks (mark_all vs (set seen v true))
          ≡ marks (set seen v true) + length vs)
        × (length (mark_all vs (set seen v true)) ≡ n) =
      mark_all-marks n vs (set seen v true) (length-set seen v ∙ l) frees d.1 in
    (omega (arith, count, marks-set seen v v_small f.0.1), size)
  where
    All-map2 :
        {P Q R : ℕ → Type 0}
        → ((w : ℕ) → P w → Q w → R w)
        → (ws : List ℕ) → All P ws
        → All Q ws
        → All R ws
    All-map2 h [] p q = tt
    All-map2 h (w ∷ ws) p q = (h w p.0 q.0, All-map2 h ws p.1 q.1)

mark_all-source :
    (n : ℕ) (vs : List ℕ) (seen : List Bool) (w : ℕ)
    → length seen ≡ n
    → All (λ v. v < n) vs
    → is_marked (mark_all vs seen) w ≡ true
    → (is_marked seen w ≡ true) ⊎ ((k : ℕ) × (get_elem? vs k ≡ some w))
unfolding mark_all
mark_all-source n [] seen w l b m = inl m
mark_all-source n (v ∷ vs) seen w l b m =
    elim (mark_all-source n vs (set seen v true) w (length-set seen v ∙ l) b.1 m) [
      | inl old ↦ elim (Bool-cases (v == w)) [
        | inl same ↦ inr (0, ground (arith, same))
        | inr other ↦
            inl (ground (arith, old, other, is_marked-set seen v w (omega (arith, b.0, l))))
      ]
      | inr (k, e) ↦ inr (suc k, e)
    ]

-- A permutation reaches every position.
pub IsPermutation-reaches :
    (vs : List ℕ) (n w : ℕ) → IsPermutation vs n → w < n → (k : ℕ) × (get_elem? vs k ≡ some w)
IsPermutation-reaches vs n w p h =
    let empty = replicate n false in
    let size : length (replicate n false) ≡ n = length-replicate n false in
    let frees : All (IsFree n (replicate n false)) vs =
      All-map (λ v b. (b, is_marked-replicate n v)) vs p.entries in
    let (count, long) : (marks (mark_all vs (replicate n false))
          ≡ marks (replicate n false) + length vs)
        × (length (mark_all vs (replicate n false)) ≡ n) =
      mark_all-marks n vs empty size frees p.distinct in
    let some_marked : marks empty + length vs ≡ n =
      omega (arith, p.size, count, long, marks-le (mark_all vs empty)) in
    let full =
      marks-full (mark_all vs empty) w (omega (arith, count, long, some_marked))
        (omega (arith, h, long)) in
    elim (mark_all-source n vs empty w size p.entries full) [
      | inl marked ↦ absurd (ground (arith, marked, is_marked-replicate n w))
      | inr source ↦ source
    ]
