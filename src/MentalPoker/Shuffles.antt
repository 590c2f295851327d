-- ===== src/MentalPoker/Shuffles.antt =====
-- deck.go: one shuffle step masks every card and moves it to where the permutation sends it.
use brc100_poker.Base.{
  ℕ, zero, suc, ◌<◌, ◌≡◌, ◌≢◌, refl, sym, ap, subst, ◌∙◌, none, some, List, [], ◌∷◌, map, arith,
  pos, length, get_elem?, set, get_elem?-set_self, All, All-map, All-get_elem?, some_eq,
}
use brc100_poker.MentalPoker.{Curve, IsGroup, ok}
use brc100_poker.MentalPoker.Deck.{Deck, replicate, validate_permutation, scatter, shuffle_step}
use brc100_poker.MentalPoker.Masks.{IsScalar, IsOn, mult-IsOn, scalar_valid-IsScalar, mask-on}
use brc100_poker.MentalPoker.Permutations.{
  Distinct, IsPermutation, validate_permutation-IsPermutation, IsPermutation-reaches,
  length-replicate,
}

get_elem?-set_ne {ℓ} :
    {A : Type ℓ} (xs : List A) (i j : ℕ) (a : A) → i ≢ j → get_elem? (set xs i a) j ≡ get_elem? xs j
get_elem?-set_ne [] i j a n = refl
get_elem?-set_ne (x ∷ xs) zero zero a n = absurd (n refl)
get_elem?-set_ne (x ∷ xs) zero (suc j) a n = refl
get_elem?-set_ne (x ∷ xs) (suc i) zero a n = refl
get_elem?-set_ne (x ∷ xs) (suc i) (suc j) a n = get_elem?-set_ne xs i j a (λ e. n (ap suc e))

pub length-set {ℓ} : {A : Type ℓ} (xs : List A) (i : ℕ) (a : A) → length (set xs i a) ≡ length xs
length-set [] i a = refl
length-set (x ∷ xs) zero a = refl
length-set (x ∷ xs) (suc i) a = ap suc (length-set xs i a)

pub length-map {ℓ κ} :
    {A : Type ℓ} {B : Type κ} (f : A → B) (xs : List A) → length (map f xs) ≡ length xs
length-map f [] = refl
length-map f (x ∷ xs) = ap suc (length-map f xs)

pub get_elem?-in {ℓ} :
    {A : Type ℓ} (xs : List A) (i : ℕ) {a : A} → get_elem? xs i ≡ some a → i < length xs
get_elem?-in [] i e = absurd (cc e)
get_elem?-in (x ∷ xs) zero e = omega arith
get_elem?-in (x ∷ xs) (suc i) e = omega (arith, get_elem?-in xs i e)

-- A position within a list holds something.
pub get_elem?-some {ℓ} :
    {A : Type ℓ} (xs : List A) (i : ℕ) → i < length xs → (a : A) × (get_elem? xs i ≡ some a)
get_elem?-some [] i h = elim h [ ]
get_elem?-some (x ∷ xs) zero h = (x, refl)
get_elem?-some (x ∷ xs) (suc i) h = get_elem?-some xs i (omega arith)

module _ (c : Curve) (g : IsGroup c) where
  -- The cards of a deck whose points are all there.
  abbrev pub cards : List c.Coords → Deck c
  cards ps = map some ps

  scatter-cons :
      (d : ℕ) (p : c.Coords) (ps : List c.Coords) (v : ℕ) (vs : List ℕ) (out : Deck c)
      → IsOn c g p
      → IsScalar c g d
      → scatter c (some d) (cards (p ∷ ps)) (map pos (v ∷ vs)) out
        ≡ scatter c (some d) (cards ps) (map pos vs) (set out v (some (c.mult p d)))
  unfolding scatter
  scatter-cons d p ps v vs out o s = ground (arith, mask-on c g p d o s)

  -- Where the loop writes, and what it leaves.
  record Scattered (d : ℕ) (ps : List c.Coords) (vs : List ℕ) (out out' : Deck c) : Type 0 where
    done : scatter c (some d) (cards ps) (map pos vs) out ≡ ok out'
    size : length out' ≡ length out
    moved :
        (k v : ℕ) (p : c.Coords)
        → get_elem? vs k ≡ some v
        → get_elem? ps k ≡ some p
        → get_elem? out' v ≡ some (some (c.mult p d))
    kept : (w : ℕ) → All (λ v. v ≢ w) vs → get_elem? out' w ≡ get_elem? out w

  scatter-Scattered :
      (d : ℕ) (ps : List c.Coords) (vs : List ℕ) (out : Deck c)
      → IsScalar c g d
      → All (IsOn c g) ps
      → length vs ≡ length ps
      → All (λ v. v < length out) vs
      → Distinct vs
      → (out' : Deck c) × Scattered d ps vs out out'
  scatter-Scattered d [] [] out s o l b u = (
    out,
    record {
      done = unfold scatter in refl;
      size = refl;
      moved = (λ k v p e f. absurd (cc e));
      kept = (λ w a. refl);
    },
  )
  scatter-Scattered d [] (v ∷ vs) out s o l b u = absurd (omega arith)
  scatter-Scattered d (p ∷ ps) [] out s o l b u = absurd (omega arith)
  scatter-Scattered d (p ∷ ps) (v ∷ vs) out s o l b u =
      let next = set out v (some (c.mult p d)) in
      let same = length-set out v (some (c.mult p d)) in
      let fits = All-map (λ w (h : w < length out). subst (λ n. w < n) (sym same) h) vs b.1 in
      let (out', rest) = scatter-Scattered d ps vs next s o.1 (omega arith) fits u.1 in
      (
        out',
        record {
          done = scatter-cons d p ps v vs out o.0 s ∙ rest.done;
          size = rest.size ∙ same;
          moved = first out' rest.moved (rest.kept v u.0 ∙ get_elem?-set_self out v _ b.0);
          kept = (λ w a. rest.kept w a.1 ∙ get_elem?-set_ne out v w _ a.0);
        },
      )
    where
      first :
          (out' : Deck c)
          → ((k w : ℕ) (q : c.Coords)
              → get_elem? vs k ≡ some w
              → get_elem? ps k ≡ some q
              → get_elem? out' w ≡ some (some (c.mult q d)))
          → get_elem? out' v ≡ some (some (c.mult p d))
          → (k w : ℕ) (q : c.Coords) → get_elem? (v ∷ vs) k ≡ some w
          → get_elem? (p ∷ ps) k ≡ some q
          → get_elem? out' w ≡ some (some (c.mult q d))
      first out' later here zero w q e f =
          subst (λ z. get_elem? out' z ≡ some (some (c.mult q d))) (some_eq e)
            (subst (λ z. get_elem? out' v ≡ some (some (c.mult z d))) (some_eq f) here)
      first out' later here (suc k) w q e f = later k w q e f

  -- A deck whose every position holds a point of the curve.
  filled :
      (out : Deck c)
      → ((w : ℕ) → w < length out → (p : c.Coords) × (get_elem? out w ≡ some (some p)) × IsOn c g p)
      → (ps : List c.Coords) × (out ≡ cards ps) × All (IsOn c g) ps
  filled [] h = ([], refl, tt)
  filled (x ∷ out) h =
      let (p, e, o) = h 0 (omega arith) in
      let (ps, same, os) = filled out (λ w b. h (suc w) (omega arith)) in
      (p ∷ ps, (ap (λ y. y ∷ out) (some_eq e) ∙ ap (λ ys. some p ∷ ys) same), (o, os))

  get_elem?-cards :
      (ps : List c.Coords) (k : ℕ) {p : c.Coords}
      → get_elem? (cards ps) k ≡ some (some p)
      → get_elem? ps k ≡ some p
  get_elem?-cards [] k e = absurd (cc e)
  get_elem?-cards (q ∷ ps) zero e = cc
  get_elem?-cards (q ∷ ps) (suc k) e = get_elem?-cards ps k e

  -- A step by a valid permutation succeeds, and the card at `k` goes, masked, to the `k`-th entry.
  pub shuffle_step-moves :
      (d : ℕ) (ps : List c.Coords) (vs : List ℕ)
      → IsScalar c g d
      → All (IsOn c g) ps
      → validate_permutation (map pos vs) (length ps) ≡ none
      → (ps' : List c.Coords) × (shuffle_step c (cards ps) (some d) (map pos vs) ≡ ok (cards ps'))
        × (length ps' ≡ length ps)
        × All (IsOn c g) ps'
        × ((k v : ℕ) (p : c.Coords)
            → get_elem? vs k ≡ some v
            → get_elem? ps k ≡ some p
            → get_elem? ps' v ≡ some (c.mult p d))
  shuffle_step-moves d ps vs s o valid =
      let n = length ps in
      let perm : IsPermutation vs n = validate_permutation-IsPermutation vs n valid in
      let out : Deck c = replicate (length (cards ps)) none in
      let long : length out ≡ n = length-replicate (length (cards ps)) none ∙ length-map some ps in
      let fits = All-map (λ w (h : w < n). subst (λ m. w < m) (sym long) h) vs perm.entries in
      let (out', sc) = scatter-Scattered d ps vs out s o perm.size fits perm.distinct in
      let size : length out' ≡ n = sc.size ∙ long in
      let (ps', same, os) = filled out' (holds d ps vs out out' s o perm sc size) in
      (
        ps',
        unfold shuffle_step in
            (ground (
              arith,
              sc.done,
              scalar_valid-IsScalar c g d s,
              same,
              subst (λ m. validate_permutation (map pos vs) m ≡ none) (sym (length-map some ps))
                  valid,
            )),
        sym (length-map some ps') ∙ ap length (sym same) ∙ size,
        os,
        (λ k v p e f.
            get_elem?-cards ps' v
              (subst (λ x. get_elem? x v ≡ some (some (c.mult p d))) same (sc.moved k v p e f))),
      )
    where
      holds :
          (d : ℕ) (ps : List c.Coords) (vs : List ℕ) (out out' : Deck c)
          → IsScalar c g d
          → All (IsOn c g) ps
          → IsPermutation vs (length ps)
          → Scattered d ps vs out out'
          → length out' ≡ length ps
          → (w : ℕ) → w < length out'
          → (q : c.Coords) × (get_elem? out' w ≡ some (some q)) × IsOn c g q
      holds d ps vs out out' s o perm sc size w h =
          let (k, e) = IsPermutation-reaches vs (length ps) w perm (subst (λ m. w < m) size h) in
          let (p, f) = get_elem?-some ps k (subst (λ m. k < m) perm.size (get_elem?-in vs k e)) in
          (c.mult p d, sc.moved k w p e f, mult-IsOn c g p d (All-get_elem? (IsOn c g) k ps f o) s)
