-- ===== src/MentalPoker/Deals.antt =====
-- deck.go: the steps of a whole deal, and what the scalars of all seats read in the final deck.
use brc100_poker.Base.{
  ℕ, zero, suc, ◌<◌, ◌≡◌, refl, sym, ap, subst, ◌∙◌, none, some, List, [], ◌∷◌, map, arith, pos,
  length, get_elem?, All, All-get_elem?, some_eq,
}
use brc100_poker.MentalPoker.{Curve, IsGroup, Result, ok, ◌>>=◌}
use brc100_poker.MentalPoker.Deck.{
  Deck, validate_permutation, base_deck, shuffle_step, remask_step, unmask_at, card_index_of,
}
use brc100_poker.MentalPoker.Masks.{IsScalar, IsOn, mult-IsOn, masks, masks-IsOn, masks-mult}
use brc100_poker.MentalPoker.Permutations.{
  validate_permutation-IsPermutation, IsPermutation-reaches,
}
use brc100_poker.MentalPoker.Shuffles.{cards, shuffle_step-moves, get_elem?-in}
use brc100_poker.MentalPoker.Remasks.{remask_step-moves}

-- The secrets of a `HandPlayer`: `global`, `pendingPerm` and `perPosition`.
pub record Secrets : Type 0 where
  pub global : ℕ
  pub perm : List ℕ
  pub per_position : List ℕ

-- Entry `k` of a list of numbers.
abbrev pub entry : List ℕ → ℕ → ℕ
entry ns k = elim (get_elem? ns k) [ none ↦ 0 | some n ↦ n ]

-- The position where card `i` ends.
abbrev pub place : List Secrets → ℕ → ℕ
place [] i = i
place (s ∷ seats) i = place seats (entry s.perm i)

-- The scalars that the seats put on a position, in the order of the seats.
abbrev pub column : List Secrets → ℕ → List ℕ
column [] q = []
column (s ∷ seats) q = entry s.per_position q ∷ column seats q

abbrev pub globals : List Secrets → List ℕ
globals seats = map (λ (s : Secrets). s.global) seats

pub entry-some : (ns : List ℕ) (k : ℕ) → k < length ns → get_elem? ns k ≡ some (entry ns k)
entry-some [] k h = elim h [ ]
entry-some (n ∷ ns) zero h = refl
entry-some (n ∷ ns) (suc k) h = entry-some ns k (omega arith)

module _ (c : Curve) where
  -- A chain of `ShuffleStep`: each seat shuffles the deck of the one before it.
  unfoldable pub shuffle_all : List Secrets → Deck c → Result (Deck c)
  shuffle_all [] d = ok d
  shuffle_all (s ∷ seats) d = do
    d' ← shuffle_step c d (some s.global) (map pos s.perm)
    shuffle_all seats d'

  -- A chain of `RemaskStep`.
  unfoldable pub remask_all : List Secrets → Deck c → Result (Deck c)
  remask_all [] d = ok d
  remask_all (s ∷ seats) d = do
    d' ← remask_step c d (some s.global) (map some s.per_position)
    remask_all seats d'

  -- The steps of a deal in their order. The methods of `HandPlayer` that take them are in `Hand.Passes`.
  unfoldable pub deal : List Secrets → ℕ → Result (Deck c)
  deal seats n = do
    base ← base_deck c (pos n)
    shuffled ← shuffle_all seats base
    remask_all seats shuffled

  -- A position unmasked by scalars, and the card that shows.
  unfoldable pub read : Deck c → ℕ → List ℕ → ℕ → Result ℕ
  read d q scalars n = do p ← unmask_at c d (pos q) (map some scalars); card_index_of c p n

module _ (c : Curve) (g : IsGroup c) where
  -- A seat that follows the protocol: a scalar in range, a permutation of the deck, and a scalar in
  -- range for each position.
  pub record IsFair (n : ℕ) (s : Secrets) : Type 0 where
    pub scalar : IsScalar c g s.global
    pub shuffles : validate_permutation (map pos s.perm) n ≡ none
    pub scalars : All (IsScalar c g) s.per_position
    pub one_each : length s.per_position ≡ n

  pub globals-scalars :
      (n : ℕ) (seats : List Secrets) → All (IsFair n) seats → All (IsScalar c g) (globals seats)
  globals-scalars n [] f = tt
  globals-scalars n (s ∷ seats) f = (f.0.scalar, globals-scalars n seats f.1)

  pub column-scalars :
      (n q : ℕ) (seats : List Secrets)
      → All (IsFair n) seats
      → q < n
      → All (IsScalar c g) (column seats q)
  column-scalars n q [] f h = tt
  column-scalars n q (s ∷ seats) f h = (
    All-get_elem? (IsScalar c g) q s.per_position
        (entry-some s.per_position q (omega (arith, h, f.0.one_each))) f.0.scalars,
    column-scalars n q seats f.1 h,
  )

  entry-perm :
      (n k : ℕ) (s : Secrets)
      → IsFair n s
      → k < n
      → (get_elem? s.perm k ≡ some (entry s.perm k)) × (entry s.perm k < n)
  entry-perm n k s f h =
      let p = validate_permutation-IsPermutation s.perm n f.shuffles in
      let e = entry-some s.perm k (omega (arith, h, p.size)) in
      (e, All-get_elem? (λ v. v < n) k s.perm e p.entries)

  pub place-lt : (n k : ℕ) (seats : List Secrets) → All (IsFair n) seats → k < n → place seats k < n
  place-lt n k [] f h = h
  place-lt n k (s ∷ seats) f h = place-lt n (entry s.perm k) seats f.1 (entry-perm n k s f.0 h).1

  pub place-reaches :
      (n q : ℕ) (seats : List Secrets)
      → All (IsFair n) seats
      → q < n
      → (i : ℕ) × (i < n) × (place seats i ≡ q)
  place-reaches n q [] f h = (q, h, refl)
  place-reaches n q (s ∷ seats) f h =
      let (m, b, e) = place-reaches n q seats f.1 h in
      let p = validate_permutation-IsPermutation s.perm n f.0.shuffles in
      let (k, at_k) = IsPermutation-reaches s.perm n m p b in
      let small : k < n = subst (λ z. k < z) p.size (get_elem?-in s.perm k at_k) in
      let same : entry s.perm k ≡ m = some_eq (sym (entry-perm n k s f.0 small).0 ∙ at_k) in
      (k, small, ap (place seats) same ∙ e)

  pub shuffle_all-moves :
      (n : ℕ) (seats : List Secrets) (ps : List c.Coords)
      → All (IsFair n) seats
      → length ps ≡ n
      → All (IsOn c g) ps
      → (ps' : List c.Coords) × (shuffle_all c seats (cards c g ps) ≡ ok (cards c g ps'))
        × (length ps' ≡ n)
        × All (IsOn c g) ps'
        × ((k : ℕ) (p : c.Coords)
            → get_elem? ps k ≡ some p
            → get_elem? ps' (place seats k) ≡ some (masks c g (globals seats) p))
  unfolding shuffle_all
  shuffle_all-moves n [] ps f l o = (ps, refl, l, o, (λ k p e. e))
  shuffle_all-moves n (s ∷ seats) ps f l o =
      let valid =
        subst (λ m. validate_permutation (map pos s.perm) m ≡ none) (sym l) f.0.shuffles in
      let (qs, done, size, on, moved) =
        shuffle_step-moves c g s.global ps s.perm f.0.scalar o valid in
      let (ps', done', size', on', moved') = shuffle_all-moves n seats qs f.1 (size ∙ l) on in
      (
        ps',
        rw done done',
        size',
        on',
        (λ k p e. moved' (entry s.perm k) (c.mult p s.global) (
            moved k (entry s.perm k) p
              (entry-perm n k s f.0 (subst (λ m. k < m) l (get_elem?-in ps k e))).0 e)),
      )

  pub remask_all-moves :
      (n : ℕ) (seats : List Secrets) (ps : List c.Coords)
      → All (IsFair n) seats
      → length ps ≡ n
      → All (IsOn c g) ps
      → (ps' : List c.Coords) × (remask_all c seats (cards c g ps) ≡ ok (cards c g ps'))
        × (length ps' ≡ n)
        × ((q : ℕ) (b : c.Coords)
            → IsOn c g b
            → get_elem? ps q ≡ some (masks c g (globals seats) b)
            → get_elem? ps' q ≡ some (masks c g (column seats q) b))
  unfolding remask_all
  remask_all-moves n [] ps f l o = (ps, refl, l, (λ q b on e. e))
  remask_all-moves n (s ∷ seats) ps f l o =
      let (qs, done, size, on, moved) =
        remask_step-moves c g s.global ps s.per_position f.0.scalar f.0.scalars o
          (f.0.one_each ∙ sym l) in
      let (ps', done', size', moved') = remask_all-moves n seats qs f.1 (size ∙ l) on in
      (
        ps',
        rw done done',
        size',
        (λ q b ob e.
            let gs = globals-scalars n seats f.1 in
            let small : q < n = subst (λ m. q < m) l (get_elem?-in ps q e) in
            let t = entry s.per_position q in
            let here = entry-some s.per_position q (omega (arith, small, f.0.one_each)) in
            let st = All-get_elem? (IsScalar c g) q s.per_position here f.0.scalars in
            let was = masks-mult c g (globals seats) b s.global ob gs in
            let now = masks-mult c g (globals seats) b t ob gs in
            moved' q (c.mult b t) (mult-IsOn c g b t ob st) (
              moved q t (masks c g (globals seats) b) (masks-IsOn c g (globals seats) b ob gs) here
                (e ∙ ap some was)
              ∙ ap some (sym now))),
      )
