-- ===== src/MentalPoker/Deck.antt =====
-- internal/game/mentalpoker/deck.go. Positions and permutation entries are Go ints; a write is at an
-- index that has been checked.
use brc100_poker.Base.{
  ℕ, zero, suc, Bool, true, false, not, ◌&&◌, Option, none, some, List, [], ◌∷◌, leb, ◌==◌,
  if◌then◌else◌, ℤ, pos, negsuc, Text, text_eq, length, get_elem?, set,
}
use brc100_poker.MentalPoker.{
  Curve, Point, Scalar, Result, ok, err, ◌>>=◌, Fault, scalar_valid, inverse, card_point,
  point_valid, mask, unmask, point_equal, invalid_scalar, invalid_point, bad_deck_size, empty_deck,
  position_out_of_range, bad_permutation_size, entry_out_of_range, entry_repeated, bad_scalar_count,
  no_match, index_panic,
}

-- `make`: so many zero values.
abbrev pub replicate {ℓ} : {A : Type ℓ} → ℕ → A → List A
replicate zero a = []
replicate (suc n) a = a ∷ replicate n a

-- A Boolean of `seen`, read at an index that is in bounds.
abbrev pub is_marked : List Bool → ℕ → Bool
is_marked seen k = elim (get_elem? seen k) [ none ↦ false | some b ↦ b ]

-- The loop of `ValidatePermutation`.
unfoldable pub validate_from : ℕ → List ℤ → List Bool → Option Fault
validate_from n [] seen = none
validate_from n (negsuc v ∷ perm) seen = some entry_out_of_range
validate_from n (pos v ∷ perm) seen =
    let rest = validate_from n perm (set seen v true) in
    if leb n v
    then some entry_out_of_range
    else if is_marked seen v
    then some entry_repeated
    else rest

-- `ValidatePermutation`.
unfoldable pub validate_permutation : List ℤ → ℕ → Option Fault
validate_permutation perm n =
    if not (length perm == n)
    then some bad_permutation_size
    else validate_from n perm (replicate n false)

module _ (c : Curve) where
  abbrev pub Deck : Type 0
  Deck = List (Point c)

  -- The loop of `BaseDeck`: `k` cards from card `i` on.
  unfoldable pub base_from : ℕ → ℕ → Result Deck
  base_from i zero = ok []
  base_from i (suc k) = do p ← card_point c (pos i); rest ← base_from (suc i) k; ok (p ∷ rest)

  -- `BaseDeck`.
  unfoldable pub base_deck : ℤ → Result Deck
  base_deck (negsuc n) = err bad_deck_size
  base_deck (pos zero) = err bad_deck_size
  base_deck (pos (suc n)) = base_from 0 (suc n)

  unfoldable pub all_valid : Deck → Bool
  all_valid [] = true
  all_valid (p ∷ points) = point_valid c p && all_valid points

  -- `DeckFromPoints`.
  unfoldable pub deck_from_points : List (Point c) → Result Deck
  deck_from_points [] = err empty_deck
  deck_from_points (p ∷ points) =
      if all_valid (p ∷ points) then ok (p ∷ points) else err invalid_point

  -- `At`.
  unfoldable pub at : Deck → ℤ → Result (Point c)
  at d (negsuc n) = err position_out_of_range
  at d (pos i) = elim (get_elem? d i) [ none ↦ err position_out_of_range | some p ↦ ok p ]

  -- `Equal` of two decks.
  unfoldable pub deck_equal : Deck → Deck → Bool
  deck_equal [] [] = true
  deck_equal [] (q ∷ e) = false
  deck_equal (p ∷ d) [] = false
  deck_equal (p ∷ d) (q ∷ e) = point_equal c p q && deck_equal d e

  -- `out[v] = masked`.
  abbrev pub write : Deck → ℤ → Point c → Deck
  write out (negsuc v) p = out
  write out (pos v) p = set out v p

  -- The loop of `ShuffleStep`.
  unfoldable pub scatter : Scalar → Deck → List ℤ → Deck → Result Deck
  scatter global [] perm out = ok out
  scatter global (p ∷ d) [] out = err index_panic
  scatter global (p ∷ d) (v ∷ perm) out = do
    masked ← mask c p global
    scatter global d perm (write out v masked)

  -- `ShuffleStep`.
  unfoldable pub shuffle_step : Deck → Scalar → List ℤ → Result Deck
  shuffle_step d global perm =
      if not (scalar_valid c global)
      then err invalid_scalar
      else elim (validate_permutation perm (length d)) [
        | some e ↦ err e
        | none ↦ scatter global d perm (replicate (length d) none)
      ]

  -- One position of `RemaskStep`.
  unfoldable pub remask_one : Scalar → Point c → Scalar → Result (Point c)
  remask_one inv p s =
      if not (scalar_valid c s)
      then err invalid_scalar
      else (do stripped ← mask c p inv; mask c stripped s)

  -- The loop of `RemaskStep`.
  unfoldable pub remask_from : Scalar → Deck → List Scalar → Result Deck
  remask_from inv [] scalars = ok []
  remask_from inv (p ∷ d) [] = err index_panic
  remask_from inv (p ∷ d) (s ∷ scalars) = do
    q ← remask_one inv p s
    rest ← remask_from inv d scalars
    ok (q ∷ rest)

  -- `RemaskStep`.
  unfoldable pub remask_step : Deck → Scalar → List Scalar → Result Deck
  remask_step d global scalars =
      if not (scalar_valid c global)
      then err invalid_scalar
      else if not (length scalars == length d)
      then err bad_scalar_count
      else (do inv ← inverse c global; remask_from inv d scalars)

  -- The loop of `Unmask`.
  unfoldable pub unmask_all : List Scalar → Point c → Result (Point c)
  unmask_all [] p = ok p
  unmask_all (s ∷ scalars) p =
      if not (scalar_valid c s)
      then err invalid_scalar
      else (do q ← unmask c p s; unmask_all scalars q)

  -- `Unmask` of a position.
  unfoldable pub unmask_at : Deck → ℤ → List Scalar → Result (Point c)
  unmask_at d position scalars = do p ← at d position; unmask_all scalars p

  -- `Bytes` of a point, where nil is empty.
  abbrev pub bytes : Point c → Text
  bytes none = []
  bytes (some p) = if c.on_curve p then c.compress p else []

  -- The loop of `CardIndexOf`: `k` cards from card `i` on.
  unfoldable pub match_from : Text → ℕ → ℕ → Result ℕ
  match_from want i zero = err no_match
  match_from want i (suc k) =
      let rest = match_from want (suc i) k in
      elim (card_point c (pos i)) [
        | err e ↦ err e
        | ok base ↦ if text_eq (bytes base) want then ok i else rest
      ]

  -- `CardIndexOf`.
  unfoldable pub card_index_of : Point c → ℕ → Result ℕ
  card_index_of none size = err invalid_point
  card_index_of (some p) size =
      if not (c.on_curve p) then err invalid_point else match_from (bytes (some p)) 0 size
