-- ===== src/Engine/Layers.antt =====
-- The side pots of engine.go: the layers by total commitment.
use brc100_poker.Base.{
  ℕ, ◌+◌, ◌-◌, ◌*◌, ◌≤◌, ◌<◌, ◌≡◌, refl, ◌⊎◌, inl, inr, Bool, true, false, List, [], ◌∷◌, arith,
  leb, ltb, if◌then◌else◌, All, sum_of, count_if, Bool-cases, subst, sym, ap, count_if-cons_true,
  count_if-cons_false,
}
use brc100_poker.Engine.State.{Seat, ok, int64_limit, checked-fits}
use brc100_poker.Engine.Scoring.{insert_level, levels, layer_pot}

-- Strictly increasing, and above `prev`.
abbrev pub IsAscending : ℕ → List ℕ → Type 0
IsAscending prev [] = Unit
IsAscending prev (l ∷ ls) = (prev < l) × IsAscending l ls

abbrev pub Listed : ℕ → List ℕ → Type 0
Listed c [] = ⊥
Listed c (l ∷ ls) = (c ≡ l) ⊎ Listed c ls

-- What one seat that committed `c` puts into the layers.
abbrev contribution : ℕ → List ℕ → ℕ → ℕ
contribution prev [] c = 0
contribution prev (l ∷ ls) c = (if leb l c then l - prev else 0) + contribution l ls c

contribution-below :
    (prev : ℕ) (ls : List ℕ) (c : ℕ) → c ≤ prev → IsAscending prev ls → contribution prev ls c ≡ 0
contribution-below prev [] c h a = refl
contribution-below prev (l ∷ ls) c h a = ground (arith, contribution-below l ls c)

Listed-above : (prev : ℕ) (ls : List ℕ) (c : ℕ) → IsAscending prev ls → Listed c ls → prev < c
Listed-above prev [] c a m = absurd m
Listed-above prev (l ∷ ls) c a (inl e) = omega arith
Listed-above prev (l ∷ ls) c a (inr m) = omega (arith, Listed-above l ls c a.1 m)

contribution-Listed :
    (prev : ℕ) (ls : List ℕ) (c : ℕ)
    → IsAscending prev ls
    → Listed c ls
    → contribution prev ls c + prev ≡ c
contribution-Listed prev [] c a m = absurd m
contribution-Listed prev (l ∷ ls) c a (inl e) = ground (arith, contribution-below l ls c)
contribution-Listed prev (l ∷ ls) c a (inr m) =
    ground (arith, contribution-Listed l ls c a.1 m, Listed-above l ls c a.1 m)

insert_level-IsAscending :
    (prev l : ℕ) (ls : List ℕ)
    → prev < l
    → IsAscending prev ls
    → IsAscending prev (insert_level l ls)
unfolding insert_level
insert_level-IsAscending prev l [] h a = (h, tt)
insert_level-IsAscending prev l (x ∷ xs) h a = ground (arith, insert_level-IsAscending x l xs)

insert_level-Listed_self : (l : ℕ) (ls : List ℕ) → Listed l (insert_level l ls)
unfolding insert_level
insert_level-Listed_self l [] = inl refl
insert_level-Listed_self l (x ∷ xs) = ground (arith, insert_level-Listed_self l xs)

insert_level-Listed : (l c : ℕ) (ls : List ℕ) → Listed c ls → Listed c (insert_level l ls)
unfolding insert_level
insert_level-Listed l c [] m = absurd m
insert_level-Listed l c (x ∷ xs) m = ground (arith, insert_level-Listed l c xs)

-- A commitment that the levels account for.
abbrev Covered : List ℕ → Seat → Type 0
Covered ls s = (s.total_commit ≡ 0) ⊎ Listed s.total_commit ls

insert_level-Covered :
    (l : ℕ) (ls : List ℕ) (seats : List Seat)
    → All (Covered ls) seats
    → All (Covered (insert_level l ls)) seats
insert_level-Covered l ls [] h = tt
insert_level-Covered l ls (s ∷ seats) (inl e, h) = (inl e, insert_level-Covered l ls seats h)
insert_level-Covered l ls (s ∷ seats) (inr m, h) =
    (inr (insert_level-Listed l s.total_commit ls m), insert_level-Covered l ls seats h)

pub levels-IsAscending : (seats : List Seat) → IsAscending 0 (levels seats)
unfolding levels
levels-IsAscending [] = tt
levels-IsAscending (s ∷ seats) =
    ground
      (arith, levels-IsAscending seats, insert_level-IsAscending 0 s.total_commit (levels seats))

levels-cons_pos :
    (s : Seat) (seats : List Seat)
    → ltb 0 s.total_commit ≡ true
    → levels (s ∷ seats) ≡ insert_level s.total_commit (levels seats)
unfolding levels
levels-cons_pos s seats e = rw e

levels-cons_zero :
    (s : Seat) (seats : List Seat)
    → ltb 0 s.total_commit ≡ false
    → levels (s ∷ seats) ≡ levels seats
unfolding levels
levels-cons_zero s seats e = rw e

levels-Covered : (seats : List Seat) → All (Covered (levels seats)) seats
levels-Covered [] = tt
levels-Covered (s ∷ seats) = elim (Bool-cases (ltb 0 s.total_commit)) [
  | inl some_chips ↦
      subst (λ ls. All (Covered ls) (s ∷ seats)) (sym (levels-cons_pos s seats some_chips))
        (
          inr (insert_level-Listed_self s.total_commit (levels seats)),
          insert_level-Covered s.total_commit (levels seats) seats (levels-Covered seats),
        )
  | inr no_chips ↦
      subst (λ ls. All (Covered ls) (s ∷ seats)) (sym (levels-cons_zero s seats no_chips))
        (inl (ground arith), levels-Covered seats)
]

-- The chips of a layer, and of all layers.
abbrev pub layer_chips : ℕ → ℕ → List Seat → ℕ
layer_chips prev l seats = (l - prev) * count_if (λ (s : Seat). leb l s.total_commit) seats

abbrev pub layers_total : ℕ → List ℕ → List Seat → ℕ
layers_total prev [] seats = 0
layers_total prev (l ∷ ls) seats = layer_chips prev l seats + layers_total l ls seats

-- The pots of the layers as the code computes them, and that they add up to `total`.
abbrev pub AddUpTo : ℕ → ℕ → List ℕ → List Seat → Type 0
AddUpTo total prev [] seats = total ≡ 0
AddUpTo total prev (l ∷ ls) seats =
    (chips : ℕ) × (rest : ℕ) × (layer_pot prev l seats ≡ ok chips)
    × (total ≡ chips + rest)
    × AddUpTo rest l ls seats

layer_chips-cons :
    (prev l : ℕ) (s : Seat) (seats : List Seat)
    → layer_chips prev l (s ∷ seats)
      ≡ (if leb l s.total_commit then l - prev else 0) + layer_chips prev l seats
layer_chips-cons prev l s seats = elim (Bool-cases (leb l s.total_commit)) [
  | inl reaches ↦
      rw reaches (
        omega
          (arith, ap (λ (k : ℕ). (l - prev) * k) (count_if-cons_true reaches_l s seats reaches)))
  | inr below ↦
      rw below (
        omega (arith, ap (λ (k : ℕ). (l - prev) * k) (count_if-cons_false reaches_l s seats below)))
]
  where
    reaches_l : Seat → Bool
    reaches_l t = leb l t.total_commit

layers_total-cons :
    (prev : ℕ) (ls : List ℕ) (s : Seat) (seats : List Seat)
    → layers_total prev ls (s ∷ seats)
      ≡ contribution prev ls s.total_commit + layers_total prev ls seats
layers_total-cons prev [] s seats = refl
layers_total-cons prev (l ∷ ls) s seats =
    omega (arith, layer_chips-cons prev l s seats, layers_total-cons l ls s seats)

layers_total-nil : (prev : ℕ) (ls : List ℕ) → layers_total prev ls [] ≡ 0
layers_total-nil prev [] = refl
layers_total-nil prev (l ∷ ls) = omega (arith, layers_total-nil l ls)

layers_total-Covered :
    (ls : List ℕ) (seats : List Seat)
    → IsAscending 0 ls
    → All (Covered ls) seats
    → layers_total 0 ls seats ≡ sum_of (λ s. s.total_commit) seats
layers_total-Covered ls [] a h = layers_total-nil 0 ls
layers_total-Covered ls (s ∷ seats) a (inl e, h) = omega (
  arith,
  layers_total-cons 0 ls s seats,
  contribution-below 0 ls s.total_commit (omega arith) a,
  layers_total-Covered ls seats a h,
)
layers_total-Covered ls (s ∷ seats) a (inr m, h) = omega (
  arith,
  layers_total-cons 0 ls s seats,
  contribution-Listed 0 ls s.total_commit a m,
  layers_total-Covered ls seats a h,
)

-- The layers over the distinct positive commitments hold the chips committed by all seats.
pub layers_total-commits :
    (seats : List Seat) → layers_total 0 (levels seats) seats ≡ sum_of (λ s. s.total_commit) seats
layers_total-commits seats =
    layers_total-Covered (levels seats) seats (levels-IsAscending seats) (levels-Covered seats)

-- A layer that an int64 holds has its chips as its pot.
pub layer_pot-fits :
    (prev l : ℕ) (seats : List Seat)
    → layer_chips prev l seats < int64_limit
    → layer_pot prev l seats ≡ ok (layer_chips prev l seats)
unfolding layer_pot
layer_pot-fits prev l seats h = checked-fits (layer_chips prev l seats) h

layers_total-AddUpTo :
    (prev : ℕ) (ls : List ℕ) (seats : List Seat)
    → layers_total prev ls seats < int64_limit
    → AddUpTo (layers_total prev ls seats) prev ls seats
layers_total-AddUpTo prev [] seats h = refl
layers_total-AddUpTo prev (l ∷ ls) seats h = (
  layer_chips prev l seats,
  layers_total l ls seats,
  layer_pot-fits prev l seats (omega arith),
  refl,
  layers_total-AddUpTo l ls seats (omega arith),
)

-- If the chips committed by all seats are fewer than 2 ^ 63, then no pot of a layer overflows, and
-- the pots of the layers over the distinct positive commitments, in increasing order, add up to
-- them.
pub levels-AddUpTo :
    (seats : List Seat)
    → sum_of (λ s. s.total_commit) seats < int64_limit
    → AddUpTo (sum_of (λ s. s.total_commit) seats) 0 (levels seats) seats
levels-AddUpTo seats h =
    subst (λ n. AddUpTo n 0 (levels seats) seats) (layers_total-commits seats)
      (layers_total-AddUpTo 0 (levels seats) seats (omega (arith, layers_total-commits seats)))
