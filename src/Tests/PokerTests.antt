-- ===== src/Tests/PokerTests.antt =====
-- A group of seven elements in place of the curve, and two seats that deal three cards.
use native.Mathlib.Nat.{mod-add-div, add-mul-mod_self_left, add-mul, mul_assoc, mul_comm}
use brc100_poker.Base.{
  ℕ, zero, suc, ◌+◌, ◌*◌, ◌/◌, ◌%◌, ◌^◌, ◌<◌, ◌≡◌, refl, sym, ap, ◌∙◌, Bool, true, Bool-cases, inl,
  inr, not, ◌&&◌, ◌||◌, Option, some, none, List, [], ◌∷◌, arith, ltb, ◌==◌, Text, length,
}
use brc100_poker.MentalPoker.{Curve, IsGroup, ok, card_point, inverse, mask, mask_coords, unmask}
use brc100_poker.MentalPoker.Deck.{
  Deck, validate_from, validate_permutation, base_from, base_deck, scatter, shuffle_step,
  remask_one, remask_from, remask_step, at, unmask_all, unmask_at, match_from, card_index_of,
}
use brc100_poker.MentalPoker.Masks.{done, keep, swap}
use brc100_poker.MentalPoker.Deals.{Secrets, place, shuffle_all, remask_all, deal, read, IsFair}
use brc100_poker.MentalPoker.Reads.{deal-reads_each_card, deal-shows_each_position}

abbrev parse_one : Text → Option ℕ
parse_one [] = none
parse_one (p ∷ rest) = some p

-- Numbers under multiplication modulo seven.
abbrev pub seven : Curve
seven = record {
  Coords = ℕ;
  order = 7;
  on_curve = λ p. not (p == 0) && ltb p 7;
  mult = λ p d. p * d % 7;
  base_mult = λ k. k % 7;
  mod_inverse = λ d. some (d ^ 5 % 7);
  compress = λ p. p ∷ [];
  parse = parse_one;
  coords_eq = λ p q. p == q;
}

abbrev all_below : ℕ → (ℕ → Bool) → Bool
all_below zero f = true
all_below (suc n) f = f n && all_below n f

all_below-at : (n k : ℕ) (f : ℕ → Bool) → all_below n f ≡ true → k < n → f k ≡ true
all_below-at zero k f e h = elim h [ ]
all_below-at (suc n) k f e h = elim (Bool-cases (k == n)) [
  | inl same ↦ ground (arith, e, same)
  | inr other ↦ all_below-at n k f (ground (arith, e)) (ground (arith, h, other))
]

mod-mult : (a b : ℕ) → a % 7 * b % 7 ≡ a * b % 7
mod-mult a b =
    let split : a * b ≡ a % 7 * b + 7 * (a / 7 * b) =
      ap (λ n. n * b) (sym (mod-add-div a 7))
      ∙ add-mul (a % 7) (7 * (a / 7)) b
      ∙ ap (λ n. a % 7 * b + n) (mul_assoc 7 (a / 7) b) in
    sym (ap (λ n. n % 7) split ∙ add-mul-mod_self_left (a % 7 * b) 7 (a / 7 * b))

abbrev closes : ℕ → ℕ → Bool
closes p d = p == 0 || d == 0 || not (p * d % 7 == 0) && ltb (p * d % 7) 7

abbrev inverts : ℕ → Bool
inverts d = d == 0 || ltb 0 (d ^ 5 % 7) && ltb (d ^ 5 % 7) 7 && d * (d ^ 5 % 7) % 7 == 1

closes_lem : (p d : ℕ) → p < 7 → d < 7 → closes p d ≡ true
closes_lem p d hp hd =
    all_below-at 7 d (closes p) (all_below-at 7 p (λ q. all_below 7 (closes q)) refl hp) hd

inverts_lem : (d : ℕ) → d < 7 → inverts d ≡ true
inverts_lem d h = all_below-at 7 d inverts refl h

cons_head : {a b : ℕ} {as' bs : List ℕ} → a ∷ as' ≡ b ∷ bs → a ≡ b
cons_head e = cc

mod-small : (k : ℕ) → k < 7 → k % 7 ≡ k
mod-small k h = omega (arith, h)

pub seven-IsGroup : IsGroup seven
seven-IsGroup = record {
  mult_on = λ p d on low high. ground (arith, on, low, high, closes_lem p d);
  base_on = λ k low high. ground (arith, low, high, mod-small k high);
  mult_mult = λ p a b on.
      (mod-mult (p * a) b
        ∙ ap (λ n. n % 7) (mul_assoc p a b)
        ∙ ap (λ n. n % 7) (mul_comm p (a * b))
        ∙ sym (mod-mult (a * b) p)
        ∙ ap (λ n. n % 7) (mul_comm (a * b % 7) p));
  mult_one = λ p on. ground (arith, on);
  inverse = λ d low high. (
    d ^ 5 % 7,
    refl,
    ground (arith, low, inverts_lem d high),
    ground (arith, low, inverts_lem d high),
    ground (arith, low, inverts_lem d high),
  );
  compress_base = λ i j li hi lj hj e. (sym (mod-small i hi) ∙ cons_head e ∙ mod-small j hj);
}

abbrev pub first_seat : Secrets
first_seat = record { global = 2; perm = 1 ∷ 2 ∷ 0 ∷ []; per_position = 3 ∷ 4 ∷ 5 ∷ [] }

abbrev pub second_seat : Secrets
second_seat = record { global = 3; perm = 2 ∷ 1 ∷ 0 ∷ []; per_position = 6 ∷ 2 ∷ 3 ∷ [] }

abbrev pub two_seats : List Secrets
two_seats = first_seat ∷ second_seat ∷ []

pub first_seat-IsFair : IsFair seven seven-IsGroup 3 first_seat
unfolding validate_permutation validate_from
first_seat-IsFair = record {
  scalar = (omega arith, omega arith);
  shuffles = refl;
  scalars =
      ((omega arith, omega arith), ((omega arith, omega arith), ((omega arith, omega arith), tt)));
  one_each = refl;
}

pub second_seat-IsFair : IsFair seven seven-IsGroup 3 second_seat
unfolding validate_permutation validate_from
second_seat-IsFair = record {
  scalar = (omega arith, omega arith);
  shuffles = refl;
  scalars =
      ((omega arith, omega arith), ((omega arith, omega arith), ((omega arith, omega arith), tt)));
  one_each = refl;
}

-- The deck after the deal.
pub dealt : deal seven two_seats 3 ≡ ok (some 1 ∷ some 1 ∷ some 3 ∷ [])
unfolding deal base_deck base_from card_point shuffle_all shuffle_step validate_permutation
    validate_from scatter remask_all remask_step remask_from remask_one inverse mask mask_coords
dealt = refl

-- Position 2 shows the card that has its place there.
dealt_shows : read seven (some 1 ∷ some 1 ∷ some 3 ∷ []) 2 (5 ∷ 3 ∷ []) 3 ≡ ok 2
unfolding read unmask_at at unmask_all unmask inverse mask mask_coords card_index_of match_from
    card_point
dealt_shows = refl

deal-reads_each_card_example :
    (d : Deck seven) × (deal seven two_seats 3 ≡ ok d)
    × (length d ≡ 3)
    × (place two_seats 2 < 3)
    × (read seven d (place two_seats 2) (3 ∷ 5 ∷ []) 3 ≡ ok 2)
deal-reads_each_card_example =
    deal-reads_each_card seven seven-IsGroup 3 2 two_seats (3 ∷ 5 ∷ [])
      (first_seat-IsFair, (second_seat-IsFair, tt)) (omega arith) (omega arith) (omega arith)
      (swap 5 3 [])

deal-shows_each_position_example :
    (d : Deck seven) × (i : ℕ) × (deal seven two_seats 3 ≡ ok d)
    × (i < 3)
    × (place two_seats i ≡ 1)
    × (read seven d 1 (4 ∷ 2 ∷ []) 3 ≡ ok i)
deal-shows_each_position_example =
    deal-shows_each_position seven seven-IsGroup 3 1 two_seats (4 ∷ 2 ∷ [])
      (first_seat-IsFair, (second_seat-IsFair, tt)) (omega arith) (omega arith)
      (keep 4 (keep 2 done))
