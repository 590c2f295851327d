-- ===== src/Engine/State.antt =====
-- engine.go: the types of a hand, with chips as numbers. Where a sum or a product of chips that ends
-- a hand would wrap in an int64, the model stops with `overflowed`, which the code does not do: past
-- that point the model says nothing of the code.
-- A method that mutates `*State` returns the new state beside its error, since what it wrote
-- before an error stays written.
use brc100_poker.Base.{
  ◌≡◌, ◌⊎◌, inl, inr, refl, ℕ, ◌-◌, ◌%◌, ◌^◌, ltb, if◌then◌else◌, Bool, true, false, ◌||◌, Option,
  some, List, arith, ◌<◌, ℤ, pos, negsuc,
}
use brc100_poker.Cards.{Card}

pub data Street : Type 0 where
  preflop flop turn river complete : Street

-- `other` is an int that names no action.
pub data ActionKind : Type 0 where
  fold check call bet raise other : ActionKind

-- For a bet or a raise `to` is the total street commitment that is targeted.
pub record Action : Type 0 where
  pub kind : ActionKind
  pub seat : ℤ
  pub to : ℤ

abbrev pub min_seats : ℕ
min_seats = 2

abbrev pub max_seats : ℕ
max_seats = 6

pub record Seat : Type 0 where
  pub index : ℕ
  pub stack : ℕ
  pub hole : List Card
  pub folded : Bool
  pub all_in : Bool
  pub street_commit : ℕ
  pub total_commit : ℕ
  pub acted_this_street : Bool

pub record Legal : Type 0 where
  pub can_fold : Bool
  pub can_check : Bool
  pub can_call : Bool
  pub can_bet_raise : Bool
  pub call_amount : ℤ
  pub min_to : ℤ
  pub max_to : ℕ

-- `payouts` is the map from seat index to chips, as a list of its entries.
pub record State : Type 0 where
  pub seats : List Seat
  pub board : List Card
  pub street : Street
  pub button : ℕ
  pub small_blind : ℕ
  pub big_blind : ℕ
  pub current_bet : ℕ
  pub min_raise : ℕ
  pub to_act : ℤ
  pub done : Bool
  pub awaiting_board : Bool
  pub pending_board_count : ℕ
  pub awaiting_showdown : Bool
  pub payouts : List (ℕ × ℕ)
  pub use_hole : ℤ
  pub deck : List Card
  pub deck_pos : ℕ
  pub pending_street : Street
  pub defer_reveal : Bool

pub record Config : Type 0 where
  pub stacks : List ℤ
  pub button : ℤ
  pub small_blind : ℤ
  pub big_blind : ℤ
  pub deck : List Card
  pub hole_cards : ℤ
  pub use_hole : ℤ
  pub defer_reveal : Bool

-- One constructor for each error of the package; `panicked` is a run-time panic (an index out of
-- range, a negative length), `payout_panicked` that of the loop that pays out, `overflowed` a sum of
-- chips that would wrap, `out_of_fuel` the end of the fuel of the model's street loop.
pub data Error : Type 0 where
  too_few_seats too_many_seats button_out_of_range blinds_not_positive : Error
  small_exceeds_big bad_stack short_deck : Error
  hand_complete waiting_for_board waiting_for_showdown out_of_turn : Error
  cannot_check nothing_to_call cannot_bet outside_range no_increase unknown_action : Error
  not_waiting_for_board wrong_board_count invalid_card seat_out_of_range : Error
  not_waiting_for_showdown no_live_seat scoring_failed no_winner : Error
  panicked payout_panicked overflowed out_of_fuel : Error

pub data Result {ℓ} (A : Type ℓ) : Type ℓ where
  ok : A → Result A
  err : Error → Result A

pub Result-cases {ℓ} :
    {A : Type ℓ} (r : Result A) → ((a : A) × (r ≡ ok a)) ⊎ ((e : Error) × (r ≡ err e))
Result-cases (ok a) = inl (a, refl)
Result-cases (err e) = inr (e, refl)

pub Result-ok_eq {ℓ} : {A : Type ℓ} {a b : A} → ok a ≡ ok b → a ≡ b
Result-ok_eq e = cc

-- A run-time panic outside the payout, or the end of the model's fuel.
abbrev pub is_play_fault : Option Error → Bool
is_play_fault (some panicked) = true
is_play_fault (some out_of_fuel) = true
is_play_fault _ = false

-- A panic of the payout, or a sum of chips that would wrap.
abbrev pub is_pay_fault : Option Error → Bool
is_pay_fault (some payout_panicked) = true
is_pay_fault (some overflowed) = true
is_pay_fault _ = false

abbrev pub is_fault : Option Error → Bool
is_fault e = is_play_fault e || is_pay_fault e

-- The chips that an int64 does not hold.
abbrev pub int64_limit : ℕ
int64_limit = 2 ^ 63

-- A number taken as an int64: its low 64 bits, in two's complement.
abbrev pub int64 : ℕ → ℤ
int64 n = let low = n % 2 ^ 64 in if ltb low int64_limit then pos low else negsuc (2 ^ 64 - 1 - low)

-- A sum of chips, where an int64 holds it.
abbrev pub checked : ℕ → Result ℕ
checked n = if ltb n int64_limit then ok n else err overflowed

-- The state that a method leaves, and its error, if any.
abbrev pub Outcome : Type 0
Outcome = State × Option Error

pub checked-fits : (n : ℕ) → n < int64_limit → checked n ≡ ok n
checked-fits n h = ground arith
