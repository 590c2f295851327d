-- ===== src/Tests/SeatTests.antt =====
-- Three players named by one byte, seated by a hash that keeps the last bytes.
use brc100_poker.Base.{ℕ, ◌≡◌, refl, List, [], ◌∷◌, arith, Text}
use brc100_poker.MentalPoker.{big_endian, number}
use brc100_poker.MentalPoker.Masks.{Reordered, swap}
use brc100_poker.Proof.Seats.{ok, assign_seats}
use brc100_poker.Proof.Order.{assign_seats-Reordered}

abbrev last_bytes : Text → Text
last_bytes t = big_endian 32 (number t)

abbrev seed : Text
seed = big_endian 32 7

abbrev players : List Text
players = (b'b' ∷ []) ∷ (b'a' ∷ []) ∷ []

abbrev others_first : List Text
others_first = (b'a' ∷ []) ∷ (b'b' ∷ []) ∷ []

assign_seats-Reordered_example :
    (seats : List Text) × (assign_seats last_bytes players seed ≡ ok seats)
    × (assign_seats last_bytes others_first seed ≡ ok seats)
    × Reordered players seats
assign_seats-Reordered_example =
    assign_seats-Reordered last_bytes seed (swap (b'b' ∷ []) (b'a' ∷ []) []) (omega arith) refl
      (refl, (refl, tt)) (((λ e. absurd (ground (arith, cc_head e))), tt), (tt, tt))
  where
    cc_head : {a b : ℕ} {s t : Text} → a ∷ s ≡ b ∷ t → a ≡ b
    cc_head e = cc
