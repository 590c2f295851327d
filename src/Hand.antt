-- ===== src/Hand.antt =====
-- internal/protocol/table/hand.go: one seat's part in a hand. The locks are left out: each operation
-- is one step. What the operation gives to `Session.Send` is its result. The generators of secrets
-- are arguments of `new_hand_player`.
pub mod Passes
pub mod Peers
pub mod Binding
pub mod Reading
use brc100_poker.Base.{
  ℕ, zero, suc, ◌+◌, ◌*◌, Bool, true, false, not, ◌&&◌, ◌||◌, Option, none, some, List, [], ◌∷◌,
  map, ltb, leb, ◌==◌, if◌then◌else◌, ℤ, pos, negsuc, eqb_ℤ, Text, text_eq, length, get_elem?,
}
use brc100_poker.Cards.{Card, from_index}
use brc100_poker.Table.{min_seats, max_seats, is_empty}
use brc100_poker.Engine.State.{Action, ActionKind, fold, check}
use brc100_poker.MentalPoker.{
  Curve, Point, Scalar, Fault, Result, ok, err, scalar_bytes, scalar_from_bytes, point_from_bytes,
}
use brc100_poker.MentalPoker.Deck.{
  Deck, base_deck, deck_from_points, shuffle_step, remask_step, unmask_at, card_index_of, bytes,
}
use brc100_poker.Proof.{Refusal, Commitment, commit_shuffle, commit_remask, committed, refused}

-- The errors of this file, those of the deck and of the commitments with it.
pub data HandError : Type 0 where
  bad_seat_count bad_seat no_secrets not_first : HandError
  deck_fault : Fault → HandError
  commit_fault : Refusal → HandError
  no_deck wrong_deck_size own_hole position_outside uneven_reveal : HandError
  bad_disclosure : ℤ → Fault → HandError
  not_disclosed : ℕ → HandError
  no_such_card : HandError
  no_recipient : HandError
  seat_outside malformed_commitments shuffle_changed remask_changed : HandError
  not_committed no_input : HandError
  pass_refused : Refusal → HandError

pub data Reply {ℓ} (A : Type ℓ) : Type ℓ where
  fine : A → Reply A
  failed : HandError → Reply A

-- What an operation sends; `silent` sends nothing.
pub data Sending : Type 0 where
  silent : Sending
  send_shuffle : List Text → Sending
  send_remask : List Text → Sending
  send_hole : Text → List ℤ → List Text → Sending
  send_board : List ℤ → List Text → Sending

-- One entry of `disclosed`, the map of maps by position and seat.
pub record Disclosure : Type 0 where
  pub position : ℤ
  pub from_seat : ℤ
  pub scalar : Scalar

-- The newest entry of a map with a Go int for its key.
abbrev pub lookup {ℓ} : {A : Type ℓ} → ℤ → List (ℤ × A) → Option A
lookup k [] = none
lookup k (entry ∷ rest) = if eqb_ℤ k entry.0 then some entry.1 else lookup k rest

abbrev pub disclosed_by : ℤ → ℤ → List Disclosure → Option Scalar
disclosed_by p s [] = none
disclosed_by p s (d ∷ rest) =
    if eqb_ℤ p d.position && eqb_ℤ s d.from_seat then some d.scalar else disclosed_by p s rest

-- `cards.DeckSize`.
abbrev pub full_deck : ℕ
full_deck = 52

module _ (c : Curve) where
  pub record HandPlayer : Type 0 where
    pub seat : ℕ
    pub seats : ℕ
    pub deck_size : ℕ
    pub global : Scalar
    pub per_position : List Scalar
    pub deck : Deck c
    pub disclosed : List Disclosure
    pub shuffle_commit : Option Text
    pub remask_commit : Option Text
    pub peer_shuffle_commit : List (ℤ × Text)
    pub peer_remask_commit : List (ℤ × Text)
    pub input_deck : List (ℤ × Deck c)
    pub pending_perm : List ℤ

  abbrev pub new_player : ℕ → ℕ → ℕ → Scalar → List Scalar → List ℤ → HandPlayer
  new_player k m size g scalars perm = record {
    seat = k;
    seats = m;
    deck_size = size;
    global = g;
    per_position = scalars;
    deck = [];
    disclosed = [];
    shuffle_commit = none;
    remask_commit = none;
    peer_shuffle_commit = [];
    peer_remask_commit = [];
    input_deck = [];
    pending_perm = perm;
  }

  -- The secrets that the generators give: a scalar, the scalars and the permutation of a size.
  unfoldable pub draw_secrets :
      ℕ
      → ℕ
      → ℤ
      → Option Scalar
      → (ℤ → Option (List Scalar))
      → (ℤ → Option (List ℤ))
      → Reply HandPlayer
  draw_secrets k m (negsuc size) new_scalar new_scalars new_permutation = failed no_secrets
  draw_secrets k m (pos size) none new_scalars new_permutation = failed no_secrets
  draw_secrets k m (pos size) (some g) new_scalars new_permutation = elim (new_scalars (pos size)) [
    | none ↦ failed no_secrets
    | some scalars ↦ elim (new_permutation (pos size)) [
      | none ↦ failed no_secrets
      | some perm ↦ fine (new_player k m size g scalars perm)
    ]
  ]

  -- `NewHandPlayer` with a session and a table, from `Seat`, `Seats` and `DeckSize`.
  unfoldable pub new_hand_player :
      ℤ
      → ℤ
      → ℤ
      → Option Scalar
      → (ℤ → Option (List Scalar))
      → (ℤ → Option (List ℤ))
      → Reply HandPlayer
  new_hand_player k (negsuc m) size new_scalar new_scalars new_permutation = failed bad_seat_count
  new_hand_player (negsuc k) (pos m) size new_scalar new_scalars new_permutation =
      if ltb m min_seats || ltb max_seats m then failed bad_seat_count else failed bad_seat
  new_hand_player (pos k) (pos m) size new_scalar new_scalars new_permutation =
      let dealt = if eqb_ℤ size (pos 0) then pos full_deck else size in
      let drawn = draw_secrets k m dealt new_scalar new_scalars new_permutation in
      if ltb m min_seats || ltb max_seats m
      then failed bad_seat_count
      else if leb m k
      then failed bad_seat
      else drawn

  -- `SetDeck`.
  unfoldable pub set_deck : HandPlayer → Deck c → HandPlayer × Reply Sending
  set_deck h d =
      if not (length d == h.deck_size)
      then (h, failed wrong_deck_size)
      else (record h { deck = d }, fine silent)

  -- `encodeDeck`.
  abbrev pub encode_deck : Deck c → List Text
  encode_deck d = map (bytes c) d

  -- The loop of `DecodeDeck`.
  unfoldable pub decode_points : List Text → Result (List (Point c))
  decode_points [] = ok []
  decode_points (b ∷ raw) = elim (point_from_bytes c b) [
    | err e ↦ err e
    | ok p ↦ elim (decode_points raw) [ err e ↦ err e | ok points ↦ ok (p ∷ points) ]
  ]

  -- `DecodeDeck`.
  unfoldable pub decode_deck : List Text → Result (Deck c)
  decode_deck raw = elim (decode_points raw) [
    | err e ↦ err e
    | ok points ↦ deck_from_points c points
  ]

  -- The loop of `RevealHoleTo` and `RevealBoard`: the scalars for positions.
  unfoldable pub scalars_at : List Scalar → List ℤ → Option (List Text)
  scalars_at scalars [] = some []
  scalars_at scalars (negsuc p ∷ positions) = none
  scalars_at scalars (pos p ∷ positions) = elim (get_elem? scalars p) [
    | none ↦ none
    | some s ↦ elim (scalars_at scalars positions) [
      | none ↦ none
      | some rest ↦ some (scalar_bytes s ∷ rest)
    ]
  ]

  -- `RevealHoleTo`, with the test of `SendPrivate` for a recipient.
  unfoldable pub reveal_hole_to : HandPlayer → ℤ → Text → List ℤ → Reply Sending
  reveal_hole_to h recipient_seat recipient_key positions =
      if eqb_ℤ recipient_seat (pos h.seat)
      then failed own_hole
      else elim (scalars_at h.per_position positions) [
        | none ↦ failed position_outside
        | some scalars ↦
            if is_empty recipient_key
            then failed no_recipient
            else fine (send_hole recipient_key positions scalars)
      ]

  -- `RevealBoard`.
  unfoldable pub reveal_board : HandPlayer → List ℤ → Reply Sending
  reveal_board h positions = elim (scalars_at h.per_position positions) [
    | none ↦ failed position_outside
    | some scalars ↦ fine (send_board positions scalars)
  ]

  -- The loop of `RecordDisclosure`. The entries before an invalid scalar stay.
  unfoldable pub disclose :
      ℤ → List ℤ → List Text → List Disclosure → List Disclosure × Reply Sending
  disclose from [] scalars old = (old, fine silent)
  disclose from (p ∷ positions) [] old = (old, fine silent)
  disclose from (p ∷ positions) (b ∷ scalars) old = elim (scalar_from_bytes c b) [
    | err e ↦ (old, failed (bad_disclosure p e))
    | ok s ↦
        disclose from positions scalars
          (record { position = p; from_seat = from; scalar = s } ∷ old)
  ]

  -- `RecordDisclosure`.
  unfoldable pub record_disclosure :
      HandPlayer → ℤ → List ℤ → List Text → HandPlayer × Reply Sending
  record_disclosure h from positions scalars =
      let (entries, reply) = disclose from positions scalars h.disclosed in
      if not (length positions == length scalars)
      then (h, failed uneven_reveal)
      else (record h { disclosed = entries }, reply)

  -- The loop of `Card`: the scalars of `k` seats from seat `s` on, without the own seat.
  unfoldable pub others : HandPlayer → ℤ → ℕ → ℕ → Reply (List Scalar)
  others h position s zero = fine []
  others h position s (suc k) =
      let rest = others h position (suc s) k in
      if s == h.seat then rest else elim (disclosed_by position (pos s) h.disclosed) [
        | none ↦ failed (not_disclosed s)
        | some x ↦ elim rest [ failed e ↦ failed e | fine xs ↦ fine (x ∷ xs) ]
      ]

  -- `Card` after its scalars are found.
  unfoldable pub show : HandPlayer → ℤ → List Scalar → Reply Card
  show h position scalars = elim (unmask_at c h.deck position scalars) [
    | err e ↦ failed (deck_fault e)
    | ok p ↦ elim (card_index_of c p h.deck_size) [
      | err e ↦ failed (deck_fault e)
      | ok i ↦ elim (from_index (pos i)) [ none ↦ failed no_such_card | some card ↦ fine card ]
    ]
  ]

  abbrev pub own_scalar : HandPlayer → ℤ → Option Scalar
  own_scalar h (negsuc p) = none
  own_scalar h (pos p) = get_elem? h.per_position p

  -- `Card`.
  unfoldable pub card : HandPlayer → ℤ → Reply Card
  card h position = if length h.deck == 0 then failed no_deck else elim (own_scalar h position) [
    | none ↦ failed position_outside
    | some own ↦ elim (others h position 0 h.seats) [
      | failed e ↦ failed e
      | fine rest ↦ show h position (own ∷ rest)
    ]
  ]

-- `k` positions from `next` on.
abbrev pub count_from : ℕ → ℕ → List ℕ
count_from next zero = []
count_from next (suc k) = next ∷ count_from (suc next) k

-- The loop of `HolePositions` over `k` seats.
unfoldable pub hole_from : ℕ → ℕ → ℕ → List (List ℕ)
hole_from hole_cards next zero = []
hole_from hole_cards next (suc k) =
    count_from next hole_cards ∷ hole_from hole_cards (next + hole_cards) k

-- `HolePositions`.
unfoldable pub hole_positions : ℕ → ℕ → List (List ℕ) × List ℕ
hole_positions m hole_cards = (hole_from hole_cards 0 m, count_from (m * hole_cards) 5)

-- `DefaultAction`.
unfoldable pub default_action : Bool → Action
default_action facing_bet =
    if facing_bet
    then record { kind = fold; seat = pos 0; to = pos 0 }
    else record { kind = check; seat = pos 0; to = pos 0 }
