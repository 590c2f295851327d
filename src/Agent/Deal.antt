-- ===== src/Agent/Deal.antt =====
-- internal/agent/deal.go: the deal handlers of a player's wallet. The hex of a request is its bytes,
-- a hand's secrets are arguments of `begin`, and the other seats' scalars come in the order in which
-- the range over their map takes them.
use brc100_poker.Base.{
  ℕ, Option, none, some, List, [], ◌∷◌, ◌==◌, if◌then◌else◌, ℤ, pos, negsuc, ltb_ℤ, leb_ℤ, Text,
  text_eq, length, get_elem?,
}
use brc100_poker.Cards.{Card, from_index}
use brc100_poker.Table.{is_empty}
use brc100_poker.MentalPoker.{Curve, Scalar, Fault, Result, ok, err, scalar_from_bytes}
use brc100_poker.MentalPoker.Deck.{Deck, shuffle_step, remask_step, unmask_at, card_index_of}
use brc100_poker.Proof.{Refusal, committed, refused, commit_shuffle, commit_remask}
use brc100_poker.Hand.{decode_deck, encode_deck, scalars_at, full_deck}

pub data DealError : Type 0 where
  no_hand too_few_seats not_committed no_positions position_outside not_dealt : DealError
  other_size cannot_read no_card : DealError
  no_commitment : Refusal → DealError
  bad_deck bad_scalar deck_failed : Fault → DealError

pub data Answer {ℓ} (A : Type ℓ) : Type ℓ where
  given : A → Answer A
  denied : DealError → Answer A

module _ (c : Curve) where
  -- `dealSecrets`, with its key in the store.
  pub record DealSecrets : Type 0 where
    pub hand_id : Text
    pub deck_size : ℤ
    pub seats : ℤ
    pub global : Scalar
    pub perm : List ℤ
    pub per_position : List Scalar
    pub shuffle_commit : Text
    pub remask_commit : Text
    pub deck : Deck c

  -- `get`.
  abbrev pub secrets_of : Text → List DealSecrets → Option DealSecrets
  secrets_of hand [] = none
  secrets_of hand (s ∷ store) = if text_eq hand s.hand_id then some s else secrets_of hand store

  -- `setDeck`, through the pointer that the store holds.
  abbrev pub set_hand_deck : Text → Deck c → List DealSecrets → List DealSecrets
  set_hand_deck hand d [] = []
  set_hand_deck hand d (s ∷ store) =
      if text_eq hand s.hand_id
      then record s { deck = d } ∷ store
      else s ∷ set_hand_deck hand d store

  -- `dealInput`.
  unfoldable pub deal_input : List DealSecrets → Text → List Text → Answer (DealSecrets × Deck c)
  deal_input store hand raw = elim (secrets_of hand store) [
    | none ↦ denied not_committed
    | some s ↦ elim (decode_deck c raw) [
      | err e ↦ denied (bad_deck e)
      | ok d ↦
          if ltb_ℤ (pos (length d)) s.deck_size
          then denied other_size
          else if ltb_ℤ s.deck_size (pos (length d))
          then denied other_size
          else given (s, d)
    ]
  ]

  -- What a pass answers, and the store after it.
  abbrev pub passed :
      List DealSecrets → Text → Result (Deck c) → List DealSecrets × Answer (List Text)
  passed store hand (err e) = (store, denied (deck_failed e))
  passed store hand (ok out) = (set_hand_deck hand out store, given (encode_deck c out))

  -- `handleDealShuffle`.
  unfoldable pub handle_deal_shuffle :
      List DealSecrets → Text → List Text → List DealSecrets × Answer (List Text)
  handle_deal_shuffle store hand raw = elim (deal_input store hand raw) [
    | denied e ↦ (store, denied e)
    | given input ↦ passed store hand (shuffle_step c input.1 input.0.global input.0.perm)
  ]

  -- `handleDealRemask`.
  unfoldable pub handle_deal_remask :
      List DealSecrets → Text → List Text → List DealSecrets × Answer (List Text)
  handle_deal_remask store hand raw = elim (deal_input store hand raw) [
    | denied e ↦ (store, denied e)
    | given input ↦ passed store hand (remask_step c input.1 input.0.global input.0.per_position)
  ]

  -- `handleDealFinal`.
  unfoldable pub handle_deal_final :
      List DealSecrets → Text → List Text → List DealSecrets × Answer (Unit {0})
  handle_deal_final store hand raw = elim (deal_input store hand raw) [
    | denied e ↦ (store, denied e)
    | given input ↦ (set_hand_deck hand input.1 store, given tt)
  ]

  -- `handleDealReveal`.
  unfoldable pub handle_deal_reveal : List DealSecrets → Text → List ℤ → Answer (List Text)
  handle_deal_reveal store hand positions = elim (secrets_of hand store) [
    | none ↦ denied not_committed
    | some s ↦
        if length positions == 0
        then denied no_positions
        else elim (scalars_at c s.per_position positions) [
          | none ↦ denied position_outside
          | some scalars ↦ given scalars
        ]
  ]

  -- The loop of `handleDealCard` over the disclosures.
  unfoldable pub parse_scalars : List Text → Result (List Scalar)
  parse_scalars [] = ok []
  parse_scalars (b ∷ bs) = elim (scalar_from_bytes c b) [
    | err e ↦ err e
    | ok s ↦ elim (parse_scalars bs) [ err e ↦ err e | ok rest ↦ ok (s ∷ rest) ]
  ]

  -- The size as the number of cards that `CardIndexOf` goes through.
  abbrev pub size_of : DealSecrets → ℕ
  size_of s = elim s.deck_size [ pos n ↦ n | negsuc n ↦ 0 ]

  -- `handleDealCard` with its scalars.
  unfoldable pub show_card : DealSecrets → ℕ → List Scalar → Answer Card
  show_card s p scalars = elim (unmask_at c s.deck (pos p) scalars) [
    | err e ↦ denied (deck_failed e)
    | ok point ↦ elim (card_index_of c point (size_of s)) [
      | err e ↦ denied cannot_read
      | ok i ↦ elim (from_index (pos i)) [ none ↦ denied no_card | some card ↦ given card ]
    ]
  ]

  -- `handleDealCard` at a position that is not negative.
  unfoldable pub read_card : DealSecrets → ℕ → List Text → Answer Card
  read_card s p disclosures = elim (get_elem? s.per_position p) [
    | none ↦ denied position_outside
    | some own ↦ if length s.deck == 0 then denied not_dealt else elim (parse_scalars disclosures) [
      | err e ↦ denied (bad_scalar e)
      | ok scalars ↦ show_card s p (own ∷ scalars)
    ]
  ]

  -- `handleDealCard`.
  unfoldable pub handle_deal_card : List DealSecrets → Text → ℤ → List Text → Answer Card
  handle_deal_card store hand position disclosures = elim (secrets_of hand store) [
    | none ↦ denied not_committed
    | some s ↦ elim position [
      | negsuc p ↦ denied position_outside
      | pos p ↦ read_card s p disclosures
    ]
  ]

module _ (c : Curve) (sha : Text → Text) where
  -- `begin`, with the secrets that it would draw.
  unfoldable pub begin :
      List (DealSecrets c)
      → Text
      → ℤ
      → ℤ
      → Scalar
      → List ℤ
      → List Scalar
      → List (DealSecrets c) × Answer (Text × Text)
  begin store hand size seats global perm scalars = elim (secrets_of c hand store) [
    | some s ↦ (store, given (s.shuffle_commit, s.remask_commit))
    | none ↦ elim (commit_shuffle c sha global perm) [
      | refused e ↦ (store, denied (no_commitment e))
      | committed sc ↦ elim (commit_remask c sha global scalars) [
        | refused e ↦ (store, denied (no_commitment e))
        | committed rc ↦ (
          record {
            hand_id = hand;
            deck_size = size;
            seats = seats;
            global = global;
            perm = perm;
            per_position = scalars;
            shuffle_commit = sc;
            remask_commit = rc;
            deck = [];
          }
              ∷ store,
          given (sc, rc),
        )
      ]
    ]
  ]

  -- `handleDealCommit`.
  unfoldable pub handle_deal_commit :
      List (DealSecrets c)
      → Text
      → ℤ
      → ℤ
      → Scalar
      → List ℤ
      → List Scalar
      → List (DealSecrets c) × Answer (Text × Text)
  handle_deal_commit store hand size seats global perm scalars =
      let size' = if leb_ℤ size (pos 0) then pos full_deck else size in
      if is_empty hand
      then (store, denied no_hand)
      else if ltb_ℤ seats (pos 2)
      then (store, denied too_few_seats)
      else begin store hand size' seats global perm scalars
