-- ===== src/Ledger.antt =====
-- internal/wallet/potledger/potledger.go: pots and settlement attempts. The two tables of the schema
-- are lists of rows in the order of their insertion, which for attempts is the order of their ids. A
-- statement fails when a constraint of the schema refuses it, and not otherwise; the time is an
-- argument.
pub mod Seats
pub mod Recovery
use brc100_poker.Base.{
  ℕ, suc, ◌+◌, Bool, true, false, not, ◌&&◌, ◌||◌, Option, none, some, List, [], ◌∷◌, ◌++◌, map,
  leb, ◌==◌, if◌then◌else◌, Text, text_eq, any, keep_if, length,
}
use brc100_poker.Table.{is_empty}

-- `PotState`; `other_pot` is a text that is none of the constants.
pub data PotState : Type 0 where
  funding funded settling settled refunded abandoned : PotState
  other_pot : Text → PotState

-- `Valid`.
abbrev pub pot_state_valid : PotState → Bool
pot_state_valid (other_pot t) = false
pot_state_valid _ = true

pub data AttemptState : Type 0 where
  intended broadcast confirmed rejected unknown : AttemptState
  other_attempt : Text → AttemptState

pub record Pot : Type 0 where
  pub hand_id : Text
  pub txid : Text
  pub vout : ℕ
  pub satoshis : ℕ
  pub locking_script : Text
  pub seats : List Text
  pub state : PotState
  pub created_at : ℕ
  pub updated_at : ℕ

-- A row of `pots`: the seats are one text.
pub record PotRow : Type 0 where
  pub pot : Pot
  pub seats_text : Text

pub record Attempt : Type 0 where
  pub id : ℕ
  pub hand_id : Text
  pub purpose : Text
  pub txid : Text
  pub state : AttemptState
  pub reason : Text
  pub created_at : ℕ
  pub updated_at : ℕ

pub record Ledger : Type 0 where
  pub pots : List PotRow
  pub attempts : List Attempt
  pub next_id : ℕ

pub data LedgerError : Type 0 where
  no_hand_id no_txid no_value no_script no_seats unknown_state : LedgerError
  constraint_failed not_found incomplete_intent : LedgerError

pub data Result {ℓ} (A : Type ℓ) : Type ℓ where
  ok : A → Result A
  err : LedgerError → Result A

-- The separator of the seats, a line feed.
abbrev pub separator : ℕ
separator = 10

-- The loop of `encodeSeats` after its first seat.
abbrev pub encode_rest : List Text → Text
encode_rest [] = []
encode_rest (s ∷ seats) = separator ∷ (s ++ encode_rest seats)

-- `encodeSeats`.
abbrev pub encode_seats : List Text → Text
encode_seats [] = []
encode_seats (s ∷ seats) = s ++ encode_rest seats

-- The loop of `decodeSeats`: `start` is what has been read since the last separator.
unfoldable pub decode_from : Text → Text → List Text
decode_from start [] = start ∷ []
decode_from start (b ∷ bs) =
    let cut = decode_from [] bs in
    let longer = decode_from (start ++ b ∷ []) bs in if b == separator then start ∷ cut else longer

-- `decodeSeats`.
unfoldable pub decode_seats : Text → List Text
decode_seats [] = []
decode_seats (b ∷ bs) = decode_from [] (b ∷ bs)

-- What a scan of a row gives.
abbrev pub scan : PotRow → Pot
scan r = record r.pot { seats = decode_seats r.seats_text }

-- `PRIMARY KEY` and `UNIQUE (txid, vout)`.
abbrev pub conflicts : Pot → PotRow → Bool
conflicts p r = text_eq r.pot.hand_id p.hand_id || text_eq r.pot.txid p.txid && r.pot.vout == p.vout

-- `RecordPot`.
unfoldable pub record_pot : ℕ → Pot → Ledger → Ledger × Result (Unit {0})
record_pot now p l =
    let row : PotRow = record {
      pot = record p { created_at = now; updated_at = now };
      seats_text = encode_seats p.seats;
    } in
    if is_empty p.hand_id
    then (l, err no_hand_id)
    else if is_empty p.txid
    then (l, err no_txid)
    else if p.satoshis == 0
    then (l, err no_value)
    else if is_empty p.locking_script
    then (l, err no_script)
    else if length p.seats == 0
    then (l, err no_seats)
    else if not (pot_state_valid p.state)
    then (l, err unknown_state)
    else if any (conflicts p) l.pots
    then (l, err constraint_failed)
    else (record l { pots = l.pots ++ row ∷ [] }, ok tt)

abbrev pub find_pot : Text → List PotRow → Result Pot
find_pot hand [] = err not_found
find_pot hand (r ∷ rows) = if text_eq r.pot.hand_id hand then ok (scan r) else find_pot hand rows

-- `Pot`.
unfoldable pub pot_of : Text → Ledger → Result Pot
pot_of hand l = find_pot hand l.pots

abbrev pub move_pot : ℕ → Text → PotState → PotRow → PotRow
move_pot now hand state r =
    if text_eq r.pot.hand_id hand
    then record r { pot = record r.pot { state = state; updated_at = now } }
    else r

-- `SetPotState`.
unfoldable pub set_pot_state : ℕ → Text → PotState → Ledger → Ledger × Result (Unit {0})
set_pot_state now hand state l =
    if not (pot_state_valid state)
    then (l, err unknown_state)
    else if any (λ r. text_eq r.pot.hand_id hand) l.pots
    then (record l { pots = map (move_pot now hand state) l.pots }, ok tt)
    else (l, err not_found)

-- The states as the texts of their column are compared.
abbrev pub same_pot_state : PotState → PotState → Bool
same_pot_state funding funding = true
same_pot_state funded funded = true
same_pot_state settling settling = true
same_pot_state settled settled = true
same_pot_state refunded refunded = true
same_pot_state abandoned abandoned = true
same_pot_state (other_pot s) (other_pot t) = text_eq s t
same_pot_state _ _ = false

-- `ORDER BY created_at`.
abbrev pub insert_by_age : Pot → List Pot → List Pot
insert_by_age p [] = p ∷ []
insert_by_age p (q ∷ pots) =
    if leb p.created_at q.created_at then p ∷ q ∷ pots else q ∷ insert_by_age p pots

abbrev pub by_age : List Pot → List Pot
by_age [] = []
by_age (p ∷ pots) = insert_by_age p (by_age pots)

-- `PotsInState`.
unfoldable pub pots_in_state : PotState → Ledger → List Pot
pots_in_state state l = by_age (map scan (keep_if (λ r. same_pot_state r.pot.state state) l.pots))

-- `RecordIntent`.
unfoldable pub record_intent : ℕ → Text → Text → Text → Ledger → Ledger × Result ℕ
record_intent now hand purpose txid l =
    let row : Attempt = record {
      id = l.next_id;
      hand_id = hand;
      purpose = purpose;
      txid = txid;
      state = intended;
      reason = [];
      created_at = now;
      updated_at = now;
    } in
    if is_empty hand || is_empty purpose || is_empty txid
    then (l, err incomplete_intent)
    else (record l { attempts = l.attempts ++ row ∷ []; next_id = suc l.next_id }, ok l.next_id)

abbrev pub move_attempt : ℕ → ℕ → AttemptState → Text → Attempt → Attempt
move_attempt now id state reason a =
    if a.id == id then record a { state = state; reason = reason; updated_at = now } else a

-- `SetAttemptState`.
unfoldable pub set_attempt_state : ℕ → ℕ → AttemptState → Text → Ledger → Ledger × Result (Unit {0})
set_attempt_state now id state reason l =
    if any (λ a. a.id == id) l.attempts
    then (record l { attempts = map (move_attempt now id state reason) l.attempts }, ok tt)
    else (l, err not_found)

-- `Attempts`.
unfoldable pub attempts_of : Text → Ledger → List Attempt
attempts_of hand l = keep_if (λ a. text_eq a.hand_id hand) l.attempts

-- The states that `Unresolved` asks for.
abbrev pub is_open : AttemptState → Bool
is_open intended = true
is_open broadcast = true
is_open unknown = true
is_open _ = false

-- `Unresolved`.
unfoldable pub unresolved : Ledger → List Attempt
unresolved l = keep_if (λ a. is_open a.state) l.attempts
