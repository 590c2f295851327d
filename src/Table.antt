-- ===== src/Table.antt =====
-- internal/protocol/table/table.go: the coordination state of one table. Times are numbers that
-- the caller passes in place of `t.now()`; the mutex has no counterpart, since each method is one
-- step. `byIdentity` is the list of its entries, each with the index of the seat that it points at.
pub mod Roster
pub mod Joining
pub mod Phases
pub mod Frozen
use brc100_poker.Base.{
  ℕ, zero, suc, ◌+◌, ◌-◌, ◌≤◌, ◌<◌, Bool, true, false, not, ◌&&◌, ◌||◌, Option, none, some, List,
  [], ◌∷◌, ◌++◌, map, leb, ltb, ◌==◌, if◌then◌else◌, ℤ, pos, negsuc, minus_one, leb_ℤ, ltb_ℤ, Text,
  text_eq, normalise, length, get_elem?, modify_at, all,
}

abbrev pub min_seats : ℕ
min_seats = 2

abbrev pub max_seats : ℕ
max_seats = 6

pub data Phase : Type 0 where
  phase_open phase_funding phase_dealing phase_betting : Phase
  phase_settling phase_closed phase_stalled : Phase

pub record Terms : Type 0 where
  pub table_id : Text
  pub buy_in_satoshis : ℕ
  pub small_blind : ℕ
  pub big_blind : ℕ
  pub seats : ℤ
  pub refund_lock_height : ℕ

-- One constructor for each error of the file.
pub data TableError : Type 0 where
  no_table_id bad_seat_count no_buy_in no_blinds small_exceeds_big : TableError
  big_exceeds_buy_in no_refund_height : TableError
  no_identity not_open already_seated table_full : TableError
  holds_no_seat no_such_seat not_that_seat : TableError
  too_few_seats not_funding no_refund partial_pot bad_transition : TableError
  no_reason table_closed : TableError

pub data Result {ℓ} (A : Type ℓ) : Type ℓ where
  ok : A → Result A
  err : TableError → Result A

abbrev pub is_empty : Text → Bool
is_empty [] = true
is_empty (c ∷ cs) = false

abbrev pub error_if : Bool → TableError → List TableError
error_if true e = e ∷ []
error_if false e = []

-- `Validate` joins every error that applies.
unfoldable pub validate : Terms → List TableError
validate t =
    error_if (is_empty t.table_id) no_table_id
    ++ (error_if (ltb_ℤ t.seats (pos min_seats) || ltb_ℤ (pos max_seats) t.seats) bad_seat_count
        ++ (error_if (t.buy_in_satoshis == 0) no_buy_in
            ++ (error_if (t.big_blind == 0 || t.small_blind == 0) no_blinds
                ++ (error_if (ltb t.big_blind t.small_blind) small_exceeds_big
                    ++ (error_if (ltb t.buy_in_satoshis t.big_blind) big_exceeds_buy_in
                        ++ error_if (t.refund_lock_height == 0) no_refund_height)))))

pub record Seat : Type 0 where
  pub index : ℕ
  pub identity_key : Text
  pub funded : Bool
  pub refund_held : Bool
  pub joined_at : ℕ
  pub last_seen : ℕ

pub record Table : Type 0 where
  pub terms : Terms
  pub phase : Phase
  pub seats : List Seat
  pub by_identity : List (Text × ℕ)
  pub stall_reason : Text
  pub stalled_seat : ℤ

-- `New`.
unfoldable pub new : Terms → Result Table
new terms = elim (validate terms) [
  | [] ↦ ok (record {
    terms = terms;
    phase = phase_open;
    seats = [];
    by_identity = [];
    stall_reason = [];
    stalled_seat = minus_one;
  })
  | e ∷ es ↦ err e
]

unfoldable pub lookup : Text → List (Text × ℕ) → Option ℕ
lookup key [] = none
lookup key ((k, i) ∷ entries) = if text_eq k key then some i else lookup key entries

abbrev pub is_open : Phase → Bool
is_open phase_open = true
is_open _ = false

abbrev pub is_funding : Phase → Bool
is_funding phase_funding = true
is_funding _ = false

abbrev pub is_closed : Phase → Bool
is_closed phase_closed = true
is_closed _ = false

-- A method's new state, with what it returns.
abbrev pub Outcome : Type 0 → Type 0
Outcome A = Table × Result A

abbrev pub new_seat : ℕ → Text → ℕ → Seat
new_seat index key now = record {
  index = index;
  identity_key = key;
  funded = false;
  refund_held = false;
  joined_at = now;
  last_seen = now;
}

-- `Join`.
unfoldable pub join : ℕ → Text → Table → Outcome ℕ
join now identity_key t =
    let key = normalise identity_key in
    let n = length t.seats in
    if is_empty key
    then (t, err no_identity)
    else if not (is_open t.phase)
    then (t, err not_open)
    else elim (lookup key t.by_identity) [
      | some i ↦ (t, err already_seated)
      | none ↦ if leb_ℤ t.terms.seats (pos n) then (t, err table_full) else (
        record t {
          seats = t.seats ++ new_seat n key now ∷ [];
          by_identity = t.by_identity ++ (key, n) ∷ [];
        },
        ok n,
      )
    ]

-- `SeatOf`.
unfoldable pub seat_of : Text → Table → Result ℕ
seat_of identity_key t = elim (lookup (normalise identity_key) t.by_identity) [
  | none ↦ err holds_no_seat
  | some i ↦ ok i
]

-- `Authorise`.
unfoldable pub authorise : ℤ → Text → Table → Result (Unit {0})
authorise (negsuc n) identity_key t = err no_such_seat
authorise (pos i) identity_key t = elim (get_elem? t.seats i) [
  | none ↦ err no_such_seat
  | some s ↦ if text_eq s.identity_key (normalise identity_key) then ok tt else err not_that_seat
]

-- A write to a seat that exists.
unfoldable pub update_seat : ℤ → (Seat → Seat) → Table → Outcome (Unit {0})
update_seat (negsuc n) f t = (t, err no_such_seat)
update_seat (pos i) f t =
    if leb (length t.seats) i
    then (t, err no_such_seat)
    else (record t { seats = modify_at i f t.seats }, ok tt)

-- `Touch`.
unfoldable pub touch : ℕ → ℤ → Table → Outcome (Unit {0})
touch now seat t = update_seat seat (λ s. record s { last_seen = now }) t

-- `CloseRoster`.
unfoldable pub close_roster : Table → Outcome (Unit {0})
close_roster t =
    if not (is_open t.phase)
    then (t, err not_open)
    else if ltb (length t.seats) min_seats
    then (t, err too_few_seats)
    else (record t { phase = phase_funding }, ok tt)

-- `MarkRefundHeld`.
unfoldable pub mark_refund_held : ℤ → Table → Outcome (Unit {0})
mark_refund_held seat t = update_seat seat (λ s. record s { refund_held = true }) t

-- `MarkFunded` on a seat of the table.
unfoldable pub mark_funded_at : ℕ → Table → Outcome (Unit {0})
mark_funded_at i t = elim (get_elem? t.seats i) [
  | none ↦ (t, err no_such_seat)
  | some s ↦
      if not s.refund_held
      then (t, err no_refund)
      else (record t { seats = modify_at i (λ s. record s { funded = true }) t.seats }, ok tt)
]

-- `MarkFunded`.
unfoldable pub mark_funded : ℤ → Table → Outcome (Unit {0})
mark_funded (negsuc n) t =
    if not (is_funding t.phase) then (t, err not_funding) else (t, err no_such_seat)
mark_funded (pos i) t =
    if not (is_funding t.phase) then (t, err not_funding) else mark_funded_at i t

-- `fullyFundedLocked`.
unfoldable pub fully_funded : Table → Bool
fully_funded t = leb min_seats (length t.seats) && all (λ s. s.funded) t.seats

-- `UnfundedSeats`.
unfoldable pub unfunded : List Seat → List ℕ
unfunded [] = []
unfunded (s ∷ seats) = let rest = unfunded seats in if s.funded then rest else s.index ∷ rest

-- `BeginDeal`.
unfoldable pub begin_deal : Table → Outcome (Unit {0})
begin_deal t =
    if not (is_funding t.phase)
    then (t, err not_funding)
    else if not (fully_funded t)
    then (t, err partial_pot)
    else (record t { phase = phase_dealing }, ok tt)

-- The table `allowed` of `Advance`.
unfoldable pub is_allowed : Phase → Phase → Bool
is_allowed phase_open phase_funding = true
is_allowed phase_open phase_closed = true
is_allowed phase_funding phase_dealing = true
is_allowed phase_funding phase_stalled = true
is_allowed phase_funding phase_closed = true
is_allowed phase_dealing phase_betting = true
is_allowed phase_dealing phase_stalled = true
is_allowed phase_betting phase_settling = true
is_allowed phase_betting phase_stalled = true
is_allowed phase_settling phase_closed = true
is_allowed phase_settling phase_stalled = true
is_allowed phase_stalled phase_closed = true
is_allowed _ _ = false

-- `Advance`.
unfoldable pub advance : Phase → Table → Outcome (Unit {0})
advance to t =
    if is_allowed t.phase to then (record t { phase = to }, ok tt) else (t, err bad_transition)

-- `Stall`; a negative seat blames nobody.
unfoldable pub stall : ℤ → Text → Table → Outcome (Unit {0})
stall seat reason t =
    if is_empty reason
    then (t, err no_reason)
    else if is_closed t.phase
    then (t, err table_closed)
    else if leb_ℤ (pos (length t.seats)) seat
    then (t, err no_such_seat)
    else (record t { phase = phase_stalled; stalled_seat = seat; stall_reason = reason }, ok tt)

-- `TimedOutSeats`; `now - limit` may lie before time 0.
unfoldable pub timed_out : ℕ → ℕ → List Seat → List ℕ
timed_out now limit [] = []
timed_out now limit (s ∷ seats) =
    let rest = timed_out now limit seats in
    if ltb (s.last_seen + limit) now then s.index ∷ rest else rest

-- `Close`.
unfoldable pub close : Table → Table
close t = record t { phase = phase_closed }

-- `IdentityKeys`: `out[s.Index] = s.IdentityKey` over the seats, from as many empty keys.
unfoldable pub write_keys : List Seat → List Text → List Text
write_keys [] out = out
write_keys (s ∷ seats) out = write_keys seats (modify_at s.index (λ _. s.identity_key) out)

unfoldable pub identity_keys : Table → List Text
unfolding write_keys
identity_keys t = write_keys t.seats (map (λ _. []) t.seats)
