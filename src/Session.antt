-- ===== src/Session.antt =====
-- internal/protocol/table/messages.go and session.go: the messages of a game and one seat's session.
-- The JSON of envelopes and the time are parameters. A handler is a parameter too: the envelopes that
-- are handed to a handler are kept in `handled`, and what `Publish` is called with is a result.
pub mod Receive
use brc100_poker.Base.{
  ℕ, ◌+◌, ◌%◌, ◌^◌, Bool, true, false, not, ◌&&◌, ◌||◌, Option, none, some, List, [], ◌∷◌, ◌++◌,
  map, ltb, leb, ◌==◌, if◌then◌else◌, ℤ, pos, negsuc, eqb_ℤ, ltb_ℤ, leb_ℤ, Text, text_eq, any,
  keep_if, length,
}
use brc100_poker.Dedup.{Dedup, new_dedup, first_seen}
use brc100_poker.Table.{
  Phase, phase_dealing, phase_betting, phase_settling, phase_open, phase_funding, phase_closed,
  phase_stalled, Table, Terms, Result, is_empty, max_seats, ok, err, authorise, touch,
}

-- A message kind; `other_kind` is a text that names none of them.
pub data Kind : Type 0 where
  hello shuffle remask shuffle_proof hole_reveal board_reveal showdown_reveal : Kind
  action settlement_proposal signature refusal catch_up_request ack : Kind
  other_kind : Text → Kind

-- `PhaseFor`.
abbrev pub phase_for : Kind → Option Phase
phase_for shuffle = some phase_dealing
phase_for remask = some phase_dealing
phase_for shuffle_proof = some phase_dealing
phase_for hole_reveal = some phase_dealing
phase_for action = some phase_betting
phase_for board_reveal = some phase_betting
phase_for showdown_reveal = some phase_betting
phase_for settlement_proposal = some phase_settling
phase_for signature = some phase_settling
phase_for _ = none

abbrev pub is_hello : Kind → Bool
is_hello hello = true
is_hello _ = false

abbrev pub is_board_reveal : Kind → Bool
is_board_reveal board_reveal = true
is_board_reveal _ = false

abbrev pub no_kind : Kind → Bool
no_kind (other_kind t) = is_empty t
no_kind _ = false

-- The phases, as the constants' texts are compared.
abbrev pub phase_number : Phase → ℕ
phase_number phase_open = 0
phase_number phase_funding = 1
phase_number phase_dealing = 2
phase_number phase_betting = 3
phase_number phase_settling = 4
phase_number phase_closed = 5
phase_number phase_stalled = 6

abbrev pub same_phase : Phase → Phase → Bool
same_phase p q = phase_number p == phase_number q

pub record Envelope : Type 0 where
  pub table_id : Text
  pub hand_id : Text
  pub kind : Kind
  pub seat : ℤ
  pub identity_key : Text
  pub seq : ℕ
  pub recipient : Text
  pub body : Text

pub data EnvelopeError : Type 0 where
  no_table_id no_message_kind seat_outside no_identity_key no_hand_id : EnvelopeError

abbrev pub error_if : Bool → EnvelopeError → List EnvelopeError
error_if true e = e ∷ []
error_if false e = []

-- `Validate` of an envelope joins every error that applies.
unfoldable pub validate : Envelope → List EnvelopeError
validate e =
    error_if (is_empty e.table_id) no_table_id
    ++ (error_if (no_kind e.kind) no_message_kind
        ++ (error_if (ltb_ℤ e.seat (pos 0) || leb_ℤ (pos max_seats) e.seat) seat_outside
            ++ (error_if (is_empty e.identity_key) no_identity_key
                ++ error_if (not (is_hello e.kind) && is_empty e.hand_id) no_hand_id)))

-- `Private`.
abbrev pub private_message : Envelope → Bool
private_message e = not (is_empty e.recipient)

pub data RevealError : Type 0 where
  no_position uneven_reveal negative_position repeated_position : RevealError

-- The loop of `Validate` of a reveal.
unfoldable pub check_positions : List ℤ → List ℤ → Option RevealError
check_positions [] seen = none
check_positions (negsuc p ∷ positions) seen = some negative_position
check_positions (pos p ∷ positions) seen =
    let rest = check_positions positions (pos p ∷ seen) in
    if any (eqb_ℤ (pos p)) seen then some repeated_position else rest

-- `Validate` of a reveal, from its positions and the number of its scalars.
unfoldable pub validate_reveal : List ℤ → ℕ → Option RevealError
validate_reveal positions count =
    if length positions == 0
    then some no_position
    else if not (length positions == count)
    then some uneven_reveal
    else check_positions positions []

-- `Validate` of a refusal: whether it has a reason.
abbrev pub validate_refusal : Text → Bool
validate_refusal reason = not (is_empty reason)

-- The number that a map from seats to sequence numbers has, 0 when it has none.
abbrev pub applied_for : ℤ → List (ℤ × ℕ) → ℕ
applied_for k [] = 0
applied_for k (entry ∷ rest) = if eqb_ℤ k entry.0 then entry.1 else applied_for k rest

abbrev pub set_applied : ℤ → ℕ → List (ℤ × ℕ) → List (ℤ × ℕ)
set_applied k n [] = (k, n) ∷ []
set_applied k n (entry ∷ rest) =
    if eqb_ℤ k entry.0 then (k, n) ∷ rest else entry ∷ set_applied k n rest

pub record Session : Type 0 where
  pub table : Table
  pub table_id : Text
  pub dedup : Dedup
  pub self_seat : ℤ
  pub self_key : Text
  pub applied : List (ℤ × ℕ)
  pub log : List Envelope
  pub next_seq : ℕ
  -- The kinds that `Handle` has registered a handler for.
  pub handles : Kind → Bool
  pub handled : List Envelope

-- A `Message` of the transport.
pub record Message : Type 0 where
  pub id : Text
  pub payload : Text

-- `NewSession` with a table and a transport that lets it subscribe. A session needs an identity.
unfoldable pub new_session : Table → ℤ → Text → ℤ → Option Session
new_session t seat key dedup_limit =
    if is_empty key
    then none
    else some (record {
      table = t;
      table_id = t.terms.table_id;
      dedup = new_dedup dedup_limit;
      self_seat = seat;
      self_key = key;
      applied = [];
      log = [];
      next_seq = 0;
      handles = λ k. false;
      handled = [];
    })

-- `Handle`, with the test for the kinds that are the one named.
unfoldable pub handle : (Kind → Bool) → Session → Session
handle named s = record s { handles = λ k. named k || s.handles k }

-- Whether the phase allows the message.
abbrev pub in_phase : Phase → Kind → Bool
in_phase got k = elim (phase_for k) [
  | none ↦ true
  | some want ↦ same_phase got want || is_board_reveal k && same_phase got phase_dealing
]

-- The checks of `onMessage` after the decoding, from what they read of the session.
unfoldable pub allows : Text → Text → Phase → Result (Unit {0}) → Envelope → Bool
allows table_id self_key got authorised e = elim (validate e) [
  | x ∷ xs ↦ false
  | [] ↦
      if not (text_eq e.table_id table_id)
      then false
      else if private_message e && not (text_eq e.recipient self_key)
      then false
      else elim (if is_hello e.kind then ok tt else authorised) [
        | err why ↦ false
        | ok u ↦ in_phase got e.kind
      ]
]

abbrev pub admits : Session → Envelope → Bool
admits s e = allows s.table_id s.self_key s.table.phase (authorise e.seat e.identity_key s.table) e

-- The end of `onMessage`: the sequence number, `Touch` and the handler.
unfoldable pub apply : ℕ → Session → Envelope → Session
apply now s e = record s {
  applied =
      if ltb (applied_for e.seat s.applied) e.seq
      then set_applied e.seat e.seq s.applied
      else s.applied;
  table = (touch now e.seat s.table).0;
  handled = if s.handles e.kind then s.handled ++ e ∷ [] else s.handled;
}

-- What `ServeCatchUp` finds missing.
unfoldable pub missing : Session → List (ℤ × ℕ) → List Envelope
missing s have_seq =
    let have = applied_for s.self_seat have_seq in
    keep_if (λ e. ltb have e.seq && not (private_message e)) s.log

module _ (decode : Text → Option Envelope) where
  -- `onMessage`.
  unfoldable pub on_message : ℕ → Session → Message → Session
  on_message now s m =
      let (d, first) = first_seen m.id s.dedup in
      let noted = record s { dedup = d } in
      if not first then noted else elim (decode m.payload) [
        | none ↦ noted
        | some e ↦ if admits noted e then apply now noted e else noted
      ]

module _ (encode : Envelope → Option Text) where
  -- `sendTo` with a body that is encoded: the session, and what is published.
  unfoldable pub send_to : Session → Kind → Text → Text → Session × Option Text
  send_to s k recipient body =
      let seq = (s.next_seq + 1) % 2 ^ 64 in
      let e : Envelope = record {
        table_id = if is_empty s.table.terms.table_id then s.table_id else s.table.terms.table_id;
        hand_id = s.table_id;
        kind = k;
        seat = s.self_seat;
        identity_key = s.self_key;
        seq = seq;
        recipient = recipient;
        body = body;
      } in
      let counted = record s { next_seq = seq } in
      elim (validate e) [
        | x ∷ xs ↦ (counted, none)
        | [] ↦ elim (encode e) [
          | none ↦ (counted, none)
          | some raw ↦ (record counted { log = s.log ++ e ∷ [] }, some raw)
        ]
      ]

  -- `SendPrivate`.
  unfoldable pub send_private : Session → Kind → Text → Text → Session × Option Text
  send_private s k recipient body =
      if is_empty recipient then (s, none) else send_to s k recipient body

  -- The loop of `ServeCatchUp`: what is published, up to an envelope that has no encoding.
  unfoldable pub replay : List Envelope → List Text
  replay [] = []
  replay (e ∷ es) = elim (encode e) [ none ↦ [] | some raw ↦ raw ∷ replay es ]

  -- `ServeCatchUp`, where every `Publish` succeeds.
  unfoldable pub serve_catch_up : Session → List (ℤ × ℕ) → List Text
  serve_catch_up s have_seq = replay (missing s have_seq)

  -- `RequestCatchUp`, with the encoding of the sequence numbers that are applied.
  unfoldable pub request_catch_up : (List (ℤ × ℕ) → Text) → Session → Session × Option Text
  request_catch_up encode_applied s = send_to s catch_up_request [] (encode_applied s.applied)
