-- ===== src/Ledger/Recovery.antt =====
-- potledger.go: after a restart the intents that have no outcome are found.
use brc100_poker.Base.{
  ℕ, zero, suc, ◌≡◌, refl, sym, ap, subst, ◌∙◌, Bool, true, false, ◌||◌, Bool-cases, inl, inr, some,
  List, [], ◌∷◌, ◌++◌, map, arith, ◌==◌, Text, any, keep_if, length, get_elem?, some_eq, All,
}
use brc100_poker.Table.{is_empty}
use brc100_poker.Ledger.{
  Pot, PotState, AttemptState, intended, broadcast, unknown, confirmed, rejected, other_attempt,
  Attempt, Ledger, ok, is_open, record_pot, set_pot_state, record_intent, set_attempt_state,
  move_attempt, unresolved,
}

-- The calls that change a ledger.
pub data Call : Type 0 where
  recording : ℕ → Pot → Call
  moving : ℕ → Text → PotState → Call
  intending : ℕ → Text → Text → Text → Call
  resolving : ℕ → ℕ → AttemptState → Text → Call

abbrev pub call : Call → Ledger → Ledger
call (recording now p) l = (record_pot now p l).0
call (moving now hand state) l = (set_pot_state now hand state l).0
call (intending now hand purpose txid) l = (record_intent now hand purpose txid l).0
call (resolving now id state reason) l = (set_attempt_state now id state reason l).0

abbrev pub run : List Call → Ledger → Ledger
run [] l = l
run (o ∷ os) l = run os (call o l)

-- A state of an attempt that may still be on the network: it was intended or broadcast, or nobody knows.
abbrev pub IsAwaited : AttemptState → Type 0
IsAwaited intended = Unit
IsAwaited broadcast = Unit
IsAwaited unknown = Unit
IsAwaited _ = ⊥

IsAwaited-is_open : (s : AttemptState) → IsAwaited s → is_open s ≡ true
IsAwaited-is_open intended w = refl
IsAwaited-is_open broadcast w = refl
IsAwaited-is_open unknown w = refl
IsAwaited-is_open confirmed w = elim w [ ]
IsAwaited-is_open rejected w = elim w [ ]
IsAwaited-is_open (other_attempt t) w = elim w [ ]

-- A call that gives the attempt no final outcome.
abbrev pub LeavesOpen : ℕ → Call → Type 0
LeavesOpen id (resolving now i state reason) = i ≡ id → IsAwaited state
LeavesOpen id _ = Unit

-- An attempt of the list that is the one recorded.
pub record IsListed (id : ℕ) (hand txid : Text) (as' : List Attempt) : Type 0 where
  pub index : ℕ
  pub attempt : Attempt
  pub found : get_elem? as' index ≡ some attempt
  pub same_id : attempt.id ≡ id
  pub same_hand : attempt.hand_id ≡ hand
  pub same_txid : attempt.txid ≡ txid
  pub unsettled : IsAwaited attempt.state

get_elem?-append {ℓ} :
    {A : Type ℓ} (xs ys : List A) (k : ℕ) {a : A}
    → get_elem? xs k ≡ some a
    → get_elem? (xs ++ ys) k ≡ some a
get_elem?-append [] ys k e = absurd (cc e)
get_elem?-append (x ∷ xs) ys zero e = e
get_elem?-append (x ∷ xs) ys (suc k) e = get_elem?-append xs ys k e

get_elem?-append_last {ℓ} :
    {A : Type ℓ} (xs : List A) (a : A) → get_elem? (xs ++ a ∷ []) (length xs) ≡ some a
get_elem?-append_last [] a = refl
get_elem?-append_last (x ∷ xs) a = get_elem?-append_last xs a

get_elem?-map {ℓ κ} :
    {A : Type ℓ} {B : Type κ} (f : A → B) (xs : List A) (k : ℕ) {a : A}
    → get_elem? xs k ≡ some a
    → get_elem? (map f xs) k ≡ some (f a)
get_elem?-map f [] k e = absurd (cc e)
get_elem?-map f (x ∷ xs) zero e = ap (λ y. some (f y)) (some_eq e)
get_elem?-map f (x ∷ xs) (suc k) e = get_elem?-map f xs k e

get_elem?-keep_if {ℓ} :
    {A : Type ℓ} (p : A → Bool) (xs : List A) (k : ℕ) {a : A}
    → get_elem? xs k ≡ some a
    → p a ≡ true
    → (j : ℕ) × (get_elem? (keep_if p xs) j ≡ some a)
get_elem?-keep_if p [] k e h = absurd (cc e)
get_elem?-keep_if p (x ∷ xs) zero {a} e h =
    let kept : p x ≡ true = ap p (some_eq e) ∙ h in
    (0, ap (λ b. get_elem? (elim b [ true ↦ x ∷ keep_if p xs | false ↦ keep_if p xs ]) 0) kept ∙ e)
get_elem?-keep_if p (x ∷ xs) (suc k) {a} e h =
    let (j, found) = get_elem?-keep_if p xs k e h in
    elim (Bool-cases (p x)) [
      | inl kept ↦ (
        suc j,
        ap (λ b. get_elem? (elim b [ true ↦ x ∷ keep_if p xs | false ↦ keep_if p xs ]) (suc j)) kept
            ∙ found,
      )
      | inr left ↦ (
        j,
        ap (λ b. get_elem? (elim b [ true ↦ x ∷ keep_if p xs | false ↦ keep_if p xs ]) j) left
            ∙ found,
      )
    ]

-- The row of an intent.
abbrev intent : ℕ → Text → Text → Text → Ledger → Attempt
intent now hand purpose txid l = record {
  id = l.next_id;
  hand_id = hand;
  purpose = purpose;
  txid = txid;
  state = intended;
  reason = [];
  created_at = now;
  updated_at = now;
}

record_intent-adds :
    (now : ℕ) (hand purpose txid : Text) (l : Ledger)
    → (is_empty hand || is_empty purpose || is_empty txid) ≡ false
    → (record_intent now hand purpose txid l).0.attempts
      ≡ l.attempts ++ intent now hand purpose txid l ∷ []
unfolding record_intent
record_intent-adds now hand purpose txid l e = ground (arith, e)

record_intent-accepts :
    (now : ℕ) (hand purpose txid : Text) (l : Ledger) (id : ℕ)
    → (record_intent now hand purpose txid l).1 ≡ ok id
    → ((is_empty hand || is_empty purpose || is_empty txid) ≡ false) × (l.next_id ≡ id)
unfolding record_intent
record_intent-accepts now hand purpose txid l id e = (ground (arith, e), ground (arith, e))

IsListed-elsewhere :
    (id : ℕ) (hand txid : Text) (as' bs : List Attempt) (i : IsListed id hand txid as') (k : ℕ)
    → get_elem? bs k ≡ some i.attempt
    → IsListed id hand txid bs
IsListed-elsewhere id hand txid as' bs i k e = record {
  index = k;
  attempt = i.attempt;
  found = e;
  same_id = i.same_id;
  same_hand = i.same_hand;
  same_txid = i.same_txid;
  unsettled = i.unsettled;
}

IsListed-append :
    (id : ℕ) (hand txid : Text) (as' new : List Attempt)
    → IsListed id hand txid as'
    → IsListed id hand txid (as' ++ new)
IsListed-append id hand txid as' new i =
    IsListed-elsewhere id hand txid as' (as' ++ new) i i.index
      (get_elem?-append as' new i.index i.found)

-- Moving attempts leaves the one listed open, when it is another, or is moved to an open state.
IsListed-move :
    (now j id : ℕ) (state : AttemptState) (reason hand txid : Text) (as' : List Attempt)
    → (j ≡ id → IsAwaited state)
    → IsListed id hand txid as'
    → IsListed id hand txid (map (move_attempt now j state reason) as')
IsListed-move now j id state reason hand txid as' o i =
    let moved = move_attempt now j state reason i.attempt in
    let moved_here : (i.attempt.id == j) ≡ true
        → (move_attempt now j state reason i.attempt).state ≡ state =
      λ e. ground (arith, e) in
    let moved_other : (i.attempt.id == j) ≡ false
        → (move_attempt now j state reason i.attempt).state ≡ i.attempt.state =
      λ e. ground (arith, e) in
    let at_index = get_elem?-map (move_attempt now j state reason) as' i.index i.found in
    elim (Bool-cases (i.attempt.id == j)) [
      | inl here ↦ record {
        index = i.index;
        attempt = moved;
        found = at_index;
        same_id = ground (arith, here, i.same_id);
        same_hand = ground (arith, here, i.same_hand);
        same_txid = ground (arith, here, i.same_txid);
        unsettled = subst IsAwaited (sym (moved_here here)) (o (ground (arith, here, i.same_id)));
      }
      | inr other ↦ record {
        index = i.index;
        attempt = moved;
        found = at_index;
        same_id = ground (arith, other, i.same_id);
        same_hand = ground (arith, other, i.same_hand);
        same_txid = ground (arith, other, i.same_txid);
        unsettled = subst IsAwaited (sym (moved_other other)) i.unsettled;
      }
    ]

record_pot-attempts :
    (now : ℕ) (p : Pot) (l : Ledger) → (record_pot now p l).0.attempts ≡ l.attempts
unfolding record_pot
record_pot-attempts now p l = ground arith

set_pot_state-attempts :
    (now : ℕ) (hand : Text) (state : PotState) (l : Ledger)
    → (set_pot_state now hand state l).0.attempts ≡ l.attempts
unfolding set_pot_state
set_pot_state-attempts now hand state l = ground arith

call-IsListed :
    (id : ℕ) (hand txid : Text) (o : Call) (l : Ledger)
    → LeavesOpen id o
    → IsListed id hand txid l.attempts
    → IsListed id hand txid (call o l).attempts
unfolding record_intent set_attempt_state
call-IsListed id hand txid (recording now p) l o i =
    subst (IsListed id hand txid) (sym (record_pot-attempts now p l)) i
call-IsListed id hand txid (moving now h state) l o i =
    subst (IsListed id hand txid) (sym (set_pot_state-attempts now h state l)) i
call-IsListed id hand txid (intending now h purpose t) l o i =
    elim (Bool-cases (is_empty h || is_empty purpose || is_empty t)) [
      | inl refused ↦
          let same : (record_intent now h purpose t l).0.attempts ≡ l.attempts =
            ground (arith, refused) in
          subst (IsListed id hand txid) (sym same) i
      | inr accepted ↦
          let more = record_intent-adds now h purpose t l accepted in
          subst (IsListed id hand txid) (sym more)
            (IsListed-append id hand txid l.attempts (intent now h purpose t l ∷ []) i)
    ]
call-IsListed id hand txid (resolving now j state reason) l o i =
    elim (Bool-cases (any (λ (a : Attempt). a.id == j) l.attempts)) [
      | inl known ↦
          let moved : (set_attempt_state now j state reason l).0.attempts
              ≡ map (move_attempt now j state reason) l.attempts =
            ground (arith, known) in
          subst (IsListed id hand txid) (sym moved)
            (IsListed-move now j id state reason hand txid l.attempts o i)
      | inr unknown_id ↦
          let same : (set_attempt_state now j state reason l).0.attempts ≡ l.attempts =
            ground (arith, unknown_id) in
          subst (IsListed id hand txid) (sym same) i
    ]

run-IsListed :
    (id : ℕ) (hand txid : Text) (os : List Call) (l : Ledger)
    → All (LeavesOpen id) os
    → IsListed id hand txid l.attempts
    → IsListed id hand txid (run os l).attempts
run-IsListed id hand txid [] l a i = i
run-IsListed id hand txid (o ∷ os) l a i =
    run-IsListed id hand txid os (call o l) a.1 (call-IsListed id hand txid o l a.0 i)

-- An intent that was recorded is among the unresolved attempts, with its hand and its transaction,
-- after any calls that give it no final outcome.
pub record_intent-unresolved :
    (now : ℕ) (hand purpose txid : Text) (l : Ledger) (id : ℕ) (os : List Call)
    → (record_intent now hand purpose txid l).1 ≡ ok id
    → All (LeavesOpen id) os
    → IsListed id hand txid (unresolved (run os (record_intent now hand purpose txid l).0))
unfolding unresolved
record_intent-unresolved now hand purpose txid l id os e a =
    let accepted = record_intent-accepts now hand purpose txid l id e in
    let more = record_intent-adds now hand purpose txid l accepted.0 in
    let start : IsListed id hand txid (l.attempts ++ intent now hand purpose txid l ∷ []) = record {
      index = length l.attempts;
      attempt = intent now hand purpose txid l;
      found = get_elem?-append_last l.attempts (intent now hand purpose txid l);
      same_id = accepted.1;
      same_hand = refl;
      same_txid = refl;
      unsettled = tt;
    } in
    let i =
      run-IsListed id hand txid os (record_intent now hand purpose txid l).0 a
        (subst (IsListed id hand txid) (sym more) start) in
    let (j, listed) =
      get_elem?-keep_if (λ (b : Attempt). is_open b.state)
        (run os (record_intent now hand purpose txid l).0).attempts i.index i.found
        (IsAwaited-is_open i.attempt.state i.unsettled) in
    IsListed-elsewhere id hand txid (run os (record_intent now hand purpose txid l).0).attempts
      (unresolved (run os (record_intent now hand purpose txid l).0)) i j listed
