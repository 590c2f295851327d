-- ===== src/Table/Roster.antt =====
-- The roster of table.go: positions, identities, and the refund that stands before a stake.
use brc100_poker.Base.{
  ℕ, zero, suc, ◌≡◌, ◌≢◌, refl, sym, ap, subst, ◌∙◌, true, not, Option, none, some, List, [], ◌∷◌,
  map, arith, leb, if◌then◌else◌, if_both, ℤ, pos, negsuc, leb_ℤ, Text, normalise, length,
  get_elem?, modify_at, length-modify_at, All, All-modify_at, All-modify_at_one,
}
use brc100_poker.Table.{
  Seat, Table, Phase, ok, err, is_funding, Outcome, update_seat, touch, mark_refund_held,
  mark_funded_at, mark_funded, no_such_seat, no_refund,
}

abbrev pub IndexedFrom : ℕ → List Seat → Type 0
IndexedFrom k [] = Unit
IndexedFrom k (s ∷ seats) = (s.index ≡ k) × IndexedFrom (suc k) seats

-- The entries of the index by identity.
abbrev pub entry : Seat → Text × ℕ
entry s = (s.identity_key, s.index)

abbrev pub keys : List Seat → List Text
keys seats = map (λ (s : Seat). s.identity_key) seats

-- No two seats hold one identity.
abbrev pub HasDistinct : List Text → Type 0
HasDistinct [] = Unit
HasDistinct (k ∷ ks) = All (λ j. j ≢ k) ks × HasDistinct ks

-- A seat has staked nothing without a refund.
abbrev pub IsCovered : Seat → Type 0
IsCovered s = s.funded ≡ true → s.refund_held ≡ true

-- The invariant of a table: seats stand at their index, the index by identity is that of the
-- seats, no identity has two seats and each is normal, no stake is committed without a refund, and
-- there are no more seats than the terms say.
pub record IsSeated (t : Table) : Type 0 where
  pub indexed : IndexedFrom 0 t.seats
  pub entries : t.by_identity ≡ map entry t.seats
  pub one_each : HasDistinct (keys t.seats)
  pub normal : All (λ k. normalise k ≡ k) (keys t.seats)
  pub covered : All IsCovered t.seats
  pub within : leb_ℤ (pos (length t.seats)) t.terms.seats ≡ true

-- An update that keeps a seat's position and identity, and the refund before the stake.
abbrev pub KeepsSeat : (Seat → Seat) → Type 0
KeepsSeat f = (s : Seat) → ((f s).index ≡ s.index) × ((f s).identity_key ≡ s.identity_key)

modify_at-IndexedFrom :
    (f : Seat → Seat) (k i : ℕ) (seats : List Seat)
    → KeepsSeat f
    → IndexedFrom k seats
    → IndexedFrom k (modify_at i f seats)
modify_at-IndexedFrom f k i [] h ix = ix
modify_at-IndexedFrom f k zero (s ∷ seats) h ix = ((h s).0 ∙ ix.0, ix.1)
modify_at-IndexedFrom f k (suc i) (s ∷ seats) h ix =
    (ix.0, modify_at-IndexedFrom f (suc k) i seats h ix.1)

modify_at-entries :
    (f : Seat → Seat) (i : ℕ) (seats : List Seat)
    → KeepsSeat f
    → map entry (modify_at i f seats) ≡ map entry seats
modify_at-entries f i [] h = refl
modify_at-entries f zero (s ∷ seats) h = rw ((h s).0, (h s).1)
modify_at-entries f (suc i) (s ∷ seats) h = ap (λ es. entry s ∷ es) (modify_at-entries f i seats h)

pub modify_at-keys :
    (f : Seat → Seat) (i : ℕ) (seats : List Seat)
    → KeepsSeat f
    → keys (modify_at i f seats) ≡ keys seats
modify_at-keys f i [] h = refl
modify_at-keys f zero (s ∷ seats) h = ap (λ k. k ∷ keys seats) ((h s).1)
modify_at-keys f (suc i) (s ∷ seats) h = ap (λ ks. s.identity_key ∷ ks) (modify_at-keys f i seats h)

-- A table stays well seated under such an update.
pub modify_at-IsSeated :
    (t : Table) (i : ℕ) (f : Seat → Seat)
    → KeepsSeat f
    → All IsCovered (modify_at i f t.seats)
    → IsSeated t
    → IsSeated (record t { seats = modify_at i f t.seats })
modify_at-IsSeated t i f k c h = record {
  indexed = modify_at-IndexedFrom f 0 i t.seats k h.indexed;
  entries = h.entries ∙ sym (modify_at-entries f i t.seats k);
  one_each = subst HasDistinct (sym (modify_at-keys f i t.seats k)) h.one_each;
  normal = subst (All (λ x. normalise x ≡ x)) (sym (modify_at-keys f i t.seats k)) h.normal;
  covered = c;
  within = rw (length-modify_at i f t.seats) h.within;
}

update_seat-IsSeated :
    (t : Table) (seat : ℤ) (f : Seat → Seat)
    → KeepsSeat f
    → ((s : Seat) → IsCovered s → IsCovered (f s))
    → IsSeated t
    → IsSeated (update_seat seat f t).0
unfolding update_seat
update_seat-IsSeated t (negsuc n) f k c h = h
update_seat-IsSeated t (pos i) f k c h =
    if_both (λ (o : Outcome (Unit {0})). IsSeated o.0) (leb (length t.seats) i) (λ _. h)
      (λ _. modify_at-IsSeated t i f k (All-modify_at IsCovered f i t.seats c h.covered) h)

-- Hearing from a seat keeps the table well seated.
pub touch-IsSeated : (now : ℕ) (seat : ℤ) (t : Table) → IsSeated t → IsSeated (touch now seat t).0
unfolding touch
touch-IsSeated now seat t h = update_seat-IsSeated t seat _ (λ s. (refl, refl)) (λ s c. c) h

pub mark_refund_held-IsSeated :
    (seat : ℤ) (t : Table) → IsSeated t → IsSeated (mark_refund_held seat t).0
unfolding mark_refund_held
mark_refund_held-IsSeated seat t h =
    update_seat-IsSeated t seat _ (λ s. (refl, refl)) (λ s c _. refl) h

mark_funded_at-IsSeated : (i : ℕ) (t : Table) → IsSeated t → IsSeated (mark_funded_at i t).0
unfolding mark_funded_at
mark_funded_at-IsSeated i t h = found (get_elem? t.seats i) refl
  where
    fund : Seat → Seat
    fund s = record s { funded = true }

    found :
        (m : Option Seat)
        → get_elem? t.seats i ≡ m
        → IsSeated
            (elim m as (λ _. Outcome (Unit {0})) [
              | none ↦ (t, err no_such_seat)
              | some s ↦
                  if not s.refund_held
                  then (t, err no_refund)
                  else (record t { seats = modify_at i fund t.seats }, ok tt)
            ]).0
    found none e = h
    found (some s) e =
        if_both (λ (o : Outcome (Unit {0})). IsSeated o.0) (not s.refund_held) (λ _. h)
          (λ held.
            modify_at-IsSeated t i fund (λ s. (refl, refl))
              (All-modify_at_one IsCovered fund i t.seats e (λ _. ground arith) h.covered) h)

-- Recording a stake keeps the table well seated: no seat is funded whose refund is not held.
pub mark_funded-IsSeated : (seat : ℤ) (t : Table) → IsSeated t → IsSeated (mark_funded seat t).0
unfolding mark_funded
mark_funded-IsSeated (negsuc n) t h =
    if_both (λ (o : Outcome (Unit {0})). IsSeated o.0) (not (is_funding t.phase)) (λ _. h) (λ _. h)
mark_funded-IsSeated (pos i) t h =
    if_both (λ (o : Outcome (Unit {0})). IsSeated o.0) (not (is_funding t.phase)) (λ _. h)
      (λ _. mark_funded_at-IsSeated i t h)

-- A phase, and what a stall records, are no part of the roster.
pub IsSeated-phase :
    (t : Table) (phase : Phase) (reason : Text) (seat : ℤ)
    → IsSeated t
    → IsSeated (record t { phase = phase; stall_reason = reason; stalled_seat = seat })
IsSeated-phase t phase reason seat h = record {
  indexed = h.indexed;
  entries = h.entries;
  one_each = h.one_each;
  normal = h.normal;
  covered = h.covered;
  within = h.within;
}
