-- ===== src/Table/Joining.antt =====
-- table.go: taking a seat, and which identity speaks for which seat.
use brc100_poker.Base.{
  ℕ, zero, suc, ◌+◌, ◌≡◌, ◌≢◌, ◌↔◌, refl, inl, inr, sym, ap, subst, ◌∙◌, true, false, not, Option,
  none, some, some_eq, List, [], ◌∷◌, ◌++◌, map, map-append, arith, if◌then◌else◌, if_both,
  Bool-cases, Option-cases, pos, leb_ℤ, Text, text_eq, text_eq_iff, text_eq_refl, normalise,
  normalise-normalise, length, length-append, get_elem?, All, All-append,
}
use brc100_poker.Table.{
  Seat, Table, ok, err, lookup, is_open, is_empty, new_seat, Outcome, join, seat_of, authorise,
  already_seated, table_full,
}
use brc100_poker.Table.Roster.{IndexedFrom, entry, keys, HasDistinct, IsCovered, IsSeated}

lookup-none :
    (key : Text) (seats : List Seat)
    → lookup key (map entry seats) ≡ none
    → All (λ j. j ≢ key) (keys seats)
unfolding lookup
lookup-none key [] e = tt
lookup-none key (s ∷ seats) e = elim (Bool-cases (text_eq s.identity_key key)) [
  | inl same ↦ absurd (cc (rw same at e))
  | inr differs ↦ (
    (λ h. cc (sym differs ∙ (text_eq_iff s.identity_key key).1 h)),
    lookup-none key seats (rw differs at e),
  )
]

-- An entry that is found is that of the seat at its position.
lookup-some :
    (k : ℕ) (key : Text) (seats : List Seat) {i : ℕ}
    → IndexedFrom k seats
    → lookup key (map entry seats) ≡ some i
    → (m : ℕ) × (s : Seat) × (i ≡ k + m) × (get_elem? seats m ≡ some s) × (s.identity_key ≡ key)
unfolding lookup
lookup-some k key [] ix e = absurd (cc e)
lookup-some k key (s ∷ seats) {i} ix e = elim (Bool-cases (text_eq s.identity_key key)) [
  | inl same ↦
      let here : s.index ≡ i = some_eq (rw same at e) in
      (0, s, omega (arith, ix.0), refl, (text_eq_iff s.identity_key key).0 same)
  | inr differs ↦
      let (m, t, at, found, held) = lookup-some (suc k) key seats {i = i} ix.1 (rw differs at e) in
      (suc m, t, omega arith, found, held)
]

-- A seat's identity finds the seat's position.
lookup-get_elem? :
    (k m : ℕ) (seats : List Seat) {s : Seat}
    → IndexedFrom k seats
    → HasDistinct (keys seats)
    → get_elem? seats m ≡ some s
    → lookup s.identity_key (map entry seats) ≡ some (k + m)
unfolding lookup
lookup-get_elem? k m [] ix d e = absurd (cc e)
lookup-get_elem? k zero (t ∷ seats) {s} ix d e =
    let same : t ≡ s = some_eq e in
    subst (λ (z : Seat). lookup z.identity_key (map entry (t ∷ seats)) ≡ some (k + 0)) same
      (rw (text_eq_refl t.identity_key) (ap some (omega (arith, ix.0))))
lookup-get_elem? k (suc m) (t ∷ seats) {s} ix d e =
    elim (Bool-cases (text_eq t.identity_key s.identity_key)) [
      | inl same ↦ absurd (other_key m seats e d.0 (sym ((text_eq_iff _ _).0 same)))
      | inr differs ↦
          rw differs (lookup-get_elem? (suc k) m seats ix.1 d.1 e ∙ ap some (omega arith))
    ]
  where
    other_key :
        (n : ℕ) (xs : List Seat)
        → get_elem? xs n ≡ some s
        → All (λ j. j ≢ t.identity_key) (keys xs)
        → s.identity_key ≢ t.identity_key
    other_key n [] h a = absurd (cc h)
    other_key zero (x ∷ xs) h a =
        subst (λ (z : Seat). z.identity_key ≢ t.identity_key) (some_eq h) a.0
    other_key (suc n) (x ∷ xs) h a = other_key n xs h a.1

-- On a well-seated table a message is authorised for a seat exactly when its identity, however it
-- is spelled in case and surrounding space, is the one that holds that seat.
pub authorise-seat_of :
    (t : Table) (i : ℕ) (key : Text)
    → IsSeated t
    → (authorise (pos i) key t ≡ ok tt) ↔ (seat_of key t ≡ ok i)
unfolding authorise seat_of
authorise-seat_of t i key h = (to_seat, from_seat)
  where
    to_seat : authorise (pos i) key t ≡ ok tt → seat_of key t ≡ ok i
    to_seat e = elim (Option-cases (get_elem? t.seats i)) [
      | inl gone ↦ absurd (ground (arith, gone, e))
      | inr (s, there) ↦ elim (Bool-cases (text_eq s.identity_key (normalise key))) [
        | inl same ↦
            let k : s.identity_key ≡ normalise key = (text_eq_iff _ _).0 same in
            let at = lookup-get_elem? 0 i t.seats h.indexed h.one_each there in
            ground (arith, at, k, h.entries)
        | inr differs ↦ absurd (ground (arith, there, differs, e))
      ]
    ]

    from_seat : seat_of key t ≡ ok i → authorise (pos i) key t ≡ ok tt
    from_seat e = elim (Option-cases (lookup (normalise key) t.by_identity)) [
      | inl gone ↦ absurd (ground (arith, gone, e))
      | inr (j, there) ↦
          let found : lookup (normalise key) (map entry t.seats) ≡ some j =
            subst (λ es. lookup (normalise key) es ≡ some j) h.entries there in
          let (m, s, at, seat, held) =
            lookup-some 0 (normalise key) t.seats {i = j} h.indexed found in
          let same : j ≡ i = ground (arith, there, e) in
          let here : get_elem? t.seats i ≡ some s =
            subst (λ n. get_elem? t.seats n ≡ some s) (omega arith) seat in
          let fits : text_eq s.identity_key (normalise key) ≡ true = (text_eq_iff _ _).1 held in
          ground (arith, here, fits)
    ]

map-entry-append :
    (seats : List Seat) (s : Seat) → map entry (seats ++ s ∷ []) ≡ map entry seats ++ entry s ∷ []
map-entry-append seats s = map-append entry seats (s ∷ [])

IndexedFrom-append :
    (k : ℕ) (seats : List Seat) (s : Seat)
    → IndexedFrom k seats
    → s.index ≡ k + length seats
    → IndexedFrom k (seats ++ s ∷ [])
IndexedFrom-append k [] s ix e = (omega arith, tt)
IndexedFrom-append k (t ∷ seats) s ix e =
    (ix.0, IndexedFrom-append (suc k) seats s ix.1 (omega arith))

pub HasDistinct-append :
    (ks : List Text) (key : Text)
    → HasDistinct ks
    → All (λ j. j ≢ key) ks
    → HasDistinct (ks ++ key ∷ [])
HasDistinct-append [] key d f = (tt, tt)
HasDistinct-append (k ∷ ks) key d f = (
  All-append (λ j. j ≢ k) ks (key ∷ []) d.0 ((λ e. f.0 (sym e)), tt),
  HasDistinct-append ks key d.1 f.1,
)

module _ (now : ℕ) (t : Table) (key : Text) where
  joined : Table
  joined = record t {
    seats = t.seats ++ new_seat (length t.seats) key now ∷ [];
    by_identity = t.by_identity ++ (key, length t.seats) ∷ [];
  }

  joined-IsSeated :
      normalise key ≡ key
      → lookup key t.by_identity ≡ none
      → leb_ℤ t.terms.seats (pos (length t.seats)) ≡ false
      → IsSeated t
      → IsSeated joined
  unfolding joined
  joined-IsSeated is_normal free room h =
      let s = new_seat (length t.seats) key now in
      let ks = map-append (λ (u : Seat). u.identity_key) t.seats (s ∷ []) in
      let fresh = lookup-none key t.seats (subst (λ es. lookup key es ≡ none) h.entries free) in
      record {
        indexed = IndexedFrom-append 0 t.seats s h.indexed (omega arith);
        entries = rw h.entries (sym (map-entry-append t.seats s));
        one_each =
            subst HasDistinct (sym ks) (HasDistinct-append (keys t.seats) key h.one_each fresh);
        normal =
            subst (All (λ k. normalise k ≡ k)) (sym ks) (
              All-append (λ k. normalise k ≡ k) (keys t.seats) (key ∷ []) h.normal (is_normal, tt));
        covered = All-append IsCovered t.seats (s ∷ []) h.covered ((λ e. cc e), tt);
        within = ground (arith, length-append t.seats (s ∷ []));
      }

-- Joining keeps the table well seated, whoever asks: no identity takes a second seat, however it
-- is spelled, and no seat is taken beyond the number in the terms.
pub join-IsSeated :
    (now : ℕ) (identity_key : Text) (t : Table) → IsSeated t → IsSeated (join now identity_key t).0
unfolding join
join-IsSeated now identity_key t h =
    let Seats = λ (o : Outcome ℕ). IsSeated o.0 in
    if_both Seats (is_empty (normalise identity_key)) (λ _. h)
      (λ _.
        if_both Seats (not (is_open t.phase)) (λ _. h)
          (λ _. free (lookup (normalise identity_key) t.by_identity) refl))
  where
    key : Text
    key = normalise identity_key

    free :
        (m : Option ℕ)
        → lookup key t.by_identity ≡ m
        → IsSeated
            (elim m as (λ _. Outcome ℕ) [
              | some i ↦ (t, err already_seated)
              | none ↦ if leb_ℤ t.terms.seats (pos (length t.seats)) then (t, err table_full) else (
                record t {
                  seats = t.seats ++ new_seat (length t.seats) key now ∷ [];
                  by_identity = t.by_identity ++ (key, length t.seats) ∷ [];
                },
                ok (length t.seats),
              )
            ]).0
    free (some i) e = h
    free none e =
        if_both (λ (o : Outcome ℕ). IsSeated o.0) (leb_ℤ t.terms.seats (pos (length t.seats)))
          (λ _. h)
          (λ room.
            unfold joined in
            (joined-IsSeated now t key (normalise-normalise identity_key) e room h))
