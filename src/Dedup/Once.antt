-- ===== src/Dedup/Once.antt =====
-- transport.go: an id is new once while it is retained, and no more ids are retained than the limit.
use brc100_poker.Base.{
  ℕ, ◌+◌, ◌≤◌, ◌<◌, ◌≡◌, ◌≢◌, refl, sym, subst, Bool, true, false, List, [], ◌∷◌, ◌++◌, arith, ltb,
  if◌then◌else◌, if_both, ℤ, Text, text_eq_iff, text_eq_refl, length, length-append, All, inl, inr,
  Bool-cases,
}
use brc100_poker.Table.{is_empty}
use brc100_poker.Table.Roster.{HasDistinct}
use brc100_poker.Table.Joining.{HasDistinct-append}
use brc100_poker.Dedup.{Dedup, new_dedup, has_seen, forget, evict, remember, first_seen}

-- The ids seen are those in order, each once, and no more than the limit, which is not 0.
pub record IsBounded (d : Dedup) : Type 0 where
  pub same : d.seen ≡ d.order
  pub one_each : HasDistinct d.order
  pub some_limit : 0 < d.limit
  pub within : length d.order ≤ d.limit

has_seen-false : (id : Text) (ids : List Text) → has_seen id ids ≡ false → All (λ j. j ≢ id) ids
unfolding has_seen
has_seen-false id [] h = tt
has_seen-false id (j ∷ ids) h =
    (ground (arith, h, text_eq_iff j id), has_seen-false id ids (ground (arith, h)))

has_seen-last : (id : Text) (ids : List Text) → has_seen id (ids ++ id ∷ []) ≡ true
unfolding has_seen
has_seen-last id [] = ground (arith, text_eq_refl id)
has_seen-last id (j ∷ ids) = ground (arith, has_seen-last id ids)

forget-apart : (id : Text) (ids : List Text) → All (λ j. j ≢ id) ids → forget id ids ≡ ids
unfolding forget
forget-apart id [] a = refl
forget-apart id (j ∷ ids) a = ground (arith, text_eq_iff j id, a.0, forget-apart id ids a.1)

forget-head : (id : Text) (ids : List Text) → All (λ j. j ≢ id) ids → forget id (id ∷ ids) ≡ ids
unfolding forget
forget-head id ids a = ground (arith, text_eq_refl id, forget-apart id ids a)

-- What `remember` leaves: the ids in order, less the oldest where there were as many as the limit.
kept : Text → ℕ → List Text → List Text
kept id limit [] = id ∷ []
kept id limit (oldest ∷ rest) =
    if ltb limit (length (oldest ∷ rest) + 1) then rest ++ id ∷ [] else oldest ∷ rest ++ id ∷ []

remember-kept :
    (id : Text) (seen order : List Text) (limit : ℕ)
    → seen ≡ order
    → HasDistinct (order ++ id ∷ [])
    → 0 < limit
    → remember id (record { seen = seen; order = order; limit = limit })
      ≡ record { seen = kept id limit order; order = kept id limit order; limit = limit }
unfolding remember evict kept
remember-kept id seen [] limit e d b =
    subst
      (λ ids.
        remember id (record { seen = ids; order = []; limit = limit })
        ≡ record { seen = id ∷ []; order = id ∷ []; limit = limit })
      (sym e) (ground arith)
remember-kept id seen (oldest ∷ rest) limit e d b =
    subst
      (λ ids. remember id (record { seen = ids; order = oldest ∷ rest; limit = limit }) ≡ record {
        seen = kept id limit (oldest ∷ rest);
        order = kept id limit (oldest ∷ rest);
        limit = limit;
      })
      (sym e) (ground (arith, forget-head oldest (rest ++ id ∷ []) d.0))

kept-bounded :
    (id : Text) (limit : ℕ) (order : List Text)
    → HasDistinct (order ++ id ∷ [])
    → 0 < limit
    → length order ≤ limit
    → HasDistinct (kept id limit order)
      × (length (kept id limit order) ≤ limit)
      × (has_seen id (kept id limit order) ≡ true)
unfolding kept
kept-bounded id limit [] d b w = (d, omega (arith, b), has_seen-last id [])
kept-bounded id limit (oldest ∷ rest) d b w =
    if_both (λ ids. HasDistinct ids × (length ids ≤ limit) × (has_seen id ids ≡ true))
      (ltb limit (length (oldest ∷ rest) + 1))
      (λ full. (d.1, omega (arith, w, length-append rest (id ∷ [])), has_seen-last id rest))
      (λ room.
        (d, ground (arith, room, length-append rest (id ∷ [])), has_seen-last id (oldest ∷ rest)))

-- After a call, the de-duplicator is bounded, and an id that is not empty is seen.
remember-IsBounded :
    (id : Text) (d : Dedup)
    → has_seen id d.seen ≡ false
    → IsBounded d
    → IsBounded (remember id d) × (has_seen id (remember id d).seen ≡ true)
remember-IsBounded id d new h =
    let fresh = has_seen-false id d.order (subst (λ ids. has_seen id ids ≡ false) h.same new) in
    let distinct = HasDistinct-append d.order id h.one_each fresh in
    let eq = remember-kept id d.seen d.order d.limit h.same distinct h.some_limit in
    let (one_each, within, seen) = kept-bounded id d.limit d.order distinct h.some_limit h.within in
    subst (λ (x : Dedup). IsBounded x × (has_seen id x.seen ≡ true)) (sym eq)
      (
        record { same = refl; one_each = one_each; some_limit = h.some_limit; within = within },
        seen,
      )

first_seen-IsBounded : (id : Text) (d : Dedup) → IsBounded d → IsBounded (first_seen id d).0
unfolding first_seen
first_seen-IsBounded id d h =
    let Bounded = λ (o : Dedup × Bool). IsBounded o.0 in
    if_both Bounded (is_empty id) (λ _. h)
      (λ _.
        if_both Bounded (has_seen id d.seen) (λ _. h) (λ new. (remember-IsBounded id d new h).0))

-- The calls made with a list of ids, one after the other.
unfoldable pub run : List Text → Dedup → Dedup
run [] d = d
run (id ∷ ids) d = run ids (first_seen id d).0

run_from-IsBounded : (ids : List Text) (d : Dedup) → IsBounded d → IsBounded (run ids d)
unfolding run
run_from-IsBounded [] d h = h
run_from-IsBounded (id ∷ ids) d h =
    run_from-IsBounded ids (first_seen id d).0 (first_seen-IsBounded id d h)

new_dedup-IsBounded : (limit : ℤ) → IsBounded (new_dedup limit)
unfolding new_dedup
new_dedup-IsBounded limit = record {
  same = refl;
  one_each = tt;
  some_limit = ground arith;
  within = omega arith;
}

-- Whatever ids come in, a new de-duplicator keeps in its map exactly the ids of its list, each once,
-- and no more of them than its limit.
pub run-IsBounded : (limit : ℤ) (ids : List Text) → IsBounded (run ids (new_dedup limit))
run-IsBounded limit ids = run_from-IsBounded ids (new_dedup limit) (new_dedup-IsBounded limit)

-- However many ids came before, an id that is not empty and has just come in is not new when it
-- comes in again.
pub first_seen-first_seen :
    (limit : ℤ) (ids : List Text) (id : Text)
    → is_empty id ≡ false
    → (first_seen id (first_seen id (run ids (new_dedup limit))).0).1 ≡ false
unfolding first_seen
first_seen-first_seen limit ids id some_id =
    let d = run ids (new_dedup limit) in
    elim (Bool-cases (has_seen id d.seen)) [
      | inl old ↦ ground (arith, some_id, old)
      | inr new ↦
          let again = (remember-IsBounded id d new (run-IsBounded limit ids)).1 in
          ground (arith, some_id, new, again)
    ]
