-- ===== src/Tests/DedupTests.antt =====
-- A de-duplicator that keeps two ids.
use brc100_poker.Base.{◌≡◌, refl, true, false, List, [], ◌∷◌, pos, Text}
use brc100_poker.Dedup.{new_dedup, has_seen, forget, evict, remember, first_seen}
use brc100_poker.Dedup.Once.{IsBounded, run, run-IsBounded, first_seen-first_seen}

abbrev id_of : Text → Text
id_of suffix = b'i' ∷ suffix

abbrev ids : List Text
ids = id_of (b'1' ∷ []) ∷ id_of (b'2' ∷ []) ∷ id_of (b'1' ∷ []) ∷ id_of (b'3' ∷ []) ∷ []

-- The first id has been evicted, so that it counts as new again.
evicted : (first_seen (id_of (b'1' ∷ [])) (run ids (new_dedup (pos 2)))).1 ≡ true
unfolding run new_dedup has_seen forget evict remember first_seen
evicted = refl

run-IsBounded_example : IsBounded (run ids (new_dedup (pos 2)))
run-IsBounded_example = run-IsBounded (pos 2) ids

first_seen-first_seen_example :
    let id = id_of (b'1' ∷ []) in
    (first_seen id (first_seen id (run ids (new_dedup (pos 2)))).0).1 ≡ false
first_seen-first_seen_example = first_seen-first_seen (pos 2) ids (id_of (b'1' ∷ [])) refl
