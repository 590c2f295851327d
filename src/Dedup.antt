-- ===== src/Dedup.antt =====
-- internal/protocol/transport/transport.go: `Dedup`, which tells whether a message id is new. The
-- map `seen` is the list of its keys; the mutex has no counterpart, since each call is one step.
pub mod Once
use brc100_poker.Base.{
  ℕ, ◌+◌, Bool, true, false, not, ◌||◌, List, [], ◌∷◌, ◌++◌, ltb, if◌then◌else◌, ℤ, pos, negsuc,
  leb_ℤ, Text, text_eq, length, any, keep_if, pos_part,
}
use brc100_poker.Table.{is_empty}

pub record Dedup : Type 0 where
  pub seen : List Text
  pub order : List Text
  pub limit : ℕ

-- `NewDedup`.
unfoldable pub new_dedup : ℤ → Dedup
new_dedup limit = record {
  seen = [];
  order = [];
  limit = if leb_ℤ limit (pos 0) then 4096 else pos_part limit;
}

unfoldable pub has_seen : Text → List Text → Bool
has_seen id seen = any (λ i. text_eq i id) seen

-- `delete(d.seen, evict)`.
unfoldable pub forget : Text → List Text → List Text
forget id seen = keep_if (λ i. not (text_eq i id)) seen

-- The oldest id is evicted.
unfoldable pub evict : Dedup → Dedup
evict d = elim d.order [
  | [] ↦ d
  | oldest ∷ rest ↦ record d { order = rest; seen = forget oldest d.seen }
]

unfoldable pub remember : Text → Dedup → Dedup
remember id d =
    let added : Dedup = record d { seen = d.seen ++ id ∷ []; order = d.order ++ id ∷ [] } in
    if ltb d.limit (length d.order + 1) then evict added else added

-- `FirstSeen`.
unfoldable pub first_seen : Text → Dedup → Dedup × Bool
first_seen id d =
    if is_empty id
    then (d, true)
    else if has_seen id d.seen
    then (d, false)
    else (remember id d, true)
