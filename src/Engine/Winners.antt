-- ===== src/Engine/Winners.antt =====
-- The winners of a layer in engine.go: who they are, and that they sit at the table.
use brc100_poker.Base.{
  ℕ, ◌<◌, ◌≡◌, refl, inl, inr, ◌⊎◌, any, Bool, true, false, not, ◌&&◌, none, some, List, [], ◌∷◌,
  ◌++◌, arith, leb, if◌then◌else◌, ℤ, pos, ltb_ℤ, eqb_ℤ, minus_one, All, All-append, All-keep_if,
  keep_if, Bool-cases, Option-cases, subst, ◌∙◌, append-nil, append_assoc, eqb_ℤ→eq, ap, sym,
}
use brc100_poker.Cards.{Card}
use brc100_poker.Eval.{EvalResult, best_constrained}
use brc100_poker.Engine.State.{Seat, State, Result, ok, err}
use brc100_poker.Engine.Scoring.{
  find_winners, insert_sorted, sort_ints, live_at, sorted_ok, winners_among, layer_winners,
}

-- Every index is below `n`.
abbrev pub AllBelow : ℕ → List ℕ → Type 0
AllBelow n ws = All (λ w. w < n) ws

abbrev pub SeatBelow : ℕ → Seat → Type 0
SeatBelow n s = s.index < n

insert_sorted-AllBelow :
    (n a : ℕ) (ws : List ℕ) → a < n → AllBelow n ws → AllBelow n (insert_sorted a ws)
unfolding insert_sorted
insert_sorted-AllBelow n a [] h b = (h, tt)
insert_sorted-AllBelow n a (w ∷ ws) h b = ground (arith, insert_sorted-AllBelow n a ws h b.1)

sort_ints-AllBelow : (n : ℕ) (ws : List ℕ) → AllBelow n ws → AllBelow n (sort_ints ws)
unfolding sort_ints
sort_ints-AllBelow n [] b = tt
sort_ints-AllBelow n (w ∷ ws) b =
    insert_sorted-AllBelow n w (sort_ints ws) b.0 (sort_ints-AllBelow n ws b.1)

find_winners-AllBelow :
    (n : ℕ) (board : List Card) (use_hole best : ℤ) (ws : List ℕ) (live : List Seat) {ws' : List ℕ}
    → AllBelow n ws
    → All (SeatBelow n) live
    → find_winners board use_hole best ws live ≡ ok ws'
    → AllBelow n ws'
unfolding find_winners
find_winners-AllBelow n board use_hole best ws [] b l e = subst (AllBelow n) (cc e) b
find_winners-AllBelow n board use_hole best ws (s ∷ live) {ws'} b l e =
    elim (Option-cases (best_constrained s.hole board use_hole)) [
      | inl unscored ↦ absurd (ground (arith, unscored))
      | inr (r, scored) ↦ elim (Bool-cases (ltb_ℤ best (pos r.score))) [
        | inl better ↦
            find_winners-AllBelow n board use_hole (pos r.score) (s.index ∷ []) live (l.0, tt) l.1
              (ground arith)
        | inr other ↦ elim (Bool-cases (eqb_ℤ (pos r.score) best)) [
          | inl tied ↦
              find_winners-AllBelow n board use_hole best (ws ++ s.index ∷ []) live
                (All-append (λ w. w < n) ws (s.index ∷ []) b (l.0, tt)) l.1 (ground arith)
          | inr worse ↦ find_winners-AllBelow n board use_hole best ws live b l.1 (ground arith)
        ]
      ]
    ]

live_at-SeatBelow :
    (n lvl : ℕ) (seats : List Seat)
    → All (SeatBelow n) seats
    → All (SeatBelow n) (live_at lvl seats)
unfolding live_at
live_at-SeatBelow n lvl seats b =
    reaching (keep_if (λ (s : Seat). leb lvl s.total_commit && not s.folded) seats)
      (All-keep_if (SeatBelow n) (λ s. leb lvl s.total_commit && not s.folded) seats b)
  where
    reaching :
        (live : List Seat)
        → All (SeatBelow n) live
        → All
            (SeatBelow n)
            (elim live [ [] ↦ keep_if (λ (s : Seat). not s.folded) seats | s ∷ more ↦ s ∷ more ])
    reaching [] h = All-keep_if (SeatBelow n) (λ s. not s.folded) seats b
    reaching (s ∷ more) h = h

-- The seats of a score, in order.
abbrev pub seats_scoring : List Card → ℤ → ℤ → List Seat → List ℕ
seats_scoring board use_hole best [] = []
seats_scoring board use_hole best (s ∷ live) =
    let rest = seats_scoring board use_hole best live in
    elim (best_constrained s.hole board use_hole) [
      | none ↦ rest
      | some r ↦ if eqb_ℤ (pos r.score) best then s.index ∷ rest else rest
    ]

-- Every seat can be scored, and none scores more than `best`.
abbrev pub NoneAbove : List Card → ℤ → ℤ → Seat → Type 0
NoneAbove board use_hole best s =
    (r : EvalResult) × (best_constrained s.hole board use_hole ≡ some r)
    × (ltb_ℤ best (pos r.score) ≡ false)

-- A seat scores just `best`.
abbrev pub holds : List Card → ℤ → ℤ → Seat → Bool
holds board use_hole best s = elim (best_constrained s.hole board use_hole) [
  | none ↦ false
  | some r ↦ eqb_ℤ (pos r.score) best
]

any-later {ℓ} :
    {A : Type ℓ} (p : A → Bool) (x : A) (xs : List A) → any p xs ≡ true → any p (x ∷ xs) ≡ true
any-later p x xs h = ground (arith, h)

any-here {ℓ} :
    {A : Type ℓ} (p : A → Bool) (x : A) (xs : List A) → p x ≡ true → any p (x ∷ xs) ≡ true
any-here p x xs h = ground (arith, h)

-- What the scoring loop has found when it ends.
abbrev Found : List Card → ℤ → ℤ → List ℕ → List Seat → List ℕ → Type 0
Found board use_hole start ws live ws' =
    (best : ℤ) × (ltb_ℤ best start ≡ false)
    × All (NoneAbove board use_hole best) live
    × (ws' ≡ (if eqb_ℤ start best then ws else []) ++ seats_scoring board use_hole best live)
    × ((best ≡ start) ⊎ (any (holds board use_hole best) live ≡ true))

module _ (board : List Card) (use_hole : ℤ) where
  Found-nothing :
      (start : ℤ) (ws : List ℕ) {ws' : List ℕ}
      → find_winners board use_hole start ws [] ≡ ok ws'
      → Found board use_hole start ws [] ws'
  unfolding find_winners
  Found-nothing start ws {ws'} e = (start, ground arith, tt, same, inl refl)
    where
      start_same : (a : ℤ) → eqb_ℤ a a ≡ true
      start_same a = ground arith

      same : ws' ≡ (if eqb_ℤ start start then ws else []) ++ []
      same = rw (start_same start, append-nil) (cc e)

  seats_scoring-cons :
      (best : ℤ) (s : Seat) (live : List Seat) (r : EvalResult)
      → best_constrained s.hole board use_hole ≡ some r
      → seats_scoring board use_hole best (s ∷ live)
        ≡ (if eqb_ℤ (pos r.score) best then s.index ∷ [] else [])
          ++ seats_scoring board use_hole best live
  seats_scoring-cons best s live r scored = elim (Bool-cases (eqb_ℤ (pos r.score) best)) [
    | inl hit ↦ rw (scored, seats_scoring) (rw hit)
    | inr miss ↦ rw (scored, seats_scoring) (rw miss)
  ]

  still_held :
      (start best : ℤ) (s : Seat) (live : List Seat)
      → (best ≡ start) ⊎ (any (holds board use_hole best) live ≡ true)
      → (best ≡ start) ⊎ (any (holds board use_hole best) (s ∷ live) ≡ true)
  still_held start best s live (inl e) = inl e
  still_held start best s live (inr h) = inr (any-later (holds board use_hole best) s live h)

  Found-better :
      (start : ℤ) (ws : List ℕ) (s : Seat) (live : List Seat) (r : EvalResult) {ws' : List ℕ}
      → best_constrained s.hole board use_hole ≡ some r
      → ltb_ℤ start (pos r.score) ≡ true
      → Found board use_hole (pos r.score) (s.index ∷ []) live ws'
      → Found board use_hole start ws (s ∷ live) ws'
  Found-better start ws s live r scored better (best, above, none_above, found, held) = (
    best,
    ground arith,
    ((r, scored, above), none_above),
    rw unmatched (rw (seats_scoring-cons best s live r scored) found),
    inr (elim held [
      | inl reached ↦ any-here (holds board use_hole best) s live (ground (arith, scored, reached))
      | inr later ↦ any-later (holds board use_hole best) s live later
    ]),
  )
    where
      unmatched : eqb_ℤ start best ≡ false
      unmatched = ground arith

  Found-tied :
      (start : ℤ) (ws : List ℕ) (s : Seat) (live : List Seat) (r : EvalResult) {ws' : List ℕ}
      → best_constrained s.hole board use_hole ≡ some r
      → eqb_ℤ (pos r.score) start ≡ true
      → Found board use_hole start (ws ++ s.index ∷ []) live ws'
      → Found board use_hole start ws (s ∷ live) ws'
  Found-tied start ws s live r {ws'} scored tied (best, above, none_above, found, held) = (
    best,
    above,
    (
      (
        r,
        scored,
        subst (λ z. ltb_ℤ best z ≡ false) (sym (eqb_ℤ→eq (pos r.score) start tied)) above,
      ),
      none_above,
    ),
    rw (seats_scoring-cons best s live r scored) (elim (Bool-cases (eqb_ℤ start best)) [
      | inl hit ↦
          rw (eqb_ℤ→eq (pos r.score) start tied)
            (rw hit (found ∙ rw hit (append_assoc ws (s.index ∷ []) _)))
      | inr miss ↦ rw (eqb_ℤ→eq (pos r.score) start tied) (rw miss (found ∙ rw miss))
    ]),
    still_held start best s live held,
  )

  Found-worse :
      (start : ℤ) (ws : List ℕ) (s : Seat) (live : List Seat) (r : EvalResult) {ws' : List ℕ}
      → best_constrained s.hole board use_hole ≡ some r
      → ltb_ℤ start (pos r.score) ≡ false
      → eqb_ℤ (pos r.score) start ≡ false
      → Found board use_hole start ws live ws'
      → Found board use_hole start ws (s ∷ live) ws'
  Found-worse start ws s live r scored not_better not_tied (best, above, none_above, found, held) =
      (
        best,
        above,
        ((r, scored, ground arith), none_above),
        rw (seats_scoring-cons best s live r scored) (rw miss found),
        still_held start best s live held,
      )
    where
      miss : eqb_ℤ (pos r.score) best ≡ false
      miss = ground arith

  find_winners-Found :
      (start : ℤ) (ws : List ℕ) (live : List Seat) {ws' : List ℕ}
      → find_winners board use_hole start ws live ≡ ok ws'
      → Found board use_hole start ws live ws'
  unfolding find_winners
  find_winners-Found start ws [] e = Found-nothing start ws e
  find_winners-Found start ws (s ∷ live) e =
      elim (Option-cases (best_constrained s.hole board use_hole)) [
        | inl unscored ↦ absurd (ground (arith, unscored))
        | inr (r, scored) ↦ elim (Bool-cases (ltb_ℤ start (pos r.score))) [
          | inl better ↦
              Found-better start ws s live r scored better
                (find_winners-Found (pos r.score) (s.index ∷ []) live (ground arith))
          | inr not_better ↦ elim (Bool-cases (eqb_ℤ (pos r.score) start)) [
            | inl tied ↦
                Found-tied start ws s live r scored tied
                  (find_winners-Found start (ws ++ s.index ∷ []) live (ground arith))
            | inr worse ↦
                Found-worse start ws s live r scored not_better worse
                  (find_winners-Found start ws live (ground arith))
          ]
        ]
      ]

-- `best` is the best score among these seats, and `ws` are the seats that have it, in order.
abbrev pub AreBest : List Card → ℤ → List Seat → List ℕ → Type 0
AreBest board use_hole live ws =
    (best : ℤ) × All (NoneAbove board use_hole best) live
    × (any (holds board use_hole best) live ≡ true)
    × (ws ≡ sort_ints (seats_scoring board use_hole best live))

abbrev pub BestWin : State → ℕ → List ℕ → Type 0
BestWin st lvl ws = AreBest st.board st.use_hole (live_at lvl st.seats) ws

winners_found :
    (board : List Card) (use_hole : ℤ) (s : Seat) (live : List Seat) {ws ws' : List ℕ}
    → find_winners board use_hole minus_one [] (s ∷ live) ≡ ok ws
    → ws' ≡ sort_ints ws
    → AreBest board use_hole (s ∷ live) ws'
winners_found board use_hole s live {ws} e same =
    let (best, above, none_above, found, held) =
      find_winners-Found board use_hole minus_one [] (s ∷ live) e in
    (
      best,
      none_above,
      elim held [
        | inl unset ↦
            let (r, scored, topped) = none_above.0 in absurd (ground (arith, unset, topped))
        | inr h ↦ h
      ],
      same ∙ ap sort_ints (found ∙ nothing_first best (s ∷ live)),
    )
  where
    nothing_first :
        (best : ℤ) (live : List Seat)
        → (if eqb_ℤ minus_one best then [] else []) ++ seats_scoring board use_hole best live
          ≡ seats_scoring board use_hole best live
    nothing_first best live = elim (Bool-cases (eqb_ℤ minus_one best)) [
      | inl e ↦ rw e
      | inr e ↦ rw e
    ]

sorted_ok-inv :
    (r : Result (List ℕ)) {ws' : List ℕ}
    → sorted_ok r ≡ ok ws'
    → (ws : List ℕ) × (r ≡ ok ws) × (ws' ≡ sort_ints ws)
sorted_ok-inv (ok ws) h = (ws, refl, cc)
sorted_ok-inv (err x) h = absurd (cc)

winners_among-ok :
    (board : List Card) (use_hole : ℤ) (live : List Seat) {ws' : List ℕ}
    → winners_among board use_hole live ≡ ok ws'
    → (ws : List ℕ) × (find_winners board use_hole minus_one [] live ≡ ok ws) × (ws' ≡ sort_ints ws)
winners_among-ok board use_hole [] h = absurd (unfold winners_among in (cc h))
winners_among-ok board use_hole (s ∷ live) h =
    sorted_ok-inv (find_winners board use_hole minus_one [] (s ∷ live)) (unfold winners_among in h)

layer_winners-ok :
    (st : State) (lvl : ℕ) {ws' : List ℕ}
    → layer_winners st lvl ≡ ok ws'
    → (ws : List ℕ) × (find_winners st.board st.use_hole minus_one [] (live_at lvl st.seats)
        ≡ ok ws)
      × (ws' ≡ sort_ints ws)
unfolding layer_winners
layer_winners-ok st lvl e = winners_among-ok st.board st.use_hole (live_at lvl st.seats) e

winners_among-AreBest :
    (board : List Card) (use_hole : ℤ) (live : List Seat) {ws : List ℕ}
    → winners_among board use_hole live ≡ ok ws
    → AreBest board use_hole live ws
winners_among-AreBest board use_hole [] h = absurd (unfold winners_among in (cc h))
winners_among-AreBest board use_hole (s ∷ live) h =
    let (ws, found, same) = winners_among-ok board use_hole (s ∷ live) h in
    winners_found board use_hole s live found same

-- The winners of a layer, when every hand can be scored, are exactly the seats of the best score
-- among the live seats that the layer goes to, in increasing order; one of these seats has that
-- score, and none has more.
pub layer_winners-BestWin :
    (st : State) (lvl : ℕ) {ws : List ℕ} → layer_winners st lvl ≡ ok ws → BestWin st lvl ws
unfolding layer_winners
layer_winners-BestWin st lvl e = winners_among-AreBest st.board st.use_hole (live_at lvl st.seats) e

-- The winners of a layer sit at the table.
pub layer_winners-AllBelow :
    (n : ℕ) (st : State) (lvl : ℕ) {ws : List ℕ}
    → All (SeatBelow n) st.seats
    → layer_winners st lvl ≡ ok ws
    → AllBelow n ws
layer_winners-AllBelow n st lvl b e =
    let (ws, found, same) = layer_winners-ok st lvl e in
    subst (AllBelow n) (sym same) (
      sort_ints-AllBelow n ws (
        find_winners-AllBelow n st.board st.use_hole minus_one [] (live_at lvl st.seats) tt
          (live_at-SeatBelow n lvl st.seats b) found))
