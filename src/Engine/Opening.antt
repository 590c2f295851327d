-- ===== src/Engine/Opening.antt =====
-- `New` of engine.go: a hand opens consistent and orderly, unless its arguments are refused.
use brc100_poker.Base.{
  ℕ, suc, ◌+◌, ◌*◌, ◌-◌, ◌≤◌, ◌≡◌, refl, inl, inr, false, not, ◌||◌, Option, none, some, List, [],
  ◌∷◌, arith, leb, ltb, ◌==◌, ℤ, pos, negsuc, pos_part, leb_ℤ, ltb_ℤ, any, if_both, Bool-cases,
  subst, sym, ◌∙◌, length, sum_of, drop, tests, get_elem?, modify_at, all, get_elem?-modify_at_self,
  get_elem?-modify_at_ne,
}
use brc100_poker.Cards.{Card, is_valid}
use brc100_poker.Engine.State.{Seat, State, Config, Error, ok, err, min_seats, max_seats, Outcome}
use brc100_poker.Engine.Betting.{post_blind, is_able}
use brc100_poker.Engine.Streets.{set_revealed_hole}
use brc100_poker.Engine.Hand.{
  deal_seats, is_short_for, hole_count, small_blind_seat, big_blind_seat, check_config, dealt_state,
  start, new,
}
use brc100_poker.Engine.Payout.{stacks, commits}
use brc100_poker.Engine.Conserve.{
  IndexedFrom, IsConsistent, commit-KeepsChips, modify_at-IsConsistent, IsConsistent-same,
}
use brc100_poker.Engine.Order.{CanAct, IsOrderly, next_able_to_act-CanAct}

-- The chips that a configuration brings to the table.
abbrev pub brought : Config → ℕ
brought cfg = sum_of pos_part cfg.stacks

deal_seats-IndexedFrom :
    (i n : ℕ) (deck : List Card) (xs : List ℤ) → IndexedFrom i (deal_seats i n deck xs)
unfolding deal_seats
deal_seats-IndexedFrom i n deck [] = tt
deal_seats-IndexedFrom i n deck (x ∷ xs) = (refl, deal_seats-IndexedFrom (suc i) n (drop n deck) xs)

deal_seats-chips :
    (i n : ℕ) (deck : List Card) (xs : List ℤ)
    → (stacks (deal_seats i n deck xs) ≡ sum_of pos_part xs)
      × (commits (deal_seats i n deck xs) ≡ 0)
unfolding deal_seats
deal_seats-chips i n deck [] = (refl, refl)
deal_seats-chips i n deck (x ∷ xs) =
    let rest = deal_seats-chips (suc i) n (drop n deck) xs in (omega arith, omega arith)

dealt_state-IsConsistent : (cfg : Config) → IsConsistent (brought cfg) (dealt_state cfg)
unfolding dealt_state
dealt_state-IsConsistent cfg =
    let chips = deal_seats-chips 0 (hole_count cfg) cfg.deck cfg.stacks in
    record {
      indexed = deal_seats-IndexedFrom 0 (hole_count cfg) cfg.deck cfg.stacks;
      conserved = omega arith;
      unpaid = λ _. refl;
    }

start-IsConsistent :
    (total : ℕ) (st : State)
    → st.done ≡ false
    → IsConsistent total st
    → IsConsistent total (start st)
unfolding start post_blind
start-IsConsistent total st o c =
    let n = length st.seats in
    let small = small_blind_seat n st.button in
    let big = big_blind_seat n st.button in
    let one = modify_at-IsConsistent total st small _ (commit-KeepsChips st.small_blind) c in
    let two =
      modify_at-IsConsistent total (post_blind small st.small_blind st) big _
        (commit-KeepsChips st.big_blind) one in
    IsConsistent-same total (post_blind big st.big_blind (post_blind small st.small_blind st))
      (start st) refl refl o two

pub new-ok :
    (cfg : Config) {st : State}
    → new cfg ≡ ok st
    → (check_config cfg ≡ none) × (start (dealt_state cfg) ≡ st)
unfolding new
new-ok cfg {st} e = checked (check_config cfg) refl e
  where
    checked :
        (m : Option Error)
        → check_config cfg ≡ m
        → elim m [ some x ↦ err x | none ↦ ok (start (dealt_state cfg)) ] ≡ ok st
        → (check_config cfg ≡ none) × (start (dealt_state cfg) ≡ st)
    checked none c h = (c, cc)
    checked (some x) c h = absurd (cc)

deck_holds :
    (cfg : Config) (n : ℕ)
    → is_short_for cfg n ≡ false
    → ltb_ℤ cfg.hole_cards (pos 0) ≡ false
    → hole_count cfg * n + 5 ≤ length cfg.deck
deck_holds cfg n deep counts = holds cfg.hole_cards deep counts
  where
    holds :
        (z : ℤ)
        → elim z [
          | pos h ↦ ltb (length cfg.deck) (hole_count cfg * n + 5)
          | negsuc k ↦ ltb (length cfg.deck) (5 - suc k * n)
        ]
          ≡ false
        → ltb_ℤ z (pos 0) ≡ false
        → hole_count cfg * n + 5 ≤ length cfg.deck
    holds (pos h) d c = omega (tests, d)
    holds (negsuc k) d c = absurd (omega (tests, c))

-- What the last checks of `New` are for.
check_config-deck :
    (cfg : Config)
    → check_config cfg ≡ none
    → hole_count cfg * length cfg.stacks + 5 ≤ length cfg.deck
unfolding check_config
check_config-deck cfg =
    let n = length cfg.stacks in
    let Fits = λ (m : Option Error). m ≡ none → hole_count cfg * n + 5 ≤ length cfg.deck in
    if_both Fits (ltb n min_seats) (λ _ h. absurd (cc h))
      (λ _.
        if_both Fits (ltb max_seats n) (λ _ h. absurd (cc h))
          (λ _.
            if_both Fits (ltb_ℤ cfg.button (pos 0) || leb_ℤ (pos n) cfg.button)
              (λ _ h. absurd (cc h))
              (λ _.
                if_both Fits (leb_ℤ cfg.big_blind (pos 0) || leb_ℤ cfg.small_blind (pos 0))
                  (λ _ h. absurd (cc h))
                  (λ _.
                    if_both Fits (ltb_ℤ cfg.big_blind cfg.small_blind) (λ _ h. absurd (cc h))
                      (λ _.
                        if_both Fits (any (λ s. leb_ℤ s (pos 0)) cfg.stacks) (λ _ h. absurd (cc h))
                          (λ _.
                            if_both Fits (is_short_for cfg n) (λ _ h. absurd (cc h))
                              (λ deep.
                                if_both Fits (ltb_ℤ cfg.hole_cards (pos 0)) (λ _ h. absurd (cc h))
                                  (λ counts _. deck_holds cfg n deep counts))))))))

start-IsOrderly : (cfg : Config) → check_config cfg ≡ none → IsOrderly (start (dealt_state cfg))
unfolding start dealt_state post_blind
start-IsOrderly cfg c = record {
  done_no_wait = λ e. absurd (cc e);
  one_wait = λ _. refl;
  street_open = λ _. omega arith;
  deck_enough = λ _. check_config-deck cfg c;
  pending_open = λ e. absurd (cc e);
  pending_enough = λ e. absurd (cc e);
  can_act = next_able_to_act-CanAct _ _;
}

-- A hand that `New` opens is consistent with the chips that its configuration brings, is orderly,
-- and is not done.
pub new-opens :
    (cfg : Config) {st : State}
    → new cfg ≡ ok st
    → IsConsistent (brought cfg) st × IsOrderly st × (st.done ≡ false)
new-opens cfg {st} e =
    let (checked, same) = new-ok cfg e in
    (
      subst (IsConsistent (brought cfg)) same (
          start-IsConsistent (brought cfg) (dealt_state cfg) not_done
            (dealt_state-IsConsistent cfg)),
      subst IsOrderly same (start-IsOrderly cfg checked),
      subst (λ s. s.done ≡ false) same (started_not_done),
    )
  where
    not_done : (dealt_state cfg).done ≡ false
    not_done = unfold dealt_state in refl

    started_not_done : (start (dealt_state cfg)).done ≡ false
    started_not_done = unfold start post_blind dealt_state in refl

-- Revealed hole cards change nobody's turn.
modify_at-CanAct :
    (i : ℕ) (f : Seat → Seat) (seats : List Seat) (z : ℤ)
    → ((s : Seat) → is_able (f s) ≡ is_able s)
    → CanAct seats z
    → CanAct (modify_at i f seats) z
modify_at-CanAct i f seats (negsuc n) h c = tt
modify_at-CanAct i f seats (pos j) h (s, e, able) = elim (Bool-cases (i == j)) [
  | inl same ↦
      let eq : i ≡ j = ground arith in
      (
        f s,
        subst (λ k. get_elem? (modify_at i f seats) k ≡ some (f s)) eq
            (get_elem?-modify_at_self f i seats
              (subst (λ k. get_elem? seats k ≡ some s) (sym eq) e)),
        h s ∙ able,
      )
  | inr differ ↦ (s, get_elem?-modify_at_ne f i j seats (ground arith) ∙ e, able)
]

pub set_revealed_hole-IsOrderly :
    (seat : ℤ) (hole : List Card) (st : State)
    → IsOrderly st
    → IsOrderly (set_revealed_hole seat hole st).0
unfolding set_revealed_hole
set_revealed_hole-IsOrderly (negsuc n) hole st h = h
set_revealed_hole-IsOrderly (pos i) hole st h =
    if_both (λ (o : Outcome). IsOrderly o.0) (leb (length st.seats) i) (λ _. h)
      (λ _.
        if_both (λ (o : Outcome). IsOrderly o.0) (not (all is_valid hole)) (λ _. h)
          (λ _. record {
            done_no_wait = h.done_no_wait;
            one_wait = h.one_wait;
            street_open = h.street_open;
            deck_enough = h.deck_enough;
            pending_open = h.pending_open;
            pending_enough = h.pending_enough;
            can_act =
                modify_at-CanAct i (λ s. record s { hole = hole }) st.seats st.to_act (λ s. refl)
                  h.can_act;
          }))
