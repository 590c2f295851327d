-- ===== src/Session/Receive.antt =====
-- session.go: what reaches a handler, over any sequence of messages.
use brc100_poker.Base.{
  ℕ, suc, ◌≡◌, ◌⊎◌, inl, inr, refl, sym, ap, subst, ◌∙◌, true, Bool-cases, Option-cases, Option,
  none, some, List, [], ◌∷◌, ◌++◌, arith, if◌then◌else◌, leb, ℤ, pos, negsuc, Text, text_eq,
  append_assoc, All, All-map, All-append, get_elem?, modify_at, normalise, zero, length,
}
use brc100_poker.Dedup.{first_seen}
use brc100_poker.Table.{
  Table, TableError, Seat, Result, no_such_seat, not_that_seat, authorise, touch, update_seat, ok,
  err,
}
use brc100_poker.Session.{
  Session, Envelope, Message, validate, is_hello, in_phase, allows, admits, apply, on_message,
}

List-cases {ℓ} :
    {A : Type ℓ} (xs : List A) → (xs ≡ []) ⊎ ((x : A) × (rest : List A) × (xs ≡ x ∷ rest))
List-cases [] = inl refl
List-cases (x ∷ rest) = inr (x, rest, refl)

Result-cases : (r : Result (Unit {0})) → (r ≡ ok tt) ⊎ ((e : TableError) × (r ≡ err e))
Result-cases (ok a) = inl refl
Result-cases (err e) = inr (e, refl)

abbrev authorise_seat : Text → Option Seat → Result (Unit {0})
authorise_seat key none = err no_such_seat
authorise_seat key (some s) =
    if text_eq s.identity_key (normalise key) then ok tt else err not_that_seat

seats-touched :
    (now : ℕ) (key : Text) (i k : ℕ) (seats : List Seat)
    → authorise_seat key (get_elem? (modify_at i (λ s. record s { last_seen = now }) seats) k)
      ≡ authorise_seat key (get_elem? seats k)
seats-touched now key i k [] = refl
seats-touched now key zero zero (s ∷ seats) = refl
seats-touched now key zero (suc k) (s ∷ seats) = refl
seats-touched now key (suc i) zero (s ∷ seats) = refl
seats-touched now key (suc i) (suc k) (s ∷ seats) = seats-touched now key i k seats

-- `Touch` authorises whom the table authorised.
authorise-touch :
    (now : ℕ) (seat : ℤ) (t : Table) (k : ℤ) (key : Text)
    → authorise k key (touch now seat t).0 ≡ authorise k key t
unfolding authorise touch update_seat
authorise-touch now seat t (negsuc k) key = refl
authorise-touch now (negsuc i) t (pos k) key = refl
authorise-touch now (pos i) t (pos k) key = elim (Bool-cases (leb (length t.seats) i)) [
  | inl outside ↦ ground (arith, outside)
  | inr inside ↦ ground (arith, inside, seats-touched now key i k t.seats)
]

touch-phase : (now : ℕ) (seat : ℤ) (t : Table) → (touch now seat t).0.phase ≡ t.phase
unfolding touch update_seat
touch-phase now (negsuc i) t = refl
touch-phase now (pos i) t = ground arith

-- Two sessions that judge an envelope alike.
pub record SameGate (s s' : Session) : Type 0 where
  pub ids : s'.table_id ≡ s.table_id
  pub keys : s'.self_key ≡ s.self_key
  pub phases : s'.table.phase ≡ s.table.phase
  pub kinds : s'.handles ≡ s.handles
  pub seats : (k : ℤ) (key : Text) → authorise k key s'.table ≡ authorise k key s.table

SameGate-admits : (s s' : Session) (e : Envelope) → SameGate s s' → admits s' e ≡ admits s e
SameGate-admits s s' e g =
    ap (λ id. allows id s'.self_key s'.table.phase (authorise e.seat e.identity_key s'.table) e)
      g.ids
    ∙ ap (λ key. allows s.table_id key s'.table.phase (authorise e.seat e.identity_key s'.table) e)
        g.keys
    ∙ ap (λ p. allows s.table_id s.self_key p (authorise e.seat e.identity_key s'.table) e) g.phases
    ∙ ap (λ r. allows s.table_id s.self_key s.table.phase r e) (g.seats e.seat e.identity_key)

-- An envelope that a session hands to a handler.
abbrev pub IsAdmitted : Session → Envelope → Type 0
IsAdmitted s e = (admits s e ≡ true) × (s.handles e.kind ≡ true)

apply-SameGate :
    (now : ℕ) (s s' : Session) (e : Envelope) → SameGate s s' → SameGate s (apply now s' e)
unfolding apply
apply-SameGate now s s' e g = record {
  ids = g.ids;
  keys = g.keys;
  phases = touch-phase now e.seat s'.table ∙ g.phases;
  kinds = g.kinds;
  seats = λ k key. authorise-touch now e.seat s'.table k key ∙ g.seats k key;
}

apply-IsAdmitted :
    (now : ℕ) (s s' : Session) (e : Envelope)
    → SameGate s s'
    → admits s' e ≡ true
    → All (IsAdmitted s) s'.handled
    → All (IsAdmitted s) (apply now s' e).handled
unfolding apply
apply-IsAdmitted now s s' e g fit all = elim (Bool-cases (s'.handles e.kind)) [
  | inl yes_handled ↦
      subst (All (IsAdmitted s))
        (ap (λ b. if b then s'.handled ++ e ∷ [] else s'.handled) (sym yes_handled))
        (All-append (IsAdmitted s) s'.handled (e ∷ []) all (
          (sym (SameGate-admits s s' e g) ∙ fit, ap (λ f. f e.kind) (sym g.kinds) ∙ yes_handled),
          tt,
        ))
  | inr no_handler ↦
      subst (All (IsAdmitted s))
        (ap (λ b. if b then s'.handled ++ e ∷ [] else s'.handled) (sym no_handler)) all
]

-- The session with the id of a message noted.
abbrev noted : Session → Message → Session
noted s m = record s { dedup = (first_seen m.id s.dedup).0 }

-- What the checks of an admitted envelope say.
abbrev pub IsChecked : Session → Envelope → Type 0
IsChecked s e =
    (validate e ≡ [])
    × (text_eq e.table_id s.table_id ≡ true)
    × ((e.recipient ≡ []) ⊎ (text_eq e.recipient s.self_key ≡ true))
    × ((is_hello e.kind ≡ true) ⊎ (authorise e.seat e.identity_key s.table ≡ ok tt))
    × (in_phase s.table.phase e.kind ≡ true)
    × (s.handles e.kind ≡ true)

IsAdmitted-IsChecked : (s : Session) (e : Envelope) → IsAdmitted s e → IsChecked s e
unfolding allows
IsAdmitted-IsChecked s e (fit, registered) = elim (List-cases (validate e)) [
  | inr (x, xs, bad) ↦ absurd (ground (arith, fit, bad))
  | inl clean ↦
      let for_table : text_eq e.table_id s.table_id ≡ true = ground (arith, fit, clean) in
      let to_us : (e.recipient ≡ []) ⊎ (text_eq e.recipient s.self_key ≡ true) =
        elim (List-cases e.recipient) [
          | inl public ↦ inl public
          | inr (b, bs, private) ↦ inr (ground (arith, fit, clean, for_table, private))
        ] in
      elim (Bool-cases (is_hello e.kind)) [
        | inl greets ↦ (
          clean,
          for_table,
          to_us,
          inl greets,
          ground (arith, fit, clean, for_table, greets),
          registered,
        )
        | inr speaks ↦ elim (Result-cases (authorise e.seat e.identity_key s.table)) [
          | inl known ↦ (
            clean,
            for_table,
            to_us,
            inr known,
            ground (arith, fit, clean, for_table, speaks, known),
            registered,
          )
          | inr (why, unknown) ↦ absurd (ground (arith, fit, clean, for_table, speaks, unknown))
        ]
      ]
]

apply-dedup : (now : ℕ) (s : Session) (e : Envelope) → (apply now s e).dedup ≡ s.dedup
unfolding apply
apply-dedup now s e = refl

apply-handled :
    (now : ℕ) (s : Session) (e : Envelope)
    → s.handles e.kind ≡ true
    → (apply now s e).handled ≡ s.handled ++ e ∷ []
unfolding apply
apply-handled now s e registered = ap (λ b. if b then s.handled ++ e ∷ [] else s.handled) registered

module _ (decode : Text → Option Envelope) where
  -- The messages in the order of their delivery, each with its time.
  abbrev pub run : List (ℕ × Message) → Session → Session
  run [] s = s
  run (m ∷ ms) s = run ms (on_message decode m.0 s m.1)

  on_message-cases :
      (now : ℕ) (s : Session) (m : Message)
      → (on_message decode now s m ≡ noted s m)
        ⊎ ((e : Envelope) × (admits (noted s m) e ≡ true)
            × (on_message decode now s m ≡ apply now (noted s m) e))
  unfolding on_message
  on_message-cases now s m = elim (Option-cases (decode m.payload)) [
    | inl garbled ↦ inl (ground (arith, garbled))
    | inr (e, found) ↦ elim (Bool-cases (admits (noted s m) e)) [
      | inl fit ↦ elim (Bool-cases (first_seen m.id s.dedup).1) [
        | inl fresh ↦ inr (e, fit, ground (arith, found, fit, fresh))
        | inr stale ↦ inl (ground (arith, stale))
      ]
      | inr unfit ↦ inl (ground (arith, found, unfit))
    ]
  ]

  on_message-IsAdmitted :
      (now : ℕ) (s s' : Session) (m : Message)
      → SameGate s s'
      → All (IsAdmitted s) s'.handled
      → SameGate s (on_message decode now s' m)
        × All (IsAdmitted s) (on_message decode now s' m).handled
  on_message-IsAdmitted now s s' m g all =
      let kept : SameGate s (noted s' m) = record {
        ids = g.ids;
        keys = g.keys;
        phases = g.phases;
        kinds = g.kinds;
        seats = g.seats;
      } in
      elim (on_message-cases now s' m) [
        | inl ignored ↦
            subst (λ t. SameGate s t × All (IsAdmitted s) t.handled) (sym ignored) (kept, all)
        | inr (e, fit, applied) ↦
            subst (λ t. SameGate s t × All (IsAdmitted s) t.handled) (sym applied)
              (
                apply-SameGate now s (noted s' m) e kept,
                apply-IsAdmitted now s (noted s' m) e kept fit all,
              )
      ]

  run-IsAdmitted :
      (ms : List (ℕ × Message)) (s s' : Session)
      → SameGate s s'
      → All (IsAdmitted s) s'.handled
      → All (IsAdmitted s) (run ms s').handled
  run-IsAdmitted [] s s' g all = all
  run-IsAdmitted (m ∷ ms) s s' g all =
      let (kept, more) = on_message-IsAdmitted m.0 s s' m.1 g all in
      run-IsAdmitted ms s (on_message decode m.0 s' m.1) kept more

  -- Over any sequence of messages, a session that has handled none hands to a handler only envelopes
  -- that are well-formed, are for its table and for it, come from the holder of their seat unless they
  -- are a hello, are in phase, and have a handler registered for their kind.
  pub run-handles_only_admitted :
      (ms : List (ℕ × Message)) (s : Session)
      → s.handled ≡ []
      → All (IsChecked s) (run ms s).handled
  run-handles_only_admitted ms s none_yet =
      let start : All (IsAdmitted s) s.handled = subst (All (IsAdmitted s)) (sym none_yet) tt in
      let same : SameGate s s = record {
        ids = refl;
        keys = refl;
        phases = refl;
        kinds = refl;
        seats = λ k key. refl;
      } in
      All-map (λ e fit. IsAdmitted-IsChecked s e fit) (run ms s).handled
        (run-IsAdmitted ms s s same start)

  on_message-applies :
      (now : ℕ) (s : Session) (m : Message) (e : Envelope)
      → decode m.payload ≡ some e
      → (first_seen m.id s.dedup).1 ≡ true
      → admits s e ≡ true
      → on_message decode now s m ≡ apply now (noted s m) e
  unfolding on_message
  on_message-applies now s m e d f fit = ground (arith, d, f, fit)

  -- If two messages with ids that are new carry one envelope that a session admits and has a handler
  -- for, then the handler runs twice, whatever sequence numbers the session has applied.
  pub on_message-handles_again :
      (now later : ℕ) (s : Session) (m1 m2 : Message) (e : Envelope)
      → decode m1.payload ≡ some e
      → decode m2.payload ≡ some e
      → (first_seen m1.id s.dedup).1 ≡ true
      → (first_seen m2.id (first_seen m1.id s.dedup).0).1 ≡ true
      → admits s e ≡ true
      → s.handles e.kind ≡ true
      → (run ((now, m1) ∷ (later, m2) ∷ []) s).handled ≡ s.handled ++ (e ∷ e ∷ [])
  on_message-handles_again now later s m1 m2 e d1 d2 f1 f2 fit registered =
      let s1 = apply now (noted s m1) e in
      let one : on_message decode now s m1 ≡ s1 = on_message-applies now s m1 e d1 f1 fit in
      let start : SameGate s (noted s m1) = record {
        ids = refl;
        keys = refl;
        phases = refl;
        kinds = refl;
        seats = λ k key. refl;
      } in
      let g = apply-SameGate now s (noted s m1) e start in
      let again : admits s1 e ≡ true = SameGate-admits s s1 e g ∙ fit in
      let two : on_message decode later s1 m2 ≡ apply later (noted s1 m2) e =
        on_message-applies later s1 m2 e d2
          (subst (λ d. (first_seen m2.id d).1 ≡ true) (sym (apply-dedup now (noted s m1) e)) f2)
          again in
      ap (λ t. (on_message decode later t m2).handled) one
      ∙ ap (λ (t : Session). t.handled) two
      ∙ apply-handled later (noted s1 m2) e (ap (λ f. f e.kind) g.kinds ∙ registered)
      ∙ ap (λ es. es ++ e ∷ []) (apply-handled now (noted s m1) e registered)
      ∙ append_assoc s.handled (e ∷ []) (e ∷ [])
