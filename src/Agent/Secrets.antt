-- ===== src/Agent/Secrets.antt =====
-- deal.go: what a wallet gives away of its secrets, and that it keeps the ones it has committed to.
use brc100_poker.Base.{
  ℕ, ◌≡◌, refl, sym, ap, ◌∙◌, subst, false, Bool-cases, Option-cases, ◌⊎◌, inl, inr, leb_ℤ, ltb_ℤ,
  some, List, [], ◌∷◌, arith, if◌then◌else◌, ℤ, pos, Text, text_eq_refl, get_elem?,
}
use brc100_poker.Table.{is_empty}
use brc100_poker.MentalPoker.{Curve, Scalar, scalar_bytes}
use brc100_poker.Hand.{scalars_at, full_deck}
use brc100_poker.Proof.{Commitment, Refusal, commit_shuffle, commit_remask, committed, refused}
use brc100_poker.Agent.Deal.{
  DealSecrets, given, secrets_of, handle_deal_reveal, handle_deal_commit, begin,
}

module _ (c : Curve) where
  -- A wallet that holds secrets for a hand gives its scalar for any position of the deck, one of its own
  -- hole cards too, to whoever may call the handler.
  pub handle_deal_reveal-gives_any :
      (store : List (DealSecrets c)) (hand : Text) (s : DealSecrets c) (p : ℕ) (scalar : Scalar)
      → secrets_of c hand store ≡ some s
      → get_elem? s.per_position p ≡ some scalar
      → handle_deal_reveal c store hand (pos p ∷ []) ≡ given (scalar_bytes scalar ∷ [])
  unfolding handle_deal_reveal scalars_at
  handle_deal_reveal-gives_any store hand s p scalar known here = ground (arith, known, here)

Commitment-cases :
    (m : Commitment) → ((t : Text) × (m ≡ committed t)) ⊎ ((e : Refusal) × (m ≡ refused e))
Commitment-cases (committed t) = inl (t, refl)
Commitment-cases (refused e) = inr (e, refl)

module _ (c : Curve) (sha : Text → Text) where
  begin-keeps :
      (store : List (DealSecrets c)) (hand : Text) (size seats : ℤ) (g : Scalar) (perm : List ℤ)
      (scalars : List Scalar) (t : Text × Text)
      → (begin c sha store hand size seats g perm scalars).1 ≡ given t
      → (s : DealSecrets c) × (secrets_of c hand
            (begin c sha store hand size seats g perm scalars).0
          ≡ some s)
        × ((s.shuffle_commit, s.remask_commit) ≡ t)
  unfolding begin
  begin-keeps store hand size seats g perm scalars t e =
      elim (Option-cases (secrets_of c hand store)) [
        | inr (s, known) ↦ (s, ground (arith, known), ground (arith, e, known))
        | inl new ↦ elim (Commitment-cases (commit_shuffle c sha g perm)) [
          | inr (why, bad) ↦ absurd (ground (arith, e, new, bad))
          | inl (sc, one) ↦ elim (Commitment-cases (commit_remask c sha g scalars)) [
            | inr (why, bad) ↦ absurd (ground (arith, e, new, one, bad))
            | inl (rc, two) ↦ (
              record {
                hand_id = hand;
                deck_size = size;
                seats = seats;
                global = g;
                perm = perm;
                per_position = scalars;
                shuffle_commit = sc;
                remask_commit = rc;
                deck = [];
              },
              ground (arith, new, one, two, text_eq_refl hand),
              ground (arith, e, new, one, two),
            )
          ]
        ]
      ]

  commit_again :
      (store : List (DealSecrets c)) (hand : Text) (size seats : ℤ) (g : Scalar) (perm : List ℤ)
      (scalars : List Scalar) (s : DealSecrets c)
      → is_empty hand ≡ false
      → ltb_ℤ seats (pos 2) ≡ false
      → secrets_of c hand store ≡ some s
      → handle_deal_commit c sha store hand size seats g perm scalars
        ≡ (store, given (s.shuffle_commit, s.remask_commit))
  unfolding handle_deal_commit begin
  commit_again store hand size seats g perm scalars s named enough known =
      ground (arith, named, enough, known)

  -- Once a wallet has published commitments for a hand, a second request to commit, whatever size and
  -- secrets it would come with, changes nothing and gives the same commitments.
  pub handle_deal_commit-commits_once :
      (store : List (DealSecrets c)) (hand : Text) (size size' seats seats' : ℤ) (g g' : Scalar)
      (perm perm' : List ℤ) (scalars scalars' : List Scalar) (t : Text × Text)
      → (handle_deal_commit c sha store hand size seats g perm scalars).1 ≡ given t
      → ltb_ℤ seats' (pos 2) ≡ false
      → handle_deal_commit c sha
          (handle_deal_commit c sha store hand size seats g perm scalars).0
          hand
          size'
          seats'
          g'
          perm'
          scalars'
        ≡ ((handle_deal_commit c sha store hand size seats g perm scalars).0, given t)
  unfolding handle_deal_commit
  handle_deal_commit-commits_once store hand size size' seats seats' g g' perm perm' scalars
        scalars' t e enough =
      elim (Bool-cases (is_empty hand)) [
        | inl nameless ↦ absurd (ground (arith, e, nameless))
        | inr named ↦ elim (Bool-cases (ltb_ℤ seats (pos 2))) [
          | inl few ↦ absurd (ground (arith, e, named, few))
          | inr many ↦
              let size0 = if leb_ℤ size (pos 0) then pos full_deck else size in
              let first = begin c sha store hand size0 seats g perm scalars in
              let same : handle_deal_commit c sha store hand size seats g perm scalars ≡ first =
                ground (arith, named, many) in
              let given_first : first.1 ≡ given t = ap (λ r. r.1) (sym same) ∙ e in
              let (s, known, texts) =
                begin-keeps store hand size0 seats g perm scalars t given_first in
              subst
                (λ r.
                  handle_deal_commit c sha r.0 hand size' seats' g' perm' scalars' ≡ (r.0, given t))
                (sym same)
                (commit_again first.0 hand size' seats' g' perm' scalars' s named enough known
                  ∙ ap (λ u. (first.0, given u)) texts)
        ]
      ]
