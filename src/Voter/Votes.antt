-- ===== src/Voter/Votes.antt =====
-- What a vote says of its window.
use native.Mathlib.Decide.{dec_le}
use vision_park_ai.Prelude.{
  ℕ, ◌*◌, ◌≤◌, ◌≡◌, ◌⊎◌, ◌↔◌, refl, sym, ◌∙◌, true, false, none, some, List, [], ◌∷◌, arith, leb,
  ◌==◌, length, inl, inr,
}
use vision_park_ai.Prelude.Text.{Text}
use vision_park_ai.Clock.{ceil_div, ceil_div_least, ceil_div_covers}
use vision_park_ai.Voter.{
  VotingEntry, VoteResult, MultiFrameVoter, frequency_of, best_of, is_listed, plates, first_max,
  candidates, vote_result, vote, is_stable, keys,
}
use vision_park_ai.Voter.Winner.{
  top, highest_reached, first_max_above, listed-select, select-listed, first_max-listed,
  keys_listed, best_of_nothing, not_seen, top_above, candidates_some,
}

-- The result is of an actual plate, no plate is more frequent, and none as frequent has an entry of
-- more confidence.
abbrev pub IsWinner : List VotingEntry → VoteResult → Type 0
IsWinner es r =
    (r.frequency ≡ frequency_of r.plate es)
    × (r.confidence ≡ best_of r.plate es)
    × (r.total_frames ≡ length es)
    × ((q : Text) → frequency_of q es ≤ r.frequency)
    × ((q : Text) → frequency_of q es ≡ r.frequency → best_of q es ≤ r.confidence)

module _ (e : VotingEntry) (es : List VotingEntry) where
  is_candidate :
      (q : Text) → is_listed q (candidates (e ∷ es)) ≡ true → frequency_of q (e ∷ es) ≡ top (e ∷ es)
  is_candidate q h =
      let t = select-listed (λ p. frequency_of p (e ∷ es) == top (e ∷ es)) q (plates (e ∷ es)) h in
      ground (arith, t)

  candidate_of :
      (q : Text)
      → 1 ≤ frequency_of q (e ∷ es)
      → frequency_of q (e ∷ es) ≡ top (e ∷ es)
      → is_listed q (candidates (e ∷ es)) ≡ true
  candidate_of q h k = elim (keys_listed q (e ∷ es) [] h) [
    | inl l ↦
        listed-select (λ p. frequency_of p (e ∷ es) == top (e ∷ es)) q (plates (e ∷ es))
          (ground (arith, k)) l
    | inr l ↦ absurd (not_seen q l)
  ]

  vote_result-IsWinner :
      (p : Text) (ps : List Text)
      → candidates (e ∷ es) ≡ p ∷ ps
      → IsWinner (e ∷ es) (vote_result (e ∷ es) (first_max (λ q. best_of q (e ∷ es)) p ps))
  vote_result-IsWinner p ps h =
      let w = first_max (λ q. best_of q (e ∷ es)) p ps in
      let listed : is_listed w (candidates (e ∷ es)) ≡ true =
        rw h (first_max-listed (λ q. best_of q (e ∷ es)) p ps) in
      let most = is_candidate w listed in
      (
        refl,
        refl,
        refl,
        λ q. rw most (top_above q (e ∷ es)),
        λ q same. elim (dec_le 1 (frequency_of q (e ∷ es))) [
          | yes some_of ↦
              first_max_above (λ x. best_of x (e ∷ es)) q p ps
                (rw h at (candidate_of q some_of (same ∙ most)))
          | no none_of ↦ rw (best_of_nothing q (e ∷ es) (omega (arith, none_of))) (omega arith)
        ],
      )

-- The vote of a window that has entries is of the plate that is most frequent there, and among the
-- most frequent of one with the greatest confidence; it gives that plate's frequency and greatest
-- confidence, and the length of the window.
pub vote-IsWinner :
    (v : MultiFrameVoter) (e : VotingEntry) (es : List VotingEntry)
    → v.buffer ≡ e ∷ es
    → (r : VoteResult) × (vote v ≡ some r) × IsWinner v.buffer r
unfolding vote
vote-IsWinner v e es h =
    let (p, ps, c) = candidates_some e es in
    (
      vote_result (e ∷ es) (first_max (λ q. best_of q (e ∷ es)) p ps),
      rw (h, c),
      rw h (vote_result-IsWinner e es p ps c),
    )

winner-top :
    (e : VotingEntry) (es : List VotingEntry) (r : VoteResult)
    → IsWinner (e ∷ es) r
    → r.frequency ≡ top (e ∷ es)
winner-top e es r (own, _, _, most, _) =
    let (q, _, reached) =
      highest_reached (λ p. frequency_of p (e ∷ es)) e.plate (keys es (e.plate ∷ [])) in
    let above : top (e ∷ es) ≤ r.frequency = rw reached at (most q) in
    let below : r.frequency ≤ top (e ∷ es) = rw own (top_above r.plate (e ∷ es)) in omega arith

stable_of : (w n : ℕ) → (leb (ceil_div w 2) n ≡ true) ↔ (w ≤ 2 * n)
stable_of w n = (
  λ h. ground (arith, ceil_div_covers w 2 (omega arith)),
  λ h. ground (arith, ceil_div_least w 2 n (omega arith)),
)

empty_vote : (v : MultiFrameVoter) → v.buffer ≡ [] → vote v ≡ none
unfolding vote
empty_vote v h = rw h

List-cases :
    (es : List VotingEntry)
    → (es ≡ []) ⊎ ((e : VotingEntry) × (rest : List VotingEntry) × (es ≡ e ∷ rest))
List-cases [] = inl refl
List-cases (e ∷ es) = inr (e, es, refl)

-- A voter that gives a vote is stable exactly when twice the vote's frequency reaches the size of
-- the window; with no entries it is not stable and gives no vote.
pub is_stable-vote :
    (v : MultiFrameVoter)
    → ((r : VoteResult)
        → vote v ≡ some r
        → (is_stable v ≡ true) ↔ (v.window_size ≤ 2 * r.frequency))
      × (v.buffer ≡ [] → (is_stable v ≡ false) × (vote v ≡ none))
unfolding is_stable
is_stable-vote v = (
  λ r h. elim (List-cases v.buffer) [
    | inl empty ↦ cc (empty_vote v empty, h)
    | inr (e, es, some_there) ↦
        let (w, voted, wins) = vote-IsWinner v e es some_there in
        let same : w ≡ r = cc (voted, h) in
        let most : r.frequency ≡ top (e ∷ es) = winner-top e es r (rw (same, some_there) at wins) in
        rw (some_there, sym most) (stable_of v.window_size r.frequency)
  ],
  λ empty. (rw empty, empty_vote v empty),
)
