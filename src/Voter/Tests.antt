-- ===== src/Voter/Tests.antt =====
-- A voter that has seen three frames.
use vision_park_ai.Prelude.{
  ℕ, ◌≡◌, ◌≤◌, ◌*◌, ◌↔◌, refl, true, false, Option, none, some, List, [], ◌∷◌,
}
use vision_park_ai.Prelude.Text.{Text, ascii, codes}
use vision_park_ai.Errors.{ok}
use vision_park_ai.Voter.{
  VotingEntry, VoteResult, MultiFrameVoter, append_bounded, new_voter, push, vote, is_stable,
}
use vision_park_ai.Voter.Window.{Newest, entries, push_all, push_all_lem}
use vision_park_ai.Voter.Votes.{IsWinner, vote-IsWinner, is_stable-vote}

abbrev frame : Text → ℕ → VotingEntry
frame plate confidence = record { plate = plate; confidence = confidence }

abbrev frames : List VotingEntry
frames =
    frame (codes "51A12346") 900 ∷ frame (codes "51A12345") 700 ∷ frame (codes "51A12345") 800 ∷ []

abbrev voter : MultiFrameVoter
voter = record { window_size = 3; buffer = frames }

frames_vote :
    vote voter
    ≡ some (record { plate = codes "51A12345"; confidence = 800; frequency = 2; total_frames = 3 })
unfolding vote
frames_vote = refl

abbrev shown : List (Option Text × ℕ)
shown =
    (some (codes "51A12345"), 700)
    ∷ (some (codes "  "), 900)
    ∷ (some (codes " 51A12346 "), 800)
    ∷ (none, 100)
    ∷ (some (codes "51A12345"), 600)
    ∷ []

-- Three entries in a window of two.
pushed :
    push_all ascii (record { window_size = 2; buffer = [] }) shown
    ≡ ok (record {
      window_size = 2;
      buffer = frame (codes "51A12346") 800 ∷ frame (codes "51A12345") 600 ∷ [];
    })
unfolding push_all push append_bounded
pushed = refl

new_pair : new_voter 2 ≡ ok (record { window_size = 2; buffer = [] })
unfolding new_voter
new_pair = refl

push_all_lem_example :
    (w : MultiFrameVoter) × (push_all ascii (record { window_size = 2; buffer = [] }) shown ≡ ok w)
    × (w.window_size ≡ 2)
    × Newest 2 (entries ascii shown) w.buffer
push_all_lem_example = push_all_lem ascii 2 (record { window_size = 2; buffer = [] }) shown new_pair

vote-IsWinner_example : (r : VoteResult) × (vote voter ≡ some r) × IsWinner frames r
vote-IsWinner_example =
    vote-IsWinner voter (frame (codes "51A12346") 900)
      (frame (codes "51A12345") 700 ∷ frame (codes "51A12345") 800 ∷ []) refl

is_stable-vote_example :
    ((r : VoteResult) → vote voter ≡ some r → (is_stable voter ≡ true) ↔ (3 ≤ 2 * r.frequency))
    × (frames ≡ [] → (is_stable voter ≡ false) × (vote voter ≡ none))
is_stable-vote_example = is_stable-vote voter
