-- ===== src/Voter.antt =====
-- `MultiFrameVoter` of backend/app/alpr/multi_frame_voter.py. A confidence is a float in [0, 1],
-- given here by its rank among the floats from 0, so that the order is that of the numbers; one
-- that is not in the interval is `none`. Timestamps do not vote and are left out.
pub mod Window
pub mod Winner
pub mod Votes
mod Tests
use vision_park_ai.Prelude.{
  ℕ, suc, ◌+◌, ◌-◌, ◌*◌, ◌/◌, Bool, true, false, ◌&&◌, Option, none, some, List, [], ◌∷◌, ◌++◌,
  ◌==◌, if◌then◌else◌, length, drop, select, ltb, leb, max, map,
}
use vision_park_ai.Prelude.Text.{Text, text_eq, is_empty, Unicode, strip}
use vision_park_ai.Errors.{Result, ok, raise, value_error, raise_if, ◌>>◌}
use vision_park_ai.Clock.{ceil_div}

pub record VotingEntry : Type 0 where
  pub plate : Text
  pub confidence : ℕ

pub record VoteResult : Type 0 where
  pub plate : Text
  pub confidence : ℕ
  pub frequency : ℕ
  pub total_frames : ℕ

-- `_buffer` holds the oldest entry first.
pub record MultiFrameVoter : Type 0 where
  pub window_size : ℕ
  pub buffer : List VotingEntry

abbrev pub min_window_size : ℕ
min_window_size = 2

abbrev pub max_window_size : ℕ
max_window_size = 30

-- `MultiFrameVoter(window_size)`
unfoldable pub new_voter : ℕ → Result MultiFrameVoter
new_voter window_size =
    if leb min_window_size window_size && leb window_size max_window_size
    then ok (record { window_size = window_size; buffer = [] })
    else raise value_error

-- `append` of a deque with a greatest length: what is too much falls out on the left.
unfoldable pub append_bounded : ℕ → List VotingEntry → VotingEntry → List VotingEntry
append_bounded maxlen buffer e =
    let longer = buffer ++ e ∷ [] in drop (length longer - maxlen) longer

-- `push` with a text or None; a confidence outside the interval, or not finite, is a ValueError.
unfoldable pub push : Unicode → MultiFrameVoter → Option Text → Option ℕ → Result MultiFrameVoter
push u v none confidence = ok v
push u v (some plate) confidence = if is_empty (strip u plate) then ok v else elim confidence [
  | none ↦ raise value_error
  | some c ↦ ok (record v {
    buffer =
        append_bounded v.window_size v.buffer (record { plate = strip u plate; confidence = c });
  })
]

abbrev pub has_plate : Text → VotingEntry → Bool
has_plate p e = text_eq e.plate p

-- How many entries are of a plate.
abbrev pub frequency_of : Text → List VotingEntry → ℕ
frequency_of p es = length (select (has_plate p) es)

-- `max(entry.confidence for entry in …)`
abbrev pub best : List VotingEntry → ℕ
best [] = 0
best (e ∷ es) = max e.confidence (best es)

abbrev pub best_of : Text → List VotingEntry → ℕ
best_of p es = best (select (has_plate p) es)

-- The keys of a `Counter`: each plate once, in the order of its first entry.
abbrev pub is_listed : Text → List Text → Bool
is_listed p [] = false
is_listed p (q ∷ qs) = if text_eq q p then true else is_listed p qs

abbrev pub keys : List VotingEntry → List Text → List Text
keys [] seen = []
keys (e ∷ es) seen =
    if is_listed e.plate seen then keys es seen else e.plate ∷ keys es (e.plate ∷ seen)

abbrev pub plates : List VotingEntry → List Text
plates es = keys es []

-- `max(counts.values())`
abbrev pub highest : (Text → ℕ) → List Text → ℕ
highest f [] = 0
highest f (p ∷ ps) = max (f p) (highest f ps)

-- `max(candidates, key=…)`: the first with the greatest key, `p` being the best so far.
abbrev pub first_max : (Text → ℕ) → Text → List Text → Text
first_max f p [] = p
first_max f p (q ∷ qs) = if ltb (f p) (f q) then first_max f q qs else first_max f p qs

abbrev pub candidates : List VotingEntry → List Text
candidates es =
    let top = highest (λ p. frequency_of p es) (plates es) in
    select (λ p. frequency_of p es == top) (plates es)

abbrev pub vote_result : List VotingEntry → Text → VoteResult
vote_result es p = record {
  plate = p;
  confidence = best_of p es;
  frequency = frequency_of p es;
  total_frames = length es;
}

-- The winner among candidates; there is one in every window that has entries.
abbrev pub winner : List VotingEntry → List Text → Option VoteResult
winner es [] = none
winner es (p ∷ ps) = some (vote_result es (first_max (λ q. best_of q es) p ps))

unfoldable pub vote : MultiFrameVoter → Option VoteResult
vote v = winner v.buffer (candidates v.buffer)

abbrev pub reset : MultiFrameVoter → MultiFrameVoter
reset v = record v { buffer = [] }

abbrev pub stable_window : ℕ → List VotingEntry → Bool
stable_window window_size [] = false
stable_window window_size (e ∷ es) =
    leb (ceil_div window_size 2) (highest (λ p. frequency_of p (e ∷ es)) (plates (e ∷ es)))

unfoldable pub is_stable : MultiFrameVoter → Bool
is_stable v = stable_window v.window_size v.buffer
