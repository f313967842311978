-- ===== src/Voter/Window.antt =====
-- The window of a voter holds the newest entries.
use vision_park_ai.Prelude.{
  ℕ, ◌-◌, ◌≡◌, refl, sym, ap, ◌∙◌, true, false, Option, none, some, inl, inr, List, [], ◌∷◌, ◌++◌,
  arith, min, length, length-append, length-drop, take-drop, take, drop, if◌then◌else◌, leb, ◌&&◌,
  Bool-cases,
}
use mathlib.Core.List.{append-nil, append_assoc}
use mathlib.Core.Path.{subst}
use vision_park_ai.Prelude.Text.{Text, Unicode, strip, is_empty}
use vision_park_ai.Errors.{Result, ok, ok_injective, ◌>>=◌}
use vision_park_ai.Voter.{
  VotingEntry, MultiFrameVoter, append_bounded, new_voter, push, min_window_size, max_window_size,
}

-- What has gone before a buffer among the entries seen, which the buffer ends: the newest of them,
-- as many as fit.
pub record Newest (n : ℕ) (seen buffer : List VotingEntry) : Type 0 where
  pub gone : List VotingEntry
  pub parts : gone ++ buffer ≡ seen
  pub size : length buffer ≡ min n (length seen)

-- The entries that frames give: those of the texts that are there and not blank, stripped.
abbrev pub entries : Unicode → List (Option Text × ℕ) → List VotingEntry
entries u [] = []
entries u ((none, c) ∷ frames) = entries u frames
entries u ((some plate, c) ∷ frames) =
    if is_empty (strip u plate)
    then entries u frames
    else record { plate = strip u plate; confidence = c } ∷ entries u frames

-- Frames pushed one after the other.
unfoldable pub push_all :
    Unicode → MultiFrameVoter → List (Option Text × ℕ) → Result MultiFrameVoter
push_all u v [] = ok v
push_all u v ((plate, c) ∷ frames) = push u v plate (some c) >>= λ w. push_all u w frames

-- One more entry.
append_bounded-Newest :
    (n : ℕ) (seen buffer : List VotingEntry) (e : VotingEntry)
    → Newest n seen buffer
    → Newest n (seen ++ e ∷ []) (append_bounded n buffer e)
unfolding append_bounded
append_bounded-Newest n seen buffer e h =
    let longer = buffer ++ e ∷ [] in
    let k = length longer - n in
    record {
      gone = h.gone ++ take k longer;
      parts =
          append_assoc h.gone (take k longer) (drop k longer)
          ∙ ap (λ (xs : List VotingEntry). h.gone ++ xs) (take-drop k longer)
          ∙ sym (append_assoc h.gone buffer (e ∷ []))
          ∙ ap (λ (xs : List VotingEntry). xs ++ e ∷ []) h.parts;
      size = ground (
        arith,
        length-append buffer (e ∷ []),
        length-append seen (e ∷ []),
        length-drop k longer,
        h.size,
      );
    }

-- A frame that gives an entry is pushed with it, and any other changes nothing.
push_entry :
    (u : Unicode) (v : MultiFrameVoter) (plate : Text) (c : ℕ)
    → is_empty (strip u plate) ≡ false
    → push u v (some plate) (some c)
      ≡ ok (record v {
        buffer =
            append_bounded v.window_size v.buffer
              (record { plate = strip u plate; confidence = c });
      })
unfolding push
push_entry u v plate c h = rw h refl

push_blank :
    (u : Unicode) (v : MultiFrameVoter) (plate : Text) (c : ℕ)
    → is_empty (strip u plate) ≡ true
    → push u v (some plate) (some c) ≡ ok v
unfolding push
push_blank u v plate c h = rw h refl

push_missing : (u : Unicode) (v : MultiFrameVoter) (c : ℕ) → push u v none (some c) ≡ ok v
unfolding push
push_missing u v c = refl

-- What pushes that follow on a window return and leave.
abbrev Pushed : Unicode → MultiFrameVoter → List VotingEntry → List (Option Text × ℕ) → Type 0
Pushed u v seen frames =
    (w : MultiFrameVoter) × (push_all u v frames ≡ ok w)
    × (w.window_size ≡ v.window_size)
    × Newest v.window_size (seen ++ entries u frames) w.buffer

push_all-Newest :
    (u : Unicode) (frames : List (Option Text × ℕ)) (v : MultiFrameVoter) (seen : List VotingEntry)
    → Newest v.window_size seen v.buffer
    → Pushed u v seen frames
unfolding push_all
push_all-Newest u [] v seen h = (
  v,
  refl,
  refl,
  subst (λ (l : List VotingEntry). Newest v.window_size l v.buffer) (sym (append-nil seen)) h,
)
push_all-Newest u ((none, c) ∷ frames) v seen h =
    let (w, e, same, newest) = push_all-Newest u frames v seen h in
    (w, rw (push_missing u v c) e, same, newest)
push_all-Newest u ((some plate, c) ∷ frames) v seen h =
    elim (Bool-cases (is_empty (strip u plate))) [
      | inl b ↦
          let (w, e, same, newest) = push_all-Newest u frames v seen h in
          (w, rw (push_blank u v plate c b) e, same, rw b newest)
      | inr b ↦
          let entry : VotingEntry = record { plate = strip u plate; confidence = c } in
          let next = record v { buffer = append_bounded v.window_size v.buffer entry } in
          let (w, e, same, newest) =
            push_all-Newest u frames next (seen ++ entry ∷ [])
              (append_bounded-Newest v.window_size seen v.buffer entry h) in
          (
            w,
            rw (push_entry u v plate c b) e,
            same,
            rw b (
                subst (λ (l : List VotingEntry). Newest v.window_size l w.buffer)
                  (append_assoc seen (entry ∷ []) (entries u frames)) newest),
          )
    ]

new_voter-empty :
    (n : ℕ) (v : MultiFrameVoter) → new_voter n ≡ ok v → (v.window_size ≡ n) × (v.buffer ≡ [])
unfolding new_voter
new_voter-empty n v h = elim (Bool-cases (leb min_window_size n && leb n max_window_size)) [
  | inr a ↦ cc (rw a at h)
  | inl a ↦
      let same : ◌≡◌ {A = MultiFrameVoter} (record { window_size = n; buffer = [] }) v =
        ok_injective (rw a at h) in
      (
        sym (ap (λ (x : MultiFrameVoter). x.window_size) same),
        sym (ap (λ (x : MultiFrameVoter). x.buffer) same),
      )
]

-- Whatever frames are pushed on a new voter, with confidences in the interval, no push raises, and
-- the buffer holds the newest of the entries that the frames give, in their order, as many as fit in
-- the window: an entry has the stripped text and the confidence of its frame, and a frame whose text
-- is missing or blank gives none.
pub push_all_lem :
    (u : Unicode) (n : ℕ) (v : MultiFrameVoter) (frames : List (Option Text × ℕ))
    → new_voter n ≡ ok v
    → (w : MultiFrameVoter) × (push_all u v frames ≡ ok w)
      × (w.window_size ≡ n)
      × Newest n (entries u frames) w.buffer
push_all_lem u n v frames h =
    let (size, empty) = new_voter-empty n v h in
    let start : Newest n [] v.buffer =
      rw empty (record { gone = []; parts = refl; size = omega arith }) in
    let (w, e, same, newest) =
      push_all-Newest u frames v [] (subst (λ (k : ℕ). Newest k [] v.buffer) (sym size) start) in
    (w, e, same ∙ size, subst (λ (k : ℕ). Newest k (entries u frames) w.buffer) size newest)
