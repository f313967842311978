-- ===== src/Sessions/Marked.antt =====
-- A marker in the notes of a session stays readable there.
use vision_park_ai.Prelude.{
  ℕ, ◌≡◌, ◌≢◌, refl, sym, ap, true, false, Option, some, inl, inr, List, [], ◌∷◌, ◌++◌, ◌==◌, arith,
  Bool-cases,
}
use mathlib.Core.List.{append_assoc, append-nil}
use vision_park_ai.Prelude.Text.{Text, codes, is_empty}
use vision_park_ai.Ticket.{or_blank}
use vision_park_ai.Sessions.{key_marker}
use vision_park_ai.Sessions.Notes.{
  starts_with, contains, join_lines, kept_part, image_part, joined, completed_notes,
}

-- The text has the marker somewhere.
abbrev pub Holds : Text → Text → Type 0
Holds m t = (before : Text) × (after : Text) × (t ≡ before ++ (m ++ after))

starts_with_sound : (m t : Text) → starts_with m t ≡ true → (after : Text) × (t ≡ m ++ after)
unfolding starts_with
starts_with_sound [] t h = (t, refl)
starts_with_sound (c ∷ m) [] h = cc
starts_with_sound (c ∷ m) (d ∷ t) h = elim (Bool-cases (c == d)) [
  | inr a ↦ cc (rw a at h)
  | inl a ↦ let (after, e) = starts_with_sound m t (rw a at h) in (after, ground (arith, a, e))
]

-- `in` on strings finds what is there.
pub contains-Holds : (m t : Text) → contains m t ≡ true → Holds m t
unfolding contains
contains-Holds [] t h = ([], t, refl)
contains-Holds (c ∷ m) [] h = cc
contains-Holds (c ∷ m) (d ∷ t) h = elim (Bool-cases (starts_with (c ∷ m) (d ∷ t))) [
  | inl a ↦ let (after, e) = starts_with_sound (c ∷ m) (d ∷ t) a in ([], after, e)
  | inr a ↦
      let (before, after, e) = contains-Holds (c ∷ m) t (rw a at h) in
      (d ∷ before, after, ap (λ (l : Text). d ∷ l) e)
]

Holds-append : (m t s : Text) → Holds m t → Holds m (t ++ s)
Holds-append m t s (before, after, e) = (before, after ++ s, rw e (simp append_assoc))

Holds-after : (m t s : Text) → Holds m s → Holds m (t ++ s)
Holds-after m t s (before, after, e) = (t ++ before, after, rw e (simp append_assoc))

Holds-join_first : (m p : Text) (ps : List Text) → Holds m p → Holds m (join_lines (p ∷ ps))
unfolding join_lines
Holds-join_first m p [] h = h
Holds-join_first m p (q ∷ ps) h = Holds-append m p (codes "\n" ++ join_lines (q ∷ ps)) h

Holds-join_next :
    (m p q : Text) (ps : List Text)
    → Holds m (join_lines (q ∷ ps))
    → Holds m (join_lines (p ∷ q ∷ ps))
unfolding join_lines
Holds-join_next m p q ps h =
    Holds-after m p (codes "\n" ++ join_lines (q ∷ ps))
      (Holds-after m (codes "\n") (join_lines (q ∷ ps)) h)

Holds-self : (m : Text) → Holds m m
Holds-self m = ([], [], sym (append-nil m))

-- What is joined from a text that may be empty, a new marker and more holds the marker.
kept-Holds :
    (m existing : Text) (more : List Text)
    → (t : Text) × (joined (kept_part existing ++ (m ∷ more)) ≡ some t) × Holds m t
kept-Holds m [] more = (join_lines (m ∷ more), refl, Holds-join_first m m more (Holds-self m))
kept-Holds m (c ∷ t) more = (
  join_lines ((c ∷ t) ∷ m ∷ more),
  refl,
  Holds-join_next m (c ∷ t) m more (Holds-join_first m m more (Holds-self m)),
)

append-ne-nil : (c : ℕ) (before after : Text) → [] ≢ before ++ (c ∷ after)
append-ne-nil c [] after e = cc
append-ne-nil c (d ∷ before) after e = cc

-- So does what is joined from a text that holds it already.
old-Holds :
    (m existing : Text) (more : List Text)
    → is_empty m ≡ false
    → Holds m existing
    → (t : Text) × (joined (kept_part existing ++ more) ≡ some t) × Holds m t
old-Holds [] existing more n h = cc
old-Holds (c ∷ m) [] more n (before, after, e) = absurd (append-ne-nil c before (m ++ after) e)
old-Holds (c ∷ m) (d ∷ t) more n h =
    (join_lines ((d ∷ t) ∷ more), refl, Holds-join_first (c ∷ m) (d ∷ t) more h)

-- The notes of a session that is completed under a key hold the marker of the key.
pub completed_notes-Holds :
    (notes : Option Text) (key : Text) (image : Option Text)
    → is_empty key ≡ false
    → (t : Text) × (completed_notes notes (some key) image ≡ some t) × Holds (key_marker key) t
unfolding completed_notes
completed_notes-Holds notes key image h =
    let existing = or_blank notes in
    elim (Bool-cases (contains (key_marker key) existing)) [
      | inl a ↦
          rw (h, a)
            (old-Holds (key_marker key) existing (image_part existing image) refl
              (contains-Holds (key_marker key) existing a))
      | inr a ↦ rw (h, a) (kept-Holds (key_marker key) existing (image_part existing image))
    ]
