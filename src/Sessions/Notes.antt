-- ===== src/Sessions/Notes.antt =====
-- `in` on strings, and the notes that a checkout writes to a session: the parts of
-- `process_checkout` and `_complete_session` of backend/app/modules/checkout/service.py on
-- `transaction.notes`.
use vision_park_ai.Prelude.{
  Bool, true, false, Option, none, some, List, [], ◌∷◌, ◌++◌, ◌==◌, if◌then◌else◌,
}
use vision_park_ai.Prelude.Text.{Text, codes, is_empty, Unicode, strip}
use vision_park_ai.Ticket.{or_blank}
use vision_park_ai.Sessions.{key_marker, image_marker}

unfoldable pub starts_with : Text → Text → Bool
starts_with [] t = true
starts_with (c ∷ m) [] = false
starts_with (c ∷ m) (d ∷ t) = if c == d then starts_with m t else false

-- `m in t`
unfoldable pub contains : Text → Text → Bool
unfolding starts_with
contains m [] = is_empty m
contains m (d ∷ t) = if starts_with m (d ∷ t) then true else contains m t

-- `"\n".join(parts)`
unfoldable pub join_lines : List Text → Text
join_lines [] = []
join_lines (p ∷ []) = p
join_lines (p ∷ q ∷ ps) = p ++ (codes "\n" ++ join_lines (q ∷ ps))

-- `[existing] if existing else []`
abbrev pub kept_part : Text → List Text
kept_part existing = if is_empty existing then [] else existing ∷ []

-- A marker that is not yet there.
abbrev pub new_part : Text → Text → List Text
new_part existing marker = if contains marker existing then [] else marker ∷ []

abbrev pub key_part : Text → Option Text → List Text
key_part existing none = []
key_part existing (some key) = if is_empty key then [] else new_part existing (key_marker key)

abbrev pub image_part : Text → Option Text → List Text
image_part existing none = []
image_part existing (some url) = if is_empty url then [] else new_part existing (image_marker url)

abbrev pub joined : List Text → Option Text
joined [] = none
joined (p ∷ ps) = some (join_lines (p ∷ ps))

-- The notes of a session that is completed.
unfoldable pub completed_notes : Option Text → Option Text → Option Text → Option Text
unfolding join_lines
completed_notes notes key exit_image_url =
    let existing = or_blank notes in
    joined (kept_part existing ++ (key_part existing key ++ image_part existing exit_image_url))

-- The notes of a session that waits for its payment.
unfoldable pub pending_notes : Unicode → Option Text → Text → Option Text
pending_notes u notes key =
    let existing = or_blank notes in
    if contains (key_marker key) existing
    then notes
    else if is_empty existing
    then some (key_marker key)
    else some (strip u (existing ++ (codes "\n" ++ key_marker key)))
