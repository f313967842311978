-- ===== src/Plate/Box.antt =====
-- `clamp_bbox` and `validate_image_input` of backend/app/alpr/utils.py.
use vision_park_ai.Prelude.{
  ℕ, zero, suc, ◌+◌, ◌≤◌, ◌≡◌, ◌⊎◌, ◌↔◌, Bool, false, not, ◌||◌, Option, none, some, inl, inr, List,
  arith, ◌==◌, if◌then◌else◌, length, Bool-cases,
}
use vision_park_ai.Prelude.Int.{ℤ, pos, negsuc, pos_part, neg_part, ◌≤ℤ◌, leb_ℤ, ltb_ℤ, eq_of_parts}
use vision_park_ai.Prelude.Text.{Text, codes, text_eq}
use vision_park_ai.Errors.{Result, ok, invalid_image, value_error, raise_if, ◌>>◌}

pub record Box : Type 0 where
  pub x1 : ℤ
  pub y1 : ℤ
  pub x2 : ℤ
  pub y2 : ℤ

unfoldable pub min_ℤ : ℤ → ℤ → ℤ
min_ℤ a b = if leb_ℤ a b then a else b

unfoldable pub max_ℤ : ℤ → ℤ → ℤ
max_ℤ a b = if leb_ℤ a b then b else a

-- `n - 1`
unfoldable pub pred_ℤ : ℤ → ℤ
pred_ℤ (pos zero) = negsuc 0
pred_ℤ (pos (suc n)) = pos n
pred_ℤ (negsuc n) = negsuc (suc n)

-- `if hi < lo: hi = lo`
unfoldable pub not_below : ℤ → ℤ → ℤ
not_below lo hi = if ltb_ℤ hi lo then lo else hi

-- The two coordinates of one axis: sorted, clamped, and never reversed.
unfoldable pub clamp_axis : ℤ → ℤ → ℤ → ℤ × ℤ
clamp_axis a b size =
    let lo = max_ℤ (pos 0) (min_ℤ (min_ℤ a b) (pred_ℤ size)) in
    let hi = max_ℤ (pos 0) (min_ℤ (max_ℤ a b) size) in (lo, not_below lo hi)

unfoldable pub clamp_bbox : Box → ℤ → ℤ → Box
clamp_bbox b width height =
    if leb_ℤ width (pos 0) || leb_ℤ height (pos 0)
    then record { x1 = pos 0; y1 = pos 0; x2 = pos 0; y2 = pos 0 }
    else record {
      x1 = (clamp_axis b.x1 b.x2 width).0;
      y1 = (clamp_axis b.y1 b.y2 height).0;
      x2 = (clamp_axis b.x1 b.x2 width).1;
      y2 = (clamp_axis b.y1 b.y2 height).1;
    }

-- A span that a slice of `size` pixels can take and that begins inside.
abbrev pub Inside : ℤ → ℤ → ℤ → Type 0
Inside lo hi size = (pos 0 ≤ℤ lo) × (lo ≤ℤ hi) × (hi ≤ℤ size) × (lo ≤ℤ pred_ℤ size)

min_ℤ_lem : (a b : ℤ) → (min_ℤ a b ≤ℤ a) × (min_ℤ a b ≤ℤ b) × ((a ≤ℤ min_ℤ a b) ⊎ (b ≤ℤ min_ℤ a b))
unfolding min_ℤ
min_ℤ_lem a b = ground arith

max_ℤ_lem : (a b : ℤ) → (a ≤ℤ max_ℤ a b) × (b ≤ℤ max_ℤ a b) × ((max_ℤ a b ≤ℤ a) ⊎ (max_ℤ a b ≤ℤ b))
unfolding max_ℤ
max_ℤ_lem a b = ground arith

not_below_lem :
    (a b : ℤ)
    → (a ≤ℤ not_below a b) × (b ≤ℤ not_below a b) × ((not_below a b ≤ℤ a) ⊎ (not_below a b ≤ℤ b))
unfolding not_below
not_below_lem a b = ground arith

pred_ℤ_parts : (a : ℤ) → pos_part (pred_ℤ a) + neg_part a + 1 ≡ neg_part (pred_ℤ a) + pos_part a
unfolding pred_ℤ
pred_ℤ_parts (pos zero) = omega arith
pred_ℤ_parts (pos (suc n)) = omega arith
pred_ℤ_parts (negsuc n) = omega arith

ruleset clamp_laws = (arith, min_ℤ_lem, max_ℤ_lem, not_below_lem, pred_ℤ_parts, eq_of_parts)

clamp_axis-Inside :
    (a b size : ℤ) → pos 1 ≤ℤ size → Inside (clamp_axis a b size).0 (clamp_axis a b size).1 size
unfolding clamp_axis
clamp_axis-Inside a b size h = omega clamp_laws

clamp_axis-eq_self :
    (lo hi size : ℤ)
    → Inside lo hi size
    → ((clamp_axis lo hi size).0 ≡ lo) × ((clamp_axis lo hi size).1 ≡ hi)
unfolding clamp_axis
clamp_axis-eq_self lo hi size h = (
  eq_of_parts (clamp_axis lo hi size).0 lo (omega clamp_laws),
  eq_of_parts (clamp_axis lo hi size).1 hi (omega clamp_laws),
)

abbrev pub BoxInside : Box → ℤ → ℤ → Type 0
BoxInside b width height = Inside b.x1 b.x2 width × Inside b.y1 b.y2 height

-- In an image that has pixels, the clamped box lies inside, in order, and begins on a pixel.
pub clamp_bbox-BoxInside :
    (b : Box) (width height : ℤ)
    → pos 1 ≤ℤ width
    → pos 1 ≤ℤ height
    → BoxInside (clamp_bbox b width height) width height
unfolding clamp_bbox
clamp_bbox-BoxInside b width height hw hh =
    let ew : leb_ℤ width (pos 0) ≡ false = ground arith in
    let eh : leb_ℤ height (pos 0) ≡ false = ground arith in
    rw (ew, eh) (clamp_axis-Inside b.x1 b.x2 width hw, clamp_axis-Inside b.y1 b.y2 height hh)

-- A box that lies inside is left alone, so clamping twice is clamping once.
pub clamp_bbox-eq_self :
    (b : Box) (width height : ℤ) → BoxInside b width height → clamp_bbox b width height ≡ b
unfolding clamp_bbox
clamp_bbox-eq_self b width height h =
    let hw : pos 1 ≤ℤ width = omega (arith, pred_ℤ_parts width) in
    let hh : pos 1 ≤ℤ height = omega (arith, pred_ℤ_parts height) in
    let ew : leb_ℤ width (pos 0) ≡ false = ground arith in
    let eh : leb_ℤ height (pos 0) ≡ false = ground arith in
    let x = clamp_axis-eq_self b.x1 b.x2 width h.0 in
    let y = clamp_axis-eq_self b.y1 b.y2 height h.1 in rw (ew, eh, x.0, x.1, y.0, y.1)

pub clamp_bbox-clamp_bbox :
    (b : Box) (width height : ℤ)
    → clamp_bbox (clamp_bbox b width height) width height ≡ clamp_bbox b width height
clamp_bbox-clamp_bbox b width height =
    elim (Bool-cases (leb_ℤ width (pos 0) || leb_ℤ height (pos 0))) [
      | inl e ↦ unfold clamp_bbox in rw e
      | inr e ↦
          clamp_bbox-eq_self (clamp_bbox b width height) width height
            (clamp_bbox-BoxInside b width height (ground arith) (ground arith))
    ]

-- `SUPPORTED_IMAGE_CONTENT_TYPES`
abbrev pub is_supported : Text → Bool
is_supported t = text_eq t (codes "image/jpeg") || text_eq t (codes "image/png")

abbrev pub unsupported : Option Text → Bool
unsupported none = false
unsupported (some t) = not (is_supported t)

unfoldable pub validate_image_input : List ℕ → Option Text → ℤ → Result (Unit {0})
validate_image_input image_bytes content_type max_bytes = do
  raise_if (unsupported content_type) invalid_image
  raise_if (length image_bytes == 0) invalid_image
  raise_if (leb_ℤ max_bytes (pos 0)) value_error
  raise_if (ltb_ℤ max_bytes (pos (length image_bytes))) invalid_image
  ok tt

-- An image is accepted exactly when its declared type, if any, is supported, it is not empty and
-- it is no longer than the limit.
pub validate_image_input_ok :
    (image_bytes : List ℕ) (content_type : Option Text) (max_bytes : ℤ)
    → (validate_image_input image_bytes content_type max_bytes ≡ ok tt) ↔ (
        (unsupported content_type ≡ false)
        × (1 ≤ length image_bytes)
        × (pos (length image_bytes) ≤ℤ max_bytes))
unfolding validate_image_input
validate_image_input_ok image_bytes content_type max_bytes = (λ h. ground arith, λ h. ground arith)
