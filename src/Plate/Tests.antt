-- ===== src/Plate/Tests.antt =====
-- Runs of the plate rules, and their theorems at concrete plates.
use vision_park_ai.Prelude.{◌≡◌, refl, true, arith}
use vision_park_ai.Prelude.Int.{pos, negsuc}
use vision_park_ai.Prelude.Text.{codes, ascii}
use vision_park_ai.Plate.{
  fix_digit, fix_letter, fix_serial, lookup, serial_offset, two_letter_series, correct_chars,
  correct_vietnamese_plate, normalize_plate,
}
use vision_park_ai.Plate.Shape.{HasShape, normalize_plate-HasShape}
use vision_park_ai.Plate.Box.{Box, BoxInside, clamp_bbox, clamp_bbox-BoxInside}

-- Letters that look like digits, and a digit that stands for the series letter.
normalize_run : normalize_plate ascii true (codes "s1-8o123.4b") ≡ codes "51BO12348"
unfolding normalize_plate correct_vietnamese_plate correct_chars fix_digit fix_letter fix_serial
    lookup serial_offset two_letter_series
normalize_run = refl

normalize_plate-HasShape_example : HasShape (normalize_plate ascii true (codes "s1-8o123.4b"))
unfolding normalize_plate correct_vietnamese_plate correct_chars fix_digit fix_letter fix_serial
    lookup serial_offset two_letter_series
normalize_plate-HasShape_example =
    normalize_plate-HasShape ascii (codes "s1-8o123.4b") (omega arith) (omega arith)

abbrev wide : Box
wide = record { x1 = pos 700; y1 = negsuc 4; x2 = pos 20; y2 = pos 90 }

clamp_bbox-BoxInside_example : BoxInside (clamp_bbox wide (pos 640) (pos 480)) (pos 640) (pos 480)
clamp_bbox-BoxInside_example =
    clamp_bbox-BoxInside wide (pos 640) (pos 480) (omega arith) (omega arith)
