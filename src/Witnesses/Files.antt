-- ===== src/Witnesses/Files.antt =====
-- The theorem on workflow files at a concrete file.
use my_symphony.Workflow.{split_front_matter, write_lines, is_fence, drop_cr, trim_left_blanks}
use my_symphony.Workflow.Split.{IsLine, split_front_matter-write_lines}
use my_symphony.Go.Utf8.{Text, ascii, text_eq}
use my_symphony.Base.{arith, ◌++◌, ◌≡◌, ◌∷◌, true, refl, false, []}

option_line : Text
option_line = ascii "a: 1"

option_line-IsLine : IsLine option_line
unfolding option_line drop_cr
option_line-IsLine = record {
  one = (refl, (refl, (refl, (refl, tt))));
  no_cr = refl;
  fits_buffer = omega arith;
}

option_line-plain : is_fence option_line ≡ false
unfolding option_line is_fence trim_left_blanks text_eq
option_line-plain = refl

split_front_matter-write_lines_example :
    split_front_matter
      (write_lines (ascii "---" ∷ ((option_line ∷ []) ++ (ascii "---" ∷ option_line ∷ []))))
    ≡ (write_lines (option_line ∷ []), write_lines (option_line ∷ []), true)
split_front_matter-write_lines_example =
    split_front_matter-write_lines (option_line ∷ []) (option_line ∷ []) (option_line-IsLine, tt)
      (option_line-IsLine, tt) (option_line-plain, tt)
