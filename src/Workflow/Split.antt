-- ===== src/Workflow/Split.antt =====
-- splitFrontMatter of internal/workflow/workflow.go on files that are written line by line.
use my_symphony.Workflow.{
  scan_tokens, max_token_size, split_lines, trim_left_blanks, is_fence, drop_cr, raw_lines,
  scan_lines, trim_bom, write_lines, collect, split_front_matter,
}
use my_symphony.Go.Utf8.{text_eq, Text, ascii}
use my_symphony.Base.{
  ◌<◌, ltb, length, arith, ◌∙◌, ap, All-append, ◌≡◌, ◌∷◌, ◌==◌, ◌++◌, true, refl, false, [], List,
  All,
}
use my_symphony.Go.Strings.{has_prefix}

-- A line as the scanner gives it: without "\n", without "\r" at its end, and shorter than 10 MB.
pub record IsLine (l : Text) : Type 0 where
  pub one : All (λ b. (b == b'\n') ≡ false) l
  pub no_cr : drop_cr l ≡ l
  pub fits_buffer : length l < 10_485_760

raw_lines-line :
    (l rest : Text)
    → All (λ b. (b == b'\n') ≡ false) l
    → raw_lines (l ++ (b'\n' ∷ rest)) ≡ l ∷ raw_lines rest
unfolding raw_lines
raw_lines-line [] rest h = refl
raw_lines-line (b ∷ l) rest h = rw (h.0, raw_lines-line l rest h.1) refl

scan_lines-write_lines : (ls : List Text) → All IsLine ls → scan_lines (write_lines ls) ≡ ls
unfolding scan_lines raw_lines scan_tokens
scan_lines-write_lines [] h = refl
scan_lines-write_lines (l ∷ ls) h =
    let room : ltb (length l) max_token_size ≡ true = ground (arith, h.0.fits_buffer) in
    rw (scan_lines, raw_lines-line l (write_lines ls) h.0.one, scan_tokens, room, h.0.no_cr)
      (ap (λ t. l ∷ t) (scan_lines-write_lines ls h.1))

fence_lem : is_fence (ascii "---") ≡ true
unfolding is_fence trim_left_blanks text_eq
fence_lem = refl

fence-IsLine : IsLine (ascii "---")
unfolding drop_cr
fence-IsLine = record { one = (refl, (refl, (refl, tt))); no_cr = refl; fits_buffer = omega arith }

collect-fence :
    (front body : List Text)
    → All (λ l. is_fence l ≡ false) front
    → collect (front ++ (ascii "---" ∷ body)) ≡ (write_lines front, write_lines body)
unfolding collect
collect-fence [] body h = rw fence_lem refl
collect-fence (l ∷ front) body h = rw (h.0, collect-fence front body h.1) refl

trim_bom-fence :
    (rest : Text) → trim_bom (ascii "---" ++ (b'\n' ∷ rest)) ≡ ascii "---" ++ (b'\n' ∷ rest)
unfolding trim_bom has_prefix
trim_bom-fence rest = refl

split_lines-fence :
    (text : Text) (front body : List Text)
    → All (λ l. is_fence l ≡ false) front
    → split_lines text (ascii "---" ∷ (front ++ (ascii "---" ∷ body)))
      ≡ (write_lines front, write_lines body, true)
unfolding split_lines
split_lines-fence text front body h = rw (fence_lem, collect-fence front body h) refl

-- A file of a fence, lines that are no fence, a fence and lines has these lines as its front matter
-- and its body, where each line is shorter than the 10 MB buffer of the scanner and does not end
-- with "\r".
pub split_front_matter-write_lines :
    (front body : List Text)
    → All IsLine front
    → All IsLine body
    → All (λ l. is_fence l ≡ false) front
    → split_front_matter (write_lines (ascii "---" ∷ (front ++ (ascii "---" ∷ body))))
      ≡ (write_lines front, write_lines body, true)
unfolding split_front_matter
split_front_matter-write_lines front body hf hb no_fence =
    let lines = ascii "---" ∷ (front ++ (ascii "---" ∷ body)) in
    let valid : All IsLine lines =
      (fence-IsLine, All-append IsLine front (ascii "---" ∷ body) hf (fence-IsLine, hb)) in
    let text = write_lines lines in
    let kept : trim_bom text ≡ text =
      trim_bom-fence (write_lines (front ++ (ascii "---" ∷ body))) in
    ap (λ c. split_lines c (scan_lines c)) kept
    ∙ ap (split_lines text) (scan_lines-write_lines lines valid)
    ∙ split_lines-fence text front body no_fence
