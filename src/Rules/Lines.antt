-- ===== src/Rules/Lines.antt =====
-- The lines of a rules file of src/rule_manager.cpp, and the numbers in them.
use multi_threaded_dpi_engin.Base.{
  AllOf, ℕ, ◌+◌, ◌-◌, ◌*◌, ◌^◌, ◌%◌, ◌<◌, ◌≡◌, refl, sym, ap, ◌∙◌, true, false, ◌&&◌, ◌||◌, ◌==◌,
  ltb, leb, List, [], ◌∷◌, ◌++◌, some, Bytes, decimal, decimal-ind, append_assoc, append-nil, arith,
}
use multi_threaded_dpi_engin.Base.Eq.{nat_eq, text_eq, contains, contains-append}
use multi_threaded_dpi_engin.Types.App.{app_eq}
use multi_threaded_dpi_engin.Rules.Files.{
  line_break, put_lines, get_lines, is_digit, skip_spaces, read_digits, read_number, cast_positive,
  signed_port, port_of,
}

-- A line of a file.
abbrev pub OneLine : Bytes → Type 0
OneLine l = contains line_break l ≡ false

-- A line that stands for a rule: it is not empty and does not begin as a header does.
abbrev pub RuleLine : Bytes → Type 0
RuleLine [] = ⊥
RuleLine (c ∷ cs) = ((c == b'[') ≡ false) × OneLine (c ∷ cs)

get_lines-break :
    (line rest : Bytes) → get_lines line (line_break ∷ rest) ≡ line ∷ get_lines [] rest
unfolding get_lines
get_lines-break [] rest = refl
get_lines-break (d ∷ line) rest = refl

get_lines-other :
    (line : Bytes) (c : ℕ) (rest : Bytes)
    → (c == line_break) ≡ false
    → get_lines line (c ∷ rest) ≡ get_lines (line ++ c ∷ []) rest
unfolding get_lines
get_lines-other [] c rest h = rw (get_lines, h) refl
get_lines-other (d ∷ line) c rest h = rw (get_lines, h) refl

get_lines-line :
    (line l rest : Bytes)
    → OneLine l
    → get_lines line (l ++ (line_break ∷ rest)) ≡ (line ++ l) ∷ get_lines [] rest
unfolding contains
get_lines-line line [] rest h = rw append-nil (get_lines-break line rest)
get_lines-line line (c ∷ l) rest h =
    get_lines-other line c (l ++ (line_break ∷ rest)) (ground arith)
    ∙ get_lines-line (line ++ c ∷ []) l rest (ground arith)
    ∙ ap (λ x. x ∷ get_lines [] rest) (append_assoc line (c ∷ []) l)

-- The lines of a file are those that were put into it.
pub get_lines-put_lines : (ls : List Bytes) → AllOf OneLine ls → get_lines [] (put_lines ls) ≡ ls
unfolding put_lines
get_lines-put_lines [] h = unfold get_lines in refl
get_lines-put_lines (l ∷ ls) h =
    get_lines-line [] l (put_lines ls) h.0 ∙ ap (λ x. l ∷ x) (get_lines-put_lines ls h.1)

pub RuleLine-OneLine : (l : Bytes) → RuleLine l → OneLine l
RuleLine-OneLine [] h = absurd h
RuleLine-OneLine (c ∷ cs) h = h.1

pub RuleLine-append : (l t : Bytes) → RuleLine l → OneLine t → RuleLine (l ++ t)
RuleLine-append [] t h k = absurd h
RuleLine-append (c ∷ cs) t h k = (h.0, contains-append line_break (c ∷ cs) t ∙ rw (h.1, k) refl)

-- A number is such a line, and reads as itself.
pub decimal-RuleLine : (n : ℕ) → RuleLine (decimal n)
decimal-RuleLine =
    decimal-ind (λ n ds. RuleLine ds) (λ d h. unfold contains in (ground arith, ground arith))
      (λ m d ds h ih. RuleLine-append ds ((b'0' + d) ∷ []) ih (unfold contains in ground arith))

read_digits-digit :
    (m d : ℕ) (rest : Bytes)
    → d < 10
    → read_digits m ((b'0' + d) ∷ rest) ≡ read_digits (m * 10 + d) rest
unfolding read_digits
read_digits-digit m d rest h =
    let value : b'0' + d - b'0' ≡ d = omega arith in
    let digit : is_digit (b'0' + d) ≡ true = unfold is_digit in ground arith in
    rw (digit, value) refl

read_digits-decimal :
    (n : ℕ) (rest : Bytes) → read_digits 0 (decimal n ++ rest) ≡ read_digits n rest
read_digits-decimal =
    decimal-ind (λ n ds. (rest : Bytes) → read_digits 0 (ds ++ rest) ≡ read_digits n rest)
      (λ d h rest. read_digits-digit 0 d rest h ∙ ap (λ n. read_digits n rest) (omega arith))
      (λ m d ds h ih rest. rw append_assoc (ih ((b'0' + d) ∷ rest) ∙ read_digits-digit m d rest h))

-- The first character is a digit.
abbrev Starts : Bytes → Type 0
Starts [] = ⊥
Starts (c ∷ cs) = is_digit c ≡ true

Starts-append : (l t : Bytes) → Starts l → Starts (l ++ t)
Starts-append [] t h = absurd h
Starts-append (c ∷ cs) t h = h

decimal-Starts : (n : ℕ) → Starts (decimal n)
decimal-Starts =
    decimal-ind (λ n ds. Starts ds) (λ d h. unfold is_digit in ground arith)
      (λ m d ds h ih. Starts-append ds ((b'0' + d) ∷ []) ih)

port_of-Starts : (l : Bytes) → Starts l → port_of l ≡ cast_positive (some (read_digits 0 l))
unfolding port_of skip_spaces signed_port read_number is_digit
port_of-Starts [] h = absurd h
port_of-Starts (c ∷ cs) h =
    let range : (leb b'0' c ≡ true) × (leb c b'9' ≡ true) = ground arith in
    let no_space : (c == b' ' || (leb 9 c && leb c 13)) ≡ false = ground arith in
    let no_minus : (c == b'-') ≡ false = ground arith in
    let no_plus : (c == b'+') ≡ false = ground arith in rw (no_space, no_minus, no_plus, h) refl

pub port_of-decimal : (p : ℕ) → p < 2 ^ 16 → port_of (decimal p) ≡ some p
unfolding cast_positive read_digits
port_of-decimal p h =
    let value : read_digits 0 (decimal p) ≡ p =
      ap (read_digits 0) (sym (append-nil (decimal p))) ∙ read_digits-decimal p [] in
    let small : ltb p (2 ^ 31) ≡ true = ground arith in
    let whole : p % 2 ^ 16 ≡ p = omega arith in
    port_of-Starts (decimal p) (decimal-Starts p) ∙ rw (value, small) (ap some whole)
