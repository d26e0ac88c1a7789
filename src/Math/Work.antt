-- ===== src/Math/Work.antt =====
-- `MathQuestion.Work` (backend/internal/domain/math.go): the fields of a worked example and the
-- values that are expected in them. A `Line` is one call of the closure `add`.
use Prim.Native.String.{count}
use family_quest.Base.{
  ℕ, zero, suc, ◌+◌, Bool, true, false, not, ◌&&◌, ◌||◌, List, [], ◌∷◌, ◌++◌, String, ℤ, pos, lt_ℤ,
  pos_part, ◌+ℤ◌, ◌-ℤ◌, ◌*ℤ◌, ◌/ℤ◌, ◌%ℤ◌, wrap64, str_eq, codes, format_int, ◌&◌, Option, none,
  some, if◌then◌else◌,
}
use family_quest.Math.Settings.{MathSettings, MathQuestion, result_of, max_int}

pub record MathField : Type 0 where
  pub key : String
  pub label : String
  pub width : ℤ
  pub shift : ℤ

pub record Line : Type 0 where
  pub field : MathField
  pub expected : ℤ

abbrev pub add_line : String → String → ℤ → ℤ → ℤ → Line
add_line key label v width shift = record {
  field = record { key = key; label = label; width = width; shift = shift };
  expected = v;
}

-- The closure `digits`: the length of the decimal text.
unfoldable pub digits : ℤ → ℤ
digits v = pos (count (format_int v))

abbrev index : ℕ → String
index i = format_int (pos i)

-- One column of an addition or a subtraction: the carry or the borrow into the next.
unfoldable pub next_carry : Bool → ℤ → ℤ → ℤ → ℤ
next_carry adding a b carry =
    if adding
    then (a %ℤ pos 10 +ℤ b %ℤ pos 10 +ℤ carry) /ℤ pos 10
    else if lt_ℤ (a %ℤ pos 10 -ℤ carry) (b %ℤ pos 10)
    then pos 1
    else pos 0

unfoldable pub carry_line : Bool → ℕ → ℤ → Line
carry_line adding i next =
    add_line ("carry_" & index i)
      ((if adding then "Перенос" else "Заём") & " из разряда " & index (i + 1) & " (0, если нет)")
      next (pos 1) (pos 0)

-- The loop over the columns, `left` of them still to do.
unfoldable pub carry_lines : Bool → ℕ → ℕ → ℤ → ℤ → ℤ → List Line
unfolding next_carry carry_line
carry_lines adding zero i a b carry = []
carry_lines adding (suc left) i a b carry =
    let next = next_carry adding a b carry in
    carry_line adding i next ∷ carry_lines adding left (i + 1) (a /ℤ pos 10) (b /ℤ pos 10) next

-- The inner loop of a multiplication: one digit of the factor against each of the other's.
unfoldable pub mulcarry_lines : ℤ → ℕ → ℕ → ℕ → ℤ → ℤ → List Line
mulcarry_lines digit zero i j a carry = []
mulcarry_lines digit (suc left) i j a carry =
    let next = (a %ℤ pos 10 *ℤ digit +ℤ carry) /ℤ pos 10 in
    add_line ("mulcarry_" & index i & "_" & index j)
      ("Строка " & index (i + 1) & ": перенос из разряда " & index (j + 1)) next (pos 1) (pos 0)
    ∷ mulcarry_lines digit left i (j + 1) (a /ℤ pos 10) next

unfoldable pub partial_line : ℤ → ℤ → ℕ → Line
unfolding digits
partial_line left digit i =
    add_line ("partial_" & index i) ("Умножь " & format_int left & " на цифру " & format_int digit)
      (wrap64 (left *ℤ digit)) (digits left +ℤ pos 1) (pos i)

-- The outer loop, `for i := 0; b > 0; i++`, on fuel: the factor loses a digit in each round.
unfoldable pub product_lines : ℕ → ℤ → ℕ → ℤ → List Line
unfolding mulcarry_lines partial_line
product_lines zero left i b = []
product_lines (suc fuel) left i b =
    let more =
      mulcarry_lines (b %ℤ pos 10) (count (format_int left)) i 0 left (pos 0)
      ++ partial_line left (b %ℤ pos 10) i ∷ product_lines fuel left (i + 1) (b /ℤ pos 10) in
    if lt_ℤ (pos 0) b then more else []

unfoldable pub bring_lines : Bool → ℕ → ℤ → List Line
bring_lines true step d =
    add_line ("bring_" & index step) ("Шаг " & index (step + 1) & ": снесённая цифра") d (pos 1)
      (pos 0)
    ∷ []
bring_lines false step d = []

unfoldable pub product_line : ℤ → ℕ → ℤ → Line
product_line n step v =
    add_line ("product_" & index step) ("Шаг " & index (step + 1) & ": произведение под делимым") v
      n (pos 0)

unfoldable pub remainder_line : ℤ → ℕ → ℤ → Line
remainder_line n step v =
    add_line ("remainder_" & index step) ("Шаг " & index (step + 1) & ": остаток после вычитания") v
      n (pos 0)

-- The loop over the decimal text of the dividend. `d` is the code of the character less that of 0.
unfoldable pub division_lines : ℤ → ℤ → Bool → List ℤ → ℤ → Bool → ℕ → List Line
unfolding bring_lines product_line remainder_line
division_lines n right full [] part started step = []
division_lines n right full (d ∷ ds) part started step =
    let part' = wrap64 (part *ℤ pos 10 +ℤ d) in
    let product = wrap64 (part' /ℤ right *ℤ right) in
    let remainder = wrap64 (part' -ℤ product) in
    let skip = division_lines n right full ds part' false step in
    let divide =
      bring_lines (started && full) step d
      ++ product_line n step product
        ∷ remainder_line n step remainder
        ∷ division_lines n right full ds remainder true (step + 1) in
    if not started && lt_ℤ part' right then skip else divide

unfoldable pub digit_values : List ℕ → List ℤ
digit_values [] = []
digit_values (c ∷ cs) = (pos c -ℤ pos b'0') ∷ digit_values cs

unfoldable pub columnar_lines : MathQuestion → MathSettings → ℤ → List Line
unfolding carry_lines product_lines division_lines digit_values
columnar_lines q s n =
    if str_eq s.operation "+" || str_eq s.operation "-"
    then carry_lines (str_eq s.operation "+") (pos_part n) 0 q.left q.right (pos 0)
    else if str_eq s.operation "*"
    then product_lines (suc (pos_part q.right)) q.left 0 q.right
    else if str_eq s.operation ":" && not (str_eq s.division_mode "result")
    then division_lines n q.right (str_eq s.division_mode "full")
        (digit_values (codes (format_int q.left))) (pos 0) false 0
    else []

unfoldable pub answer_line : MathQuestion → MathSettings → ℤ → Line
answer_line q s n =
    add_line "answer" "Ответ" (result_of q s.operation)
      (max_int n (digits (result_of q s.operation))) (pos 0)

unfoldable pub work_lines : MathQuestion → MathSettings → List Line
work_lines q s =
    let n = max_int (digits q.left) (digits q.right) in
    (if str_eq s.level "columnar" then columnar_lines q s n else []) ++ answer_line q s n ∷ []

-- A Go map from keys to integers.
abbrev pub Values : Type 0
Values = List (String × ℤ)

unfoldable pub lookup : String → Values → Option ℤ
lookup k [] = none
lookup k ((j, v) ∷ m) = if str_eq j k then some v else lookup k m

unfoldable pub insert : String → ℤ → Values → Values
insert k v [] = (k, v) ∷ []
insert k v ((j, w) ∷ m) = if str_eq j k then (k, v) ∷ m else (j, w) ∷ insert k v m

unfoldable pub expected_from : Values → List Line → Values
unfolding insert
expected_from m [] = m
expected_from m (l ∷ ls) = expected_from (insert l.field.key l.expected m) ls

unfoldable pub fields_from : List Line → List MathField
fields_from [] = []
fields_from (l ∷ ls) = l.field ∷ fields_from ls

-- `MathQuestion.Work`.
unfoldable pub work : MathQuestion → MathSettings → List MathField × Values
unfolding work_lines fields_from expected_from
work q s = (fields_from (work_lines q s), expected_from [] (work_lines q s))
