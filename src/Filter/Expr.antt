-- ===== src/Filter/Expr.antt =====
-- scheduler/filter/expr.go: expressions `key==value` and `key!=value`, and how they match.
use classicswarm.Prelude.{
  ℕ, Bool, false, not, ◌&&◌, ◌||◌, ◌==◌, leb, List, [], ◌∷◌, ◌++◌, Option, none, some, all,
  if◌then◌else◌,
}
use classicswarm.Text.{Str, codes, contains, cut, trim_left}

-- EQ and NOTEQ
pub data Operator : Type 0 where
  eq noteq : Operator

pub record Expr : Type 0 where
  pub key : Str
  pub operator : Operator
  pub value : Str
  pub is_soft : Bool

pub data ParseError : Type 0 where
  invalid_key invalid_value : Str → ParseError
  operator_expected : ParseError

pub data Parsed : Type 0 where
  parsed : List Expr → Parsed
  parse_error : ParseError → Parsed

unfoldable pub symbol : Operator → Str
symbol eq = codes "=="
symbol noteq = codes "!="

unfoldable pub is_letter : ℕ → Bool
is_letter c = (leb b'a' c && leb c b'z') || (leb b'A' c && leb c b'Z')

unfoldable pub is_digit : ℕ → Bool
is_digit c = leb b'0' c && leb c b'9'

-- [a-z0-9\-_.], ignoring case
unfoldable pub is_key_byte : ℕ → Bool
unfolding is_letter is_digit
is_key_byte c = is_letter c || (is_digit c || (c == b'-' || (c == b'_' || c == b'.')))

-- ^(?i)[a-z_][a-z0-9\-_.]+$
unfoldable pub valid_key : Str → Bool
unfolding is_key_byte all
valid_key [] = false
valid_key (c ∷ []) = false
valid_key (c ∷ d ∷ s) = (is_letter c || c == b'_') && all is_key_byte (d ∷ s)

-- \s: tab, newline, form feed, carriage return, space
unfoldable pub is_space : ℕ → Bool
is_space c = c == 9 || (c == 10 || (c == 12 || (c == 13 || c == 32)))

unfoldable pub one_of : Str → ℕ → Bool
one_of [] c = false
one_of (b ∷ bs) c = c == b || one_of bs c

-- [a-z0-9:\-_\s\.\*/\(\)\?\+\[\]\\\^\$\|], ignoring case
unfoldable pub is_value_byte : ℕ → Bool
unfolding is_letter is_digit is_space one_of
is_value_byte c =
    is_letter c || (is_digit c || (is_space c || one_of (codes ":-_.*/()?+[]\\^$|") c))

-- The last part of the pattern: one byte of the class or more.
unfoldable pub value_bytes : Str → Bool
unfolding is_value_byte all
value_bytes [] = false
value_bytes (c ∷ s) = all is_value_byte (c ∷ s)

-- (~)?[…]+$
unfoldable pub soft_value : Str → Bool
unfolding value_bytes
soft_value [] = false
soft_value (c ∷ s) = value_bytes (c ∷ s) || (c == b'~' && value_bytes s)

-- ^(?i)[=!\/]?(~)?[…]+$
unfoldable pub valid_value : Str → Bool
unfolding soft_value one_of
valid_value [] = false
valid_value (c ∷ s) = soft_value (c ∷ s) || (one_of (codes "=!/") c && soft_value s)

-- isSoft; the value is not empty where it is called.
unfoldable pub is_soft : Str → Bool
is_soft [] = false
is_soft (c ∷ s) = c == b'~'

-- The body of the loop over OPERATORS for an operator that the text contains. `parts` are the
-- parts round the operator.
unfoldable pub parse_parts : Operator → Str → Option (Str × Str) → Parsed
unfolding valid_key valid_value is_soft trim_left
parse_parts op e none =
    if valid_key e
    then parsed (record { key = e; operator = op; value = []; is_soft = false } ∷ [])
    else parse_error (invalid_key e)
parse_parts op e (some (key, value)) =
    if not (valid_key key)
    then parse_error (invalid_key key)
    else if not (valid_value value)
    then parse_error (invalid_value value)
    else parsed (
        record { key = key; operator = op; value = trim_left b'~' value; is_soft = is_soft value }
        ∷ [])

-- One entry: the first of the two operators that it contains.
unfoldable pub parse_expr : Str → Parsed
unfolding parse_parts contains cut symbol
parse_expr e =
    if contains e (symbol eq)
    then parse_parts eq e (cut e (symbol eq))
    else if contains e (symbol noteq)
    then parse_parts noteq e (cut e (symbol noteq))
    else parse_error operator_expected

unfoldable pub and_parsed : Parsed → Parsed → Parsed
and_parsed (parse_error e) rest = parse_error e
and_parsed (parsed xs) (parse_error e) = parse_error e
and_parsed (parsed xs) (parsed ys) = parsed (xs ++ ys)

unfoldable pub parse_exprs : List Str → Parsed
unfolding parse_expr and_parsed
parse_exprs [] = parsed []
parse_exprs (e ∷ env) = and_parsed (parse_expr e) (parse_exprs env)

-- s[:len(s)-1] and the last byte
unfoldable pub split_last : ℕ → Str → Str × ℕ
split_last c [] = ([], c)
split_last c (d ∷ s) = let (front, last) = split_last d s in (c ∷ front, last)

-- strings.Replace(s, "*", ".*", -1)
unfoldable pub glob : Str → Str
glob [] = []
glob (c ∷ s) = if c == b'*' then b'.' ∷ b'*' ∷ glob s else c ∷ glob s

-- The regular expression of a value. `none` is a panic: the value is empty, or is the text "/",
-- whose slice e.value[1:0] is out of range.
unfoldable pub pattern_of : Str → Option Str
unfolding split_last glob
pattern_of [] = none
pattern_of (c ∷ []) = if c == b'/' then none else some (codes "^" ++ (glob (c ∷ []) ++ codes "$"))
pattern_of (c ∷ d ∷ s) =
    let (front, last) = split_last d s in
    if c == b'/' && last == b'/'
    then some front
    else some (codes "^" ++ (glob (c ∷ d ∷ s) ++ codes "$"))

unfoldable pub any_match : (Str → Bool) → List Str → Bool
any_match m [] = false
any_match m (what ∷ whats) = m what || any_match m whats

unfoldable pub apply_operator : Operator → Bool → Bool
apply_operator eq found = found
apply_operator noteq found = not found

-- Match; `none` is the panic of `pattern_of`. An expression that does not compile matches nothing.
unfoldable pub match_expr : (Str → Option (Str → Bool)) → Expr → List Str → Option Bool
unfolding pattern_of any_match apply_operator
match_expr compile e whats = elim (pattern_of e.value) [
  | none ↦ none
  | some pattern ↦ elim (compile pattern) [
    | none ↦ some (apply_operator e.operator false)
    | some m ↦ some (apply_operator e.operator (any_match m whats))
  ]
]
