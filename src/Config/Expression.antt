-- ===== src/Config/Expression.antt =====
-- The expansion of environment expressions in src/atframe/atapp_conf.cpp: expand_expression_impl with
-- find_matching_close_brace and find_top_level_operator, over lists of bytes. A position that the
-- source returns is here the text before it and the text behind it. `env` is getenv: the value of a
-- name, and the empty text where there is none; names hold no NUL.
pub mod Fuel
pub mod Template
pub mod Braces
pub mod Meaning
pub mod Searches
pub mod Tests
use libatapp.Prelude.{
  ℕ, zero, suc, ◌+◌, ◌-◌, Bool, true, false, not, ◌&&◌, ◌||◌, Option, none, some, List, [], ◌∷◌,
  ◌++◌, leb, ltb, ◌==◌, length, if◌then◌else◌,
}

-- static bool is_variable_name_char(c)
abbrev pub is_variable_name_char : ℕ → Bool
is_variable_name_char c =
    (leb b'A' c && leb c b'Z')
    || ((leb b'a' c && leb c b'z') || ((leb b'0' c && leb c b'9') || c == b'_'))

-- the text in front of a closing brace, and the text behind it
abbrev pub Split : Type 0
Split = Option (List ℕ × List ℕ)

abbrev pub behind : List ℕ → Split → Split
behind p none = none
behind p (some (a, b)) = some (p ++ a, b)

-- static size_t find_matching_close_brace(input), from some depth on
pub find_matching_close_brace : ℕ → List ℕ → Split
find_matching_close_brace depth [] = none
find_matching_close_brace depth (c ∷ []) = if c == b'}' && depth == 1 then some ([], []) else none
find_matching_close_brace depth (c ∷ d ∷ ds) =
    let escaped = behind (c ∷ d ∷ []) (find_matching_close_brace depth ds) in
    let deeper = behind (c ∷ d ∷ []) (find_matching_close_brace (depth + 1) ds) in
    let higher = behind (c ∷ []) (find_matching_close_brace (depth - 1) (d ∷ ds)) in
    let onward = behind (c ∷ []) (find_matching_close_brace depth (d ∷ ds)) in
    if c == b'\\'
    then escaped
    else if c == b'$' && d == b'{'
    then deeper
    else if c == b'}'
    then if depth == 1 then some ([], d ∷ ds) else higher
    else onward

-- the text in front of an operator, the operator, and the text behind it
abbrev pub Operated : Type 0
Operated = Option (List ℕ × ℕ × List ℕ)

abbrev pub led_by : List ℕ → Operated → Operated
led_by p none = none
led_by p (some (a, o, b)) = some (p ++ a, o, b)

-- static size_t find_top_level_operator(content), from some depth on
pub find_top_level_operator : ℕ → List ℕ → Operated
find_top_level_operator depth [] = none
find_top_level_operator depth (c ∷ []) = none
find_top_level_operator depth (c ∷ d ∷ ds) =
    let escaped = led_by (c ∷ d ∷ []) (find_top_level_operator depth ds) in
    let deeper = led_by (c ∷ d ∷ []) (find_top_level_operator (depth + 1) ds) in
    let higher = led_by (c ∷ []) (find_top_level_operator (depth - 1) (d ∷ ds)) in
    let onward = led_by (c ∷ []) (find_top_level_operator depth (d ∷ ds)) in
    if c == b'\\'
    then escaped
    else if c == b'$' && d == b'{'
    then deeper
    else if c == b'}'
    then higher
    else if depth == 0 && (c == b':' && (d == b'-' || d == b'+'))
    then some ([], d, ds)
    else onward

-- a bare name, and the text behind it
abbrev pub name_part : List ℕ → List ℕ
name_part [] = []
name_part (c ∷ cs) = if is_variable_name_char c then c ∷ name_part cs else []

abbrev pub after_name : List ℕ → List ℕ
after_name [] = []
after_name (c ∷ cs) = if is_variable_name_char c then after_name cs else c ∷ cs

abbrev pub is_unset : List ℕ → Bool
is_unset [] = true
is_unset (c ∷ cs) = false

module _ (env : List ℕ → List ℕ) where
  -- ${VAR:-default} and ${VAR:+word}, on the value of the variable
  abbrev pub by_operator : (List ℕ → List ℕ) → ℕ → List ℕ → List ℕ → List ℕ
  by_operator nested op arg value =
      if op == b'-'
      then if is_unset value then nested arg else value
      else if not (is_unset value)
      then nested arg
      else []

  -- what stands for the content of a pair of braces; `nested` expands at the next depth
  abbrev pub operated : (List ℕ → List ℕ) → List ℕ → Operated → List ℕ
  operated nested content none = env (nested content)
  operated nested content (some (var, op, arg)) = by_operator nested op arg (env (nested var))

  abbrev pub braced : (List ℕ → List ℕ) → (List ℕ → List ℕ) → List ℕ → Split → List ℕ
  unfolding find_top_level_operator
  braced nested again text none = b'$' ∷ b'{' ∷ again text
  braced nested again text (some (content, rest)) =
      operated nested content (find_top_level_operator 0 content) ++ again rest

  -- the loop, on fuel
  pub expand_loop : (List ℕ → List ℕ) → ℕ → List ℕ → List ℕ
  unfolding find_matching_close_brace find_top_level_operator
  expand_loop nested fuel [] = []
  expand_loop nested zero (c ∷ cs) = []
  expand_loop nested (suc fuel) (c ∷ []) = c ∷ []
  expand_loop nested (suc fuel) (c ∷ d ∷ ds) =
      let literal = b'$' ∷ expand_loop nested fuel ds in
      let in_braces = braced nested (expand_loop nested fuel) ds (find_matching_close_brace 1 ds) in
      let bare = env (name_part (d ∷ ds)) ++ expand_loop nested fuel (after_name (d ∷ ds)) in
      let onward = c ∷ expand_loop nested fuel (d ∷ ds) in
      if c == b'\\' && d == b'$'
      then literal
      else if c == b'$' && d == b'{'
      then in_braces
      else if c == b'$' && is_variable_name_char d
      then bare
      else onward

  -- std::string expand_expression_impl(input, depth), by the number of depths that are left
  pub expand_expression_impl : ℕ → List ℕ → List ℕ
  unfolding expand_loop
  expand_expression_impl zero input = input
  expand_expression_impl (suc depths) input =
      expand_loop (expand_expression_impl depths) (length input) input

  -- kMaxExpressionRecursionDepth is 32, and depth 0 is the first
  unfoldable pub expand_environment_expression : List ℕ → List ℕ
  unfolding expand_expression_impl
  expand_environment_expression input = expand_expression_impl 33 input
