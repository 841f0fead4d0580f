-- ===== src/Config/Expression/Meaning.antt =====
-- A written template expands to what it means.
use libatapp.Prelude.{
  ℕ, zero, suc, ◌≤◌, ◌≡◌, refl, ap, ◌∙◌, Bool, true, false, not, ◌||◌, none, some, List, [], ◌∷◌,
  ◌++◌, ◌==◌, length, arith, if◌then◌else◌,
}
use mathlib.Core.List.{append-nil}
use mathlib.Core.Path.{subst}
use libatapp.Config.Expression.{
  behind, find_matching_close_brace, find_top_level_operator, operated, by_operator, braced,
  expand_loop, expand_expression_impl, is_unset, expand_environment_expression,
}
use libatapp.Config.Expression.Fuel.{IsShort, close_brace-IsShort, expand_loop_fuels}
use libatapp.Config.Expression.Template.{
  Template, done, byte, dollar, reference, default_to, when_set, write, meaning, IsPlain,
  IsWritable, height,
}
use libatapp.Config.Expression.Braces.{colon-IsPlain, minus-IsPlain, plus-IsPlain}
use libatapp.Config.Expression.Searches.{close_plain, close_brace-write, operator-write}

close_brace-end : (text : List ℕ) → find_matching_close_brace 1 (b'}' ∷ text) ≡ some ([], text)
unfolding find_matching_close_brace
close_brace-end [] = refl
close_brace-end (c ∷ cs) = refl

-- a template in braces
close_brace-template :
    (t : Template) (colon : Bool) (text : List ℕ)
    → IsWritable colon t
    → find_matching_close_brace 1 (write t ++ b'}' ∷ text) ≡ some (write t ++ [], text)
close_brace-template t colon text h =
    close_brace-write t 1 colon (b'}' ∷ text) (omega arith) h
    ∙ ap (behind (write t)) (close_brace-end text)

-- a name, an operator and an argument in braces
close_brace-operated :
    (name arg : Template) (op : ℕ) (text : List ℕ)
    → IsPlain true op
    → IsWritable false name
    → IsWritable true arg
    → find_matching_close_brace 1 (write name ++ b':' ∷ op ∷ (write arg ++ b'}' ∷ text))
      ≡ some (write name ++ b':' ∷ op ∷ (write arg ++ []), text)
close_brace-operated name arg op text ho hn ha =
    let after = write arg ++ b'}' ∷ text in
    close_brace-write name 1 false (b':' ∷ op ∷ after) (omega arith) hn
    ∙ ap (behind (write name)) (
        close_plain 1 true b':' (op ∷ after) (omega arith) colon-IsPlain
        ∙ ap (behind (b':' ∷ [])) (
            close_plain 1 true op after (omega arith) ho
            ∙ ap (behind (op ∷ [])) (close_brace-template arg true text ha)))

operator-template :
    (t : Template) → IsWritable false t → find_top_level_operator 0 (write t ++ []) ≡ none
unfolding find_top_level_operator
operator-template t h = operator-write t [] h

operator-operated :
    (name : Template) (op : ℕ) (arg : List ℕ)
    → (op == b'-' || op == b'+') ≡ true
    → IsWritable false name
    → find_top_level_operator 0 (write name ++ b':' ∷ op ∷ arg) ≡ some (write name ++ [], op, arg)
unfolding find_top_level_operator
operator-operated name op arg ho h = operator-write name (b':' ∷ op ∷ arg) h ∙ ground (arith, ho)

if-not : (b : Bool) (x y : List ℕ) → (if not b then x else y) ≡ (if b then y else x)
if-not true x y = refl
if-not false x y = refl

module _ (env : List ℕ → List ℕ) where
  -- the loop with as much fuel as there are bytes
  abbrev run : (List ℕ → List ℕ) → List ℕ → List ℕ
  run nested text = expand_loop env nested (length text) text

  run-plain :
      (nested : List ℕ → List ℕ) (colon : Bool) (c : ℕ) (text : List ℕ)
      → IsPlain colon c
      → run nested (c ∷ text) ≡ c ∷ run nested text
  unfolding expand_loop
  run-plain nested colon c [] h = refl
  run-plain nested colon c (d ∷ ds) h = ground (arith, h.no_backslash, h.no_dollar)

  run-dollar :
      (nested : List ℕ → List ℕ) (text : List ℕ)
      → run nested (b'\\' ∷ b'$' ∷ text) ≡ b'$' ∷ run nested text
  unfolding expand_loop
  run-dollar nested text =
      ap (λ r. b'$' ∷ r)
        (expand_loop_fuels env nested (suc (length text)) (length text) text (omega arith)
          (omega arith))

  run-braced :
      (nested : List ℕ → List ℕ) (text content rest : List ℕ)
      → find_matching_close_brace 1 text ≡ some (content, rest)
      → run nested (b'$' ∷ b'{' ∷ text)
        ≡ operated env nested content (find_top_level_operator 0 content) ++ run nested rest
  unfolding expand_loop
  run-braced nested text content rest e =
      let short = subst (IsShort (length text)) e (close_brace-IsShort 1 text) in
      ap (braced env nested (expand_loop env nested (suc (length text))) text) e
      ∙ ap (λ r. operated env nested content (find_top_level_operator 0 content) ++ r)
          (expand_loop_fuels env nested (suc (length text)) (length rest) rest
            (omega (arith, short)) (omega arith))

  -- `nested` expands the templates of some height to what they mean
  abbrev Expands : ℕ → (List ℕ → List ℕ) → Type 0
  Expands depths nested =
      (t : Template) (colon : Bool)
      → IsWritable colon t
      → height t ≤ depths
      → nested (write t) ≡ meaning env t

  run-nil : (nested : List ℕ → List ℕ) → run nested [] ≡ []
  unfolding expand_loop
  run-nil nested = refl

  module _ (depths : ℕ) (nested : List ℕ → List ℕ) (ih : Expands depths nested) where
    nested-write :
        (t : Template) (colon : Bool)
        → IsWritable colon t
        → height t ≤ depths
        → nested (write t ++ []) ≡ meaning env t
    nested-write t colon h low = ap nested (append-nil (write t)) ∙ ih t colon h low

    operated-reference :
        (name : Template)
        → IsWritable false name
        → height name ≤ depths
        → operated env nested (write name ++ []) (find_top_level_operator 0 (write name ++ []))
          ≡ env (meaning env name)
    operated-reference name h low =
        ap (operated env nested (write name ++ [])) (operator-template name h)
        ∙ ap env (nested-write name false h low)

    operated-by_operator :
        (name arg : Template) (op : ℕ)
        → (op == b'-' || op == b'+') ≡ true
        → IsWritable false name
        → IsWritable true arg
        → height name ≤ depths
        → height arg ≤ depths
        → let content = write name ++ b':' ∷ op ∷ (write arg ++ []) in
          operated env nested content (find_top_level_operator 0 content)
          ≡ by_operator env (λ x. meaning env arg) op [] (env (meaning env name))
    operated-by_operator name arg op ho hn ha low low' =
        ap (operated env nested (write name ++ b':' ∷ op ∷ (write arg ++ [])))
          (operator-operated name op (write arg ++ []) ho hn)
        ∙ ap (λ v. by_operator env nested op (write arg ++ []) (env v))
            (nested-write name false hn low)
        ∙ ap (λ a. by_operator env (λ x. a) op [] (env (meaning env name)))
            (nested-write arg true ha low')

    run-write : Expands (suc depths) (run nested)
    run-write done colon h low = run-nil nested
    run-write (byte c t) colon h low =
        run-plain nested colon c (write t) h.0 ∙ ap (λ r. c ∷ r) (run-write t colon h.1 low)
    run-write (dollar t) colon h low =
        run-dollar nested (write t) ∙ ap (λ r. b'$' ∷ r) (run-write t colon h low)
    run-write (reference name t) colon h low =
        let braces = close_brace-template name false (write t) h.0 in
        run-braced nested (write name ++ b'}' ∷ write t) (write name ++ []) (write t) braces
        ∙ ap (λ r. r ++ run nested (write t)) (operated-reference name h.0 (omega (arith, low)))
        ∙ ap (λ r. env (meaning env name) ++ r) (run-write t colon h.1 (omega (arith, low)))
    run-write (default_to name arg t) colon h low =
        let content = write name ++ b':' ∷ b'-' ∷ (write arg ++ []) in
        let value = env (meaning env name) in
        run-braced nested (write name ++ b':' ∷ b'-' ∷ (write arg ++ b'}' ∷ write t)) content
          (write t) (close_brace-operated name arg b'-' (write t) minus-IsPlain h.0 h.1)
        ∙ ap (λ r. r ++ run nested (write t))
            (operated-by_operator name arg b'-' refl h.0 h.1 (omega (arith, low))
              (omega (arith, low)))
        ∙ ap (λ r. (if is_unset value then meaning env arg else value) ++ r)
            (run-write t colon h.2 (omega (arith, low)))
    run-write (when_set name arg t) colon h low =
        let content = write name ++ b':' ∷ b'+' ∷ (write arg ++ []) in
        let value = env (meaning env name) in
        run-braced nested (write name ++ b':' ∷ b'+' ∷ (write arg ++ b'}' ∷ write t)) content
          (write t) (close_brace-operated name arg b'+' (write t) plus-IsPlain h.0 h.1)
        ∙ ap (λ r. r ++ run nested (write t))
            (operated-by_operator name arg b'+' refl h.0 h.1 (omega (arith, low))
              (omega (arith, low)))
        ∙ ap (λ r. r ++ run nested (write t)) (if-not (is_unset value) (meaning env arg) [])
        ∙ ap (λ r. (if is_unset value then [] else meaning env arg) ++ r)
            (run-write t colon h.2 (omega (arith, low)))

  height_positive : (t : Template) → 1 ≤ height t
  height_positive done = omega arith
  height_positive (byte c t) = height_positive t
  height_positive (dollar t) = height_positive t
  height_positive (reference name t) = omega arith
  height_positive (default_to name arg t) = omega arith
  height_positive (when_set name arg t) = omega arith

  impl-Expands : (depths : ℕ) → Expands depths (expand_expression_impl env depths)
  unfolding expand_expression_impl
  impl-Expands zero t colon h low = absurd (omega (arith, low, height_positive t))
  impl-Expands (suc depths) t colon h low =
      run-write depths (expand_expression_impl env depths) (impl-Expands depths) t colon h low

  -- A written template expands to its meaning, if at most 32 references stand inside one another, no
  -- byte is a backslash, a dollar or a closing brace, and there is no colon in a variable's name outside
  -- of what the name refers to. Bytes stand for themselves, an escaped dollar for a dollar, a reference
  -- for the value of its variable, and one with a default or an alternative for what the emptiness of
  -- that value says.
  pub expand-write :
      (t : Template)
      → IsWritable true t
      → height t ≤ 33
      → expand_environment_expression env (write t) ≡ meaning env t
  unfolding expand_environment_expression
  expand-write t h low = impl-Expands 33 t true h low
