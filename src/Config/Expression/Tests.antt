-- ===== src/Config/Expression/Tests.antt =====
-- The expansion of expressions at concrete inputs.
use libatapp.Prelude.{ℕ, ◌+◌, ◌≡◌, refl, arith, true, false, List, [], ◌∷◌, ◌==◌, if◌then◌else◌}
use libatapp.Config.Expression.{expand_loop, expand_expression_impl, expand_environment_expression}
use libatapp.Config.Expression.Fuel.{expand_loop_enough}
use libatapp.Config.Expression.Template.{
  Template, done, byte, dollar, default_to, when_set, write, IsPlain,
}
use libatapp.Config.Expression.Meaning.{expand-write}

-- an environment with the one variable A, which holds xy
abbrev environment : List ℕ → List ℕ
environment (c ∷ []) = if c == b'A' then b'x' ∷ b'y' ∷ [] else []
environment _ = []

-- ${A:-n}
abbrev known : List ℕ
known = b'$' ∷ b'{' ∷ b'A' ∷ b':' ∷ b'-' ∷ b'n' ∷ b'}' ∷ []

-- an unclosed brace stays, and a bare name expands
unclosed :
    expand_environment_expression environment (b'$' ∷ b'{' ∷ b'$' ∷ b'A' ∷ b'-' ∷ [])
    ≡ b'$' ∷ b'{' ∷ b'x' ∷ b'y' ∷ b'-' ∷ []
unfolding expand_environment_expression expand_expression_impl expand_loop
unclosed = refl

expand_loop_enough_example :
    expand_loop environment (expand_expression_impl environment 3) (7 + 4) known
    ≡ expand_loop environment (expand_expression_impl environment 3) 7 known
expand_loop_enough_example =
    expand_loop_enough environment (expand_expression_impl environment 3) 4 known

-- ${B:-=${A:+\$}}: and then a colon
abbrev nested : Template
nested =
    default_to (byte b'B' done) (byte b'=' (when_set (byte b'A' done) (dollar done) done))
      (byte b':' done)

B-IsPlain : IsPlain false b'B'
B-IsPlain = record { no_backslash = refl; no_dollar = refl; no_brace = refl; no_colon = refl }

A-IsPlain : IsPlain false b'A'
A-IsPlain = record { no_backslash = refl; no_dollar = refl; no_brace = refl; no_colon = refl }

equals-IsPlain : IsPlain true b'='
equals-IsPlain = record { no_backslash = refl; no_dollar = refl; no_brace = refl; no_colon = refl }

colon-IsPlain : IsPlain true b':'
colon-IsPlain = record { no_backslash = refl; no_dollar = refl; no_brace = refl; no_colon = refl }

expand-write_example :
    expand_environment_expression environment (write nested) ≡ b'=' ∷ b'$' ∷ b':' ∷ []
expand-write_example =
    expand-write environment nested
      ((B-IsPlain, tt), (equals-IsPlain, ((A-IsPlain, tt), tt, tt)), (colon-IsPlain, tt))
      (omega arith)
