-- ===== src/Config/Expression/Fuel.antt =====
-- The loop ends: a text needs as much fuel as it has bytes.
use libatapp.Prelude.{
  ℕ, zero, suc, ◌+◌, ◌-◌, ◌≤◌, ◌≡◌, refl, ap, ◌&&◌, none, some, List, [], ◌∷◌, ◌++◌, ◌==◌, length,
  if-cases, arith,
}
use libatapp.Config.Expression.{
  Split, behind, find_matching_close_brace, find_top_level_operator, after_name, operated, braced,
  expand_loop,
}

-- the text behind a closing brace is no longer than a bound
abbrev pub IsShort : ℕ → Split → Type 0
IsShort n none = Unit
IsShort n (some (a, b)) = length b ≤ n

behind-IsShort : (n m : ℕ) (p : List ℕ) (s : Split) → n ≤ m → IsShort n s → IsShort m (behind p s)
behind-IsShort n m p none h s = tt
behind-IsShort n m p (some (a, b)) h s = omega (arith, h, s)

pub close_brace-IsShort :
    (depth : ℕ) (text : List ℕ) → IsShort (length text) (find_matching_close_brace depth text)
unfolding find_matching_close_brace
close_brace-IsShort depth [] = tt
close_brace-IsShort depth (c ∷ []) =
    if-cases (IsShort 1) (c == b'}' && depth == 1) _ _ (λ e. omega arith) (λ e. tt)
close_brace-IsShort depth (c ∷ d ∷ ds) =
    let n = length ds in
    let P = IsShort (suc (suc n)) in
    if-cases P (c == b'\\') _ _
      (λ e.
        behind-IsShort n (suc (suc n)) (c ∷ d ∷ []) (find_matching_close_brace depth ds)
          (omega arith) (close_brace-IsShort depth ds))
      (λ e.
        if-cases P (c == b'$' && d == b'{') _ _
          (λ e.
            behind-IsShort n (suc (suc n)) (c ∷ d ∷ []) (find_matching_close_brace (depth + 1) ds)
              (omega arith) (close_brace-IsShort (depth + 1) ds))
          (λ e.
            if-cases P (c == b'}') _ _
              (λ e.
                if-cases P (depth == 1) _ _ (λ e. omega arith)
                  (λ e.
                    behind-IsShort (suc n) (suc (suc n)) (c ∷ [])
                      (find_matching_close_brace (depth - 1) (d ∷ ds)) (omega arith)
                      (close_brace-IsShort (depth - 1) (d ∷ ds))))
              (λ e.
                behind-IsShort (suc n) (suc (suc n)) (c ∷ [])
                  (find_matching_close_brace depth (d ∷ ds)) (omega arith)
                  (close_brace-IsShort depth (d ∷ ds)))))

after_name-length : (text : List ℕ) → length (after_name text) ≤ length text
after_name-length [] = omega arith
after_name-length (c ∷ cs) = ground (arith, after_name-length cs)

module _ (env : List ℕ → List ℕ) (nested : List ℕ → List ℕ) where
  braced-same :
      (f g : List ℕ → List ℕ) (n : ℕ) (text : List ℕ) (s : Split)
      → ((rest : List ℕ) → length rest ≤ n → f rest ≡ g rest)
      → length text ≤ n
      → IsShort n s
      → braced env nested f text s ≡ braced env nested g text s
  unfolding braced
  braced-same f g n text none same short h = ap (λ r. b'$' ∷ b'{' ∷ r) (same text short)
  braced-same f g n text (some (content, rest)) same short h =
      ap (λ r. operated env nested content (find_top_level_operator 0 content) ++ r) (same rest h)

  IsShort-le : (n m : ℕ) (s : Split) → n ≤ m → IsShort n s → IsShort m s
  IsShort-le n m none h s = tt
  IsShort-le n m (some (a, b)) h s = omega (arith, h, s)

  -- two fuels that are enough for a text give the same
  pub expand_loop_fuels :
      (f g : ℕ) (text : List ℕ)
      → length text ≤ f
      → length text ≤ g
      → expand_loop env nested f text ≡ expand_loop env nested g text
  unfolding expand_loop
  expand_loop_fuels f g [] hf hg = refl
  expand_loop_fuels zero g (c ∷ cs) hf hg = elim hf [ ]
  expand_loop_fuels (suc f) zero (c ∷ cs) hf hg = elim hg [ ]
  expand_loop_fuels (suc f) (suc g) (c ∷ []) hf hg = refl
  expand_loop_fuels (suc f) (suc g) (c ∷ d ∷ ds) hf hg = ground (
    arith,
    expand_loop_fuels f g ds,
    expand_loop_fuels f g (d ∷ ds),
    expand_loop_fuels f g (after_name (d ∷ ds)),
    after_name-length (d ∷ ds),
    braced-same (expand_loop env nested f) (expand_loop env nested g) (length ds) ds
        (find_matching_close_brace 1 ds)
        (λ rest h. expand_loop_fuels f g rest (omega (arith, h, hf)) (omega (arith, h, hg)))
        (omega arith) (close_brace-IsShort 1 ds),
  )

  -- The loop of expand_expression_impl takes as many rounds as the text has bytes, at most: any more
  -- fuel gives the same.
  pub expand_loop_enough :
      (more : ℕ) (text : List ℕ)
      → expand_loop env nested (length text + more) text ≡ expand_loop env nested (length text) text
  expand_loop_enough more text =
      expand_loop_fuels (length text + more) (length text) text (omega arith) (omega arith)
