-- ===== src/Config/Expression/Searches.antt =====
-- The two searches of the source as searches that pass over templates.
use libatapp.Prelude.{
  ℕ, ◌+◌, ◌-◌, ◌≤◌, ◌≡◌, ◌⊎◌, refl, sym, ap, Bool, true, false, none, some, List, [], ◌∷◌, ◌++◌,
  ◌==◌, arith, inl, inr,
}
use mathlib.Core.List.{append_assoc}
use libatapp.Config.Expression.{
  Split, behind, find_matching_close_brace, Operated, led_by, find_top_level_operator,
}
use libatapp.Config.Expression.Template.{Template, write, IsPlain, IsWritable}
use libatapp.Config.Expression.Braces.{Search, write-Passes}

behind_nil : (s : Split) → behind [] s ≡ s
behind_nil none = refl
behind_nil (some (a, b)) = refl

behind-behind : (p q : List ℕ) (s : Split) → behind p (behind q s) ≡ behind (p ++ q) s
behind-behind p q none = refl
behind-behind p q (some (a, b)) = ap (λ x. some (x, b)) (sym (append_assoc p q a))

pub close_plain :
    (depth : ℕ) (colon : Bool) (c : ℕ) (rest : List ℕ)
    → 1 ≤ depth
    → IsPlain colon c
    → find_matching_close_brace depth (c ∷ rest)
      ≡ behind (c ∷ []) (find_matching_close_brace depth rest)
unfolding find_matching_close_brace
close_plain depth colon c [] fits h = ground (arith, h.no_brace)
close_plain depth colon c (d ∷ ds) fits h = ground (arith, h.no_backslash, h.no_dollar, h.no_brace)

back : (n : ℕ) → n + 1 - 1 ≡ n
back n = omega arith

not_one : (n : ℕ) → 1 ≤ n → (n + 1 == 1) ≡ false
not_one n h = ground (arith, h)

close_closing :
    (depth : ℕ) (colon : Bool) (rest : List ℕ)
    → 1 ≤ depth
    → find_matching_close_brace (depth + 1) (b'}' ∷ rest)
      ≡ behind (b'}' ∷ []) (find_matching_close_brace depth rest)
unfolding find_matching_close_brace
close_closing depth colon [] fits = ground (arith, fits)
close_closing depth colon (d ∷ ds) fits = rw (back depth, not_one depth fits) refl

close_search : Search Split
unfolding find_matching_close_brace
close_search = record {
  find = find_matching_close_brace;
  add = behind;
  Fits = λ depth colon. 1 ≤ depth;
  add-nil = behind_nil;
  add-add = behind-behind;
  inner = λ depth colon. omega arith;
  plain = close_plain;
  escape = λ depth rest. refl;
  opening = λ depth rest. refl;
  closing = close_closing;
}

-- the text of a template and a closing brace behind it
pub close_brace-write :
    (t : Template) (depth : ℕ) (colon : Bool) (rest : List ℕ)
    → 1 ≤ depth
    → IsWritable colon t
    → find_matching_close_brace depth (write t ++ rest)
      ≡ behind (write t) (find_matching_close_brace depth rest)
unfolding close_search
close_brace-write t depth colon rest fits h = write-Passes close_search t depth colon fits h rest

led_by_nil : (s : Operated) → led_by [] s ≡ s
led_by_nil none = refl
led_by_nil (some (a, o, b)) = refl

led_by-led_by : (p q : List ℕ) (s : Operated) → led_by p (led_by q s) ≡ led_by (p ++ q) s
led_by-led_by p q none = refl
led_by-led_by p q (some (a, o, b)) = ap (λ x. some (x, o, b)) (sym (append_assoc p q a))

operator_plain :
    (depth : ℕ) (colon : Bool) (c : ℕ) (rest : List ℕ)
    → (1 ≤ depth) ⊎ (colon ≡ false)
    → IsPlain colon c
    → find_top_level_operator depth (c ∷ rest)
      ≡ led_by (c ∷ []) (find_top_level_operator depth rest)
unfolding find_top_level_operator
operator_plain depth colon c [] fits h = refl
operator_plain depth colon c (d ∷ ds) (inl deep) h =
    ground (arith, deep, h.no_backslash, h.no_dollar, h.no_brace)
operator_plain depth true c (d ∷ ds) (inr e) h = cc
operator_plain depth false c (d ∷ ds) (inr e) h =
    ground (arith, h.no_backslash, h.no_dollar, h.no_brace, h.no_colon)

operator_closing :
    (depth : ℕ) (colon : Bool) (rest : List ℕ)
    → (1 ≤ depth) ⊎ (colon ≡ false)
    → find_top_level_operator (depth + 1) (b'}' ∷ rest)
      ≡ led_by (b'}' ∷ []) (find_top_level_operator depth rest)
unfolding find_top_level_operator
operator_closing depth colon [] fits = refl
operator_closing depth colon (d ∷ ds) fits = rw (back depth) refl

operator_search : Search Operated
unfolding find_top_level_operator
operator_search = record {
  find = find_top_level_operator;
  add = led_by;
  Fits = λ depth colon. (1 ≤ depth) ⊎ (colon ≡ false);
  add-nil = led_by_nil;
  add-add = led_by-led_by;
  inner = λ depth colon. inl (omega arith);
  plain = operator_plain;
  escape = λ depth rest. refl;
  opening = λ depth rest. refl;
  closing = operator_closing;
}

pub operator-write :
    (t : Template) (rest : List ℕ)
    → IsWritable false t
    → find_top_level_operator 0 (write t ++ rest)
      ≡ led_by (write t) (find_top_level_operator 0 rest)
unfolding operator_search
operator-write t rest h = write-Passes operator_search t 0 false (inr refl) h rest
