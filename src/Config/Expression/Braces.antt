-- ===== src/Config/Expression/Braces.antt =====
-- A search that counts braces passes over a written template.
use libatapp.Prelude.{ℕ, ◌+◌, ◌≡◌, refl, sym, ap, ◌∙◌, Bool, true, false, List, [], ◌∷◌, ◌++◌}
use mathlib.Core.List.{append_assoc}
use mathlib.Core.Path.{subst}
use libatapp.Config.Expression.Template.{
  Template, done, byte, dollar, reference, default_to, when_set, write, IsPlain, IsWritable,
}

-- A search from a depth on, what the text in front adds to its result, and how it takes a step. The
-- depths at which a text with colons, or without, can stand are those that `Fits` it.
pub record Search (R : Type 0) : Type 1 where
  pub find : ℕ → List ℕ → R
  pub add : List ℕ → R → R
  pub Fits : ℕ → Bool → Type 0
  pub add-nil : (r : R) → add [] r ≡ r
  pub add-add : (p q : List ℕ) (r : R) → add p (add q r) ≡ add (p ++ q) r
  pub inner : (depth : ℕ) (colon : Bool) → Fits (depth + 1) colon
  pub plain :
      (depth : ℕ) (colon : Bool) (c : ℕ) (rest : List ℕ)
      → Fits depth colon
      → IsPlain colon c
      → find depth (c ∷ rest) ≡ add (c ∷ []) (find depth rest)
  pub escape :
      (depth : ℕ) (rest : List ℕ)
      → find depth (b'\\' ∷ b'$' ∷ rest) ≡ add (b'\\' ∷ b'$' ∷ []) (find depth rest)
  pub opening :
      (depth : ℕ) (rest : List ℕ)
      → find depth (b'$' ∷ b'{' ∷ rest) ≡ add (b'$' ∷ b'{' ∷ []) (find (depth + 1) rest)
  pub closing :
      (depth : ℕ) (colon : Bool) (rest : List ℕ)
      → Fits depth colon
      → find (depth + 1) (b'}' ∷ rest) ≡ add (b'}' ∷ []) (find depth rest)

pub colon-IsPlain : IsPlain true b':'
colon-IsPlain = record { no_backslash = refl; no_dollar = refl; no_brace = refl; no_colon = refl }

pub minus-IsPlain : IsPlain true b'-'
minus-IsPlain = record { no_backslash = refl; no_dollar = refl; no_brace = refl; no_colon = refl }

pub plus-IsPlain : IsPlain true b'+'
plus-IsPlain = record { no_backslash = refl; no_dollar = refl; no_brace = refl; no_colon = refl }

module _ {R : Type 0} (s : Search R) where
  open s use {find, add, Fits, add-nil, add-add, inner, plain, escape, opening, closing}

  -- the search goes on behind a text as if it was not there
  abbrev pub Passes : ℕ → List ℕ → Type 0
  Passes depth p = (rest : List ℕ) → find depth (p ++ rest) ≡ add p (find depth rest)

  append-Passes :
      (depth : ℕ) (p q : List ℕ) → Passes depth p → Passes depth q → Passes depth (p ++ q)
  append-Passes depth p q hp hq rest =
      ap (find depth) (append_assoc p q rest)
      ∙ hp (q ++ rest)
      ∙ ap (add p) (hq rest)
      ∙ add-add p q (find depth rest)

  braces-Passes :
      (depth : ℕ) (colon : Bool) (p : List ℕ)
      → Fits depth colon
      → Passes (depth + 1) p
      → Passes depth (b'$' ∷ b'{' ∷ (p ++ b'}' ∷ []))
  braces-Passes depth colon p fits hp rest =
      ap (λ x. find depth (b'$' ∷ b'{' ∷ x)) (append_assoc p (b'}' ∷ []) rest)
      ∙ opening depth (p ++ b'}' ∷ rest)
      ∙ ap (add (b'$' ∷ b'{' ∷ [])) (
          hp (b'}' ∷ rest)
          ∙ ap (add p) (closing depth colon rest fits)
          ∙ add-add p (b'}' ∷ []) (find depth rest))
      ∙ add-add (b'$' ∷ b'{' ∷ []) (p ++ b'}' ∷ []) (find depth rest)

  sign-Passes : (depth c : ℕ) → IsPlain true c → Passes (depth + 1) (c ∷ [])
  sign-Passes depth c h rest = plain (depth + 1) true c rest (inner depth true) h

  -- braces around a text that the search passes, and what is written behind them
  braced-Passes :
      (depth : ℕ) (colon : Bool) (p after : List ℕ)
      → Fits depth colon
      → Passes (depth + 1) p
      → Passes depth after
      → Passes depth (b'$' ∷ b'{' ∷ (p ++ b'}' ∷ after))
  braced-Passes depth colon p after fits hp ha =
      subst (Passes depth) (ap (λ x. b'$' ∷ b'{' ∷ x) (append_assoc p (b'}' ∷ []) after)) (
        append-Passes depth (b'$' ∷ b'{' ∷ (p ++ b'}' ∷ [])) after
          (braces-Passes depth colon p fits hp) ha)

  operated-Passes :
      (depth op : ℕ) (colon : Bool) (name arg after : List ℕ)
      → Fits depth colon
      → IsPlain true op
      → Passes (depth + 1) name
      → Passes (depth + 1) arg
      → Passes depth after
      → Passes depth (b'$' ∷ b'{' ∷ (name ++ b':' ∷ op ∷ (arg ++ b'}' ∷ after)))
  operated-Passes depth op colon name arg after fits ho hn harg ha =
      subst (Passes depth)
        (ap (λ x. b'$' ∷ b'{' ∷ x) (append_assoc name (b':' ∷ op ∷ arg) (b'}' ∷ after)))
        (braced-Passes depth colon (name ++ b':' ∷ op ∷ arg) after fits
          (append-Passes (depth + 1) name (b':' ∷ op ∷ arg) hn (
            append-Passes (depth + 1) (b':' ∷ []) (op ∷ arg) (sign-Passes depth b':' colon-IsPlain)
              (append-Passes (depth + 1) (op ∷ []) arg (sign-Passes depth op ho) harg)))
          ha)

  pub write-Passes :
      (t : Template) (depth : ℕ) (colon : Bool)
      → Fits depth colon
      → IsWritable colon t
      → Passes depth (write t)
  write-Passes done depth colon fits h = λ rest. sym (add-nil (find depth rest))
  write-Passes (byte c t) depth colon fits h =
      append-Passes depth (c ∷ []) (write t) (λ rest. plain depth colon c rest fits h.0)
        (write-Passes t depth colon fits h.1)
  write-Passes (dollar t) depth colon fits h =
      append-Passes depth (b'\\' ∷ b'$' ∷ []) (write t) (escape depth)
        (write-Passes t depth colon fits h)
  write-Passes (reference name t) depth colon fits h =
      braced-Passes depth colon (write name) (write t) fits
        (write-Passes name (depth + 1) false (inner depth false) h.0)
        (write-Passes t depth colon fits h.1)
  write-Passes (default_to name arg t) depth colon fits h =
      operated-Passes depth b'-' colon (write name) (write arg) (write t) fits minus-IsPlain
        (write-Passes name (depth + 1) false (inner depth false) h.0)
        (write-Passes arg (depth + 1) true (inner depth true) h.1)
        (write-Passes t depth colon fits h.2)
  write-Passes (when_set name arg t) depth colon fits h =
      operated-Passes depth b'+' colon (write name) (write arg) (write t) fits plus-IsPlain
        (write-Passes name (depth + 1) false (inner depth false) h.0)
        (write-Passes arg (depth + 1) true (inner depth true) h.1)
        (write-Passes t depth colon fits h.2)
