-- ===== src/Config/Expression/Template.antt =====
-- Templates: what an expression is meant to say, how it is written, and what it stands for.
use Prim.Native.Nat.{max}
use libatapp.Prelude.{
  ℕ, suc, ◌≡◌, Bool, true, false, not, ◌||◌, List, [], ◌∷◌, ◌++◌, ◌==◌, if◌then◌else◌,
}
use libatapp.Config.Expression.{is_unset}

-- A text of bytes, dollar signs and references to variables; the last argument is what follows. The
-- name of a variable is a template too.
pub data Template : Type 0 where
  done : Template
  byte : ℕ → Template → Template
  dollar : Template → Template
  reference : Template → Template → Template
  default_to when_set : Template → Template → Template → Template

abbrev pub write : Template → List ℕ
write done = []
write (byte c t) = c ∷ write t
write (dollar t) = b'\\' ∷ b'$' ∷ write t
write (reference name t) = b'$' ∷ b'{' ∷ (write name ++ b'}' ∷ write t)
write (default_to name arg t) =
    b'$' ∷ b'{' ∷ (write name ++ b':' ∷ b'-' ∷ (write arg ++ b'}' ∷ write t))
write (when_set name arg t) =
    b'$' ∷ b'{' ∷ (write name ++ b':' ∷ b'+' ∷ (write arg ++ b'}' ∷ write t))

module _ (env : List ℕ → List ℕ) where
  abbrev pub meaning : Template → List ℕ
  meaning done = []
  meaning (byte c t) = c ∷ meaning t
  meaning (dollar t) = b'$' ∷ meaning t
  meaning (reference name t) = env (meaning name) ++ meaning t
  meaning (default_to name arg t) =
      let value = env (meaning name) in (if is_unset value then meaning arg else value) ++ meaning t
  meaning (when_set name arg t) =
      (if is_unset (env (meaning name)) then [] else meaning arg) ++ meaning t

-- a byte that needs no escape; a colon is one where it cannot be read as an operator
pub record IsPlain (colon : Bool) (c : ℕ) : Type 0 where
  pub no_backslash : c == b'\\' ≡ false
  pub no_dollar : c == b'$' ≡ false
  pub no_brace : c == b'}' ≡ false
  pub no_colon : colon || not (c == b':') ≡ true

-- all bytes are plain, and there is no colon in a name outside of what it refers to
abbrev pub IsWritable : Bool → Template → Type 0
IsWritable colon done = Unit
IsWritable colon (byte c t) = IsPlain colon c × IsWritable colon t
IsWritable colon (dollar t) = IsWritable colon t
IsWritable colon (reference name t) = IsWritable false name × IsWritable colon t
IsWritable colon (default_to name arg t) =
    IsWritable false name × IsWritable true arg × IsWritable colon t
IsWritable colon (when_set name arg t) =
    IsWritable false name × IsWritable true arg × IsWritable colon t

-- one more than the number of references that stand inside one another
abbrev pub height : Template → ℕ
height done = 1
height (byte c t) = height t
height (dollar t) = height t
height (reference name t) = max (suc (height name)) (height t)
height (default_to name arg t) = max (suc (max (height name) (height arg))) (height t)
height (when_set name arg t) = max (suc (max (height name) (height arg))) (height t)
