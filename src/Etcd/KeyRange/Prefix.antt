-- ===== src/Etcd/KeyRange/Prefix.antt =====
-- What the range_end of pack_key_range covers.
use mathlib.Core.List.{reverse, reverse-append, reverse-cons}
use mathlib.Core.Bool.{false≢true}
use libatapp.Prelude.{
  ℕ, ◌≡◌, refl, sym, ap, ◌∙◌, Option, none, some, Bool, true, false, ◌&&◌, not, List, [], ◌∷◌, ◌++◌,
  arith, if◌then◌else◌, inl, inr, Option-cases,
}
use libatapp.Etcd.KeyRange.{
  bump, need_plus, zero_byte_if, plus_one, range_end_of, pack_base64, pack_key_range, Members,
}
use libatapp.Etcd.KeyRange.Order.{
  before, starts_with, all_ff, IsBytes, successor, successor-all_ff, none-all_ff,
  successor-starts_with,
}

-- the loop of pack_key_range with the last byte first, on a key that is `front` before it
bumped : List ℕ → List ℕ
bumped key = reverse (bump (reverse key))

abbrev or_empty : Option (List ℕ) → List ℕ
or_empty none = []
or_empty (some k) = k

bump-append : (xs ys : List ℕ) → bump (xs ++ ys) ≡ (if need_plus xs then bump ys else bump xs ++ ys)
bump-append [] ys = refl
bump-append (x ∷ xs) ys = ground (arith, bump-append xs ys)

need_plus-append : (xs ys : List ℕ) → need_plus (xs ++ ys) ≡ (need_plus xs && need_plus ys)
need_plus-append [] ys = refl
need_plus-append (x ∷ xs) ys = ground (arith, need_plus-append xs ys)

need_plus-reverse : (cs : List ℕ) → need_plus (reverse cs) ≡ all_ff cs
need_plus-reverse [] = refl
need_plus-reverse (c ∷ cs) =
    rw (reverse-cons c cs, need_plus-append (reverse cs) (c ∷ []))
      (ground (arith, need_plus-reverse cs))

not_all_ff : (cs k : List ℕ) → successor cs ≡ some k → all_ff cs ≡ false
not_all_ff cs k e = ground (arith, successor-all_ff cs)

bumped-successor : (key : List ℕ) → bumped key ≡ or_empty (successor key)
unfolding bumped successor
bumped-successor [] = refl
bumped-successor (c ∷ cs) =
    rw (reverse-cons c cs, bump-append (reverse cs) (c ∷ []), need_plus-reverse cs)
      (elim (Option-cases (successor cs)) [
        | inl e ↦ rw (e, none-all_ff cs e) (ground arith)
        | inr (k, e) ↦
            rw (e, not_all_ff cs k e)
              (reverse-append (bump (reverse cs)) (c ∷ [])
                ∙ ap (λ l. c ∷ l) (bumped-successor cs ∙ ap or_empty e))
      ])

-- the literal "\0" is the empty C string, so the assignment of it changes nothing
zero_byte_if-eq : (b : Bool) (xs : List ℕ) → zero_byte_if b xs ≡ xs
zero_byte_if-eq true [] = refl
zero_byte_if-eq false [] = refl
zero_byte_if-eq b (x ∷ xs) = refl

range_end_of-successor : (key : List ℕ) → range_end_of key plus_one ≡ or_empty (successor key)
unfolding range_end_of bumped
range_end_of-successor key = zero_byte_if-eq _ (reverse (bump (reverse key))) ∙ bumped-successor key

-- With "+1" the range from a key to its range_end holds the keys that start with it, and no other:
-- for every key that has a byte below 255, whatever key of bytes is asked about.
pub range_end_of-starts_with :
    (key s : List ℕ)
    → all_ff key ≡ false
    → IsBytes s
    → starts_with key s ≡ (not (before s key) && before s (range_end_of key plus_one))
range_end_of-starts_with key s h b =
    rw (range_end_of-successor key) (elim (Option-cases (successor key)) [
      | inl e ↦ absurd (false≢true (sym h ∙ none-all_ff key e))
      | inr (k, e) ↦ rw e (successor-starts_with key s k e b)
    ])

-- For a key of 255 bytes alone, and at least one of them, "+1" gives a request that has the key and
-- no range_end.
pack_key_range-all_ff :
    (encode : List ℕ → List ℕ) (json_val : Members) (c : ℕ) (cs : List ℕ)
    → all_ff (c ∷ cs) ≡ true
    → pack_key_range encode json_val (c ∷ cs) plus_one ≡ pack_base64 encode json_val "key" (c ∷ cs)
unfolding pack_key_range
pack_key_range-all_ff encode json_val c cs h =
    rw (range_end_of-successor (c ∷ cs), successor-all_ff (c ∷ cs) h) refl
