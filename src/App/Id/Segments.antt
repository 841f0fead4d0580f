-- ===== src/App/Id/Segments.antt =====
-- An id, written in segments and read again.
use mathlib.Core.Path.{subst}
use mathlib.Core.List.{append-nil, append_assoc}
use native.Mathlib.Nat.{pow-le-pow_right, mod-lt, mod-eq_of_lt}
use libatapp.Prelude.{
  ℕ, ◌^◌, ◌<◌, ◌≤◌, ◌≡◌, refl, sym, ap, ◌∙◌, Bool, true, false, ◌||◌, List, [], ◌∷◌, ◌++◌, ◌==◌,
  arith,
}
use libatapp.App.Id.{
  split_ids, split_ids_by_string, has_dot, is_empty_text, pack_ids, chars, convert_app_id_by_string,
  unpack_ids, shown_number, dotted, convert_app_id_to_string,
}
use libatapp.App.Id.Packing.{room, power_positive, pack_ids-unpack_ids}
use libatapp.App.Id.Digits.{
  prefix, number, AllDigits, Starts, numerals, numerals-AllDigits, numerals-Starts, numerals-number,
  numerals-IsText, shown_number-numerals, NoDots, IsText,
}

-- text that is at its end, or goes on with a dot
abbrev pub Ends : List ℕ → Type 0
Ends [] = Unit
Ends (c ∷ cs) = (c == b'.') ≡ true

-- What is relied on of to_int: it reads a number in decimal, or in hexadecimal behind 0x, in front of a
-- dot or of the end.
abbrev pub ReadsInt : (List ℕ → ℕ) → Type 0
ReadsInt to_int =
    (hex : Bool) (ds rest : List ℕ)
    → AllDigits hex ds
    → Starts ds
    → Ends rest
    → number hex 0 ds < 2 ^ 63
    → to_int (prefix hex ++ (chars ds ++ rest)) ≡ number hex 0 ds

-- each segment of a mask has less than 64 bits
abbrev pub AllNarrow : List ℕ → Type 0
AllNarrow [] = Unit
AllNarrow (m ∷ masks) = (m ≤ 63) × AllNarrow masks

abbrev AllSmall : List ℕ → Type 0
AllSmall [] = Unit
AllSmall (id ∷ ids) = (id < 2 ^ 63) × AllSmall ids

-- each id fits its segment
abbrev Fits : List ℕ → List ℕ → Type 0
Fits [] [] = Unit
Fits (m ∷ masks) (id ∷ ids) = (id < 2 ^ m) × (id < 2 ^ 63) × Fits masks ids
Fits _ _ = ⊥

unpack_ids-Fits : (masks : List ℕ) (id : ℕ) → AllNarrow masks → Fits masks (unpack_ids masks id).0
unfolding unpack_ids
unpack_ids-Fits [] id h = tt
unpack_ids-Fits (m ∷ masks) id h =
    let rest = (unpack_ids masks id).1 in
    let two : 0 < 2 = omega arith in
    (
      mod-lt rest (power_positive m),
      omega (arith, mod-lt rest (power_positive m), pow-le-pow_right two h.0),
      unpack_ids-Fits masks id h.1,
    )

Fits-AllSmall : (masks ids : List ℕ) → Fits masks ids → AllSmall ids
Fits-AllSmall masks [] h = tt
Fits-AllSmall [] (id ∷ ids) h = absurd h
Fits-AllSmall (m ∷ masks) (id ∷ ids) h = (h.1, Fits-AllSmall masks ids h.2)

has_dot-NoDots : (cs : List ℕ) → NoDots cs → has_dot cs ≡ false
has_dot-NoDots [] h = refl
has_dot-NoDots (c ∷ cs) h = ap (λ b. b || has_dot cs) h.0 ∙ has_dot-NoDots cs h.1

has_dot-text : (t : List ℕ) → IsText t → has_dot t ≡ false
has_dot-text [] h = absurd h
has_dot-text (c ∷ cs) h = has_dot-NoDots (c ∷ cs) h.1

has_dot-append : (a b : List ℕ) → has_dot (a ++ b'.' ∷ b) ≡ true
has_dot-append [] b = refl
has_dot-append (c ∷ a) b = ap (λ r. c == b'.' || r) (has_dot-append a b) ∙ ground arith

is_empty_text-text : (t rest : List ℕ) → IsText t → is_empty_text (t ++ rest) ≡ false
is_empty_text-text [] rest h = absurd h
is_empty_text-text (c ∷ cs) rest h = refl

shown_number-IsText : (hex : Bool) (id : ℕ) → IsText (shown_number hex id)
shown_number-IsText hex id =
    subst IsText (sym (shown_number-numerals hex id)) (numerals-IsText hex id)

module _ (to_int : List ℕ → ℕ) (reads : ReadsInt to_int) where
  -- the rest of a segment
  split_inside :
      (cs rest : List ℕ)
      → NoDots cs
      → split_ids to_int true (cs ++ rest) ≡ split_ids to_int true rest
  unfolding split_ids
  split_inside [] rest h = refl
  split_inside (c ∷ cs) rest h =
      ap
        (λ b. elim b as (λ (x : Bool). List ℕ) [
          | true ↦ split_ids to_int false (cs ++ rest)
          | false ↦ split_ids to_int true (cs ++ rest)
        ])
        h.0
      ∙ split_inside cs rest h.1

  split_text :
      (t rest : List ℕ)
      → IsText t
      → split_ids to_int false (t ++ rest) ≡ to_int (t ++ rest) ∷ split_ids to_int true rest
  unfolding split_ids
  split_text [] rest h = absurd h
  split_text (c ∷ t) rest h =
      let cs = t ++ rest in
      let later = λ (b : Bool). elim b as (λ (x : Bool). List ℕ) [
        | true ↦ split_ids to_int false cs
        | false ↦ split_ids to_int true cs
      ] in
      ap
        (λ b. elim b as (λ (x : Bool). List ℕ) [
          | true ↦ split_ids to_int false cs
          | false ↦ to_int (c ∷ cs) ∷ later (c == b'.')
        ])
        h.0
      ∙ ap (λ b. to_int (c ∷ cs) ∷ later b) h.1.0
      ∙ ap (λ ids. to_int (c ∷ cs) ∷ ids) (split_inside t rest h.1.1)

  to_int-shown_number :
      (hex : Bool) (id : ℕ) (rest : List ℕ)
      → id < 2 ^ 63
      → Ends rest
      → to_int (shown_number hex id ++ rest) ≡ id
  to_int-shown_number hex id rest low end =
      let v = numerals-number hex id low in
      let small : number hex 0 (numerals hex id) < 2 ^ 63 = omega (arith, v, low) in
      ap (λ t. to_int (t ++ rest)) (shown_number-numerals hex id)
      ∙ ap to_int (append_assoc (prefix hex) (chars (numerals hex id)) rest)
      ∙ reads hex (numerals hex id) rest (numerals-AllDigits hex id) (numerals-Starts hex id) end
          small
      ∙ v

  split_number :
      (hex : Bool) (id : ℕ) (rest : List ℕ)
      → id < 2 ^ 63
      → Ends rest
      → split_ids to_int false (shown_number hex id ++ rest) ≡ id ∷ split_ids to_int true rest
  split_number hex id rest low end =
      split_text (shown_number hex id) rest (shown_number-IsText hex id)
      ∙ ap (λ n. n ∷ split_ids to_int true rest) (to_int-shown_number hex id rest low end)

  split-dotted :
      (hex : Bool) (ids : List ℕ) → AllSmall ids → split_ids to_int false (dotted hex ids) ≡ ids
  unfolding split_ids dotted
  split-dotted hex [] h = refl
  split-dotted hex (id ∷ []) h =
      ap (split_ids to_int false) (sym (append-nil (shown_number hex id)))
      ∙ split_number hex id [] h.0 tt
  split-dotted hex (id ∷ next ∷ ids) h =
      split_number hex id (b'.' ∷ dotted hex (next ∷ ids)) h.0 refl
      ∙ ap (λ r. id ∷ r) (split-dotted hex (next ∷ ids) h.1)

  plain_id :
      (text masks : List ℕ)
      → is_empty_text text ≡ false
      → has_dot text ≡ false
      → convert_app_id_by_string to_int text masks ≡ to_int text
  unfolding convert_app_id_by_string
  plain_id text masks e d = ground (arith, e, d)

  dotted_id :
      (text : List ℕ) (m : ℕ) (masks : List ℕ)
      → is_empty_text text ≡ false
      → has_dot text ≡ true
      → convert_app_id_by_string to_int text (m ∷ masks)
        ≡ pack_ids 0 (m ∷ masks) (split_ids to_int false text)
  unfolding convert_app_id_by_string split_ids_by_string
  dotted_id text m masks e d = ground (arith, e, d)

  one_segment :
      (hex : Bool) (id : ℕ) (masks : List ℕ)
      → id < 2 ^ 63
      → convert_app_id_by_string to_int (shown_number hex id) masks ≡ id
  one_segment hex id masks low =
      let text = shown_number-IsText hex id in
      let nil = append-nil (shown_number hex id) in
      plain_id (shown_number hex id) masks
        (ap is_empty_text (sym nil) ∙ is_empty_text-text (shown_number hex id) [] text)
        (has_dot-text (shown_number hex id) text)
      ∙ ap to_int (sym nil)
      ∙ to_int-shown_number hex id [] low tt

  segments :
      (hex : Bool) (id next : ℕ) (ids : List ℕ) (m : ℕ) (masks : List ℕ)
      → AllSmall (id ∷ next ∷ ids)
      → convert_app_id_by_string to_int (dotted hex (id ∷ next ∷ ids)) (m ∷ masks)
        ≡ pack_ids 0 (m ∷ masks) (id ∷ next ∷ ids)
  unfolding dotted
  segments hex id next ids m masks h =
      let tail = dotted hex (next ∷ ids) in
      dotted_id (shown_number hex id ++ b'.' ∷ tail) m masks
        (is_empty_text-text (shown_number hex id) (b'.' ∷ tail) (shown_number-IsText hex id))
        (has_dot-append (shown_number hex id) tail)
      ∙ ap (pack_ids 0 (m ∷ masks)) (split-dotted hex (id ∷ next ∷ ids) h)

  read_dotted :
      (hex : Bool) (masks ids : List ℕ)
      → Fits masks ids
      → convert_app_id_by_string to_int (dotted hex ids) masks ≡ pack_ids 0 masks ids
  unfolding dotted pack_ids convert_app_id_by_string
  read_dotted hex [] [] h = refl
  read_dotted hex [] (id ∷ ids) h = absurd h
  read_dotted hex (m ∷ masks) [] h = absurd h
  read_dotted hex (m ∷ []) (id ∷ []) h =
      one_segment hex id (m ∷ []) h.1 ∙ omega (arith, mod-eq_of_lt h.0)
  read_dotted hex (m ∷ n ∷ masks) (id ∷ []) h = absurd h.2
  read_dotted hex (m ∷ masks) (id ∷ next ∷ ids) h =
      segments hex id next ids m masks (Fits-AllSmall (m ∷ masks) (id ∷ next ∷ ids) h)

  -- An id that a mask has room for is read again from what is written for it, in decimal or in
  -- hexadecimal, for any mask of at most 64 bits in segments of less than 64, if to_int
  -- reads a number in decimal, or in hexadecimal behind 0x.
  pub convert_app_id_roundtrip :
      (hex : Bool) (masks : List ℕ) (id : ℕ)
      → AllNarrow masks
      → room masks ≤ 2 ^ 64
      → id < room masks
      → convert_app_id_by_string to_int (convert_app_id_to_string id masks hex) masks ≡ id
  unfolding convert_app_id_to_string
  convert_app_id_roundtrip hex masks id h fits low =
      read_dotted hex masks (unpack_ids masks id).0 (unpack_ids-Fits masks id h)
      ∙ pack_ids-unpack_ids masks id fits low
