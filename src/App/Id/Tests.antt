-- ===== src/App/Id/Tests.antt =====
-- Application ids at concrete inputs.
use libatapp.Prelude.{
  ℕ, ◌+◌, ◌*◌, ◌%◌, ◌^◌, ◌<◌, ◌≤◌, ◌≡◌, refl, ◌∙◌, Bool, true, false, ◌&&◌, Option, none, some,
  List, [], ◌∷◌, ◌++◌, ◌==◌, if◌then◌else◌, ap, arith,
}
use libatapp.App.Id.{
  split_ids, split_ids_by_string, pack_ids, convert_app_id_by_string, unpack_ids, digits,
  digit_char, chars, shown_number, convert_app_id_to_string,
}
use libatapp.App.Id.Digits.{base_of, number, AllDigits}
use libatapp.App.Id.Segments.{Ends, ReadsInt, convert_app_id_roundtrip}
use libatapp.Config.Duration.{bytes_of, decimal_digit, hex_digit, Picked, pick_digits}

abbrev starts_hex : List ℕ → Bool
starts_hex (c ∷ d ∷ cs) = c == b'0' && d == b'x'
starts_hex _ = false

abbrev behind_prefix : List ℕ → List ℕ
behind_prefix (c ∷ d ∷ cs) = cs
behind_prefix cs = cs

abbrev digit_of : Bool → ℕ → Option ℕ
digit_of true = hex_digit
digit_of false = decimal_digit

-- reads decimal digits, and hexadecimal ones behind 0x
abbrev to_int : List ℕ → ℕ
unfolding pick_digits
to_int text =
    if starts_hex text
    then (pick_digits hex_digit 16 0 (behind_prefix text)).0
    else (pick_digits decimal_digit 10 0 text).0

digit-char : (hex : Bool) (d : ℕ) → d < base_of hex → digit_of hex (digit_char d) ≡ some d
digit-char true d h = ground (arith, h)
digit-char false d h = ground (arith, h)

digit-dot : (hex : Bool) (c : ℕ) → (c == b'.') ≡ true → digit_of hex c ≡ none
digit-dot true c h = ground (arith, h)
digit-dot false c h = ground (arith, h)

number_ge : (hex : Bool) (n : ℕ) (ds : List ℕ) → n ≤ number hex n ds
number_ge hex n [] = omega arith
number_ge true n (d ∷ ds) = omega (arith, number_ge true (n * 16 + d) ds)
number_ge false n (d ∷ ds) = omega (arith, number_ge false (n * 10 + d) ds)

pick_digits-stop :
    (hex : Bool) (n : ℕ) (rest : List ℕ)
    → Ends rest
    → (pick_digits (digit_of hex) (base_of hex) n rest).0 ≡ n
unfolding pick_digits
pick_digits-stop hex n [] h = refl
pick_digits-stop hex n (c ∷ cs) h =
    ap
      (λ o.
        (elim o as (λ (x : Option ℕ). Picked) [
          | none ↦ (n, c ∷ cs)
          | some e ↦ pick_digits (digit_of hex) (base_of hex) ((n * base_of hex + e) % 2 ^ 64) cs
        ]).0)
      (digit-dot hex c h)

pick_digits-number :
    (hex : Bool) (n : ℕ) (ds rest : List ℕ)
    → AllDigits hex ds
    → Ends rest
    → number hex n ds < 2 ^ 63
    → (pick_digits (digit_of hex) (base_of hex) n (chars ds ++ rest)).0 ≡ number hex n ds
unfolding pick_digits
pick_digits-number hex n [] rest h end low = pick_digits-stop hex n rest end
pick_digits-number hex n (d ∷ ds) rest h end low =
    let next = n * base_of hex + d in
    let fits : next % 2 ^ 64 ≡ next = omega (arith, number_ge hex next ds, low) in
    ap
      (λ o.
        (elim o as (λ (x : Option ℕ). Picked) [
          | none ↦ (n, digit_char d ∷ (chars ds ++ rest))
          | some e ↦
              pick_digits (digit_of hex) (base_of hex) ((n * base_of hex + e) % 2 ^ 64)
                (chars ds ++ rest)
        ]).0)
      (digit-char hex d h.0)
    ∙ ap (λ m. (pick_digits (digit_of hex) (base_of hex) m (chars ds ++ rest)).0) fits
    ∙ pick_digits-number hex next ds rest h.1 end low

no_prefix :
    (ds rest : List ℕ) → AllDigits false ds → Ends rest → starts_hex (chars ds ++ rest) ≡ false
no_prefix [] [] h end = refl
no_prefix [] (c ∷ []) h end = refl
no_prefix [] (c ∷ d ∷ cs) h end = ground (arith, end)
no_prefix (d ∷ []) [] h end = refl
no_prefix (d ∷ []) (c ∷ cs) h end = ground (arith, end)
no_prefix (d ∷ e ∷ ds) rest h end = ground (arith, h.1.0)

to_int-ReadsInt : ReadsInt to_int
unfolding to_int
to_int-ReadsInt true ds rest h s end low = pick_digits-number true 0 ds rest h end low
to_int-ReadsInt false ds rest h s end low =
    let text = chars ds ++ rest in
    ap
      (λ b.
        if b
        then (pick_digits hex_digit 16 0 (behind_prefix text)).0
        else (pick_digits decimal_digit 10 0 text).0)
      (no_prefix ds rest h end)
    ∙ pick_digits-number false 0 ds rest h end low

abbrev bytes : List ℕ
bytes = 8 ∷ 8 ∷ 8 ∷ 8 ∷ []

written : convert_app_id_to_string 16909060 bytes false ≡ bytes_of "1.2.3.4"
unfolding convert_app_id_to_string unpack_ids shown_number digits
written = refl

written_hex : convert_app_id_to_string 305419896 (16 ∷ 16 ∷ []) true ≡ bytes_of "0x1234.0x5678"
unfolding convert_app_id_to_string unpack_ids shown_number digits
written_hex = refl

-- a mask can be shorter than the id
short : convert_app_id_by_string to_int (bytes_of "1. 2.3") (8 ∷ 8 ∷ []) ≡ 258
unfolding to_int pick_digits convert_app_id_by_string split_ids_by_string split_ids pack_ids
short = refl

convert_app_id_roundtrip_example :
    convert_app_id_by_string to_int (convert_app_id_to_string 16909060 bytes true) bytes ≡ 16909060
convert_app_id_roundtrip_example =
    convert_app_id_roundtrip to_int to_int-ReadsInt true bytes 16909060
      (omega arith, (omega arith, (omega arith, (omega arith, tt)))) (omega arith) (omega arith)
