-- ===== src/App/Id/Packing.antt =====
-- The segments of an id, put together again.
use native.Mathlib.Nat.{
  pow-suc, mul_assoc, add-mul, div-add-mod', mod-lt, mod-mod, mod-eq_of_lt, mul-le-mul_right,
  mul-le-mul_left,
}
use libatapp.Prelude.{
  ℕ, zero, suc, ◌+◌, ◌*◌, ◌/◌, ◌%◌, ◌^◌, ◌<◌, ◌≤◌, ◌≡◌, sym, ap, ◌∙◌, List, [], ◌∷◌, arith,
}
use libatapp.App.Id.{pack_ids, unpack_ids}

-- how many ids a mask has room for
abbrev pub room : List ℕ → ℕ
room [] = 1
room (m ∷ masks) = 2 ^ m * room masks

pub power_positive : (m : ℕ) → 1 ≤ 2 ^ m
power_positive zero = omega arith
power_positive (suc m) = omega (arith, pow-suc 2 m, power_positive m)

room_positive : (masks : List ℕ) → 1 ≤ room masks
room_positive [] = omega arith
room_positive (m ∷ masks) =
    omega (arith, mul-le-mul_left (2 ^ m) (room_positive masks), power_positive m)

-- what is in front of the segments, and the last of them, take the room that they have
rest_split : (rest m p : ℕ) → rest * p ≡ rest / 2 ^ m * (2 ^ m * p) + rest % 2 ^ m * p
rest_split rest m p =
    ap (λ x. x * p) (sym (div-add-mod' rest (2 ^ m)))
    ∙ add-mul (rest / 2 ^ m * 2 ^ m) (rest % 2 ^ m) p
    ∙ ap (λ x. x + rest % 2 ^ m * p) (mul_assoc (rest / 2 ^ m) (2 ^ m) p)

unpack_rest-le : (masks : List ℕ) (id : ℕ) → (unpack_ids masks id).1 * room masks ≤ id
unfolding unpack_ids
unpack_rest-le [] id = omega arith
unpack_rest-le (m ∷ masks) id =
    let rest = (unpack_ids masks id).1 in
    omega (arith, rest_split rest m (room masks), unpack_rest-le masks id)

pack-unpack_from :
    (ret : ℕ) (masks : List ℕ) (id : ℕ)
    → (ret + 1) * room masks ≤ 2 ^ 64
    → pack_ids ret masks (unpack_ids masks id).0 + (unpack_ids masks id).1 * room masks
      ≡ ret * room masks + id
unfolding pack_ids unpack_ids
pack-unpack_from ret [] id h = omega arith
pack-unpack_from ret (m ∷ masks) id h =
    let p = room masks in
    let (ids, rest) = unpack_ids masks id in
    let next = ret * 2 ^ m + rest % 2 ^ m in
    let whole : (ret + 1) * (2 ^ m * p) ≡ ret * (2 ^ m * p) + 2 ^ m * p =
      omega (arith, add-mul ret 1 (2 ^ m * p)) in
    let grown : next * p ≡ ret * (2 ^ m * p) + rest % 2 ^ m * p =
      add-mul (ret * 2 ^ m) (rest % 2 ^ m) p
      ∙ ap (λ x. x + rest % 2 ^ m * p) (mul_assoc ret (2 ^ m) p) in
    let last : (rest % 2 ^ m + 1) * p ≤ 2 ^ m * p =
      mul-le-mul_right p (omega (arith, mod-lt rest (power_positive m))) in
    let one : (rest % 2 ^ m + 1) * p ≡ rest % 2 ^ m * p + p =
      omega (arith, add-mul (rest % 2 ^ m) 1 p) in
    let one_more : (next + 1) * p ≡ next * p + p = omega (arith, add-mul next 1 p) in
    let fits : ret * 2 ^ m < 2 ^ 64 = omega (
      arith,
      h,
      whole,
      mul-le-mul_left (ret * 2 ^ m) (room_positive masks),
      mul_assoc ret (2 ^ m) p,
      room_positive (m ∷ masks),
    ) in
    let step : ret * 2 ^ m % 2 ^ 64 + rest % 2 ^ m % 2 ^ m ≡ next =
      ap (λ x. x + rest % 2 ^ m % 2 ^ m) (mod-eq_of_lt fits)
      ∙ ap (λ x. ret * 2 ^ m + x) (mod-mod rest (2 ^ m)) in
    let ih = pack-unpack_from next masks id (omega (arith, h, whole, grown, last, one, one_more)) in
    ap (λ r. pack_ids r masks ids + rest / 2 ^ m * (2 ^ m * p)) step
    ∙ omega (arith, ih, grown, rest_split rest m p)

none_left_of : (r p id : ℕ) → r * p ≤ id → id < p → r * p ≡ 0
none_left_of zero p id h low = omega arith
none_left_of (suc r) p id h low =
    let one : 1 ≤ suc r = omega arith in absurd (omega (arith, h, low, mul-le-mul_right p one))

-- The segments of an id that its mask has room for are packed into that id again.
pub pack_ids-unpack_ids :
    (masks : List ℕ) (id : ℕ)
    → room masks ≤ 2 ^ 64
    → id < room masks
    → pack_ids 0 masks (unpack_ids masks id).0 ≡ id
pack_ids-unpack_ids masks id h low =
    let rest = (unpack_ids masks id).1 in
    let none_left : rest * room masks ≡ 0 =
      none_left_of rest (room masks) id (unpack_rest-le masks id) low in
    omega (arith, pack-unpack_from 0 masks id (omega (arith, h)), none_left)
