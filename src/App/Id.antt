-- ===== src/App/Id.antt =====
-- Application ids in text, in segments of the bits that a mask such as 8.8.8.8 gives:
-- split_ids_by_string, convert_app_id_by_string and convert_app_id_to_string of src/atframe/atapp.cpp,
-- over lists of bytes without a NUL. `to_int` is that of the utility library: the number that a text
-- begins with. A mask of 64 bits or more in one segment, which the shifts do not allow, stands for a
-- remainder here too; `|` is `+`, since the shift before it has cleared the bits.
pub mod Digits
pub mod Packing
pub mod Segments
pub mod Tests
use libatapp.Prelude.{
  ℕ, zero, suc, ◌+◌, ◌-◌, ◌*◌, ◌/◌, ◌%◌, ◌^◌, Bool, true, false, not, ◌&&◌, ◌||◌, List, [], ◌∷◌,
  ◌++◌, ltb, ◌==◌, if◌then◌else◌,
}

abbrev pub is_blank : ℕ → Bool
is_blank c = c == b' ' || (c == b'\t' || (c == b'\r' || c == b'\n'))

abbrev pub has_dot : List ℕ → Bool
has_dot [] = false
has_dot (c ∷ cs) = c == b'.' || has_dot cs

-- the bits of a segment go behind those of the segments before it
pub pack_ids : ℕ → List ℕ → List ℕ → ℕ
pack_ids ret (m ∷ masks) (id ∷ ids) = pack_ids (ret * 2 ^ m % 2 ^ 64 + id % 2 ^ m) masks ids
pack_ids ret _ _ = ret

abbrev pub is_empty_text : List ℕ → Bool
is_empty_text [] = true
is_empty_text (c ∷ cs) = false

module _ (to_int : List ℕ → ℕ) where
  -- static void split_ids_by_string(in, out); `inside` a segment that was read, up to its dot
  pub split_ids : Bool → List ℕ → List ℕ
  split_ids inside [] = []
  split_ids true (c ∷ cs) = elim (c == b'.') [
    | true ↦ split_ids false cs
    | false ↦ split_ids true cs
  ]
  split_ids false (c ∷ cs) = elim (is_blank c) [
    | true ↦ split_ids false cs
    | false ↦
        to_int (c ∷ cs) ∷ elim (c == b'.') [ true ↦ split_ids false cs | false ↦ split_ids true cs ]
  ]

  unfoldable pub split_ids_by_string : List ℕ → List ℕ
  unfolding split_ids
  split_ids_by_string text = split_ids false text

  -- app_id_t convert_app_id_by_string(id_in, mask_in)
  unfoldable pub convert_app_id_by_string : List ℕ → List ℕ → ℕ
  unfolding pack_ids split_ids_by_string
  convert_app_id_by_string id_in mask_in =
      if is_empty_text id_in
      then 0
      else if is_empty_text mask_in || not (has_dot id_in)
      then to_int id_in
      else pack_ids 0 mask_in (split_ids_by_string id_in)

-- the segments of an id, and what is left of it in front of them
pub unpack_ids : List ℕ → ℕ → List ℕ × ℕ
unpack_ids [] id = ([], id)
unpack_ids (m ∷ masks) id =
    let (ids, rest) = unpack_ids masks id in (rest % 2 ^ m ∷ ids, rest / 2 ^ m)

-- a number on a stream: its digits from the last one on; 20 are enough for 64 bits
abbrev pub digit_char : ℕ → ℕ
digit_char d = if ltb d 10 then b'0' + d else b'a' + d - 10

pub digits : ℕ → ℕ → ℕ → List ℕ → List ℕ
digits base zero n later = later
digits base (suc fuel) n later =
    let all = digits base fuel (n / base) (n % base ∷ later) in
    if n / base == 0 then n % base ∷ later else all

abbrev pub chars : List ℕ → List ℕ
chars [] = []
chars (d ∷ ds) = digit_char d ∷ chars ds

unfoldable pub shown_number : Bool → ℕ → List ℕ
unfolding digits
shown_number true n = b'0' ∷ b'x' ∷ chars (digits 16 20 n [])
shown_number false n = chars (digits 10 20 n [])

abbrev pub dotted : Bool → List ℕ → List ℕ
unfolding shown_number
dotted hex [] = []
dotted hex (id ∷ []) = shown_number hex id
dotted hex (id ∷ next ∷ ids) = shown_number hex id ++ b'.' ∷ dotted hex (next ∷ ids)

-- std::string convert_app_id_to_string(id_in, mask_in, hex)
unfoldable pub convert_app_id_to_string : ℕ → List ℕ → Bool → List ℕ
unfolding unpack_ids dotted
convert_app_id_to_string id_in mask_in hex = dotted hex (unpack_ids mask_in id_in).0
