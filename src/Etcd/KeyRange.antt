-- ===== src/Etcd/KeyRange.antt =====
-- The key range of an etcd request: etcd_packer::pack_key_range and pack_base64 in
-- src/atframe/etcdcli/etcd_packer.cpp. A std::string is the list of its bytes. base64_encode is the
-- utility library's, so it is the parameter `encode`.
pub mod Order
pub mod Prefix
use mathlib.Core.List.{reverse}
use Prim.Native.String.{String}
use libatapp.Prelude.{
  bytes_eq, ℕ, ◌+◌, Bool, true, false, ◌&&◌, not, List, [], ◌∷◌, ◌++◌, ◌==◌, if◌then◌else◌,
}

abbrev pub is_empty : List ℕ → Bool
is_empty [] = true
is_empty (c ∷ cs) = false

-- what `std::string = "..."` takes of a literal: the bytes before the first zero
abbrev pub c_string : List ℕ → List ℕ
c_string [] = []
c_string (c ∷ cs) = if c == 0 then [] else c ∷ c_string cs

-- `while (!range_end.empty() && need_plus)`, with the last byte first
abbrev pub bump : List ℕ → List ℕ
bump [] = []
bump (c ∷ cs) = if c == 255 then bump cs else (c + 1) ∷ cs

-- `need_plus` after the loop
abbrev pub need_plus : List ℕ → Bool
need_plus [] = true
need_plus (c ∷ cs) = if c == 255 then need_plus cs else false

abbrev pub plus_one : List ℕ
plus_one = b'+' ∷ b'1' ∷ []

-- `if (range_end.empty() && need_plus && !key.empty()) range_end = "\0"`
abbrev pub zero_byte_if : Bool → List ℕ → List ℕ
zero_byte_if all_carried bumped =
    if is_empty bumped && all_carried then c_string (0 ∷ []) else bumped

-- the value of `range_end` once the `if ("+1" == range_end)` is left
pub range_end_of : List ℕ → List ℕ → List ℕ
range_end_of key range_end =
    if bytes_eq plus_one range_end
    then zero_byte_if (need_plus (reverse key) && not (is_empty key)) (reverse (bump (reverse key)))
    else range_end

abbrev pub Members : Type 0
Members = List (String × List ℕ)

module _ (encode : List ℕ → List ℕ) where
  abbrev pub pack_base64 : Members → String → List ℕ → Members
  pack_base64 json_val key val = json_val ++ (key, encode val) ∷ []

  pub pack_key_range : Members → List ℕ → List ℕ → Members
  unfolding range_end_of
  pack_key_range json_val key range_end =
      let keyed = if is_empty key then json_val else pack_base64 json_val "key" key in
      let last = range_end_of key range_end in
      if is_empty last then keyed else pack_base64 keyed "range_end" last
