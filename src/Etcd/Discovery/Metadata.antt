-- ===== src/Etcd/Discovery/Metadata.antt =====
-- The metadata of a node and the rules that select nodes by it: metadata_equal_type of
-- etcd_discovery_set, with its filter, and is_empty, in src/atframe/etcdcli/etcd_discovery.cpp. Texts
-- are only compared, so they are numbers, and 0 is the empty text; that two texts of different sizes
-- differ needs no test of its own. Labels are in the order that sort_string_map gives them.
use libatapp.Prelude.{
  ℕ, ◌≡◌, refl, Bool, true, false, ◌&&◌, ◌||◌, Option, none, some, List, [], ◌∷◌, ◌==◌, find,
  length, arith,
}

pub record Metadata : Type 0 where
  pub api_version : ℕ
  pub kind : ℕ
  pub group : ℕ
  pub namespace_name : ℕ
  pub name : ℕ
  pub uid : ℕ
  pub service_subset : ℕ
  pub labels : List (ℕ × ℕ)

-- the metadata of a node that has none
abbrev pub default_instance : Metadata
default_instance = record {
  api_version = 0;
  kind = 0;
  group = 0;
  namespace_name = 0;
  name = 0;
  uid = 0;
  service_subset = 0;
  labels = [];
}

abbrev pub no_labels : List (ℕ × ℕ) → Bool
no_labels [] = true
no_labels (l ∷ ls) = false

-- static bool is_empty(metadata)
unfoldable pub is_empty : Metadata → Bool
is_empty m =
    m.api_version == 0
    && (m.kind == 0
        && (m.group == 0
            && (m.namespace_name == 0
                && (m.name == 0 && (m.uid == 0 && (m.service_subset == 0 && no_labels m.labels))))))

-- a rule that leaves a field empty takes every value
abbrev pub takes : ℕ → ℕ → Bool
takes rule value = rule == 0 || rule == value

abbrev pub holds : Option ℕ → ℕ → Bool
holds none value = false
holds (some there) value = there == value

abbrev pub takes_labels : List (ℕ × ℕ) → List (ℕ × ℕ) → Bool
takes_labels [] labels = true
takes_labels ((k, v) ∷ rules) labels =
    (v == 0 || holds (find k labels) v) && takes_labels rules labels

-- static bool filter(rule, metadata)
unfoldable pub filter : Metadata → Metadata → Bool
filter rule m =
    takes rule.api_version m.api_version
    && (takes rule.kind m.kind
        && (takes rule.group m.group
            && (takes rule.namespace_name m.namespace_name
                && (takes rule.name m.name
                    && (takes rule.uid m.uid
                        && (takes rule.service_subset m.service_subset
                            && takes_labels rule.labels m.labels))))))

-- the loop over the sorted labels of both
abbrev pub same_labels : List (ℕ × ℕ) → List (ℕ × ℕ) → Bool
same_labels [] rs = true
same_labels (l ∷ ls) [] = true
same_labels ((k, v) ∷ ls) ((k', v') ∷ rs) = (k == k' && v == v') && same_labels ls rs

-- bool operator()(l, r)
unfoldable pub metadata_equal : Metadata → Metadata → Bool
metadata_equal l r =
    length l.labels == length r.labels
    && (l.api_version == r.api_version
        && (l.kind == r.kind
            && (l.group == r.group
                && (l.namespace_name == r.namespace_name
                    && (l.name == r.name
                        && (l.uid == r.uid
                            && (l.service_subset == r.service_subset
                                && same_labels l.labels r.labels)))))))

same_labels-eq : (ls rs : List (ℕ × ℕ)) → length ls ≡ length rs → same_labels ls rs ≡ true → ls ≡ rs
same_labels-eq [] [] n h = refl
same_labels-eq [] (r ∷ rs) n h = ground (arith, n)
same_labels-eq (l ∷ ls) [] n h = ground (arith, n)
same_labels-eq ((k, v) ∷ ls) ((k', v') ∷ rs) n h = ground (arith, h, same_labels-eq ls rs)

same_labels_refl : (ls : List (ℕ × ℕ)) → same_labels ls ls ≡ true
same_labels_refl [] = refl
same_labels_refl ((k, v) ∷ ls) = ground (arith, same_labels_refl ls)

-- metadata that metadata_equal takes for equal are equal
pub metadata_equal-eq : (l r : Metadata) → metadata_equal l r ≡ true → l ≡ r
unfolding metadata_equal
metadata_equal-eq l r h = ground (arith, same_labels-eq l.labels r.labels)

pub metadata_equal_refl : (m : Metadata) → metadata_equal m m ≡ true
unfolding metadata_equal
metadata_equal_refl m = ground (arith, same_labels_refl m.labels)
