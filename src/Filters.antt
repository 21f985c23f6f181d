-- ===== src/Filters.antt =====
-- config/JobFilters.{h,cpp}: which nodes a job may run on. An unordered_set of strings is a list of
-- its elements.
pub mod Flags
pub mod Equality
use bistro.Base.{
  ℕ, String, Bool, true, false, not, ◌&&◌, ◌||◌, Option, none, some, List, [], ◌∷◌, contains,
  is_nil, Outcome, ok, throw, ◌>>=◌, if◌then◌else◌, same, string_eq, ltb,
}
use bistro.Base.Dynamic.{Dynamic, Items, Fields, get_ptr, as_object, is_empty, set_key}
use bistro.Scheduling.{NodeFields}

-- Floating-point numbers, regular expressions, the conversions of a JSON value, and the hash of a
-- pair of strings.
pub record Platform (D R : Type 0) : Type 0 where
  pub as_string : Dynamic → Outcome String
  pub as_double : Dynamic → Outcome D
  pub of_double : D → Dynamic
  pub one : D
  pub is_nonpositive : D → Bool
  pub double_eq : D → D → Bool
  pub double_lt : D → D → Bool
  -- static_cast<size_t>(f * numeric_limits<size_t>::max())
  pub cutoff_of : D → ℕ
  pub no_regex : R
  pub regex_of : String → Outcome R
  pub regex_is_empty : R → Bool
  pub regex_str : R → String
  pub regex_eq : R → R → Bool
  pub regex_search : String → R → Bool
  pub hasher : String × String → ℕ

pub record JobFilters (D R : Type 0) : Type 0 where
  pub whitelist : List String
  pub whitelist_regex : R
  pub blacklist : List String
  pub blacklist_regex : R
  pub tag_whitelist : List String
  pub fraction_of_nodes : D
  pub fraction_cutoff : ℕ
  pub is_empty_ : Bool
  pub cb : Option (NodeFields → Bool)

abbrev pub has_no_cb : Option (NodeFields → Bool) → Bool
has_no_cb none = true
has_no_cb (some cb) = false

abbrev pub call : Option (NodeFields → Bool) → NodeFields → Bool
call none n = true
call (some cb) n = cb n

-- Node::hasTags
unfoldable pub has_tags : NodeFields → List String → Bool
has_tags n [] = false
has_tags n (t ∷ tags) = if contains t n.tags then true else has_tags n tags

abbrev pub is_subset : List String → List String → Bool
is_subset [] set = true
is_subset (x ∷ xs) set = contains x set && is_subset xs set

-- == of unordered_set, and of vector
abbrev pub set_eq : List String → List String → Bool
set_eq a b = is_subset a b && is_subset b a

abbrev pub vector_eq : List String → List String → Bool
vector_eq [] [] = true
vector_eq [] (y ∷ ys) = false
vector_eq (x ∷ xs) [] = false
vector_eq (x ∷ xs) (y ∷ ys) = same x y && vector_eq xs ys

module _ {D R : Type 0} (p : Platform D R) where
  -- The default constructor leaves the fraction and its cutoff uninitialised.
  unfoldable pub default_filters : D → ℕ → JobFilters D R
  default_filters fraction cutoff = record {
    whitelist = [];
    whitelist_regex = p.no_regex;
    blacklist = [];
    blacklist_regex = p.no_regex;
    tag_whitelist = [];
    fraction_of_nodes = fraction;
    fraction_cutoff = cutoff;
    is_empty_ = true;
    cb = none;
  }

  unfoldable pub is_non_trivially_empty : JobFilters D R → Bool
  is_non_trivially_empty f =
      has_no_cb f.cb
      && is_nil f.whitelist
      && p.regex_is_empty f.whitelist_regex
      && is_nil f.blacklist
      && p.regex_is_empty f.blacklist_regex
      && is_nil f.tag_whitelist
      && p.double_eq f.fraction_of_nodes p.one

  unfoldable pub as_strings : Items → Outcome (List String)
  as_strings Items.nil = ok []
  as_strings (Items.item d items) =
      p.as_string d >>= λ s. as_strings items >>= λ strings. ok (s ∷ strings)

  unfoldable pub strings_at : String → Fields → Outcome (List String)
  strings_at key fs = elim (get_ptr key fs) [
    | none ↦ ok []
    | some (Dynamic.array items) ↦ as_strings items
    | some _ ↦ throw "TypeError"
  ]

  unfoldable pub regex_at : String → Fields → Outcome R
  regex_at key fs = elim (get_ptr key fs) [
    | none ↦ ok p.no_regex
    | some d ↦ p.as_string d >>= p.regex_of
  ]

  -- setFractionOfNodes
  unfoldable pub usable_fraction : D → D
  usable_fraction d = if p.is_nonpositive d then p.one else d

  unfoldable pub fraction_at : Fields → Outcome D
  fraction_at fs = elim (get_ptr "fraction_of_nodes" fs) [
    | none ↦ ok p.one
    | some d ↦ p.as_double d
  ]

  -- isEmpty_ is set at the end.
  unfoldable pub flagged : JobFilters D R → JobFilters D R
  flagged f = record f { is_empty_ = is_non_trivially_empty f }

  unfoldable pub make_filters : Dynamic → Option (NodeFields → Bool) → Outcome (JobFilters D R)
  make_filters d cb = elim (as_object d) [
    | none ↦ throw "TypeError"
    | some fs ↦ strings_at "whitelist" fs >>= λ whitelist.
        regex_at "whitelist_regex" fs >>= λ whitelist_regex.
        strings_at "blacklist" fs >>= λ blacklist.
        regex_at "blacklist_regex" fs >>= λ blacklist_regex.
        strings_at "tag_whitelist" fs >>= λ tag_whitelist. fraction_at fs >>= λ fraction. ok (
          flagged (record {
            whitelist = whitelist;
            whitelist_regex = whitelist_regex;
            blacklist = blacklist;
            blacklist_regex = blacklist_regex;
            tag_whitelist = tag_whitelist;
            fraction_of_nodes = usable_fraction fraction;
            fraction_cutoff = p.cutoff_of (usable_fraction fraction);
            is_empty_ = false;
            cb = cb;
          }))
  ]

  -- The tests of doesPass on a string.
  unfoldable pub tests : JobFilters D R → String → String → Bool
  tests f salt s =
      (is_nil f.whitelist || contains s f.whitelist)
      && (p.regex_is_empty f.whitelist_regex || p.regex_search s f.whitelist_regex)
      && (is_nil f.blacklist || not (contains s f.blacklist))
      && (p.regex_is_empty f.blacklist_regex || not (p.regex_search s f.blacklist_regex))
      && (p.double_eq f.fraction_of_nodes p.one || ltb (p.hasher (s, salt)) f.fraction_cutoff)

  unfoldable pub does_string_pass : JobFilters D R → String → String → Bool
  does_string_pass f salt s = f.is_empty_ || tests f salt s

  unfoldable pub does_pass : JobFilters D R → String → NodeFields → Bool
  does_pass f salt n =
      does_string_pass f salt n.name
      && (is_nil f.tag_whitelist || has_tags n f.tag_whitelist)
      && call f.cb n

  unfoldable pub filters_eq : JobFilters D R → JobFilters D R → Bool
  filters_eq f g =
      if f.is_empty_ && g.is_empty_
      then true
      else set_eq f.whitelist g.whitelist
        && p.regex_eq f.whitelist_regex g.whitelist_regex
        && set_eq f.blacklist g.blacklist
        && p.regex_eq f.blacklist_regex g.blacklist_regex
        && vector_eq f.tag_whitelist g.tag_whitelist
        && p.double_eq f.fraction_of_nodes g.fraction_of_nodes
        && has_no_cb f.cb
        && has_no_cb g.cb

  abbrev pub items_of : List String → Items
  items_of [] = Items.nil
  items_of (s ∷ strings) = Items.item (Dynamic.string s) (items_of strings)

  -- ret[key] = v, under a condition.
  abbrev pub put : Bool → String → Dynamic → Fields → Fields
  put b key v fs = if b then set_key key v fs else fs

  unfoldable pub to_dynamic : JobFilters D R → Dynamic
  to_dynamic f =
      if f.is_empty_
      then Dynamic.object Fields.end
      else Dynamic.object (
          put (p.double_lt f.fraction_of_nodes p.one) "fraction_of_nodes"
            (p.of_double f.fraction_of_nodes)
            (put (not (is_nil f.tag_whitelist)) "tag_whitelist"
              (Dynamic.array (items_of f.tag_whitelist))
              (put (not (p.regex_is_empty f.blacklist_regex)) "blacklist_regex"
                (Dynamic.string (p.regex_str f.blacklist_regex))
                (put (not (is_nil f.blacklist)) "blacklist" (Dynamic.array (items_of f.blacklist)) (
                  put (not (p.regex_is_empty f.whitelist_regex)) "whitelist_regex"
                    (Dynamic.string (p.regex_str f.whitelist_regex))
                    (put (not (is_nil f.whitelist)) "whitelist"
                      (Dynamic.array (items_of f.whitelist)) Fields.end))))))
