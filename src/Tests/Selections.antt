-- ===== src/Tests/Selections.antt =====
-- Job filters with percentages for fractions, and texts to equal for regular expressions.
use bistro.Base.{
  ℕ, ◌≡◌, ◌*◌, ◌==◌, String, Bool, true, false, Option, none, some, [], ◌∷◌, Outcome, ok, throw,
  same, string_eq, ltb, refl, ==_iff, ap,
}
use bistro.Base.Int.{pos}
use bistro.Base.Dynamic.{Dynamic, Items, Fields, get_ptr}
use bistro.Scheduling.{NodeFields}
use bistro.Filters.{
  Platform, JobFilters, make_filters, strings_at, as_strings, regex_at, fraction_at,
  usable_fraction, flagged, is_non_trivially_empty, does_pass, filters_eq,
}
use bistro.Filters.Flags.{tests_node, does_pass-eq-tests_node}
use bistro.Filters.Equality.{IsLawful, does_pass-filters_eq}

abbrev pub as_text : Dynamic → Outcome String
as_text (Dynamic.string s) = ok s
as_text _ = throw "TypeError"

abbrev pub as_percentage : Dynamic → Outcome ℕ
as_percentage (Dynamic.int (pos n)) = ok n
as_percentage _ = throw "TypeError"

abbrev pub is_none : Option String → Bool
is_none none = true
is_none (some s) = false

abbrev pub pattern_of : Option String → String
pattern_of none = ""
pattern_of (some s) = s

abbrev pub same_pattern : Option String → Option String → Bool
same_pattern none none = true
same_pattern (some s) (some t) = same s t
same_pattern _ _ = false

abbrev pub percentages : Platform ℕ (Option String)
percentages = record {
  as_string = as_text;
  as_double = as_percentage;
  of_double = λ d. Dynamic.int (pos d);
  one = 100;
  is_nonpositive = λ d. d == 0;
  double_eq = λ a b. a == b;
  double_lt = ltb;
  cutoff_of = λ d. d * 1000;
  no_regex = none;
  regex_of = λ s. ok (some s);
  regex_is_empty = is_none;
  regex_str = pattern_of;
  regex_eq = same_pattern;
  regex_search = λ s r. same s (pattern_of r);
  hasher = λ p. 70000;
}

same_pattern-eq : (r q : Option String) → same_pattern r q ≡ true → r ≡ q
same_pattern-eq none none h = refl
same_pattern-eq none (some t) h = cc
same_pattern-eq (some s) none h = cc
same_pattern-eq (some s) (some t) h = ap some ((string_eq.beq_iff s t).0 h)

percentages-IsLawful : IsLawful percentages
percentages-IsLawful = record {
  double_alike = λ a b h. ap (λ d. d == 100) ((==_iff a b).0 h);
  cutoff_alike = λ a b h. ap (λ d. d * 1000) ((==_iff a b).0 h);
  empty_alike = λ r q h. ap is_none (same_pattern-eq r q h);
  search_alike = λ r q s h. ap (λ x. same s (pattern_of x)) (same_pattern-eq r q h);
}

abbrev whitelist_of : String → String → Dynamic
whitelist_of a b = Dynamic.object (
    Fields.field "whitelist"
      (Dynamic.array (Items.item (Dynamic.string a) (Items.item (Dynamic.string b) Items.nil)))
      (Fields.field "fraction_of_nodes" (Dynamic.int (pos 60)) Fields.end))

abbrev pub filters_of : String → String → JobFilters ℕ (Option String)
filters_of a b = record {
  whitelist = a ∷ b ∷ [];
  whitelist_regex = none;
  blacklist = [];
  blacklist_regex = none;
  tag_whitelist = [];
  fraction_of_nodes = 60;
  fraction_cutoff = 60000;
  is_empty_ = false;
  cb = none;
}

abbrev west : NodeFields
west = record { name = "west"; level = 1; enabled = true; tags = "fast" ∷ []; offset = 0 }

made : make_filters percentages (whitelist_of "west" "east") none ≡ ok (filters_of "west" "east")
unfolding make_filters strings_at as_strings regex_at fraction_at usable_fraction flagged
    is_non_trivially_empty get_ptr
made = refl

made_swapped :
    make_filters percentages (whitelist_of "east" "west") none ≡ ok (filters_of "east" "west")
unfolding make_filters strings_at as_strings regex_at fraction_at usable_fraction flagged
    is_non_trivially_empty get_ptr
made_swapped = refl

does_pass-eq-tests_node_example :
    does_pass percentages (filters_of "west" "east") "job" west
    ≡ tests_node percentages (filters_of "west" "east") "job" west
does_pass-eq-tests_node_example =
    does_pass-eq-tests_node percentages (whitelist_of "west" "east") none
      {f = filters_of "west" "east"} "job" west made

-- The order of a whitelist does not matter.
does_pass-filters_eq_example :
    does_pass percentages (filters_of "west" "east") "job" west
    ≡ does_pass percentages (filters_of "east" "west") "job" west
unfolding filters_eq
does_pass-filters_eq_example =
    does_pass-filters_eq percentages percentages-IsLawful (whitelist_of "west" "east")
      (whitelist_of "east" "west") none none {f = filters_of "west" "east"}
      {g = filters_of "east" "west"} "job" west made made_swapped refl
