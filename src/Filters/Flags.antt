-- ===== src/Filters/Flags.antt =====
-- The flag for empty filters only saves work.
use bistro.Base.{
  subst, String, Bool, ◌&&◌, ◌||◌, ◌≡◌, refl, Option, is_nil, ok, >>=-eq-ok, ok-injective,
  string_eq, arith,
}
use bistro.Base.Dynamic.{Dynamic}
use bistro.Scheduling.{NodeFields}
use bistro.Filters.{
  Platform, JobFilters, call, has_tags, is_non_trivially_empty, flagged, make_filters, strings_at,
  regex_at, fraction_at, tests, does_string_pass, does_pass,
}

module _ {D R : Type 0} (p : Platform D R) where
  pub record IsFlagged (f : JobFilters D R) : Type 0 where
    pub is_flag : f.is_empty_ ≡ is_non_trivially_empty p f
    pub is_cutoff : f.fraction_cutoff ≡ p.cutoff_of f.fraction_of_nodes

  pub make_filters-IsFlagged :
      (d : Dynamic) (cb : Option (NodeFields → Bool)) {f : JobFilters D R}
      → make_filters p d cb ≡ ok f
      → IsFlagged f
  unfolding make_filters flagged is_non_trivially_empty
  make_filters-IsFlagged (Dynamic.object fs) cb h =
      let (whitelist, e1, k1) = >>=-eq-ok (strings_at p "whitelist" fs) _ h in
      let (whitelist_regex, e2, k2) = >>=-eq-ok (regex_at p "whitelist_regex" fs) _ k1 in
      let (blacklist, e3, k3) = >>=-eq-ok (strings_at p "blacklist" fs) _ k2 in
      let (blacklist_regex, e4, k4) = >>=-eq-ok (regex_at p "blacklist_regex" fs) _ k3 in
      let (tag_whitelist, e5, k5) = >>=-eq-ok (strings_at p "tag_whitelist" fs) _ k4 in
      let (fraction, e6, k6) = >>=-eq-ok (fraction_at p fs) _ k5 in
      subst IsFlagged (ok-injective k6) (record { is_flag = refl; is_cutoff = refl })
  make_filters-IsFlagged Dynamic.null cb h = cc
  make_filters-IsFlagged (Dynamic.bool b) cb h = cc
  make_filters-IsFlagged (Dynamic.int z) cb h = cc
  make_filters-IsFlagged (Dynamic.double x) cb h = cc
  make_filters-IsFlagged (Dynamic.string s) cb h = cc
  make_filters-IsFlagged (Dynamic.array items) cb h = cc

  does_string_pass-IsFlagged :
      (f : JobFilters D R) (salt s : String)
      → IsFlagged f
      → does_string_pass p f salt s ≡ tests p f salt s
  unfolding does_string_pass tests is_non_trivially_empty
  does_string_pass-IsFlagged f salt s h = ground (arith, h.is_flag)

  -- The tests of a node by filters without the flag.
  unfoldable pub tests_node : JobFilters D R → String → NodeFields → Bool
  tests_node f salt n =
      tests p f salt n.name && (is_nil f.tag_whitelist || has_tags n f.tag_whitelist) && call f.cb n

  -- Filters that the constructor made pass a node exactly if it passes each of their tests, whether
  -- or not they are flagged as empty.
  pub does_pass-eq-tests_node :
      (d : Dynamic) (cb : Option (NodeFields → Bool)) {f : JobFilters D R} (salt : String)
      (n : NodeFields)
      → make_filters p d cb ≡ ok f
      → does_pass p f salt n ≡ tests_node f salt n
  unfolding does_pass tests_node
  does_pass-eq-tests_node d cb {f = f} salt n h =
      rw (does_string_pass-IsFlagged f salt n.name (make_filters-IsFlagged d cb h)) refl
