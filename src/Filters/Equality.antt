-- ===== src/Filters/Equality.antt =====
-- Filters that compare equal pass the same nodes.
use bistro.Base.{
  String, Bool, true, ◌&&◌, ◌≡◌, refl, sym, ◌∙◌, Option, none, some, List, [], ◌∷◌, contains,
  is_nil, ok, same, string_eq, inl, inr, Bool-cases, arith,
}
use bistro.Base.Dynamic.{Dynamic}
use bistro.Scheduling.{NodeFields}
use bistro.Filters.{
  Platform, JobFilters, has_no_cb, call, is_subset, set_eq, vector_eq, is_non_trivially_empty,
  make_filters, tests, does_pass, filters_eq,
}
use bistro.Filters.Flags.{IsFlagged, make_filters-IsFlagged, tests_node, does_pass-eq-tests_node}

contains-is_subset :
    (s : String) (a b : List String)
    → is_subset a b ≡ true
    → contains s a ≡ true
    → contains s b ≡ true
contains-is_subset s [] b h k = cc
contains-is_subset s (x ∷ xs) b h k = elim (Bool-cases (same x s)) [
  | inl t ↦ ground (arith, (string_eq.beq_iff x s).0 t)
  | inr t ↦ contains-is_subset s xs b (ground arith) (ground arith)
]

contains-set_eq : (s : String) (a b : List String) → set_eq a b ≡ true → contains s a ≡ contains s b
contains-set_eq s a b h = ground (arith, contains-is_subset s a b, contains-is_subset s b a)

is_nil-set_eq : (a b : List String) → set_eq a b ≡ true → is_nil a ≡ is_nil b
is_nil-set_eq [] [] h = refl
is_nil-set_eq [] (y ∷ ys) h = absurd (ground arith)
is_nil-set_eq (x ∷ xs) [] h = absurd (ground arith)
is_nil-set_eq (x ∷ xs) (y ∷ ys) h = refl

vector_eq-eq : (a b : List String) → vector_eq a b ≡ true → a ≡ b
vector_eq-eq [] [] h = refl
vector_eq-eq [] (y ∷ ys) h = cc
vector_eq-eq (x ∷ xs) [] h = cc
vector_eq-eq (x ∷ xs) (y ∷ ys) h =
    let tails = vector_eq-eq xs ys (ground arith) in
    let heads = (string_eq.beq_iff x y).0 (ground arith) in cc

-- Numbers and expressions that compare equal behave alike.
pub record IsLawful {D R : Type 0} (p : Platform D R) : Type 0 where
  pub double_alike : (a b : D) → p.double_eq a b ≡ true → p.double_eq a p.one ≡ p.double_eq b p.one
  pub cutoff_alike : (a b : D) → p.double_eq a b ≡ true → p.cutoff_of a ≡ p.cutoff_of b
  pub empty_alike : (r q : R) → p.regex_eq r q ≡ true → p.regex_is_empty r ≡ p.regex_is_empty q
  pub search_alike :
      (r q : R) (s : String) → p.regex_eq r q ≡ true → p.regex_search s r ≡ p.regex_search s q

module _ {D R : Type 0} (p : Platform D R) where
  empty-tests_node :
      (f : JobFilters D R) (salt : String) (n : NodeFields)
      → is_non_trivially_empty p f ≡ true
      → tests_node p f salt n ≡ true
  unfolding tests_node tests is_non_trivially_empty
  empty-tests_node f salt n h = ground arith

  no_cb-call :
      (cb : Option (NodeFields → Bool)) (n : NodeFields) → has_no_cb cb ≡ true → call cb n ≡ true
  no_cb-call none n h = refl
  no_cb-call (some cb) n h = cc

  -- The comparison of all fields.
  abbrev fields_eq : JobFilters D R → JobFilters D R → Bool
  fields_eq f g =
      set_eq f.whitelist g.whitelist
      && p.regex_eq f.whitelist_regex g.whitelist_regex
      && set_eq f.blacklist g.blacklist
      && p.regex_eq f.blacklist_regex g.blacklist_regex
      && vector_eq f.tag_whitelist g.tag_whitelist
      && p.double_eq f.fraction_of_nodes g.fraction_of_nodes
      && has_no_cb f.cb
      && has_no_cb g.cb

  tests_node-fields_eq :
      (f g : JobFilters D R) (salt : String) (n : NodeFields)
      → IsLawful p
      → IsFlagged p f
      → IsFlagged p g
      → fields_eq f g ≡ true
      → tests_node p f salt n ≡ tests_node p g salt n
  unfolding tests_node tests
  tests_node-fields_eq f g salt n laws hf hg h =
      let white : set_eq f.whitelist g.whitelist ≡ true = ground arith in
      let white_regex : p.regex_eq f.whitelist_regex g.whitelist_regex ≡ true = ground arith in
      let black : set_eq f.blacklist g.blacklist ≡ true = ground arith in
      let black_regex : p.regex_eq f.blacklist_regex g.blacklist_regex ≡ true = ground arith in
      let tags : vector_eq f.tag_whitelist g.tag_whitelist ≡ true = ground arith in
      let fraction : p.double_eq f.fraction_of_nodes g.fraction_of_nodes ≡ true = ground arith in
      let no_cb : has_no_cb f.cb ≡ true = ground arith in
      let no_cb' : has_no_cb g.cb ≡ true = ground arith in
      rw
        (
          is_nil-set_eq f.whitelist g.whitelist white,
          contains-set_eq n.name f.whitelist g.whitelist white,
          is_nil-set_eq f.blacklist g.blacklist black,
          contains-set_eq n.name f.blacklist g.blacklist black,
          laws.empty_alike _ _ white_regex,
          laws.search_alike _ _ n.name white_regex,
          laws.empty_alike _ _ black_regex,
          laws.search_alike _ _ n.name black_regex,
          vector_eq-eq f.tag_whitelist g.tag_whitelist tags,
          laws.double_alike _ _ fraction,
          hf.is_cutoff,
          hg.is_cutoff,
          laws.cutoff_alike _ _ fraction,
          no_cb-call f.cb n no_cb,
          no_cb-call g.cb n no_cb',
        )
        refl

  -- Filters that the constructor made, and that compare equal, pass the same nodes, if numbers and
  -- expressions that compare equal behave alike.
  pub does_pass-filters_eq :
      IsLawful p
      → (d e : Dynamic) (cb cb' : Option (NodeFields → Bool)) {f g : JobFilters D R} (salt : String)
        (n : NodeFields)
      → make_filters p d cb ≡ ok f
      → make_filters p e cb' ≡ ok g
      → filters_eq p f g ≡ true
      → does_pass p f salt n ≡ does_pass p g salt n
  unfolding filters_eq
  does_pass-filters_eq laws d e cb cb' {f = f} {g = g} salt n hf hg h =
      let ff = make_filters-IsFlagged p d cb hf in
      let gg = make_filters-IsFlagged p e cb' hg in
      does_pass-eq-tests_node p d cb salt n hf
      ∙ elim (Bool-cases (f.is_empty_ && g.is_empty_)) [
        | inl t ↦
            empty-tests_node f salt n (sym ff.is_flag ∙ ground arith)
            ∙ sym (empty-tests_node g salt n (sym gg.is_flag ∙ ground arith))
        | inr t ↦ tests_node-fields_eq f g salt n laws ff gg (rw (t) at h)
      ]
      ∙ sym (does_pass-eq-tests_node p e cb' salt n hg)
