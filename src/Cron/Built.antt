-- ===== src/Cron/Built.antt =====
-- What the constructor of a selector checks.
use bistro.Base.{
  true, false, not, ◌||◌, ◌≡◌, ◌⊎◌, inl, inr, refl, sym, subst, Option, List, [], ◌∷◌, String,
  contains, same, Bool-cases, Outcome, ok, ◌>>=◌, >>=-eq-ok, ok-injective, arith,
}
use text.Mathlib.Text.{◌==◌ as str_eq}
use bistro.Base.Int.{ℤ, pos, ◌≤ℤ◌, ◌-ℤ◌, ltb_ℤ, int_eq, -ℤ_parts}
use bistro.Base.Dynamic.{Dynamic, Items, Fields}
use bistro.Cron.{
  CrontabSelector, insert_value, sort_values, value_of, parse_value, parse_values, parse_field,
  parse_fields, all_values, make_selector,
}
use bistro.Cron.Matches.{Sorted}
use bistro.Cron.First.{contains-cases, contains_head, contains_tail}

contains-insert_value :
    (x v : ℤ) (ws : List ℤ)
    → contains x (insert_value v ws) ≡ true
    → (v ≡ x) ⊎ (contains x ws ≡ true)
unfolding insert_value
contains-insert_value x v [] m = contains-cases x v [] m
contains-insert_value x v (w ∷ ws) m = elim (Bool-cases (ltb_ℤ w v)) [
  | inr t ↦ contains-cases x v (w ∷ ws) (rw (t) at m)
  | inl t ↦ elim (contains-cases x w (insert_value v ws) (rw (t) at m)) [
    | inl e ↦ inr (subst (λ y. contains y (w ∷ ws) ≡ true) e (contains_head w ws))
    | inr k ↦ elim (contains-insert_value x v ws k) [
      | inl e ↦ inl e
      | inr l ↦ inr (contains_tail x w ws l)
    ]
  ]
]

insert_value-Sorted : (v : ℤ) (ws : List ℤ) → Sorted ws → Sorted (insert_value v ws)
unfolding insert_value Sorted
insert_value-Sorted v [] d = (λ w m. cc, tt)
insert_value-Sorted v (w ∷ ws) (d, ds) = elim (Bool-cases (ltb_ℤ w v)) [
  | inl t ↦ rw (t) (
    λ x m. elim (contains-insert_value x v ws m) [
      | inl e ↦ subst (λ y. w ≤ℤ y) e (ground arith)
      | inr k ↦ d x k
    ],
    insert_value-Sorted v ws ds,
  )
  | inr t ↦ rw (t) (
    λ x m. elim (contains-cases x w ws m) [
      | inl e ↦ subst (λ y. v ≤ℤ y) e (ground arith)
      | inr k ↦ let le = d x k in ground (arith, t, le)
    ],
    (d, ds),
  )
]

sort_values-Sorted : (vs : List ℤ) → Sorted (sort_values vs)
unfolding sort_values Sorted
sort_values-Sorted [] = tt
sort_values-Sorted (v ∷ vs) = insert_value-Sorted v (sort_values vs) (sort_values-Sorted vs)

contains-sort_values :
    (x : ℤ) (vs : List ℤ) → contains x (sort_values vs) ≡ true → contains x vs ≡ true
unfolding sort_values
contains-sort_values x [] m = m
contains-sort_values x (v ∷ vs) m = elim (contains-insert_value x v (sort_values vs) m) [
  | inl e ↦ subst (λ y. contains y (v ∷ vs) ≡ true) e (contains_head v vs)
  | inr k ↦ contains_tail x v vs (contains-sort_values x vs k)
]

false-true : (false ≡ true) → ⊥
false-true h = cc

module _ (as_int : Dynamic → Outcome ℤ) (str_to_value : Option (String → Outcome ℤ))
    (min_val max_val : ℤ) where
  abbrev InRange : ℤ → Type 0
  InRange x = (min_val ≤ℤ x) × (x ≤ℤ max_val)

  parse_value-InRange :
      (d : Dynamic) {v : ℤ} → parse_value as_int str_to_value min_val max_val d ≡ ok v → InRange v
  unfolding parse_value
  parse_value-InRange d {v} e =
      let (res, got, k) = >>=-eq-ok (value_of as_int str_to_value min_val max_val d) _ e in
      elim (Bool-cases (ltb_ℤ res min_val || ltb_ℤ max_val res)) [
        | inl t ↦ absurd (ground (arith, rw (t) at k))
        | inr t ↦ subst InRange (ok-injective (rw (t) at k)) (ground (arith, t), ground (arith, t))
      ]

  parse_values-InRange :
      (ds : Items) {vs : List ℤ}
      → parse_values as_int str_to_value min_val max_val ds ≡ ok vs
      → (x : ℤ) → contains x vs ≡ true
      → InRange x
  unfolding parse_values
  parse_values-InRange Items.nil {vs} e x m =
      absurd (false-true (subst (λ l. contains x l ≡ true) (sym (ok-injective e)) m))
  parse_values-InRange (Items.item d ds) {vs} e x m =
      let (v, got, e1) = >>=-eq-ok (parse_value as_int str_to_value min_val max_val d) _ e in
      let (rest, others, end) =
        >>=-eq-ok (parse_values as_int str_to_value min_val max_val ds) _ e1 in
      elim (contains-cases x v rest (subst (λ l. contains x l ≡ true) (sym (ok-injective end)) m)) [
        | inl same ↦ subst InRange same (parse_value-InRange d got)
        | inr k ↦ parse_values-InRange ds others x k
      ]

  -- A selector of the permissible values.
  pub record IsBuilt (s : CrontabSelector) : Type 0 where
    pub has_min : s.min_val ≡ min_val
    pub has_max : s.max_val ≡ max_val
    pub is_sorted : Sorted s.sorted_values
    pub is_permitted : (x : ℤ) → contains x s.sorted_values ≡ true → InRange x
    pub starts : InRange s.start
    pub ends : InRange s.end_
    pub is_periodic : (pos 1 ≤ℤ s.period) × (s.period ≤ℤ max_val)

  module _ (nonneg : pos 0 ≤ℤ min_val) (positive : pos 1 ≤ℤ max_val)
      (ordered : min_val ≤ℤ max_val) where
    all_values-IsBuilt : IsBuilt (all_values as_int str_to_value min_val max_val)
    unfolding all_values Sorted
    all_values-IsBuilt = record {
      has_min = refl;
      has_max = refl;
      is_sorted = tt;
      is_permitted = λ x m. cc;
      starts = (omega arith, ordered);
      ends = (ordered, omega arith);
      is_periodic = (omega arith, positive);
    }

    list-IsBuilt :
        (vs : List ℤ)
        → Sorted vs
        → ((x : ℤ) → contains x vs ≡ true → InRange x)
        → IsBuilt (record (all_values as_int str_to_value min_val max_val) { sorted_values = vs })
    unfolding all_values
    list-IsBuilt vs sorted permitted = record {
      has_min = refl;
      has_max = refl;
      is_sorted = sorted;
      is_permitted = permitted;
      starts = (omega arith, ordered);
      ends = (ordered, omega arith);
      is_periodic = (omega arith, positive);
    }

    single-IsBuilt :
        (d : Dynamic) {s : CrontabSelector}
        → (parse_value as_int str_to_value min_val max_val d >>= λ v.
            ok (record (all_values as_int str_to_value min_val max_val) { sorted_values = v ∷ [] }))
          ≡ ok s
        → IsBuilt s
    unfolding Sorted
    single-IsBuilt d e =
        let (v, got, end) = >>=-eq-ok (parse_value as_int str_to_value min_val max_val d) _ e in
        subst IsBuilt (ok-injective end) (
          list-IsBuilt (v ∷ []) (λ w m. cc, tt)
            (λ x m. elim (contains-cases x v [] m) [
              | inl same ↦ subst InRange same (parse_value-InRange d got)
              | inr k ↦ cc
            ]))

    parse_field-IsBuilt :
        (key : String) (d : Dynamic) (s : CrontabSelector) {s' : CrontabSelector}
        → IsBuilt s
        → parse_field as_int str_to_value min_val max_val key d s ≡ ok s'
        → IsBuilt s'
    unfolding parse_field
    parse_field-IsBuilt key d s h e = elim (Bool-cases (str_eq key "period")) [
      | inl t ↦
          let (period, got, k) = >>=-eq-ok (as_int d) _ (rw (t) at e) in
          elim (Bool-cases (ltb_ℤ period (pos 1) || not (ltb_ℤ period (max_val -ℤ min_val)))) [
            | inl q ↦ absurd (ground (arith, rw (q) at k))
            | inr q ↦ subst IsBuilt (ok-injective (rw (q) at k)) (record {
              has_min = h.has_min;
              has_max = h.has_max;
              is_sorted = h.is_sorted;
              is_permitted = h.is_permitted;
              starts = h.starts;
              ends = h.ends;
              is_periodic =
                  (ground (arith, q), ground (arith, q, -ℤ_parts max_val min_val, nonneg));
            })
          ]
      | inr t ↦
          let (val, got, k) =
            >>=-eq-ok (parse_value as_int str_to_value min_val max_val d) _ (rw (t) at e) in
          let range = parse_value-InRange d got in
          elim (Bool-cases (str_eq key "start")) [
            | inl q ↦ subst IsBuilt (ok-injective (rw (q) at k)) (record {
              has_min = h.has_min;
              has_max = h.has_max;
              is_sorted = h.is_sorted;
              is_permitted = h.is_permitted;
              starts = range;
              ends = h.ends;
              is_periodic = h.is_periodic;
            })
            | inr q ↦ elim (Bool-cases (str_eq key "end")) [
              | inl r ↦ subst IsBuilt (ok-injective (rw (r) at (rw (q) at k))) (record {
                has_min = h.has_min;
                has_max = h.has_max;
                is_sorted = h.is_sorted;
                is_permitted = h.is_permitted;
                starts = h.starts;
                ends = range;
                is_periodic = h.is_periodic;
              })
              | inr r ↦ absurd (ground (arith, rw (r) at (rw (q) at k)))
            ]
          ]
    ]

    parse_fields-IsBuilt :
        (fields : Fields) (s : CrontabSelector) {s' : CrontabSelector}
        → IsBuilt s
        → parse_fields as_int str_to_value min_val max_val fields s ≡ ok s'
        → IsBuilt s'
    unfolding parse_fields
    parse_fields-IsBuilt Fields.end s h e = subst IsBuilt (ok-injective e) h
    parse_fields-IsBuilt (Fields.field key d fields) s h e =
        let (mid, first, rest) =
          >>=-eq-ok (parse_field as_int str_to_value min_val max_val key d s) _ e in
        parse_fields-IsBuilt fields mid (parse_field-IsBuilt key d s h first) rest

    pub make_selector-IsBuilt :
        (d : Dynamic) {s : CrontabSelector}
        → make_selector as_int str_to_value min_val max_val d ≡ ok s
        → IsBuilt s
    unfolding make_selector
    make_selector-IsBuilt (Dynamic.int n) e = single-IsBuilt (Dynamic.int n) e
    make_selector-IsBuilt (Dynamic.string t) e = single-IsBuilt (Dynamic.string t) e
    make_selector-IsBuilt (Dynamic.array ds) e =
        let (vs, got, end) = >>=-eq-ok (parse_values as_int str_to_value min_val max_val ds) _ e in
        subst IsBuilt (ok-injective end) (
          list-IsBuilt (sort_values vs) (sort_values-Sorted vs)
            (λ x m. parse_values-InRange ds got x (contains-sort_values x vs m)))
    make_selector-IsBuilt (Dynamic.object fields) e =
        parse_fields-IsBuilt fields (all_values as_int str_to_value min_val max_val)
          all_values-IsBuilt e
    make_selector-IsBuilt Dynamic.null e = cc
    make_selector-IsBuilt (Dynamic.bool b) e = cc
    make_selector-IsBuilt (Dynamic.double t) e = cc
