-- ===== src/Scheduling/Amounts.antt =====
-- What a task takes from the resources is what its job needs.
use bistro.Base.{
  ◌+◌, ◌++◌, or_throw, check, leb, length, >>-eq-ok, ℕ, suc, ◌≡◌, subst, ap, ◌∙◌, some, List, [],
  ◌∷◌, ok, arith, find, get_or, nat_eq, >>=-eq-ok, ok-injective, Option-cases, Bool-cases, inl, inr,
}
use mathlib.Core.Option.{some_inj}
use bistro.Base.Int.{ℤ, pos, neg_part, ltb_ℤ}
use bistro.Scheduling.{Packed, NodeFields, Update, collect_node, collect}

-- No job needs a negative amount.
unfoldable pub AllNonneg : List ℤ → Type 0
AllNonneg [] = Unit
AllNonneg (d ∷ ds) = (neg_part d ≡ 0) × AllNonneg ds

pub record IsNeeding (needs : Packed) : Type 0 where
  pub are_nonneg : (level : ℕ) (ds : List ℤ) → find level needs ≡ some ds → AllNonneg ds

unfoldable pub TakeNonneg : List Update → Type 0
TakeNonneg [] = Unit
TakeNonneg (u ∷ us) = (neg_part u.amount ≡ 0) × TakeNonneg us

TakeNonneg-append : (us vs : List Update) → TakeNonneg us → TakeNonneg vs → TakeNonneg (us ++ vs)
unfolding TakeNonneg
TakeNonneg-append [] vs a b = b
TakeNonneg-append (u ∷ us) vs a b = (a.0, TakeNonneg-append us vs a.1 b)

collect_node-TakeNonneg :
    (level index : ℕ) (ds amounts : List ℤ) (us : List Update)
    → AllNonneg ds
    → collect_node level index ds amounts ≡ some us
    → TakeNonneg us
unfolding collect_node AllNonneg TakeNonneg
collect_node-TakeNonneg level index [] amounts us a e = subst TakeNonneg (some_inj.0 e) tt
collect_node-TakeNonneg level index (d ∷ ds) amounts us a e =
    elim (Bool-cases (ltb_ℤ (get_or amounts index (pos 0)) d)) [
      | inl t ↦ absurd (ground (arith, rw (t) at e))
      | inr t ↦ elim (Option-cases (collect_node level (suc index) ds amounts)) [
        | inl n ↦ absurd (ground (arith, rw (t, n) at e))
        | inr (rest, n) ↦
            subst TakeNonneg (some_inj.0 (rw (t, n) at e))
              (a.0, collect_node-TakeNonneg level (suc index) ds amounts rest a.1 n)
      ]
    ]

pub collect-TakeNonneg :
    (ns : List NodeFields) (needs packed : Packed) (us : List Update)
    → IsNeeding needs
    → collect ns needs packed ≡ ok (some us)
    → TakeNonneg us
unfolding collect TakeNonneg
collect-TakeNonneg [] needs packed us h e = subst TakeNonneg (some_inj.0 (ok-injective e)) tt
collect-TakeNonneg (n ∷ ns) needs packed us h e =
    let (job, needed, e1) = >>=-eq-ok (or_throw (find n.level needs) "out_of_range") _ e in
    let (amounts, held, e2) = >>=-eq-ok (or_throw (find n.level packed) "out_of_range") _ e1 in
    let e3 = >>-eq-ok (check (leb (n.offset + length job) (length amounts))) _ e2 in
    elim (Option-cases (collect_node n.level n.offset job amounts)) [
      | inl none_fits ↦ absurd (ground (arith, rw (none_fits) at e3))
      | inr (first, fit) ↦
          let (rest, collected, e4) = >>=-eq-ok (collect ns needs packed) _ (rw (fit) at e3) in
          elim (Option-cases rest) [
            | inl r ↦ absurd (ground (arith, rw (r) at e4))
            | inr (others, r) ↦ subst TakeNonneg (some_inj.0 (ok-injective (rw (r) at e4))) (
                TakeNonneg-append first others
                  (collect_node-TakeNonneg n.level n.offset job amounts first
                    (h.are_nonneg n.level job (ground arith)) fit)
                  (collect-TakeNonneg ns needs packed others h (collected ∙ ap ok r)))
          ]
    ]
