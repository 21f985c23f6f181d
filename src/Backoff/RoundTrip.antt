-- ===== src/Backoff/RoundTrip.antt =====
-- Printing settings and reading them back.
use bistro.Base.{
  Bool, true, false, some, List, [], ◌∷◌, ◌++◌, ◌<◌, ◌≡◌, ◌≢◌, refl, ◌∙◌, ap, arith, ok, inl, inr,
  Option-cases, if◌then◌else◌,
}
use mathlib.Core.List.{append_assoc, append-nil}
use bistro.Base.Int.{ℤ, pos, negsuc, pos_part}
use bistro.Base.Word.{two_31, to_i32, to_i32-pos}
use bistro.Base.Dynamic.{Dynamic, Items}
use bistro.Backoff.{
  JobBackoffSettings, back, accept_value, finish, parse_items, parse, items_of, to_dynamic,
}
use bistro.Backoff.Parse.{◌<ℤ◌, IsIncreasing, IsValid}

-- Each value fits a C++ int.
abbrev pub FitInt : List ℤ → Type 0
FitInt [] = Unit
FitInt (v ∷ vs) = (pos_part v < two_31) × FitInt vs

IsIncreasing-split :
    (lo : ℤ) (acc : List ℤ) (v : ℤ) (vs : List ℤ)
    → IsIncreasing lo (acc ++ v ∷ vs)
    → ◌<ℤ◌ lo v × ((b : ℤ) → back acc ≡ some b → ◌<ℤ◌ b v)
IsIncreasing-split lo [] v vs h = (h.0, λ b e. cc)
IsIncreasing-split lo (w ∷ []) v vs h = (omega arith, λ b e. ground arith)
IsIncreasing-split lo (w ∷ u ∷ acc) v vs h =
    let (lt, last) = IsIncreasing-split w (u ∷ acc) v vs h.1 in (omega arith, last)

to_i32_of_positive : (v : ℤ) → ◌<ℤ◌ (pos 0) v → pos_part v < two_31 → to_i32 v ≡ v
to_i32_of_positive (pos n) p h = to_i32-pos n h
to_i32_of_positive (negsuc n) p h = absurd (omega arith)

accept_value_ok :
    (acc : List ℤ) (v : ℤ)
    → ◌<ℤ◌ (pos 0) v
    → ((b : ℤ) → back acc ≡ some b → ◌<ℤ◌ b v)
    → accept_value acc v ≡ ok tt
unfolding accept_value
accept_value_ok acc v p last = elim (Option-cases (back acc)) [
  | inl e ↦ ground arith
  | inr (b, e) ↦ ground (arith, last b)
]

parse_items-items_of :
    (acc vs : List ℤ) (tail : Items)
    → IsIncreasing (pos 0) (acc ++ vs)
    → FitInt vs
    → parse_items acc (items_of vs tail) ≡ parse_items (acc ++ vs) tail
unfolding parse_items items_of
parse_items-items_of acc [] tail h f = rw (append-nil acc)
parse_items-items_of acc (v ∷ vs) tail h f =
    let (above, last) = IsIncreasing-split (pos 0) acc v vs h in
    let rest : parse_items (acc ++ v ∷ []) (items_of vs tail) ≡ parse_items (acc ++ v ∷ vs) tail =
      parse_items-items_of (acc ++ v ∷ []) vs tail (rw append_assoc h) f.1
      ∙ ap (λ l. parse_items l tail) (append_assoc acc (v ∷ []) vs) in
    rw (to_i32_of_positive v above f.0, accept_value_ok acc v above last) rest

finish_last :
    (vs : List ℤ) (r : Bool)
    → (r ≡ true → vs ≢ [])
    → finish vs (if r then "repeat" else "fail") ≡ ok (record { values = vs; repeat = r })
unfolding finish
finish_last [] true h = absurd (h refl refl)
finish_last (v ∷ vs) true h = refl
finish_last [] false h = refl
finish_last (v ∷ vs) false h = refl

parse_nonempty :
    (vs : List ℤ) (d : Dynamic) (ds : Items)
    → parse (Dynamic.array (items_of vs (Items.item d ds)))
      ≡ parse_items [] (items_of vs (Items.item d ds))
unfolding parse items_of
parse_nonempty [] d ds = refl
parse_nonempty (v ∷ vs) d ds = refl

-- Settings that hold the constructor's checks, and whose waits fit an int, are read back unchanged
-- from what toDynamic prints.
pub parse-to_dynamic :
    (s : JobBackoffSettings) → IsValid s → FitInt s.values → parse (to_dynamic s) ≡ ok s
unfolding to_dynamic parse_items
parse-to_dynamic s v f =
    parse_nonempty s.values _ _
    ∙ parse_items-items_of [] s.values _ v.increasing f
    ∙ finish_last s.values s.repeat v.repeats_some
