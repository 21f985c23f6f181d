-- ===== src/Backoff/Parse.antt =====
-- What the constructor of JobBackoffSettings accepts.
use bistro.Base.{
  String, true, some, List, [], ◌∷◌, ◌++◌, ◌<◌, ◌+◌, ◌≡◌, ◌≢◌, refl, sym, ◌∙◌, subst, ok-injective,
  arith, ok, >>=-eq-ok,
}
use bistro.Base.Int.{ℤ, pos, pos_part, neg_part}
use bistro.Base.Word.{to_i32}
use bistro.Base.Dynamic.{Dynamic, Items}
use bistro.Backoff.{JobBackoffSettings, back, accept_value, finish, parse_items, parse}

abbrev pub ◌<ℤ◌ : ℤ → ℤ → Type 0
◌<ℤ◌ a b = pos_part a + neg_part b < pos_part b + neg_part a

-- The values grow strictly from above `lo`.
abbrev pub IsIncreasing : ℤ → List ℤ → Type 0
IsIncreasing lo [] = Unit
IsIncreasing lo (v ∷ vs) = ◌<ℤ◌ lo v × IsIncreasing v vs

pub record IsValid (s : JobBackoffSettings) : Type 0 where
  pub increasing : IsIncreasing (pos 0) s.values
  pub repeats_some : s.repeat ≡ true → s.values ≢ []

-- A value above the last one may be pushed.
IsIncreasing-push :
    (lo : ℤ) (vs : List ℤ) (v : ℤ)
    → IsIncreasing lo vs
    → (vs ≡ [] → ◌<ℤ◌ lo v)
    → ((b : ℤ) → back vs ≡ some b → ◌<ℤ◌ b v)
    → IsIncreasing lo (vs ++ v ∷ [])
IsIncreasing-push lo [] v h first last = (first refl, tt)
IsIncreasing-push lo (w ∷ []) v h first last = (h.0, (last w refl, tt))
IsIncreasing-push lo (w ∷ u ∷ vs) v h first last =
    (h.0, IsIncreasing-push w (u ∷ vs) v h.1 (λ e. cc) last)

accept_value-above :
    (vs : List ℤ) (v : ℤ)
    → accept_value vs v ≡ ok tt
    → (◌<ℤ◌ (pos 0) v) × ((b : ℤ) → back vs ≡ some b → ◌<ℤ◌ b v)
unfolding accept_value
accept_value-above vs v h = (ground arith, λ b e. ground arith)

finish-IsValid :
    (vs : List ℤ) (s : String) {t : JobBackoffSettings}
    → IsIncreasing (pos 0) vs
    → finish vs s ≡ ok t
    → IsValid t
unfolding finish
finish-IsValid vs s {t} g h = record {
  increasing = subst (IsIncreasing (pos 0)) (sym values_same) g;
  repeats_some = λ r e. nonempty r (sym values_same ∙ e);
}
  where
    values_same : t.values ≡ vs
    values_same = ground arith

    nonempty : t.repeat ≡ true → vs ≢ []
    nonempty r e = ground arith

parse_items-IsValid :
    (vs : List ℤ) (items : Items) {t : JobBackoffSettings}
    → IsIncreasing (pos 0) vs
    → parse_items vs items ≡ ok t
    → IsValid t
unfolding parse_items
parse_items-IsValid vs Items.nil g h = record {
  increasing = subst (λ (u : JobBackoffSettings). IsIncreasing (pos 0) u.values) (ok-injective h) g;
  repeats_some = λ r e. ground arith;
}
parse_items-IsValid vs (Items.item (Dynamic.int n) rest) g h =
    let (u, accepted, h') = >>=-eq-ok (accept_value vs (to_i32 n)) _ h in
    let (positive, last) = accept_value-above vs (to_i32 n) accepted in
    parse_items-IsValid (vs ++ to_i32 n ∷ []) rest
      (IsIncreasing-push (pos 0) vs (to_i32 n) g (λ _. positive) last) h'
parse_items-IsValid vs (Items.item (Dynamic.string s) rest) g h = finish-IsValid vs s g h
parse_items-IsValid vs (Items.item _ rest) g h = cc

-- Settings that the constructor accepts hold positive waits, each longer than the one before, and
-- at least one where they end in "repeat".
pub parse-IsValid : (d : Dynamic) {s : JobBackoffSettings} → parse d ≡ ok s → IsValid s
unfolding parse
parse-IsValid (Dynamic.array Items.nil) h = cc
parse-IsValid (Dynamic.array (Items.item d ds)) h = parse_items-IsValid [] (Items.item d ds) tt h
parse-IsValid _ h = cc
