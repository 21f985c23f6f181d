-- ===== src/WorkerSet/Versions.antt =====
-- Versions grow by increments and wrap around, and are compared through their difference.
use bistro.Base.{
  ℕ, ◌+◌, ◌-◌, ◌%◌, ◌<◌, ◌≡◌, Bool, true, false, ok, fatal, arith, ltb, if◌then◌else◌, Outcome, ap,
  ◌∙◌,
}
use bistro.Base.Word.{two_63, two_64}
use bistro.WorkerSet.{sub_64, earlier}

-- The comparison as a function of the distance from the first version to the second.
order : ℕ → Outcome Bool
order d =
    if ltb d 1
    then ok false
    else if ltb d two_63
    then ok true
    else if ltb two_63 d
    then ok false
    else fatal

earlier-eq-order : (a b : ℕ) → a < two_64 → b < two_64 → earlier a b ≡ order (sub_64 b a)
unfolding earlier order
earlier-eq-order a b ha hb = ground arith

order-true : (d : ℕ) → 0 < d → d < two_63 → order d ≡ ok true
unfolding order
order-true d p q = ground arith

order-false : (d : ℕ) → two_63 < d → order d ≡ ok false
unfolding order
order-false d p = ground arith

order-pos : (d : ℕ) → order d ≡ ok true → 0 < d
unfolding order
order-pos d h = ground arith

-- A version is earlier than one that is less than 2^63 increments ahead, also where the counter has
-- wrapped around in between, and the later one is not earlier than it.
pub earlier-add :
    (a k : ℕ)
    → a < two_64
    → 0 < k
    → k < two_63
    → (earlier a ((a + k) % two_64) ≡ ok true) × (earlier ((a + k) % two_64) a ≡ ok false)
earlier-add a k h p q =
    let b = (a + k) % two_64 in
    let ahead : sub_64 b a ≡ k = omega arith in
    let behind : sub_64 a b ≡ two_64 - k = omega arith in
    (
      earlier-eq-order a b h (omega arith) ∙ ap order ahead ∙ order-true k p q,
      earlier-eq-order b a (omega arith) h ∙ ap order behind ∙ order-false _ (omega arith),
    )
