-- ===== src/Selection/Rotation.antt =====
-- A round through a pool: from the cursor on to the end, and then from the beginning.
use mathlib.Core.List.{append_assoc}
use bistro.Base.{
  suc, String, true, false, ◌||◌, ◌≡◌, refl, sym, ap, ◌∙◌, subst, List, [], ◌∷◌, ◌++◌, contains,
  same, same_refl, string_eq, length, length-append, if◌then◌else◌, inl, inr, Bool-cases, arith,
}
use bistro.Pools.{successor}

-- The shards from one on, and those before it.
unfoldable pub from : String → List String → List String
from shard [] = []
from shard (s ∷ shards) = if same s shard then s ∷ shards else from shard shards

unfoldable pub before : String → List String → List String
before shard [] = []
before shard (s ∷ shards) = if same s shard then [] else s ∷ before shard shards

unfoldable pub rotation : String → List String → List String
unfolding from before
rotation shard shards = from shard shards ++ before shard shards

unfoldable pub Distinct : List String → Type 0
Distinct [] = Unit
Distinct (s ∷ shards) = (contains s shards ≡ false) × Distinct shards

contains-append :
    (s : String) (xs ys : List String) → contains s (xs ++ ys) ≡ (contains s xs || contains s ys)
contains-append s [] ys = refl
contains-append s (x ∷ xs) ys = ground (arith, contains-append s xs ys)

contains_middle : (s : String) (xs ys : List String) → contains s (xs ++ (s ∷ ys)) ≡ true
contains_middle s xs ys = ground (arith, contains-append s xs (s ∷ ys), same_refl s)

-- What stands later is another shard.
Distinct-apart :
    (a b : String) (xs ys : List String)
    → Distinct (xs ++ (b ∷ ys))
    → contains a xs ≡ true
    → same b a ≡ false
unfolding Distinct
Distinct-apart a b [] ys d h = cc
Distinct-apart a b (x ∷ xs) ys (n, d) h = elim (Bool-cases (same x a)) [
  | inl t ↦ ground (
    arith,
    string_eq.beq_iff x a,
    string_eq.beq_iff b a,
    string_eq.beq_iff b x,
    contains-append x xs (b ∷ ys),
  )
  | inr t ↦ Distinct-apart a b xs ys d (ground arith)
]

successor_next :
    (f a b : String) (xs ys : List String)
    → Distinct (xs ++ (a ∷ b ∷ ys))
    → successor f a (xs ++ (a ∷ b ∷ ys)) ≡ b
unfolding successor Distinct
successor_next f a b [] ys d = rw (same_refl a) refl
successor_next f a b (x ∷ []) ys (n, d) =
    ground (arith, same_refl a, string_eq.beq_iff x a, string_eq.beq_iff a x)
successor_next f a b (x ∷ y ∷ xs) ys (n, d) =
    let other : same x a ≡ false =
      ground (arith, string_eq.beq_iff x a, contains_middle a (y ∷ xs) (b ∷ ys)) in
    rw (other) (successor_next f a b (y ∷ xs) ys d)

successor_last :
    (f a : String) (xs : List String)
    → Distinct (xs ++ (a ∷ []))
    → successor f a (xs ++ (a ∷ [])) ≡ f
unfolding successor Distinct
successor_last f a [] d = refl
successor_last f a (x ∷ []) (n, d) =
    ground (arith, same_refl a, string_eq.beq_iff x a, string_eq.beq_iff a x)
successor_last f a (x ∷ y ∷ xs) (n, d) =
    let other : same x a ≡ false =
      ground (arith, string_eq.beq_iff x a, contains_middle a (y ∷ xs) []) in
    rw (other) (successor_last f a (y ∷ xs) d)

-- A list is what the cursor passes after shard `a`, until it is back at `first`.
module _ (f : String) (shards : List String) (first : String) where
  unfoldable pub Walk : String → List String → Type 0
  Walk a [] = successor f a shards ≡ first
  Walk a (b ∷ l) = (successor f a shards ≡ b) × (same b first ≡ false) × Walk b l

  Walk-wrapped :
      (xs l ys : List String) (a : String)
      → Distinct shards
      → shards ≡ xs ++ (a ∷ (l ++ (first ∷ ys)))
      → Walk a l
  unfolding Walk
  Walk-wrapped xs [] ys a d e = rw (e) (successor_next f a first xs ys (subst Distinct e d))
  Walk-wrapped xs (b ∷ l) ys a d e =
      let e' : shards ≡ (xs ++ (a ∷ [])) ++ (b ∷ (l ++ (first ∷ ys))) =
        e ∙ sym (append_assoc xs (a ∷ []) (b ∷ (l ++ (first ∷ ys)))) in
      let e'' : shards ≡ (xs ++ (a ∷ b ∷ l)) ++ (first ∷ ys) =
        e ∙ sym (append_assoc xs (a ∷ b ∷ l) (first ∷ ys)) in
      let apart =
        Distinct-apart b first (xs ++ (a ∷ b ∷ l)) ys (subst Distinct e'' d)
          (ground (arith, contains-append b xs (a ∷ b ∷ l), same_refl b)) in
      (
        rw (e) (successor_next f a b xs (l ++ (first ∷ ys)) (subst Distinct e d)),
        ground (arith, string_eq.beq_iff b first, string_eq.beq_iff first b),
        Walk-wrapped (xs ++ (a ∷ [])) l ys b d e',
      )

  successor_end :
      (xs : List String) (a : String)
      → Distinct shards
      → shards ≡ xs ++ (a ∷ [])
      → successor f a shards ≡ f
  successor_end xs a d e = rw (e) (successor_last f a xs (subst Distinct e d))

  -- From a shard on to the last, and from the head `f` on to the one before `first`.
  Walk-onward :
      (xs l pre post rest : List String) (a : String)
      → Distinct shards
      → shards ≡ f ∷ rest
      → shards ≡ pre ++ (first ∷ post)
      → shards ≡ xs ++ (a ∷ l)
      → contains first (xs ++ (a ∷ [])) ≡ true
      → Walk a (l ++ pre)
  unfolding Walk
  Walk-onward xs [] [] post rest a d head e e' c = successor_end xs a d e' ∙ cc
  Walk-onward xs [] (y ∷ pre) post rest a d head e e' c =
      let first_is_head : f ≡ y = cc in
      let apart =
        Distinct-apart y first (y ∷ pre) post (subst Distinct e d) (ground (arith, same_refl y)) in
      (
        successor_end xs a d e' ∙ first_is_head,
        ground (arith, string_eq.beq_iff y first, string_eq.beq_iff first y),
        Walk-wrapped [] pre post y d e,
      )
  Walk-onward xs (b ∷ l) pre post rest a d head e e' c =
      let e'' : shards ≡ (xs ++ (a ∷ [])) ++ (b ∷ l) =
        e' ∙ sym (append_assoc xs (a ∷ []) (b ∷ l)) in
      (
        rw (e') (successor_next f a b xs l (subst Distinct e' d)),
        Distinct-apart first b (xs ++ (a ∷ [])) l (subst Distinct e'' d) c,
        Walk-onward (xs ++ (a ∷ [])) l pre post rest b d head e e''
            (ground (arith, contains-append first (xs ++ (a ∷ [])) (b ∷ []))),
      )

-- The shards before one, and the rest.
before-from :
    (s : String) (shards : List String)
    → contains s shards ≡ true
    → (rest : List String) × (from s shards ≡ s ∷ rest) × (shards ≡ before s shards ++ (s ∷ rest))
unfolding from before
before-from s [] h = cc
before-from s (x ∷ shards) h = elim (Bool-cases (same x s)) [
  | inl t ↦
      let e = (string_eq.beq_iff x s).0 t in
      (shards, rw (t) (ap (λ y. y ∷ shards) e), rw (t) (ap (λ y. y ∷ shards) e))
  | inr t ↦
      let (rest, e, e') = before-from s shards (rw (t) at h) in
      (rest, rw (t) e, rw (t) (ap (λ ys. x ∷ ys) e'))
]

-- A rotation starts with its shard, is walked by the cursor, and is as long as the pool.
pub rotation-Walk :
    (f first : String) (rest : List String)
    → Distinct (f ∷ rest)
    → contains first (f ∷ rest) ≡ true
    → (l : List String) × (rotation first (f ∷ rest) ≡ first ∷ l)
      × Walk f (f ∷ rest) first first l
      × (length (f ∷ rest) ≡ suc (length l))
unfolding rotation
rotation-Walk f first rest d c =
    let (post, e, e') = before-from first (f ∷ rest) c in
    let pre = before first (f ∷ rest) in
    (
      post ++ pre,
      rw (e) refl,
      Walk-onward f (f ∷ rest) first pre post pre post rest first d refl e' e'
          (contains_middle first pre []),
      ap length e' ∙ omega (arith, length-append pre (first ∷ post), length-append post pre),
    )

pub contains-rotation :
    (s first : String) (shards : List String)
    → contains first shards ≡ true
    → contains s (rotation first shards) ≡ contains s shards
unfolding rotation
contains-rotation s first shards h =
    let (post, e, e') = before-from first shards h in
    let pre = before first shards in
    rw (e) (
      contains-append s (first ∷ post) pre
      ∙ ground (arith, contains-append s pre (first ∷ post))
      ∙ ap (contains s) (sym e'))
