-- ===== src/Base/Maps.antt =====
-- Equality as an interface, and a std::unordered_map as an association list, whose order stands for
-- the unspecified order of iteration.
use Prim.Native.Nat.{ℕ}
use Prim.Native.String.{String}
use mathlib.Core.Path.{◌≡◌, refl}
use mathlib.Core.Logic.{◌↔◌, ◌≢◌, inl, inr}
use mathlib.Core.Bool.{Bool, true, false, ◌&&◌}
use mathlib.Core.Option.{Option, none, some}
use mathlib.Core.List.{List, [], ◌∷◌}
use native.Mathlib.Omega.{arith}
use text.Mathlib.Text.{◌==◌ as str_eq}
use text.Mathlib.TextEquality.{eq_iff}
use bistro.Base.Tests.{◌==◌ as nat_beq, ==_iff, if◌then◌else◌, Bool-cases}

pub record Eq {ℓ} (A : Type ℓ) : Type ℓ where
  pub beq : A → A → Bool
  pub beq_iff : (a b : A) → (beq a b ≡ true) ↔ (a ≡ b)

abbrev pub same {ℓ} : {A : Type ℓ} ⦃e : Eq A⦄ → A → A → Bool
same ⦃e⦄ = e.beq

pub same_refl {ℓ} : {A : Type ℓ} ⦃e : Eq A⦄ (a : A) → same a a ≡ true
same_refl ⦃e⦄ a = (e.beq_iff a a).1 refl

pub same_ne {ℓ} : {A : Type ℓ} ⦃e : Eq A⦄ (a b : A) → a ≢ b → same a b ≡ false
same_ne ⦃e⦄ a b ne = elim (Bool-cases (e.beq a b)) [
  | inl t ↦ absurd (ne ((e.beq_iff a b).0 t))
  | inr t ↦ t
]

instance abbrev pub string_eq : Eq String
string_eq = record { beq = str_eq; beq_iff = eq_iff }

module _ {ℓ κ} {A : Type ℓ} {B : Type κ} ⦃e : Eq A⦄ ⦃f : Eq B⦄ where
  abbrev pub pair_beq : A × B → A × B → Bool
  pair_beq (a, b) (c, d) = e.beq a c && f.beq b d

  pub pair_beq_iff : (p q : A × B) → (pair_beq p q ≡ true) ↔ (p ≡ q)
  pair_beq_iff (a, b) (c, d) = ground (arith, e.beq_iff a c, f.beq_iff b d)

instance abbrev pub pair_eq {ℓ κ} : {A : Type ℓ} {B : Type κ} ⦃e : Eq A⦄ ⦃f : Eq B⦄ → Eq (A × B)
pair_eq = record { beq = pair_beq; beq_iff = pair_beq_iff }

instance abbrev pub nat_eq : Eq ℕ
nat_eq = record { beq = nat_beq; beq_iff = ==_iff }

-- The membership test of a set that is kept as a list.
abbrev pub contains {ℓ} : {A : Type ℓ} ⦃e : Eq A⦄ → A → List A → Bool
contains a [] = false
contains a (b ∷ set) = if same b a then true else contains a set

abbrev pub AssocMap {ℓ κ} : Type ℓ → Type κ → Type (ℓ ⊔ κ)
AssocMap K V = List (K × V)

module _ {ℓ κ} {K : Type ℓ} {V : Type κ} ⦃e : Eq K⦄ where
  unfoldable pub find : K → AssocMap K V → Option V
  find k [] = none
  find k ((j, v) ∷ m) = if same j k then some v else find k m

  -- Adds the entry of a key that is known to be absent.
  abbrev pub insert_new : K → V → AssocMap K V → AssocMap K V
  insert_new k v m = (k, v) ∷ m

  unfoldable pub erase : K → AssocMap K V → AssocMap K V
  erase k [] = []
  erase k ((j, v) ∷ m) = if same j k then erase k m else (j, v) ∷ erase k m

  -- m[k] = v
  unfoldable pub assign : K → V → AssocMap K V → AssocMap K V
  assign k v [] = (k, v) ∷ []
  assign k v ((j, w) ∷ m) = if same j k then (k, v) ∷ m else (j, w) ∷ assign k v m

  -- m.emplace(k, v): an entry that is there already stays.
  abbrev pub emplace : K → V → AssocMap K V → AssocMap K V
  emplace k v m = elim (find k m) [ none ↦ insert_new k v m | some _ ↦ m ]

  abbrev pub has : K → AssocMap K V → Bool
  has k m = elim (find k m) [ none ↦ false | some _ ↦ true ]

  pub find-insert_new :
      (k j : K) (v : V) (m : AssocMap K V)
      → find j (insert_new k v m) ≡ (if same k j then some v else find j m)
  unfolding find
  find-insert_new k j v m = refl

  pub find-erase :
      (k j : K) (m : AssocMap K V) → find j (erase k m) ≡ (if same k j then none else find j m)
  unfolding find erase
  find-erase k j [] = ground arith
  find-erase k j ((i, v) ∷ m) =
      ground (arith, e.beq_iff i k, e.beq_iff i j, e.beq_iff k j, find-erase k j m)

  pub find-assign :
      (k j : K) (v : V) (m : AssocMap K V)
      → find j (assign k v m) ≡ (if same k j then some v else find j m)
  unfolding find assign
  find-assign k j v [] = refl
  find-assign k j v ((i, w) ∷ m) =
      ground (arith, e.beq_iff i k, e.beq_iff i j, e.beq_iff k j, find-assign k j v m)

  pub find-emplace :
      (k j : K) (v : V) (m : AssocMap K V)
      → find j (emplace k v m)
        ≡ (if same k j then elim (find k m) [ none ↦ some v | some w ↦ some w ] else find j m)
  unfolding find
  find-emplace k j v m = ground (arith, find-insert_new k j v m, e.beq_iff k j)

pub ruleset map_laws = (find-insert_new, find-erase, find-assign)
