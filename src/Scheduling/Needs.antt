-- ===== src/Scheduling/Needs.antt =====
-- What holds of the needs of jobs, as the policies reorder and erase them.
use bistro.Base.{
  ℕ, zero, suc, Bool, ◌≡◌, subst, List, [], ◌∷◌, ok, ok-injective, Bool-cases, inl, inr, arith,
  or_fatal, get_elem?, set,
}
use bistro.Scheduling.{JobWithNodes, Packed}
use bistro.Scheduling.Policies.{erase_at, insert_by, sort_by}

-- What holds of the needs of each job of a list.
unfoldable pub AllNeeds : (Packed → Type 0) → List JobWithNodes → Type 0
AllNeeds Good [] = Unit
AllNeeds Good (j ∷ js) = Good j.resources × AllNeeds Good js

pub AllNeeds-Unit : (js : List JobWithNodes) → AllNeeds (λ _. Unit) js
unfolding AllNeeds
AllNeeds-Unit [] = tt
AllNeeds-Unit (j ∷ js) = (tt, AllNeeds-Unit js)

module _ (Good : Packed → Type 0) where
  insert_by-AllNeeds :
      (before : JobWithNodes → JobWithNodes → Bool) (j : JobWithNodes) (js : List JobWithNodes)
      → Good j.resources
      → AllNeeds Good js
      → AllNeeds Good (insert_by before j js)
  unfolding AllNeeds insert_by
  insert_by-AllNeeds before j [] h a = (h, tt)
  insert_by-AllNeeds before j (k ∷ ks) h a =
      let rest = insert_by-AllNeeds before j ks h a.1 in
      elim (Bool-cases (before k j)) [ inl t ↦ rw (t) (a.0, rest) | inr t ↦ rw (t) (h, a) ]

  pub sort_by-AllNeeds :
      (before : JobWithNodes → JobWithNodes → Bool) (js : List JobWithNodes)
      → AllNeeds Good js
      → AllNeeds Good (sort_by before js)
  unfolding AllNeeds sort_by
  sort_by-AllNeeds before [] a = tt
  sort_by-AllNeeds before (j ∷ js) a =
      insert_by-AllNeeds before j (sort_by before js) a.0 (sort_by-AllNeeds before js a.1)

  pub erase_at-AllNeeds :
      (i : ℕ) (js : List JobWithNodes) → AllNeeds Good js → AllNeeds Good (erase_at i js)
  unfolding AllNeeds erase_at
  erase_at-AllNeeds i [] a = a
  erase_at-AllNeeds zero (j ∷ js) a = a.1
  erase_at-AllNeeds (suc i) (j ∷ js) a = (a.0, erase_at-AllNeeds i js a.1)

  pub set-AllNeeds :
      (js : List JobWithNodes) (i : ℕ) (j : JobWithNodes)
      → Good j.resources
      → AllNeeds Good js
      → AllNeeds Good (set js i j)
  unfolding AllNeeds
  set-AllNeeds [] i j h a = a
  set-AllNeeds (k ∷ ks) zero j h a = (h, a.1)
  set-AllNeeds (k ∷ ks) (suc i) j h a = (a.0, set-AllNeeds ks i j h a.1)

  pub get_elem?-AllNeeds :
      (js : List JobWithNodes) (i : ℕ) (j : JobWithNodes)
      → AllNeeds Good js
      → or_fatal (get_elem? js i) ≡ ok j
      → Good j.resources
  unfolding AllNeeds
  get_elem?-AllNeeds [] i j a e = absurd (ground arith)
  get_elem?-AllNeeds (k ∷ ks) zero j a e = subst (λ x. Good x.resources) (ok-injective e) a.0
  get_elem?-AllNeeds (k ∷ ks) (suc i) j a e = get_elem?-AllNeeds ks i j a.1 e
