-- ===== src/Snapshot/Rows.antt =====
-- Reads and writes of the rows.
use bistro.Base.{
  ℕ, zero, suc, ◌-◌, ◌<◌, ◌≡◌, refl, sym, ap, ◌∙◌, subst, List, [], ◌∷◌, ◌++◌, length, get_or, set,
  replicate, if◌then◌else◌, arith, Bool-cases, inl, inr, length-append, length-replicate,
  length-set, same, same_refl, ◌&&◌, nat_eq,
}
use bistro.Base.Int.{ℤ}
use bistro.Status.{TaskStatus}
use bistro.Snapshot.{
  StatusRow, TaskStatusSnapshot, empty_row, empty_status, reach, status_at, access, write,
}

module _ {ℓ} {A : Type ℓ} where
  get_or-replicate : (n i : ℕ) (d : A) → get_or (replicate n d) i d ≡ d
  get_or-replicate zero i d = refl
  get_or-replicate (suc n) zero d = refl
  get_or-replicate (suc n) (suc i) d = get_or-replicate n i d

  get_or-append : (xs : List A) (n i : ℕ) (d : A) → get_or (xs ++ replicate n d) i d ≡ get_or xs i d
  get_or-append [] n i d = get_or-replicate n i d
  get_or-append (x ∷ xs) n zero d = refl
  get_or-append (x ∷ xs) n (suc i) d = get_or-append xs n i d

  -- Growing a vector changes no entry.
  pub get_or-reach : (xs : List A) (i j : ℕ) (d : A) → get_or (reach xs i d) j d ≡ get_or xs j d
  unfolding reach
  get_or-reach xs i j d = ground (arith, get_or-append xs (suc i - length xs) j d)

  pub reach-long : (xs : List A) (i : ℕ) (d : A) → i < length (reach xs i d)
  unfolding reach
  reach-long xs i d = ground (
    arith,
    length-append xs (replicate (suc i - length xs) d),
    length-replicate (suc i - length xs) d,
  )

  pub get_or-set :
      (xs : List A) (i j : ℕ) (v d : A)
      → i < length xs
      → get_or (set xs i v) j d ≡ (if same i j then v else get_or xs j d)
  get_or-set [] i j v d h = absurd (omega arith)
  get_or-set (x ∷ xs) zero zero v d h = refl
  get_or-set (x ∷ xs) zero (suc j) v d h = ground arith
  get_or-set (x ∷ xs) (suc i) zero v d h = ground arith
  get_or-set (x ∷ xs) (suc i) (suc j) v d h = ground (arith, get_or-set xs i j v d)

-- Both vectors reach the status.
pub record IsAccessible (job node : ℕ) (t : TaskStatusSnapshot) : Type 0 where
  pub row : job < length t.rows
  pub status : node < length (get_or t.rows job empty_row).statuses

module _ (now : ℤ) (job node : ℕ) (t : TaskStatusSnapshot) where
  abbrev reached : List StatusRow
  reached = reach t.rows job empty_row

  abbrev reached_row : StatusRow
  reached_row = record (get_or reached job empty_row) {
    statuses = reach (get_or reached job empty_row).statuses node (empty_status now);
  }

  reached_eq :
      (j : ℕ)
      → get_or (set reached job reached_row) j empty_row
        ≡ (if same job j then reached_row else get_or reached j empty_row)
  reached_eq j = get_or-set reached job j reached_row empty_row (reach-long t.rows job empty_row)

  reached_self : get_or (set reached job reached_row) job empty_row ≡ reached_row
  reached_self = reached_eq job ∙ rw (same_refl job) refl

  pub access-IsAccessible : IsAccessible job node (access now job node t)
  unfolding access
  access-IsAccessible = record {
    row = omega (arith, length-set reached job reached_row, reach-long t.rows job empty_row);
    status =
        subst (λ r. node < length r.statuses) (sym reached_self)
          (reach-long (get_or reached job empty_row).statuses node (empty_status now));
  }

  -- access changes no status.
  pub status_at-access : (j n : ℕ) → status_at now j n (access now job node t) ≡ status_at now j n t
  unfolding access status_at
  status_at-access j n =
      let d = empty_status now in
      let read = ap (λ (r : StatusRow). get_or r.statuses n d) (reached_eq j) in
      elim (Bool-cases (same job j)) [
        | inr other ↦
            read
            ∙ rw (other) (
                ap (λ (r : StatusRow). get_or r.statuses n d) (get_or-reach t.rows job j empty_row))
        | inl here ↦
            read
            ∙ rw (here) (
                get_or-reach (get_or reached job empty_row).statuses node n d
                ∙ ap (λ (r : StatusRow). get_or r.statuses n d)
                    (get_or-reach t.rows job job empty_row)
                ∙ ap (λ i. get_or (get_or t.rows i empty_row).statuses n d)
                    ((nat_eq.beq_iff job j).0 here))
      ]

  pub status_at-write :
      (s : TaskStatus) (j n : ℕ)
      → IsAccessible job node t
      → status_at now j n (write now job node s t)
        ≡ (if same job j && same node n then s else status_at now j n t)
  unfolding write status_at
  status_at-write s j n h =
      let d = empty_status now in
      let row = get_or t.rows job empty_row in
      let row' : StatusRow = record row { statuses = set row.statuses node s } in
      let read =
        ap (λ (r : StatusRow). get_or r.statuses n d)
          (get_or-set t.rows job j row' empty_row h.row) in
      elim (Bool-cases (same job j)) [
        | inr other ↦ read ∙ rw (other) refl
        | inl here ↦
            read
            ∙ rw (here) (
                get_or-set row.statuses node n s d h.status
                ∙ ap
                    (λ i.
                      if same node n then s else get_or (get_or t.rows i empty_row).statuses n d)
                    ((nat_eq.beq_iff job j).0 here))
      ]
