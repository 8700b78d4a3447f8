-- ===== src/Postgres/Fetch/Sorting.antt =====
-- Sorting by `locked_until` and cutting off a prefix: `ORDER BY locked_until ASC LIMIT $1`.
use mathlib.Core.List.Memᴰ.{head, tail}
use oxide_outbox.Prelude.{
  ℕ, zero, suc, ◌≤◌, ◌≡◌, refl, ◌∙◌, ap, inl, inr, ◌⊎◌, List, [], ◌∷◌, Memᴰ, All, All-map, leb,
  take, length, arith, Bool-cases,
}
use oxide_outbox.Model.{Event}
use oxide_outbox.Postgres.Sql.{insert_by_lock, sort_by_lock}

module _ {P : Type 0} where
  In_of_insert :
      (a e : Event P) (xs : List (Event P)) → Memᴰ a (insert_by_lock e xs) → (a ≡ e) ⊎ Memᴰ a xs
  In_of_insert a e [] (head p) = inl p
  In_of_insert a e [] (tail i) = elim i [ ]
  In_of_insert a e (x ∷ xs) i = elim (Bool-cases (leb e.locked_until x.locked_until)) [
    | inl t ↦ front (rw t at i)
    | inr f ↦ behind (In_of_insert a e xs) (rw f at i)
  ]
    where
      front : Memᴰ a (e ∷ x ∷ xs) → (a ≡ e) ⊎ Memᴰ a (x ∷ xs)
      front (head p) = inl p
      front (tail j) = inr j

      behind :
          (Memᴰ a (insert_by_lock e xs) → (a ≡ e) ⊎ Memᴰ a xs)
          → Memᴰ a (x ∷ insert_by_lock e xs)
          → (a ≡ e) ⊎ Memᴰ a (x ∷ xs)
      behind ih (head p) = inr (head p)
      behind ih (tail j) = elim (ih j) [ inl p ↦ inl p | inr k ↦ inr (tail k) ]

  pub In_of_sort : (a : Event P) (xs : List (Event P)) → Memᴰ a (sort_by_lock xs) → Memᴰ a xs
  In_of_sort a [] i = elim i [ ]
  In_of_sort a (x ∷ xs) i = elim (In_of_insert a x (sort_by_lock xs) i) [
    | inl p ↦ head p
    | inr j ↦ tail (In_of_sort a xs j)
  ]

  In-insert :
      (a e : Event P) (xs : List (Event P)) → (a ≡ e) ⊎ Memᴰ a xs → Memᴰ a (insert_by_lock e xs)
  In-insert a e [] (inl p) = head p
  In-insert a e [] (inr i) = elim i [ ]
  In-insert a e (x ∷ xs) i = elim (Bool-cases (leb e.locked_until x.locked_until)) [
    | inl t ↦ rw t (front i)
    | inr f ↦ rw f (behind (In-insert a e xs) i)
  ]
    where
      front : (a ≡ e) ⊎ Memᴰ a (x ∷ xs) → Memᴰ a (e ∷ x ∷ xs)
      front (inl p) = head p
      front (inr j) = tail j

      behind :
          ((a ≡ e) ⊎ Memᴰ a xs → Memᴰ a (insert_by_lock e xs))
          → (a ≡ e) ⊎ Memᴰ a (x ∷ xs)
          → Memᴰ a (x ∷ insert_by_lock e xs)
      behind ih (inl p) = tail (ih (inl p))
      behind ih (inr (head p)) = head p
      behind ih (inr (tail j)) = tail (ih (inr j))

  pub In-sort : (a : Event P) (xs : List (Event P)) → Memᴰ a xs → Memᴰ a (sort_by_lock xs)
  In-sort a [] i = elim i [ ]
  In-sort a (x ∷ xs) (head p) = In-insert a x (sort_by_lock xs) (inl p)
  In-sort a (x ∷ xs) (tail i) = In-insert a x (sort_by_lock xs) (inr (In-sort a xs i))

  -- The sorted list rises, each row below all that follow it.
  abbrev pub Rises : List (Event P) → Type 0
  Rises [] = Unit
  Rises (x ∷ xs) = All (λ (y : Event P). x.locked_until ≤ y.locked_until) xs × Rises xs

  insert-above :
      (k : ℕ) (e : Event P) (xs : List (Event P))
      → k ≤ e.locked_until
      → All (λ (y : Event P). k ≤ y.locked_until) xs
      → All (λ (y : Event P). k ≤ y.locked_until) (insert_by_lock e xs)
  insert-above k e [] h a = (h, tt)
  insert-above k e (x ∷ xs) h a = ground (arith, insert-above k e xs h a.1)

  insert-Rises : (e : Event P) (xs : List (Event P)) → Rises xs → Rises (insert_by_lock e xs)
  insert-Rises e [] r = (tt, tt)
  insert-Rises e (x ∷ xs) r = elim (Bool-cases (leb e.locked_until x.locked_until)) [
    | inl t ↦
        let below : e.locked_until ≤ x.locked_until = ground arith in
        let all =
          All-map (λ (y : Event P). x.locked_until ≤ y.locked_until)
            (λ (y : Event P). e.locked_until ≤ y.locked_until) (λ y h. omega arith) xs r.0 in
        rw t ((below, all), r)
    | inr f ↦ rw f (insert-above x.locked_until e xs (ground arith) r.0, insert-Rises e xs r.1)
  ]

  pub sort-Rises : (xs : List (Event P)) → Rises (sort_by_lock xs)
  sort-Rises [] = tt
  sort-Rises (x ∷ xs) = insert-Rises x (sort_by_lock xs) (sort-Rises xs)

  -- Of a rising list a prefix holds the least.
  pub take-Rises :
      (n : ℕ) (xs : List (Event P)) (a b : Event P)
      → Rises xs
      → Memᴰ a (take n xs)
      → Memᴰ b xs
      → Memᴰ b (take n xs) ⊎ (a.locked_until ≤ b.locked_until)
  take-Rises zero xs a b r i j = elim i [ ]
  take-Rises (suc n) [] a b r i j = elim i [ ]
  take-Rises (suc n) (x ∷ xs) a b r i (head p) = inl (head p)
  take-Rises (suc n) (x ∷ xs) a b r (head p) (tail j) = inr (rw p (least xs j r.0))
    where
      least :
          (ys : List (Event P))
          → Memᴰ b ys
          → All (λ (y : Event P). x.locked_until ≤ y.locked_until) ys
          → x.locked_until ≤ b.locked_until
      least [] k h = elim k [ ]
      least (y ∷ ys) (head q) h = rw q h.0
      least (y ∷ ys) (tail k) h = least ys k h.1
  take-Rises (suc n) (x ∷ xs) a b r (tail i) (tail j) = elim (take-Rises n xs a b r.1 i j) [
    | inl k ↦ inl (tail k)
    | inr h ↦ inr h
  ]

  length-insert :
      (e : Event P) (xs : List (Event P)) → length (insert_by_lock e xs) ≡ suc (length xs)
  length-insert e [] = refl
  length-insert e (x ∷ xs) = ground (arith, length-insert e xs)

  pub length-sort : (xs : List (Event P)) → length (sort_by_lock xs) ≡ length xs
  length-sort [] = refl
  length-sort (x ∷ xs) = length-insert x (sort_by_lock xs) ∙ ap suc (length-sort xs)
