-- ===== src/Postgres/Fetch.antt =====
-- What `fetch_next_to_process` in outbox-postgres/src/lib.rs claims.
pub mod Sorting
pub mod Selection
pub mod Claims
pub mod Exclusive
pub mod Backlog
use mathlib.Core.List.Memᴰ.{head, tail}
use oxide_outbox.Prelude.{
  ℕ, zero, suc, ◌+◌, ◌≤◌, Bool, true, false, ◌||◌, ◌≡◌, refl, sym, ◌∙◌, ap, inl, inr, List, [], ◌∷◌,
  map, Memᴰ, All, keep, length, contains, arith, ◌==◌, contains_of_In,
}
use oxide_outbox.Model.{Event}
use oxide_outbox.Postgres.Sql.{uuid_of}

-- The primary key of `outbox_events`: no two rows have one `id`.
abbrev pub Keyed : {P : Type 0} → List (Event P) → Type 0
Keyed [] = Unit
Keyed (e ∷ es) = (contains (map uuid_of es) (uuid_of e) ≡ false) × Keyed es

module _ {P : Type 0} where
  -- How many rows have an identifier of the list.
  abbrev pub hits : List ℕ → List (Event P) → List (Event P)
  hits ids rows = keep (λ e. contains ids (uuid_of e)) rows

  length-absent :
      (k : ℕ) (rows : List (Event P))
      → contains (map uuid_of rows) k ≡ false
      → length (keep (λ (e : Event P). k == uuid_of e) rows) ≡ 0
  length-absent k [] h = refl
  length-absent k (e ∷ es) h = ground (arith, length-absent k es)

  length-one :
      (k : ℕ) (rows : List (Event P))
      → Keyed rows
      → length (keep (λ (e : Event P). k == uuid_of e) rows) ≤ 1
  length-one k [] h = omega arith
  length-one k (e ∷ es) h = ground (arith, length-one k es h.1, length-absent k es)

  length-either :
      (p q : Event P → Bool) (rows : List (Event P))
      → length (keep (λ e. p e || q e) rows) ≤ length (keep p rows) + length (keep q rows)
  length-either p q [] = omega arith
  length-either p q (e ∷ es) = ground (arith, length-either p q es)

  -- Under the primary key a list of identifiers hits no more rows than it has entries.
  pub length-hits :
      (ids : List ℕ) (rows : List (Event P)) → Keyed rows → length (hits ids rows) ≤ length ids
  length-hits [] [] h = omega arith
  length-hits [] (e ∷ es) h = length-hits [] es h.1
  length-hits (k ∷ ids) rows h = omega (
    arith,
    length-either (λ (e : Event P). k == uuid_of e) (λ e. contains ids (uuid_of e)) rows,
    length-one k rows h,
    length-hits ids rows h,
  )

  -- Under the primary key rows with one `id` are one row.
  pub Keyed-unique :
      (rows : List (Event P)) (a b : Event P)
      → Keyed rows
      → Memᴰ a rows
      → Memᴰ b rows
      → uuid_of a ≡ uuid_of b
      → a ≡ b
  Keyed-unique [] a b h i j q = elim i [ ]
  Keyed-unique (e ∷ es) a b h (head p) (head r) q = p ∙ sym r
  Keyed-unique (e ∷ es) a b h (head p) (tail j) q =
      absurd (ground (arith, ap uuid_of p, contains_of_In uuid_of b es j))
  Keyed-unique (e ∷ es) a b h (tail i) (head r) q =
      absurd (ground (arith, ap uuid_of r, contains_of_In uuid_of a es i))
  Keyed-unique (e ∷ es) a b h (tail i) (tail j) q = Keyed-unique es a b h.1 i j q
