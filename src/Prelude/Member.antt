-- ===== src/Prelude/Member.antt =====
-- Membership in a list, and what the tests, prefixes and filters of `Lists` keep of it.
use Prim.Native.Nat.{ℕ, zero, suc, ◌≤◌, ◌<◌}
use mathlib.Core.Path.{◌≡◌, refl, sym, subst, ◌∙◌, ap}
use mathlib.Core.Logic.{inl, inr}
use mathlib.Core.Bool.{Bool, true, false}
use mathlib.Core.List.{List, [], ◌∷◌, ◌++◌, map, Memᴰ}
use mathlib.Core.List.Memᴰ.{head, tail}
use native.Mathlib.Omega.{arith}
use oxide_outbox.Prelude.Tests.{◌==◌, Bool-cases}
use oxide_outbox.Prelude.Lists.{length, keep, take, All, contains}

module _ {ℓ} {A : Type ℓ} where
  pub In-keep : (p : A → Bool) (a : A) (xs : List A) → Memᴰ a xs → p a ≡ true → Memᴰ a (keep p xs)
  In-keep p a [] i h = elim i [ ]
  In-keep p a (x ∷ xs) (head e) h = rw (ap p (sym e) ∙ h) (head e)
  In-keep p a (x ∷ xs) (tail i) h = elim (Bool-cases (p x)) [
    | inl t ↦ rw t (tail (In-keep p a xs i h))
    | inr f ↦ rw f (In-keep p a xs i h)
  ]

  -- What a filter holds passes its test, and stood in the list.
  in_tail :
      (p : A → Bool) (a x : A) (xs ys : List A)
      → p x ≡ true
      → (Memᴰ a ys → Memᴰ a xs × (p a ≡ true))
      → Memᴰ a (x ∷ ys)
      → Memᴰ a (x ∷ xs) × (p a ≡ true)
  in_tail p a x xs ys t f (head e) = (head e, ap p e ∙ t)
  in_tail p a x xs ys t f (tail i) = (tail (f i).0, (f i).1)

  pub In_of_keep :
      (p : A → Bool) (a : A) (xs : List A) → Memᴰ a (keep p xs) → Memᴰ a xs × (p a ≡ true)
  In_of_keep p a [] i = elim i [ ]
  In_of_keep p a (x ∷ xs) i = elim (Bool-cases (p x)) [
    | inl t ↦ in_tail p a x xs (keep p xs) t (In_of_keep p a xs) (rw t at i)
    | inr f ↦ let (j, h) = In_of_keep p a xs (rw f at i) in (tail j, h)
  ]

  pub In_of_take : (n : ℕ) (a : A) (xs : List A) → Memᴰ a (take n xs) → Memᴰ a xs
  In_of_take zero a xs i = elim i [ ]
  In_of_take (suc n) a [] i = elim i [ ]
  In_of_take (suc n) a (x ∷ xs) (head e) = head e
  In_of_take (suc n) a (x ∷ xs) (tail i) = tail (In_of_take n a xs i)

  -- A prefix with room for the whole list holds all of it.
  pub In-take : (n : ℕ) (a : A) (xs : List A) → length xs ≤ n → Memᴰ a xs → Memᴰ a (take n xs)
  In-take n a [] h i = elim i [ ]
  In-take zero a (x ∷ xs) h i = absurd (omega arith)
  In-take (suc n) a (x ∷ xs) h (head p) = head p
  In-take (suc n) a (x ∷ xs) h (tail i) = tail (In-take n a xs (omega arith) i)

  pub All-of_In {κ} : (P : A → Type κ) (xs : List A) → ((a : A) → Memᴰ a xs → P a) → All P xs
  All-of_In P [] h = tt
  All-of_In P (x ∷ xs) h = (h x (head refl), All-of_In P xs (λ a i. h a (tail i)))

  pub In-of_All {κ} : (P : A → Type κ) (xs : List A) → All P xs → (a : A) → Memᴰ a xs → P a
  In-of_All P [] h a i = elim i [ ]
  In-of_All P (x ∷ xs) h a (head e) = subst P (sym e) h.0
  In-of_All P (x ∷ xs) h a (tail i) = In-of_All P xs h.1 a i

  -- A filter is no longer than a weaker one, and shorter where an element tells them apart.
  pub length-keep_mono :
      (q p : A → Bool)
      → ((a : A) → q a ≡ true → p a ≡ true)
      → (xs : List A) → length (keep q xs) ≤ length (keep p xs)
  length-keep_mono q p h [] = omega arith
  length-keep_mono q p h (x ∷ xs) = ground (arith, h x, length-keep_mono q p h xs)

  pub length-keep_strict :
      (q p : A → Bool)
      → ((a : A) → q a ≡ true → p a ≡ true)
      → (a : A) (xs : List A) → Memᴰ a xs
      → p a ≡ true
      → q a ≡ false
      → length (keep q xs) < length (keep p xs)
  length-keep_strict q p h a [] i pa qa = elim i [ ]
  length-keep_strict q p h a (x ∷ xs) (head e) pa qa =
      rw (ap p (sym e) ∙ pa, ap q (sym e) ∙ qa) (omega (arith, length-keep_mono q p h xs))
  length-keep_strict q p h a (x ∷ xs) (tail i) pa qa =
      ground (arith, h x, length-keep_strict q p h a xs i pa qa)

ne_of_contains :
    (ids : List ℕ) (k j : ℕ) → contains ids k ≡ false → contains ids j ≡ true → (j == k) ≡ false
ne_of_contains ids k j h t = ground arith

-- A positive answer of `contains` comes from an element.
pub contains-map {ℓ} :
    {A : Type ℓ} (f : A → ℕ) (k : ℕ) (xs : List A)
    → contains (map f xs) k ≡ true
    → (a : A) × Memᴰ a xs × (f a ≡ k)
contains-map f k [] h = cc
contains-map f k (x ∷ xs) h = elim (Bool-cases (f x == k)) [
  | inl t ↦ (x, head refl, ground arith)
  | inr n ↦ let (a, i, e) = contains-map f k xs (ground arith) in (a, tail i, e)
]

pub contains_of_In {ℓ} :
    {A : Type ℓ} (f : A → ℕ) (a : A) (xs : List A) → Memᴰ a xs → contains (map f xs) (f a) ≡ true
contains_of_In f a [] i = elim i [ ]
contains_of_In f a (x ∷ xs) (head e) = rw (ap f (sym e)) (ground arith)
contains_of_In f a (x ∷ xs) (tail i) = ground (arith, contains_of_In f a xs i)

module _ {ℓ κ} {A : Type ℓ} {B : Type κ} where
  pub In-map : (f : A → B) (a : A) (xs : List A) → Memᴰ a xs → Memᴰ (f a) (map f xs)
  In-map f a [] i = elim i [ ]
  In-map f a (x ∷ xs) (head p) = head (ap f p)
  In-map f a (x ∷ xs) (tail i) = tail (In-map f a xs i)

  pub In_of_map :
      (f : A → B) (b : B) (xs : List A) → Memᴰ b (map f xs) → (a : A) × Memᴰ a xs × (b ≡ f a)
  In_of_map f b [] i = elim i [ ]
  In_of_map f b (x ∷ xs) (head p) = (x, head refl, p)
  In_of_map f b (x ∷ xs) (tail i) = let (a, j, q) = In_of_map f b xs i in (a, tail j, q)

-- An identifier that a filtered list of rows shows passed the filter's test.
pub contains-hits {ℓ} :
    {A : Type ℓ} (f : A → ℕ) (ids : List ℕ) (k : ℕ) (xs : List A)
    → contains ids k ≡ false
    → contains (map f (keep (λ x. contains ids (f x)) xs)) k ≡ false
contains-hits f ids k [] h = refl
contains-hits f ids k (x ∷ xs) h = elim (Bool-cases (contains ids (f x))) [
  | inl t ↦ rw t (ground (arith, contains-hits f ids k xs, ne_of_contains ids k (f x) h t))
  | inr n ↦ rw n (contains-hits f ids k xs h)
]

module _ {ℓ} {A : Type ℓ} where
  pub In-append-left : (a : A) (xs ys : List A) → Memᴰ a xs → Memᴰ a (xs ++ ys)
  In-append-left a [] ys i = elim i [ ]
  In-append-left a (x ∷ xs) ys (head e) = head e
  In-append-left a (x ∷ xs) ys (tail i) = tail (In-append-left a xs ys i)

  pub In-append-right : (a : A) (xs ys : List A) → Memᴰ a ys → Memᴰ a (xs ++ ys)
  In-append-right a [] ys i = i
  In-append-right a (x ∷ xs) ys i = tail (In-append-right a xs ys i)
