-- ===== src/Prelude/Lists.antt =====
-- Lists measured by native numbers; Python's tuples, sets and comprehensions over them.
use Prim.Native.Nat.{ℕ, zero, suc, ◌≤◌}
use mathlib.Core.Path.{◌≡◌, refl}
use mathlib.Core.Bool.{Bool, true, false, ◌&&◌, ◌||◌}
use mathlib.Core.List.{List, [], ◌∷◌, ◌++◌}
use native.Mathlib.Omega.{arith}
use gaussian_os.Prelude.Tests.{if◌then◌else◌, nat_beq}
use gaussian_os.Prelude.Equality.{Eq, ◌==◌}

module _ {ℓ} {A : Type ℓ} where
  abbrev pub length : List A → ℕ
  length [] = 0
  length (x ∷ xs) = suc (length xs)

  abbrev pub take : ℕ → List A → List A
  take zero xs = []
  take (suc n) [] = []
  take (suc n) (x ∷ xs) = x ∷ take n xs

  abbrev pub is_empty : List A → Bool
  is_empty [] = true
  is_empty (x ∷ xs) = false

  -- all(p(x) for x in xs)
  abbrev pub all : (A → Bool) → List A → Bool
  all p [] = true
  all p (x ∷ xs) = p x && all p xs

  -- any(p(x) for x in xs)
  abbrev pub any : (A → Bool) → List A → Bool
  any p [] = false
  any p (x ∷ xs) = p x || any p xs

  abbrev pub filter : (A → Bool) → List A → List A
  filter p [] = []
  filter p (x ∷ xs) = let rest = filter p xs in if p x then x ∷ rest else rest

  abbrev pub All {κ} : (A → Type κ) → List A → Type κ
  All P [] = Unit
  All P (x ∷ xs) = P x × All P xs

  pub length-take_le : (n : ℕ) (xs : List A) → length (take n xs) ≤ n
  length-take_le zero xs = omega arith
  length-take_le (suc n) [] = omega arith
  length-take_le (suc n) (x ∷ xs) = omega (arith, length-take_le n xs)

  pub append-eq_nil : (xs ys : List A) → (xs ++ ys) ≡ [] → (xs ≡ []) × (ys ≡ [])
  append-eq_nil [] ys h = (refl, h)
  append-eq_nil (x ∷ xs) ys h = (cc, cc)

  pub append_nil : (xs ys : List A) → xs ≡ [] → ys ≡ [] → (xs ++ ys) ≡ []
  append_nil [] ys p q = q
  append_nil (x ∷ xs) ys p q = cc

  -- [message] if the test fails, as a list to append
  abbrev pub unless : Bool → A → List A
  unless true a = []
  unless false a = a ∷ []

  pub unless-eq_nil : (b : Bool) (a : A) → unless b a ≡ [] → b ≡ true
  unless-eq_nil true a h = refl
  unless-eq_nil false a h = cc

  pub unless_nil : (b : Bool) (a : A) → b ≡ true → unless b a ≡ []
  unless_nil true a h = refl
  unless_nil false a h = cc

module _ {ℓ} {A : Type ℓ} where
  -- What a row of checks reports, in their order.
  abbrev pub collect : List (List A) → List A
  collect [] = []
  collect (xs ∷ rest) = xs ++ collect rest

  abbrev pub AllNil : List (List A) → Type ℓ
  AllNil [] = Unit
  AllNil (xs ∷ rest) = (xs ≡ []) × AllNil rest

  pub collect-AllNil : (reports : List (List A)) → collect reports ≡ [] → AllNil reports
  collect-AllNil [] h = tt
  collect-AllNil (xs ∷ rest) h =
      let p = append-eq_nil xs (collect rest) h in (p.0, collect-AllNil rest p.1)

  pub AllNil-collect : (reports : List (List A)) → AllNil reports → collect reports ≡ []
  AllNil-collect [] h = refl
  AllNil-collect (xs ∷ rest) h = append_nil xs (collect rest) h.0 (AllNil-collect rest h.1)

  -- The reports of a check over each element.
  abbrev pub each {κ} : {B : Type κ} → (B → List A) → List B → List A
  each check [] = []
  each check (x ∷ xs) = check x ++ each check xs

module _ {ℓ κ} {A : Type ℓ} {B : Type κ} (check : B → List A) where
  -- Every element passes its checks.
  abbrev pub AllPass : List B → Type ℓ
  AllPass [] = Unit
  AllPass (x ∷ xs) = (check x ≡ []) × AllPass xs

  pub each-AllPass : (xs : List B) → each check xs ≡ [] → AllPass xs
  each-AllPass [] h = tt
  each-AllPass (x ∷ xs) h =
      let p = append-eq_nil (check x) (each check xs) h in (p.0, each-AllPass xs p.1)

module _ {ℓ} {A : Type ℓ} ⦃e : Eq A⦄ where
  -- x in xs
  abbrev pub contains : A → List A → Bool
  contains a [] = false
  contains a (x ∷ xs) = a == x || contains a xs

  -- set(xs), in the order of first appearance from the right
  abbrev pub to_set : List A → List A
  to_set [] = []
  to_set (x ∷ xs) = let rest = to_set xs in if contains x xs then rest else x ∷ rest

  -- len(xs) == len(set(xs))
  abbrev pub is_unique : List A → Bool
  is_unique xs = nat_beq (length xs) (length (to_set xs))

  -- No two positions hold the same value.
  abbrev pub IsDistinct : List A → Type 0
  IsDistinct [] = Unit
  IsDistinct (x ∷ xs) = (contains x xs ≡ false) × IsDistinct xs

  length-to_set_le : (xs : List A) → length (to_set xs) ≤ length xs
  length-to_set_le [] = omega arith
  length-to_set_le (x ∷ xs) = ground (arith, length-to_set_le xs)

  pub is_unique-IsDistinct : (xs : List A) → is_unique xs ≡ true → IsDistinct xs
  is_unique-IsDistinct [] h = tt
  is_unique-IsDistinct (x ∷ xs) h = ground (arith, length-to_set_le xs, is_unique-IsDistinct xs)

  pub IsDistinct-is_unique : (xs : List A) → IsDistinct xs → is_unique xs ≡ true
  IsDistinct-is_unique [] h = refl
  IsDistinct-is_unique (x ∷ xs) h = ground (arith, IsDistinct-is_unique xs h.1)

module _ {ℓ κ} {A : Type ℓ} {B : Type κ} where
  -- Checks that report nothing hold of every element, whatever the check says of one.
  pub each-All {μ} :
      (P : B → Type μ) (check : B → List A)
      → ((x : B) → check x ≡ [] → P x)
      → (xs : List B) → each check xs ≡ []
      → All P xs
  each-All P check sound [] h = tt
  each-All P check sound (x ∷ xs) h =
      let p = append-eq_nil (check x) (each check xs) h in
      (sound x p.0, each-All P check sound xs p.1)

  pub All-each {μ} :
      (P : B → Type μ) (check : B → List A)
      → ((x : B) → P x → check x ≡ [])
      → (xs : List B) → All P xs
      → each check xs ≡ []
  All-each P check complete [] h = refl
  All-each P check complete (x ∷ xs) h =
      append_nil (check x) (each check xs) (complete x h.0) (All-each P check complete xs h.1)
