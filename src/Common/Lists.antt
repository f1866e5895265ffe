-- ===== src/Common/Lists.antt =====
-- Lists measured by native numbers, and the list operations that the code uses.
use Prim.Native.Nat.{ℕ, suc, ◌+◌}
use mathlib.Core.Path.{◌≡◌, refl}
use mathlib.Core.Bool.{Bool, true, false, ◌&&◌, ◌||◌}
use mathlib.Core.List.{Memᴰ, List, [], ◌∷◌, ◌++◌}
use native.Mathlib.Omega.{arith}
use aistock.Common.Tests.{if◌then◌else◌, ltb, nat_eq, Eq}
use Prim.Native.Char.{code}
use Prim.Native.String.{String}
use mathlib.Core.Logic.{◌↔◌}

module _ {ℓ} {A : Type ℓ} where
  abbrev pub length : List A → ℕ
  length [] = 0
  length (x ∷ xs) = suc (length xs)

  pub length-append : (xs ys : List A) → length (xs ++ ys) ≡ length xs + length ys
  length-append [] ys = omega arith
  length-append (x ∷ xs) ys = omega (arith, length-append xs ys)

  -- `any(p(x) for x in xs)`
  abbrev pub any : (A → Bool) → List A → Bool
  any p [] = false
  any p (x ∷ xs) = p x || any p xs

  -- `all(p(x) for x in xs)`
  abbrev pub all : (A → Bool) → List A → Bool
  all p [] = true
  all p (x ∷ xs) = p x && all p xs

  -- `[x for x in xs if p(x)]`
  abbrev pub filter : (A → Bool) → List A → List A
  filter p [] = []
  filter p (x ∷ xs) = if p x then x ∷ filter p xs else filter p xs

  abbrev pub is_empty : List A → Bool
  is_empty [] = true
  is_empty (x ∷ xs) = false

  -- A predicate that holds of every element.
  abbrev pub All {κ} : (A → Type κ) → List A → Type κ
  All P [] = Unit
  All P (x ∷ xs) = P x × All P xs

  pub All-append {κ} : (P : A → Type κ) (xs ys : List A) → All P xs → All P ys → All P (xs ++ ys)
  All-append P [] ys h k = k
  All-append P (x ∷ xs) ys h k = (h.0, All-append P xs ys h.1 k)

  pub any-append : (p : A → Bool) (xs ys : List A) → any p (xs ++ ys) ≡ (any p xs || any p ys)
  any-append p [] ys = refl
  any-append p (x ∷ xs) ys = ground (arith, any-append p xs ys)

  -- `sorted(xs, key=...)`: a stable insertion sort, with the strict order that the key gives.
  abbrev pub insert_by : (A → A → Bool) → A → List A → List A
  insert_by lt x [] = x ∷ []
  insert_by lt x (y ∷ ys) = if lt x y then x ∷ y ∷ ys else y ∷ insert_by lt x ys

  abbrev pub sort_from : (A → A → Bool) → List A → List A → List A
  sort_from lt out [] = out
  sort_from lt out (x ∷ xs) = sort_from lt (insert_by lt x out) xs

  abbrev pub sort_by : (A → A → Bool) → List A → List A
  sort_by lt xs = sort_from lt [] xs

module _ {ℓ κ} {A : Type ℓ} (P : A → Type κ) (lt : A → A → Bool) where
  insert_by-All : (x : A) (ys : List A) → P x → All P ys → All P (insert_by lt x ys)
  insert_by-All x [] h k = (h, tt)
  insert_by-All x (y ∷ ys) h k = ground (arith, insert_by-All x ys h k.1)

  sort_from-All : (out xs : List A) → All P out → All P xs → All P (sort_from lt out xs)
  sort_from-All out [] h k = h
  sort_from-All out (x ∷ xs) h k =
      sort_from-All (insert_by lt x out) xs (insert_by-All x out k.0 h) k.1

  -- What holds of every element holds of every element of the sorted list.
  pub sort_by-All : (xs : List A) → All P xs → All P (sort_by lt xs)
  sort_by-All xs h = sort_from-All [] xs tt h

module _ {ℓ} {A : Type ℓ} where
  -- What is kept passed the test.
  pub filter-All {κ} :
      (P : A → Type κ) (p : A → Bool) (xs : List A)
      → All P xs
      → All (λ x. P x × (p x ≡ true)) (filter p xs)
  filter-All P p [] h = tt
  filter-All P p (x ∷ xs) h = ground (arith, filter-All P p xs h.1)

  pub All-map {κ μ} :
      {P : A → Type κ} {Q : A → Type μ} (f : (x : A) → P x → Q x) (xs : List A)
      → All P xs
      → All Q xs
  All-map f [] h = tt
  All-map f (x ∷ xs) h = (f x h.0, All-map f xs h.1)

  pub All-Memᴰ : (xs : List A) → All (λ x. Memᴰ x xs) xs
  All-Memᴰ [] = tt
  All-Memᴰ (x ∷ xs) = (Memᴰ.head refl, All-map (λ y m. Memᴰ.tail m) xs (All-Memᴰ xs))

  -- What no element passes adds nothing.
  pub filter-append_none :
      (p : A → Bool) (xs ys : List A)
      → All (λ y. p y ≡ false) ys
      → filter p (xs ++ ys) ≡ filter p xs
  filter-append_none p [] [] h = refl
  filter-append_none p [] (y ∷ ys) h = ground (arith, filter-append_none p [] ys h.1)
  filter-append_none p (x ∷ xs) ys h = ground (arith, filter-append_none p xs ys h)

-- Texts are lists of code points.
abbrev pub Text : Type 0
Text = List ℕ

abbrev pub text_beq : Text → Text → Bool
text_beq [] [] = true
text_beq [] (y ∷ ys) = false
text_beq (x ∷ xs) [] = false
text_beq (x ∷ xs) (y ∷ ys) = nat_eq x y && text_beq xs ys

pub text_beq_iff : (s t : Text) → (text_beq s t ≡ true) ↔ (s ≡ t)
text_beq_iff [] [] = ground arith
text_beq_iff [] (y ∷ ys) = ground arith
text_beq_iff (x ∷ xs) [] = ground arith
text_beq_iff (x ∷ xs) (y ∷ ys) = ground (arith, text_beq_iff xs ys)

instance abbrev pub text_eq : Eq Text
text_eq = record { beq = text_beq; beq_iff = text_beq_iff }

-- `<` on texts: lexicographic by code point.
abbrev pub text_lt : Text → Text → Bool
text_lt [] [] = false
text_lt [] (y ∷ ys) = true
text_lt (x ∷ xs) [] = false
text_lt (x ∷ xs) (y ∷ ys) = ltb x y || nat_eq x y && text_lt xs ys

-- The code points of a literal.
abbrev pub codes : String → Text
codes String.[] = []
codes (String.◌∷◌ c s) = code c ∷ codes s
