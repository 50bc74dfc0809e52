-- ===== src/Common/Lists.antt =====
-- Lists over the native numbers, and the Boolean folds of Rust's iterators.
use Prim.Native.Nat.{ℕ, zero, suc, ◌+◌, ◌-◌}
use Prim.Native.String.{String}
use mathlib.Core.Path.{◌≡◌, refl, ap, sym, subst}
use mathlib.Core.Logic.{◌⊎◌, inl, inr}
use mathlib.Core.Bool.{Bool, true, false, ◌&&◌, ◌||◌}
use mathlib.Core.Option.{Option, none, some}
use mathlib.Core.List.{List, [], ◌∷◌, ◌++◌}
use text.Mathlib.TextEquality.{eq_iff}
use native.Mathlib.Omega.{arith}
use rust_agent_framework.Common.Tests.{◌==◌, if◌then◌else◌, Bool-cases}

module _ {ℓ} {A : Type ℓ} where
  abbrev pub length : List A → ℕ
  length [] = 0
  length (x ∷ xs) = suc (length xs)

  abbrev pub take : ℕ → List A → List A
  take zero xs = []
  take (suc n) [] = []
  take (suc n) (x ∷ xs) = x ∷ take n xs

  abbrev pub drop : ℕ → List A → List A
  drop zero xs = xs
  drop (suc n) [] = []
  drop (suc n) (x ∷ xs) = drop n xs

  abbrev pub get_elem? : List A → ℕ → Option A
  get_elem? [] i = none
  get_elem? (x ∷ xs) zero = some x
  get_elem? (x ∷ xs) (suc i) = get_elem? xs i

  -- `iter().filter(p)`
  abbrev pub keep : (A → Bool) → List A → List A
  keep p [] = []
  keep p (x ∷ xs) = let rest = keep p xs in if p x then x ∷ rest else rest

  -- `iter().all(p)` and `iter().any(p)`
  abbrev pub all : (A → Bool) → List A → Bool
  all p [] = true
  all p (x ∷ xs) = p x && all p xs

  abbrev pub any : (A → Bool) → List A → Bool
  any p [] = false
  any p (x ∷ xs) = p x || any p xs

  -- `iter().find(p)`
  abbrev pub find : (A → Bool) → List A → Option A
  find p [] = none
  find p (x ∷ xs) = if p x then some x else find p xs

  -- A predicate of each element.
  abbrev pub All {κ} : (A → Type κ) → List A → Type κ
  All P [] = Unit
  All P (x ∷ xs) = P x × All P xs

  -- An occurrence, kept as data.
  pub data Elem (a : A) : List A → Type ℓ where
    here : {x : A} {xs : List A} → a ≡ x → Elem a (x ∷ xs)
    there : {x : A} {xs : List A} → Elem a xs → Elem a (x ∷ xs)

  pub length-append : (xs ys : List A) → length (xs ++ ys) ≡ length xs + length ys
  length-append [] ys = omega arith
  length-append (x ∷ xs) ys = omega (arith, length-append xs ys)

  pub length-drop : (n : ℕ) (xs : List A) → length (drop n xs) ≡ length xs - n
  length-drop zero xs = omega arith
  length-drop (suc n) [] = omega arith
  length-drop (suc n) (x ∷ xs) = omega (arith, length-drop n xs)

  pub take-append-drop : (n : ℕ) (xs : List A) → take n xs ++ drop n xs ≡ xs
  take-append-drop zero xs = refl
  take-append-drop (suc n) [] = refl
  take-append-drop (suc n) (x ∷ xs) = ap (λ (l : List A). x ∷ l) (take-append-drop n xs)

  pub keep-append : (p : A → Bool) (xs ys : List A) → keep p (xs ++ ys) ≡ keep p xs ++ keep p ys
  keep-append p [] ys = refl
  keep-append p (x ∷ xs) ys = ground (arith, keep-append p xs ys)

  pub all-append : (p : A → Bool) (xs ys : List A) → all p (xs ++ ys) ≡ (all p xs && all p ys)
  all-append p [] ys = refl
  all-append p (x ∷ xs) ys = ground (arith, all-append p xs ys)

  pub All-append {κ} : (P : A → Type κ) (xs ys : List A) → All P xs → All P ys → All P (xs ++ ys)
  All-append P [] ys h k = k
  All-append P (x ∷ xs) ys h k = (h.0, All-append P xs ys h.1 k)

  pub All-at {κ} : (P : A → Type κ) (xs : List A) {a : A} → All P xs → Elem a xs → P a
  All-at P [] h m = elim m [ ]
  All-at P (x ∷ xs) h (here e) = subst P (sym e) h.0
  All-at P (x ∷ xs) h (there m) = All-at P xs h.1 m

  pub All-of_Elem {κ} : (P : A → Type κ) (xs : List A) → ((a : A) → Elem a xs → P a) → All P xs
  All-of_Elem P [] h = tt
  All-of_Elem P (x ∷ xs) h = (h x (here refl), All-of_Elem P xs (λ a m. h a (there m)))

  pub All-mono {κ μ} :
      (P : A → Type κ) (Q : A → Type μ) (xs : List A) → ((a : A) → P a → Q a) → All P xs → All Q xs
  All-mono P Q [] f h = tt
  All-mono P Q (x ∷ xs) f h = (f x h.0, All-mono P Q xs f h.1)

  pub All-keep {κ} : (P : A → Type κ) (p : A → Bool) (xs : List A) → All P xs → All P (keep p xs)
  All-keep P p [] h = tt
  All-keep P p (x ∷ xs) h = elim (Bool-cases (p x)) [
    | inl yes' ↦ rw yes' (h.0, All-keep P p xs h.1)
    | inr no' ↦ rw no' (All-keep P p xs h.1)
  ]

  pub any→find :
      (p : A → Bool) (xs : List A) → any p xs ≡ true → (a : A) × (find p xs ≡ some a) × Elem a xs
  any→find p [] h = cc
  any→find p (x ∷ xs) h = elim (Bool-cases (p x)) [
    | inl found ↦ (x, rw found refl, here refl)
    | inr other ↦ let (a, e, m) = any→find p xs (rw other at h) in (a, rw other e, there m)
  ]

  pub any→keep :
      (p : A → Bool) (xs : List A)
      → any p xs ≡ true
      → (y : A) × (ys : List A) × (keep p xs ≡ y ∷ ys)
  any→keep p [] h = cc
  any→keep p (x ∷ xs) h = elim (Bool-cases (p x)) [
    | inl found ↦ (x, keep p xs, rw found refl)
    | inr other ↦ let (y, ys, e) = any→keep p xs (rw other at h) in (y, ys, rw other e)
  ]

  pub Elem-append_left : {a : A} {xs : List A} (ys : List A) → Elem a xs → Elem a (xs ++ ys)
  Elem-append_left ys (here e) = here e
  Elem-append_left ys (there m) = there (Elem-append_left ys m)

  pub Elem-append_right : {a : A} (xs : List A) {ys : List A} → Elem a ys → Elem a (xs ++ ys)
  Elem-append_right [] m = m
  Elem-append_right (x ∷ xs) m = there (Elem-append_right xs m)

  pub Elem-append_cases :
      {a : A} (xs : List A) {ys : List A} → Elem a (xs ++ ys) → Elem a xs ⊎ Elem a ys
  Elem-append_cases [] m = inr m
  Elem-append_cases (x ∷ xs) (here e) = inl (here e)
  Elem-append_cases (x ∷ xs) (there m) = elim (Elem-append_cases xs m) [
    | inl l ↦ inl (there l)
    | inr r ↦ inr r
  ]

-- `contains` of a list or set of texts.
abbrev pub mem : String → List String → Bool
mem a [] = false
mem a (x ∷ xs) = a == x || mem a xs

pub mem→Elem : (a : String) (xs : List String) → mem a xs ≡ true → Elem a xs
mem→Elem a [] h = cc
mem→Elem a (x ∷ xs) h = elim (Bool-cases (a == x)) [
  | inl e ↦ here ((eq_iff a x).0 e)
  | inr ne ↦ there (mem→Elem a xs (ground arith))
]

pub Elem→mem : {a : String} {xs : List String} → Elem a xs → mem a xs ≡ true
Elem→mem {a} (here {x = x} e) = ground (arith, (eq_iff a x).1 e)
Elem→mem {a} (there {x = x} {xs = xs} m) = ground (arith, Elem→mem m, Bool-cases (a == x))
