-- ===== src/Base/Lists.antt =====
-- Lists measured and indexed by native numbers, under the library's names.
use mathlib.Core.Path.{◌≡◌, refl, sym, subst}
use mathlib.Core.Bool.{Bool, true, ◌&&◌}
use dprint_clang_format.Base.Tests.{and_left, and_right}
use mathlib.Core.Logic.{⊎_elim, ◌↔◌}
use mathlib.Core.List.{Memᴰ, List, [], ◌∷◌, ◌++◌}
use mathlib.Core.List.Memᴰ
use Prim.Native.Nat.{ℕ, zero, suc}

module _ {ℓ} {A : Type ℓ} where
  abbrev pub length : List A → ℕ
  length [] = 0
  length (x ∷ xs) = suc (length xs)

  abbrev pub replicate : ℕ → A → List A
  replicate zero a = []
  replicate (suc n) a = a ∷ replicate n a

  -- A predicate that holds of each member.
  abbrev pub All {κ} : (A → Type κ) → List A → Type κ
  All P [] = Unit
  All P (x ∷ xs) = P x × All P xs

pub All-append {ℓ κ} :
    {A : Type ℓ} (P : A → Type κ) (xs ys : List A) → All P (xs ++ ys) ↔ (All P xs × All P ys)
All-append P [] ys = (λ h. (tt, h), λ h. h.1)
All-append P (x ∷ xs) ys = (
  λ h. let r = (All-append P xs ys).0 h.1 in ((h.0, r.0), r.1),
  λ h. (h.0.0, (All-append P xs ys).1 (h.0.1, h.1)),
)

pub All-Mem {ℓ κ} : {A : Type ℓ} (P : A → Type κ) (xs : List A) (a : A) → All P xs → Memᴰ a xs → P a
All-Mem P [] a h m = absurd (Memᴰ.not-nil m)
All-Mem P (x ∷ xs) a (p, h) m =
    ⊎_elim (λ e. subst P (sym e) p) (All-Mem P xs a h) (Memᴰ.cases_cons m)

pub All-of {ℓ κ} :
    {A : Type ℓ} (P : A → Type κ) (xs : List A) → ((a : A) → Memᴰ a xs → P a) → All P xs
All-of P [] h = tt
All-of P (x ∷ xs) h = (h x (Memᴰ.head refl), All-of P xs (λ a m. h a (Memᴰ.tail m)))

unfoldable pub all_of {ℓ} : {A : Type ℓ} → (A → Bool) → List A → Bool
all_of test [] = true
all_of test (x ∷ xs) = test x && all_of test xs

pub all_of-Mem {ℓ} :
    {A : Type ℓ} (test : A → Bool) (xs : List A) (a : A)
    → all_of test xs ≡ true
    → Memᴰ a xs
    → test a ≡ true
unfolding all_of
all_of-Mem test [] a h m = absurd (Memᴰ.not-nil m)
all_of-Mem test (x ∷ xs) a h m =
    ⊎_elim (λ e. rw e (and_left (test x) _ h)) (all_of-Mem test xs a (and_right (test x) _ h))
      (Memᴰ.cases_cons m)

pub all_of-append {ℓ} :
    {A : Type ℓ} (test : A → Bool) (xs ys : List A)
    → all_of test xs ≡ true
    → all_of test ys ≡ true
    → all_of test (xs ++ ys) ≡ true
unfolding all_of
all_of-append test [] ys h g = g
all_of-append test (x ∷ xs) ys h g =
    rw (and_left (test x) _ h, all_of-append test xs ys (and_right (test x) _ h) g)
