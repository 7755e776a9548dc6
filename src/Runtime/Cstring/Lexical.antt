-- ===== src/Runtime/Cstring/Lexical.antt =====
-- `strcmp` of src/wasm_runtime_core.cpp, beside the comparison of two texts.
use dprint_clang_format.Base.Int.{ℤ, pos, sub_ℕ}
use dprint_clang_format.Base.{
  done, ◌==◌, if◌then◌else◌, Bytes, ℕ, zero, suc, ◌+◌, ◌<◌, ◌≡◌, ap, ◌∙◌, ◌≢◌, [], ◌∷◌, arith,
}
use dprint_clang_format.Runtime.Memory.{Mem, IsCstring}
use dprint_clang_format.Runtime.Cstring.{strcmp_loop, strcmp}

-- The `n` bytes from index `i` of a block on.
abbrev pub bytes_from : Mem → ℕ → ℕ → ℕ → Bytes
bytes_from m p i zero = []
bytes_from m p i (suc n) = m (p + i) ∷ bytes_from m p (i + 1) n

abbrev pub bytes_at : Mem → ℕ → ℕ → Bytes
bytes_at m p n = bytes_from m p 0 n

-- The lexical order: the difference of the first bytes that differ, where the end counts as 0.
abbrev pub compare_texts : Bytes → Bytes → ℤ
compare_texts [] [] = pos 0
compare_texts [] (y ∷ ys) = sub_ℕ 0 y
compare_texts (x ∷ xs) [] = sub_ℕ x 0
compare_texts (x ∷ xs) (y ∷ ys) = if x == y then compare_texts xs ys else sub_ℕ x y

strcmp_loop-compare :
    (f : ℕ) (m : Mem) (a b i n l p q : ℕ)
    → IsCstring m a p
    → IsCstring m b q
    → p ≡ i + n
    → q ≡ i + l
    → n < f
    → strcmp_loop f m a b i ≡ done (compare_texts (bytes_from m a i n) (bytes_from m b i l))
unfolding strcmp_loop
strcmp_loop-compare zero m a b i n l p q s t e d h = absurd (omega arith)
strcmp_loop-compare (suc f) m a b i zero zero p q s t e d h =
    let left : m (a + i) ≡ 0 = ap (λ (k : ℕ). m (a + k)) (omega arith) ∙ s.at in
    let right : m (b + i) ≡ 0 = ap (λ (k : ℕ). m (b + k)) (omega arith) ∙ t.at in rw (left, right)
strcmp_loop-compare (suc f) m a b i zero (suc l) p q s t e d h =
    let left : m (a + i) ≡ 0 = ap (λ (k : ℕ). m (a + k)) (omega arith) ∙ s.at in rw left
strcmp_loop-compare (suc f) m a b i (suc n) zero p q s t e d h =
    let left : m (a + i) ≢ 0 = s.before i (omega arith) in
    let right : m (b + i) ≡ 0 = ap (λ (k : ℕ). m (b + k)) (omega arith) ∙ t.at in ground arith
strcmp_loop-compare (suc f) m a b i (suc n) (suc l) p q s t e d h =
    let rest =
      strcmp_loop-compare f m a b (i + 1) n l p q s t (omega arith) (omega arith) (omega arith) in
    let left : m (a + i) ≢ 0 = s.before i (omega arith) in ground arith

-- On two C strings `strcmp`, given more rounds than the first is long, ends and returns what the lexical
-- comparison of their bytes does.
pub strcmp-compare_texts :
    (fuel : ℕ) (m : Mem) (a b n l : ℕ)
    → IsCstring m a n
    → IsCstring m b l
    → n < fuel
    → strcmp fuel m a b ≡ done (compare_texts (bytes_at m a n) (bytes_at m b l))
unfolding strcmp
strcmp-compare_texts fuel m a b n l s t h =
    strcmp_loop-compare fuel m a b 0 n l n l s t (omega arith) (omega arith) h
