-- ===== src/Runtime/Cstring/Order.antt =====
-- `strcmp` and `strncmp` of src/wasm_runtime_core.cpp.
use dprint_clang_format.Base.{
  ℕ, zero, suc, ◌+◌, ◌<◌, ◌≤◌, ◌≡◌, ◌≢◌, refl, ◌⊎◌, ◌↔◌, inl, inr, arith, ◌==◌, Bool-cases, false,
  done, ap, sym, ◌∙◌,
}
use dprint_clang_format.Base.Int.{ℤ, pos, sub_ℕ, sub_ℕ-zero}
use dprint_clang_format.Runtime.Memory.{Mem, FirstAt-unique, IsCstring, SameBlock}
use dprint_clang_format.Runtime.Cstring.{strcmp_loop, strcmp, strncmp_loop, strncmp}

-- The comparison of the strings at `a` and `b` is decided at index `j`: they agree, and go on, up to
-- it, and there the first ends or they differ.
pub record Decided (m : Mem) (a b j : ℕ) : Type 0 where
  pub agree : SameBlock m a b j
  pub inside : (k : ℕ) → k < j → m (a + k) ≢ 0
  pub at : (m (a + j) ≡ 0) ⊎ (m (a + j) ≢ m (b + j))

abbrev pub difference : Mem → ℕ → ℕ → ℕ → ℤ
difference m a b j = sub_ℕ (m (a + j)) (m (b + j))

-- The index after one on which the strings agree and go on.
abbrev pub Alike : Mem → ℕ → ℕ → ℕ → Type 0
Alike m a b i = SameBlock m a b i × ((k : ℕ) → k < i → m (a + k) ≢ 0)

Alike-next :
    (m : Mem) (a b i : ℕ)
    → Alike m a b i
    → m (a + i) ≢ 0
    → m (a + i) ≡ m (b + i)
    → Alike m a b (i + 1)
Alike-next m a b i (agree, inside) more equal = (
  λ k h. elim (Bool-cases (k == i)) [
    | inl here ↦ ground arith
    | inr earlier ↦ agree k (ground arith)
  ],
  λ k h. elim (Bool-cases (k == i)) [
    | inl here ↦ ground arith
    | inr earlier ↦ inside k (ground arith)
  ],
)

strcmp_loop-Decided :
    (f : ℕ) (m : Mem) (a b i n : ℕ)
    → IsCstring m a n
    → i ≤ n
    → n < i + f
    → Alike m a b i
    → (j : ℕ) × (j ≤ n) × Decided m a b j × (strcmp_loop f m a b i ≡ done (difference m a b j))
unfolding strcmp_loop
strcmp_loop-Decided zero m a b i n s below enough alike = absurd (omega arith)
strcmp_loop-Decided (suc f) m a b i n s below enough alike = elim (Bool-cases (m (a + i) == 0)) [
  | inl ends ↦ (
    i,
    below,
    record { agree = alike.0; inside = alike.1; at = inl (ground arith) },
    ground arith,
  )
  | inr more ↦ elim (Bool-cases (m (a + i) == m (b + i))) [
    | inr apart ↦ (
      i,
      below,
      record { agree = alike.0; inside = alike.1; at = inr (ground arith) },
      ground arith,
    )
    | inl equal ↦
        let (j, le, d, e) =
          strcmp_loop-Decided f m a b (i + 1) n s (go_on more) (omega arith)
            (Alike-next m a b i alike (ground arith) (ground arith)) in
        (j, le, d, ground arith)
  ]
]
  where
    go_on : (m (a + i) == 0) ≡ false → i + 1 ≤ n
    go_on more = elim (Bool-cases (i == n)) [
      | inl here ↦ absurd (ground (arith, s.at))
      | inr other ↦ ground arith
    ]

-- `strcmp`, given more rounds than the first string is long, returns the difference of the bytes at
-- the index that decides the comparison.
pub strcmp-Decided :
    (fuel : ℕ) (m : Mem) (a b n : ℕ)
    → IsCstring m a n
    → n < fuel
    → (j : ℕ) × (j ≤ n) × Decided m a b j × (strcmp fuel m a b ≡ done (difference m a b j))
unfolding strcmp
strcmp-Decided fuel m a b n s enough =
    strcmp_loop-Decided fuel m a b 0 n s (omega arith) (omega arith)
      (λ k h. absurd (omega arith), λ k h. absurd (omega arith))

Decided-not_lt : (m : Mem) (a b i j : ℕ) → Decided m a b i → Decided m a b j → ¬ (i < j)
Decided-not_lt m a b i j d e h = elim d.at [
  | inl ends ↦ e.inside i h ends
  | inr apart ↦ apart (e.agree i h)
]

pub Decided-unique : (m : Mem) (a b i j : ℕ) → Decided m a b i → Decided m a b j → i ≡ j
Decided-unique m a b i j d e =
    omega (arith, Decided-not_lt m a b i j d e, Decided-not_lt m a b j i e d)

strncmp_loop-Decided :
    (k : ℕ) (m : Mem) (a b i : ℕ)
    → Alike m a b i
    → ((strncmp_loop k m a b i ≡ pos 0) × Alike m a b (i + k))
      ⊎ ((j : ℕ) × (j < i + k) × Decided m a b j × (strncmp_loop k m a b i ≡ difference m a b j))
unfolding strncmp_loop
strncmp_loop-Decided zero m a b i alike =
    inl (refl, (λ k h. alike.0 k (omega arith), λ k h. alike.1 k (omega arith)))
strncmp_loop-Decided (suc k) m a b i alike = elim (Bool-cases (m (a + i) == m (b + i))) [
  | inr apart ↦ inr (
    i,
    omega arith,
    record { agree = alike.0; inside = alike.1; at = inr (ground arith) },
    ground arith,
  )
  | inl equal ↦ elim (Bool-cases (m (a + i) == 0)) [
    | inl ends ↦ inr (
      i,
      omega arith,
      record { agree = alike.0; inside = alike.1; at = inl (ground arith) },
      ground arith,
    )
    | inr more ↦
        elim (strncmp_loop-Decided k m a b (i + 1)
          (Alike-next m a b i alike (ground arith) (ground arith))) [
            | inl (e, later) ↦
                inl (ground arith, (λ j h. later.0 j (omega arith), λ j h. later.1 j (omega arith)))
            | inr (j, h, d, e) ↦ inr (j, omega arith, d, ground arith)
          ]
  ]
]

-- `strncmp` returns 0 where the strings agree, and go on, for `count` bytes, and otherwise the
-- difference of the bytes at the index below `count` that decides the comparison.
pub strncmp-Decided :
    (m : Mem) (a b count : ℕ)
    → ((strncmp m a b count ≡ pos 0) × Alike m a b count)
      ⊎ ((j : ℕ) × (j < count) × Decided m a b j × (strncmp m a b count ≡ difference m a b j))
unfolding strncmp
strncmp-Decided m a b count =
    elim (strncmp_loop-Decided count m a b 0
      (λ k h. absurd (omega arith), λ k h. absurd (omega arith))) [
        | inl (e, alike) ↦ inl (e, (λ j h. alike.0 j (omega arith), λ j h. alike.1 j (omega arith)))
        | inr (j, h, d, e) ↦ inr (j, omega arith, d, e)
      ]

-- With a bound above the length of the first string `strncmp` returns what `strcmp` does.
pub strncmp-strcmp :
    (fuel : ℕ) (m : Mem) (a b n count : ℕ)
    → IsCstring m a n
    → n < fuel
    → n < count
    → strcmp fuel m a b ≡ done (strncmp m a b count)
strncmp-strcmp fuel m a b n count s enough room =
    let (i, le, d, e) = strcmp-Decided fuel m a b n s enough in
    elim (strncmp-Decided m a b count) [
      | inl (z, alike) ↦ absurd (alike.1 n room s.at)
      | inr (j, h, d', e') ↦
          e ∙ ap done (ap (difference m a b) (Decided-unique m a b i j d d') ∙ sym e')
    ]

module _ (m : Mem) (a b n l j : ℕ) (s : IsCstring m a n) (t : IsCstring m b l)
    (d : Decided m a b j) where
  equal_of_no_difference : m (a + j) ≡ m (b + j) → (n ≡ l) × SameBlock m a b n
  equal_of_no_difference e =
      let ends : m (a + j) ≡ 0 = elim d.at [ inl z ↦ z | inr apart ↦ absurd (apart e) ] in
      let left : n ≡ j = FirstAt-unique m a 0 n j s (record { before = d.inside; at = ends }) in
      let right : l ≡ j =
        FirstAt-unique m b 0 l j t (record {
          before = λ k h. ground (arith, d.inside k h, d.agree k h);
          at = sym e ∙ ends;
        }) in
      (omega arith, λ k h. d.agree k (omega arith))

  no_difference_of_equal : j ≤ n → n ≡ l → SameBlock m a b n → m (a + j) ≡ m (b + j)
  no_difference_of_equal le eq all = elim (Bool-cases (j == n)) [
    | inl last ↦ ground (arith, s.at, t.at)
    | inr earlier ↦ all j (ground arith)
  ]

done_inj : (x y : ℤ) → done x ≡ done y → x ≡ y
done_inj x y e = cc

-- On two C strings `strcmp` returns 0 exactly if they have the same bytes.
pub strcmp-zero :
    (fuel : ℕ) (m : Mem) (a b n l : ℕ)
    → IsCstring m a n
    → IsCstring m b l
    → n < fuel
    → (strcmp fuel m a b ≡ done (pos 0)) ↔ ((n ≡ l) × SameBlock m a b n)
strcmp-zero fuel m a b n l s t enough =
    let (j, le, d, e) = strcmp-Decided fuel m a b n s enough in
    (
      λ z.
          equal_of_no_difference m a b n l j s t d
            ((sub_ℕ-zero (m (a + j)) (m (b + j))).0 (done_inj _ _ (sym e ∙ z))),
      λ (eq, all).
          e
          ∙ ap done (
              (sub_ℕ-zero (m (a + j)) (m (b + j))).1
                (no_difference_of_equal m a b n l j s t d le eq all)),
    )
