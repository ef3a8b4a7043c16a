-- ===== src/Common/Words.antt =====
-- Numbers as bytes, in both orders.
use cpp_experiments.Common.{
  ℕ, zero, suc, ◌+◌, ◌*◌, ◌/◌, ◌%◌, ◌≡◌, refl, ap, sym, ◌∙◌, [], ◌∷◌, ◌++◌, arith, length,
  length-append,
}
use cpp_experiments.Common.Bytes.{Bytes}

unfoldable pub le_bytes : ℕ → ℕ → Bytes
le_bytes zero n = []
le_bytes (suc k) n = (n % 256) ∷ le_bytes k (n / 256)

unfoldable pub le_value : Bytes → ℕ
le_value [] = 0
le_value (b ∷ s) = b + 256 * le_value s

pub length-le_bytes : (k n : ℕ) → length (le_bytes k n) ≡ k
unfolding le_bytes
length-le_bytes zero n = refl
length-le_bytes (suc k) n = ap suc (length-le_bytes k (n / 256))

-- The number has no more than `k` bytes.
abbrev pub FitsBytes : ℕ → ℕ → Type 0
FitsBytes zero n = n ≡ 0
FitsBytes (suc k) n = FitsBytes k (n / 256)

pub value-bytes : (k n : ℕ) → FitsBytes k n → le_value (le_bytes k n) ≡ n
unfolding le_bytes le_value
value-bytes zero n h = sym h
value-bytes (suc k) n h = omega (arith, value-bytes k (n / 256) h)

-- The high byte first.
unfoldable pub be_bytes : ℕ → ℕ → Bytes
be_bytes zero n = []
be_bytes (suc k) n = be_bytes k (n / 256) ++ (n % 256) ∷ []

-- The number before `s` is `n`.
unfoldable pub be_value_from : ℕ → Bytes → ℕ
be_value_from n [] = n
be_value_from n (b ∷ s) = be_value_from (n * 256 + b) s

pub length-be_bytes : (k n : ℕ) → length (be_bytes k n) ≡ k
unfolding be_bytes
length-be_bytes zero n = refl
length-be_bytes (suc k) n =
    omega
      (arith, length-append (be_bytes k (n / 256)) ((n % 256) ∷ []), length-be_bytes k (n / 256))

be_value_from-snoc :
    (n : ℕ) (s : Bytes) (b : ℕ) → be_value_from n (s ++ b ∷ []) ≡ be_value_from n s * 256 + b
unfolding be_value_from
be_value_from-snoc n [] b = refl
be_value_from-snoc n (a ∷ s) b = be_value_from-snoc (n * 256 + a) s b

pub be_value-bytes : (k n : ℕ) → FitsBytes k n → be_value_from 0 (be_bytes k n) ≡ n
unfolding be_bytes be_value_from
be_value-bytes zero n h = sym h
be_value-bytes (suc k) n h =
    be_value_from-snoc 0 (be_bytes k (n / 256)) (n % 256)
    ∙ omega (arith, be_value-bytes k (n / 256) h)
