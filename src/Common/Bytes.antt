-- ===== src/Common/Bytes.antt =====
-- Texts as lists of bytes, with the operations of std::string that the programs use.
use Prim.Native.Char.{code}
use Prim.Native.String.{String}
use cpp_experiments.Common.{
  ℕ, suc, ◌≡◌, refl, ap, ◌↔◌, ◌≢◌, Bool, true, false, ◌&&◌, Option, none, some, List, [], ◌∷◌, ◌++◌,
  arith, ◌==◌, if◌then◌else◌, length, take, drop,
}

abbrev pub Bytes : Type 0
Bytes = List ℕ

-- The bytes of an ASCII literal.
abbrev pub codes : String → Bytes
codes String.[] = []
codes (String.◌∷◌ c s) = code c ∷ codes s

-- operator== of std::string.
infix 50 ◌=ᵇ◌
unfoldable pub ◌=ᵇ◌ : Bytes → Bytes → Bool
[] =ᵇ [] = true
[] =ᵇ (y ∷ ys) = false
(x ∷ xs) =ᵇ [] = false
(x ∷ xs) =ᵇ (y ∷ ys) = x == y && (xs =ᵇ ys)

pub =ᵇ-refl : (a : Bytes) → (a =ᵇ a) ≡ true
unfolding ◌=ᵇ◌
=ᵇ-refl [] = refl
=ᵇ-refl (x ∷ xs) = ground (arith, =ᵇ-refl xs)

pub =ᵇ→eq : (a b : Bytes) → (a =ᵇ b) ≡ true → a ≡ b
unfolding ◌=ᵇ◌
=ᵇ→eq [] [] h = refl
=ᵇ→eq [] (y ∷ ys) h = ground arith
=ᵇ→eq (x ∷ xs) [] h = ground arith
=ᵇ→eq (x ∷ xs) (y ∷ ys) h = ground (arith, =ᵇ→eq xs ys)

pub =ᵇ_iff : (a b : Bytes) → ((a =ᵇ b) ≡ true) ↔ (a ≡ b)
=ᵇ_iff a b = (=ᵇ→eq a b, λ e. subst_refl e)
  where
    subst_refl : a ≡ b → (a =ᵇ b) ≡ true
    subst_refl e = ground (arith, =ᵇ-refl b)

-- s.find("\r\n"), from the front of s.
unfoldable pub find_crlf : Bytes → Option ℕ
find_crlf [] = none
find_crlf (c ∷ []) = none
find_crlf (c ∷ d ∷ s) =
    let rest = find_crlf (d ∷ s) in
    if c == 13 && d == 10 then some 0 else elim rest [ none ↦ none | some k ↦ some (suc k) ]

abbrev pub crlf : Bytes
crlf = 13 ∷ 10 ∷ []

-- No byte of the text is a carriage return.
abbrev pub NoCr : Bytes → Type 0
NoCr [] = Unit {0}
NoCr (c ∷ s) = (c ≢ 13) × NoCr s

pub find_crlf-append : (a s : Bytes) → NoCr a → find_crlf (a ++ 13 ∷ 10 ∷ s) ≡ some (length a)
unfolding find_crlf
find_crlf-append [] s h = refl
find_crlf-append (c ∷ []) s h = ground arith
find_crlf-append (c ∷ d ∷ a) s h = ground (arith, find_crlf-append (d ∷ a) s h.1)

pub NoCr-append : (a b : Bytes) → NoCr a → NoCr b → NoCr (a ++ b)
NoCr-append [] b h k = k
NoCr-append (c ∷ a) b h k = (h.0, NoCr-append a b h.1 k)

-- The part behind a prefix, and the prefix.
pub drop-append {ℓ} : {A : Type ℓ} (a s : List A) → drop (length a) (a ++ s) ≡ s
drop-append [] s = refl
drop-append (x ∷ a) s = drop-append a s

pub take-append {ℓ} : {A : Type ℓ} (a s : List A) → take (length a) (a ++ s) ≡ a
take-append [] s = refl
take-append (x ∷ a) s = ap (◌∷◌ x) (take-append a s)

pub take_at {ℓ} : {A : Type ℓ} (n : ℕ) (s a b : List A) → n ≡ length a → s ≡ a ++ b → take n s ≡ a
take_at n s a b h e = rw (e, h) (take-append a b)

pub drop_at {ℓ} : {A : Type ℓ} (n : ℕ) (s a b : List A) → n ≡ length a → s ≡ a ++ b → drop n s ≡ b
drop_at n s a b h e = rw (e, h) (drop-append a b)
