-- ===== src/Ciphers/Rounds.antt =====
-- Each cipher is undone by the other direction.
use cpp_experiments.Common.{
  ℕ, zero, suc, ◌+◌, ◌%◌, ◌≤◌, ◌<◌, ◌≡◌, refl, ap, ◌∙◌, Bool, true, false, ◌||◌, some, [], ◌∷◌,
  arith, get_elem?, length,
}
use cpp_experiments.Common.Int.{ℤ, pos, negsuc}
use cpp_experiments.Common.Fault.{ok, ◌>>=◌}
use cpp_experiments.Common.Bytes.{Bytes}
use cpp_experiments.Ciphers.{
  is_lower, is_upper, shift_of, rotated, rotate_all, rot_cipher, Mode, decrypt, encrypt, text_ord,
  base_of, ciphered, vignere_from, vignere_cipher,
}

-- The opposite of a shift.
abbrev pub opposite : ℤ → ℤ
opposite (pos zero) = pos zero
opposite (pos (suc n)) = negsuc n
opposite (negsuc n) = pos (suc n)

shift_of-opposite : (k : ℤ) → (shift_of k + shift_of (opposite k)) % 26 ≡ 0
unfolding shift_of
shift_of-opposite (pos zero) = refl
shift_of-opposite (pos (suc n)) = omega arith
shift_of-opposite (negsuc n) = omega arith

rotated-twice : (a b ch : ℕ) → (a + b) % 26 ≡ 0 → rotated b (rotated a ch) ≡ ch
rotated-twice a b ch h = ground arith

rotate_all-twice : (a b : ℕ) (s : Bytes) → (a + b) % 26 ≡ 0 → rotate_all b (rotate_all a s) ≡ s
unfolding rotate_all
rotate_all-twice a b [] h = refl
rotate_all-twice a b (ch ∷ s) h = rw (rotated-twice a b ch h, rotate_all-twice a b s h) refl

-- A text that is rotated by a shift and then by the opposite one is the text again.
pub rot_cipher-opposite : (s : Bytes) (k : ℤ) → rot_cipher (rot_cipher s k) (opposite k) ≡ s
unfolding rot_cipher
rot_cipher-opposite s k =
    rotate_all-twice (shift_of k) (shift_of (opposite k)) s (shift_of-opposite k)

-- The characters of the key are letters from a to z.
abbrev pub IsKey : Bytes → Type 0
IsKey [] = Unit {0}
IsKey (k ∷ ks) = (97 ≤ k) × (k ≤ 122) × IsKey ks

abbrev on : ℕ → ℕ → ℕ
on ch k = ciphered encrypt (base_of ch) (text_ord ch) k

-- The letter behind the encryption of a letter.
ciphered-letter :
    (ch k : ℕ)
    → (is_lower ch || is_upper ch) ≡ true
    → 97 ≤ k
    → k ≤ 122
    → ((is_lower (on ch k) || is_upper (on ch k)) ≡ true)
      × (ciphered decrypt (base_of (on ch k)) (text_ord (on ch k)) k ≡ ch)
ciphered-letter ch k h l u = (stays_letter ch k h l u, comes_back ch k h l u)
  where
    stays_letter :
        (c j : ℕ)
        → (is_lower c || is_upper c) ≡ true
        → 97 ≤ j
        → j ≤ 122
        → (is_lower (on c j) || is_upper (on c j)) ≡ true
    stays_letter c j e a b = ground arith

    comes_back :
        (c j : ℕ)
        → (is_lower c || is_upper c) ≡ true
        → 97 ≤ j
        → j ≤ 122
        → ciphered decrypt (base_of (on c j)) (text_ord (on c j)) j ≡ c
    comes_back c j e a b = ground arith

key_letter : (key : Bytes) (n k : ℕ) → IsKey key → get_elem? key n ≡ some k → (97 ≤ k) × (k ≤ 122)
key_letter [] n k h e = ground arith
key_letter (j ∷ key) zero k h e = ground arith
key_letter (j ∷ key) (suc n) k h e = key_letter key n k h.2 e

key_there : (key : Bytes) (n : ℕ) → n < length key → (k : ℕ) × (get_elem? key n ≡ some k)
key_there [] n h = ground arith
key_there (j ∷ key) zero h = (j, refl)
key_there (j ∷ key) (suc n) h = key_there key n (omega (arith, h))

module _ (key : Bytes) (good : IsKey key) where
  letter_step :
      (mode : Mode) (n k ch : ℕ) (s rest : Bytes)
      → (is_lower ch || is_upper ch) ≡ true
      → get_elem? key n ≡ some k
      → vignere_from key mode ((n + 1) % length key) s ≡ ok rest
      → vignere_from key mode n (ch ∷ s) ≡ ok (ciphered mode (base_of ch) (text_ord ch) k ∷ rest)
  unfolding vignere_from
  letter_step mode n k ch s rest h e r = rw (h, e, r) refl

  other_step :
      (mode : Mode) (n ch : ℕ) (s rest : Bytes)
      → (is_lower ch || is_upper ch) ≡ false
      → vignere_from key mode n s ≡ ok rest
      → vignere_from key mode n (ch ∷ s) ≡ ok (ch ∷ rest)
  unfolding vignere_from
  other_step mode n ch s rest h r = rw (h, r) refl

  -- What a text becomes, and what becomes of that.
  record Ciphered (n : ℕ) (s : Bytes) : Type 0 where
    text : Bytes
    there : vignere_from key encrypt n s ≡ ok text
    back : vignere_from key decrypt n text ≡ ok s

  with_letter :
      (n k ch : ℕ) (s : Bytes)
      → (is_lower ch || is_upper ch) ≡ true
      → get_elem? key n ≡ some k
      → Ciphered ((n + 1) % length key) s
      → Ciphered n (ch ∷ s)
  with_letter n k ch s h e rest =
      let range = key_letter key n k good e in
      let letter = ciphered-letter ch k h range.0 range.1 in
      record {
        text = on ch k ∷ rest.text;
        there = letter_step encrypt n k ch s rest.text h e rest.there;
        back =
            letter_step decrypt n k (on ch k) rest.text s letter.0 e rest.back
            ∙ ap (λ c. ok (c ∷ s)) letter.1;
      }

  with_other :
      (n ch : ℕ) (s : Bytes)
      → (is_lower ch || is_upper ch) ≡ false
      → Ciphered n s
      → Ciphered n (ch ∷ s)
  with_other n ch s h rest = record {
    text = ch ∷ rest.text;
    there = other_step encrypt n ch s rest.text h rest.there;
    back = other_step decrypt n ch rest.text s h rest.back;
  }

  Ciphered-nil : (n : ℕ) → Ciphered n []
  unfolding vignere_from
  Ciphered-nil n = record { text = []; there = refl; back = refl }

  -- The two cases need the rest of the text from different places of the key.
  either_case :
      (n ch : ℕ) (s : Bytes) (b : Bool)
      → (is_lower ch || is_upper ch) ≡ b
      → n < length key
      → Ciphered ((n + 1) % length key) s
      → Ciphered n s
      → Ciphered n (ch ∷ s)
  either_case n ch s true e h next same =
      let found = key_there key n h in with_letter n found.0 ch s e found.1 next
  either_case n ch s false e h next same = with_other n ch s e same

  Ciphered-all : (n : ℕ) (s : Bytes) → n < length key → Ciphered n s
  Ciphered-all n [] h = Ciphered-nil n
  Ciphered-all n (ch ∷ s) h =
      either_case n ch s (is_lower ch || is_upper ch) refl h
        (Ciphered-all ((n + 1) % length key) s (omega (arith, h))) (Ciphered-all n s h)

  -- A text that is encrypted and then decrypted with the same key is the text again. The key has
  -- letters from a to z and is not empty.
  pub vignere_cipher-decrypt :
      (s : Bytes)
      → 0 < length key
      → (vignere_cipher s key encrypt >>= λ text. vignere_cipher text key decrypt) ≡ ok s
  unfolding vignere_cipher
  vignere_cipher-decrypt s h =
      let c = Ciphered-all 0 s h in ap (λ r. r >>= vignere_from key decrypt 0) c.there ∙ c.back
