-- ===== src/Ciphers/Tests.antt =====
-- Runs of the ciphers.
use cpp_experiments.Common.{◌≡◌, refl, [], ◌∷◌, arith}
use cpp_experiments.Common.Int.{pos, negsuc}
use cpp_experiments.Common.Fault.{ok, ◌>>=◌}
use cpp_experiments.Common.Bytes.{codes}
use cpp_experiments.Ciphers.{
  rot_cipher, rotate_all, shift_of, vignere_cipher, vignere_from, encrypt, decrypt,
}
use cpp_experiments.Ciphers.Rounds.{opposite, rot_cipher-opposite, IsKey, vignere_cipher-decrypt}

rot_fox : rot_cipher (codes "Fox, z") (negsuc 22) ≡ codes "Ira, c"
unfolding rot_cipher rotate_all shift_of
rot_fox = refl

rot_cipher-opposite_case :
    rot_cipher (rot_cipher (codes "Fox, z") (pos 3)) (opposite (pos 3)) ≡ codes "Fox, z"
rot_cipher-opposite_case = rot_cipher-opposite (codes "Fox, z") (pos 3)

secret-IsKey : IsKey (codes "key")
secret-IsKey =
    (omega arith, omega arith, (omega arith, omega arith, (omega arith, omega arith, tt)))

vignere_fox : vignere_cipher (codes "The fox") (codes "key") encrypt ≡ ok (codes "Dlc psv")
unfolding vignere_cipher vignere_from
vignere_fox = refl

vignere_cipher-decrypt_example :
    (vignere_cipher (codes "The fox") (codes "key") encrypt >>= λ text.
    vignere_cipher text (codes "key") decrypt)
    ≡ ok (codes "The fox")
vignere_cipher-decrypt_example =
    vignere_cipher-decrypt (codes "key") secret-IsKey (codes "The fox") (omega arith)

-- A key in capitals leaves the alphabet.
capital_key : vignere_cipher (codes "a") (codes "A") encrypt ≡ ok (91 ∷ [])
unfolding vignere_cipher vignere_from
capital_key = refl
