-- ===== src/Redis/Server/Delivery.antt =====
-- An answer reaches its client whole, however it is cut up.
use cpp_experiments.Common.{
  ℕ, zero, suc, ◌+◌, ◌-◌, ◌≤◌, ◌≡◌, refl, sym, ap, ◌∙◌, Bool-cases, inl, inr, some, List, [], ◌∷◌,
  ◌++◌, arith, ◌==◌, length, take, drop, take-append-drop, append_assoc, append-nil, length-drop,
  ==_iff,
}
use native.Mathlib.Nat.{suc-add, zero-add}
use cpp_experiments.Common.Bytes.{Bytes}
use cpp_experiments.Redis.Server.{Events, pollin, pollout, Client, on_writable}

-- What is still to be sent: the last curr_pos bytes of the answer.
abbrev pub pending_of : Events → Client → Bytes
pending_of pollin c = []
pending_of pollout c = drop (length c.text - c.curr_pos) c.text

abbrev pub pending : Client → Bytes
pending c = pending_of c.events c

-- The bytes that the client gets when send takes the given numbers of bytes, and its entry then.
unfoldable pub deliver : List ℕ → Client → Bytes × Client
deliver [] c = ([], c)
deliver (n ∷ ns) c =
    let (sent, c') = deliver ns (on_writable (some n) c) in (take n (pending c) ++ sent, c')

-- send takes no more than it is given, and is called while the client waits for an answer.
unfoldable pub Fits : List ℕ → Client → Type 0
Fits [] c = Unit {0}
Fits (n ∷ ns) c =
    (c.events ≡ pollout)
    × (n ≤ c.curr_pos)
    × (c.curr_pos ≤ length c.text)
    × Fits ns (on_writable (some n) c)

drop-drop : (n m : ℕ) (s : Bytes) → drop n (drop m s) ≡ drop (m + n) s
drop-drop n zero s = rw (zero-add n) refl
drop-drop n (suc m) (x ∷ s) = rw (suc-add m n) (drop-drop n m s)
drop-drop zero (suc m) [] = rw (suc-add m 0) refl
drop-drop (suc n) (suc m) [] = rw (suc-add m (suc n)) refl

take_all : (n : ℕ) (s : Bytes) → length s ≤ n → take n s ≡ s
take_all zero [] h = refl
take_all (suc n) [] h = refl
take_all zero (x ∷ s) h = absurd (omega arith)
take_all (suc n) (x ∷ s) h = ap (λ t. x ∷ t) (take_all n s (omega arith))

sent_part :
    (n p : ℕ) (s : Bytes)
    → n ≤ p
    → p ≤ length s
    → take n (drop (length s - p) s) ++ drop (length s - (p - n)) s ≡ drop (length s - p) s
sent_part n p s h k =
    ap (λ t. take n (drop (length s - p) s) ++ t)
      (ap (λ m. drop m s) (omega arith) ∙ sym (drop-drop n (length s - p) s))
    ∙ take-append-drop n (drop (length s - p) s)

on_writable-pending :
    (n : ℕ) (c : Client)
    → c.events ≡ pollout
    → n ≤ c.curr_pos
    → c.curr_pos ≤ length c.text
    → take n (pending c) ++ pending (on_writable (some n) c) ≡ pending c
unfolding on_writable
on_writable-pending n c e h k = rw e (elim (Bool-cases (c.curr_pos - n == 0)) [
  | inl f ↦ rw f (
      append-nil (take n (drop (length c.text - c.curr_pos) c.text))
      ∙ take_all n (drop (length c.text - c.curr_pos) c.text) (
          omega (
            arith,
            length-drop (length c.text - c.curr_pos) c.text,
            (==_iff (c.curr_pos - n) 0).0 f,
          )))
  | inr f ↦ rw f (sent_part n c.curr_pos c.text h k)
])

-- Whatever numbers of bytes send takes, the bytes that the client has got, followed by those that
-- are still to be sent, are the answer.
pub deliver-pending :
    (ns : List ℕ) (c : Client)
    → Fits ns c
    → (deliver ns c).0 ++ pending (deliver ns c).1 ≡ pending c
unfolding deliver Fits
deliver-pending [] c f = refl
deliver-pending (n ∷ ns) c (e, h, k, f) =
    append_assoc (take n (pending c)) (deliver ns (on_writable (some n) c)).0
      (pending (deliver ns (on_writable (some n) c)).1)
    ∙ ap (λ t. take n (pending c) ++ t) (deliver-pending ns (on_writable (some n) c) f)
    ∙ on_writable-pending n c e h k
