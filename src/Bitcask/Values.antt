-- ===== src/Bitcask/Values.antt =====
-- What a value reads as in a log that has grown.
use cpp_experiments.Common.{
  ℕ, zero, suc, ◌+◌, ◌-◌, ◌≤◌, ◌≡◌, refl, ap, sym, ◌∙◌, Bool, true, false, List, [], ◌∷◌, ◌++◌,
  append_assoc, append-nil, arith, ◌==◌, if◌then◌else◌, length, length-append, take, drop,
}
use cpp_experiments.Common.Bytes.{Bytes, take_at, drop_at}
use cpp_experiments.Common.Words.{le_bytes}
use cpp_experiments.Bitcask.{
  KeyDirValue, FileEntry, Bitcask, entry_bytes, int_bytes, compute_crc, append_to, read_value,
}

pub same : (n : ℕ) → (n == n) ≡ true
same n = ground arith

module _ {A : Type 0} where
  take-longer : (n : ℕ) (a s : List A) → n ≤ length a → take n (a ++ s) ≡ take n a
  take-longer zero a s h = refl
  take-longer (suc n) [] s h = ground arith
  take-longer (suc n) (x ∷ a) s h = ap (◌∷◌ x) (take-longer n a s (omega arith))

  drop-longer : (n : ℕ) (a s : List A) → n ≤ length a → drop n (a ++ s) ≡ drop n a ++ s
  drop-longer zero a s h = refl
  drop-longer (suc n) [] s h = ground arith
  drop-longer (suc n) (x ∷ a) s h = drop-longer n a s (omega arith)

  length-drop : (n : ℕ) (a : List A) → length (drop n a) ≡ length a - n
  length-drop zero a = omega arith
  length-drop (suc n) [] = omega arith
  length-drop (suc n) (x ∷ a) = length-drop n a ∙ omega arith

-- What stands behind a value in the file does not matter.
read_value-longer :
    (w : KeyDirValue) (file more : Bytes)
    → w.vpos + w.vsize ≤ length file
    → read_value w (file ++ more) ≡ read_value w file
read_value-longer w file more h =
    rw
      (
        drop-longer w.vpos file more (omega arith),
        take-longer w.vsize (drop w.vpos file) more (omega (arith, length-drop w.vpos file)),
      )
      refl

pub read_value-append_to :
    (b : Bitcask) (id : ℕ) (bytes : Bytes) (w : KeyDirValue)
    → w.vpos + w.vsize ≤ length (b.logs w.id)
    → read_value w (append_to id bytes b.logs w.id) ≡ read_value w (b.logs w.id)
read_value-append_to b id bytes w h = go (w.id == id)
  where
    go :
        (here : Bool)
        → read_value w (if here then b.logs w.id ++ bytes else b.logs w.id)
          ≡ read_value w (b.logs w.id)
    go true = read_value-longer w (b.logs w.id) bytes h
    go false = refl

pub length-append_to :
    (b : Bitcask) (id : ℕ) (bytes : Bytes) (i : ℕ)
    → length (b.logs i) ≤ length (append_to id bytes b.logs i)
length-append_to b id bytes i = ground (arith, length-append (b.logs i) bytes)

-- An entry in the file up to its value.
abbrev pub before_value : FileEntry → Bytes
before_value e = le_bytes 4 (compute_crc (int_bytes e) e.key e.val) ++ (int_bytes e ++ e.key)

pub entry_bytes-split : (e : FileEntry) → entry_bytes e ≡ before_value e ++ e.val
unfolding entry_bytes
entry_bytes-split e = simp append_assoc

pub length-before_value : (e : FileEntry) → length (before_value e) ≡ 16 + length e.key
unfolding int_bytes le_bytes
length-before_value e = omega arith

pub read_value-entry :
    (w : KeyDirValue) (file : Bytes) (e : FileEntry)
    → w.vpos ≡ length file + 16 + length e.key
    → w.vsize ≡ length e.val
    → read_value w (file ++ entry_bytes e) ≡ e.val
read_value-entry w file e h k =
    let shape : file ++ entry_bytes e ≡ (file ++ before_value e) ++ e.val =
      rw (entry_bytes-split e) (sym (append_assoc file (before_value e) e.val)) in
    let here : drop w.vpos (file ++ entry_bytes e) ≡ e.val =
      drop_at w.vpos (file ++ entry_bytes e) (file ++ before_value e) e.val
        (omega (arith, length-append file (before_value e), length-before_value e)) shape in
    let all : take w.vsize e.val ≡ e.val =
      take_at w.vsize e.val e.val [] k (sym (append-nil e.val)) in
    let none_left : w.vsize - length e.val ≡ 0 = omega arith in
    rw (here, all, none_left) (append-nil e.val)
