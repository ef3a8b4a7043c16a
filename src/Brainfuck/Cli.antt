-- ===== src/Brainfuck/Cli.antt =====
-- misc/brainfuck.cpp: `main`, which chooses what to do, and `getLoopRepr`, which names a loop in
-- the profile. The file system is a parameter.
pub mod Choice
use cpp_experiments.Common.{
  ℕ, zero, suc, ◌+◌, Bool, true, false, ◌&&◌, ◌||◌, not, Option, none, some, List, [], ◌∷◌, ◌++◌,
  ◌==◌, ltb, if◌then◌else◌, length,
}
use cpp_experiments.Common.Bytes.{Bytes, codes, ◌=ᵇ◌}
use cpp_experiments.Common.Decimal.{print_ℕ}

-- hasOpt
unfoldable pub has_opt : Bytes → List Bytes → Bool
has_opt arg [] = false
has_opt arg (a ∷ args) = (a =ᵇ arg) || has_opt arg args

unfoldable pub last : Bytes → List Bytes → Bytes
last a [] = a
last a (b ∷ args) = last b args

pub data Action : Type 0 where
  help shell : Action
  failure : Bytes → Action
  profile execute transpile compile : Bytes → Action

-- What std::filesystem says of a path.
pub record Files : Type 0 where
  pub is_file : Bytes → Bool
  pub extension : Bytes → Bytes

abbrev pub profile_flag : List Bytes → Bool
profile_flag args = has_opt (codes "-p") args || has_opt (codes "--profile") args

abbrev pub transpile_flag : List Bytes → Bool
transpile_flag args = has_opt (codes "-t") args || has_opt (codes "--transpile") args

abbrev pub exec_flag : List Bytes → Bool
exec_flag args = has_opt (codes "-e") args || has_opt (codes "--exec") args

abbrev pub shown_extension : Bytes → Bytes
shown_extension [] = codes "*EMPTY*"
shown_extension (c ∷ s) = c ∷ s

-- The branches behind the help and the shell, from the three flags.
unfoldable pub choose_mode : Files → Bytes → Bool → Bool → Bool → Action
choose_mode fs file p t e =
    let ext = fs.extension file in
    let bfc = ext =ᵇ codes ".bfc" in
    if not (fs.is_file file)
    then failure (codes "No such file: " ++ file)
    else if p && t
    then failure (codes "Cannot transpile & profile at the same time.")
    else if t && e
    then failure (codes "Can only Transpile OR Execute the bytecode.")
    else if not bfc && not (ext =ᵇ codes ".bf")
    then failure (codes "Unsupported extension: " ++ shown_extension ext)
    else if p
    then (if bfc then failure (codes "Cannot profile a bytecode.") else profile file)
    else if t || e
    then (if not bfc
        then failure (
            codes
              "Must be compiled before transpiling or executing it.\nTry: `brainfuck <file.bf>`.")
        else if e
        then execute file
        else transpile file)
    else if not bfc
    then compile file
    else failure (codes "Already compiled. Use -t or -e instead.")

-- main, with the name of the program as the first argument.
unfoldable pub choose : Files → Bytes → List Bytes → Action
choose fs name args =
    let all = name ∷ args in
    if has_opt (codes "-h") all || has_opt (codes "--help") all
    then help
    else if length all == 1
    then shell
    else choose_mode fs (last name args) (profile_flag all) (transpile_flag all) (exec_flag all)

-- BRAINFUCK_CHARS
abbrev is_command : ℕ → Bool
is_command c =
    c == b'+'
    || (c == b'-'
        || (c == b'>' || (c == b'<' || (c == b',' || (c == b'.' || (c == b'[' || c == b']'))))))

abbrev folds : ℕ → Bool
folds c = not (c == b'[' || (c == b']' || (c == b'.' || c == b',')))

-- The character that is pending with its count, as it is written. The pair starts with a null
-- character, which the loop does not write.
abbrev shown_run : ℕ → ℕ → Bytes
shown_run c n = c ∷ (if ltb 1 n then print_ℕ n else [])

abbrev flushed : ℕ → ℕ → Bytes
flushed c n = if c == 0 then [] else shown_run c n

-- getLoopRepr on the text of the loop.
unfoldable pub loop_repr : ℕ → ℕ → Bytes → Bytes
loop_repr c n [] = shown_run c n
loop_repr c n (x ∷ s) =
    let skipped = loop_repr c n s in
    let folded = loop_repr c (n + 1) s in
    let started = flushed c n ++ loop_repr x 1 s in
    if not (is_command x) then skipped else if (c == x) && folds x then folded else started
