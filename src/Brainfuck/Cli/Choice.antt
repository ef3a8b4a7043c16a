-- ===== src/Brainfuck/Cli/Choice.antt =====
-- What main does to which files.
use cpp_experiments.Common.{
  ◌≡◌, Bool, true, false, ◌||◌, List, ◌∷◌, arith, ◌==◌, if◌then◌else◌, length,
}
use cpp_experiments.Common.Bytes.{Bytes, codes, =ᵇ_iff}
use cpp_experiments.Brainfuck.Cli.{
  Action, help, shell, profile, execute, transpile, compile, Files, choose_mode, choose, last,
  has_opt, profile_flag, transpile_flag, exec_flag,
}

-- The action works on a file that is there and has the extension that it is for.
abbrev pub Fitting : Files → Action → Type 0
Fitting fs (profile f) = (fs.is_file f ≡ true) × (fs.extension f ≡ codes ".bf")
Fitting fs (compile f) = (fs.is_file f ≡ true) × (fs.extension f ≡ codes ".bf")
Fitting fs (execute f) = (fs.is_file f ≡ true) × (fs.extension f ≡ codes ".bfc")
Fitting fs (transpile f) = (fs.is_file f ≡ true) × (fs.extension f ≡ codes ".bfc")
Fitting fs _ = Unit {0}

choose_mode-Fitting : (fs : Files) (f : Bytes) (p t e : Bool) → Fitting fs (choose_mode fs f p t e)
unfolding choose_mode
choose_mode-Fitting fs f p t e =
    ground (arith, =ᵇ_iff (fs.extension f) (codes ".bfc"), =ᵇ_iff (fs.extension f) (codes ".bf"))

either :
    (fs : Files) (b : Bool) (x y : Action)
    → Fitting fs x
    → Fitting fs y
    → Fitting fs (if b then x else y)
either fs true x y h k = h
either fs false x y h k = k

-- Whatever the arguments, main compiles or profiles only a file that is there and ends in .bf, and
-- executes or transpiles only one that is there and ends in .bfc.
pub choose-Fitting :
    (fs : Files) (name : Bytes) (args : List Bytes) → Fitting fs (choose fs name args)
unfolding choose
choose-Fitting fs name args =
    let all = name ∷ args in
    let mode =
      choose_mode fs (last name args) (profile_flag all) (transpile_flag all) (exec_flag all) in
    either fs (has_opt (codes "-h") all || has_opt (codes "--help") all) help
      (if length all == 1 then shell else mode) tt
      (either fs (length all == 1) shell mode tt (
        choose_mode-Fitting fs (last name args) (profile_flag all) (transpile_flag all)
          (exec_flag all)))
