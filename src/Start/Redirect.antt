-- ===== src/Start/Redirect.antt =====
-- clib/main.c, `__cli_redirection`: arguments that redirect a stream are carried out and taken out
-- of the argument array.
pub mod Laws
use riscos64_simple_binaries.Base.{
  ℕ, zero, suc, Bool, true, false, Option, none, some, List, [], ltb, length, get_or, take, drop,
  ◌+◌, ◌-◌, ◌&&◌, ◌||◌, ◌∷◌, ◌==◌, if◌then◌else◌,
}

-- Why the function leaves by `__main_fail`
pub data Failure : Type 0 where
  other_handles : Failure
  bad_redirection : Failure
  input_failed : Failure
  output_failed : Failure

pub data Mode : Type 0 where
  for_reading : Mode
  for_writing : Mode
  for_appending : Mode

-- `freopen(filename, mode, stream)` for the stream 0, 1 or 2, kept in `stdin`, `stdout` or `stderr`;
-- `none` is NULL.
abbrev pub Freopen : Type 0 → Type 0
Freopen W = W → List ℕ → Mode → ℕ → Option W

-- What an argument is: `redirects fd append rest`, with `rest` where `arg` stands.
pub data Shape : Type 0 where
  not_redirection : Shape
  duplicates : Shape
  redirects : ℕ → Bool → List ℕ → Shape

-- The loop over the characters behind a '<'
unfoldable pub names_input : List ℕ → Bool
names_input [] = true
names_input (c ∷ cs) =
    let rest = names_input cs in
    if (c == b'<') || (c == b' ') then false else if c == b'>' then false else rest

-- `if (*arg == ' ')`
unfoldable pub unless_space : ℕ → Bool → List ℕ → Shape
unless_space fd append rest =
    if get_or rest 0 0 == b' ' then not_redirection else redirects fd append rest

-- Behind "1>", "2>" or ">"
unfoldable pub output_shape : ℕ → List ℕ → Shape
unfolding unless_space
output_shape fd rest =
    if get_or rest 0 0 == b'&'
    then duplicates
    else if get_or rest 0 0 == b'>'
    then unless_space fd true (drop 1 rest)
    else unless_space fd false rest

unfoldable pub shape : List ℕ → Shape
unfolding names_input unless_space output_shape
shape arg =
    if get_or arg 0 0 == b'<'
    then (if names_input (drop 1 arg) then unless_space 0 false (drop 1 arg) else not_redirection)
    else if ((get_or arg 0 0 == b'2') || (get_or arg 0 0 == b'1')) && (get_or arg 1 0 == b'>')
    then output_shape (get_or arg 0 0 - b'0') (drop 2 arg)
    else if get_or arg 0 0 == b'>'
    then output_shape 1 (drop 1 arg)
    else not_redirection

abbrev pub mode : ℕ → Bool → Mode
mode fd append = if fd == 0 then for_reading else if append then for_appending else for_writing

abbrev pub open_failure : ℕ → Failure
open_failure fd = if fd == 0 then input_failed else output_failed

-- `argv[i] = arg`
module _ {ℓ} {A : Type ℓ} where
  unfoldable pub put_at : List A → ℕ → A → List A
  put_at [] i a = []
  put_at (x ∷ xs) zero a = a ∷ xs
  put_at (x ∷ xs) (suc i) a = x ∷ put_at xs i a

-- `for (o = i + 1; oldi < argc; o++, oldi++) argv[oldi] = argv[o];` for the turns that are left
unfoldable pub shift : ℕ → List (List ℕ) → ℕ → ℕ → List (List ℕ)
unfolding put_at
shift zero argv oldi o = argv
shift (suc turns) argv oldi o = shift turns (put_at argv oldi (get_or argv o [])) (oldi + 1) (o + 1)

-- `argc`, a parameter and so a copy, `argv` and the streams
pub record Args (W : Type 0) : Type 0 where
  pub i : ℕ
  pub argc : ℕ
  pub argv : List (List ℕ)
  pub streams : W

pub data Step (W : Type 0) : Type 0 where
  failed : Failure → Step W
  onward : Args W → Step W

-- The redirection to `filename`, whose name stands in argument `j`, and the removal
unfoldable pub redirect : {W : Type 0} → Freopen W → ℕ → Bool → List ℕ → ℕ → Args W → Step W
unfolding shift
redirect freopen fd append filename j s = elim (freopen s.streams filename (mode fd append) fd) [
  | none ↦ failed (open_failure fd)
  | some w ↦
      let argc' = s.argc - (j - s.i + 1) in
      onward (record {
        i = s.i;
        argc = argc';
        argv = shift (argc' - s.i) s.argv s.i (j + 1);
        streams = w;
      })
]

unfoldable pub act : {W : Type 0} → Freopen W → Shape → Args W → Step W
unfolding redirect
act freopen not_redirection s = onward (record s { i = s.i + 1 })
act freopen duplicates s = failed other_handles
act freopen (redirects fd append []) s =
    if s.i + 1 == s.argc
    then failed bad_redirection
    else redirect freopen fd append (get_or s.argv (s.i + 1) []) (s.i + 1) s
act freopen (redirects fd append (c ∷ cs)) s = redirect freopen fd append (c ∷ cs) s.i s

-- The loop, with fuel
unfoldable pub redirection : {W : Type 0} → ℕ → Freopen W → Step W → Step W
unfolding act shape
redirection zero freopen r = r
redirection (suc fuel) freopen (failed f) = failed f
redirection (suc fuel) freopen (onward s) =
    if ltb s.i s.argc
    then redirection fuel freopen (act freopen (shape (get_or s.argv s.i [])) s)
    else onward s

abbrev pub redirection_start : {W : Type 0} → List (List ℕ) → W → Step W
redirection_start args w = onward (record { i = 0; argc = length args; argv = args; streams = w })

-- What `main` gets of the step: its own `argc` and the first entries of the array
unfoldable pub main_arguments : {W : Type 0} → ℕ → Step W → Option (List (List ℕ))
main_arguments argc (failed f) = none
main_arguments argc (onward s) = some (take argc s.argv)
