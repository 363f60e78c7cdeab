-- ===== src/Io/Open/Laws.antt =====
-- What opening and closing do to the FILE blocks and the chain.
use riscos64_simple_binaries.Base.{
  ℕ, refl, ap, true, false, Option, none, some, List, [], arith, ==_self, pos, ◌≤◌, ◌<◌, ◌≡◌, ◌∙◌,
  ◌≢◌, ◌⊎◌, ◌∷◌, ◌++◌,
}
use riscos64_simple_binaries.Io.Stream.{File}
use riscos64_simple_binaries.Io.Open.{
  Mode, mode_char, parse_mode_from, parse_mode, find_reason, Files, unlink, fclose, fopen_link,
  stdin, stdout, stderr, set_block, close_all, io_final,
}

abbrev Updates : Mode → Type 0
Updates m = (m.reads ≡ true) × (m.writes ≡ true)

mode_char-Updates : (m : Mode) (c : ℕ) → Updates m → Updates (mode_char m c)
unfolding mode_char
mode_char-Updates m c h = ground arith

parse-Updates : (m : Mode) (cs : List ℕ) → Updates m → Updates (parse_mode_from m cs)
unfolding parse_mode_from
parse-Updates m [] h = h
parse-Updates m (c ∷ cs) h = parse-Updates (mode_char m c) cs (mode_char-Updates m c h)

parse_from-plus :
    (m : Mode) (before behind : List ℕ) (c : ℕ)
    → (c ≡ b'+') ⊎ (c ≡ b'a')
    → Updates (parse_mode_from m (before ++ c ∷ behind))
unfolding parse_mode_from
parse_from-plus m [] behind c h = parse-Updates (mode_char m c) behind (both h)
  where
    both : (c ≡ b'+') ⊎ (c ≡ b'a') → Updates (mode_char m c)
    both k = unfold mode_char in ground arith
parse_from-plus m (d ∷ before) behind c h = parse_from-plus (mode_char m d) before behind c h

-- Any mode with a '+' or an 'a' in it asks OS_Find for update, reason 0xC0 (with the two bits that
-- refuse other objects than files), whatever stands before or behind; so "w+" and "a" ask for the
-- same as "r+", and none of them asks for a new file.
parse_mode-update :
    (before behind : List ℕ) (c : ℕ)
    → (c ≡ b'+') ⊎ (c ≡ b'a')
    → find_reason (parse_mode (before ++ c ∷ behind)) ≡ 0xcc
unfolding parse_mode
parse_mode-update before behind c h =
    let (r, w) =
      parse_from-plus (record { reads = false; writes = false; appends = false }) before behind c
        h in
    ground arith

unlink_head : (fh : ℕ) (rest : List ℕ) → unlink fh (fh ∷ rest) ≡ (true, rest)
unfolding unlink
unlink_head fh rest = rw ==_self

at : (fh : ℕ) (f : File) (b : ℕ → Option File) → set_block b fh (some f) fh ≡ some f
at fh f b = rw ==_self

-- Closing a file that was just opened in a new block frees its block and puts the chain and all other blocks back
-- as they were; the dispatch function `close` has been called for it, and for no other.
fclose-fopen :
    (s : Files) (fh : ℕ) (f : File)
    → s.block fh ≡ none
    → f.magic ≡ true
    → let (r, s') = fclose (fopen_link s fh f) fh in
      (r ≡ pos 0)
      × (s'.chain ≡ s.chain)
      × (s'.closed ≡ fh ∷ s.closed)
      × ((n : ℕ) → s'.block n ≡ s.block n)
unfolding fclose fopen_link
fclose-fopen s fh f free m =
    rw (at fh f s.block, fclose)
      (rw m (rw (unlink_head fh s.chain) (refl, refl, refl, λ n. ground (arith, ap (λ b. b) free))))

-- A stream that is open, and a chain of open streams, none of them standard and none there twice.
abbrev pub IsOpen : Files → ℕ → Type 0
IsOpen s fh = (f : File) × (s.block fh ≡ some f) × (f.magic ≡ true)

abbrev pub Absent : ℕ → List ℕ → Type 0
Absent fh [] = Unit {0}
Absent fh (x ∷ xs) = (x ≢ fh) × Absent fh xs

abbrev pub AllOpen : Files → List ℕ → Type 0
AllOpen s [] = Unit {0}
AllOpen s (x ∷ xs) = IsOpen s x × (2 < x) × Absent x xs × AllOpen s xs

-- The numbers of `l`, the last first, in front of `log`.
abbrev pub logged : List ℕ → List ℕ → List ℕ
logged [] log = log
logged (x ∷ xs) log = logged xs (x ∷ log)

-- Closing an open stream that is not on the chain.
fclose_unlinked :
    (s : Files) (fh : ℕ)
    → s.chain ≡ []
    → IsOpen s fh
    → let s' = (fclose s fh).1 in
      (s'.chain ≡ []) × (s'.closed ≡ fh ∷ s.closed) × ((n : ℕ) → n ≢ fh → s'.block n ≡ s.block n)
unfolding fclose unlink
fclose_unlinked s fh c (f, b, m) = (ground arith, ground arith, λ n ne. ground arith)

AllOpen-keep :
    (s s' : Files) (x : ℕ) (l : List ℕ)
    → ((n : ℕ) → n ≢ x → s'.block n ≡ s.block n)
    → Absent x l
    → AllOpen s l
    → AllOpen s' l
AllOpen-keep s s' x [] k a h = tt
AllOpen-keep s s' x (y ∷ l) k (ne, a) ((f, b, m), big, d, h) =
    ((f, k y ne ∙ b, m), big, d, AllOpen-keep s s' x l k a h)

AllOpen-unchain : (s : Files) (l : List ℕ) → AllOpen s l → AllOpen (record s { chain = [] }) l
AllOpen-unchain s [] h = tt
AllOpen-unchain s (x ∷ l) (o, big, a, h) = (o, big, a, AllOpen-unchain s l h)

close_all_lem :
    (l : List ℕ) (s : Files)
    → s.chain ≡ []
    → AllOpen s l
    → let s' = close_all s l in
      (s'.chain ≡ []) × (s'.closed ≡ logged l s.closed) × ((n : ℕ) → n ≤ 2 → s'.block n ≡ s.block n)
unfolding close_all
close_all_lem [] s c h = (c, refl, λ n k. refl)
close_all_lem (x ∷ l) s c (o, big, a, h) =
    let (c', log, keep) = fclose_unlinked s x c o in
    let (c'', log', keep') =
      close_all_lem l (fclose s x).1 c' (AllOpen-keep s (fclose s x).1 x l keep a h) in
    (c'', log' ∙ ap (logged l) log, λ n k. keep' n k ∙ keep n (λ e. absurd (omega arith)))

-- With every stream on the chain open and on it once, and the three standard streams open,
-- `__io_final` closes each stream of the chain, from the head, and then stdin, stdout and stderr,
-- each exactly once, and leaves the chain empty.
pub io_final_lem :
    (s : Files)
    → AllOpen s s.chain
    → IsOpen s stdin
    → IsOpen s stdout
    → IsOpen s stderr
    → ((io_final s).chain ≡ [])
      × ((io_final s).closed ≡ stderr ∷ stdout ∷ stdin ∷ logged s.chain s.closed)
unfolding io_final
io_final_lem s h i o e =
    let s₀ : Files = record s { chain = [] } in
    let s₁ = close_all s₀ s.chain in
    let (c₁, l₁, k₁) = close_all_lem s.chain s₀ refl (AllOpen-unchain s s.chain h) in
    let (c₂, l₂, k₂) = fclose_unlinked s₁ stdin c₁ (i.0, k₁ 0 (omega arith) ∙ i.1, i.2) in
    let s₂ = (fclose s₁ stdin).1 in
    let (c₃, l₃, k₃) =
      fclose_unlinked s₂ stdout c₂ (o.0, k₂ 1 (omega arith) ∙ k₁ 1 (omega arith) ∙ o.1, o.2) in
    let s₃ = (fclose s₂ stdout).1 in
    let (c₄, l₄, k₄) =
      fclose_unlinked s₃ stderr c₃
        (e.0, k₃ 2 (omega arith) ∙ k₂ 2 (omega arith) ∙ k₁ 2 (omega arith) ∙ e.1, e.2) in
    (c₄, l₄ ∙ ap (λ t. stderr ∷ t) (l₃ ∙ ap (λ t. stdout ∷ t) (l₂ ∙ ap (λ t. stdin ∷ t) l₁)))
