-- ===== src/Tps/Status.antt =====
-- The name that tps/src/main.c reads from the status file of a process.
use kernel_modules.Common.{
  ℕ, ◌≡◌, refl, ap, ◌∙◌, Bool, true, false, ◌&&◌, not, ◌==◌, List, [], ◌∷◌, ◌++◌, some, length,
  codes, append_assoc, arith,
}
use kernel_modules.Tps.{
  is_space, get_first_line, string_at, skip_spaces, get_proc_name, after_needle, after_prefix,
}

-- A text of one line.
abbrev pub is_clean : List ℕ → Bool
is_clean [] = true
is_clean (c ∷ rest) = not (c == 0) && not (c == 0x0a) && is_clean rest

abbrev pub starts_spaceless : List ℕ → Bool
starts_spaceless [] = true
starts_spaceless (c ∷ rest) = not (is_space c)

clean_parts : (a b c : Bool) → (not a && not b && c) ≡ true → (a ≡ false) × (b ≡ false) × (c ≡ true)
clean_parts false false true h = (refl, refl, refl)
clean_parts false false false h = absurd (cc h)
clean_parts false true c h = absurd (cc h)
clean_parts true b c h = absurd (cc h)

first_line :
    (line rest tail : List ℕ)
    → is_clean line ≡ true
    → get_first_line (length (line ++ (0x0a ∷ rest))) (line ++ (0x0a ∷ tail)) ≡ line ++ (0 ∷ tail)
unfolding get_first_line
first_line [] rest tail h = refl
first_line (c ∷ line) rest tail h =
    let (ended, broken, clean) = clean_parts (c == 0) (c == 0x0a) (is_clean line) h in
    rw (broken, first_line line rest tail clean)

pub line_text :
    (line tail : List ℕ) → is_clean line ≡ true → string_at (line ++ (0 ∷ tail)) ≡ some line
unfolding string_at
line_text [] tail h = refl
line_text (c ∷ line) tail h =
    let (ended, broken, clean) = clean_parts (c == 0) (c == 0x0a) (is_clean line) h in
    rw (ended, line_text line tail clean)

pub name_text : (name : List ℕ) → starts_spaceless name ≡ true → skip_spaces name ≡ name
unfolding skip_spaces
name_text [] h = refl
name_text (c ∷ name) h = ground (arith, h)

pub proc_name :
    (name : List ℕ)
    → starts_spaceless name ≡ true
    → get_proc_name (codes "Name:\t" ++ name) ≡ some name
unfolding get_proc_name after_needle after_prefix skip_spaces
proc_name name h = ap some (name_text name h)

-- The array after a read of a status file whose first line names the process, and the cut of that
-- line.
pub status_line :
    (name rest old : List ℕ)
    → is_clean name ≡ true
    → let bytes = codes "Name:\t" ++ name ++ (0x0a ∷ rest) in
      string_at (get_first_line (length bytes) (bytes ++ old)) ≡ some (codes "Name:\t" ++ name)
status_line name rest old clean =
    ap (λ file. string_at (get_first_line (length bytes) file))
      (append_assoc (codes "Name:\t" ++ name) (0x0a ∷ rest) old)
    ∙ ap string_at (first_line (codes "Name:\t" ++ name) rest (rest ++ old) clean)
    ∙ line_text (codes "Name:\t" ++ name) (rest ++ old) clean
  where
    bytes : List ℕ
    bytes = codes "Name:\t" ++ name ++ (0x0a ∷ rest)
