-- ===== src/Pht/Text.antt =====
-- pht/src/hash-table-common.c: C strings and their hash. A string is the list of its bytes; it ends
-- at the first 0 byte or at the end of the list, where the terminating 0 stands.
use kernel_modules.Common.{
  ℕ, ◌+◌, ◌-◌, ◌*◌, ◌%◌, ◌^◌, ◌<◌, ◌≡◌, refl, ap, sym, ◌∙◌, Bool, true, ◌&&◌, ◌||◌, ◌==◌, ltb,
  if◌then◌else◌, List, [], ◌∷◌, arith, Bool-cases, inl, inr,
}

-- HASH_TABLE_CAPACITY.
abbrev pub hash_table_capacity : ℕ
hash_table_capacity = 4096

-- A `char` is signed, and is sign-extended to the 32 bits of the sum.
abbrev pub char_word : ℕ → ℕ
char_word c = if ltb c 128 then c else c + 2 ^ 32 - 256

-- The loop of bernstein_hash. The list falls with each round.
unfoldable pub hash_loop : ℕ → List ℕ → ℕ
hash_loop hash [] = hash
hash_loop hash (c ∷ rest) =
    let next = hash_loop ((33 * hash + char_word c) % 2 ^ 32) rest in if c == 0 then hash else next

unfoldable pub bernstein_hash : List ℕ → ℕ
unfolding hash_loop
bernstein_hash string = hash_loop 0 string

-- `strcmp(a, b) == 0`.
unfoldable pub streq : List ℕ → List ℕ → Bool
streq [] [] = true
streq [] (d ∷ b) = d == 0
streq (c ∷ a) [] = c == 0
streq (c ∷ a) (d ∷ b) = c == d && (c == 0 || streq a b)

-- The characters before the terminating 0.
unfoldable pub text : List ℕ → List ℕ
text [] = []
text (c ∷ rest) = if c == 0 then [] else c ∷ text rest

pub streq→text : (a b : List ℕ) → streq a b ≡ true → text a ≡ text b
unfolding streq text
streq→text [] [] h = refl
streq→text [] (d ∷ b) h = ground arith
streq→text (c ∷ a) [] h = ground arith
streq→text (c ∷ a) (d ∷ b) h = ground (arith, streq→text a b)

pub text→streq : (a b : List ℕ) → text a ≡ text b → streq a b ≡ true
unfolding streq text
text→streq [] [] h = refl
text→streq [] (d ∷ b) h = ground arith
text→streq (c ∷ a) [] h = ground arith
text→streq (c ∷ a) (d ∷ b) h = ground (arith, text→streq a b)

hash_loop-text : (h : ℕ) (a : List ℕ) → hash_loop h a ≡ hash_loop h (text a)
unfolding hash_loop text
hash_loop-text h [] = refl
hash_loop-text h (c ∷ a) = ground (arith, hash_loop-text ((33 * h + char_word c) % 2 ^ 32) a)

-- Strings that strcmp finds equal have the same hash.
pub hash-streq : (a b : List ℕ) → streq a b ≡ true → bernstein_hash a ≡ bernstein_hash b
unfolding bernstein_hash
hash-streq a b h =
    hash_loop-text 0 a ∙ ap (hash_loop 0) (streq→text a b h) ∙ sym (hash_loop-text 0 b)

pub streq_refl : (a : List ℕ) → streq a a ≡ true
streq_refl a = text→streq a a refl

pub streq_comm : (a b : List ℕ) → streq a b ≡ streq b a
streq_comm a b = elim (Bool-cases (streq a b)) [
  | inl same ↦ same ∙ sym (text→streq b a (sym (streq→text a b same)))
  | inr apart ↦ elim (Bool-cases (streq b a)) [
    | inl same ↦ absurd (cc (text→streq a b (sym (streq→text b a same))))
    | inr apart' ↦ apart ∙ sym apart'
  ]
]

pub streq_congr : (a b c : List ℕ) → streq a b ≡ true → streq a c ≡ streq b c
streq_congr a b c h = elim (Bool-cases (streq a c)) [
  | inl same ↦ same ∙ sym (text→streq b c (sym (streq→text a b h) ∙ streq→text a c same))
  | inr apart ↦ elim (Bool-cases (streq b c)) [
    | inl same ↦ absurd (cc (text→streq a c (streq→text a b h ∙ streq→text b c same)))
    | inr apart' ↦ apart ∙ sym apart'
  ]
]

hash_loop-lt : (h : ℕ) (a : List ℕ) → h < 2 ^ 32 → hash_loop h a < 2 ^ 32
unfolding hash_loop
hash_loop-lt h [] small = small
hash_loop-lt h (c ∷ a) small = elim (Bool-cases (c == 0)) [
  | inl last ↦ rw (last) small
  | inr more ↦ ground (arith, more, hash_loop-lt ((33 * h + char_word c) % 2 ^ 32) a (omega arith))
]

pub hash-lt : (a : List ℕ) → bernstein_hash a < 2 ^ 32
unfolding bernstein_hash
hash-lt a = hash_loop-lt 0 a (omega arith)
