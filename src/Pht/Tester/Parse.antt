-- ===== src/Pht/Tester/Parse.antt =====
-- parse_uint32_t against the decimal number that the string writes.
use kernel_modules.Common.{
  ℕ, zero, suc, ◌+◌, ◌-◌, ◌*◌, ◌%◌, ◌^◌, ◌≤◌, ◌<◌, ◌≡◌, refl, sym, ap, ◌∙◌, Bool, true, false, ◌&&◌,
  ◌==◌, ltb, leb, if◌then◌else◌, List, [], ◌∷◌, Option, none, some, length, arith, Bool-cases, inl,
  inr,
}
use mathlib.Core.Path.{subst}
use kernel_modules.Pht.Text.{text}
use kernel_modules.Pht.Tester.{is_digit, overflows, parse_loop, parse_uint32_t}

-- The number that decimal digits write after the number `before`.
unfoldable pub decimal : ℕ → List ℕ → ℕ
decimal before [] = before
decimal before (c ∷ rest) = decimal (before * 10 + (c - 0x30)) rest

abbrev pub all_digits : List ℕ → Bool
all_digits [] = true
all_digits (c ∷ rest) = is_digit c && all_digits rest

decimal-le : (before : ℕ) (s : List ℕ) → before ≤ decimal before s
unfolding decimal
decimal-le before [] = omega arith
decimal-le before (c ∷ rest) = omega (arith, decimal-le (before * 10 + (c - 0x30)) rest)

-- The decimal number of a string of at most `room` digits, if it fits 32 bits.
abbrev pub accepted : ℕ → ℕ → List ℕ → Option ℕ
accepted before room s =
    if all_digits s && leb (length s) room && ltb (decimal before s) (2 ^ 32)
    then some (decimal before s)
    else none

and_last : (a b c : Bool) → c ≡ false → (a && b && c) ≡ false
and_last a b c h = ground arith

and_middle : (a b c : Bool) → b ≡ false → (a && b && c) ≡ false
and_middle a b c h = ground arith

accepted-full : (before c : ℕ) (t : List ℕ) → accepted before 0 (c ∷ t) ≡ none
accepted-full before c t = rw (
    and_middle (all_digits (c ∷ t)) (leb (suc (length t)) 0) (ltb (decimal before (c ∷ t)) (2 ^ 32))
      (ground arith))

accepted-other :
    (before room c : ℕ) (t : List ℕ) → is_digit c ≡ false → accepted before room (c ∷ t) ≡ none
accepted-other before room c t other = rw other

leb-suc : (a b : ℕ) → leb (suc a) (suc b) ≡ leb a b
leb-suc a b = ground arith

accepted-digit :
    (before room c : ℕ) (t : List ℕ)
    → is_digit c ≡ true
    → accepted before (suc room) (c ∷ t) ≡ accepted (before * 10 + (c - 0x30)) room t
unfolding decimal
accepted-digit before room c t digit = rw (digit, leb-suc (length t) room)

accepted-big : (before room : ℕ) (t : List ℕ) → 2 ^ 32 ≤ before → accepted before room t ≡ none
accepted-big before room t big = rw (
    and_last (all_digits t) (leb (length t) room) (ltb (decimal before t) (2 ^ 32))
      (ground (arith, decimal-le before t)))

abbrev ten_to : ℕ → ℕ
ten_to zero = 1
ten_to (suc i) = 10 * ten_to i

ten_to-le : (i k : ℕ) → i ≤ k → ten_to i ≤ ten_to k
ten_to-le zero zero h = omega arith
ten_to-le zero (suc k) h = omega (arith, ten_to-le zero k (omega arith))
ten_to-le (suc i) zero h = absurd (omega arith)
ten_to-le (suc i) (suc k) h = omega (arith, ten_to-le i k (omega arith))

ten_to-next : (i a d : ℕ) → a < ten_to i → d ≤ 9 → a * 10 + d < ten_to (i + 1)
ten_to-next i a d small digit = subst (λ n. a * 10 + d < ten_to n) (plus_one i) (omega arith)
  where
    plus_one : (i : ℕ) → suc i ≡ i + 1
    plus_one i = omega arith

no_wrap : (a : ℕ) → a < 2 ^ 32 → a % 2 ^ 32 ≡ a
no_wrap a h = omega arith

room_left : (i : ℕ) → 10 - (i + 1) ≡ 9 - i
room_left i = omega arith

digit-le : (c : ℕ) → is_digit c ≡ true → c - 0x30 ≤ 9
digit-le c h = ground arith

-- The checks at a digit, before the tenth character: the next sum wraps exactly when they stop it.
module _ (before i c : ℕ) (h : i ≤ 9) (digit : is_digit c ≡ true) (small : before < ten_to i) where
  stopped : (i == 9 && overflows before (c - 0x30)) ≡ true → 2 ^ 32 ≤ before * 10 + (c - 0x30)
  stopped e = ground arith

  tenth :
      i ≡ 9 → (i == 9 && overflows before (c - 0x30)) ≡ false → before * 10 + (c - 0x30) < 2 ^ 32
  tenth at e = ground (arith, digit-le c digit)

  earlier : i ≤ 8 → before * 10 + (c - 0x30) < 2 ^ 32
  earlier low = omega (arith, ten_to-le i 8 low, digit-le c digit)

  passed : (i == 9 && overflows before (c - 0x30)) ≡ false → before * 10 + (c - 0x30) < 2 ^ 32
  passed e = elim (Bool-cases (i == 9)) [
    | inl at_nine ↦ tenth (ground (arith, at_nine)) e
    | inr less ↦ earlier (ground (arith, less))
  ]

  next_small : before * 10 + (c - 0x30) < ten_to (i + 1)
  next_small = ten_to-next i before (c - 0x30) small (digit-le c digit)

  accepted_here :
      (t : List ℕ)
      → accepted before (10 - i) (c ∷ t) ≡ accepted (before * 10 + (c - 0x30)) (9 - i) t
  accepted_here t =
      subst (λ r. accepted before r (c ∷ t) ≡ accepted (before * 10 + (c - 0x30)) (9 - i) t)
        (room i h) (accepted-digit before (9 - i) c t digit)
    where
      room : (i : ℕ) → i ≤ 9 → suc (9 - i) ≡ 10 - i
      room i h = omega arith

  digit_step :
      (s : List ℕ)
      → (before * 10 + (c - 0x30) < 2 ^ 32
          → parse_loop (before * 10 + (c - 0x30)) (i + 1) s
            ≡ accepted (before * 10 + (c - 0x30)) (10 - (i + 1)) (text s))
      → (if i == 9 && overflows before (c - 0x30)
          then none
          else parse_loop ((before * 10 + (c - 0x30)) % 2 ^ 32) (i + 1) s)
        ≡ accepted before (10 - i) (c ∷ text s)
  digit_step s next = elim (Bool-cases (i == 9 && overflows before (c - 0x30))) [
    | inl stop ↦
        rw stop (sym (accepted_here (text s) ∙ accepted-big _ (9 - i) (text s) (stopped stop)))
    | inr go ↦
        rw (go, no_wrap (before * 10 + (c - 0x30)) (passed go))
          (next (passed go)
            ∙ ap (λ r. accepted (before * 10 + (c - 0x30)) r (text s)) (room_left i)
            ∙ sym (accepted_here (text s)))
  ]

loop_digit :
    (before i c : ℕ) (s : List ℕ)
    → (c == 0) ≡ false
    → (i == 10) ≡ false
    → is_digit c ≡ true
    → parse_loop before i (c ∷ s) ≡ (
        if i == 9 && overflows before (c - 0x30)
        then none
        else parse_loop ((before * 10 + (c - 0x30)) % 2 ^ 32) (i + 1) s)
unfolding parse_loop
loop_digit before i c s more room digit = rw (more, room, digit)

text_more : (c : ℕ) (s : List ℕ) → (c == 0) ≡ false → text (c ∷ s) ≡ c ∷ text s
unfolding text
text_more c s more = rw more

-- At `i` characters, with `before` below the i-th power of 10.
parse_loop-accepted :
    (before i : ℕ) (s : List ℕ)
    → i ≤ 10
    → before < ten_to i
    → before < 2 ^ 32
    → parse_loop before i s ≡ accepted before (10 - i) (text s)
unfolding parse_loop text decimal
parse_loop-accepted before i [] h small fits = ground (arith)
parse_loop-accepted before i (c ∷ s) h small fits = elim (Bool-cases (c == 0)) [
  | inl last ↦ rw last (ground arith)
  | inr more ↦ elim (Bool-cases (i == 10)) [
    | inl full ↦
        let ten : i ≡ 10 = ground (arith, full) in
        rw (more, full, ten) (sym (accepted-full before c (text s)))
    | inr room ↦ elim (Bool-cases (is_digit c)) [
      | inr other ↦ rw (more, room, other) refl
      | inl digit ↦
          let less : i ≤ 9 = ground (arith, room) in
          loop_digit before i c s more room digit
          ∙ digit_step before i c less digit small s (λ low.
            parse_loop-accepted (before * 10 + (c - 0x30)) (i + 1) s (omega arith)
              (next_small before i c less digit small) low)
          ∙ ap (accepted before (10 - i)) (sym (text_more c s more))
    ]
  ]
]

-- parse_uint32_t returns the decimal number that the string writes if the string has only digits,
-- at most ten of them, and the number fits 32 bits, and exits with EINVAL for every other string.
-- (The empty string is 0.)
pub parse_uint32_t_lem : (string : List ℕ) → parse_uint32_t string ≡ accepted 0 10 (text string)
unfolding parse_uint32_t
parse_uint32_t_lem string = parse_loop-accepted 0 0 string (omega arith) (omega arith) (omega arith)
