-- ===== src/Pht/Tester.antt =====
-- pht/src/pht-tester.c: the numbers of the command line, and where a thread finds its keys.
pub mod Parse
pub mod Runs
pub mod Missing
pub mod Threaded
pub mod Indices
pub mod Strings
pub mod Generated
use kernel_modules.Common.{
  ℕ, ◌+◌, ◌-◌, ◌*◌, ◌%◌, ◌^◌, ◌≡◌, refl, Bool, true, false, not, ◌&&◌, ◌||◌, ◌==◌, ltb,
  if◌then◌else◌, List, [], ◌∷◌, Option, none, some,
}

-- `c < 0x30 || c > 0x39`; a `char` above 127 is negative, and no digit either way.
abbrev pub is_digit : ℕ → Bool
is_digit c = not (ltb c 0x30 || ltb 0x39 c)

-- The check at the tenth digit.
abbrev pub overflows : ℕ → ℕ → Bool
overflows current digit = ltb 429496729 current || (current == 429496729 && ltb 5 digit)

-- The loop of parse_uint32_t, at the character `i`; none is exit(EINVAL). `i` is at most 10 here,
-- below the wrap of an uint8_t.
unfoldable pub parse_loop : ℕ → ℕ → List ℕ → Option ℕ
parse_loop current i [] = some current
parse_loop current i (c ∷ string) =
    let rest = parse_loop ((current * 10 + (c - 0x30)) % 2 ^ 32) (i + 1) string in
    if c == 0
    then some current
    else if i == 10
    then none
    else if not (is_digit c)
    then none
    else if i == 9 && overflows current (c - 0x30)
    then none
    else rest

unfoldable pub parse_uint32_t : List ℕ → Option ℕ
unfolding parse_loop
parse_uint32_t string = parse_loop 0 0 string

-- The product of two uint32_t wraps, before it becomes a size_t.
unfoldable pub get_global_index : ℕ → ℕ → ℕ → ℕ
get_global_index size thread index = (thread * size + index) % 2 ^ 32

-- The bytes of `calloc(threads * size, BYTES_PER_STRING)`: the product of two uint32_t wraps here too.
unfoldable pub data_bytes : ℕ → ℕ → ℕ
data_bytes size threads = threads * size % 2 ^ 32 * 8

-- `data + (global_index * BYTES_PER_STRING)`.
unfoldable pub get_string : ℕ → ℕ → ℕ
get_string start global_index = start + global_index * 8
