-- ===== src/Ssp/Rows.antt =====
-- The table that ssp_print of ssp/src/ssp.c prints: its columns and its rows.
use kernel_modules.Common.{
  ℕ, zero, suc, ◌+◌, ◌-◌, ◌≤◌, ◌≡◌, refl, sym, ap, ◌∙◌, Bool, true, false, ◌||◌, leb, if◌then◌else◌,
  List, [], ◌∷◌, ◌++◌, append_assoc, replicate, length-replicate, length-append, drop, Option, none,
  some, length, get_elem?, get_elem?-middle, is_negative, space, pad_left, pad_right, ok, ◌>>=◌,
  some-injective, Bool-cases, inl, inr, arith,
}
use mathlib.Core.Path.{subst}
use kernel_modules.Ssp.{Process, State, SspCall, or_quit, null_pointer}
use kernel_modules.Ssp.Print.{max, columns, longest_from, longest_proc_name}
use kernel_modules.Ssp.Table.{blank, all, all_head, all_tail, process_runs}
use kernel_modules.Ssp.Shows.{Shows, all_known, has_name, table-length}

-- A name, as printf reads it.
abbrev pub name_of : Option (List ℕ) → List ℕ
name_of none = []
name_of (some name) = name

-- The larger of two widths.
abbrev pub larger : ℕ → ℕ → ℕ
larger a b = if leb a b then b else a

max-larger : (a b : ℕ) → max a b ≡ larger a b
unfolding max
max-larger a b = ground arith

-- The text of a row: the pid at the right of seven columns, the name at the left of `width`.
abbrev pub text_row : ℕ → List ℕ → List ℕ → List ℕ → List ℕ
text_row width pid name status =
    replicate (7 - length pid) space
    ++ pid
    ++ (space ∷ [])
    ++ name
    ++ replicate (width - length name) space
    ++ (space ∷ [])
    ++ status

pub columns_lem :
    (width : ℕ) (pid name status : List ℕ)
    → columns width pid name status ≡ text_row width pid name status
columns_lem width pid name status =
    ap (λ (l : List ℕ). l ++ (space ∷ []) ++ status)
      (sym (
        append_assoc (replicate (7 - length pid) space ++ pid ++ (space ∷ [])) name
          (replicate (width - length name) space)))

-- The width of the second column, at least `width`.
unfoldable pub widest : List Process → ℕ → ℕ
widest [] width = width
widest (p ∷ rest) width =
    let without = widest rest width in
    let within = widest rest (larger width (length (name_of p.name))) in
    if is_negative p.pid then without else within

larger-left : (a b : ℕ) → a ≤ larger a b
larger-left a b = ground arith

larger-right : (a b : ℕ) → b ≤ larger a b
larger-right a b = ground arith

pub widest-le : (ps : List Process) (width : ℕ) → width ≤ widest ps width
unfolding widest
widest-le [] width = omega arith
widest-le (p ∷ ps) width = elim (Bool-cases (is_negative p.pid)) [
  | inl h ↦ rw h (widest-le ps width)
  | inr h ↦ rw h (
      omega (
        arith,
        widest-le ps (larger width (length (name_of p.name))),
        larger-left width (length (name_of p.name)),
      ))
]

pub widest-name :
    (ps : List Process) (width i : ℕ) (p : Process)
    → get_elem? ps i ≡ some p
    → is_negative p.pid ≡ false
    → length (name_of p.name) ≤ widest ps width
unfolding widest
widest-name [] width i p e h = absurd (cc e)
widest-name (q ∷ ps) width zero p e h =
    subst
      (λ (r : Process). length (name_of r.name) ≤ (
        if is_negative q.pid
        then widest ps width
        else widest ps (larger width (length (name_of q.name)))))
      (some-injective e)
      (rw (ap (λ (r : Process). is_negative r.pid) (some-injective e) ∙ h) (
        omega (
          arith,
          widest-le ps (larger width (length (name_of q.name))),
          larger-right width (length (name_of q.name)),
        )))
widest-name (q ∷ ps) width (suc i) p e h = elim (Bool-cases (is_negative q.pid)) [
  | inl k ↦ rw k (widest-name ps width i p e h)
  | inr k ↦ rw k (widest-name ps (larger width (length (name_of q.name))) i p e h)
]

drop-append : (xs ys : List ℕ) (n : ℕ) → n ≡ length xs → drop n (xs ++ ys) ≡ ys
drop-append [] ys zero h = refl
drop-append [] ys (suc n) h = absurd (omega (arith, h))
drop-append (x ∷ xs) ys zero h = absurd (omega (arith, h))
drop-append (x ∷ xs) ys (suc n) h = drop-append xs ys n (omega (arith, h))

length-pad_left :
    (width : ℕ) (text : List ℕ) → length text ≤ width → length (pad_left width text) ≡ width
length-pad_left width text h = omega (
  arith,
  length-append (replicate (width - length text) space) text,
  length-replicate (width - length text) space,
)

length-pad_right :
    (width : ℕ) (text : List ℕ) → length text ≤ width → length (pad_right width text) ≡ width
length-pad_right width text h = omega (
  arith,
  length-append text (replicate (width - length text) space),
  length-replicate (width - length text) space,
)

-- A row whose pid has at most seven characters and whose name fits has its status in one column.
pub columns_aligned :
    (width : ℕ) (pid name status : List ℕ)
    → length pid ≤ 7
    → length name ≤ width
    → drop (width + 9) (columns width pid name status) ≡ status
columns_aligned width pid name status h k =
    drop-append (pad_left 7 pid ++ (space ∷ []) ++ pad_right width name ++ (space ∷ [])) status
      (width + 9)
      (omega (
        arith,
        length-append (pad_left 7 pid ++ (space ∷ []) ++ pad_right width name) (space ∷ []),
        length-append (pad_left 7 pid ++ (space ∷ [])) (pad_right width name),
        length-append (pad_left 7 pid) (space ∷ []),
        length-pad_left 7 pid h,
        length-pad_right width name k,
      ))

-- A process that ssp_print does not stop at.
abbrev pub is_ready : Process → Bool
is_ready p = is_negative p.pid || has_name p.name

module _ {W : Type 0} where
  pub name_runs :
      {B : Type 0} (o : Option (List ℕ)) (f : List ℕ → SspCall W B) (s : State W)
      → has_name o ≡ true
      → (or_quit null_pointer o >>= f) s ≡ f (name_of o) s
  name_runs none f s h = absurd (cc h)
  name_runs (some name) f s h = refl

  -- The state with another table.
  abbrev tabled : State W → List Process → State W
  tabled s ps = record s { processes = ps }

  -- One round of the loop of longest_proc_name.
  longest_step :
      (s : State W) (before rest : List Process) (p : Process) (width : ℕ)
      → is_ready p ≡ true
      → ((width : ℕ)
          → longest_from
              (length rest)
              (length (before ++ (p ∷ [])))
              width
              (tabled s ((before ++ (p ∷ [])) ++ rest))
            ≡ ok (widest rest width, tabled s ((before ++ (p ∷ [])) ++ rest)))
      → longest_from (suc (length rest)) (length before) width (tabled s (before ++ (p ∷ rest)))
        ≡ ok (widest (p ∷ rest) width, tabled s (before ++ (p ∷ rest)))
  unfolding longest_from widest
  longest_step s before rest p width ready loop =
      rw
        (
          process_runs (tabled s (before ++ (p ∷ rest))) (length before) p
              (get_elem?-middle before p rest),
          ◌>>=◌,
          sym (append_assoc before (p ∷ []) rest),
        )
        (elim (Bool-cases (is_negative p.pid)) [
          | inl k ↦ rw k (later width)
          | inr k ↦ rw k (
              name_runs p.name
                (λ name. longest_from (length rest) (length before + 1) (max width (length name)))
                (tabled s ((before ++ (p ∷ [])) ++ rest)) (rw k at ready)
              ∙ ap
                  (λ n.
                    longest_from (length rest) (length before + 1) n
                      (tabled s ((before ++ (p ∷ [])) ++ rest)))
                  (max-larger width (length (name_of p.name)))
              ∙ later (larger width (length (name_of p.name))))
        ])
    where
      later :
          (width : ℕ)
          → longest_from
              (length rest)
              (length before + 1)
              width
              (tabled s ((before ++ (p ∷ [])) ++ rest))
            ≡ ok (widest rest width, tabled s ((before ++ (p ∷ [])) ++ rest))
      later width = rw (sym (length-append before (p ∷ []))) (loop width)

  longest_runs :
      (s : State W) (before rest : List Process) (width : ℕ)
      → all is_ready rest ≡ true
      → longest_from (length rest) (length before) width (tabled s (before ++ rest))
        ≡ ok (widest rest width, tabled s (before ++ rest))
  unfolding longest_from widest
  longest_runs s before [] width h = refl
  longest_runs s before (p ∷ rest) width h =
      longest_step s before rest p width (all_head (is_ready p) (all is_ready rest) h) (λ w.
        longest_runs s (before ++ (p ∷ [])) rest w (all_tail (is_ready p) (all is_ready rest) h))

pub known-ready :
    (used : List Process) (n : ℕ)
    → all_known used ≡ true
    → all is_ready (used ++ replicate n blank) ≡ true
known-ready [] zero h = refl
known-ready [] (suc n) h = known-ready [] n h
known-ready (p ∷ used) n h = ground (arith, known-ready used n)

widest-blanks :
    (used : List Process) (n width : ℕ)
    → widest (used ++ replicate n blank) width ≡ widest used width
unfolding widest
widest-blanks [] zero width = refl
widest-blanks [] (suc n) width = widest-blanks [] n width
widest-blanks (p ∷ used) n width = elim (Bool-cases (is_negative p.pid)) [
  | inl h ↦ rw h (widest-blanks used n width)
  | inr h ↦ rw h (widest-blanks used n (larger width (length (name_of p.name))))
]

module _ {W : Type 0} where
  pub longest_proc_name_runs :
      (s : State W) (used : List Process)
      → Shows s used
      → longest_proc_name s ≡ ok (widest used 3, s)
  unfolding longest_proc_name
  longest_proc_name_runs s used v =
      ap (λ n. longest_from n 0 3 s) (table-length s used v)
      ∙ longest_runs s [] s.processes 3
          (ap (all is_ready) v.table ∙ known-ready used v.free v.known)
      ∙ ap (λ n. ok (n, s)) (ap (λ ps. widest ps 3) v.table ∙ widest-blanks used v.free 3)
