-- ===== src/Wut/Turns.antt =====
-- The order in which wut_yield lets the ready threads run.
use kernel_modules.Common.{
  ℕ, zero, suc, ◌≡◌, ap, sym, ◌∙◌, List, [], ◌∷◌, ◌++◌, length, pos, ok, ◌>>=◌, ret,
}
use mathlib.Core.List.{append_assoc, append-nil}
use kernel_modules.Wut.{Wut, WutCall}
use kernel_modules.Wut.Library.{wut_yield}

-- `n` calls of wut_yield, each by the thread that then runs.
unfoldable pub yields : ℕ → WutCall (Unit {0})
unfolding wut_yield
yields zero = ret tt
yields (suc n) = wut_yield >>= λ answer. yields n

abbrev queued : Wut → List ℕ → Wut
queued s queue = record s { ready_queue = queue }

yield_first :
    (s : Wut) (x y : ℕ) (xs ys : List ℕ)
    → s.ready_queue ≡ x ∷ (xs ++ (y ∷ ys))
    → wut_yield s ≡ ok (pos 0, queued s ((xs ++ (y ∷ ys)) ++ (x ∷ [])))
unfolding wut_yield
yield_first s x y [] ys e = rw e
yield_first s x y (z ∷ xs) ys e = rw e

yields_from :
    (xs ys : List ℕ) (y : ℕ) (s : Wut)
    → s.ready_queue ≡ xs ++ (y ∷ ys)
    → yields (length xs) s ≡ ok (tt, queued s ((y ∷ ys) ++ xs))
unfolding yields
yields_from [] ys y s e = ap (λ q. ok (tt, queued s q)) (e ∙ sym (append-nil (y ∷ ys)))
yields_from (x ∷ xs) ys y s e =
    rw (yield_first s x y xs ys e, ◌>>=◌)
      (yields_from xs (ys ++ (x ∷ [])) y (queued s ((xs ++ (y ∷ ys)) ++ (x ∷ [])))
          (append_assoc xs (y ∷ ys) (x ∷ []))
        ∙ ap (λ q. ok (tt, queued s (y ∷ q))) (append_assoc ys (x ∷ []) xs))

-- A thread at any place of the ready queue runs after as many calls of wut_yield as threads stand
-- before it; those threads then follow, in their order, after the ones that stood behind it.
pub yields_rotate :
    (s : Wut) (xs ys : List ℕ) (y : ℕ)
    → s.ready_queue ≡ xs ++ (y ∷ ys)
    → yields (length xs) s ≡ ok (tt, record s { ready_queue = (y ∷ ys) ++ xs })
yields_rotate s xs ys y e = yields_from xs ys y s e
