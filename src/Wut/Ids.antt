-- ===== src/Wut/Ids.antt =====
-- The ids that wut_cancel and wut_join turn down.
use kernel_modules.Common.{
  ℕ, ◌<◌, ◌≡◌, refl, ap, ◌∙◌, true, false, ◌==◌, ltb, zero, suc, lt→ltb, List, [], ◌∷◌, Option,
  none, some, length, get_elem?, arith, ◌⊎◌, inl, inr, ℤ, pos, negsuc, minus_one, Outcome, ok, stop,
  ◌>>=◌,
}
use kernel_modules.Wut.{Stop, Thread, Wut, out_of_bounds, object, thread_at}
use kernel_modules.Wut.Library.{join_from, checked, wut_cancel, wut_join, first}

-- An id that is negative, past the end of the array by more than one, without a thread, or that of
-- the running thread `th`.
abbrev pub IsRejected : Wut → Thread → ℤ → Type 0
IsRejected s th (negsuc n) = Unit
IsRejected s th (pos id) =
    (length s.threads < id)
    ⊎ ((get_elem? s.threads id ≡ some none)
        ⊎ ((pointer : ℕ) × (get_elem? s.threads id ≡ some (some pointer)) × (th.id ≡ id)))

pub in_range {ℓ} :
    {A : Type ℓ} (xs : List A) (i : ℕ) (a : A) → get_elem? xs i ≡ some a → i < length xs
in_range [] i a h = absurd (cc)
in_range (x ∷ xs) zero a h = omega arith
in_range (x ∷ xs) (suc i) a h = omega (arith, in_range xs i a h)

pub thread_at_runs :
    (s : Wut) (id : ℕ) (slot : Option ℕ)
    → get_elem? s.threads id ≡ some slot
    → thread_at id s ≡ ok (slot, s)
unfolding thread_at
thread_at_runs s id slot h = rw h

thread_at_end :
    (s : Wut) (id : ℕ) → get_elem? s.threads id ≡ none → thread_at id s ≡ stop out_of_bounds
unfolding thread_at
thread_at_end s id h = rw h

pub object_runs :
    (s : Wut) (pointer : ℕ) (th : Thread)
    → get_elem? s.objects pointer ≡ some th
    → object pointer s ≡ ok (th, s)
unfolding object
object_runs s pointer th h = rw h

past_end {ℓ} : {A : Type ℓ} (xs : List A) → get_elem? xs (length xs) ≡ none
past_end [] = refl
past_end (x ∷ xs) = past_end xs

module _ (s : Wut) (head : ℕ) (th : Thread) (running : get_elem? s.objects head ≡ some th) where
  not_large :
      (id : ℕ) (slot : Option ℕ)
      → get_elem? s.threads id ≡ some slot
      → ltb (length s.threads) id ≡ false
  not_large id slot h = ground (arith, in_range s.threads id slot h)

  same_id : (id : ℕ) → th.id ≡ id → (th.id == id) ≡ true
  same_id id e = ground (arith, e)

  rejects : (id : ℤ) → IsRejected s th id → checked id (some head) s ≡ ok (none, s)
  unfolding checked
  rejects (negsuc n) why = refl
  rejects (pos id) (inl large) = rw (lt→ltb (length s.threads) id large, ◌>>=◌)
  rejects (pos id) (inr (inl absent)) =
      rw (not_large id none absent, ◌>>=◌, thread_at_runs s id none absent)
  rejects (pos id) (inr (inr (pointer, present, own))) = rw (
    not_large id (some pointer) present,
    ◌>>=◌,
    thread_at_runs s id (some pointer) present,
    object_runs s head th running,
    same_id id own,
  )

  overruns : checked (pos (length s.threads)) (some head) s ≡ stop out_of_bounds
  unfolding checked
  overruns =
      rw (itself (length s.threads), ◌>>=◌, thread_at_end s (length s.threads) (past_end s.threads))
    where
      itself : (n : ℕ) → ltb n n ≡ false
      itself n = ground arith

  module _ (rest : List ℕ) (runs : s.ready_queue ≡ head ∷ rest) where
    checked-first :
        (id : ℤ) (o : Outcome Stop (Option ℕ × Wut))
        → checked id (some head) s ≡ o
        → checked id (first s.ready_queue) s ≡ o
    checked-first id o e = ap (λ q. checked id (first q) s) runs ∙ e

    cancel_rejects : (id : ℤ) → IsRejected s th id → wut_cancel id s ≡ ok (minus_one, s)
    unfolding wut_cancel
    cancel_rejects id why = rw (◌>>=◌, checked-first id (ok (none, s)) (rejects id why))

    join_rejects : (id : ℤ) → IsRejected s th id → wut_join id s ≡ ok (some minus_one, s)
    unfolding wut_join join_from
    join_rejects id why = ap (λ q. join_from id q s) runs ∙ rw (◌>>=◌, rejects id why)

    cancel_overruns : wut_cancel (pos (length s.threads)) s ≡ stop out_of_bounds
    unfolding wut_cancel
    cancel_overruns =
        rw (◌>>=◌, checked-first (pos (length s.threads)) (stop out_of_bounds) overruns)

    join_overruns : wut_join (pos (length s.threads)) s ≡ stop out_of_bounds
    unfolding wut_join join_from
    join_overruns = ap (λ q. join_from (pos (length s.threads)) q s) runs ∙ rw (◌>>=◌, overruns)

-- wut_cancel and wut_join answer -1 and change nothing for an id that is negative, greater than
-- threads_capacity, without a thread in the array, or that of the running thread.
rejected_ids :
    (s : Wut) (head : ℕ) (rest : List ℕ) (th : Thread) (id : ℤ)
    → s.ready_queue ≡ head ∷ rest
    → get_elem? s.objects head ≡ some th
    → IsRejected s th id
    → (wut_cancel id s ≡ ok (minus_one, s)) × (wut_join id s ≡ ok (some minus_one, s))
rejected_ids s head rest th id runs running why = (
  cancel_rejects s head th running rest runs id why,
  join_rejects s head th running rest runs id why,
)

-- For the id equal to threads_capacity both read one past the end of the array.
pub id_at_capacity :
    (s : Wut) (head : ℕ) (rest : List ℕ) (th : Thread)
    → s.ready_queue ≡ head ∷ rest
    → get_elem? s.objects head ≡ some th
    → (wut_cancel (pos (length s.threads)) s ≡ stop out_of_bounds)
      × (wut_join (pos (length s.threads)) s ≡ stop out_of_bounds)
id_at_capacity s head rest th runs running =
    (cancel_overruns s head th running rest runs, join_overruns s head th running rest runs)
