-- ===== src/Wut/Joins.antt =====
-- What a thread gets that waits in wut_join of wut/src/wut.c for another one.
use kernel_modules.Common.{
  ℕ, ◌%◌, ◌≡◌, ◌≢◌, refl, ap, ◌∙◌, sym, true, false, ◌||◌, ◌==◌, ltb, List, [], ◌∷◌, ◌++◌, none,
  some, length, get_elem?, get_elem?-set, get_elem?-set_ne, set, pos, negsuc, minus_one,
  is_negative, ok, ◌>>=◌, ◌>>◌, fail, ret, arith,
}
use kernel_modules.Wut.{
  exit_zero, Thread, Wut, WutCall, set_thread_at, head_thread, remove, member, delete_thread,
}
use kernel_modules.Wut.Library.{
  checked, join_thread, join_from, wut_join, join_rest, wut_exit, wake, delete_thread_entry,
  schedule,
}
use kernel_modules.Wut.Ids.{object_runs, thread_at_runs, in_range}
use kernel_modules.Wut.Lists.{
  objects_in, queue_in, update_runs, insert_runs, remove_runs, ==_self, remove-first,
}
use kernel_modules.Wut.Turns.{yields, yields_rotate}

-- The end of the scheduler, with a thread that is ready.
some_next :
    (queue : List ℕ) (h : ℕ) (s : Wut)
    → (elim (queue ++ (h ∷ [])) as (λ x. WutCall (Unit {0})) [
      | [] ↦ fail exit_zero
      | a ∷ r ↦ ret tt
    ])
        s
      ≡ ok (tt, s)
some_next [] h s = refl
some_next (a ∷ queue) h s = refl

-- The main variables of a run in which the running thread `h`, at `th`, joins the thread `p`, at
-- `tp`, which runs next.
module _ (s : Wut) (h p : ℕ) (rest : List ℕ) (th tp : Thread) (status : ℕ)
    (queue : s.ready_queue ≡ h ∷ p ∷ rest) (at_h : get_elem? s.objects h ≡ some th)
    (at_p : get_elem? s.objects p ≡ some tp) (slot_h : get_elem? s.threads th.id ≡ some (some h))
    (slot_p : get_elem? s.threads tp.id ≡ some (some p)) (apart : h ≢ p)
    (ids : (th.id == tp.id) ≡ false) (entry_h : th.has_entry ≡ true) (entry_p : tp.has_entry ≡ true)
    (unblocked : is_negative tp.block_id ≡ true) (alive : is_negative tp.state ≡ true)
    (out : member h (p ∷ rest) ≡ false) where
  waiting : Thread
  waiting = record th { state = negsuc 1 }

  joined : Thread
  joined = record tp { block_id = pos th.id }

  objects1 : List Thread
  unfolding waiting
  objects1 = set s.objects h waiting

  objects2 : List Thread
  unfolding objects1 joined
  objects2 = set objects1 p joined

  h_in_1 : get_elem? objects1 h ≡ some waiting
  unfolding objects1
  h_in_1 = get_elem?-set s.objects h th waiting at_h

  p_in_1 : get_elem? objects1 p ≡ some tp
  unfolding objects1
  p_in_1 = get_elem?-set_ne s.objects waiting apart ∙ at_p

  h_in_2 : get_elem? objects2 h ≡ some waiting
  unfolding objects2
  h_in_2 = get_elem?-set_ne objects1 joined (λ e. apart (sym e)) ∙ h_in_1

  p_in_2 : get_elem? objects2 p ≡ some joined
  unfolding objects2
  p_in_2 = get_elem?-set objects1 p tp joined p_in_1

  passes : checked (pos tp.id) (some h) s ≡ ok (some p, s)
  unfolding checked
  passes =
      rw (large, ◌>>=◌, thread_at_runs s tp.id (some p) slot_p, object_runs s h th at_h, ids) refl
    where
      large : ltb (length s.threads) tp.id ≡ false
      large = ground (arith, in_range s.threads tp.id (some p) slot_p)

  after_join : Wut
  unfolding objects2
  after_join = record s { objects = objects2; ready_queue = p ∷ rest }

  in_queue : member h s.ready_queue ≡ true
  in_queue = ap (member h) queue ∙ ap (λ b. b || member h (p ∷ rest)) (==_self h)

  left_queue : remove h s.ready_queue ≡ p ∷ rest
  left_queue = ap (remove h) queue ∙ remove-first h (p ∷ rest)

  joins : join_thread tp.id h p s ≡ ok (none, after_join)
  unfolding join_thread after_join head_thread waiting joined objects1 objects2
  joins =
      rw
        (
          object_runs s p tp at_p,
          ◌>>=◌,
          unblocked,
          alive,
          ◌>>◌,
          ◌>>=◌,
          update_runs s h th at_h (λ old. record old { state = negsuc 1 }),
          object_runs (objects_in s objects1) h waiting h_in_1,
          update_runs (objects_in s objects1) p tp p_in_1 (λ t. record t { block_id = pos th.id }),
          remove_runs (objects_in s objects2) h waiting h_in_2 entry_h in_queue,
          left_queue,
        )
        (ap (λ q. ok (none, queue_in (objects_in s objects2) q)) left_queue)

  join_runs : wut_join (pos tp.id) s ≡ ok (none, after_join)
  unfolding wut_join join_from
  join_runs = ap (λ q. join_from (pos tp.id) q s) queue ∙ rw (passes, ◌>>=◌) joins

  -- The thread `p` exits.
  exited : Thread
  unfolding joined
  exited = record joined { state = pos (status % 256) }

  objects3 : List Thread
  unfolding objects2 exited
  objects3 = set objects2 p exited

  after_exit : Wut
  unfolding objects3
  after_exit = record s { objects = objects3; ready_queue = p ∷ rest }

  exits : wut_exit status after_join ≡ ok (tt, after_exit)
  unfolding wut_exit head_thread after_join after_exit objects3 exited
  exits =
      rw (
        ◌>>=◌,
        update_runs after_join p joined p_in_2 (λ t. record t { state = pos (status % 256) }),
      )

  h_in_3 : get_elem? objects3 h ≡ some waiting
  unfolding objects3
  h_in_3 = get_elem?-set_ne objects2 exited (λ e. apart (sym e)) ∙ h_in_2

  p_in_3 : get_elem? objects3 p ≡ some exited
  unfolding objects3
  p_in_3 = get_elem?-set objects2 p joined exited p_in_2

  -- The scheduler makes `h` ready again.
  woken : Thread
  unfolding waiting
  woken = record waiting { state = minus_one }

  objects4 : List Thread
  unfolding objects3 woken
  objects4 = set objects3 h woken

  p_in_4 : get_elem? objects4 p ≡ some exited
  unfolding objects4
  p_in_4 = get_elem?-set_ne objects3 woken apart ∙ p_in_3

  wakes :
      wake (pos th.id) after_exit
      ≡ ok (tt, record s { objects = objects4; ready_queue = p ∷ rest ++ (h ∷ []) })
  unfolding wake after_exit objects4 woken
  wakes =
      rw
        (
          thread_at_runs after_exit th.id (some h) slot_h,
          ◌>>=◌,
          ◌>>◌,
          ◌>>=◌,
          insert_runs after_exit h waiting h_in_3 entry_h out,
          update_runs (queue_in after_exit (p ∷ rest ++ (h ∷ []))) h waiting h_in_3
              (λ t. record t { state = minus_one }),
        )
        refl

  gone : Thread
  unfolding exited
  gone = record exited { has_entry = false }

  objects5 : List Thread
  unfolding objects4 gone
  objects5 = set objects4 p gone

  p_in_5 : get_elem? objects5 p ≡ some gone
  unfolding objects5
  p_in_5 = get_elem?-set objects4 p exited gone p_in_4

  after_schedule : Wut
  unfolding objects5
  after_schedule = record s { objects = objects5; ready_queue = rest ++ (h ∷ []) }

  deletes :
      delete_thread_entry p (record s { objects = objects4; ready_queue = p ∷ rest ++ (h ∷ []) })
      ≡ ok (tt, after_schedule)
  unfolding delete_thread_entry delete_thread after_schedule objects5 gone
  deletes =
      rw
        (
          ◌>>◌,
          ◌>>=◌,
          update_runs (record s { objects = objects4; ready_queue = p ∷ rest ++ (h ∷ []) }) p exited
              p_in_4 (λ t. record t { has_entry = false }),
        )
        (ap (λ q. ok (tt, record s { objects = objects5; ready_queue = q }))
          (remove-first p (rest ++ (h ∷ []))))

  schedules : schedule after_exit ≡ ok (tt, after_schedule)
  unfolding schedule after_exit exited joined after_schedule
  schedules =
      rw
        (
          object_runs after_exit p exited p_in_3,
          ◌>>=◌,
          ◌>>◌,
          ◌>>=◌,
          object_runs after_exit p exited p_in_3,
          ◌>>=◌,
          ◌>>◌,
          ◌>>=◌,
          wakes,
          deletes,
        )
        (some_next rest h after_schedule)

  h_in_5 : get_elem? objects5 h ≡ some woken
  unfolding objects5 objects4
  h_in_5 =
      get_elem?-set_ne objects4 gone (λ e. apart (sym e))
      ∙ get_elem?-set objects3 h waiting woken h_in_3

  back : Wut
  unfolding after_schedule
  back = record after_schedule { ready_queue = h ∷ rest }

  returns :
      join_rest tp.id back
      ≡ ok (pos (status % 256), record back { threads = set s.threads tp.id none })
  unfolding join_rest set_thread_at back after_schedule gone exited
  returns =
      rw
        (
          thread_at_runs back tp.id (some p) slot_p,
          ◌>>=◌,
          object_runs back p gone p_in_5,
          ◌>>◌,
          ◌>>=◌,
        )
        refl

  -- If the running thread joins the thread that runs next, which is alive and joined by no other,
  -- each with its object, its slot and its entry, and that thread exits with a status, then the
  -- scheduler makes the joining thread ready behind the others; after as many calls of wut_yield as
  -- there are others it runs again, alive, its wut_join returns the status modulo 256, and the slot
  -- of the thread that exited is NULL.
  pub join_gets_status :
      (t : Wut) × ((do
        switched ← wut_join (pos tp.id)
        wut_exit status
        schedule
        yields (length rest)
        join_rest tp.id)
          s
        ≡ ok (pos (status % 256), t))
      × (t.ready_queue ≡ h ∷ rest)
      × (t.threads ≡ set s.threads tp.id none)
      × (get_elem? t.objects h ≡ some (record th { state = minus_one }))
  unfolding back after_schedule woken waiting
  join_gets_status = (
    record back { threads = set s.threads tp.id none },
    rw
        (
          ◌>>=◌,
          join_runs,
          ◌>>◌,
          ◌>>=◌,
          exits,
          schedules,
          yields_rotate after_schedule rest [] h refl,
        )
        returns,
    refl,
    refl,
    h_in_5,
  )
