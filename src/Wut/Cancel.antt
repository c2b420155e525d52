-- ===== src/Wut/Cancel.antt =====
-- wut_cancel of wut/src/wut.c, and the two ways in which a call reaches an entry that is not there.
use kernel_modules.Common.{
  ℕ, ◌≡◌, ◌≢◌, refl, ap, ◌∙◌, sym, true, false, ◌==◌, ltb, List, [], ◌∷◌, none, some, length,
  get_elem?, get_elem?-set, get_elem?-set_ne, set, set_twice, ℤ, pos, negsuc, minus_one,
  is_negative, same_int, ok, stop, ◌>>=◌, ◌>>◌, bind_stop, ret, arith,
}
use kernel_modules.Wut.{
  null_pointer, Thread, Wut, WutCall, set_thread_at, head_thread, remove, member, remove_entry,
  delete_thread,
}
use kernel_modules.Wut.Library.{
  checked, unblock, wake, cancel_thread, first, wut_cancel, join_thread, join_from, wut_join,
}
use kernel_modules.Wut.Ids.{object_runs, thread_at_runs, in_range}
use kernel_modules.Wut.Lists.{objects_in, queue_in, update_runs, remove_runs, ==_self, remove-first}

-- No thread of a queue blocks the thread with the id.
abbrev pub IsQuiet : Wut → ℕ → List ℕ → Type 0
IsQuiet s id [] = Unit
IsQuiet s id (q ∷ rest) =
    ((t : Thread) × (get_elem? s.objects q ≡ some t) × (same_int t.block_id (pos id) ≡ false))
    × IsQuiet s id rest

unblock_quiet :
    (s : Wut) (id : ℕ) (queue : List ℕ) → IsQuiet s id queue → unblock id queue s ≡ ok (tt, s)
unfolding unblock
unblock_quiet s id [] quiet = refl
unblock_quiet s id (q ∷ rest) ((t, at_q, other), quiet) =
    rw (object_runs s q t at_q, ◌>>=◌, other) (unblock_quiet s id rest quiet)

wake_none : (s : Wut) (block : ℤ) → is_negative block ≡ true → wake block s ≡ ok (tt, s)
unfolding wake
wake_none s (pos n) h = absurd (cc h)
wake_none s (negsuc n) h = refl

remove_fails :
    (s : Wut) (pointer : ℕ) (th : Thread)
    → get_elem? s.objects pointer ≡ some th
    → th.has_entry ≡ false
    → remove_entry pointer s ≡ stop null_pointer
unfolding remove_entry
remove_fails s pointer th at_pointer no_entry =
    rw (object_runs s pointer th at_pointer, ◌>>=◌, no_entry) refl

-- A call by the running thread `h` about the thread `p` that has the id `id`.
module _ (s : Wut) (h p : ℕ) (rest : List ℕ) (th tp : Thread) (id : ℕ)
    (queue : s.ready_queue ≡ h ∷ rest) (at_h : get_elem? s.objects h ≡ some th)
    (at_p : get_elem? s.objects p ≡ some tp) (slot_p : get_elem? s.threads id ≡ some (some p))
    (ids : (th.id == id) ≡ false) where
  passes : checked (pos id) (some h) s ≡ ok (some p, s)
  unfolding checked
  passes = rw (large, ◌>>=◌, thread_at_runs s id (some p) slot_p, object_runs s h th at_h, ids) refl
    where
      large : ltb (length s.threads) id ≡ false
      large = ground (arith, in_range s.threads id (some p) slot_p)

  cancels : wut_cancel (pos id) s ≡ (cancel_thread id p >>= λ u. ret (pos 0)) s
  unfolding wut_cancel
  cancels =
      ap
        (λ q.
          (checked (pos id) (first q) >>= λ target. elim target as (λ t. WutCall ℤ) [
            | none ↦ ret minus_one
            | some pointer ↦ do cancel_thread id pointer; ret (pos 0)
          ])
            s)
        queue
      ∙ rw (passes, ◌>>=◌) refl

  -- wut_cancel of a thread that has given up its entry, as one that has exited, and that blocks no
  -- thread of the ready queue and is blocked by none, ends in an access through the NULL entry.
  pub cancel_exited :
      IsQuiet s id s.ready_queue
      → is_negative tp.block_id ≡ true
      → tp.has_entry ≡ false
      → wut_cancel (pos id) s ≡ stop null_pointer
  unfolding cancel_thread
  cancel_exited quiet unblocked no_entry =
      cancels
      ∙ bind_stop (cancel_thread id p) (λ u. ret (pos 0)) s null_pointer
          (rw
            (
              ◌>>◌,
              ◌>>=◌,
              unblock_quiet s id s.ready_queue quiet,
              object_runs s p tp at_p,
              ◌>>◌,
              ◌>>=◌,
              wake_none s tp.block_id unblocked,
              ◌>>◌,
              ◌>>=◌,
              no_removal,
            )
            refl)
    where
      no_removal : remove_entry p s ≡ stop null_pointer
      no_removal = remove_fails s p tp at_p no_entry

  -- The thread `p` after it was cancelled.
  abbrev cancelled : Thread
  cancelled = record tp { state = pos 128; has_entry = false }

  abbrev after_cancel : Wut
  after_cancel = record s { objects = set s.objects p cancelled; ready_queue = h ∷ remove p rest }

  cancels_ready :
      IsQuiet s id s.ready_queue
      → is_negative tp.block_id ≡ true
      → tp.has_entry ≡ true
      → (p == h) ≡ false
      → member p rest ≡ true
      → wut_cancel (pos id) s ≡ ok (pos 0, after_cancel)
  unfolding cancel_thread delete_thread
  cancels_ready quiet unblocked entry apart there =
      cancels
      ∙ rw
          (
            ◌>>◌,
            ◌>>=◌,
            unblock_quiet s id s.ready_queue quiet,
            object_runs s p tp at_p,
            ◌>>◌,
            ◌>>=◌,
            wake_none s tp.block_id unblocked,
            ◌>>◌,
            ◌>>=◌,
            remove_runs s p tp at_p entry in_queue,
            ◌>>◌,
            ◌>>=◌,
            update_runs (queue_in s (remove p s.ready_queue)) p tp at_p
                (λ t. record t { state = pos 128 }),
            update_runs
                (objects_in (queue_in s (remove p s.ready_queue))
                  (set s.objects p (record tp { state = pos 128 })))
                p (record tp { state = pos 128 })
                (get_elem?-set s.objects p tp (record tp { state = pos 128 }) at_p)
                (λ t. record t { has_entry = false }),
            set_twice s.objects p (record tp { state = pos 128 }) cancelled,
          )
          (ap (λ q. ok (pos 0, record s { objects = set s.objects p cancelled; ready_queue = q }))
            left)
    where
      in_queue : member p s.ready_queue ≡ true
      in_queue = ap (member p) queue ∙ rw apart there

      left : remove p s.ready_queue ≡ h ∷ remove p rest
      left = ap (remove p) queue ∙ rw apart refl

module _ (s : Wut) (h p : ℕ) (rest : List ℕ) (th tp : Thread) (id : ℕ)
    (queue : s.ready_queue ≡ h ∷ rest) (at_h : get_elem? s.objects h ≡ some th)
    (at_p : get_elem? s.objects p ≡ some tp) (slot_p : get_elem? s.threads id ≡ some (some p))
    (ids : (th.id == id) ≡ false) where
  -- wut_join of a thread that has ended and that no thread blocks.
  join_ended :
      (state : ℕ)
      → is_negative tp.block_id ≡ true
      → tp.state ≡ pos state
      → wut_join (pos id) s ≡ ok (some (pos state), record s { threads = set s.threads id none })
  unfolding wut_join join_from join_thread set_thread_at
  join_ended state unblocked ended =
      ap (λ q. join_from (pos id) q s) queue
      ∙ rw
          (
            passes s h p rest th tp id queue at_h at_p slot_p ids,
            ◌>>=◌,
            object_runs s p tp at_p,
            ◌>>=◌,
            unblocked,
            ap is_negative ended,
            ◌>>◌,
            ◌>>=◌,
          )
          (ap (λ r. ok (some r, record s { threads = set s.threads id none })) ended)

module _ (s : Wut) (h p : ℕ) (rest : List ℕ) (th tp : Thread) (id : ℕ)
    (queue : s.ready_queue ≡ h ∷ rest) (at_h : get_elem? s.objects h ≡ some th)
    (at_p : get_elem? s.objects p ≡ some tp) (slot_p : get_elem? s.threads id ≡ some (some p))
    (ids : (th.id == id) ≡ false) where
  -- The state after wut_cancel of a ready thread.
  abbrev pub cancelled_state : Wut
  cancelled_state = record s {
    objects = set s.objects p (record tp { state = pos 128; has_entry = false });
    ready_queue = h ∷ remove p rest;
  }

  -- wut_cancel by the running thread of another thread of the ready queue, which no thread blocks
  -- and which blocks none, answers 0, takes it out of the queue and gives it the status 128;
  -- wut_join of it then returns 128 at once and sets its slot to NULL, and nothing else changes.
  pub cancel-join :
      IsQuiet s id s.ready_queue
      → is_negative tp.block_id ≡ true
      → tp.has_entry ≡ true
      → (p == h) ≡ false
      → member p rest ≡ true
      → (wut_cancel (pos id) s ≡ ok (pos 0, cancelled_state))
        × (wut_join (pos id) cancelled_state
            ≡ ok (some (pos 128), record cancelled_state { threads = set s.threads id none }))
  cancel-join quiet unblocked entry apart there = (
    cancels_ready s h p rest th tp id queue at_h at_p slot_p ids quiet unblocked entry apart there,
    join_ended cancelled_state h p (remove p rest) th
        (record tp { state = pos 128; has_entry = false }) id refl
        (get_elem?-set_ne s.objects (record tp { state = pos 128; has_entry = false }) other ∙ at_h)
        (get_elem?-set s.objects p tp (record tp { state = pos 128; has_entry = false }) at_p)
        slot_p ids 128 unblocked refl,
  )
    where
      other : p ≢ h
      other e = absurd (cc (sym apart ∙ ap (λ q. q == h) e ∙ ==_self h))

  waiting : Thread
  waiting = record th { state = negsuc 1 }

  objects1 : List Thread
  unfolding waiting
  objects1 = set s.objects h waiting

  pub join_alone :
      rest ≡ []
      → h ≢ p
      → th.has_entry ≡ true
      → is_negative tp.block_id ≡ true
      → is_negative tp.state ≡ true
      → wut_join (pos id) s ≡ stop null_pointer
  unfolding wut_join join_from join_thread head_thread waiting objects1
  join_alone alone apart entry unblocked alive =
      ap (λ q. join_from (pos id) q s) queue
      ∙ rw
          (
            passes s h p rest th tp id queue at_h at_p slot_p ids,
            ◌>>=◌,
            object_runs s p tp at_p,
            ◌>>=◌,
            unblocked,
            alive,
            ◌>>◌,
            ◌>>=◌,
            update_runs s h th at_h (λ old. record old { state = negsuc 1 }),
            object_runs (objects_in s objects1) h waiting h_in_1,
            update_runs (objects_in s objects1) p tp p_in_1
                (λ t. record t { block_id = pos th.id }),
            remove_runs (objects_in s objects2) h waiting h_in_2 entry in_queue,
            left_queue,
          )
          refl
    where
      joined : Thread
      joined = record tp { block_id = pos th.id }

      objects2 : List Thread
      objects2 = set objects1 p joined

      h_in_1 : get_elem? objects1 h ≡ some waiting
      h_in_1 = get_elem?-set s.objects h th waiting at_h

      p_in_1 : get_elem? objects1 p ≡ some tp
      p_in_1 = get_elem?-set_ne s.objects waiting apart ∙ at_p

      h_in_2 : get_elem? objects2 h ≡ some waiting
      h_in_2 = get_elem?-set_ne objects1 joined (λ e. apart (sym e)) ∙ h_in_1

      in_queue : member h s.ready_queue ≡ true
      in_queue = ap (member h) queue ∙ rw (==_self h) refl

      left_queue : remove h s.ready_queue ≡ []
      left_queue = ap (remove h) queue ∙ remove-first h rest ∙ alone
