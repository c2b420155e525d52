-- ===== src/Wut/Library.antt =====
-- wut/src/wut.c: the library functions and the scheduler.
use kernel_modules.Common.{
  ℕ, ◌%◌, not, ◌==◌, ltb, leb, if◌then◌else◌, List, [], ◌∷◌, ◌++◌, Option, none, some, length,
  replicate, ℤ, pos, negsuc, minus_one, is_negative, same_int, ok, stop, ◌>>=◌, ◌>>◌, ret, fail,
  or_fail,
}
use kernel_modules.Wut.{
  exit_zero, null_pointer, WutCall, object, update, thread_at, set_thread_at, head_thread,
  insert_tail, remove_entry, remove, threads_expand, create_thread, delete_thread, create_entry,
}

-- `threads` of ten NULLs, then the main thread.
unfoldable pub wut_init : WutCall (Unit {0})
wut_init = do
  (λ s. ok (tt, record s { threads = replicate 10 none; threads_count = 0; ready_queue = [] }))
  pointer ← create_thread
  th ← object pointer
  set_thread_at th.id (some pointer)
  create_entry pointer

unfoldable pub wut_id : WutCall ℕ
wut_id = do pointer ← head_thread; th ← object pointer; ret th.id

unfoldable pub wut_create : WutCall ℕ
wut_create = do
  (λ s. if leb (length s.threads) s.threads_count then threads_expand s else ok (tt, s))
  pointer ← create_thread
  th ← object pointer
  set_thread_at th.id (some pointer)
  create_entry pointer
  ret th.id

-- `threads[wake_id]->ent` to the end of the queue, and its thread alive.
unfoldable pub wake : ℤ → WutCall (Unit {0})
wake (negsuc n) = ret tt
wake (pos wake_id) = do
  slot ← thread_at wake_id
  pointer ← or_fail null_pointer slot
  insert_tail pointer
  update pointer (λ th. record th { state = minus_one })

-- The loop of wut_cancel: the first entry of the queue whose thread blocks thread `id` stops to do
-- so.
unfoldable pub unblock : ℕ → List ℕ → WutCall (Unit {0})
unblock id [] = ret tt
unblock id (pointer ∷ rest) =
    let later = unblock id rest in
    (object pointer >>= λ th.
    if same_int th.block_id (pos id)
    then update pointer (λ th. record th { block_id = minus_one })
    else later)

-- The guard that wut_cancel and wut_join begin with: the thread, unless the answer is -1. `head` is
-- the running thread, if the queue has one. The test on the array is `id > threads_capacity`.
unfoldable pub checked : ℤ → Option ℕ → WutCall (Option ℕ)
checked (negsuc n) head = ret none
checked (pos id) head = do
  large ← (λ s. ok (ltb (length s.threads) id, s))
  if large then ret none else do
    slot ← thread_at id
    elim slot [
      | none ↦ ret none
      | some pointer ↦ do
        running ← or_fail null_pointer head
        th ← object running
        ret (if th.id == id then none else some pointer)
    ]

unfoldable pub cancel_thread : ℕ → ℕ → WutCall (Unit {0})
cancel_thread id pointer = do
  queue ← (λ s. ok (s.ready_queue, s))
  unblock id queue
  th ← object pointer
  wake th.block_id
  remove_entry pointer
  update pointer (λ th. record th { state = pos 128 })
  delete_thread pointer

abbrev pub number : ℤ → ℕ
number (pos n) = n
number (negsuc n) = 0

-- `TAILQ_FIRST(&ready_queue)`.
abbrev pub first : List ℕ → Option ℕ
first [] = none
first (head ∷ rest) = some head

unfoldable pub wut_cancel : ℤ → WutCall ℤ
wut_cancel id = do
  head ← (λ s. ok (first s.ready_queue, s))
  target ← checked id head
  elim target [
    | none ↦ ret minus_one
    | some pointer ↦ do cancel_thread (number id) pointer; ret (pos 0)
  ]

-- What wut_join does before it returns or, for `none`, switches to the next thread.
unfoldable pub join_thread : ℕ → ℕ → ℕ → WutCall (Option ℤ)
join_thread id head pointer = do
  th ← object pointer
  if not (is_negative th.block_id)
      then ret (some minus_one)
      else if not (is_negative th.state)
      then (do set_thread_at id none; ret (some th.state))
      else (do
        update head (λ old. record old { state = negsuc 1 })
        old ← object head
        update pointer (λ th. record th { block_id = pos old.id })
        remove_entry head
        next ← head_thread
        ret none)

-- wut_join with the ready queue that it finds.
unfoldable pub join_from : ℤ → List ℕ → WutCall (Option ℤ)
join_from id [] = ret (some minus_one)
join_from id (head ∷ rest) = do
  target ← checked id (some head)
  elim target [ none ↦ ret (some minus_one) | some pointer ↦ join_thread (number id) head pointer ]

unfoldable pub wut_join : ℤ → WutCall (Option ℤ)
unfolding join_from
wut_join id s = join_from id s.ready_queue s

-- The rest of wut_join, once the thread runs again.
unfoldable pub join_rest : ℕ → WutCall ℤ
join_rest id = do
  slot ← thread_at id
  pointer ← or_fail null_pointer slot
  th ← object pointer
  set_thread_at id none
  ret th.state

-- -1 if no other thread is ready; else 0, after the switch to the next thread.
unfoldable pub wut_yield : WutCall ℤ
wut_yield s = elim s.ready_queue [
  | [] ↦ stop null_pointer
  | head ∷ [] ↦ ok (minus_one, s)
  | head ∷ next ∷ rest ↦ ok (pos 0, record s { ready_queue = next ∷ rest ++ (head ∷ []) })
]

-- wut_exit up to the switch to the scheduler; the status is a bit pattern.
unfoldable pub wut_exit : ℕ → WutCall (Unit {0})
wut_exit status = do
  head ← head_thread
  update head (λ th. record th { state = pos (status % 256) })

-- `delete_thread(head->val)`, then TAILQ_REMOVE of `head`, which the local variable still names.
unfoldable pub delete_thread_entry : ℕ → WutCall (Unit {0})
delete_thread_entry head = do
  delete_thread head
  (λ s. ok (tt, record s { ready_queue = remove head s.ready_queue }))

-- The scheduler, from the entry in wut_exit, or at the end of a thread's function, to the switch to
-- the next thread. A thread that is alive has returned from its function, and exits with 0 first.
unfoldable pub schedule : WutCall (Unit {0})
schedule s = elim s.ready_queue [
  | [] ↦ stop exit_zero
  | head ∷ rest ↦
      (do
        th ← object head
        if is_negative th.state then wut_exit 0 else ret tt
        th ← object head
        wake th.block_id
        delete_thread_entry head
        next ← (λ s. ok (s.ready_queue, s))
        elim next [ [] ↦ fail exit_zero | h ∷ r ↦ ret tt ])
        s
]
