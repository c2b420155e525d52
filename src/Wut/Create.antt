-- ===== src/Wut/Create.antt =====
-- What wut_create does to the state.
use kernel_modules.Common.{
  ℕ, suc, ◌+◌, ◌≤◌, ◌<◌, ◌≡◌, refl, ap, ◌∙◌, true, false, ◌==◌, leb, if◌then◌else◌, List, [], ◌∷◌,
  ◌++◌, some, length, get_elem?-middle, set-middle, set, length-set, length-append, arith, inl, inr,
  Bool-cases, pos, minus_one, ok, ◌>>=◌, ◌>>◌,
}
use kernel_modules.Wut.{
  Thread, Wut, object, update, set_thread_at, member, insert_tail, threads_expand, find_null,
  min_available_id, create_thread, create_entry,
}
use kernel_modules.Wut.Ids.{object_runs}
use kernel_modules.Wut.Library.{wut_create}
use kernel_modules.Wut.Slots.{
  taken, taken-set, IsLeastNull, find_null-least, IsCounted, grown, grown-room,
}

-- The object of the new thread.
abbrev pub new_thread : ℕ → Thread
new_thread id = record { id = id; block_id = minus_one; state = minus_one; has_entry = true }

-- The state after wut_create has put the thread at `id`.
abbrev pub created : Wut → ℕ → Wut
created s id = record {
  objects = s.objects ++ (new_thread id ∷ []);
  threads = set (grown s) id (some (length s.objects));
  threads_count = s.threads_count + 1;
  ready_queue = s.ready_queue ++ (length s.objects ∷ []);
}

-- The steps of wut_create, from the state with the array `slots`.
module _ (s : Wut) (id : ℕ) (found : find_null s.threads 0 ≡ pos id)
    (fresh : member (length s.objects) s.ready_queue ≡ false) where
  bare : Thread
  bare = record { id = id; block_id = minus_one; state = minus_one; has_entry = false }

  made : Wut
  unfolding bare
  made = record s { objects = s.objects ++ (bare ∷ []); threads_count = s.threads_count + 1 }

  creates : create_thread s ≡ ok (length s.objects, made)
  unfolding create_thread min_available_id made bare
  creates = rw (create_thread, found)

  seen : object (length s.objects) made ≡ ok (bare, made)
  unfolding made
  seen = object_runs made (length s.objects) bare (get_elem?-middle s.objects bare [])

  placed : Wut
  unfolding made
  placed = record made { threads = set s.threads id (some (length s.objects)) }

  places : set_thread_at id (some (length s.objects)) made ≡ ok (tt, placed)
  unfolding set_thread_at placed made
  places = refl

  final : Wut
  final = record {
    objects = s.objects ++ (new_thread id ∷ []);
    threads = set s.threads id (some (length s.objects));
    threads_count = s.threads_count + 1;
    ready_queue = s.ready_queue ++ (length s.objects ∷ []);
  }

  queues : create_entry (length s.objects) placed ≡ ok (tt, final)
  unfolding create_entry update insert_tail object placed made bare final
  queues = rw (
    get_elem?-middle s.objects bare [],
    ◌>>◌,
    ◌>>=◌,
    set-middle s.objects bare (new_thread id) [],
    get_elem?-middle s.objects (new_thread id) [],
    fresh,
  )

abbrev widened : Wut → Wut
widened s = record s { threads = grown s }

expands :
    (s : Wut)
    → (if leb (length s.threads) s.threads_count then threads_expand s else ok (tt, s))
      ≡ ok (tt, widened s)
unfolding threads_expand
expands s = elim (Bool-cases (leb (length s.threads) s.threads_count)) [
  | inl full ↦ rw full
  | inr room ↦ rw room
]

create_runs :
    (s : Wut) (id : ℕ)
    → find_null (grown s) 0 ≡ pos id
    → member (length s.objects) s.ready_queue ≡ false
    → wut_create s ≡ ok (id, created s id)
unfolding wut_create final bare
create_runs s id found fresh =
    let w = widened s in
    rw (
      expands s,
      ◌>>=◌,
      creates w id found fresh,
      seen w id found fresh,
      places w id found fresh,
      ◌>>◌,
      queues w id found fresh,
    )

member-append :
    (a b : ℕ) (queue : List ℕ)
    → member a queue ≡ false
    → (a == b) ≡ false
    → member a (queue ++ (b ∷ [])) ≡ false
member-append a b [] out apart = rw apart
member-append a b (c ∷ queue) out apart = elim (Bool-cases (a == c)) [
  | inl e ↦ absurd (cc (rw e at out))
  | inr e ↦ rw e (member-append a b queue (rw e at out) apart)
]

created-IsCounted :
    (s : Wut) (id : ℕ) → IsCounted s → IsLeastNull (grown s) id → IsCounted (created s id)
created-IsCounted s id v place = record {
  room =
      rw (length-set (grown s) id (some (length s.objects)))
        (wide (taken (grown s)) (length (grown s)) (grown-room s v).0);
  counted =
      rw (taken-set (grown s) id (length s.objects) place.null)
        (one_more (taken (grown s)) s.threads_count (grown-room s v).1);
  known = λ a h.
      member-append a (length s.objects) s.ready_queue
        (v.known a (omega (arith, length-append s.objects (new_thread id ∷ []))))
        (apart a (length s.objects) (omega (arith, length-append s.objects (new_thread id ∷ []))));
}
  where
    wide : (a b : ℕ) → a < b → 0 < b
    wide a b h = omega arith

    one_more : (a b : ℕ) → a ≤ b → suc a ≤ b + 1
    one_more a b h = omega arith

    apart : (a b : ℕ) → b < a → (a == b) ≡ false
    apart a b h = ground arith

-- As long as the counter of threads is not below the slots in use, the array is not empty and the
-- queue holds only objects that there are, wut_create returns, and keeps all three: the id is the
-- least free one, in the array that is doubled first if the counter has reached its length; the new
-- thread is alive, stands in that slot and at the end of the ready queue, and no other object, slot
-- or place in the queue changes.
pub wut_create_lem :
    (s : Wut)
    → IsCounted s
    → (id : ℕ) × (wut_create s ≡ ok (id, created s id))
      × IsLeastNull (grown s) id
      × IsCounted (created s id)
wut_create_lem s v =
    let (id, found, place) = find_null-least (grown s) 0 (grown-room s v).0 in
    (
      id,
      create_runs s id (found ∙ ap pos (zero_plus id)) (v.known (length s.objects) (omega arith)),
      place,
      created-IsCounted s id v place,
    )
  where
    zero_plus : (n : ℕ) → 0 + n ≡ n
    zero_plus n = omega arith
