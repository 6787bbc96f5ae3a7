-- ===== src/JobQueue/Fifo.antt =====
-- The queue hands out the jobs in the order in which they were added.
use reactor_server.Prelude.{
  ℕ, suc, ◌+◌, ◌-◌, ◌≡◌, ◌≢◌, inl, inr, refl, sym, ap, ◌∙◌, subst, true, List, [], ◌∷◌, ◌++◌,
  Option, none, some, length, length-append, arith, All, ◌==◌, if◌then◌else◌, Run, ok, or_fault,
  Returns, returns, Returns-bind, Returns-if, ◌>>=◌,
}
use reactor_server.Prelude.Memory.{assign, assign_self, assign_ne, same-or-other}
use reactor_server.JobQueue.{
  Job, ThreadJobQueue, set_job, link, add, unlink, remove_last, take_job, empty, empty_loop,
}
use reactor_server.JobQueue.Chain.{
  Links, Holds, Links-prev, Links-head, Links-append, Distinct-append,
}

-- The memory behind the writes of threadPool_jobQueue_add, where the head is the job `k`.
module _ (q : ThreadJobQueue) (x : ℕ) where
  abbrev bare : ThreadJobQueue
  bare = set_job q x (record (q.jobs x) { next = none; prev = none })

  abbrev below : ℕ → ThreadJobQueue
  below k = set_job bare x (record (bare.jobs x) { next = some k })

  abbrev above : ℕ → ThreadJobQueue
  above k = set_job (below k) k (record ((below k).jobs k) { prev = some x })

  above-new : (k : ℕ) → ((above k).jobs k).prev ≡ some x
  above-new k =
      ap (λ (j : Job). j.prev)
        (assign_self (below k).jobs k (record ((below k).jobs k) { prev = some x }))

  above-same : (k j : ℕ) → j ≢ k → j ≢ x → ((above k).jobs j).prev ≡ (q.jobs j).prev
  above-same k j nk nx =
      ap (λ (j : Job). j.prev)
        (assign_ne (below k).jobs k (record ((below k).jobs k) { prev = some x }) j nk
          ∙ assign_ne bare.jobs x (record (bare.jobs x) { next = some k }) j nx
          ∙ assign_ne q.jobs x (record (q.jobs x) { next = none; prev = none }) j nx)

  linked :
      (n k : ℕ)
      → q.head ≡ some k
      → q.number ≡ suc n
      → link q.number x bare ≡ ok (record (above k) { head = some x })
  unfolding link
  linked n k is number =
      ap (λ m. link m x bare) number ∙ ap (λ o. or_fault o >>= λ h. linked_to h) is
    where
      linked_to : ℕ → Run ThreadJobQueue
      linked_to h = ok (record (above h) { head = some x })

-- What threadPool_jobQueue_add does to a queue of the jobs `js`.
pub record Added (js : List ℕ) (q : ThreadJobQueue) (x : ℕ) (r : ThreadJobQueue) : Type 0 where
  pub holds : Holds (js ++ x ∷ []) r
  pub posted : r.queue_sem ≡ q.queue_sem + 1

-- threadPool_jobQueue_add of a job that is not in a well-formed queue returns a well-formed queue
-- with the job behind the others, in their order, and posts the semaphore once.
pub add-Added :
    (js : List ℕ) (q : ThreadJobQueue) (x : ℕ)
    → Holds js q
    → All (λ b. b ≢ x) js
    → Returns (Added js q x) (add q x)
unfolding add link
add-Added [] q x h out = rw h.number_is (
    returns (record {
      holds = record { number_is = refl; distinct = (tt, tt); ends = (refl, refl) };
      posted = refl;
    }))
add-Added (a ∷ rest) q x h out = rw (linked q x (length rest) k is h.number_is) (
    returns (record {
      holds = record {
        number_is = omega (arith, h.number_is, length-append rest (x ∷ []));
        distinct = Distinct-append (a ∷ rest) x h.distinct out;
        ends = (
          h.ends.0,
          Links-append q.jobs (above q x k).jobs a rest k x h.distinct out (above-new q x k)
              (above-same q x k) (subst (Links q.jobs a rest) is h.ends.1),
        );
      };
      posted = refl;
    }))
  where
    k : ℕ
    k = (Links-head q.jobs a rest q.head h.ends.1).0

    is : q.head ≡ some k
    is = (Links-head q.jobs a rest q.head h.ends.1).1

-- The jobs, the last one first, in front of others.
abbrev pub reverse_onto : List ℕ → List ℕ → List ℕ
reverse_onto [] acc = acc
reverse_onto (a ∷ js) acc = reverse_onto js (a ∷ acc)

-- What a thread that takes a job from a queue of the jobs `a` and `js` gets, and leaves.
pub record Taken (a : ℕ) (js : List ℕ) (q : ThreadJobQueue)
    (r : ThreadJobQueue × Option (ℕ × ℕ × ℕ)) : Type 0 where
  pub holds : Holds js r.0
  pub job_is : r.1 ≡ some (a, (q.jobs a).function, (q.jobs a).arg)
  pub sem_kept : r.0.queue_sem ≡ q.queue_sem

unlink-Holds :
    (a : ℕ) (js : List ℕ) (q : ThreadJobQueue)
    → Holds (a ∷ js) q
    → Returns
        (λ r. Holds js (record r { number = length js }) × (r.queue_sem ≡ q.queue_sem))
        (unlink (suc (length js)) q)
unfolding unlink
unlink-Holds a [] q h =
    returns (record { number_is = refl; distinct = tt; ends = (refl, refl) }, refl)
unlink-Holds a (b ∷ js) q h =
    subst
      (Returns
        (λ r. Holds (b ∷ js) (record r { number = suc (length js) }) × (r.queue_sem ≡ q.queue_sem)))
      (sym (ap (λ o. or_fault o >>= from) h.ends.0 ∙ ap (λ o. or_fault o >>= to) h.ends.1.0))
      (returns (
        record {
          number_is = refl;
          distinct = h.distinct.1;
          ends = (
            refl,
            Links-prev q.jobs (set_job q b (record (q.jobs b) { next = none })).jobs b js q.head
                kept h.ends.1.1,
          );
        },
        refl,
      ))
  where
    to : ℕ → Run ThreadJobQueue
    to p = ok (record (set_job q p (record (q.jobs p) { next = none })) { tail = some p })

    from : ℕ → Run ThreadJobQueue
    from last = or_fault (q.jobs last).prev >>= to

    kept : (j : ℕ) → (assign q.jobs b (record (q.jobs b) { next = none }) j).prev ≡ (q.jobs j).prev
    kept j = elim (same-or-other b j) [
      | inl e ↦
          subst
            (λ k. (assign q.jobs b (record (q.jobs b) { next = none }) k).prev ≡ (q.jobs k).prev)
            (sym e)
            (ap (λ (j : Job). j.prev) (assign_self q.jobs b (record (q.jobs b) { next = none })))
      | inr ne ↦
          ap (λ (j : Job). j.prev) (assign_ne q.jobs b (record (q.jobs b) { next = none }) j ne)
    ]

remove_last-Holds :
    (a : ℕ) (js : List ℕ) (q : ThreadJobQueue)
    → Holds (a ∷ js) q
    → Returns (λ r. Holds js r.0 × ((r.0.queue_sem ≡ q.queue_sem) × (r.1 ≡ true))) (remove_last q)
unfolding remove_last
remove_last-Holds a js q h =
    let left : q.number - 1 ≡ length js = omega (arith, h.number_is) in
    Returns-if (q.number == 0) (λ zero_left. absurd (ground (arith, zero_left, h.number_is)))
      (λ some_left.
        Returns-bind
          (subst
            (λ n.
              Returns
                (λ r. Holds js (record r { number = length js }) × (r.queue_sem ≡ q.queue_sem))
                (unlink n q))
            (sym h.number_is) (unlink-Holds a js q h))
          (λ r s.
            returns
              (subst (λ (n : ℕ). Holds js (record r { number = n })) (sym left) s.0, (s.1, refl))))

-- A thread that takes a job from a well-formed queue that is not empty gets the oldest job with its
-- function and argument, and leaves a well-formed queue of the others in the same order; the
-- semaphore stays.
pub take_job-Taken :
    (a : ℕ) (js : List ℕ) (q : ThreadJobQueue)
    → Holds (a ∷ js) q
    → Returns (Taken a js q) (take_job q)
unfolding take_job
take_job-Taken a js q h =
    subst (Returns (Taken a js q)) (sym (ap (λ o. or_fault o >>= give) h.ends.0)) (
      Returns-bind (remove_last-Holds a js q h) (λ r s. returns (record {
        holds = s.0;
        job_is = ap (λ b. if b then some (a, (q.jobs a).function, (q.jobs a).arg) else none) s.1.1;
        sem_kept = s.1.0;
      })))
  where
    give : ℕ → Run (ThreadJobQueue × Option (ℕ × ℕ × ℕ))
    give job = remove_last q >>= λ (r, removed).
        ok (r, if removed then some (job, (q.jobs job).function, (q.jobs job).arg) else none)

-- The walk of threadPool_jobQueue_empty.
empty_loop-frees :
    (a : ℕ) (js : List ℕ) (q : ThreadJobQueue)
    → Links q.jobs a js q.head
    → q.number ≡ suc (length js)
    → Returns
        (λ r. (r.number ≡ 0) × (r.freed ≡ reverse_onto (a ∷ js) q.freed))
        (empty_loop (suc (length js)) (some a) q)
unfolding empty_loop
empty_loop-frees a [] q l n = returns (omega (arith, n), refl)
empty_loop-frees a (b ∷ js) q l n =
    let after =
      λ (o : Option ℕ). record q { tail = o; freed = a ∷ q.freed; number = q.number - 1 } in
    subst
      (λ o.
        Returns (λ r. (r.number ≡ 0) × (r.freed ≡ reverse_onto (a ∷ b ∷ js) q.freed))
          (empty_loop (suc (length js)) o (after o)))
      (sym l.0) (empty_loop-frees b js (after (some b)) l.1 (omega (arith, n)))

pub empty-frees :
    (js : List ℕ) (q : ThreadJobQueue)
    → Holds js q
    → Returns (λ r. Holds [] r × (r.freed ≡ reverse_onto js q.freed)) (empty q)
unfolding empty empty_loop
empty-frees js q h =
    subst
      (λ n.
        Returns (λ r. Holds [] r × (r.freed ≡ reverse_onto js q.freed))
          (empty_loop n q.tail q >>= λ r. ok (record r { head = none; tail = none })))
      (sym h.number_is)
      (Returns-bind (walked js h)
        (λ r s. returns (record { number_is = s.0; distinct = tt; ends = (refl, refl) }, s.1)))
  where
    walked :
        (ls : List ℕ)
        → Holds ls q
        → Returns
            (λ r. (r.number ≡ 0) × (r.freed ≡ reverse_onto ls q.freed))
            (empty_loop (length ls) q.tail q)
    walked [] g = returns (g.number_is, refl)
    walked (a ∷ rest) g =
        subst
          (λ o.
            Returns (λ r. (r.number ≡ 0) × (r.freed ≡ reverse_onto (a ∷ rest) q.freed))
              (empty_loop (suc (length rest)) o q))
          (sym g.ends.0) (empty_loop-frees a rest q g.ends.1 g.number_is)
