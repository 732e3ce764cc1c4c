-- ===== src/Loop/Inv.antt =====
-- aio/loop/pure/impl.py: what every call of a callback keeps of a loop.
pub mod Run
use native.Mathlib.Bridge.{le_prop}
use mathlib.Core.List.Perm
use aio.Prelude.{
  ==_iff, sym, ℕ, suc, ◌+◌, ◌<◌, ◌≡◌, refl, true, false, Option, none, some, List, [], ◌∷◌, ◌++◌,
  arith, Bool-cases, inl, inr, update, subst,
}
use aio.Exceptions.{Exc, is_exception, Result, ok, raised}
use aio.World.{Callback, Args, Handle}
use aio.Scheduler.{PriorityQueue, enqueue, handle_priority}
use aio.Scheduler.Heap.{Entry, Heapq, All, All-Perm}
use aio.Scheduler.Pending.{
  QueueInv, AreTimed, prioritized-enqueue-none, prioritized-enqueue-some, enqueue-QueueInv,
}
use aio.Loop.{
  Loop, LoopOp, calls_soon, calls_later, cancels_handle, stops, Effect, call_soon, call_later,
  exec_op, exec_ops, report, invoke_callback, mark_executed, invoke_handle, add_handle,
  wakeup_if_in_poll,
}

-- The scheduler's heap is a heap with fresh ids, and each of its entries is of a handle of the loop
-- and has that handle's time.
pub record LoopInv (l : Loop) : Type 0 where
  pub queue : QueueInv l.scheduler
  pub timed : AreTimed l.handles l.scheduler.prioritized
  pub known : All (λ e. e.item < l.next_handle) l.scheduler.prioritized

module _ (hq : Heapq ℕ) where
  known_more :
      (es : List (Entry ℕ)) (n : ℕ) → All (λ e. e.item < n) es → All (λ e. e.item < suc n) es
  known_more [] n h = tt
  known_more (e ∷ es) n h = (omega arith, known_more es n h.1)

  timed_new :
      (handles : ℕ → Handle) (n : ℕ) (x : Handle) (es : List (Entry ℕ))
      → All (λ e. e.item < n) es
      → AreTimed handles es
      → AreTimed (update handles n x) es
  timed_new handles n x [] k t = tt
  timed_new handles n x (e ∷ es) k t = (ground (arith, k.0, t.0), timed_new handles n x es k.1 t.1)

  timed_same :
      (handles : ℕ → Handle) (h : ℕ) (x : Handle) (es : List (Entry ℕ))
      → x.when ≡ (handles h).when
      → AreTimed handles es
      → AreTimed (update handles h x) es
  timed_same handles h x [] same t = tt
  timed_same handles h x (e ∷ es) same t =
      (ground (arith, t.0, ==_iff h e.item), timed_same handles h x es same t.1)

  wakeup-LoopInv : (l : Loop) → LoopInv l → LoopInv (wakeup_if_in_poll hq l)
  unfolding wakeup_if_in_poll
  wakeup-LoopInv l i = elim (Bool-cases l.in_poll) [
    | inl e ↦ rw e (record { queue = i.queue; timed = i.timed; known = i.known })
    | inr e ↦ rw e (record { queue = i.queue; timed = i.timed; known = i.known })
  ]

  -- A new entry has the time of its handle.
  enqueue-timed :
      (handles : ℕ → Handle) (when : Option ℕ) (n : ℕ) (q : PriorityQueue ℕ)
      → (handles n).when ≡ when
      → AreTimed handles q.prioritized
      → All (λ e. e.item < n) q.prioritized
      → AreTimed handles (enqueue hq (handle_priority handles) n q).prioritized
        × All (λ e. e.item < suc n) (enqueue hq (handle_priority handles) n q).prioritized
  enqueue-timed handles none n q w t k =
      let same = prioritized-enqueue-none hq (handle_priority handles) n q w in
      (
        subst (AreTimed handles) (sym same) t,
        subst (All (λ e. e.item < suc n)) (sym same) (known_more q.prioritized n k),
      )
  enqueue-timed handles (some p) n q w t k =
      let entry : Entry ℕ = record { priority = p; seq = q.next_id; item = n } in
      let same = prioritized-enqueue-some hq (handle_priority handles) n p q w in
      let perm = Perm.symm (hq.heappush-perm q.prioritized entry) in
      (
        subst (AreTimed handles) (sym same)
            (All-Perm (λ e. (handles e.item).when ≡ some e.priority) (λ e. hlevel) perm (w, t)),
        subst (All (λ e. e.item < suc n)) (sym same) (
            All-Perm (λ e. e.item < suc n) (λ e. le_prop) perm
              (omega arith, known_more q.prioritized n k)),
      )

  add_handle-LoopInv :
      (when : Option ℕ) (cb : Callback) (args : Args) (l : Loop)
      → LoopInv l
      → LoopInv (add_handle hq when cb args l)
  unfolding add_handle
  add_handle-LoopInv when cb args l i =
      let h : Handle = record {
        when = when;
        loop = l.id;
        callback = cb;
        args = args;
        executed = false;
        is_cancelled = false;
      } in
      let handles : ℕ → Handle = update l.handles l.next_handle h in
      let (queue, _) =
        enqueue-QueueInv hq (handle_priority handles) l.next_handle l.scheduler i.queue in
      let (timed, known) =
        enqueue-timed handles when l.next_handle l.scheduler (ground arith)
          (timed_new l.handles l.next_handle h l.scheduler.prioritized i.known i.timed) i.known in
      wakeup-LoopInv
        (record l {
          handles = handles;
          next_handle = suc l.next_handle;
          scheduler = enqueue hq (handle_priority handles) l.next_handle l.scheduler;
        })
        (record { queue = queue; timed = timed; known = known })

  exec_op-LoopInv : (o : LoopOp) (l : Loop) → LoopInv l → LoopInv (exec_op hq o l)
  unfolding exec_op call_soon call_later
  exec_op-LoopInv (calls_soon cb args) l i = add_handle-LoopInv none cb args l i
  exec_op-LoopInv (calls_later now timeout cb args) l i = ground (
    arith,
    add_handle-LoopInv none cb args l i,
    add_handle-LoopInv (some (now + timeout)) cb args l i,
  )
  exec_op-LoopInv (cancels_handle h) l i = record {
    queue = i.queue;
    timed =
        timed_same l.handles h (record (l.handles h) { is_cancelled = true })
          l.scheduler.prioritized refl i.timed;
    known = i.known;
  }
  exec_op-LoopInv stops l i = record { queue = i.queue; timed = i.timed; known = i.known }

  pub exec_ops-LoopInv : (os : List LoopOp) (l : Loop) → LoopInv l → LoopInv (exec_ops hq os l)
  unfolding exec_ops
  exec_ops-LoopInv [] l i = i
  exec_ops-LoopInv (o ∷ os) l i = exec_ops-LoopInv os (exec_op hq o l) (exec_op-LoopInv o l i)

  report-LoopInv : (y x : Option Exc) (l : Loop) → LoopInv l → LoopInv (report hq y x l).0
  unfolding report
  report-LoopInv y none l i = i
  report-LoopInv none (some e) l i = elim (Bool-cases (is_exception e)) [
    | inl caught ↦ rw caught (record { queue = i.queue; timed = i.timed; known = i.known })
    | inr foreign ↦ rw foreign (record { queue = i.queue; timed = i.timed; known = i.known })
  ]
  report-LoopInv (some broken) (some e) l i = record {
    queue = i.queue;
    timed = i.timed;
    known = i.known;
  }

  pub invoke_callback-LoopInv :
      (eff : Effect) (l : Loop) → LoopInv l → LoopInv (invoke_callback hq eff l).0
  unfolding invoke_callback
  invoke_callback-LoopInv eff l i =
      report-LoopInv eff.handler eff.exc (exec_ops hq eff.ops l) (exec_ops-LoopInv eff.ops l i)

  mark_executed-LoopInv :
      (h : ℕ) (m : Loop × Result (Unit {0})) → LoopInv m.0 → LoopInv (mark_executed hq h m).0
  unfolding mark_executed
  mark_executed-LoopInv h (l, ok u) i = record {
    queue = i.queue;
    timed =
        timed_same l.handles h (record (l.handles h) { executed = true }) l.scheduler.prioritized
          refl i.timed;
    known = i.known;
  }
  mark_executed-LoopInv h (l, raised e) i = i

  pub invoke_handle-LoopInv :
      (code : ℕ → Effect) (h : ℕ) (l : Loop) → LoopInv l → LoopInv (invoke_handle hq code h l).0
  unfolding invoke_handle
  invoke_handle-LoopInv code h l i = ground (
    arith,
    mark_executed-LoopInv h (invoke_callback hq (code h) (record l { called = l.called ++ h ∷ [] }))
        (invoke_callback-LoopInv (code h) (record l { called = l.called ++ h ∷ [] })
          (record { queue = i.queue; timed = i.timed; known = i.known })),
  )
