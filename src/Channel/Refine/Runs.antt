-- ===== src/Channel/Refine/Runs.antt =====
-- aio/channel.py: any calls of a channel, as steps of the abstract queue.
use aio.Prelude.{◌≡◌, refl, ap, sym, ◌∙◌, List, [], ◌∷◌, ◌++◌}
use aio.Channel.{Chan, get_no_wait}
use aio.Channel.Async.{get_start, get_resume, close}
use aio.Channel.Invariant.{
  Call, gets_now, puts_now, gets, resumes_get, puts, resumes_put, closes, elsewhere, Inv, exec, run,
  exec-Inv,
}
use aio.Channel.Fifo.{contents}
use aio.Channel.Spec.{
  Follows-fifo, withdrawals_of-append, Follows-append, pushes_of-append, pops_of-append,
}
use aio.Channel.Refine.{accepted, delivered, lost, Implements, nothing, all_of}
use aio.Channel.Refine.Gets.{Getting, get-Implements, get_after-Implements}
use aio.Channel.Refine.Puts.{Putting, put_now-Implements, put-Implements, put_resume-Implements}

module _ {T : Type 0} where
  exec-Implements :
      (k : Call T) (c : Chan T)
      → Inv c.queue
      → Implements (accepted k c) (delivered k c) (lost k c) c.queue (exec k c).queue
  unfolding exec Putting Getting get_start get_resume close
  exec-Implements gets_now c i = get-Implements c
  exec-Implements (gets l) c i = get_after-Implements l c (get_no_wait c) refl (get-Implements c)
  exec-Implements (resumes_get p how) c i = nothing refl
  exec-Implements (puts_now e) c i = put_now-Implements e c i
  exec-Implements (puts l e) c i = put-Implements l e c i
  exec-Implements (resumes_put p how) c i = put_resume-Implements p how c
  exec-Implements closes c i = nothing refl
  exec-Implements (elsewhere w) c i = nothing refl

  -- A channel implements the abstract queue of its contents: after any sequence of calls, from a
  -- state that keeps the invariant, its contents come of those that it had by pushes at the end,
  -- pops at the front and withdrawals; the pushed elements are those of the puts that did not
  -- raise, the popped ones are those that gets returned at once and those that are, after a put,
  -- the result of the promise of the first getter that waited, each in the order of the calls, and
  -- the withdrawn ones are those of the putters that gave up their wait and of those removed by a
  -- get that raised. What becomes of an element once it is the result of a getter's promise is not
  -- the channel's: a getter that is cancelled by then drops it.
  pub run-Implements :
      (ks : List (Call T)) (c : Chan T)
      → Inv c.queue
      → Implements
          (all_of accepted ks c)
          (all_of delivered ks c)
          (all_of lost ks c)
          c.queue
          (run ks c).queue
  unfolding run
  run-Implements [] c i = nothing refl
  run-Implements (k ∷ ks) c i =
      let f : _ = exec-Implements k c i in
      let g : _ = run-Implements ks (exec k c) (exec-Inv k c i) in
      record {
        labels = f.labels ++ g.labels;
        follows = Follows-append f.labels g.labels _ _ _ f.follows g.follows;
        ins_eq = pushes_of-append f.labels g.labels ∙ cc;
        outs_eq = pops_of-append f.labels g.labels ∙ cc;
        gone_eq = withdrawals_of-append f.labels g.labels ∙ cc;
      }

  -- After any sequence of calls that withdraws nothing, from a state that keeps the invariant: the
  -- elements that the channel held, then those that were put in, are those that were taken out,
  -- by gets or into the promises of getters, then those that it holds now, in order.
  run_fifo :
      (ks : List (Call T)) (c : Chan T)
      → Inv c.queue
      → all_of lost ks c ≡ []
      → contents c.queue ++ all_of accepted ks c
        ≡ all_of delivered ks c ++ contents (run ks c).queue
  run_fifo ks c i n =
      let m : _ = run-Implements ks c i in
      ap (λ x. contents c.queue ++ x) (sym m.ins_eq)
      ∙ Follows-fifo m.labels _ _ m.follows (m.gone_eq ∙ n)
      ∙ ap (λ x. x ++ contents (run ks c).queue) m.outs_eq
