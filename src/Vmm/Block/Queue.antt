-- ===== src/Vmm/Block/Queue.antt =====
-- The loop of `process_queue`: it ends, and what holds when it has.
use litedroid.Base.{
  ℕ, zero, suc, ◌+◌, ◌-◌, ◌%◌, ◌^◌, ◌≤◌, ◌<◌, ◌≡◌, ◌≢◌, refl, ◌∙◌, ok, err, panic, out_of_fuel,
  Bool-cases, ◌==◌, inl, inr, arith, wrap16, ==-refl, ==_iff, ne→==, ltb, ltb→lt, ltb-false,
}
use litedroid.Core.Error.{LiteDroidError, Result}
use litedroid.Storage.Image.{FileOps}
use litedroid.Vmm.Block.Monad.{M, ◌>>◌}
use litedroid.Vmm.Block.{Guest, process_next, process_loop, advance, serve_next}
use litedroid.Vmm.Block.Steady.{SameRegs, serve_next-Steady}

-- How many requests the driver has put up that the device has not counted yet.
abbrev pub pending : ℕ → ℕ → ℕ
pending last_avail avail_idx = (avail_idx + 2 ^ 16 - last_avail) % 2 ^ 16

pending_step :
    (l a : ℕ) → l < 2 ^ 16 → a < 2 ^ 16 → l ≢ a → pending l a ≡ suc (pending (wrap16 (l + 1)) a)
pending_step l a p q n = elim (Bool-cases (ltb l a)) [
  | inl lt ↦ omega (arith, ltb→lt l a lt)
  | inr ge ↦ omega (arith, ltb-false l a ge)
]

module _ {F : Type 0} (ops : FileOps F) (queue a : ℕ) where
  -- The rest of a round, after the outcome of serving a request.
  go_on : ℕ → Result (Unit {0}) → M (Guest F) (Unit {0})
  go_on f (ok u) h = process_loop ops f queue a (advance h).1
  go_on f (err e) h = (err e, h)
  go_on f panic h = (panic, h)
  go_on f out_of_fuel h = (out_of_fuel, h)

  loop_round :
      (f : ℕ) (g : Guest F) (r : Result (Unit {0})) (h : Guest F)
      → serve_next ops queue g ≡ (r, h)
      → (process_next ops queue >> process_loop ops f queue a) g ≡ go_on f r h
  unfolding go_on process_next
  loop_round f g (ok u) h e = rw e
  loop_round f g (err x) h e = rw e
  loop_round f g panic h e = rw e
  loop_round f g out_of_fuel h e = rw e

  pub loop_done :
      (f : ℕ) (g : Guest F) → g.device.last_avail ≡ a → process_loop ops f queue a g ≡ (ok tt, g)
  unfolding process_loop
  loop_done zero g e = rw (e, ==-refl a)
  loop_done (suc f) g e = rw (e, ==-refl a)

  loop_more :
      (f : ℕ) (g : Guest F)
      → g.device.last_avail ≢ a
      → process_loop ops (suc f) queue a g
        ≡ go_on f (serve_next ops queue g).0 (serve_next ops queue g).1
  unfolding process_loop
  loop_more f g n = rw (ne→== _ _ n) (loop_round f g _ (serve_next ops queue g).1 refl)

  serve_next-empty : (g : Guest F) → g.device.queue_num ≡ 0 → (serve_next ops queue g).0 ≡ panic
  unfolding serve_next
  serve_next-empty g z = ground arith

  -- On a queue of size 0 the first round panics.
  pub loop-empty :
      (f : ℕ) (g : Guest F)
      → g.device.queue_num ≡ 0
      → g.device.last_avail ≢ a
      → (process_loop ops (suc f) queue a g).0 ≡ panic
  unfolding go_on
  loop-empty f g z n = rw (loop_more f g n, serve_next-empty g z)

  -- How a run of the loop from `g` ends.
  pub record Settled (g : Guest F) (out : Result (Unit {0}) × Guest F) : Type 0 where
    pub ends : out.0 ≢ out_of_fuel
    pub done : out.0 ≡ ok tt → out.1.device.last_avail ≡ a
    pub stopped : (e : LiteDroidError) → out.0 ≡ err e → out.1.device.last_avail ≢ a
    pub calm : g.device.queue_num ≢ 0 → out.0 ≢ panic
    pub avail : out.1.device.last_avail < 2 ^ 16
    pub num : out.1.device.queue_num ≡ g.device.queue_num
    pub pfn : out.1.device.queue_pfn ≡ g.device.queue_pfn
    pub status : out.1.device.status ≡ g.device.status
    pub capacity : out.1.device.disk.size ≡ g.device.disk.size
    pub extent : out.1.memory.size ≡ g.memory.size

  stopped_at :
      (g h : Guest F) (r : Result (Unit {0}))
      → g.device.last_avail < 2 ^ 16
      → g.device.last_avail ≢ a
      → SameRegs g h
      → r ≢ ok tt
      → r ≢ out_of_fuel
      → (g.device.queue_num ≢ 0 → r ≢ panic)
      → Settled g (r, h)
  stopped_at g h r u n s x o c = record {
    ends = o;
    done = λ e. absurd (x e);
    stopped = λ _ _. rw (s.avail) n;
    calm = c;
    avail = rw (s.avail) u;
    num = s.num;
    pfn = s.pfn;
    status = s.status;
    capacity = s.capacity;
    extent = s.extent;
  }

  -- A run from where one round has left the device.
  Settled-advance :
      (g h : Guest F) (out : Result (Unit {0}) × Guest F)
      → SameRegs g h
      → Settled (advance h).1 out
      → Settled g out
  unfolding advance
  Settled-advance g h out s t = record {
    ends = t.ends;
    done = t.done;
    stopped = t.stopped;
    calm = λ n. t.calm (rw (s.num) n);
    avail = t.avail;
    num = t.num ∙ s.num;
    pfn = t.pfn ∙ s.pfn;
    status = t.status ∙ s.status;
    capacity = t.capacity ∙ s.capacity;
    extent = t.extent ∙ s.extent;
  }

  at_end :
      (g : Guest F) → g.device.last_avail < 2 ^ 16 → g.device.last_avail ≡ a → Settled g (ok tt, g)
  at_end g u e = record {
    ends = λ x. cc;
    done = λ x. e;
    stopped = λ x y. cc;
    calm = λ n x. cc;
    avail = u;
    num = refl;
    pfn = refl;
    status = refl;
    capacity = refl;
    extent = refl;
  }

  -- One round, with the rest of the run as an assumption on where the round leaves the device.
  settle_round :
      (f : ℕ) (g h : Guest F) (r : Result (Unit {0}))
      → g.device.last_avail < 2 ^ 16
      → g.device.last_avail ≢ a
      → SameRegs g h
      → r ≢ out_of_fuel
      → (g.device.queue_num ≢ 0 → r ≢ panic)
      → Settled (advance h).1 (process_loop ops f queue a (advance h).1)
      → Settled g (go_on f r h)
  unfolding go_on
  settle_round f g h (ok u) b n s o c t = Settled-advance g h _ s t
  settle_round f g h (err e) b n s o c t = stopped_at g h (err e) b n s (λ x. cc) o c
  settle_round f g h panic b n s o c t = stopped_at g h panic b n s (λ x. cc) o c
  settle_round f g h out_of_fuel b n s o c t = absurd (o refl)

  pub settle :
      (f : ℕ) (g : Guest F)
      → g.device.last_avail < 2 ^ 16
      → a < 2 ^ 16
      → pending g.device.last_avail a ≤ f
      → Settled g (process_loop ops f queue a g)
  settle zero g u v p =
      let e : g.device.last_avail ≡ a = omega arith in rw (loop_done zero g e) (at_end g u e)
  settle (suc f) g u v p = elim (Bool-cases (g.device.last_avail == a)) [
    | inl same ↦
        let e = (==_iff g.device.last_avail a).0 same in rw (loop_done (suc f) g e) (at_end g u e)
    | inr other ↦
        let n : g.device.last_avail ≢ a = (λ e. cc (other, (==_iff g.device.last_avail a).1 e)) in
        let s = serve_next-Steady ops queue in
        let h = (serve_next ops queue g).1 in
        let same = s.keeps g in
        rw (loop_more f g n) (
          settle_round f g h _ u n same (s.ends g) (s.calm g)
            (settle f (advance h).1 (next_u h) v (next_pending h same n)))
  ]
    where
      next_u : (h : Guest F) → (advance h).1.device.last_avail < 2 ^ 16
      next_u h = unfold advance in omega arith

      next_pending :
          (h : Guest F)
          → SameRegs g h
          → g.device.last_avail ≢ a
          → pending ((advance h).1).device.last_avail a ≤ f
      next_pending h s n =
          unfold advance in rw (s.avail) (omega (arith, pending_step g.device.last_avail a u v n))
