-- ===== src/Sqs/Worker/Progress.antt =====
-- A worker goes on to its end: its steps, weighed by what is left of them.
use zip_extraction.Common.{
  ℕ, ◌+◌, Bool, true, false, ◌≡◌, refl, ap, ◌≤◌, ◌⊎◌, inl, inr, arith, Option, none, some,
  if◌then◌else◌,
}
use zip_extraction.Go.Strings.{Text}
use zip_extraction.Config.{SqsConfig}
use zip_extraction.Extraction.Errors.{Error, Try, ok, fail}
use zip_extraction.Extraction.Types.{ClaimCheck}
use zip_extraction.Sqs.{SqsMessage, parse_message}
use zip_extraction.Sqs.Worker.{
  Reply, answered, panicked, Heartbeat, beating, stopped, Pc, started, parsing, rejecting, rejected,
  awaiting_rejected, handling, handled, awaiting, deleting, unwinding, finished, Worker, new_worker,
  after_parse, after_handler, after_beat, start_heartbeat, Step, Steps, shut_down, start, parse,
  reject, cancel_rejected, leave_rejected, handle, cancel, heartbeat_gone, delete, recover, beat,
  quit, here, next,
}

-- The context has been cancelled before the heartbeat is waited for.
abbrev Cancelled : Pc → Bool → Type 0
Cancelled (awaiting d) done = done ≡ true
Cancelled awaiting_rejected done = done ≡ true
Cancelled _ done = Unit

Cancelled-after_parse : (p : Try ClaimCheck) (done : Bool) → Cancelled (after_parse p) done
unfolding after_parse
Cancelled-after_parse (fail e) done = tt
Cancelled-after_parse (ok msg) done = tt

Cancelled-after_handler : (r : Reply) (done : Bool) → Cancelled (after_handler r) done
unfolding after_handler
Cancelled-after_handler (answered d e) done = tt
Cancelled-after_handler panicked done = tt

Cancelled-if : (d : Bool) (done : Bool) → Cancelled (if d then deleting else finished) done
Cancelled-if true done = tt
Cancelled-if false done = tt

-- the steps from a place to the end, that of the heartbeat aside
pc_rank : Pc → ℕ
pc_rank started = 7
pc_rank parsing = 5
pc_rank rejecting = 3
pc_rank rejected = 2
pc_rank awaiting_rejected = 1
pc_rank (handling msg) = 4
pc_rank (handled d) = 3
pc_rank (awaiting d) = 2
pc_rank deleting = 1
pc_rank unwinding = 1
pc_rank finished = 0

heartbeat_rank : Heartbeat → ℕ
heartbeat_rank beating = 1
heartbeat_rank stopped = 0

pc_rank_at : {W : Type 0} (s : Worker W) (pc : Pc) → s.pc ≡ pc → pc_rank s.pc ≡ pc_rank pc
pc_rank_at s pc e = ap pc_rank e

heartbeat_rank_at :
    {W : Type 0} (s : Worker W) (h : Heartbeat)
    → s.heartbeat ≡ h
    → heartbeat_rank s.heartbeat ≡ heartbeat_rank h
heartbeat_rank_at s h e = ap heartbeat_rank e

start_heartbeat-rank : (receipt : Option Text) → heartbeat_rank (start_heartbeat receipt) ≤ 1
unfolding heartbeat_rank start_heartbeat
start_heartbeat-rank none = omega arith
start_heartbeat-rank (some r) = omega arith

after_beat-rank : (err : Option Error) → heartbeat_rank (after_beat err) ≤ 1
unfolding heartbeat_rank after_beat
after_beat-rank none = omega arith
after_beat-rank (some e) = ground arith

after_parse-rank : (p : Try ClaimCheck) → pc_rank (after_parse p) ≤ 4
unfolding pc_rank after_parse
after_parse-rank (fail e) = omega arith
after_parse-rank (ok msg) = omega arith

after_handler-rank : (r : Reply) → pc_rank (after_handler r) ≤ 3
unfolding pc_rank after_handler
after_handler-rank (answered d e) = omega arith
after_handler-rank panicked = omega arith

gone-rank : (d : Bool) → pc_rank (if d then deleting else finished) ≤ 1
unfolding pc_rank
gone-rank true = omega arith
gone-rank false = omega arith

module _ {W : Type 0} (cfg : SqsConfig) (decode : Text → Try ClaimCheck)
    (handler : ClaimCheck → W → Reply × W) (Answers : Bool → Option Error → Type 0)
    (m : SqsMessage) where
  Step-Cancelled :
      {s t : Worker W}
      → Cancelled s.pc s.worker_done
      → Step cfg decode handler Answers m s t
      → Cancelled t.pc t.worker_done
  Step-Cancelled h shut_down = h
  Step-Cancelled h (start e) = tt
  Step-Cancelled {s} h (parse e) = Cancelled-after_parse (parse_message decode m.body) s.worker_done
  Step-Cancelled h (reject err e a) = tt
  Step-Cancelled h (cancel_rejected e) = refl
  Step-Cancelled h (leave_rejected e gone) = tt
  Step-Cancelled {s} h (handle msg e) =
      Cancelled-after_handler (handler msg s.world).0 s.worker_done
  Step-Cancelled h (cancel d e) = refl
  Step-Cancelled {s} h (heartbeat_gone d e gone) = Cancelled-if d s.worker_done
  Step-Cancelled h (delete err e a) = tt
  Step-Cancelled h (recover e) = tt
  Step-Cancelled h (beat err e a) = h
  Step-Cancelled h (quit e done) = h

  Steps-Cancelled :
      {s t : Worker W}
      → Cancelled s.pc s.worker_done
      → Steps cfg decode handler Answers m s t
      → Cancelled t.pc t.worker_done
  Steps-Cancelled h here = h
  Steps-Cancelled h (next r mv) = Step-Cancelled (Steps-Cancelled h r) mv

  -- A step that brings the worker to its end: any but a shutdown, which comes from outside, and a beat.
  abbrev pub effort : {s t : Worker W} → Step cfg decode handler Answers m s t → ℕ
  effort shut_down = 0
  effort (beat err e a) = 0
  effort (start e) = 1
  effort (parse e) = 1
  effort (reject err e a) = 1
  effort (cancel_rejected e) = 1
  effort (leave_rejected e gone) = 1
  effort (handle msg e) = 1
  effort (cancel d e) = 1
  effort (heartbeat_gone d e gone) = 1
  effort (delete err e a) = 1
  effort (recover e) = 1
  effort (quit e done) = 1

  abbrev pub efforts : {s t : Worker W} → Steps cfg decode handler Answers m s t → ℕ
  efforts here = 0
  efforts (next r mv) = efforts r + effort mv

  -- what is left of them
  rank : Worker W → ℕ
  unfolding pc_rank heartbeat_rank
  rank s = pc_rank s.pc + heartbeat_rank s.heartbeat

  rank-Step :
      {s t : Worker W} → (mv : Step cfg decode handler Answers m s t) → effort mv + rank t ≤ rank s
  unfolding rank pc_rank heartbeat_rank
  rank-Step shut_down = omega arith
  rank-Step {s} (start e) =
      omega (arith, pc_rank_at s started e, start_heartbeat-rank m.receipt_handle)
  rank-Step {s} (parse e) =
      omega (arith, pc_rank_at s parsing e, after_parse-rank (parse_message decode m.body))
  rank-Step {s} (reject err e a) = omega (arith, pc_rank_at s rejecting e)
  rank-Step {s} (cancel_rejected e) = omega (arith, pc_rank_at s rejected e)
  rank-Step {s} (leave_rejected e gone) = omega (arith, pc_rank_at s awaiting_rejected e)
  rank-Step {s} (handle msg e) =
      omega (arith, pc_rank_at s (handling msg) e, after_handler-rank (handler msg s.world).0)
  rank-Step {s} (cancel d e) = omega (arith, pc_rank_at s (handled d) e)
  rank-Step {s} (heartbeat_gone d e gone) = omega (arith, pc_rank_at s (awaiting d) e, gone-rank d)
  rank-Step {s} (delete err e a) = omega (arith, pc_rank_at s deleting e)
  rank-Step {s} (recover e) = omega (arith, pc_rank_at s unwinding e)
  rank-Step {s} (beat err e a) = omega (arith, heartbeat_rank_at s beating e, after_beat-rank err)
  rank-Step {s} (quit e done) = omega (arith, heartbeat_rank_at s beating e)

  rank-Steps :
      {s t : Worker W} → (r : Steps cfg decode handler Answers m s t) → efforts r + rank t ≤ rank s
  rank-Steps here = omega arith
  rank-Steps (next r mv) = omega (arith, rank-Steps r, rank-Step mv)

  -- The worker has finished, or such a step can be made.
  abbrev pub GoesOn : Worker W → Type 0
  GoesOn s =
      (s.pc ≡ finished)
      ⊎ ((t : Worker W) × ((mv : Step cfg decode handler Answers m s t) × (effort mv ≡ 1)))

  GoesOn-awaiting :
      (s : Worker W) (h : Heartbeat)
      → s.heartbeat ≡ h
      → s.worker_done ≡ true
      → (s.heartbeat ≡ stopped → GoesOn s)
      → GoesOn s
  GoesOn-awaiting s stopped e done k = k e
  GoesOn-awaiting s beating e done k = inr (_, (quit e (rw done), refl))

  module _ (answer : (b : Bool) → (e : Option Error) × Answers b e) where
    GoesOn-at : (s : Worker W) (pc : Pc) → s.pc ≡ pc → Cancelled pc s.worker_done → GoesOn s
    GoesOn-at s started e h = inr (_, (start e, refl))
    GoesOn-at s parsing e h = inr (_, (parse e, refl))
    GoesOn-at s rejecting e h = let (err, a) = answer s.root_done in inr (_, (reject err e a, refl))
    GoesOn-at s rejected e h = inr (_, (cancel_rejected e, refl))
    GoesOn-at s awaiting_rejected e h =
        GoesOn-awaiting s s.heartbeat refl h (λ gone. inr (_, (leave_rejected e gone, refl)))
    GoesOn-at s (handling msg) e h = inr (_, (handle msg e, refl))
    GoesOn-at s (handled d) e h = inr (_, (cancel d e, refl))
    GoesOn-at s (awaiting d) e h =
        GoesOn-awaiting s s.heartbeat refl h (λ gone. inr (_, (heartbeat_gone d e gone, refl)))
    GoesOn-at s deleting e h = let (err, a) = answer s.root_done in inr (_, (delete err e a, refl))
    GoesOn-at s unwinding e h = inr (_, (recover e, refl))
    GoesOn-at s finished e h = inl e

    -- Where the SQS API answers each call, and the handler returns or panics: however a worker and its
    -- heartbeat interleave, they make at most seven steps besides the beats and the shutdown; and in
    -- every state that they come to, the worker has finished, or one of these steps can be made, which
    -- needs neither a shutdown nor a beat. So the worker is never left waiting for its heartbeat.
    pub Steps-GoesOn :
        {s : Worker W} (root_done : Bool) (w : W)
        (r : Steps cfg decode handler Answers m (new_worker root_done w) s)
        → (efforts r ≤ 7) × GoesOn s
    unfolding new_worker rank pc_rank heartbeat_rank
    Steps-GoesOn {s} root_done w r =
        (omega (arith, rank-Steps r), GoesOn-at s s.pc refl (Steps-Cancelled tt r))
