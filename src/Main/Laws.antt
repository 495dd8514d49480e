-- ===== src/Main/Laws.antt =====
-- The receive loop under a configuration that has been loaded.
use zip_extraction.Common.{
  ℕ, ◌<◌, ◌≡◌, refl, ◌⊎◌, inl, inr, Bool, Bool-cases, List, [], ◌∷◌, arith, length,
}
use zip_extraction.Common.Int.{ℤ, pos, negsuc, ◌<ℤ◌, pos_part}
use zip_extraction.Go.Strings.{Text}
use zip_extraction.Go.Float.{Float64, FloatOps}
use zip_extraction.Extraction.Errors.{Try, ok}
use zip_extraction.Config.{Config}
use zip_extraction.Config.Load.{Environment, load}
use zip_extraction.Config.Load.Laws.{load-IsValid}
use zip_extraction.Sqs.{SqsMessage}
use zip_extraction.Sqs.Loop.{
  Loop, new_loop, LoopPc, head, receiving, backing_off, handing, draining, returned, stop, receive,
  receive_some, back_off_end, hand, batch_done, drain_deadline, Runs,
}
use zip_extraction.Sqs.Loop.Slots.{Runs-slots}
use zip_extraction.Sqs.Loop.Drain.{GoesOn}
use zip_extraction.Main.{Outside, slot_capacity}

positive_part : (a : ℤ) → pos 0 <ℤ a → 0 < pos_part a
positive_part (pos n) h = omega (arith, h)
positive_part (negsuc n) h = absurd (omega (arith, h))

-- A worker holds a slot.
abbrev pub Busy : Loop → Type 0
Busy s = (m : SqsMessage) × (others : List SqsMessage) × (s.working ≡ m ∷ others)

GoesOn-head : (max : ℕ) (s : Loop) → s.pc ≡ head → GoesOn max s
GoesOn-head max s e = elim (Bool-cases s.cancelled) [
  | inl c ↦ inr (_, stop e c)
  | inr c ↦ inr (_, receive e c)
]

-- With a slot at least, a message waits only for workers.
progress :
    (max : ℕ) (s : Loop) (pc : LoopPc) (working : List SqsMessage)
    → s.pc ≡ pc
    → s.working ≡ working
    → s.slots ≡ length working
    → 0 < max
    → GoesOn max s ⊎ Busy s
progress max s head working e w u h = inl (GoesOn-head max s e)
progress max s receiving working e w u h = inl (inr (_, receive_some [] e (omega arith)))
progress max s backing_off working e w u h = inl (inr (_, back_off_end e))
progress max s (handing []) working e w u h = inl (inr (_, batch_done e))
progress max s (handing (m ∷ batch)) [] e w u h =
    inl (inr (_, hand m batch e (omega (arith, u, h))))
progress max s (handing (m ∷ batch)) (x ∷ working) e w u h = inr (x, working, w)
progress max s draining working e w u h = inl (inr (_, drain_deadline e))
progress max s (returned x) working e w u h = inl (inl (x, e))

module _ {F : Type 0} (quote : Text → Text) (open_file : Text → Try F)
    (decode : F → Config → Try Config) (fl : FloatOps) (le : Float64 → Float64 → Bool) where
  -- Under a configuration that Load returns the receive loop is never stuck: in every state that it
  -- comes to, with the slots of that configuration, it has returned, or can make a step, or a worker is
  -- at work.
  pub load-progress :
      {S B R : Type 0} {n : ℕ} {s : Loop} (o : Outside S B R) (env : Environment) (cfg : Config)
      → load quote open_file decode fl le env ≡ ok cfg
      → Runs (slot_capacity o cfg) new_loop n s
      → GoesOn (slot_capacity o cfg) s ⊎ Busy s
  unfolding slot_capacity
  load-progress {s} o env cfg loaded r =
      let valid = (load-IsValid quote open_file decode fl le env cfg loaded).0 in
      progress (slot_capacity o cfg) s s.pc s.working refl refl
        (Runs-slots (slot_capacity o cfg) r).1.0
        (positive_part cfg.sqs.max_in_flight valid.in_flight)
