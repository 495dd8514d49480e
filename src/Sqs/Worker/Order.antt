-- ===== src/Sqs/Worker/Order.antt =====
-- The order of the calls that a worker and its heartbeat make on a message.
use mathlib.Core.Path.{subst}
use zip_extraction.Common.{
  Bool, true, false, ◌≡◌, ◌∙◌, sym, ap, refl, Option, none, some, List, [], ◌∷◌, if◌then◌else◌,
}
use zip_extraction.Go.Strings.{Text}
use zip_extraction.Config.{SqsConfig}
use zip_extraction.Extraction.Errors.{Error, Try, ok, fail}
use zip_extraction.Extraction.Types.{ClaimCheck}
use zip_extraction.Sqs.{SqsMessage, parse_message}
use zip_extraction.Sqs.Worker.{
  Reply, answered, panicked, Call, change_visibility, delete_message, Heartbeat, beating, stopped,
  Pc, started, parsing, rejecting, rejected, awaiting_rejected, handling, handled, awaiting,
  deleting, unwinding, finished, Worker, new_worker, start_heartbeat, after_parse, after_handler,
  note_delete, Step, Steps, shut_down, start, parse, reject, cancel_rejected, leave_rejected,
  handle, cancel, heartbeat_gone, delete, recover, beat, quit, here, next,
}

-- whether a delete has been tried
abbrev pub has_delete : List Call → Bool
has_delete [] = false
has_delete (change_visibility v err ∷ calls) = has_delete calls
has_delete (delete_message err ∷ calls) = true

-- No visibility is changed after a delete; the calls are latest first.
abbrev pub DeletesLast : List Call → Type 0
DeletesLast [] = Unit
DeletesLast (change_visibility v err ∷ calls) = (has_delete calls ≡ false) × DeletesLast calls
DeletesLast (delete_message err ∷ calls) = DeletesLast calls

-- A worker that has not rejected the message, and deletes it only if the heartbeat has stopped.
abbrev Waits : Pc → Heartbeat → List Call → Type 0
Waits started h calls = has_delete calls ≡ false
Waits rejecting h calls = ⊥
Waits rejected h calls = ⊥
Waits awaiting_rejected h calls = ⊥
Waits deleting h calls = h ≡ stopped
Waits _ h calls = Unit

record Orderly {W : Type 0} (s : Worker W) : Type 0 where
  last : DeletesLast s.calls
  silent : has_delete s.calls ≡ true → s.heartbeat ≡ stopped
  waits : Waits s.pc s.heartbeat s.calls

Waits-after_handler :
    (r : Reply) (h : Heartbeat) (calls : List Call) → Waits (after_handler r) h calls
unfolding after_handler
Waits-after_handler (answered d err) h calls = tt
Waits-after_handler panicked h calls = tt

Waits-if :
    (d : Bool) (h : Heartbeat) (calls : List Call)
    → h ≡ stopped
    → Waits (if d then deleting else finished) h calls
Waits-if true h calls e = e
Waits-if false h calls e = tt

-- A heartbeat that is beating may change the visibility, and may stop.
Waits-beat :
    (pc : Pc) {h : Heartbeat} (h' : Heartbeat) (calls calls' : List Call)
    → h ≡ beating
    → has_delete calls' ≡ has_delete calls
    → Waits pc h calls
    → Waits pc h' calls'
Waits-beat started h' calls calls' e d w = d ∙ w
Waits-beat parsing h' calls calls' e d w = tt
Waits-beat (handling msg) h' calls calls' e d w = tt
Waits-beat (handled b) h' calls calls' e d w = tt
Waits-beat (awaiting b) h' calls calls' e d w = tt
Waits-beat deleting h' calls calls' e d w = cc
Waits-beat unwinding h' calls calls' e d w = tt
Waits-beat finished h' calls calls' e d w = tt
Waits-beat rejecting h' calls calls' e d w = w
Waits-beat rejected h' calls calls' e d w = w
Waits-beat awaiting_rejected h' calls calls' e d w = w

DeletesLast-note_delete :
    (handle : Option Text) (err : Option Error) (calls : List Call)
    → DeletesLast calls
    → DeletesLast (note_delete handle err calls)
unfolding note_delete
DeletesLast-note_delete none err calls h = h
DeletesLast-note_delete (some r) err calls h = h

beating_silent : {h : Heartbeat} (b : Bool) → (b ≡ true → h ≡ stopped) → h ≡ beating → b ≡ false
beating_silent true f e = let g = f refl in cc
beating_silent false f e = refl

module _ {W : Type 0} (cfg : SqsConfig) (decode : Text → Try ClaimCheck)
    (handler : ClaimCheck → W → Reply × W) (Answers : Bool → Option Error → Type 0)
    (m : SqsMessage) where
  Waits-at : {s : Worker W} (pc : Pc) → Orderly s → s.pc ≡ pc → Waits pc s.heartbeat s.calls
  Waits-at {s} pc o e = subst (λ p. Waits p s.heartbeat s.calls) e o.waits

  Step-Orderly :
      {s t : Worker W} (msg : ClaimCheck)
      → parse_message decode m.body ≡ ok msg
      → Orderly s
      → Step cfg decode handler Answers m s t
      → Orderly t
  unfolding after_parse
  Step-Orderly msg valid o shut_down = record { last = o.last; silent = o.silent; waits = o.waits }
  Step-Orderly msg valid o (start e) =
      let quiet = Waits-at started o e in record { last = o.last; silent = λ d. cc; waits = tt }
  Step-Orderly {s} msg valid o (parse e) = record {
    last = o.last;
    silent = o.silent;
    waits = subst (λ p. Waits (after_parse p) s.heartbeat s.calls) (sym valid) tt;
  }
  Step-Orderly msg valid o (reject err e a) = absurd (Waits-at rejecting o e)
  Step-Orderly msg valid o (cancel_rejected e) = absurd (Waits-at rejected o e)
  Step-Orderly msg valid o (leave_rejected e h) = absurd (Waits-at awaiting_rejected o e)
  Step-Orderly {s} msg valid o (handle c e) = record {
    last = o.last;
    silent = o.silent;
    waits = Waits-after_handler (handler c s.world).0 _ _;
  }
  Step-Orderly msg valid o (cancel d e) = record { last = o.last; silent = o.silent; waits = tt }
  Step-Orderly msg valid o (heartbeat_gone d e h) = record {
    last = o.last;
    silent = o.silent;
    waits = Waits-if d _ _ h;
  }
  Step-Orderly {s} msg valid o (delete err e a) = record {
    last = DeletesLast-note_delete m.receipt_handle err s.calls o.last;
    silent = λ d. Waits-at deleting o e;
    waits = tt;
  }
  Step-Orderly msg valid o (recover e) = record { last = o.last; silent = o.silent; waits = tt }
  Step-Orderly {s} msg valid o (beat err e a) =
      let none_yet = beating_silent (has_delete s.calls) o.silent e in
      record {
        last = (none_yet, o.last);
        silent = λ d. cc;
        waits = Waits-beat s.pc _ s.calls _ e refl o.waits;
      }
  Step-Orderly {s} msg valid o (quit e done) = record {
    last = o.last;
    silent = λ d. refl;
    waits = Waits-beat s.pc _ s.calls _ e refl o.waits;
  }

  Steps-Orderly :
      {s t : Worker W} (msg : ClaimCheck)
      → parse_message decode m.body ≡ ok msg
      → Orderly s
      → Steps cfg decode handler Answers m s t
      → Orderly t
  Steps-Orderly msg valid o here = o
  Steps-Orderly msg valid o (next r mv) = Step-Orderly msg valid (Steps-Orderly msg valid o r) mv

  -- However the worker of a valid message and its heartbeat interleave, whatever the handler and the
  -- SQS API answer: no visibility is changed after a delete has been tried.
  pub Steps-DeletesLast :
      {t : Worker W} (root_done : Bool) (w : W) (msg : ClaimCheck)
      → parse_message decode m.body ≡ ok msg
      → Steps cfg decode handler Answers m (new_worker root_done w) t
      → DeletesLast t.calls
  unfolding new_worker
  Steps-DeletesLast root_done w msg valid r =
      (Steps-Orderly msg valid (record { last = tt; silent = λ d. refl; waits = refl }) r).last

  -- The schema of the message is invalid: it is deleted while its heartbeat beats, so that its
  -- visibility may still be changed after the delete, where the API may answer without an error.
  pub rejected-change_visibility :
      (w : W) (e : Error) (r : Text)
      → parse_message decode m.body ≡ fail e
      → m.receipt_handle ≡ some r
      → Answers false none
      → (t : Worker W) × Steps cfg decode handler Answers m (new_worker false w) t
        × ¬ DeletesLast t.calls
  unfolding new_worker after_parse start_heartbeat note_delete
  rejected-change_visibility w e r invalid receipt a = (
    _,
    next
        (next (next (next here (start refl)) (parse refl)) (reject none (ap after_parse invalid) a))
        (beat none (ap start_heartbeat receipt) a),
    λ last.
        let quiet = subst (λ o. has_delete (note_delete o none []) ≡ false) receipt last.0 in cc,
  )
