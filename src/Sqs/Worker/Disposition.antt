-- ===== src/Sqs/Worker/Disposition.antt =====
-- What becomes of a message: whether it is deleted, and what is done with it.
use mathlib.Core.Path.{subst}
use zip_extraction.Common.{
  ℕ, ◌+◌, Bool, true, false, ◌≡◌, ◌∙◌, sym, ap, refl, Option, none, some, List, [], ◌∷◌, arith,
  if◌then◌else◌,
}
use zip_extraction.Go.Strings.{Text}
use zip_extraction.Config.{SqsConfig}
use zip_extraction.Extraction.Errors.{Error, Try, ok, fail}
use zip_extraction.Extraction.Types.{ClaimCheck}
use zip_extraction.Sqs.{SqsMessage, parse_message}
use zip_extraction.Sqs.Worker.{
  Reply, answered, panicked, Call, change_visibility, delete_message, Pc, started, parsing,
  rejecting, rejected, awaiting_rejected, handling, handled, awaiting, deleting, unwinding,
  finished, Worker, new_worker, after_parse, after_handler, note_delete, Step, Steps, shut_down,
  start, parse, reject, cancel_rejected, leave_rejected, handle, cancel, heartbeat_gone, delete,
  recover, beat, quit, here, next,
}

-- how many deletes have been tried
abbrev pub deletes : List Call → ℕ
deletes [] = 0
deletes (change_visibility v err ∷ calls) = deletes calls
deletes (delete_message err ∷ calls) = deletes calls + 1

-- the deletes of one deleteMessage: none without a receipt handle
abbrev pub one_delete : Option Text → ℕ
one_delete none = 0
one_delete (some r) = 1

abbrev answer : Option Text → Reply → ℕ
answer receipt (answered true err) = one_delete receipt
answer receipt (answered false err) = 0
answer receipt panicked = 0

module _ {W : Type 0} (handler : ClaimCheck → W → Reply × W) (receipt : Option Text) where
  -- The disposition of a message, by what its body is: an invalid one is deleted, and the handler
  -- does not see it; the handler says of any other whether it is deleted, and a panic leaves it.
  abbrev pub Disposition : Try ClaimCheck → W → ℕ → W → Type 0
  Disposition (fail e) w n w' = (n ≡ one_delete receipt) × (w' ≡ w)
  Disposition (ok msg) w n w' = (n ≡ answer receipt (handler msg w).0) × (w' ≡ (handler msg w).1)

  -- What has been done at each place.
  abbrev SoFar : Try ClaimCheck → W → Pc → ℕ → W → Type 0
  SoFar p w started n w' = (n ≡ 0) × (w' ≡ w)
  SoFar p w parsing n w' = (n ≡ 0) × (w' ≡ w)
  SoFar p w rejecting n w' = (e : Error) × (p ≡ fail e) × (n ≡ 0) × (w' ≡ w)
  SoFar p w rejected n w' = (e : Error) × (p ≡ fail e) × (n ≡ one_delete receipt) × (w' ≡ w)
  SoFar p w awaiting_rejected n w' =
      (e : Error) × (p ≡ fail e) × (n ≡ one_delete receipt) × (w' ≡ w)
  SoFar p w (handling msg) n w' = (p ≡ ok msg) × (n ≡ 0) × (w' ≡ w)
  SoFar p w (handled d) n w' =
      (msg : ClaimCheck) × (e : Option Error) × (p ≡ ok msg)
      × ((handler msg w).0 ≡ answered d e)
      × (w' ≡ (handler msg w).1)
      × (n ≡ 0)
  SoFar p w (awaiting d) n w' =
      (msg : ClaimCheck) × (e : Option Error) × (p ≡ ok msg)
      × ((handler msg w).0 ≡ answered d e)
      × (w' ≡ (handler msg w).1)
      × (n ≡ 0)
  SoFar p w deleting n w' =
      (msg : ClaimCheck) × (e : Option Error) × (p ≡ ok msg)
      × ((handler msg w).0 ≡ answered true e)
      × (w' ≡ (handler msg w).1)
      × (n ≡ 0)
  SoFar p w unwinding n w' =
      (msg : ClaimCheck) × (p ≡ ok msg)
      × ((handler msg w).0 ≡ panicked)
      × (w' ≡ (handler msg w).1)
      × (n ≡ 0)
  SoFar p w finished n w' = Disposition p w n w'

  parse-SoFar :
      (p : Try ClaimCheck) (w w' : W) (n : ℕ) → n ≡ 0 → w' ≡ w → SoFar p w (after_parse p) n w'
  unfolding after_parse
  parse-SoFar (fail e) w w' n d q = (e, refl, d, q)
  parse-SoFar (ok msg) w w' n d q = (refl, d, q)

  handle-SoFar :
      (p : Try ClaimCheck) (w w' : W) (msg : ClaimCheck) (n : ℕ) (r : Reply)
      → (handler msg w).0 ≡ r
      → p ≡ ok msg
      → n ≡ 0
      → w' ≡ (handler msg w).1
      → SoFar p w (after_handler r) n w'
  unfolding after_handler
  handle-SoFar p w w' msg n (answered d err) e v z q = (msg, err, v, e, q, z)
  handle-SoFar p w w' msg n panicked e v z q = (msg, v, e, q, z)

  -- The end, where the message is valid and the handler has given `r`.
  valid-Disposition :
      (p : Try ClaimCheck) (w w' : W) (msg : ClaimCheck) (n : ℕ) (r : Reply)
      → p ≡ ok msg
      → (handler msg w).0 ≡ r
      → w' ≡ (handler msg w).1
      → n ≡ answer receipt r
      → Disposition p w n w'
  valid-Disposition p w w' msg n r v e q z =
      subst (λ p. Disposition p w n w') (sym v) (z ∙ ap (answer receipt) (sym e), q)

  invalid-Disposition :
      (p : Try ClaimCheck) (w w' : W) (n : ℕ) (e : Error)
      → p ≡ fail e
      → n ≡ one_delete receipt
      → w' ≡ w
      → Disposition p w n w'
  invalid-Disposition p w w' n e v z q = subst (λ p. Disposition p w n w') (sym v) (z, q)

  gone-SoFar :
      (p : Try ClaimCheck) (w w' : W) (n : ℕ) (d : Bool)
      → SoFar p w (awaiting d) n w'
      → SoFar p w (if d then deleting else finished) n w'
  gone-SoFar p w w' n true h = h
  gone-SoFar p w w' n false (msg, err, v, e, q, z) = valid-Disposition p w w' msg n _ v e q z

deletes-note_delete :
    (receipt : Option Text) (err : Option Error) (calls : List Call)
    → deletes calls ≡ 0
    → deletes (note_delete receipt err calls) ≡ one_delete receipt
unfolding note_delete
deletes-note_delete none err calls h = h
deletes-note_delete (some r) err calls h = omega (arith, h)

module _ {W : Type 0} (cfg : SqsConfig) (decode : Text → Try ClaimCheck)
    (handler : ClaimCheck → W → Reply × W) (Answers : Bool → Option Error → Type 0)
    (m : SqsMessage) where
  abbrev Accounts : W → Worker W → Type 0
  Accounts w s =
      SoFar handler m.receipt_handle (parse_message decode m.body) w s.pc (deletes s.calls) s.world

  at :
      (w : W) (s : Worker W) (pc : Pc)
      → Accounts w s
      → s.pc ≡ pc
      → SoFar handler m.receipt_handle (parse_message decode m.body) w pc (deletes s.calls) s.world
  at w s pc h e =
      subst
        (λ pc.
          SoFar handler m.receipt_handle (parse_message decode m.body) w pc (deletes s.calls)
            s.world)
        e h

  Step-Accounts :
      (w : W) {s t : Worker W} → Accounts w s → Step cfg decode handler Answers m s t → Accounts w t
  Step-Accounts w {s} h shut_down = h
  Step-Accounts w {s} h (start e) = at w s started h e
  Step-Accounts w {s} h (parse e) =
      let (z, q) = at w s parsing h e in
      parse-SoFar handler m.receipt_handle (parse_message decode m.body) w s.world (deletes s.calls)
        z q
  Step-Accounts w {s} h (reject err e a) =
      let (x, v, z, q) = at w s rejecting h e in
      (x, v, deletes-note_delete m.receipt_handle err s.calls z, q)
  Step-Accounts w {s} h (cancel_rejected e) = at w s rejected h e
  Step-Accounts w {s} h (leave_rejected e gone) =
      let (x, v, z, q) = at w s awaiting_rejected h e in
      invalid-Disposition handler m.receipt_handle (parse_message decode m.body) w s.world
        (deletes s.calls) x v z q
  Step-Accounts w {s} h (handle msg e) =
      let (v, z, q) = at w s (handling msg) h e in
      handle-SoFar handler m.receipt_handle (parse_message decode m.body) w (handler msg s.world).1
        msg (deletes s.calls) (handler msg s.world).0 (ap (λ x. (handler msg x).0) (sym q)) v z
        (ap (λ x. (handler msg x).1) q)
  Step-Accounts w {s} h (cancel d e) = at w s (handled d) h e
  Step-Accounts w {s} h (heartbeat_gone d e gone) =
      gone-SoFar handler m.receipt_handle (parse_message decode m.body) w s.world (deletes s.calls)
        d (at w s (awaiting d) h e)
  Step-Accounts w {s} h (delete err e a) =
      let (msg, x, v, r, q, z) = at w s deleting h e in
      valid-Disposition handler m.receipt_handle (parse_message decode m.body) w s.world msg
        (deletes (note_delete m.receipt_handle err s.calls)) _ v r q
        (deletes-note_delete m.receipt_handle err s.calls z)
  Step-Accounts w {s} h (recover e) =
      let (msg, v, r, q, z) = at w s unwinding h e in
      valid-Disposition handler m.receipt_handle (parse_message decode m.body) w s.world msg
        (deletes s.calls) _ v r q z
  Step-Accounts w {s} h (beat err e a) = h
  Step-Accounts w {s} h (quit e done) = h

  Steps-Accounts :
      (w : W) {s t : Worker W}
      → Accounts w s
      → Steps cfg decode handler Answers m s t
      → Accounts w t
  Steps-Accounts w h here = h
  Steps-Accounts w h (next r mv) = Step-Accounts w (Steps-Accounts w h r) mv

  -- A worker that has finished has disposed of its message, however it and its heartbeat interleave:
  -- a message whose body is invalid is deleted, and nothing is done with it; else the handler has
  -- worked on it once, and one delete has been tried if the handler said so, and none if it did not
  -- or panicked. Without a receipt handle no delete is tried.
  pub Steps-Disposition :
      {t : Worker W} (root_done : Bool) (w : W)
      → Steps cfg decode handler Answers m (new_worker root_done w) t
      → t.pc ≡ finished
      → Disposition handler m.receipt_handle
          (parse_message decode m.body)
          w
          (deletes t.calls)
          t.world
  unfolding new_worker
  Steps-Disposition {t} root_done w r e = at w t finished (Steps-Accounts w (refl, refl) r) e
