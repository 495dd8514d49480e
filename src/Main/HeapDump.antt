-- ===== src/Main/HeapDump.antt =====
-- services/zip-extraction/cmd/zip-extraction/main.go: the handler of SIGUSR1, which writes a heap
-- profile. The file system and package pprof are parameters over a state `S`; `F` is an open file. The
-- log lines are the result.
use zip_extraction.Common.{
  ℕ, zero, suc, ◌≡◌, refl, sym, ◌∙◌, ap, ◌+◌, arith, Option, none, some, List, [], ◌∷◌, ◌++◌,
  length,
}
use zip_extraction.Go.Strings.{Text, text}
use zip_extraction.Extraction.Errors.{Error, Try, ok, fail}
use zip_extraction.Extraction.Types.{Time}

-- The line that is logged on a signal.
pub data Dump : Type 0 where
  create_failed : Error → Dump
  write_failed : Error → Dump
  written : Text → Dump

-- os.Create, pprof.WriteHeapProfile and Close; `format_utc` prints a time in UTC without separators.
pub record HeapPorts (S F : Type 0) : Type 0 where
  pub now : S → Time × S
  pub format_utc : Time → Text
  pub create : Text → S → Try F × S
  pub write_heap_profile : F → S → Option Error × S
  pub close : F → S → S

module _ {S F : Type 0} (h : HeapPorts S F) where
  dump_path : Time → Text
  dump_path t = text "/tmp/heap-" ++ (h.format_utc t ++ text ".pprof")

  write_answer : Text → Option Error → Dump
  write_answer path none = written path
  write_answer path (some e) = write_failed e

  after_create : Text → Try F × S → Dump × S
  unfolding write_answer
  after_create path (fail e, s) = (create_failed e, s)
  after_create path (ok f, s) =
      let (err, s1) = h.write_heap_profile f s in (write_answer path err, h.close f s1)

  unfoldable pub heap_dump : S → Dump × S
  unfolding dump_path after_create
  heap_dump s = let (t, s1) = h.now s in after_create (dump_path t) (h.create (dump_path t) s1)

  -- the goroutine, for the signals that come
  unfoldable pub heap_dumps : ℕ → S → List Dump × S
  unfolding heap_dump
  heap_dumps zero s = ([], s)
  heap_dumps (suc n) s =
      let (line, s1) = heap_dump s in let (lines, s2) = heap_dumps n s1 in (line ∷ lines, s2)

  -- a file is open from a create that succeeds until its close
  module _ (open_files : S → ℕ) (now_keeps : (s : S) → open_files (h.now s).1 ≡ open_files s)
      (opens : (path : Text) (f : F) (s : S)
        → (h.create path s).0 ≡ ok f
        → open_files (h.create path s).1 ≡ open_files s + 1)
      (not_opened : (path : Text) (e : Error) (s : S)
        → (h.create path s).0 ≡ fail e
        → open_files (h.create path s).1 ≡ open_files s)
      (write_keeps : (f : F) (s : S) → open_files (h.write_heap_profile f s).1 ≡ open_files s)
      (closes : (f : F) (s : S) → open_files s ≡ open_files (h.close f s) + 1) where
    after_create-open_files :
        (path : Text) (s : S) (got : Try F × S)
        → h.create path s ≡ got
        → open_files (after_create path got).1 ≡ open_files s
    unfolding after_create
    after_create-open_files path s (fail e, t) at =
        ap (λ x. open_files x.1) (sym at) ∙ not_opened path e s (ap (λ x. x.0) at)
    after_create-open_files path s (ok f, t) at =
        let opened = opens path f s (ap (λ x. x.0) at) in
        let there : open_files (h.create path s).1 ≡ open_files t = ap (λ x. open_files x.1) at in
        omega (arith, opened, there, write_keeps f t, closes f (h.write_heap_profile f t).1)

    -- However many signals come and whatever fails, each one logs a line, and no file is left open.
    pub heap_dumps-open_files :
        (n : ℕ) (s : S)
        → (length (heap_dumps n s).0 ≡ n) × (open_files (heap_dumps n s).1 ≡ open_files s)
    unfolding heap_dumps
    heap_dumps-open_files zero s = (refl, refl)
    heap_dumps-open_files (suc n) s =
        let (t, s1) = h.now s in
        let path = dump_path t in
        let one = after_create-open_files path s1 (h.create path s1) refl in
        let (lines, rest) = heap_dumps-open_files n (heap_dump s).1 in
        (omega (arith, lines), rest ∙ one ∙ now_keeps s)
