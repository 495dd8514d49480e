-- ===== src/Main/Document.antt =====
-- The document that the slipsheet writer of main.go makes of what Process hands to it, and its put.
use zip_extraction.Common.{
  ◌≡◌, ◌⊎◌, inl, inr, ◌∙◌, refl, sym, ap, some, List, ◌∷◌, ◌++◌, map, length,
}
use zip_extraction.Common.Int.{pos}
use zip_extraction.Go.Strings.{Text, text}
use zip_extraction.Go.Sort.{IsSorting}
use zip_extraction.Config.{Config}
use zip_extraction.Extraction.Errors.{Error, ok, fail}
use zip_extraction.Extraction.Types.{ClaimCheck, Outcome, status_string}
use zip_extraction.Extraction.Service.Effects.{SlipsheetCall, World}
use zip_extraction.Extraction.Service.Guarantees.{slipsheets}
use zip_extraction.Extraction.Service.Relations.{IsClosedForArchive}
use zip_extraction.Extraction.Service.Process.{process}
use zip_extraction.Extraction.Service.Process.Slipsheet.{IsSlipsheetOf}
use zip_extraction.Extraction.Service.Process.Written.{process-IsWritten}
use zip_extraction.Storage.{PutObjectInput, put_object_input}
use zip_extraction.Storage.Calls.{upload-state}
use zip_extraction.DynamoDb.{Item}
use zip_extraction.DynamoDb.Calls.{record_entry-Related}
use zip_extraction.Slipsheet.{Slipsheet, child_entry, build, new_writer, slipsheet_key}
use zip_extraction.Slipsheet.Laws.{by_index, build-in_order, build-children}
use zip_extraction.Slipsheet.Calls.{write-Uploads}
use zip_extraction.Main.{Outside, storage_config, upload_bytes, write_slipsheet, service_ports}
use zip_extraction.Main.Calls.{HasCalls, service_ports-IsClosed}

-- The document names the message, and it has the outcome's status, reason and number of entries. Its
-- children are the entries that Process lists, in their order.
pub record IsDocumentOf (msg : ClaimCheck) (outcome : Outcome) (call : SlipsheetCall)
    (doc : Slipsheet) : Type 0 where
  pub execution : doc.pipeline_execution_id ≡ msg.pipeline_execution_id
  pub archive : doc.source_archive ≡ msg.source_key
  pub status : doc.status ≡ status_string outcome.status
  pub reason : doc.failure_reason ≡ outcome.reason
  pub count : doc.child_count ≡ outcome.entry_count
  pub children : doc.children ≡ map child_entry call.entries

-- A put of the encoded document of the message, at its key in the staging bucket.
pub record IsPutOf (cfg : Config) (msg : ClaimCheck) (encoded : Text) (input : PutObjectInput Text)
    : Type 0 where
  pub bucket : input.bucket ≡ cfg.infra.staging_bucket
  pub key : input.key ≡ text "slipsheets/" ++ (msg.pipeline_execution_id ++ text ".json")
  pub body : input.body ≡ encoded
  pub content_type : input.content_type ≡ some (text "application/json")

-- What the calls outside do to the log of the bodies in memory that were put, the latest first: such a
-- put adds its input, whatever it answers, and no other call changes the log.
pub record IsLog {S B R : Type 0} (o : Outside S B R) (puts : S → List (PutObjectInput Text))
    : Type 0 where
  pub others : HasCalls o (λ s t. puts t ≡ puts s)
  pub put_item : (item : Item) (s : S) → puts (o.put_item item s).1 ≡ puts s
  pub redelivery_skip : (s : S) → puts (o.redelivery_skip s) ≡ puts s
  pub put_bytes :
      (input : PutObjectInput Text) (s : S) → puts (o.put_bytes input s).1.1 ≡ input ∷ puts s

-- The document is put, or it cannot be encoded and nothing is put.
abbrev pub Puts :
    {S B R : Type 0}
    → Outside S B R
    → Config
    → (S → List (PutObjectInput Text))
    → ClaimCheck
    → Slipsheet
    → S
    → S
    → Type 0
Puts o cfg puts msg doc s t =
    ((body : Text) × ((o.encode doc ≡ ok body)
        × ((input : PutObjectInput Text) × ((puts t ≡ input ∷ puts s)
              × IsPutOf cfg msg body input))))
    ⊎ ((e : Error) × ((o.encode doc ≡ fail e) × (puts t ≡ puts s)))

module _ {S B R : Type 0} (o : Outside S B R) (cfg : Config) (puts : S → List (PutObjectInput Text))
    (is_log : IsLog o puts) where
  -- the log of a world stays
  abbrev SameLog : World S → World S → Type 0
  SameLog before after = puts after.env ≡ puts before.env

  SameLog-IsClosed :
      (Keys : Text × Text → Type 0) → IsClosedForArchive (service_ports o cfg) Keys SameLog
  SameLog-IsClosed Keys =
      service_ports-IsClosed o cfg (λ s t. puts t ≡ puts s) is_log.others Keys
        (λ row s writes.
          record_entry-Related (λ s t. puts t ≡ puts s) is_log.others.same is_log.others.then
            o.format_time o.quote o.put_item o.redelivery_skip cfg.infra.dynamo_table
            is_log.put_item is_log.redelivery_skip row s)

  -- the document that the writer makes of a call in the state `s`
  abbrev document : SlipsheetCall → S → Slipsheet
  document call s =
      build o.sort_by_index call.exec_id call.source_archive call.status call.entries call.reason
        call.detail (o.now s).0

  document-IsDocumentOf :
      (msg : ClaimCheck) (outcome : Outcome) (call : SlipsheetCall) (s : S)
      → IsSorting by_index o.sort_by_index
      → IsSlipsheetOf msg outcome call
      → IsDocumentOf msg outcome call (document call s)
  unfolding build
  document-IsDocumentOf msg outcome call s sorting good =
      let t = (o.now s).0 in
      let (_, (_, number)) =
        build-children o.sort_by_index call.exec_id call.source_archive call.status call.entries
          call.reason call.detail t sorting in
      record {
        execution = good.exec_id;
        archive = good.source_archive;
        status = ap status_string good.status;
        reason = good.reason;
        count = number ∙ sym good.count;
        children =
            build-in_order o.sort_by_index call.exec_id call.source_archive call.status call.entries
              call.reason call.detail t sorting good.numbered;
      }

  -- The writer of main.go puts the document of its call.
  write_slipsheet-Puts :
      (msg : ClaimCheck) (call : SlipsheetCall) (s : S)
      → call.exec_id ≡ msg.pipeline_execution_id
      → Puts o cfg puts msg (document call s) s (write_slipsheet o cfg call s).1
  unfolding write_slipsheet upload_bytes build new_writer slipsheet_key put_object_input text
  write_slipsheet-Puts msg call s named =
      elim (write-Uploads (upload_bytes o cfg)
        (new_writer cfg.infra.staging_bucket (text "slipsheets/")) o.encode o.sort_by_index o.now
        call.exec_id call.source_archive call.status call.entries call.reason call.detail s) [
          | inl (body, (encoded, uploaded)) ↦
              let key = text "slipsheets/" ++ (call.exec_id ++ text ".json") in
              let input =
                put_object_input (storage_config o cfg) cfg.infra.staging_bucket key body
                  (text "application/json") in
              inl (
                body,
                (
                  encoded,
                  (
                    input,
                    (
                      ap puts uploaded
                          ∙ ap puts (
                              upload-state o.quote o.put_bytes (storage_config o cfg)
                                cfg.infra.staging_bucket key body (pos (length body))
                                (text "application/json") (o.now s).1)
                          ∙ is_log.put_bytes input (o.now s).1
                          ∙ ap (λ l. input ∷ l) (is_log.others.now s),
                      record {
                        bucket = refl;
                        key = ap (λ id. text "slipsheets/" ++ (id ++ text ".json")) named;
                        body = refl;
                        content_type = refl;
                      },
                    ),
                  ),
                ),
              )
          | inr (e, (fails, same)) ↦ inr (e, (fails, ap puts same ∙ is_log.others.now s))
        ]

  Puts-between :
      (msg : ClaimCheck) (doc : Slipsheet) {s t u v : S}
      → puts t ≡ puts s
      → puts v ≡ puts u
      → Puts o cfg puts msg doc t u
      → Puts o cfg puts msg doc s v
  Puts-between msg doc before after (inl (body, (encoded, (input, (put, good))))) =
      inl (body, (encoded, (input, (after ∙ put ∙ ap (λ l. input ∷ l) before, good))))
  Puts-between msg doc before after (inr (e, (fails, same))) =
      inr (e, (fails, after ∙ same ∙ before))

  -- Where sort.Slice sorts, and a put of a body in memory adds its input to a log that no other call
  -- outside changes: Process, over the adapters of main.go, calls the slipsheet writer once, with a
  -- document that is that of the message and of the outcome of Process, whose children are the entries
  -- that it lists, in their order. Where the document can be encoded, it is the one body in memory that
  -- is put while Process runs, at slipsheets/ID.json in the staging bucket, ID being the execution of
  -- the message, as application/json; where it cannot, none is put.
  pub process-puts_document :
      (msg : ClaimCheck) (w : World S)
      → IsSorting by_index o.sort_by_index
      → (call : SlipsheetCall) × ((doc : Slipsheet) × ((slipsheets
                (process (service_ports o cfg) msg w).1.events
              ≡ call ∷ slipsheets w.events)
            × (IsDocumentOf msg (process (service_ports o cfg) msg w).0 call doc
                × Puts o cfg puts msg doc w.env (process (service_ports o cfg) msg w).1.env)))
  unfolding service_ports write_slipsheet
  process-puts_document msg w sorting =
      let (call, (ended, (written, (good, (before, after))))) =
        process-IsWritten (service_ports o cfg) msg SameLog SameLog-IsClosed w in
      let doc = document call ended.env in
      let outcome = (process (service_ports o cfg) msg w).0 in
      (
        call,
        (
          doc,
          (
            written,
            (
              document-IsDocumentOf msg outcome call ended.env sorting good,
              Puts-between msg doc before after
                  (write_slipsheet-Puts msg call ended.env good.exec_id),
            ),
          ),
        ),
      )
