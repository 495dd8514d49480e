-- ===== src/Extraction/Service/Classify.antt =====
-- classifyChild of service.go: the optional call of the classification service.
use zip_extraction.Common.{Option, none, some, if◌then◌else◌, is_empty}
use zip_extraction.Common.Int.{ℤ}
use zip_extraction.Go.Strings.{Text, text}
use zip_extraction.Extraction.Errors.{Try, ok, fail}
use zip_extraction.Extraction.Types.{ClaimCheck, Classification, EntryOutcome}
use zip_extraction.Extraction.Service.Effects.{
  ClassifyRequest, classification_success, classification_failure, metric, Ports, M, ◌>>=◌, ◌>>◌,
  pure, lift, emit,
}

module _ {S B R : Type 0} (p : Ports S B R) (msg : ClaimCheck) where
  unfoldable pub classified : EntryOutcome → Try (Option Classification) → M S EntryOutcome
  classified out (fail e) = do emit (metric (classification_failure (text "http"))); pure out
  classified out (ok none) = pure (record out { classification = none })
  classified out (ok (some c)) = do
    emit (metric (classification_success c.category))
    pure (record out { classification = some c })

  unfoldable pub classify_body :
      (ClassifyRequest B → S → Try (Option Classification) × S)
      → Text
      → EntryOutcome
      → Try (B × ℤ)
      → M S EntryOutcome
  unfolding classified
  classify_body classify workspace out (fail e) = do
    emit (metric (classification_failure (text "download")))
    pure out
  classify_body classify workspace out (ok (body, size)) = do
    result ← lift (
        classify (record {
          workspace_id = workspace;
          filename = out.safe_name;
          content_type = out.mime_type;
          parent_archive_depth = 1;
          body = body;
        }))
    classified out result

  -- classifyChild; the outcome is the one it stamps
  unfoldable pub classify_child :
      (ClassifyRequest B → S → Try (Option Classification) × S) → EntryOutcome → M S EntryOutcome
  unfolding classify_body
  classify_child classify out =
      let workspace =
        if is_empty msg.tenant_id
        then p.config.classification_fallback_workspace
        else msg.tenant_id in
      if is_empty workspace
      then (do emit (metric (classification_failure (text "no-workspace"))); pure out)
      else (do
        body ← lift (p.download p.config.staging_bucket out.child_key)
        classify_body classify workspace out body)

  unfoldable pub classify_hop :
      Option (ClassifyRequest B → S → Try (Option Classification) × S)
      → EntryOutcome
      → M S EntryOutcome
  unfolding classify_child
  classify_hop none out = pure out
  classify_hop (some classify) out = classify_child classify out
