-- ===== src/Metrics/Collectors/Registered.antt =====
-- The collectors can be registered, and every method finds one that it may use.
use zip_extraction.Common.{
  ◌≡◌, refl, inl, inr, Bool, true, not, ◌&&◌, List, [], ◌∷◌, length, any, map,
}
use zip_extraction.Go.Strings.{Text, text, str_eq}
use zip_extraction.Go.Strings.Search.{Some}
use zip_extraction.Go.Float.{FloatOps}
use zip_extraction.Extraction.Service.Effects.{
  Metric, entry_processed, extraction_duration, extraction_failure, bomb_rejection, bytes_extracted,
  partial_failure, redelivery_skip, slipsheet_write_failure, classification_success,
  classification_failure,
}
use zip_extraction.Metrics.Collectors.{
  Kind, counter, histogram, Collector, collectors, Update, inc, add, observe, Sample, sample,
}

-- no text twice
abbrev pub distinct : List Text → Bool
distinct [] = true
distinct (x ∷ xs) = not (any (str_eq x) xs) && distinct xs

abbrev pub Allows : Kind → Update → Type 0
Allows counter inc = Unit
Allows counter (add x) = Unit
Allows counter (observe x) = ⊥
Allows histogram (observe x) = Unit
Allows histogram _ = ⊥

-- The collector has the name, as many labels, and the method.
abbrev pub Fits : Sample → Collector → Type 0
Fits s c = (c.name ≡ s.collector) × (length c.labels ≡ length s.labels) × Allows c.kind s.update

-- No two collectors have the same name, so that registering them does not panic. Each method takes a
-- collector that is registered, gives it as many label values as it has labels, and calls a method
-- that it has.
pub sample-Fits :
    (fl : FloatOps) (m : Metric)
    → (distinct (map (λ c. Collector.name c) collectors) ≡ true)
      × Some (Fits (sample fl m)) collectors
unfolding collectors sample text str_eq
sample-Fits fl (entry_processed status) = (refl, inl (refl, refl, tt))
sample-Fits fl (extraction_duration d outcome) = (refl, inr (inl (refl, refl, tt)))
sample-Fits fl (extraction_failure reason) = (refl, inr (inr (inl (refl, refl, tt))))
sample-Fits fl (bomb_rejection rule) = (refl, inr (inr (inr (inl (refl, refl, tt)))))
sample-Fits fl (bytes_extracted n) = (refl, inr (inr (inr (inr (inl (refl, refl, tt))))))
sample-Fits fl partial_failure = (refl, inr (inr (inr (inr (inr (inl (refl, refl, tt)))))))
sample-Fits fl redelivery_skip = (refl, inr (inr (inr (inr (inr (inr (inl (refl, refl, tt))))))))
sample-Fits fl slipsheet_write_failure =
    (refl, inr (inr (inr (inr (inr (inr (inr (inl (refl, refl, tt)))))))))
sample-Fits fl (classification_success category) =
    (refl, inr (inr (inr (inr (inr (inr (inr (inr (inl (refl, refl, tt))))))))))
sample-Fits fl (classification_failure reason) =
    (refl, inr (inr (inr (inr (inr (inr (inr (inr (inr (inl (refl, refl, tt)))))))))))
