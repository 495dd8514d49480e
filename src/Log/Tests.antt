-- ===== src/Log/Tests.antt =====
-- The filter at fields whose keys are sensitive in different ways.
use zip_extraction.Common.{ℕ, ◌≡◌, refl, true, List, [], ◌∷◌, map}
use zip_extraction.Go.Strings.{Text, text}
use zip_extraction.Log.{Field, is_sensitive_key, filter_sensitive}
use zip_extraction.Log.Laws.{Each, filter_sensitive-Redacts}

abbrev fields : List (Field ℕ)
fields =
    record { key = text "tenantId"; value = 7 }
    ∷ record { key = text "X-Session_Token"; value = 8 }
    ∷ []

redacts : map (λ f. Field.value f) (filter_sensitive 0 fields) ≡ 7 ∷ 0 ∷ []
unfolding filter_sensitive is_sensitive_key text zip_extraction.Log.lower_ascii
    zip_extraction.Log.sensitive_key_patterns zip_extraction.Go.Strings.contains
    zip_extraction.Go.Strings.has_prefix zip_extraction.Go.Strings.lower_byte
redacts = refl

-- U+212A is the sign of the kelvin, whose lower case is the letter k.
kelvin : is_sensitive_key (text "toKen") ≡ true
unfolding redacts
kelvin = refl

filter_sensitive-Redacts_example :
    Each 0 fields (filter_sensitive 0 fields)
    × (filter_sensitive 0 (filter_sensitive 0 fields) ≡ filter_sensitive 0 fields)
filter_sensitive-Redacts_example = filter_sensitive-Redacts 0 fields
