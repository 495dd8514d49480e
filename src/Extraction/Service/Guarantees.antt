-- ===== src/Extraction/Service/Guarantees.antt =====
-- What a piece of the service ensures of its result, where it does not write a slipsheet.
use zip_extraction.Common.{◌≡◌, List, [], ◌∷◌}
use zip_extraction.Extraction.Service.Effects.{SlipsheetCall, Event, slipsheet_call, World, M}

-- the slipsheets that were written, the latest first
unfoldable pub slipsheets : List Event → List SlipsheetCall
slipsheets [] = []
slipsheets (slipsheet_call call err ∷ events) = call ∷ slipsheets events
slipsheets (_ ∷ events) = slipsheets events

abbrev pub Ensures : {S A : Type 0} → (A → Type 0) → M S A → Type 0
Ensures {S} P m = (w : World S) → P (m w).0 × (slipsheets (m w).1.events ≡ slipsheets w.events)

abbrev pub Quiet : {S A : Type 0} → M S A → Type 0
Quiet m = Ensures (λ _. Unit {0}) m
