-- ===== src/Extraction/Service/Process/Adds.antt =====
-- Calls are only added to the list of calls.
use zip_extraction.Common.{◌≡◌, refl, List, [], ◌∷◌, ◌++◌, appends}
use zip_extraction.Go.Strings.{Text}
use zip_extraction.Extraction.Service.Effects.{Event, metric, World, Ports}
use zip_extraction.Extraction.Service.Relations.{IsClosed, IsClosedForArchive}

abbrev pub Adds : {S : Type 0} → World S → World S → Type 0
Adds before after = (more : List Event) × (after.events ≡ more ++ before.events)

module _ {S B R : Type 0} (p : Ports S B R) where
  pub Adds-IsClosed : {Keys : Text × Text → Type 0} → IsClosed p Keys Adds
  Adds-IsClosed = record {
    same = λ w. ([], refl);
    then = λ a b c (xs, d) (ys, e). (ys ++ xs, rw (e, d) (simp appends));
    counted = λ x w. (metric x ∷ [], refl);
    now = λ w. ([], refl);
    rand = λ w. ([], refl);
    wait = λ d w. ([], refl);
    download = λ bucket key w. ([], refl);
    upload = λ bucket key read stream size mime w. (_ ∷ [], refl);
    record_entry = λ row w writes. (_ ∷ [], refl);
    classify = λ classify e req w. ([], refl);
  }

  pub Adds-IsClosedForArchive : IsClosedForArchive p (λ keys. ⊥) Adds
  Adds-IsClosedForArchive = record {
    calls = Adds-IsClosed;
    create_temp = λ pattern w. ([], refl);
    copy = λ name body w. ([], refl);
    remove = λ name w. ([], refl);
  }
