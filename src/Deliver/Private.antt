-- ===== src/Deliver/Private.antt =====
-- Whose files a delivery may carry, and where to.
use joshua_ai.Base.{
  String, true, false, ◌||◌, Option, some, none, List, [], ◌∷◌, ◌++◌, ◌==◌, ℕ_eq, List_eq, elem,
  ◌⊎◌, inl, inr, ◌≡◌,
}
use joshua_ai.Base.Text.{Text, codes}
use joshua_ai.Paths.{FilePath}
use joshua_ai.Destinations.{Settings, Resolved}
use joshua_ai.Destinations.Sound.{Owned}
use joshua_ai.Deliver.{AttachmentError, under, Sending}

-- No component goes up.
abbrev pub Downward : List Text → Type 0
Downward parts = elem (codes "..") parts ≡ false

-- A file that everybody may read.
abbrev pub Open : FilePath → FilePath → Type 0
Open root file =
    (first : Text) × (rest : List Text) × (file ≡ root ++ first ∷ rest)
    × ((first == codes "shared" || first == codes "wiki") ≡ true)
    × Downward (first ∷ rest)

-- A file below the directory of a person.
abbrev pub OwnFile : FilePath → String → FilePath → Type 0
OwnFile root person_id file =
    (rest : List Text) × ((file ≡ root ++ codes "people" ∷ codes person_id ∷ rest)
      ⊎ (file ≡ under (root ++ codes "people" ∷ []) (codes person_id) ++ rest))
    × Downward rest

abbrev pub Suits : FilePath → Resolved → FilePath → Type 0
Suits root r file =
    Open root file
    ⊎ ((person_id : String) × (r.person_id ≡ some person_id) × OwnFile root person_id file)

abbrev IfFile : FilePath → Resolved → AttachmentError ⊎ FilePath → Type 0
IfFile root r (inl error) = Unit
IfFile root r (inr file) = Suits root r file

abbrev AllSuit : FilePath → Resolved → List FilePath → Type 0
AllSuit root r [] = Unit
AllSuit root r (file ∷ files) = Suits root r file × AllSuit root r files

abbrev IfFiles : FilePath → Resolved → AttachmentError ⊎ List FilePath → Type 0
IfFiles root r (inl error) = Unit
IfFiles root r (inr files) = AllSuit root r files

-- What may be in a delivery: files for everybody, and files of the person whose chat it goes to.
abbrev pub Allowed : Settings → FilePath → String → String → List FilePath → Type 0
Allowed cfg root channel_type chat_id [] = Unit
Allowed cfg root channel_type chat_id (file ∷ files) =
    (Open root file
      ⊎ ((person_id : String) × Owned cfg channel_type person_id chat_id
          × OwnFile root person_id file))
    × Allowed cfg root channel_type chat_id files

abbrev IfSent : Settings → FilePath → Option Sending → Type 0
IfSent cfg root none = Unit
IfSent cfg root (some s) = Allowed cfg root s.channel_type s.chat_id s.files
