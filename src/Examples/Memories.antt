-- ===== src/Examples/Memories.antt =====
-- A user's memories.
use diy_agent.Prelude.{◌≡◌, ◌≤◌, refl, true, none, some, List, [], ◌∷◌, All, length, end, arith}
use diy_agent.Memory.Texts.{TextRuntime}
use diy_agent.Memory.Rows.{MemoryStatus, MemoryType, TravelMemory, find_memory}
use diy_agent.Memory.Candidates.{extract_memory_candidates}
use diy_agent.Memory.Backend.{IsoFormat, Entry}
use diy_agent.Memory.Service.{MemoryState, settled, extract_from_run, listed_for_user}
use diy_agent.Memory.Recall.{recall}
use diy_agent.Memory.Writes.{RowsAreUnique}
use diy_agent.Memory.Extraction.{Kept, extract_from_run-Kept}
use diy_agent.Memory.Actions.{
  MemoryAction, perform_all, perform_all-deleted, perform_all-RowsAreUnique,
}
use diy_agent.Memory.Offers.{CandidatesFit, extract_memory_candidates-CandidatesFit}
use diy_agent.Memory.Pages.{first_pages, first_pages-eq-listed_for_user}
use diy_agent.Memory.Ranked.{IsRecalled}
use diy_agent.Memory.Recalled.{recall-IsRecalled}
use diy_agent.Examples.Samples.{plain}
use diy_agent.Examples.ListedStore.{listed, listed-BackendLaws}

abbrev texts : TextRuntime
texts = record { python = plain; squeeze = λ s. s; casefold = λ s. s; sha256_hex = λ s. s }

-- Times that all look the same, and that cannot be read.
abbrev dateless : IsoFormat
dateless = record { print = λ t. "t"; read = λ s. none }

abbrev tokyo : TravelMemory
tokyo = record {
  id = 1;
  user_id = 7;
  memory_type = MemoryType.preference;
  content = "Tokyo";
  normalized_key = "preference:Tokyo";
  confidence = 98;
  status = MemoryStatus.confirmed;
  source_message_id = none;
  source_run_id = none;
  metadata_json = end;
  expires_at = none;
  created_at = 0;
  updated_at = 5;
}

abbrev osaka : TravelMemory
osaka = record tokyo {
  id = 2;
  content = "Osaka";
  normalized_key = "preference:Osaka";
  status = MemoryStatus.deleted;
}

abbrev remembered : MemoryState (List Entry)
remembered = record { rows = tokyo ∷ osaka ∷ []; store = [] }

remembered-RowsAreUnique : RowsAreUnique (tokyo ∷ osaka ∷ [])
remembered-RowsAreUnique = ((refl, tt), (tt, tt))

-- The user edits a memory, an extraction comes by, and the user deletes the memory.
abbrev evening : List MemoryAction
evening =
    MemoryAction.edit 7 1 (some "Tokyo in spring") none 8
    ∷ MemoryAction.extraction true 7 3 5 "我喜欢 Osaka" none (λ key. 9) 9
    ∷ MemoryAction.deletion 7 1 10
    ∷ []

perform_all-RowsAreUnique_example :
    RowsAreUnique (perform_all listed dateless texts evening remembered).rows
perform_all-RowsAreUnique_example =
    perform_all-RowsAreUnique listed dateless texts evening remembered remembered-RowsAreUnique

perform_all-deleted_example :
    find_memory 2 (perform_all listed dateless texts evening remembered).rows ≡ some osaka
perform_all-deleted_example =
    perform_all-deleted listed dateless texts evening remembered 2 osaka remembered-RowsAreUnique
      refl refl

extract_from_run-Kept_example :
    (later : TravelMemory) × (find_memory 1
        (settled remembered (
          extract_from_run listed dateless texts true 7 3 5 "我喜欢 Osaka" none
            (λ key. 9)
            9
            remembered)).rows
      ≡ some later)
    × Kept 7 tokyo later
extract_from_run-Kept_example =
    extract_from_run-Kept listed dateless texts true 7 3 5 "我喜欢 Osaka" none (λ key. 9) 9 remembered
      1 tokyo remembered-RowsAreUnique refl

extract_memory_candidates-CandidatesFit_example :
    CandidatesFit (extract_memory_candidates texts "我喜欢 Osaka。以后不要太早" none)
extract_memory_candidates-CandidatesFit_example =
    extract_memory_candidates-CandidatesFit texts "我喜欢 Osaka。以后不要太早" none

two : length (listed_for_user (tokyo ∷ osaka ∷ []) 7 true) ≡ 1
unfolding listed_for_user
two = refl

first_pages-eq-listed_for_user_example :
    first_pages (tokyo ∷ osaka ∷ []) 7 true 1 2 ≡ listed_for_user (tokyo ∷ osaka ∷ []) 7 true
first_pages-eq-listed_for_user_example =
    first_pages-eq-listed_for_user (tokyo ∷ osaka ∷ []) 7 true 1 2 (omega (arith, two))

recall-IsRecalled_example :
    (let after = perform_all listed dateless texts evening remembered in
      let recalled = (recall listed texts dateless 8 7 "Tokyo" 11 after).0 in
      (length recalled ≤ 8) × All (IsRecalled texts dateless after.rows 7 11) recalled)
recall-IsRecalled_example =
    recall-IsRecalled listed listed-BackendLaws dateless texts (λ user_id key value s. (_, refl))
      (λ user_id key s. (_, refl)) evening remembered 8 7 "Tokyo" 11 remembered-RowsAreUnique tt
