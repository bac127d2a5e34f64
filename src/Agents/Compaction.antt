-- ===== src/Agents/Compaction.antt =====
-- agents/compaction.py: when the events of a case are compacted, and what is kept of them. The line of
-- an event, the length of a text, the digest of the id, and the seconds that a case has been open (none
-- where its opening time cannot be read) are arguments.
pub mod Cut
mod Examples
use asoe.Prelude.{
  ℕ, zero, suc, ◌+◌, ◌*◌, ◌≤◌, String, Bool, true, false, Option, none, some, List, [], ◌∷◌, ◌++◌,
  map, leb, ltb, length, or_else, if◌then◌else◌,
}

pub data Trigger : Type 0 where
  token_budget event_count age_days : Trigger

-- `CompactionTrigger.evaluate`: the first trigger that fires; 200 tokens for an event where no estimate
-- is given, and a week is 604,800 seconds
unfoldable pub evaluate : (events : ℕ) (open_seconds token_estimate : Option ℕ) → Option Trigger
evaluate events open_seconds token_estimate =
    if leb 8000 (or_else token_estimate (events * 200))
    then some token_budget
    else if leb 25 events
    then some event_count
    else if leb 604800 (or_else open_seconds 0)
    then some age_days
    else none

-- the lines that are kept, and, where the cap cut the rest off, how many there were of how many
pub record Summary : Type 0 where
  pub kept : List String
  pub truncated : Option (ℕ × ℕ)

module _ (len : String → ℕ) where
  -- the loop, with the characters used and the number of the lines kept so far
  unfoldable pub cut : (cap total used count : ℕ) → List String → Summary
  cut cap total used count [] = record { kept = []; truncated = none }
  cut cap total used count (line ∷ lines) =
      let rest = cut cap total (used + len line + 1) (count + 1) lines in
      if ltb cap (used + len line + 1)
      then record { kept = []; truncated = some (count, total) }
      else record rest { kept = line ∷ rest.kept }

  -- four characters for a token
  unfoldable pub compact_lines : (target_tokens : ℕ) → List String → Summary
  unfolding cut
  compact_lines target_tokens lines = cut (target_tokens * 4) (length lines) 0 0 lines

pub record CompactionResult : Type 0 where
  pub compaction_id : String
  pub case_id : String
  pub events_summarised : ℕ
  pub summary : Summary
  pub triggered_at : String
  pub trigger_reason : Trigger

module _ {E : Type 0} (len : String → ℕ) (line_of : E → String)
    (compaction_id : String → String → String) where
  unfoldable pub compact_events : (target_tokens : ℕ) → List E → Summary
  unfolding compact_lines
  compact_events target_tokens events = compact_lines len target_tokens (map line_of events)

  abbrev result_of : String → String → List E → Option Trigger → Option CompactionResult
  result_of case_id now events none = none
  result_of case_id now events (some t) = some (record {
    compaction_id = compaction_id case_id now;
    case_id = case_id;
    events_summarised = length events;
    summary = compact_events 2000 events;
    triggered_at = now;
    trigger_reason = t;
  })

  unfoldable pub run_compaction :
      (case_id now : String)
      → (open_seconds token_estimate : Option ℕ) → List E
      → Option CompactionResult
  unfolding evaluate compact_events
  run_compaction case_id now open_seconds token_estimate events =
      result_of case_id now events (evaluate (length events) open_seconds token_estimate)
