-- ===== src/Routing/Topics.antt =====
-- src/core/routing.ts: `isWildcardTopic` and `topicMatchesPattern`.
use cross_tab_worker_databus.Base.{
  ◌-◌, Bool, true, false, not, ◌||◌, [], ◌∷◌, if◌then◌else◌, length, take,
}
use cross_tab_worker_databus.Base.JsString.{Text, text, eqb, starts_with, ends_with}

abbrev pub is_empty : Text → Bool
is_empty [] = true
is_empty (c ∷ s) = false

-- `pattern.slice(0, -1)`.
abbrev pub slice_last : Text → Text
slice_last s = take (length s - 1) s

unfoldable pub is_wildcard_topic : Text → Bool
is_wildcard_topic pattern = eqb pattern (text "*") || ends_with pattern (text ".*")

unfoldable pub topic_matches_pattern : Text → Text → Bool
topic_matches_pattern pattern topic =
    if is_empty pattern || is_empty topic
    then false
    else if eqb pattern topic
    then true
    else if eqb pattern (text "*")
    then true
    else if not (ends_with pattern (text ".*"))
    then false
    else starts_with topic (slice_last pattern)
