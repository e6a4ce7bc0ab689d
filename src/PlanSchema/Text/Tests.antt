-- ===== src/PlanSchema/Text/Tests.antt =====
-- `sanitize_identifier` at two texts.
use ai_devops.Common.{◌≡◌, refl, true}
use ai_devops.PlanSchema.Text.{identifier_match, sanitize_identifier}
use ai_devops.PlanSchema.Text.Sanitize.{sanitize-identifier_match}

sanitized : sanitize_identifier "  fix: the #1 bug--now!_ " ≡ "fix-the-1-bug-now"
unfolding sanitize_identifier
sanitized = refl

line_feed_matches : identifier_match "abc\n" ≡ true
unfolding identifier_match
line_feed_matches = refl

sanitize-identifier_match_example :
    identifier_match (sanitize_identifier "  fix: the #1 bug--now!_ ") ≡ true
sanitize-identifier_match_example = sanitize-identifier_match "  fix: the #1 bug--now!_ "
