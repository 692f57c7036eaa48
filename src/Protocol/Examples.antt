-- ===== src/Protocol/Examples.antt =====
-- A small report, parsed.
use pmeow.Prelude.{true, ◌≡◌, refl, string_eq}
use pmeow.Protocol.Json.{null, no_items, item}
use pmeow.Protocol.Guards.{is_unified_report, is_task_info, has_snapshot, has_task_queue}
use pmeow.Protocol.Parse.{thrown, parse_unified_report}
use pmeow.Protocol.Samples.{report_with}

-- A report with a process that is `null` passes the guard, and its parsing throws.
null_process_throws :
    (is_unified_report (report_with (item null no_items)) ≡ true)
    × (parse_unified_report (λ n. true) (report_with (item null no_items)) ≡ thrown)
unfolding parse_unified_report is_unified_report is_task_info has_snapshot has_task_queue
null_process_throws = (refl, refl)
