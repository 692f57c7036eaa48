-- ===== src/Protocol/Guards.antt =====
-- The type guards of server/contracts/src/protocol.ts.
use pmeow.Prelude.{Bool, true, false, not, ◌&&◌, ◌||◌, Option, none, some, string_eq}
use pmeow.Protocol.Json.{
  Json, get, get_in, is_text, is_number, is_array, is_object, is_some_object, is_number_or_nullish,
  is_the_text, items_of, every,
}

module _ {V : Type 0} where
  abbrev pub is_defined : Option (Json V) → Bool
  is_defined none = false
  is_defined (some v) = true

  unfoldable pub is_agent_register_payload : Json V → Bool
  is_agent_register_payload data' =
      is_object data' && (is_text (get "agentId" data') && is_text (get "hostname" data'))

  unfoldable pub is_user_resource_summary : Json V → Bool
  is_user_resource_summary summary =
      is_object summary
      && (is_text (get "user" summary)
          && (is_number (get "totalCpuPercent" summary)
              && (is_number (get "totalRssMb" summary)
                  && (is_number (get "totalVramMb" summary)
                      && is_number (get "processCount" summary)))))

  unfoldable pub is_task_info : Json V → Bool
  is_task_info task =
      is_object task
      && (is_text (get "taskId" task)
          && (is_text (get "status" task)
              && (is_text (get "command" task)
                  && (is_text (get "cwd" task)
                      && (is_text (get "user" task)
                          && (is_text (get "launchMode" task)
                              && (is_number (get "requireVramMB" task)
                                  && (is_number_or_nullish (get "requestedVramMb" task)
                                      && (is_number_or_nullish (get "requestedVramMB" task)
                                          && ((is_the_text "exclusive_auto" (get "vramMode" task)
                                                || is_the_text "shared" (get "vramMode" task))
                                              && (is_number (get "requireGpuCount" task)
                                                  && (is_number (get "priority" task)
                                                      && is_number
                                                          (get "createdAt" task)))))))))))))

  -- The tests on `resourceSnapshot`. A missing part has no properties, so its tests fail as `!part` does.
  unfoldable pub has_snapshot : Option (Json V) → Bool
  has_snapshot snapshot =
      let cpu = get_in "cpu" snapshot in
      let memory = get_in "memory" snapshot in
      let disk_io = get_in "diskIo" snapshot in
      let network = get_in "network" snapshot in
      (is_some_object snapshot && not (is_defined (get_in "internet" snapshot)))
      && ((is_array (get_in "gpuCards" snapshot)
            && (is_array (get_in "disks" snapshot)
                && (is_array (get_in "processes" snapshot)
                    && (is_array (get_in "processesByUser" snapshot)
                        && is_array (get_in "localUsers" snapshot)))))
          && ((is_number (get_in "usagePercent" cpu)
                && (is_number (get_in "coreCount" cpu) && is_number (get_in "frequencyMhz" cpu)))
              && ((is_number (get_in "totalMB" memory)
                    && (is_number (get_in "usedMB" memory)
                        && is_number (get_in "usagePercent" memory)))
                  && ((is_number (get_in "readBytesPerSec" disk_io)
                        && is_number (get_in "writeBytesPerSec" disk_io))
                      && (is_number (get_in "rxBytesPerSec" network)
                          && (is_number (get_in "txBytesPerSec" network)
                              && is_array (get_in "interfaces" network)))))))

  unfoldable pub has_task_queue : Option (Json V) → Bool
  has_task_queue queue =
      is_some_object queue
      && (is_array (get_in "queued" queue)
          && (is_array (get_in "running" queue) && is_array (get_in "recentlyEnded" queue)))

  unfoldable pub is_unified_report : Json V → Bool
  unfolding has_snapshot has_task_queue is_user_resource_summary is_task_info
  is_unified_report p =
      let snapshot = get "resourceSnapshot" p in
      let queue = get "taskQueue" p in
      (is_object p
        && (is_text (get "agentId" p)
            && (is_number (get "timestamp" p) && is_number (get "seq" p))))
      && ((has_snapshot snapshot && has_task_queue queue)
          && (every is_user_resource_summary (items_of (get_in "processesByUser" snapshot))
              && (every is_task_info (items_of (get_in "queued" queue))
                  && (every is_task_info (items_of (get_in "running" queue))
                      && every is_task_info (items_of (get_in "recentlyEnded" queue))))))
