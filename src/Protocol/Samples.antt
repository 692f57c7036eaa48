-- ===== src/Protocol/Samples.antt =====
-- A small report of an agent, for the tests.
use pmeow.Prelude.{ℕ, String, List, [], ◌∷◌, Option, some, string_eq}
use pmeow.Protocol.Json.{Json, Items, number, text, array, object, no_items, item, defined}

abbrev pub num : ℕ → Option (Json ℕ)
num n = some (number n)

abbrev pub object_of : List (String × Option (Json ℕ)) → Json ℕ
object_of properties = object (defined properties)

abbrev pub one_task : Json ℕ
one_task = object_of (
    ("taskId", some (text "t1"))
    ∷ ("status", some (text "queued"))
    ∷ ("command", some (text "run"))
    ∷ ("cwd", some (text "/"))
    ∷ ("user", some (text "ann"))
    ∷ ("launchMode", some (text "background"))
    ∷ ("requireVramMB", num 100)
    ∷ ("vramMode", some (text "shared"))
    ∷ ("requireGpuCount", num 1)
    ∷ ("priority", num 10)
    ∷ ("createdAt", num 5)
    ∷ [])

abbrev pub report_with : Items ℕ → Json ℕ
report_with processes = object_of (
    ("agentId", some (text "agent"))
    ∷ ("timestamp", num 9)
    ∷ ("seq", num 1)
    ∷ (
      "resourceSnapshot",
      some (
          object_of (
            ("gpuCards", some (array no_items))
            ∷ ("disks", some (array no_items))
            ∷ ("processes", some (array processes))
            ∷ ("processesByUser", some (array no_items))
            ∷ ("localUsers", some (array no_items))
            ∷ (
              "cpu",
              some (
                  object_of (
                    ("usagePercent", num 1) ∷ ("coreCount", num 2) ∷ ("frequencyMhz", num 3) ∷ [])),
            )
            ∷ (
              "memory",
              some (
                  object_of
                    (("totalMB", num 1) ∷ ("usedMB", num 2) ∷ ("usagePercent", num 3) ∷ [])),
            )
            ∷ (
              "diskIo",
              some (object_of (("readBytesPerSec", num 1) ∷ ("writeBytesPerSec", num 2) ∷ [])),
            )
            ∷ (
              "network",
              some (
                  object_of (
                    ("rxBytesPerSec", num 1)
                    ∷ ("txBytesPerSec", num 2)
                    ∷ ("interfaces", some (array no_items))
                    ∷ [])),
            )
            ∷ [])),
    )
    ∷ (
      "taskQueue",
      some (
          object_of (
            ("queued", some (array (item one_task no_items)))
            ∷ ("running", some (array no_items))
            ∷ ("recentlyEnded", some (array no_items))
            ∷ [])),
    )
    ∷ [])
