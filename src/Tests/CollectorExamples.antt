-- ===== src/Tests/CollectorExamples.antt =====
-- The collector at concrete inputs.
use weather_rtos.Base.{ℕ, Bool, ◌≡◌, ◌≤◌, refl, some, false, List, [], ◌∷◌, ◌++◌, map, length}
use weather_rtos.Base.Int.{pos}
use weather_rtos.Base.Text.{Text, codes, text_eq}
use weather_rtos.Routes.{CitySamplePoint}
use weather_rtos.Tests.Instances.{sample_double, sample_json, Tree, a_number, chain}
use weather_rtos.Collectors.{
  enqueue, send, queue_packet, send_front, step, run, poll_sample, max_queue_size,
}
use weather_rtos.Collectors.Answers.{Becomes, poll_sample-Becomes}
use weather_rtos.Collectors.Waiting.{enqueued, run-Held}

abbrev chennai_center : CitySamplePoint sample_double
chennai_center = record {
  label = codes "Chennai_center";
  layer = codes "city_center";
  latitude = some 1013;
  longitude = some 1080;
}

abbrev no_temperature : List (Text × Tree)
no_temperature =
    (codes "temperature_2m", Tree.a_null) ∷ (codes "wind_speed_10m", a_number (some 1003)) ∷ []

poll_sample-Becomes_example : Becomes sample_json no_temperature (
    poll_sample sample_json
      (codes "Asia")
      (codes "India")
      (codes "south_india")
      (codes "Chennai")
      chennai_center
      (pos 1)
      (chain ((codes "current", chain no_temperature) ∷ [])))
unfolding text_eq
poll_sample-Becomes_example =
    poll_sample-Becomes sample_json (codes "Asia") (codes "India") (codes "south_india")
      (codes "Chennai") chennai_center (pos 1)
      (chain ((codes "current", chain no_temperature) ∷ [])) no_temperature refl

run-Held_example :
    (map (λ (e : ℕ × Bool). e.0) ((1, false) ∷ []) ++ 2 ∷ []
      ≡ enqueued (enqueue 1 ∷ enqueue 2 ∷ send false ∷ []))
    × (length {A = ℕ} (2 ∷ []) ≤ max_queue_size)
unfolding step run queue_packet send_front
run-Held_example =
    run-Held (enqueue 1 ∷ enqueue 2 ∷ send false ∷ [])
      (record { weather_queue = 2 ∷ []; sent = (1, false) ∷ [] }) refl
