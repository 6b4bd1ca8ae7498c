-- ===== src/Routing/Status.antt =====
-- build_route_preview of app/watcher/routing.py: what its status says.
use stream_lite.Base.{ℕ, List, keep, map}
use stream_lite.Routing.{Source, Destination}
use stream_lite.Routing.Preview.{Preview}

abbrev pub source_ids : List Source → List ℕ
source_ids sources = map (λ (s : Source). s.source_folder_id) (keep (λ s. s.enabled) sources)

abbrev pub folder_ids : List Destination → List ℕ
folder_ids ds = map (λ (d : Destination). d.destination_folder_id) (keep (λ d. d.enabled) ds)
