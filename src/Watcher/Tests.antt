-- ===== src/Watcher/Tests.antt =====
-- The theorems about stability for a file of ten bytes and a window of two seconds.
use stream_lite.Base.{ℕ, ◌≡◌, refl, true, false, none, [], ◌∷◌, arith}
use stream_lite.Base.Text.{text, text_eq}
use stream_lite.Watcher.{
  is_file_stable, unchanged, Key, snapshot_at, Observation, observe_file, ever_stable,
}
use stream_lite.Watcher.Stability.{observe_file-again, ever_stable-Frequent}

abbrev key : Key
key = (3, text "/data/in/a.csv")

abbrev other : Key
other = (4, text "/data/in/a.csv")

-- The file as it is at this time, in seconds.
abbrev seen : ℕ → Observation
seen time = record {
  current = record {
    path = text "/data/in/a.csv";
    size_bytes = 10;
    modified_ns = 5;
    observed_at_monotonic = time;
  };
  now = time;
}

unseen : snapshot_at key [] ≡ none
unfolding snapshot_at
unseen = refl

ever_stable-Frequent_example :
    ever_stable 2 key (seen 7 ∷ seen 8 ∷ seen 9 ∷ seen 10 ∷ []) [] ≡ false
ever_stable-Frequent_example =
    ever_stable-Frequent 2 key (seen 7) (seen 8 ∷ seen 9 ∷ seen 10 ∷ []) [] unseen
      (omega arith, (omega arith, (omega arith, tt)))

not_at_once : (observe_file 2 key (seen 7) []).0 ≡ false
unfolding observe_file snapshot_at is_file_stable
not_at_once = refl

same_file : unchanged (seen 7).current (seen 9).current ≡ true
unfolding text text_eq
same_file = refl

observe_file-again_example :
    (observe_file 2 key (seen 9) (observe_file 2 key (seen 7) []).1).0 ≡ true
observe_file-again_example =
    observe_file-again 2 key (seen 7) (seen 9) [] not_at_once same_file (omega arith)
