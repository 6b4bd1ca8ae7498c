-- ===== src/Samples/Parts.antt =====
-- What the services are given in the tests: UUIDs written as a row of letters, an adapter that
-- succeeds, and files of which the copies arrive.
use stream_lite.Base.{ℕ, zero, suc, ◌≡◌, refl, ap, true, false, none, some, [], ◌∷◌, length}
use stream_lite.Base.Text.{Text, text}
use stream_lite.Base.Uuids.{Uuids, all_uuid_chars}
use stream_lite.Base.Exec.{ok}
use stream_lite.Retry.Backoff.{Policy}
use stream_lite.Processing.{Adapter}
use stream_lite.Delivery.{Files}

-- As many letters as the number says.
unfoldable pub letters : ℕ → Text
letters zero = []
letters (suc n) = b'a' ∷ letters n

pub length-letters : (n : ℕ) → length (letters n) ≡ n
unfolding letters
length-letters zero = refl
length-letters (suc n) = ap suc (length-letters n)

pub letters-canonical : (n : ℕ) → all_uuid_chars (letters n) ≡ true
unfolding letters
letters-canonical zero = refl
letters-canonical (suc n) = letters-canonical n

abbrev pub unary : Uuids
unary = record {
  print = letters;
  parse = λ s. some (length s);
  parse-print = λ n. ap some (length-letters n);
  canonical = letters-canonical;
}

abbrev pub fixed_policy : Policy
fixed_policy = record { max_attempts = 3; jitter_enabled = false; delay_micros = λ n. ok 1000000 }

-- The adapter answers with the locators of what it wrote.
abbrev pub steady_adapter : Adapter
steady_adapter = record {
  engine = text "spark";
  engine_version = text "1.0.0";
  run_demo_transform = λ job_id job correlation_id started_at. ok (record {
    is_processed = true;
    engine = text "spark";
    output_locator = some (text "/data/out/a.parquet");
    summary_locator = some (text "/data/out/a.json");
    manifest_locator = some (text "/data/out/manifest.json");
    output_manifest_id = some 90;
    row_count = some 5;
    record_count = some 5;
    byte_count = some 50;
    completed_at = started_at;
    duration_seconds = 0;
    error_code = none;
    retryable = false;
    operator_message = text "done";
  });
}

abbrev pub steady_files : Files
steady_files = record {
  load_output_manifest = λ locator. some (record {
    produced_output_locators = text "/data/out/a.parquet" ∷ [];
    source_sha256 = text "aa";
  });
  finalized_locator = λ job_id job target source started_at. target.destination_container_locator;
  temporary_locator = λ locator. locator;
  copy_output_to_destination = λ job_id job source target started_at. ok (record {
    is_delivered = true;
    finalized_locator = some source;
    checksum_sha256 = some (text "aa");
    bytes_written = 50;
    reason_code = none;
    retryable = false;
    operator_message = text "done";
  });
  write_manifest = λ locator outcomes status. ok tt;
}
