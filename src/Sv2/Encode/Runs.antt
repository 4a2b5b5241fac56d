-- ===== src/Sv2/Encode/Runs.antt =====
-- The theorems at concrete inputs.
use supryolo.Base.{◌≡◌, refl, arith, [], replicate, ok}
use supryolo.Base.Bytes.{codes}
use supryolo.Sv2.Types.{Frame}
use supryolo.Sv2.Reader.{finish}
use supryolo.Sv2.Encode.{setup, open_standard, submit_standard}
use supryolo.Sv2.Encode.Laws.{
  read_submit, read_setup, read_open, read_submit-submit_standard, read_setup-setup,
  read_open-open_standard,
}

read_submit-submit_standard_example :
    ((submit_standard 7 10 1 5 100 2).extension ≡ 0x8000)
    × ((submit_standard 7 10 1 5 100 2).type ≡ 0x1a)
    × (finish (read_submit (submit_standard 7 10 1 5 100 2).payload)
        ≡ ok (record { channel = 7; sequence = 10; job = 1; nonce = 5; ntime = 100; version = 2 }))
read_submit-submit_standard_example =
    read_submit-submit_standard 7 10 1 5 100 2 (omega arith) (omega arith) (omega arith)
      (omega arith) (omega arith) (omega arith)

read_setup-setup_example :
    (f : Frame) × (setup (codes "pool") 3333 (codes "supryolo/0.2.1") ≡ ok f)
    × (f.extension ≡ 0)
    × (f.type ≡ 0)
    × (finish (read_setup f.payload)
        ≡ ok (record {
          protocol = 0;
          min_version = 2;
          max_version = 2;
          flags = 1;
          host = codes "pool";
          port = 3333;
          vendor = codes "ocminer";
          hardware = codes "supryolo";
          firmware = codes "supryolo/0.2.1";
          device = [];
        }))
read_setup-setup_example =
    read_setup-setup (codes "pool") 3333 (codes "supryolo/0.2.1") (omega arith) (omega arith)
      (omega arith)

-- The rate 1.0.
read_open-open_standard_example :
    (f : Frame) × (open_standard 1 (codes "worker") 0x3f800000 (replicate 32 255) ≡ ok f)
    × (f.extension ≡ 0)
    × (f.type ≡ 0x10)
    × (finish (read_open f.payload)
        ≡ ok (record {
          request = 1;
          user = codes "worker";
          rate = 0x3f800000;
          target = replicate 32 255;
        }))
read_open-open_standard_example =
    read_open-open_standard 1 (codes "worker") 0x3f800000 (replicate 32 255) (omega arith)
      (omega arith) (omega arith) refl refl (omega arith)
