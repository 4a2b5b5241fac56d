-- ===== src/Job.antt =====
-- include/yolo/stratum.hpp: the struct `Job`, which both protocols fill in.
pub mod Decimal
use supryolo.Base.{ℕ, zero, suc, ◌+◌, ◌/◌, ◌%◌, List, [], ◌∷◌, Bool, false, ltb, if◌then◌else◌}
use supryolo.Work.{Work, zero_header}
use supryolo.Target.{zero_hash}

pub record Job : Type 0 where
  pub work : Work
  pub id : List ℕ
  pub en2 : List ℕ
  pub ntime : List ℕ
  pub generation : ℕ
  pub epoch : ℕ
  pub network_target : List ℕ
  pub sv2 : Bool
  pub channel : ℕ
  pub wire_job : ℕ
  pub version : ℕ
  pub time32 : ℕ

-- `Job{}`.
abbrev pub empty_job : Job
empty_job = record {
  work = record { header = zero_header; target = zero_hash };
  id = [];
  en2 = [];
  ntime = [];
  generation = 0;
  epoch = 0;
  network_target = zero_hash;
  sv2 = false;
  channel = 0;
  wire_job = 0;
  version = 0;
  time32 = 0;
}

-- `std::to_string` of a number with at most `k` digits.
unfoldable pub digits : ℕ → ℕ → List ℕ → List ℕ
digits zero n s = s
digits (suc k) n s =
    let more = digits k (n / 10) ((n % 10 + b'0') ∷ s) in
    if ltb n 10 then (n % 10 + b'0') ∷ s else more

-- Twenty digits are enough for 64 bits.
unfoldable pub to_string : ℕ → List ℕ
unfolding digits
to_string n = digits 20 n []
