-- ===== src/Stratum.antt =====
-- src/stratum.cpp and include/yolo/stratum.hpp: `StratumState`, the state of a Stratum V1 session. The JSON library
-- and `difficulty_target` are arguments. An exception ends the session, so an error carries no state.
pub mod Current
mod Runs
use supryolo.Base.{
  ℕ, zero, suc, ◌+◌, ◌-◌, ◌%◌, ◌^◌, List, [], ◌∷◌, ◌++◌, Bool, true, false, not, ◌&&◌, ◌||◌, Option,
  none, some, length, leb, ltb, ◌==◌, if◌then◌else◌, Result, ok, err, ◌>>=◌, ◌>>◌, require, String,
}
use supryolo.Base.Bytes.{codes}
use supryolo.Hex.{hex, unhex}
use supryolo.Words.{store_le}
use supryolo.Target.{compact_target, zero_hash}
use supryolo.Work.{Work, sia_work}
use supryolo.Job.{Job, empty_job}
use supryolo.Sv2.Session.Settle.{text_eq}

-- What the source calls of the library. `none` stands for an exception; an `int` is whether it is negative,
-- and its size.
pub record Json (V : Type 0) : Type 0 where
  pub is_object : V → Bool
  pub is_array : V → Bool
  pub is_number : V → Bool
  pub is_integer : V → Bool
  pub is_true : V → Bool
  pub member : List ℕ → V → Option V
  pub size : V → ℕ
  pub item : ℕ → V → V
  pub as_text : V → Option (List ℕ)
  pub as_int : V → Option (Bool × ℕ)
  pub as_bool : V → Option Bool
  pub dump : V → List ℕ

pub record State : Type 0 where
  pub en1 : List ℕ
  pub en2_size : ℕ
  pub next_target : List ℕ
  pub have_target : Bool
  pub generation : ℕ
  pub epoch : ℕ
  pub valid_ids : List (List ℕ × ℕ)
  pub authorized : Bool
  pub current : Option Job

unfoldable pub initial : State
initial = record {
  en1 = [];
  en2_size = 0;
  next_target = zero_hash;
  have_target = false;
  generation = 0;
  epoch = 0;
  valid_ids = [];
  authorized = false;
  current = none;
}

-- `valid_ids[id] = n`, and `valid_ids.at(id)`.
unfoldable pub forget : List ℕ → List (List ℕ × ℕ) → List (List ℕ × ℕ)
forget id [] = []
forget id ((k, n) ∷ m) = let rest = forget id m in if text_eq k id then rest else (k, n) ∷ rest

abbrev pub assign : List ℕ → ℕ → List (List ℕ × ℕ) → List (List ℕ × ℕ)
assign id n m = (id, n) ∷ forget id m

unfoldable pub look_up : List ℕ → List (List ℕ × ℕ) → Option ℕ
look_up id [] = none
look_up id ((k, n) ∷ m) = let rest = look_up id m in if text_eq k id then some n else rest

abbrev pub equals : Option ℕ → ℕ → Bool
equals none n = false
equals (some m) n = m == n

unfoldable pub valid : Job → State → Bool
valid j s = s.authorized && (j.epoch == s.epoch && equals (look_up j.id s.valid_ids) j.generation)

abbrev pub got : {A : Type 0} → Option A → Result A
got none = err "json"
got (some a) = ok a

abbrev pub is_int : ℕ → Bool × ℕ → Bool
is_int k (negative, n) = not negative && n == k

abbrev pub is_none : {A : Type 0} → Option A → Bool
is_none none = true
is_none (some a) = false

-- `++epoch; valid_ids.clear()`, when told so.
unfoldable pub cleaned : Bool → State → State
cleaned false s = s
cleaned true s = record s { epoch = (s.epoch + 1) % 2 ^ 64; valid_ids = [] }

-- The state that `mining.notify` leaves for a job.
abbrev pub announce : Job → State → State
announce j s = record s {
  generation = j.generation;
  valid_ids = assign j.id j.generation s.valid_ids;
  current = some j;
}

module _ {V : Type 0} (json : Json V) (difficulty_target : List ℕ → Result (List ℕ)) where
  abbrev pub text : V → Result (List ℕ)
  text v = got (json.as_text v)

  unfoldable pub set_difficulty : V → State → Result (Option Job × State)
  set_difficulty p s = do
    require (json.size p == 1 && json.is_number (json.item 0 p)) "invalid difficulty message"
    target ← difficulty_target (json.dump (json.item 0 p))
    ok (none, record s { next_target = target; have_target = true })

  -- `mining.set_extranonce`, and the end of the subscription's answer.
  unfoldable pub set_extranonce : String → V → V → State → Result (Option Job × State)
  set_extranonce why first second s = do
    e ← text first
    n ← got (json.as_int second)
    bytes ← unhex e
    require (length bytes == 4 && is_int 8 n) why
    ok (none, record s { en1 = e; en2_size = 8 })

  unfoldable pub extranonce : V → State → Result (Option Job × State)
  extranonce p s = do
    require (json.size p == 2) "invalid extranonce message"
    set_extranonce "unsupported extranonce sizes" (json.item 0 p) (json.item 1 p) s

  -- The header and the target of the network, for the state after the cleaning.
  unfoldable pub job_parts : V → State → Result (List ℕ × List ℕ × List ℕ)
  job_parts p s = do
    ntime ← text (json.item 7 p)
    prev ← text (json.item 1 p)
    c1 ← text (json.item 2 p)
    c2 ← text (json.item 3 p)
    header ← sia_work prev c1 c2 s.en1 (hex (store_le ((s.generation + 1) % 2 ^ 64))) ntime
    nbits ← text (json.item 6 p)
    network ← compact_target nbits
    ok (ntime, header, network)

  -- The job with this identifier.
  unfoldable pub make_job : V → List ℕ → State → Result Job
  make_job p id s = do
    parts ← job_parts p s
    ok (record empty_job {
      id = id;
      en2 = hex (store_le ((s.generation + 1) % 2 ^ 64));
      ntime = parts.0;
      generation = (s.generation + 1) % 2 ^ 64;
      epoch = s.epoch;
      network_target = parts.2;
      work = record { header = parts.1; target = s.next_target };
    })

  unfoldable pub add_job : V → List ℕ → State → Result (Option Job × State)
  add_job p id s = do
    require (ltb (length s.valid_ids) 1024) "too many active jobs"
    j ← make_job p id s
    ok (some j, announce j s)

  -- The checks before the cleaning: the identifier, and whether to clean.
  unfoldable pub check_notify : V → State → Result (List ℕ × Bool)
  check_notify p s = do
    require
        (json.size p == 9
          && (s.have_target
              && (s.en2_size == 8
                  && (json.is_array (json.item 4 p) && json.size (json.item 4 p) == 0))))
        "unsupported or premature job"
    id ← text (json.item 0 p)
    require (ltb 0 (length id) && leb (length id) 256) "invalid job ID"
    version ← text (json.item 5 p)
    version_bytes ← unhex version
    nbits ← text (json.item 6 p)
    nbits_bytes ← unhex nbits
    require (length version_bytes == 4 && length nbits_bytes == 4) "invalid version or nbits length"
    clean ← got (json.as_bool (json.item 8 p))
    ok (id, clean)

  unfoldable pub notify : V → State → Result (Option Job × State)
  notify p s = do checked ← check_notify p s; add_job p checked.0 (cleaned checked.1 s)

  unfoldable pub on_method : List ℕ → V → State → Result (Option Job × State)
  on_method method p s =
      if not (json.is_array p)
      then err "invalid Stratum parameters"
      else if text_eq method (codes "mining.set_difficulty")
      then set_difficulty p s
      else if text_eq method (codes "mining.set_extranonce")
      then extranonce p s
      else if text_eq method (codes "mining.notify")
      then notify p s
      else ok (none, s)

  unfoldable pub subscribed : V → State → Result (Option Job × State)
  subscribed r s = do
    require (json.is_array r && json.size r == 3) "subscription refused"
    set_extranonce "unsupported subscription extranonce" (json.item 1 r) (json.item 2 r) s

  abbrev pub holds : Option V → Bool
  holds none = false
  holds (some r) = json.is_true r

  unfoldable pub on_answer : Bool × ℕ → V → State → Result (Option Job × State)
  on_answer id msg s =
      let first = got (json.member (codes "result") msg) >>= (λ r. subscribed r s) in
      if is_int 1 id
      then first
      else if is_int 3 id
      then (if holds (json.member (codes "result") msg)
          then ok (none, record s { authorized = true })
          else err "authorization refused")
      else ok (none, s)

  unfoldable pub on_id : Option V → V → State → Result (Option Job × State)
  on_id none msg s = ok (none, s)
  on_id (some id) msg s =
      let answered = got (json.as_int id) >>= (λ n. on_answer n msg s) in
      if json.is_integer id then answered else ok (none, s)

  unfoldable pub dispatch : Option V → V → State → Result (Option Job × State)
  dispatch none msg s = on_id (json.member (codes "id") msg) msg s
  dispatch (some name) msg s = do
    method ← text name
    p ← got (json.member (codes "params") msg)
    on_method method p s

  unfoldable pub receive : V → State → Result (Option Job × State)
  receive msg s =
      if json.is_object msg
      then dispatch (json.member (codes "method") msg) msg s
      else err "invalid Stratum object"
