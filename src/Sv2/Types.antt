-- ===== src/Sv2/Types.antt =====
-- include/yolo/sv2.hpp: frames and the messages that a pool sends. Byte strings, hashes and text are
-- lists of bytes.
use supryolo.Base.{ℕ, List, Option}

pub record Frame : Type 0 where
  pub extension : ℕ
  pub type : ℕ
  pub payload : List ℕ

pub record SetupSuccess : Type 0 where
  pub version : ℕ
  pub flags : ℕ

pub record OpenSuccess : Type 0 where
  pub request : ℕ
  pub channel : ℕ
  pub target : List ℕ
  pub prefix : List ℕ
  pub group : ℕ

pub record NewJob : Type 0 where
  pub channel : ℕ
  pub job : ℕ
  pub ntime : Option ℕ
  pub version : ℕ
  pub root : List ℕ

pub record PrevHash : Type 0 where
  pub channel : ℕ
  pub job : ℕ
  pub hash : List ℕ
  pub ntime : ℕ
  pub nbits : ℕ

pub record Target : Type 0 where
  pub channel : ℕ
  pub target : List ℕ

pub record Accepted : Type 0 where
  pub channel : ℕ
  pub last_sequence : ℕ
  pub count : ℕ
  pub difficulty_sum : ℕ

pub record Rejected : Type 0 where
  pub channel : ℕ
  pub sequence : ℕ
  pub reason : List ℕ

pub record Error : Type 0 where
  pub type : ℕ
  pub reference : ℕ
  pub reason : List ℕ

-- The variant.
pub data Message : Type 0 where
  setup_success : SetupSuccess → Message
  open_success : OpenSuccess → Message
  new_job : NewJob → Message
  prev_hash : PrevHash → Message
  target : Target → Message
  accepted : Accepted → Message
  rejected : Rejected → Message
  error : Error → Message
