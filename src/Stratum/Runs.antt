-- ===== src/Stratum/Runs.antt =====
-- A small JSON library, whose values are numbered, and the theorem at a concrete job.
use supryolo.Base.{
  ℕ, ◌+◌, ◌%◌, ◌^◌, ◌≡◌, refl, List, [], ◌∷◌, true, false, Option, none, some, get_or, replicate,
  ◌==◌, ◌||◌, if◌then◌else◌, Result, ok, err,
}
use supryolo.Base.Bytes.{codes}
use supryolo.Hex.{hex, unhex}
use supryolo.Words.{store_le, overwrite}
use supryolo.Blake2b.{blake2b256, load_words, initial_state, rounds, digest}
use supryolo.Target.{compact_target, expand_compact, unpack_mantissa}
use supryolo.Work.{sia_work}
use supryolo.Job.{Job, empty_job}
use supryolo.Sv2.Session.Settle.{text_eq}
use supryolo.Stratum.{
  Json, State, initial, forget, look_up, valid, cleaned, job_parts, make_job, add_job, check_notify,
  notify, on_method, dispatch, receive,
}
use supryolo.Stratum.Current.{receive-current}

-- The message is 20, its method 21 and its parameters 22, whose items are 0 to 8.
abbrev texts : List (List ℕ)
texts =
    codes "job1"
    ∷ replicate 64 b'0'
    ∷ replicate 78 b'0'
    ∷ []
    ∷ []
    ∷ codes "00000001"
    ∷ codes "1d00ffff"
    ∷ codes "0000000000000000"
    ∷ []

abbrev small : Json ℕ
small = record {
  is_object = λ v. v == 20;
  is_array = λ v. v == 22 || v == 23;
  is_number = λ v. false;
  is_integer = λ v. false;
  is_true = λ v. false;
  member = λ name v. if text_eq name (codes "method") then some 21 else some 22;
  size = λ v. if v == 22 then 9 else 0;
  item = λ i v. if i == 4 then 23 else i;
  as_text = λ v. if v == 21 then some (codes "mining.notify") else some (get_or texts v []);
  as_int = λ v. none;
  as_bool = λ v. some true;
  dump = λ v. [];
}

abbrev ready : State
ready = record initial {
  en1 = codes "00000000";
  en2_size = 8;
  have_target = true;
  authorized = true;
  generation = 4;
  valid_ids = (codes "job0", 4) ∷ [];
}

abbrev no_difficulty : List ℕ → Result (List ℕ)
no_difficulty text = err "difficulty"

abbrev pair_or : Result (Option Job × State) → Job × State
pair_or (ok (some j, s)) = (j, s)
pair_or (ok (none, s)) = (empty_job, s)
pair_or (err why) = (empty_job, initial)

-- The job and the state that the message gives.
made : Job × State
unfolding receive
made = pair_or (receive small no_difficulty 20 ready)

received : receive small no_difficulty 20 ready ≡ ok (some made.0, made.1)
unfolding made receive dispatch on_method notify check_notify add_job make_job job_parts cleaned
    forget text_eq unhex hex store_le sia_work overwrite blake2b256 load_words initial_state rounds
    digest compact_target expand_compact unpack_mantissa initial
received = refl

-- It is the fifth job, and the one before is no longer valid.
replaced : (made.0.generation ≡ 5) × (look_up (codes "job0") made.1.valid_ids ≡ none)
unfolding made receive dispatch on_method notify check_notify add_job make_job job_parts cleaned
    forget text_eq unhex hex store_le sia_work overwrite blake2b256 load_words initial_state rounds
    digest compact_target expand_compact unpack_mantissa initial look_up
replaced = (refl, refl)

receive-current_example :
    (made.1.current ≡ some made.0)
    × (made.0.generation ≡ (ready.generation + 1) % 2 ^ 64)
    × (made.1.generation ≡ made.0.generation)
    × (valid made.0 made.1 ≡ made.1.authorized)
    × ((o : Job)
        → valid o made.1 ≡ true
        → (o.epoch ≡ made.0.epoch) × (o.id ≡ made.0.id → o.generation ≡ made.0.generation))
receive-current_example = receive-current small no_difficulty 20 ready made.1 made.0 received
