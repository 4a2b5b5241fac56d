-- ===== src/Sv2/Session/Mineable.antt =====
-- Every message and every share keeps the session safe.
use supryolo.Base.{
  ℕ, suc, ◌≤◌, ◌<◌, ◌≡◌, refl, sym, ap, subst, arith, List, [], ◌∷◌, ◌++◌, inl, inr, Bool, true,
  false, not, length, ltb, ◌==◌, ◌&&◌, ok, >>=-eq-ok, ok-injective, Bool-cases, Option, none, some,
  Option-cases, length-append,
}
use supryolo.Job.{Job}
use supryolo.Target.{lex_less}
use supryolo.Sv2.Types.{
  Message, NewJob, setup_success, open_success, new_job, prev_hash, target, accepted, rejected,
  error,
}
use supryolo.Sv2.Encode.{setup}
use supryolo.Sv2.Session.{Session, Stored, init, start, handle, submit, valid, find_job, maximum}
use supryolo.Sv2.Session.Settle.{Event, contains_key, remove, insert}
use supryolo.Sv2.Session.Settle.Laws.{settle-ok}
use supryolo.Sv2.Session.Inversion.{
  setup_success-ok, open_success-ok, new_job-ok, prev_hash-ok, target-ok, accepted-ok, rejected-ok,
  submit-ok, NewJobStored, switched,
}
use supryolo.Sv2.Session.Answers.{Action, receives, submits, run}
use supryolo.Sv2.Session.Order.{receives-run, submits-run}
use supryolo.Sv2.Session.Safety.{Safe, find_job-Keyed, activate-Safe, same-Safe, early-Safe}

-- A number that is not in the map is not the number of a job that is found there.
find_job-fresh :
    (k i : ℕ) (jobs : List (ℕ × Stored)) (st : Stored)
    → contains_key k jobs ≡ false
    → find_job i jobs ≡ some st
    → (k == i) ≡ false
unfolding contains_key find_job
find_job-fresh k i [] st h e = cc
find_job-fresh k i ((j, t) ∷ jobs) st h e = elim (Bool-cases (j == i)) [
  | inl hit ↦ ground (arith, hit, h)
  | inr miss ↦ find_job-fresh k i jobs st (ground (arith, h)) (rw miss at e)
]

-- A new job under a new number leaves valid jobs valid.
pub stored-valid :
    (j : Job) (m : NewJob) (st : Stored) (g : ℕ) (c : Option Job) (s : Session)
    → contains_key m.job s.jobs ≡ false
    → valid j s ≡ true
    → valid j (record s { generation = g; current = c; jobs = (m.job, st) ∷ s.jobs }) ≡ true
unfolding valid find_job
stored-valid j m st g c s fresh v = elim (Option-cases (find_job j.wire_job s.jobs)) [
  | inl nothing ↦ absurd (ground (arith, rw nothing at v))
  | inr (t, found) ↦ rw (find_job-fresh m.job j.wire_job s.jobs t fresh found) v
]

both : (a b : Bool) → (a && b) ≡ true → (a ≡ true) × (b ≡ true)
both a b h = ground arith

fresh_and_room : (n : ℕ) (b : Bool) → (ltb n 1024 && not b) ≡ true → (n < 1024) × (b ≡ false)
fresh_and_room n b h = ground arith

stored-Safe :
    (m : NewJob) (s s' : Session)
    → NewJobStored m s s'
    → (s.phase == 3) ≡ true
    → (ltb (length s.jobs) 1024 && not (contains_key m.job s.jobs)) ≡ true
    → Safe s
    → Safe s'
stored-Safe m s s' (inl (_, state)) p test safe =
    let (room, fresh) = fresh_and_room (length s.jobs) (contains_key m.job s.jobs) test in
    subst Safe (sym state) (record {
      keyed = (refl, safe.keyed);
      jobs_fit = omega arith;
      pending_fit = safe.pending_fit;
      early = safe.early;
      mineable = λ j c.
          let (v, easy) = safe.mineable j c in
          (stored-valid j m _ s.generation s.current s fresh v, easy);
    })
stored-Safe m s s' (inr (t, _, e)) p test safe =
    let (room, fresh) = fresh_and_room (length s.jobs) (contains_key m.job s.jobs) test in
    activate-Safe m.job _ t s.jobs s s' e p refl safe.keyed room safe.pending_fit

not_3 : (p n : ℕ) (b : Bool) → n < 3 → ((p == n) && b) ≡ true → (p == 3) ≡ false
not_3 p n b h t = ground arith

shorter :
    (n : ℕ) (pending front rest : List ℕ)
    → pending ≡ front ++ rest
    → length pending ≤ n
    → length rest ≤ n
shorter n pending front rest e h = omega (arith, ap length e, length-append front rest)

length-remove : (k : ℕ) (m : List ℕ) → length (remove k m) ≤ length m
unfolding remove
length-remove k [] = omega arith
length-remove k (j ∷ m) = ground (arith, length-remove k m)

length-insert : (k : ℕ) (m : List ℕ) → length (insert k m) ≤ suc (length m)
unfolding insert
length-insert k [] = omega arith
length-insert k (j ∷ m) = ground (arith, length-insert k m)

-- Every message keeps the session safe.
pub handle-Safe :
    (m : Message) (s s' : Session) (out : List Event) → handle m s ≡ ok (s', out) → Safe s → Safe s'
unfolding handle valid
handle-Safe (setup_success m) s s' out e safe =
    let (f, test, _, state, _) = setup_success-ok m s s' out e in
    subst Safe (sym state) (
      early-Safe s _ safe (safe.early (not_3 s.phase 1 _ (omega arith) (both _ _ test).0)) refl refl
        refl)
handle-Safe (open_success m) s s' out e safe =
    let (test, _, state, _) = open_success-ok m s s' out e in
    subst Safe (sym state)
      (early-Safe s _ safe (safe.early (not_3 s.phase 2 _ (omega arith) test)) refl refl refl)
handle-Safe (new_job m) s s' out e safe =
    let (test, room, stored, _) = new_job-ok m s s' out e in
    stored-Safe m s s' stored (both _ _ test).0 room safe
handle-Safe (prev_hash m) s s' out e safe =
    let (selected, next, test, found, _, _, go, _) = prev_hash-ok m s s' out e in
    activate-Safe m.job selected m.ntime [] (switched m next s) s' go (both _ _ test).0
      (find_job-Keyed m.job s.jobs selected found safe.keyed) tt (omega arith) safe.pending_fit
handle-Safe (target m) s s' out e safe =
    let (_, state, _) = target-ok m s s' out e in
    subst Safe (sym state) (same-Safe s _ safe (λ j. refl) refl refl refl safe.pending_fit)
handle-Safe (accepted m) s s' out e safe =
    let (r, _, settled, state, _) = accepted-ok m s s' out e in
    let (front, split, _) = settle-ok _ s.pending r settled in
    subst Safe (sym state) (
      same-Safe s _ safe (λ j. refl) refl refl refl
        (shorter 4096 s.pending front r.1 split safe.pending_fit))
handle-Safe (rejected m) s s' out e safe =
    let (r, _, settled, state, _) = rejected-ok m s s' out e in
    let (front, split, _) = settle-ok _ (remove m.sequence s.pending) r settled in
    subst Safe (sym state) (
      same-Safe s _ safe (λ j. refl) refl refl refl
        (shorter 4096 (remove m.sequence s.pending) front r.1 split
          (omega (arith, length-remove m.sequence s.pending, safe.pending_fit))))
handle-Safe (error m) s s' out e safe = cc

room_left : (a b c : Bool) (n : ℕ) → (a && b && c && ltb n 4096) ≡ true → n < 4096
room_left a b c n h = ground arith

pub submit-Safe :
    (j : Job) (nonce k : ℕ) (s s' : Session) → submit j nonce k s ≡ ok s' → Safe s → Safe s'
unfolding valid
submit-Safe j nonce k s s' e safe =
    let (test, state) = submit-ok j nonce k s s' e in
    subst Safe (sym state) (
      same-Safe s _ safe (λ j. refl) refl refl refl
        (omega
          (arith, length-insert k s.pending, room_left (valid j s) _ _ (length s.pending) test)))

run-Safe :
    (actions : List Action) (s s' : Session) (out : List Event)
    → run actions s ≡ ok (s', out)
    → Safe s
    → Safe s'
run-Safe [] s s' out e safe = unfold run in subst Safe (ap (λ r. r.0) (ok-injective e)) safe
run-Safe (receives m ∷ actions) s s' out e safe =
    let (s1, out1, s2, out2, first, second, same) = receives-run m actions s (s', out) e in
    subst Safe (ap (λ r. r.0) same)
      (run-Safe actions s1 s2 out2 second (handle-Safe m s s1 out1 first safe))
run-Safe (submits j nonce k ∷ actions) s s' out e safe =
    let (s1, first, second) = submits-run j nonce k actions s (s', out) e in
    run-Safe actions s1 s' out second (submit-Safe j nonce k s s1 first safe)

init-Safe : (host : List ℕ) (port : ℕ) (user : List ℕ) (rate : ℕ) → Safe (init host port user rate)
unfolding init
init-Safe host port user rate = record {
  keyed = tt;
  jobs_fit = omega arith;
  pending_fit = omega arith;
  early = λ early. refl;
  mineable = λ j c. cc;
}

start-Safe : (s s' : Session) → start s ≡ ok s' → s.current ≡ none → Safe s → Safe s'
unfolding start
start-Safe s s' e no_job safe =
    let (f, _, e) = >>=-eq-ok (setup s.host s.port _) _ e in
    subst Safe (ok-injective e) (early-Safe s _ safe no_job refl refl refl)

no_current :
    (host : List ℕ) (port : ℕ) (user : List ℕ) (rate : ℕ)
    → (init host port user rate).current ≡ none
unfolding init
no_current host port user rate = refl

-- Whatever the pool sends and the miner submits after the Noise handshake of a new session, as long
-- as no exception ends it: the current job, if there is one, is valid, and its target is at most the
-- one with the top 32 bits clear and all others set; at most 1024 jobs are stored, and at most 4096
-- shares are pending.
pub run-mineable :
    (host : List ℕ) (port : ℕ) (user : List ℕ) (rate : ℕ) (actions : List Action) (s0 s : Session)
    (out : List Event)
    → start (init host port user rate) ≡ ok s0
    → run actions s0 ≡ ok (s, out)
    → ((j : Job)
        → s.current ≡ some j
        → (valid j s ≡ true) × (lex_less maximum j.work.target ≡ false))
      × (length s.jobs ≤ 1024)
      × (length s.pending ≤ 4096)
run-mineable host port user rate actions s0 s out e r =
    let safe : Safe s = run-Safe actions s0 s out r (
      start-Safe (init host port user rate) s0 e (no_current host port user rate)
        (init-Safe host port user rate)) in
    (safe.mineable, safe.jobs_fit, safe.pending_fit)
