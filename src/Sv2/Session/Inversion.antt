-- ===== src/Sv2/Session/Inversion.antt =====
-- What a handler that returned has checked and done.
use supryolo.Base.{
  ℕ, ◌+◌, ◌-◌, ◌^◌, ◌%◌, ◌≡◌, ◌⊎◌, inl, inr, refl, sym, ap, ◌∙◌, List, [], ◌∷◌, ◌++◌, ◌&&◌, ◌||◌,
  not, true, false, ltb, leb, ◌==◌, length, take, all, replicate, ok, require, require-ok,
  >>=-eq-ok, ok-injective, Option, none, some, if◌then◌else◌,
}
use supryolo.Hex.{hex}
use supryolo.Target.{compact_target}
use supryolo.Work.{standard_work}
use supryolo.Job.{Job, empty_job}
use supryolo.Sv2.Types.{
  Frame, SetupSuccess, OpenSuccess, NewJob, PrevHash, Target, Accepted, Rejected,
}
use supryolo.Sv2.Encode.{open_standard, submit_standard}
use supryolo.Sv2.Session
use supryolo.Sv2.Session.{
  Session, Stored, find_job, activate, activated, for_channel, compact, send, handle, valid, submit,
}
use supryolo.Sv2.Session.Settle.{
  Event, answer_rejected, retarget, prompt, contains, contains_key, remove, insert, settle, Settled,
}

-- `f` returned, and `b` was the state after it.
pub activate-ok :
    (k : ℕ) (st : Stored) (time : ℕ) (others : List (ℕ × Stored)) (s s' : Session)
    → activate k st time others s ≡ ok s'
    → (header : List ℕ) × (s.have_previous ≡ true)
      × (standard_work s.previous st.wire.root s.extra time ≡ ok header)
      × (s' ≡ record s {
        generation = (s.generation + 1) % 2 ^ 64;
        current = some (activated s st time header);
        jobs = (k, record st { job = activated s st time header; future = false }) ∷ others;
      })
unfolding activate
activate-ok k st time others s s' e =
    let (u, previous, e) = >>=-eq-ok (require s.have_previous _) _ e in
    let (header, work, e) = >>=-eq-ok (standard_work s.previous st.wire.root s.extra time) _ e in
    (header, require-ok _ _ previous, work, sym (ok-injective e))

pub setup_success-ok :
    (m : SetupSuccess) (s s' : Session) (out : List Event)
    → Session.on_setup_success m s ≡ ok (s', out)
    → (f : Frame) × ((s.phase == 1 && m.version == 2 && ltb m.flags 2) ≡ true)
      × (open_standard 1 s.user s.rate (replicate 32 255) ≡ ok f)
      × (s' ≡ record (send f s) { phase = 2 })
      × (out ≡ prompt ∷ [])
unfolding Session.on_setup_success
setup_success-ok m s s' out e =
    let (u, test, e) = >>=-eq-ok (require _ _) _ e in
    let (f, opened, e) = >>=-eq-ok (open_standard 1 s.user s.rate (replicate 32 255)) _ e in
    let same = sym (ok-injective e) in
    (f, require-ok _ _ test, opened, ap (λ t. t.0) same, ap (λ t. t.1) same)

pub open_success-ok :
    (m : OpenSuccess) (s s' : Session) (out : List Event)
    → Session.on_open_success m s ≡ ok (s', out)
    → ((s.phase == 2 && m.request == 1) ≡ true)
      × ((length m.prefix == 4 || length m.prefix == 12) ≡ true)
      × (s' ≡ record s {
        channel = m.channel;
        group = m.group;
        target = m.target;
        extra = m.prefix ++ replicate (12 - length m.prefix) 0;
        phase = 3;
      })
      × (out ≡ prompt ∷ [])
unfolding Session.on_open_success
open_success-ok m s s' out e =
    let (u, test, e) = >>=-eq-ok (require _ _) _ e in
    let (v, size, e) = >>=-eq-ok (require _ _) _ e in
    let same = sym (ok-injective e) in
    (require-ok _ _ test, require-ok _ _ size, ap (λ t. t.0) same, ap (λ t. t.1) same)

store_job-ok :
    (m : NewJob) (time : Option ℕ) (s s' : Session)
    → Session.store_job m time s ≡ ok s'
    → ((time ≡ none)
        × (s' ≡ record s {
          jobs = (m.job, record { wire = m; job = empty_job; future = true }) ∷ s.jobs;
        }))
      ⊎ ((t : ℕ) × (time ≡ some t)
          × (activate m.job (record { wire = m; job = empty_job; future = false }) t s.jobs s
              ≡ ok s'))
unfolding Session.store_job
store_job-ok m none s s' e = inl (refl, sym (ok-injective e))
store_job-ok m (some t) s s' e = inr (t, refl, e)

-- A job without a time waits; one with a time is activated.
abbrev pub NewJobStored : NewJob → Session → Session → Type 0
NewJobStored m s s' =
    ((m.ntime ≡ none)
      × (s' ≡ record s {
        jobs = (m.job, record { wire = m; job = empty_job; future = true }) ∷ s.jobs;
      }))
    ⊎ ((t : ℕ) × (m.ntime ≡ some t)
        × (activate m.job (record { wire = m; job = empty_job; future = false }) t s.jobs s
            ≡ ok s'))

pub new_job-ok :
    (m : NewJob) (s s' : Session) (out : List Event)
    → Session.on_new_job m s ≡ ok (s', out)
    → ((s.phase == 3 && m.channel == s.channel) ≡ true)
      × ((ltb (length s.jobs) 1024 && not (contains_key m.job s.jobs)) ≡ true)
      × NewJobStored m s s'
      × (out ≡ prompt ∷ [])
unfolding Session.on_new_job
new_job-ok m s s' out e =
    let (u, test, e) = >>=-eq-ok (require _ _) _ e in
    let (v, room, e) = >>=-eq-ok (require _ _) _ e in
    let (s'', stored, e) = >>=-eq-ok (Session.store_job m m.ntime s) _ e in
    let same = sym (ok-injective e) in
    (
      require-ok _ _ test,
      require-ok _ _ room,
      store_job-ok m m.ntime s s' (stored ∙ ap ok (sym (ap (λ t. t.0) same))),
      ap (λ t. t.1) same,
    )

-- The state in which `prev_hash` activates its job.
abbrev pub switched : PrevHash → List ℕ → Session → Session
switched m next s = record s {
  epoch = (s.epoch + 1) % 2 ^ 64;
  previous = m.hash;
  network_target = next;
  have_previous = true;
}

switch_block-ok :
    (m : PrevHash) (found : Option Stored) (s s' : Session)
    → Session.switch_block m found s ≡ ok s'
    → (selected : Stored) × (next : List ℕ) × (found ≡ some selected)
      × (all (λ b. b == 0) (take 6 m.hash) ≡ true)
      × (compact_target (hex (compact m.nbits)) ≡ ok next)
      × (activate m.job selected m.ntime [] (switched m next s) ≡ ok s')
unfolding Session.switch_block
switch_block-ok m none s s' e = cc
switch_block-ok m (some selected) s s' e =
    let (u, hidden, e) = >>=-eq-ok (require _ _) _ e in
    let (next, target, e) = >>=-eq-ok (compact_target (hex (compact m.nbits))) _ e in
    (selected, next, refl, require-ok _ _ hidden, target, e)

pub prev_hash-ok :
    (m : PrevHash) (s s' : Session) (out : List Event)
    → Session.on_prev_hash m s ≡ ok (s', out)
    → (selected : Stored) × (next : List ℕ) × (for_channel m.channel s ≡ true)
      × (find_job m.job s.jobs ≡ some selected)
      × (all (λ b. b == 0) (take 6 m.hash) ≡ true)
      × (compact_target (hex (compact m.nbits)) ≡ ok next)
      × (activate m.job selected m.ntime [] (switched m next s) ≡ ok s')
      × (out ≡ prompt ∷ [])
unfolding Session.on_prev_hash
prev_hash-ok m s s' out e =
    let (u, test, e) = >>=-eq-ok (require _ _) _ e in
    let (s'', moved, e) = >>=-eq-ok (Session.switch_block m (find_job m.job s.jobs) s) _ e in
    let same = sym (ok-injective e) in
    let (selected, next, found, hidden, target, run) =
      switch_block-ok m (find_job m.job s.jobs) s s' (moved ∙ ap ok (sym (ap (λ t. t.0) same))) in
    (selected, next, require-ok _ _ test, found, hidden, target, run, ap (λ t. t.1) same)

pub target-ok :
    (m : Target) (s s' : Session) (out : List Event)
    → Session.on_target m s ≡ ok (s', out)
    → (for_channel m.channel s ≡ true)
      × (s' ≡ record s { target = m.target })
      × (out ≡ retarget m.target ∷ prompt ∷ [])
unfolding Session.on_target
target-ok m s s' out e =
    let (u, test, e) = >>=-eq-ok (require _ _) _ e in
    let same = sym (ok-injective e) in (require-ok _ _ test, ap (λ t. t.0) same, ap (λ t. t.1) same)

pub accepted-ok :
    (m : Accepted) (s s' : Session) (out : List Event)
    → Session.on_accepted m s ≡ ok (s', out)
    → (r : Settled) × (Session.accepts m s ≡ true)
      × (settle (s.batches ++ (record { last = m.last_sequence; count = m.count } ∷ [])) s.pending
          ≡ ok r)
      × (s' ≡ record s { last_ack = m.last_sequence; batches = r.0; pending = r.1 })
      × (out ≡ r.2 ++ (prompt ∷ []))
unfolding Session.on_accepted
accepted-ok m s s' out e =
    let (u, test, e) = >>=-eq-ok (require _ _) _ e in
    let (r, settled, e) = >>=-eq-ok (settle _ s.pending) _ e in
    let same = sym (ok-injective e) in
    (r, require-ok _ _ test, settled, ap (λ t. t.0) same, ap (λ t. t.1) same)

pub rejected-ok :
    (m : Rejected) (s s' : Session) (out : List Event)
    → Session.on_rejected m s ≡ ok (s', out)
    → (r : Settled) × ((s.phase == 3 && m.channel == s.channel && contains m.sequence s.pending)
        ≡ true)
      × (settle s.batches (remove m.sequence s.pending) ≡ ok r)
      × (s' ≡ record s { batches = r.0; pending = r.1 })
      × (out
          ≡ answer_rejected m.sequence (if Session.is_stale m.reason then 21 else 20) m.reason
            ∷ (r.2 ++ (prompt ∷ [])))
unfolding Session.on_rejected
rejected-ok m s s' out e =
    let (u, test, e) = >>=-eq-ok (require _ _) _ e in
    let (r, settled, e) = >>=-eq-ok (settle s.batches (remove m.sequence s.pending)) _ e in
    let same = sym (ok-injective e) in
    (r, require-ok _ _ test, settled, ap (λ t. t.0) same, ap (λ t. t.1) same)

pub submit-ok :
    (j : Job) (nonce sequence : ℕ) (s s' : Session)
    → submit j nonce sequence s ≡ ok s'
    → ((valid j s
          && leb nonce 0xffff_ffff
          && ltb s.last_sent sequence
          && ltb (length s.pending) 4096)
        ≡ true)
      × (s'
          ≡ send
              (submit_standard s.channel sequence j.wire_job nonce j.time32 j.version)
              (record s { pending = insert sequence s.pending; last_sent = sequence }))
unfolding submit
submit-ok j nonce sequence s s' e =
    let (u, test, e) = >>=-eq-ok (require _ _) _ e in (require-ok _ _ test, sym (ok-injective e))
