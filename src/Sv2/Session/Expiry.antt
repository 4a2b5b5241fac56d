-- ===== src/Sv2/Session/Expiry.antt =====
-- A new previous hash ends all jobs but its own; a new job ends none.
use supryolo.Base.{
  ℕ, ◌+◌, ◌<◌, ◌≡◌, refl, sym, ap, subst, arith, List, [], ◌∷◌, inl, inr, Bool, true, false, not,
  ◌==◌, ◌&&◌, ok, some, ◌%◌, ◌^◌,
}
use supryolo.Job.{Job}
use supryolo.Sv2.Types.{NewJob, PrevHash, new_job, prev_hash}
use supryolo.Sv2.Session.{Session, Stored, handle, valid, activated}
use supryolo.Sv2.Session.Settle.{Event, contains_key}
use supryolo.Sv2.Session.Inversion.{activate-ok, new_job-ok, prev_hash-ok, NewJobStored, switched}
use supryolo.Sv2.Session.Safety.{Keyed, find_job-Keyed, activated-valid}
use supryolo.Sv2.Session.Mineable.{stored-valid}

wrapped : (e : ℕ) → e < 2 ^ 64 → (e == (e + 1) % 2 ^ 64) ≡ false
wrapped e h = ground arith

same_epoch : (a b c : Bool) (i e : ℕ) → (a && b && i == e && c) ≡ true → i ≡ e
same_epoch a b c i e v = ground arith

wrong_epoch : (a b c : Bool) (i e : ℕ) → (i == e) ≡ false → (a && b && i == e && c) ≡ false
wrong_epoch a b c i e v = ground arith

valid-epoch : (j : Job) (s : Session) → valid j s ≡ true → j.epoch ≡ s.epoch
unfolding valid
valid-epoch j s v = same_epoch (s.phase == 3) (j.channel == s.channel) _ j.epoch s.epoch v

not_valid : (j : Job) (s : Session) → (j.epoch == s.epoch) ≡ false → valid j s ≡ false
unfolding valid
not_valid j s h = wrong_epoch (s.phase == 3) (j.channel == s.channel) _ j.epoch s.epoch h

-- A job of an epoch below 2^64 is not valid in the next epoch.
epoch-expires :
    (j : Job) (s s' : Session)
    → s.epoch < 2 ^ 64
    → s'.epoch ≡ (s.epoch + 1) % 2 ^ 64
    → valid j s ≡ true
    → valid j s' ≡ false
epoch-expires j s s' h e v = not_valid j s' (rw (valid-epoch j s v, e) (wrapped s.epoch h))

-- When a new previous hash is taken, with an epoch below 2^64: no job that was valid before is valid
-- after; one job is stored, under the number that the message names; and, when each job was stored
-- under its own number, there is a current job, and it is valid and has the new time and epoch.
pub prev_hash-expires :
    (m : PrevHash) (s s' : Session) (out : List Event)
    → handle (prev_hash m) s ≡ ok (s', out)
    → s.epoch < 2 ^ 64
    → Keyed s.jobs
    → ((j : Job) → valid j s ≡ true → valid j s' ≡ false)
      × ((st : Stored) × (s'.jobs ≡ (m.job, st) ∷ []))
      × ((j : Job) × (s'.current ≡ some j)
          × (valid j s' ≡ true)
          × (j.time32 ≡ m.ntime)
          × (j.epoch ≡ (s.epoch + 1) % 2 ^ 64))
unfolding handle
prev_hash-expires m s s' out e h keyed =
    let (selected, next, test, found, _, _, go, _) = prev_hash-ok m s s' out e in
    let (header, _, _, state) = activate-ok m.job selected m.ntime [] (switched m next s) s' go in
    let current : s'.current ≡ some (activated (switched m next s) selected m.ntime header) =
      ap (λ t. t.current) state in
    (
      λ j v. epoch-expires j s s' h (ap (λ t. t.epoch) state) v,
      (_, ap (λ t. t.jobs) state),
      (
        activated (switched m next s) selected m.ntime header,
        current,
        subst (λ t. valid (activated (switched m next s) selected m.ntime header) t ≡ true)
            (sym state)
            (activated-valid m.job selected m.ntime header [] (switched m next s)
              (in_phase _ _ test) (find_job-Keyed m.job s.jobs selected found keyed)),
        refl,
        refl,
      ),
    )
  where
    in_phase : (a b : Bool) → (a && b) ≡ true → a ≡ true
    in_phase a b t = ground arith

-- A new job, waiting or active, leaves every job that was valid valid.
pub new_job-keeps :
    (m : NewJob) (j : Job) (s s' : Session) (out : List Event)
    → handle (new_job m) s ≡ ok (s', out)
    → valid j s ≡ true
    → valid j s' ≡ true
unfolding handle
new_job-keeps m j s s' out e v =
    let (_, room, stored, _) = new_job-ok m s s' out e in
    let fresh : contains_key m.job s.jobs ≡ false = not_taken _ _ room in keeps fresh stored
  where
    not_taken : (a b : Bool) → (a && not b) ≡ true → b ≡ false
    not_taken a b t = ground arith

    keeps : contains_key m.job s.jobs ≡ false → NewJobStored m s s' → valid j s' ≡ true
    keeps fresh (inl (_, state)) =
        subst (λ t. valid j t ≡ true) (sym state)
          (stored-valid j m _ s.generation s.current s fresh v)
    keeps fresh (inr (t, _, go)) =
        let (header, _, _, state) = activate-ok m.job _ t s.jobs s s' go in
        subst (λ t. valid j t ≡ true) (sym state) (stored-valid j m _ _ _ s fresh v)
