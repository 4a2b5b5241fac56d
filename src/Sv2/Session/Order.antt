-- ===== src/Sv2/Session/Order.antt =====
-- Pending sequence numbers ascend and were all sent; so over a whole session no share is answered
-- twice, and none is lost.
use mathlib.Core.List.{Perm, Mem, Nodup, Nodup-nil, Nodup-cons, mem-cons, not-mem-nil}
use mathlib.Core.HLevel.{⊥_prop}
use mathlib.Core.Logic.Or
use mathlib.Core.List.Perm
use supryolo.Base.{
  ℕ, ◌≤◌, ◌<◌, ◌≡◌, refl, sym, ap, subst, ◌∙◌, arith, List, [], ◌∷◌, ◌++◌, inl, inr, Bool, true,
  false, ◌&&◌, ok, >>=-eq-ok, append_assoc, append-nil, ok-injective, ltb→lt, Result-cases,
}
use supryolo.Job.{Job}
use supryolo.Sv2.Types.{
  Message, NewJob, setup_success, open_success, new_job, prev_hash, target, accepted, rejected,
  error,
}
use supryolo.Sv2.Session.{Session, init, start, handle, submit, valid}
use supryolo.Sv2.Encode.{setup}
use supryolo.Sv2.Session.Settle.{Event, contains, remove, insert}
use supryolo.Sv2.Session.Settle.Laws.{answered, answered-append, Above, UpTo, Above-mono, settle-ok}
use supryolo.Sv2.Session.Inversion.{
  activate-ok, setup_success-ok, open_success-ok, new_job-ok, prev_hash-ok, target-ok, accepted-ok,
  rejected-ok, submit-ok, NewJobStored,
}
use supryolo.Sv2.Session.Answers.{handle-answered, Action, receives, submits, step, run, submitted}

-- Ascending, positive, and at most the last number that was sent.
pub record InOrder (s : Session) : Type 0 where
  pub above : Above 0 s.pending
  pub sent : UpTo s.last_sent s.pending

Above-suffix : (lo : ℕ) (front back : List ℕ) → Above lo (front ++ back) → Above lo back
Above-suffix lo [] back a = a
Above-suffix lo (x ∷ front) back a =
    Above-mono {lo = x} {lo' = lo} back (omega arith) (Above-suffix x front back a.1)

UpTo-suffix : (hi : ℕ) (front back : List ℕ) → UpTo hi (front ++ back) → UpTo hi back
UpTo-suffix hi [] back a = a
UpTo-suffix hi (x ∷ front) back a = UpTo-suffix hi front back a.1

Above-remove : (lo k : ℕ) (m : List ℕ) → Above lo m → Above lo (remove k m)
unfolding remove
Above-remove lo k [] a = tt
Above-remove lo k (j ∷ m) a =
    ground (arith, Above-remove j k m a.1, Above-mono {lo = j} {lo' = lo} m (omega arith) a.1)

UpTo-remove : (hi k : ℕ) (m : List ℕ) → UpTo hi m → UpTo hi (remove k m)
unfolding remove
UpTo-remove hi k [] a = tt
UpTo-remove hi k (j ∷ m) a = ground (arith, UpTo-remove hi k m a.1)

-- A number above all others goes to the end.
insert_last : (hi k : ℕ) (m : List ℕ) → UpTo hi m → hi < k → insert k m ≡ m ++ (k ∷ [])
unfolding insert
insert_last hi k [] a h = refl
insert_last hi k (j ∷ m) a h = ground (arith, insert_last hi k m a.1 h)

not-contains : (hi k : ℕ) (m : List ℕ) → UpTo hi m → hi < k → contains k m ≡ false
unfolding contains
not-contains hi k [] a h = refl
not-contains hi k (j ∷ m) a h = ground (arith, not-contains hi k m a.1 h)

Above-last :
    (lo hi k : ℕ) (m : List ℕ)
    → Above lo m
    → UpTo hi m
    → lo ≤ hi
    → hi < k
    → Above lo (m ++ (k ∷ []))
Above-last lo hi k [] a u l h = omega arith
Above-last lo hi k (j ∷ m) a u l h = (a.0, Above-last j hi k m a.1 u.1 u.0 h)

UpTo-last : (hi k : ℕ) (m : List ℕ) → UpTo hi m → hi ≤ k → UpTo k (m ++ (k ∷ []))
UpTo-last hi k [] u h = omega arith
UpTo-last hi k (j ∷ m) u h = (omega arith, UpTo-last hi k m u.1 h)

-- The order, and no number sent.
abbrev pub Keeps : Session → Session → Type 0
Keeps s s' = InOrder s' × (s'.last_sent ≡ s.last_sent)

keep :
    (s s' : Session) → s'.pending ≡ s.pending → s'.last_sent ≡ s.last_sent → InOrder s → Keeps s s'
keep s s' p l o = (record { above = subst (Above 0) (sym p) o.above; sent = rw (p, l) o.sent }, l)

-- The shares that `settle` leaves are a back part of those that it was given.
keep_back :
    (s s' : Session) (given front : List ℕ)
    → given ≡ front ++ s'.pending
    → s'.last_sent ≡ s.last_sent
    → Above 0 given
    → UpTo s.last_sent given
    → Keeps s s'
keep_back s s' given front e l a u = (
  record {
    above = Above-suffix 0 front s'.pending (subst (Above 0) e a);
    sent = rw l (UpTo-suffix s.last_sent front s'.pending (subst (UpTo s.last_sent) e u));
  },
  l,
)

stored-Keeps : (m : NewJob) (s s' : Session) → NewJobStored m s s' → InOrder s → Keeps s s'
stored-Keeps m s s' (inl (_, state)) o =
    keep s s' (ap (λ t. t.pending) state) (ap (λ t. t.last_sent) state) o
stored-Keeps m s s' (inr (t, _, go)) o =
    let (header, _, _, state) = activate-ok m.job _ t s.jobs s s' go in
    keep s s' (ap (λ t. t.pending) state) (ap (λ t. t.last_sent) state) o

-- Every message keeps the order.
pub handle-Keeps :
    (m : Message) (s s' : Session) (out : List Event)
    → handle m s ≡ ok (s', out)
    → InOrder s
    → Keeps s s'
unfolding handle
handle-Keeps (setup_success m) s s' out e o =
    let (f, _, _, state, _) = setup_success-ok m s s' out e in
    keep s s' (ap (λ t. t.pending) state) (ap (λ t. t.last_sent) state) o
handle-Keeps (open_success m) s s' out e o =
    let (_, _, state, _) = open_success-ok m s s' out e in
    keep s s' (ap (λ t. t.pending) state) (ap (λ t. t.last_sent) state) o
handle-Keeps (new_job m) s s' out e o =
    let (_, _, stored, _) = new_job-ok m s s' out e in stored-Keeps m s s' stored o
handle-Keeps (prev_hash m) s s' out e o =
    let (selected, next, _, _, _, _, go, _) = prev_hash-ok m s s' out e in
    let (header, _, _, state) = activate-ok m.job selected m.ntime [] _ s' go in
    keep s s' (ap (λ t. t.pending) state) (ap (λ t. t.last_sent) state) o
handle-Keeps (target m) s s' out e o =
    let (_, state, _) = target-ok m s s' out e in
    keep s s' (ap (λ t. t.pending) state) (ap (λ t. t.last_sent) state) o
handle-Keeps (accepted m) s s' out e o =
    let (r, _, settled, state, _) = accepted-ok m s s' out e in
    let (front, split, _) = settle-ok _ s.pending r settled in
    keep_back s s' s.pending front (split ∙ ap (λ t. front ++ t) (sym (ap (λ t. t.pending) state)))
      (ap (λ t. t.last_sent) state) o.above o.sent
handle-Keeps (rejected m) s s' out e o =
    let (r, test, settled, state, _) = rejected-ok m s s' out e in
    let (front, split, _) = settle-ok _ (remove m.sequence s.pending) r settled in
    keep_back s s' (remove m.sequence s.pending) front
      (split ∙ ap (λ t. front ++ t) (sym (ap (λ t. t.pending) state))) (ap (λ t. t.last_sent) state)
      (Above-remove 0 m.sequence s.pending o.above)
      (UpTo-remove s.last_sent m.sequence s.pending o.sent)
handle-Keeps (error m) s s' out e o = cc

submit_test : (a b c d : Bool) → (a && b && c && d) ≡ true → (a ≡ true) × (c ≡ true)
submit_test a b c d h = ground arith

-- A submitted share is pending behind all others, under a number above all that were sent.
pub submit-InOrder :
    (j : Job) (nonce k : ℕ) (s s' : Session)
    → submit j nonce k s ≡ ok s'
    → InOrder s
    → InOrder s' × (s.last_sent < k) × (s'.last_sent ≡ k) × (s'.pending ≡ s.pending ++ (k ∷ []))
submit-InOrder j nonce k s s' e o =
    let (test, state) = submit-ok j nonce k s s' e in
    let later : s.last_sent < k = ltb→lt _ _ (submit_test (valid j s) _ _ _ test).1 in
    let last : s'.last_sent ≡ k = ap (λ t. t.last_sent) state in
    let pending : s'.pending ≡ s.pending ++ (k ∷ []) =
      ap (λ t. t.pending) state ∙ insert_last s.last_sent k s.pending o.sent later in
    (
      record {
        above =
            subst (Above 0) (sym pending)
              (Above-last 0 s.last_sent k s.pending o.above o.sent (omega arith) later);
        sent = rw (pending, last) (UpTo-last s.last_sent k s.pending o.sent (omega arith));
      },
      later,
      last,
      pending,
    )

perm_of_eq : (p q : List ℕ) → p ≡ q → Perm p q
perm_of_eq p q e = rw e (Perm.refl q)

-- What a whole run keeps: the order; numbers that ascend from the last one sent; and the balance of
-- submitted, answered and pending shares.
abbrev pub Balanced : List Action → Session → Session × List Event → Type 0
Balanced actions s r =
    InOrder r.0
    × Above s.last_sent (submitted actions)
    × Perm (s.pending ++ submitted actions) (answered r.1 ++ r.0.pending)

receives-Balanced :
    (m : Message) (actions : List Action) (s s1 s2 : Session) (out1 out2 : List Event)
    → handle m s ≡ ok (s1, out1)
    → InOrder s
    → Balanced actions s1 (s2, out2)
    → Balanced (receives m ∷ actions) s (s2, out1 ++ out2)
receives-Balanced m actions s s1 s2 out1 out2 first o (o2, above, perm) = (
  o2,
  subst (λ n. Above n (submitted actions)) (handle-Keeps m s s1 out1 first o).1 above,
  Perm.trans (Perm.append_right (submitted actions) (handle-answered m s s1 out1 first)) (
      Perm.trans (perm_of_eq _ _ (append_assoc (answered out1) s1.pending (submitted actions))) (
        Perm.trans (Perm.append_left (answered out1) perm) (
          perm_of_eq _ _ (
            sym (append_assoc (answered out1) (answered out2) s2.pending)
            ∙ ap (λ t. t ++ s2.pending) (sym (answered-append out1 out2)))))),
)

submits-Balanced :
    (j : Job) (nonce k : ℕ) (actions : List Action) (s s1 : Session) (r : Session × List Event)
    → submit j nonce k s ≡ ok s1
    → InOrder s
    → Balanced actions s1 r
    → Balanced (submits j nonce k ∷ actions) s r
submits-Balanced j nonce k actions s s1 r first o (o2, above, perm) =
    let (_, later, last, pending) = submit-InOrder j nonce k s s1 first o in
    (
      o2,
      (later, subst (λ n. Above n (submitted actions)) last above),
      Perm.trans
          (perm_of_eq _ _ (
            sym (append_assoc s.pending (k ∷ []) (submitted actions))
            ∙ ap (λ t. t ++ submitted actions) (sym pending)))
          perm,
    )

pub submits-run :
    (j : Job) (nonce k : ℕ) (actions : List Action) (s : Session) (r : Session × List Event)
    → run (submits j nonce k ∷ actions) s ≡ ok r
    → (s1 : Session) × (submit j nonce k s ≡ ok s1) × (run actions s1 ≡ ok r)
unfolding run step
submits-run j nonce k actions s r e = elim (Result-cases (submit j nonce k s)) [
  | inr (why, q) ↦ cc (rw q at e)
  | inl (s1, q) ↦
      let (r', second, same) = >>=-eq-ok (run actions s1) _ (rw q at e) in (s1, q, second ∙ same)
]

pub receives-run :
    (m : Message) (actions : List Action) (s : Session) (r : Session × List Event)
    → run (receives m ∷ actions) s ≡ ok r
    → (s1 : Session) × (out1 : List Event) × (s2 : Session) × (out2 : List Event) × (handle m s
        ≡ ok (s1, out1))
      × (run actions s1 ≡ ok (s2, out2))
      × ((s2, out1 ++ out2) ≡ r)
unfolding run step
receives-run m actions s r e =
    let ((s1, out1), first, e) = >>=-eq-ok (handle m s) _ e in
    let ((s2, out2), second, e) = >>=-eq-ok (run actions s1) _ e in
    (s1, out1, s2, out2, first, second, ok-injective e)

run-Balanced :
    (actions : List Action) (s : Session) (r : Session × List Event)
    → run actions s ≡ ok r
    → InOrder s
    → Balanced actions s r
run-Balanced [] s r e o =
    unfold run in
    subst (Balanced [] s) (ok-injective e) (o, tt, perm_of_eq _ _ (append-nil s.pending))
run-Balanced (receives m ∷ actions) s r e o =
    let (s1, out1, s2, out2, first, second, same) = receives-run m actions s r e in
    subst (Balanced (receives m ∷ actions) s) same (
      receives-Balanced m actions s s1 s2 out1 out2 first o
        (run-Balanced actions s1 (s2, out2) second (handle-Keeps m s s1 out1 first o).0))
run-Balanced (submits j nonce k ∷ actions) s r e o =
    let (s1, first, second) = submits-run j nonce k actions s r e in
    submits-Balanced j nonce k actions s s1 r first o
      (run-Balanced actions s1 r second (submit-InOrder j nonce k s s1 first o).0)

pub init-InOrder :
    (host : List ℕ) (port : ℕ) (user : List ℕ) (rate : ℕ) → InOrder (init host port user rate)
unfolding init
init-InOrder host port user rate = record { above = tt; sent = tt }

Above-not-mem : (lo k : ℕ) (m : List ℕ) → Above lo m → k ≤ lo → ¬ Mem k m
Above-not-mem lo k [] a h i = not-mem-nil i
Above-not-mem lo k (j ∷ m) a h i =
    Or.elim ⊥_prop (mem-cons.0 i) (λ e. omega arith) (Above-not-mem j k m a.1 (omega arith))

Above-Nodup : (lo : ℕ) (m : List ℕ) → Above lo m → Nodup m
Above-Nodup lo [] a = Nodup-nil
Above-Nodup lo (j ∷ m) a = Nodup-cons.1 (Above-not-mem j j m a.1 (omega arith), Above-Nodup j m a.1)

pub start-InOrder : (s s' : Session) → start s ≡ ok s' → InOrder s → Keeps s s'
unfolding start
start-InOrder s s' e o =
    let (f, _, e) = >>=-eq-ok (setup s.host s.port _) _ e in
    let state = sym (ok-injective e) in
    keep s s' (ap (λ t. t.pending) state) (ap (λ t. t.last_sent) state) o

pub start-pending : (s s' : Session) → start s ≡ ok s' → s'.pending ≡ s.pending
unfolding start
start-pending s s' e =
    let (f, _, e) = >>=-eq-ok (setup s.host s.port _) _ e in
    ap (λ t. t.pending) (sym (ok-injective e))

-- Whatever the pool sends and the miner submits after the Noise handshake of a new session, as long
-- as no exception ends it: the numbers submitted are positive and strictly ascending, and they are,
-- up to order, those answered so far followed by those still pending, among which none is twice.
pub run-answered :
    (host : List ℕ) (port : ℕ) (user : List ℕ) (rate : ℕ) (actions : List Action) (s0 s : Session)
    (out : List Event)
    → start (init host port user rate) ≡ ok s0
    → run actions s0 ≡ ok (s, out)
    → Above 0 (submitted actions)
      × Perm (submitted actions) (answered out ++ s.pending)
      × Nodup (answered out ++ s.pending)
unfolding init
run-answered host port user rate actions s0 s out e r =
    let (o, last) =
      start-InOrder (init host port user rate) s0 e (init-InOrder host port user rate) in
    let (_, above, perm) = run-Balanced actions s0 (s, out) r o in
    let above = subst (λ n. Above n (submitted actions)) last above in
    let perm =
      subst (λ p. Perm (p ++ submitted actions) (answered out ++ s.pending))
        (start-pending (init host port user rate) s0 e) perm in
    (above, perm, Perm.nodup perm (Above-Nodup 0 (submitted actions) above))
