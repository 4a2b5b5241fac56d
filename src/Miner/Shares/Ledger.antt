-- ===== src/Miner/Shares/Ledger.antt =====
-- The main loop over a whole Stratum V2 session.
use supryolo.Base.{
  ℕ, ◌+◌, ◌^◌, ◌≤◌, ◌≡◌, refl, sym, subst, ◌∙◌, arith, List, [], ◌∷◌, length, Result, ok, ◌>>=◌,
  >>=-eq-ok, ok-injective,
}
use supryolo.Sv2.Types.{Message}
use supryolo.Sv2.Session.{Session, init, start, handle}
use supryolo.Sv2.Session.Order.{init-InOrder, start-InOrder, start-pending}
use supryolo.Miner.Worker.{Found}
use supryolo.Miner.Shares.{Counts, Board, on_events, submit_found}
use supryolo.Miner.Shares.Balance.{keys, total, Synced, handle-Synced, submit_found-Synced}

-- What the loop does: it passes a message on and counts its events, or submits a share found.
pub data Round : Type 0 where
  receives : Message → Round
  finds : Found → Round

unfoldable pub mine : List Round → Session → Board → Result (Session × Board)
mine [] s b = ok (s, b)
mine (receives m ∷ rounds) s b = do (s1, out) ← handle m s; mine rounds s1 (on_events out b)
mine (finds f ∷ rounds) s b = do (s1, b1) ← submit_found f s b; mine rounds s1 b1

-- The board when a session begins; the counters are those of the sessions before.
abbrev pub begin_board : Counts → List Counts → ℕ → Board
begin_board view devices candidates = record {
  view = view;
  devices = devices;
  block_candidates = candidates;
  pending = [];
  nextid = 10;
}

mine-Synced :
    (base : ℕ) (rounds : List Round) (s s' : Session) (b b' : Board)
    → mine rounds s b ≡ ok (s', b')
    → base ≤ 2 ^ 63
    → Synced base s b
    → Synced base s' b'
unfolding mine
mine-Synced base [] s s' b b' e small y = subst (λ r. Synced base r.0 r.1) (ok-injective e) y
mine-Synced base (receives m ∷ rounds) s s' b b' e small y =
    let ((s1, out), first, e) = >>=-eq-ok (handle m s) _ e in
    mine-Synced base rounds s1 s' (on_events out b) b' e small
      (handle-Synced base m s s1 out b first small y)
mine-Synced base (finds f ∷ rounds) s s' b b' e small y =
    let ((s1, b1), first, e) = >>=-eq-ok (submit_found f s b) _ e in
    mine-Synced base rounds s1 s' b1 b' e small (submit_found-Synced base f s s1 b b1 first y)

no_shares :
    (host : List ℕ) (port : ℕ) (user : List ℕ) (rate : ℕ) → (init host port user rate).pending ≡ []
unfolding init
no_shares host port user rate = refl

-- Over a Stratum V2 session from the Noise handshake on, for counters that begin with at most 2^63
-- answers and as long as no exception ends it: the shares that the miner holds as pending are, in
-- this order, the session's; and the answers counted in the session, as accepted, rejected or stale,
-- and the pending shares are together as many as the numbers used, from 10 on.
pub mine-balanced :
    (host : List ℕ) (port : ℕ) (user : List ℕ) (rate : ℕ) (view : Counts) (devices : List Counts)
    (candidates : ℕ) (rounds : List Round) (s0 s : Session) (b : Board)
    → start (init host port user rate) ≡ ok s0
    → mine rounds s0 (begin_board view devices candidates) ≡ ok (s, b)
    → total view ≤ 2 ^ 63
    → (keys b.pending ≡ s.pending)
      × (total b.view + length b.pending + 10 ≡ total view + b.nextid)
      × (b.nextid ≤ 2 ^ 32)
mine-balanced host port user rate view devices candidates rounds s0 s b e r small =
    let begun : Synced (total view) s0 (begin_board view devices candidates) = record {
      order = (start-InOrder (init host port user rate) s0 e (init-InOrder host port user rate)).0;
      same = sym (start-pending (init host port user rate) s0 e ∙ no_shares host port user rate);
      summed = (omega arith, omega arith);
    } in
    let y : Synced (total view) s b =
      mine-Synced (total view) rounds s0 s (begin_board view devices candidates) b r small begun in
    (y.same, y.summed.0, y.summed.1)
