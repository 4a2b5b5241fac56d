-- ===== src/Sv2/Session/Settle.antt =====
-- src/sv2_session.cpp: `settle`, and the containers of the session.
pub mod Laws
use supryolo.Base.{
  ℕ, zero, suc, ◌+◌, List, [], ◌∷◌, ◌++◌, Bool, true, false, not, ◌&&◌, ◌||◌, map, length, leb, ltb,
  ◌==◌, if◌then◌else◌, Result, ok, err, ◌>>=◌, ◌>>◌, require,
}

-- One acknowledgement: `count` shares up to sequence number `last`.
pub record Batch : Type 0 where
  pub last : ℕ
  pub count : ℕ

-- The objects that `receive` returns: an accepted share, a rejected one with its code and reason, a
-- new target (sent on as a difficulty, which is not computed here), and the empty object.
pub data Event : Type 0 where
  answer_accepted : ℕ → Event
  answer_rejected : ℕ → ℕ → List ℕ → Event
  retarget : List ℕ → Event
  prompt : Event

-- `==` of texts.
unfoldable pub text_eq : List ℕ → List ℕ → Bool
text_eq [] [] = true
text_eq [] (y ∷ ys) = false
text_eq (x ∷ xs) [] = false
text_eq (x ∷ xs) (y ∷ ys) = x == y && text_eq xs ys

unfoldable pub contains : ℕ → List ℕ → Bool
contains k [] = false
contains k (j ∷ m) = j == k || contains k m

unfoldable pub contains_key {ℓ} : {A : Type ℓ} → ℕ → List (ℕ × A) → Bool
contains_key k [] = false
contains_key k ((j, a) ∷ m) = j == k || contains_key k m

unfoldable pub remove : ℕ → List ℕ → List ℕ
remove k [] = []
remove k (j ∷ m) = if j == k then m else j ∷ remove k m

-- `emplace` keeps the order, and a key that is there.
unfoldable pub insert : ℕ → List ℕ → List ℕ
insert k [] = k ∷ []
insert k (j ∷ m) = if ltb k j then k ∷ j ∷ m else if k == j then j ∷ m else j ∷ insert k m

-- The loop that counts the pending shares up to `last`.
unfoldable pub count_up_to : ℕ → List ℕ → ℕ
count_up_to last [] = 0
count_up_to last (s ∷ m) = (if leb s last then 1 else 0) + count_up_to last m

-- The loop that erases from the front as long as keys are at most `last`: what it erased, the rest.
unfoldable pub split_up_to : ℕ → List ℕ → List ℕ × List ℕ
split_up_to last [] = ([], [])
split_up_to last (s ∷ m) =
    let (front, back) = split_up_to last m in if leb s last then (s ∷ front, back) else ([], s ∷ m)

-- The state that the loop changes and what it appends to `out`.
abbrev pub Settled : Type 0
Settled = List Batch × List ℕ × List Event

answer : List ℕ → Result Settled → Result Settled
answer front (ok (batches, pending, out)) = ok (batches, pending, map answer_accepted front ++ out)
answer front (err why) = err why

unfoldable pub settle : List Batch → List ℕ → Result Settled
unfolding answer
settle [] pending = ok ([], pending, [])
settle (b ∷ batches) pending =
    let (front, back) = split_up_to b.last pending in
    let n = count_up_to b.last pending in
    let rest = settle batches back in
    if ltb n b.count
    then err "SV2 inconsistent accepted count"
    else if n == b.count
    then answer front rest
    else ok (b ∷ batches, pending, [])
