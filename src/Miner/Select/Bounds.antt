-- ===== src/Miner/Select/Bounds.antt =====
-- The workers are at least one and few enough for their nonce ranges.
use supryolo.Base.{
  ℕ, suc, ◌+◌, ◌≤◌, ◌<◌, ◌≡◌, refl, sym, ap, ap₂, ◌∙◌, arith, List, [], ◌∷◌, true, false, not, ◌&&◌,
  length, leb, ltb, ◌==◌, ok, >>=-eq-ok, require, require-ok, ok-injective, length-append,
  length-replicate, map, Bool-cases, inl, inr, ==_iff,
}
use supryolo.Miner.Select.{
  GpuInfo, Options, find_gpu, find_all, select_gpus, count_threads, select, gpu_slots, slots,
}

length-gpu_slots :
    (row : ℕ) (selected : List GpuInfo) → length (gpu_slots row selected) ≡ length selected
unfolding gpu_slots
length-gpu_slots row [] = refl
length-gpu_slots row (d ∷ selected) = ap suc (length-gpu_slots (row + 1) selected)

length-slots :
    (selected : List GpuInfo) (threads : ℕ)
    → length (slots selected threads) ≡ length selected + threads
unfolding slots
length-slots selected threads =
    length-append (gpu_slots 0 selected) _
    ∙ ap₂ (λ a b. a + b) (length-gpu_slots 0 selected) (length-replicate threads _)

some_threads :
    (o : Options) (logical gpus : ℕ)
    → not (gpus == 0 && o.no_cpu) ≡ true
    → 0 < gpus + count_threads o logical gpus
unfolding count_threads
some_threads o logical gpus h = ground arith

find_gpu-index :
    (id : ℕ) (available : List GpuInfo) (d : GpuInfo) → find_gpu id available ≡ ok d → d.index ≡ id
unfolding find_gpu
find_gpu-index id [] d e = cc
find_gpu-index id (g ∷ available) d e = elim (Bool-cases (g.index == id)) [
  | inl hit ↦ ap (λ g. g.index) (sym (ok-injective (rw hit at e))) ∙ (==_iff g.index id).0 hit
  | inr miss ↦ find_gpu-index id available d (rw miss at e)
]

find_all-index :
    (ids : List ℕ) (available found : List GpuInfo)
    → find_all ids available ≡ ok found
    → map (λ d. d.index) found ≡ ids
unfolding find_all
find_all-index [] available found e = ap (map (λ d. d.index)) (sym (ok-injective e))
find_all-index (id ∷ ids) available found e =
    let (d, first, e) = >>=-eq-ok (find_gpu id available) _ e in
    let (rest, others, e) = >>=-eq-ok (find_all ids available) _ e in
    ap (map (λ d. d.index)) (sym (ok-injective e))
    ∙ ap₂ (λ x xs. x ∷ xs) (find_gpu-index id available d first)
        (find_all-index ids available rest others)

select_gpus-explicit :
    (o : Options) (available selected : List GpuInfo)
    → select_gpus o available ≡ ok selected
    → o.no_gpu ≡ false
    → o.devices_explicit ≡ true
    → map (λ d. d.index) selected ≡ o.devices
unfolding select_gpus
select_gpus-explicit o available selected e gpu explicit =
    find_all-index o.devices available selected (rw (gpu, explicit) at e)

no_gpus :
    (o : Options) (available selected : List GpuInfo)
    → select_gpus o available ≡ ok selected
    → o.no_gpu ≡ true
    → selected ≡ []
unfolding select_gpus
no_gpus o available selected e none_allowed = sym (ok-injective (rw none_allowed at e))

-- A selection that is accepted gives at least one worker and at most 192; without GPUs none is
-- selected, and with a list of devices those of the list, in its order.
pub select-workers :
    (o : Options) (available selected : List GpuInfo) (logical threads : ℕ)
    → select o available logical ≡ ok (selected, threads)
    → (0 < length (slots selected threads))
      × (length (slots selected threads) ≤ 192)
      × (o.no_gpu ≡ true → selected ≡ [])
      × (o.no_gpu ≡ false → o.devices_explicit ≡ true → map (λ d. d.index) selected ≡ o.devices)
unfolding select
select-workers o available selected logical threads e =
    let (_, _, e) = >>=-eq-ok (require (ltb 0 (length o.user)) _) _ e in
    let (_, _, e) = >>=-eq-ok (require (not (o.no_cpu && o.no_gpu)) _) _ e in
    let (gpus, chosen, e) = >>=-eq-ok (select_gpus o available) _ e in
    let (_, few, e) = >>=-eq-ok (require (leb (length gpus) 64) _) _ e in
    let (_, any, e) = >>=-eq-ok (require (not (length gpus == 0 && o.no_cpu)) _) _ e in
    let (_, small, e) =
      >>=-eq-ok (require (leb (count_threads o logical (length gpus)) 128) _) _ e in
    let same : gpus ≡ selected = ap (λ r. r.0) (ok-injective e) in
    let count : count_threads o logical (length gpus) ≡ threads = ap (λ r. r.1) (ok-injective e) in
    let (positive, bounded) =
      bounds (length gpus) (count_threads o logical (length gpus)) (require-ok _ _ few)
        (require-ok _ _ small) (some_threads o logical (length gpus) (require-ok _ _ any)) in
    let size : length (slots selected threads)
        ≡ length gpus + count_threads o logical (length gpus) =
      length-slots selected threads
      ∙ ap₂ (λ a b. length {A = GpuInfo} a + b) (sym same) (sym count) in
    (
      omega arith,
      omega arith,
      no_gpus o available selected (chosen ∙ ap ok same),
      select_gpus-explicit o available selected (chosen ∙ ap ok same),
    )
  where
    bounds :
        (g t : ℕ) → leb g 64 ≡ true → leb t 128 ≡ true → 0 < g + t → (0 < g + t) × (g + t ≤ 192)
    bounds g t h h' p = ground arith
