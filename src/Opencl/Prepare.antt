-- ===== src/Opencl/Prepare.antt =====
-- src/opencl/runtime.cpp: the data that `OpenCl::prepare` computes for the kernel.
use supryolo.Base.{ℕ, List, ◌++◌}
use supryolo.Blake2b.{at, g, load_words, initial_state}

-- The state of the hash of 80 bytes, after those steps of the first round that do not read the nonce.
unfoldable pub early_steps : List ℕ → List ℕ
unfolding initial_state
early_steps words =
    let v1 = g 0 4 8 12 (at words 0) (at words 1) (initial_state 80) in
    let v2 = g 1 5 9 13 (at words 2) (at words 3) v1 in g 3 7 11 15 (at words 6) (at words 7) v2

-- `data`: the header's ten words, and the sixteen of the state.
unfoldable pub prepared : List ℕ → List ℕ
unfolding early_steps
prepared h = load_words 10 h ++ early_steps (load_words 10 h)
