-- ===== src/Stats/Search.antt =====
-- Go's `sort.Search`: the least position at which a test holds that stays true once it is. The fuel
-- is the number of positions, and each round at least halves what is left of them.
use test_at_scale.Prelude.{
  ℕ, zero, suc, ◌+◌, ◌-◌, ◌/◌, ◌≤◌, ◌<◌, Bool, ◌≡◌, ltb, leb, arith, if◌then◌else◌,
}

unfoldable pub search_loop : ℕ → (ℕ → Bool) → ℕ → ℕ → ℕ
search_loop zero f i j = i
search_loop (suc fuel) f i j =
    let h = (i + j) / 2 in
    let below = search_loop fuel f i h in
    let above = search_loop fuel f (h + 1) j in
    if ltb i j then (if f h then below else above) else i

unfoldable pub search : ℕ → (ℕ → Bool) → ℕ
unfolding search_loop
search n f = search_loop n f 0 n

module _ (f : ℕ → Bool) (c n : ℕ) (steps : (h : ℕ) → h < n → f h ≡ leb c h) where
  -- With the fuel of the positions that are left, the loop ends at the step of the test.
  search_loop-step :
      (fuel i j : ℕ) → j - i ≤ fuel → i ≤ c → c ≤ j → j ≤ n → search_loop fuel f i j ≡ c
  unfolding search_loop
  search_loop-step zero i j m ic cj jn = omega arith
  search_loop-step (suc fuel) i j m ic cj jn = ground (
    arith,
    steps ((i + j) / 2),
    search_loop-step fuel i ((i + j) / 2),
    search_loop-step fuel ((i + j) / 2 + 1) j,
  )

-- A test that is false below `c` and true from `c` on is found to begin at `c`.
pub search-step :
    (f : ℕ → Bool) (c n : ℕ) → c ≤ n → ((h : ℕ) → h < n → f h ≡ leb c h) → search n f ≡ c
unfolding search
search-step f c n cn steps =
    search_loop-step f c n steps n 0 n (omega arith) (omega arith) cn (omega arith)
